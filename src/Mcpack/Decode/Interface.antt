-- ===== src/Mcpack/Decode/Interface.antt =====
-- `valueInterface` with its containers. The recursion is as deep as the containers of the input are
-- nested, and runs on fuel; the loops count the members down.
use gomcpack.Prelude.{ℕ, zero, suc, ◌+◌, Option, none, some, not, length, ◌==◌, if◌then◌else◌}
use gomcpack.Go.{
  Go, done, panic, out_of_fuel, raised, runtime_error, Returns, ok, err, unexpected_end,
  reflect_error,
}
use gomcpack.Go.Slice.{Bytes}
use gomcpack.Go.Proc.{◌>>=◌, ◌>>◌, pure, throw}
use gomcpack.Mcpack.Const.{
  object_type, array_type, string_type, binary_type, int32_type, int64_type, uint32_type,
  uint64_type, bool_type, float_type, double_type, null_type, short_string_type, short_binary_type,
}
use gomcpack.Mcpack.Number.{uint32}
use gomcpack.Mcpack.Dyn.{
  Dyn, nil, object, array, Members, no_members, map_set, Elements, no_elements, element,
}
use gomcpack.Mcpack.Decode.State.{DecodeState, Decoder, peek, read, advance, type_and_klen, key}
use gomcpack.Mcpack.Decode.Items.{
  string_interface, short_string_interface, binary_interface, short_binary_interface,
  int32_interface, uint32_interface, int64_interface, uint64_interface, float_interface,
  double_interface, null_interface, bool_interface,
}

-- The header of a container, up to the number of members; the content length is skipped.
unfoldable pub container_header : Decoder ℕ
unfolding type_and_klen
container_header = do
  klen ← type_and_klen
  advance 4
  advance klen
  n ← read uint32 0
  advance 4
  pure n

-- `for i := 0; i < n; i++ { subk := d.key(); m[string(subk)] = d.valueInterface() }`
unfoldable pub members_loop : Decoder Dyn → ℕ → Members → Decoder Members
members_loop value zero m = pure m
members_loop value (suc n) m = do subk ← key; v ← value; members_loop value n (map_set subk v m)

unfoldable pub object_interface : Decoder Dyn → Decoder Dyn
unfolding container_header members_loop
object_interface value = do
  n ← container_header
  m ← members_loop value n no_members
  pure (object m)

-- `for i := 0; i < n; i++ { v[i] = d.valueInterface() }`
unfoldable pub elements_loop : Decoder Dyn → ℕ → Decoder Elements
elements_loop value zero = pure no_elements
elements_loop value (suc n) = do v ← value; vs ← elements_loop value n; pure (element v vs)

unfoldable pub array_interface : Decoder Dyn → Decoder Dyn
unfolding container_header elements_loop
array_interface value = do n ← container_header; vs ← elements_loop value n; pure (array vs)

-- The switch of `valueInterface`. On a type that it does not know it returns nil and stays in place.
unfoldable pub value_of_type : Decoder Dyn → ℕ → Decoder Dyn
unfolding object_interface array_interface
value_of_type value t =
    if t == object_type
    then object_interface value
    else if t == array_type
    then array_interface value
    else if t == string_type
    then string_interface
    else if t == short_string_type
    then short_string_interface
    else if t == binary_type
    then binary_interface
    else if t == short_binary_type
    then short_binary_interface
    else if t == int32_type
    then int32_interface
    else if t == int64_type
    then int64_interface
    else if t == uint32_type
    then uint32_interface
    else if t == uint64_type
    then uint64_interface
    else if t == bool_type
    then bool_interface
    else if t == float_type
    then float_interface
    else if t == double_type
    then double_interface
    else if t == null_type
    then null_interface
    else pure nil

unfoldable pub value_interface : ℕ → Decoder Dyn
unfolding value_of_type
value_interface zero = λ s. out_of_fuel
value_interface (suc f) = let value = value_interface f in do t ← peek; value_of_type value t

-- `Set…` of `reflect` on a value of kind Interface: a panic with a `*reflect.ValueError`.
unfoldable pub wrong_kind : Decoder Dyn → Decoder (Option Dyn)
wrong_kind m = do v ← m; throw (raised reflect_error)

-- `d.value(v)` on a variable of type `interface{}` that holds nil: `indirect` stops at the variable
-- itself. Only an object and null can be stored there; `array` calls `v.Len()` on it behind the
-- header. `none` leaves the variable as it is.
unfoldable pub store_of_type : Decoder Dyn → ℕ → Decoder (Option Dyn)
unfolding object_interface container_header wrong_kind
store_of_type value t =
    if t == object_type
    then (do v ← object_interface value; pure (some v))
    else if t == array_type
    then (do n ← container_header; throw (raised reflect_error))
    else if t == string_type
    then wrong_kind string_interface
    else if t == short_string_type
    then wrong_kind short_string_interface
    else if t == binary_type
    then wrong_kind binary_interface
    else if t == short_binary_type
    then wrong_kind short_binary_interface
    else if t == int32_type
    then wrong_kind int32_interface
    else if t == int64_type
    then wrong_kind int64_interface
    else if t == uint32_type
    then wrong_kind uint32_interface
    else if t == uint64_type
    then wrong_kind uint64_interface
    else if t == bool_type
    then wrong_kind bool_interface
    else if t == float_type
    then wrong_kind float_interface
    else if t == double_type
    then wrong_kind double_interface
    else if t == null_type
    then (do v ← null_interface; pure (some v))
    else pure none

unfoldable pub value_into_interface : ℕ → Decoder (Option Dyn)
unfolding store_of_type value_interface
value_into_interface f = do t ← peek; store_of_type (value_interface f) t

-- The end of `unmarshal` with its deferred `recover`.
unfoldable pub finish_unmarshal : Go (Option Dyn × DecodeState) → Go (Returns (Option Dyn))
finish_unmarshal (done (v, s)) =
    if not (s.off == length s.input) then done (err unexpected_end) else done (ok v)
finish_unmarshal (panic runtime_error) = panic runtime_error
finish_unmarshal (panic (raised e)) = done (err e)
finish_unmarshal out_of_fuel = out_of_fuel

-- `Unmarshal(data, &x)` for `var x interface{}`. An item of a container is shorter than the
-- container by its header of ten bytes, so the length of the input is enough fuel.
unfoldable pub unmarshal_interface : Bytes → Bytes → Go (Returns (Option Dyn))
unfolding value_into_interface finish_unmarshal
unmarshal_interface input spare =
    finish_unmarshal
      (value_into_interface (length input + 1) (record { input = input; spare = spare; off = 0 }))
