-- ===== src/Mcpack/Decode/TypedTotal.antt =====
-- The fuel that `unmarshal_typed` gives to `value_interface` is enough. The types of the model are
-- finite trees, and its variables of type `interface{}` hold no pointers, so this says nothing of a
-- variable that points to itself.
use gomcpack.Prelude.{ℕ, zero, suc, ◌+◌, ◌<◌, ◌≢◌, Bool, Option, none, some, arith, length}
use gomcpack.Go.{Go, done, panic, out_of_fuel, runtime_error, raised, Returns, ok, err}
use gomcpack.Go.Slice.{Bytes}
use gomcpack.Mcpack.GoType.{
  GoType, bool, int, uint, float32, float64, string, interface, ptr, struct, string_map, slice,
  array, custom, FieldTypes, no_fields, field, Var, Vars, zero_var, extend,
}
use gomcpack.Mcpack.Value.{uint8_kind}
use gomcpack.Mcpack.Decode.State.{DecodeState, Decoder, peek, next}
use gomcpack.Mcpack.Decode.Interface.{container_header, object_interface, value_interface}
use gomcpack.Mcpack.Decode.Setters.{item_into}
use gomcpack.Mcpack.Decode.Typed.{
  Library, set_string, set_bytes, set_bool, set_int, set_uint, set_float, string_byte,
  string_elements, string_array, typed_target, item_of, called, custom_into, member_test, decode,
  store_at, finish_typed, unmarshal_typed,
}
use gomcpack.Mcpack.Decode.Ends.{
  Moves, IsEnded, Ends, Ends-peek, Ends-throw, Ends-bind, Ends-pure, Ends-if,
}
use gomcpack.Mcpack.Decode.EndsItems.{Ends-next}
use gomcpack.Mcpack.Decode.Total.{Ends-header_alone, Ends-object, value_interface-Ends}
use gomcpack.Mcpack.Decode.TypedEnds.{
  EndsTarget, Ends-item_into, Ends-null_into, Ends-plain_object, Ends-plain_array, Ends-skip_items,
  Ends-members_into, Ends-slice_into, Ends-array_into, Ends-map_into, Ends-map_array,
}

set_string-IsEnded : (τ : GoType) (s : Bytes) → IsEnded (set_string τ s)
set_string-IsEnded string s = tt
set_string-IsEnded _ s = tt

set_bytes-IsEnded : (τ : GoType) (s : Bytes) → IsEnded (set_bytes τ s)
set_bytes-IsEnded (slice (uint uint8_kind)) s = tt
set_bytes-IsEnded (slice (uint _)) s = tt
set_bytes-IsEnded (slice _) s = tt
set_bytes-IsEnded _ s = tt

set_bool-IsEnded : (τ : GoType) (b : Bool) → IsEnded (set_bool τ b)
set_bool-IsEnded bool b = tt
set_bool-IsEnded _ b = tt

set_int-IsEnded : (τ : GoType) (n : ℕ) → IsEnded (set_int τ n)
set_int-IsEnded (int kind) n = tt
set_int-IsEnded _ n = tt

set_uint-IsEnded : (τ : GoType) (n : ℕ) → IsEnded (set_uint τ n)
set_uint-IsEnded (uint kind) n = tt
set_uint-IsEnded _ n = tt

set_float-IsEnded : (narrow : ℕ → ℕ) (τ : GoType) (n : ℕ) → IsEnded (set_float narrow τ n)
set_float-IsEnded narrow float64 n = tt
set_float-IsEnded narrow float32 n = tt
set_float-IsEnded narrow _ n = tt

module _ (lib : Library) (l : ℕ) where
  Ends-item_of :
      (τ : GoType) (v : Var τ) (members items : Decoder (Var τ))
      → Ends l members
      → Ends l items
      → Ends l (item_of lib τ v members items)
  unfolding item_of
  Ends-item_of τ v members items em ei = Ends-bind l peek _ (Ends-peek l) (
      Ends-item_into l lib.widen (extend 32) (typed_target lib τ v members items) (record {
        set_string = set_string-IsEnded τ;
        set_bytes = set_bytes-IsEnded τ;
        set_bool = set_bool-IsEnded τ;
        set_int = set_int-IsEnded τ;
        set_uint = set_uint-IsEnded τ;
        set_float = set_float-IsEnded lib.narrow τ;
        set_zero = tt;
        object = em;
        array = ei;
      }))

  string_byte-EndsTarget : EndsTarget l (string_byte lib)
  unfolding string_byte
  string_byte-EndsTarget = record {
    set_string = λ s. tt;
    set_bytes = λ s. tt;
    set_bool = λ b. tt;
    set_int = λ n. tt;
    set_uint = λ n. tt;
    set_float = λ x. tt;
    set_zero = tt;
    object = Ends-plain_object l tt;
    array = Ends-plain_array l;
  }

  Ends-string_elements : (n len : ℕ) → Ends l (string_elements lib n len)
  unfolding string_elements
  Ends-string_elements zero len = Ends-pure l tt
  Ends-string_elements (suc n) zero = Ends-skip_items l (suc n)
  Ends-string_elements (suc n) (suc len) = Ends-bind l peek _ (Ends-peek l) λ t.
      Ends-bind l (item_into lib.widen (extend 32) (string_byte lib) t) _
        (Ends-item_into l lib.widen (extend 32) (string_byte lib) string_byte-EndsTarget t)
        λ _. Ends-string_elements n len

  Ends-string_array : (v : Bytes) → Ends l (string_array lib v)
  unfolding string_array
  Ends-string_array v = Ends-bind l _ _ (Ends-header_alone l) λ n.
      Ends-bind l (string_elements lib n (length v)) _ (Ends-string_elements n (length v))
        λ _. Ends-pure l v

  Ends-called : {A : Type 0} (r : Returns A) → Ends l (called r)
  Ends-called (ok w) = Ends-pure l w
  Ends-called (err e) = Ends-throw l (raised e)

  Ends-custom_into : (v : Bytes) → Ends l (custom_into lib v)
  unfolding custom_into
  Ends-custom_into v =
      Ends-bind l next _ (Ends-next l) λ bs. Ends-called (lib.unmarshal_mcpack v bs)

  module _ (fuel : ℕ) (enough : l < fuel) where
    Ends-interface : Ends l (object_interface (value_interface fuel))
    Ends-interface =
        Ends-object l (value_interface fuel) λ l' e. value_interface-Ends fuel l' (omega arith)

    mutual
      unfolding decode store_at

      Ends-decode : (τ : GoType) (v : Var τ) → Ends l (decode lib fuel τ v)
      Ends-decode bool v = Ends-item_of bool v _ _ (Ends-plain_object l v) (Ends-plain_array l)
      Ends-decode (int kind) v =
          Ends-item_of (int kind) v _ _ (Ends-plain_object l v) (Ends-plain_array l)
      Ends-decode (uint kind) v =
          Ends-item_of (uint kind) v _ _ (Ends-plain_object l v) (Ends-plain_array l)
      Ends-decode float32 v =
          Ends-item_of float32 v _ _ (Ends-plain_object l v) (Ends-plain_array l)
      Ends-decode float64 v =
          Ends-item_of float64 v _ _ (Ends-plain_object l v) (Ends-plain_array l)
      Ends-decode string v = Ends-item_of string v _ _ (Ends-plain_object l v) (Ends-string_array v)
      Ends-decode interface v = Ends-item_of interface v _ _ Ends-interface (Ends-plain_array l)
      Ends-decode (ptr τ) none = Ends-bind l peek _ (Ends-peek l) λ t.
          Ends-if l _ _ _ (Ends-null_into l (done none) tt)
            (Ends-bind l _ _ (Ends-decode τ (zero_var τ)) λ w. Ends-pure l (some w))
      Ends-decode (ptr τ) (some v) = Ends-bind l _ _ (Ends-decode τ v) λ w. Ends-pure l (some w)
      Ends-decode (struct fs) v =
          Ends-item_of (struct fs) v _ _
            (Ends-bind l container_header _ (Ends-header_alone l)
              λ n. Ends-members_into l _ n v λ k vs. Ends-store_at fs (member_test lib fs k) vs)
            (Ends-plain_array l)
      Ends-decode (string_map τ) v =
          Ends-item_of (string_map τ) v _ _ (Ends-map_into l _ v (Ends-decode τ (zero_var τ)))
            (Ends-map_array l v)
      Ends-decode (slice τ) v =
          Ends-item_of (slice τ) v _ _ (Ends-plain_object l v)
            (Ends-slice_into l (decode lib fuel τ) (Ends-decode τ) (zero_var τ) v)
      Ends-decode (array n τ) v =
          Ends-item_of (array n τ) v _ _ (Ends-plain_object l v)
            (Ends-array_into l (decode lib fuel τ) (Ends-decode τ) (zero_var τ) v)
      Ends-decode custom v = Ends-custom_into v

      Ends-store_at :
          (fs : FieldTypes) (same : Bytes → Bool) (vs : Vars fs)
          → Ends l (store_at lib fuel fs same vs)
      Ends-store_at no_fields same vs = Ends-bind l next _ (Ends-next l) λ bs. Ends-pure l vs
      Ends-store_at (field name o τ fs) same (v, vs) =
          Ends-if l (same name) _ _ (Ends-bind l _ _ (Ends-decode τ v) λ w. Ends-pure l (w, vs))
            (Ends-bind l _ _ (Ends-store_at fs same vs) λ ws. Ends-pure l (v, ws))

finish_typed-ne-out_of_fuel :
    {A : Type 0} (s : DecodeState) (r : Go (A × DecodeState))
    → Moves s r
    → finish_typed r ≢ out_of_fuel
unfolding finish_typed
finish_typed-ne-out_of_fuel s (done (v, s')) h = ground arith
finish_typed-ne-out_of_fuel s (panic runtime_error) h = λ e. cc
finish_typed-ne-out_of_fuel s (panic (raised x)) h = λ e. cc
finish_typed-ne-out_of_fuel s out_of_fuel h = absurd h

-- `unmarshal_typed` never runs out of fuel, whatever the conversions of floats, the comparison of names
-- and the method `UnmarshalMCPACK` do.
pub unmarshal_typed-ne-out_of_fuel :
    (lib : Library) (τ : GoType) (v : Option (Var τ)) (input spare : Bytes)
    → unmarshal_typed lib τ v input spare ≢ out_of_fuel
unfolding unmarshal_typed
unmarshal_typed-ne-out_of_fuel lib τ none input spare = λ e. cc
unmarshal_typed-ne-out_of_fuel lib τ (some v) input spare =
    let s : DecodeState = record { input = input; spare = spare; off = 0 } in
    finish_typed-ne-out_of_fuel s _
      ((Ends-decode lib (length input) (length input + 1) (omega arith) τ v).at s (omega arith))
