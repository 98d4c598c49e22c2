-- ===== src/Mcpack/Decode/Typed.antt =====
-- mcpack/decode.go: `Unmarshal` into a variable of any type, with `value`, `indirect`, `object` and
-- `array`. A variable that is not set keeps its value. After an error or a panic the variables are
-- not described. A `[]byte` that is set shares the array of the input: its capacity behind its length,
-- the writes through it and the array items that are stored in this capacity are not described. A
-- variable of type `interface{}` holds no pointer, which `indirect` would follow.
use gomcpack.Prelude.{
  ℕ, zero, suc, ◌+◌, ◌%◌, ◌^◌, Bool, true, false, Option, none, some, [], length, ◌==◌, bytes_eq,
  if◌then◌else◌,
}
use gomcpack.Go.{
  Go, done, panic, out_of_fuel, raised, runtime_error, unexpected_end, invalid_unmarshal, Returns,
  ok, err,
}
use gomcpack.Go.Slice.{Bytes}
use gomcpack.Go.Proc.{◌>>=◌, ◌>>◌, pure, throw}
use gomcpack.Mcpack.Const.{null_type}
use gomcpack.Mcpack.Value.{uint8_kind}
use gomcpack.Mcpack.Fold.{fold_func}
use gomcpack.Mcpack.GoType.{
  GoType, bool, int, uint, float32, float64, string, interface, ptr, struct, string_map, slice,
  array, custom, FieldTypes, no_fields, field, Var, Vars, zero_var, int_width, uint_width, extend,
}
use gomcpack.Mcpack.Decode.State.{DecodeState, Decoder, peek, next}
use gomcpack.Mcpack.Decode.Interface.{container_header, object_interface, value_interface}
use gomcpack.Mcpack.Decode.Loops.{
  plain_object, plain_array, skip_items, members_into, slice_into, array_into, map_into, map_array,
}
use gomcpack.Mcpack.Decode.Setters.{Target, item_into, null_into, wrong_value, not_settable}

-- What the decoder takes from elsewhere: the conversions of floats, `bytes.EqualFold`, and the method
-- `UnmarshalMCPACK` of the custom type, by the value before and the item.
pub record Library : Type 0 where
  pub widen : ℕ → ℕ
  pub narrow : ℕ → ℕ
  pub equal_fold : Bytes → Bytes → Bool
  pub unmarshal_mcpack : Bytes → Bytes → Returns Bytes

-- `v.SetString(s)` to `v.SetFloat(x)` by the kind of `v`.
abbrev pub set_string : (τ : GoType) → Bytes → Go (Var τ)
set_string string s = done s
set_string τ s = wrong_value

abbrev pub set_bytes : (τ : GoType) → Bytes → Go (Var τ)
set_bytes (slice (uint uint8_kind)) s = done (some (s, []))
set_bytes (slice τ) s = not_settable
set_bytes τ s = wrong_value

abbrev pub set_bool : (τ : GoType) → Bool → Go (Var τ)
set_bool bool b = done b
set_bool τ b = wrong_value

abbrev pub set_int : (τ : GoType) → ℕ → Go (Var τ)
set_int (int kind) n = done (extend (int_width kind) n)
set_int τ n = wrong_value

abbrev pub set_uint : (τ : GoType) → ℕ → Go (Var τ)
set_uint (uint kind) n = done (n % 2 ^ uint_width kind)
set_uint τ n = wrong_value

abbrev pub set_float : (ℕ → ℕ) → (τ : GoType) → ℕ → Go (Var τ)
set_float narrow float64 x = done x
set_float narrow float32 x = done (narrow x)
set_float narrow τ x = wrong_value

abbrev pub has_name : (Bytes → Bool) → FieldTypes → Bool
has_name same no_fields = false
has_name same (field name o τ fs) = if same name then true else has_name same fs

-- `if err := …; err != nil { d.error(err) }`
abbrev pub called : {A : Type 0} → Returns A → Decoder A
called (ok w) = pure w
called (err e) = throw (raised e)

-- The end of `unmarshal`.
unfoldable pub finish_typed : {A : Type 0} → Go (A × DecodeState) → Go (Returns A)
finish_typed (done (v, s)) =
    if s.off == length s.input then done (ok v) else done (err unexpected_end)
finish_typed (panic runtime_error) = panic runtime_error
finish_typed (panic (raised e)) = done (err e)
finish_typed out_of_fuel = out_of_fuel

module _ (lib : Library) where
  -- A byte of a string, which cannot be set.
  unfoldable pub string_byte : Target (Unit {0})
  unfolding plain_object plain_array
  string_byte = record {
    set_string = λ s. not_settable;
    set_bytes = λ s. not_settable;
    set_bool = λ b. not_settable;
    set_int = λ n. not_settable;
    set_uint = λ n. not_settable;
    set_float = λ x. not_settable;
    set_zero = not_settable;
    object = plain_object tt;
    array = plain_array;
    unchanged = tt;
  }

  -- An array for a string: its bytes stand for elements.
  unfoldable pub string_elements : ℕ → ℕ → Decoder (Unit {0})
  unfolding string_byte item_into skip_items
  string_elements zero len = pure tt
  string_elements (suc n) zero = skip_items (suc n)
  string_elements (suc n) (suc len) = do
    t ← peek
    item_into lib.widen (extend 32) string_byte t
    string_elements n len

  unfoldable pub string_array : Bytes → Decoder Bytes
  unfolding container_header string_elements
  string_array v = do n ← container_header; string_elements n (length v); pure v

  -- A variable of a type that `indirect` leaves as it is, with what `object` and `array` do with it.
  unfoldable pub typed_target :
      (τ : GoType) → Var τ → Decoder (Var τ) → Decoder (Var τ) → Target (Var τ)
  typed_target τ v members items = record {
    set_string = set_string τ;
    set_bytes = set_bytes τ;
    set_bool = set_bool τ;
    set_int = set_int τ;
    set_uint = set_uint τ;
    set_float = set_float lib.narrow τ;
    set_zero = done (zero_var τ);
    object = members;
    array = items;
    unchanged = v;
  }

  unfoldable pub item_of :
      (τ : GoType) → Var τ → Decoder (Var τ) → Decoder (Var τ) → Decoder (Var τ)
  unfolding typed_target item_into
  item_of τ v members items = do
    t ← peek
    item_into lib.widen (extend 32) (typed_target τ v members items) t

  -- `u.UnmarshalMCPACK(d.next())`
  unfoldable pub custom_into : Bytes → Decoder Bytes
  custom_into v = do bs ← next; called (lib.unmarshal_mcpack v bs)

  -- The test of names by which a key finds its field: the name is the key, or else equal but for case.
  unfoldable pub member_test : FieldTypes → Bytes → Bytes → Bool
  member_test fs k =
      let exact : Bytes → Bool = λ name. bytes_eq name k in
      let folded : Bytes → Bool = λ name. fold_func lib.equal_fold name name k in
      if has_name exact fs then exact else folded

  -- `d.value(v)` with the pointers that `indirect` follows or makes; `fuel` is for the recursion of
  -- `valueInterface`. `store_at` gives a member to the first field of the names that it is told, and
  -- skips the item if there is none.
  unfoldable mutual
    unfolding item_of plain_object plain_array custom_into member_test slice_into array_into
        map_into map_array string_array members_into

    pub decode : ℕ → (τ : GoType) → Var τ → Decoder (Var τ)
    decode fuel bool v = item_of bool v (plain_object v) plain_array
    decode fuel (int kind) v = item_of (int kind) v (plain_object v) plain_array
    decode fuel (uint kind) v = item_of (uint kind) v (plain_object v) plain_array
    decode fuel float32 v = item_of float32 v (plain_object v) plain_array
    decode fuel float64 v = item_of float64 v (plain_object v) plain_array
    decode fuel string v = item_of string v (plain_object v) (string_array v)
    decode fuel interface v =
        item_of interface v (object_interface (value_interface fuel)) plain_array
    decode fuel (ptr τ) none = do
      t ← peek
      let null = null_into (done none)
      let made = decode fuel τ (zero_var τ) >>= λ w. pure (some w)
      if t == null_type then null else made
    decode fuel (ptr τ) (some v) = do w ← decode fuel τ v; pure (some w)
    decode fuel (struct fs) v =
        item_of (struct fs) v
          (container_header >>= λ n. members_into (λ k. store_at fuel fs (member_test fs k)) n v)
          plain_array
    decode fuel (string_map τ) v =
        item_of (string_map τ) v (map_into (decode fuel τ (zero_var τ)) v) (map_array v)
    decode fuel (slice τ) v =
        item_of (slice τ) v (plain_object v) (slice_into (decode fuel τ) (zero_var τ) v)
    decode fuel (array n τ) v =
        item_of (array n τ) v (plain_object v) (array_into (decode fuel τ) (zero_var τ) v)
    decode fuel custom v = custom_into v

    pub store_at : ℕ → (fs : FieldTypes) → (Bytes → Bool) → Vars fs → Decoder (Vars fs)
    store_at fuel no_fields same vs = next >>= λ bs. pure vs
    store_at fuel (field name o τ fs) same (v, vs) =
        let here = decode fuel τ v >>= λ w. pure (w, vs) in
        let later = store_at fuel fs same vs >>= λ ws. pure (v, ws) in
        if same name then here else later

  -- `Unmarshal(data, v)` on a pointer to a variable, or on a nil pointer.
  unfoldable pub unmarshal_typed :
      (τ : GoType) → Option (Var τ) → Bytes → Bytes → Go (Returns (Var τ))
  unfolding decode finish_typed
  unmarshal_typed τ none input spare = done (err invalid_unmarshal)
  unmarshal_typed τ (some v) input spare =
      finish_typed
        (decode (length input + 1) τ v (record { input = input; spare = spare; off = 0 }))
