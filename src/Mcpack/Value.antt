-- ===== src/Mcpack/Value.antt =====
-- The Go values that `Marshal` takes, as its encoders see them through `reflect`: a tree that has
-- at each node the kind of the static type there, which alone selects the encoder. A struct holds
-- its fields as `cachedTypeFields` lists them, each with its name, its `omitempty` flag and the value
-- at its index path. A map with string keys holds its entries in the order in which `MapKeys`
-- returns them.
use gomcpack.Prelude.{ℕ, suc, ◌-◌, ◌%◌, ◌^◌, Bool, true, false, not, length, ◌==◌}
use gomcpack.Go.Slice.{Bytes}

-- `int8` to `int64`, and `int`.
pub data IntKind : Type 0 where
  int_kind int8_kind int16_kind int32_kind int64_kind : IntKind

-- `uint8` to `uint64`, `uint` and `uintptr`.
pub data UintKind : Type 0 where
  uint_kind uint8_kind uint16_kind uint32_kind uint64_kind uintptr_kind : UintKind

-- `invalid` is the zero `reflect.Value`; `unsupported` a value of a kind with no encoder, or a map
-- whose keys are no strings. An integer is the 64-bit pattern of `v.Int()` or `v.Uint()`, a float
-- its IEEE 754 pattern. `bytes` is a slice whose element kind is `uint8`.
mutual
  pub data Value : Type 0 where
    invalid unsupported : Value
    bool : Bool → Value
    int : IntKind → ℕ → Value
    uint : UintKind → ℕ → Value
    float32 : ℕ → Value
    float64 : ℕ → Value
    string : Bytes → Value
    bytes : Bytes → Value
    nil_interface : Value
    interface : Value → Value
    nil_ptr : Value
    ptr : Value → Value
    struct : Fields → Value
    string_map : Entries → Value
    slice : Items → Value
    array : Items → Value

  pub data Fields : Type 0 where
    no_fields : Fields
    field : Bytes → Bool → Value → Fields → Fields

  pub data Entries : Type 0 where
    no_entries : Entries
    entry : Bytes → Value → Entries → Entries

  pub data Items : Type 0 where
    no_items : Items
    item : Value → Items → Items

-- `len(se.fields)`, `len(v.MapKeys())` and `v.Len()`
abbrev pub count_fields : Fields → ℕ
count_fields no_fields = 0
count_fields (field k o v fs) = suc (count_fields fs)

abbrev pub count_entries : Entries → ℕ
count_entries no_entries = 0
count_entries (entry k v es) = suc (count_entries es)

abbrev pub count_items : Items → ℕ
count_items no_items = 0
count_items (item v xs) = suc (count_items xs)

-- `v.IsValid()`
unfoldable pub is_valid : Value → Bool
is_valid invalid = false
is_valid _ = true

-- The test `x == 0` of a float: the patterns of 0 and of -0.
abbrev pub is_zero_float : ℕ → ℕ → Bool
is_zero_float width bits = bits % 2 ^ (width - 1) == 0

-- `uintptr`, structs and what is unsupported are never empty. The nil map and the nil slice have
-- length 0.
unfoldable pub is_empty_value : Value → Bool
is_empty_value (bool b) = not b
is_empty_value (int kind n) = n == 0
is_empty_value (uint uintptr_kind n) = false
is_empty_value (uint _ n) = n == 0
is_empty_value (float32 bits) = is_zero_float 32 bits
is_empty_value (float64 bits) = is_zero_float 64 bits
is_empty_value (string s) = length s == 0
is_empty_value (bytes s) = length s == 0
is_empty_value nil_interface = true
is_empty_value (interface v) = false
is_empty_value nil_ptr = true
is_empty_value (ptr v) = false
is_empty_value (string_map es) = count_entries es == 0
is_empty_value (slice xs) = count_items xs == 0
is_empty_value (array xs) = count_items xs == 0
is_empty_value _ = false
