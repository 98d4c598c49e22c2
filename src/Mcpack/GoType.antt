-- ===== src/Mcpack/GoType.antt =====
-- The types of the variables that `Unmarshal` fills, and the values that a variable of each type
-- holds. A type is a finite tree: a type that holds pointers to itself is none. A struct has its
-- fields as `cachedTypeFields` lists them, each with its name and its `omitempty` flag, at index paths
-- of one step. `custom` is a type whose pointer has the method `UnmarshalMCPACK`, with its values as
-- bytes. Kinds with no case in mcpack/decode.go (functions, channels, complex numbers, maps whose keys
-- are no strings, interfaces with methods) are left out.
use gomcpack.Prelude.{
  ℕ, ◌+◌, ◌-◌, ◌%◌, ◌^◌, Bool, false, Option, none, List, [], replicate, ltb, if◌then◌else◌,
}
use gomcpack.Go.Slice.{Bytes}
use gomcpack.Mcpack.Value.{
  IntKind, int8_kind, int16_kind, int32_kind, UintKind, uint8_kind, uint16_kind, uint32_kind,
}
use gomcpack.Mcpack.Dyn.{Dyn}

mutual
  pub data GoType : Type 0 where
    bool : GoType
    int : IntKind → GoType
    uint : UintKind → GoType
    float32 float64 : GoType
    string : GoType
    interface : GoType
    ptr : GoType → GoType
    struct : FieldTypes → GoType
    string_map : GoType → GoType
    slice : GoType → GoType
    array : ℕ → GoType → GoType
    custom : GoType

  pub data FieldTypes : Type 0 where
    no_fields : FieldTypes
    field : Bytes → Bool → GoType → FieldTypes → FieldTypes

-- Integers are the 64-bit patterns of `v.Int()` and `v.Uint()`, floats their own patterns. A nil
-- pointer, map or slice is `none`; a slice that is not nil has its elements and those between its
-- length and its capacity. A variable of type `interface{}` holds what the decoder stores there.
abbrev pub Elems : Type 0 → Type 0
Elems A = List A × List A

abbrev mutual
  pub Var : GoType → Type 0
  Var bool = Bool
  Var (int kind) = ℕ
  Var (uint kind) = ℕ
  Var float32 = ℕ
  Var float64 = ℕ
  Var string = Bytes
  Var interface = Dyn
  Var (ptr τ) = Option (Var τ)
  Var (struct fs) = Vars fs
  Var (string_map τ) = Option (List (Bytes × Var τ))
  Var (slice τ) = Option (Elems (Var τ))
  Var (array n τ) = List (Var τ)
  Var custom = Bytes

  pub Vars : FieldTypes → Type 0
  Vars no_fields = Unit
  Vars (field name o τ fs) = Var τ × Vars fs

-- `reflect.Zero(t)`
abbrev mutual
  pub zero_var : (τ : GoType) → Var τ
  zero_var bool = false
  zero_var (int kind) = 0
  zero_var (uint kind) = 0
  zero_var float32 = 0
  zero_var float64 = 0
  zero_var string = []
  zero_var interface = Dyn.nil
  zero_var (ptr τ) = none
  zero_var (struct fs) = zero_vars fs
  zero_var (string_map τ) = none
  zero_var (slice τ) = none
  zero_var (array n τ) = replicate n (zero_var τ)
  zero_var custom = []

  pub zero_vars : (fs : FieldTypes) → Vars fs
  zero_vars no_fields = tt
  zero_vars (field name o τ fs) = (zero_var τ, zero_vars fs)

-- The widths of the kinds; `int`, `uint` and `uintptr` have 64 bits.
abbrev pub int_width : IntKind → ℕ
int_width int8_kind = 8
int_width int16_kind = 16
int_width int32_kind = 32
int_width _ = 64

abbrev pub uint_width : UintKind → ℕ
uint_width uint8_kind = 8
uint_width uint16_kind = 16
uint_width uint32_kind = 32
uint_width _ = 64

-- The 64-bit pattern of a number whose low `w` bits are those of `n`, read with their sign.
unfoldable pub extend : ℕ → ℕ → ℕ
extend w n = if ltb (n % 2 ^ w) (2 ^ (w - 1)) then n % 2 ^ w else n % 2 ^ w + (2 ^ 64 - 2 ^ w)
