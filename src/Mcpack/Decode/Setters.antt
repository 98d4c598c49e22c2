-- ===== src/Mcpack/Decode/Setters.antt =====
-- mcpack/decode.go: the methods that read an item and set a variable of a given kind: `string`,
-- `shortString`, `binary`, `shortBinary`, `int32`, `int64`, `uint32`, `uint64`, `bool`, `float`,
-- `double` and `null`. What `v.SetString(val)` and its kin do is an argument: the variable
-- afterwards, or a panic.
use gomcpack.Prelude.{ℕ, ◌==◌, Bool, true, false, if◌then◌else◌}
use gomcpack.Go.{Go, panic, raised, runtime_error, reflect_error}
use gomcpack.Go.Slice.{Bytes}
use gomcpack.Go.Proc.{◌>>=◌, ◌>>◌, pure, lift}
use gomcpack.Mcpack.Const.{
  object_type, array_type, string_type, binary_type, int32_type, int64_type, uint32_type,
  uint64_type, bool_type, float_type, double_type, null_type, short_string_type, short_binary_type,
}
use gomcpack.Mcpack.Number.{
  uint8, uint32, int32, int64, uint64, float32 as load_float32, float64 as load_float64,
}
use gomcpack.Mcpack.Decode.State.{Decoder, peek, read, advance, type_and_klen}
use gomcpack.Mcpack.Decode.Items.{string_content, binary_content}

module _ {A : Type 0} where
  unfoldable pub string_into : (Bytes → Go A) → Decoder A
  unfolding type_and_klen string_content
  string_into set = do
    klen ← type_and_klen
    vlen ← read uint32 0
    advance 4
    advance klen
    val ← string_content vlen
    lift (set val)

  unfoldable pub short_string_into : (Bytes → Go A) → Decoder A
  unfolding type_and_klen string_content
  short_string_into set = do
    klen ← type_and_klen
    vlen ← read uint8 0
    advance 1
    advance klen
    val ← string_content vlen
    lift (set val)

  unfoldable pub binary_into : (Bytes → Go A) → Decoder A
  unfolding type_and_klen binary_content
  binary_into set = do
    klen ← type_and_klen
    vlen ← read uint32 0
    advance 4
    advance klen
    val ← binary_content vlen
    lift (set val)

  unfoldable pub short_binary_into : (Bytes → Go A) → Decoder A
  unfolding type_and_klen binary_content
  short_binary_into set = do
    klen ← type_and_klen
    vlen ← read uint8 0
    advance 1
    advance klen
    val ← binary_content vlen
    lift (set val)

  -- A number of `width` bytes behind the name.
  unfoldable pub number_into : (Bytes → Go ℕ) → ℕ → (ℕ → Go A) → Decoder A
  unfolding type_and_klen
  number_into get width set = do
    klen ← type_and_klen
    advance klen
    val ← read get 0
    advance width
    lift (set val)

  -- `int64(val)` of an `int32` is `extend32`, and `float64(val)` of a `float32` is `widen`.
  unfoldable pub int32_into : (ℕ → ℕ) → (ℕ → Go A) → Decoder A
  unfolding number_into
  int32_into extend32 set = number_into int32 4 (λ val. set (extend32 val))

  unfoldable pub uint32_into : (ℕ → Go A) → Decoder A
  unfolding number_into
  uint32_into set = number_into uint32 4 set

  unfoldable pub int64_into : (ℕ → Go A) → Decoder A
  unfolding number_into
  int64_into set = number_into int64 8 set

  unfoldable pub uint64_into : (ℕ → Go A) → Decoder A
  unfolding number_into
  uint64_into set = number_into uint64 8 set

  unfoldable pub float_into : (ℕ → ℕ) → (ℕ → Go A) → Decoder A
  unfolding number_into
  float_into widen set = number_into load_float32 4 (λ val. set (widen val))

  unfoldable pub double_into : (ℕ → Go A) → Decoder A
  unfolding number_into
  double_into set = number_into load_float64 8 set

  unfoldable pub bool_into : (Bool → Go A) → Decoder A
  unfolding type_and_klen
  bool_into set = do
    klen ← type_and_klen
    advance klen
    val ← peek
    advance 1
    if val == 0 then lift (set false) else lift (set true)

  unfoldable pub null_into : Go A → Decoder A
  unfolding type_and_klen
  null_into zero = do klen ← type_and_klen; advance klen; advance 1; lift zero

-- A variable as the target of an item. `set_float` takes the pattern of a `float64`.
pub record Target (A : Type 0) : Type 0 where
  pub set_string : Bytes → Go A
  pub set_bytes : Bytes → Go A
  pub set_bool : Bool → Go A
  pub set_int : ℕ → Go A
  pub set_uint : ℕ → Go A
  pub set_float : ℕ → Go A
  pub set_zero : Go A
  pub object : Decoder A
  pub array : Decoder A
  pub unchanged : A

module _ (widen : ℕ → ℕ) (extend32 : ℕ → ℕ) {A : Type 0} where
  -- The methods by the type of the item. An item of a type that is not listed is left where it is.
  unfoldable pub item_into : Target A → ℕ → Decoder A
  unfolding string_into short_string_into binary_into short_binary_into int32_into uint32_into
      int64_into uint64_into bool_into float_into double_into null_into
  item_into v t =
      if t == object_type
      then v.object
      else if t == array_type
      then v.array
      else if t == string_type
      then string_into v.set_string
      else if t == short_string_type
      then short_string_into v.set_string
      else if t == binary_type
      then binary_into v.set_bytes
      else if t == short_binary_type
      then short_binary_into v.set_bytes
      else if t == int32_type
      then int32_into extend32 v.set_int
      else if t == int64_type
      then int64_into v.set_int
      else if t == uint32_type
      then uint32_into v.set_uint
      else if t == uint64_type
      then uint64_into v.set_uint
      else if t == bool_type
      then bool_into v.set_bool
      else if t == float_type
      then float_into widen v.set_float
      else if t == double_type
      then double_into v.set_float
      else if t == null_type
      then null_into v.set_zero
      else pure v.unchanged

-- What `reflect` does with a value of the wrong kind, and with one that cannot be set: a panic with
-- an `error`, and a panic with a string, which `recover` in `unmarshal` takes for an `error` and so
-- turns into a `runtime.Error`.
abbrev pub wrong_value : {A : Type 0} → Go A
wrong_value = panic (raised reflect_error)

abbrev pub not_settable : {A : Type 0} → Go A
not_settable = panic runtime_error
