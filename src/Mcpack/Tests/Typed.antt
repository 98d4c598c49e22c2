-- ===== src/Mcpack/Tests/Typed.antt =====
-- A struct with fields of several types, written and read back.
use gomcpack.Prelude.{◌-◌, ◌^◌, ◌≡◌, refl, ap, ◌∙◌, true, false, some, [], ◌∷◌, arith, bytes_eq}
use gomcpack.Go.{done, ok, err, unexpected_end}
use gomcpack.Go.Slice.{Bytes, index, slice_from, slice_to_cap}
use gomcpack.Mcpack.Value.{int32_kind, uint8_kind}
use gomcpack.Mcpack.GoType.{
  GoType, bool, int, uint, string, ptr, struct, string_map, slice, array, FieldTypes, no_fields,
  field, Var, zero_var, extend,
}
use gomcpack.Mcpack.Encode.{marshal_value, skips_field}
use gomcpack.Mcpack.Encode.Refine.{prescribed, marshal_value-wire}
use gomcpack.Mcpack.Wire.{wire}
use gomcpack.Mcpack.View.{IsReadable}
use gomcpack.Mcpack.Reflect.{value_of, IsStorable}
use gomcpack.Mcpack.Fold.{fold_func, simple_letter_equal_fold}
use gomcpack.Mcpack.Number.{uint8, uint32}
use gomcpack.Mcpack.Decode.{
  peek, read, offset, advance, slice_data, key_start, check_key, key, next, content_size,
}
use gomcpack.Mcpack.Decode.Typed.{Library, unmarshal_typed}
use gomcpack.Mcpack.RoundTrip.Typed.{unmarshal_typed-marshal_value}

abbrev pub library : Library
library = record {
  widen = λ n. n;
  narrow = λ n. n;
  equal_fold = bytes_eq;
  unmarshal_mcpack = λ v bs. err unexpected_end;
}

-- `struct { X int32; Next *uint8; Tags []string; Sizes map[string]bool; Pair [2]uint8 }`
abbrev fields_t : FieldTypes
fields_t = field (b'X' ∷ []) false (int int32_kind) (
    field (b'N' ∷ []) true (ptr (uint uint8_kind)) (
      field (b'T' ∷ []) false (slice string) (
        field (b'S' ∷ []) false (string_map bool)
          (field (b'P' ∷ []) false (array 2 (uint uint8_kind)) no_fields))))

abbrev type_t : GoType
type_t = struct fields_t

abbrev var_t : Var type_t
var_t = (
  2 ^ 64 - 5,
  (
    some 7,
    (
      some (((b'a' ∷ []) ∷ [] ∷ []), []),
      (some ((b'k' ∷ [], true) ∷ (b'j' ∷ [], false) ∷ []), (1 ∷ 2 ∷ [], tt)),
    ),
  ),
)

abbrev bytes_t : Bytes
bytes_t =
    0x10 ∷ 0 ∷ 87 ∷ 0 ∷ 0 ∷ 0 ∷ 5 ∷ 0 ∷ 0 ∷ 0 ∷ 0x14 ∷ 2 ∷ b'X' ∷ 0 ∷ 251 ∷ 255 ∷ 255 ∷ 255 ∷ 0x24
    ∷ 2 ∷ b'N' ∷ 0 ∷ 7 ∷ 0 ∷ 0 ∷ 0 ∷ 0x20 ∷ 2 ∷ 13 ∷ 0 ∷ 0 ∷ 0 ∷ b'T' ∷ 0 ∷ 2 ∷ 0 ∷ 0 ∷ 0 ∷ 0xd0 ∷ 0
    ∷ 2 ∷ b'a' ∷ 0 ∷ 0xd0 ∷ 0 ∷ 1 ∷ 0 ∷ 0x10 ∷ 2 ∷ 14 ∷ 0 ∷ 0 ∷ 0 ∷ b'S' ∷ 0 ∷ 2 ∷ 0 ∷ 0 ∷ 0 ∷ 0x31
    ∷ 2 ∷ b'k' ∷ 0 ∷ 1 ∷ 0x31 ∷ 2 ∷ b'j' ∷ 0 ∷ 0 ∷ 0x20 ∷ 2 ∷ 16 ∷ 0 ∷ 0 ∷ 0 ∷ b'P' ∷ 0 ∷ 2 ∷ 0 ∷ 0
    ∷ 0 ∷ 0x24 ∷ 0 ∷ 1 ∷ 0 ∷ 0 ∷ 0 ∷ 0x24 ∷ 0 ∷ 2 ∷ 0 ∷ 0 ∷ 0 ∷ []

wire_t : wire (value_of type_t var_t) [] ≡ some bytes_t
unfolding wire value_of skips_field
wire_t = refl

marshal_t : marshal_value (value_of type_t var_t) ≡ done (ok bytes_t)
marshal_t = marshal_value-wire (value_of type_t var_t) ∙ ap (λ o. done (prescribed o)) wire_t

var_t-IsReadable : IsReadable (value_of type_t var_t)
unfolding IsReadable value_of skips_field
var_t-IsReadable = (
  omega arith,
  (
    omega arith,
    refl,
    omega arith,
    (
      omega arith,
      refl,
      omega arith,
      (
        omega arith,
        refl,
        (omega arith, (omega arith, (omega arith, tt))),
        (
          omega arith,
          refl,
          (omega arith, (omega arith, tt, (omega arith, tt, tt))),
          (omega arith, refl, (omega arith, (omega arith, (omega arith, tt))), tt),
        ),
      ),
    ),
  ),
)

var_t-IsStorable : IsStorable library type_t var_t
unfolding IsStorable extend value_of bytes_eq
var_t-IsStorable = (
  refl,
  refl,
  (
    refl,
    (tt, refl),
    (
      refl,
      (tt, (tt, tt)),
      (refl, (refl, tt, (refl, tt, tt)), (refl, (refl, (refl, (refl, tt))), tt)),
    ),
  ),
)

unmarshal_typed-marshal_value_example :
    unmarshal_typed library type_t (some (zero_var type_t)) bytes_t (9 ∷ []) ≡ done (ok var_t)
unmarshal_typed-marshal_value_example =
    unmarshal_typed-marshal_value library type_t var_t bytes_t (9 ∷ []) var_t-IsReadable
      var_t-IsStorable marshal_t

-- A member whose name is that of no field is left out, one whose name is a field's but for case is not
-- with this library, and an item of another kind is an error.
other_members :
    unmarshal_typed library
      (struct (field (b'P' ∷ []) false bool no_fields))
      (some (false, tt))
      (0x10 ∷ 0 ∷ 14 ∷ 0 ∷ 0 ∷ 0 ∷ 2 ∷ 0 ∷ 0 ∷ 0 ∷ 0x31 ∷ 2 ∷ b'x' ∷ 0 ∷ 1 ∷ 0x31 ∷ 2 ∷ b'P' ∷ 0 ∷ 1
        ∷ [])
      []
    ≡ done (ok (true, tt))
unfolding unmarshal_typed peek read offset advance slice_data key_start check_key key next
    content_size index slice_from slice_to_cap uint8 uint32 fold_func simple_letter_equal_fold
    bytes_eq
other_members = refl
