-- ===== src/Mcpack/Tests/Unknown.antt =====
-- A message with two members that the struct of the reader does not have.
use gomcpack.Prelude.{◌≡◌, refl, ap, ◌∙◌, false, some, [], ◌∷◌, arith, bytes_eq}
use gomcpack.Go.{done, ok}
use gomcpack.Go.Slice.{Bytes}
use gomcpack.Mcpack.Value
use gomcpack.Mcpack.Value.{Value, int32_kind}
use gomcpack.Mcpack.GoType.{int, struct, FieldTypes, no_fields, field, zero_vars, extend}
use gomcpack.Mcpack.Encode.{marshal_value, skips_field}
use gomcpack.Mcpack.Encode.Refine.{prescribed, marshal_value-wire}
use gomcpack.Mcpack.Wire.{wire}
use gomcpack.Mcpack.View.{IsReadable}
use gomcpack.Mcpack.Reflect.{AreStorable, value_of}
use gomcpack.Mcpack.Fold.{fold_func, simple_letter_equal_fold}
use gomcpack.Mcpack.Decode.Typed.{unmarshal_typed}
use gomcpack.Mcpack.RoundTrip.Unknown.{Extras, message, AreUnknown, unmarshal_typed-message}
use gomcpack.Mcpack.Tests.Typed.{library}

-- `struct { X int32 }`
abbrev reader_t : FieldTypes
reader_t = field (b'X' ∷ []) false (int int32_kind) no_fields

-- `Q: "a"` in front of `X: 5`, and `Z: {}` behind it.
abbrev extras_t : Extras reader_t
extras_t = (
  Value.field (b'Q' ∷ []) false (Value.string (b'a' ∷ [])) Value.no_fields,
  Value.field (b'Z' ∷ []) false (Value.struct Value.no_fields) Value.no_fields,
)

abbrev message_t : Bytes
message_t =
    0x10 ∷ 0 ∷ 31 ∷ 0 ∷ 0 ∷ 0 ∷ 3 ∷ 0 ∷ 0 ∷ 0 ∷ 0xd0 ∷ 2 ∷ 2 ∷ b'Q' ∷ 0 ∷ b'a' ∷ 0 ∷ 0x14 ∷ 2 ∷ b'X'
    ∷ 0 ∷ 5 ∷ 0 ∷ 0 ∷ 0 ∷ 0x10 ∷ 2 ∷ 4 ∷ 0 ∷ 0 ∷ 0 ∷ b'Z' ∷ 0 ∷ 0 ∷ 0 ∷ 0 ∷ 0 ∷ []

message-wire : wire (Value.struct (message reader_t (5, tt) extras_t)) [] ≡ some message_t
unfolding wire message value_of skips_field
message-wire = refl

message-marshal_value :
    marshal_value (Value.struct (message reader_t (5, tt) extras_t)) ≡ done (ok message_t)
message-marshal_value =
    marshal_value-wire (Value.struct (message reader_t (5, tt) extras_t))
    ∙ ap (λ o. done (prescribed o)) message-wire

message-IsReadable : IsReadable (Value.struct (message reader_t (5, tt) extras_t))
unfolding IsReadable message value_of skips_field
message-IsReadable = (
  omega arith,
  (
    omega arith,
    refl,
    omega arith,
    (omega arith, refl, omega arith, (omega arith, refl, (omega arith, tt), tt)),
  ),
)

reader-AreStorable : AreStorable library reader_t (5, tt)
unfolding AreStorable extend
reader-AreStorable = (refl, refl, tt)

extras-AreUnknown : AreUnknown library reader_t reader_t extras_t
unfolding fold_func bytes_eq simple_letter_equal_fold
extras-AreUnknown = (((refl, refl), tt), ((refl, refl), tt))

unmarshal_typed-message_example :
    unmarshal_typed library (struct reader_t) (some (zero_vars reader_t)) message_t []
    ≡ done (ok (5, tt))
unmarshal_typed-message_example =
    unmarshal_typed-message library reader_t (5, tt) extras_t message_t [] message-IsReadable
      reader-AreStorable extras-AreUnknown message-marshal_value (omega arith)
