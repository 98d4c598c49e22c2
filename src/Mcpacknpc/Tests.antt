-- ===== src/Mcpacknpc/Tests.antt =====
-- A call of a function that tells whether a number is 5.
use gomcpack.Prelude.{
  ℕ, ◌≡◌, refl, ap, ◌∙◌, ◌↔◌, Bool, true, false, Option, none, some, [], ◌∷◌, arith, ◌==◌, leb,
  ◌&&◌, bytes_eq,
}
use gomcpack.Go.{done, Error, unexpected_end, ok, err}
use gomcpack.Go.Slice.{Bytes}
use gomcpack.Mcpack.Value.{int32_kind}
use gomcpack.Mcpack.Wire.{wire}
use gomcpack.Mcpack.View.{IsReadable}
use gomcpack.Mcpack.Reflect.{value_of, IsStorable}
use gomcpack.Mcpack.Encode.{skips_field}
use gomcpack.Mcpack.Encode.Refine.{prescribed, marshal_value-wire}
use gomcpack.Mcpack.GoType.{GoType, bool, int, struct, no_fields, field, Var, zero_var, extend}
use gomcpack.Mcpack.Decode.Typed.{Library}
use gomcpack.Npc.Client.{exchange}
use gomcpack.Mcpacknpc.Handler.{
  base, pointer, error_type, FuncType, HandlerTypes, served, new_handler,
}
use gomcpack.Mcpack.Fold.Unicode.{decode_rune}
use gomcpack.Mcpacknpc.Client.{call}
use gomcpack.Mcpacknpc.Checked.{IsAccepted, new_handler-IsAccepted}
use gomcpack.Mcpacknpc.Call.{line_to, call-served}

abbrev library : Library
library = record {
  widen = λ n. n;
  narrow = λ n. n;
  equal_fold = bytes_eq;
  unmarshal_mcpack = λ v bs. err unexpected_end;
}

-- `struct { X int32 }` and `struct { Y bool }`
abbrev arg_t : GoType
arg_t = struct (field (b'X' ∷ []) false (int int32_kind) no_fields)

abbrev reply_t : GoType
reply_t = struct (field (b'Y' ∷ []) false bool no_fields)

abbrev is_five : Var arg_t → Var reply_t → Option Error × Var reply_t
is_five (x, _) y = (none, (x == 5, tt))

abbrev content : Bytes
content = 0x10 ∷ 0 ∷ 12 ∷ 0 ∷ 0 ∷ 0 ∷ 1 ∷ 0 ∷ 0 ∷ 0 ∷ 0x14 ∷ 2 ∷ b'X' ∷ 0 ∷ 5 ∷ 0 ∷ 0 ∷ 0 ∷ []

abbrev answer : Bytes
answer = 0x10 ∷ 0 ∷ 9 ∷ 0 ∷ 0 ∷ 0 ∷ 1 ∷ 0 ∷ 0 ∷ 0 ∷ 0x31 ∷ 2 ∷ b'Y' ∷ 0 ∷ 1 ∷ []

content-wire : wire (value_of arg_t (5, tt)) [] ≡ some content
unfolding wire value_of skips_field
content-wire = refl

answer-wire : wire (value_of reply_t (true, tt)) [] ≡ some answer
unfolding wire value_of skips_field
answer-wire = refl

arg-IsReadable : IsReadable (value_of arg_t (5, tt))
unfolding IsReadable value_of skips_field
arg-IsReadable = (omega arith, (omega arith, refl, omega arith, tt))

reply-IsReadable : IsReadable (value_of reply_t (true, tt))
unfolding IsReadable value_of skips_field
reply-IsReadable = (omega arith, (omega arith, refl, tt, tt))

arg-IsStorable : IsStorable library arg_t (5, tt)
unfolding IsStorable extend
arg-IsStorable = (refl, refl, tt)

reply-IsStorable : IsStorable library reply_t (true, tt)
unfolding IsStorable
reply-IsStorable = (refl, tt, tt)

call-served_example :
    call library
      (exchange (line_to (served library arg_t reply_t is_five [])))
      7
      (1 ∷ [])
      (value_of arg_t (5, tt))
      reply_t
      (some (zero_var reply_t))
    ≡ done (ok (true, tt))
call-served_example =
    call-served library arg_t reply_t is_five (5, tt) (true, tt) content answer [] (1 ∷ []) 7
      arg-IsReadable arg-IsStorable
      (marshal_value-wire (value_of arg_t (5, tt)) ∙ ap (λ o. done (prescribed o)) content-wire)
      (omega arith) refl reply-IsReadable reply-IsStorable
      (marshal_value-wire (value_of reply_t (true, tt)) ∙ ap (λ o. done (prescribed o)) answer-wire)
      (omega arith) (omega arith)

-- `unicode.IsUpper` on ASCII.
abbrev is_upper : ℕ → Bool
is_upper r = leb b'A' r && leb r b'Z'

-- `func(x int32, y *main.Y) error`: a builtin type, and a pointer to an exported one.
abbrev types : HandlerTypes
types = record {
  arg_type = base (b'i' ∷ b'n' ∷ b't' ∷ b'3' ∷ b'2' ∷ []) [] (int int32_kind);
  reply_type = pointer (base (b'Y' ∷ []) (b'm' ∷ b'a' ∷ b'i' ∷ b'n' ∷ []) reply_t);
}

abbrev func_type : FuncType
func_type = record { ins = types.arg_type ∷ types.reply_type ∷ []; outs = error_type ∷ [] }

builtin_t : new_handler is_upper func_type ≡ ok types
unfolding new_handler decode_rune
builtin_t = refl

new_handler-IsAccepted_example :
    (new_handler is_upper func_type ≡ ok types) ↔ IsAccepted is_upper func_type types
new_handler-IsAccepted_example = new_handler-IsAccepted is_upper func_type types
