-- ===== src/Mcpacknpc/Handler.antt =====
-- mcpacknpc/handler.go: which functions `NewHandler` accepts, and what a handler does with a request.
-- `unicode.IsUpper` is a parameter. Logging leaves no trace.
use gomcpack.Prelude.{
  ℕ, Bool, true, false, ◌||◌, not, Option, none, some, List, [], ◌∷◌, length, ◌==◌, if◌then◌else◌,
}
use gomcpack.Go.{
  Go, done, panic, out_of_fuel, ◌>>=◌, Error, wrong_ins, argument_not_exported, reply_not_pointer,
  reply_not_exported, wrong_outs, not_error, Returns, ok, err,
}
use gomcpack.Go.Slice.{Bytes}
use gomcpack.Mcpack.Fold.Unicode.{decode_rune}
use gomcpack.Mcpack.Value
use gomcpack.Mcpack.Encode.{marshal_value}
use gomcpack.Mcpack.GoType.{GoType, Var, zero_var}
use gomcpack.Mcpack.Reflect.{value_of}
use gomcpack.Mcpack.Decode.Typed.{Library, unmarshal_typed}
use gomcpack.Npc.Header.{Header}
use gomcpack.Npc.Serve.{Reply}

-- The type of a parameter, with the name and the package path of a type that is no pointer.
pub data ParamType : Type 0 where
  base : Bytes → Bytes → GoType → ParamType
  pointer : ParamType → ParamType

-- The type of a result.
pub data ResultType : Type 0 where
  error_type other_type : ResultType

pub record FuncType : Type 0 where
  pub ins : List ParamType
  pub outs : List ResultType

-- `Handler`, with the function's type only.
pub record HandlerTypes : Type 0 where
  pub arg_type : ParamType
  pub reply_type : ParamType

abbrev pub is_pointer : ParamType → Bool
is_pointer (base name pkg_path t) = false
is_pointer (pointer t) = true

-- The tests of the results, when `reply_type` and `arg_type` have passed theirs.
unfoldable pub check_outs : ParamType → ParamType → List ResultType → Returns HandlerTypes
check_outs arg_type reply_type (error_type ∷ []) =
    ok (record { arg_type = arg_type; reply_type = reply_type })
check_outs arg_type reply_type (other_type ∷ []) = err not_error
check_outs arg_type reply_type _ = err wrong_outs

module _ (is_upper : ℕ → Bool) where
  unfoldable pub is_exported : Bytes → Bool
  is_exported name = is_upper (decode_rune name).0

  unfoldable pub is_exported_or_builtin_type : ParamType → Bool
  unfolding is_exported
  is_exported_or_builtin_type (base name pkg_path t) = is_exported name || length pkg_path == 0
  is_exported_or_builtin_type (pointer t) = is_exported_or_builtin_type t

  -- `NewHandler(fn)` for a function of the type. On anything else `ftype.NumIn()` panics.
  unfoldable pub new_handler : FuncType → Returns HandlerTypes
  unfolding is_exported_or_builtin_type check_outs
  new_handler ft = check ft.ins
    where
      check : List ParamType → Returns HandlerTypes
      check (arg_type ∷ reply_type ∷ []) =
          if not (is_exported_or_builtin_type arg_type)
          then err argument_not_exported
          else if not (is_pointer reply_type)
          then err reply_not_pointer
          else if not (is_exported_or_builtin_type reply_type)
          then err reply_not_exported
          else check_outs arg_type reply_type ft.outs
      check _ = err wrong_ins

-- The type of a parameter, and that of the variable that `Serve` makes for it: a pointer's target.
abbrev pub go_type : ParamType → GoType
go_type (base name pkg_path t) = t
go_type (pointer t) = GoType.ptr (go_type t)

abbrev pub made_type : ParamType → GoType
made_type (base name pkg_path t) = t
made_type (pointer t) = go_type t

-- `h.sendResponse(w, reply)` on the pointer to a reply: the data that it passes to `w.Write`, once, or
-- not at all after an error of `Marshal`.
unfoldable pub send_response : (ρ : GoType) → Var ρ → Go (List Bytes)
send_response ρ reply = marshal_value (Value.ptr (value_of ρ reply)) >>= sent
  where
    sent : Returns Bytes → Go (List Bytes)
    sent (ok content) = done (content ∷ [])
    sent (err e) = done []

-- `h.Serve(w, r)` for a function of an argument that it is given as a value or by its address, and of
-- the address of a reply: the calls of `w.Write`. `fn` returns its error and the reply afterwards.
-- `spare` is what lies behind the body in the array that `ioutil.ReadAll` returns.
unfoldable pub serve_body :
    Library
    → (σ ρ : GoType) → (Var σ → Var ρ → Option Error × Var ρ)
    → Bytes
    → Bytes
    → Go (List Bytes)
unfolding send_response
serve_body lib σ ρ fn spare body = unmarshal_typed lib σ (some (zero_var σ)) body spare >>= with_arg
  where
    returned : Option Error × Var ρ → Go (List Bytes)
    returned (some e, reply) = done []
    returned (none, reply) = send_response ρ reply

    with_arg : Returns (Var σ) → Go (List Bytes)
    with_arg (err e) = done []
    with_arg (ok arg) = returned (fn arg (zero_var ρ))

-- The calls of `w.Write` by a handler that does not panic. After a panic of the handler, which makes
-- the server close the connection, the loop of the model goes on without an answer: a panic of a
-- handler is not described.
abbrev pub writes_of : Go (List Bytes) → List Bytes
writes_of (done writes) = writes
writes_of (panic p) = []
writes_of out_of_fuel = []

-- The handler of the npc server, which reads all of the body and leaves the header as it is.
unfoldable pub served :
    Library
    → (σ ρ : GoType) → (Var σ → Var ρ → Option Error × Var ρ)
    → Bytes
    → Header
    → Header
    → Bytes
    → Reply
unfolding serve_body
served lib σ ρ fn spare h own body = record {
  taken = length body;
  header = own;
  writes = writes_of (serve_body lib σ ρ fn spare body);
}
