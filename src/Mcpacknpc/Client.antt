-- ===== src/Mcpacknpc/Client.antt =====
-- mcpacknpc/client.go: `Call`, over the `Do` of the npc client.
use gomcpack.Prelude.{ℕ, Option, some}
use gomcpack.Go.{Go, done, ◌>>=◌, Returns, ok, err}
use gomcpack.Go.Slice.{Bytes}
use gomcpack.Mcpack.Value.{Value}
use gomcpack.Mcpack.Encode.{marshal_value}
use gomcpack.Mcpack.GoType.{GoType, Var}
use gomcpack.Mcpack.Decode.Typed.{Library, unmarshal_typed}
use gomcpack.Npc.Message.{Request, new_request, Response}

-- `c.Call(args, reply)`: the variable `reply` afterwards, by the `Do` of the client, the random number
-- of the request, and what lies behind the response's body in its array.
unfoldable pub call :
    Library
    → (Request → Go (Returns Response))
    → ℕ
    → Bytes
    → Value
    → (ρ : GoType) → Option (Var ρ)
    → Go (Returns (Var ρ))
call lib exchange log_id spare args ρ reply = marshal_value args >>= marshalled
  where
    answered : Returns Response → Go (Returns (Var ρ))
    answered (err e) = done (err e)
    answered (ok resp) = unmarshal_typed lib ρ reply resp.body spare

    marshalled : Returns Bytes → Go (Returns (Var ρ))
    marshalled (err e) = done (err e)
    marshalled (ok content) = exchange (new_request log_id (some content)) >>= answered
