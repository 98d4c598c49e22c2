-- ===== src/Mcpacknpc/Call.antt =====
-- A call of a function over npc: mcpacknpc/client.go and handler.go, with the client and the server of
-- npc/ between them.
use gomcpack.Prelude.{ℕ, ◌^◌, ◌<◌, ◌≡◌, refl, ap, sym, ◌∙◌, Option, none, some, [], ◌∷◌, length}
use gomcpack.Go.{Go, done, panic, out_of_fuel, Error, ok}
use gomcpack.Go.Slice.{Bytes}
use gomcpack.Mcpack.Value
use gomcpack.Mcpack.Wire.{wire}
use gomcpack.Mcpack.View.{IsReadable}
use gomcpack.Mcpack.Reflect.{value_of, IsStorable}
use gomcpack.Mcpack.Encode.{marshal_value}
use gomcpack.Mcpack.Encode.Refine.{marshal_value-wire}
use gomcpack.Mcpack.GoType.{GoType, Var, zero_var}
use gomcpack.Mcpack.Decode.Typed.{Library}
use gomcpack.Mcpack.RoundTrip.Typed.{unmarshal_typed-marshal_value}
use gomcpack.Mcpack.RoundTrip.Whole.{marshalled_wire, length-wire}
use gomcpack.Npc.Message.{Writer, new_request}
use gomcpack.Npc.Message.Frames.{request_header}
use gomcpack.Npc.Serve.{Handler, serve}
use gomcpack.Npc.Client.{Line, exchange}
use gomcpack.Npc.Call.{empty_writer, Exchanged, call-handler, reply_message}
use gomcpack.Mcpacknpc.Handler.{writes_of, serve_body, served}
use gomcpack.Mcpacknpc.Client.{call}

-- What the server has written on a connection.
abbrev pub written : Go (Error × Writer) → Bytes
written (done (e, w)) = w.out
written (panic p) = []
written out_of_fuel = []

-- A fresh connection to a server with the handler.
abbrev pub line_to : Handler → Line
line_to handler = record {
  writer = empty_writer;
  answer = λ sent. written (serve 2 handler sent empty_writer);
}

marshal_value-ptr : (v : Value.Value) → marshal_value (Value.ptr v) ≡ marshal_value v
unfolding wire
marshal_value-ptr v = marshal_value-wire (Value.ptr v) ∙ sym (marshal_value-wire v)

module _ (lib : Library) (σ ρ : GoType) (fn : Var σ → Var ρ → Option Error × Var ρ) (arg : Var σ)
    (reply : Var ρ) (content bs spare : Bytes) (is_arg : IsReadable (value_of σ arg))
    (can_arg : IsStorable lib σ arg) (sent : marshal_value (value_of σ arg) ≡ done (ok content))
    (result : fn arg (zero_var ρ) ≡ (none, reply))
    (answer : marshal_value (value_of ρ reply) ≡ done (ok bs)) where
  serve_body-call : serve_body lib σ ρ fn spare content ≡ done (bs ∷ [])
  unfolding serve_body
  serve_body-call =
      rw
        (
          unmarshal_typed-marshal_value lib σ arg content spare is_arg can_arg sent,
          result,
          marshal_value-ptr (value_of ρ reply),
          answer,
        )
        refl

  served-call :
      (log_id : ℕ)
      → log_id < 2 ^ 32
      → length content < 2 ^ 32
      → IsReadable (value_of ρ reply)
      → length bs < 2 ^ 32
      → Exchanged (served lib σ ρ fn spare) log_id content bs
  unfolding served
  served-call log_id low short is_reply short_reply =
      call-handler (served lib σ ρ fn spare) log_id content bs (length content) (λ h own body p. p)
        low short
        (length-wire (value_of ρ reply) [] bs is_reply
          (marshalled_wire _ (sym (marshal_value-wire (value_of ρ reply)) ∙ answer)))
        short_reply
        (ap
          (λ r. record {
            taken = length content;
            header = record (request_header log_id content) { body_len = 0 };
            writes = writes_of r;
          })
          serve_body-call)

-- What the client reads from a connection on which its request is exchanged so.
exchange-Exchanged :
    (handler : Handler) (log_id : ℕ) (body bs : Bytes)
    → Exchanged handler log_id body bs
    → exchange (line_to handler) (new_request log_id (some body))
      ≡ done (ok (reply_message (request_header log_id body) bs))
unfolding exchange
exchange-Exchanged handler log_id body bs (sent, answered, e1, e2, e3) = rw (e1, e2, e3) refl

-- A call of a function over npc: the client marshals an argument, sends it on a fresh connection, and
-- the server's handler unmarshals it, calls the function, which returns without an error, and
-- marshals the reply. Then `Call` stores in the client's new variable the reply of the function. The
-- conditions are that both the argument and the reply are readable (`IsReadable`, so no field of
-- theirs is left out for `omitempty`, every field and key has a name, and lengths and counts fit 32
-- bits) and can be stored by `Unmarshal` (`IsStorable`, so no map or slice is nil and numbers fit
-- their types), that `Marshal` accepts both, that their messages are shorter than 4 GiB, and that the
-- number of the request has 32 bits.
pub call-served :
    (lib : Library) (σ ρ : GoType) (fn : Var σ → Var ρ → Option Error × Var ρ) (arg : Var σ)
    (reply : Var ρ) (content bs spare spare' : Bytes) (log_id : ℕ)
    → IsReadable (value_of σ arg)
    → IsStorable lib σ arg
    → marshal_value (value_of σ arg) ≡ done (ok content)
    → length content < 2 ^ 32
    → fn arg (zero_var ρ) ≡ (none, reply)
    → IsReadable (value_of ρ reply)
    → IsStorable lib ρ reply
    → marshal_value (value_of ρ reply) ≡ done (ok bs)
    → length bs < 2 ^ 32
    → log_id < 2 ^ 32
    → call lib
        (exchange (line_to (served lib σ ρ fn spare)))
        log_id
        spare'
        (value_of σ arg)
        ρ
        (some (zero_var ρ))
      ≡ done (ok reply)
unfolding call
call-served lib σ ρ fn arg reply content bs spare spare' log_id is_arg can_arg sent short result
      is_reply can_reply answer short_reply low =
    let exchanged =
      served-call lib σ ρ fn arg reply content bs spare is_arg can_arg sent result answer log_id low
        short is_reply short_reply in
    rw (sent, exchange-Exchanged (served lib σ ρ fn spare) log_id content bs exchanged)
      (unmarshal_typed-marshal_value lib ρ reply bs spare' is_reply can_reply answer)
