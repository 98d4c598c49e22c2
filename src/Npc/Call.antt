-- ===== src/Npc/Call.antt =====
-- npc/client.go and server.go together: a request on a fresh connection, and its reply.
use gomcpack.Prelude.{
  ℕ, ◌^◌, ◌<◌, ◌≡◌, refl, ap, sym, ◌∙◌, false, none, some, [], ◌∷◌, ◌++◌, append-nil, append_assoc,
  arith, length, ◌==◌,
}
use native.Mathlib.Nat.{mod-eq_of_lt}
use gomcpack.Go.{done, eof, ok}
use gomcpack.Go.Slice.{Bytes}
use gomcpack.Npc.Header.{Header, header_magicnum}
use gomcpack.Npc.Header.Layout.{header_bytes, IsHeader}
use gomcpack.Npc.Message.{Writer, write_request, new_request, Response, read_response}
use gomcpack.Npc.Message.Frames.{
  wrote, request_header, request_header-IsHeader, request_header-body_len, write_request-bytes,
  read_response-bytes,
}
use gomcpack.Npc.Serve.{Handler, serve}
use gomcpack.Npc.Serve.Loop.{IsHandler, answers, serve-stream}

-- A writer with nothing written.
abbrev pub empty_writer : Writer
empty_writer = record { out = []; broken = false }

-- A handler that leaves the header of the response as it is and first writes `reply h body`.
abbrev pub plain : (Header → Bytes → Bytes) → (Header → Bytes → ℕ) → Handler
plain reply taken h own body = record {
  taken = taken h body;
  header = own;
  writes = reply h body ∷ [];
}

nonempty : (bs : Bytes) → 0 < length bs → (length bs == 0) ≡ false
nonempty bs h = ground arith

-- A response with the header `h`, but for its length, and the body `bs`.
abbrev pub reply_message : Header → Bytes → Response
reply_message h bs = record { header = record h { body_len = length bs }; body = bs }

-- What a client sends, what the server answers, and what the client reads: the request `body`, the
-- answer of `handler`, and `bs` under the number of the request.
abbrev pub Exchanged : Handler → ℕ → Bytes → Bytes → Type 0
Exchanged handler log_id body bs =
    (sent : Bytes) × (answered : Bytes) × (write_request (new_request log_id (some body))
        empty_writer
      ≡ done (none, wrote empty_writer sent))
    × (serve 2 handler sent empty_writer ≡ done (eof, wrote empty_writer answered))
    × (read_response answered ≡ done (ok (reply_message (request_header log_id body) bs), []))

-- A handler that leaves the header of the response to this request as it is and writes `bs`.
pub call-handler :
    (handler : Handler) (log_id : ℕ) (body bs : Bytes) (taken : ℕ)
    → IsHandler handler
    → log_id < 2 ^ 32
    → length body < 2 ^ 32
    → 0 < length bs
    → length bs < 2 ^ 32
    → (let h = request_header log_id body in
        let own = record h { body_len = 0 } in
        handler h own body ≡ record { taken = taken; header = own; writes = bs ∷ [] })
    → Exchanged handler log_id body bs
call-handler handler log_id body bs taken valid low short some_reply short_reply same =
    let h : Header = request_header log_id body in
    let is : IsHeader h = request_header-IsHeader log_id body short low in
    let magic : h.magic_num ≡ header_magicnum = unfold new_request in refl in
    let len : h.body_len ≡ length body = request_header-body_len log_id body short in
    let h' : Header = record h { body_len = length bs } in
    let sent : Bytes = header_bytes h ++ body in
    let frame : answers handler ((h, body) ∷ []) ≡ header_bytes h' ++ (bs ++ []) =
      rw (same, nonempty bs some_reply, mod-eq_of_lt short_reply)
        (append_assoc (header_bytes h') bs []) in
    let is' : IsHeader h' = record {
      id_bound = is.id_bound;
      version_bound = is.version_bound;
      log_id_bound = is.log_id_bound;
      provider_length = is.provider_length;
      magic_num_bound = is.magic_num_bound;
      reserved_bound = is.reserved_bound;
      body_len_bound = short_reply;
    } in
    (
      sent,
      header_bytes h' ++ (bs ++ []),
      write_request-bytes log_id body short empty_writer refl,
      ap (λ (t : Bytes). serve 2 handler (header_bytes h ++ t) empty_writer) (sym (append-nil body))
          ∙ serve-stream handler ((h, body) ∷ []) empty_writer 2 valid (is, magic, len, tt) refl
              (omega arith)
          ∙ ap (λ (t : Bytes). done (eof, wrote empty_writer t)) frame,
      read_response-bytes h' bs [] is' magic refl,
    )

-- A client sends a request made by `NewRequest` on a connection on which nothing else is sent, and
-- the server answers it by a handler that does not change the header of the response and that writes
-- a reply that is not empty. Then `ReadResponse` gives the client this reply, which the handler
-- computed from the client's body, under the request's own number, whatever the handler read of the
-- body. Both bodies are shorter than 4 GiB.
pub call-reply :
    (reply : Header → Bytes → Bytes) (taken : Header → Bytes → ℕ) (log_id : ℕ) (body : Bytes)
    → log_id < 2 ^ 32
    → length body < 2 ^ 32
    → 0 < length (reply (request_header log_id body) body)
    → length (reply (request_header log_id body) body) < 2 ^ 32
    → (sent : Bytes) × (answered : Bytes) × (write_request
          (new_request log_id (some body))
          empty_writer
        ≡ done (none, wrote empty_writer sent))
      × (serve 2 (plain reply taken) sent empty_writer ≡ done (eof, wrote empty_writer answered))
      × (read_response answered
          ≡ done (
            ok (
                reply_message
                  (request_header log_id body)
                  (reply (request_header log_id body) body)),
            [],
          ))
call-reply reply taken log_id body low short some_reply short_reply =
    call-handler (plain reply taken) log_id body (reply (request_header log_id body) body)
      (taken (request_header log_id body) body) (λ h own body p. p) low short some_reply short_reply
      refl
