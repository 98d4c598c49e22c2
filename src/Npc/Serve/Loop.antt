-- ===== src/Npc/Serve/Loop.antt =====
-- What the loop of a connection writes.
use gomcpack.Prelude.{
  ℕ, zero, suc, ◌+◌, ◌-◌, ◌%◌, ◌^◌, ◌<◌, ◌≡◌, refl, ap, sym, ◌∙◌, true, false, none, List, [], ◌∷◌,
  ◌++◌, append_assoc, append-nil, arith, length, length-append, length-drop, take, drop,
  take-append, drop-append, drop-drop, min, ◌==◌, if◌then◌else◌, Bool-cases, inl, inr,
}
use gomcpack.Go.{done, eof, err}
use gomcpack.Go.Slice.{Bytes}
use gomcpack.Npc.Header.{Header, header_magicnum}
use gomcpack.Npc.Header.Layout.{header_bytes, IsHeader}
use gomcpack.Npc.Message.{Writer, write, read_full, read_header, read_request}
use gomcpack.Npc.Message.Frames.{wrote, write-wrote, write_header-bytes, read_request-bytes}
use gomcpack.Npc.Serve.{
  ResponseState, respond, Reply, Handler, respond_all, limited_read, discard_body, handle, turn,
  serve,
}

-- What a reply puts on the stream: the data of the first `Write` behind its header, or nothing, if
-- there is no first `Write` or it has no data.
abbrev pub answer : List Bytes → Header → Bytes
answer [] h = []
answer (bs ∷ rest) h =
    if length bs == 0 then [] else header_bytes (record h { body_len = length bs % 2 ^ 32 }) ++ bs

abbrev closed : Header → ResponseState
closed h = record { wrote_reply = true; handler_header = h }

respond_all-closed :
    (writes : List Bytes) (h : Header) (w : Writer)
    → respond_all writes (closed h, w) ≡ done (closed h, w)
unfolding respond_all respond
respond_all-closed [] h w = refl
respond_all-closed (bs ∷ rest) h w = respond_all-closed rest h w

wrote-nothing : (w : Writer) → wrote w [] ≡ w
wrote-nothing w = ap (λ (t : Bytes). record w { out = t }) (append-nil w.out)

respond_all-answer :
    (writes : List Bytes) (h : Header) (w : Writer)
    → length h.provider ≡ 16
    → w.broken ≡ false
    → (r : ResponseState) × (respond_all writes
          (record { wrote_reply = false; handler_header = h }, w)
        ≡ done (r, wrote w (answer writes h)))
unfolding respond_all respond
respond_all-answer [] h w p sound =
    let r : ResponseState = record { wrote_reply = false; handler_header = h } in
    (r, ap (λ (t : Writer). done (r, t)) (sym (wrote-nothing w)))
respond_all-answer (bs ∷ rest) h w p sound = elim (Bool-cases (length bs == 0)) [
  | inl e ↦ (
    closed h,
    rw e (
        respond_all-closed rest h w
        ∙ ap (λ (t : Writer). done (closed h, t)) (sym (wrote-nothing w))),
  )
  | inr e ↦
      let h' : Header = record h { body_len = length bs % 2 ^ 32 } in
      let w1 : Writer = wrote w (header_bytes h') in
      let whole : Writer = wrote w (header_bytes h' ++ bs) in
      let sent : write bs w1 ≡ (none, whole) =
        write-wrote bs w1 sound
        ∙ ap (λ (t : Bytes). (none, record w { out = t }))
            (append_assoc w.out (header_bytes h') bs) in
      (
        closed h',
        rw e (rw (write_header-bytes h' w p sound) (rw sent (respond_all-closed rest h' whole))),
      )
]

-- After the handler's reads and `finishRequest` the stream stands behind the body.
pub discard-limited_read :
    (n limit : ℕ) (s : Bytes)
    → discard_body (limited_read n (limit, s)) ≡ drop (min limit (length s)) s
unfolding discard_body limited_read
discard-limited_read n limit s =
    let m = min n (min limit (length s)) in
    let m' = min (limit - m) (length (drop m s)) in
    sym (drop-drop m m' s)
    ∙ ap (λ (k : ℕ). drop k s) {x = m + m'} {y = min limit (length s)}
        (omega (arith, length-drop m s))

-- A handler leaves an array of 16 bytes in the header of the response, as Go's types enforce.
abbrev pub IsHandler : Handler → Type 0
IsHandler handler =
    (h own : Header) (body : Bytes)
    → length own.provider ≡ 16
    → length (handler h own body).header.provider ≡ 16

abbrev pub reply_to : Handler → Header → Bytes → Reply
reply_to handler h body = handler h (record h { body_len = 0 }) body

abbrev pub answer_to : Handler → Header → Bytes → Bytes
answer_to handler h body = answer (reply_to handler h body).writes (reply_to handler h body).header

handle-bytes :
    (handler : Handler) (h : Header) (body rest : Bytes) (w : Writer)
    → IsHandler handler
    → length h.provider ≡ 16
    → h.body_len ≡ length body
    → w.broken ≡ false
    → handle handler h (body ++ rest) w ≡ done (rest, wrote w (answer_to handler h body))
unfolding handle
handle-bytes handler h body rest w valid p len sound =
    let own : Header = record h { body_len = 0 } in
    let reply : Reply = reply_to handler h body in
    let all : take h.body_len (body ++ rest) ≡ body =
      ap (λ (n : ℕ). take n (body ++ rest)) len ∙ take-append body rest in
    let (r, e) = respond_all-answer reply.writes reply.header w (valid h own body p) sound in
    let behind : drop (min h.body_len (length (body ++ rest))) (body ++ rest) ≡ rest =
      ap (λ (n : ℕ). drop n (body ++ rest)) {x = min h.body_len (length (body ++ rest))}
        {y = length body} (omega (arith, len, length-append body rest))
      ∙ drop-append body rest in
    rw all (rw e (rw (discard-limited_read reply.taken h.body_len (body ++ rest)) (rw behind refl)))

read_request-end : read_request [] ≡ done (err eof, [])
unfolding read_request read_header read_full
read_request-end = refl

-- The requests of one connection, one behind the other.
abbrev pub stream : List (Header × Bytes) → Bytes
stream [] = []
stream ((h, body) ∷ reqs) = header_bytes h ++ (body ++ stream reqs)

abbrev pub answers : Handler → List (Header × Bytes) → Bytes
answers handler [] = []
answers handler ((h, body) ∷ reqs) = answer_to handler h body ++ answers handler reqs

-- Frames with the magic number and a body of the length that the header gives.
abbrev pub AreRequests : List (Header × Bytes) → Type 0
AreRequests [] = Unit
AreRequests ((h, body) ∷ reqs) =
    IsHeader h × (h.magic_num ≡ header_magicnum) × (h.body_len ≡ length body) × AreRequests reqs

-- The loop answers the requests that a client sends one behind the other in their order, each with
-- the data of the handler's first `Write` on it behind the handler's header with that data's length,
-- however much of each body the handler reads; then it ends with `io.EOF`. It needs one turn for each
-- request and one more.
pub serve-stream :
    (handler : Handler) (reqs : List (Header × Bytes)) (w : Writer) (f : ℕ)
    → IsHandler handler
    → AreRequests reqs
    → w.broken ≡ false
    → length reqs < f
    → serve f handler (stream reqs) w ≡ done (eof, wrote w (answers handler reqs))
unfolding serve turn
serve-stream handler reqs w zero valid are sound fuel = absurd (omega arith)
serve-stream handler [] w (suc f) valid are sound fuel =
    rw read_request-end (ap (λ (t : Writer). done (eof, t)) (sym (wrote-nothing w)))
serve-stream handler ((h, body) ∷ reqs) w (suc f) valid are sound fuel =
    let (is, magic, len, rest) = are in
    let w1 : Writer = wrote w (answer_to handler h body) in
    rw (read_request-bytes h (body ++ stream reqs) is magic) (
      rw (handle-bytes handler h body (stream reqs) w valid is.provider_length len sound) (
        serve-stream handler reqs w1 f valid rest sound (omega arith)
        ∙ ap (λ (t : Bytes). done (eof, record w { out = t }))
            (append_assoc w.out (answer_to handler h body) (answers handler reqs))))
