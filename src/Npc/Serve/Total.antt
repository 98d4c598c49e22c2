-- ===== src/Npc/Serve/Total.antt =====
-- The loop of a connection ends on every input.
use gomcpack.Prelude.{
  ℕ, zero, suc, ◌%◌, ◌^◌, ◌<◌, ◌≡◌, refl, ap, sym, ◌∙◌, Bool, true, false, Option, List, [], ◌∷◌,
  ◌++◌, arith, length, length-append, replicate, leb, leb→le, ◌==◌, if◌then◌else◌, Bool-cases, inl,
  inr, subst, take, drop, min, length-drop, take-append-drop,
}
use gomcpack.Go.{Go, done, Error, eof, unexpected_eof, bad_magic, Returns, ok, err}
use gomcpack.Go.Slice.{Bytes}
use gomcpack.Npc.Header.{Header, header_magicnum}
use gomcpack.Npc.Header.Layout.{header_bytes, IsHeader, marshal-bytes}
use gomcpack.Npc.Header.RoundTrip.{AreBytes, AreBytes-append, header_of_bytes, length-header_bytes}
use gomcpack.Npc.Message.{
  Writer, write, write_header, zero_header, read_full, read_header, read_request,
}
use gomcpack.Npc.Message.Frames.{read_header-bytes}
use gomcpack.Npc.Serve.{ResponseState, respond, Reply, Handler, respond_all, handle, turn, serve}
use gomcpack.Npc.Serve.Loop.{discard-limited_read, IsHandler, reply_to}

-- A header that was read leaves less of the stream.
data IsRead (s : Bytes) (r : Go (Returns Header × Bytes)) : Type 0 where
  failed : (e : Error) (s' : Bytes) → r ≡ done (err e, s') → IsRead s r
  found :
      (h : Header) (s' : Bytes)
      → r ≡ done (ok h, s')
      → IsHeader h
      → length s' < length s
      → AreBytes s'
      → IsRead s r

read_header-short :
    (s : Bytes)
    → leb 36 (length s) ≡ false
    → (e : Error) × (read_header zero_header s ≡ done (err e, []))
unfolding read_header read_full
read_header-short s short = (if length s == 0 then eof else unexpected_eof, rw short refl)

read_request-IsRead : (s : Bytes) → AreBytes s → IsRead s (read_request s)
unfolding read_request
read_request-IsRead s bytes = elim (Bool-cases (leb 36 (length s))) [
  | inr short ↦ let (e, h) = read_header-short s short in failed e [] (rw h refl)
  | inl long ↦
      let (h, r, w, e) = header_of_bytes s (leb→le 36 (length s) long) bytes in
      let shorter : length r < length s = omega (
        arith,
        ap length e,
        length-append (header_bytes h) r,
        length-header_bytes h w.provider_length,
      ) in
      let parsed : read_header zero_header s ≡ done (ok h, r) =
        ap (read_header zero_header) e ∙ read_header-bytes zero_header h r refl w in
      elim (Bool-cases (h.magic_num == header_magicnum)) [
        | inl good ↦
            found h r (rw parsed (rw good refl)) w shorter
              (AreBytes-append (header_bytes h) r (subst AreBytes e bytes)).1
        | inr bad ↦ failed bad_magic r (rw parsed (rw bad refl))
      ]
]

write_header-total :
    (h : Header) (w : Writer)
    → length h.provider ≡ 16
    → write_header h w ≡ done (write (header_bytes h ++ []) w)
unfolding write_header
write_header-total h w p = rw (marshal-bytes h (replicate 36 0) p (omega arith)) refl

-- `w.Write` returned, and kept the width of the header.
abbrev IsWritten : Go (Option Error × (ResponseState × Writer)) → Type 0
IsWritten r =
    (e : Option Error) × (s : ResponseState) × (w : Writer) × (r ≡ done (e, (s, w)))
    × (length s.handler_header.provider ≡ 16)

empty_data :
    (bs : Bytes) (h : Header) (out : Bytes) (broken : Bool)
    → (length bs == 0) ≡ true
    → length h.provider ≡ 16
    → IsWritten (
        respond bs (
          record { wrote_reply = false; handler_header = h },
          record { out = out; broken = broken },
        ))
unfolding respond
empty_data bs h out broken e p = rw e (_, _, _, refl, p)

respond-IsWritten :
    (bs : Bytes) (b : Bool) (h : Header) (out : Bytes) (broken : Bool)
    → length h.provider ≡ 16
    → IsWritten (
        respond bs
          (record { wrote_reply = b; handler_header = h }, record { out = out; broken = broken }))
unfolding respond write
respond-IsWritten bs true h out broken p = (_, _, _, refl, p)
respond-IsWritten bs false h out true p = elim (Bool-cases (length bs == 0)) [
  | inl e ↦ empty_data bs h out true e p
  | inr e ↦
      let h' : Header = record h { body_len = length bs % 2 ^ 32 } in
      let w : Writer = record { out = out; broken = true } in
      rw (e, write_header-total h' w p) (_, _, _, refl, p)
]
respond-IsWritten bs false h out false p = elim (Bool-cases (length bs == 0)) [
  | inl e ↦ empty_data bs h out false e p
  | inr e ↦
      let h' : Header = record h { body_len = length bs % 2 ^ 32 } in
      let w : Writer = record { out = out; broken = false } in
      rw (e, write_header-total h' w p) (_, _, _, refl, p)
]

respond_all-total :
    (writes : List Bytes) (s : ResponseState) (w : Writer)
    → length s.handler_header.provider ≡ 16
    → (s' : ResponseState) × (w' : Writer) × (respond_all writes (s, w) ≡ done (s', w'))
unfolding respond_all
respond_all-total [] s w p = (s, w, refl)
respond_all-total (bs ∷ rest) s w p =
    let (e, s1, w1, h, p1) = respond-IsWritten bs s.wrote_reply s.handler_header w.out w.broken p in
    let (s2, w2, h2) = respond_all-total rest s1 w1 p1 in (s2, w2, rw h h2)

handle-total :
    (handler : Handler) (h : Header) (s : Bytes) (w : Writer)
    → IsHandler handler
    → length h.provider ≡ 16
    → (w' : Writer) × (handle handler h s w ≡ done (drop (min h.body_len (length s)) s, w'))
unfolding handle
handle-total handler h s w valid p =
    let body : Bytes = take h.body_len s in
    let reply : Reply = reply_to handler h body in
    let start : ResponseState = record { wrote_reply = false; handler_header = reply.header } in
    let (r, w', e) =
      respond_all-total reply.writes start w (valid h (record h { body_len = 0 }) body p) in
    (w', rw e (rw (discard-limited_read reply.taken h.body_len s) refl))

AreBytes-drop : (n : ℕ) (s : Bytes) → AreBytes s → AreBytes (drop n s)
AreBytes-drop n s h =
    (AreBytes-append (take n s) (drop n s) (subst AreBytes (sym (take-append-drop n s)) h)).1

-- Whatever bytes come in, the loop ends with an error of a read, after at most one turn more than
-- there are bytes, and no turn panics; the writer may be broken, and the handler may write any number
-- of times. The handler leaves an array of 16 bytes in the header of the response.
pub serve-total :
    (handler : Handler) (s : Bytes) (w : Writer) (f : ℕ)
    → IsHandler handler
    → AreBytes s
    → length s < f
    → (e : Error) × (w' : Writer) × (serve f handler s w ≡ done (e, w'))
unfolding serve turn
serve-total handler s w zero valid bytes fuel = absurd (omega arith)
serve-total handler s w (suc f) valid bytes fuel = elim (read_request-IsRead s bytes) [
  | failed e s' h ↦ (e, w, rw h refl)
  | found h s' r is shorter rest ↦
      let n = min h.body_len (length s') in
      let (w1, e1) = handle-total handler h s' w valid is.provider_length in
      let (e, w2, e2) =
        serve-total handler (drop n s') w1 f valid (AreBytes-drop n s' rest)
          (omega (arith, length-drop n s')) in
      (e, w2, rw r (rw e1 e2))
]
