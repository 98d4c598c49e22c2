-- ===== src/Npc/Message/Frames.antt =====
-- A message that is written on a stream is read off it.
use gomcpack.Prelude.{
  ℕ, ◌%◌, ◌^◌, ◌<◌, ◌≡◌, refl, ap, sym, ◌∙◌, false, none, some, [], ◌++◌, append_assoc, append-nil,
  arith, length, length-append, take, drop, replicate, take-append, take-all, drop-append, le→leb,
}
use native.Mathlib.Nat.{mod-eq_of_lt}
use gomcpack.Go.{done, ok}
use gomcpack.Go.Slice.{Bytes}
use gomcpack.Npc.Header.{Header, header_magicnum, unmarshal}
use gomcpack.Npc.Header.Layout.{header_bytes, IsHeader, marshal-bytes, unmarshal-bytes}
use gomcpack.Npc.Header.RoundTrip.{length-header_bytes}
use gomcpack.Npc.Message.{
  Writer, write, read_full, zero_header, write_header, read_header, write_request, read_request,
  new_request, read_response,
}

-- The writer after a write that succeeds.
abbrev pub wrote : Writer → Bytes → Writer
wrote w xs = record w { out = w.out ++ xs }

pub write-wrote : (xs : Bytes) (w : Writer) → w.broken ≡ false → write xs w ≡ (none, wrote w xs)
unfolding write
write-wrote xs w sound = rw sound refl

pub write_header-bytes :
    (h : Header) (w : Writer)
    → length h.provider ≡ 16
    → w.broken ≡ false
    → write_header h w ≡ done (none, wrote w (header_bytes h))
unfolding write_header
write_header-bytes h w p sound =
    let filled = marshal-bytes h (replicate 36 0) p (omega arith) in
    rw filled (
      ap done (
        ap (λ (t : Bytes). write t w) (append-nil (header_bytes h))
        ∙ write-wrote (header_bytes h) w sound))

-- The first `n` bytes of a stream.
pub read_full-append : (n : ℕ) (xs r : Bytes) → length xs ≡ n → read_full n (xs ++ r) ≡ (ok xs, r)
unfolding read_full
read_full-append n xs r e = rw (le→leb n (length (xs ++ r)) (omega (arith, length-append xs r))) (
    ap (λ (k : ℕ). (ok (take k (xs ++ r)), drop k (xs ++ r))) (sym e)
    ∙ rw (take-append xs r, drop-append xs r))

pub read_header-bytes :
    (old h : Header) (r : Bytes)
    → length old.provider ≡ 16
    → IsHeader h
    → read_header old (header_bytes h ++ r) ≡ done (ok h, r)
unfolding read_header
read_header-bytes old h r p w =
    let whole : unmarshal old (header_bytes h) ≡ done (none, h) =
      ap (unmarshal old) (sym (append-nil (header_bytes h))) ∙ unmarshal-bytes old h [] p w in
    rw (read_full-append 36 (header_bytes h) r (length-header_bytes h w.provider_length))
      (rw whole refl)

-- `ReadRequest` on a frame with the magic number.
pub read_request-bytes :
    (h : Header) (r : Bytes)
    → IsHeader h
    → h.magic_num ≡ header_magicnum
    → read_request (header_bytes h ++ r) ≡ done (ok h, r)
unfolding read_request
read_request-bytes h r w magic = rw (read_header-bytes zero_header h r refl w) (rw magic refl)

-- The header of `NewRequest(body)`.
abbrev pub request_header : ℕ → Bytes → Header
request_header log_id body = (new_request log_id (some body)).header

module _ (log_id : ℕ) (body : Bytes) (short : length body < 2 ^ 32) where
  len_fits : length body % 2 ^ 32 ≡ length body
  len_fits = mod-eq_of_lt short

  pub request_header-IsHeader : log_id < 2 ^ 32 → IsHeader (request_header log_id body)
  unfolding new_request
  request_header-IsHeader low = record {
    id_bound = omega arith;
    version_bound = omega arith;
    log_id_bound = low;
    provider_length = refl;
    magic_num_bound = omega arith;
    reserved_bound = omega arith;
    body_len_bound = omega arith;
  }

  pub request_header-body_len : (request_header log_id body).body_len ≡ length body
  unfolding new_request
  request_header-body_len = len_fits

  pub write_request-bytes :
      (w : Writer)
      → w.broken ≡ false
      → write_request (new_request log_id (some body)) w
        ≡ done (none, wrote w (header_bytes (request_header log_id body) ++ body))
  unfolding write_request new_request
  write_request-bytes w sound =
      let h : Header = request_header log_id body in
      let whole : take (length body % 2 ^ 32) body ≡ body =
        take-all body (length body % 2 ^ 32) (omega (arith, len_fits)) in
      rw (write_header-bytes h w refl sound) (
        ap done (
          ap (λ (t : Bytes). write t (wrote w (header_bytes h))) whole
          ∙ write-wrote body (wrote w (header_bytes h)) sound
          ∙ ap (λ (t : Bytes). (none, record w { out = t }))
              (append_assoc w.out (header_bytes h) body)))

-- A request that `NewRequest` makes of a body of less than 4 GiB is written as a header and the whole
-- body on a writer that is not broken. `ReadRequest` reads this header off the stream, whatever
-- follows, and leaves the reader in front of the body, whose length the header has.
pub read_request-write_request :
    (log_id : ℕ) (body rest : Bytes) (w : Writer)
    → log_id < 2 ^ 32
    → length body < 2 ^ 32
    → w.broken ≡ false
    → (xs : Bytes) × (write_request (new_request log_id (some body)) w ≡ done (none, wrote w xs))
      × (read_request (xs ++ rest) ≡ done (ok (request_header log_id body), body ++ rest))
      × ((request_header log_id body).body_len ≡ length body)
read_request-write_request log_id body rest w low short sound =
    let h : Header = request_header log_id body in
    (
      header_bytes h ++ body,
      write_request-bytes log_id body short w sound,
      ap read_request (append_assoc (header_bytes h) body rest)
          ∙ read_request-bytes h (body ++ rest) (request_header-IsHeader log_id body short low)
              (unfold new_request in refl),
      request_header-body_len log_id body short,
    )

-- `ReadResponse` on a frame with the magic number and a whole body.
pub read_response-bytes :
    (h : Header) (body r : Bytes)
    → IsHeader h
    → h.magic_num ≡ header_magicnum
    → h.body_len ≡ length body
    → read_response (header_bytes h ++ (body ++ r))
      ≡ done (ok (record { header = h; body = body }), r)
unfolding read_response
read_response-bytes h body r w magic len =
    rw (read_header-bytes zero_header h (body ++ r) refl w)
      (rw (magic, read_full-append h.body_len body r (sym len)) refl)
