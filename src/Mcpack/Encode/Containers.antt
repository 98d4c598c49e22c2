-- ===== src/Mcpack/Encode/Containers.antt =====
-- The three encoders of containers: the content length is patched in behind the members.
use gomcpack.Prelude.{
  ℕ, ◌+◌, ◌-◌, ◌≤◌, ◌<◌, ◌≡◌, ap, ◌∙◌, Option, none, some, [], ◌∷◌, ◌++◌, append_assoc, arith,
  length, length-append, leb, leb→le, leb→gt, le→leb, gt→leb, Bool-cases, inl, inr,
}
use mathlib.Core.Path.{ap₂}
use gomcpack.Go.{done, panic, raised, key_too_long}
use gomcpack.Go.Slice.{Bytes}
use gomcpack.Go.Proc.{◌>>=◌, ◌>>◌, and_then}
use gomcpack.Mcpack.Number.RoundTrip.{le32}
use gomcpack.Mcpack.Wire.{key_len_byte, key_bytes, layout, container_wire}
use gomcpack.Mcpack.Encode.State.{Enc, set_type, set_key_len}
use gomcpack.Mcpack.Encode.Encoders.{open_container, close_container}
use gomcpack.Mcpack.Encode.Emits.{
  buf, Emits-set_type, Emits-set_key_len, Raises-bind, Raises-after, Raises-set_key_len,
}
use gomcpack.Mcpack.Encode.Room.{resize_if_needed-buf}
use gomcpack.Mcpack.Encode.Writes.{Writes, length-key_bytes}
use gomcpack.Mcpack.Encode.Headers.{
  after_key_len, name_and_count, after_key_len-buf, close_container-buf,
}

module _ (t : ℕ) (k : Bytes) (count : ℕ) where
  -- The first two bytes of a container, and then its name with what is around it.
  abbrev opened : ℕ → Enc (ℕ × ℕ)
  opened l = after_key_len k count l

  open_container-raises :
      (out rest : Bytes)
      → 254 < length k
      → open_container t k count (buf out rest) ≡ panic (raised key_too_long)
  unfolding open_container
  open_container-raises out rest long =
      let (r1, e1, l1) = resize_if_needed-buf (1 + 1 + 4 + length k + 1 + 4) out rest in
      ap (λ s. and_then s (λ _. set_type t >> (set_key_len k >>= opened))) e1
      ∙ (Raises-after (Emits-set_type t) (Raises-bind opened (Raises-set_key_len k long))).at out r1
          (omega arith)

  open_container-buf :
      (out rest : Bytes)
      → length k ≤ 254
      → (g : Bytes) × (r : Bytes) × (open_container t k count (buf out rest)
          ≡ done (
            (length out + 2, length out + 6 + length (key_bytes k)),
            buf (((out ++ t ∷ key_len_byte k ∷ []) ++ g) ++ name_and_count k count) r,
          ))
        × (length g ≡ 4)
  unfolding open_container
  open_container-buf out rest fits =
      let head : Bytes = t ∷ key_len_byte k ∷ [] in
      let (r1, e1, l1) = resize_if_needed-buf (1 + 1 + 4 + length k + 1 + 4) out rest in
      let (r2, e2, l2) = (Emits-set_type t).at out r1 (omega arith) in
      let (r3, e3, l3) = (Emits-set_key_len k fits).at (out ++ t ∷ []) r2 (omega arith) in
      let (g, r4, e4, l4) =
        after_key_len-buf k count ((out ++ t ∷ []) ++ key_len_byte k ∷ []) r3
          (omega (arith, length-key_bytes k)) in
      (
        g,
        r4,
        ap (λ s. and_then s (λ _. set_type t >> (set_key_len k >>= opened))) e1
            ∙ ap (λ s. and_then s (λ _. set_key_len k >>= opened)) e2
            ∙ ap (λ s. and_then s opened) e3
            ∙ e4
            ∙ ap₂
                (λ (n : ℕ) (b : Bytes).
                  done (
                    (n, n + 4 + length (key_bytes k)),
                    buf ((b ++ g) ++ name_and_count k count) r4,
                  ))
                two (append_assoc out (t ∷ []) (key_len_byte k ∷ []))
            ∙ ap
                (λ (n : ℕ).
                  done
                    ((length out + 2, n), buf (((out ++ head) ++ g) ++ name_and_count k count) r4))
                {x = length out + 2 + 4 + length (key_bytes k)}
                {y = length out + 6 + length (key_bytes k)} (omega arith),
        l4,
      )
    where
      two : length ((out ++ t ∷ []) ++ key_len_byte k ∷ []) ≡ length out + 2
      two =
          omega
            (arith, length-append (out ++ t ∷ []) (key_len_byte k ∷ []), length-append out (t ∷ []))

  -- A container encoder from its header to the patched length.
  abbrev container : Enc (Unit {0}) → Enc (Unit {0})
  container elems = open_container t k count >>= λ places. elems >> close_container places

  abbrev content : Bytes → Bytes
  content xs = le32 count ++ xs

  close_container-content :
      (out g xs r : Bytes)
      → length g ≡ 4
      → close_container
          (length out + 2, length out + 6 + length (key_bytes k))
          (buf ((((out ++ t ∷ key_len_byte k ∷ []) ++ g) ++ name_and_count k count) ++ xs) r)
        ≡ done (tt, buf (out ++ layout t (le32 (length (content xs))) k (content xs)) r)
  close_container-content out g xs r e =
      let head : Bytes = t ∷ key_len_byte k ∷ [] in
      let more = name_and_count k count ++ xs in
      let vpos = length out + 6 + length (key_bytes k) in
      let start : length out + 2 ≡ length (out ++ head) = omega (arith, length-append out head) in
      let size : length (((out ++ head) ++ g) ++ more) - vpos ≡ length (content xs) = omega (
        arith,
        length-append ((out ++ head) ++ g) more,
        length-append (out ++ head) g,
        length-append out head,
        length-append (name_and_count k count) xs,
        length-append (key_bytes k) (le32 count),
      ) in
      ap₂ (λ (p : ℕ) (b : Bytes). close_container (p, vpos) (buf b r)) start
        (append_assoc ((out ++ head) ++ g) (name_and_count k count) xs)
      ∙ close_container-buf (out ++ head) g more r vpos e
      ∙ ap (λ (n : ℕ). done (tt, buf (((out ++ head) ++ le32 n) ++ more) r)) size
      ∙ ap (λ (b : Bytes). done (tt, buf b r)) (simp append_assoc)

  container-raises :
      (elems : Enc (Unit {0})) (out rest : Bytes)
      → 254 < length k
      → container elems (buf out rest) ≡ panic (raised key_too_long)
  container-raises elems out rest long =
      ap (λ s. and_then s (λ places. elems >> close_container places))
        (open_container-raises out rest long)

  container_fits :
      (elems : Enc (Unit {0})) (o : Option Bytes)
      → Writes elems o
      → length k ≤ 254
      → Writes (container elems) (container_wire t k count o)
  container_fits elems none we fits = record {
    at = λ out rest.
        let (g, r, e, l) = open_container-buf out rest fits in
        ap (λ s. and_then s (λ places. elems >> close_container places)) e
        ∙ ap
            (λ s.
              and_then s
                (λ _. close_container (length out + 2, length out + 6 + length (key_bytes k))))
            (we.at (((out ++ t ∷ key_len_byte k ∷ []) ++ g) ++ name_and_count k count) r);
  }
  container_fits elems (some xs) we fits = rw (le→leb (length k) 254 fits) (record {
    at = λ out rest.
        let (g, r, e, l) = open_container-buf out rest fits in
        let (r1, e1) =
          we.at (((out ++ t ∷ key_len_byte k ∷ []) ++ g) ++ name_and_count k count) r in
        (
          r1,
          ap (λ s. and_then s (λ places. elems >> close_container places)) e
              ∙ ap
                  (λ s.
                    and_then s (λ _.
                      close_container (length out + 2, length out + 6 + length (key_bytes k))))
                  e1
              ∙ close_container-content out g xs r1 l,
        );
  })

  container_long :
      (elems : Enc (Unit {0})) (o : Option Bytes)
      → 254 < length k
      → Writes (container elems) (container_wire t k count o)
  container_long elems none long = record { at = λ out rest. container-raises elems out rest long }
  container_long elems (some xs) long =
      rw (gt→leb (length k) 254 long)
        (record { at = λ out rest. container-raises elems out rest long })

  -- A container encoder writes the header, the members that `elems` writes, and the length of both.
  pub Writes-container :
      (elems : Enc (Unit {0})) (o : Option Bytes)
      → Writes elems o
      → Writes (container elems) (container_wire t k count o)
  Writes-container elems o we = elim (Bool-cases (leb (length k) 254)) [
    | inl fits ↦ container_fits elems o we (leb→le (length k) 254 fits)
    | inr long ↦ container_long elems o (leb→gt (length k) 254 long)
  ]
