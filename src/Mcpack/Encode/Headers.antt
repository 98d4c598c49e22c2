-- ===== src/Mcpack/Encode/Headers.antt =====
-- The header of a container as the encoder writes it, and the length patched into it.
use gomcpack.Prelude.{
  ℕ, ◌+◌, ◌-◌, ◌%◌, ◌^◌, ◌≤◌, ◌≡◌, ap, ◌∙◌, sym, ◌++◌, append_assoc, arith, length, length-append,
  take-append, split_at,
}
use mathlib.Core.Path.{ap₂}
use gomcpack.Go.{done}
use gomcpack.Go.Slice.{Bytes, slice_from-append}
use gomcpack.Go.Proc.{◌>>=◌, ◌>>◌, pure, and_then}
use gomcpack.Mcpack.Number.{put_int32}
use gomcpack.Mcpack.Number.RoundTrip.{le32}
use gomcpack.Mcpack.Wire.{key_bytes}
use gomcpack.Mcpack.Encode.State.{Enc, set_key, write_number, offset, advance, patch_int32}
use gomcpack.Mcpack.Encode.Encoders.{close_container}
use gomcpack.Mcpack.Encode.Emits.{buf, Emits, Emits-set_key, state_path}
use gomcpack.Mcpack.Encode.Leaves.{Emits-four, put_low32}

-- What `open_container` does behind the length of the name.
abbrev pub after_key_len : Bytes → ℕ → ℕ → Enc (ℕ × ℕ)
after_key_len k count l = do
  vlenpos ← offset
  advance 4
  set_key k l
  vpos ← offset
  write_number put_int32 4 (count % 2 ^ 32)
  pure (vlenpos, vpos)

pub Emits-count : (count : ℕ) → Emits (write_number put_int32 4 (count % 2 ^ 32)) tt (le32 count)
unfolding put_int32
Emits-count = Emits-four

module _ (k : Bytes) (count : ℕ) where
  abbrev pub name_and_count : Bytes
  name_and_count = key_bytes k ++ le32 count

  -- From the name on, with the offset behind the four bytes of the content length.
  abbrev pub from_name : ℕ → Enc (ℕ × ℕ)
  from_name vlenpos = do
    set_key k (length k)
    vpos ← offset
    write_number put_int32 4 (count % 2 ^ 32)
    pure (vlenpos, vpos)

  pub from_name-buf :
      (vlenpos : ℕ) (out rest : Bytes)
      → 4 + length (key_bytes k) ≤ length rest
      → (r : Bytes) × (from_name vlenpos (buf out rest)
          ≡ done ((vlenpos, length out + length (key_bytes k)), buf (out ++ name_and_count) r))
  unfolding offset
  from_name-buf vlenpos out rest room =
      let (r1, e1, l1) = (Emits-set_key k).at out rest (omega arith) in
      let (r2, e2, l2) = (Emits-count count).at (out ++ key_bytes k) r1 (omega arith) in
      let vpos = length (out ++ key_bytes k) in
      (
        r2,
        ap
              (λ t. and_then t (λ _.
                offset >>= λ p. write_number put_int32 4 (count % 2 ^ 32) >> pure (vlenpos, p)))
              e1
            ∙ ap (λ t. and_then t (λ _. pure (vlenpos, vpos))) e2
            ∙ ap₂ (λ (p : ℕ) (b : Bytes). done ((vlenpos, p), buf b r2))
                (length-append out (key_bytes k)) (append_assoc out (key_bytes k) (le32 count)),
      )

  pub after_key_len-buf :
      (out rest : Bytes)
      → 8 + length (key_bytes k) ≤ length rest
      → (g : Bytes) × (r : Bytes) × (after_key_len k count (length k) (buf out rest)
          ≡ done (
            (length out, length out + 4 + length (key_bytes k)),
            buf ((out ++ g) ++ name_and_count) r,
          ))
        × (length g ≡ 4)
  unfolding offset advance
  after_key_len-buf out rest room =
      let (g, r, e, l) = split_at 4 rest (omega arith) in
      let len_g : length out + 4 ≡ length (out ++ g) = omega (arith, length-append out g) in
      let (r1, e1) =
        from_name-buf (length out) (out ++ g) r (omega (arith, ap length e, length-append g r)) in
      (
        g,
        r1,
        ap₂ (λ (b : Bytes) (o : ℕ). from_name (length out) (record { buffer = b; off = o }))
              (ap (λ t. out ++ t) e ∙ sym (append_assoc out g r)) len_g
            ∙ e1
            ∙ ap (λ (p : ℕ). done ((length out, p), buf ((out ++ g) ++ name_and_count) r1))
                {x = length (out ++ g) + length (key_bytes k)}
                {y = length out + 4 + length (key_bytes k)} (omega (arith, length-append out g)),
        l,
      )

-- The length of the content, in place of the four bytes left for it.
pub close_container-buf :
    (out g more rest : Bytes) (vpos : ℕ)
    → length g ≡ 4
    → close_container (length out, vpos) (buf ((out ++ g) ++ more) rest)
      ≡ done (tt, buf ((out ++ le32 (length ((out ++ g) ++ more) - vpos)) ++ more) rest)
unfolding close_container offset patch_int32 put_int32
close_container-buf out g more rest vpos e =
    let n = length ((out ++ g) ++ more) - vpos in
    let regroup : ((out ++ g) ++ more) ++ rest ≡ out ++ (g ++ (more ++ rest)) = simp append_assoc in
    rw regroup (
      rw
        (
          slice_from-append out (g ++ (more ++ rest)),
          put_low32 n g (more ++ rest) e,
          take-append out (g ++ (more ++ rest)),
        )
        (state_path tt (simp append_assoc) (
          omega (
            arith,
            length-append (out ++ g) more,
            length-append out g,
            length-append (out ++ le32 n) more,
            length-append out (le32 n),
          ))))
