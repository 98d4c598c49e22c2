-- ===== src/Mcpack/Encode/Room.antt =====
-- Room behind the offset of the encoder's buffer.
use gomcpack.Prelude.{
  ℕ, ◌+◌, ◌*◌, ◌≤◌, ◌≡◌, refl, ap, ◌∙◌, ◌++◌, append_assoc, arith, length, length-append, take-all,
  leb, leb→le, leb→gt, replicate, length-replicate, length-drop, drop, Bool-cases, inl, inr,
}
use gomcpack.Go.{done}
use gomcpack.Go.Slice.{Bytes, copy}
use gomcpack.Mcpack.Encode.State.{max, resize_if_needed}
use gomcpack.Mcpack.Encode.Emits.{buf, state_path}

grown :
    (cap : ℕ) (out rest : Bytes)
    → length (out ++ rest) ≤ cap
    → (copy (replicate cap 0) (out ++ rest)).0
      ≡ out ++ (rest ++ drop (length (out ++ rest)) (replicate cap 0))
unfolding copy
grown cap out rest h =
    ap (λ (t : Bytes). t ++ drop (length (out ++ rest)) (replicate cap 0))
      (take-all (out ++ rest) (length (replicate {A = ℕ} cap 0))
        (omega (arith, length-replicate {A = ℕ} cap 0)))
    ∙ append_assoc out rest _

max_ge : (l r : ℕ) → r ≤ max l r
unfolding max
max_ge l r = ground arith

-- `resizeIfNeeded(n)` makes room for `n` bytes and keeps what is written.
pub resize_if_needed-buf :
    (n : ℕ) (out rest : Bytes)
    → (rest' : Bytes) × (resize_if_needed n (buf out rest) ≡ done (tt, buf out rest'))
      × (n ≤ length rest')
unfolding resize_if_needed
resize_if_needed-buf n out rest = elim (Bool-cases (leb (length (out ++ rest)) (length out + n))) [
  | inl small ↦
      let cap = max (length (out ++ rest) * 2) (length out + n) in
      let bound = max_ge (length (out ++ rest) * 2) (length out + n) in
      let pad = drop (length (out ++ rest)) (replicate {A = ℕ} cap 0) in
      let fits = leb→le (length (out ++ rest)) (length out + n) small in
      (
        rest ++ pad,
        rw small (state_path tt (grown cap out rest (omega arith)) refl),
        omega (
          arith,
          length-append rest pad,
          length-append out rest,
          length-drop (length (out ++ rest)) (replicate {A = ℕ} cap 0),
          length-replicate {A = ℕ} cap 0,
        ),
      )
  | inr roomy ↦ (
    rest,
    rw roomy,
    omega (arith, length-append out rest, leb→gt (length (out ++ rest)) (length out + n) roomy),
  )
]
