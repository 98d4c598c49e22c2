-- ===== src/Mcpack/Fold/Agree.antt =====
-- `foldFunc` of mcpack/fold.go: whichever function it chooses agrees with `bytes.EqualFold`.
use gomcpack.Prelude.{
  ℕ, suc, ◌<◌, ◌≤◌, ◌≡◌, refl, ap, sym, ◌∙◌, Bool, true, false, ◌||◌, not, [], ◌∷◌, length, drop,
  ltb, leb, ◌==◌, if◌then◌else◌, arith, Bool-cases, inl, inr,
}
use gomcpack.Go.Slice.{Bytes}
use gomcpack.Mcpack.Fold.{
  masked, is_upper, right_match, special_match, equal_fold_right, ascii_match, ascii_equal_fold,
  simple_letter_equal_fold, choose_fold, fold_loop, fold_func,
}
use gomcpack.Mcpack.Fold.Unicode.{rune_self, decode_rune, equal_fold_loop, equal_fold}
use gomcpack.Mcpack.Fold.Single.{
  same_fold-right, right-ascii, right-letter, FoldsAscii, same_fold-special,
}
use gomcpack.Mcpack.Fold.Runes.{decode_rune-outside, decode_rune-ascii}
use gomcpack.Mcpack.Fold.Rounds.{
  AreBytes, AreAscii, is_special, has_non_letter, has_special, neither, not-false, right_nil,
  right_short, right_ascii, right_outside, ascii_nil, ascii_short, ascii_round, letter_nil,
  letter_short, letter_round, not_special, ascii_outside, letter_outside,
}

module _ (sf : ℕ → ℕ) (folds : FoldsAscii sf) where
  -- One round of `bytes.EqualFold` on a byte of ASCII.
  round_ascii :
      (n x y : ℕ) (s t : Bytes)
      → x < 128
      → y < 128
      → equal_fold_loop sf (suc n) (x ∷ s) (y ∷ t)
        ≡ (if right_match x y then equal_fold_loop sf n s t else false)
  unfolding equal_fold_loop
  round_ascii n x y s t hx hy =
      rw (decode_rune-ascii x s hx, decode_rune-ascii y t hy, same_fold-right x y hx hy sf) refl

  round_outside :
      (n x y : ℕ) (s t : Bytes)
      → x < 128
      → 128 ≤ y
      → equal_fold_loop sf (suc n) (x ∷ s) (y ∷ t) ≡ (
          if special_match x (decode_rune (y ∷ t)).0
          then equal_fold_loop sf n s (drop (decode_rune (y ∷ t)).1 (y ∷ t))
          else false)
  unfolding equal_fold_loop
  round_outside n x y s t hx hy =
      rw
        (
          decode_rune-ascii x s hx,
          same_fold-special sf folds x (decode_rune (y ∷ t)).0 hx (decode_rune-outside y t hy),
        )
        refl

  -- The two ends of the loop.
  loop_nil : (t : Bytes) → equal_fold_loop sf 0 [] t ≡ (length t == 0)
  unfolding equal_fold_loop
  loop_nil t = ground arith

  loop_short : (n x : ℕ) (s : Bytes) → equal_fold_loop sf (suc n) (x ∷ s) [] ≡ false
  unfolding equal_fold_loop
  loop_short n x s = refl

  equal_fold_right-loop :
      (s t : Bytes) → AreAscii s → equal_fold_right s t ≡ equal_fold_loop sf (length s) s t
  equal_fold_right-loop [] t h = right_nil t ∙ sym (loop_nil t)
  equal_fold_right-loop (x ∷ s) [] h = right_short x s ∙ sym (loop_short (length s) x s)
  equal_fold_right-loop (x ∷ s) (y ∷ t) (hx, hs) = elim (Bool-cases (ltb y rune_self)) [
    | inl e ↦
        right_ascii x y s t e
        ∙ ap (λ (b : Bool). if right_match x y then b else false) (equal_fold_right-loop s t hs)
        ∙ sym (round_ascii (length s) x y s t hx (ground arith))
    | inr e ↦
        right_outside x y s t e
        ∙ ap (λ (b : Bool). if special_match x (decode_rune (y ∷ t)).0 then b else false)
            (equal_fold_right-loop s (drop (decode_rune (y ∷ t)).1 (y ∷ t)) hs)
        ∙ sym (round_outside (length s) x y s t hx (ground arith))
  ]

  -- A byte that has no other fold than its other case.
  plain_outside :
      (n x y : ℕ) (s t : Bytes)
      → x < 128
      → 128 ≤ y
      → is_special x ≡ false
      → equal_fold_loop sf (suc n) (x ∷ s) (y ∷ t) ≡ false
  plain_outside n x y s t hx hy plain =
      round_outside n x y s t hx hy
      ∙ ap
          (λ (b : Bool).
            if b then equal_fold_loop sf n s (drop (decode_rune (y ∷ t)).1 (y ∷ t)) else false)
          (not_special x (decode_rune (y ∷ t)).0 hx plain)

  ascii-loop :
      (s t : Bytes)
      → AreAscii s
      → AreBytes t
      → has_special s ≡ false
      → ascii_equal_fold s t ≡ equal_fold_loop sf (length s) s t
  ascii-loop [] t h b p = ascii_nil t ∙ sym (loop_nil t)
  ascii-loop (x ∷ s) [] h b p = ascii_short x s ∙ sym (loop_short (length s) x s)
  ascii-loop (x ∷ s) (y ∷ t) (hx, hs) (hy, ht) p = elim (Bool-cases (ltb y rune_self)) [
    | inl e ↦
        ascii_round x y s t
        ∙ ap (λ (b : Bool). if ascii_match x y then b else false)
            (ascii-loop s t hs ht (neither _ _ p).1)
        ∙ ap (λ (b : Bool). if b then equal_fold_loop sf (length s) s t else false)
            (sym (right-ascii x y hx (ground arith)))
        ∙ sym (round_ascii (length s) x y s t hx (ground arith))
    | inr e ↦
        ascii_round x y s t
        ∙ ap (λ (b : Bool). if b then ascii_equal_fold s t else false)
            (ascii_outside x y hx hy (ground arith))
        ∙ sym (plain_outside (length s) x y s t hx (ground arith) (neither _ _ p).0)
  ]

  letter-loop :
      (s t : Bytes)
      → AreAscii s
      → AreBytes t
      → has_special s ≡ false
      → has_non_letter s ≡ false
      → simple_letter_equal_fold s t ≡ equal_fold_loop sf (length s) s t
  letter-loop [] t h b p q = letter_nil t ∙ sym (loop_nil t)
  letter-loop (x ∷ s) [] h b p q = letter_short x s ∙ sym (loop_short (length s) x s)
  letter-loop (x ∷ s) (y ∷ t) (hx, hs) (hy, ht) p q = elim (Bool-cases (ltb y rune_self)) [
    | inl e ↦
        letter_round x y s t
        ∙ ap (λ (b : Bool). if masked x == masked y then b else false)
            (letter-loop s t hs ht (neither _ _ p).1 (neither _ _ q).1)
        ∙ ap (λ (b : Bool). if b then equal_fold_loop sf (length s) s t else false)
            (sym (right-letter x y hx (ground arith) (not-false _ (neither _ _ q).0)))
        ∙ sym (round_ascii (length s) x y s t hx (ground arith))
    | inr e ↦
        letter_round x y s t
        ∙ ap (λ (b : Bool). if b then simple_letter_equal_fold s t else false)
            (letter_outside x y hx hy (ground arith))
        ∙ sym (plain_outside (length s) x y s t hx (ground arith) (neither _ _ p).0)
  ]

  -- The functions that the loop may choose, on ASCII.
  choose_fold-loop :
      (s t : Bytes) (n p : Bool)
      → AreAscii s
      → AreBytes t
      → (n ≡ false → has_non_letter s ≡ false)
      → (p ≡ false → has_special s ≡ false)
      → choose_fold n p s t ≡ equal_fold sf s t
  unfolding equal_fold
  choose_fold-loop s t n true hs ht hn hp = equal_fold_right-loop s t hs
  choose_fold-loop s t true false hs ht hn hp = ascii-loop s t hs ht (hp refl)
  choose_fold-loop s t false false hs ht hn hp = letter-loop s t hs ht (hp refl) (hn refl)

-- What the loop returns when it began with `n` and `p`: `bytes.EqualFold`, or the choice for what it
-- has noted.
data Chosen (ef : Bytes → Bytes → Bool) (s : Bytes) (n p : Bool) (f : Bytes → Bytes → Bool)
    : Type 0 where
  general : f ≡ ef → Chosen ef s n p f
  chosen :
      (n' p' : Bool)
      → AreAscii s
      → (n' ≡ false → (n ≡ false) × (has_non_letter s ≡ false))
      → (p' ≡ false → (p ≡ false) × (has_special s ≡ false))
      → f ≡ choose_fold n' p'
      → Chosen ef s n p f

-- One byte more in front, with which the loop went on from `n` and `p` to `m` and `q`.
one_more :
    (ef : Bytes → Bytes → Bool) (b : ℕ) (s : Bytes) (n p m q : Bool) (f : Bytes → Bytes → Bool)
    → b < 128
    → (m ≡ false → (n ≡ false) × (not (is_upper (masked b)) ≡ false))
    → (q ≡ false → (p ≡ false) × (is_special b ≡ false))
    → Chosen ef s m q f
    → Chosen ef (b ∷ s) n p f
one_more ef b s n p m q f h hn hp (general e) = general e
one_more ef b s n p m q f h hn hp (chosen n' p' ascii kn kp e) =
    chosen n' p' (h, ascii) (λ z. let (e1, e2) = kn z in let (e3, e4) = hn e1 in (e3, rw e4 e2))
      (λ z. let (e1, e2) = kp z in let (e3, e4) = hp e1 in (e3, rw e4 e2)) e

fold_loop-Chosen :
    (ef : Bytes → Bytes → Bool) (s : Bytes) (n p : Bool) → Chosen ef s n p (fold_loop ef n p s)
unfolding fold_loop
fold_loop-Chosen ef [] n p = chosen n p tt (λ e. (e, refl)) (λ e. (e, refl)) refl
fold_loop-Chosen ef (b ∷ s) n p = elim (Bool-cases (leb rune_self b)) [
  | inl e ↦ rw e (general refl)
  | inr e ↦ elim (Bool-cases (ltb (masked b) b'A' || ltb b'Z' (masked b))) [
    | inl e1 ↦
        rw (e, e1)
          (one_more ef b s n p true p _ (ground arith) (λ z. cc) (λ z. (z, ground arith))
            (fold_loop-Chosen ef s true p))
    | inr e1 ↦ elim (Bool-cases (is_special b)) [
      | inl e2 ↦
          rw (e, e1, e2)
            (one_more ef b s n p n true _ (ground arith) (λ z. (z, ground arith)) (λ z. cc)
              (fold_loop-Chosen ef s n true))
      | inr e2 ↦
          rw (e, e1, e2)
            (one_more ef b s n p n p _ (ground arith) (λ z. (z, ground arith)) (λ z. (z, e2))
              (fold_loop-Chosen ef s n p))
    ]
  ]
]

-- Where `unicode.SimpleFold` folds ASCII, the long s and the Kelvin sign as it is documented, the
-- function that `foldFunc` chooses for a key agrees on that key with `bytes.EqualFold`, whatever
-- bytes the other key has.
pub fold_func-equal_fold :
    (sf : ℕ → ℕ) (s t : Bytes)
    → FoldsAscii sf
    → AreBytes t
    → fold_func (equal_fold sf) s s t ≡ equal_fold sf s t
unfolding fold_func
fold_func-equal_fold sf s t folds ht = agree (fold_loop-Chosen (equal_fold sf) s false false)
  where
    agree :
        {f : Bytes → Bytes → Bool}
        → Chosen (equal_fold sf) s false false f
        → f s t ≡ equal_fold sf s t
    agree (general e) = ap (λ (g : Bytes → Bytes → Bool). g s t) e
    agree (chosen n p ascii hn hp e) =
        ap (λ (g : Bytes → Bytes → Bool). g s t) e
        ∙ choose_fold-loop sf folds s t n p ascii ht (λ z. (hn z).1) (λ z. (hp z).1)
