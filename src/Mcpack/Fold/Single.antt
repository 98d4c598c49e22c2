-- ===== src/Mcpack/Fold/Single.antt =====
-- The folds of mcpack/fold.go on one byte of ASCII against one rune.
use gomcpack.Prelude.{
  ℕ, zero, suc, ◌+◌, ◌-◌, ◌*◌, ◌/◌, ◌%◌, ◌<◌, ◌≤◌, ◌≡◌, refl, Bool, true, false, ◌||◌, ltb, leb,
  ◌==◌, if◌then◌else◌, arith, Bool-cases, inl, inr, subst, ◌∙◌, sym, ap,
}
use gomcpack.Mcpack.Fold.{
  kelvin, small_long_ess, masked, is_upper, is_lower, right_match, special_match, ascii_match,
}
use gomcpack.Mcpack.Fold.Unicode.{orbit, rune_match, same_fold}

-- A test of all numbers below a bound.
abbrev all_below : ℕ → (ℕ → Bool) → Bool
all_below zero p = true
all_below (suc n) p = if p n then all_below n p else false

both : (c d : Bool) → (if c then d else false) ≡ true → (c ≡ true) × (d ≡ true)
both true d h = (refl, h)
both false d h = cc

all_below-at : (n : ℕ) (p : ℕ → Bool) (b : ℕ) → all_below n p ≡ true → b < n → p b ≡ true
all_below-at zero p b h small = absurd (omega arith)
all_below-at (suc n) p b h small = elim (Bool-cases (b == n)) [
  | inl same ↦ subst (λ (m : ℕ). p m ≡ true) {x = n} {y = b} (ground arith) (both (p n) _ h).0
  | inr other ↦ all_below-at n p b (both (p n) _ h).1 (ground arith)
]

-- The mask takes the bit of 32 away.
masked_all : all_below 256 (λ b. masked b == b - 32 * (b / 32 % 2)) ≡ true
unfolding masked
masked_all = refl

pub masked_lem : (b : ℕ) → b < 256 → masked b ≡ b - 32 * (b / 32 % 2)
masked_lem b h =
    let same = all_below-at 256 (λ b. masked b == b - 32 * (b / 32 % 2)) b masked_all h in
    ground arith

-- Two bytes of ASCII.
module _ (a b : ℕ) (ha : a < 128) (hb : b < 128) where
  pub same_fold-right : (sf : ℕ → ℕ) → same_fold sf a b ≡ right_match a b
  unfolding same_fold right_match
  same_fold-right sf = ground (arith, masked_lem a (omega arith), masked_lem b (omega arith))

  pub right-ascii : right_match a b ≡ ascii_match a b
  unfolding right_match ascii_match
  right-ascii = ground (arith, masked_lem a (omega arith), masked_lem b (omega arith))

  pub right-letter : is_upper (masked a) ≡ true → right_match a b ≡ (masked a == masked b)
  unfolding right_match
  right-letter h = ground (arith, masked_lem a (omega arith), masked_lem b (omega arith))

-- What `unicode.SimpleFold` does with ASCII, with the long s and with the Kelvin sign.
pub record FoldsAscii (sf : ℕ → ℕ) : Type 0 where
  pub capital : (b : ℕ) → is_upper b ≡ true → sf b ≡ b + 32
  pub small : (b : ℕ) → is_lower b ≡ true → (b == b'k' || b == b's') ≡ false → sf b ≡ b - 32
  pub other : (b : ℕ) → b < 128 → (is_upper b || is_lower b) ≡ false → sf b ≡ b
  pub small_k : sf b'k' ≡ kelvin
  pub kelvin_sign : sf kelvin ≡ b'K'
  pub small_s : sf b's' ≡ small_long_ess
  pub long_s : sf small_long_ess ≡ b'S'

module _ (sf : ℕ → ℕ) (sr tr : ℕ) where
  orbit-stop : (n r : ℕ) → (r == sr || leb tr r) ≡ true → orbit sf (suc n) sr tr r ≡ r
  unfolding orbit
  orbit-stop n r h = rw h refl

  orbit-step :
      (n r : ℕ) → (r == sr || leb tr r) ≡ false → orbit sf (suc n) sr tr r ≡ orbit sf n sr tr (sf r)
  unfolding orbit
  orbit-step n r h = rw h refl

-- A byte of ASCII and a rune that is none.
module _ (sf : ℕ → ℕ) (folds : FoldsAscii sf) (a tr : ℕ) (ha : a < 128) (ht : 128 ≤ tr) where
  -- The rune is not in an orbit of two bytes of ASCII.
  two_cycle : (o : ℕ) → o < 128 → sf a ≡ o → sf o ≡ a → (orbit sf 4 a tr (sf a) == tr) ≡ false
  two_cycle o ho e1 e2 = elim (Bool-cases (o == a)) [
    | inl same ↦ rw (e1, orbit-stop sf a tr 3 o (ground arith)) (ground arith)
    | inr differ ↦
        rw (e1, orbit-step sf a tr 3 o (ground arith), e2, orbit-stop sf a tr 2 a (ground arith))
          (ground arith)
  ]

  -- Nor is it in one with a single other rune, unless it is this one.
  three_cycle :
      (o x : ℕ)
      → o < 128
      → (o == a) ≡ false
      → 128 ≤ x
      → sf a ≡ o
      → sf o ≡ x
      → sf x ≡ a
      → (orbit sf 4 a tr (sf a) == tr) ≡ (tr == x)
  three_cycle o x ho differ hx e1 e2 e3 = elim (Bool-cases (leb tr x)) [
    | inl near ↦
        rw (e1, orbit-step sf a tr 3 o (ground arith), e2, orbit-stop sf a tr 2 x (ground arith))
          (ground arith)
    | inr far ↦
        rw
          (
            e1,
            orbit-step sf a tr 3 o (ground arith),
            e2,
            orbit-step sf a tr 2 x (ground arith),
            e3,
            orbit-stop sf a tr 1 a (ground arith),
          )
          (ground arith)
  ]

  three_cycle_small :
      (o x : ℕ)
      → o < 128
      → (o == a) ≡ false
      → 128 ≤ x
      → sf a ≡ x
      → sf x ≡ o
      → sf o ≡ a
      → (orbit sf 4 a tr (sf a) == tr) ≡ (tr == x)
  three_cycle_small o x ho differ hx e1 e2 e3 = elim (Bool-cases (leb tr x)) [
    | inl near ↦ rw (e1, orbit-stop sf a tr 3 x (ground arith)) (ground arith)
    | inr far ↦
        rw
          (
            e1,
            orbit-step sf a tr 3 x (ground arith),
            e2,
            orbit-step sf a tr 2 o (ground arith),
            e3,
            orbit-stop sf a tr 1 a (ground arith),
          )
          (ground arith)
  ]

  rune_match-orbit : same_fold sf a tr ≡ (orbit sf 4 a tr (sf a) == tr)
  unfolding same_fold rune_match
  rune_match-orbit =
      let differ : (tr == a) ≡ false = ground arith in
      let above : ltb tr a ≡ false = ground arith in
      let outside : ltb tr 0x80 ≡ false = ground arith in rw (differ, above, outside) refl

  special_long_s :
      a == b's' || a == b'S' ≡ true → (orbit sf 4 a tr (sf a) == tr) ≡ (tr == small_long_ess)
  special_long_s h = elim (Bool-cases (a == b's')) [
    | inl e ↦
        let is_s : a ≡ b's' = ground arith in
        three_cycle_small b'S' small_long_ess (omega arith) (ground arith) (omega arith)
          (ap sf is_s ∙ folds.small_s) folds.long_s (folds.capital b'S' refl ∙ sym is_s)
    | inr e ↦
        let is_s : a ≡ b'S' = ground arith in
        three_cycle b's' small_long_ess (omega arith) (ground arith) (omega arith)
          (ap sf is_s ∙ folds.capital b'S' refl) folds.small_s (folds.long_s ∙ sym is_s)
  ]

  special_kelvin : a == b'k' || a == b'K' ≡ true → (orbit sf 4 a tr (sf a) == tr) ≡ (tr == kelvin)
  special_kelvin h = elim (Bool-cases (a == b'k')) [
    | inl e ↦
        let is_k : a ≡ b'k' = ground arith in
        three_cycle_small b'K' kelvin (omega arith) (ground arith) (omega arith)
          (ap sf is_k ∙ folds.small_k) folds.kelvin_sign (folds.capital b'K' refl ∙ sym is_k)
    | inr e ↦
        let is_k : a ≡ b'K' = ground arith in
        three_cycle b'k' kelvin (omega arith) (ground arith) (omega arith)
          (ap sf is_k ∙ folds.capital b'K' refl) folds.small_k (folds.kelvin_sign ∙ sym is_k)
  ]

  no_special :
      a == b's' || a == b'S' ≡ false
      → a == b'k' || a == b'K' ≡ false
      → (orbit sf 4 a tr (sf a) == tr) ≡ false
  no_special hs hk = elim (Bool-cases (is_upper a)) [
    | inl e ↦
        two_cycle (a + 32) (ground arith) (folds.capital a e)
          (folds.small (a + 32) (ground arith) (ground arith) ∙ omega arith)
    | inr e ↦ elim (Bool-cases (is_lower a)) [
      | inl e' ↦
          two_cycle (a - 32) (omega arith) (folds.small a e' (ground arith))
            (folds.capital (a - 32) (ground arith) ∙ ground arith)
      | inr e' ↦ two_cycle a ha (folds.other a ha (ground arith)) (folds.other a ha (ground arith))
    ]
  ]

  pub same_fold-special : same_fold sf a tr ≡ special_match a tr
  unfolding special_match
  same_fold-special = elim (Bool-cases (a == b's' || a == b'S')) [
    | inl e ↦ rune_match-orbit ∙ special_long_s e ∙ rw e refl
    | inr e ↦ elim (Bool-cases (a == b'k' || a == b'K')) [
      | inl e' ↦ rune_match-orbit ∙ special_kelvin e' ∙ rw (e, e') refl
      | inr e' ↦ rune_match-orbit ∙ no_special e e' ∙ rw (e, e') refl
    ]
  ]
