-- ===== src/Mcpack/Fold/Runes.antt =====
-- The rune at the front of a byte slice, in ASCII and outside.
use gomcpack.Prelude.{
  ℕ, ◌<◌, ◌≤◌, ◌≡◌, refl, Bool, true, false, ◌&&◌, ltb, ◌==◌, if◌then◌else◌, arith, inl, inr, ◌⊎◌,
  [], ◌∷◌,
}
use gomcpack.Go.Slice.{Bytes}
use gomcpack.Mcpack.Fold.Unicode.{between, two, three, four, decode_rune}

-- A rune that is none of ASCII.
IsOutside : ℕ × ℕ → Type 0
IsOutside r = 128 ≤ r.0

either :
    (b : Bool) (p q : ℕ × ℕ)
    → (b ≡ true → IsOutside p)
    → (b ≡ false → IsOutside q)
    → IsOutside (if b then p else q)
either true p q hp hq = hp refl
either false p q hp hq = hq refl

two-IsOutside : (x : ℕ) (t : Bytes) → between 0xc2 0xdf x ≡ true → IsOutside (two x t)
unfolding IsOutside
two-IsOutside x [] h = omega arith
two-IsOutside x (y ∷ t) h = either (between 0x80 0xbf y) _ _ (λ e. ground arith) (λ e. omega arith)

three-IsOutside :
    (x lo hi : ℕ) (t : Bytes)
    → (lo ≡ 0xa0 × hi ≡ 0xbf) ⊎ (between 0xe1 0xef x ≡ true)
    → IsOutside (three x lo hi t)
unfolding IsOutside
three-IsOutside x lo hi [] h = omega arith
three-IsOutside x lo hi (y ∷ []) h = omega arith
three-IsOutside x lo hi (y ∷ z ∷ t) h =
    either (between lo hi y && between 0x80 0xbf z) _ _ (λ e. ground arith) (λ e. omega arith)

four-IsOutside :
    (x lo hi : ℕ) (t : Bytes)
    → (lo ≡ 0x90 × hi ≡ 0xbf) ⊎ (between 0xf1 0xf4 x ≡ true)
    → IsOutside (four x lo hi t)
unfolding IsOutside
four-IsOutside x lo hi [] h = omega arith
four-IsOutside x lo hi (y ∷ []) h = omega arith
four-IsOutside x lo hi (y ∷ z ∷ []) h = omega arith
four-IsOutside x lo hi (y ∷ z ∷ w ∷ t) h =
    either (between lo hi y && between 0x80 0xbf z && between 0x80 0xbf w) _ _ (λ e. ground arith)
      (λ e. omega arith)

-- The rune of bytes that begin with none of ASCII is none of ASCII.
pub decode_rune-outside : (y : ℕ) (t : Bytes) → 128 ≤ y → 128 ≤ (decode_rune (y ∷ t)).0
unfolding decode_rune IsOutside
decode_rune-outside y t h =
    either (ltb y 0x80) _ _ (λ e. absurd (ground arith))
      λ _. either (between 0xc2 0xdf y) _ _ (two-IsOutside y t) λ _.
        either (y == 0xe0) _ _ (λ e. three-IsOutside y 0xa0 0xbf t (inl (refl, refl)))
          λ _.
            either (y == 0xed) _ _ (λ e. three-IsOutside y 0x80 0x9f t (inr (ground arith)))
              λ _.
                either (between 0xe1 0xef y) _ _ (λ e. three-IsOutside y 0x80 0xbf t (inr e))
                  λ _.
                    either (y == 0xf0) _ _ (λ e. four-IsOutside y 0x90 0xbf t (inl (refl, refl)))
                      λ _.
                        either (between 0xf1 0xf3 y) _ _
                          (λ e. four-IsOutside y 0x80 0xbf t (inr (ground arith)))
                          λ _.
                            either (y == 0xf4) _ _
                              (λ e. four-IsOutside y 0x80 0x8f t (inr (ground arith)))
                              λ _. omega arith

pub decode_rune-ascii : (x : ℕ) (s : Bytes) → x < 128 → decode_rune (x ∷ s) ≡ (x, 1)
unfolding decode_rune
decode_rune-ascii x s h = let inside : ltb x 0x80 ≡ true = ground arith in rw inside refl
