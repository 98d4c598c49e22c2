-- ===== src/Mcpack/Fold/Rounds.antt =====
-- One round of the fast folds of mcpack/fold.go.
use gomcpack.Prelude.{
  ℕ, suc, ◌<◌, ◌≤◌, ◌≡◌, refl, Bool, true, false, ◌||◌, not, [], ◌∷◌, length, drop, ltb, ◌==◌,
  if◌then◌else◌, arith,
}
use gomcpack.Go.Slice.{Bytes}
use gomcpack.Mcpack.Fold.{
  masked, is_upper, right_match, special_match, equal_fold_right, ascii_match, ascii_loop,
  ascii_equal_fold, letter_loop, simple_letter_equal_fold,
}
use gomcpack.Mcpack.Fold.Unicode.{rune_self, decode_rune}
use gomcpack.Mcpack.Fold.Single.{masked_lem}

-- The elements of a byte slice are bytes.
abbrev pub AreBytes : Bytes → Type 0
AreBytes [] = Unit
AreBytes (b ∷ s) = (b < 256) × AreBytes s

abbrev pub AreAscii : Bytes → Type 0
AreAscii [] = Unit
AreAscii (b ∷ s) = (b < 128) × AreAscii s

-- What the loop of `foldFunc` notes.
abbrev pub is_special : ℕ → Bool
is_special b = masked b == b'K' || masked b == b'S'

abbrev pub has_non_letter : Bytes → Bool
has_non_letter [] = false
has_non_letter (b ∷ s) = not (is_upper (masked b)) || has_non_letter s

abbrev pub has_special : Bytes → Bool
has_special [] = false
has_special (b ∷ s) = is_special b || has_special s

pub neither : (c d : Bool) → (c || d) ≡ false → (c ≡ false) × (d ≡ false)
neither true d h = cc
neither false d h = (refl, h)

pub not-false : (c : Bool) → not c ≡ false → c ≡ true
not-false true h = refl
not-false false h = cc

pub swap :
    (l m r : Bool)
    → (if not l then false else if m then r else false)
      ≡ (if m then (if not l then false else r) else false)
swap true m r = refl
swap false true r = refl
swap false false r = refl

-- One round of each fast fold.
pub right_nil : (t : Bytes) → equal_fold_right [] t ≡ (length t == 0)
unfolding equal_fold_right
right_nil t = refl

pub right_short : (x : ℕ) (s : Bytes) → equal_fold_right (x ∷ s) [] ≡ false
unfolding equal_fold_right
right_short x s = refl

pub right_ascii :
    (x y : ℕ) (s t : Bytes)
    → ltb y rune_self ≡ true
    → equal_fold_right (x ∷ s) (y ∷ t) ≡ (if right_match x y then equal_fold_right s t else false)
unfolding equal_fold_right
right_ascii x y s t e = rw e refl

pub right_outside :
    (x y : ℕ) (s t : Bytes)
    → ltb y rune_self ≡ false
    → equal_fold_right (x ∷ s) (y ∷ t) ≡ (
        if special_match x (decode_rune (y ∷ t)).0
        then equal_fold_right s (drop (decode_rune (y ∷ t)).1 (y ∷ t))
        else false)
unfolding equal_fold_right
right_outside x y s t e = rw e refl

pub ascii_nil : (t : Bytes) → ascii_equal_fold [] t ≡ (length t == 0)
unfolding ascii_equal_fold
ascii_nil t = ground arith

pub ascii_short : (x : ℕ) (s : Bytes) → ascii_equal_fold (x ∷ s) [] ≡ false
unfolding ascii_equal_fold
ascii_short x s = ground arith

pub ascii_round :
    (x y : ℕ) (s t : Bytes)
    → ascii_equal_fold (x ∷ s) (y ∷ t) ≡ (if ascii_match x y then ascii_equal_fold s t else false)
unfolding ascii_equal_fold
ascii_round x y s t =
    let same : (suc (length s) == suc (length t)) ≡ (length s == length t) = ground arith in
    rw same (swap (length s == length t) (ascii_match x y) (ascii_loop s t))

pub letter_nil : (t : Bytes) → simple_letter_equal_fold [] t ≡ (length t == 0)
unfolding simple_letter_equal_fold
letter_nil t = ground arith

pub letter_short : (x : ℕ) (s : Bytes) → simple_letter_equal_fold (x ∷ s) [] ≡ false
unfolding simple_letter_equal_fold
letter_short x s = ground arith

pub letter_round :
    (x y : ℕ) (s t : Bytes)
    → simple_letter_equal_fold (x ∷ s) (y ∷ t)
      ≡ (if masked x == masked y then simple_letter_equal_fold s t else false)
unfolding simple_letter_equal_fold
letter_round x y s t =
    let same : (suc (length s) == suc (length t)) ≡ (length s == length t) = ground arith in
    rw same (swap (length s == length t) (masked x == masked y) (letter_loop s t))

-- Bytes that are none of ASCII.
pub not_special : (x tr : ℕ) → x < 128 → is_special x ≡ false → special_match x tr ≡ false
unfolding special_match
not_special x tr hx h = ground (arith, masked_lem x (omega arith))

pub ascii_outside : (x y : ℕ) → x < 128 → y < 256 → 128 ≤ y → ascii_match x y ≡ false
unfolding ascii_match
ascii_outside x y hx hy h = ground (arith, masked_lem x (omega arith), masked_lem y hy)

pub letter_outside : (x y : ℕ) → x < 128 → y < 256 → 128 ≤ y → (masked x == masked y) ≡ false
letter_outside x y hx hy h = ground (arith, masked_lem x (omega arith), masked_lem y hy)
