-- ===== src/Mcpack/Fold/Unicode.antt =====
-- What mcpack/fold.go uses of Go's libraries: `utf8.DecodeRune`, and `bytes.EqualFold` over a table of
-- `unicode.SimpleFold`.
use gomcpack.Prelude.{
  ℕ, zero, suc, ◌+◌, ◌*◌, ◌%◌, Bool, true, false, ◌&&◌, ◌||◌, [], ◌∷◌, length, drop, ltb, leb, ◌==◌,
  if◌then◌else◌,
}
use gomcpack.Go.Slice.{Bytes}

abbrev pub rune_self : ℕ
rune_self = 0x80

-- The rune for bytes that are no UTF-8.
abbrev pub rune_error : ℕ
rune_error = 0xfffd

abbrev pub between : ℕ → ℕ → ℕ → Bool
between lo hi x = leb lo x && leb x hi

abbrev bad : ℕ × ℕ
bad = (rune_error, 1)

-- Sequences of two, three and four bytes behind the first byte `x`.
abbrev pub two : ℕ → Bytes → ℕ × ℕ
two x (y ∷ _) = if between 0x80 0xbf y then (x % 32 * 64 + y % 64, 2) else bad
two x [] = bad

abbrev pub three : ℕ → ℕ → ℕ → Bytes → ℕ × ℕ
three x lo hi (y ∷ z ∷ _) =
    if between lo hi y && between 0x80 0xbf z
    then (x % 16 * 4096 + y % 64 * 64 + z % 64, 3)
    else bad
three x lo hi _ = bad

abbrev pub four : ℕ → ℕ → ℕ → Bytes → ℕ × ℕ
four x lo hi (y ∷ z ∷ w ∷ _) =
    if between lo hi y && between 0x80 0xbf z && between 0x80 0xbf w
    then (x % 8 * 262144 + y % 64 * 4096 + z % 64 * 64 + w % 64, 4)
    else bad
four x lo hi _ = bad

-- The rune at the front, and the number of its bytes.
unfoldable pub decode_rune : Bytes → ℕ × ℕ
decode_rune [] = (rune_error, 0)
decode_rune (x ∷ p) =
    if ltb x rune_self
    then (x, 1)
    else if between 0xc2 0xdf x
    then two x p
    else if x == 0xe0
    then three x 0xa0 0xbf p
    else if x == 0xed
    then three x 0x80 0x9f p
    else if between 0xe1 0xef x
    then three x 0x80 0xbf p
    else if x == 0xf0
    then four x 0x90 0xbf p
    else if between 0xf1 0xf3 x
    then four x 0x80 0xbf p
    else if x == 0xf4
    then four x 0x80 0x8f p
    else bad

module _ (simple_fold : ℕ → ℕ) where
  -- `for r != sr && r < tr { r = unicode.SimpleFold(r) }`; no orbit of `SimpleFold` has more than four
  -- runes.
  unfoldable pub orbit : ℕ → ℕ → ℕ → ℕ → ℕ
  orbit zero sr tr r = r
  orbit (suc n) sr tr r =
      let next = orbit n sr tr (simple_fold r) in if r == sr || leb tr r then r else next

  -- The runes `sr < tr` are the same but for their case.
  unfoldable pub rune_match : ℕ → ℕ → Bool
  unfolding orbit
  rune_match sr tr =
      if ltb tr rune_self
      then between b'A' b'Z' sr && tr == sr + 32
      else orbit 4 sr tr (simple_fold sr) == tr

  unfoldable pub same_fold : ℕ → ℕ → Bool
  unfolding rune_match
  same_fold sr tr =
      if tr == sr then true else if ltb tr sr then rune_match tr sr else rune_match sr tr

  unfoldable pub equal_fold_loop : ℕ → Bytes → Bytes → Bool
  unfolding same_fold decode_rune
  equal_fold_loop zero s t = length s == length t
  equal_fold_loop (suc n) [] t = length t == 0
  equal_fold_loop (suc n) (x ∷ s) [] = false
  equal_fold_loop (suc n) (x ∷ s) (y ∷ t) =
      let (sr, size) = decode_rune (x ∷ s) in
      let (tr, width) = decode_rune (y ∷ t) in
      let rest = equal_fold_loop n (drop size (x ∷ s)) (drop width (y ∷ t)) in
      if same_fold sr tr then rest else false

  -- `bytes.EqualFold(s, t)`; each turn takes at least one byte of `s`.
  unfoldable pub equal_fold : Bytes → Bytes → Bool
  unfolding equal_fold_loop
  equal_fold s t = equal_fold_loop (length s) s t
