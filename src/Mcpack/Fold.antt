-- ===== src/Mcpack/Fold.antt =====
-- mcpack/fold.go: the choice of a function that compares names without regard to case, and the three
-- fast ones. `bytes.EqualFold` is a parameter of the choice; `Unicode` has what the library does.
pub mod Unicode
pub mod Single
pub mod Runes
pub mod Rounds
pub mod Agree
use gomcpack.Prelude.{
  ℕ, ◌+◌, ◌-◌, ◌*◌, ◌%◌, Bool, true, false, ◌&&◌, ◌||◌, not, List, [], ◌∷◌, length, drop, bit_and,
  ltb, leb, ◌==◌, if◌then◌else◌,
}
use gomcpack.Go.Slice.{Bytes}
use gomcpack.Mcpack.Fold.Unicode.{decode_rune, rune_self}

abbrev pub kelvin : ℕ
kelvin = 0x212a

abbrev pub small_long_ess : ℕ
small_long_ess = 0x17f

-- `b & caseMask`
unfoldable pub masked : ℕ → ℕ
masked b = bit_and b 0xdf

-- `'A' <= b && b <= 'Z'`, and the same for the small letters.
abbrev pub is_upper : ℕ → Bool
is_upper b = leb b'A' b && leb b b'Z'

abbrev pub is_lower : ℕ → Bool
is_lower b = leb b'a' b && leb b b'z'

-- The test of a byte of ASCII against another in `equalFoldRight`.
unfoldable pub right_match : ℕ → ℕ → Bool
unfolding masked
right_match sb tb =
    if sb == tb then true else (if is_upper (masked sb) then masked sb == masked tb else false)

-- The `switch` on a byte of ASCII and a rune that is none.
unfoldable pub special_match : ℕ → ℕ → Bool
special_match sb tr =
    if sb == b's' || sb == b'S'
    then tr == small_long_ess
    else if sb == b'k' || sb == b'K'
    then tr == kelvin
    else false

unfoldable pub equal_fold_right : Bytes → Bytes → Bool
unfolding right_match special_match
equal_fold_right [] t = length t == 0
equal_fold_right (sb ∷ s) [] = false
equal_fold_right (sb ∷ s) (tb ∷ t) =
    let next = equal_fold_right s t in
    let (tr, size) = decode_rune (tb ∷ t) in
    let behind = equal_fold_right s (drop size (tb ∷ t)) in
    if ltb tb rune_self
    then (if right_match sb tb then next else false)
    else (if special_match sb tr then behind else false)

-- The test of `asciiEqualFold`, and its loop, on slices of one length.
unfoldable pub ascii_match : ℕ → ℕ → Bool
unfolding masked
ascii_match sb tb =
    if sb == tb
    then true
    else (if is_lower sb || is_upper sb then masked sb == masked tb else false)

unfoldable pub ascii_loop : Bytes → Bytes → Bool
unfolding ascii_match
ascii_loop (sb ∷ s) (tb ∷ t) =
    let rest = ascii_loop s t in if ascii_match sb tb then rest else false
ascii_loop _ _ = true

unfoldable pub ascii_equal_fold : Bytes → Bytes → Bool
unfolding ascii_loop
ascii_equal_fold s t = if not (length s == length t) then false else ascii_loop s t

unfoldable pub letter_loop : Bytes → Bytes → Bool
unfolding masked
letter_loop (b ∷ s) (tb ∷ t) =
    let rest = letter_loop s t in if masked b == masked tb then rest else false
letter_loop _ _ = true

unfoldable pub simple_letter_equal_fold : Bytes → Bytes → Bool
unfolding letter_loop
simple_letter_equal_fold s t = if not (length s == length t) then false else letter_loop s t

-- The end of `foldFunc`.
abbrev pub choose_fold : Bool → Bool → Bytes → Bytes → Bool
choose_fold non_letter true = equal_fold_right
choose_fold true false = ascii_equal_fold
choose_fold false false = simple_letter_equal_fold

-- The loop of `foldFunc` with `nonLetter` and `special`.
unfoldable pub fold_loop : (Bytes → Bytes → Bool) → Bool → Bool → Bytes → Bytes → Bytes → Bool
unfolding masked
fold_loop equal_fold non_letter special [] = choose_fold non_letter special
fold_loop equal_fold non_letter special (b ∷ s) =
    let upper = masked b in
    let outside = fold_loop equal_fold true special s in
    let letter = fold_loop equal_fold non_letter special s in
    let marked = fold_loop equal_fold non_letter true s in
    if leb rune_self b
    then equal_fold
    else (if ltb upper b'A' || ltb b'Z' upper
        then outside
        else (if upper == b'K' || upper == b'S' then marked else letter))

-- `foldFunc(s)`
unfoldable pub fold_func : (Bytes → Bytes → Bool) → Bytes → Bytes → Bytes → Bool
unfolding fold_loop
fold_func equal_fold s = fold_loop equal_fold false false s
