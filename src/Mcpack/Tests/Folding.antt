-- ===== src/Mcpack/Tests/Folding.antt =====
-- The folds on a table for ASCII, the long s and the Kelvin sign.
use gomcpack.Prelude.{ℕ, ◌+◌, ◌-◌, ◌≡◌, refl, [], ◌∷◌, ◌==◌, if◌then◌else◌, arith}
use gomcpack.Mcpack.Fold.{kelvin, small_long_ess, is_upper, is_lower, fold_func}
use gomcpack.Mcpack.Fold.Unicode.{equal_fold}
use gomcpack.Mcpack.Fold.Single.{FoldsAscii}
use gomcpack.Mcpack.Fold.Agree.{fold_func-equal_fold}

abbrev simple_fold : ℕ → ℕ
simple_fold b =
    if is_upper b
    then b + 32
    else if b == b'k'
    then kelvin
    else if b == b's'
    then small_long_ess
    else if is_lower b
    then b - 32
    else if b == kelvin
    then b'K'
    else if b == small_long_ess
    then b'S'
    else b

simple_fold-FoldsAscii : FoldsAscii simple_fold
simple_fold-FoldsAscii = record {
  capital = λ b h. ground arith;
  small = λ b h other. ground arith;
  other = λ b h none. ground arith;
  small_k = refl;
  kelvin_sign = refl;
  small_s = refl;
  long_s = refl;
}

-- `Key_` against `key_` with the Kelvin sign.
fold_func-equal_fold_example :
    fold_func
      (equal_fold simple_fold)
      (b'K' ∷ b'e' ∷ b'y' ∷ b'_' ∷ [])
      (b'K' ∷ b'e' ∷ b'y' ∷ b'_' ∷ [])
      (0xe2 ∷ 0x84 ∷ 0xaa ∷ b'E' ∷ b'Y' ∷ b'_' ∷ [])
    ≡ equal_fold simple_fold
        (b'K' ∷ b'e' ∷ b'y' ∷ b'_' ∷ [])
        (0xe2 ∷ 0x84 ∷ 0xaa ∷ b'E' ∷ b'Y' ∷ b'_' ∷ [])
fold_func-equal_fold_example =
    fold_func-equal_fold simple_fold (b'K' ∷ b'e' ∷ b'y' ∷ b'_' ∷ [])
      (0xe2 ∷ 0x84 ∷ 0xaa ∷ b'E' ∷ b'Y' ∷ b'_' ∷ []) simple_fold-FoldsAscii
      (omega arith, (omega arith, (omega arith, (omega arith, (omega arith, (omega arith, tt))))))
