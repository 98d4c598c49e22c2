-- ===== src/Prelude/Bits.antt =====
-- `|` of disjoint bit fields is a sum, and `&` with a mask of low bits is a remainder.
use Prim.Native.Nat.{
  ℕ, zero, suc, ◌+◌, ◌*◌, ◌/◌, ◌%◌, ◌^◌, ◌≤◌, ◌<◌, max, digits, bitwise, bit_or, bit_or-bitwise,
}
use mathlib.Core.Path.{◌≡◌, refl, ap, ◌∙◌}
use mathlib.Core.Logic.{inl, inr}
use native.Mathlib.Nat.{pow-suc}
use gomcpack.Prelude.Tests.{leb, leb→le, leb→gt, Bool-cases}
use native.Mathlib.Omega.{arith}

-- The digit recursion behind the native operation does not depend on its fuel, once that is as large
-- as the first number.
module _ (rest : ℕ → ℕ) (op : ℕ → ℕ → ℕ) where
  one_more : (fuel x y : ℕ) → x ≤ fuel → digits rest op (suc fuel) x y ≡ digits rest op fuel x y
  one_more zero zero y h = refl
  one_more (suc fuel) zero y h = refl
  one_more zero (suc x) y h = absurd (omega arith)
  one_more (suc fuel) (suc x) y h =
      ap (λ (t : ℕ). t * 2 + op (suc x % 2) (y % 2))
        (one_more fuel (suc x / 2) (y / 2) (omega arith))

  enough : (fuel x y : ℕ) → x ≤ fuel → digits rest op fuel x y ≡ bitwise rest op x y
  enough zero zero y h = refl
  enough zero (suc x) y h = absurd (omega arith)
  enough (suc fuel) x y h = elim (Bool-cases (leb x fuel)) [
    | inl small ↦ let below = leb→le x fuel small in one_more fuel x y below ∙ enough fuel x y below
    | inr large ↦
        let above = leb→gt x fuel large in
        ap (λ (n : ℕ). digits rest op n x y) {x = suc fuel} {y = x} (omega arith)
  ]

bit_or-halves : (x y : ℕ) → bit_or x y ≡ max (x % 2) (y % 2) + 2 * bit_or (x / 2) (y / 2)
bit_or-halves zero y = simp bit_or-bitwise (omega arith)
bit_or-halves (suc x) y =
    let halves = enough (λ t. t) max x (suc x / 2) (y / 2) (omega arith) in
    simp bit_or-bitwise (omega (arith, halves))

bit_or_zero : (b : ℕ) → bit_or 0 b ≡ b
bit_or_zero b = bit_or-bitwise 0 b

double_pow : (q k : ℕ) → q * 2 ^ suc k ≡ 2 * (q * 2 ^ k)
double_pow q k = omega (arith, ap (λ (t : ℕ). q * t) (pow-suc 2 k))

-- A field of `k` bits or-ed with one that starts at bit `k`.
pub bit_or_disjoint : (k r q : ℕ) → r < 2 ^ k → bit_or r (q * 2 ^ k) ≡ r + q * 2 ^ k
bit_or_disjoint zero zero q fits = omega (arith, bit_or_zero (q * 1))
bit_or_disjoint zero (suc r) q fits = absurd (omega arith)
bit_or_disjoint (suc k) r q fits = omega (
  arith,
  bit_or-halves r (q * 2 ^ suc k),
  double_pow q k,
  ap (λ (t : ℕ). bit_or (r / 2) t) {x = q * 2 ^ suc k / 2} {y = q * 2 ^ k}
      (omega (arith, double_pow q k)),
  bit_or_disjoint k (r / 2) q (omega (arith, pow-suc 2 k)),
)
