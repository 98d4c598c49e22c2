-- ===== src/Mcpack/RoundTrip/Inversion.antt =====
-- What is known of a value whose format has bytes.
use gomcpack.Prelude.{
  ℕ, ◌≤◌, ◌≡◌, refl, Option, none, some, ◌++◌, length, leb, leb→le, arith, Bool-cases, inl, inr,
}
use gomcpack.Go.Slice.{Bytes}
use gomcpack.Mcpack.Number.RoundTrip.{le32}
use gomcpack.Mcpack.Wire.{named, joined, layout, container_wire}

pub named-eq-some :
    (k xs : Bytes) {ys : Bytes} → named k xs ≡ some ys → (xs ≡ ys) × (length k ≤ 254)
named-eq-some k xs h = elim (Bool-cases (leb (length k) 254)) [
  | inl fits ↦ (ground arith, leb→le (length k) 254 fits)
  | inr long ↦ absurd (ground arith)
]

pub joined-eq-some :
    (o p : Option Bytes) {zs : Bytes}
    → joined o p ≡ some zs
    → (xs : Bytes) × (ys : Bytes) × (o ≡ some xs) × (p ≡ some ys) × (xs ++ ys ≡ zs)
joined-eq-some none p h = cc
joined-eq-some (some xs) none h = cc
joined-eq-some (some xs) (some ys) h = (xs, ys, refl, refl, cc)

pub container_wire-eq-some :
    (t : ℕ) (k : Bytes) (count : ℕ) (o : Option Bytes) {zs : Bytes}
    → container_wire t k count o ≡ some zs
    → (xs : Bytes) × (o ≡ some xs)
      × (layout t (le32 (length (le32 count ++ xs))) k (le32 count ++ xs) ≡ zs)
container_wire-eq-some t k count none h = cc
container_wire-eq-some t k count (some xs) h = (xs, refl, (named-eq-some k _ h).0)
