-- ===== src/Mcpack/Number/RoundTrip.antt =====
-- The stores write the little-endian digits, and the loads read them back.
use gomcpack.Prelude.{ℕ, ◌+◌, ◌*◌, ◌/◌, ◌%◌, ◌^◌, ◌≤◌, ◌<◌, ◌≡◌, refl, ap, ◌∙◌, [], ◌∷◌, ◌++◌}
use gomcpack.Prelude.{arith, length, drop, bit_or, leb, le→leb, if◌then◌else◌}
use native.Mathlib.Nat.{mod-eq_of_lt}
use gomcpack.Prelude.Bits.{bit_or_disjoint}
use gomcpack.Go.{done, panic, runtime_error}
use gomcpack.Go.Slice.{Bytes, index, store}
use gomcpack.Mcpack.Number.{shl, uint32, put_uint32, uint64, put_uint64}

-- The digits of a number to the base 256, the lowest first.
abbrev pub le32 : ℕ → Bytes
le32 v = v % 256 ∷ (v / 256 % 256) ∷ (v / 65536 % 256) ∷ (v / 16777216 % 256) ∷ []

abbrev pub le64 : ℕ → Bytes
le64 v = le32 v ++ le32 (v / 4294967296)

pub put_uint32-append :
    (v b0 b1 b2 b3 : ℕ) (r : Bytes) → put_uint32 (b0 ∷ b1 ∷ b2 ∷ b3 ∷ r) v ≡ done (le32 v ++ r)
unfolding put_uint32 store
put_uint32-append v b0 b1 b2 b3 r = ground arith

pub le32-of_bytes :
    (b0 b1 b2 b3 : ℕ) (r : Bytes)
    → b0 < 256
    → b1 < 256
    → b2 < 256
    → b3 < 256
    → le32 (b0 + b1 * 256 + b2 * 65536 + b3 * 16777216) ++ r ≡ b0 ∷ b1 ∷ b2 ∷ b3 ∷ r
le32-of_bytes b0 b1 b2 b3 r h0 h1 h2 h3 = ground arith

-- `acc | uint64(b) << k` where `acc` has `k` bits and nothing is shifted out.
or_shl :
    (w k acc b : ℕ) → acc < 2 ^ k → b * 2 ^ k < 2 ^ w → bit_or acc (shl w b k) ≡ acc + b * 2 ^ k
or_shl w k acc b low fits =
    ap (λ (t : ℕ). bit_or acc t) (mod-eq_of_lt fits) ∙ bit_or_disjoint k acc b low

pub uint32-bytes :
    (b0 b1 b2 b3 : ℕ) (r : Bytes)
    → b0 < 256
    → b1 < 256
    → b2 < 256
    → b3 < 256
    → uint32 (b0 ∷ b1 ∷ b2 ∷ b3 ∷ r) ≡ done (b0 + b1 * 256 + b2 * 65536 + b3 * 16777216)
unfolding uint32 index
uint32-bytes b0 b1 b2 b3 r h0 h1 h2 h3 =
    let e1 = or_shl 32 8 b0 b1 (omega arith) (omega arith) in
    let e2 = or_shl 32 16 (b0 + b1 * 256) b2 (omega arith) (omega arith) in
    let e3 = or_shl 32 24 (b0 + b1 * 256 + b2 * 65536) b3 (omega arith) (omega arith) in
    rw (e1, e2, e3)

pub uint32-append : (v : ℕ) (r : Bytes) → v < 2 ^ 32 → uint32 (le32 v ++ r) ≡ done v
uint32-append v r h =
    uint32-bytes _ _ _ _ r (omega arith) (omega arith) (omega arith) (omega arith)
    ∙ ap done (omega arith)

pub put_uint64-append :
    (v b0 b1 b2 b3 b4 b5 b6 b7 : ℕ) (r : Bytes)
    → put_uint64 (b0 ∷ b1 ∷ b2 ∷ b3 ∷ b4 ∷ b5 ∷ b6 ∷ b7 ∷ r) v ≡ done (le64 v ++ r)
unfolding put_uint64 store
put_uint64-append v b0 b1 b2 b3 b4 b5 b6 b7 r = ground arith

pub uint64-append : (v : ℕ) (r : Bytes) → v < 2 ^ 64 → uint64 (le64 v ++ r) ≡ done v
unfolding uint64 index
uint64-append v r h =
    let hi = v / 4294967296 in
    let d0 = v % 256 in
    let d1 = v / 256 % 256 in
    let d2 = v / 65536 % 256 in
    let d3 = v / 16777216 % 256 in
    let d4 = hi % 256 in
    let d5 = hi / 256 % 256 in
    let d6 = hi / 65536 % 256 in
    let d7 = hi / 16777216 % 256 in
    let s2 = d0 + d1 * 2 ^ 8 in
    let s3 = s2 + d2 * 2 ^ 16 in
    let s4 = s3 + d3 * 2 ^ 24 in
    let s5 = s4 + d4 * 2 ^ 32 in
    let s6 = s5 + d5 * 2 ^ 40 in
    let s7 = s6 + d6 * 2 ^ 48 in
    let e1 = or_shl 64 8 d0 d1 (omega arith) (omega arith) in
    let e2 = or_shl 64 16 s2 d2 (omega arith) (omega arith) in
    let e3 = or_shl 64 24 s3 d3 (omega arith) (omega arith) in
    let e4 = or_shl 64 32 s4 d4 (omega arith) (omega arith) in
    let e5 = or_shl 64 40 s5 d5 (omega arith) (omega arith) in
    let e6 = or_shl 64 48 s6 d6 (omega arith) (omega arith) in
    let e7 = or_shl 64 56 s7 d7 (omega arith) (omega arith) in
    rw (e1, e2, e3, e4, e5, e6, e7) (ap done (omega arith))

-- `PutUint32` writes a number below 2^32 as four bytes and leaves the rest of the slice; `Uint32`
-- reads the number back. On a slice of fewer than four bytes both stop in a bounds check.
pub uint32-put_uint32 :
    (b : Bytes) (v : ℕ)
    → v < 2 ^ 32
    → if leb 4 (length b)
      then ((b' : Bytes) × (put_uint32 b v ≡ done b')
          × (uint32 b' ≡ done v)
          × (drop 4 b' ≡ drop 4 b))
      else (put_uint32 b v ≡ panic runtime_error) × (uint32 b ≡ panic runtime_error)
unfolding put_uint32 uint32 store index
uint32-put_uint32 [] v h = (refl, refl)
uint32-put_uint32 (b0 ∷ []) v h = (refl, refl)
uint32-put_uint32 (b0 ∷ b1 ∷ []) v h = (refl, refl)
uint32-put_uint32 (b0 ∷ b1 ∷ b2 ∷ []) v h = (refl, refl)
uint32-put_uint32 (b0 ∷ b1 ∷ b2 ∷ b3 ∷ r) v h =
    rw (le→leb 4 (length (b0 ∷ b1 ∷ b2 ∷ b3 ∷ r)) (omega arith))
      (le32 v ++ r, put_uint32-append v b0 b1 b2 b3 r, uint32-append v r h, refl)

-- What `Uint32` reads off four bytes is below 2^32, and `PutUint32` writes it as those bytes over
-- four zeros in front of the same rest.
pub put_uint32-uint32 :
    (b0 b1 b2 b3 : ℕ) (r : Bytes)
    → b0 < 256
    → b1 < 256
    → b2 < 256
    → b3 < 256
    → (v : ℕ) × (uint32 (b0 ∷ b1 ∷ b2 ∷ b3 ∷ r) ≡ done v)
      × (v < 2 ^ 32)
      × (put_uint32 (0 ∷ 0 ∷ 0 ∷ 0 ∷ r) v ≡ done (b0 ∷ b1 ∷ b2 ∷ b3 ∷ r))
put_uint32-uint32 b0 b1 b2 b3 r h0 h1 h2 h3 =
    let v = b0 + b1 * 256 + b2 * 65536 + b3 * 16777216 in
    (
      v,
      uint32-bytes b0 b1 b2 b3 r h0 h1 h2 h3,
      omega arith,
      put_uint32-append v 0 0 0 0 r ∙ ap done (le32-of_bytes b0 b1 b2 b3 r h0 h1 h2 h3),
    )

-- On a slice of at least eight bytes `PutUint64` writes eight bytes and leaves the rest; `Uint64`
-- reads back the number, which is below 2^64.
pub uint64-put_uint64 :
    (b : Bytes) (v : ℕ)
    → v < 2 ^ 64
    → 8 ≤ length b
    → (b' : Bytes) × (put_uint64 b v ≡ done b') × (uint64 b' ≡ done v) × (drop 8 b' ≡ drop 8 b)
uint64-put_uint64 (b0 ∷ b1 ∷ b2 ∷ b3 ∷ b4 ∷ b5 ∷ b6 ∷ b7 ∷ r) v h room =
    (le64 v ++ r, put_uint64-append v b0 b1 b2 b3 b4 b5 b6 b7 r, uint64-append v r h, refl)
uint64-put_uint64 _ v h room = absurd (omega arith)
