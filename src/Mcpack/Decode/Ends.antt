-- ===== src/Mcpack/Decode/Ends.antt =====
-- Decoder steps that end: what they leave of the input bounds what comes after them.
use gomcpack.Prelude.{
  ℕ, ◌+◌, ◌-◌, ◌≤◌, ◌≡◌, ◌&&◌, refl, ap, ◌∙◌, Bool, true, false, Option, none, some, arith, length,
  leb, if◌then◌else◌, get_elem?,
}
use gomcpack.Go
use gomcpack.Go.{Go, done, panic, out_of_fuel, Panic, runtime_error}
use gomcpack.Go.Slice.{Bytes, index, slice_from, slice_to_cap}
use gomcpack.Go.Proc.{◌>>=◌, ◌>>◌, pure, throw, lift, and_then}
use gomcpack.Mcpack.Number.{uint8, uint32, uint64}
use gomcpack.Mcpack.Decode.State.{DecodeState, Decoder, peek, read, offset, advance, slice_data}

-- The run ended, and unless it panicked the input is the same and the offset has not gone back.
abbrev pub Moves : {A : Type 0} → DecodeState → Go (A × DecodeState) → Type 0
Moves s (done (a, s')) = (s'.input ≡ s.input) × (s.off ≤ s'.off)
Moves s (panic p) = Unit
Moves s out_of_fuel = ⊥

-- `m` ends where at most `l` bytes of the input are left.
pub record Ends {A : Type 0} (l : ℕ) (m : Decoder A) : Type 0 where
  pub at : (s : DecodeState) → length s.input - s.off ≤ l → Moves s (m s)

module _ {A B : Type 0} (l : ℕ) where
  Moves-and_then :
      (s : DecodeState) (r : Go (A × DecodeState)) (f : A → Decoder B)
      → length s.input - s.off ≤ l
      → Moves s r
      → ((a : A) → Ends l (f a))
      → Moves s (and_then r f)
  Moves-and_then s (done (a, s')) f h (same, fwd) ef =
      back (f a s') ((ef a).at s' (omega (arith, ap length same)))
    where
      back : (r : Go (B × DecodeState)) → Moves s' r → Moves s r
      back (done (b, s'')) (p, q) = (p ∙ same, omega arith)
      back (panic p) q = tt
      back out_of_fuel q = q
  Moves-and_then s (panic p) f h m ef = tt
  Moves-and_then s out_of_fuel f h m ef = m

  pub Ends-bind :
      (m : Decoder A) (f : A → Decoder B) → Ends l m → ((a : A) → Ends l (f a)) → Ends l (m >>= f)
  Ends-bind m f em ef = record { at = λ s h. Moves-and_then s (m s) f h (em.at s h) ef }

pub Ends-then :
    {B : Type 0} (l : ℕ) (m : Decoder (Unit {0})) (n : Decoder B)
    → Ends l m
    → Ends l n
    → Ends l (m >> n)
Ends-then l m n em en = record { at = (Ends-bind l m (λ _. n) em (λ _. en)).at }

-- A `Go` expression that only looks at the input.
abbrev pub IsEnded : {A : Type 0} → Go A → Type 0
IsEnded (done a) = Unit
IsEnded (panic p) = Unit
IsEnded out_of_fuel = ⊥

module _ {A : Type 0} (l : ℕ) where
  pub Ends-pure : (a : A) → Ends l (pure a)
  Ends-pure a = record { at = λ s h. (refl, omega arith) }

  pub Ends-throw : (p : Panic) → Ends {A = A} l (throw p)
  Ends-throw p = record { at = λ s h. tt }

  pub Ends-lift : (r : Go A) → IsEnded r → Ends l (lift r)
  Ends-lift (done a) h = record { at = λ s _. (refl, omega arith) }
  Ends-lift (panic p) h = record { at = λ s _. tt }
  Ends-lift out_of_fuel h = absurd h

  pub Ends-if : (b : Bool) (m n : Decoder A) → Ends l m → Ends l n → Ends l (if b then m else n)
  Ends-if true m n em en = em
  Ends-if false m n em en = en

Moves-look :
    {A B : Type 0} (s : DecodeState) (r : Go A) (f : A → Go (B × DecodeState))
    → IsEnded r
    → ((a : A) → Moves s (f a))
    → Moves s (Go.◌>>=◌ r f)
Moves-look s (done a) f e h = h a
Moves-look s (panic p) f e h = tt
Moves-look s out_of_fuel f e h = e

IsEnded-bind :
    {A B : Type 0} (m : Go A) (f : A → Go B)
    → IsEnded m
    → ((a : A) → IsEnded (f a))
    → IsEnded (Go.◌>>=◌ m f)
IsEnded-bind (done a) f em ef = ef a
IsEnded-bind (panic p) f em ef = tt
IsEnded-bind out_of_fuel f em ef = em

index-IsEnded : (b : Bytes) (i : ℕ) → IsEnded (index b i)
unfolding index
index-IsEnded b i = go (get_elem? b i)
  where
    go : (o : Option ℕ) → IsEnded (elim o [ none ↦ panic runtime_error | some x ↦ done x ])
    go none = tt
    go (some x) = tt

IsEnded-if :
    {A : Type 0} (b : Bool) (m n : Go A) → IsEnded m → IsEnded n → IsEnded (if b then m else n)
IsEnded-if true m n em en = em
IsEnded-if false m n em en = en

slice_from-IsEnded : (b : Bytes) (lo : ℕ) → IsEnded (slice_from b lo)
unfolding slice_from
slice_from-IsEnded b lo = IsEnded-if (leb lo (length b)) _ _ tt tt

slice_to_cap-IsEnded : (b spare : Bytes) (lo hi : ℕ) → IsEnded (slice_to_cap b spare lo hi)
unfolding slice_to_cap
slice_to_cap-IsEnded b spare lo hi =
    IsEnded-if (leb lo hi && leb hi (length b + length spare)) _ _ tt tt

uint8-IsEnded : (b : Bytes) → IsEnded (uint8 b)
unfolding uint8
uint8-IsEnded b = index-IsEnded b 0

uint32-IsEnded : (b : Bytes) → IsEnded (uint32 b)
unfolding uint32
uint32-IsEnded b = IsEnded-bind _ _ (index-IsEnded b 0) λ b0.
    IsEnded-bind _ _ (index-IsEnded b 1)
      λ b1. IsEnded-bind _ _ (index-IsEnded b 2) λ b2. IsEnded-bind _ _ (index-IsEnded b 3) λ b3. tt

uint64-IsEnded : (b : Bytes) → IsEnded (uint64 b)
unfolding uint64
uint64-IsEnded b = IsEnded-bind _ _ (index-IsEnded b 0) λ b0.
    IsEnded-bind _ _ (index-IsEnded b 1) λ b1. IsEnded-bind _ _ (index-IsEnded b 2) λ b2.
      IsEnded-bind _ _ (index-IsEnded b 3) λ b3. IsEnded-bind _ _ (index-IsEnded b 4) λ b4.
        IsEnded-bind _ _ (index-IsEnded b 5) λ b5.
          IsEnded-bind _ _ (index-IsEnded b 6) λ b6. IsEnded-bind _ _ (index-IsEnded b 7) λ b7. tt

module _ (l : ℕ) where
  pub Ends-peek : Ends l peek
  unfolding peek
  Ends-peek = record {
    at = λ s h.
        Moves-look s (index s.input s.off) _ (index-IsEnded s.input s.off)
          (λ x. (refl, omega arith));
  }

  Ends-read : (get : Bytes → Go ℕ) (n : ℕ) → ((b : Bytes) → IsEnded (get b)) → Ends l (read get n)
  unfolding read
  Ends-read get n h = record {
    at = λ s _.
        Moves-look s (slice_from s.input (s.off + n)) _ (slice_from-IsEnded s.input (s.off + n))
          λ b. Moves-look s (get b) _ (h b) (λ x. (refl, omega arith));
  }

  pub Ends-read-uint8 : (n : ℕ) → Ends l (read uint8 n)
  Ends-read-uint8 n = Ends-read uint8 n uint8-IsEnded

  pub Ends-read-uint32 : (n : ℕ) → Ends l (read uint32 n)
  Ends-read-uint32 n = Ends-read uint32 n uint32-IsEnded

  pub Ends-read-uint64 : (n : ℕ) → Ends l (read uint64 n)
  Ends-read-uint64 n = Ends-read uint64 n uint64-IsEnded

  pub Ends-offset : Ends l offset
  unfolding offset
  Ends-offset = record { at = λ s h. (refl, omega arith) }

  pub Ends-advance : (n : ℕ) → Ends l (advance n)
  unfolding advance
  Ends-advance n = record { at = λ s h. (refl, omega arith) }

  pub Ends-slice_data : (lo hi : ℕ) → Ends l (slice_data lo hi)
  unfolding slice_data
  Ends-slice_data lo hi = record {
    at = λ s h.
        Moves-look s (slice_to_cap s.input s.spare lo hi) _
          (slice_to_cap-IsEnded s.input s.spare lo hi) (λ x. (refl, omega arith));
  }

pub ruleset ends_rules = (
  Ends-bind, Ends-then, Ends-pure, Ends-throw, Ends-if, Ends-peek, Ends-read-uint8,
  Ends-read-uint32, Ends-read-uint64, Ends-offset, Ends-advance, Ends-slice_data,
)
