-- ===== src/Mcpack/Decode/EndsItems.antt =====
-- The readers of names and of values without members end. Where they have read the first two bytes
-- of an item, fewer bytes are left.
use gomcpack.Prelude.{
  ℕ, zero, suc, ◌+◌, ◌-◌, ◌≤◌, ◌<◌, ◌≡◌, refl, ap, none, some, [], ◌∷◌, arith, length, drop,
  length-drop, leb, Bool-cases, ◌⊎◌, inl, inr, get_elem?,
}
use gomcpack.Go
use gomcpack.Go.{Go, done, panic, out_of_fuel, Panic, runtime_error}
use gomcpack.Go.Slice.{Bytes, index, slice_from}
use gomcpack.Go.Proc.{◌>>=◌, and_then}
use gomcpack.Mcpack.Number.{uint8, uint32, int32, int64, uint64, float32, float64}
use gomcpack.Mcpack.Dyn.{Dyn}
use gomcpack.Mcpack.Decode.State.{
  DecodeState, Decoder, read, advance, type_and_klen, content_size, key, next,
}
use gomcpack.Mcpack.Decode.Items.{
  string_interface, short_string_interface, binary_interface, short_binary_interface,
  int32_interface, uint32_interface, int64_interface, uint64_interface, float_interface,
  double_interface, null_interface, bool_interface, number_interface,
}
use gomcpack.Mcpack.Decode.Ends.{Moves, Ends, ends_rules}

pub Ends-type_and_klen : (l : ℕ) → Ends l type_and_klen
unfolding type_and_klen
Ends-type_and_klen l = search ends_rules

pub Ends-key : (l : ℕ) → Ends l key
unfolding key
Ends-key l = search ends_rules depth 10

pub Ends-next : (l : ℕ) → Ends l next
unfolding next type_and_klen content_size
Ends-next l = search ends_rules depth 14

pub Ends-string : (l : ℕ) → Ends l string_interface
unfolding string_interface
Ends-string l = search ends_rules depth 14

pub Ends-short_string : (l : ℕ) → Ends l short_string_interface
unfolding short_string_interface
Ends-short_string l = search ends_rules depth 14

pub Ends-binary : (l : ℕ) → Ends l binary_interface
unfolding binary_interface
Ends-binary l = search ends_rules depth 14

pub Ends-short_binary : (l : ℕ) → Ends l short_binary_interface
unfolding short_binary_interface
Ends-short_binary l = search ends_rules depth 14

pub Ends-null : (l : ℕ) → Ends l null_interface
unfolding null_interface
Ends-null l = search ends_rules depth 14

pub Ends-bool : (l : ℕ) → Ends l bool_interface
unfolding bool_interface
Ends-bool l = search ends_rules depth 14

Ends-number32 : (make : ℕ → Dyn) (l : ℕ) → Ends l (number_interface uint32 4 make)
unfolding number_interface
Ends-number32 make l = search ends_rules depth 14

Ends-number64 : (make : ℕ → Dyn) (l : ℕ) → Ends l (number_interface uint64 8 make)
unfolding number_interface
Ends-number64 make l = search ends_rules depth 14

module _ (l : ℕ) where
  pub Ends-int32 : Ends l int32_interface
  unfolding int32_interface int32
  Ends-int32 = Ends-number32 Dyn.int32 l

  pub Ends-uint32 : Ends l uint32_interface
  unfolding uint32_interface
  Ends-uint32 = Ends-number32 Dyn.uint32 l

  pub Ends-int64 : Ends l int64_interface
  unfolding int64_interface int64
  Ends-int64 = Ends-number64 Dyn.int64 l

  pub Ends-uint64 : Ends l uint64_interface
  unfolding uint64_interface
  Ends-uint64 = Ends-number64 Dyn.uint64 l

  pub Ends-float : Ends l float_interface
  unfolding float_interface float32
  Ends-float = Ends-number32 Dyn.float32 l

  pub Ends-double : Ends l double_interface
  unfolding double_interface float64
  Ends-double = Ends-number64 Dyn.float64 l

pub ruleset ends_items = (
  Ends-string, Ends-short_string, Ends-binary, Ends-short_binary, Ends-null, Ends-bool, Ends-int32,
  Ends-uint32, Ends-int64, Ends-uint64, Ends-float, Ends-double,
)

read-uint8-cases :
    (s : DecodeState)
    → (read uint8 0 s ≡ panic runtime_error)
      ⊎ ((x : ℕ) × (read uint8 0 s ≡ done (x, s)) × (s.off < length s.input))
unfolding read slice_from uint8 index
read-uint8-cases s = elim (Bool-cases (leb (s.off + 0) (length s.input))) [
  | inl inside ↦ rw inside (go (drop (s.off + 0) s.input) refl)
  | inr outside ↦ inl (rw outside)
]
  where
    go :
        (b : Bytes)
        → drop (s.off + 0) s.input ≡ b
        → (Go.◌>>=◌ {B = ℕ × DecodeState}
              (elim (get_elem? b 0) [ none ↦ panic runtime_error | some x ↦ done x ])
              (λ x. done (x, s))
            ≡ panic runtime_error)
          ⊎ ((x : ℕ) × (Go.◌>>=◌ {B = ℕ × DecodeState}
                  (elim (get_elem? b 0) [ none ↦ panic runtime_error | some x ↦ done x ])
                  (λ x. done (x, s))
                ≡ done (x, s))
              × (s.off < length s.input))
    go [] e = inl refl
    go (x ∷ r) e = inr (x, refl, omega (arith, ap length e, length-drop (s.off + 0) s.input))

type_and_klen-cases :
    (s : DecodeState)
    → (type_and_klen s ≡ panic runtime_error)
      ⊎ ((x : ℕ) × (type_and_klen s ≡ done (x, record s { off = s.off + 1 + 1 }))
          × (s.off + 1 < length s.input))
unfolding type_and_klen advance
type_and_klen-cases s = elim (read-uint8-cases (record s { off = s.off + 1 })) [
  | inl e ↦ inl (rw e)
  | inr (x, e, h) ↦ inr (x, rw e, h)
]

-- Where the first two bytes of an item were read, fewer bytes are left.
Moves-strict :
    {B : Type 0} (s : DecodeState) (l : ℕ) (f : ℕ → Decoder B)
    → length s.input - s.off ≤ l
    → ((l' : ℕ) → l ≡ suc l' → (n : ℕ) → Ends l' (f n))
    → Moves s (and_then (type_and_klen s) f)
Moves-strict s zero f h ef = elim (type_and_klen-cases s) [
  | inl e ↦ rw e tt
  | inr (x, e, inside) ↦ absurd (omega arith)
]
Moves-strict s (suc l) f h ef = elim (type_and_klen-cases s) [
  | inl e ↦ rw e tt
  | inr (x, e, inside) ↦ rw e (
      further s (f x (record s { off = s.off + 1 + 1 }))
        ((ef l refl x).at (record s { off = s.off + 1 + 1 }) (omega arith)))
]
  where
    further :
        {B : Type 0} (s : DecodeState) (r : Go (B × DecodeState))
        → Moves (record s { off = s.off + 1 + 1 }) r
        → Moves s r
    further s (done (b, s')) (p, q) = (p, omega arith)
    further s (panic p) q = tt
    further s out_of_fuel q = q

pub Ends-strict :
    {B : Type 0} (l : ℕ) (f : ℕ → Decoder B)
    → ((l' : ℕ) → l ≡ suc l' → (n : ℕ) → Ends l' (f n))
    → Ends l (type_and_klen >>= f)
Ends-strict l f ef = record { at = λ s h. Moves-strict s l f h ef }
