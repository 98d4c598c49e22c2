-- ===== src/Mcpack/RoundTrip/TypedFirst.antt =====
-- The first byte of the item of a value that is not null, and of an object.
use gomcpack.Prelude.{
  ℕ, ◌+◌, ◌≡◌, refl, sym, true, false, Option, some, ◌∷◌, length, leb, ltb, Bool-cases, inl, inr,
  ◌==◌,
}
use gomcpack.Go.Slice.{Bytes}
use gomcpack.Mcpack.Const.{null_type, object_type, array_type}
use gomcpack.Mcpack.Value.{
  int_kind, int64_kind, uint8_kind, uint16_kind, uint32_kind, Value, invalid, unsupported, bool,
  int, uint, float32, float64, string, bytes, nil_interface, interface, nil_ptr, ptr, struct,
  string_map, slice, array, count_fields, count_entries, count_items,
}
use gomcpack.Mcpack.Wire.{named, container_wire, wire, wire_fields, wire_entries, wire_items}
use gomcpack.Mcpack.View.{IsReadable}
use gomcpack.Mcpack.Reflect.{IsNotNull}
use gomcpack.Mcpack.RoundTrip.Inversion.{named-eq-some, container_wire-eq-some}

-- An item that does not begin with the type of null.
pub record NotNull (xs : Bytes) : Type 0 where
  pub first : ℕ
  pub rest : Bytes
  pub split : xs ≡ first ∷ rest
  pub other : (first == null_type) ≡ false

of_named :
    (k : Bytes) (t : ℕ) (xs : Bytes) {ys : Bytes}
    → (t == null_type) ≡ false
    → named k (t ∷ xs) ≡ some ys
    → NotNull ys
of_named k t xs e h = record {
  first = t;
  rest = xs;
  split = sym (named-eq-some k (t ∷ xs) h).0;
  other = e;
}

of_container :
    (t : ℕ) (k : Bytes) (count : ℕ) (o : Option Bytes) {ys : Bytes}
    → (t == null_type) ≡ false
    → container_wire t k count o ≡ some ys
    → NotNull ys
of_container t k count o e h =
    let (xs, e1, e2) = container_wire-eq-some t k count o h in
    record { first = t; rest = _; split = sym e2; other = e }

pub wire-NotNull :
    (v : Value) (k xs : Bytes) → IsReadable v → IsNotNull v → wire v k ≡ some xs → NotNull xs
unfolding wire IsReadable
wire-NotNull invalid k xs r p h = absurd r
wire-NotNull unsupported k xs r p h = absurd r
wire-NotNull (bool true) k xs r p h = of_named k _ _ refl h
wire-NotNull (bool false) k xs r p h = of_named k _ _ refl h
wire-NotNull (int int_kind n) k xs r p h = of_named k _ _ refl h
wire-NotNull (int int64_kind n) k xs r p h = of_named k _ _ refl h
wire-NotNull (int _ n) k xs r p h = of_named k _ _ refl h
wire-NotNull (uint uint8_kind n) k xs r p h = of_named k _ _ refl h
wire-NotNull (uint uint16_kind n) k xs r p h = of_named k _ _ refl h
wire-NotNull (uint uint32_kind n) k xs r p h = of_named k _ _ refl h
wire-NotNull (uint _ n) k xs r p h = of_named k _ _ refl h
wire-NotNull (float32 bits) k xs r p h = of_named k _ _ refl h
wire-NotNull (float64 bits) k xs r p h = of_named k _ _ refl h
wire-NotNull (string s) k xs r p h = elim (Bool-cases (ltb (length s + 1) 255)) [
  | inl e ↦ of_named k _ _ refl (rw e at h)
  | inr e ↦ of_named k _ _ refl (rw e at h)
]
wire-NotNull (bytes s) k xs r p h = elim (Bool-cases (leb (length s) 255)) [
  | inl e ↦ of_named k _ _ refl (rw e at h)
  | inr e ↦ of_named k _ _ refl (rw e at h)
]
wire-NotNull nil_interface k xs r p h = absurd p
wire-NotNull (interface v) k xs r p h = wire-NotNull v k xs r p h
wire-NotNull nil_ptr k xs r p h = absurd p
wire-NotNull (ptr v) k xs r p h = wire-NotNull v k xs r p h
wire-NotNull (struct fs) k xs r p h =
    of_container object_type k (count_fields fs) (wire_fields fs) refl h
wire-NotNull (string_map es) k xs r p h =
    of_container object_type k (count_entries es) (wire_entries es) refl h
wire-NotNull (slice vs) k xs r p h =
    of_container array_type k (count_items vs) (wire_items vs) refl h
wire-NotNull (array vs) k xs r p h =
    of_container array_type k (count_items vs) (wire_items vs) refl h
