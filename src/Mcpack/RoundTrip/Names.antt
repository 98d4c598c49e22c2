-- ===== src/Mcpack/RoundTrip/Names.antt =====
-- `key` finds the name in front of every item of the format.
use gomcpack.Prelude.{
  ℕ, ◌+◌, ◌<◌, ◌≡◌, refl, true, false, Option, some, [], ◌∷◌, ◌++◌, arith, length, ltb, leb, lt→ltb,
  ◌==◌, Bool-cases, inl, inr, subst,
}
use gomcpack.Go.Slice.{Bytes, index}
use gomcpack.Mcpack.Number.{uint8}
use gomcpack.Mcpack.Number.RoundTrip.{le32}
use gomcpack.Mcpack.Value.{
  int_kind, int64_kind, uint8_kind, uint16_kind, uint32_kind, Value, invalid, unsupported, bool,
  int, uint, float32, float64, string, bytes, nil_interface, interface, nil_ptr, ptr, struct,
  string_map, slice, array, count_fields, count_entries, count_items,
}
use gomcpack.Mcpack.Const.{object_type, array_type}
use gomcpack.Mcpack.Wire.{
  key_len_byte, key_bytes, layout, named, container_wire, wire, wire_fields, wire_entries,
  wire_items,
}
use gomcpack.Mcpack.View.{IsReadable}
use gomcpack.Mcpack.Decode.{read, offset, key_start, check_key, key}
use gomcpack.Mcpack.Decode.Reads.{
  Stands, Stands-front, Stands-back, Sees, Sees-peek, Sees-read, slice_data-of_Stands,
}
use gomcpack.Mcpack.RoundTrip.Inversion.{named-eq-some, container_wire-eq-some}

-- The second byte of an item.
Sees-second : (t x : ℕ) → Sees (read uint8 1) (t ∷ x ∷ []) x
Sees-second t x = Sees-read uint8 (t ∷ []) (x ∷ []) x (λ r. unfold uint8 index in refl)

module _ (t : ℕ) (size k content : Bytes) where
  -- The name stands behind the type, the length of the name and the length of the content.
  name_Stands :
      {input : Bytes} {off n : ℕ}
      → n ≡ 2 + length size
      → 0 < length k
      → Stands input off (layout t size k content)
      → Stands input (off + n) k
  name_Stands {input} {off} e named s =
      let head : Bytes = t ∷ key_len_byte k ∷ size in
      let behind = Stands-back head (key_bytes k ++ content) s in
      let name = Stands-front (key_bytes k) content behind in
      subst (λ (n : ℕ). Stands input (off + n) k) {x = length head} (omega arith)
        (Stands-front k (0 ∷ []) (rw (lt→ltb 0 (length k) named) at name))

  Sees-layout : key_start t ≡ 2 + length size → 0 < length k → Sees key (layout t size k content) k
  unfolding key check_key offset
  Sees-layout e named = record {
    at = λ input spare off s.
        let len : key_len_byte k ≡ length k + 1 = rw (lt→ltb 0 (length k) named) in
        let nonzero : (key_len_byte k == 0) ≡ false = rw len (ground arith) in
        rw
          (
            (Sees-peek t).at input spare off (Stands-front (t ∷ []) _ s),
            (Sees-second t (key_len_byte k)).at input spare off
                (Stands-front (t ∷ key_len_byte k ∷ []) (size ++ (key_bytes k ++ content)) s),
            nonzero,
          )
          (slice_data-of_Stands input spare k off _ _ (name_Stands e named s) (omega (arith, len)));
  }

of_named :
    (t : ℕ) (size k content : Bytes) {xs : Bytes}
    → key_start t ≡ 2 + length size
    → 0 < length k
    → named k (layout t size k content) ≡ some xs
    → Sees key xs k
of_named t size k content e long h =
    subst (λ (xs : Bytes). Sees key xs k) (named-eq-some k (layout t size k content) h).0
      (Sees-layout t size k content e long)

of_container :
    (t : ℕ) (k : Bytes) (count : ℕ) (o : Option Bytes) {xs : Bytes}
    → key_start t ≡ 6
    → 0 < length k
    → container_wire t k count o ≡ some xs
    → Sees key xs k
of_container t k count o e long h =
    let (ys, e1, e2) = container_wire-eq-some t k count o h in
    subst (λ (xs : Bytes). Sees key xs k) e2
      (Sees-layout t (le32 (length (le32 count ++ ys))) k (le32 count ++ ys) e long)

-- Where the item of a readable value with a name that is not empty stands, `key` returns this name
-- and does not move.
pub key-wire :
    (v : Value) (k xs : Bytes) → IsReadable v → 0 < length k → wire v k ≡ some xs → Sees key xs k
unfolding wire IsReadable key_start
key-wire invalid k xs r long h = absurd r
key-wire unsupported k xs r long h = absurd r
key-wire (bool true) k xs r long h = of_named _ [] k _ refl long h
key-wire (bool false) k xs r long h = of_named _ [] k _ refl long h
key-wire (int int_kind n) k xs r long h = of_named _ [] k _ refl long h
key-wire (int int64_kind n) k xs r long h = of_named _ [] k _ refl long h
key-wire (int _ n) k xs r long h = of_named _ [] k _ refl long h
key-wire (uint uint8_kind n) k xs r long h = of_named _ [] k _ refl long h
key-wire (uint uint16_kind n) k xs r long h = of_named _ [] k _ refl long h
key-wire (uint uint32_kind n) k xs r long h = of_named _ [] k _ refl long h
key-wire (uint _ n) k xs r long h = of_named _ [] k _ refl long h
key-wire (float32 bits) k xs r long h = of_named _ [] k _ refl long h
key-wire (float64 bits) k xs r long h = of_named _ [] k _ refl long h
key-wire (string s) k xs r long h = elim (Bool-cases (ltb (length s + 1) 255)) [
  | inl e ↦ of_named _ ((length s + 1) ∷ []) k (s ++ 0 ∷ []) refl long (rw e at h)
  | inr e ↦ of_named _ (le32 (length s + 1)) k (s ++ 0 ∷ []) refl long (rw e at h)
]
key-wire (bytes s) k xs r long h = elim (Bool-cases (leb (length s) 255)) [
  | inl e ↦ of_named _ (length s ∷ []) k s refl long (rw e at h)
  | inr e ↦ of_named _ (le32 (length s)) k s refl long (rw e at h)
]
key-wire nil_interface k xs r long h = of_named _ [] k _ refl long h
key-wire (interface v) k xs r long h = key-wire v k xs r long h
key-wire nil_ptr k xs r long h = of_named _ [] k _ refl long h
key-wire (ptr v) k xs r long h = key-wire v k xs r long h
key-wire (struct fs) k xs r long h =
    of_container object_type k (count_fields fs) (wire_fields fs) refl long h
key-wire (string_map es) k xs r long h =
    of_container object_type k (count_entries es) (wire_entries es) refl long h
key-wire (slice vs) k xs r long h =
    of_container array_type k (count_items vs) (wire_items vs) refl long h
key-wire (array vs) k xs r long h =
    of_container array_type k (count_items vs) (wire_items vs) refl long h
