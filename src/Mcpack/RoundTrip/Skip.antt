-- ===== src/Mcpack/RoundTrip/Skip.antt =====
-- `next` cuts out exactly one item of the format.
use gomcpack.Prelude.{
  ℕ, ◌+◌, ◌^◌, ◌<◌, ◌≡◌, refl, ap, sym, ◌∙◌, true, false, Option, some, [], ◌∷◌, ◌++◌, arith,
  length, length-append, ltb, leb, Bool-cases, inl, inr, subst,
}
use gomcpack.Go.{done}
use gomcpack.Go.Slice.{Bytes}
use gomcpack.Go.Proc.{◌>>=◌, ◌>>◌, pure}
use gomcpack.Mcpack.Number.{uint8, uint32}
use gomcpack.Mcpack.Number.RoundTrip.{le32}
use gomcpack.Mcpack.Value.{
  int_kind, int64_kind, uint8_kind, uint16_kind, uint32_kind, Value, invalid, unsupported, bool,
  int, uint, float32, float64, string, bytes, nil_interface, interface, nil_ptr, ptr, struct,
  string_map, slice, array, count_fields, count_entries, count_items,
}
use gomcpack.Mcpack.Const.{object_type, array_type}
use gomcpack.Mcpack.Wire.{
  key_len_byte, key_bytes, layout, named, container_wire, wire, wire_fields, wire_entries,
  wire_items,
}
use gomcpack.Mcpack.View.{IsReadable}
use gomcpack.Mcpack.Decode.{Decoder, read, offset, advance, content_size, next}
use gomcpack.Mcpack.Decode.Reads.{
  state, Stands, Stands-front, Stands-back, Reads, Sees-whole, Reads-skip, Reads-pure, Sees-peek,
  slice_data-of_Stands,
}
use gomcpack.Mcpack.Decode.ReadsItems.{Sees-uint8, Sees-uint32, Reads-type_and_klen, length-key}
use gomcpack.Mcpack.RoundTrip.Inversion.{named-eq-some, container_wire-eq-some}

module _ (t : ℕ) (size k content : Bytes) where
  length-layout :
      length (layout t size k content) ≡ 2 + length size + key_len_byte k + length content
  length-layout = omega (
    arith,
    length-append size (key_bytes k ++ content),
    length-append (key_bytes k) content,
    length-key k,
  )

  Reads-next :
      Reads (content_size t) size (length content)
      → Reads next (layout t size k content) (layout t size k content)
  unfolding next offset advance
  Reads-next rs = record {
    at = λ input spare off s.
        let xs : Bytes = layout t size k content in
        let head : Bytes = t ∷ key_len_byte k ∷ [] in
        let tail : Bytes = size ++ (key_bytes k ++ content) in
        let behind : Stands input (off + 2) tail = Stands-back head tail s in
        let sized : Stands input (off + 2) size =
          Stands-front size (key_bytes k ++ content) behind in
        let end = off + 2 + length size + (key_len_byte k + length content) in
        rw
          (
            (Sees-peek t).at input spare off (Stands-front (t ∷ []) _ s),
            (Reads-type_and_klen t (key_len_byte k)).at input spare off (Stands-front head tail s),
            rs.at input spare (off + 2) sized,
          )
          (slice_data-of_Stands input spare xs end off end s (omega (arith, length-layout))
            ∙ ap (λ (n : ℕ). done (xs, state input spare n)) {x = end} {y = off + length xs}
                (omega (arith, length-layout)));
  }

-- The three ways in which an item gives the length of its content.
long_size : (n : ℕ) → n < 2 ^ 32 → Reads (read uint32 0 >>= λ v. advance 4 >> pure v) (le32 n) n
long_size n h = Sees-whole _ (Sees-uint32 n h) (Reads-skip n 4 (le32 n) refl)

short_size : (n : ℕ) → Reads (read uint8 0 >>= λ v. advance 1 >> pure v) (n ∷ []) n
short_size n = Sees-whole _ (Sees-uint8 n) (Reads-skip n 1 (n ∷ []) refl)

with_nul :
    (m : Decoder ℕ) (s : Bytes) {size : Bytes}
    → Reads m size (length s + 1)
    → Reads m size (length (s ++ 0 ∷ []))
with_nul m s {size} r = subst (λ (n : ℕ). Reads m size n) (sym (length-append s (0 ∷ []))) r

of_named :
    (t : ℕ) (size k content : Bytes) {xs : Bytes}
    → Reads (content_size t) size (length content)
    → named k (layout t size k content) ≡ some xs
    → Reads next xs xs
of_named t size k content r h =
    subst (λ (xs : Bytes). Reads next xs xs) (named-eq-some k (layout t size k content) h).0
      (Reads-next t size k content r)

of_container :
    (t : ℕ) (k : Bytes) (count : ℕ) (o : Option Bytes) {xs : Bytes}
    → ((n : ℕ) → n < 2 ^ 32 → Reads (content_size t) (le32 n) n)
    → length xs < 2 ^ 32
    → container_wire t k count o ≡ some xs
    → Reads next xs xs
of_container t k count o sized short h =
    let (ys, e1, e2) = container_wire-eq-some t k count o h in
    let content : Bytes = le32 count ++ ys in
    let size : Bytes = le32 (length content) in
    subst (λ (xs : Bytes). Reads next xs xs) e2
      (Reads-next t size k content
        (sized (length content) (omega (arith, ap length e2, length-append (key_bytes k) content))))

-- `next`, where the item of a readable value stands that is shorter than 4 GiB, returns the bytes of
-- that item and moves just behind it, whatever the type of the item and whatever follows it.
pub next-wire :
    (v : Value) (k xs : Bytes)
    → IsReadable v
    → wire v k ≡ some xs
    → length xs < 2 ^ 32
    → Reads next xs xs
unfolding wire IsReadable content_size
next-wire invalid k xs r h short = absurd r
next-wire unsupported k xs r h short = absurd r
next-wire (bool true) k xs r h short = of_named _ [] k _ (Reads-pure 1) h
next-wire (bool false) k xs r h short = of_named _ [] k _ (Reads-pure 1) h
next-wire (int int_kind n) k xs r h short = of_named _ [] k _ (Reads-pure 8) h
next-wire (int int64_kind n) k xs r h short = of_named _ [] k _ (Reads-pure 8) h
next-wire (int _ n) k xs r h short = of_named _ [] k _ (Reads-pure 4) h
next-wire (uint uint8_kind n) k xs r h short = of_named _ [] k _ (Reads-pure 4) h
next-wire (uint uint16_kind n) k xs r h short = of_named _ [] k _ (Reads-pure 4) h
next-wire (uint uint32_kind n) k xs r h short = of_named _ [] k _ (Reads-pure 4) h
next-wire (uint _ n) k xs r h short = of_named _ [] k _ (Reads-pure 8) h
next-wire (float32 bits) k xs r h short = of_named _ [] k _ (Reads-pure 4) h
next-wire (float64 bits) k xs r h short = of_named _ [] k _ (Reads-pure 8) h
next-wire (string s) k xs r h short = elim (Bool-cases (ltb (length s + 1) 255)) [
  | inl e ↦
      of_named _ ((length s + 1) ∷ []) k (s ++ 0 ∷ [])
        (with_nul (read uint8 0 >>= λ v. advance 1 >> pure v) s (short_size (length s + 1)))
        (rw e at h)
  | inr e ↦
      of_named _ (le32 (length s + 1)) k (s ++ 0 ∷ [])
        (with_nul (read uint32 0 >>= λ v. advance 4 >> pure v) s (long_size (length s + 1) r))
        (rw e at h)
]
next-wire (bytes s) k xs r h short = elim (Bool-cases (leb (length s) 255)) [
  | inl e ↦ of_named _ (length s ∷ []) k s (short_size (length s)) (rw e at h)
  | inr e ↦ of_named _ (le32 (length s)) k s (long_size (length s) r) (rw e at h)
]
next-wire nil_interface k xs r h short = of_named _ [] k _ (Reads-pure 1) h
next-wire (interface v) k xs r h short = next-wire v k xs r h short
next-wire nil_ptr k xs r h short = of_named _ [] k _ (Reads-pure 1) h
next-wire (ptr v) k xs r h short = next-wire v k xs r h short
next-wire (struct fs) k xs r h short =
    of_container object_type k (count_fields fs) (wire_fields fs) long_size short h
next-wire (string_map es) k xs r h short =
    of_container object_type k (count_entries es) (wire_entries es) long_size short h
next-wire (slice vs) k xs r h short =
    of_container array_type k (count_items vs) (wire_items vs) long_size short h
next-wire (array vs) k xs r h short =
    of_container array_type k (count_items vs) (wire_items vs) long_size short h
