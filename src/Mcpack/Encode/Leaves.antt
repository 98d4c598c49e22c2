-- ===== src/Mcpack/Encode/Leaves.antt =====
-- The encoders of values without members write the format's items.
use gomcpack.Prelude.{
  ℕ, ◌+◌, ◌%◌, ◌^◌, ◌≤◌, ◌<◌, ◌≡◌, ap, ◌∙◌, [], ◌∷◌, ◌++◌, append_assoc, arith, length,
  length-append, ltb, leb, leb→le, ltb→lt, true, false, Bool-cases, inl, inr, subst,
}
use gomcpack.Go.{done}
use gomcpack.Go.Slice.{Bytes, store}
use gomcpack.Go.Proc.{◌>>=◌, ◌>>◌}
use gomcpack.Mcpack.Const.{
  null_type, bool_type, int32_type, int64_type, uint32_type, uint64_type, float_type, double_type,
  string_type, binary_type, short_string_type, short_binary_type,
}
use gomcpack.Mcpack.Number.{
  put_uint8, put_int32, put_int64, put_uint32, put_uint64, put_float32, put_float64,
}
use gomcpack.Mcpack.Number.RoundTrip.{le32, le64, put_uint32-append, put_uint64-append}
use gomcpack.Mcpack.Value.{
  IntKind, int_kind, int64_kind, UintKind, uint8_kind, uint16_kind, uint32_kind,
}
use gomcpack.Mcpack.Wire.{
  key_len_byte, key_bytes, named, layout, string_wire, binary_wire, int_wire, uint_wire,
}
use gomcpack.Mcpack.Encode.State.{
  Enc, set_type, set_key_len, set_key, resize_if_needed, write_number,
}
use gomcpack.Mcpack.Encode.Scalars.{
  nil_encoder, bool_encoder, int32_encoder, int64_encoder, uint32_encoder, uint64_encoder,
  float32_encoder, float64_encoder, string_encoder, binary_encoder,
}
use gomcpack.Mcpack.Encode.Encoders.{int_encoder, uint_encoder}
use gomcpack.Mcpack.Encode.Emits.{
  Emits, Emits-then, Emits-set_key, Emits-write_byte, Emits-copy_bytes, Emits-write_number,
  Raises-then,
}
use gomcpack.Mcpack.Encode.Writes.{
  Writes, Writes-leaf, Writes-item, Emits-item, Raises-item, length-key_bytes,
}

put_four : (v : ℕ) (g r : Bytes) → length g ≡ 4 → put_uint32 (g ++ r) v ≡ done (le32 v ++ r)
put_four v (b0 ∷ b1 ∷ b2 ∷ b3 ∷ []) r e = put_uint32-append v b0 b1 b2 b3 r
put_four v _ r e = absurd (omega arith)

put_eight : (v : ℕ) (g r : Bytes) → length g ≡ 8 → put_uint64 (g ++ r) v ≡ done (le64 v ++ r)
put_eight v (b0 ∷ b1 ∷ b2 ∷ b3 ∷ b4 ∷ b5 ∷ b6 ∷ b7 ∷ []) r e =
    put_uint64-append v b0 b1 b2 b3 b4 b5 b6 b7 r
put_eight v _ r e = absurd (omega arith)

put_one :
    (v : ℕ) (g r : Bytes) → v < 256 → length g ≡ 1 → put_uint8 (g ++ r) (v % 256) ≡ done (v ∷ r)
unfolding put_uint8 store
put_one v (b0 ∷ []) r h e = ground arith
put_one v _ r h e = absurd (omega arith)

pub le32-mod : (v : ℕ) → le32 (v % 2 ^ 32) ≡ le32 v
le32-mod v = ground arith

-- The low 32 bits of a number.
pub put_low32 :
    (v : ℕ) (g r : Bytes) → length g ≡ 4 → put_uint32 (g ++ r) (v % 2 ^ 32) ≡ done (le32 v ++ r)
put_low32 v g r e = put_four (v % 2 ^ 32) g r e ∙ ap (λ (t : Bytes). done (t ++ r)) (le32-mod v)

-- A number of four bytes, of eight bytes, and of one.
pub Emits-four : (v : ℕ) → Emits (write_number put_uint32 4 (v % 2 ^ 32)) tt (le32 v)
Emits-four v = Emits-write_number put_uint32 (v % 2 ^ 32) (le32 v) (put_low32 v)

Emits-bits32 : (v : ℕ) → Emits (write_number put_uint32 4 v) tt (le32 v)
Emits-bits32 v = Emits-write_number put_uint32 v (le32 v) (put_four v)

Emits-eight : (v : ℕ) → Emits (write_number put_uint64 8 v) tt (le64 v)
Emits-eight v = Emits-write_number put_uint64 v (le64 v) (put_eight v)

Emits-one : (v : ℕ) → v < 256 → Emits (write_number put_uint8 1 (v % 256)) tt (v ∷ [])
Emits-one v h = Emits-write_number put_uint8 (v % 256) (v ∷ []) (λ g r. put_one v g r h)

-- The name and a content behind the first two bytes.
Emits-content :
    {m : Enc (Unit {0})} {xs : Bytes} (k : Bytes)
    → Emits m tt xs
    → Emits (set_key k (length k) >> m) tt (key_bytes k ++ xs)
Emits-content k em = Emits-then (Emits-set_key k) em

length-content :
    (k xs : Bytes) (n : ℕ) → length xs ≤ n → length (key_bytes k ++ xs) ≤ length k + 1 + n
length-content k xs n h = omega (arith, length-append (key_bytes k) xs, length-key_bytes k)

-- An item with nothing between the length byte and the name.
Writes-plain :
    (t : ℕ) (k : Bytes) (n : ℕ) {m : Enc (Unit {0})} {xs : Bytes}
    → Emits m tt xs
    → length xs ≤ n
    → Writes
        (resize_if_needed (1 + 1 + length k + 1 + n)
          >> (set_type t >> (set_key_len k >>= λ l. set_key k l >> m)))
        (named k (layout t [] k xs))
Writes-plain t k n {m} {xs} em h =
    Writes-item t k (λ l. set_key k l >> m) _ (Emits-content k em)
      (omega (arith, length-content k xs n h))

pub Writes-nil : (k : Bytes) → Writes (nil_encoder k) (named k (layout null_type [] k (0 ∷ [])))
unfolding nil_encoder
Writes-nil k = Writes-plain null_type k 1 (Emits-write_byte 0) (omega arith)

pub Writes-true :
    (k : Bytes) → Writes (bool_encoder k true) (named k (layout bool_type [] k (1 ∷ [])))
unfolding bool_encoder
Writes-true k = Writes-plain bool_type k 1 (Emits-write_byte 1) (omega arith)

pub Writes-false :
    (k : Bytes) → Writes (bool_encoder k false) (named k (layout bool_type [] k (0 ∷ [])))
unfolding bool_encoder
Writes-false k = Writes-plain bool_type k 1 (Emits-write_byte 0) (omega arith)

Writes-int32 :
    (k : Bytes) (n : ℕ) → Writes (int32_encoder k n) (named k (layout int32_type [] k (le32 n)))
unfolding int32_encoder put_int32
Writes-int32 k n = Writes-plain int32_type k 8 (Emits-four n) (omega arith)

Writes-int64 :
    (k : Bytes) (n : ℕ) → Writes (int64_encoder k n) (named k (layout int64_type [] k (le64 n)))
unfolding int64_encoder put_int64
Writes-int64 k n = Writes-plain int64_type k 8 (Emits-eight n) (omega arith)

Writes-uint32 :
    (k : Bytes) (n : ℕ) → Writes (uint32_encoder k n) (named k (layout uint32_type [] k (le32 n)))
unfolding uint32_encoder
Writes-uint32 k n = Writes-plain uint32_type k 8 (Emits-four n) (omega arith)

Writes-uint64 :
    (k : Bytes) (n : ℕ) → Writes (uint64_encoder k n) (named k (layout uint64_type [] k (le64 n)))
unfolding uint64_encoder
Writes-uint64 k n = Writes-plain uint64_type k 8 (Emits-eight n) (omega arith)

pub Writes-float32 :
    (k : Bytes) (n : ℕ) → Writes (float32_encoder k n) (named k (layout float_type [] k (le32 n)))
unfolding float32_encoder put_float32
Writes-float32 k n = Writes-plain float_type k 4 (Emits-bits32 n) (omega arith)

pub Writes-float64 :
    (k : Bytes) (n : ℕ) → Writes (float64_encoder k n) (named k (layout double_type [] k (le64 n)))
unfolding float64_encoder put_float64
Writes-float64 k n = Writes-plain double_type k 8 (Emits-eight n) (omega arith)

pub Writes-int :
    (kind : IntKind) (k : Bytes) (n : ℕ)
    → Writes (int_encoder kind k n) (named k (int_wire kind k n))
unfolding int_encoder
Writes-int int_kind = Writes-int64
Writes-int int64_kind = Writes-int64
Writes-int _ = Writes-int32

pub Writes-uint :
    (kind : UintKind) (k : Bytes) (n : ℕ)
    → Writes (uint_encoder kind k n) (named k (uint_wire kind k n))
unfolding uint_encoder
Writes-uint uint8_kind = Writes-uint32
Writes-uint uint16_kind = Writes-uint32
Writes-uint uint32_kind = Writes-uint32
Writes-uint _ = Writes-uint64

-- An item with a length of its content before the name, which is followed by that content.
module _ (t : ℕ) (k size content : Bytes) (n : ℕ) {put tail : Enc (Unit {0})}
    (ep : Emits put tt size) (et : Emits tail tt content)
    (bound : 2 + length size + length k + 1 + length content ≤ n) where
  Writes-sized :
      Writes
        (resize_if_needed n
          >> ((set_type t >> (set_key_len k >>= λ l. put >> set_key k l)) >> tail))
        (named k (layout t size k content))
  Writes-sized =
      let f : ℕ → Enc (Unit {0}) = λ l. put >> set_key k l in
      let head : Enc (Unit {0}) = set_type t >> (set_key_len k >>= f) in
      Writes-leaf n (head >> tail) k (layout t size k content)
        (λ fits.
          subst (λ (xs : Bytes). Emits (head >> tail) tt (t ∷ key_len_byte k ∷ xs))
            (append_assoc size (key_bytes k) content)
            (Emits-then (Emits-item t k f (Emits-then ep (Emits-set_key k)) fits) et))
        (λ long. Raises-then tail (Raises-item t k f long))
        (omega (
          arith,
          length-append size (key_bytes k ++ content),
          length-content k content (length content) (omega arith),
        ))
        (omega arith)

pub Writes-string : (k s : Bytes) → Writes (string_encoder k s) (named k (string_wire k s))
unfolding string_encoder
Writes-string k s = elim (Bool-cases (ltb (length s + 1) 255)) [
  | inl short ↦ rw (short) (
      Writes-sized short_string_type k ((length s + 1) ∷ []) (s ++ 0 ∷ []) _
        (Emits-one (length s + 1) (omega (arith, ltb→lt (length s + 1) 255 short)))
        (Emits-then (Emits-copy_bytes s) (Emits-write_byte 0))
        (omega (arith, length-append s (0 ∷ []))))
  | inr long ↦ rw (long) (
      Writes-sized string_type k (le32 (length s + 1)) (s ++ 0 ∷ []) _ (Emits-four (length s + 1))
        (Emits-then (Emits-copy_bytes s) (Emits-write_byte 0))
        (omega (arith, length-append s (0 ∷ []))))
]

pub Writes-binary : (k s : Bytes) → Writes (binary_encoder k s) (named k (binary_wire k s))
unfolding binary_encoder
Writes-binary k s = elim (Bool-cases (leb (length s) 255)) [
  | inl short ↦ rw (short) (
      Writes-sized short_binary_type k (length s ∷ []) s _
        (Emits-one (length s) (omega (arith, leb→le (length s) 255 short))) (Emits-copy_bytes s)
        (omega arith))
  | inr long ↦ rw (long) (
      Writes-sized binary_type k (le32 (length s)) s _ (Emits-four (length s)) (Emits-copy_bytes s)
        (omega arith))
]
