-- ===== src/Mcpack/RoundTrip/TypedItems.antt =====
-- What the typed decoder reads of the item of each kind.
use gomcpack.Prelude.{
  ℕ, ◌+◌, ◌%◌, ◌^◌, ◌<◌, ◌≡◌, ap, sym, true, false, Option, some, [], ◌∷◌, length, ltb, leb,
  Bool-cases, inl, inr, subst, arith,
}
use gomcpack.Go.{done}
use gomcpack.Go.Slice.{Bytes}
use gomcpack.Go.Proc.{◌>>=◌}
use gomcpack.Mcpack.Const.{object_type, array_type, null_type, bool_type, float_type, double_type}
use gomcpack.Mcpack.Number.{
  int32 as load_int32, int64 as load_int64, float32 as load_float32, float64 as load_float64,
}
use gomcpack.Mcpack.Number.RoundTrip.{le32, le64}
use gomcpack.Mcpack.Value.{
  IntKind, int_kind, int8_kind, int16_kind, int32_kind, int64_kind, UintKind, uint_kind,
  uintptr_kind, uint8_kind, uint16_kind, uint32_kind, uint64_kind,
}
use gomcpack.Mcpack.GoType.{GoType, int, uint, Var, zero_var, int_width, uint_width, extend}
use gomcpack.Mcpack.Wire.{layout, container_wire, int_wire, uint_wire, string_wire, binary_wire}
use gomcpack.Mcpack.Decode.{Decoder, container_header}
use gomcpack.Mcpack.Decode.Setters.{item_into}
use gomcpack.Mcpack.Decode.Typed.{
  Library, set_string, set_bytes, set_bool, set_int, set_uint, set_float, typed_target, item_of,
}
use gomcpack.Mcpack.Decode.Reads.{Reads, Sees-bind, Sees-peek}
use gomcpack.Mcpack.Decode.ReadsItems.{
  Reads-string_into, Reads-short_string_into, Reads-binary_into, Reads-short_binary_into,
  Reads-number32_into, Reads-number64_into, Reads-null_into, Reads-false_into, Reads-true_into,
}
use gomcpack.Mcpack.RoundTrip.Inversion.{container_wire-eq-some}
use gomcpack.Mcpack.RoundTrip.Pieces.{Reads-low32, low32, Reads-container, shorter}

module _ (lib : Library) (τ : GoType) (v : Var τ) (members items : Decoder (Var τ)) where
  pub by_item :
      {t : ℕ} {xs : Bytes} {a : Var τ}
      → Reads (item_into lib.widen (extend 32) (typed_target lib τ v members items) t) (t ∷ xs) a
      → Reads (item_of lib τ v members items) (t ∷ xs) a
  unfolding item_of
  by_item {t} {xs} r =
      Sees-bind (item_into lib.widen (extend 32) (typed_target lib τ v members items)) (t ∷ []) xs
        (Sees-peek t) r

  module _ (k : Bytes) {a : Var τ} where
    pub item_of-string :
        (s : Bytes)
        → length s + 1 < 2 ^ 32
        → set_string τ s ≡ done a
        → Reads (item_of lib τ v members items) (string_wire k s) a
    unfolding item_of
    item_of-string s h e = elim (Bool-cases (ltb (length s + 1) 255)) [
      | inl b ↦ rw b (by_item (Reads-short_string_into _ k (set_string τ) s e))
      | inr b ↦ rw b (by_item (Reads-string_into _ k (set_string τ) s e h))
    ]

    pub item_of-binary :
        (s : Bytes)
        → length s < 2 ^ 32
        → set_bytes τ s ≡ done a
        → Reads (item_of lib τ v members items) (binary_wire k s) a
    unfolding item_of
    item_of-binary s h e = elim (Bool-cases (leb (length s) 255)) [
      | inl b ↦ rw b (by_item (Reads-short_binary_into _ k (set_bytes τ) s e))
      | inr b ↦ rw b (by_item (Reads-binary_into _ k (set_bytes τ) s e h))
    ]

    pub item_of-long_int :
        (n : ℕ)
        → n < 2 ^ 64
        → set_int τ n ≡ done a
        → Reads (item_of lib τ v members items) (int_wire int64_kind k n) a
    unfolding item_of load_int64
    item_of-long_int n h e = by_item (Reads-number64_into _ k (set_int τ) n e h)

    pub item_of-short_int :
        (n : ℕ)
        → set_int τ (extend 32 (n % 2 ^ 32)) ≡ done a
        → Reads (item_of lib τ v members items) (int_wire int32_kind k n) a
    unfolding item_of load_int32
    item_of-short_int n e = by_item (
        Reads-low32 _ k a n
          (Reads-number32_into _ k (λ m. set_int τ (extend 32 m)) (n % 2 ^ 32) e (low32 n)))

    pub item_of-long_uint :
        (n : ℕ)
        → n < 2 ^ 64
        → set_uint τ n ≡ done a
        → Reads (item_of lib τ v members items) (uint_wire uint64_kind k n) a
    unfolding item_of
    item_of-long_uint n h e = by_item (Reads-number64_into _ k (set_uint τ) n e h)

    pub item_of-short_uint :
        (n : ℕ)
        → set_uint τ (n % 2 ^ 32) ≡ done a
        → Reads (item_of lib τ v members items) (uint_wire uint32_kind k n) a
    unfolding item_of
    item_of-short_uint n e =
        by_item
          (Reads-low32 _ k a n (Reads-number32_into _ k (set_uint τ) (n % 2 ^ 32) e (low32 n)))

    pub item_of-float :
        (n : ℕ)
        → n < 2 ^ 32
        → set_float lib.narrow τ (lib.widen n) ≡ done a
        → Reads (item_of lib τ v members items) (layout float_type [] k (le32 n)) a
    unfolding item_of load_float32
    item_of-float n h e =
        by_item (Reads-number32_into _ k (λ m. set_float lib.narrow τ (lib.widen m)) n e h)

    pub item_of-double :
        (n : ℕ)
        → n < 2 ^ 64
        → set_float lib.narrow τ n ≡ done a
        → Reads (item_of lib τ v members items) (layout double_type [] k (le64 n)) a
    unfolding item_of load_float64
    item_of-double n h e = by_item (Reads-number64_into _ k (set_float lib.narrow τ) n e h)

    pub item_of-false :
        set_bool τ false ≡ done a
        → Reads (item_of lib τ v members items) (layout bool_type [] k (0 ∷ [])) a
    unfolding item_of
    item_of-false e = by_item (Reads-false_into _ k (set_bool τ) e)

    pub item_of-true :
        set_bool τ true ≡ done a
        → Reads (item_of lib τ v members items) (layout bool_type [] k (1 ∷ [])) a
    unfolding item_of
    item_of-true e = by_item (Reads-true_into _ k (set_bool τ) e)

  pub item_of-null :
      (k : Bytes) (z : Var τ)
      → z ≡ zero_var τ
      → Reads (item_of lib τ v members items) (layout null_type [] k (0 ∷ [])) z
  unfolding item_of
  item_of-null k z e =
      by_item (Reads-null_into _ k (done (zero_var τ)) (ap (λ (x : Var τ). done x) (sym e)))

module _ (lib : Library) (τ : GoType) (v : Var τ) (m : ℕ → Decoder (Var τ)) (k : Bytes) (count : ℕ)
    (o : Option Bytes) {ys : Bytes} {a : Var τ} (small : count < 2 ^ 32) where
  pub item_of-object :
      (items : Decoder (Var τ))
      → container_wire object_type k count o ≡ some ys
      → ((xs : Bytes) → o ≡ some xs → length xs < length ys → Reads (m count) xs a)
      → Reads (item_of lib τ v (container_header >>= m) items) ys a
  unfolding item_of
  item_of-object items e loop =
      let (xs, e1, e2) = container_wire-eq-some object_type k count o e in
      subst (λ (ys : Bytes). Reads (item_of lib τ v (container_header >>= m) items) ys a) e2
        (by_item lib τ v (container_header >>= m) items (
          Reads-container object_type k count m xs small
            (loop xs e1 (shorter 0 k object_type count xs e2))))

  pub item_of-array :
      (members : Decoder (Var τ))
      → container_wire array_type k count o ≡ some ys
      → ((xs : Bytes) → o ≡ some xs → length xs < length ys → Reads (m count) xs a)
      → Reads (item_of lib τ v members (container_header >>= m)) ys a
  unfolding item_of
  item_of-array members e loop =
      let (xs, e1, e2) = container_wire-eq-some array_type k count o e in
      subst (λ (ys : Bytes). Reads (item_of lib τ v members (container_header >>= m)) ys a) e2
        (by_item lib τ v members (container_header >>= m) (
          Reads-container array_type k count m xs small
            (loop xs e1 (shorter 0 k array_type count xs e2))))

-- The numbers of the narrow kinds after the way through an item of 32 bits.
narrow8 : (n : ℕ) → extend 8 n ≡ n → extend 8 (extend 32 (n % 2 ^ 32)) ≡ n
unfolding extend
narrow8 n e = ground arith

narrow16 : (n : ℕ) → extend 16 n ≡ n → extend 16 (extend 32 (n % 2 ^ 32)) ≡ n
unfolding extend
narrow16 n e = ground arith

narrow32 : (n : ℕ) → extend 32 n ≡ n → extend 32 (extend 32 (n % 2 ^ 32)) ≡ n
unfolding extend
narrow32 n e = ground arith

module _ (lib : Library) (k : Bytes) (n : ℕ) where
  pub read_int :
      (kind : IntKind) (v : Var (int kind)) (members items : Decoder (Var (int kind)))
      → n < 2 ^ 64
      → extend (int_width kind) n ≡ n
      → Reads (item_of lib (int kind) v members items) (int_wire kind k n) n
  read_int int_kind v ms vs h e =
      item_of-long_int lib (int int_kind) v ms vs k n h (ap (λ (x : ℕ). done x) e)
  read_int int64_kind v ms vs h e =
      item_of-long_int lib (int int64_kind) v ms vs k n h (ap (λ (x : ℕ). done x) e)
  read_int int8_kind v ms vs h e =
      item_of-short_int lib (int int8_kind) v ms vs k n (ap (λ (x : ℕ). done x) (narrow8 n e))
  read_int int16_kind v ms vs h e =
      item_of-short_int lib (int int16_kind) v ms vs k n (ap (λ (x : ℕ). done x) (narrow16 n e))
  read_int int32_kind v ms vs h e =
      item_of-short_int lib (int int32_kind) v ms vs k n (ap (λ (x : ℕ). done x) (narrow32 n e))

  pub read_uint :
      (kind : UintKind) (v : Var (uint kind)) (members items : Decoder (Var (uint kind)))
      → n < 2 ^ 64
      → n % 2 ^ uint_width kind ≡ n
      → Reads (item_of lib (uint kind) v members items) (uint_wire kind k n) n
  read_uint uint8_kind v ms vs h e =
      item_of-short_uint lib (uint uint8_kind) v ms vs k n
        (ap (λ (x : ℕ). done x) {x = n % 2 ^ 32 % 2 ^ 8} {y = n} (omega arith))
  read_uint uint16_kind v ms vs h e =
      item_of-short_uint lib (uint uint16_kind) v ms vs k n
        (ap (λ (x : ℕ). done x) {x = n % 2 ^ 32 % 2 ^ 16} {y = n} (omega arith))
  read_uint uint32_kind v ms vs h e =
      item_of-short_uint lib (uint uint32_kind) v ms vs k n
        (ap (λ (x : ℕ). done x) {x = n % 2 ^ 32 % 2 ^ 32} {y = n} (omega arith))
  read_uint uint_kind v ms vs h e =
      item_of-long_uint lib (uint uint_kind) v ms vs k n h (ap (λ (x : ℕ). done x) e)
  read_uint uint64_kind v ms vs h e =
      item_of-long_uint lib (uint uint64_kind) v ms vs k n h (ap (λ (x : ℕ). done x) e)
  read_uint uintptr_kind v ms vs h e =
      item_of-long_uint lib (uint uintptr_kind) v ms vs k n h (ap (λ (x : ℕ). done x) e)
