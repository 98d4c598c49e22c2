-- ===== src/Mcpack/RoundTrip/Pieces.antt =====
-- What `valueInterface` reads of the item of each kind, and one round of each of its loops.
use gomcpack.Prelude.{
  ℕ, suc, ◌+◌, ◌%◌, ◌^◌, ◌<◌, ◌≡◌, refl, ap, ◌∙◌, Option, some, [], ◌∷◌, ◌++◌, append_assoc, arith,
  length, length-append, ltb, leb, Bool-cases, inl, inr, subst,
}
use gomcpack.Go.Slice.{Bytes}
use gomcpack.Go.Proc.{◌>>=◌}
use gomcpack.Mcpack.Number.{int32 as load_int32, int64 as load_int64}
use gomcpack.Mcpack.Number.RoundTrip.{le32}
use gomcpack.Mcpack.Value.{
  IntKind, int_kind, int64_kind, UintKind, uint8_kind, uint16_kind, uint32_kind,
}
use gomcpack.Mcpack.Dyn.{Dyn, Members, no_members, Elements, element, map_set}
use gomcpack.Mcpack.Const.{object_type, array_type}
use gomcpack.Mcpack.Wire.{
  key_len_byte, key_bytes, layout, named, container_wire, int_wire, uint_wire, string_wire,
  binary_wire,
}
use gomcpack.Mcpack.Encode.Leaves.{le32-mod}
use gomcpack.Mcpack.View.{int_view, uint_view}
use gomcpack.Mcpack.Decode.{
  Decoder, key, container_header, members_loop, object_interface, elements_loop, array_interface,
  value_of_type, value_interface, int32_interface, uint32_interface, int64_interface,
  uint64_interface,
}
use gomcpack.Mcpack.Decode.Reads.{
  Sees, Reads, Reads-bind, Sees-bind, Reads-then, Reads-advance, Reads-map, Reads-skip, Sees-whole,
  Sees-peek,
}
use gomcpack.Mcpack.Decode.ReadsItems.{
  Sees-uint32, Reads-type_and_klen, after_name, Reads-string, Reads-short_string, Reads-binary,
  Reads-short_binary, Reads-number32, Reads-number64,
}
use gomcpack.Mcpack.RoundTrip.Inversion.{named-eq-some, container_wire-eq-some}

-- One more level of recursion, where the item begins with its type.
pub by_type :
    (f : ℕ) {t : ℕ} {xs : Bytes} {d : Dyn}
    → Reads (value_of_type (value_interface f) t) (t ∷ xs) d
    → Reads (value_interface (suc f)) (t ∷ xs) d
unfolding value_interface
by_type f {t} {xs} r = Sees-bind (value_of_type (value_interface f)) (t ∷ []) xs (Sees-peek t) r

-- A header, up to the number of members.
abbrev header : ℕ → Bytes → Bytes → ℕ → Bytes
header t size k count = t ∷ key_len_byte k ∷ (size ++ (key_bytes k ++ le32 count))

Reads-header :
    (t : ℕ) (size k : Bytes) (count : ℕ)
    → length size ≡ 4
    → count < 2 ^ 32
    → Reads container_header (header t size k count) count
unfolding container_header
Reads-header t size k count e h =
    Reads-bind _ (t ∷ key_len_byte k ∷ []) (size ++ (key_bytes k ++ le32 count))
      (Reads-type_and_klen t (key_len_byte k))
      (Reads-then size (key_bytes k ++ le32 count) (Reads-advance 4 size e) (
        after_name k (le32 count)
          (Sees-whole _ (Sees-uint32 count h) (Reads-skip count 4 (le32 count) refl))))

-- A container whose members `m` reads.
pub Reads-container :
    {A : Type 0} (t : ℕ) (k : Bytes) (count : ℕ) (m : ℕ → Decoder A) (xs : Bytes) {a : A}
    → count < 2 ^ 32
    → Reads (m count) xs a
    → Reads
        (container_header >>= m)
        (layout t (le32 (length (le32 count ++ xs))) k (le32 count ++ xs))
        a
Reads-container t k count m xs {a} h rm =
    let size = le32 (length (le32 count ++ xs)) in
    subst (λ (ys : Bytes). Reads (container_header >>= m) (t ∷ key_len_byte k ∷ ys) a)
      (append_assoc size (key_bytes k ++ le32 count) xs
        ∙ ap (λ (ys : Bytes). size ++ ys) (append_assoc (key_bytes k) (le32 count) xs))
      (Reads-bind m (header t size k count) xs (Reads-header t size k count refl h) rm)

-- An item whose name is short enough.
pub of_named :
    {A : Type 0} {m : Decoder A} {d : A} (k xs : Bytes) {ys : Bytes}
    → Reads m xs d
    → named k xs ≡ some ys
    → Reads m ys d
of_named {m} {d} k xs r h = subst (λ (ys : Bytes). Reads m ys d) (named-eq-some k xs h).0 r

-- A number of which the item has the low 32 bits.
pub low32 : (n : ℕ) → n % 2 ^ 32 < 2 ^ 32
low32 n = omega arith

pub Reads-low32 :
    {A : Type 0} (t : ℕ) (k : Bytes) (a : A) (n : ℕ) {m : Decoder A}
    → Reads m (layout t [] k (le32 (n % 2 ^ 32))) a
    → Reads m (layout t [] k (le32 n)) a
Reads-low32 t k a n {m} r = subst (λ (ys : Bytes). Reads m (layout t [] k ys) a) (le32-mod n) r

module _ (f : ℕ) (k : Bytes) where
  pub read_int :
      (kind : IntKind) (n : ℕ)
      → n < 2 ^ 64
      → Reads (value_interface (suc f)) (int_wire kind k n) (int_view kind n)
  unfolding value_of_type int32_interface int64_interface load_int32 load_int64
  read_int int_kind n h = by_type f (Reads-number64 _ k Dyn.int64 n h)
  read_int int64_kind n h = by_type f (Reads-number64 _ k Dyn.int64 n h)
  read_int _ n h =
      by_type f (Reads-low32 _ k _ n (Reads-number32 _ k Dyn.int32 (n % 2 ^ 32) (low32 n)))

  pub read_uint :
      (kind : UintKind) (n : ℕ)
      → n < 2 ^ 64
      → Reads (value_interface (suc f)) (uint_wire kind k n) (uint_view kind n)
  unfolding value_of_type uint32_interface uint64_interface
  read_uint uint8_kind n h =
      by_type f (Reads-low32 _ k _ n (Reads-number32 _ k Dyn.uint32 (n % 2 ^ 32) (low32 n)))
  read_uint uint16_kind n h =
      by_type f (Reads-low32 _ k _ n (Reads-number32 _ k Dyn.uint32 (n % 2 ^ 32) (low32 n)))
  read_uint uint32_kind n h =
      by_type f (Reads-low32 _ k _ n (Reads-number32 _ k Dyn.uint32 (n % 2 ^ 32) (low32 n)))
  read_uint _ n h = by_type f (Reads-number64 _ k Dyn.uint64 n h)

  pub read_string :
      (s : Bytes)
      → length s + 1 < 2 ^ 32
      → Reads (value_interface (suc f)) (string_wire k s) (Dyn.string s)
  unfolding value_of_type
  read_string s h = elim (Bool-cases (ltb (length s + 1) 255)) [
    | inl e ↦ rw e (by_type f (Reads-short_string _ k s))
    | inr e ↦ rw e (by_type f (Reads-string _ k s h))
  ]

  pub read_binary :
      (s : Bytes)
      → length s < 2 ^ 32
      → Reads (value_interface (suc f)) (binary_wire k s) (Dyn.binary s)
  unfolding value_of_type
  read_binary s h = elim (Bool-cases (leb (length s) 255)) [
    | inl e ↦ rw e (by_type f (Reads-short_binary _ k s))
    | inr e ↦ rw e (by_type f (Reads-binary _ k s h))
  ]

  -- The members of a container are shorter than the container.
  pub shorter :
      (t count : ℕ) (xs : Bytes) {ys : Bytes}
      → layout t (le32 (length (le32 count ++ xs))) k (le32 count ++ xs) ≡ ys
      → length xs < length ys
  shorter t count xs e = omega (arith, ap length e, length-append (key_bytes k) (le32 count ++ xs))

  pub read_object :
      (count : ℕ) (o : Option Bytes) (m : Members) {ys : Bytes}
      → count < 2 ^ 32
      → container_wire object_type k count o ≡ some ys
      → ((xs : Bytes)
          → o ≡ some xs
          → length xs < length ys
          → Reads (members_loop (value_interface f) count no_members) xs m)
      → Reads (value_interface (suc f)) ys (Dyn.object m)
  unfolding value_of_type object_interface
  read_object count o m {ys} h e loop =
      let (xs, e1, e2) = container_wire-eq-some object_type k count o e in
      subst (λ (ys : Bytes). Reads (value_interface (suc f)) ys (Dyn.object m)) e2
        (by_type f (
          Reads-container object_type k count _ xs h
            (Reads-map Dyn.object (loop xs e1 (shorter object_type count xs e2)))))

  pub read_array :
      (count : ℕ) (o : Option Bytes) (vs : Elements) {ys : Bytes}
      → count < 2 ^ 32
      → container_wire array_type k count o ≡ some ys
      → ((xs : Bytes)
          → o ≡ some xs
          → length xs < length ys
          → Reads (elements_loop (value_interface f) count) xs vs)
      → Reads (value_interface (suc f)) ys (Dyn.array vs)
  unfolding value_of_type array_interface
  read_array count o vs {ys} h e loop =
      let (xs, e1, e2) = container_wire-eq-some array_type k count o e in
      subst (λ (ys : Bytes). Reads (value_interface (suc f)) ys (Dyn.array vs)) e2
        (by_type f (
          Reads-container array_type k count _ xs h
            (Reads-map Dyn.array (loop xs e1 (shorter array_type count xs e2)))))

-- One round of each loop.
pub next_member :
    (value : Decoder Dyn) (n : ℕ) (m : Members) (k : Bytes) {xs ys : Bytes} {d : Dyn} {m' : Members}
    → Sees key xs k
    → Reads value xs d
    → Reads (members_loop value n (map_set k d m)) ys m'
    → Reads (members_loop value (suc n) m) (xs ++ ys) m'
unfolding members_loop
next_member value n m k {xs} {ys} sk rv rl =
    Sees-bind _ xs ys sk (Reads-bind (λ v. members_loop value n (map_set k v m)) xs ys rv rl)

pub next_element :
    (value : Decoder Dyn) (n : ℕ) {xs ys : Bytes} {d : Dyn} {ds : Elements}
    → Reads value xs d
    → Reads (elements_loop value n) ys ds
    → Reads (elements_loop value (suc n)) (xs ++ ys) (element d ds)
unfolding elements_loop
next_element value n {xs} {ys} {d} rv rl = Reads-bind _ xs ys rv (Reads-map (element d) rl)

pub nothing_left :
    {A : Type 0} {m : Decoder A} {a : A} {xs : Bytes}
    → Reads m [] a
    → some [] ≡ some xs
    → Reads m xs a
nothing_left {m} {a} r e = subst (λ (xs : Bytes). Reads m xs a) (cc) r

pub fits_front :
    (ys zs : Bytes) {xs : Bytes} {f : ℕ} → ys ++ zs ≡ xs → length xs < f → length ys < f
fits_front ys zs e h = omega (arith, ap length e, length-append ys zs)

pub fits_back : (ys zs : Bytes) {xs : Bytes} {f : ℕ} → ys ++ zs ≡ xs → length xs < f → length zs < f
fits_back ys zs e h = omega (arith, ap length e, length-append ys zs)
