-- ===== src/Npc/Header/Layout.antt =====
-- The layout of a header, and that `Marshal` and `Unmarshal` follow it.
use gomcpack.Prelude.{
  ℕ, ◌+◌, ◌-◌, ◌*◌, ◌/◌, ◌%◌, ◌^◌, ◌≤◌, ◌<◌, ◌≡◌, refl, ap, sym, ◌∙◌, none, [], ◌∷◌, ◌++◌,
  append_assoc, append-nil, arith, length, length-append, length-take, length-drop, take, drop,
  drop-append, take-append, take-all, drop-all, drop-drop, bit_or, le→ltb, take-append-drop,
}
use native.Mathlib.Nat.{mod-eq_of_lt}
use gomcpack.Prelude.Bits.{bit_or_disjoint}
use gomcpack.Go.{Go, done}
use gomcpack.Go.Slice.{Bytes, index, store, slice_to_cap-of_drop, copy}
use gomcpack.Mcpack.Number.{shl, put_uint32}
use gomcpack.Mcpack.Number.RoundTrip.{le32, put_uint32-append, uint32-append}
use gomcpack.Npc.Header.{Header, uint16, put_uint16, part, write_part, unmarshal, marshal}

abbrev pub le16 : ℕ → Bytes
le16 v = v % 256 ∷ (v / 256 % 256) ∷ []

-- The fields in their order, integers with the lowest byte first.
abbrev pub header_bytes : Header → Bytes
header_bytes h =
    le16 h.id
    ++ (le16 h.version
        ++ (le32 h.log_id
            ++ (h.provider ++ (le32 h.magic_num ++ (le32 h.reserved ++ le32 h.body_len)))))

-- A header whose fields have their widths.
pub record IsHeader (h : Header) : Type 0 where
  pub id_bound : h.id < 2 ^ 16
  pub version_bound : h.version < 2 ^ 16
  pub log_id_bound : h.log_id < 2 ^ 32
  pub provider_length : length h.provider ≡ 16
  pub magic_num_bound : h.magic_num < 2 ^ 32
  pub reserved_bound : h.reserved < 2 ^ 32
  pub body_len_bound : h.body_len < 2 ^ 32

uint16-le16 : (v : ℕ) → v < 2 ^ 16 → uint16 (le16 v) ≡ done v
unfolding uint16 index
uint16-le16 v h =
    let d0 = v % 256 in
    let d1 = v / 256 % 256 in
    let e : bit_or d0 (shl 16 d1 8) ≡ d0 + d1 * 2 ^ 8 =
      ap (λ (t : ℕ). bit_or d0 t) (mod-eq_of_lt (omega arith))
      ∙ bit_or_disjoint 8 d0 d1 (omega arith) in
    ap done (e ∙ (omega arith))

put_uint16-le16 : (g : Bytes) (v : ℕ) → length g ≡ 2 → put_uint16 g v ≡ done (le16 v)
unfolding put_uint16 store
put_uint16-le16 (a ∷ b ∷ []) v h = ground arith
put_uint16-le16 [] v h = absurd (omega arith)
put_uint16-le16 (a ∷ []) v h = absurd (omega arith)
put_uint16-le16 (a ∷ b ∷ c ∷ g) v h = absurd (omega arith)

put_uint32-le32 : (g : Bytes) (v : ℕ) → length g ≡ 4 → put_uint32 g v ≡ done (le32 v)
put_uint32-le32 (a ∷ b ∷ c ∷ d ∷ []) v h = put_uint32-append v a b c d []
put_uint32-le32 [] v h = absurd (omega arith)
put_uint32-le32 (a ∷ []) v h = absurd (omega arith)
put_uint32-le32 (a ∷ b ∷ []) v h = absurd (omega arith)
put_uint32-le32 (a ∷ b ∷ c ∷ []) v h = absurd (omega arith)
put_uint32-le32 (a ∷ b ∷ c ∷ d ∷ e ∷ g) v h = absurd (omega arith)

copy-whole : (g p : Bytes) → length g ≡ length p → (copy g p).0 ≡ p
unfolding copy
copy-whole g p e =
    ap (λ (t : Bytes). t ++ drop (length p) g) (take-all p (length g) (omega arith))
    ∙ ap (λ (t : Bytes). p ++ t) (drop-all g (length p) (omega arith))
    ∙ append-nil p

-- The part of a slice that stands behind `xs`.
pub part-append :
    (xs g r : Bytes) (lo hi : ℕ)
    → length xs ≡ lo
    → hi ≡ lo + length g
    → part (xs ++ (g ++ r)) lo hi ≡ done g
unfolding part
part-append xs g r lo hi e n =
    let behind : drop lo (xs ++ (g ++ r)) ≡ g ++ r =
      ap (λ (k : ℕ). drop k (xs ++ (g ++ r))) (sym e) ∙ drop-append xs (g ++ r) in
    slice_to_cap-of_drop (xs ++ (g ++ r)) [] lo hi (length g) g r behind
      (omega (arith, length-append xs (g ++ r))) refl n

part-behind :
    (xs ys g r : Bytes) (lo hi : ℕ)
    → length xs + length ys ≡ lo
    → hi ≡ lo + length g
    → part (xs ++ (ys ++ (g ++ r))) lo hi ≡ done g
part-behind xs ys g r lo hi e n =
    ap (λ (t : Bytes). part t lo hi) (sym (append_assoc xs ys (g ++ r)))
    ∙ part-append (xs ++ ys) g r lo hi (length-append xs ys ∙ e) n

-- A write that fills the part behind what has been written.
write_part-filled :
    (put : Bytes → Go Bytes) (xs g' b : Bytes) (lo hi : ℕ)
    → length xs ≡ lo
    → lo ≤ hi
    → hi ≤ length b
    → ((g : Bytes) → length g ≡ hi - lo → put g ≡ done g')
    → write_part lo hi put (xs ++ drop lo b) ≡ done (xs ++ (g' ++ drop hi b))
unfolding write_part
write_part-filled put xs g' b lo hi e le len puts =
    let g : Bytes = take (hi - lo) (drop lo b) in
    let r : Bytes = drop hi b in
    let glen : length g ≡ hi - lo =
      length-take (hi - lo) (drop lo b) ∙ (omega (arith, length-drop lo b)) in
    let back : drop (hi - lo) (drop lo b) ≡ r =
      sym (drop-drop lo (hi - lo) b)
      ∙ ap (λ (n : ℕ). drop n b) {x = lo + (hi - lo)} {y = hi} (omega arith) in
    let cut : drop lo b ≡ g ++ r =
      sym (take-append-drop (hi - lo) (drop lo b)) ∙ ap (λ (t : Bytes). g ++ t) back in
    let front : take lo (xs ++ (g ++ r)) ≡ xs =
      ap (λ (n : ℕ). take n (xs ++ (g ++ r))) (sym e) ∙ take-append xs (g ++ r) in
    let past : drop hi (xs ++ (g ++ r)) ≡ r =
      ap (λ (n : ℕ). drop n (xs ++ (g ++ r))) {x = hi} {y = length xs + length g} (omega arith)
      ∙ drop-drop (length xs) (length g) (xs ++ (g ++ r))
      ∙ ap (λ (t : Bytes). drop (length g) t) (drop-append xs (g ++ r))
      ∙ drop-append g r in
    ap (λ (t : Bytes). write_part lo hi put (xs ++ t)) cut
    ∙ rw (part-append xs g r lo hi e (omega arith), puts g glen, front, past)

-- The same behind two pieces.
write_part-behind :
    (put : Bytes → Go Bytes) (xs ys g' b : Bytes) (lo hi : ℕ)
    → length xs + length ys ≡ lo
    → lo ≤ hi
    → hi ≤ length b
    → ((g : Bytes) → length g ≡ hi - lo → put g ≡ done g')
    → write_part lo hi put (xs ++ (ys ++ drop lo b)) ≡ done (xs ++ (ys ++ (g' ++ drop hi b)))
write_part-behind put xs ys g' b lo hi e le len puts =
    ap (λ (t : Bytes). write_part lo hi put t) (sym (append_assoc xs ys (drop lo b)))
    ∙ write_part-filled put (xs ++ ys) g' b lo hi (length-append xs ys ∙ e) le len puts
    ∙ ap done (append_assoc xs ys (g' ++ drop hi b))

-- `Marshal` fills the first 36 bytes of a slice that has them, and leaves the others.
pub marshal-bytes :
    (h : Header) (b : Bytes)
    → length h.provider ≡ 16
    → 36 ≤ length b
    → marshal h b ≡ done (none, header_bytes h ++ drop 36 b)
unfolding marshal
marshal-bytes h b p long =
    let x1 : Bytes = le16 h.id in
    let x2 : Bytes = x1 ++ le16 h.version in
    let x3 : Bytes = x2 ++ le32 h.log_id in
    let x4 : Bytes = x3 ++ h.provider in
    let behind : length x4 ≡ 24 = omega (arith, length-append x3 h.provider, p) in
    let magic : Bytes = le32 h.magic_num in
    let tail : Bytes = magic ++ le32 h.reserved in
    rw
      (
        le→ltb (length b) 36 long,
        write_part-filled (λ dst. put_uint16 dst h.id) [] x1 b 0 2 refl (omega arith) (omega arith)
            (λ g e. put_uint16-le16 g h.id e),
        write_part-filled (λ dst. put_uint16 dst h.version) x1 (le16 h.version) b 2 4 refl
            (omega arith) (omega arith) (λ g e. put_uint16-le16 g h.version e),
        write_part-filled (λ dst. put_uint32 dst h.log_id) x2 (le32 h.log_id) b 4 8 refl
            (omega arith) (omega arith) (λ g e. put_uint32-le32 g h.log_id e),
        write_part-filled (λ dst. done (copy dst h.provider).0) x3 h.provider b 8 24 refl
            (omega arith) (omega arith)
            (λ g e. ap done (copy-whole g h.provider (omega (arith, e, p)))),
        write_part-filled (λ dst. put_uint32 dst h.magic_num) x4 magic b 24 28 behind (omega arith)
            (omega arith) (λ g e. put_uint32-le32 g h.magic_num e),
        write_part-behind (λ dst. put_uint32 dst h.reserved) x4 magic (le32 h.reserved) b 28 32
            (omega (arith, behind)) (omega arith) (omega arith)
            (λ g e. put_uint32-le32 g h.reserved e),
        write_part-behind (λ dst. put_uint32 dst h.body_len) x4 tail (le32 h.body_len) b 32 36
            (omega (arith, behind)) (omega arith) (omega arith)
            (λ g e. put_uint32-le32 g h.body_len e),
      )
      (ap (λ (t : Bytes). done (none, x3 ++ t))
        (sym (append_assoc h.provider (tail ++ le32 h.body_len) (drop 36 b))))

-- `Unmarshal` finds the fields, whatever follows the header.
pub unmarshal-bytes :
    (old h : Header) (r : Bytes)
    → length old.provider ≡ 16
    → IsHeader h
    → unmarshal old (header_bytes h ++ r) ≡ done (none, h)
unfolding unmarshal
unmarshal-bytes old h r p w =
    let x1 : Bytes = le16 h.id in
    let x2 : Bytes = x1 ++ le16 h.version in
    let x3 : Bytes = x2 ++ le32 h.log_id in
    let x4 : Bytes = x3 ++ h.provider in
    let behind : length x4 ≡ 24 = omega (arith, length-append x3 h.provider, w.provider_length) in
    let magic : Bytes = le32 h.magic_num in
    let reserved : Bytes = le32 h.reserved in
    let tail : Bytes = magic ++ reserved in
    let body_len : Bytes = le32 h.body_len in
    let after1 : Bytes = h.provider ++ (tail ++ (body_len ++ r)) in
    let flat : Bytes = x3 ++ after1 in
    let same : header_bytes h ++ r ≡ flat =
      ap (λ (t : Bytes). x3 ++ t) (append_assoc h.provider (tail ++ body_len) r) in
    let long : 36 ≤ length flat =
      omega (arith, length-append h.provider (tail ++ (body_len ++ r)), w.provider_length) in
    ap (λ (t : Bytes). unmarshal old t) same
    ∙ rw (
      le→ltb (length flat) 36 long,
      part-append [] x1 (le16 h.version ++ (le32 h.log_id ++ after1)) 0 2 refl refl,
      uint16-le16 h.id w.id_bound,
      part-append x1 (le16 h.version) (le32 h.log_id ++ after1) 2 4 refl refl,
      uint16-le16 h.version w.version_bound,
      part-append x2 (le32 h.log_id) after1 4 8 refl refl,
      uint32-append h.log_id [] w.log_id_bound,
      part-append x3 h.provider (tail ++ (body_len ++ r)) 8 24 refl
          (omega (arith, w.provider_length)),
      part-append x4 magic (reserved ++ (body_len ++ r)) 24 28 behind refl,
      uint32-append h.magic_num [] w.magic_num_bound,
      part-behind x4 magic reserved (body_len ++ r) 28 32 (omega (arith, behind)) refl,
      uint32-append h.reserved [] w.reserved_bound,
      part-behind x4 tail body_len r 32 36 (omega (arith, behind)) refl,
      uint32-append h.body_len [] w.body_len_bound,
      copy-whole old.provider h.provider (omega (arith, p, w.provider_length)),
    )
