-- ===== src/Mcpack/RoundTrip/TypedLoops.antt =====
-- The loops of the typed decoder over members and elements that were written one by one.
use gomcpack.Prelude.{
  ℕ, suc, ◌<◌, ◌≡◌, refl, ap, sym, Bool, true, false, Option, none, some, List, [], ◌∷◌, ◌++◌,
  length, append_assoc, append-nil, bytes_eq, subst, if◌then◌else◌, replicate, ◌==◌, ltb, arith,
}
use gomcpack.Go.Slice.{Bytes}
use gomcpack.Go.Proc.{◌>>=◌, pure}
use gomcpack.Mcpack.Value.{Value, count_items, count_entries}
use gomcpack.Mcpack.Wire.{wire, wire_items, wire_entries}
use gomcpack.Mcpack.View.{IsReadable, AreReadableItems, AreReadableEntries}
use gomcpack.Mcpack.Reflect.{items_of, entries_of, Each, EachEntry, has_key}
use gomcpack.Mcpack.GoType.{Elems}
use gomcpack.Mcpack.Decode.{Decoder, key}
use gomcpack.Mcpack.Decode.Loops.{
  members_into, each_into, fill_into, store_entry, entry_set, set_len,
}
use gomcpack.Mcpack.Decode.Reads.{Sees, Reads, Reads-bind, Reads-map, Reads-pure, Sees-bind}
use gomcpack.Mcpack.RoundTrip.Inversion.{joined-eq-some}
use gomcpack.Mcpack.RoundTrip.Names.{key-wire}
use gomcpack.Mcpack.RoundTrip.Pieces.{nothing_left, fits_front, fits_back}

-- A reader of one value of a type, from the items that `marshal` writes for it.
abbrev pub ReadsAll : {A : Type 0} → (A → Value) → (A → Type 0) → ℕ → Decoder A → Type 0
ReadsAll {A} f P bound value =
    (v : A) (k xs : Bytes)
    → IsReadable (f v)
    → P v
    → wire (f v) k ≡ some xs
    → length xs < bound
    → Reads value xs v

module _ {A : Type 0} (f : A → Value) (P : A → Type 0) (bound : ℕ) (store : A → Decoder A) (z : A)
    (read : ReadsAll f P bound (store z)) where
  pub each_into-wire :
      (vs : List A) (xs : Bytes)
      → AreReadableItems (items_of f vs)
      → Each P vs
      → wire_items (items_of f vs) ≡ some xs
      → length xs < bound
      → Reads (each_into store (replicate (length vs) z)) xs vs
  unfolding each_into wire IsReadable
  each_into-wire [] xs r p e h = nothing_left (Reads-pure []) e
  each_into-wire (v ∷ vs) xs (r, rs) (p, ps) e h =
      let (ys, zs, e1, e2, e3) = joined-eq-some (wire (f v) []) (wire_items (items_of f vs)) e in
      subst (λ (xs : Bytes). Reads (each_into store (replicate (suc (length vs)) z)) xs (v ∷ vs)) e3
        (Reads-bind _ ys zs (read v [] ys r p e1 (fits_front ys zs e3 h))
          (Reads-map (λ ws. v ∷ ws) (each_into-wire vs zs rs ps e2 (fits_back ys zs e3 h))))

  pub fill_into-wire :
      (vs : List A) (xs : Bytes)
      → AreReadableItems (items_of f vs)
      → Each P vs
      → wire_items (items_of f vs) ≡ some xs
      → length xs < bound
      → Reads (fill_into store z (length vs) (replicate (length vs) z)) xs vs
  unfolding fill_into wire IsReadable
  fill_into-wire [] xs r p e h = nothing_left (Reads-pure []) e
  fill_into-wire (v ∷ vs) xs (r, rs) (p, ps) e h =
      let (ys, zs, e1, e2, e3) = joined-eq-some (wire (f v) []) (wire_items (items_of f vs)) e in
      subst
        (λ (xs : Bytes).
          Reads (fill_into store z (suc (length vs)) (replicate (suc (length vs)) z)) xs (v ∷ vs))
        e3
        (Reads-bind _ ys zs (read v [] ys r p e1 (fits_front ys zs e3 h))
          (Reads-map (λ ws. v ∷ ws) (fill_into-wire vs zs rs ps e2 (fits_back ys zs e3 h))))

-- One round of the loop over members.
pub members_into-round :
    {A : Type 0} (store : Bytes → A → Decoder A) (n : ℕ) (a b : A) (k ys zs : Bytes) {c : A}
    → Sees key ys k
    → Reads (store k a) ys b
    → Reads (members_into store n b) zs c
    → Reads (members_into store (suc n) a) (ys ++ zs) c
unfolding members_into
members_into-round store n a b k ys zs sk rs rl = Sees-bind _ ys zs sk (Reads-bind _ ys zs rs rl)

pub length-items_of :
    {A : Type 0} (f : A → Value) (vs : List A) → count_items (items_of f vs) ≡ length vs
length-items_of f [] = refl
length-items_of f (v ∷ vs) = ap suc (length-items_of f vs)

-- A key that is new goes to the end of a map.
entry_set-append :
    {A : Type 0} (k : Bytes) (v : A) (m : List (Bytes × A))
    → has_key k m ≡ false
    → entry_set k v m ≡ m ++ (k, v) ∷ []
unfolding entry_set
entry_set-append k v [] h = refl
entry_set-append k v ((j, w) ∷ m) h = go (bytes_eq j k) (entry_set-append k v m) h
  where
    go :
        (b : Bool)
        → (has_key k m ≡ false → entry_set k v m ≡ m ++ (k, v) ∷ [])
        → (if b then true else has_key k m) ≡ false
        → (if b then (j, v) ∷ m else (j, w) ∷ entry_set k v m) ≡ (j, w) ∷ (m ++ (k, v) ∷ [])
    go true rest h = cc
    go false rest h = ap (λ t. (j, w) ∷ t) (rest h)

module _ {A : Type 0} (f : A → Value) (P : A → Type 0) (bound : ℕ) (value : Decoder A)
    (read : ReadsAll f P bound value) where
  pub members_into-entries :
      (m before : List (Bytes × A)) (xs : Bytes)
      → AreReadableEntries (entries_of f m)
      → EachEntry P before m
      → wire_entries (entries_of f m) ≡ some xs
      → length xs < bound
      → Reads
          (members_into (store_entry value) (count_entries (entries_of f m)) before)
          xs
          (before ++ m)
  unfolding members_into store_entry wire IsReadable
  members_into-entries [] before xs r p e h =
      nothing_left
        (subst (λ t. Reads (pure before) [] t) (sym (append-nil before)) (Reads-pure before)) e
  members_into-entries ((k, v) ∷ m) before xs (long, r, rs) (new, p, ps) e h =
      let (ys, zs, e1, e2, e3) = joined-eq-some (wire (f v) k) (wire_entries (entries_of f m)) e in
      let n = count_entries (entries_of f m) in
      let after = before ++ (k, v) ∷ [] in
      let stored : Reads (store_entry value k before) ys after =
        subst (λ t. Reads (store_entry value k before) ys t) (entry_set-append k v before new)
          (Reads-map (λ w. entry_set k w before) (read v k ys r p e1 (fits_front ys zs e3 h))) in
      let rest : Reads (members_into (store_entry value) n after) zs (before ++ (k, v) ∷ m) =
        subst (λ t. Reads (members_into (store_entry value) n after) zs t)
          (append_assoc before ((k, v) ∷ []) m)
          (members_into-entries m after zs rs ps e2 (fits_back ys zs e3 h)) in
      subst
        (λ (xs : Bytes).
          Reads (members_into (store_entry value) (suc n) before) xs (before ++ (k, v) ∷ m))
        e3
        (members_into-round (store_entry value) n before after k ys zs
          (key-wire (f v) k ys r long e1) stored rest)

-- What `array` does with a nil slice behind the header.
abbrev pub into_nil_slice : {A : Type 0} → (A → Decoder A) → A → ℕ → Decoder (Option (Elems A))
into_nil_slice store z n = each_into store (set_len z n none).0 >>= λ ws.
    if n == 0 then pure (some ([], [])) else pure (some (ws, (set_len z n none).1))

module _ {A : Type 0} (f : A → Value) (P : A → Type 0) (bound : ℕ) (store : A → Decoder A) (z : A)
    (read : ReadsAll f P bound (store z)) where
  pub into_nil_slice-wire :
      (vs : List A) (xs : Bytes)
      → AreReadableItems (items_of f vs)
      → Each P vs
      → wire_items (items_of f vs) ≡ some xs
      → length xs < bound
      → Reads (into_nil_slice store z (length vs)) xs (some (vs, []))
  unfolding each_into wire set_len
  into_nil_slice-wire [] xs r p e h = nothing_left (Reads-pure (some ([], []))) e
  into_nil_slice-wire (v ∷ vs) xs r p e h =
      let longer : ltb 0 (suc (length vs)) ≡ true = ground arith in
      let more : (suc (length vs) == 0) ≡ false = ground arith in
      let filled : List A → Option (Elems A) = λ ws. some (ws, []) in
      rw (longer, more)
        (Reads-map filled (each_into-wire f P bound store z read (v ∷ vs) xs r p e h))
