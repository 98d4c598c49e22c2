-- ===== src/Mcpack/Decode/ReadsItems.antt =====
-- The readers of values without members take exactly the items that the format has for them.
use gomcpack.Prelude.{
  ℕ, ◌+◌, ◌-◌, ◌^◌, ◌<◌, ◌≡◌, refl, ap, sym, Bool, true, false, [], ◌∷◌, ◌++◌, arith, length,
  length-append, ltb, Bool-cases, inl, inr,
}
use gomcpack.Go.{Go, done}
use gomcpack.Go.Slice.{Bytes, index}
use gomcpack.Go.Proc.{◌>>◌}
use gomcpack.Mcpack.Number.{uint8, uint32, uint64}
use gomcpack.Mcpack.Number.RoundTrip.{le32, le64, uint32-append, uint64-append}
use gomcpack.Mcpack.Dyn.{Dyn}
use gomcpack.Mcpack.Wire.{key_len_byte, key_bytes, layout}
use gomcpack.Mcpack.Decode.State.{Decoder, read, offset, advance, type_and_klen}
use gomcpack.Mcpack.Decode.Items.{
  string_interface, short_string_interface, binary_interface, short_binary_interface,
  number_interface, null_interface, bool_interface, string_content, binary_content,
}
use gomcpack.Mcpack.Decode.Setters.{
  string_into, short_string_into, binary_into, short_binary_into, number_into, bool_into, null_into,
}
use gomcpack.Mcpack.Decode.Reads.{
  state, Stands-front, Sees, Reads, Reads-bind, Sees-bind, Reads-then, Reads-pure, Reads-advance,
  Sees-peek, Sees-read, slice_data-of_Stands, Reads-set, Sees-whole, Reads-skip_set,
}

pub Sees-uint8 : (v : ℕ) → Sees (read uint8 0) (v ∷ []) v
Sees-uint8 v = Sees-read uint8 [] (v ∷ []) v (λ r. unfold uint8 index in refl)

pub Sees-uint32 : (v : ℕ) → v < 2 ^ 32 → Sees (read uint32 0) (le32 v) v
Sees-uint32 v h = Sees-read uint32 [] (le32 v) v (λ r. uint32-append v r h)

Sees-uint64 : (v : ℕ) → v < 2 ^ 64 → Sees (read uint64 0) (le64 v) v
Sees-uint64 v h = Sees-read uint64 [] (le64 v) v (λ r. uint64-append v r h)

-- The type and the length of the name.
pub Reads-type_and_klen : (t kl : ℕ) → Reads type_and_klen (t ∷ kl ∷ []) kl
unfolding type_and_klen
Reads-type_and_klen t kl = Reads-then (t ∷ []) (kl ∷ []) (Reads-advance 1 (t ∷ []) refl) (
    Sees-bind _ (kl ∷ []) [] (Sees-uint8 kl)
      (Reads-then (kl ∷ []) [] (Reads-advance 1 (kl ∷ []) refl) (Reads-pure kl)))

pub length-key : (k : Bytes) → length (key_bytes k) ≡ key_len_byte k
length-key k = elim (Bool-cases (ltb 0 (length k))) [
  | inl e ↦ rw e (omega (arith, length-append k (0 ∷ [])))
  | inr e ↦ rw e refl
]

-- The name with its 0x00.
pub Reads-key : (k : Bytes) → Reads (advance (key_len_byte k)) (key_bytes k) tt
Reads-key k = Reads-advance (key_len_byte k) (key_bytes k) (length-key k)

Reads-string_content : (s : Bytes) → Reads (string_content (length s + 1)) (s ++ 0 ∷ []) s
unfolding string_content offset advance
Reads-string_content s = record {
  at = λ input spare off st.
      rw
        (slice_data-of_Stands input spare s off off (off + (length s + 1) - 1)
          (Stands-front s (0 ∷ []) st) (omega arith))
        (ap (λ (n : ℕ). done (s, state input spare (off + n))) (sym (length-append s (0 ∷ []))));
}

Reads-binary_content : (s : Bytes) → Reads (binary_content (length s)) s s
unfolding binary_content offset advance
Reads-binary_content s = record {
  at = λ input spare off st.
      rw (slice_data-of_Stands input spare s off off (off + length s) st refl);
}

-- A step behind the name, in an item whose content it reads.
pub after_name :
    {A : Type 0} {m : Decoder A} {a : A} (k content : Bytes)
    → Reads m content a
    → Reads (advance (key_len_byte k) >> m) (key_bytes k ++ content) a
after_name k content rm = Reads-then (key_bytes k) content (Reads-key k) rm

module _ {A : Type 0} (t : ℕ) (k : Bytes) where
  module _ (set : Bytes → Go A) {a : A} (s : Bytes) (e : set s ≡ done a) where
    pub Reads-string_into :
        length s + 1 < 2 ^ 32
        → Reads (string_into set) (layout t (le32 (length s + 1)) k (s ++ 0 ∷ [])) a
    unfolding string_into
    Reads-string_into h =
        let size = le32 (length s + 1) in
        let tail = key_bytes k ++ (s ++ 0 ∷ []) in
        Reads-bind _ (t ∷ key_len_byte k ∷ []) (size ++ tail)
          (Reads-type_and_klen t (key_len_byte k))
          (Sees-bind _ size tail (Sees-uint32 (length s + 1) h) (
            Reads-then size tail (Reads-advance 4 size refl)
              (after_name k (s ++ 0 ∷ []) (Reads-set set e (Reads-string_content s)))))

    pub Reads-short_string_into :
        Reads (short_string_into set) (layout t ((length s + 1) ∷ []) k (s ++ 0 ∷ [])) a
    unfolding short_string_into
    Reads-short_string_into =
        let size : Bytes = (length s + 1) ∷ [] in
        let tail = key_bytes k ++ (s ++ 0 ∷ []) in
        Reads-bind _ (t ∷ key_len_byte k ∷ []) (size ++ tail)
          (Reads-type_and_klen t (key_len_byte k))
          (Sees-bind _ size tail (Sees-uint8 (length s + 1)) (
            Reads-then size tail (Reads-advance 1 size refl)
              (after_name k (s ++ 0 ∷ []) (Reads-set set e (Reads-string_content s)))))

    pub Reads-binary_into :
        length s < 2 ^ 32 → Reads (binary_into set) (layout t (le32 (length s)) k s) a
    unfolding binary_into
    Reads-binary_into h =
        let size = le32 (length s) in
        let tail = key_bytes k ++ s in
        Reads-bind _ (t ∷ key_len_byte k ∷ []) (size ++ tail)
          (Reads-type_and_klen t (key_len_byte k))
          (Sees-bind _ size tail (Sees-uint32 (length s) h) (
            Reads-then size tail (Reads-advance 4 size refl)
              (after_name k s (Reads-set set e (Reads-binary_content s)))))

    pub Reads-short_binary_into : Reads (short_binary_into set) (layout t (length s ∷ []) k s) a
    unfolding short_binary_into
    Reads-short_binary_into =
        let size : Bytes = length s ∷ [] in
        let tail = key_bytes k ++ s in
        Reads-bind _ (t ∷ key_len_byte k ∷ []) (size ++ tail)
          (Reads-type_and_klen t (key_len_byte k))
          (Sees-bind _ size tail (Sees-uint8 (length s)) (
            Reads-then size tail (Reads-advance 1 size refl)
              (after_name k s (Reads-set set e (Reads-binary_content s)))))

  -- A number that `get` reads off the bytes `xs`.
  Reads-number_into :
      (get : Bytes → Go ℕ) (width : ℕ) (set : ℕ → Go A) {a : A} (xs : Bytes) (v : ℕ)
      → set v ≡ done a
      → Sees (read get 0) xs v
      → length xs ≡ width
      → Reads (number_into get width set) (layout t [] k xs) a
  unfolding number_into
  Reads-number_into get width set xs v e sees h =
      Reads-bind _ (t ∷ key_len_byte k ∷ []) (key_bytes k ++ xs)
        (Reads-type_and_klen t (key_len_byte k))
        (after_name k xs (Sees-whole _ sees (Reads-skip_set (set v) width xs e h)))

  module _ (set : ℕ → Go A) {a : A} (v : ℕ) (e : set v ≡ done a) where
    pub Reads-number32_into :
        v < 2 ^ 32 → Reads (number_into uint32 4 set) (layout t [] k (le32 v)) a
    Reads-number32_into h = Reads-number_into uint32 4 set (le32 v) v e (Sees-uint32 v h) refl

    pub Reads-number64_into :
        v < 2 ^ 64 → Reads (number_into uint64 8 set) (layout t [] k (le64 v)) a
    Reads-number64_into h = Reads-number_into uint64 8 set (le64 v) v e (Sees-uint64 v h) refl

  pub Reads-null_into :
      (z : Go A) {a : A} → z ≡ done a → Reads (null_into z) (layout t [] k (0 ∷ [])) a
  unfolding null_into
  Reads-null_into z e =
      Reads-bind _ (t ∷ key_len_byte k ∷ []) (key_bytes k ++ 0 ∷ [])
        (Reads-type_and_klen t (key_len_byte k))
        (after_name k (0 ∷ []) (Reads-skip_set z 1 (0 ∷ []) e refl))

  module _ (set : Bool → Go A) {a : A} where
    pub Reads-false_into : set false ≡ done a → Reads (bool_into set) (layout t [] k (0 ∷ [])) a
    unfolding bool_into
    Reads-false_into e =
        Reads-bind _ (t ∷ key_len_byte k ∷ []) (key_bytes k ++ 0 ∷ [])
          (Reads-type_and_klen t (key_len_byte k))
          (after_name k (0 ∷ [])
            (Sees-whole _ (Sees-peek 0) (Reads-skip_set (set false) 1 (0 ∷ []) e refl)))

    pub Reads-true_into : set true ≡ done a → Reads (bool_into set) (layout t [] k (1 ∷ [])) a
    unfolding bool_into
    Reads-true_into e =
        Reads-bind _ (t ∷ key_len_byte k ∷ []) (key_bytes k ++ 1 ∷ [])
          (Reads-type_and_klen t (key_len_byte k))
          (after_name k (1 ∷ [])
            (Sees-whole _ (Sees-peek 1) (Reads-skip_set (set true) 1 (1 ∷ []) e refl)))

-- The same for a reader that returns the value.
module _ (t : ℕ) (k : Bytes) where
  pub Reads-string :
      (s : Bytes)
      → length s + 1 < 2 ^ 32
      → Reads string_interface (layout t (le32 (length s + 1)) k (s ++ 0 ∷ [])) (Dyn.string s)
  unfolding string_interface string_into
  Reads-string s h = Reads-string_into t k (λ s. done (Dyn.string s)) s refl h

  pub Reads-short_string :
      (s : Bytes)
      → Reads short_string_interface (layout t ((length s + 1) ∷ []) k (s ++ 0 ∷ [])) (Dyn.string s)
  unfolding short_string_interface short_string_into
  Reads-short_string s = Reads-short_string_into t k (λ s. done (Dyn.string s)) s refl

  pub Reads-binary :
      (s : Bytes)
      → length s < 2 ^ 32
      → Reads binary_interface (layout t (le32 (length s)) k s) (Dyn.binary s)
  unfolding binary_interface binary_into
  Reads-binary s h = Reads-binary_into t k (λ s. done (Dyn.binary s)) s refl h

  pub Reads-short_binary :
      (s : Bytes) → Reads short_binary_interface (layout t (length s ∷ []) k s) (Dyn.binary s)
  unfolding short_binary_interface short_binary_into
  Reads-short_binary s = Reads-short_binary_into t k (λ s. done (Dyn.binary s)) s refl

  module _ (make : ℕ → Dyn) (v : ℕ) where
    pub Reads-number32 :
        v < 2 ^ 32 → Reads (number_interface uint32 4 make) (layout t [] k (le32 v)) (make v)
    unfolding number_interface number_into
    Reads-number32 h = Reads-number32_into t k (λ n. done (make n)) v refl h

    pub Reads-number64 :
        v < 2 ^ 64 → Reads (number_interface uint64 8 make) (layout t [] k (le64 v)) (make v)
    unfolding number_interface number_into
    Reads-number64 h = Reads-number64_into t k (λ n. done (make n)) v refl h

  pub Reads-null : Reads null_interface (layout t [] k (0 ∷ [])) Dyn.nil
  unfolding null_interface null_into
  Reads-null = Reads-null_into t k (done Dyn.nil) refl

  pub Reads-false : Reads bool_interface (layout t [] k (0 ∷ [])) (Dyn.bool false)
  unfolding bool_interface bool_into
  Reads-false = Reads-false_into t k (λ b. done (Dyn.bool b)) refl

  pub Reads-true : Reads bool_interface (layout t [] k (1 ∷ [])) (Dyn.bool true)
  unfolding bool_interface bool_into
  Reads-true = Reads-true_into t k (λ b. done (Dyn.bool b)) refl
