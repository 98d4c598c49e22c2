-- ===== src/Mcpack/Decode/TypedEnds.antt =====
-- The loops and setters of the typed decoder end.
use gomcpack.Prelude.{ℕ, zero, suc, Bool, Option, List, [], ◌∷◌}
use gomcpack.Go.{Go}
use gomcpack.Go.Slice.{Bytes}
use gomcpack.Go.Proc.{lift}
use gomcpack.Mcpack.Number.{
  uint32, int32, int64, uint64, float32 as load_float32, float64 as load_float64,
}
use gomcpack.Mcpack.GoType.{Elems}
use gomcpack.Mcpack.Decode.State.{Decoder, key, next}
use gomcpack.Mcpack.Decode.Setters.{
  Target, string_into, short_string_into, binary_into, short_binary_into, number_into, bool_into,
  null_into, item_into, wrong_value, not_settable,
}
use gomcpack.Mcpack.Decode.Loops.{
  plain_object, plain_array, skip_items, members_into, each_into, fill_into, set_len, slice_into,
  array_into, store_entry, entry_set, map_into, map_array, entries,
}
use gomcpack.Mcpack.Decode.Ends.{
  IsEnded, Ends, Ends-bind, Ends-pure, Ends-if, Ends-lift, ends_rules,
}
use gomcpack.Mcpack.Decode.EndsItems.{Ends-key, Ends-next}
use gomcpack.Mcpack.Decode.Total.{Ends-header_alone}

-- A variable whose setters end, and whose items with members end.
pub record EndsTarget {A : Type 0} (l : ℕ) (v : Target A) : Type 0 where
  pub set_string : (s : Bytes) → IsEnded (v.set_string s)
  pub set_bytes : (s : Bytes) → IsEnded (v.set_bytes s)
  pub set_bool : (b : Bool) → IsEnded (v.set_bool b)
  pub set_int : (n : ℕ) → IsEnded (v.set_int n)
  pub set_uint : (n : ℕ) → IsEnded (v.set_uint n)
  pub set_float : (n : ℕ) → IsEnded (v.set_float n)
  pub set_zero : IsEnded v.set_zero
  pub object : Ends l v.object
  pub array : Ends l v.array

module _ {A : Type 0} (l : ℕ) where
  module _ (set : Bytes → Go A) (h : (s : Bytes) → IsEnded (set s)) where
    Ends-set : (s : Bytes) → Ends l (lift (set s))
    Ends-set s = Ends-lift l (set s) (h s)

    Ends-string_into : Ends l (string_into set)
    unfolding string_into
    Ends-string_into = search (ends_rules, Ends-set) depth 14

    Ends-short_string_into : Ends l (short_string_into set)
    unfolding short_string_into
    Ends-short_string_into = search (ends_rules, Ends-set) depth 14

    Ends-binary_into : Ends l (binary_into set)
    unfolding binary_into
    Ends-binary_into = search (ends_rules, Ends-set) depth 14

    Ends-short_binary_into : Ends l (short_binary_into set)
    unfolding short_binary_into
    Ends-short_binary_into = search (ends_rules, Ends-set) depth 14

  module _ (set : ℕ → Go A) (h : (n : ℕ) → IsEnded (set n)) where
    Ends-set_number : (n : ℕ) → Ends l (lift (set n))
    Ends-set_number n = Ends-lift l (set n) (h n)

    Ends-number32_into : Ends l (number_into uint32 4 set)
    unfolding number_into
    Ends-number32_into = search (ends_rules, Ends-set_number) depth 14

    Ends-number64_into : Ends l (number_into uint64 8 set)
    unfolding number_into
    Ends-number64_into = search (ends_rules, Ends-set_number) depth 14

  Ends-bool_into : (set : Bool → Go A) → ((b : Bool) → IsEnded (set b)) → Ends l (bool_into set)
  unfolding bool_into
  Ends-bool_into set h = search (ends_rules, Ends-lift, h) depth 14

  pub Ends-null_into : (z : Go A) → IsEnded z → Ends l (null_into z)
  unfolding null_into
  Ends-null_into z h = search (ends_rules, Ends-lift) depth 14

  pub Ends-item_into :
      (widen extend32 : ℕ → ℕ) (v : Target A)
      → EndsTarget l v
      → (t : ℕ) → Ends l (item_into widen extend32 v t)
  unfolding item_into int32 int64 load_float32 load_float64
  Ends-item_into widen extend32 v e t = Ends-if l _ _ _ e.object (
      Ends-if l _ _ _ e.array (
        Ends-if l _ _ _ (Ends-string_into v.set_string e.set_string) (
          Ends-if l _ _ _ (Ends-short_string_into v.set_string e.set_string) (
            Ends-if l _ _ _ (Ends-binary_into v.set_bytes e.set_bytes) (
              Ends-if l _ _ _ (Ends-short_binary_into v.set_bytes e.set_bytes) (
                Ends-if l _ _ _ (Ends-number32_into _ (λ n. e.set_int (extend32 n))) (
                  Ends-if l _ _ _ (Ends-number64_into v.set_int e.set_int) (
                    Ends-if l _ _ _ (Ends-number32_into v.set_uint e.set_uint) (
                      Ends-if l _ _ _ (Ends-number64_into v.set_uint e.set_uint) (
                        Ends-if l _ _ _ (Ends-bool_into v.set_bool e.set_bool) (
                          Ends-if l _ _ _ (Ends-number32_into _ (λ n. e.set_float (widen n))) (
                            Ends-if l _ _ _ (Ends-number64_into v.set_float e.set_float) (
                              Ends-if l _ _ _ (Ends-null_into v.set_zero e.set_zero)
                                (Ends-pure l v.unchanged))))))))))))))

  pub Ends-plain_object : (v : A) → Ends l (plain_object v)
  unfolding plain_object
  Ends-plain_object v = Ends-bind l _ _ (Ends-header_alone l) λ n.
      Ends-if l _ _ _ (Ends-pure l v)
        (Ends-bind l key _ (Ends-key l) λ k. Ends-lift l (not_settable {A = A}) tt)

  pub Ends-plain_array : Ends {A = A} l plain_array
  unfolding plain_array
  Ends-plain_array = Ends-bind l _ _ (Ends-header_alone l) λ n. Ends-lift l (wrong_value {A = A}) tt

pub Ends-skip_items : (l n : ℕ) → Ends l (skip_items n)
unfolding skip_items
Ends-skip_items l zero = Ends-pure l tt
Ends-skip_items l (suc n) = Ends-bind l next _ (Ends-next l) λ bs. Ends-skip_items l n

module _ {A : Type 0} (l : ℕ) where
  pub Ends-members_into :
      (store : Bytes → A → Decoder A) (n : ℕ) (a : A)
      → ((k : Bytes) (a : A) → Ends l (store k a))
      → Ends l (members_into store n a)
  unfolding members_into
  Ends-members_into store zero a h = Ends-pure l a
  Ends-members_into store (suc n) a h =
      Ends-bind l key _ (Ends-key l)
        λ k. Ends-bind l (store k a) _ (h k a) λ b. Ends-members_into store n b h

  module _ (store : A → Decoder A) (h : (v : A) → Ends l (store v)) where
    Ends-each_into : (vs : List A) → Ends l (each_into store vs)
    unfolding each_into
    Ends-each_into [] = Ends-pure l _
    Ends-each_into (v ∷ vs) =
        Ends-bind l (store v) _ (h v)
          λ w. Ends-bind l (each_into store vs) _ (Ends-each_into vs) λ ws. Ends-pure l _

    Ends-fill_into : (z : A) (n : ℕ) (vs : List A) → Ends l (fill_into store z n vs)
    unfolding fill_into
    Ends-fill_into z zero vs = Ends-pure l _
    Ends-fill_into z (suc n) [] =
        Ends-bind l (skip_items (suc n)) _ (Ends-skip_items l (suc n)) λ _. Ends-pure l _
    Ends-fill_into z (suc n) (v ∷ vs) =
        Ends-bind l (store v) _ (h v)
          λ w. Ends-bind l (fill_into store z n vs) _ (Ends-fill_into z n vs) λ ws. Ends-pure l _

    pub Ends-slice_into : (z : A) (v : Option (Elems A)) → Ends l (slice_into store z v)
    unfolding slice_into
    Ends-slice_into z v = Ends-bind l _ _ (Ends-header_alone l) λ n.
        Ends-bind l (each_into store (set_len z n v).0) _ (Ends-each_into (set_len z n v).0)
          λ ws. Ends-if l _ _ _ (Ends-pure l _) (Ends-pure l _)

    pub Ends-array_into : (z : A) (vs : List A) → Ends l (array_into store z vs)
    unfolding array_into
    Ends-array_into z vs = Ends-bind l _ _ (Ends-header_alone l) λ n. Ends-fill_into z n vs

module _ {A : Type 0} (l : ℕ) where
  pub Ends-map_into :
      (value : Decoder A) (v : Option (List (Bytes × A))) → Ends l value → Ends l (map_into value v)
  unfolding map_into store_entry
  Ends-map_into value v h = Ends-bind l _ _ (Ends-header_alone l) λ n.
      Ends-bind l (members_into (store_entry value) n (entries v)) _
        (Ends-members_into l (store_entry value) n (entries v)
          (λ k m. Ends-bind l value _ h λ w. Ends-pure l (entry_set k w m)))
        λ m. Ends-pure l _

  pub Ends-map_array : (v : Option (List (Bytes × A))) → Ends l (map_array v)
  unfolding map_array
  Ends-map_array v = Ends-bind l _ _ (Ends-header_alone l) λ n.
      Ends-if l _ _ _ (Ends-bind l (skip_items n) _ (Ends-skip_items l n) λ _. Ends-pure l v) (
        Ends-if l _ _ _ (Ends-pure l v)
          (Ends-lift l (wrong_value {A = Option (List (Bytes × A))}) tt))
