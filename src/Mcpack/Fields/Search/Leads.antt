-- ===== src/Mcpack/Fields/Search/Leads.antt =====
-- The index paths that `typeFields` gives to fields lead to them.
use gomcpack.Prelude.{
  ℕ, zero, suc, ◌+◌, ◌≡◌, refl, ap, ◌∙◌, Bool, false, Option, none, some, List, [], ◌∷◌, ◌++◌,
  length, ltb, ◌==◌, bytes_eq, arith, Bool-cases, inl, inr, subst,
}
use gomcpack.Go.{Go, done, panic, out_of_fuel, ◌>>=◌}
use gomcpack.Go.Slice.{Bytes}
use gomcpack.Mcpack.Fields.{Field}
use gomcpack.Mcpack.Fields.Select.{shown_fields}
use gomcpack.Mcpack.Fields.Select.Sorted.{Each, AreDistinct}
use gomcpack.Mcpack.Fields.Select.Distinct.{shown_fields-AreDistinct}
use gomcpack.Mcpack.Fields.Search.{
  FieldType, struct_type, StructField, Embedded, Search, fields_of, struct_of, type_of_field,
  field_of_type, type_by_index, embedded_type, new_field, append_field, embed, take_field, mark,
  tag_name, one_field, each_field, one_struct, one_level, levels, type_fields,
}
use gomcpack.Mcpack.Fields.Search.Ends.{type_fields_end}

Each-append : (P : Field → Type 0) (fs gs : List Field) → Each P fs → Each P gs → Each P (fs ++ gs)
Each-append P [] gs h k = k
Each-append P (f ∷ fs) gs (p, h) k = (p, Each-append P fs gs h k)

done_same : {A : Type 0} (a b : A) → done a ≡ done b → a ≡ b
done_same a b h = cc

embedded_type-struct_of :
    (name : Bytes) (sf : StructField) (t : ℕ)
    → embedded_type name sf ≡ some t
    → struct_of sf.typ ≡ some t
unfolding embedded_type
embedded_type-struct_of name sf t h = elim (Bool-cases (length name == 0)) [
  | inr e ↦ absurd (none_some (rw e at h))
  | inl e ↦ elim (Bool-cases sf.anonymous) [
    | inr d ↦ absurd (none_some (rw (e, d) at h))
    | inl d ↦ rw (e, d) at h
  ]
]
  where
    none_some : none ≡ some t → ⊥
    none_some k = cc

module _ (structs : List (List StructField)) where
  path_append :
      (xs : List ℕ) (i : ℕ) (u v w : FieldType)
      → type_by_index structs u xs ≡ done v
      → field_of_type structs (struct_of v) i ≡ done w
      → type_by_index structs u (xs ++ i ∷ []) ≡ done w
  unfolding type_by_index
  path_append [] i u v w h k =
      ap (λ m. m >>= λ x. done x)
        (ap (λ (x : FieldType). field_of_type structs (struct_of x) i) (done_same u v h) ∙ k)
  path_append (x ∷ xs) i u v w h k =
      first (λ y p. path_append xs i y v w p k) (field_of_type structs (struct_of u) x) h
    where
      first :
          ((y : FieldType)
            → type_by_index structs y xs ≡ done v
            → type_by_index structs y (xs ++ i ∷ []) ≡ done w)
          → (m : Go FieldType) → (m >>= λ y. type_by_index structs y xs) ≡ done v
          → (m >>= λ y. type_by_index structs y (xs ++ i ∷ [])) ≡ done w
      first rest (done y) p = rest y p
      first rest (panic e) p = absurd (cc)
      first rest out_of_fuel p = absurd (cc)

  module _ (start : ℕ) where
    -- The path of the field leads to a field.
    abbrev pub Leads : Field → Type 0
    Leads f = (u : FieldType) × (type_by_index structs (struct_type start) f.index ≡ done u)

    -- The path of a struct that waits leads to it, or to a pointer to it.
    abbrev LeadsTo : Embedded → Type 0
    LeadsTo e =
        (u : FieldType) × (type_by_index structs (struct_type start) e.index ≡ done u)
        × (struct_of u ≡ some e.typ)

    abbrev Wait : List Embedded → Type 0
    Wait [] = Unit
    Wait (e ∷ es) = LeadsTo e × Wait es

    Wait-append : (es ds : List Embedded) → Wait es → Wait ds → Wait (es ++ ds)
    Wait-append [] ds h k = k
    Wait-append (e ∷ es) ds (p, h) k = (p, Wait-append es ds h k)

    abbrev IsSound : Search → Type 0
    IsSound s = Each Leads s.fields × Wait s.next

    take_field-IsSound :
        (count : ℕ) (g : Field) (o : Option ℕ) (s : Search)
        → Leads g
        → ((t : ℕ) → o ≡ some t → LeadsTo (record { index = g.index; typ = t }))
        → IsSound s
        → IsSound (take_field count g o s)
    unfolding take_field append_field embed
    take_field-IsSound count g none s p q (fs, es) = elim (Bool-cases (ltb 1 count)) [
      | inl e ↦ rw e (Each-append Leads s.fields (g ∷ g ∷ []) fs (p, (p, tt)), es)
      | inr e ↦ rw e (Each-append Leads s.fields (g ∷ []) fs (p, tt), es)
    ]
    take_field-IsSound count g (some t) s p q (fs, es) =
        elim (Bool-cases (suc (s.next_count t) == 1)) [
          | inl e ↦ rw e (fs, Wait-append s.next _ es (q t refl, tt))
          | inr e ↦ rw e (fs, es)
        ]

    module _ (is_letter is_digit : ℕ → Bool) where
      one_field-IsSound :
          (count : ℕ → ℕ) (f : Embedded) (i : ℕ) (sf : StructField) (s : Search)
          → LeadsTo f
          → type_of_field (fields_of structs f.typ) i ≡ done sf.typ
          → IsSound s
          → IsSound (one_field is_letter is_digit count f i sf s)
      unfolding one_field new_field
      one_field-IsSound count f i sf s (u, leads, struct) at_i sound =
          elim (Bool-cases (length sf.pkg_path == 0)) [
            | inr e ↦ rw e sound
            | inl e ↦ elim (Bool-cases (bytes_eq sf.tag (b'-' ∷ []))) [
              | inl d ↦ rw (e, d) sound
              | inr d ↦
                  let path : type_by_index structs (struct_type start) (f.index ++ i ∷ [])
                      ≡ done sf.typ =
                    path_append f.index i (struct_type start) u sf.typ leads
                      (ap (λ (o : Option ℕ). field_of_type structs o i) struct ∙ at_i) in
                  let name : Bytes = tag_name is_letter is_digit sf.tag in
                  rw (e, d)
                    (take_field-IsSound (count f.typ) (new_field name sf (f.index ++ i ∷ []))
                      (embedded_type name sf) s (sf.typ, path)
                      (λ t k. (sf.typ, path, embedded_type-struct_of name sf t k)) sound)
            ]
          ]

      each_field-IsSound :
          (count : ℕ → ℕ) (f : Embedded) (i : ℕ) (sfs : List StructField) (s : Search)
          → LeadsTo f
          → ((j : ℕ) → type_of_field (fields_of structs f.typ) (i + j) ≡ type_of_field sfs j)
          → IsSound s
          → IsSound (each_field is_letter is_digit count f i sfs s)
      unfolding each_field
      each_field-IsSound count f i [] s leads same sound = sound
      each_field-IsSound count f i (sf ∷ sfs) s leads same sound =
          each_field-IsSound count f (suc i) sfs _ leads
            (λ j.
              ap (type_of_field (fields_of structs f.typ)) {x = suc i + j} {y = i + suc j}
                (omega arith)
              ∙ same (suc j))
            (one_field-IsSound count f i sf s leads
              (ap (type_of_field (fields_of structs f.typ)) {x = i} {y = i + 0} (omega arith)
                ∙ same 0)
              sound)

      one_level-IsSound :
          (count : ℕ → ℕ) (current : List Embedded) (s : Search)
          → Wait current
          → IsSound s
          → IsSound (one_level is_letter is_digit structs count current s)
      unfolding one_level one_struct
      one_level-IsSound count [] s w sound = sound
      one_level-IsSound count (f ∷ current) s (leads, w) sound =
          one_level-IsSound count current _ w (elim (Bool-cases (s.visited f.typ)) [
            | inl e ↦ rw e sound
            | inr e ↦ rw e (
                each_field-IsSound count f 0 (fields_of structs f.typ)
                  (record s { visited = mark f.typ s.visited }) leads
                  (λ j.
                    ap (type_of_field (fields_of structs f.typ)) {x = 0 + j} {y = j} (omega arith))
                  sound)
          ])

      levels-Each :
          (fuel : ℕ) (next : List Embedded) (count : ℕ → ℕ) (v : ℕ → Bool) (fields out : List Field)
          → Wait next
          → Each Leads fields
          → levels is_letter is_digit structs fuel next count v fields ≡ done out
          → Each Leads out
      unfolding levels
      levels-Each fuel [] count v fields out w p h =
          subst (λ (l : List Field). Each Leads l) (done_same fields out h) p
      levels-Each zero (f ∷ fs) count v fields out w p h = absurd (cc)
      levels-Each (suc fuel) (f ∷ fs) count v fields out w p h =
          let begin : Search = record {
            visited = v;
            next_count = λ t. 0;
            next = [];
            fields = fields;
          } in
          let (ps, ws) = one_level-IsSound count (f ∷ fs) begin w (p, tt) in
          levels-Each fuel _ _ _ _ out ws ps h

      -- `typeFields` returns on every struct type, also on one that embeds itself, whatever the library
      -- takes for letters and digits. Of the fields that it returns no two have the same name, and
      -- `typeByIndex` returns without a panic on the index path of each.
      pub type_fields-AreDistinct :
          (out : List Field) × (type_fields is_letter is_digit structs start ≡ done out)
          × AreDistinct out
          × Each Leads out
      unfolding type_fields type_by_index
      type_fields-AreDistinct =
          let (found, ends) = type_fields_end is_letter is_digit structs start in
          let lead =
            levels-Each (suc (length structs)) (record { index = []; typ = start } ∷ []) (λ u. 0)
              (λ u. false) [] found ((struct_type start, refl, refl), tt) tt ends in
          let (out, shows, distinct, each) = shown_fields-AreDistinct Leads found lead in
          (out, ap (λ m. m >>= λ fields. shown_fields fields) ends ∙ shows, distinct, each)
