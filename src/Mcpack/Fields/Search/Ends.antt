-- ===== src/Mcpack/Fields/Search/Ends.antt =====
-- The search of `typeFields` ends, also in structs that embed themselves.
use gomcpack.Prelude.{
  ℕ, zero, suc, ◌+◌, ◌≤◌, ◌<◌, ◌≡◌, refl, ap, sym, ◌∙◌, ◌⊎◌, Bool, false, Option, none, some, List,
  [], ◌∷◌, length, ltb, ltb→lt, ltb→le, ◌==◌, bytes_eq, if◌then◌else◌, arith, Bool-cases, inl, inr,
  subst,
}
use gomcpack.Go.{done}
use gomcpack.Mcpack.Fields.{Field}
use gomcpack.Mcpack.Fields.Search.{
  StructField, Embedded, Search, fields_of, embedded_type, append_field, embed, take_field, mark,
  tag_name, one_field, each_field, one_struct, one_level, levels,
}

-- How many structs of the table no level had.
abbrev unvisited : (ℕ → Bool) → ℕ → ℕ
unvisited v zero = 0
unvisited v (suc n) = (if v n then 0 else 1) + unvisited v n

unvisited-mark : (t : ℕ) (v : ℕ → Bool) (n : ℕ) → unvisited (mark t v) n ≤ unvisited v n
unvisited-mark t v zero = omega arith
unvisited-mark t v (suc n) = ground (arith, unvisited-mark t v n)

fewer :
    (t : ℕ) (v : ℕ → Bool) (n : ℕ) → t < n → v t ≡ false → unvisited (mark t v) n < unvisited v n
fewer t v zero lt h = absurd (omega arith)
fewer t v (suc n) lt h = elim (Bool-cases (n == t)) [
  | inl e ↦
      let same : n ≡ t = ground arith in
      let new : v n ≡ false = ap v same ∙ h in
      let le = unvisited-mark t v n in rw (e, new) (omega arith)
  | inr e ↦ let less = fewer t v n (ground arith) h in rw e (omega arith)
]

fields_of-beyond :
    (structs : List (List StructField)) (t : ℕ) → length structs ≤ t → fields_of structs t ≡ []
fields_of-beyond [] t le = refl
fields_of-beyond (fs ∷ structs) zero le = absurd (omega arith)
fields_of-beyond (fs ∷ structs) (suc t) le = fields_of-beyond structs t (omega arith)

take_field-visited :
    (count : ℕ) (g : Field) (o : Option ℕ) (s : Search)
    → (take_field count g o s).visited ≡ s.visited
unfolding take_field append_field embed
take_field-visited count g none s = refl
take_field-visited count g (some t) s = refl

module _ (is_letter is_digit : ℕ → Bool) where
  one_field-visited :
      (count : ℕ → ℕ) (f : Embedded) (i : ℕ) (sf : StructField) (s : Search)
      → (one_field is_letter is_digit count f i sf s).visited ≡ s.visited
  unfolding one_field
  one_field-visited count f i sf s = elim (Bool-cases (length sf.pkg_path == 0)) [
    | inr e ↦ rw e refl
    | inl e ↦ elim (Bool-cases (bytes_eq sf.tag (b'-' ∷ []))) [
      | inl d ↦ rw (e, d) refl
      | inr d ↦
          rw (e, d)
            (take_field-visited (count f.typ) _
              (embedded_type (tag_name is_letter is_digit sf.tag) sf) s)
    ]
  ]

  each_field-visited :
      (count : ℕ → ℕ) (f : Embedded) (i : ℕ) (sfs : List StructField) (s : Search)
      → (each_field is_letter is_digit count f i sfs s).visited ≡ s.visited
  unfolding each_field
  each_field-visited count f i [] s = refl
  each_field-visited count f i (sf ∷ sfs) s =
      each_field-visited count f (suc i) sfs (one_field is_letter is_digit count f i sf s)
      ∙ one_field-visited count f i sf s

  module _ (structs : List (List StructField)) where
    left : Search → ℕ
    left s = unvisited s.visited (length structs)

    -- From `m` structs that no level had, a level has had one, or has none for the next.
    Moves : ℕ → Search → Type 0
    Moves m s = ((s.next ≡ []) × (left s ≤ m)) ⊎ (left s < m)

    each_field-Moves :
        (m : ℕ) (count : ℕ → ℕ) (f : Embedded) (s : Search)
        → s.visited f.typ ≡ false
        → Moves m s
        → Moves m (
            each_field is_letter is_digit count f 0
              (fields_of structs f.typ)
              (record s { visited = mark f.typ s.visited }))
    unfolding each_field Moves left
    each_field-Moves m count f s h p = elim (Bool-cases (ltb f.typ (length structs))) [
      | inl e ↦
          let less = fewer f.typ s.visited (length structs) (ltb→lt _ _ e) h in
          let same =
            each_field-visited count f 0 (fields_of structs f.typ)
              (record s { visited = mark f.typ s.visited }) in
          let le : unvisited s.visited (length structs) ≤ m = elim p [
            | inl (_, q) ↦ q
            | inr q ↦ omega arith
          ] in
          inr (subst (λ (v : ℕ → Bool). unvisited v (length structs) < m) (sym same) (omega arith))
      | inr e ↦
          let le = unvisited-mark f.typ s.visited (length structs) in
          rw (fields_of-beyond structs f.typ (ltb→le _ _ e))
            (elim p [ inl (n, q) ↦ inl (n, (omega arith)) | inr q ↦ inr (omega arith) ])
    ]

    one_level-Moves :
        (m : ℕ) (count : ℕ → ℕ) (current : List Embedded) (s : Search)
        → Moves m s
        → Moves m (one_level is_letter is_digit structs count current s)
    unfolding one_level one_struct
    one_level-Moves m count [] s p = p
    one_level-Moves m count (f ∷ current) s p =
        one_level-Moves m count current _ (elim (Bool-cases (s.visited f.typ)) [
          | inl e ↦ rw e p
          | inr e ↦ rw e (each_field-Moves m count f s e p)
        ])

    levels_end :
        (fuel : ℕ) (next : List Embedded) (count : ℕ → ℕ) (v : ℕ → Bool) (fields : List Field)
        → ((next ≡ []) ⊎ (unvisited v (length structs) < fuel))
        → (out : List Field) × (levels is_letter is_digit structs fuel next count v fields
            ≡ done out)
    unfolding levels Moves left
    levels_end fuel [] count v fields h = (fields, refl)
    levels_end zero (f ∷ fs) count v fields h = absurd (elim h [ inl e ↦ cc | inr e ↦ omega arith ])
    levels_end (suc fuel) (f ∷ fs) count v fields h =
        let start : Search = record {
          visited = v;
          next_count = λ t. 0;
          next = [];
          fields = fields;
        } in
        let s : Search = one_level is_letter is_digit structs count (f ∷ fs) start in
        let le : unvisited v (length structs) ≤ fuel = elim h [
          | inl e ↦ absurd (cc)
          | inr e ↦ omega arith
        ] in
        let moves =
          one_level-Moves (unvisited v (length structs)) count (f ∷ fs) start
            (inl (refl, (omega arith))) in
        levels_end fuel s.next s.next_count s.visited s.fields
          (elim moves [ inl (e, _) ↦ inl e | inr e ↦ inr (omega arith) ])

    -- The search from one struct.
    pub type_fields_end :
        (t : ℕ)
        → (out : List Field) × (levels is_letter is_digit structs
              (suc (length structs))
              (record { index = []; typ = t } ∷ [])
              (λ u. 0)
              (λ u. false)
              []
            ≡ done out)
    type_fields_end t =
        levels_end (suc (length structs)) (record { index = []; typ = t } ∷ []) (λ u. 0)
          (λ u. false) [] (inr (all_left (length structs)))
      where
        all_left : (n : ℕ) → unvisited (λ u. false) n < suc n
        all_left zero = omega arith
        all_left (suc n) = let le = all_left n in omega arith
