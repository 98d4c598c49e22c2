-- ===== src/Mcpack/Fields/Order/Laws.antt =====
-- `byName` and `byIndex` are strict total orders, as `sort.Sort` wants them.
use gomcpack.Prelude.{
  ℕ, ◌≡◌, refl, sym, ◌∙◌, Bool, true, false, not, List, [], ◌∷◌, length, ltb, ◌==◌, bytes_eq,
  bytes_eq→eq, bytes_eq_refl, if◌then◌else◌, arith, Bool-cases, ◌⊎◌, inl, inr, subst,
}
use gomcpack.Mcpack.Fields.{Field}
use gomcpack.Mcpack.Fields.Order.{differ, list_less, by_name_less}

list_less_irrefl : (xs : List ℕ) → list_less xs xs ≡ false
unfolding list_less
list_less_irrefl [] = ground arith
list_less_irrefl (x ∷ xs) = ground (arith, list_less_irrefl xs)

list_less_trans :
    (xs ys zs : List ℕ) → list_less xs ys ≡ true → list_less ys zs ≡ true → list_less xs zs ≡ true
unfolding list_less
list_less_trans [] [] zs h k = k
list_less_trans [] (y ∷ ys) [] h k = cc
list_less_trans [] (y ∷ ys) (z ∷ zs) h k = ground arith
list_less_trans (x ∷ xs) [] zs h k = cc
list_less_trans (x ∷ xs) (y ∷ ys) [] h k = cc
list_less_trans (x ∷ xs) (y ∷ ys) (z ∷ zs) h k = ground (arith, h, k, list_less_trans xs ys zs)

list_less_total : (xs ys : List ℕ) → list_less xs ys ≡ false → list_less ys xs ≡ false → xs ≡ ys
unfolding list_less
list_less_total [] [] h k = refl
list_less_total [] (y ∷ ys) h k = absurd (ground arith)
list_less_total (x ∷ xs) [] h k = absurd (ground arith)
list_less_total (x ∷ xs) (y ∷ ys) h k = ground (arith, list_less_total xs ys)

-- The order of fields of one name.
abbrev within : ℕ → ℕ → Bool → Bool → Bool → Bool
within m n s t i = if not (m == n) then ltb m n else if differ s t then s else i

pub same_name : Field → Field → Bool
same_name f g = within (length f.index) (length g.index) f.tag g.tag (list_less f.index g.index)

pub by_names : (f g : Field) → list_less f.name g.name ≡ true → by_name_less f g ≡ true
unfolding by_name_less
by_names f g h = elim (Bool-cases (bytes_eq f.name g.name)) [
  | inl e ↦ absurd (
      clash
        (subst (λ (n : List ℕ). list_less f.name n ≡ true) (sym (bytes_eq→eq f.name g.name e)) h))
  | inr e ↦ rw e h
]
  where
    clash : list_less f.name f.name ≡ true → ⊥
    clash k = let no = list_less_irrefl f.name in cc

by_same_name : (f g : Field) → f.name ≡ g.name → by_name_less f g ≡ same_name f g
unfolding by_name_less same_name
by_same_name f g e =
    let same : bytes_eq f.name g.name ≡ true =
      subst (λ (n : List ℕ). bytes_eq f.name n ≡ true) e (bytes_eq_refl f.name) in
    rw same refl

pub by_name_less-cases :
    (f g : Field)
    → by_name_less f g ≡ true
    → (list_less f.name g.name ≡ true) ⊎ ((f.name ≡ g.name) × (same_name f g ≡ true))
unfolding by_name_less same_name
by_name_less-cases f g h = elim (Bool-cases (bytes_eq f.name g.name)) [
  | inl e ↦ inr (bytes_eq→eq f.name g.name e, (rw e at h))
  | inr e ↦ inl (rw e at h)
]

within_trans :
    (m n k : ℕ) (s t u a b c : Bool)
    → (a ≡ true → b ≡ true → c ≡ true)
    → within m n s t a ≡ true
    → within n k t u b ≡ true
    → within m k s u c ≡ true
within_trans m n k true true true a b c h p q = ground arith
within_trans m n k true true false a b c h p q = ground arith
within_trans m n k true false true a b c h p q = ground arith
within_trans m n k true false false a b c h p q = ground arith
within_trans m n k false true true a b c h p q = ground arith
within_trans m n k false true false a b c h p q = ground arith
within_trans m n k false false true a b c h p q = ground arith
within_trans m n k false false false a b c h p q = ground arith

same_name_trans :
    (f g h : Field) → same_name f g ≡ true → same_name g h ≡ true → same_name f h ≡ true
unfolding same_name
same_name_trans f g h =
    within_trans (length f.index) (length g.index) (length h.index) f.tag g.tag h.tag _ _ _
      (list_less_trans f.index g.index h.index)

by_name_less_trans :
    (f g h : Field) → by_name_less f g ≡ true → by_name_less g h ≡ true → by_name_less f h ≡ true
by_name_less_trans f g h p q = elim (by_name_less-cases f g p) [
  | inl fg ↦ elim (by_name_less-cases g h q) [
    | inl gh ↦ by_names f h (list_less_trans f.name g.name h.name fg gh)
    | inr (gh, _) ↦ by_names f h (subst (λ (n : List ℕ). list_less f.name n ≡ true) gh fg)
  ]
  | inr (fg, below) ↦ elim (by_name_less-cases g h q) [
    | inl gh ↦ by_names f h (subst (λ (n : List ℕ). list_less n h.name ≡ true) (sym fg) gh)
    | inr (gh, above) ↦ by_same_name f h (fg ∙ gh) ∙ same_name_trans f g h below above
  ]
]

within_total :
    (m n : ℕ) (s t a b : Bool)
    → within m n s t a ≡ false
    → within n m t s b ≡ false
    → (m ≡ n) × (s ≡ t) × (a ≡ false) × (b ≡ false)
within_total m n true true a b p q = (ground arith, refl, ground arith, ground arith)
within_total m n true false a b p q = absurd (ground arith)
within_total m n false true a b p q = absurd (ground arith)
within_total m n false false a b p q = (ground arith, refl, ground arith, ground arith)

same_fields : (f g : Field) → f.name ≡ g.name → f.tag ≡ g.tag → f.index ≡ g.index → f ≡ g
same_fields f g e1 e2 e3 = rw (e1, e2, e3) refl

-- Two fields of which none comes first are the same.
by_name_less_total : (f g : Field) → by_name_less f g ≡ false → by_name_less g f ≡ false → f ≡ g
unfolding same_name
by_name_less_total f g p q =
    let names : f.name ≡ g.name = list_less_total f.name g.name (unless f g p) (unless g f q) in
    let (_, tags, i, j) =
      within_total (length f.index) (length g.index) f.tag g.tag (list_less f.index g.index)
        (list_less g.index f.index) (sym (by_same_name f g names) ∙ p)
        (sym (by_same_name g f (sym names)) ∙ q) in
    same_fields f g names tags (list_less_total f.index g.index i j)
  where
    unless : (f g : Field) → by_name_less f g ≡ false → list_less f.name g.name ≡ false
    unless f g h = elim (Bool-cases (list_less f.name g.name)) [
      | inl e ↦ let yes = by_names f g e in absurd (cc)
      | inr e ↦ e
    ]

by_name_less_irrefl : (f : Field) → by_name_less f f ≡ false
unfolding same_name
by_name_less_irrefl f = by_same_name f f refl ∙ ground (arith, list_less_irrefl f.index)

-- A strict total order, by its Boolean test.
pub record IsStrictTotal {A : Type 0} (less : A → A → Bool) : Type 0 where
  pub irreflexive : (a : A) → less a a ≡ false
  pub transitive : (a b c : A) → less a b ≡ true → less b c ≡ true → less a c ≡ true
  pub total : (a b : A) → less a b ≡ false → less b a ≡ false → a ≡ b

pub list_less-IsStrictTotal : IsStrictTotal list_less
list_less-IsStrictTotal = record {
  irreflexive = list_less_irrefl;
  transitive = list_less_trans;
  total = list_less_total;
}

-- `byName` is a strict total order of fields: it is irreflexive and transitive, and two fields of which
-- none comes before the other have the same name, tag and index path.
pub by_name_less-IsStrictTotal : IsStrictTotal by_name_less
by_name_less-IsStrictTotal = record {
  irreflexive = by_name_less_irrefl;
  transitive = by_name_less_trans;
  total = by_name_less_total;
}
