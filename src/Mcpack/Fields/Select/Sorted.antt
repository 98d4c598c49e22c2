-- ===== src/Mcpack/Fields/Select/Sorted.antt =====
-- Lists of fields: what sorting by name keeps and gives.
use gomcpack.Prelude.{
  ◌≡◌, sym, Bool, true, false, List, [], ◌∷◌, bytes_eq, bytes_eq→eq, bytes_eq_refl, Bool-cases, inl,
  inr, subst,
}
use gomcpack.Go.Slice.{Bytes}
use gomcpack.Mcpack.Fields.{Field}
use gomcpack.Mcpack.Fields.Order.{list_less, by_name_less}
use gomcpack.Mcpack.Fields.Order.Laws.{list_less-IsStrictTotal, by_names, by_name_less-cases}
use gomcpack.Mcpack.Fields.Select.{insert_sorted, sort}

-- What holds of each of the fields.
abbrev pub Each : (Field → Type 0) → List Field → Type 0
Each P [] = Unit
Each P (f ∷ fs) = P f × Each P fs

-- No field has the name.
abbrev pub IsFresh : Bytes → List Field → Type 0
IsFresh k fs = Each (λ f. bytes_eq f.name k ≡ false) fs

abbrev pub AreDistinct : List Field → Type 0
AreDistinct [] = Unit
AreDistinct (f ∷ fs) = IsFresh f.name fs × AreDistinct fs

-- No field comes before the name.
abbrev pub AreAfter : Bytes → List Field → Type 0
AreAfter k fs = Each (λ f. list_less f.name k ≡ false) fs

abbrev pub AreSorted : List Field → Type 0
AreSorted [] = Unit
AreSorted (f ∷ fs) = AreAfter f.name fs × AreSorted fs

module _ (P Q : Field → Type 0) (pq : (f : Field) → P f → Q f) where
  pub Each-map : (fs : List Field) → Each P fs → Each Q fs
  Each-map [] h = tt
  Each-map (f ∷ fs) (p, h) = (pq f p, Each-map fs h)

unlike_sym : (x y : Bytes) → bytes_eq x y ≡ false → bytes_eq y x ≡ false
unlike_sym x y h = elim (Bool-cases (bytes_eq y x)) [
  | inr e ↦ e
  | inl e ↦
      let yes : bytes_eq x y ≡ true =
        subst (λ (t : Bytes). bytes_eq x t ≡ true) (sym (bytes_eq→eq y x e)) (bytes_eq_refl x) in
      absurd (cc)
]

after_trans :
    (x y z : Bytes) → list_less y x ≡ false → list_less z y ≡ false → list_less z x ≡ false
after_trans x y z p q = elim (Bool-cases (list_less x y)) [
  | inr e ↦
      subst (λ (t : Bytes). list_less z t ≡ false) (sym (list_less-IsStrictTotal.total x y e p)) q
  | inl e ↦ elim (Bool-cases (list_less z x)) [
    | inr f ↦ f
    | inl f ↦ let yes = list_less-IsStrictTotal.transitive z x y f e in absurd (cc)
  ]
]

after_less : (g f : Field) → by_name_less g f ≡ true → list_less f.name g.name ≡ false
after_less g f h = elim (by_name_less-cases g f h) [
  | inr (same, _) ↦
      subst (λ (t : Bytes). list_less t g.name ≡ false) same
        (list_less-IsStrictTotal.irreflexive g.name)
  | inl below ↦ elim (Bool-cases (list_less f.name g.name)) [
    | inr e ↦ e
    | inl e ↦
        let yes = list_less-IsStrictTotal.transitive g.name f.name g.name below e in
        let no = list_less-IsStrictTotal.irreflexive g.name in absurd (cc)
  ]
]

after_other : (g f : Field) → by_name_less g f ≡ false → list_less g.name f.name ≡ false
after_other g f h = elim (Bool-cases (list_less g.name f.name)) [
  | inr e ↦ e
  | inl e ↦ let yes = by_names g f e in absurd (cc)
]

module _ (less : Field → Field → Bool) where
  Each-insert_sorted :
      (P : Field → Type 0) (f : Field) (fs : List Field)
      → P f
      → Each P fs
      → Each P (insert_sorted less f fs)
  unfolding insert_sorted
  Each-insert_sorted P f [] p h = (p, tt)
  Each-insert_sorted P f (g ∷ fs) p (q, h) = elim (Bool-cases (less g f)) [
    | inl e ↦ rw e (q, Each-insert_sorted P f fs p h)
    | inr e ↦ rw e (p, (q, h))
  ]

  pub Each-sort : (P : Field → Type 0) (fs : List Field) → Each P fs → Each P (sort less fs)
  unfolding sort
  Each-sort P [] h = tt
  Each-sort P (f ∷ fs) (p, h) = Each-insert_sorted P f (sort less fs) p (Each-sort P fs h)

  insert_sorted-AreDistinct :
      (f : Field) (fs : List Field)
      → IsFresh f.name fs
      → AreDistinct fs
      → AreDistinct (insert_sorted less f fs)
  unfolding insert_sorted
  insert_sorted-AreDistinct f [] n h = (tt, tt)
  insert_sorted-AreDistinct f (g ∷ fs) (e, n) (m, h) = elim (Bool-cases (less g f)) [
    | inl b ↦ rw b (
      Each-insert_sorted (λ x. bytes_eq x.name g.name ≡ false) f fs (unlike_sym g.name f.name e) m,
      insert_sorted-AreDistinct f fs n h,
    )
    | inr b ↦ rw b ((e, n), (m, h))
  ]

  pub sort-AreDistinct : (fs : List Field) → AreDistinct fs → AreDistinct (sort less fs)
  unfolding sort
  sort-AreDistinct [] h = tt
  sort-AreDistinct (f ∷ fs) (n, h) =
      insert_sorted-AreDistinct f (sort less fs)
        (Each-sort (λ x. bytes_eq x.name f.name ≡ false) fs n) (sort-AreDistinct fs h)

insert_sorted-AreSorted :
    (f : Field) (fs : List Field) → AreSorted fs → AreSorted (insert_sorted by_name_less f fs)
unfolding insert_sorted
insert_sorted-AreSorted f [] h = (tt, tt)
insert_sorted-AreSorted f (g ∷ fs) (a, h) = elim (Bool-cases (by_name_less g f)) [
  | inl e ↦ rw e (
    Each-insert_sorted by_name_less (λ x. list_less x.name g.name ≡ false) f fs (after_less g f e)
        a,
    insert_sorted-AreSorted f fs h,
  )
  | inr e ↦
      let first = after_other g f e in
      rw e ((first, Each-map _ _ (λ x p. after_trans f.name g.name x.name first p) fs a), (a, h))
]

pub sort-AreSorted : (fs : List Field) → AreSorted (sort by_name_less fs)
unfolding sort
sort-AreSorted [] = tt
sort-AreSorted (f ∷ fs) = insert_sorted-AreSorted f (sort by_name_less fs) (sort-AreSorted fs)
