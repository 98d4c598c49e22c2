-- ===== src/Mcpack/Fields/Select/Distinct.antt =====
-- The fields that a struct shows have different names.
use gomcpack.Prelude.{
  ℕ, zero, suc, ◌≤◌, ◌≡◌, refl, ap, sym, ◌∙◌, Bool, true, false, Option, none, some, List, [], ◌∷◌,
  length, ltb, bytes_eq, bytes_eq→eq, bytes_eq_refl, if◌then◌else◌, arith, Bool-cases, inl, inr,
  subst,
}
use gomcpack.Go.{done, ◌>>=◌}
use gomcpack.Go.Slice.{Bytes}
use gomcpack.Mcpack.Fields.{Field}
use gomcpack.Mcpack.Fields.Dominant.{shallowest, tagged_of, only, rule, dominant_field-rule}
use gomcpack.Mcpack.Fields.Order.{list_less, by_name_less}
use gomcpack.Mcpack.Fields.Order.Laws.{list_less-IsStrictTotal}
use gomcpack.Mcpack.Fields.Select.{sort, run, kept, group, select_fields, shown_fields}
use gomcpack.Mcpack.Fields.Select.Sorted.{
  Each, IsFresh, AreDistinct, AreAfter, AreSorted, sort-AreSorted, Each-map, Each-sort,
  sort-AreDistinct,
}

-- A name after the first of the others is none of them.
behind :
    (name x y : Bytes)
    → bytes_eq x name ≡ false
    → list_less x name ≡ false
    → list_less y x ≡ false
    → bytes_eq y name ≡ false
behind name x y n a b = elim (Bool-cases (bytes_eq y name)) [
  | inr e ↦ e
  | inl e ↦
      let same : x ≡ name =
        list_less-IsStrictTotal.total x name a
          (subst (λ (t : Bytes). list_less t x ≡ false) (bytes_eq→eq y name e) b) in
      let yes : bytes_eq x name ≡ true =
        subst (λ (t : Bytes). bytes_eq x t ≡ true) same (bytes_eq_refl x) in
      absurd (cc)
]

-- What a loop over `advance` leaves in front and behind.
record IsRun (name : Bytes) (fs : List Field) (r : List Field × List Field) : Type 0 where
  alike : Each (λ f. f.name ≡ name) r.0
  others : IsFresh name r.1
  sorted : AreSorted r.1
  shorter : length r.1 ≤ length fs

run-IsRun :
    (name : Bytes) (fs : List Field) → AreAfter name fs → AreSorted fs → IsRun name fs (run name fs)
unfolding run
run-IsRun name [] a h = record { alike = tt; others = tt; sorted = tt; shorter = omega arith }
run-IsRun name (f ∷ fs) (p, a) (b, h) = elim (Bool-cases (bytes_eq f.name name)) [
  | inl e ↦
      let r = run-IsRun name fs a h in
      let le = r.shorter in
      rw e (record {
        alike = (bytes_eq→eq f.name name e, r.alike);
        others = r.others;
        sorted = r.sorted;
        shorter = omega arith;
      })
  | inr e ↦ rw e (record {
    alike = tt;
    others = (e, Each-map _ _ (λ x q. behind name f.name x.name e p q) fs b);
    sorted = (b, h);
    shorter = omega arith;
  })
]

module _ (P : Field → Type 0) where
  Each-run_front : (name : Bytes) (fs : List Field) → Each P fs → Each P (run name fs).0
  unfolding run
  Each-run_front name [] h = tt
  Each-run_front name (f ∷ fs) (p, h) = elim (Bool-cases (bytes_eq f.name name)) [
    | inl e ↦ rw e (p, Each-run_front name fs h)
    | inr e ↦ rw e tt
  ]

  Each-run : (name : Bytes) (fs : List Field) → Each P fs → Each P (run name fs).1
  unfolding run
  Each-run name [] h = tt
  Each-run name (f ∷ fs) (p, h) = elim (Bool-cases (bytes_eq f.name name)) [
    | inl e ↦ rw e (Each-run name fs h)
    | inr e ↦ rw e (p, h)
  ]

  Each-both :
      (Q : Field → Type 0) (fs : List Field) → Each P fs → Each Q fs → Each (λ x. P x × Q x) fs
  Each-both Q [] h k = tt
  Each-both Q (f ∷ fs) (p, h) (q, k) = ((p, q), Each-both Q fs h k)

-- The field chosen, if any.
abbrev Chosen : (Field → Type 0) → Option Field → Type 0
Chosen P none = Unit
Chosen P (some f) = P f

module _ (P : Field → Type 0) where
  Each-shallowest : (len : ℕ) (fs : List Field) → Each P fs → Each P (shallowest len fs)
  Each-shallowest len [] h = tt
  Each-shallowest len (f ∷ fs) (p, h) = elim (Bool-cases (ltb len (length f.index))) [
    | inl e ↦ rw e tt
    | inr e ↦ rw e (p, Each-shallowest len fs h)
  ]

  Each-tagged_of : (fs : List Field) → Each P fs → Each P (tagged_of fs)
  Each-tagged_of [] h = tt
  Each-tagged_of (f ∷ fs) (p, h) = by_tag f.tag (Each-tagged_of fs h)
    where
      by_tag :
          (t : Bool) → Each P (tagged_of fs) → Each P (if t then f ∷ tagged_of fs else tagged_of fs)
      by_tag true k = (p, k)
      by_tag false k = k

  Chosen-only : (fs : List Field) → Each P fs → Chosen P (only fs)
  Chosen-only [] h = tt
  Chosen-only (f ∷ []) (p, _) = p
  Chosen-only (f ∷ g ∷ fs) h = tt

  Chosen-rule : (fs gs : List Field) → Each P fs → Each P gs → Chosen P (rule fs gs)
  Chosen-rule fs [] h k = Chosen-only fs h
  Chosen-rule fs (g ∷ gs) h k = Chosen-only (g ∷ gs) k

  group_choice :
      (f : Field) (same : List Field)
      → P f
      → Each P same
      → (o : Option Field) × (group f same ≡ done o) × Chosen P o
  unfolding group
  group_choice f [] p h = (some f, refl, p)
  group_choice f (g ∷ same) p (q, h) =
      let kept = Each-shallowest (length f.index) (f ∷ g ∷ same) (p, (q, h)) in
      (_, dominant_field-rule f (g ∷ same), Chosen-rule _ _ kept (Each-tagged_of _ kept))

-- Adding the chosen field of a name that the others do not have.
Each-kept :
    (P : Field → Type 0) (o : Option Field) (out : List Field)
    → Chosen P o
    → Each P out
    → Each P (kept o out)
Each-kept P none out c h = h
Each-kept P (some f) out c h = (c, h)

kept-AreDistinct :
    (name : Bytes) (o : Option Field) (out : List Field)
    → Chosen (λ f. f.name ≡ name) o
    → IsFresh name out
    → AreDistinct out
    → AreDistinct (kept o out)
kept-AreDistinct name none out c n h = h
kept-AreDistinct name (some f) out c n h = (subst (λ (k : Bytes). IsFresh k out) (sym c) n, h)

Chosen-unlike :
    (name k : Bytes) (o : Option Field)
    → bytes_eq name k ≡ false
    → Chosen (λ f. f.name ≡ name) o
    → Chosen (λ f. bytes_eq f.name k ≡ false) o
Chosen-unlike name k none e c = tt
Chosen-unlike name k (some f) e c = subst (λ (t : Bytes). bytes_eq t k ≡ false) (sym c) e

Chosen-map :
    (P Q : Field → Type 0)
    → ((f : Field) → P f → Q f)
    → (o : Option Field) → Chosen P o
    → Chosen Q o
Chosen-map P Q pq none c = tt
Chosen-map P Q pq (some f) c = pq f c

module _ (P : Field → Type 0) where
  -- The result of the loop over `i`.
  record Selects (fuel : ℕ) (fs : List Field) : Type 0 where
    out : List Field
    ends : select_fields fuel fs ≡ done out
    fresh : (k : Bytes) → IsFresh k fs → IsFresh k out
    distinct : AreDistinct out
    each : Each P out

  select_fields-Selects :
      (fuel : ℕ) (fs : List Field) → length fs ≤ fuel → AreSorted fs → Each P fs → Selects fuel fs
  unfolding select_fields
  select_fields-Selects fuel [] le h ps = record {
    out = [];
    ends = refl;
    fresh = λ k n. tt;
    distinct = tt;
    each = tt;
  }
  select_fields-Selects zero (f ∷ fs) le h ps = absurd (omega arith)
  select_fields-Selects (suc fuel) (f ∷ fs) le (a, h) (p, ps) =
      let r = run-IsRun f.name fs a h in
      let short = r.shorter in
      let (o, chooses, both) =
        group_choice (λ x. (x.name ≡ f.name) × P x) f (run f.name fs).0 (refl, p)
          (Each-both (λ x. x.name ≡ f.name) P (run f.name fs).0 r.alike
            (Each-run_front P f.name fs ps)) in
      let named : Chosen (λ x. x.name ≡ f.name) o = Chosen-map _ _ (λ x b. b.0) o both in
      let rest =
        select_fields-Selects fuel (run f.name fs).1 (omega arith) r.sorted
          (Each-run P f.name fs ps) in
      record {
        out = kept o rest.out;
        ends =
            ap (λ m. m >>= λ c. select_fields fuel (run f.name fs).1 >>= λ out. done (kept c out))
              chooses
            ∙ ap (λ m. m >>= λ out. done (kept o out)) rest.ends;
        fresh = λ k (e, n).
            Each-kept (λ x. bytes_eq x.name k ≡ false) o rest.out (Chosen-unlike f.name k o e named)
              (rest.fresh k (Each-run (λ x. bytes_eq x.name k ≡ false) f.name fs n));
        distinct =
            kept-AreDistinct f.name o rest.out named (rest.fresh f.name r.others) rest.distinct;
        each = Each-kept P o rest.out (Chosen-map _ _ (λ x b. b.1) o both) rest.each;
      }

  -- The end of `typeFields` returns, whatever fields it has found; of the fields that it returns no
  -- two have the same name, and what holds of all fields found holds of them.
  pub shown_fields-AreDistinct :
      (fields : List Field)
      → Each P fields
      → (out : List Field) × (shown_fields fields ≡ done out) × AreDistinct out × Each P out
  unfolding shown_fields
  shown_fields-AreDistinct fields ps =
      let sorted : List Field = sort by_name_less fields in
      let s =
        select_fields-Selects (length sorted) sorted (omega arith) (sort-AreSorted fields)
          (Each-sort by_name_less P fields ps) in
      let by_index : Field → Field → Bool = λ f g. list_less f.index g.index in
      (
        sort by_index s.out,
        ap (λ m. m >>= λ out. done (sort by_index out)) s.ends,
        sort-AreDistinct by_index s.out s.distinct,
        Each-sort by_index P s.out s.each,
      )
