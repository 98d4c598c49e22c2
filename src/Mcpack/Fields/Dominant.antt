-- ===== src/Mcpack/Fields/Dominant.antt =====
-- The loop of `dominantField` against the rule that it follows.
use gomcpack.Prelude.{
  ℕ, ◌≡◌, refl, ap, sym, ◌∙◌, Bool, true, false, Option, none, some, List, [], ◌∷◌, arith, length,
  ltb, le→ltb, if◌then◌else◌, Bool-cases, inl, inr,
}
use gomcpack.Go.{done}
use gomcpack.Mcpack.Fields.{Field, keep, scan_fields, chosen, dominant_field}

-- The fields in front of the first with an index path longer than `len`. The callers sort the fields
-- by the length of their paths, so these are all the fields of the first's depth.
abbrev pub shallowest : ℕ → List Field → List Field
shallowest len [] = []
shallowest len (f ∷ fs) = if ltb len (length f.index) then [] else f ∷ shallowest len fs

abbrev pub tagged_of : List Field → List Field
tagged_of [] = []
tagged_of (f ∷ fs) = if f.tag then f ∷ tagged_of fs else tagged_of fs

-- The only one of a list.
abbrev pub only : List Field → Option Field
only [] = none
only (f ∷ []) = some f
only (f ∷ _ ∷ _) = none

-- The only tagged field of the depth, if any is tagged, and else the only field of the depth.
abbrev pub rule : List Field → List Field → Option Field
rule fields [] = only fields
rule fields (g ∷ gs) = only (g ∷ gs)

-- What the loop returns by the fields that it keeps and the tagged ones among them.
abbrev scanned : List Field → List Field → Option Field → Option (List Field × Option Field)
scanned kept [] tagged = some (kept, tagged)
scanned kept (g ∷ []) none = some (kept, some g)
scanned kept (g ∷ _ ∷ _) none = none
scanned kept (g ∷ _) (some h) = none

keep-scanned :
    (f : Field) (kept gs : List Field) (tagged : Option Field)
    → keep f (scanned kept gs tagged) ≡ scanned (f ∷ kept) gs tagged
keep-scanned f kept [] tagged = refl
keep-scanned f kept (g ∷ []) none = refl
keep-scanned f kept (g ∷ _ ∷ _) none = refl
keep-scanned f kept (g ∷ _) (some h) = refl

keep-second :
    (f : Field) (kept gs : List Field)
    → keep f (scanned kept gs (some f)) ≡ scanned (f ∷ kept) (f ∷ gs) none
keep-second f kept [] = refl
keep-second f kept (g ∷ gs) = refl

-- One turn, by what the following turns return.
by_tag :
    (t : Bool) (f : Field) (kept gs : List Field) (tagged : Option Field)
    (with_tag go_on : Option (List Field × Option Field))
    → with_tag ≡ scanned kept gs (some f)
    → go_on ≡ scanned kept gs tagged
    → (if t then elim tagged [ some g ↦ none | none ↦ keep f with_tag ] else keep f go_on)
      ≡ scanned (f ∷ kept) (if t then f ∷ gs else gs) tagged
by_tag true f kept gs none with_tag go_on p q = ap (keep f) p ∙ keep-second f kept gs
by_tag true f kept gs (some h) with_tag go_on p q = refl
by_tag false f kept gs tagged with_tag go_on p q = ap (keep f) q ∙ keep-scanned f kept gs tagged

scan_fields-scanned :
    (len : ℕ) (fs : List Field) (tagged : Option Field)
    → scan_fields len fs tagged ≡ scanned (shallowest len fs) (tagged_of (shallowest len fs)) tagged
unfolding scan_fields
scan_fields-scanned len [] tagged = refl
scan_fields-scanned len (f ∷ fs) tagged = elim (Bool-cases (ltb len (length f.index))) [
  | inl e ↦ rw e refl
  | inr e ↦
      let kept : List Field = shallowest len fs in
      rw e (
        by_tag f.tag f kept (tagged_of kept) tagged (scan_fields len fs (some f))
          (scan_fields len fs tagged) (scan_fields-scanned len fs (some f))
          (scan_fields-scanned len fs tagged))
]

chosen-scanned :
    (f : Field) (kept gs : List Field)
    → chosen (scanned (f ∷ kept) gs none) ≡ done (rule (f ∷ kept) gs)
chosen-scanned f [] [] = refl
chosen-scanned f (g ∷ kept) [] = refl
chosen-scanned f kept (g ∷ []) = refl
chosen-scanned f kept (g ∷ h ∷ gs) = refl

-- `dominantField`, of fields that are at least one, returns the only tagged field among those in
-- front of the first with an index path longer than the first's, if one of them is tagged, and else
-- the only one of them; it returns no field where there are two, and it does not panic.
pub dominant_field-rule :
    (f : Field) (fs : List Field)
    → dominant_field (f ∷ fs)
      ≡ done (
          rule
            (shallowest (length f.index) (f ∷ fs))
            (tagged_of (shallowest (length f.index) (f ∷ fs))))
unfolding dominant_field
dominant_field-rule f fs =
    let len = length f.index in
    let kept : List Field = shallowest len fs in
    let first : shallowest len (f ∷ fs) ≡ f ∷ kept = rw (le→ltb len len (omega arith)) refl in
    ap chosen (scan_fields-scanned len (f ∷ fs) none)
    ∙ ap (λ (t : List Field). chosen (scanned t (tagged_of t) none)) first
    ∙ chosen-scanned f kept (tagged_of (f ∷ kept))
    ∙ ap (λ (t : List Field). done (rule t (tagged_of t))) (sym first)
