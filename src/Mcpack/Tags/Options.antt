-- ===== src/Mcpack/Tags/Options.antt =====
-- `Contains` looks for the option among the pieces between the commas.
use gomcpack.Prelude.{
  ℕ, zero, suc, ◌+◌, ◌≤◌, ◌≡◌, refl, ap, sym, ◌∙◌, Bool, true, false, ◌||◌, Option, none, some,
  List, [], ◌∷◌, ◌++◌, arith, length, take, drop, ◌==◌, bytes_eq, if◌then◌else◌, Bool-cases, inl,
  inr,
}
use gomcpack.Go.{Go, done}
use gomcpack.Go.Slice.{Bytes}
use gomcpack.Mcpack.Tags.{index_comma, parse_tag, cut_option, contains_loop, contains}

-- A byte put in front of the first piece.
abbrev pub put_front : ℕ → List Bytes → List Bytes
put_front x [] = (x ∷ []) ∷ []
put_front x (p ∷ ps) = (x ∷ p) ∷ ps

-- The pieces between the commas; a comma at the end ends its piece and begins none.
abbrev pub pieces : Bytes → List Bytes
pieces [] = []
pieces (x ∷ s) = if x == b',' then [] ∷ pieces s else put_front x (pieces s)

abbrev pub has_piece : List Bytes → Bytes → Bool
has_piece [] name = false
has_piece (p ∷ ps) name = bytes_eq p name || has_piece ps name

abbrev pub has_comma : Bytes → Bool
has_comma [] = false
has_comma (x ∷ s) = x == b',' || has_comma s

cut_option-comma : (x : ℕ) (s : Bytes) → (x == b',') ≡ true → cut_option (x ∷ s) ≡ ([], s)
unfolding cut_option index_comma
cut_option-comma x s e = rw (e, cut_option) refl

cut_option-other :
    (x : ℕ) (s : Bytes)
    → (x == b',') ≡ false
    → cut_option (x ∷ s) ≡ (x ∷ (cut_option s).0, (cut_option s).1)
unfolding cut_option index_comma
cut_option-other x s e = found (index_comma s) refl
  where
    found :
        (o : Option ℕ)
        → index_comma s ≡ o
        → cut_option (x ∷ s) ≡ (x ∷ (cut_option s).0, (cut_option s).1)
    found none h = rw (e, h, cut_option) refl
    found (some i) h =
        rw (e, h, cut_option)
          (ap (λ (n : ℕ). (x ∷ take i s, drop n (x ∷ s))) {x = suc i + 1} {y = suc (i + 1)}
            (omega arith))

pieces-cut_option :
    (x : ℕ) (s : Bytes) → pieces (x ∷ s) ≡ (cut_option (x ∷ s)).0 ∷ pieces (cut_option (x ∷ s)).1
pieces-cut_option x [] = elim (Bool-cases (x == b',')) [
  | inl e ↦ rw e (rw (cut_option-comma x [] e) refl)
  | inr e ↦ rw e (rw (cut_option-other x [] e) (unfold cut_option index_comma in refl))
]
pieces-cut_option x (y ∷ s) = elim (Bool-cases (x == b',')) [
  | inl e ↦ rw e (rw (cut_option-comma x (y ∷ s) e) refl)
  | inr e ↦ rw (cut_option-other x (y ∷ s) e) (other (pieces (y ∷ s)) e (pieces-cut_option y s))
]
  where
    other :
        (ps : List Bytes) {q : Bytes} {qs : List Bytes}
        → (x == b',') ≡ false
        → ps ≡ q ∷ qs
        → (if x == b',' then [] ∷ ps else put_front x ps) ≡ (x ∷ q) ∷ qs
    other ps e h = rw (e, h) refl

cut_option-shorter : (x : ℕ) (s : Bytes) → length (cut_option (x ∷ s)).1 ≤ length s
cut_option-shorter x [] = elim (Bool-cases (x == b',')) [
  | inl e ↦ rw (cut_option-comma x [] e) (omega arith)
  | inr e ↦ rw (cut_option-other x [] e) (unfold cut_option index_comma in (omega arith))
]
cut_option-shorter x (y ∷ s) = elim (Bool-cases (x == b',')) [
  | inl e ↦ rw (cut_option-comma x (y ∷ s) e) (omega arith)
  | inr e ↦ rw (cut_option-other x (y ∷ s) e) (omega (arith, cut_option-shorter y s))
]

contains_loop-pieces :
    (fuel : ℕ) (s name : Bytes)
    → length s ≤ fuel
    → contains_loop fuel s name ≡ done (has_piece (pieces s) name)
unfolding contains_loop
contains_loop-pieces zero [] name h = refl
contains_loop-pieces (suc fuel) [] name h = refl
contains_loop-pieces zero (x ∷ s) name h = absurd (omega arith)
contains_loop-pieces (suc fuel) (x ∷ s) name h =
    let (option, next) = cut_option (x ∷ s) in
    let later = contains_loop-pieces fuel next name (omega (arith, cut_option-shorter x s)) in
    ap (λ (r : Go Bool). if bytes_eq option name then done true else r) later
    ∙ either (bytes_eq option name) (has_piece (pieces next) name)
    ∙ ap (λ (ps : List Bytes). done (has_piece ps name)) (sym (pieces-cut_option x s))
  where
    either : (b c : Bool) → (if b then done true else done c) ≡ done (b || c)
    either true c = refl
    either false c = refl

-- `Contains` ends on all options and is true of exactly the pieces between the commas. A comma at the
-- end begins no piece, so the empty option is found only in front of a comma.
pub contains-pieces : (o name : Bytes) → contains o name ≡ done (has_piece (pieces o) name)
unfolding contains
contains-pieces [] name = ground arith
contains-pieces (x ∷ o) name =
    let full : (length (x ∷ o) == 0) ≡ false = ground arith in
    rw full (contains_loop-pieces (length (x ∷ o)) (x ∷ o) name (omega arith))

cut_option-joined :
    (name options : Bytes)
    → has_comma name ≡ false
    → cut_option (name ++ b',' ∷ options) ≡ (name, options)
cut_option-joined [] options plain = cut_option-comma b',' options refl
cut_option-joined (x ∷ name) options plain = elim (Bool-cases (x == b',')) [
  | inl e ↦ absurd (ground arith)
  | inr e ↦
      rw (cut_option-other x (name ++ b',' ∷ options) e)
        (rw (cut_option-joined name options (rw e at plain)) refl)
]

-- `parseTag` gives back a name without a comma and the options behind the comma, whatever they are.
pub parse_tag-joined :
    (name options : Bytes)
    → has_comma name ≡ false
    → parse_tag (name ++ b',' ∷ options) ≡ (name, options)
unfolding parse_tag
parse_tag-joined name options plain =
    same (name ++ b',' ∷ options) ∙ cut_option-joined name options plain
  where
    same : (tag : Bytes) → parse_tag tag ≡ cut_option tag
    same tag = unfold parse_tag cut_option in refl
