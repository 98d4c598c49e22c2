-- ===== src/Go/Slice/Laws.antt =====
-- What the slice operations do inside their bounds.
use gomcpack.Prelude.{ℕ, ◌+◌, ◌-◌, ◌≤◌, ◌≡◌, ap, ◌∙◌, sym, ◌∷◌, ◌++◌}
use gomcpack.Prelude.{length, take, drop, arith, le→leb, lt→ltb, length-append, set-append}
use gomcpack.Prelude.{
  take-append, take-all, drop-append, get_elem?-drop, drop-append_le, length-drop,
}
use gomcpack.Prelude.{append_assoc}
use mathlib.Core.Path.{ap₂}
use gomcpack.Go.{done}
use gomcpack.Go.Slice.Defs.{Bytes, index, store, slice_from, slice_to_cap, copy}

pub index-of_drop : (b : Bytes) (i : ℕ) {x : ℕ} {r : Bytes} → drop i b ≡ x ∷ r → index b i ≡ done x
unfolding index
index-of_drop b i h = rw (get_elem?-drop i b h, index)

pub store-append :
    (b : Bytes) (x : ℕ) (r : Bytes) (v : ℕ) → store (b ++ x ∷ r) (length b) v ≡ done (b ++ v ∷ r)
unfolding store
store-append b x r v =
    rw (lt→ltb (length b) (length (b ++ x ∷ r)) (omega (arith, length-append b (x ∷ r))))
      (rw set-append)

pub slice_from_lem : (b : Bytes) (lo : ℕ) → lo ≤ length b → slice_from b lo ≡ done (drop lo b)
unfolding slice_from
slice_from_lem b lo h = rw (le→leb lo (length b) h)

pub slice_from-append : (b r : Bytes) → slice_from (b ++ r) (length b) ≡ done r
slice_from-append b r =
    slice_from_lem (b ++ r) (length b) (omega (arith, length-append b r))
    ∙ ap done (drop-append b r)

-- A slice expression inside the slice does not see what is behind its end.
pub slice_to_cap-of_drop :
    (b spare : Bytes) (lo hi n : ℕ) (x r : Bytes)
    → drop lo b ≡ x ++ r
    → lo ≤ length b
    → length x ≡ n
    → hi ≡ lo + n
    → slice_to_cap b spare lo hi ≡ done x
unfolding slice_to_cap
slice_to_cap-of_drop b spare lo hi n x r h lob lx e =
    rw
      (
        le→leb lo hi (omega arith),
        le→leb hi (length b + length spare)
            (omega (arith, length-drop lo b, ap length h, length-append x r)),
      )
      (ap done (
        ap (λ (t : Bytes). take (hi - lo) t) (drop-append_le lo b spare lob)
        ∙ ap (λ (t : Bytes). take (hi - lo) (t ++ spare)) h
        ∙ ap (λ (t : Bytes). take (hi - lo) t) (append_assoc x r spare)
        ∙ ap (λ (k : ℕ). take k (x ++ (r ++ spare))) {x = hi - lo} {y = length x} (omega arith)
        ∙ take-append x (r ++ spare)))

-- `copy` into a slice that has room writes the whole source.
pub copy-append : (x g r : Bytes) → length g ≡ length x → copy (g ++ r) x ≡ (x ++ r, length x)
unfolding copy
copy-append x g r e =
    ap₂ (λ (s : Bytes) (n : ℕ). (s, n))
      (ap₂ (λ (s t : Bytes). s ++ t)
        (take-all x (length (g ++ r)) (omega (arith, length-append g r)))
        (ap (λ (k : ℕ). drop k (g ++ r)) (sym e) ∙ drop-append g r))
      (omega (arith, length-append g r))
