-- ===== src/Mcpack/Fields.antt =====
-- mcpack/encode.go, `dominantField`: which of the fields of one name a struct shows.
pub mod Dominant
pub mod Order
pub mod Select
pub mod Search
use gomcpack.Prelude.{
  ℕ, Bool, true, false, Option, none, some, List, [], ◌∷◌, length, ltb, if◌then◌else◌,
}
use gomcpack.Go.{Go, done, panic, runtime_error}
use gomcpack.Go.Slice.{Bytes}

-- A `field`, as far as the choice depends on it and shows it: its name, whether a tag gave the name,
-- and its index path.
pub record Field : Type 0 where
  pub name : Bytes
  pub tag : Bool
  pub index : List ℕ

abbrev pub keep : Field → Option (List Field × Option Field) → Option (List Field × Option Field)
keep f none = none
keep f (some (kept, tagged)) = some (f ∷ kept, tagged)

-- The loop over the fields: those in front of the first longer index path, and the tagged one among
-- them; `none` is the return of no field at the second tagged one.
unfoldable pub scan_fields : ℕ → List Field → Option Field → Option (List Field × Option Field)
scan_fields len [] tagged = some ([], tagged)
scan_fields len (f ∷ fs) tagged =
    let go_on = scan_fields len fs tagged in
    let with_tag = scan_fields len fs (some f) in
    if ltb len (length f.index)
    then some ([], tagged)
    else (if f.tag then elim tagged [ some g ↦ none | none ↦ keep f with_tag ] else keep f go_on)

-- The end of the function; `fields[0]` is there, since the loop keeps the first field.
abbrev pub chosen : Option (List Field × Option Field) → Go (Option Field)
chosen none = done none
chosen (some (kept, some g)) = done (some g)
chosen (some ([], none)) = panic runtime_error
chosen (some (f ∷ [], none)) = done (some f)
chosen (some (f ∷ _ ∷ _, none)) = done none

-- `dominantField(fields)`; the Boolean is whether there is a field.
unfoldable pub dominant_field : List Field → Go (Option Field)
unfolding scan_fields
dominant_field [] = panic runtime_error
dominant_field (f ∷ fs) = chosen (scan_fields (length f.index) (f ∷ fs) none)
