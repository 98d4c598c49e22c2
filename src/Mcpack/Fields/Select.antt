-- ===== src/Mcpack/Fields/Select.antt =====
-- mcpack/encode.go: the end of `typeFields`, which sorts the fields by name and keeps one of each name.
-- `byName` is a total order and the fields found have different index paths, so `sort.Sort` has one
-- result, which insertion finds.
pub mod Distinct
pub mod Sorted
use gomcpack.Prelude.{
  ℕ, zero, suc, Bool, true, false, Option, none, some, List, [], ◌∷◌, length, ◌==◌, bytes_eq,
  if◌then◌else◌,
}
use gomcpack.Go.{Go, done, panic, out_of_fuel, ◌>>=◌}
use gomcpack.Go.Slice.{Bytes}
use gomcpack.Mcpack.Fields.{Field, dominant_field}
use gomcpack.Mcpack.Fields.Order.{list_less, by_name_less}

module _ {A : Type 0} (less : A → A → Bool) where
  unfoldable pub insert_sorted : A → List A → List A
  insert_sorted a [] = a ∷ []
  insert_sorted a (b ∷ s) =
      let behind = insert_sorted a s in if less b a then b ∷ behind else a ∷ b ∷ s

  unfoldable pub sort : List A → List A
  unfolding insert_sorted
  sort [] = []
  sort (a ∷ s) = insert_sorted a (sort s)

-- The fields in front that have the name, and those behind them: the loop over `advance`.
unfoldable pub run : Bytes → List Field → List Field × List Field
run name [] = ([], [])
run name (f ∷ fs) =
    let (same, rest) = run name fs in
    if bytes_eq f.name name then (f ∷ same, rest) else ([], f ∷ fs)

-- What a group of fields of one name adds to `out`.
abbrev pub kept : Option Field → List Field → List Field
kept none out = out
kept (some f) out = f ∷ out

unfoldable pub group : Field → List Field → Go (Option Field)
unfolding dominant_field
group f [] = done (some f)
group f (g ∷ same) = dominant_field (f ∷ g ∷ same)

-- The loop over `i`, which each turn moves on by at least one.
unfoldable pub select_fields : ℕ → List Field → Go (List Field)
unfolding run group
select_fields fuel [] = done []
select_fields zero (f ∷ fs) = out_of_fuel
select_fields (suc fuel) (f ∷ fs) =
    let (same, rest) = run f.name fs in
    group f same >>= λ o. select_fields fuel rest >>= λ out. done (kept o out)

-- The fields that `typeFields` returns of those that it has found.
unfoldable pub shown_fields : List Field → Go (List Field)
unfolding select_fields sort
shown_fields fields =
    select_fields (length (sort by_name_less fields)) (sort by_name_less fields) >>= λ out.
    done (sort (λ f g. list_less f.index g.index) out)
