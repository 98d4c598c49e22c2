-- ===== src/Mcpack/Fields/Order.antt =====
-- mcpack/encode.go: the orders `byName` and `byIndex` of fields. Strings and index paths are both
-- compared from the front, and a shorter one comes before those that it begins.
pub mod Laws
use gomcpack.Prelude.{
  ℕ, Bool, true, false, not, List, [], ◌∷◌, length, ltb, ◌==◌, bytes_eq, if◌then◌else◌,
}
use gomcpack.Mcpack.Fields.{Field}

-- `x[i].tag != x[j].tag`
abbrev pub differ : Bool → Bool → Bool
differ true b = not b
differ false b = b

-- `byIndex(x).Less(i, j)` on the index paths, and `<` on strings.
unfoldable pub list_less : List ℕ → List ℕ → Bool
list_less [] ys = ltb 0 (length ys)
list_less (x ∷ xs) [] = false
list_less (x ∷ xs) (y ∷ ys) = let rest = list_less xs ys in if x == y then rest else ltb x y

-- `byName(x).Less(i, j)`
unfoldable pub by_name_less : Field → Field → Bool
unfolding list_less
by_name_less f g =
    if not (bytes_eq f.name g.name)
    then list_less f.name g.name
    else if not (length f.index == length g.index)
    then ltb (length f.index) (length g.index)
    else if differ f.tag g.tag
    then f.tag
    else list_less f.index g.index
