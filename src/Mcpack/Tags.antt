-- ===== src/Mcpack/Tags.antt =====
-- mcpack/tags.go: the name and the options in the tag of a struct's field. A Go string is its bytes;
-- the slice expressions are within the string, since `strings.Index` returns a place inside it.
pub mod Options
use gomcpack.Prelude.{
  ℕ, zero, suc, ◌+◌, Bool, true, false, Option, none, some, List, [], ◌∷◌, length, take, drop, ◌==◌,
  bytes_eq, if◌then◌else◌,
}
use gomcpack.Go.{Go, done, out_of_fuel}
use gomcpack.Go.Slice.{Bytes}

-- `strings.Index(s, ",")`, `none` for -1.
unfoldable pub index_comma : Bytes → Option ℕ
index_comma [] = none
index_comma (x ∷ s) = if x == b',' then some 0 else next (index_comma s)
  where
    next : Option ℕ → Option ℕ
    next none = none
    next (some i) = some (suc i)

unfoldable pub parse_tag : Bytes → Bytes × Bytes
unfolding index_comma
parse_tag tag = elim (index_comma tag) [
  | some idx ↦ (take idx tag, drop (idx + 1) tag)
  | none ↦ (tag, [])
]

-- The string up to the first comma, and what is behind it.
unfoldable pub cut_option : Bytes → Bytes × Bytes
unfolding index_comma
cut_option s = elim (index_comma s) [ some i ↦ (take i s, drop (i + 1) s) | none ↦ (s, []) ]

-- `for s != "" { … }`
unfoldable pub contains_loop : ℕ → Bytes → Bytes → Go Bool
unfolding cut_option
contains_loop fuel [] name = done false
contains_loop zero (x ∷ s) name = out_of_fuel
contains_loop (suc fuel) (x ∷ s) name =
    let (option, next) = cut_option (x ∷ s) in
    let rest = contains_loop fuel next name in if bytes_eq option name then done true else rest

-- `o.Contains(optionName)`; every turn takes at least one byte.
unfoldable pub contains : Bytes → Bytes → Go Bool
unfolding contains_loop
contains o name = if length o == 0 then done false else contains_loop (length o) o name
