-- ===== src/Mcpack/Fields/Search.antt =====
-- mcpack/encode.go: `typeFields`, the search for the fields that a struct type shows, through the
-- embedded structs. A struct type is its place in a table of their fields.
pub mod Ends
pub mod Leads
use gomcpack.Prelude.{
  ℕ, zero, suc, ◌+◌, Bool, true, false, not, ◌||◌, Option, none, some, List, [], ◌∷◌, ◌++◌, length,
  drop, ltb, ◌==◌, bytes_eq, if◌then◌else◌,
}
use gomcpack.Go.{Go, done, panic, out_of_fuel, runtime_error, ◌>>=◌}
use gomcpack.Go.Slice.{Bytes}
use gomcpack.Mcpack.Tags.{parse_tag}
use gomcpack.Mcpack.Fold.Unicode.{decode_rune}
use gomcpack.Mcpack.Fields.{Field}
use gomcpack.Mcpack.Fields.Select.{shown_fields}

-- The type of a field: a struct, an unnamed pointer, or another type.
pub data FieldType : Type 0 where
  struct_type : ℕ → FieldType
  pointer_to : FieldType → FieldType
  other_type : FieldType

-- A `reflect.StructField`; `tag` is the string that `Tag.Get("json")` finds in its tag.
pub record StructField : Type 0 where
  pub name : Bytes
  pub pkg_path : Bytes
  pub tag : Bytes
  pub anonymous : Bool
  pub typ : FieldType

-- A struct that waits in `next`.
pub record Embedded : Type 0 where
  pub index : List ℕ
  pub typ : ℕ

pub record Search : Type 0 where
  pub visited : ℕ → Bool
  pub next_count : ℕ → ℕ
  pub next : List Embedded
  pub fields : List Field

-- `f.typ.Field(i)` for each `i`.
abbrev pub fields_of : List (List StructField) → ℕ → List StructField
fields_of [] t = []
fields_of (fs ∷ structs) zero = fs
fields_of (fs ∷ structs) (suc t) = fields_of structs t

-- The runes over which `range` goes in a string; each takes at least one byte.
unfoldable pub runes : ℕ → Bytes → List ℕ
runes zero s = []
runes (suc n) [] = []
runes (suc n) (x ∷ s) = let (c, size) = decode_rune (x ∷ s) in c ∷ runes n (drop size (x ∷ s))

-- The runes of "!#$%&()*+-./:<=>?@[]^_{|}~ ".
abbrev pub punctuation : List ℕ
punctuation =
    33 ∷ 35 ∷ 36 ∷ 37 ∷ 38 ∷ 40 ∷ 41 ∷ 42 ∷ 43 ∷ 45 ∷ 46 ∷ 47 ∷ 58 ∷ 60 ∷ 61 ∷ 62 ∷ 63 ∷ 64 ∷ 91
    ∷ 93 ∷ 94 ∷ 95 ∷ 123 ∷ 124 ∷ 125 ∷ 126 ∷ 32 ∷ []

abbrev pub contains_rune : List ℕ → ℕ → Bool
contains_rune [] c = false
contains_rune (x ∷ xs) c = c == x || contains_rune xs c

-- `ft.Kind() == reflect.Struct`, of the type behind a pointer.
abbrev pub struct_of : FieldType → Option ℕ
struct_of (struct_type t) = some t
struct_of (pointer_to (struct_type t)) = some t
struct_of (pointer_to _) = none
struct_of other_type = none

-- The struct of a field whose own fields are shown in its place.
unfoldable pub embedded_type : Bytes → StructField → Option ℕ
embedded_type name sf =
    if not (length name == 0) then none else if not sf.anonymous then none else struct_of sf.typ

-- What the search keeps of a field; its `typ`, `omitEmpty` and fold function are not read again here.
unfoldable pub new_field : Bytes → StructField → List ℕ → Field
new_field name sf index = record {
  name = if length name == 0 then sf.name else name;
  tag = not (length name == 0);
  index = index;
}

-- The type of the i-th field of a struct, or of the struct behind a pointer.
abbrev pub type_of_field : List StructField → ℕ → Go FieldType
type_of_field [] i = panic runtime_error
type_of_field (sf ∷ sfs) zero = done sf.typ
type_of_field (sf ∷ sfs) (suc i) = type_of_field sfs i

abbrev pub field_of_type : List (List StructField) → Option ℕ → ℕ → Go FieldType
field_of_type structs none i = panic runtime_error
field_of_type structs (some t) i = type_of_field (fields_of structs t) i

-- `typeByIndex(t, index)`; reflect panics with a string, of which the deferred `recover` of `marshal`
-- makes a runtime error.
unfoldable pub type_by_index : List (List StructField) → FieldType → List ℕ → Go FieldType
type_by_index structs t [] = done t
type_by_index structs t (i ∷ index) =
    field_of_type structs (struct_of t) i >>= λ u. type_by_index structs u index

-- A field goes in twice where its struct stands more than once in the level.
unfoldable pub append_field : ℕ → Field → Search → Search
append_field count g s = record s {
  fields = s.fields ++ (if ltb 1 count then g ∷ g ∷ [] else g ∷ []);
}

unfoldable pub embed : List ℕ → ℕ → Search → Search
embed index t s = record s {
  next_count = λ u. if u == t then suc (s.next_count u) else s.next_count u;
  next =
      if suc (s.next_count t) == 1
      then s.next ++ (record { index = index; typ = t } ∷ [])
      else s.next;
}

-- The field goes into the list, or its struct waits for the next level.
unfoldable pub take_field : ℕ → Field → Option ℕ → Search → Search
unfolding append_field embed
take_field count g none s = append_field count g s
take_field count g (some t) s = embed g.index t s

-- `visited[f.typ] = true`
abbrev pub mark : ℕ → (ℕ → Bool) → ℕ → Bool
mark t visited = λ u. if u == t then true else visited u

module _ (is_letter is_digit : ℕ → Bool) where
  unfoldable pub valid_runes : List ℕ → Bool
  valid_runes [] = true
  valid_runes (c ∷ cs) =
      let rest = valid_runes cs in
      if contains_rune punctuation c
      then rest
      else if not (is_letter c)
      then (if not (is_digit c) then false else rest)
      else rest

  unfoldable pub is_valid_tag : Bytes → Bool
  unfolding valid_runes runes
  is_valid_tag s = if length s == 0 then false else valid_runes (runes (length s) s)

  -- The name that a tag gives, if it is valid.
  unfoldable pub tag_name : Bytes → Bytes
  unfolding is_valid_tag parse_tag
  tag_name tag = let (name, opts) = parse_tag tag in if not (is_valid_tag name) then [] else name

  -- The body of the loop over `i`.
  unfoldable pub one_field : (ℕ → ℕ) → Embedded → ℕ → StructField → Search → Search
  unfolding tag_name embedded_type new_field take_field
  one_field count f i sf s =
      let name = tag_name sf.tag in
      let index = f.index ++ (i ∷ []) in
      if not (length sf.pkg_path == 0)
      then s
      else if bytes_eq sf.tag (b'-' ∷ [])
      then s
      else take_field (count f.typ) (new_field name sf index) (embedded_type name sf) s

  unfoldable pub each_field : (ℕ → ℕ) → Embedded → ℕ → List StructField → Search → Search
  unfolding one_field
  each_field count f i [] s = s
  each_field count f i (sf ∷ sfs) s = each_field count f (suc i) sfs (one_field count f i sf s)

  module _ (structs : List (List StructField)) where
    -- The body of the loop over `current`.
    unfoldable pub one_struct : (ℕ → ℕ) → Embedded → Search → Search
    unfolding each_field
    one_struct count f s =
        if s.visited f.typ
        then s
        else each_field count f 0 (fields_of structs f.typ)
            (record s { visited = mark f.typ s.visited })

    unfoldable pub one_level : (ℕ → ℕ) → List Embedded → Search → Search
    unfolding one_struct
    one_level count [] s = s
    one_level count (f ∷ current) s = one_level count current (one_struct count f s)

    -- `for len(next) > 0 { … }`
    unfoldable pub levels : ℕ → List Embedded → (ℕ → ℕ) → (ℕ → Bool) → List Field → Go (List Field)
    unfolding one_level
    levels fuel [] count visited fields = done fields
    levels zero (f ∷ fs) count visited fields = out_of_fuel
    levels (suc fuel) (f ∷ fs) count visited fields =
        let s =
          one_level count (f ∷ fs)
            (record { visited = visited; next_count = λ t. 0; next = []; fields = fields }) in
        levels fuel s.next s.next_count s.visited s.fields

    -- A level without a struct that no level had before is the last.
    unfoldable pub type_fields : ℕ → Go (List Field)
    unfolding levels
    type_fields t =
        levels (suc (length structs)) (record { index = []; typ = t } ∷ []) (λ u. 0) (λ u. false) []
        >>= λ fields. shown_fields fields
