-- ===== src/Mcpack/Tests/Search.antt =====
-- `typeFields` on a struct that embeds another one, and itself behind a pointer.
use gomcpack.Prelude.{ℕ, ◌≡◌, refl, Bool, true, false, List, [], ◌∷◌, ◌&&◌, leb, bytes_eq}
use gomcpack.Go.{done}
use gomcpack.Mcpack.Fields.{Field}
use gomcpack.Mcpack.Fold.Unicode.{decode_rune}
use gomcpack.Mcpack.Fields.Select.{shown_fields}
use gomcpack.Mcpack.Fields.Order.{by_name_less}
use gomcpack.Mcpack.Fields.Select.Sorted.{Each, AreDistinct}
use gomcpack.Mcpack.Fields.Search.{
  StructField, struct_type, pointer_to, other_type, is_valid_tag, type_fields,
}
use gomcpack.Mcpack.Fields.Search.Leads.{Leads, type_fields-AreDistinct}

abbrev small_letter : ℕ → Bool
small_letter c = leb b'a' c && leb c b'z'

abbrev digit : ℕ → Bool
digit c = leb b'0' c && leb c b'9'

-- type O struct { X int; I; *O }
-- type I struct { X int; Y int `json:"y"`; z int; W int `json:"-"` }
abbrev structs_t : List (List StructField)
structs_t =
    (record { name = b'X' ∷ []; pkg_path = []; tag = []; anonymous = false; typ = other_type }
      ∷ record { name = b'I' ∷ []; pkg_path = []; tag = []; anonymous = true; typ = struct_type 1 }
      ∷ record {
        name = b'O' ∷ [];
        pkg_path = [];
        tag = [];
        anonymous = true;
        typ = pointer_to (struct_type 0);
      }
      ∷ [])
    ∷ (record { name = b'X' ∷ []; pkg_path = []; tag = []; anonymous = false; typ = other_type }
        ∷ record {
          name = b'Y' ∷ [];
          pkg_path = [];
          tag = b'y' ∷ [];
          anonymous = false;
          typ = other_type;
        }
        ∷ record {
          name = b'z' ∷ [];
          pkg_path = b'p' ∷ [];
          tag = [];
          anonymous = false;
          typ = other_type;
        }
        ∷ record {
          name = b'W' ∷ [];
          pkg_path = [];
          tag = b'-' ∷ [];
          anonymous = false;
          typ = other_type;
        }
        ∷ [])
    ∷ []

-- The shown fields are X of the outer struct and Y of the inner one.
type_fields_t :
    type_fields small_letter digit structs_t 0
    ≡ done (
        record { name = b'X' ∷ []; tag = false; index = 0 ∷ [] }
        ∷ record { name = b'y' ∷ []; tag = true; index = 1 ∷ 1 ∷ [] }
        ∷ [])
unfolding type_fields by_name_less bytes_eq decode_rune shown_fields
type_fields_t = refl

is_valid_tag_t : is_valid_tag small_letter digit (b'a' ∷ b'-' ∷ b'1' ∷ []) ≡ true
unfolding is_valid_tag decode_rune
is_valid_tag_t = refl

quote_t : is_valid_tag small_letter digit (b'a' ∷ 34 ∷ []) ≡ false
unfolding is_valid_tag decode_rune
quote_t = refl

type_fields-AreDistinct_example :
    (out : List Field) × (type_fields small_letter digit structs_t 0 ≡ done out)
    × AreDistinct out
    × Each (Leads structs_t 0) out
type_fields-AreDistinct_example = type_fields-AreDistinct structs_t 0 small_letter digit
