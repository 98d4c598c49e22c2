-- ===== src/Mcpack/Wire.antt =====
-- The format, as the comments of mcpack/encode.go and mcpack/decode.go draw it: the bytes that a
-- value stands for, by recursion on the value and with no buffer. `none` means that a key of the
-- value has more than 254 bytes.
use gomcpack.Prelude.{
  ℕ, ◌+◌, true, false, Option, none, some, [], ◌∷◌, ◌++◌, length, ltb, leb, if◌then◌else◌,
}
use gomcpack.Go.Slice.{Bytes}
use gomcpack.Mcpack.Const.{
  object_type, array_type, string_type, binary_type, int32_type, int64_type, uint32_type,
  uint64_type, bool_type, float_type, double_type, null_type, short_string_type, short_binary_type,
}
use gomcpack.Mcpack.Number.RoundTrip.{le32, le64}
use gomcpack.Mcpack.Value.{
  IntKind, int_kind, int64_kind, UintKind, uint8_kind, uint16_kind, uint32_kind, Value, invalid,
  unsupported, bool, int, uint, float32, float64, string, bytes, nil_interface, interface, nil_ptr,
  ptr, struct, string_map, slice, array, Fields, no_fields, field, Entries, no_entries, entry,
  Items, no_items, item, count_fields, count_entries, count_items,
}
use gomcpack.Mcpack.Encode.{skips_field}

-- The byte that gives the length of the key with its 0x00, 0 if there is no key, and the key itself.
abbrev pub key_len_byte : Bytes → ℕ
key_len_byte k = if ltb 0 (length k) then length k + 1 else 0

abbrev pub key_bytes : Bytes → Bytes
key_bytes k = if ltb 0 (length k) then k ++ 0 ∷ [] else []

-- type | name length | content length | name | 0x00 | content
abbrev pub layout : ℕ → Bytes → Bytes → Bytes → Bytes
layout t size k content = t ∷ key_len_byte k ∷ (size ++ (key_bytes k ++ content))

-- An item whose name may be too long.
abbrev pub named : Bytes → Bytes → Option Bytes
named k xs = if leb (length k) 254 then some xs else none

-- One piece behind another, where there are both.
abbrev pub joined : Option Bytes → Option Bytes → Option Bytes
joined none o = none
joined (some xs) none = none
joined (some xs) (some ys) = some (xs ++ ys)

abbrev pub int_wire : IntKind → Bytes → ℕ → Bytes
int_wire int_kind k n = layout int64_type [] k (le64 n)
int_wire int64_kind k n = layout int64_type [] k (le64 n)
int_wire _ k n = layout int32_type [] k (le32 n)

abbrev pub uint_wire : UintKind → Bytes → ℕ → Bytes
uint_wire uint8_kind k n = layout uint32_type [] k (le32 n)
uint_wire uint16_kind k n = layout uint32_type [] k (le32 n)
uint_wire uint32_kind k n = layout uint32_type [] k (le32 n)
uint_wire _ k n = layout uint64_type [] k (le64 n)

-- A string has a 0x00 behind it, which its length counts.
abbrev pub string_wire : Bytes → Bytes → Bytes
string_wire k s =
    if ltb (length s + 1) 255
    then layout short_string_type ((length s + 1) ∷ []) k (s ++ 0 ∷ [])
    else layout string_type (le32 (length s + 1)) k (s ++ 0 ∷ [])

abbrev pub binary_wire : Bytes → Bytes → Bytes
binary_wire k s =
    if leb (length s) 255
    then layout short_binary_type (length s ∷ []) k s
    else layout binary_type (le32 (length s)) k s

-- The content of a container is the number of its members and their items.
abbrev pub container_wire : ℕ → Bytes → ℕ → Option Bytes → Option Bytes
container_wire t k count none = none
container_wire t k count (some xs) =
    named k (layout t (le32 (length (le32 count ++ xs))) k (le32 count ++ xs))

unfoldable mutual
  pub wire : Value → Bytes → Option Bytes
  wire invalid k = some []
  wire unsupported k = some []
  wire (bool true) k = named k (layout bool_type [] k (1 ∷ []))
  wire (bool false) k = named k (layout bool_type [] k (0 ∷ []))
  wire (int kind n) k = named k (int_wire kind k n)
  wire (uint kind n) k = named k (uint_wire kind k n)
  wire (float32 bits) k = named k (layout float_type [] k (le32 bits))
  wire (float64 bits) k = named k (layout double_type [] k (le64 bits))
  wire (string s) k = named k (string_wire k s)
  wire (bytes s) k = named k (binary_wire k s)
  wire nil_interface k = named k (layout null_type [] k (0 ∷ []))
  wire (interface v) k = wire v k
  wire nil_ptr k = named k (layout null_type [] k (0 ∷ []))
  wire (ptr v) k = wire v k
  wire (struct fs) k = container_wire object_type k (count_fields fs) (wire_fields fs)
  wire (string_map es) k = container_wire object_type k (count_entries es) (wire_entries es)
  wire (slice xs) k = container_wire array_type k (count_items xs) (wire_items xs)
  wire (array xs) k = container_wire array_type k (count_items xs) (wire_items xs)

  pub wire_fields : Fields → Option Bytes
  wire_fields no_fields = some []
  wire_fields (field name omit_empty v fs) =
      joined (if skips_field omit_empty v then some [] else wire v name) (wire_fields fs)

  pub wire_entries : Entries → Option Bytes
  wire_entries no_entries = some []
  wire_entries (entry k v es) = joined (wire v k) (wire_entries es)

  pub wire_items : Items → Option Bytes
  wire_items no_items = some []
  wire_items (item v xs) = joined (wire v []) (wire_items xs)
