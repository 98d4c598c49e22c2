-- ===== src/Mcpack/View.antt =====
-- What a value that was marshalled is for a reader who has only `interface{}` variables: pointers and
-- interfaces are followed, structs and maps become maps, small integers become 32-bit ones.
use gomcpack.Prelude.{ℕ, ◌+◌, ◌%◌, ◌^◌, ◌<◌, ◌≡◌, false, length}
use gomcpack.Mcpack.Value.{
  IntKind, int_kind, int64_kind, UintKind, uint8_kind, uint16_kind, uint32_kind, Value, invalid,
  unsupported, bool, int, uint, float32, float64, string, bytes, nil_interface, interface, nil_ptr,
  ptr, struct, string_map, slice, array, Fields, no_fields, field, Entries, no_entries, entry,
  Items, no_items, item, count_fields, count_entries, count_items,
}
use gomcpack.Mcpack.Dyn.{Dyn, Members, no_members, Elements, no_elements, element, map_set}
use gomcpack.Mcpack.Encode.{skips_field}

abbrev pub int_view : IntKind → ℕ → Dyn
int_view int_kind n = Dyn.int64 n
int_view int64_kind n = Dyn.int64 n
int_view _ n = Dyn.int32 (n % 2 ^ 32)

abbrev pub uint_view : UintKind → ℕ → Dyn
uint_view uint8_kind n = Dyn.uint32 (n % 2 ^ 32)
uint_view uint16_kind n = Dyn.uint32 (n % 2 ^ 32)
uint_view uint32_kind n = Dyn.uint32 (n % 2 ^ 32)
uint_view _ n = Dyn.uint64 n

unfoldable mutual
  pub view : Value → Dyn
  view invalid = Dyn.nil
  view unsupported = Dyn.nil
  view (bool b) = Dyn.bool b
  view (int kind n) = int_view kind n
  view (uint kind n) = uint_view kind n
  view (float32 bits) = Dyn.float32 bits
  view (float64 bits) = Dyn.float64 bits
  view (string s) = Dyn.string s
  view (bytes s) = Dyn.binary s
  view nil_interface = Dyn.nil
  view (interface v) = view v
  view nil_ptr = Dyn.nil
  view (ptr v) = view v
  view (struct fs) = Dyn.object (view_fields no_members fs)
  view (string_map es) = Dyn.object (view_entries no_members es)
  view (slice xs) = Dyn.array (view_items xs)
  view (array xs) = Dyn.array (view_items xs)

  -- The map after the fields, or the entries, have been stored in it.
  pub view_fields : Members → Fields → Members
  view_fields m no_fields = m
  view_fields m (field name o v fs) = view_fields (map_set name (view v) m) fs

  pub view_entries : Members → Entries → Members
  view_entries m no_entries = m
  view_entries m (entry k v es) = view_entries (map_set k (view v) m) es

  pub view_items : Items → Elements
  view_items no_items = no_elements
  view_items (item v xs) = element (view v) (view_items xs)

-- A value that can be read back: its numbers are bit patterns of their width, its lengths fit 32
-- bits, every member of a container has an item, and every member of a map or a struct has a name.
unfoldable mutual
  pub IsReadable : Value → Type 0
  IsReadable invalid = ⊥
  IsReadable unsupported = ⊥
  IsReadable (bool b) = Unit
  IsReadable (int kind n) = n < 2 ^ 64
  IsReadable (uint kind n) = n < 2 ^ 64
  IsReadable (float32 bits) = bits < 2 ^ 32
  IsReadable (float64 bits) = bits < 2 ^ 64
  IsReadable (string s) = length s + 1 < 2 ^ 32
  IsReadable (bytes s) = length s < 2 ^ 32
  IsReadable nil_interface = Unit
  IsReadable (interface v) = IsReadable v
  IsReadable nil_ptr = Unit
  IsReadable (ptr v) = IsReadable v
  IsReadable (struct fs) = (count_fields fs < 2 ^ 32) × AreReadableFields fs
  IsReadable (string_map es) = (count_entries es < 2 ^ 32) × AreReadableEntries es
  IsReadable (slice xs) = (count_items xs < 2 ^ 32) × AreReadableItems xs
  IsReadable (array xs) = (count_items xs < 2 ^ 32) × AreReadableItems xs

  pub AreReadableFields : Fields → Type 0
  AreReadableFields no_fields = Unit
  AreReadableFields (field name o v fs) =
      (0 < length name) × (skips_field o v ≡ false) × IsReadable v × AreReadableFields fs

  pub AreReadableEntries : Entries → Type 0
  AreReadableEntries no_entries = Unit
  AreReadableEntries (entry k v es) = (0 < length k) × IsReadable v × AreReadableEntries es

  pub AreReadableItems : Items → Type 0
  AreReadableItems no_items = Unit
  AreReadableItems (item v xs) = IsReadable v × AreReadableItems xs
