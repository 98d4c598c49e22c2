-- ===== src/Mcpack/Reflect.antt =====
-- What `Marshal` sees of a variable: the tree of mcpack/encode.go's kinds for a variable of each
-- type, and when `Unmarshal` can store such a variable again.
use gomcpack.Prelude.{
  ◌%◌, ◌^◌, ◌≡◌, Bool, true, false, Option, none, some, List, [], ◌∷◌, ◌++◌, length, bytes_eq,
  if◌then◌else◌,
}
use gomcpack.Go.Slice.{Bytes}
use gomcpack.Mcpack.Dyn.{Dyn, Members, no_members, member, Elements, no_elements, element}
use gomcpack.Mcpack.Value
use gomcpack.Mcpack.Value.{
  Value, Fields, Entries, no_entries, entry, Items, no_items, item, nil_interface, nil_ptr,
  int32_kind, int64_kind, uint8_kind, uint32_kind, uint64_kind,
}
use gomcpack.Mcpack.View.{view}
use gomcpack.Mcpack.GoType.{
  GoType, bool, int, uint, float32, float64, string, interface, ptr, struct, string_map, slice,
  array, custom, FieldTypes, no_fields, field, Elems, Var, Vars, int_width, uint_width, extend,
}
use gomcpack.Mcpack.Decode.Typed.{Library}
use gomcpack.Mcpack.Decode.Typed.{has_name}

-- A value that the decoder has stored in an `interface{}`.
unfoldable mutual
  pub held : Dyn → Value
  held Dyn.nil = nil_interface
  held (Dyn.bool b) = Value.interface (Value.bool b)
  held (Dyn.int32 n) = Value.interface (Value.int int32_kind n)
  held (Dyn.int64 n) = Value.interface (Value.int int64_kind n)
  held (Dyn.uint32 n) = Value.interface (Value.uint uint32_kind n)
  held (Dyn.uint64 n) = Value.interface (Value.uint uint64_kind n)
  held (Dyn.float32 n) = Value.interface (Value.float32 n)
  held (Dyn.float64 n) = Value.interface (Value.float64 n)
  held (Dyn.string s) = Value.interface (Value.string s)
  held (Dyn.binary s) = Value.interface (Value.bytes s)
  held (Dyn.object m) = Value.interface (Value.string_map (held_members m))
  held (Dyn.array vs) = Value.interface (Value.slice (held_elements vs))

  pub held_members : Members → Entries
  held_members no_members = no_entries
  held_members (member k v m) = entry k (held v) (held_members m)

  pub held_elements : Elements → Items
  held_elements no_elements = no_items
  held_elements (element v vs) = item (held v) (held_elements vs)

module _ {A : Type 0} where
  abbrev pub items_of : (A → Value) → List A → Items
  items_of f [] = no_items
  items_of f (v ∷ vs) = item (f v) (items_of f vs)

  abbrev pub entries_of : (A → Value) → List (Bytes × A) → Entries
  entries_of f [] = no_entries
  entries_of f ((k, v) ∷ m) = entry k (f v) (entries_of f m)

  abbrev pub ptr_of : (A → Value) → Option A → Value
  ptr_of f none = nil_ptr
  ptr_of f (some v) = Value.ptr (f v)

  abbrev pub map_of : (A → Value) → Option (List (Bytes × A)) → Value
  map_of f none = Value.string_map no_entries
  map_of f (some m) = Value.string_map (entries_of f m)

  abbrev pub shown : Option (Elems A) → List A
  shown none = []
  shown (some (vs, hidden)) = vs

-- A slice of bytes is written as such.
abbrev pub slice_of : (τ : GoType) → (Var τ → Value) → List (Var τ) → Value
slice_of (uint uint8_kind) f vs = Value.bytes vs
slice_of τ f vs = Value.slice (items_of f vs)

unfoldable mutual
  pub value_of : (τ : GoType) → Var τ → Value
  value_of bool b = Value.bool b
  value_of (int kind) n = Value.int kind n
  value_of (uint kind) n = Value.uint kind n
  value_of float32 n = Value.float32 n
  value_of float64 n = Value.float64 n
  value_of string s = Value.string s
  value_of interface v = held v
  value_of (ptr τ) v = ptr_of (value_of τ) v
  value_of (struct fs) vs = Value.struct (fields_of fs vs)
  value_of (string_map τ) v = map_of (value_of τ) v
  value_of (slice τ) v = slice_of τ (value_of τ) (shown v)
  value_of (array n τ) vs = Value.array (items_of (value_of τ) vs)
  value_of custom s = Value.bytes s

  pub fields_of : (fs : FieldTypes) → Vars fs → Fields
  fields_of no_fields vs = Value.no_fields
  fields_of (field name o τ fs) (v, vs) = Value.field name o (value_of τ v) (fields_of fs vs)

-- The item of the value is none for null.
abbrev pub IsNotNull : Value → Type 0
IsNotNull nil_interface = ⊥
IsNotNull nil_ptr = ⊥
IsNotNull (Value.interface v) = IsNotNull v
IsNotNull (Value.ptr v) = IsNotNull v
IsNotNull v = Unit

module _ {A : Type 0} where
  abbrev pub Each : (A → Type 0) → List A → Type 0
  Each P [] = Unit
  Each P (v ∷ vs) = P v × Each P vs

  abbrev pub has_key : Bytes → List (Bytes × A) → Bool
  has_key k [] = false
  has_key k ((j, w) ∷ m) = if bytes_eq j k then true else has_key k m

  -- Each key once, and none of those in front.
  abbrev pub EachEntry : (A → Type 0) → List (Bytes × A) → List (Bytes × A) → Type 0
  EachEntry P before [] = Unit
  EachEntry P before ((k, v) ∷ m) =
      (has_key k before ≡ false) × P v × EachEntry P (before ++ (k, v) ∷ []) m

  abbrev pub StorablePtr : (A → Value) → (A → Type 0) → Option A → Type 0
  StorablePtr f P none = Unit
  StorablePtr f P (some v) = IsNotNull (f v) × P v

  abbrev pub StorableMap : (A → Type 0) → Option (List (Bytes × A)) → Type 0
  StorableMap P none = ⊥
  StorableMap P (some m) = EachEntry P [] m

  abbrev pub StorableSlice : (A → Type 0) → Option (Elems A) → Type 0
  StorableSlice P none = ⊥
  StorableSlice P (some (vs, [])) = Each P vs
  StorableSlice P (some (vs, v ∷ hidden)) = ⊥

abbrev pub StorableDyn : Dyn → Type 0
StorableDyn Dyn.nil = Unit
StorableDyn (Dyn.object m) = view (held (Dyn.object m)) ≡ Dyn.object m
StorableDyn v = ⊥

-- A variable that `Unmarshal` makes from a new one: its numbers fit the type, a pointer points to
-- nothing whose item is null, no map or slice is nil, a slice has nothing behind its length, an array
-- has its length, the keys of a map and the fields of a struct have different names, and an
-- `interface{}` holds nil or a map that the decoder makes. Types with `UnmarshalMCPACK` are left out.
unfoldable mutual
  unfolding held view

  pub IsStorable : Library → (τ : GoType) → Var τ → Type 0
  IsStorable lib bool b = Unit
  IsStorable lib (int kind) n = extend (int_width kind) n ≡ n
  IsStorable lib (uint kind) n = n % 2 ^ uint_width kind ≡ n
  IsStorable lib float32 n = lib.narrow (lib.widen n) ≡ n
  IsStorable lib float64 n = Unit
  IsStorable lib string s = Unit
  IsStorable lib interface v = StorableDyn v
  IsStorable lib (ptr τ) v = StorablePtr (value_of τ) (IsStorable lib τ) v
  IsStorable lib (struct fs) vs = AreStorable lib fs vs
  IsStorable lib (string_map τ) v = StorableMap (IsStorable lib τ) v
  IsStorable lib (slice τ) v = StorableSlice (IsStorable lib τ) v
  IsStorable lib (array n τ) vs = (length vs ≡ n) × Each (IsStorable lib τ) vs
  IsStorable lib custom s = ⊥

  pub AreStorable : Library → (fs : FieldTypes) → Vars fs → Type 0
  AreStorable lib no_fields vs = Unit
  AreStorable lib (field name o τ fs) (v, vs) =
      (has_name (λ n. bytes_eq n name) fs ≡ false) × IsStorable lib τ v × AreStorable lib fs vs
