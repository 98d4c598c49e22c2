-- ===== src/Mcpack/Dyn.antt =====
-- The values that the decoder makes for a target of type `interface{}`: `nil`, numbers as bit
-- patterns, strings, byte slices, `map[string]interface{}` and `[]interface{}`. A map is the list of
-- its entries, each key once, in the order in which the keys were first stored; Go promises no order.
use gomcpack.Prelude.{ℕ, Bool, if◌then◌else◌, bytes_eq}
use gomcpack.Go.Slice.{Bytes}

mutual
  pub data Dyn : Type 0 where
    nil : Dyn
    bool : Bool → Dyn
    int32 : ℕ → Dyn
    int64 : ℕ → Dyn
    uint32 : ℕ → Dyn
    uint64 : ℕ → Dyn
    float32 : ℕ → Dyn
    float64 : ℕ → Dyn
    string : Bytes → Dyn
    binary : Bytes → Dyn
    object : Members → Dyn
    array : Elements → Dyn

  pub data Members : Type 0 where
    no_members : Members
    member : Bytes → Dyn → Members → Members

  pub data Elements : Type 0 where
    no_elements : Elements
    element : Dyn → Elements → Elements

-- `m[k] = v`
unfoldable pub map_set : Bytes → Dyn → Members → Members
map_set k v no_members = member k v no_members
map_set k v (member j w m) = if bytes_eq j k then member j v m else member j w (map_set k v m)
