-- ===== src/Mcpack/Decode/Loops.antt =====
-- mcpack/decode.go: `object` and `array` of the typed decoder by the kind of the variable, with what
-- they do for one member or element as an argument.
use gomcpack.Prelude.{
  ℕ, zero, suc, Option, none, some, List, [], ◌∷◌, ◌++◌, length, take, drop, replicate, map, ltb,
  ◌==◌, bytes_eq, if◌then◌else◌,
}
use gomcpack.Go.Slice.{Bytes}
use gomcpack.Go.Proc.{◌>>=◌, ◌>>◌, pure, lift}
use gomcpack.Mcpack.GoType.{Elems}
use gomcpack.Mcpack.Decode.State.{Decoder, key, next}
use gomcpack.Mcpack.Decode.Interface.{container_header}
use gomcpack.Mcpack.Decode.Setters.{wrong_value, not_settable}

-- An object for a variable that is no map, no struct and no `interface{}`: with the first member the
-- search for fields panics.
unfoldable pub plain_object : {A : Type 0} → A → Decoder A
unfolding container_header
plain_object v = do
  n ← container_header
  if n == 0 then pure v else (do subk ← key; lift not_settable)

-- An array for a variable with no length: `v.Len()` panics.
unfoldable pub plain_array : {A : Type 0} → Decoder A
unfolding container_header
plain_array = do n ← container_header; lift wrong_value

-- `for i := 0; i < n; i++ { d.value(reflect.Value{}) }`
unfoldable pub skip_items : ℕ → Decoder (Unit {0})
skip_items zero = pure tt
skip_items (suc n) = do bs ← next; skip_items n

module _ {A : Type 0} where
  -- The loop of `object`, with what it does for one member.
  unfoldable pub members_into : (Bytes → A → Decoder A) → ℕ → A → Decoder A
  members_into store zero a = pure a
  members_into store (suc n) a = do subk ← key; b ← store subk a; members_into store n b

  -- The loop of `array` over the elements of a slice, which are as many as the items.
  unfoldable pub each_into : (A → Decoder A) → List A → Decoder (List A)
  each_into store [] = pure []
  each_into store (v ∷ vs) = do w ← store v; ws ← each_into store vs; pure (w ∷ ws)

module _ {A : Type 0} where
  -- The loop over the elements of an array: items for which there is no element are skipped, elements
  -- for which there is no item are set to zero.
  unfoldable pub fill_into : (A → Decoder A) → A → ℕ → List A → Decoder (List A)
  unfolding skip_items
  fill_into store z zero vs = pure (map (λ v. z) vs)
  fill_into store z (suc n) [] = do skip_items (suc n); pure []
  fill_into store z (suc n) (v ∷ vs) = do w ← store v; ws ← fill_into store z n vs; pure (w ∷ ws)

  -- `if n > v.Cap() { v.Set(reflect.MakeSlice(…, n, n)) }; v.SetLen(n)`: the elements, and those
  -- behind the length.
  abbrev pub elements : Option (Elems A) → List A
  elements none = []
  elements (some (shown, hidden)) = shown ++ hidden

  unfoldable pub set_len : A → ℕ → Option (Elems A) → Elems A
  set_len z n v =
      if ltb (length (elements v)) n
      then (replicate n z, [])
      else (take n (elements v), drop n (elements v))

  unfoldable pub slice_into : (A → Decoder A) → A → Option (Elems A) → Decoder (Option (Elems A))
  unfolding container_header set_len each_into
  slice_into store z v = do
    n ← container_header
    ws ← each_into store (set_len z n v).0
    if n == 0 then pure (some ([], [])) else pure (some (ws, (set_len z n v).1))

  unfoldable pub array_into : (A → Decoder A) → A → List A → Decoder (List A)
  unfolding container_header fill_into
  array_into store z vs = do n ← container_header; fill_into store z n vs

  -- `m[k] = v` in the order in which the keys were first stored.
  unfoldable pub entry_set : Bytes → A → List (Bytes × A) → List (Bytes × A)
  entry_set k v [] = (k, v) ∷ []
  entry_set k v ((j, w) ∷ m) = if bytes_eq j k then (j, v) ∷ m else (j, w) ∷ entry_set k v m

  abbrev pub entries : Option (List (Bytes × A)) → List (Bytes × A)
  entries none = []
  entries (some m) = m

  -- A map gets a new element, set to zero before, for each member.
  unfoldable pub store_entry : Decoder A → Bytes → List (Bytes × A) → Decoder (List (Bytes × A))
  unfolding entry_set
  store_entry value k m = do w ← value; pure (entry_set k w m)

  unfoldable pub map_into :
      Decoder A → Option (List (Bytes × A)) → Decoder (Option (List (Bytes × A)))
  unfolding container_header members_into store_entry
  map_into value v = do
    n ← container_header
    m ← members_into (store_entry value) n (entries v)
    pure (some m)

  -- An array for a map: the items are skipped if the map is empty, and else `v.Index` panics.
  unfoldable pub map_array : Option (List (Bytes × A)) → Decoder (Option (List (Bytes × A)))
  unfolding container_header skip_items
  map_array v = container_header >>= λ n.
      if length (entries v) == 0
      then (skip_items n >>= λ _. pure v)
      else if n == 0
      then pure v
      else lift wrong_value
