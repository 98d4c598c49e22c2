-- ===== src/Mcpack/RoundTrip/Values.antt =====
-- `valueInterface` takes exactly the item of a value, and returns its view.
use gomcpack.Prelude.{ℕ, zero, suc, ◌<◌, ◌≡◌, true, false, some, [], arith, length, subst}
use gomcpack.Go.Slice.{Bytes}
use gomcpack.Mcpack.Number.{float32 as load_float32, float64 as load_float64}
use gomcpack.Mcpack.Value.{
  Value, invalid, unsupported, bool, int, uint, float32, float64, string, bytes, nil_interface,
  interface, nil_ptr, ptr, struct, string_map, slice, array, Fields, no_fields, field, Entries,
  no_entries, entry, Items, no_items, item, count_fields, count_entries, count_items,
}
use gomcpack.Mcpack.Dyn.{Dyn, Members, no_members, no_elements, element, map_set}
use gomcpack.Mcpack.Wire.{wire, wire_fields, wire_entries, wire_items}
use gomcpack.Mcpack.View.{
  view, view_fields, view_entries, view_items, IsReadable, AreReadableFields, AreReadableEntries,
  AreReadableItems,
}
use gomcpack.Mcpack.Decode.{
  members_loop, elements_loop, value_of_type, value_interface, float_interface, double_interface,
}
use gomcpack.Mcpack.Decode.Reads.{Reads, Reads-pure}
use gomcpack.Mcpack.Decode.ReadsItems.{
  Reads-number32, Reads-number64, Reads-null, Reads-true, Reads-false,
}
use gomcpack.Mcpack.RoundTrip.Inversion.{joined-eq-some}
use gomcpack.Mcpack.RoundTrip.Names.{key-wire}
use gomcpack.Mcpack.RoundTrip.Pieces.{
  by_type, read_int, read_uint, read_string, read_binary, read_object, read_array, next_member,
  next_element, nothing_left, fits_front, fits_back, of_named,
}

mutual
  unfolding wire view IsReadable value_of_type float_interface double_interface load_float32
      load_float64

  read_value :
      (v : Value) (k xs : Bytes) (f : ℕ)
      → IsReadable v
      → wire v k ≡ some xs
      → length xs < f
      → Reads (value_interface f) xs (view v)
  read_value v k xs zero r e h = absurd (omega arith)
  read_value invalid k xs (suc f) r e h = absurd r
  read_value unsupported k xs (suc f) r e h = absurd r
  read_value (bool true) k xs (suc f) r e h = of_named k _ (by_type f (Reads-true _ k)) e
  read_value (bool false) k xs (suc f) r e h = of_named k _ (by_type f (Reads-false _ k)) e
  read_value (int kind n) k xs (suc f) r e h = of_named k _ (read_int f k kind n r) e
  read_value (uint kind n) k xs (suc f) r e h = of_named k _ (read_uint f k kind n r) e
  read_value (float32 bits) k xs (suc f) r e h =
      of_named k _ (by_type f (Reads-number32 _ k Dyn.float32 bits r)) e
  read_value (float64 bits) k xs (suc f) r e h =
      of_named k _ (by_type f (Reads-number64 _ k Dyn.float64 bits r)) e
  read_value (string s) k xs (suc f) r e h = of_named k _ (read_string f k s r) e
  read_value (bytes s) k xs (suc f) r e h = of_named k _ (read_binary f k s r) e
  read_value nil_interface k xs (suc f) r e h = of_named k _ (by_type f (Reads-null _ k)) e
  read_value (interface v) k xs (suc f) r e h = read_value v k xs (suc f) r e h
  read_value nil_ptr k xs (suc f) r e h = of_named k _ (by_type f (Reads-null _ k)) e
  read_value (ptr v) k xs (suc f) r e h = read_value v k xs (suc f) r e h
  read_value (struct fs) k xs (suc f) r e h =
      read_object f k (count_fields fs) (wire_fields fs) _ r.0 e
        (λ ys p short. read_fields fs no_members ys f r.1 p (omega arith))
  read_value (string_map es) k xs (suc f) r e h =
      read_object f k (count_entries es) (wire_entries es) _ r.0 e
        (λ ys p short. read_entries es no_members ys f r.1 p (omega arith))
  read_value (slice vs) k xs (suc f) r e h =
      read_array f k (count_items vs) (wire_items vs) _ r.0 e
        (λ ys p short. read_items vs ys f r.1 p (omega arith))
  read_value (array vs) k xs (suc f) r e h =
      read_array f k (count_items vs) (wire_items vs) _ r.0 e
        (λ ys p short. read_items vs ys f r.1 p (omega arith))

  read_fields :
      (fs : Fields) (m : Members) (xs : Bytes) (f : ℕ)
      → AreReadableFields fs
      → wire_fields fs ≡ some xs
      → length xs < f
      → Reads (members_loop (value_interface f) (count_fields fs) m) xs (view_fields m fs)
  read_fields no_fields m xs f r e h = nothing_left (Reads-pure m) e
  read_fields (field name o v fs) m xs f r e h =
      let (ys, zs, e1, e2, e3) = joined-eq-some (wire v name) (wire_fields fs) (rw r.1 at e) in
      subst
        (λ (xs : Bytes).
          Reads (members_loop (value_interface f) (suc (count_fields fs)) m) xs
            (view_fields (map_set name (view v) m) fs))
        e3
        (next_member (value_interface f) (count_fields fs) m name (key-wire v name ys r.2 r.0 e1)
          (read_value v name ys f r.2 e1 (fits_front ys zs e3 h))
          (read_fields fs (map_set name (view v) m) zs f r.3 e2 (fits_back ys zs e3 h)))

  read_entries :
      (es : Entries) (m : Members) (xs : Bytes) (f : ℕ)
      → AreReadableEntries es
      → wire_entries es ≡ some xs
      → length xs < f
      → Reads (members_loop (value_interface f) (count_entries es) m) xs (view_entries m es)
  read_entries no_entries m xs f r e h = nothing_left (Reads-pure m) e
  read_entries (entry k v es) m xs f r e h =
      let (ys, zs, e1, e2, e3) = joined-eq-some (wire v k) (wire_entries es) e in
      subst
        (λ (xs : Bytes).
          Reads (members_loop (value_interface f) (suc (count_entries es)) m) xs
            (view_entries (map_set k (view v) m) es))
        e3
        (next_member (value_interface f) (count_entries es) m k (key-wire v k ys r.1 r.0 e1)
          (read_value v k ys f r.1 e1 (fits_front ys zs e3 h))
          (read_entries es (map_set k (view v) m) zs f r.2 e2 (fits_back ys zs e3 h)))

  read_items :
      (vs : Items) (xs : Bytes) (f : ℕ)
      → AreReadableItems vs
      → wire_items vs ≡ some xs
      → length xs < f
      → Reads (elements_loop (value_interface f) (count_items vs)) xs (view_items vs)
  read_items no_items xs f r e h = nothing_left (Reads-pure no_elements) e
  read_items (item v vs) xs f r e h =
      let (ys, zs, e1, e2, e3) = joined-eq-some (wire v []) (wire_items vs) e in
      subst
        (λ (xs : Bytes).
          Reads (elements_loop (value_interface f) (suc (count_items vs))) xs
            (element (view v) (view_items vs)))
        e3
        (next_element (value_interface f) (count_items vs)
          (read_value v [] ys f r.0 e1 (fits_front ys zs e3 h))
          (read_items vs zs f r.1 e2 (fits_back ys zs e3 h)))

-- With fuel above the length of its item, `valueInterface` returns the view of a readable value from
-- any place in any input where the item stands, and moves just behind the item.
pub value_interface-wire :
    (v : Value) (k xs : Bytes) (f : ℕ)
    → IsReadable v
    → wire v k ≡ some xs
    → length xs < f
    → Reads (value_interface f) xs (view v)
value_interface-wire = read_value
