-- ===== src/Mcpack/RoundTrip/Typed.antt =====
-- `Unmarshal` into a new variable, after `Marshal` of a variable of the same type.
use gomcpack.Prelude.{
  ℕ, suc, ◌+◌, ◌<◌, ◌≡◌, refl, ap, sym, ◌∙◌, true, false, Option, none, some, List, [], ◌∷◌,
  append-nil, arith, length, subst, replicate,
}
use gomcpack.Go.{done, ok}
use gomcpack.Go.Slice.{Bytes}
use gomcpack.Go.Proc.{and_then}
use gomcpack.Mcpack.Const.{object_type, null_type}
use gomcpack.Mcpack.Dyn.{Dyn}
use gomcpack.Mcpack.Value.{Value, uint8_kind, count_fields}
use gomcpack.Mcpack.GoType.{
  GoType, bool, int, uint, float32, float64, string, interface, ptr, struct, string_map, slice,
  array, custom, FieldTypes, no_fields, field, Elems, Var, Vars, zero_var, zero_vars,
}
use gomcpack.Mcpack.Wire.{wire, wire_fields}
use gomcpack.Mcpack.View.{IsReadable, AreReadableFields, view}
use gomcpack.Mcpack.Reflect.{
  value_of, fields_of, items_of, slice_of, held, IsStorable, AreStorable, Each, StorableDyn,
  StorableSlice, StorableMap, StorablePtr, map_of, ptr_of, shown,
}
use gomcpack.Mcpack.Encode.{marshal_value}
use gomcpack.Mcpack.Encode.Refine.{marshal_value-wire}
use gomcpack.Mcpack.Decode.{Decoder, object_interface, value_of_type, value_interface}
use gomcpack.Mcpack.Decode.Loops.{members_into, slice_into, fill_into, array_into, map_into}
use gomcpack.Mcpack.Decode.Typed.{
  Library, decode, store_at, member_test, finish_typed, unmarshal_typed,
}
use gomcpack.Mcpack.Decode.Reads.{
  state, Stands, Stands-front, Reads, Reads-map, Reads-pure, Sees-bind, Sees-peek,
}
use gomcpack.Mcpack.Decode.ReadsItems.{Reads-null_into}
use gomcpack.Mcpack.RoundTrip.Inversion.{joined-eq-some, container_wire-eq-some}
use gomcpack.Mcpack.RoundTrip.Names.{key-wire}
use gomcpack.Mcpack.RoundTrip.Pieces.{of_named, nothing_left, fits_front, fits_back}
use gomcpack.Mcpack.RoundTrip.Values.{value_interface-wire}
use gomcpack.Mcpack.RoundTrip.Whole.{marshalled_wire}
use gomcpack.Mcpack.RoundTrip.TypedFirst.{wire-NotNull}
use gomcpack.Mcpack.RoundTrip.TypedItems.{
  by_item, item_of-string, item_of-binary, item_of-float, item_of-double, item_of-false,
  item_of-true, item_of-null, item_of-object, item_of-array, read_int, read_uint,
}
use gomcpack.Mcpack.RoundTrip.TypedLoops.{
  ReadsAll, into_nil_slice, fill_into-wire, into_nil_slice-wire, members_into-round,
  length-items_of, members_into-entries,
}
use gomcpack.Mcpack.RoundTrip.TypedFields.{
  Treats, Treats-first, Treats-rest, store_at-member_test, and_then-pure,
}

-- An object for an `interface{}` is read as `valueInterface` reads it.
object_interface-of_value :
    (f : ℕ) {ys : Bytes} {d : Dyn}
    → Reads (value_interface (suc f)) (object_type ∷ ys) d
    → Reads (object_interface (value_interface f)) (object_type ∷ ys) d
unfolding value_interface value_of_type
object_interface-of_value f {ys} r = record {
  at = λ input spare off s.
      sym (
        ap (λ x. and_then x (value_of_type (value_interface f)))
          ((Sees-peek object_type).at input spare off (Stands-front (object_type ∷ []) ys s)))
      ∙ r.at input spare off s;
}

module _ (lib : Library) (fuel : ℕ) where
  read_map :
      (τ : GoType) (w : Option (List (Bytes × Var τ))) (k xs : Bytes)
      → ReadsAll (value_of τ) (IsStorable lib τ) fuel (decode lib fuel τ (zero_var τ))
      → IsReadable (map_of (value_of τ) w)
      → StorableMap (IsStorable lib τ) w
      → wire (map_of (value_of τ) w) k ≡ some xs
      → length xs < fuel
      → Reads (decode lib fuel (string_map τ) none) xs w
  unfolding decode wire IsReadable map_into
  read_map τ none k xs read r p e h = absurd p
  read_map τ (some m) k xs read r p e h =
      item_of-object lib (string_map τ) none _ k _ _ r.0 _ e λ ys q short. Reads-map some (
        members_into-entries (value_of τ) (IsStorable lib τ) fuel (decode lib fuel τ (zero_var τ))
          read m [] ys r.1 p q (omega arith))

  read_array :
      (n : ℕ) (τ : GoType) (vs : List (Var τ)) (k xs : Bytes)
      → ReadsAll (value_of τ) (IsStorable lib τ) fuel (decode lib fuel τ (zero_var τ))
      → IsReadable (Value.array (items_of (value_of τ) vs))
      → length vs ≡ n
      → Each (IsStorable lib τ) vs
      → wire (Value.array (items_of (value_of τ) vs)) k ≡ some xs
      → length xs < fuel
      → Reads (decode lib fuel (array n τ) (replicate n (zero_var τ))) xs vs
  unfolding decode wire IsReadable array_into
  read_array n τ vs k xs read r same p e h =
      subst (λ (n : ℕ). Reads (decode lib fuel (array n τ) (replicate n (zero_var τ))) xs vs) same
        (item_of-array lib (array (length vs) τ) (replicate (length vs) (zero_var τ)) _ k _ _ r.0 _
          e
          λ ys q short.
            subst
              (λ (c : ℕ).
                Reads
                  (fill_into (decode lib fuel τ) (zero_var τ) c
                    (replicate (length vs) (zero_var τ)))
                  ys vs)
              (sym (length-items_of (value_of τ) vs))
              (fill_into-wire (value_of τ) (IsStorable lib τ) fuel (decode lib fuel τ) (zero_var τ)
                read vs ys r.1 p q (omega arith)))

  read_items :
      (τ : GoType) (vs : List (Var τ)) (k xs : Bytes)
      → ReadsAll (value_of τ) (IsStorable lib τ) fuel (decode lib fuel τ (zero_var τ))
      → IsReadable (Value.slice (items_of (value_of τ) vs))
      → Each (IsStorable lib τ) vs
      → wire (Value.slice (items_of (value_of τ) vs)) k ≡ some xs
      → length xs < fuel
      → Reads (decode lib fuel (slice τ) none) xs (some (vs, []))
  unfolding decode wire IsReadable slice_into
  read_items τ vs k xs read r p e h = item_of-array lib (slice τ) none _ k _ _ r.0 _ e λ ys q short.
      subst
        (λ (c : ℕ). Reads (into_nil_slice (decode lib fuel τ) (zero_var τ) c) ys (some (vs, [])))
        (sym (length-items_of (value_of τ) vs))
        (into_nil_slice-wire (value_of τ) (IsStorable lib τ) fuel (decode lib fuel τ) (zero_var τ)
          read vs ys r.1 p q (omega arith))

  read_slice :
      (τ : GoType) (w : Option (Elems (Var τ))) (k xs : Bytes)
      → ReadsAll (value_of τ) (IsStorable lib τ) fuel (decode lib fuel τ (zero_var τ))
      → IsReadable (slice_of τ (value_of τ) (shown w))
      → StorableSlice (IsStorable lib τ) w
      → wire (slice_of τ (value_of τ) (shown w)) k ≡ some xs
      → length xs < fuel
      → Reads (decode lib fuel (slice τ) none) xs w
  unfolding decode wire IsReadable slice_into
  read_slice τ none k xs read r p e h = absurd p
  read_slice τ (some (vs, v ∷ hidden)) k xs read r p e h = absurd p
  read_slice (uint uint8_kind) (some (vs, [])) k xs read r p e h =
      of_named k _ (item_of-binary lib (slice (uint uint8_kind)) none _ _ k vs r refl) e
  read_slice τ (some (vs, [])) k xs read r p e h = read_items τ vs k xs read r p e h

  read_ptr :
      (τ : GoType) (w : Option (Var τ)) (k xs : Bytes)
      → ReadsAll (value_of τ) (IsStorable lib τ) fuel (decode lib fuel τ (zero_var τ))
      → IsReadable (ptr_of (value_of τ) w)
      → StorablePtr (value_of τ) (IsStorable lib τ) w
      → wire (ptr_of (value_of τ) w) k ≡ some xs
      → length xs < fuel
      → Reads (decode lib fuel (ptr τ) none) xs w
  unfolding decode wire IsReadable
  read_ptr τ none k xs read r p e h =
      of_named k _
        (Sees-bind _ (null_type ∷ []) _ (Sees-peek null_type)
          (Reads-null_into _ k (done none) refl))
        e
  read_ptr τ (some w) k xs read r (nonnull, p) e h =
      let first = wire-NotNull (value_of τ w) k xs r nonnull e in
      let there = read w k xs r p e h in
      subst (λ (xs : Bytes). Reads (decode lib fuel (ptr τ) none) xs (some w)) (sym first.split)
        (Sees-bind _ (first.first ∷ []) first.rest (Sees-peek first.first) (
          rw first.other (
            Reads-map some (
              subst (λ (xs : Bytes). Reads (decode lib fuel τ (zero_var τ)) xs w) first.split
                there))))

  read_held :
      (w : Dyn) (k xs : Bytes)
      → IsReadable (held w)
      → StorableDyn w
      → wire (held w) k ≡ some xs
      → length xs < fuel
      → Reads (decode lib fuel interface Dyn.nil) xs w
  unfolding decode wire IsReadable held view
  read_held Dyn.nil k xs r p e h =
      of_named k _ (item_of-null lib interface Dyn.nil _ _ k Dyn.nil refl) e
  read_held (Dyn.object m) k xs r p e h =
      let (ys, e1, e2) = container_wire-eq-some object_type k _ _ e in
      let read = value_interface-wire (held (Dyn.object m)) k xs (suc fuel) r e (omega arith) in
      subst (λ (xs : Bytes). Reads (decode lib fuel interface Dyn.nil) xs (Dyn.object m)) e2
        (by_item lib interface Dyn.nil _ _ (
          object_interface-of_value fuel (
            subst (λ (xs : Bytes). Reads (value_interface (suc fuel)) xs (Dyn.object m)) (sym e2)
              (subst (λ (d : Dyn). Reads (value_interface (suc fuel)) xs d) p read))))
  read_held _ k xs r p e h = absurd p

  mutual
    unfolding value_of IsStorable decode wire IsReadable

    pub read_typed :
        (τ : GoType)
        → ReadsAll (value_of τ) (IsStorable lib τ) fuel (decode lib fuel τ (zero_var τ))
    read_typed bool true k xs r p e h = of_named k _ (item_of-true lib bool _ _ _ k refl) e
    read_typed bool false k xs r p e h = of_named k _ (item_of-false lib bool _ _ _ k refl) e
    read_typed (int kind) n k xs r p e h = of_named k _ (read_int lib k n kind _ _ _ r p) e
    read_typed (uint kind) n k xs r p e h = of_named k _ (read_uint lib k n kind _ _ _ r p) e
    read_typed float32 n k xs r p e h =
        of_named k _ (item_of-float lib float32 _ _ _ k n r (ap (λ (x : ℕ). done x) p)) e
    read_typed float64 n k xs r p e h = of_named k _ (item_of-double lib float64 _ _ _ k n r refl) e
    read_typed string s k xs r p e h = of_named k _ (item_of-string lib string _ _ _ k s r refl) e
    read_typed interface w k xs r p e h = read_held w k xs r p e h
    read_typed (ptr τ) w k xs r p e h = read_ptr τ w k xs (read_typed τ) r p e h
    read_typed (struct fs) ws k xs r p e h =
        item_of-object lib (struct fs) _ _ k _ _ r.0 _ e λ ys q short.
          read_fields fs fs ws (λ k. store_at lib fuel fs (member_test lib fs k)) (λ vs. vs) ys r.1
            p
            (λ k vs s named. store_at-member_test lib fuel fs k vs s named ∙ sym (and_then-pure _))
            q (omega arith)
    read_typed (string_map τ) w k xs r p e h = read_map τ w k xs (read_typed τ) r p e h
    read_typed (slice τ) w k xs r p e h = read_slice τ w k xs (read_typed τ) r p e h
    read_typed (array n τ) vs k xs r p e h = read_array n τ vs k xs (read_typed τ) r p.0 p.1 e h
    read_typed custom s k xs r p e h = absurd p

    read_fields :
        (fs gs : FieldTypes) (ws : Vars gs) (store : Bytes → Vars fs → Decoder (Vars fs))
        (put : Vars gs → Vars fs) (xs : Bytes)
        → AreReadableFields (fields_of gs ws)
        → AreStorable lib gs ws
        → Treats lib fuel gs store put
        → wire_fields (fields_of gs ws) ≡ some xs
        → length xs < fuel
        → Reads
            (members_into store (count_fields (fields_of gs ws)) (put (zero_vars gs)))
            xs
            (put ws)
    read_fields fs no_fields ws store put xs r p t e h = nothing_left (Reads-pure _) e
    read_fields fs (field name o τ gs) (w, ws) store put xs r p t e h =
        let (ys, zs, e1, e2, e3) =
          joined-eq-some (wire (value_of τ w) name) (wire_fields (fields_of gs ws)) (rw r.1 at e) in
        let n = count_fields (fields_of gs ws) in
        let zeros = zero_vars gs in
        let read = read_typed τ w name ys r.2 p.1 e1 (fits_front ys zs e3 h) in
        let rest =
          read_fields fs gs ws store (λ vs. put (w, vs)) zs r.3 p.2
            (Treats-rest lib fuel name o τ gs store put t w p.0) e2 (fits_back ys zs e3 h) in
        subst
          (λ (xs : Bytes).
            Reads (members_into store (suc n) (put (zero_var τ, zeros))) xs (put (w, ws)))
          e3
          (members_into-round store n _ (put (w, zeros)) name ys zs
            (key-wire (value_of τ w) name ys r.2 r.0 e1)
            (record {
              at = λ input spare off s.
                  Treats-first lib fuel name o τ gs store put t (zero_var τ) zeros
                    (state input spare off)
                  ∙ (Reads-map (λ w. put (w, zeros)) read).at input spare off s;
            })
            rest)

-- What `Marshal` returned for a variable, `Unmarshal` reads back into a new variable of its type, to
-- the last byte and whatever lies behind the input in its array: numbers of each width, strings,
-- bytes, pointers, slices, arrays, maps with string keys, and structs, whose members find their
-- fields by name. Two conditions bound the variables. `IsReadable`: no field of a struct is left out
-- for `omitempty`, every field and key has a name that is not empty, numbers are patterns of their
-- width, and the lengths of strings and byte slices and the counts of members and elements fit 32
-- bits. `IsStorable`: numbers fit the type, no map or slice is nil, no slice has elements behind its
-- length, no pointer points to something whose item is null, an array has its length, the fields of a
-- struct and the keys of a map have different names, a `float32` is kept by the conversion to
-- `float64` and back, an `interface{}` holds nil or a map that the decoder makes, and no type has the
-- method `UnmarshalMCPACK`.
pub unmarshal_typed-marshal_value :
    (lib : Library) (τ : GoType) (w : Var τ) (xs spare : Bytes)
    → IsReadable (value_of τ w)
    → IsStorable lib τ w
    → marshal_value (value_of τ w) ≡ done (ok xs)
    → unmarshal_typed lib τ (some (zero_var τ)) xs spare ≡ done (ok w)
unfolding unmarshal_typed finish_typed
unmarshal_typed-marshal_value lib τ w xs spare r p h =
    let written =
      marshalled_wire (wire (value_of τ w) []) (sym (marshal_value-wire (value_of τ w)) ∙ h) in
    let whole : Stands xs 0 xs = record {
      rest = [];
      found = sym (append-nil xs);
      within = omega arith;
    } in
    let run =
      (read_typed lib (length xs + 1) τ w [] xs r p written (omega arith)).at xs spare 0 whole in
    ap finish_typed run ∙ ground arith
