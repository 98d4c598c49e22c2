-- ===== src/Mcpack/RoundTrip/Whole.antt =====
-- `Unmarshal` into an `interface{}` after `Marshal`.
use gomcpack.Prelude.{
  ℕ, suc, ◌+◌, ◌<◌, ◌≡◌, refl, ap, sym, ◌∙◌, true, false, Option, none, some, [], ◌∷◌, append-nil,
  arith, length, ltb, leb, Bool-cases, inl, inr,
}
use gomcpack.Go.{Go, done, panic, out_of_fuel, raised, Returns, ok, err, reflect_error}
use gomcpack.Go.Slice.{Bytes}
use gomcpack.Go.Proc.{◌>>=◌, pure, throw, and_then}
use gomcpack.Mcpack.Value.{
  int_kind, int64_kind, uint8_kind, uint16_kind, uint32_kind, Value, invalid, unsupported, bool,
  int, uint, float32, float64, string, bytes, nil_interface, interface, nil_ptr, ptr, struct,
  string_map, slice, array, count_fields, count_entries, count_items,
}
use gomcpack.Mcpack.Const.{
  object_type, array_type, string_type, binary_type, int32_type, int64_type, uint32_type,
  uint64_type, bool_type, float_type, double_type, null_type, short_string_type, short_binary_type,
}
use gomcpack.Mcpack.Dyn.{Dyn}
use gomcpack.Mcpack.Wire.{named, container_wire, wire, wire_fields, wire_entries, wire_items}
use gomcpack.Mcpack.Encode.{marshal_value}
use gomcpack.Mcpack.Encode.Refine.{prescribed, marshal_value-wire}
use gomcpack.Mcpack.View.{view, IsReadable}
use gomcpack.Mcpack.Decode.{
  DecodeState, Decoder, peek, container_header, elements_loop, array_interface, value_of_type,
  value_interface, wrong_kind, store_of_type, value_into_interface, finish_unmarshal,
  unmarshal_interface,
}
use gomcpack.Mcpack.Decode.Reads.{state, Stands, Sees-peek}
use gomcpack.Mcpack.RoundTrip.Inversion.{named-eq-some, container_wire-eq-some}
use gomcpack.Mcpack.RoundTrip.Values.{value_interface-wire}

-- What a variable of type `interface{}` gets from the item of a value: an object or nil. Any other
-- item is refused with the error of `reflect` for a value of the wrong kind.
unfoldable pub stored : Value → Returns (Option Dyn)
unfolding view
stored (struct fs) = ok (some (view (struct fs)))
stored (string_map es) = ok (some (view (string_map es)))
stored nil_interface = ok (some (view nil_interface))
stored nil_ptr = ok (some (view nil_ptr))
stored (interface v) = stored v
stored (ptr v) = stored v
stored _ = err reflect_error

-- How the decoder treats an item of type `t` whose value is `d`, when `r` is what the variable gets.
data Treats (f : ℕ) (r : Returns (Option Dyn)) (d : Dyn) (t : ℕ) : Type 0 where
  stores :
      r ≡ ok (some d)
      → store_of_type (value_interface f) t
        ≡ (value_of_type (value_interface f) t >>= λ d. pure (some d))
      → Treats f r d t
  refuses :
      r ≡ err reflect_error
      → store_of_type (value_interface f) t ≡ wrong_kind (value_of_type (value_interface f) t)
      → Treats f r d t
  refuses_array :
      r ≡ err reflect_error
      → store_of_type (value_interface f) t
        ≡ (container_header >>= λ n. throw (raised reflect_error))
      → value_of_type (value_interface f) t ≡ array_interface (value_interface f)
      → Treats f r d t

-- An item that begins with a type that is treated so.
record Begins (f : ℕ) (r : Returns (Option Dyn)) (d : Dyn) (xs : Bytes) : Type 0 where
  type_byte : ℕ
  rest : Bytes
  split : xs ≡ type_byte ∷ rest
  treats : Treats f r d type_byte

module _ (f : ℕ) (r : Returns (Option Dyn)) (d : Dyn) (t : ℕ) (k : Bytes)
    (tr : Treats f r d t) where
  Begins-named : (xs : Bytes) {ys : Bytes} → named k (t ∷ xs) ≡ some ys → Begins f r d ys
  Begins-named xs h = record {
    type_byte = t;
    rest = xs;
    split = sym (named-eq-some k (t ∷ xs) h).0;
    treats = tr;
  }

  Begins-container :
      (count : ℕ) (o : Option Bytes) {ys : Bytes}
      → container_wire t k count o ≡ some ys
      → Begins f r d ys
  Begins-container count o h =
      let (xs, e1, e2) = container_wire-eq-some t k count o h in
      record { type_byte = t; rest = _; split = sym e2; treats = tr }

wire-Begins :
    (f : ℕ) (v : Value) (k xs : Bytes)
    → IsReadable v
    → wire v k ≡ some xs
    → Begins f (stored v) (view v) xs
unfolding wire IsReadable stored view store_of_type value_of_type
wire-Begins f invalid k xs r h = absurd r
wire-Begins f unsupported k xs r h = absurd r
wire-Begins f (bool true) k xs r h = Begins-named f _ _ bool_type k (refuses refl refl) _ h
wire-Begins f (bool false) k xs r h = Begins-named f _ _ bool_type k (refuses refl refl) _ h
wire-Begins f (int int_kind n) k xs r h = Begins-named f _ _ int64_type k (refuses refl refl) _ h
wire-Begins f (int int64_kind n) k xs r h = Begins-named f _ _ int64_type k (refuses refl refl) _ h
wire-Begins f (int _ n) k xs r h = Begins-named f _ _ int32_type k (refuses refl refl) _ h
wire-Begins f (uint uint8_kind n) k xs r h =
    Begins-named f _ _ uint32_type k (refuses refl refl) _ h
wire-Begins f (uint uint16_kind n) k xs r h =
    Begins-named f _ _ uint32_type k (refuses refl refl) _ h
wire-Begins f (uint uint32_kind n) k xs r h =
    Begins-named f _ _ uint32_type k (refuses refl refl) _ h
wire-Begins f (uint _ n) k xs r h = Begins-named f _ _ uint64_type k (refuses refl refl) _ h
wire-Begins f (float32 bits) k xs r h = Begins-named f _ _ float_type k (refuses refl refl) _ h
wire-Begins f (float64 bits) k xs r h = Begins-named f _ _ double_type k (refuses refl refl) _ h
wire-Begins f (string s) k xs r h = elim (Bool-cases (ltb (length s + 1) 255)) [
  | inl e ↦ Begins-named f _ _ short_string_type k (refuses refl refl) _ (rw e at h)
  | inr e ↦ Begins-named f _ _ string_type k (refuses refl refl) _ (rw e at h)
]
wire-Begins f (bytes s) k xs r h = elim (Bool-cases (leb (length s) 255)) [
  | inl e ↦ Begins-named f _ _ short_binary_type k (refuses refl refl) _ (rw e at h)
  | inr e ↦ Begins-named f _ _ binary_type k (refuses refl refl) _ (rw e at h)
]
wire-Begins f nil_interface k xs r h = Begins-named f _ _ null_type k (stores refl refl) _ h
wire-Begins f nil_ptr k xs r h = Begins-named f _ _ null_type k (stores refl refl) _ h
wire-Begins f (interface v) k xs r h = wire-Begins f v k xs r h
wire-Begins f (ptr v) k xs r h = wire-Begins f v k xs r h
wire-Begins f (struct fs) k xs r h =
    Begins-container f _ _ object_type k (stores refl refl) (count_fields fs) (wire_fields fs) h
wire-Begins f (string_map es) k xs r h =
    Begins-container f _ _ object_type k (stores refl refl) (count_entries es) (wire_entries es) h
wire-Begins f (slice vs) k xs r h =
    Begins-container f _ _ array_type k (refuses_array refl refl refl) (count_items vs)
      (wire_items vs) h
wire-Begins f (array vs) k xs r h =
    Begins-container f _ _ array_type k (refuses_array refl refl refl) (count_items vs)
      (wire_items vs) h

-- An item has at least one byte.
pub length-wire : (v : Value) (k xs : Bytes) → IsReadable v → wire v k ≡ some xs → 0 < length xs
length-wire v k xs r h = let b = wire-Begins 0 v k xs r h in omega (arith, ap length b.split)

-- The outcome of a run that ends with a value or is stopped by an `error`.
abbrev settled : Returns (Option Dyn) → DecodeState → Go (Option Dyn × DecodeState)
settled (ok v) s = done (v, s)
settled (err e) s = panic (raised e)

-- What an array's reader has done when it ends, its header's reader has done.
array-header :
    (value : Decoder Dyn) (s s' : DecodeState) {d : Dyn}
    → array_interface value s ≡ done (d, s')
    → and_then (container_header s) (λ n. throw {A = Option Dyn} (raised reflect_error))
      ≡ panic (raised reflect_error)
unfolding array_interface
array-header value s s' {d} h = go (container_header s) h
  where
    go :
        (r : Go (ℕ × DecodeState))
        → and_then r (λ n. elements_loop value n >>= λ vs. pure (Dyn.array vs)) ≡ done (d, s')
        → and_then r (λ n. throw {A = Option Dyn} (raised reflect_error))
          ≡ panic (raised reflect_error)
    go (done (n, s'')) h = refl
    go (panic p) h = cc
    go out_of_fuel h = cc

treated :
    (f : ℕ) (r : Returns (Option Dyn)) (d : Dyn) (t : ℕ) (s s' : DecodeState)
    → Treats f r d t
    → value_of_type (value_interface f) t s ≡ done (d, s')
    → store_of_type (value_interface f) t s ≡ settled r s'
unfolding wrong_kind
treated f r d t s s' (stores p q) e =
    ap (λ m. m s) q
    ∙ ap (λ x. and_then x (λ d. pure (some d))) e
    ∙ ap (λ (x : Returns (Option Dyn)). settled x s') (sym p)
treated f r d t s s' (refuses p q) e =
    ap (λ m. m s) q
    ∙ ap (λ x. and_then x (λ d. throw {A = Option Dyn} (raised reflect_error))) e
    ∙ ap (λ (x : Returns (Option Dyn)). settled x s') (sym p)
treated f r d t s s' (refuses_array p q w) e =
    ap (λ m. m s) q
    ∙ array-header (value_interface f) s s' (sym (ap (λ m. m s) w) ∙ e)
    ∙ ap (λ (x : Returns (Option Dyn)). settled x s') (sym p)

-- The whole input is one item.
value_into_interface-wire :
    (v : Value) (xs spare : Bytes)
    → IsReadable v
    → wire v [] ≡ some xs
    → value_into_interface (length xs + 1) (state xs spare 0)
      ≡ settled (stored v) (state xs spare (length xs))
unfolding value_into_interface value_interface
value_into_interface-wire v xs spare r h =
    let f = length xs + 1 in
    let b = wire-Begins f v [] xs r h in
    let t = b.type_byte in
    let start = state xs spare 0 in
    let looked : peek start ≡ done (t, start) =
      (Sees-peek t).at xs spare 0
        (record { rest = b.rest; found = b.split; within = omega arith }) in
    let whole : Stands xs 0 xs = record {
      rest = [];
      found = sym (append-nil xs);
      within = omega arith;
    } in
    let read = (value_interface-wire v [] xs (suc f) r h (omega arith)).at xs spare 0 whole in
    let end : value_of_type (value_interface f) t start
        ≡ done (view v, state xs spare (length xs)) =
      sym (ap (λ x. and_then x (value_of_type (value_interface f))) looked)
      ∙ read
      ∙ ap (λ (n : ℕ). done (view v, state xs spare n)) {x = 0 + length xs} {y = length xs}
          (omega arith) in
    ap (λ x. and_then x (store_of_type (value_interface f))) looked
    ∙ treated f (stored v) (view v) t start (state xs spare (length xs)) b.treats end

settled-finish :
    (r : Returns (Option Dyn)) (xs spare : Bytes)
    → finish_unmarshal (settled r (state xs spare (length xs))) ≡ done r
unfolding finish_unmarshal
settled-finish (ok d) xs spare = ground arith
settled-finish (err e) xs spare = refl

pub marshalled_wire :
    (o : Option Bytes) {xs : Bytes} → done (prescribed o) ≡ done (ok xs) → o ≡ some xs
marshalled_wire none e = cc
marshalled_wire (some ys) e = cc

-- What `Marshal` returned for a readable value, `Unmarshal` reads into an `interface{}` to the last
-- byte, whatever lies behind the input in its array: an object as a map with the views of its
-- members, and nil as nil. Any other value is refused with the error for a value of the wrong kind.
pub unmarshal-marshal :
    (v : Value) (xs spare : Bytes)
    → IsReadable v
    → marshal_value v ≡ done (ok xs)
    → unmarshal_interface xs spare ≡ done (stored v)
unfolding unmarshal_interface
unmarshal-marshal v xs spare r h =
    ap finish_unmarshal (
      value_into_interface-wire v xs spare r
        (marshalled_wire (wire v []) (sym (marshal_value-wire v) ∙ h)))
    ∙ settled-finish (stored v) xs spare
