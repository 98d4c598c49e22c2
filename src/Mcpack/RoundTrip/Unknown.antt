-- ===== src/Mcpack/RoundTrip/Unknown.antt =====
-- `Unmarshal` into a struct of a message that has other members too.
use gomcpack.Prelude.{
  ℕ, suc, ◌+◌, ◌^◌, ◌<◌, ◌≡◌, refl, ap, sym, ◌∙◌, Bool, true, false, some, [], append-nil, arith,
  length, subst, Bool-cases, inl, inr, bytes_eq,
}
use gomcpack.Go.{done, ok}
use gomcpack.Go.Slice.{Bytes}
use gomcpack.Go.Proc.{pure, and_then}
use gomcpack.Mcpack.Value
use gomcpack.Mcpack.Value.{Value, Fields, count_fields}
use gomcpack.Mcpack.Fold.{fold_func}
use gomcpack.Mcpack.GoType.{struct, FieldTypes, no_fields, field, Vars, zero_var, zero_vars}
use gomcpack.Mcpack.Wire.{wire, wire_fields}
use gomcpack.Mcpack.View.{IsReadable, AreReadableFields}
use gomcpack.Mcpack.Reflect.{value_of, AreStorable}
use gomcpack.Mcpack.Encode.{marshal_value}
use gomcpack.Mcpack.Encode.Refine.{marshal_value-wire}
use gomcpack.Mcpack.Decode.{Decoder, DecodeState, next}
use gomcpack.Mcpack.Decode.Loops.{members_into, plain_array}
use gomcpack.Mcpack.Decode.Typed.{
  Library, has_name, decode, store_at, member_test, finish_typed, unmarshal_typed,
}
use gomcpack.Mcpack.Decode.Reads.{state, Stands, Reads, Reads-map, Reads-pure}
use gomcpack.Mcpack.RoundTrip.Inversion.{joined-eq-some}
use gomcpack.Mcpack.RoundTrip.Names.{key-wire}
use gomcpack.Mcpack.RoundTrip.Pieces.{nothing_left, fits_front, fits_back}
use gomcpack.Mcpack.RoundTrip.Skip.{next-wire}
use gomcpack.Mcpack.RoundTrip.Whole.{marshalled_wire}
use gomcpack.Mcpack.RoundTrip.TypedItems.{item_of-object}
use gomcpack.Mcpack.RoundTrip.TypedLoops.{members_into-round}
use gomcpack.Mcpack.RoundTrip.TypedFields.{
  Treats, Treats-first, Treats-rest, store_at-member_test, and_then_assoc, and_then-pure,
}
use gomcpack.Mcpack.RoundTrip.Typed.{read_typed}

abbrev pub append_fields : Fields → Fields → Fields
append_fields Value.no_fields gs = gs
append_fields (Value.field name o v fs) gs = Value.field name o v (append_fields fs gs)

-- Members in front of each field of a struct, and behind the last.
abbrev pub Extras : FieldTypes → Type 0
Extras no_fields = Fields
Extras (field name o τ fs) = Fields × Extras fs

-- The members of a message: the fields of a struct in their order, with others between them.
unfoldable pub message : (fs : FieldTypes) → Vars fs → Extras fs → Fields
message no_fields vs es = append_fields es Value.no_fields
message (field name o τ fs) (v, vs) (e, es) =
    append_fields e (Value.field name o (value_of τ v) (message fs vs es))

module _ (lib : Library) (fs : FieldTypes) where
  -- No field has the name, also when case is ignored.
  abbrev pub IsUnknown : Bytes → Type 0
  IsUnknown k =
      (has_name (λ name. bytes_eq name k) fs ≡ false)
      × (has_name (λ name. fold_func lib.equal_fold name name k) fs ≡ false)

  abbrev pub HasUnknown : Fields → Type 0
  HasUnknown Value.no_fields = Unit
  HasUnknown (Value.field name o v es) = IsUnknown name × HasUnknown es

  abbrev pub AreUnknown : (gs : FieldTypes) → Extras gs → Type 0
  AreUnknown no_fields es = HasUnknown es
  AreUnknown (field name o τ gs) (e, es) = HasUnknown e × AreUnknown gs es

  -- How `store` leaves the variables of a struct at a name that it does not know.
  abbrev Ignores : {B : Type 0} → (Bytes → B → Decoder B) → B → Type 0
  Ignores store b =
      (k : Bytes) (s : DecodeState) → IsUnknown k → store k b s ≡ and_then (next s) (λ _. pure b)

-- A name that the test finds nowhere.
store_at-unknown :
    (lib : Library) (fuel : ℕ) (fs : FieldTypes) (same : Bytes → Bool) (vs : Vars fs)
    (s : DecodeState)
    → has_name same fs ≡ false
    → store_at lib fuel fs same vs s ≡ and_then (next s) (λ _. pure vs)
unfolding store_at
store_at-unknown lib fuel no_fields same vs s h = refl
store_at-unknown lib fuel (field name o τ fs) same (v, vs) s h = elim (Bool-cases (same name)) [
  | inl e ↦ absurd (clash (rw e at h))
  | inr e ↦ rw e (
      ap (λ r. and_then r (λ ws. pure (v, ws))) (store_at-unknown lib fuel fs same vs s (rw e at h))
      ∙ and_then_assoc (next s) (λ _. vs) (λ ws. (v, ws)))
]
  where
    clash : true ≡ false → ⊥
    clash e = cc

store_at-Ignores :
    (lib : Library) (fuel : ℕ) (fs : FieldTypes) (vs : Vars fs)
    → Ignores lib fs (λ k. store_at lib fuel fs (member_test lib fs k)) vs
unfolding member_test
store_at-Ignores lib fuel fs vs k s (exact, folded) =
    rw exact (store_at-unknown lib fuel fs _ vs s folded)

module _ (lib : Library) (fuel : ℕ) (fs : FieldTypes)
    (store : Bytes → Vars fs → Decoder (Vars fs)) where
  -- Members of other names are skipped.
  skip_members :
      (es gs : Fields) (vs : Vars fs) (xs : Bytes) {a : Vars fs}
      → Ignores lib fs store vs
      → HasUnknown lib fs es
      → AreReadableFields (append_fields es gs)
      → wire_fields (append_fields es gs) ≡ some xs
      → length xs < 2 ^ 32
      → length xs < fuel
      → ((zs : Bytes)
          → AreReadableFields gs
          → wire_fields gs ≡ some zs
          → length zs < 2 ^ 32
          → length zs < fuel
          → Reads (members_into store (count_fields gs) vs) zs a)
      → Reads (members_into store (count_fields (append_fields es gs)) vs) xs a
  unfolding wire IsReadable
  skip_members Value.no_fields gs vs xs i u r e short h rest = rest xs r e short h
  skip_members (Value.field name o v es) gs vs xs {a} i (u, us) r e short h rest =
      let more : Fields = append_fields es gs in
      let (ys, zs, e1, e2, e3) = joined-eq-some (wire v name) (wire_fields more) (rw r.1 at e) in
      let n = count_fields more in
      let item = next-wire v name ys r.2 e1 (fits_front ys zs e3 short) in
      subst (λ (xs : Bytes). Reads (members_into store (suc n) vs) xs a) e3
        (members_into-round store n vs vs name ys zs (key-wire v name ys r.2 r.0 e1)
          (record {
            at = λ input spare off s.
                i name (state input spare off) u ∙ (Reads-map (λ _. vs) item).at input spare off s;
          })
          (skip_members es gs vs zs i us r.3 e2 (fits_back ys zs e3 short) (fits_back ys zs e3 h)
            rest))

  read_message :
      (gs : FieldTypes) (ws : Vars gs) (es : Extras gs) (put : Vars gs → Vars fs) (xs : Bytes)
      → AreReadableFields (message gs ws es)
      → AreStorable lib gs ws
      → AreUnknown lib fs gs es
      → Treats lib fuel gs store put
      → ((vs : Vars fs) → Ignores lib fs store vs)
      → wire_fields (message gs ws es) ≡ some xs
      → length xs < 2 ^ 32
      → length xs < fuel
      → Reads
          (members_into store (count_fields (message gs ws es)) (put (zero_vars gs)))
          xs
          (put ws)
  unfolding message wire IsReadable AreStorable members_into
  read_message no_fields ws es put xs r p u t i e short h =
      skip_members es Value.no_fields (put tt) xs (i (put tt)) u r e short h
        λ zs r e short h. nothing_left (Reads-pure (put tt)) e
  read_message (field name o τ gs) (w, ws) (es, ds) put xs r p (u, us) t i e short h =
      skip_members es (Value.field name o (value_of τ w) (message gs ws ds))
        (put (zero_var τ, zero_vars gs)) xs (i (put (zero_var τ, zero_vars gs))) u r e short h
        λ zs r e short h. own zs r e short h λ zs r e short h.
          read_message gs ws ds (λ vs. put (w, vs)) zs r p.2 us
            (Treats-rest lib fuel name o τ gs store put t w p.0) i e short h
    where
      own :
          (xs : Bytes)
          → AreReadableFields (Value.field name o (value_of τ w) (message gs ws ds))
          → wire_fields (Value.field name o (value_of τ w) (message gs ws ds)) ≡ some xs
          → length xs < 2 ^ 32
          → length xs < fuel
          → ((zs : Bytes)
              → AreReadableFields (message gs ws ds)
              → wire_fields (message gs ws ds) ≡ some zs
              → length zs < 2 ^ 32
              → length zs < fuel
              → Reads
                  (members_into store (count_fields (message gs ws ds)) (put (w, zero_vars gs)))
                  zs
                  (put (w, ws)))
          → Reads
              (members_into store
                (suc (count_fields (message gs ws ds)))
                (put (zero_var τ, zero_vars gs)))
              xs
              (put (w, ws))
      own xs r e short h rest =
          let (ys, zs, e1, e2, e3) =
            joined-eq-some (wire (value_of τ w) name) (wire_fields (message gs ws ds))
              (rw r.1 at e) in
          let n = count_fields (message gs ws ds) in
          let zeros = zero_vars gs in
          let read = read_typed lib fuel τ w name ys r.2 p.1 e1 (fits_front ys zs e3 h) in
          subst
            (λ (xs : Bytes).
              Reads (members_into store (suc n) (put (zero_var τ, zeros))) xs (put (w, ws)))
            e3
            (members_into-round store n _ (put (w, zeros)) name ys zs
              (key-wire (value_of τ w) name ys r.2 r.0 e1)
              (record {
                at = λ input spare off s.
                    Treats-first lib fuel name o τ gs store put t (zero_var τ) zeros
                      (state input spare off)
                    ∙ (Reads-map (λ w. put (w, zeros)) read).at input spare off s;
              })
              (rest zs r.3 e2 (fits_back ys zs e3 short) (fits_back ys zs e3 h)))

read_struct :
    (lib : Library) (fuel : ℕ) (fs : FieldTypes) (ws : Vars fs) (es : Extras fs) (xs : Bytes)
    → IsReadable (Value.struct (message fs ws es))
    → AreStorable lib fs ws
    → AreUnknown lib fs fs es
    → wire (Value.struct (message fs ws es)) [] ≡ some xs
    → length xs < 2 ^ 32
    → length xs < fuel
    → Reads (decode lib fuel (struct fs) (zero_vars fs)) xs ws
unfolding decode wire IsReadable
read_struct lib fuel fs ws es xs r p u e short h =
    item_of-object lib (struct fs) (zero_vars fs) _ [] _ _ r.0 plain_array e λ ys q less.
      read_message lib fuel fs (λ k. store_at lib fuel fs (member_test lib fs k)) fs ws es
        (λ vs. vs) ys r.1 p u
        (λ k vs s named. store_at-member_test lib fuel fs k vs s named ∙ sym (and_then-pure _))
        (store_at-Ignores lib fuel fs) q (omega arith) (omega arith)

-- What `Marshal` returned for a message with the fields of a struct in their order and other members
-- before, between and behind them: `Unmarshal` into a new struct finds each of its fields by name and
-- skips the other members, to the last byte of the message. No field has the name of another member,
-- also when case is ignored, and the message is shorter than 4 GiB. Fields and other members are
-- readable (`IsReadable`: none is left out for `omitempty`, every name has a byte, lengths and counts
-- fit 32 bits), and the fields are such that `Unmarshal` can store them (`AreStorable`, as for the
-- struct alone, so that their names differ, numbers fit their types, no map or slice is nil, no
-- pointer points to something whose item is null, an `interface{}` holds nil or a map that the decoder
-- makes, and no type has the method `UnmarshalMCPACK`).
pub unmarshal_typed-message :
    (lib : Library) (fs : FieldTypes) (ws : Vars fs) (es : Extras fs) (xs spare : Bytes)
    → IsReadable (Value.struct (message fs ws es))
    → AreStorable lib fs ws
    → AreUnknown lib fs fs es
    → marshal_value (Value.struct (message fs ws es)) ≡ done (ok xs)
    → length xs < 2 ^ 32
    → unmarshal_typed lib (struct fs) (some (zero_vars fs)) xs spare ≡ done (ok ws)
unfolding unmarshal_typed finish_typed
unmarshal_typed-message lib fs ws es xs spare r p u h short =
    let whole : Stands xs 0 xs = record {
      rest = [];
      found = sym (append-nil xs);
      within = omega arith;
    } in
    let written =
      marshalled_wire (wire (Value.struct (message fs ws es)) [])
        (sym (marshal_value-wire _) ∙ h) in
    let run =
      (read_struct lib (length xs + 1) fs ws es xs r p u written short (omega arith)).at xs spare 0
        whole in
    ap finish_typed run ∙ ground arith
