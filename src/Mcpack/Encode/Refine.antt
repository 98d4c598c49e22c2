-- ===== src/Mcpack/Encode/Refine.antt =====
-- `Marshal` implements the format of `Wire`.
use gomcpack.Prelude.{
  ◌≡◌, ap, Bool, true, false, Option, none, some, [], ◌++◌, length, length-append, take-append,
  le→leb, arith, if◌then◌else◌,
}
use gomcpack.Go
use gomcpack.Go.{Go, done, panic, raised, key_too_long, Returns, ok, err, out_of_fuel}
use gomcpack.Go.Slice.{Bytes}
use gomcpack.Go.Proc.{pure}
use gomcpack.Mcpack.Value.{
  Value, invalid, unsupported, bool, int, uint, float32, float64, string, bytes, nil_interface,
  interface, nil_ptr, ptr, struct, string_map, slice, array, Fields, no_fields, field, Entries,
  no_entries, entry, Items, no_items, item, count_fields, count_entries, count_items,
}
use gomcpack.Mcpack.Const.{object_type, array_type}
use gomcpack.Mcpack.Wire.{wire, wire_fields, wire_entries, wire_items}
use gomcpack.Mcpack.Encode.State.{EncodeState, Enc}
use gomcpack.Mcpack.Encode.Scalars.{invalid_value_encoder, unsupported_type_encoder}
use gomcpack.Mcpack.Encode.Encoders.{
  reflect_value, encode_fields, encode_entries, encode_items, struct_encode, map_encode,
  array_encode, slice_encode, skips_field, marshal, recover_marshal, marshalled, marshal_value,
}
use gomcpack.Mcpack.Encode.Emits.{buf}
use gomcpack.Mcpack.Encode.Writes.{Outcome, Writes, Writes-nothing, Writes-joined}
use gomcpack.Mcpack.Encode.Leaves.{
  Writes-nil, Writes-true, Writes-false, Writes-int, Writes-uint, Writes-float32, Writes-float64,
  Writes-string, Writes-binary,
}
use gomcpack.Mcpack.Encode.Containers.{Writes-container}

Writes-if :
    (skip : Bool) {m : Enc (Unit {0})} {o : Option Bytes}
    → Writes m o
    → Writes (if skip then pure tt else m) (if skip then some [] else o)
Writes-if true w = Writes-nothing
Writes-if false w = w

mutual
  unfolding reflect_value wire struct_encode map_encode array_encode slice_encode
      invalid_value_encoder unsupported_type_encoder

  reflect_value-Writes : (v : Value) (k : Bytes) → Writes (reflect_value v k) (wire v k)
  reflect_value-Writes invalid k = Writes-nothing
  reflect_value-Writes unsupported k = Writes-nothing
  reflect_value-Writes (bool true) k = Writes-true k
  reflect_value-Writes (bool false) k = Writes-false k
  reflect_value-Writes (int kind n) k = Writes-int kind k n
  reflect_value-Writes (uint kind n) k = Writes-uint kind k n
  reflect_value-Writes (float32 bits) k = Writes-float32 k bits
  reflect_value-Writes (float64 bits) k = Writes-float64 k bits
  reflect_value-Writes (string s) k = Writes-string k s
  reflect_value-Writes (bytes s) k = Writes-binary k s
  reflect_value-Writes nil_interface k = Writes-nil k
  reflect_value-Writes (interface v) k = reflect_value-Writes v k
  reflect_value-Writes nil_ptr k = Writes-nil k
  reflect_value-Writes (ptr v) k = reflect_value-Writes v k
  reflect_value-Writes (struct fs) k =
      Writes-container object_type k (count_fields fs) (encode_fields fs) (wire_fields fs)
        (encode_fields-Writes fs)
  reflect_value-Writes (string_map es) k =
      Writes-container object_type k (count_entries es) (encode_entries es) (wire_entries es)
        (encode_entries-Writes es)
  reflect_value-Writes (slice xs) k =
      Writes-container array_type k (count_items xs) (encode_items xs) (wire_items xs)
        (encode_items-Writes xs)
  reflect_value-Writes (array xs) k =
      Writes-container array_type k (count_items xs) (encode_items xs) (wire_items xs)
        (encode_items-Writes xs)

  encode_fields-Writes : (fs : Fields) → Writes (encode_fields fs) (wire_fields fs)
  encode_fields-Writes no_fields = Writes-nothing
  encode_fields-Writes (field name omit_empty v fs) =
      Writes-joined _ _ _ _ (Writes-if (skips_field omit_empty v) (reflect_value-Writes v name))
        (encode_fields-Writes fs)

  encode_entries-Writes : (es : Entries) → Writes (encode_entries es) (wire_entries es)
  encode_entries-Writes no_entries = Writes-nothing
  encode_entries-Writes (entry k v es) =
      Writes-joined _ _ _ _ (reflect_value-Writes v k) (encode_entries-Writes es)

  encode_items-Writes : (xs : Items) → Writes (encode_items xs) (wire_items xs)
  encode_items-Writes no_items = Writes-nothing
  encode_items-Writes (item v xs) =
      Writes-joined _ _ _ _ (reflect_value-Writes v []) (encode_items-Writes xs)

-- What `reflectValue` does on a buffer of any capacity with any bytes written: it never indexes out
-- of range, it keeps the bytes written, and it appends the format's bytes, unless a key is too long.
pub reflect_value-wire :
    (v : Value) (k out rest : Bytes) → Outcome (reflect_value v k (buf out rest)) out (wire v k)
reflect_value-wire v k = (reflect_value-Writes v k).at

-- The result that the format prescribes for `Marshal`.
abbrev pub prescribed : Option Bytes → Returns Bytes
prescribed none = err key_too_long
prescribed (some xs) = ok xs

marshal-Outcome :
    (o : Option Bytes) (r : Go (Unit {0} × EncodeState))
    → Outcome r [] o
    → Go.◌>>=◌ (recover_marshal r) marshalled ≡ done (prescribed o)
unfolding recover_marshal marshalled
marshal-Outcome none r h = rw h
marshal-Outcome (some xs) r (rest, e) = rw e (
    rw (le→leb (length xs) (length (xs ++ rest)) (omega (arith, length-append xs rest)))
      (ap (λ (t : Bytes). done (ok t)) (take-append xs rest)))

-- `Marshal` returns the bytes of the format for every value, and the error for a key that is too
-- long exactly where the format has no bytes. It never panics.
pub marshal_value-wire : (v : Value) → marshal_value v ≡ done (prescribed (wire v []))
unfolding marshal_value marshal
marshal_value-wire v =
    marshal-Outcome (wire v []) (reflect_value v [] (record { buffer = []; off = 0 }))
      (reflect_value-wire v [] [] [])
