-- ===== src/Mcpack/Tests/Examples.antt =====
-- The theorems on mcpack/ applied to the message of the test of `Marshal`.
use gomcpack.Prelude.{ℕ, ◌^◌, ◌≤◌, ◌<◌, ◌≡◌, ◌≢◌, refl, true, some, [], ◌∷◌, arith, length, drop}
use gomcpack.Go.{done, panic, out_of_fuel, runtime_error, ok}
use gomcpack.Go.Slice.{Bytes}
use gomcpack.Mcpack.Number.{uint32, put_uint32, uint64, put_uint64}
use gomcpack.Mcpack.Number.RoundTrip.{uint32-put_uint32, put_uint32-uint32, uint64-put_uint64}
use gomcpack.Mcpack.Value.{int_kind, int, bool, struct, field, no_fields}
use gomcpack.Mcpack.Encode.{marshal_value, reflect_value, resize_if_needed, skips_field}
use gomcpack.Mcpack.Encode.Emits.{buf}
use gomcpack.Mcpack.Encode.Room.{resize_if_needed-buf}
use gomcpack.Mcpack.Encode.Writes.{Outcome}
use gomcpack.Mcpack.Encode.Refine.{prescribed, marshal_value-wire, reflect_value-wire}
use gomcpack.Mcpack.Wire.{wire}
use gomcpack.Mcpack.View.{IsReadable, view}
use gomcpack.Mcpack.Decode.{key, next, value_interface, unmarshal_interface}
use gomcpack.Mcpack.Decode.Ends.{Ends}
use gomcpack.Mcpack.Decode.Total.{value_interface-Ends, unmarshal_interface-ne-out_of_fuel}
use gomcpack.Mcpack.Decode.Reads.{Sees, Reads}
use gomcpack.Mcpack.RoundTrip.Names.{key-wire}
use gomcpack.Mcpack.RoundTrip.Values.{value_interface-wire}
use gomcpack.Mcpack.RoundTrip.Skip.{next-wire}
use gomcpack.Mcpack.RoundTrip.Omitted.{one_missing, marshal-omitted}
use gomcpack.Mcpack.RoundTrip.Whole.{stored, unmarshal-marshal}
use gomcpack.Mcpack.Tests.Encoding.{value_t, bytes_t, marshal_t}
use gomcpack.Mcpack.Tags.{contains, parse_tag}
use gomcpack.Mcpack.Tags.Options.{pieces, has_piece, contains-pieces, parse_tag-joined}
use gomcpack.Prelude.{false}
use gomcpack.Mcpack.Fields.{Field, dominant_field}
use gomcpack.Mcpack.Fields.Order.{by_name_less}
use gomcpack.Mcpack.Fields.Select.{shown_fields}
use gomcpack.Prelude.{bytes_eq}
use gomcpack.Mcpack.Fields.Dominant.{rule, shallowest, tagged_of, dominant_field-rule}

value_t-IsReadable : IsReadable value_t
unfolding IsReadable skips_field
value_t-IsReadable = (
  omega arith,
  (omega arith, refl, tt, (omega arith, refl, omega arith, (omega arith, refl, omega arith, tt))),
)

wire-value_t : wire value_t [] ≡ some bytes_t
unfolding wire skips_field
wire-value_t = refl

marshal_value-wire_example : marshal_value value_t ≡ done (prescribed (wire value_t []))
marshal_value-wire_example = marshal_value-wire value_t

reflect_value-wire_example :
    Outcome
      (reflect_value value_t (b'k' ∷ []) (buf (7 ∷ []) (0 ∷ [])))
      (7 ∷ [])
      (wire value_t (b'k' ∷ []))
reflect_value-wire_example = reflect_value-wire value_t (b'k' ∷ []) (7 ∷ []) (0 ∷ [])

unmarshal-marshal_example : unmarshal_interface bytes_t (9 ∷ []) ≡ done (stored value_t)
unmarshal-marshal_example = unmarshal-marshal value_t bytes_t (9 ∷ []) value_t-IsReadable marshal_t

value_interface-wire_example : Reads (value_interface 40) bytes_t (view value_t)
value_interface-wire_example =
    value_interface-wire value_t [] bytes_t 40 value_t-IsReadable wire-value_t (omega arith)

value_interface-Ends_example : Ends 3 (value_interface 4)
value_interface-Ends_example = value_interface-Ends 4 3 (omega arith)

unmarshal_interface-ne-out_of_fuel_example :
    unmarshal_interface (0x10 ∷ 0 ∷ []) (1 ∷ []) ≢ out_of_fuel
unmarshal_interface-ne-out_of_fuel_example =
    unmarshal_interface-ne-out_of_fuel (0x10 ∷ 0 ∷ []) (1 ∷ [])

-- `true` under the name `k`.
abbrev named_true : Bytes
named_true = 0x31 ∷ 2 ∷ b'k' ∷ 0 ∷ 1 ∷ []

wire-bool : wire (bool true) (b'k' ∷ []) ≡ some named_true
unfolding wire
wire-bool = refl

bool-IsReadable : IsReadable (bool true)
unfolding IsReadable
bool-IsReadable = tt

key-wire_example : Sees key named_true (b'k' ∷ [])
key-wire_example =
    key-wire (bool true) (b'k' ∷ []) named_true bool-IsReadable (omega arith) wire-bool

next-wire_example : Reads next bytes_t bytes_t
next-wire_example = next-wire value_t [] bytes_t value_t-IsReadable wire-value_t (omega arith)

skipped_zero : skips_field true (int int_kind 0) ≡ true
unfolding skips_field
skipped_zero = refl

marshal-omitted_example :
    (marshal_value (struct (field (b'a' ∷ []) true (int int_kind 0) no_fields))
      ≡ done (ok one_missing))
    × (unmarshal_interface one_missing [] ≡ panic runtime_error)
marshal-omitted_example = marshal-omitted (b'a' ∷ []) true (int int_kind 0) [] skipped_zero

resize_if_needed-buf_example :
    (rest' : Bytes) × (resize_if_needed 5 (buf (1 ∷ []) (0 ∷ [])) ≡ done (tt, buf (1 ∷ []) rest'))
    × (5 ≤ length rest')
resize_if_needed-buf_example = resize_if_needed-buf 5 (1 ∷ []) (0 ∷ [])

uint32-put_uint32_example :
    (b' : Bytes) × (put_uint32 (0 ∷ 0 ∷ 0 ∷ 0 ∷ 7 ∷ []) 300 ≡ done b')
    × (uint32 b' ≡ done 300)
    × (drop 4 b' ≡ 7 ∷ [])
uint32-put_uint32_example = uint32-put_uint32 (0 ∷ 0 ∷ 0 ∷ 0 ∷ 7 ∷ []) 300 (omega arith)

put_uint32-uint32_example :
    (v : ℕ) × (uint32 (44 ∷ 1 ∷ 0 ∷ 255 ∷ 7 ∷ []) ≡ done v)
    × (v < 2 ^ 32)
    × (put_uint32 (0 ∷ 0 ∷ 0 ∷ 0 ∷ 7 ∷ []) v ≡ done (44 ∷ 1 ∷ 0 ∷ 255 ∷ 7 ∷ []))
put_uint32-uint32_example =
    put_uint32-uint32 44 1 0 255 (7 ∷ []) (omega arith) (omega arith) (omega arith) (omega arith)

uint64-put_uint64_example :
    (b' : Bytes) × (put_uint64 (0 ∷ 0 ∷ 0 ∷ 0 ∷ 0 ∷ 0 ∷ 0 ∷ 0 ∷ 7 ∷ []) 300 ≡ done b')
    × (uint64 b' ≡ done 300)
    × (drop 8 b' ≡ 7 ∷ [])
uint64-put_uint64_example =
    uint64-put_uint64 (0 ∷ 0 ∷ 0 ∷ 0 ∷ 0 ∷ 0 ∷ 0 ∷ 0 ∷ 7 ∷ []) 300 (omega arith) (omega arith)

contains-pieces_example :
    contains (b'a' ∷ b',' ∷ b'b' ∷ []) (b'b' ∷ [])
    ≡ done (has_piece (pieces (b'a' ∷ b',' ∷ b'b' ∷ [])) (b'b' ∷ []))
contains-pieces_example = contains-pieces (b'a' ∷ b',' ∷ b'b' ∷ []) (b'b' ∷ [])

parse_tag-joined_example : parse_tag (b'x' ∷ b',' ∷ b'o' ∷ []) ≡ (b'x' ∷ [], b'o' ∷ [])
parse_tag-joined_example = parse_tag-joined (b'x' ∷ []) (b'o' ∷ []) refl

-- Two fields of the same depth, the second with a tag, and a deeper one with a tag.
abbrev plain_x : Field
plain_x = record { name = b'x' ∷ []; tag = false; index = 0 ∷ [] }

abbrev tagged_x : Field
tagged_x = record { name = b'x' ∷ []; tag = true; index = 1 ∷ [] }

abbrev deep_x : Field
deep_x = record { name = b'x' ∷ []; tag = true; index = 2 ∷ 0 ∷ [] }

dominant_field-rule_example :
    dominant_field (plain_x ∷ tagged_x ∷ deep_x ∷ [])
    ≡ done (
        rule
          (shallowest 1 (plain_x ∷ tagged_x ∷ deep_x ∷ []))
          (tagged_of (shallowest 1 (plain_x ∷ tagged_x ∷ deep_x ∷ []))))
dominant_field-rule_example = dominant_field-rule plain_x (tagged_x ∷ deep_x ∷ [])

-- The fields of two names, those of one of them at two depths.
abbrev plain_y : Field
plain_y = record { name = 121 ∷ []; tag = false; index = 2 ∷ [] }

shown_fields_t : shown_fields (deep_x ∷ plain_y ∷ tagged_x ∷ []) ≡ done (tagged_x ∷ plain_y ∷ [])
unfolding shown_fields by_name_less bytes_eq
shown_fields_t = refl
