-- ===== src/Mcpack/Encode/Encoders.antt =====
-- The encoders, `reflectValue` with the selection of an encoder by kind, and `Marshal`. The cache of
-- encoders by type (`typeEncoder`) holds what `newTypeEncoder` returns for that type, and so does
-- not show in the result.
use gomcpack.Prelude.{
  ℕ, ◌+◌, ◌-◌, ◌%◌, ◌^◌, Bool, not, ◌&&◌, ◌||◌, [], length, take, leb, if◌then◌else◌,
}
use gomcpack.Go
use gomcpack.Go.{Go, done, panic, out_of_fuel, raised, runtime_error, Returns, ok, err}
use gomcpack.Go.Slice.{Bytes}
use gomcpack.Go.Proc.{◌>>=◌, ◌>>◌, pure}
use gomcpack.Mcpack.Const.{object_type, array_type}
use gomcpack.Mcpack.Number.{put_int32}
use gomcpack.Mcpack.Value.{
  IntKind, int_kind, int8_kind, int16_kind, int32_kind, int64_kind, UintKind, uint_kind, uint8_kind,
  uint16_kind, uint32_kind, uint64_kind, uintptr_kind, Value, invalid, unsupported, bool, int, uint,
  float32, float64, string, bytes, nil_interface, interface, nil_ptr, ptr, struct, string_map,
  slice, array, Fields, no_fields, field, Entries, no_entries, entry, Items, no_items, item,
  count_fields, count_entries, count_items, is_valid, is_empty_value,
}
use gomcpack.Mcpack.Encode.State.{
  EncodeState, Enc, set_type, set_key_len, set_key, resize_if_needed, write_number, offset, advance,
  patch_int32,
}
use gomcpack.Mcpack.Encode.Scalars.{
  unsupported_type_encoder, invalid_value_encoder, nil_encoder, bool_encoder, int32_encoder,
  int8_encoder, int16_encoder, int64_encoder, uint32_encoder, uint8_encoder, uint16_encoder,
  uint64_encoder, float32_encoder, float64_encoder, string_encoder, binary_encoder,
}

-- The part of the three container encoders before the elements: the header with four bytes left
-- for the content length, and the number of elements. Returns `vlenpos` and `vpos`.
unfoldable pub open_container : ℕ → Bytes → ℕ → Enc (ℕ × ℕ)
open_container t k count = do
  resize_if_needed (1 + 1 + 4 + length k + 1 + 4)
  set_type t
  l ← set_key_len k
  vlenpos ← offset
  advance 4
  set_key k l
  vpos ← offset
  write_number put_int32 4 (count % 2 ^ 32)
  pure (vlenpos, vpos)

-- `PutInt32(e.data[vlenpos:], int32(e.off-vpos))`; the offset has not gone back behind `vpos`.
unfoldable pub close_container : ℕ × ℕ → Enc (Unit {0})
close_container (vlenpos, vpos) = do end ← offset; patch_int32 vlenpos ((end - vpos) % 2 ^ 32)

unfoldable pub struct_encode : Bytes → ℕ → Enc (Unit {0}) → Enc (Unit {0})
unfolding open_container close_container
struct_encode k count elems = do
  places ← open_container object_type k count
  elems
  close_container places

unfoldable pub map_encode : Bytes → ℕ → Enc (Unit {0}) → Enc (Unit {0})
unfolding open_container close_container
map_encode k count elems = do
  places ← open_container object_type k count
  elems
  close_container places

unfoldable pub array_encode : Bytes → ℕ → Enc (Unit {0}) → Enc (Unit {0})
unfolding open_container close_container
array_encode k count elems = do
  places ← open_container array_type k count
  elems
  close_container places

unfoldable pub slice_encode : Bytes → ℕ → Enc (Unit {0}) → Enc (Unit {0})
unfolding array_encode
slice_encode = array_encode

-- The encoders that `newTypeEncoder` chooses for the integer kinds.
unfoldable pub int_encoder : IntKind → Bytes → ℕ → Enc (Unit {0})
unfolding int8_encoder int16_encoder int32_encoder int64_encoder
int_encoder int_kind = int64_encoder
int_encoder int8_kind = int8_encoder
int_encoder int16_kind = int16_encoder
int_encoder int32_kind = int32_encoder
int_encoder int64_kind = int64_encoder

unfoldable pub uint_encoder : UintKind → Bytes → ℕ → Enc (Unit {0})
unfolding uint8_encoder uint16_encoder uint32_encoder uint64_encoder
uint_encoder uint_kind = uint64_encoder
uint_encoder uint8_kind = uint8_encoder
uint_encoder uint16_kind = uint16_encoder
uint_encoder uint32_kind = uint32_encoder
uint_encoder uint64_kind = uint64_encoder
uint_encoder uintptr_kind = uint64_encoder

-- The test before a struct's field is encoded: `continue` if it holds.
unfoldable pub skips_field : Bool → Value → Bool
unfolding is_valid is_empty_value
skips_field omit_empty v = not (is_valid v) || (omit_empty && is_empty_value v)

-- `e.reflectValue(k, v)`, and the loops over fields, entries and elements.
unfoldable mutual
  pub reflect_value : Value → Bytes → Enc (Unit {0})
  reflect_value invalid k = invalid_value_encoder k
  reflect_value unsupported k = unsupported_type_encoder k
  reflect_value (bool b) k = bool_encoder k b
  reflect_value (int kind n) k = int_encoder kind k n
  reflect_value (uint kind n) k = uint_encoder kind k n
  reflect_value (float32 bits) k = float32_encoder k bits
  reflect_value (float64 bits) k = float64_encoder k bits
  reflect_value (string s) k = string_encoder k s
  reflect_value (bytes s) k = binary_encoder k s
  reflect_value nil_interface k = nil_encoder k
  reflect_value (interface v) k = reflect_value v k
  reflect_value nil_ptr k = nil_encoder k
  reflect_value (ptr v) k = reflect_value v k
  reflect_value (struct fs) k = struct_encode k (count_fields fs) (encode_fields fs)
  reflect_value (string_map es) k = map_encode k (count_entries es) (encode_entries es)
  reflect_value (slice xs) k = slice_encode k (count_items xs) (encode_items xs)
  reflect_value (array xs) k = array_encode k (count_items xs) (encode_items xs)

  pub encode_fields : Fields → Enc (Unit {0})
  encode_fields no_fields = pure tt
  encode_fields (field name omit_empty v fs) = do
    if skips_field omit_empty v then pure tt else reflect_value v name
    encode_fields fs

  pub encode_entries : Entries → Enc (Unit {0})
  encode_entries no_entries = pure tt
  encode_entries (entry k v es) = do reflect_value v k; encode_entries es

  pub encode_items : Items → Enc (Unit {0})
  encode_items no_items = pure tt
  encode_items (item v xs) = do reflect_value v []; encode_items xs

-- The deferred `recover` of `marshal`: a panic with an `error` becomes the returned error, and a
-- runtime error goes on as a panic.
unfoldable pub recover_marshal : Go (Unit {0} × EncodeState) → Go (Returns EncodeState)
recover_marshal (done (x, s)) = done (ok s)
recover_marshal (panic runtime_error) = panic runtime_error
recover_marshal (panic (raised e)) = done (err e)
recover_marshal out_of_fuel = out_of_fuel

unfoldable pub marshal : Value → EncodeState → Go (Returns EncodeState)
unfolding reflect_value recover_marshal
marshal v e = recover_marshal (reflect_value v [] e)

-- `e.data[:e.off]`; the slice is within the capacity, which every encoder keeps.
unfoldable pub marshalled : Returns EncodeState → Go (Returns Bytes)
marshalled (err e) = done (err e)
marshalled (ok s) =
    if leb s.off (length s.buffer) then done (ok (take s.off s.buffer)) else panic runtime_error

-- `Marshal(v)`
unfoldable pub marshal_value : Value → Go (Returns Bytes)
unfolding marshal marshalled
marshal_value v = Go.◌>>=◌ (marshal v (record { buffer = []; off = 0 })) marshalled
