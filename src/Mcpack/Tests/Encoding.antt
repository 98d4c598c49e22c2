-- ===== src/Mcpack/Tests/Encoding.antt =====
-- Runs of `Marshal` on the inputs of mcpack/encode_test.go.
use gomcpack.Prelude.{◌≡◌, refl, true, false, [], ◌∷◌, replicate}
use gomcpack.Go.{done, ok, err, key_too_long}
use gomcpack.Go.Slice.{Bytes, store, slice_from, copy}
use gomcpack.Mcpack.Number.{put_uint8, put_int32, put_int64}
use gomcpack.Mcpack.Value.{
  int_kind, bool, int, ptr, string, struct, no_fields, field, Value, string_map, entry, no_entries,
}
use gomcpack.Mcpack.Encode.{
  marshal_value, set_type, set_key_len, set_key, resize_if_needed, write_number, offset, advance,
  patch_int32, bool_encoder, string_encoder, struct_encode, map_encode, int_encoder, skips_field,
}

-- `&T{A: true, X: "x", Y: 1}`
abbrev pub value_t : Value
value_t = ptr (
    struct (
      field (b'A' ∷ []) false (bool true) (
        field (b'X' ∷ []) false (string (b'x' ∷ []))
          (field (b'Y' ∷ []) false (int int_kind 1) no_fields))))

abbrev pub bytes_t : Bytes
bytes_t =
    0x10 ∷ 0 ∷ 28 ∷ 0 ∷ 0 ∷ 0 ∷ 3 ∷ 0 ∷ 0 ∷ 0 ∷ 0x31 ∷ 2 ∷ b'A' ∷ 0 ∷ 1 ∷ 0xd0 ∷ 2 ∷ 2 ∷ b'X' ∷ 0
    ∷ b'x' ∷ 0 ∷ 0x18 ∷ 2 ∷ b'Y' ∷ 0 ∷ 1 ∷ 0 ∷ 0 ∷ 0 ∷ 0 ∷ 0 ∷ 0 ∷ 0 ∷ []

pub marshal_t : marshal_value value_t ≡ done (ok bytes_t)
unfolding marshal_value bool_encoder string_encoder int_encoder struct_encode skips_field set_type
    set_key_len set_key resize_if_needed write_number offset advance patch_int32 put_uint8 put_int32
    put_int64 store slice_from copy
marshal_t = refl

-- `&E{Beta: …}` with a key of 255 bytes.
marshal_key_too_long :
    marshal_value (
      struct (
        field
          (b'B' ∷ [])
          false
          (string_map (entry (replicate 255 b'1') (string []) no_entries))
          no_fields))
    ≡ done (err key_too_long)
unfolding marshal_value bool_encoder string_encoder int_encoder struct_encode skips_field set_type
    set_key_len set_key resize_if_needed write_number offset advance patch_int32 put_uint8 store
    slice_from copy map_encode put_int32
marshal_key_too_long = refl
