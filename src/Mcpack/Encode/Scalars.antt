-- ===== src/Mcpack/Encode/Scalars.antt =====
-- The encoders of values without members.
use gomcpack.Prelude.{ℕ, ◌+◌, ◌%◌, ◌^◌, Bool, length, ltb, leb, if◌then◌else◌}
use gomcpack.Go.Slice.{Bytes}
use gomcpack.Go.Proc.{◌>>=◌, ◌>>◌, pure}
use gomcpack.Mcpack.Const.{
  string_type, binary_type, int32_type, int64_type, uint32_type, uint64_type, bool_type, float_type,
  double_type, null_type, short_string_type, short_binary_type, max_short_vitem_len,
}
use gomcpack.Mcpack.Number.{
  put_uint8, put_int32, put_int64, put_uint32, put_uint64, put_float32, put_float64,
}
use gomcpack.Mcpack.Encode.State.{
  Enc, write_byte, set_type, set_key_len, copy_bytes, set_key, resize_if_needed, write_number,
}

unfoldable pub unsupported_type_encoder : Bytes → Enc (Unit {0})
unsupported_type_encoder k = pure tt

unfoldable pub invalid_value_encoder : Bytes → Enc (Unit {0})
invalid_value_encoder k = pure tt

unfoldable pub nil_encoder : Bytes → Enc (Unit {0})
nil_encoder k = do
  resize_if_needed (1 + 1 + length k + 1 + 1)
  set_type null_type
  l ← set_key_len k
  set_key k l
  write_byte 0

unfoldable pub bool_encoder : Bytes → Bool → Enc (Unit {0})
bool_encoder k b = do
  resize_if_needed (1 + 1 + length k + 1 + 1)
  set_type bool_type
  l ← set_key_len k
  set_key k l
  if b then write_byte 1 else write_byte 0

-- `int32(v.Int())` keeps the low 32 bits of the pattern.
unfoldable pub int32_encoder : Bytes → ℕ → Enc (Unit {0})
int32_encoder k n = do
  resize_if_needed (1 + 1 + length k + 1 + 8)
  set_type int32_type
  l ← set_key_len k
  set_key k l
  write_number put_int32 4 (n % 2 ^ 32)

unfoldable pub int8_encoder : Bytes → ℕ → Enc (Unit {0})
unfolding int32_encoder
int8_encoder = int32_encoder

unfoldable pub int16_encoder : Bytes → ℕ → Enc (Unit {0})
unfolding int32_encoder
int16_encoder = int32_encoder

unfoldable pub int64_encoder : Bytes → ℕ → Enc (Unit {0})
int64_encoder k n = do
  resize_if_needed (1 + 1 + length k + 1 + 8)
  set_type int64_type
  l ← set_key_len k
  set_key k l
  write_number put_int64 8 n

unfoldable pub uint32_encoder : Bytes → ℕ → Enc (Unit {0})
uint32_encoder k n = do
  resize_if_needed (1 + 1 + length k + 1 + 8)
  set_type uint32_type
  l ← set_key_len k
  set_key k l
  write_number put_uint32 4 (n % 2 ^ 32)

unfoldable pub uint8_encoder : Bytes → ℕ → Enc (Unit {0})
unfolding uint32_encoder
uint8_encoder = uint32_encoder

unfoldable pub uint16_encoder : Bytes → ℕ → Enc (Unit {0})
unfolding uint32_encoder
uint16_encoder = uint32_encoder

unfoldable pub uint64_encoder : Bytes → ℕ → Enc (Unit {0})
uint64_encoder k n = do
  resize_if_needed (1 + 1 + length k + 1 + 8)
  set_type uint64_type
  l ← set_key_len k
  set_key k l
  write_number put_uint64 8 n

-- A value of kind `float32` is stored as its own pattern: `float32(v.Float())` gives it back.
unfoldable pub float32_encoder : Bytes → ℕ → Enc (Unit {0})
float32_encoder k bits = do
  resize_if_needed (1 + 1 + length k + 1 + 4)
  set_type float_type
  l ← set_key_len k
  set_key k l
  write_number put_float32 4 bits

unfoldable pub float64_encoder : Bytes → ℕ → Enc (Unit {0})
float64_encoder k bits = do
  resize_if_needed (1 + 1 + length k + 1 + 8)
  set_type double_type
  l ← set_key_len k
  set_key k l
  write_number put_float64 8 bits

unfoldable pub string_encoder : Bytes → Bytes → Enc (Unit {0})
string_encoder k s =
    let vlen = length s + 1 in
    do
      resize_if_needed (1 + 1 + 4 + length k + 1 + length s + 1)
      if ltb vlen max_short_vitem_len
          then (do
            set_type short_string_type
            l ← set_key_len k
            write_number put_uint8 1 (vlen % 256)
            set_key k l)
          else (do
            set_type string_type
            l ← set_key_len k
            write_number put_uint32 4 (vlen % 2 ^ 32)
            set_key k l)
      copy_bytes s
      write_byte 0

unfoldable pub binary_encoder : Bytes → Bytes → Enc (Unit {0})
binary_encoder k s =
    let vlen = length s in
    do
      resize_if_needed (1 + 1 + 4 + length k + 1 + length s)
      if leb vlen max_short_vitem_len
          then (do
            set_type short_binary_type
            l ← set_key_len k
            write_number put_uint8 1 (vlen % 256)
            set_key k l)
          else (do
            set_type binary_type
            l ← set_key_len k
            write_number put_uint32 4 (vlen % 2 ^ 32)
            set_key k l)
      copy_bytes s
