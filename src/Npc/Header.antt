-- ===== src/Npc/Header.antt =====
-- npc/header.go: the header of 36 bytes in front of every body. The fields are unsigned integers of
-- 16 and 32 bits, and `Provider` is an array of 16 bytes. Both methods test `len(b)` first, so every
-- slice expression is inside the length of `b`, and the capacity behind it does not matter.
pub mod Layout
pub mod RoundTrip
use gomcpack.Prelude.{
  ℕ, ◌+◌, ◌-◌, ◌%◌, Bool, true, false, Option, none, some, List, [], ◌++◌, length, take, drop, ltb,
  bit_or, if◌then◌else◌,
}
use gomcpack.Go.{Go, done, ◌>>=◌, Error, incomplete_header, short_header_buffer}
use gomcpack.Go.Slice.{Bytes, byte, index, store, slice_to_cap, copy}
use gomcpack.Mcpack.Number.{shl, shr, uint32, put_uint32}

abbrev pub header_size : ℕ
header_size = 36

abbrev pub header_magicnum : ℕ
header_magicnum = 0xfb709394

pub record Header : Type 0 where
  pub id : ℕ
  pub version : ℕ
  pub log_id : ℕ
  pub provider : Bytes
  pub magic_num : ℕ
  pub reserved : ℕ
  pub body_len : ℕ

-- `binary.LittleEndian.Uint16` and `PutUint16`. Those for 32 bits are written as the functions of
-- number.go.
unfoldable pub uint16 : Bytes → Go ℕ
uint16 b = do b0 ← index b 0; b1 ← index b 1; done (bit_or b0 (shl 16 b1 8))

unfoldable pub put_uint16 : Bytes → ℕ → Go Bytes
put_uint16 b v = do b ← store b 0 (byte v); store b 1 (byte (shr v 8))

-- `b[lo:hi]`
unfoldable pub part : Bytes → ℕ → ℕ → Go Bytes
part b lo hi = slice_to_cap b [] lo hi

-- A write through `b[lo:hi]`, which has the bytes of `b`.
unfoldable pub write_part : ℕ → ℕ → (Bytes → Go Bytes) → Bytes → Go Bytes
unfolding part
write_part lo hi put b = do
  dst ← part b lo hi
  dst' ← put dst
  done (take lo b ++ (dst' ++ drop hi b))

-- `h.Unmarshal(b)`: the error, and `*h` afterwards.
unfoldable pub unmarshal : Header → Bytes → Go (Option Error × Header)
unfolding part uint16
unmarshal h b = if ltb (length b) header_size then done (some incomplete_header, h) else (do
  id ← part b 0 2 >>= uint16
  version ← part b 2 4 >>= uint16
  log_id ← part b 4 8 >>= uint32
  src ← part b 8 24
  magic_num ← part b 24 28 >>= uint32
  reserved ← part b 28 32 >>= uint32
  body_len ← part b 32 36 >>= uint32
  done (
    none,
    record {
      id = id;
      version = version;
      log_id = log_id;
      provider = (copy h.provider src).0;
      magic_num = magic_num;
      reserved = reserved;
      body_len = body_len;
    },
  ))

-- `h.Marshal(b)`: the error, and the bytes of `b` afterwards.
unfoldable pub marshal : Header → Bytes → Go (Option Error × Bytes)
unfolding write_part put_uint16
marshal h b = if ltb (length b) header_size then done (some short_header_buffer, b) else (do
  b ← write_part 0 2 (λ dst. put_uint16 dst h.id) b
  b ← write_part 2 4 (λ dst. put_uint16 dst h.version) b
  b ← write_part 4 8 (λ dst. put_uint32 dst h.log_id) b
  b ← write_part 8 24 (λ dst. done (copy dst h.provider).0) b
  b ← write_part 24 28 (λ dst. put_uint32 dst h.magic_num) b
  b ← write_part 28 32 (λ dst. put_uint32 dst h.reserved) b
  b ← write_part 32 36 (λ dst. put_uint32 dst h.body_len) b
  done (none, b))
