-- ===== src/Mcpack/Decode/State.antt =====
-- The `decodeState`. `d.data` is not written after `init`, and `savedError` is never set: nothing
-- calls `saveError`. `spare` are the bytes of the input's array between its length and its capacity,
-- which a slice expression with two bounds can reach. Go's `int` has 64 bits, so a length of 32
-- bits added to an offset does not wrap.
use gomcpack.Prelude.{ℕ, ◌+◌, ◌-◌, ◌||◌, ◌==◌, if◌then◌else◌}
use gomcpack.Go
use gomcpack.Go.{Go, done, raised, empty_key}
use gomcpack.Go.Slice.{Bytes, index, slice_from, slice_to_cap}
use gomcpack.Go.Proc.{Proc, ◌>>=◌, ◌>>◌, pure, throw}
use gomcpack.Mcpack.Const.{
  object_type, array_type, string_type, binary_type, int8_type, int16_type, int32_type, int64_type,
  uint8_type, uint16_type, uint32_type, uint64_type, bool_type, float_type, double_type, null_type,
  short_string_type, short_binary_type,
}
use gomcpack.Mcpack.Number.{uint8, uint32}

pub record DecodeState : Type 0 where
  pub input : Bytes
  pub spare : Bytes
  pub off : ℕ

abbrev pub Decoder : Type 0 → Type 0
Decoder A = Proc DecodeState A

-- `d.data[d.off]`
unfoldable pub peek : Decoder ℕ
peek s = Go.◌>>=◌ (index s.input s.off) λ x. done (x, s)

-- `get(d.data[d.off+n:])`, for one of the load functions of number.go.
unfoldable pub read : (Bytes → Go ℕ) → ℕ → Decoder ℕ
read get n s = Go.◌>>=◌ (slice_from s.input (s.off + n)) λ b. Go.◌>>=◌ (get b) λ x. done (x, s)

unfoldable pub offset : Decoder ℕ
offset s = done (s.off, s)

-- `d.off += n`
unfoldable pub advance : ℕ → Decoder (Unit {0})
advance n s = done (tt, record s { off = s.off + n })

-- `d.data[lo:hi]`
unfoldable pub slice_data : ℕ → ℕ → Decoder Bytes
slice_data lo hi s = Go.◌>>=◌ (slice_to_cap s.input s.spare lo hi) λ b. done (b, s)

-- Where the name of an item begins, by the item's type. It stays 0 for any other type.
unfoldable pub key_start : ℕ → ℕ
key_start t =
    if t == int8_type
      || t == int16_type
      || t == int32_type
      || t == int64_type
      || t == uint8_type
      || t == uint16_type
      || t == uint32_type
      || t == uint64_type
      || t == bool_type
      || t == float_type
      || t == double_type
      || t == null_type
    then 2
    else if t == short_binary_type || t == short_string_type
    then 3
    else if t == binary_type || t == string_type || t == object_type || t == array_type
    then 6
    else 0

-- `if klen <= 0 { d.error(errEmptyKey) }`
unfoldable pub check_key : ℕ → Decoder (Unit {0})
check_key klen = if klen == 0 then throw (raised empty_key) else pure tt

-- The name of the item at the offset, without moving it.
unfoldable pub key : Decoder Bytes
unfolding check_key
key = do
  t ← peek
  klen ← read uint8 1
  check_key klen
  off ← offset
  slice_data (off + key_start t) (off + key_start t + klen - 1)

-- `d.off += 1`, the length of the name, and `d.off += 1`: how every item begins.
unfoldable pub type_and_klen : Decoder ℕ
type_and_klen = do advance 1; klen ← read uint8 0; advance 1; pure klen

-- The length of an item's content by its type, read behind the first two bytes where the item has a
-- length field, which the offset then has passed.
unfoldable pub content_size : ℕ → Decoder ℕ
content_size t =
    let long : Decoder ℕ = (do vlen ← read uint32 0; advance 4; pure vlen) in
    let short : Decoder ℕ = (do vlen ← read uint8 0; advance 1; pure vlen) in
    if t == object_type || t == array_type || t == string_type || t == binary_type
    then long
    else if t == short_string_type || t == short_binary_type
    then short
    else if t == int32_type || t == uint32_type || t == float_type
    then pure 4
    else if t == int64_type || t == uint64_type || t == double_type
    then pure 8
    else if t == bool_type || t == null_type
    then pure 1
    else pure 0

-- The bytes of the item at the offset, which moves behind it.
unfoldable pub next : Decoder Bytes
next = do
  start ← offset
  t ← peek
  klen ← type_and_klen
  vlen ← content_size t
  advance (klen + vlen)
  end ← offset
  slice_data start end
