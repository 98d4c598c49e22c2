-- ===== src/Mcpack/Number.antt =====
-- mcpack/number.go: little-endian integers in byte slices. A signed integer is its bit pattern, so
-- the conversions between `int32` and `uint32` and between `int64` and `uint64` change nothing. A
-- float is its IEEE 754 pattern, as `math.Float32bits` gives it.
pub mod RoundTrip
use gomcpack.Prelude.{ℕ, ◌*◌, ◌/◌, ◌%◌, ◌^◌, bit_or}
use gomcpack.Go.{Go, done, ◌>>=◌}
use gomcpack.Go.Slice.{Bytes, byte, index, store}

-- `x << k` and `x >> k` of a w-bit unsigned integer.
abbrev pub shl : ℕ → ℕ → ℕ → ℕ
shl w x k = x * 2 ^ k % 2 ^ w

abbrev pub shr : ℕ → ℕ → ℕ
shr x k = x / 2 ^ k

unfoldable pub uint8 : Bytes → Go ℕ
uint8 b = index b 0

unfoldable pub put_uint8 : Bytes → ℕ → Go Bytes
put_uint8 b v = store b 0 (byte v)

unfoldable pub uint32 : Bytes → Go ℕ
uint32 b = do
  b0 ← index b 0
  b1 ← index b 1
  b2 ← index b 2
  b3 ← index b 3
  done (bit_or (bit_or (bit_or b0 (shl 32 b1 8)) (shl 32 b2 16)) (shl 32 b3 24))

unfoldable pub put_uint32 : Bytes → ℕ → Go Bytes
put_uint32 b v = do
  b ← store b 0 (byte v)
  b ← store b 1 (byte (shr v 8))
  b ← store b 2 (byte (shr v 16))
  store b 3 (byte (shr v 24))

unfoldable pub int32 : Bytes → Go ℕ
unfolding uint32
int32 = uint32

unfoldable pub put_int32 : Bytes → ℕ → Go Bytes
unfolding put_uint32
put_int32 = put_uint32

unfoldable pub uint64 : Bytes → Go ℕ
uint64 b = do
  b0 ← index b 0
  b1 ← index b 1
  b2 ← index b 2
  b3 ← index b 3
  b4 ← index b 4
  b5 ← index b 5
  b6 ← index b 6
  b7 ← index b 7
  let lo = bit_or (bit_or (bit_or b0 (shl 64 b1 8)) (shl 64 b2 16)) (shl 64 b3 24)
  let mid = bit_or (bit_or lo (shl 64 b4 32)) (shl 64 b5 40)
  done (bit_or (bit_or mid (shl 64 b6 48)) (shl 64 b7 56))

unfoldable pub put_uint64 : Bytes → ℕ → Go Bytes
put_uint64 b v = do
  b ← store b 0 (byte v)
  b ← store b 1 (byte (shr v 8))
  b ← store b 2 (byte (shr v 16))
  b ← store b 3 (byte (shr v 24))
  b ← store b 4 (byte (shr v 32))
  b ← store b 5 (byte (shr v 40))
  b ← store b 6 (byte (shr v 48))
  store b 7 (byte (shr v 56))

unfoldable pub int64 : Bytes → Go ℕ
unfolding uint64
int64 = uint64

unfoldable pub put_int64 : Bytes → ℕ → Go Bytes
unfolding put_uint64
put_int64 = put_uint64

unfoldable pub float32 : Bytes → Go ℕ
unfolding uint32
float32 = uint32

unfoldable pub put_float32 : Bytes → ℕ → Go Bytes
unfolding put_uint32
put_float32 = put_uint32

unfoldable pub float64 : Bytes → Go ℕ
unfolding uint64
float64 = uint64

unfoldable pub put_float64 : Bytes → ℕ → Go Bytes
unfolding put_uint64
put_float64 = put_uint64
