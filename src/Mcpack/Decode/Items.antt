-- ===== src/Mcpack/Decode/Items.antt =====
-- The `…Interface` methods of values without members.
use gomcpack.Prelude.{ℕ, ◌+◌, ◌-◌, true, false, ◌==◌, if◌then◌else◌}
use gomcpack.Go.{Go}
use gomcpack.Go.Slice.{Bytes}
use gomcpack.Go.Proc.{◌>>=◌, ◌>>◌, pure}
use gomcpack.Mcpack.Number.{uint8, uint32, int32, int64, uint64, float32, float64}
use gomcpack.Mcpack.Dyn.{Dyn, nil, bool, string, binary}
use gomcpack.Mcpack.Decode.State.{Decoder, peek, read, offset, advance, slice_data, type_and_klen}

-- The content of a string of `vlen` bytes, without its 0x00; `d.off += vlen`.
unfoldable pub string_content : ℕ → Decoder Bytes
string_content vlen = do off ← offset; val ← slice_data off (off + vlen - 1); advance vlen; pure val

unfoldable pub binary_content : ℕ → Decoder Bytes
binary_content vlen = do off ← offset; val ← slice_data off (off + vlen); advance vlen; pure val

unfoldable pub string_interface : Decoder Dyn
unfolding type_and_klen string_content
string_interface = do
  klen ← type_and_klen
  vlen ← read uint32 0
  advance 4
  advance klen
  val ← string_content vlen
  pure (string val)

unfoldable pub short_string_interface : Decoder Dyn
unfolding type_and_klen string_content
short_string_interface = do
  klen ← type_and_klen
  vlen ← read uint8 0
  advance 1
  advance klen
  val ← string_content vlen
  pure (string val)

unfoldable pub binary_interface : Decoder Dyn
unfolding type_and_klen binary_content
binary_interface = do
  klen ← type_and_klen
  vlen ← read uint32 0
  advance 4
  advance klen
  val ← binary_content vlen
  pure (binary val)

unfoldable pub short_binary_interface : Decoder Dyn
unfolding type_and_klen binary_content
short_binary_interface = do
  klen ← type_and_klen
  vlen ← read uint8 0
  advance 1
  advance klen
  val ← binary_content vlen
  pure (binary val)

-- A number of `width` bytes behind the name.
unfoldable pub number_interface : (Bytes → Go ℕ) → ℕ → (ℕ → Dyn) → Decoder Dyn
unfolding type_and_klen
number_interface get width make = do
  klen ← type_and_klen
  advance klen
  val ← read get 0
  advance width
  pure (make val)

unfoldable pub int32_interface : Decoder Dyn
unfolding number_interface
int32_interface = number_interface int32 4 Dyn.int32

unfoldable pub uint32_interface : Decoder Dyn
unfolding number_interface
uint32_interface = number_interface uint32 4 Dyn.uint32

unfoldable pub int64_interface : Decoder Dyn
unfolding number_interface
int64_interface = number_interface int64 8 Dyn.int64

unfoldable pub uint64_interface : Decoder Dyn
unfolding number_interface
uint64_interface = number_interface uint64 8 Dyn.uint64

unfoldable pub float_interface : Decoder Dyn
unfolding number_interface
float_interface = number_interface float32 4 Dyn.float32

unfoldable pub double_interface : Decoder Dyn
unfolding number_interface
double_interface = number_interface float64 8 Dyn.float64

unfoldable pub null_interface : Decoder Dyn
unfolding type_and_klen
null_interface = do klen ← type_and_klen; advance klen; advance 1; pure nil

unfoldable pub bool_interface : Decoder Dyn
unfolding type_and_klen
bool_interface = do
  klen ← type_and_klen
  advance klen
  val ← peek
  advance 1
  if val == 0 then pure (bool false) else pure (bool true)
