-- ===== src/Mcpack/Const.antt =====
-- mcpack/const.go: the type bytes of items and the limits.
use Prim.Native.Nat.{bit_or}
use gomcpack.Prelude.{ℕ}

abbrev pub object_type : ℕ
object_type = 0x10

abbrev pub array_type : ℕ
array_type = 0x20

abbrev pub string_type : ℕ
string_type = 0x50

abbrev pub binary_type : ℕ
binary_type = 0x60

abbrev pub int8_type : ℕ
int8_type = 0x11

abbrev pub int16_type : ℕ
int16_type = 0x12

abbrev pub int32_type : ℕ
int32_type = 0x14

abbrev pub int64_type : ℕ
int64_type = 0x18

abbrev pub uint8_type : ℕ
uint8_type = 0x21

abbrev pub uint16_type : ℕ
uint16_type = 0x22

abbrev pub uint32_type : ℕ
uint32_type = 0x24

abbrev pub uint64_type : ℕ
uint64_type = 0x28

abbrev pub bool_type : ℕ
bool_type = 0x31

abbrev pub float_type : ℕ
float_type = 0x44

abbrev pub double_type : ℕ
double_type = 0x48

abbrev pub date_type : ℕ
date_type = 0x58

abbrev pub null_type : ℕ
null_type = 0x61

abbrev pub short_item : ℕ
short_item = 0x80

abbrev pub short_string_type : ℕ
short_string_type = bit_or string_type short_item

abbrev pub short_binary_type : ℕ
short_binary_type = bit_or binary_type short_item

abbrev pub key_max_len : ℕ
key_max_len = 254

abbrev pub max_short_vitem_len : ℕ
max_short_vitem_len = 255
