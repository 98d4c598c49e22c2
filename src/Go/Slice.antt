-- ===== src/Go/Slice.antt =====
-- Byte slices. A `[]byte` is the list of its `len` bytes; where a slice expression may reach up to
-- the capacity, the bytes between `len` and `cap` are a second list.
mod Laws
pub use Laws.*
mod Defs
pub use Defs.{Bytes, byte}
unfoldable pub use Defs.{index, store, slice_from, slice_to_cap, copy}
