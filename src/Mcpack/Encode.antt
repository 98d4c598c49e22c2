-- ===== src/Mcpack/Encode.antt =====
-- mcpack/encode.go: the buffer that grows, the encoder of each kind, and `Marshal`. The proofs are
-- in `Emits`, `Writes` and `Refine`.
mod State
mod Scalars
mod Encoders
pub use State.{EncodeState, Enc}
unfoldable pub use State.{
  write_byte, set_type, set_key_len, copy_bytes, set_key, resize_if_needed, write_number, offset,
  advance, patch_int32,
}
unfoldable pub use Scalars.*
unfoldable pub use Encoders.*
pub mod Emits
pub mod Room
pub mod Writes
pub mod Leaves
pub mod Headers
pub mod Containers
pub mod Refine
