-- ===== src/Mcpack/Decode.antt =====
-- mcpack/decode.go: the reader of items, the decoder into `interface{}`, and `Unmarshal` into a
-- variable of that type.
mod State
mod Items
mod Interface
pub mod Setters
pub mod Loops
pub mod Typed
pub mod Ends
pub mod EndsItems
pub mod Total
pub mod TypedEnds
pub mod TypedTotal
pub mod Reads
pub mod ReadsItems
pub use State.{DecodeState, Decoder}
unfoldable pub use State.{
  peek, read, offset, advance, slice_data, key_start, check_key, key, next, type_and_klen,
  content_size,
}
unfoldable pub use Items.*
unfoldable pub use Interface.*
