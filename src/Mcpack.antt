-- ===== src/Mcpack.antt =====
-- The serialisation format of mcpack/*.go.
pub mod Const
pub mod Tags
pub mod Fields
pub mod Fold
pub mod Number
pub mod Value
pub mod Encode
pub mod Wire
pub mod Dyn
pub mod GoType
pub mod Decode
pub mod View
pub mod Reflect
pub mod RoundTrip
mod Tests
