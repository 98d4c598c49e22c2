-- ===== src/Mcpack/RoundTrip.antt =====
-- What `Marshal` wrote, `Unmarshal` reads back.
pub mod Inversion
pub mod Names
pub mod Pieces
pub mod Values
pub mod Whole
pub mod Skip
pub mod Omitted
pub mod TypedItems
pub mod TypedLoops
pub mod TypedFields
pub mod TypedFirst
pub mod Typed
pub mod Unknown
