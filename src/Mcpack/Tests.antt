-- ===== src/Mcpack/Tests.antt =====
-- Runs of the code on concrete inputs, and the theorems applied to them.
mod Decoding
mod Encoding
mod Examples
mod Typed
mod Folding
mod Search
mod Unknown
