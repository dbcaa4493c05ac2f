-- ===== src/Abi.antt =====
-- The Dart call ABI: what evidence says about a function's slots, where a call puts its values,
-- and how words become values (src/abi).
pub mod Types
pub mod Evidence
pub mod Layout
pub mod Codec
mod Tests
