-- ===== src/Expansion.antt =====
-- The compressed instructions against the 32-bit instructions that they abbreviate.
pub mod Encode
pub mod Effect
pub mod Shift
pub mod Names
pub mod Manual
pub mod Decoded
pub mod Table
