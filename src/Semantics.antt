-- ===== src/Semantics.antt =====
-- What the instruction modules compute, against descriptions by arithmetic.
pub mod Slots
pub mod Permute
pub mod Counting
pub mod Memory
pub mod Masks
pub mod Access
pub mod Multiply
mod Tests
