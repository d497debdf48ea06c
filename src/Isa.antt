-- ===== src/Isa.antt =====
-- insns/generate.py: `isa_database`, the instruction listings of the ISA names and the model of a
-- whole ISA.
pub mod Database
pub mod Propagate
pub mod Key
pub mod Valid
pub mod ValidC
pub mod Pattern
pub mod Exclusion
pub mod Model
pub mod Decode
pub mod Select
