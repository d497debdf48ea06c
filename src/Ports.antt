-- ===== src/Ports.antt =====
-- What holds of the outputs of every instruction module of insns/generate.py.
pub mod Defs
pub mod Full
pub mod Short
pub mod Control
pub mod ControlC
pub mod All
pub mod Traps
pub mod Next
