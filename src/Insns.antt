-- ===== src/Insns.antt =====
-- insns/generate.py: the instruction models. Each generator function of the script writes one
-- Verilog module; here it is the function that this module computes.
pub mod Module
pub mod Format
pub mod FormatC
pub mod Wires
pub mod Base
pub mod Memory
pub mod Alu
pub mod Bitmanip
pub mod Compressed
pub mod MemoryC
pub mod Expr
pub mod Mnemonic
pub mod Table
