-- ===== src/Macros.antt =====
-- checks/rvfi_macros.py: the script that writes the macros of the RVFI port.
pub mod Group
pub mod Print
pub mod Csrs
pub mod Output
pub mod Agree
