-- ===== src/Checks.antt =====
-- checks/genchecks.py: the script that reads a configuration and writes the checks of a core.
pub mod Strings
pub mod Config
pub mod Settings
pub mod Select
pub mod Cons
pub mod Schedule
pub mod Enough
pub mod Sections
pub mod Csrs
pub mod CsrLines
pub mod Restrict
pub mod Chosen
pub mod Template
pub mod Filled
pub mod Sort
pub mod Numbers
pub mod Hargs
pub mod InsnTexts
pub mod ConsTexts
pub mod Custom
pub mod Parts
pub mod InsnFile
pub mod ConsFile
pub mod Run
pub mod Makefile
pub mod Sorted
pub mod Order
pub mod Sets
pub mod Written
pub mod Keys
pub mod Known
pub mod Fillable
mod Tests
mod FileTests
