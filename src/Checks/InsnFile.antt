-- ===== src/Checks/InsnFile.antt =====
-- checks/genchecks.py, check_insn: the .sby file of a check of an instruction or of a CSR.
use riscv_formal.Prelude.{ℕ, Bool, false, ◌||◌, List, [], ◌∷◌, ◌++◌, Option, none, some}
use riscv_formal.Isa.Database.{codes, eq_codes}
use riscv_formal.Monitor.Rewrite.{Text}
use riscv_formal.Checks.Select.{Library, Target, insn, csr, illegal_csr, InsnJob, decimal}
use riscv_formal.Checks.Template.{Hargs, hfmt_lines}
use riscv_formal.Checks.Numbers.{hex3}
use riscv_formal.Checks.Hargs.{Setup, set_hargs}
use riscv_formal.Checks.Custom.{has_letter}
use riscv_formal.Checks.Parts.{
  all_parts, line_if, section_part, source_parts, common_defines, custom_part, assume_part,
}
use riscv_formal.Checks.InsnTexts.{
  insn_options, insn_prep, insn_files, ill_file, csrw_file, insn_file, insn_defines, ill_checker,
  csrw_checker, insn_checker, insn_includes, ill_include, csrw_include, insn_include,
}

-- `insn`, as it is printed.
unfoldable pub target_text : Library → Target → Option Text
target_text lib (insn name) = some name
target_text lib (csr name) = some name
target_text lib (illegal_csr addr modes rw_) = elim (lib.int16 addr) [
  | none ↦ none
  | some n ↦ some (codes "12'h" ++ hex3 n)
]

-- What check_insn sets in `hargs` before it writes the file.
unfoldable pub insn_hargs : Text → ℕ → InsnJob → Hargs → Hargs
insn_hargs text chanidx job = set_hargs (
    (codes "insn", text)
    ∷ (codes "checkch", job.checkch)
    ∷ (codes "channel", decimal chanidx)
    ∷ (codes "depth", decimal job.depth)
    ∷ (codes "depth_plus", decimal job.depth_plus)
    ∷ (codes "skip", decimal job.skip)
    ∷ [])

abbrev pub files_of : Target → List Text
files_of (insn name) = insn_file
files_of (csr name) = csrw_file
files_of (illegal_csr addr modes rw_) = ill_file

abbrev pub include_of : Target → List Text
include_of (insn name) = insn_include
include_of (csr name) = csrw_include
include_of (illegal_csr addr modes rw_) = ill_include

-- `csr_mode and insn in ("mcycle", "minstret")`
abbrev pub is_counter : Target → Bool
is_counter (insn name) = false
is_counter (csr name) = eq_codes name (codes "mcycle") || eq_codes name (codes "minstret")
is_counter (illegal_csr addr modes rw_) = false

-- The defines of the checker.
unfoldable pub checker_part : Hargs → Target → Option (List Text)
checker_part hargs (insn name) = hfmt_lines hargs insn_checker
checker_part hargs (csr name) = hfmt_lines hargs csrw_checker
checker_part hargs (illegal_csr addr modes rw_) = all_parts (
    hfmt_lines hargs ill_checker
    ∷ line_if (has_letter 109 modes) (codes "`define RISCV_FORMAL_ILL_MMODE")
    ∷ line_if (has_letter 115 modes) (codes "`define RISCV_FORMAL_ILL_SMODE")
    ∷ line_if (has_letter 117 modes) (codes "`define RISCV_FORMAL_ILL_UMODE")
    ∷ line_if (has_letter 114 rw_) (codes "`define RISCV_FORMAL_ILL_READ")
    ∷ line_if (has_letter 119 rw_) (codes "`define RISCV_FORMAL_ILL_WRITE")
    ∷ [])

-- The lines of the file.
unfoldable pub insn_sby : Library → Setup → List Text → Hargs → Target → Text → Option (List Text)
insn_sby lib s csrs hargs t check = all_parts (
    hfmt_lines hargs insn_options
    ∷ section_part s hargs (codes "script-defines")
    ∷ source_parts s hargs check
    ∷ hfmt_lines hargs insn_prep
    ∷ section_part s hargs (codes "script-link")
    ∷ hfmt_lines hargs insn_files
    ∷ hfmt_lines hargs (files_of t)
    ∷ hfmt_lines hargs insn_defines
    ∷ common_defines s csrs
    ∷ line_if (is_counter t) (codes "`define RISCV_FORMAL_CSRWH")
    ∷ checker_part hargs t
    ∷ custom_part s.custom_csrs
    ∷ line_if s.globals.blackbox (codes "`define RISCV_FORMAL_BLACKBOX_REGS")
    ∷ line_if s.compr (codes "`define RISCV_FORMAL_COMPRESSED")
    ∷ section_part s hargs (codes "defines")
    ∷ hfmt_lines hargs insn_includes
    ∷ hfmt_lines hargs (include_of t)
    ∷ assume_part lib s check
    ∷ [])
