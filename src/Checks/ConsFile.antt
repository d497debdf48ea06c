-- ===== src/Checks/ConsFile.antt =====
-- checks/genchecks.py, check_cons: the .sby file of a consistency check.
use riscv_formal.Prelude.{
  ℕ, ◌+◌, Bool, not, ◌&&◌, ◌||◌, List, [], ◌∷◌, ◌++◌, Option, none, some, if◌then◌else◌,
}
use riscv_formal.Isa.Database.{codes, eq_codes}
use riscv_formal.Monitor.Rewrite.{Text}
use riscv_formal.Checks.Select.{Library, decimal}
use riscv_formal.Checks.Cons.{CsrCheck, ConsCall, ConsJob, parse_test}
use riscv_formal.Checks.Template.{Hargs, hfmt_lines}
use riscv_formal.Checks.Hargs.{Setup, set_hargs}
use riscv_formal.Checks.Parts.{
  all_parts, line_if, section_part, source_parts, common_defines, custom_part, assume_part,
}
use riscv_formal.Checks.ConsTexts.{
  cons_options, cons_prep, cons_files, cons_defines, bus_defines, cons_includes, cover_stmts,
}

-- `hargs["channel"]`, where there is a channel.
abbrev pub channel_harg : Option ℕ → Hargs
channel_harg none = []
channel_harg (some n) = (codes "channel", decimal n) ∷ []

-- What check_cons sets in `hargs` once the depths are known.
unfoldable pub cons_hargs : ConsJob → Hargs → Hargs
cons_hargs job = set_hargs (
    (codes "start", decimal job.start)
    ∷ (codes "depth", decimal job.depth)
    ∷ (codes "depth_plus", decimal (job.depth + 1))
    ∷ (codes "skip", decimal job.depth)
    ∷ (codes "checkch", job.names.checkch)
    ∷ (codes "xmode", job.xmode)
    ∷ [])

-- `print(f"`define {key} {localdict[val]}")`, where there is a value.
abbrev pub value_line : Text → Option Text → Option (List Text)
value_line key none = some []
value_line key (some v) = some ((codes "`define " ++ (key ++ (32 ∷ v))) ∷ [])

-- The block `if csr_mode`.
abbrev pub csr_values : Text → Option CsrCheck → Option (List Text)
csr_values csr none = none
csr_values csr (some t) = all_parts (
    value_line (codes "RISCV_FORMAL_CSRC_CONSTVAL") t.constval
    ∷ value_line (codes "RISCV_FORMAL_CSRC_HPMEVENT") t.hpmevent
    ∷ value_line (codes "RISCV_FORMAL_CSRC_HPMCOUNTER") t.hpmcounter
    ∷ value_line (codes "RISCV_FORMAL_CSRC_MASK") t.csr_mask
    ∷ some ((codes "`define RISCV_FORMAL_CSRC_NAME " ++ csr) ∷ [])
    ∷ [])

unfoldable pub csr_part : ConsCall → Option (List Text)
csr_part call = elim call.csr_test [
  | none ↦ some []
  | some test ↦ csr_values call.check (parse_test call.check test)
]

-- A define of a number that may be missing.
abbrev pub number_line : Text → Option ℕ → Option (List Text)
number_line key none = some []
number_line key (some n) = some ((codes "`define " ++ (key ++ (32 ∷ decimal n))) ∷ [])

abbrev pub lines_if : Bool → Option (List Text) → Option (List Text)
lines_if test lines = if test then lines else some []

-- The lines of the file.
unfoldable pub cons_sby :
    Library → Setup → List Text → Hargs → Text → ConsCall → ConsJob → Option (List Text)
cons_sby lib s csrs hargs pf call job =
    let kind = job.names.kind in
    let check = job.names.checkch in
    all_parts (
      hfmt_lines hargs cons_options
      ∷ section_part s hargs (codes "script-defines")
      ∷ section_part s hargs (codes "script-defines " ++ kind)
      ∷ source_parts s hargs check
      ∷ hfmt_lines hargs cons_prep
      ∷ section_part s hargs (codes "script-link")
      ∷ hfmt_lines hargs cons_files
      ∷ hfmt_lines hargs cons_defines
      ∷ common_defines s csrs
      ∷ csr_part call
      ∷ custom_part s.custom_csrs
      ∷ line_if (s.globals.blackbox && not (eq_codes kind (codes "liveness")))
          (codes "`define RISCV_FORMAL_BLACKBOX_ALU")
      ∷ line_if (s.globals.blackbox && not (eq_codes kind (codes "reg")))
          (codes "`define RISCV_FORMAL_BLACKBOX_REGS")
      ∷ number_line (codes "RISCV_FORMAL_CHANNEL_IDX") call.chanidx
      ∷ number_line (codes "RISCV_FORMAL_TRIG_CYCLE") job.trig
      ∷ lines_if call.bus_mode (hfmt_lines hargs bus_defines)
      ∷ line_if (eq_codes kind (codes "liveness") || eq_codes kind (codes "hang"))
          (codes "`define RISCV_FORMAL_FAIRNESS")
      ∷ section_part s hargs (codes "defines")
      ∷ section_part s hargs (codes "defines " ++ kind)
      ∷ hfmt_lines hargs cons_includes
      ∷ lines_if (eq_codes check (pf ++ codes "cover")) (hfmt_lines hargs cover_stmts)
      ∷ assume_part lib s check
      ∷ [])
