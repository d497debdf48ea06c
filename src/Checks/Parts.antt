-- ===== src/Checks/Parts.antt =====
-- checks/genchecks.py: the parts that the files of all checks have. `none` is an exception.
use riscv_formal.Prelude.{
  Bool, true, false, List, [], ◌∷◌, ◌++◌, Option, none, some, if◌then◌else◌, map,
}
use riscv_formal.Isa.Database.{codes, eq_codes}
use riscv_formal.Monitor.Rewrite.{Text}
use riscv_formal.Checks.Config.{find_section}
use riscv_formal.Checks.Settings.{upper}
use riscv_formal.Checks.Select.{Library, assume_stmts}
use riscv_formal.Checks.CsrLines.{CustomCsr}
use riscv_formal.Checks.Template.{Hargs, hfmt}
use riscv_formal.Checks.Sort.{sorted}
use riscv_formal.Checks.Hargs.{Setup}
use riscv_formal.Checks.Custom.{print_custom_csrs}

-- Lines after lines, where none are missing.
abbrev pub append_option : Option (List Text) → Option (List Text) → Option (List Text)
append_option none rest = none
append_option (some lines) none = none
append_option (some lines) (some rest) = some (lines ++ rest)

-- The parts of a file, in the order in which they are printed.
unfoldable pub all_parts : List (Option (List Text)) → Option (List Text)
all_parts [] = some []
all_parts (part ∷ parts) = append_option part (all_parts parts)

-- A line that is printed under a condition.
abbrev pub line_if : Bool → Text → Option (List Text)
line_if test line = if test then some (line ∷ []) else some []

-- `if name in config: print_hfmt(sby_file, config[name], **hargs)`, and the same for the list of files
-- that a section names.
abbrev pub filled_section : Hargs → Option Text → Option (List Text)
filled_section hargs none = some []
filled_section hargs (some body) = hfmt hargs body

unfoldable pub section_part : Setup → Hargs → Text → Option (List Text)
section_part s hargs name = filled_section hargs (find_section name s.config.sections)

-- `' '.join(words)`
abbrev pub joined : List Text → Text
joined [] = []
joined (w ∷ []) = w
joined (w ∷ v ∷ ws) = w ++ (32 ∷ joined (v ∷ ws))

abbrev pub sv_line : Text → Option (List Text) → Option (List Text)
sv_line check none = none
sv_line check (some files) =
    some ((codes "read -sv " ++ joined ((check ++ codes ".sv") ∷ files)) ∷ [])

abbrev pub vhdl_line : Option (List Text) → Option (List Text)
vhdl_line none = none
vhdl_line (some []) = some []
vhdl_line (some (file ∷ files)) = some ((codes "read -vhdl " ++ joined (file ∷ files)) ∷ [])

-- From the list of Verilog files to the section script-sources.
unfoldable pub source_parts : Setup → Hargs → Text → Option (List Text)
source_parts s hargs check = all_parts (
    sv_line check (section_part s hargs (codes "verilog-files"))
    ∷ vhdl_line (section_part s hargs (codes "vhdl-files"))
    ∷ section_part s hargs (codes "script-sources")
    ∷ [])

abbrev pub has_assume : Setup → Bool
has_assume s = elim s.config.assume [ [] ↦ false | a ∷ as_ ↦ true ]

-- The defines for assumptions, an unbounded proof and the CSRs.
unfoldable pub common_defines : Setup → List Text → Option (List Text)
common_defines s csrs = all_parts (
    line_if (has_assume s) (codes "`define RISCV_FORMAL_ASSUME")
    ∷ line_if (eq_codes s.globals.mode (codes "prove")) (codes "`define RISCV_FORMAL_UNBOUNDED")
    ∷ some (map (λ csr. codes "`define RISCV_FORMAL_CSR_" ++ map upper csr) (sorted csrs))
    ∷ [])

-- `if custom_csrs: print_custom_csrs(sby_file)`
abbrev pub custom_part : List CustomCsr → Option (List Text)
custom_part [] = some []
custom_part (c ∷ custom) = some (print_custom_csrs (c ∷ custom))

-- The file of assumptions.
unfoldable pub assume_part : Library → Setup → Text → Option (List Text)
assume_part lib s check =
    if has_assume s
    then some ([] ∷ codes "[file assume_stmts.vh]" ∷ assume_stmts lib check s.config.assume)
    else some []
