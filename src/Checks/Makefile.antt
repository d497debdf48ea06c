-- ===== src/Checks/Makefile.antt =====
-- checks/genchecks.py: the makefile that runs the checks. A set is a list without repetitions.
use riscv_formal.Prelude.{ℕ, ◌+◌, Bool, List, [], ◌∷◌, ◌++◌, none, some, if◌then◌else◌, length}
use riscv_formal.Isa.Database.{codes, starts_with}
use riscv_formal.Monitor.Rewrite.{Text}
use riscv_formal.Checks.Strings.{strip, split_at}
use riscv_formal.Checks.Config.{Config, find_section}
use riscv_formal.Checks.Settings.{has_mod}
use riscv_formal.Checks.Select.{Library, decimal}
use riscv_formal.Checks.Schedule.{concat_map}
use riscv_formal.Checks.Sort.{sort_by}
use riscv_formal.Checks.Numbers.{decimal4}
use riscv_formal.Checks.Hargs.{Setup}
use riscv_formal.Checks.Run.{Run}

-- The key of a check that no line of [sort] matches.
abbrev pub class_key : Text → Text
class_key check =
    (if starts_with (codes "insn_") check then codes "9999-" else codes "9998-") ++ check

-- The loop over the lines of [sort], from the line with this index on.
unfoldable pub line_key : Library → Text → ℕ → List Text → Text
line_key lib check index [] = class_key check
line_key lib check index (line ∷ lines) =
    let rest = line_key lib check (index + 1) lines in
    if lib.fullmatch (strip line) check then decimal4 index ++ (45 ∷ check) else rest

unfoldable pub checks_key : Library → Config → Text → Text
checks_key lib config check = elim (find_section (codes "sort") config.sections) [
  | none ↦ class_key check
  | some body ↦ line_key lib check 0 (split_at 10 body)
]

-- `a | b`
unfoldable pub union : List Text → List Text → List Text
union a [] = a
union a (x ∷ b) = if has_mod x a then union a b else union (a ++ (x ∷ [])) b

-- `checks`
unfoldable pub makefile_checks : Library → Config → List Text → List Text
makefile_checks lib config checks = sort_by (checks_key lib config) checks

-- The lines of a check; `sbycmd` is "sby".
unfoldable pub rule_lines : Bool → Text → List Text
rule_lines abspath check =
    (check ++ codes ": " ++ check ++ codes "/status")
    ∷ (check ++ codes "/status:")
    ∷ (9
        ∷ (codes "sby "
            ++ (if abspath then codes "$(shell pwd)/" else [])
            ++ check
            ++ codes ".sby"))
    ∷ (codes ".PHONY: " ++ check)
    ∷ []

-- The lines of the makefile, for the set of all checks.
unfoldable pub makefile : Library → Setup → List Text → List Text
makefile lib s checks =
    let order = makefile_checks lib s.config checks in
    (codes "all:" ++ concat_map (λ check. 32 ∷ check) order)
    ∷ concat_map (rule_lines s.globals.abspath) order

unfoldable pub run_checks : Run → List Text
run_checks r = union r.consistency_checks r.instruction_checks

-- The last line that is printed.
unfoldable pub generated_line : Run → Text
generated_line r =
    codes "Generated "
    ++ decimal (length r.consistency_checks + length r.instruction_checks)
    ++ codes " checks."
