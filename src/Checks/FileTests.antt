-- ===== src/Checks/FileTests.antt =====
-- Examples of the files and the makefile.
use mathlib.Core.List.{Perm, Permᴰ}
use riscv_formal.Prelude.{ℕ, ◌≡◌, refl, true, false, List, [], ◌∷◌, Option, none, some, ◌-◌}
use riscv_formal.Isa.Database.{codes, eq_codes, starts_with}
use riscv_formal.Monitor.Rewrite.{Text}
use riscv_formal.Checks.Config.{find_section}
use riscv_formal.Checks.Settings.{default_globals, has_mod}
use riscv_formal.Checks.Select.{Library, insn, InsnJob}
use riscv_formal.Checks.Hargs.{Setup, initial_hargs}
use riscv_formal.Checks.Template.{outside, substitute}
use riscv_formal.Checks.Filled.{literal, slot, Piece, filled, substitute-filled}
use riscv_formal.Checks.InsnFile.{insn_hargs, insn_sby}
use riscv_formal.Checks.Enough.{is_some}
use riscv_formal.Checks.Run.{Run, write_checks}
use riscv_formal.Checks.Makefile.{makefile, makefile_checks, run_checks}
use riscv_formal.Checks.Order.{makefile-Perm}
use riscv_formal.Checks.Sets.{has_file}
use riscv_formal.Checks.Written.{write_checks-makefile_checks}
use riscv_formal.Checks.Fillable.{Fillable, insn_sections, insn_sby-IsFilled}
use riscv_formal.Checks.Parts.{section_part}
use riscv_formal.Checks.Run.{
  insn_step, named, cons_with_depths, cons_step, insn_group, cons_group, write_checks,
}
use riscv_formal.Checks.InsnFile.{target_text, insn_hargs, checker_part, insn_sby}
use riscv_formal.Checks.ConsFile.{cons_hargs, csr_part, cons_sby}
use riscv_formal.Checks.Parts.{all_parts, section_part, source_parts, common_defines, assume_part}
use riscv_formal.Checks.Hargs.{initial_hargs}
use riscv_formal.Checks.Template.{substitute, template_line, hfmt_lines}
use riscv_formal.Checks.Sort.{sort_by}
use riscv_formal.Checks.Select.{
  ints, depth_lines, get_depth_cfg, test_disabled, digits, target_name, check_name, depth_names,
  check_insn,
}
use riscv_formal.Checks.Cons.{cons_names, get_elem?, pick, cons_job}
use riscv_formal.Checks.Schedule.{insn_calls, channel_calls, cons_calls}
use riscv_formal.Checks.Csrs.{add_name, set_key}
use riscv_formal.Checks.Strings.{strip, split_at}
use riscv_formal.Isa.Database.{eq_codes, starts_with}
use riscv_formal.Monitor.Rewrite.{split}
use riscv_formal.Checks.Config.{find_section}
use riscv_formal.Checks.Makefile.{union, run_checks}

-- Patterns that are compared as they stand, and numbers of one digit.
abbrev library : Library
library = record { match = starts_with; fullmatch = eq_codes; int = digit; int16 = digit }
  where
    digit : Text → Option ℕ
    digit [] = none
    digit (c ∷ cs) = some (c - 48)

abbrev setup : Setup
setup = record {
  config = record { sections = (codes "depth", codes "insn 5\nreg 1 5") ∷ []; assume = [] };
  globals = default_globals;
  xlen = 32;
  ilen = 32;
  compr = false;
  custom_csrs = [];
  basedir = codes "/rvf";
  corename = codes "core";
}

abbrev pieces : List Piece
pieces = literal (codes "depth ") ∷ slot (codes "depth") ∷ []

substitute-filled_example :
    substitute ((codes "depth", codes "5") ∷ []) outside (codes "depth @depth@")
    ≡ filled ((codes "depth", codes "5") ∷ []) pieces
substitute-filled_example = substitute-filled ((codes "depth", codes "5") ∷ []) pieces (
  (refl, (refl, (refl, (refl, (refl, (refl, tt)))))),
  ((refl, (refl, (refl, (refl, (refl, tt))))), tt),
)

depth_filled : filled ((codes "depth", codes "5") ∷ []) pieces ≡ some (codes "depth 5")
unfolding find_section eq_codes
depth_filled = refl

swapped : Perm (codes "reg_ch0" ∷ codes "hang" ∷ []) (codes "hang" ∷ codes "reg_ch0" ∷ [])
swapped = ∣ Permᴰ.swap refl refl ∣₁

makefile-Perm_example :
    makefile library setup (codes "reg_ch0" ∷ codes "hang" ∷ [])
    ≡ makefile library setup (codes "hang" ∷ codes "reg_ch0" ∷ [])
makefile-Perm_example = makefile-Perm library setup swapped

abbrev job : InsnJob
job = record { checkch = codes "insn_add_ch0"; depth = 5; depth_plus = 6; skip = 5 }

no_sections : Fillable setup (insn_hargs (codes "add") 0 job (initial_hargs setup)) insn_sections
unfolding section_part find_section eq_codes
no_sections = (refl, (refl, (refl, (refl, (refl, (refl, tt))))))

insn_sby-IsFilled_example :
    is_some (
      insn_sby library setup []
        (insn_hargs (codes "add") 0 job (initial_hargs setup))
        (insn (codes "add"))
        job.checkch)
    ≡ true
insn_sby-IsFilled_example =
    insn_sby-IsFilled library setup [] (codes "add") 0 job (initial_hargs setup)
      (insn (codes "add")) (λ k h. h) no_sections

-- The run for one group, the instruction add and no CSR.
abbrev add_run : Option Run
add_run = write_checks library setup (none ∷ []) (codes "add" ∷ []) [] (λ csr. none ∷ []) []

abbrev run_of : Option Run → Run
run_of none = record {
  hargs = [];
  csrs = [];
  instruction_checks = [];
  consistency_checks = [];
  files = [];
}
run_of (some r) = r

add_checks : run_checks (run_of add_run) ≡ codes "reg_ch0" ∷ codes "insn_add_ch0" ∷ []
unfolding insn_step named cons_with_depths cons_step insn_group cons_group write_checks target_text
    insn_hargs checker_part insn_sby cons_hargs csr_part cons_sby all_parts section_part
    source_parts common_defines assume_part initial_hargs substitute template_line hfmt_lines
    sort_by ints depth_lines get_depth_cfg test_disabled digits target_name check_name depth_names
    check_insn cons_names get_elem? pick cons_job insn_calls channel_calls cons_calls add_name
    set_key strip split_at eq_codes split find_section union run_checks
add_checks = refl

add_run_complete : add_run ≡ some (run_of add_run)
unfolding insn_step named cons_with_depths cons_step insn_group cons_group write_checks target_text
    insn_hargs checker_part insn_sby cons_hargs csr_part cons_sby all_parts section_part
    source_parts common_defines assume_part initial_hargs substitute template_line hfmt_lines
    sort_by ints depth_lines get_depth_cfg test_disabled target_name depth_names check_insn
    cons_names get_elem? pick cons_job insn_calls channel_calls cons_calls set_key strip split_at
    eq_codes split find_section
add_run_complete = refl

write_checks-makefile_checks_example :
    has_mod
      (codes "insn_add_ch0")
      (makefile_checks library setup.config (run_checks (run_of add_run)))
    ≡ has_file (codes "insn_add_ch0") (run_of add_run).files
write_checks-makefile_checks_example =
    write_checks-makefile_checks library setup (none ∷ []) (codes "add" ∷ []) [] (λ csr. none ∷ [])
      [] (run_of add_run) add_run_complete (codes "insn_add_ch0")
