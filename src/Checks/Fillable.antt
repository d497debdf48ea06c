-- ===== src/Checks/Fillable.antt =====
-- The texts of the files of all checks can be filled in: no key is missing.
use riscv_formal.Prelude.{
  ℕ, ◌≡◌, refl, Bool, true, false, List, [], ◌∷◌, Option, none, some, if◌then◌else◌,
}
use riscv_formal.Isa.Database.{codes, eq_codes}
use riscv_formal.Monitor.Rewrite.{Text}
use riscv_formal.Monitor.Order.{AllOf}
use riscv_formal.Checks.Config.{find_section}
use riscv_formal.Checks.Strings.{lstrip, rstrip, strip}
use riscv_formal.Checks.Select.{Library, Target, insn, csr, illegal_csr, InsnJob}
use riscv_formal.Checks.Enough.{is_some}
use riscv_formal.Checks.Template.{Hargs, hfmt_lines, substitute, template_line}
use riscv_formal.Checks.CsrLines.{CustomCsr}
use riscv_formal.Checks.Hargs.{Setup, initial_hargs}
use riscv_formal.Checks.Keys.{KeysOf, hfmt_lines-KeysOf}
use riscv_formal.Checks.Known.{all_insn_keys, all_insn_keys-KeysOf}
use riscv_formal.Checks.Parts.{
  append_option, all_parts, line_if, section_part, source_parts, sv_line, vhdl_line, common_defines,
  custom_part, assume_part, has_assume,
}
use riscv_formal.Checks.InsnTexts.{
  insn_options, insn_prep, insn_files, insn_defines, ill_checker, csrw_checker, insn_checker,
  insn_includes,
}
use riscv_formal.Checks.InsnFile.{insn_hargs, checker_part, files_of, include_of, insn_sby}

abbrev IsFilled : Option (List Text) → Type 0
IsFilled part = is_some part ≡ true

all_parts-IsFilled :
    (parts : List (Option (List Text))) → AllOf IsFilled parts → IsFilled (all_parts parts)
unfolding all_parts
all_parts-IsFilled [] h = refl
all_parts-IsFilled (none ∷ parts) h = h.0
all_parts-IsFilled (some lines ∷ parts) h = go (all_parts parts) (all_parts-IsFilled parts h.1)
  where
    go : (o : Option (List Text)) → IsFilled o → IsFilled (append_option (some lines) o)
    go none h = h
    go (some rest) h = refl

-- The templates of all checks of check_insn, and those that depend on what is checked.
common_templates :
    AllOf
      (λ t. IsFilled (hfmt_lines all_insn_keys t))
      (insn_options ∷ insn_prep ∷ insn_files ∷ insn_defines ∷ insn_includes ∷ [])
unfolding hfmt_lines substitute template_line lstrip rstrip strip find_section eq_codes
common_templates = (refl, (refl, (refl, (refl, (refl, tt)))))

files_of-IsFilled : (t : Target) → IsFilled (hfmt_lines all_insn_keys (files_of t))
unfolding hfmt_lines substitute template_line lstrip rstrip strip find_section eq_codes
files_of-IsFilled (insn name) = refl
files_of-IsFilled (csr name) = refl
files_of-IsFilled (illegal_csr addr modes rw_) = refl

include_of-IsFilled : (t : Target) → IsFilled (hfmt_lines all_insn_keys (include_of t))
unfolding hfmt_lines substitute template_line lstrip rstrip strip find_section eq_codes
include_of-IsFilled (insn name) = refl
include_of-IsFilled (csr name) = refl
include_of-IsFilled (illegal_csr addr modes rw_) = refl

checker_templates :
    AllOf
      (λ t. IsFilled (hfmt_lines all_insn_keys t))
      (insn_checker ∷ csrw_checker ∷ ill_checker ∷ [])
unfolding hfmt_lines substitute template_line lstrip rstrip strip find_section eq_codes
checker_templates = (refl, (refl, (refl, tt)))

if-IsFilled :
    (test : Bool) (x y : Option (List Text))
    → IsFilled x
    → IsFilled y
    → IsFilled (if test then x else y)
if-IsFilled true x y h k = h
if-IsFilled false x y h k = k

line_if-IsFilled : (test : Bool) (line : Text) → IsFilled (line_if test line)
line_if-IsFilled test line = if-IsFilled test (some (line ∷ [])) (some []) refl refl

checker_part-IsFilled :
    (hargs : Hargs) (t : Target) → KeysOf all_insn_keys hargs → IsFilled (checker_part hargs t)
unfolding checker_part
checker_part-IsFilled hargs (insn name) keys =
    hfmt_lines-KeysOf _ hargs _ keys (checker_templates.0)
checker_part-IsFilled hargs (csr name) keys =
    hfmt_lines-KeysOf _ hargs _ keys (checker_templates.1.0)
checker_part-IsFilled hargs (illegal_csr addr modes rw_) keys = all_parts-IsFilled _ (
  hfmt_lines-KeysOf _ hargs _ keys (checker_templates.1.1.0),
  (
    line_if-IsFilled _ _,
    (
      line_if-IsFilled _ _,
      (line_if-IsFilled _ _, (line_if-IsFilled _ _, (line_if-IsFilled _ _, tt))),
    ),
  ),
)

common_defines-IsFilled : (s : Setup) (csrs : List Text) → IsFilled (common_defines s csrs)
unfolding common_defines
common_defines-IsFilled s csrs =
    all_parts-IsFilled _ (line_if-IsFilled _ _, (line_if-IsFilled _ _, (refl, tt)))

custom_part-IsFilled : (custom : List CustomCsr) → IsFilled (custom_part custom)
custom_part-IsFilled [] = refl
custom_part-IsFilled (c ∷ custom) = refl

assume_part-IsFilled :
    (lib : Library) (s : Setup) (check : Text) → IsFilled (assume_part lib s check)
unfolding assume_part
assume_part-IsFilled lib s check = if-IsFilled (has_assume s) _ _ refl refl

-- The texts of these sections can be filled in.
abbrev pub Fillable : Setup → Hargs → List Text → Type 0
Fillable s hargs names = AllOf (λ name. IsFilled (section_part s hargs name)) names

source_parts-IsFilled :
    (s : Setup) (hargs : Hargs) (check : Text)
    → Fillable s hargs (codes "verilog-files" ∷ codes "vhdl-files" ∷ codes "script-sources" ∷ [])
    → IsFilled (source_parts s hargs check)
unfolding source_parts
source_parts-IsFilled s hargs check h = all_parts-IsFilled _ (
  sv (section_part s hargs (codes "verilog-files")) h.0,
  (vhdl (section_part s hargs (codes "vhdl-files")) h.1.0, (h.1.1.0, tt)),
)
  where
    sv : (o : Option (List Text)) → IsFilled o → IsFilled (sv_line check o)
    sv none h = h
    sv (some files) h = refl

    vhdl : (o : Option (List Text)) → IsFilled o → IsFilled (vhdl_line o)
    vhdl none h = h
    vhdl (some []) h = refl
    vhdl (some (file ∷ files)) h = refl

-- The sections whose texts are printed into a file of check_insn.
abbrev pub insn_sections : List Text
insn_sections =
    codes "verilog-files"
    ∷ codes "vhdl-files"
    ∷ codes "script-sources"
    ∷ codes "script-defines"
    ∷ codes "script-link"
    ∷ codes "defines"
    ∷ []

-- For every library, configuration, set of CSRs, target, channel and depths, after any calls that
-- kept the keys that `hargs` starts with: where the texts of the sections of the configuration can
-- be filled in, check_insn writes its file; none of its own texts has a key that is missing.
pub insn_sby-IsFilled :
    (lib : Library) (s : Setup) (csrs : List Text) (text : Text) (chanidx : ℕ) (job : InsnJob)
    (hargs : Hargs) (t : Target)
    → KeysOf (initial_hargs s) hargs
    → Fillable s (insn_hargs text chanidx job hargs) insn_sections
    → is_some (insn_sby lib s csrs (insn_hargs text chanidx job hargs) t job.checkch) ≡ true
unfolding insn_sby
insn_sby-IsFilled lib s csrs text chanidx job hargs t kept h = all_parts-IsFilled _ (
  fill insn_options (common_templates.0),
  (
    h.1.1.1.0,
    (
      source_parts-IsFilled s filled job.checkch (h.0, (h.1.0, (h.1.1.0, tt))),
      (
        fill insn_prep (common_templates.1.0),
        (
          h.1.1.1.1.0,
          (
            fill insn_files (common_templates.1.1.0),
            (
              fill (files_of t) (files_of-IsFilled t),
              (
                fill insn_defines (common_templates.1.1.1.0),
                (
                  common_defines-IsFilled s csrs,
                  (
                    line_if-IsFilled _ _,
                    (
                      checker_part-IsFilled filled t keys,
                      (
                        custom_part-IsFilled s.custom_csrs,
                        (
                          line_if-IsFilled _ _,
                          (
                            line_if-IsFilled _ _,
                            (
                              h.1.1.1.1.1.0,
                              (
                                fill insn_includes (common_templates.1.1.1.1.0),
                                (
                                  fill (include_of t) (include_of-IsFilled t),
                                  (assume_part-IsFilled lib s job.checkch, tt),
                                ),
                              ),
                            ),
                          ),
                        ),
                      ),
                    ),
                  ),
                ),
              ),
            ),
          ),
        ),
      ),
    ),
  ),
)
  where
    filled : Hargs
    filled = insn_hargs text chanidx job hargs

    keys : KeysOf all_insn_keys filled
    keys = all_insn_keys-KeysOf s text chanidx job hargs kept

    fill : (t : List Text) → IsFilled (hfmt_lines all_insn_keys t) → IsFilled (hfmt_lines filled t)
    fill t = hfmt_lines-KeysOf all_insn_keys filled t keys
