-- ===== src/Checks/Tests.antt =====
-- The theorems about checks/genchecks.py at small inputs.
use riscv_formal.Prelude.{
  any, ◌||◌, ℕ, ◌-◌, ◌≡◌, refl, true, false, List, [], ◌∷◌, ◌++◌, Option, none, some,
}
use riscv_formal.Isa.Database.{codes, eq_codes, starts_with}
use riscv_formal.Monitor.Rewrite.{Text}
use riscv_formal.Monitor.Order.{AllOf}
use riscv_formal.Checks.Strings.{strip}
use riscv_formal.Checks.Config.{Config, find_section, plain, config_lines}
use riscv_formal.Checks.Sections.{config_lines-find_section}
use riscv_formal.Checks.Select.{
  Library, depth_lines, ints, is_sign, bare, filter_lines, assume_enabled, negated,
}
use riscv_formal.Checks.Chosen.{depth_lines-last, filter_lines-first, assume_enabled-first}
use riscv_formal.Checks.Csrs.{restrict, restricted_csrs, spec_csrs}
use riscv_formal.Checks.Restrict.{has_key, has_illegal, allowed, refused, restrict-any}
use riscv_formal.Checks.Schedule.{cons_calls}
use riscv_formal.Checks.Enough.{TakesValues, cons_calls-TakesValues}

-- Patterns that are compared as they stand, and numbers of one digit.
abbrev library : Library
library = record { match = starts_with; fullmatch = eq_codes; int = digit; int16 = digit }
  where
    digit : Text → Option ℕ
    digit [] = none
    digit (c ∷ cs) = some (c - 48)

abbrev insn_line : List Text
insn_line = codes "insn" ∷ codes "5" ∷ []

first_line : depth_lines library (codes "insn" ∷ []) (insn_line ∷ []) none ≡ some (some (5 ∷ []))
unfolding depth_lines eq_codes ints
first_line = refl

seven : ints library.int (codes "7" ∷ []) ≡ some (7 ∷ [])
unfolding ints
seven = refl

depth_lines-last_example :
    depth_lines library
      (codes "insn" ∷ [])
      ((insn_line ∷ []) ++ ((codes "insn" ∷ codes "7" ∷ []) ∷ [] ∷ []))
      none
    ≡ some (some (7 ∷ []))
unfolding eq_codes
depth_lines-last_example =
    depth_lines-last library (codes "insn" ∷ []) (insn_line ∷ []) ([] ∷ []) (codes "insn")
      (codes "7" ∷ []) none (some (5 ∷ [])) (7 ∷ []) first_line refl seven tt

abbrev filter_line : List (List Text)
filter_line = (codes "-" ∷ codes "csrw" ∷ []) ∷ []

filter_lines-first_example :
    (filter_lines library (codes "insn_add_ch0") filter_line ≡ some false)
    × ((sign pat : Text) (after : List (List Text))
        → is_sign sign ≡ true
        → starts_with pat (codes "insn_add_ch0") ≡ true
        → filter_lines library (codes "insn_add_ch0") (filter_line ++ ((sign ∷ pat ∷ []) ∷ after))
          ≡ some (eq_codes sign (codes "-")))
unfolding eq_codes starts_with
filter_lines-first_example =
    filter_lines-first library (codes "insn_add_ch0") filter_line (refl, refl, tt)

assume_enabled-first_example :
    (assume_enabled library (codes "insn_add_ch0") (codes "!csrw" ∷ []) ≡ false)
    × ((p : Text) (after : List Text)
        → starts_with (bare p) (codes "insn_add_ch0") ≡ true
        → assume_enabled library (codes "insn_add_ch0") ((codes "!csrw" ∷ []) ++ (p ∷ after))
          ≡ negated p)
unfolding starts_with
assume_enabled-first_example =
    assume_enabled-first library (codes "insn_add_ch0") (codes "!csrw" ∷ []) (refl, tt)

cons_calls-TakesValues_example :
    AllOf TakesValues (cons_calls 2 (codes "mcycle" ∷ []) (λ name. some (codes "inc") ∷ []))
cons_calls-TakesValues_example =
    cons_calls-TakesValues 2 (codes "mcycle" ∷ []) (λ name. some (codes "inc") ∷ [])

abbrev empty_config : Config
empty_config = record { sections = (codes "options", codes "isa rv32i") ∷ []; assume = [] }

stripped : strip (codes "insn 20") ≡ codes "insn 20"
unfolding strip
stripped = refl

config_lines-find_section_example :
    find_section
      (codes "depth")
      (config_lines (codes "insn 20" ∷ []) (plain (codes "depth"), empty_config)).1.sections
    ≡ some (codes "insn 20" ++ (10 ∷ []))
unfolding starts_with eq_codes find_section
config_lines-find_section_example =
    config_lines-find_section (codes "depth") (codes "depth") (codes "insn 20" ∷ []) empty_config
      ((stripped, refl, refl), tt)

abbrev mods : List Text
mods = codes "i" ∷ codes "32" ∷ codes "s" ∷ []

restrict-any_example :
    (has_key (codes "medeleg") (restrict mods (restricted_csrs 32) (spec_csrs 32, [])).0 ≡ (
      any (allowed mods (codes "medeleg")) (restricted_csrs 32)
      || has_key (codes "medeleg") (spec_csrs 32)))
    × (has_illegal
          (codes "306", codes "m", codes "rw")
          (restrict mods (restricted_csrs 32) (spec_csrs 32, [])).1
        ≡ (any (refused mods (codes "306", codes "m", codes "rw")) (restricted_csrs 32)
            || has_illegal (codes "306", codes "m", codes "rw") []))
restrict-any_example =
    restrict-any mods (restricted_csrs 32) (spec_csrs 32) [] (codes "medeleg")
      (codes "306", codes "m", codes "rw")
