-- ===== src/Checks/Sections.antt =====
-- What the reading of a configuration puts into its sections.
use riscv_formal.Prelude.{
  ◌≡◌, refl, sym, ap, ◌∙◌, ◌≢◌, true, false, ◌&&◌, List, [], ◌∷◌, ◌++◌, Option, none, some,
  if◌then◌else◌, Bool-cases, inl, inr, ==_iff, and-left, and-right,
}
use riscv_formal.Isa.Database.{codes, eq_codes, starts_with}
use riscv_formal.Monitor.Rewrite.{Text}
use riscv_formal.Monitor.Conditional.{eq_codes_refl}
use riscv_formal.Checks.Strings.{strip, ends_with}
use riscv_formal.Checks.Config.{
  Config, plain, find_section, add_line, put_line, config_line, config_lines,
}

pub eq_codes-same : (x y : Text) → eq_codes x y ≡ true → x ≡ y
unfolding eq_codes
eq_codes-same [] [] h = refl
eq_codes-same [] (d ∷ y) h = cc
eq_codes-same (c ∷ x) [] h = cc
eq_codes-same (c ∷ x) (d ∷ y) h =
    let head = (==_iff c d).0 (and-left _ _ h) in
    let tail = eq_codes-same x y (and-right _ _ h) in cc

true-false : true ≢ false
true-false e = cc

-- A name that is the second one is not the first, where the two differ.
other_name :
    (name other n : Text)
    → eq_codes other n ≡ true
    → eq_codes name n ≡ false
    → eq_codes other name ≡ false
other_name name other n here differs = elim (Bool-cases (eq_codes other name)) [
  | inr differs_too ↦ differs_too
  | inl same ↦
      let e = sym (eq_codes-same other name same) ∙ eq_codes-same other n here in
      absurd (true-false (sym (ap (λ x. eq_codes x n) e ∙ eq_codes_refl n) ∙ differs))
]

-- A text with a line after it.
abbrev pub with_line : Option Text → Text → Text
with_line none line = line ++ (10 ∷ [])
with_line (some body) line = body ++ (line ++ (10 ∷ []))

find_section-add_line :
    (name other line : Text) (sections : List (Text × Text))
    → find_section other (add_line name line sections) ≡ (
        if eq_codes other name
        then some (with_line (find_section name sections) line)
        else find_section other sections)
unfolding find_section add_line
find_section-add_line name other line [] = refl
find_section-add_line name other line ((n, body) ∷ sections) = elim (Bool-cases (eq_codes name n)) [
  | inl same ↦ simp same (
      rw (eq_codes-same name n same) (elim (Bool-cases (eq_codes other n)) [
        | inl here ↦ simp here refl
        | inr there ↦ simp there refl
      ]))
  | inr differs ↦
      let ih = find_section-add_line name other line sections in
      simp differs (elim (Bool-cases (eq_codes other n)) [
        | inl here ↦ simp (here, other_name name other n here differs) refl
        | inr there ↦ simp there ih
      ])
]

-- A line that is neither a comment nor a header, without spaces around it.
abbrev pub IsBody : Text → Type 0
IsBody line =
    (strip line ≡ line)
    × (starts_with (codes "#") line ≡ false)
    × ((starts_with (codes "[") line && ends_with (codes "]") line) ≡ false)

abbrev pub AllBody : List Text → Type 0
AllBody [] = Unit
AllBody (line ∷ lines) = IsBody line × AllBody lines

-- A text with lines after it.
abbrev pub with_lines : Option Text → List Text → Option Text
with_lines o [] = o
with_lines o (line ∷ lines) = with_lines (some (with_line o line)) lines

config_line-IsBody :
    (name line : Text) (config : Config)
    → IsBody line
    → config_line (strip line) (plain name, config)
      ≡ (plain name, record config { sections = add_line name line config.sections })
unfolding config_line put_line
config_line-IsBody name line config (stripped, comment, header) =
    ap (λ l. config_line l (plain name, config)) stripped ∙ rw (comment, header) refl

-- In a section with a name, lines that are no comments and no headers, and have no spaces around
-- them, are put at the end of this section's text, each with a newline, and leave every other
-- section as it was.
pub config_lines-find_section :
    (name other : Text) (lines : List Text) (config : Config)
    → AllBody lines
    → find_section other (config_lines lines (plain name, config)).1.sections ≡ (
        if eq_codes other name
        then with_lines (find_section name config.sections) lines
        else find_section other config.sections)
unfolding config_lines config_line put_line
config_lines-find_section name other [] config h = elim (Bool-cases (eq_codes other name)) [
  | inl o ↦ rw o (ap (λ k. find_section k config.sections) (eq_codes-same other name o))
  | inr o ↦ rw o refl
]
config_lines-find_section name other (line ∷ lines) config h =
    let added = record config { sections = add_line name line config.sections } in
    let ih = config_lines-find_section name other lines added h.1 in
    let own : find_section name added.sections
        ≡ some (with_line (find_section name config.sections) line) =
      find_section-add_line name name line config.sections ∙ rw (eq_codes_refl name) refl in
    let there = find_section-add_line name other line config.sections in
    ap (λ state. find_section other (config_lines lines state).1.sections)
      (config_line-IsBody name line config h.0)
    ∙ (ih ∙ elim (Bool-cases (eq_codes other name)) [
      | inl o ↦ rw (o, own) refl
      | inr o ↦ rw o (there ∙ rw o refl)
    ])
