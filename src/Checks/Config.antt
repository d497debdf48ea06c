-- ===== src/Checks/Config.antt =====
-- checks/genchecks.py, the loop that reads <cfgname>.cfg.
use riscv_formal.Prelude.{◌&&◌, ◌||◌, ◌==◌, List, [], ◌∷◌, ◌++◌, Option, none, some, if◌then◌else◌}
use riscv_formal.Isa.Database.{codes, eq_codes, starts_with}
use riscv_formal.Monitor.Rewrite.{Text, split}
use riscv_formal.Checks.Strings.{strip, lstrip, rstrip, ends_with}

-- `config`: the text of each section, and the list that stands under "assume", whose key exists
-- when the list is not empty.
pub record Config : Type 0 where
  pub sections : List (Text × Text)
  pub assume : List (List Text × Text)

-- `cfgsection` and `cfgsubsection`.
pub data Section : Type 0 where
  outside : Section
  plain : Text → Section
  assume_section : List Text → Section

-- `config.get(name)`
unfoldable pub find_section : Text → List (Text × Text) → Option Text
find_section name [] = none
find_section name ((n, body) ∷ sections) =
    let rest = find_section name sections in if eq_codes name n then some body else rest

-- `config[name] += f"{line}\n"`, from "" where there is no such key.
unfoldable pub add_line : Text → Text → List (Text × Text) → List (Text × Text)
add_line name line [] = (name, line ++ (10 ∷ [])) ∷ []
add_line name line ((n, body) ∷ sections) =
    let rest = add_line name line sections in
    if eq_codes name n then (n, body ++ (line ++ (10 ∷ []))) ∷ sections else (n, body) ∷ rest

abbrev pub rest_of {ℓ} : {A : Type ℓ} → List A → List A
rest_of [] = []
rest_of (x ∷ xs) = xs

-- The section that a line in brackets opens.
unfoldable pub open_section : Text → Section
open_section line =
    let name = rstrip (λ c. c == 93) (lstrip (λ c. c == 91) line) in
    if starts_with (codes "assume ") name || eq_codes name (codes "assume")
    then assume_section (rest_of (split [] name))
    else plain name

-- Adds a line to the current section.
unfoldable pub put_line : Section → Text → Config → Config
put_line outside line config = config
put_line (plain name) line config = record config { sections = add_line name line config.sections }
put_line (assume_section pat) line config = record config {
  assume = config.assume ++ ((pat, line) ∷ []);
}

-- One turn of the loop, on a line that is stripped.
unfoldable pub config_line : Text → Section × Config → Section × Config
config_line line (section, config) =
    if starts_with (codes "#") line
    then (section, config)
    else (if starts_with (codes "[") line && ends_with (codes "]") line
        then (open_section line, config)
        else (section, put_line section line config))

unfoldable pub config_lines : List Text → Section × Config → Section × Config
config_lines [] state = state
config_lines (line ∷ lines) state = config_lines lines (config_line (strip line) state)

unfoldable pub read_config : List Text → Config
read_config lines = (config_lines lines (outside, record { sections = []; assume = [] })).1
