-- ===== src/Checks/Settings.antt =====
-- checks/genchecks.py, the section [options] and the ISA string. `none` is an assertion or an
-- exception of the script; `int` reads a number and `parse_isa` matches `isa_regex`.
use riscv_formal.Prelude.{
  ℕ, ◌+◌, ◌-◌, Bool, true, false, ◌&&◌, ◌||◌, leb, List, [], ◌∷◌, ◌++◌, Option, none, some,
  if◌then◌else◌, map, any,
}
use riscv_formal.Isa.Database.{codes, eq_codes}
use riscv_formal.Monitor.Rewrite.{Text, split}
use riscv_formal.Checks.Strings.{split_at}
use riscv_formal.Checks.Config.{Config, find_section}

pub record Globals : Type 0 where
  pub nret : ℕ
  pub isa : Text
  pub buslen : ℕ
  pub nbus : ℕ
  pub csr_spec : Option Text
  pub blackbox : Bool
  pub solver : Text
  pub dumpsmt2 : Bool
  pub abspath : Bool
  pub mode : Text

abbrev pub default_globals : Globals
default_globals = record {
  nret = 1;
  isa = codes "rv32i";
  buslen = 32;
  nbus = 1;
  csr_spec = none;
  blackbox = false;
  solver = codes "boolector";
  dumpsmt2 = false;
  abspath = false;
  mode = codes "bmc";
}

-- `f(int(text))`
abbrev pub with_int : (Text → Option ℕ) → Text → (ℕ → Globals) → Option Globals
with_int int a f = elim (int a) [ none ↦ none | some n ↦ some (f n) ]

abbrev pub is_mode : Text → Bool
is_mode a = any (eq_codes a) (codes "bmc" ∷ codes "prove" ∷ codes "cover" ∷ [])

-- A line of two words.
unfoldable pub set_value : (Text → Option ℕ) → Text → Text → Globals → Option Globals
set_value int key a s =
    if eq_codes key (codes "nret")
    then with_int int a (λ n. record s { nret = n })
    else if eq_codes key (codes "isa")
    then some (record s { isa = a })
    else if eq_codes key (codes "solver")
    then some (record s { solver = a })
    else if eq_codes key (codes "mode")
    then (if is_mode a then some (record s { mode = a }) else none)
    else if eq_codes key (codes "buslen")
    then with_int int a (λ n. record s { buslen = n })
    else if eq_codes key (codes "nbus")
    then with_int int a (λ n. record s { nbus = n })
    else if eq_codes key (codes "csr_spec")
    then some (record s { csr_spec = some a })
    else none

-- A line of one word.
unfoldable pub set_flag : Text → Globals → Option Globals
set_flag key s =
    if eq_codes key (codes "blackbox")
    then some (record s { blackbox = true })
    else if eq_codes key (codes "dumpsmt2")
    then some (record s { dumpsmt2 = true })
    else if eq_codes key (codes "abspath")
    then some (record s { abspath = true })
    else none

-- One turn of the loop over the lines of [options], by the words of the line.
unfoldable pub option_line : (Text → Option ℕ) → List Text → Globals → Option Globals
option_line int [] s = some s
option_line int (key ∷ []) s = set_flag key s
option_line int (key ∷ a ∷ []) s = set_value int key a s
option_line int (key ∷ a ∷ b ∷ more) s = none

unfoldable pub option_lines : (Text → Option ℕ) → List Text → Globals → Option Globals
option_lines int [] s = some s
option_lines int (line ∷ lines) s = elim (option_line int (split [] line) s) [
  | none ↦ none
  | some t ↦ option_lines int lines t
]

unfoldable pub read_options : (Text → Option ℕ) → Config → Option Globals
read_options int config = elim (find_section (codes "options") config.sections) [
  | none ↦ some default_globals
  | some body ↦ option_lines int (split_at 10 body) default_globals
]

-- The groups of `isa_regex`.
pub record IsaParts : Type 0 where
  pub width : Text
  pub base : Text
  pub ext : Text
  pub multi : Text

abbrev pub is_upper : ℕ → Bool
is_upper c = leb 65 c && leb c 90

abbrev pub is_lower : ℕ → Bool
is_lower c = leb 97 c && leb c 122

abbrev pub lower : ℕ → ℕ
lower c = if is_upper c then c + 32 else c

abbrev pub upper : ℕ → ℕ
upper c = if is_lower c then c - 32 else c

-- `text.title()`, for ASCII; the Boolean says whether the character before is a letter.
unfoldable pub title : Bool → Text → Text
title after [] = []
title after (c ∷ cs) = (if after then lower c else upper c) ∷ title (is_upper c || is_lower c) cs

-- The modules of `multi` that are not empty.
unfoldable pub multi_mods : List Text → List Text
multi_mods [] = []
multi_mods ([] ∷ mods) = multi_mods mods
multi_mods ((c ∷ cs) ∷ mods) = title false (c ∷ cs) ∷ multi_mods mods

unfoldable pub isa_mods : IsaParts → List Text
isa_mods p =
    (map lower p.base ∷ p.width ∷ map (λ c. lower c ∷ []) p.ext) ++ multi_mods (split_at 95 p.multi)

abbrev pub has_mod : Text → List Text → Bool
has_mod m mods = any (eq_codes m) mods

unfoldable pub width_xlen : IsaParts → ℕ
width_xlen p = if eq_codes p.width (codes "64") then 64 else 32

unfoldable pub is_compressed : IsaParts → Bool
is_compressed p = has_mod (codes "c") (isa_mods p)
