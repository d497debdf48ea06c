-- ===== src/Checks/Select.antt =====
-- checks/genchecks.py: which checks are made, with which depth and which assumptions. `match` and
-- `fullmatch` are those of the module re, a pattern first, `int` reads a number and `int16` a
-- hexadecimal one. `none` is an assertion or an exception of the script.
use riscv_formal.Prelude.{
  ℕ, zero, suc, ◌+◌, ◌/◌, ◌%◌, Bool, true, false, not, ◌||◌, ◌==◌, List, [], ◌∷◌, ◌++◌, Option,
  none, some, if◌then◌else◌, any, map,
}
use riscv_formal.Isa.Database.{codes, eq_codes}
use riscv_formal.Monitor.Rewrite.{Text, split}
use riscv_formal.Checks.Strings.{split_at}
use riscv_formal.Checks.Config.{Config, find_section}

-- What is taken from outside the script.
pub record Library : Type 0 where
  pub match : Text → Text → Bool
  pub fullmatch : Text → Text → Bool
  pub int : Text → Option ℕ
  pub int16 : Text → Option ℕ

-- `[int(s) for s in words]`
unfoldable pub ints : (Text → Option ℕ) → List Text → Option (List ℕ)
ints int [] = some []
ints int (s ∷ ss) = elim (int s) [
  | none ↦ none
  | some n ↦ elim (ints int ss) [ none ↦ none | some ns ↦ some (n ∷ ns) ]
]

-- The loop of get_depth_cfg over the words of each line, from what `ret` is.
unfoldable pub depth_lines :
    Library → List Text → List (List Text) → Option (List ℕ) → Option (Option (List ℕ))
depth_lines lib pats [] ret = some ret
depth_lines lib pats ([] ∷ lines) ret = depth_lines lib pats lines ret
depth_lines lib pats ((w ∷ ws) ∷ lines) ret =
    let kept = depth_lines lib pats lines ret in
    let taken : Option (Option (List ℕ)) = elim (ints lib.int ws) [
      | none ↦ none
      | some ns ↦ depth_lines lib pats lines (some ns)
    ] in
    if any (lib.fullmatch w) pats then taken else kept

-- The words of the lines of a section.
abbrev pub word_lines : Text → List (List Text)
word_lines body = map (split []) (split_at 10 body)

unfoldable pub get_depth_cfg : Library → Config → List Text → Option (Option (List ℕ))
get_depth_cfg lib config pats = elim (find_section (codes "depth") config.sections) [
  | none ↦ some none
  | some body ↦ depth_lines lib pats (word_lines body) none
]

abbrev pub is_sign : Text → Bool
is_sign w = eq_codes w (codes "-") || eq_codes w (codes "+")

-- The loop of test_disabled over the words of each line.
unfoldable pub filter_lines : Library → Text → List (List Text) → Option Bool
filter_lines lib check [] = some false
filter_lines lib check ([] ∷ lines) = filter_lines lib check lines
filter_lines lib check ((w ∷ []) ∷ lines) = none
filter_lines lib check ((sign ∷ pat ∷ []) ∷ lines) =
    let rest = filter_lines lib check lines in
    if is_sign sign
    then (if lib.match pat check then some (eq_codes sign (codes "-")) else rest)
    else none
filter_lines lib check ((w ∷ v ∷ u ∷ ws) ∷ lines) = none

unfoldable pub test_disabled : Library → Config → Text → Option Bool
test_disabled lib config check = elim (find_section (codes "filter-checks") config.sections) [
  | none ↦ some false
  | some body ↦ filter_lines lib check (word_lines body)
]

-- `p.startswith("!")`, and `p` without it.
abbrev pub negated : Text → Bool
negated [] = false
negated (c ∷ p) = c == 33

abbrev pub bare : Text → Text
bare [] = []
bare (c ∷ p) = if c == 33 then p else c ∷ p

-- The loop over the patterns of an assumption, from what `enabled` is.
unfoldable pub enabled_by : Library → Text → Bool → List Text → Bool
enabled_by lib check enabled [] = enabled
enabled_by lib check enabled (p ∷ pat) =
    let rest = enabled_by lib check (not (negated p)) pat in
    if lib.match (bare p) check then not (not (negated p)) else rest

unfoldable pub assume_enabled : Library → Text → List Text → Bool
assume_enabled lib check pat = enabled_by lib check true pat

-- The lines of assume_stmts.vh for a check.
unfoldable pub assume_stmts : Library → Text → List (List Text × Text) → List Text
assume_stmts lib check [] = []
assume_stmts lib check ((pat, line) ∷ assume) =
    let rest = assume_stmts lib check assume in
    if assume_enabled lib check pat then line ∷ rest else rest

-- `{n:d}`, with the digits that are already there.
unfoldable pub digits : ℕ → ℕ → Text → Text
digits zero n ds = ds
digits (suc fuel) n ds =
    let more = digits fuel (n / 10) ((48 + n % 10) ∷ ds) in
    if n / 10 == 0 then (48 + n % 10) ∷ ds else more

abbrev pub decimal : ℕ → Text
decimal n = digits (suc n) n []

-- `pf`
abbrev pub prefix_of : Option Text → Text
prefix_of none = []
prefix_of (some grp) = grp ++ codes "_"

-- What check_insn is called for; the address of an illegal CSR is a number in hexadecimal.
pub data Target : Type 0 where
  insn csr : Text → Target
  illegal_csr : Text → Text → Text → Target

-- `check`, without the channel.
unfoldable pub target_name : Text → Target → Text
target_name pf (insn name) = pf ++ codes "insn_" ++ name
target_name pf (csr name) = pf ++ codes "csrw_" ++ name
target_name pf (illegal_csr addr modes rw_) = pf ++ codes "csr_ill_" ++ addr

-- `check` of the whole class.
abbrev pub class_name : Text → Target → Text
class_name pf (insn name) = pf ++ codes "insn"
class_name pf (csr name) = pf ++ codes "csrw"
class_name pf (illegal_csr addr modes rw_) = pf ++ codes "csr_ill"

abbrev pub on_channel : Text → ℕ → Text
on_channel name chanidx = name ++ codes "_ch" ++ decimal chanidx

-- The name of the check, and the names to look up its depth by.
unfoldable pub check_name : Option Text → Target → ℕ → Text
check_name grp t chanidx = on_channel (target_name (prefix_of grp) t) chanidx

unfoldable pub depth_names : Option Text → Target → ℕ → List Text
depth_names grp t chanidx =
    let class = class_name (prefix_of grp) t in
    let name = target_name (prefix_of grp) t in
    class ∷ on_channel class chanidx ∷ name ∷ on_channel name chanidx ∷ []

-- What the .sby file of a check of one depth is filled with.
pub record InsnJob : Type 0 where
  pub checkch : Text
  pub depth : ℕ
  pub depth_plus : ℕ
  pub skip : ℕ

-- The tests of check_insn before it writes a file; `some none` where it returns.
unfoldable pub check_insn : Library → Config → Option Text → Target → ℕ → Option (Option InsnJob)
check_insn lib config grp t chanidx =
    let check = check_name grp t chanidx in
    elim (get_depth_cfg lib config (depth_names grp t chanidx)) [
      | none ↦ none
      | some cfg ↦ elim cfg [
        | none ↦ some none
        | some depths ↦ elim depths [
          | [] ↦ none
          | d ∷ more ↦ elim more [
            | [] ↦ elim (test_disabled lib config check) [
              | none ↦ none
              | some off ↦ some (
                  if off
                  then none
                  else some (record { checkch = check; depth = d; depth_plus = d + 1; skip = d }))
            ]
            | d2 ∷ more2 ↦ none
          ]
        ]
      ]
    ]
