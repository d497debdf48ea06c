-- ===== src/Monitor/Rewrite.antt =====
-- monitor/generate.py, print_rewrite_file: the models of the instructions are copied into the
-- monitor with the conditionals `ifdef, `ifndef, `else and `endif resolved and names replaced. A
-- text is the list of its character codes. `none` is an assertion or an exception of the script.
use riscv_formal.Prelude.{
  ℕ, zero, suc, ◌-◌, Bool, true, false, not, ◌&&◌, ◌||◌, ◌==◌, leb, List, [], ◌∷◌, ◌++◌, Option,
  none, some, if◌then◌else◌, any, length,
}
use riscv_formal.Isa.Database.{codes, eq_codes, starts_with}

abbrev pub Text : Type 0
Text = List ℕ

-- ASCII whitespace.
abbrev pub space : ℕ → Bool
space c = (c == 32) || (leb 9 c && leb c 13)

-- `line.split()`; the first argument is the word being read.
unfoldable pub split : Text → Text → List Text
split [] [] = []
split (x ∷ word) [] = (x ∷ word) ∷ []
split [] (c ∷ line) = if space c then split [] line else split (c ∷ []) line
split (x ∷ word) (c ∷ line) =
    let next = split [] line in
    if space c then (x ∷ word) ∷ next else split ((x ∷ word) ++ (c ∷ [])) line

-- `line.replace(a, b)`, for a text a that is not empty; the number counts the characters of an
-- occurrence of a that are still to be dropped.
unfoldable pub replace : Text → Text → ℕ → Text → Text
replace a b n [] = []
replace a b (suc n) (c ∷ line) = replace a b n line
replace a b zero (c ∷ line) =
    let found = replace a b (length a - 1) line in
    let other = replace a b zero line in if starts_with a (c ∷ line) then b ++ found else c ∷ other

-- `for a, b in replace_db: line = line.replace(a, b)`
unfoldable pub replace_names : List (Text × Text) → Text → Text
replace_names [] line = line
replace_names ((a, b) ∷ db) line = replace_names db (replace a b 0 line)

-- What a line is to the loop.
pub data Directive : Type 0 where
  ifdef ifndef text : Text → Directive
  else_branch endif : Directive

-- `line.split()[1]`
abbrev pub flag_name : Text → Option Text
unfolding split
flag_name line = elim (split [] line) [
  | [] ↦ none
  | w ∷ ws ↦ elim ws [ [] ↦ none | name ∷ rest ↦ some name ]
]

abbrev pub map_option : {A B : Type 0} → (A → B) → Option A → Option B
map_option f none = none
map_option f (some a) = some (f a)

unfoldable pub directive : Text → Option Directive
directive line =
    if starts_with (codes "`ifdef ") line
    then map_option ifdef (flag_name line)
    else (if starts_with (codes "`ifndef ") line
        then map_option ifndef (flag_name line)
        else (if starts_with (codes "`else") line
            then some else_branch
            else (if starts_with (codes "`endif") line then some endif else some (text line))))

abbrev pub Flags : Type 0
Flags = List (Text × Bool)

abbrev pub has_flag : Text → Flags → Bool
has_flag name flags = any (λ f. eq_codes name (f.0)) flags

-- `flags[flag_name] = not flags[flag_name]`
unfoldable pub flip_flag : Text → Flags → Flags
flip_flag name [] = []
flip_flag name ((n, val) ∷ flags) =
    let rest = flip_flag name flags in
    if eq_codes name n then (n, not val) ∷ flags else (n, val) ∷ rest

-- `del flags[flag_name]`
unfoldable pub delete_flag : Text → Flags → Flags
delete_flag name [] = []
delete_flag name ((n, val) ∷ flags) =
    let rest = delete_flag name flags in if eq_codes name n then flags else (n, val) ∷ rest

abbrev pub same : Bool → Bool → Bool
same true b = b
same false b = not b

-- `any(expected_flags.get(name, False) != val for name, val in flags.items())`
unfoldable pub excluded : (Text → Bool) → Flags → Bool
excluded expected flags = any (λ f. not (same (expected (f.0)) (f.1))) flags

-- The loop over the lines, from a flag_stack, whose top is first, and flags; the lines it prints.
unfoldable pub rewrite :
    (Text → Bool) → (Text → Text) → List Text → Flags → List Directive → Option (List Text)
rewrite expected names stack flags [] = some []
rewrite expected names stack flags (ifdef n ∷ ds) =
    let rest = rewrite expected names (n ∷ stack) ((n, true) ∷ flags) ds in
    if has_flag n flags then none else rest
rewrite expected names stack flags (ifndef n ∷ ds) =
    let rest = rewrite expected names (n ∷ stack) ((n, false) ∷ flags) ds in
    if has_flag n flags then none else rest
rewrite expected names [] flags (else_branch ∷ ds) = none
rewrite expected names (n ∷ stack) flags (else_branch ∷ ds) =
    rewrite expected names (n ∷ stack) (flip_flag n flags) ds
rewrite expected names [] flags (endif ∷ ds) = none
rewrite expected names (n ∷ stack) flags (endif ∷ ds) =
    rewrite expected names stack (delete_flag n flags) ds
rewrite expected names stack flags (text line ∷ ds) =
    let rest = rewrite expected names stack flags ds in
    if excluded expected flags then rest else map_option (λ out. names line ∷ out) rest

-- `expected_flags.get(name, False)`
unfoldable pub expected_flags : Bool → Bool → Text → Bool
expected_flags compressed aligned name =
    if eq_codes name (codes "RISCV_FORMAL_COMPRESSED")
    then compressed
    else (if eq_codes name (codes "RISCV_FORMAL_ALIGNED_MEM") then aligned else false)

abbrev pub directives : List Text → Option (List Directive)
directives [] = some []
directives (line ∷ lines) = elim (directive line) [
  | none ↦ none
  | some d ↦ map_option (λ ds. d ∷ ds) (directives lines)
]

unfoldable pub print_rewrite_file :
    Bool → Bool → List (Text × Text) → List Text → Option (List Text)
print_rewrite_file compressed aligned replace_db lines = elim (directives lines) [
  | none ↦ none
  | some ds ↦ rewrite (expected_flags compressed aligned) (replace_names replace_db) [] [] ds
]
