-- ===== src/Checks/Template.antt =====
-- checks/genchecks.py, hfmt: the texts that are filled in and printed. `none` is a KeyError.
use riscv_formal.Prelude.{
  ℕ, Bool, ◌&&◌, ◌||◌, ◌==◌, leb, List, [], ◌∷◌, ◌++◌, Option, none, some, if◌then◌else◌,
}
use riscv_formal.Monitor.Rewrite.{Text, space}
use riscv_formal.Checks.Strings.{lstrip, strip, split_at}
use riscv_formal.Checks.Config.{find_section}

-- `hargs`, and `kwargs`: the texts that str() makes of the values.
abbrev pub Hargs : Type 0
Hargs = List (Text × Text)

-- `[a-zA-Z0-9_]`
abbrev pub is_word : ℕ → Bool
is_word c = (leb 97 c && leb c 122) || (leb 65 c && leb c 90) || (leb 48 c && leb c 57) || (c == 95)

-- Where the search for `@([a-zA-Z0-9_]+)@` stands: after an `@` and the characters of a word, or not.
pub data Search : Type 0 where
  outside : Search
  inside : Text → Search

-- A text before another one that may be missing.
abbrev pub before_option : Text → Option Text → Option Text
before_option a none = none
before_option a (some b) = some (a ++ b)

-- `str(kwargs[key])` before a text.
abbrev pub looked_up : Option Text → Option Text → Option Text
looked_up none rest = none
looked_up (some value) rest = before_option value rest

-- `re.sub(r"@([a-zA-Z0-9_]+)@", lambda match: str(kwargs[match.group(1)]), line)`
unfoldable pub substitute : Hargs → Search → Text → Option Text
substitute kwargs outside [] = some []
substitute kwargs (inside w) [] = some (64 ∷ w)
substitute kwargs outside (c ∷ cs) =
    let word = substitute kwargs (inside []) cs in
    let plain = substitute kwargs outside cs in
    if c == 64 then word else before_option (c ∷ []) plain
substitute kwargs (inside []) (c ∷ cs) =
    let word = substitute kwargs (inside (c ∷ [])) cs in
    let again = substitute kwargs (inside []) cs in
    let plain = substitute kwargs outside cs in
    if is_word c
    then word
    else (if c == 64 then before_option (64 ∷ []) again else before_option (64 ∷ c ∷ []) plain)
substitute kwargs (inside (x ∷ w)) (c ∷ cs) =
    let word = substitute kwargs (inside ((x ∷ w) ++ (c ∷ []))) cs in
    let plain = substitute kwargs outside cs in
    let filled = looked_up (find_section (x ∷ w) kwargs) plain in
    if is_word c
    then word
    else (if c == 64 then filled else before_option (64 ∷ ((x ∷ w) ++ (c ∷ []))) plain)

-- `re.match(r"^\s*: ?(.*)", line)`, and its group; a line that does not match is kept, or passed over
-- where it is blank.
unfoldable pub template_line : Text → Option Text
template_line line = after_colon (lstrip space line)
  where
    blank : Text → Option Text
    blank [] = none
    blank (c ∷ cs) = some line

    after_colon : Text → Option Text
    after_colon [] = blank (strip line)
    after_colon (c ∷ cs) = if c == 58 then some (one_space cs) else blank (strip line)
      where
        one_space : Text → Text
        one_space [] = []
        one_space (c ∷ cs) = if c == 32 then cs else c ∷ cs

-- Lines before lines, where none is missing.
abbrev pub cons_option : Option Text → Option (List Text) → Option (List Text)
cons_option none rest = none
cons_option (some line) none = none
cons_option (some line) (some lines) = some (line ∷ lines)

-- The loop of hfmt.
unfoldable pub hfmt_lines : Hargs → List Text → Option (List Text)
hfmt_lines kwargs [] = some []
hfmt_lines kwargs (line ∷ lines) = elim (template_line line) [
  | none ↦ hfmt_lines kwargs lines
  | some t ↦ cons_option (substitute kwargs outside t) (hfmt_lines kwargs lines)
]

unfoldable pub hfmt : Hargs → Text → Option (List Text)
hfmt kwargs body = hfmt_lines kwargs (split_at 10 body)
