-- ===== src/Monitor/Rewritten.antt =====
-- print_rewrite_file of monitor/generate.py, from the lines of a file to the lines that it prints.
use mathlib.Core.Bool.{false≢true}
use mathlib.Core.Path.{fun_ext}
use mathlib.Core.List.{append-nil, append_assoc}
use riscv_formal.Prelude.{
  ℕ, ◌≡◌, refl, sym, ap, ◌∙◌, Bool, true, false, ◌&&◌, ◌||◌, List, [], ◌∷◌, ◌++◌, Option, none,
  some, if◌then◌else◌, any,
}
use riscv_formal.Isa.Database.{codes, eq_codes, starts_with}
use riscv_formal.Monitor.Rewrite.{
  Text, space, split, Directive, ifdef, ifndef, text, else_branch, endif, directive, directives,
  rewrite, expected_flags, replace_names, print_rewrite_file, map_option,
}
use riscv_formal.Monitor.Conditional.{
  Source, done, line, cond, cond_else, opening, render, kept, Scoped, every, rewrite-kept,
}
use riscv_formal.Monitor.Replaced.{ReplacedAll, NoEmptyKey, replace_names-ReplacedAll}
use riscv_formal.Checks.Sections.{eq_codes-same}

-- The line that opens a conditional, which holds where the flag is defined or where it is not.
abbrev pub opening_line : Bool → Text → Text
opening_line true n = codes "`ifdef " ++ (n ++ codes "\n")
opening_line false n = codes "`ifndef " ++ (n ++ codes "\n")

-- The lines of a file, before those that follow.
abbrev pub lines_of : Source → List Text → List Text
lines_of done ls = ls
lines_of (line l s) ls = l ∷ lines_of s ls
lines_of (cond val n body s) ls =
    opening_line val n ∷ lines_of body (codes "`endif\n" ∷ lines_of s ls)
lines_of (cond_else val n body other s) ls =
    opening_line val n
    ∷ lines_of body (codes "`else\n" ∷ lines_of other (codes "`endif\n" ∷ lines_of s ls))

-- A name without spaces, and a line that is no directive.
abbrev pub IsFlag : Text → Type 0
IsFlag [] = ⊥
IsFlag (c ∷ n) = any space (c ∷ n) ≡ false

abbrev pub IsPlain : Text → Type 0
IsPlain l =
    (starts_with (codes "`ifdef ") l ≡ false)
    × (starts_with (codes "`ifndef ") l ≡ false)
    × (starts_with (codes "`else") l ≡ false)
    × (starts_with (codes "`endif") l ≡ false)

abbrev pub IsSource : Source → Type 0
IsSource done = Unit
IsSource (line l s) = IsPlain l × IsSource s
IsSource (cond val n body s) = IsFlag n × IsSource body × IsSource s
IsSource (cond_else val n body other s) = IsFlag n × IsSource body × IsSource other × IsSource s

-- The flags that are defined: RISCV_FORMAL_COMPRESSED and RISCV_FORMAL_ALIGNED_MEM, where the
-- options say so.
abbrev pub is_defined : Bool → Bool → Text → Bool
is_defined compressed aligned name =
    (compressed && eq_codes name (codes "RISCV_FORMAL_COMPRESSED"))
    || (aligned && eq_codes name (codes "RISCV_FORMAL_ALIGNED_MEM"))

-- Line by line.
abbrev pub Related : (Text → Text → Type 0) → List Text → List Text → Type 0
Related R [] [] = Unit
Related R [] (y ∷ ys) = ⊥
Related R (x ∷ xs) [] = ⊥
Related R (x ∷ xs) (y ∷ ys) = R x y × Related R xs ys

Related-every :
    (db : List (Text × Text)) (xs : List Text)
    → NoEmptyKey db
    → Related (ReplacedAll db) xs (every (replace_names db) xs)
Related-every db [] h = tt
Related-every db (x ∷ xs) h = (replace_names-ReplacedAll db x h, Related-every db xs h)

two_tests :
    (a b x y : Bool)
    → (x ≡ true → y ≡ false)
    → (if x then a else (if y then b else false)) ≡ ((a && x) || (b && y))
two_tests a b true true h = absurd (false≢true (sym (h refl)))
two_tests true b true false h = refl
two_tests false true true false h = refl
two_tests false false true false h = refl
two_tests true true false true h = refl
two_tests true false false true h = refl
two_tests false true false true h = refl
two_tests false false false true h = refl
two_tests true true false false h = refl
two_tests true false false false h = refl
two_tests false true false false h = refl
two_tests false false false false h = refl

two_flags :
    (name : Text)
    → eq_codes name (codes "RISCV_FORMAL_COMPRESSED") ≡ true
    → eq_codes name (codes "RISCV_FORMAL_ALIGNED_MEM") ≡ false
unfolding eq_codes
two_flags name h = rw (eq_codes-same name (codes "RISCV_FORMAL_COMPRESSED") h) refl

expected_flags-is_defined :
    (compressed aligned : Bool) (name : Text)
    → expected_flags compressed aligned name ≡ is_defined compressed aligned name
unfolding expected_flags
expected_flags-is_defined compressed aligned name =
    two_tests compressed aligned (eq_codes name (codes "RISCV_FORMAL_COMPRESSED"))
      (eq_codes name (codes "RISCV_FORMAL_ALIGNED_MEM")) (two_flags name)

or-left : (a b : Bool) → (a || b) ≡ false → a ≡ false
or-left true b h = h
or-left false b h = refl

or-right : (a b : Bool) → (a || b) ≡ false → b ≡ false
or-right true b h = absurd (false≢true (sym h))
or-right false b h = h

split-word :
    (x : ℕ) (w cs : Text)
    → any space cs ≡ false
    → split (x ∷ w) (cs ++ codes "\n") ≡ ((x ∷ w) ++ cs) ∷ []
unfolding split
split-word x w [] h = ap (λ (t : Text). (x ∷ t) ∷ []) (sym (append-nil w))
split-word x w (c ∷ cs) h = rw (or-left (space c) (any space cs) h) (
    split-word x (w ++ (c ∷ [])) cs (or-right (space c) (any space cs) h)
    ∙ ap (λ (t : Text). (x ∷ t) ∷ []) (append_assoc w (c ∷ []) cs))

split-flag : (c : ℕ) (n : Text) → IsFlag (c ∷ n) → split [] ((c ∷ n) ++ codes "\n") ≡ (c ∷ n) ∷ []
unfolding split
split-flag c n h =
    rw (or-left (space c) (any space n) h) (split-word c [] n (or-right (space c) (any space n) h))

abbrev first_word : List Text → Option Text
first_word [] = none
first_word (w ∷ ws) = some w

directive-opening_line :
    (val : Bool) (n : Text) → IsFlag n → directive (opening_line val n) ≡ some (opening val n)
unfolding directive split starts_with
directive-opening_line val [] h = absurd h
directive-opening_line true (c ∷ n) h =
    ap (λ ws. map_option ifdef (first_word ws)) (split-flag c n h)
directive-opening_line false (c ∷ n) h =
    ap (λ ws. map_option ifndef (first_word ws)) (split-flag c n h)

directive-plain : (l : Text) → IsPlain l → directive l ≡ some (text l)
unfolding directive
directive-plain l h = rw (h.0, h.1, h.2, h.3) refl

directive-else : directive (codes "`else\n") ≡ some else_branch
unfolding directive starts_with
directive-else = refl

directive-endif : directive (codes "`endif\n") ≡ some endif
unfolding directive starts_with
directive-endif = refl

directives-cons :
    (l : Text) (ls : List Text) (d : Directive) (ds : List Directive)
    → directive l ≡ some d
    → directives ls ≡ some ds
    → directives (l ∷ ls) ≡ some (d ∷ ds)
directives-cons l ls d ds h hs =
    let f : Option Directive → Option (List Directive) → Option (List Directive) =
      λ o os. elim o [ none ↦ none | some e ↦ map_option (λ es. e ∷ es) os ] in
    ap (λ o. f o (directives ls)) h ∙ ap (f (some d)) hs

directives-lines_of :
    (s : Source) (ls : List Text) (ds : List Directive)
    → IsSource s
    → directives ls ≡ some ds
    → directives (lines_of s ls) ≡ some (render s ds)
directives-lines_of done ls ds h hs = hs
directives-lines_of (line l s) ls ds (plain, h) hs =
    directives-cons l (lines_of s ls) (text l) (render s ds) (directive-plain l plain)
      (directives-lines_of s ls ds h hs)
directives-lines_of (cond val n body s) ls ds (flag, inner, h) hs =
    let after = codes "`endif\n" ∷ lines_of s ls in
    let after_ds = endif ∷ render s ds in
    directives-cons (opening_line val n) (lines_of body after) (opening val n)
      (render body after_ds) (directive-opening_line val n flag)
      (directives-lines_of body after after_ds inner (
        directives-cons (codes "`endif\n") (lines_of s ls) endif (render s ds) directive-endif
          (directives-lines_of s ls ds h hs)))
directives-lines_of (cond_else val n body other s) ls ds (flag, inner, outer, h) hs =
    let after = codes "`endif\n" ∷ lines_of s ls in
    let after_ds = endif ∷ render s ds in
    let between = codes "`else\n" ∷ lines_of other after in
    let between_ds = else_branch ∷ render other after_ds in
    directives-cons (opening_line val n) (lines_of body between) (opening val n)
      (render body between_ds) (directive-opening_line val n flag)
      (directives-lines_of body between between_ds inner (
        directives-cons (codes "`else\n") (lines_of other after) else_branch (render other after_ds)
          directive-else
          (directives-lines_of other after after_ds outer (
            directives-cons (codes "`endif\n") (lines_of s ls) endif (render s ds) directive-endif
              (directives-lines_of s ls ds h hs)))))

-- For every choice of the two options and every replacement database without an empty key: from
-- the lines of a file whose `ifdef, `ifndef, `else and `endif are well nested, none of them inside
-- another one on the same flag, print_rewrite_file fails at no assertion, and what it prints are,
-- line by line, the lines that a preprocessor keeps where exactly the flags
-- RISCV_FORMAL_COMPRESSED and RISCV_FORMAL_ALIGNED_MEM that the options turn on are defined, with
-- each key of the database in turn replaced from left to right by its value.
pub print_rewrite_file-kept :
    (compressed aligned : Bool) (db : List (Text × Text)) (s : Source)
    → NoEmptyKey db
    → IsSource s
    → Scoped [] s
    → (out : List Text) × (print_rewrite_file compressed aligned db (lines_of s []) ≡ some out)
      × Related (ReplacedAll db) (kept (is_defined compressed aligned) s) out
unfolding print_rewrite_file
print_rewrite_file-kept compressed aligned db s keys h scoped =
    let expected = is_defined compressed aligned in
    let same_flags : expected_flags compressed aligned ≡ expected =
      fun_ext (expected_flags-is_defined compressed aligned) in
    let run : Option (List Directive) → Option (List Text) = λ o. elim o [
      | none ↦ none
      | some ds ↦ rewrite (expected_flags compressed aligned) (replace_names db) [] [] ds
    ] in
    (
      every (replace_names db) (kept expected s),
      ap run (directives-lines_of s [] [] h refl)
          ∙ ap (λ f. rewrite f (replace_names db) [] [] (render s [])) same_flags
          ∙ rewrite-kept expected (replace_names db) s scoped,
      Related-every db (kept expected s) keys,
    )
