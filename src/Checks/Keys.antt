-- ===== src/Checks/Keys.antt =====
-- A text that can be filled in with some keys can be filled in with these and more.
use mathlib.Core.Bool.{false≢true}
use riscv_formal.Prelude.{
  or_assoc, or_swap, ◌≡◌, refl, sym, ◌∙◌, inl, inr, Bool, true, false, ◌||◌, ◌==◌, List, [], ◌∷◌,
  ◌++◌, Option, none, some, if◌then◌else◌, Bool-cases, ◌&&◌, and-left, and-right,
}
use riscv_formal.Isa.Database.{eq_codes}
use riscv_formal.Monitor.Rewrite.{Text}
use riscv_formal.Checks.Config.{find_section}
use riscv_formal.Checks.Template.{
  Hargs, is_word, Search, outside, inside, before_option, looked_up, substitute, template_line,
  cons_option, hfmt_lines,
}
use riscv_formal.Checks.Enough.{is_some}
use riscv_formal.Checks.Csrs.{set_key}
use riscv_formal.Checks.Hargs.{set_hargs}
use riscv_formal.Checks.Sets.{has_file, has_file-set_key}

-- Each key of the first dictionary is one of the second.
abbrev pub KeysOf : Hargs → Hargs → Type 0
KeysOf a b = (k : Text) → has_file k a ≡ true → has_file k b ≡ true

is_some-find_section : (k : Text) (a : Hargs) → is_some (find_section k a) ≡ has_file k a
unfolding find_section
is_some-find_section k [] = refl
is_some-find_section k ((n, v) ∷ a) = elim (Bool-cases (eq_codes k n)) [
  | inl same ↦ simp same refl
  | inr other ↦ simp other (is_some-find_section k a)
]

is_some-before_option : (t : Text) (o : Option Text) → is_some (before_option t o) ≡ is_some o
is_some-before_option t none = refl
is_some-before_option t (some u) = refl

is_some-looked_up : (o p : Option Text) → is_some (looked_up o p) ≡ (is_some o && is_some p)
is_some-looked_up none p = refl
is_some-looked_up (some v) p = is_some-before_option v p

if-some :
    (t : Bool) (o o2 p p2 : Option Text)
    → (is_some o ≡ true → is_some p ≡ true)
    → (is_some o2 ≡ true → is_some p2 ≡ true)
    → is_some (if t then o else o2) ≡ true
    → is_some (if t then p else p2) ≡ true
if-some true o o2 p p2 f g = f
if-some false o o2 p p2 f g = g

before_option-some :
    (t : Text) (o p : Option Text)
    → (is_some o ≡ true → is_some p ≡ true)
    → is_some (before_option t o) ≡ true
    → is_some (before_option t p) ≡ true
before_option-some t o p more h =
    is_some-before_option t p ∙ more (sym (is_some-before_option t o) ∙ h)

looked_up-KeysOf :
    (a b : Hargs) (k : Text) (o p : Option Text)
    → KeysOf a b
    → (is_some o ≡ true → is_some p ≡ true)
    → is_some (looked_up (find_section k a) o) ≡ true
    → is_some (looked_up (find_section k b) p) ≡ true
looked_up-KeysOf a b k o p keys more h =
    let both = sym (is_some-looked_up (find_section k a) o) ∙ h in
    let found = is_some (find_section k a) in
    let here = sym (is_some-find_section k a) ∙ and-left found (is_some o) both in
    is_some-looked_up (find_section k b) p
    ∙ rw (is_some-find_section k b ∙ keys k here, more (and-right found (is_some o) both)) refl

substitute-KeysOf :
    (a b : Hargs) (st : Search) (t : Text)
    → KeysOf a b
    → is_some (substitute a st t) ≡ true
    → is_some (substitute b st t) ≡ true
unfolding substitute
substitute-KeysOf a b outside [] keys h = refl
substitute-KeysOf a b (inside w) [] keys h = refl
substitute-KeysOf a b outside (c ∷ cs) keys h =
    if-some (c == 64) _ _ _ _ (substitute-KeysOf a b (inside []) cs keys)
      (before_option-some (c ∷ []) _ _ (substitute-KeysOf a b outside cs keys)) h
substitute-KeysOf a b (inside []) (c ∷ cs) keys h =
    if-some (is_word c) _ _ _ _ (substitute-KeysOf a b (inside (c ∷ [])) cs keys)
      (if-some (c == 64) _ _ _ _
        (before_option-some (64 ∷ []) _ _ (substitute-KeysOf a b (inside []) cs keys))
        (before_option-some (64 ∷ c ∷ []) _ _ (substitute-KeysOf a b outside cs keys)))
      h
substitute-KeysOf a b (inside (x ∷ w)) (c ∷ cs) keys h =
    if-some (is_word c) _ _ _ _ (substitute-KeysOf a b (inside ((x ∷ w) ++ (c ∷ []))) cs keys)
      (if-some (c == 64) _ _ _ _
        (looked_up-KeysOf a b (x ∷ w) _ _ keys (substitute-KeysOf a b outside cs keys))
        (before_option-some (64 ∷ ((x ∷ w) ++ (c ∷ []))) _ _
          (substitute-KeysOf a b outside cs keys)))
      h

cons_option-some :
    (o p : Option Text) (l m : Option (List Text))
    → (is_some o ≡ true → is_some p ≡ true)
    → (is_some l ≡ true → is_some m ≡ true)
    → is_some (cons_option o l) ≡ true
    → is_some (cons_option p m) ≡ true
cons_option-some none p l m f g h = cc
cons_option-some (some t) none l m f g h = absurd (false≢true (f refl))
cons_option-some (some t) (some u) none m f g h = cc
cons_option-some (some t) (some u) (some ts) none f g h = absurd (false≢true (g refl))
cons_option-some (some t) (some u) (some ts) (some us) f g h = refl

pub hfmt_lines-KeysOf :
    (a b : Hargs) (lines : List Text)
    → KeysOf a b
    → is_some (hfmt_lines a lines) ≡ true
    → is_some (hfmt_lines b lines) ≡ true
unfolding hfmt_lines
hfmt_lines-KeysOf a b [] keys h = refl
hfmt_lines-KeysOf a b (line ∷ lines) keys h =
    go (template_line line) (hfmt_lines-KeysOf a b lines keys) h
  where
    filled : Hargs → Option Text → Option (List Text)
    filled kwargs o = elim o [
      | none ↦ hfmt_lines kwargs lines
      | some t ↦ cons_option (substitute kwargs outside t) (hfmt_lines kwargs lines)
    ]

    go :
        (o : Option Text)
        → (is_some (hfmt_lines a lines) ≡ true → is_some (hfmt_lines b lines) ≡ true)
        → is_some (filled a o) ≡ true
        → is_some (filled b o) ≡ true
    go none rest h = rest h
    go (some t) rest h =
        cons_option-some (substitute a outside t) (substitute b outside t) _ _
          (substitute-KeysOf a b outside t keys) rest h

pub has_file-set_hargs :
    (k : Text) (kvs hargs : Hargs)
    → has_file k (set_hargs kvs hargs) ≡ (has_file k kvs || has_file k hargs)
has_file-set_hargs k [] hargs = refl
has_file-set_hargs k ((n, v) ∷ kvs) hargs =
    has_file-set_hargs k kvs (set_key n v hargs)
    ∙ rw (has_file-set_key k n v hargs) (
        or_swap (has_file k kvs) (eq_codes k n) (has_file k hargs)
        ∙ sym (or_assoc (eq_codes k n) (has_file k kvs) (has_file k hargs)))
