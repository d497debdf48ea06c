-- ===== src/Checks/Chosen.antt =====
-- What the sections [depth], [filter-checks] and [assume] decide.
use riscv_formal.Prelude.{
  ℕ, ◌≡◌, refl, Bool, true, false, not, List, [], ◌∷◌, ◌++◌, Option, none, some, any, Bool-cases,
  Option-cases, ◌≢◌, inl, inr,
}
use riscv_formal.Isa.Database.{codes, eq_codes}
use riscv_formal.Monitor.Rewrite.{Text}
use riscv_formal.Checks.Select.{
  Library, ints, depth_lines, is_sign, filter_lines, negated, bare, enabled_by, assume_enabled,
}

-- No line names one of the checks.
abbrev pub NoDepth : Library → List Text → List (List Text) → Type 0
NoDepth lib pats [] = Unit
NoDepth lib pats ([] ∷ lines) = NoDepth lib pats lines
NoDepth lib pats ((w ∷ ws) ∷ lines) = (any (lib.fullmatch w) pats ≡ false) × NoDepth lib pats lines

depth_lines-NoDepth :
    (lib : Library) (pats : List Text) (lines : List (List Text)) (ret : Option (List ℕ))
    → NoDepth lib pats lines
    → depth_lines lib pats lines ret ≡ some ret
unfolding depth_lines
depth_lines-NoDepth lib pats [] ret h = refl
depth_lines-NoDepth lib pats ([] ∷ lines) ret h = depth_lines-NoDepth lib pats lines ret h
depth_lines-NoDepth lib pats ((w ∷ ws) ∷ lines) ret h =
    rw (h.0) (depth_lines-NoDepth lib pats lines ret h.1)

-- Of the lines that name one of the checks by a full match, the last one gives the depths, when its
-- words are numbers and the lines before it raise nothing.
pub depth_lines-last :
    (lib : Library) (pats : List Text) (before after : List (List Text)) (w : Text) (ws : List Text)
    (ret found : Option (List ℕ)) (ns : List ℕ)
    → depth_lines lib pats before ret ≡ some found
    → any (lib.fullmatch w) pats ≡ true
    → ints lib.int ws ≡ some ns
    → NoDepth lib pats after
    → depth_lines lib pats (before ++ ((w ∷ ws) ∷ after)) ret ≡ some (some ns)
unfolding depth_lines
depth_lines-last lib pats [] after w ws ret found ns h named numbers none_after =
    rw (named, numbers) (depth_lines-NoDepth lib pats after (some ns) none_after)
depth_lines-last lib pats ([] ∷ before) after w ws ret found ns h named numbers none_after =
    depth_lines-last lib pats before after w ws ret found ns h named numbers none_after
depth_lines-last lib pats ((v ∷ vs) ∷ before) after w ws ret found ns h named numbers none_after =
    elim (Bool-cases (any (lib.fullmatch v) pats)) [
      | inr other ↦ rw other (
          depth_lines-last lib pats before after w ws ret found ns (simp other at h) named numbers
            none_after)
      | inl named_too ↦ elim (Option-cases (ints lib.int vs)) [
        | inl bad ↦ absurd (none-some (simp (named_too, bad) at h))
        | inr (ms, e) ↦
            rw (named_too, e)
              (depth_lines-last lib pats before after w ws (some ms) found ns
                (simp (named_too, e) at h) named numbers none_after)
      ]
    ]
  where
    none-some : {A : Type 0} {a : A} → none ≢ some a
    none-some e = cc

-- Lines of a sign and a pattern that does not match.
abbrev pub Passed : Library → Text → List (List Text) → Type 0
Passed lib check [] = Unit
Passed lib check ([] ∷ lines) = Passed lib check lines
Passed lib check ((w ∷ []) ∷ lines) = ⊥
Passed lib check ((sign ∷ pat ∷ []) ∷ lines) =
    (is_sign sign ≡ true) × (lib.match pat check ≡ false) × Passed lib check lines
Passed lib check ((w ∷ v ∷ u ∷ ws) ∷ lines) = ⊥

-- The first line of [filter-checks] whose pattern matches decides whether a check is disabled, by
-- its sign, whatever follows; where no line matches the check is not disabled.
pub filter_lines-first :
    (lib : Library) (check : Text) (before : List (List Text))
    → Passed lib check before
    → (filter_lines lib check before ≡ some false)
      × ((sign pat : Text) (after : List (List Text))
          → is_sign sign ≡ true
          → lib.match pat check ≡ true
          → filter_lines lib check (before ++ ((sign ∷ pat ∷ []) ∷ after))
            ≡ some (eq_codes sign (codes "-")))
unfolding filter_lines
filter_lines-first lib check [] h = (refl, λ sign pat after s m. rw (s, m) refl)
filter_lines-first lib check ([] ∷ before) h = filter_lines-first lib check before h
filter_lines-first lib check ((w ∷ []) ∷ before) h = absurd h
filter_lines-first lib check ((sign ∷ pat ∷ []) ∷ before) (s, m, h) =
    rw (s, m) (filter_lines-first lib check before h)
filter_lines-first lib check ((w ∷ v ∷ u ∷ ws) ∷ before) h = absurd h

-- No pattern matches, with its "!" taken off.
abbrev pub NoMatch : Library → Text → List Text → Type 0
NoMatch lib check [] = Unit
NoMatch lib check (p ∷ pat) = (lib.match (bare p) check ≡ false) × NoMatch lib check pat

-- What the loop ends with where no pattern matches.
abbrev pub last_polarity : Bool → List Text → Bool
last_polarity enabled [] = enabled
last_polarity enabled (p ∷ pat) = last_polarity (not (negated p)) pat

enabled_by-first :
    (lib : Library) (check : Text) (enabled : Bool) (before : List Text)
    → NoMatch lib check before
    → (enabled_by lib check enabled before ≡ last_polarity enabled before)
      × ((p : Text) (after : List Text)
          → lib.match (bare p) check ≡ true
          → enabled_by lib check enabled (before ++ (p ∷ after)) ≡ negated p)
unfolding enabled_by
enabled_by-first lib check enabled [] h = (refl, λ p after m. rw m (twice (negated p)))
  where
    twice : (b : Bool) → not (not b) ≡ b
    twice true = refl
    twice false = refl
enabled_by-first lib check enabled (q ∷ before) (m, h) =
    rw m (enabled_by-first lib check (not (negated q)) before h)

-- Where no pattern of an assumption matches the check, its line is used if the last pattern has no
-- "!" or there is no pattern; the first pattern that matches decides otherwise: the line is used
-- just when this pattern has a "!".
pub assume_enabled-first :
    (lib : Library) (check : Text) (before : List Text)
    → NoMatch lib check before
    → (assume_enabled lib check before ≡ last_polarity true before)
      × ((p : Text) (after : List Text)
          → lib.match (bare p) check ≡ true
          → assume_enabled lib check (before ++ (p ∷ after)) ≡ negated p)
unfolding assume_enabled
assume_enabled-first lib check before h = enabled_by-first lib check true before h
