-- ===== src/Checks/Strings.antt =====
-- The methods of str that checks/genchecks.py calls. A text is the list of its character codes.
use riscv_formal.Prelude.{ℕ, Bool, ◌==◌, List, [], ◌∷◌, if◌then◌else◌}
use riscv_formal.Isa.Database.{starts_with}
use riscv_formal.Monitor.Rewrite.{Text, space}

abbrev pub backwards : Text → Text → Text
backwards done [] = done
backwards done (c ∷ cs) = backwards (c ∷ done) cs

-- `text.lstrip()` with the characters that pass the test.
unfoldable pub lstrip : (ℕ → Bool) → Text → Text
lstrip p [] = []
lstrip p (c ∷ cs) = let rest = lstrip p cs in if p c then rest else c ∷ cs

-- `text.rstrip()`
unfoldable pub rstrip : (ℕ → Bool) → Text → Text
unfolding lstrip
rstrip p cs = backwards [] (lstrip p (backwards [] cs))

-- `text.strip()`
unfoldable pub strip : Text → Text
unfolding lstrip rstrip
strip cs = rstrip space (lstrip space cs)

-- `text.endswith`
unfoldable pub ends_with : Text → Text → Bool
ends_with end cs = starts_with (backwards [] end) (backwards [] cs)

-- `text.split("\n")`, or at another character.
unfoldable pub split_at : ℕ → Text → List Text
split_at sep [] = [] ∷ []
split_at sep (c ∷ cs) = let rest = split_at sep cs in if c == sep then [] ∷ rest else grow c rest
  where
    grow : ℕ → List Text → List Text
    grow c [] = (c ∷ []) ∷ []
    grow c (w ∷ ws) = (c ∷ w) ∷ ws
