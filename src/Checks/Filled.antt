-- ===== src/Checks/Filled.antt =====
-- What the filling in of a text gives, piece by piece.
use mathlib.Core.List.{append-nil, append_assoc}
use riscv_formal.Prelude.{
  ℕ, ◌≡◌, refl, sym, ap, ◌∙◌, true, false, ◌==◌, List, [], ◌∷◌, ◌++◌, Option, none, some,
}
use riscv_formal.Monitor.Rewrite.{Text}
use riscv_formal.Checks.Config.{find_section}
use riscv_formal.Checks.Template.{
  Hargs, is_word, outside, inside, before_option, looked_up, substitute,
}

-- A piece of a text: characters without `@`, or the key that stands between two `@`.
pub data Piece : Type 0 where
  literal slot : Text → Piece

abbrev pub NoAt : Text → Type 0
NoAt [] = Unit
NoAt (c ∷ cs) = ((c == 64) ≡ false) × NoAt cs

abbrev pub AllWord : Text → Type 0
AllWord [] = Unit
AllWord (c ∷ cs) = (is_word c ≡ true) × AllWord cs

abbrev pub IsPiece : Piece → Type 0
IsPiece (literal t) = NoAt t
IsPiece (slot []) = ⊥
IsPiece (slot (c ∷ cs)) = AllWord (c ∷ cs)

abbrev pub ArePieces : List Piece → Type 0
ArePieces [] = Unit
ArePieces (p ∷ ps) = IsPiece p × ArePieces ps

-- The text, before a text that follows it.
abbrev pub written : List Piece → Text
written [] = []
written (literal t ∷ ps) = t ++ written ps
written (slot k ∷ ps) = 64 ∷ (k ++ (64 ∷ written ps))

-- The pieces with the values of their keys, where none is missing.
abbrev pub filled : Hargs → List Piece → Option Text
filled kwargs [] = some []
filled kwargs (literal t ∷ ps) = before_option t (filled kwargs ps)
filled kwargs (slot k ∷ ps) = looked_up (find_section k kwargs) (filled kwargs ps)

before_option-append :
    (c : ℕ) (a : Text) (o : Option Text)
    → before_option (c ∷ []) (before_option a o) ≡ before_option (c ∷ a) o
before_option-append c a none = refl
before_option-append c a (some b) = refl

before_option-nil : (o : Option Text) → before_option [] o ≡ o
before_option-nil none = refl
before_option-nil (some b) = refl

substitute-NoAt :
    (kwargs : Hargs) (t rest : Text)
    → NoAt t
    → substitute kwargs outside (t ++ rest) ≡ before_option t (substitute kwargs outside rest)
unfolding substitute
substitute-NoAt kwargs [] rest h = sym (before_option-nil (substitute kwargs outside rest))
substitute-NoAt kwargs (c ∷ t) rest h = rw (h.0) (
    ap (before_option (c ∷ [])) (substitute-NoAt kwargs t rest h.1)
    ∙ before_option-append c t (substitute kwargs outside rest))

substitute-AllWord :
    (kwargs : Hargs) (x : ℕ) (w cs rest : Text)
    → AllWord cs
    → substitute kwargs (inside (x ∷ w)) (cs ++ (64 ∷ rest))
      ≡ looked_up (find_section ((x ∷ w) ++ cs) kwargs) (substitute kwargs outside rest)
unfolding substitute
substitute-AllWord kwargs x w [] rest h =
    ap (λ k. looked_up (find_section (x ∷ k) kwargs) (substitute kwargs outside rest))
      (sym (append-nil w))
substitute-AllWord kwargs x w (c ∷ cs) rest h = rw (h.0) (
    substitute-AllWord kwargs x (w ++ (c ∷ [])) cs rest h.1
    ∙ ap (λ k. looked_up (find_section (x ∷ k) kwargs) (substitute kwargs outside rest))
        (append_assoc w (c ∷ []) cs))

-- For all keys and values: from characters other than "@" and words between two "@", the text that
-- comes out has the words replaced by their values and the rest unchanged; a word without a value
-- is the error.
pub substitute-filled :
    (kwargs : Hargs) (ps : List Piece)
    → ArePieces ps
    → substitute kwargs outside (written ps) ≡ filled kwargs ps
unfolding substitute
substitute-filled kwargs [] h = refl
substitute-filled kwargs (literal t ∷ ps) h =
    substitute-NoAt kwargs t (written ps) h.0
    ∙ ap (before_option t) (substitute-filled kwargs ps h.1)
substitute-filled kwargs (slot [] ∷ ps) h = absurd (h.0)
substitute-filled kwargs (slot (c ∷ cs) ∷ ps) h = rw (h.0.0) (
    substitute-AllWord kwargs c [] cs (written ps) h.0.1
    ∙ ap (looked_up (find_section (c ∷ cs) kwargs)) (substitute-filled kwargs ps h.1))
