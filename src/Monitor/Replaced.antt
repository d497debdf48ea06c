-- ===== src/Monitor/Replaced.antt =====
-- What str.replace gives, as print_rewrite_file of monitor/generate.py uses it.
use mathlib.Core.Bool.{false≢true}
use mathlib.Core.Path.{subst}
use riscv_formal.Prelude.{
  ℕ, zero, suc, ◌≤◌, ◌-◌, ◌≡◌, ◌≢◌, refl, sym, ap, ◌∙◌, true, ◌==◌, List, [], ◌∷◌, ◌++◌, length,
  arith, Bool-cases, inl, inr, and-left, and-right, ==_iff,
}
use riscv_formal.Isa.Database.{starts_with}
use riscv_formal.Monitor.Rewrite.{Text, replace, replace_names}
use riscv_formal.Monitor.Order.{AllOf}

-- From left to right: a character at which no occurrence of the text a starts is kept, and an
-- occurrence is replaced by b.
pub data Replaced : Text → Text → Text → Text → Type 0 where
  end : {a b : Text} → Replaced a b [] []
  keep :
      {a b : Text} (c : ℕ) {line out : Text}
      → ((rest : Text) → ◌≢◌ {A = Text} (c ∷ line) (a ++ rest))
      → Replaced a b line out
      → Replaced a b (c ∷ line) (c ∷ out)
  occurrence : {a b line out : Text} → Replaced a b line out → Replaced a b (a ++ line) (b ++ out)

-- The replacements one after another.
abbrev pub ReplacedAll : List (Text × Text) → Text → Text → Type 0
ReplacedAll [] line out = ◌≡◌ {A = Text} line out
ReplacedAll ((a, b) ∷ db) line out = (m : Text) × (Replaced a b line m × ReplacedAll db m out)

abbrev pub NoEmptyKey : List (Text × Text) → Type 0
NoEmptyKey db = AllOf (λ kv. ◌≢◌ {A = Text} (kv.0) []) db

abbrev drop : ℕ → Text → Text
drop zero line = line
drop (suc n) [] = []
drop (suc n) (c ∷ line) = drop n line

length-drop : (n : ℕ) (line : Text) → length (drop n line) ≤ length line
length-drop zero line = omega arith
length-drop (suc n) [] = omega arith
length-drop (suc n) (c ∷ line) = let ih = length-drop n line in omega arith

replace-drop : (a b : Text) (n : ℕ) (line : Text) → replace a b n line ≡ replace a b 0 (drop n line)
unfolding replace
replace-drop a b zero line = refl
replace-drop a b (suc n) [] = refl
replace-drop a b (suc n) (c ∷ line) = replace-drop a b n line

starts_with-drop :
    (a line : Text) → starts_with a line ≡ true → ◌≡◌ {A = Text} line (a ++ drop (length a) line)
unfolding starts_with
starts_with-drop [] line h = refl
starts_with-drop (x ∷ a) [] h = absurd (false≢true h)
starts_with-drop (x ∷ a) (c ∷ line) h =
    let same = (==_iff x c).0 (and-left (x == c) (starts_with a line) h) in
    let rest = starts_with-drop a line (and-right (x == c) (starts_with a line) h) in
    rw same (ap (λ (t : Text). c ∷ t) rest)

starts_with-append : (a rest : Text) → starts_with a (a ++ rest) ≡ true
unfolding starts_with
starts_with-append [] rest = refl
starts_with-append (x ∷ a) rest = rw ((==_iff x x).1 refl) (starts_with-append a rest)

replace-Replaced :
    (fuel : ℕ) (x : ℕ) (a b line : Text)
    → length line ≤ fuel
    → Replaced (x ∷ a) b line (replace (x ∷ a) b 0 line)
unfolding replace
replace-Replaced fuel x a b [] h = end
replace-Replaced zero x a b (c ∷ line) h = absurd (omega arith)
replace-Replaced (suc fuel) x a b (c ∷ line) h =
    elim (Bool-cases (starts_with (x ∷ a) (c ∷ line))) [
      | inl here ↦
          let e : ◌≡◌ {A = Text} (c ∷ line) ((x ∷ a) ++ drop (length a) line) =
            starts_with-drop (x ∷ a) (c ∷ line) here in
          let size : suc (length a) - 1 ≡ length a = omega arith in
          let shorter : length (drop (length a) line) ≤ fuel =
            let l = length-drop (length a) line in omega arith in
          let out : Replaced (x ∷ a) b ((x ∷ a) ++ drop (length a) line)
              (b ++ replace (x ∷ a) b (length a) line) =
            subst (λ o. Replaced (x ∷ a) b ((x ∷ a) ++ drop (length a) line) (b ++ o))
              (sym (replace-drop (x ∷ a) b (length a) line))
              (occurrence (replace-Replaced fuel x a b (drop (length a) line) shorter)) in
          simp (here, size)
            (subst (λ l. Replaced (x ∷ a) b l (b ++ replace (x ∷ a) b (length a) line)) (sym e) out)
      | inr not_here ↦ simp not_here (
          keep c
            (λ rest e.
              false≢true
                (sym not_here ∙ ap (starts_with (x ∷ a)) e ∙ starts_with-append (x ∷ a) rest))
            (replace-Replaced fuel x a b line (omega arith)))
    ]

pub replace_names-ReplacedAll :
    (db : List (Text × Text)) (line : Text)
    → NoEmptyKey db
    → ReplacedAll db line (replace_names db line)
unfolding replace_names
replace_names-ReplacedAll [] line h = refl
replace_names-ReplacedAll (([], b) ∷ db) line h = absurd (h.0 refl)
replace_names-ReplacedAll ((x ∷ a, b) ∷ db) line h =
    let m = replace (x ∷ a) b 0 line in
    (
      m,
      (replace-Replaced (length line) x a b line (omega arith), replace_names-ReplacedAll db m h.1),
    )
