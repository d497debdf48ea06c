-- ===== src/Checks/Sets.antt =====
-- Membership in the sets and dictionaries of texts, by the operations that make them.
use mathlib.Core.List.{Permᴰ}
use riscv_formal.Prelude.{
  or_false, or_comm, or_assoc, or_swap, or_twice, ◌≡◌, refl, sym, ap, ◌∙◌, inl, inr, Bool, true,
  false, ◌||◌, List, [], ◌∷◌, ◌++◌, Bool-cases,
}
use riscv_formal.Isa.Database.{eq_codes}
use riscv_formal.Monitor.Rewrite.{Text}
use riscv_formal.Checks.Settings.{has_mod}
use riscv_formal.Checks.Sections.{eq_codes-same}
use riscv_formal.Checks.Restrict.{any-append}
use riscv_formal.Checks.Csrs.{set_key, add_name}
use riscv_formal.Checks.Makefile.{union}

-- A name that stands in the dictionary.
abbrev pub has_file {ℓ} : {A : Type ℓ} → Text → List (Text × A) → Bool
has_file name [] = false
has_file name ((n, a) ∷ files) = eq_codes name n || has_file name files

has_mod-same :
    (k x : Text) (a : List Text) → has_mod x a ≡ true → (eq_codes k x || has_mod k a) ≡ has_mod k a
has_mod-same k x a there = elim (Bool-cases (eq_codes k x)) [
  | inl same ↦ simp same (sym (ap (λ m. has_mod m a) (eq_codes-same k x same) ∙ there))
  | inr other ↦ simp other refl
]

pub has_mod-add_name :
    (k n : Text) (ns : List Text) → has_mod k (add_name n ns) ≡ (eq_codes k n || has_mod k ns)
unfolding add_name
has_mod-add_name k n ns = elim (Bool-cases (has_mod n ns)) [
  | inl there ↦ simp there (sym (has_mod-same k n ns there))
  | inr new ↦ simp new (
      any-append (eq_codes k) ns (n ∷ [])
      ∙ rw (or_false (eq_codes k n)) (or_comm (has_mod k ns) (eq_codes k n)))
]

pub has_file-set_key {ℓ} :
    {A : Type ℓ} (k n : Text) (a : A) (files : List (Text × A))
    → has_file k (set_key n a files) ≡ (eq_codes k n || has_file k files)
unfolding set_key
has_file-set_key k n a [] = refl
has_file-set_key k n a ((m, b) ∷ files) = elim (Bool-cases (eq_codes n m)) [
  | inl same ↦ simp same (rw (eq_codes-same n m same) (or_twice (eq_codes k m) (has_file k files)))
  | inr other ↦ simp other (
      ap (λ t. eq_codes k m || t) (has_file-set_key k n a files)
      ∙ or_swap (eq_codes k m) (eq_codes k n) (has_file k files))
]

pub has_mod-union :
    (k : Text) (a b : List Text) → has_mod k (union a b) ≡ (has_mod k a || has_mod k b)
unfolding union
has_mod-union k a [] = sym (or_false (has_mod k a))
has_mod-union k a (x ∷ b) = elim (Bool-cases (has_mod x a)) [
  | inl there ↦ simp there (
      has_mod-union k a b
      ∙ ap (λ t. t || has_mod k b) (sym (has_mod-same k x a there))
      ∙ or_assoc (eq_codes k x) (has_mod k a) (has_mod k b)
      ∙ or_swap (eq_codes k x) (has_mod k a) (has_mod k b))
  | inr new ↦ simp new (
      has_mod-union k (a ++ (x ∷ [])) b
      ∙ rw (any-append (eq_codes k) a (x ∷ []), or_false (eq_codes k x))
          (or_assoc (has_mod k a) (eq_codes k x) (has_mod k b)))
]

pub has_mod-Permᴰ : (k : Text) {xs ys : List Text} → Permᴰ xs ys → has_mod k xs ≡ has_mod k ys
has_mod-Permᴰ k Permᴰ.nil = refl
has_mod-Permᴰ k (Permᴰ.cons e p) = rw (e, has_mod-Permᴰ k p) refl
has_mod-Permᴰ k (Permᴰ.swap {a = a} {b = b} {l = l} e f) =
    or_swap (eq_codes k a) (eq_codes k b) (has_mod k l) ∙ rw (e, f) refl
has_mod-Permᴰ k (Permᴰ.trans p q) = has_mod-Permᴰ k p ∙ has_mod-Permᴰ k q
