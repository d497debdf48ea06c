-- ===== src/Checks/Restrict.antt =====
-- What becomes of the CSRs that need a module of the ISA.
use riscv_formal.Prelude.{
  sym, ap, not, ◌&&◌, and-left, and-right, or_false, or_comm, or_assoc, or_swap, or_twice, ◌≡◌, inl,
  inr, refl, ◌∙◌, Bool, true, false, ◌||◌, List, [], ◌∷◌, ◌++◌, Option, any, Bool-cases,
}
use riscv_formal.Isa.Database.{codes, eq_codes}
use riscv_formal.Monitor.Rewrite.{Text}
use riscv_formal.Checks.Sections.{eq_codes-same}
use riscv_formal.Checks.Settings.{has_mod}
use riscv_formal.Checks.Csrs.{
  SpecCsrs, set_key, Restricted, Illegal, same_illegal, add_illegal, restrict,
}

-- A name with a value in the dictionary.
abbrev pub has_key : Text → SpecCsrs → Bool
has_key name spec = any (λ kv. eq_codes name (kv.0)) spec

abbrev pub has_illegal : Illegal → List Illegal → Bool
has_illegal x xs = any (same_illegal x) xs

pub any-append :
    {A : Type 0} (p : A → Bool) (xs ys : List A) → any p (xs ++ ys) ≡ (any p xs || any p ys)
any-append p [] ys = refl
any-append p (x ∷ xs) ys = rw (any-append p xs ys) (or_assoc (p x) (any p xs) (any p ys))
  where
    or_assoc : (a b c : Bool) → (a || (b || c)) ≡ ((a || b) || c)
    or_assoc true b c = refl
    or_assoc false b c = refl

same_illegal-same : (x y : Illegal) → same_illegal x y ≡ true → x ≡ y
same_illegal-same (a, b, c) (d, e, f) h =
    let both = eq_codes a d && eq_codes b e in
    let front = and-left both (eq_codes c f) h in
    let first = eq_codes-same a d (and-left (eq_codes a d) (eq_codes b e) front) in
    let second = eq_codes-same b e (and-right (eq_codes a d) (eq_codes b e) front) in
    let third = eq_codes-same c f (and-right both (eq_codes c f) h) in
    rw (first, second, third) refl

has_key-set_key :
    (k name : Text) (tests : Option (List Text)) (spec : SpecCsrs)
    → has_key k (set_key name tests spec) ≡ (eq_codes k name || has_key k spec)
unfolding set_key
has_key-set_key k name tests [] = refl
has_key-set_key k name tests ((n, b) ∷ spec) = elim (Bool-cases (eq_codes name n)) [
  | inl same ↦ simp same (rw (eq_codes-same name n same) (or_twice (eq_codes k n) (has_key k spec)))
  | inr other ↦ simp other (
      ap (λ t. eq_codes k n || t) (has_key-set_key k name tests spec)
      ∙ or_swap (eq_codes k n) (eq_codes k name) (has_key k spec))
]

has_illegal-add_illegal :
    (x y : Illegal) (xs : List Illegal)
    → has_illegal x (add_illegal y xs) ≡ (same_illegal x y || has_illegal x xs)
unfolding add_illegal
has_illegal-add_illegal x y xs = elim (Bool-cases (has_illegal y xs)) [
  | inl there ↦ elim (Bool-cases (same_illegal x y)) [
    | inl same ↦
        simp (there, same) (ap (λ z. has_illegal z xs) (same_illegal-same x y same) ∙ there)
    | inr other ↦ simp (there, other) refl
  ]
  | inr new ↦ simp new (
      any-append (same_illegal x) xs (y ∷ [])
      ∙ rw (or_false (same_illegal x y)) (or_comm (has_illegal x xs) (same_illegal x y)))
]

-- A CSR of the table that the ISA allows under this name, and one that it does not allow and that
-- has this entry among the illegal CSRs.
abbrev pub allowed : List Text → Text → Restricted → Bool
allowed mods k r = has_mod r.needs mods && eq_codes k r.name

abbrev pub refused : List Text → Illegal → Restricted → Bool
refused mods x r = not (has_mod r.needs mods) && same_illegal x (r.addr, codes "m", codes "rw")

-- For every table, ISA, dictionary and set of illegal CSRs before the loop: a name is in the
-- dictionary after it exactly if it was there before or stands in the table with a module that the
-- ISA has; a triple is among the illegal CSRs exactly if it was there before or is the address of a
-- CSR of the table whose module the ISA does not have, for reading and writing in machine mode.
pub restrict-any :
    (mods : List Text) (rs : List Restricted) (spec : SpecCsrs) (illegal : List Illegal) (k : Text)
    (x : Illegal)
    → (has_key k (restrict mods rs (spec, illegal)).0 ≡ (any (allowed mods k) rs || has_key k spec))
      × (has_illegal x (restrict mods rs (spec, illegal)).1
          ≡ (any (refused mods x) rs || has_illegal x illegal))
unfolding restrict
restrict-any mods [] spec illegal k x = (refl, refl)
restrict-any mods (r ∷ rs) spec illegal k x =
    let entry : Illegal = (r.addr, codes "m", codes "rw") in
    elim (Bool-cases (has_mod r.needs mods)) [
      | inl legal ↦
          let ih = restrict-any mods rs (set_key r.name r.tests spec) illegal k x in
          simp legal (
            ih.0
                ∙ ap (λ t. any (allowed mods k) rs || t) (has_key-set_key k r.name r.tests spec)
                ∙ or_move (any (allowed mods k) rs) (eq_codes k r.name) (has_key k spec),
            ih.1,
          )
      | inr not_legal ↦
          let ih = restrict-any mods rs spec (add_illegal entry illegal) k x in
          simp not_legal (
            ih.0,
            ih.1
                ∙ ap (λ t. any (refused mods x) rs || t) (has_illegal-add_illegal x entry illegal)
                ∙ or_move (any (refused mods x) rs) (same_illegal x entry) (has_illegal x illegal),
          )
    ]
  where
    or_move : (a b c : Bool) → (a || (b || c)) ≡ ((b || a) || c)
    or_move a b c = or_swap a b c ∙ sym (or_assoc b a c)
