-- ===== src/Checks/Order.antt =====
-- The makefile does not depend on the order in which a set gives its elements.
use mathlib.Core.List.{Perm}
use mathlib.Core.Logic.{∥∥₁_elim}
use riscv_formal.Prelude.{
  ℕ, zero, suc, ◌+◌, ◌/◌, ◌%◌, ◌≡◌, refl, sym, ap, ◌∙◌, inl, inr, false, ◌==◌, List, [], ◌∷◌, ◌++◌,
  none, some, arith, Bool-cases, if◌then◌else◌, ◌-◌, length,
}
use riscv_formal.Isa.Database.{codes, starts_with}
use riscv_formal.Monitor.Rewrite.{Text}
use riscv_formal.Monitor.Order.{AllOf}
use riscv_formal.Monitor.Deliver.{AllOf-append}
use riscv_formal.Checks.Strings.{strip, split_at}
use riscv_formal.Checks.Config.{Config, find_section}
use riscv_formal.Checks.Select.{Library, digits, decimal}
use riscv_formal.Checks.Numbers.{zeros, decimal4}
use riscv_formal.Checks.Hargs.{Setup}
use riscv_formal.Checks.Sorted.{sort_by-Permᴰ}
use riscv_formal.Checks.Makefile.{class_key, line_key, checks_key, makefile_checks, makefile}

abbrev NotDash : ℕ → Type 0
NotDash c = (c == 45) ≡ false

-- What follows the first dash.
abbrev after_dash : Text → Text
after_dash [] = []
after_dash (c ∷ cs) = if c == 45 then cs else after_dash cs

after_dash-append : (p cs : Text) → AllOf NotDash p → after_dash (p ++ (45 ∷ cs)) ≡ cs
after_dash-append [] cs h = refl
after_dash-append (c ∷ p) cs h = simp (h.0) (after_dash-append p cs h.1)

digit-NotDash : (n : ℕ) → NotDash (48 + n % 10)
digit-NotDash n = ground arith

digits-NotDash : (fuel n : ℕ) (ds : Text) → AllOf NotDash ds → AllOf NotDash (digits fuel n ds)
unfolding digits
digits-NotDash zero n ds h = h
digits-NotDash (suc fuel) n ds h = elim (Bool-cases (n / 10 == 0)) [
  | inl last ↦ simp last (digit-NotDash n, h)
  | inr more ↦ simp more (digits-NotDash fuel (n / 10) ((48 + n % 10) ∷ ds) (digit-NotDash n, h))
]

zeros-NotDash : (n : ℕ) → AllOf NotDash (zeros n)
zeros-NotDash zero = tt
zeros-NotDash (suc n) = (refl, zeros-NotDash n)

decimal4-NotDash : (n : ℕ) → AllOf NotDash (decimal4 n)
unfolding decimal4
decimal4-NotDash n =
    AllOf-append NotDash (zeros (4 - length (decimal n))) (decimal n)
      (zeros-NotDash (4 - length (decimal n))) (digits-NotDash (suc n) n [] tt)

after_dash-class_key : (check : Text) → after_dash (class_key check) ≡ check
after_dash-class_key check = elim (Bool-cases (starts_with (codes "insn_") check)) [
  | inl insn ↦ simp insn refl
  | inr other ↦ simp other refl
]

after_dash-line_key :
    (lib : Library) (check : Text) (index : ℕ) (lines : List Text)
    → after_dash (line_key lib check index lines) ≡ check
unfolding line_key
after_dash-line_key lib check index [] = after_dash-class_key check
after_dash-line_key lib check index (line ∷ lines) =
    elim (Bool-cases (lib.fullmatch (strip line) check)) [
      | inl here ↦ simp here (after_dash-append (decimal4 index) check (decimal4-NotDash index))
      | inr there ↦ simp there (after_dash-line_key lib check (index + 1) lines)
    ]

after_dash-checks_key :
    (lib : Library) (config : Config) (check : Text)
    → after_dash (checks_key lib config check) ≡ check
unfolding checks_key
after_dash-checks_key lib config check =
    elim (find_section (codes "sort") config.sections)
      as (λ o.
        after_dash
          (elim o [ none ↦ class_key check | some body ↦ line_key lib check 0 (split_at 10 body) ])
        ≡ check) [
          | none ↦ after_dash-class_key check
          | some body ↦ after_dash-line_key lib check 0 (split_at 10 body)
        ]

checks_key_injective :
    (lib : Library) (config : Config) (a b : Text)
    → checks_key lib config a ≡ checks_key lib config b
    → a ≡ b
checks_key_injective lib config a b h =
    sym (after_dash-checks_key lib config a) ∙ ap after_dash h ∙ after_dash-checks_key lib config b

makefile_IsSet : IsSet (List Text)
makefile_IsSet = hlevel

-- For every library and configuration, with lines that sort the checks or without: the makefile is
-- the same for two lists of the same checks in different orders.
pub makefile-Perm :
    (lib : Library) (s : Setup) {xs ys : List Text}
    → Perm xs ys
    → makefile lib s xs ≡ makefile lib s ys
unfolding makefile makefile_checks
makefile-Perm lib s {xs} {ys} p =
    ∥∥₁_elim p (makefile_IsSet (makefile lib s xs) (makefile lib s ys))
      (λ d. rw (sort_by-Permᴰ (checks_key lib s.config) (checks_key_injective lib s.config) d) refl)
