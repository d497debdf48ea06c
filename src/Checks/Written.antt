-- ===== src/Checks/Written.antt =====
-- The files that are written and the checks that the makefile runs are the same.
use mathlib.Core.Path.{subst}
use riscv_formal.Prelude.{
  or_assoc, or_swap, ℕ, ◌≡◌, refl, sym, ◌∙◌, Bool, true, false, ◌||◌, List, [], ◌∷◌, Option, none,
  some,
}
use riscv_formal.Isa.Database.{eq_codes}
use riscv_formal.Monitor.Rewrite.{Text}
use riscv_formal.Checks.Settings.{has_mod}
use riscv_formal.Checks.Select.{
  Library, Target, check_insn, get_depth_cfg, test_disabled, prefix_of,
}
use riscv_formal.Checks.Cons.{ConsCall, ConsNames, cons_names, cons_job}
use riscv_formal.Checks.Csrs.{Illegal, set_key, add_name}
use riscv_formal.Checks.Hargs.{Setup}
use riscv_formal.Checks.InsnFile.{target_text, insn_hargs, insn_sby}
use riscv_formal.Checks.ConsFile.{cons_hargs, cons_sby}
use riscv_formal.Checks.Run.{
  Run, insn_step, named, cons_with_depths, cons_step, steps, insn_group, cons_group, write_checks,
}
use riscv_formal.Checks.Makefile.{checks_key, makefile_checks, run_checks}
use riscv_formal.Checks.Sorted.{sort_by-keeps}
use riscv_formal.Checks.Sets.{
  has_file, has_mod-add_name, has_file-set_key, has_mod-union, has_mod-Permᴰ,
}

-- A predicate on what is returned, if anything is.
abbrev Holds {ℓ} : {S : Type 0} → (S → Type ℓ) → Option S → Type ℓ
Holds P none = Unit
Holds P (some s) = P s

case-Holds :
    {A S : Type 0} (P : S → Type 0) (n : Option S) (f : A → Option S) (o : Option A)
    → Holds P n
    → ((a : A) → Holds P (f a))
    → Holds P (elim o [ none ↦ n | some a ↦ f a ])
case-Holds P n f none h k = h
case-Holds P n f (some a) h k = k a

branch-Holds :
    {S : Type 0} (P : S → Type 0) (x y : Option S) (b : Bool)
    → Holds P x
    → Holds P y
    → Holds P (elim b [ true ↦ x | false ↦ y ])
branch-Holds P x y true h k = h
branch-Holds P x y false h k = k

then-Holds :
    {A S : Type 0} (Q : A → Type 0) (P : S → Type 0) (f : A → Option S) (o : Option A)
    → Holds Q o
    → ((a : A) → Q a → Holds P (f a))
    → Holds P (elim o [ none ↦ none | some a ↦ f a ])
then-Holds Q P f none h k = tt
then-Holds Q P f (some a) h k = k a h

steps-Holds {ℓ} :
    {A : Type ℓ} {S : Type 0} (P : S → Type 0) (step : A → S → Option S)
    → ((x : A) (s : S) → P s → Holds P (step x s))
    → (xs : List A) (s : S) → P s
    → Holds P (steps step xs s)
steps-Holds P step each [] s p = p
steps-Holds P step each (x ∷ xs) s p =
    then-Holds P P (steps step xs) (step x s) (each x s p) (steps-Holds P step each xs)

-- The files are those of the two sets of checks.
abbrev Matched : Run → Type 0
Matched r =
    (name : Text)
    → has_file name r.files
      ≡ (has_mod name r.consistency_checks || has_mod name r.instruction_checks)

-- A check that is added to one of the sets together with its file.
added_insn :
    (check : Text) (lines : List Text) (r : Run)
    → Matched r
    → (name : Text)
    → has_file name (set_key check lines r.files)
      ≡ (has_mod name r.consistency_checks || has_mod name (add_name check r.instruction_checks))
added_insn check lines r m name =
    has_file-set_key name check lines r.files
    ∙ rw (m name, has_mod-add_name name check r.instruction_checks)
        (or_swap (eq_codes name check) (has_mod name r.consistency_checks)
          (has_mod name r.instruction_checks))

added_cons :
    (check : Text) (lines : List Text) (r : Run)
    → Matched r
    → (name : Text)
    → has_file name (set_key check lines r.files)
      ≡ (has_mod name (add_name check r.consistency_checks) || has_mod name r.instruction_checks)
added_cons check lines r m name =
    has_file-set_key name check lines r.files
    ∙ rw (m name, has_mod-add_name name check r.consistency_checks)
        (sym (
          or_assoc (eq_codes name check) (has_mod name r.consistency_checks)
            (has_mod name r.instruction_checks)))

insn_step-Matched :
    (lib : Library) (s : Setup) (grp : Option Text) (call : Target × ℕ) (r : Run)
    → Matched r
    → Holds Matched (insn_step lib s grp call r)
unfolding insn_step
insn_step-Matched lib s grp (t, chanidx) r m =
    case-Holds Matched none _ (target_text lib t) tt (λ text.
      case-Holds Matched none _ (check_insn lib s.config grp t chanidx) tt (λ job.
        case-Holds Matched (some r) _ job m (λ job.
          case-Holds Matched none _
            (insn_sby lib s r.csrs (insn_hargs text chanidx job r.hargs) t job.checkch) tt
            (λ lines. added_insn job.checkch lines r m))))

cons_with_depths-Matched :
    (lib : Library) (s : Setup) (grp : Option Text) (call : ConsCall) (names : ConsNames)
    (ds : List ℕ) (r : Run)
    → Matched r
    → Holds Matched (cons_with_depths lib s grp call names ds r)
unfolding cons_with_depths
cons_with_depths-Matched lib s grp call names ds r m =
    case-Holds Matched none _ (cons_job s.globals.mode call names ds) tt (λ job.
      case-Holds Matched none _ (test_disabled lib s.config names.checkch) tt (λ off.
        branch-Holds Matched _ _ off m (
          case-Holds Matched none _
            (cons_sby lib s r.csrs (cons_hargs job r.hargs) (prefix_of grp) call job) tt
            (λ lines. added_cons names.checkch lines r m))))

cons_step-Matched :
    (lib : Library) (s : Setup) (grp : Option Text) (call : ConsCall) (r : Run)
    → Matched r
    → Holds Matched (cons_step lib s grp call r)
unfolding cons_step named
cons_step-Matched lib s grp call r m =
    case-Holds Matched none _ (cons_names (prefix_of grp) call) tt (λ names.
      case-Holds Matched none _ (get_depth_cfg lib s.config names.depth_names) tt (λ cfg.
        case-Holds Matched (some (named call names r)) _ cfg m
          (λ ds. cons_with_depths-Matched lib s grp call names ds (named call names r) m)))

write_checks-Matched :
    (lib : Library) (s : Setup) (groups : List (Option Text)) (insns : List Text)
    (illegal : List Illegal) (csr_tests : Text → List (Option Text)) (csrs : List Text)
    → Holds Matched (write_checks lib s groups insns illegal csr_tests csrs)
unfolding write_checks insn_group cons_group
write_checks-Matched lib s groups insns illegal csr_tests csrs =
    then-Holds Matched Matched _ _
      (steps-Holds Matched (insn_group lib s insns illegal)
        (λ grp r m. steps-Holds Matched (insn_step lib s grp) (insn_step-Matched lib s grp) _ r m)
        groups _ (λ name. refl))
      (λ r m.
        steps-Holds Matched (cons_group lib s csr_tests)
          (λ grp r m. steps-Holds Matched (cons_step lib s grp) (cons_step-Matched lib s grp) _ r m)
          groups r m)

has_mod-makefile_checks :
    (lib : Library) (s : Setup) (r : Run) (name : Text)
    → has_mod name (makefile_checks lib s.config (run_checks r))
      ≡ (has_mod name r.consistency_checks || has_mod name r.instruction_checks)
unfolding makefile_checks run_checks
has_mod-makefile_checks lib s r name =
    has_mod-Permᴰ name (sort_by-keeps (checks_key lib s.config) (run_checks r))
    ∙ has_mod-union name r.consistency_checks r.instruction_checks

-- For every library, configuration, list of groups, listing of instructions, set of illegal CSRs and
-- tests of CSRs: where the script gets to the makefile without an exception, a name stands in the
-- makefile's list of checks exactly if a .sby file of this name was written.
pub write_checks-makefile_checks :
    (lib : Library) (s : Setup) (groups : List (Option Text)) (insns : List Text)
    (illegal : List Illegal) (csr_tests : Text → List (Option Text)) (csrs : List Text) (r : Run)
    → write_checks lib s groups insns illegal csr_tests csrs ≡ some r
    → (name : Text)
    → has_mod name (makefile_checks lib s.config (run_checks r)) ≡ has_file name r.files
write_checks-makefile_checks lib s groups insns illegal csr_tests csrs r h name =
    has_mod-makefile_checks lib s r name
    ∙ sym (
        of_result (write_checks lib s groups insns illegal csr_tests csrs)
          (write_checks-Matched lib s groups insns illegal csr_tests csrs) r h name)
  where
    of_result : (o : Option Run) → Holds Matched o → (r : Run) → o ≡ some r → Matched r
    of_result o m r h = subst (Holds Matched) h m
