-- ===== src/Checks/Enough.antt =====
-- The values of a line of [depth] that the consistency checks take, by the kinds of lines in
-- docs/source/procedure.rst.
use mathlib.Core.List.{head-eq_of_cons-eq, tail-eq_of_cons-eq}
use riscv_formal.Prelude.{
  ℕ, ◌≡◌, refl, sym, ap, ◌∙◌, Bool, true, false, ◌||◌, List, [], ◌∷◌, ◌++◌, Option, none, some, map,
  if◌then◌else◌,
}
use riscv_formal.Isa.Database.{codes, eq_codes}
use riscv_formal.Monitor.Rewrite.{Text}
use riscv_formal.Monitor.Order.{AllOf}
use riscv_formal.Monitor.Deliver.{AllOf-append}
use riscv_formal.Checks.Cons.{ConsCall, ConsNames, ConsJob, get_elem?, pick, cons_job, xmode_of}
use riscv_formal.Checks.Schedule.{
  two_depths, three_depths, one_depth, channels_from, concat_map, csr_call, channel_calls,
  cons_calls,
}

abbrev pub is_some {ℓ} : {A : Type ℓ} → Option A → Bool
is_some none = false
is_some (some a) = true

-- What the values of a line are: the depth; the cycles of reset and the depth; or the cycles of
-- reset, the trigger and the depth.
pub data Values : Type 0 where
  depth_only reset_depth reset_trigger_depth : Values

-- Liveness and uniqueness take three values, ill and fault one, all others two.
abbrev pub plain_values : Text → Values
plain_values check =
    if eq_codes check (codes "liveness") || eq_codes check (codes "unique")
    then reset_trigger_depth
    else (if eq_codes check (codes "ill") || eq_codes check (codes "fault")
        then depth_only
        else reset_depth)

-- A check of a CSR takes two values.
abbrev pub values_of : ConsCall → Values
values_of call = elim call.csr_test [ none ↦ plain_values call.check | some test ↦ reset_depth ]

abbrev job_at : Text → ConsNames → ℕ → Option ℕ → ℕ → Option ConsJob
job_at mode names start trig depth = some (record {
  names = names;
  start = start;
  trig = trig;
  depth = depth;
  xmode = xmode_of mode names.checkch;
})

-- The job of a line: values after those that are taken are ignored, too few are the error, and
-- without cycles of reset the check starts at 1.
abbrev pub job_of : Values → Text → ConsNames → List ℕ → Option ConsJob
job_of depth_only mode names [] = none
job_of depth_only mode names (d ∷ ds) = job_at mode names 1 none d
job_of reset_depth mode names [] = none
job_of reset_depth mode names (r ∷ []) = none
job_of reset_depth mode names (r ∷ d ∷ ds) = job_at mode names r none d
job_of reset_trigger_depth mode names [] = none
job_of reset_trigger_depth mode names (r ∷ []) = none
job_of reset_trigger_depth mode names (r ∷ t ∷ []) = none
job_of reset_trigger_depth mode names (r ∷ t ∷ d ∷ ds) = job_at mode names r (some t) d

-- The job of a call is that of its kind of check, whatever the line.
abbrev pub TakesValues : ConsCall → Type 0
TakesValues call =
    (mode : Text) (names : ConsNames) (ds : List ℕ)
    → cons_job mode call names ds ≡ job_of (values_of call) mode names ds

AllOf-concat_map :
    {A B : Type 0} (P : B → Type 0) (f : A → List B) (xs : List A)
    → ((x : A) → AllOf P (f x))
    → AllOf P (concat_map f xs)
AllOf-concat_map P f [] h = tt
AllOf-concat_map P f (x ∷ xs) h =
    AllOf-append P (f x) (concat_map f xs) (h x) (AllOf-concat_map P f xs h)

AllOf-map :
    {A B : Type 0} (P : B → Type 0) (f : A → B) (xs : List A)
    → ((x : A) → P (f x))
    → AllOf P (map f xs)
AllOf-map P f [] h = tt
AllOf-map P f (x ∷ xs) h = (h x, AllOf-map P f xs h)

two_depths-reset_depth :
    (bus : Bool) (check : Text) (i : Option ℕ) (test : Option (Option Text)) (mode : Text)
    (names : ConsNames) (ds : List ℕ)
    → cons_job mode (record (two_depths bus check i) { csr_test = test }) names ds
      ≡ job_of reset_depth mode names ds
unfolding cons_job pick get_elem?
two_depths-reset_depth bus check i test mode names [] = refl
two_depths-reset_depth bus check i test mode names (r ∷ []) = refl
two_depths-reset_depth bus check i test mode names (r ∷ d ∷ ds) = refl

three_depths-reset_trigger_depth :
    (check : Text) (i : ℕ) (mode : Text) (names : ConsNames) (ds : List ℕ)
    → cons_job mode (three_depths check i) names ds ≡ job_of reset_trigger_depth mode names ds
unfolding cons_job pick get_elem?
three_depths-reset_trigger_depth check i mode names [] = refl
three_depths-reset_trigger_depth check i mode names (r ∷ []) = refl
three_depths-reset_trigger_depth check i mode names (r ∷ t ∷ []) = refl
three_depths-reset_trigger_depth check i mode names (r ∷ t ∷ d ∷ ds) = refl

one_depth-depth_only :
    (check : Text) (i : ℕ) (mode : Text) (names : ConsNames) (ds : List ℕ)
    → cons_job mode (one_depth check i) names ds ≡ job_of depth_only mode names ds
unfolding cons_job pick get_elem?
one_depth-depth_only check i mode names [] = refl
one_depth-depth_only check i mode names (d ∷ ds) = refl

-- Calls that take their values alike.
map-TakesValues :
    (f : Text → ConsCall) (v : Values) (checks : List Text)
    → ((check mode : Text) (names : ConsNames) (ds : List ℕ)
        → cons_job mode (f check) names ds ≡ job_of v mode names ds)
    → map (λ check. values_of (f check)) checks ≡ map (λ check. v) checks
    → AllOf TakesValues (map f checks)
map-TakesValues f v [] h e = tt
map-TakesValues f v (check ∷ checks) h e =
    let kind : values_of (f check) ≡ v = head-eq_of_cons-eq e in
    (
      (λ mode names ds. h check mode names ds ∙ ap (λ k. job_of k mode names ds) (sym kind)),
      map-TakesValues f v checks h (tail-eq_of_cons-eq e),
    )

channel_calls-TakesValues : (i : ℕ) → AllOf TakesValues (channel_calls i)
unfolding channel_calls eq_codes
channel_calls-TakesValues i =
    let two = λ (bus : Bool) (check : Text). two_depths bus check (some i) in
    let three = λ (check : Text). three_depths check i in
    let one = λ (check : Text). one_depth check i in
    let states = codes "reg" ∷ codes "pc_fwd" ∷ codes "pc_bwd" ∷ [] in
    let triggered = codes "liveness" ∷ codes "unique" ∷ [] in
    let causes = codes "causal" ∷ codes "causal_mem" ∷ codes "causal_io" ∷ [] in
    let faults = codes "ill" ∷ codes "fault" ∷ [] in
    let buses =
      codes "bus_imem"
      ∷ codes "bus_imem_fault"
      ∷ codes "bus_dmem"
      ∷ codes "bus_dmem_fault"
      ∷ codes "bus_dmem_io_read"
      ∷ codes "bus_dmem_io_read_fault"
      ∷ codes "bus_dmem_io_write"
      ∷ codes "bus_dmem_io_write_fault"
      ∷ codes "bus_dmem_io_order"
      ∷ [] in
    let two_each = λ (bus : Bool) (check : Text). two_depths-reset_depth bus check (some i) none in
    let each = map (two true) buses in
    let one_each = map one faults ++ each in
    let cause_each = map (two false) causes ++ one_each in
    let three_each = map three triggered ++ cause_each in
    AllOf-append TakesValues (map (two false) states) three_each
      (map-TakesValues (two false) reset_depth states (two_each false) refl)
      (AllOf-append TakesValues (map three triggered) cause_each
        (map-TakesValues three reset_trigger_depth triggered
          (λ check. three_depths-reset_trigger_depth check i) refl)
        (AllOf-append TakesValues (map (two false) causes) one_each
          (map-TakesValues (two false) reset_depth causes (two_each false) refl)
          (AllOf-append TakesValues (map one faults) each
            (map-TakesValues one depth_only faults (λ check. one_depth-depth_only check i) refl)
            (map-TakesValues (two true) reset_depth buses (two_each true) refl))))

-- For every number of channels, CSRs and tests of them, every mode, names and line of depths: each
-- check of those that the loops call check_cons for takes the values of the line that its kind of
-- check has, liveness and unique the cycles of reset, the trigger and the depth, ill and fault the
-- depth, all others the cycles of reset and the depth; too few values are the error.
pub cons_calls-TakesValues :
    (nret : ℕ) (csrs : List Text) (csr_tests : Text → List (Option Text))
    → AllOf TakesValues (cons_calls nret csrs csr_tests)
unfolding cons_calls eq_codes
cons_calls-TakesValues nret csrs csr_tests =
    AllOf-append TakesValues _ _
      (AllOf-append TakesValues _ _
        (AllOf-concat_map TakesValues channel_calls (channels_from 0 nret)
          channel_calls-TakesValues)
        (
          two_depths-reset_depth false (codes "hang") none none,
          (two_depths-reset_depth false (codes "cover") none none, tt),
        ))
      (AllOf-concat_map TakesValues _ csrs (λ name.
        AllOf-concat_map TakesValues (λ i. map (csr_call name i) (csr_tests name))
          (channels_from 0 nret)
          (λ i.
            AllOf-map TakesValues (csr_call name i) (csr_tests name)
              (λ test. two_depths-reset_depth false name (some i) (some test)))))
