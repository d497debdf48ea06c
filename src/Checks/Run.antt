-- ===== src/Checks/Run.antt =====
-- checks/genchecks.py: what the calls of check_insn and check_cons change, and the run of the script
-- over all groups. `hargs` is one dictionary that every call finds as the calls before it left it.
use riscv_formal.Prelude.{ℕ, true, false, List, [], ◌∷◌, Option, none, some}
use riscv_formal.Isa.Database.{codes}
use riscv_formal.Monitor.Rewrite.{Text, split}
use riscv_formal.Checks.Select.{
  Library, Target, check_insn, get_depth_cfg, test_disabled, prefix_of,
}
use riscv_formal.Checks.Cons.{CsrCheck, ConsCall, ConsNames, parse_test, cons_names, cons_job}
use riscv_formal.Checks.Schedule.{insn_calls, cons_calls}
use riscv_formal.Checks.Csrs.{Illegal, set_key, add_name}
use riscv_formal.Checks.Template.{Hargs}
use riscv_formal.Checks.Sort.{sorted, sort_by}
use riscv_formal.Checks.Hargs.{Setup, set_hargs, initial_hargs}
use riscv_formal.Checks.InsnFile.{target_text, insn_hargs, insn_sby}
use riscv_formal.Checks.ConsFile.{channel_harg, cons_hargs, cons_sby}

-- The variables that change while the files are written, and the files: the name of the check, which
-- is the name of the .sby file, and its lines.
pub record Run : Type 0 where
  pub hargs : Hargs
  pub csrs : List Text
  pub instruction_checks : List Text
  pub consistency_checks : List Text
  pub files : List (Text × List Text)

-- A call of check_insn; `none` is an exception.
unfoldable pub insn_step : Library → Setup → Option Text → Target × ℕ → Run → Option Run
insn_step lib s grp (t, chanidx) r = elim (target_text lib t) [
  | none ↦ none
  | some text ↦ elim (check_insn lib s.config grp t chanidx) [
    | none ↦ none
    | some job ↦ elim job [
      | none ↦ some r
      | some job ↦
          let hargs = insn_hargs text chanidx job r.hargs in
          elim (insn_sby lib s r.csrs hargs t job.checkch) [
            | none ↦ none
            | some lines ↦ some (record r {
              hargs = hargs;
              instruction_checks = add_name job.checkch r.instruction_checks;
              files = set_key job.checkch lines r.files;
            })
          ]
    ]
  ]
]

-- `csrs.add(hpmcounter)`
abbrev pub add_counter : Option Text → List Text → List Text
add_counter none csrs = csrs
add_counter (some counter) csrs = add_name counter csrs

abbrev pub counter_of : Option CsrCheck → Option Text
counter_of none = none
counter_of (some t) = t.hpmcounter

-- `hpmcounter` of a call.
abbrev pub call_counter : ConsCall → Option Text
call_counter call = elim call.csr_test [
  | none ↦ none
  | some test ↦ counter_of (parse_test call.check test)
]

-- What check_cons sets before it looks up the depths.
unfoldable pub named : ConsCall → ConsNames → Run → Run
named call names r = record r {
  hargs = set_hargs ((codes "check", names.kind) ∷ channel_harg call.chanidx) r.hargs;
  csrs = add_counter (call_counter call) r.csrs;
}

-- A call of check_cons from the depths on.
unfoldable pub cons_with_depths :
    Library → Setup → Option Text → ConsCall → ConsNames → List ℕ → Run → Option Run
cons_with_depths lib s grp call names ds r = elim (cons_job s.globals.mode call names ds) [
  | none ↦ none
  | some job ↦
      let t = record r { hargs = cons_hargs job r.hargs } in
      elim (test_disabled lib s.config names.checkch) [
        | none ↦ none
        | some off ↦ elim off [
          | true ↦ some t
          | false ↦ elim (cons_sby lib s t.csrs t.hargs (prefix_of grp) call job) [
            | none ↦ none
            | some lines ↦ some (record t {
              consistency_checks = add_name names.checkch t.consistency_checks;
              files = set_key names.checkch lines t.files;
            })
          ]
        ]
      ]
]

-- A call of check_cons; `none` is an exception.
unfoldable pub cons_step : Library → Setup → Option Text → ConsCall → Run → Option Run
cons_step lib s grp call r = elim (cons_names (prefix_of grp) call) [
  | none ↦ none
  | some names ↦ elim (get_depth_cfg lib s.config names.depth_names) [
    | none ↦ none
    | some cfg ↦ elim cfg [
      | none ↦ some (named call names r)
      | some ds ↦ cons_with_depths lib s grp call names ds (named call names r)
    ]
  ]
]

-- Calls one after another.
abbrev pub steps {ℓ} : {A : Type ℓ} {S : Type 0} → (A → S → Option S) → List A → S → Option S
steps step [] r = some r
steps step (x ∷ xs) r = elim (step x r) [ none ↦ none | some t ↦ steps step xs t ]

-- The illegal CSRs by their address.
abbrev pub sorted_illegal : List Illegal → List Illegal
sorted_illegal = sort_by (λ i. i.0)

-- The calls of check_insn for a group; `insns` is the listing of the ISA, empty where there is none.
unfoldable pub insn_group :
    Library → Setup → List Text → List Illegal → Option Text → Run → Option Run
insn_group lib s insns illegal grp r =
    steps (insn_step lib s grp)
      (insn_calls s.globals.nret insns (sorted r.csrs) (sorted_illegal illegal)) r

-- The calls of check_cons for a group.
unfoldable pub cons_group :
    Library → Setup → (Text → List (Option Text)) → Option Text → Run → Option Run
cons_group lib s csr_tests grp r =
    steps (cons_step lib s grp) (cons_calls s.globals.nret (sorted r.csrs) csr_tests) r

-- `[None]` and the words of [groups].
abbrev pub groups_of : Option Text → List (Option Text)
groups_of none = none ∷ []
groups_of (some body) = none ∷ some_each (split [] body)
  where
    some_each : List Text → List (Option Text)
    some_each [] = []
    some_each (g ∷ gs) = some g ∷ some_each gs

-- All files, from the CSRs of the configuration: first check_insn for every group, then check_cons.
unfoldable pub write_checks :
    Library
    → Setup
    → List (Option Text)
    → List Text
    → List Illegal
    → (Text → List (Option Text))
    → List Text
    → Option Run
write_checks lib s groups insns illegal csr_tests csrs =
    let start : Run = record {
      hargs = initial_hargs s;
      csrs = csrs;
      instruction_checks = [];
      consistency_checks = [];
      files = [];
    } in
    elim (steps (insn_group lib s insns illegal) groups start) [
      | none ↦ none
      | some r ↦ steps (cons_group lib s csr_tests) groups r
    ]
