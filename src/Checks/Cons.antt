-- ===== src/Checks/Cons.antt =====
-- checks/genchecks.py, check_cons: the names, the depths and the mode of a consistency check, and the
-- calls of it. `none` is an assertion or an exception of the script.
use riscv_formal.Prelude.{
  ℕ, zero, suc, Bool, true, false, ◌||◌, ◌==◌, List, [], ◌∷◌, ◌++◌, Option, none, some,
  if◌then◌else◌,
}
use riscv_formal.Isa.Database.{codes, eq_codes, starts_with}
use riscv_formal.Monitor.Rewrite.{Text, replace}
use riscv_formal.Checks.Strings.{lstrip, rstrip}
use riscv_formal.Checks.Config.{Config}
use riscv_formal.Checks.Select.{Library, get_depth_cfg, test_disabled, prefix_of, on_channel}

-- The text before and from the first occurrence of another one, `text.find`.
unfoldable pub break_at : Text → Text → Option (Text × Text)
break_at sub [] = if starts_with sub [] then some ([], []) else none
break_at sub (c ∷ cs) =
    let rest : Option (Text × Text) = elim (break_at sub cs) [
      | none ↦ none
      | some p ↦ some (c ∷ p.0, p.1)
    ] in
    if starts_with sub (c ∷ cs) then some ([], c ∷ cs) else rest

-- `sub in text`
abbrev pub contains : Text → Text → Bool
contains sub cs = elim (break_at sub cs) [ none ↦ false | some p ↦ true ]

abbrev pub quoted : ℕ → Bool
quoted c = c == 34

-- `text.split('=', maxsplit=1)[1].strip('"')`
unfoldable pub value_of : Text → Option Text
value_of [] = none
value_of (c ∷ cs) =
    let later = value_of cs in if c == 61 then some (rstrip quoted (lstrip quoted cs)) else later

-- What the test of a CSR sets: `check` without the prefix, `check_name`, and the values that are
-- printed. `hpmcounter` is added to the set `csrs`.
pub record CsrCheck : Type 0 where
  pub check : Text
  pub check_name : Text
  pub constval : Option Text
  pub hpmevent : Option Text
  pub hpmcounter : Option Text
  pub csr_mask : Option Text

-- A test without its mask.
unfoldable pub csr_check : Text → Text → Option Text → CsrCheck
csr_check csr test mask =
    if starts_with (codes "const") test
    then record {
      check = codes "csrc_const_" ++ csr;
      check_name = codes "csrc_const";
      constval = some (elim (value_of test) [ none ↦ codes "rdata_shadow" | some v ↦ v ]);
      hpmevent = none;
      hpmcounter = none;
      csr_mask = mask;
    }
    else if starts_with (codes "hpm") test
    then record {
      check = codes "csrc_hpm_" ++ csr;
      check_name = codes "csrc_hpm";
      constval = none;
      hpmevent = value_of test;
      hpmcounter = some (replace (codes "event") (codes "counter") 0 csr);
      csr_mask = mask;
    }
    else record {
      check = codes "csrc_" ++ test ++ codes "_" ++ csr;
      check_name = codes "csrc_" ++ test;
      constval = none;
      hpmevent = none;
      hpmcounter = none;
      csr_mask = mask;
    }

-- The block `if csr_mode`, for the CSR and its test.
unfoldable pub parse_test : Text → Option Text → Option CsrCheck
parse_test csr none = some (record {
  check = codes "csrc_" ++ csr;
  check_name = codes "csrc";
  constval = none;
  hpmevent = none;
  hpmcounter = none;
  csr_mask = none;
})
parse_test csr (some test) = elim (break_at (codes "_mask") test) [
  | none ↦ some (csr_check csr test none)
  | some p ↦ elim (value_of (p.1)) [
    | none ↦ none
    | some mask ↦ some (csr_check csr (p.0) (some mask))
  ]
]

-- The arguments of check_cons; `csr_test` is there in csr_mode.
pub record ConsCall : Type 0 where
  pub check : Text
  pub chanidx : Option ℕ
  pub start : Option ℕ
  pub trig : Option ℕ
  pub depth : Option ℕ
  pub csr_test : Option (Option Text)
  pub bus_mode : Bool

-- `hargs["check"]`, `check` and the names to look up its depth by.
pub record ConsNames : Type 0 where
  pub kind : Text
  pub checkch : Text
  pub depth_names : List Text

unfoldable pub cons_names : Text → ConsCall → Option ConsNames
cons_names pf call = elim call.csr_test [
  | some test ↦ elim (parse_test call.check test) [
    | none ↦ none
    | some t ↦ some (csr_names pf t call.chanidx)
  ]
  | none ↦ some (plain_names call.check (pf ++ call.check) call.chanidx)
]
  where
    csr_names : Text → CsrCheck → Option ℕ → ConsNames
    csr_names pf t none = record {
      kind = t.check_name;
      checkch = pf ++ t.check;
      depth_names = t.check_name ∷ (pf ++ t.check) ∷ [];
    }
    csr_names pf t (some n) = record {
      kind = t.check_name;
      checkch = on_channel (pf ++ t.check) n;
      depth_names =
          (pf ++ t.check_name)
          ∷ (pf ++ t.check)
          ∷ on_channel (pf ++ t.check_name) n
          ∷ on_channel (pf ++ t.check) n
          ∷ [];
    }

    plain_names : Text → Text → Option ℕ → ConsNames
    plain_names kind check none = record { kind = kind; checkch = check; depth_names = check ∷ [] }
    plain_names kind check (some n) = record {
      kind = kind;
      checkch = on_channel check n;
      depth_names = check ∷ on_channel check n ∷ [];
    }

-- `depth_cfg[index]`
unfoldable pub get_elem? : List ℕ → ℕ → Option ℕ
get_elem? [] i = none
get_elem? (d ∷ ds) zero = some d
get_elem? (d ∷ ds) (suc i) = get_elem? ds i

-- `if index is not None: index = depth_cfg[index]`
unfoldable pub pick : List ℕ → Option ℕ → Option (Option ℕ)
pick ds none = some none
pick ds (some i) = elim (get_elem? ds i) [ none ↦ none | some d ↦ some (some d) ]

pub record ConsJob : Type 0 where
  pub names : ConsNames
  pub start : ℕ
  pub trig : Option ℕ
  pub depth : ℕ
  pub xmode : Text

-- `hargs["xmode"]`
unfoldable pub xmode_of : Text → Text → Text
xmode_of mode check =
    if eq_codes check (codes "cover") || contains (codes "csrc_hpm") check
    then codes "cover"
    else mode

-- The depths of a check that has some.
unfoldable pub cons_job : Text → ConsCall → ConsNames → List ℕ → Option ConsJob
cons_job mode call names ds = elim (pick ds call.start) [
  | none ↦ none
  | some start ↦ elim (pick ds call.trig) [
    | none ↦ none
    | some trig ↦ elim (pick ds call.depth) [
      | none ↦ none
      | some depth ↦ elim depth [
        | none ↦ none
        | some d ↦ some (record {
          names = names;
          start = elim start [ none ↦ 1 | some n ↦ n ];
          trig = trig;
          depth = d;
          xmode = xmode_of mode names.checkch;
        })
      ]
    ]
  ]
]

-- check_cons up to where it writes a file; `some none` where it returns.
unfoldable pub check_cons :
    Library → Config → Text → Option Text → ConsCall → Option (Option ConsJob)
check_cons lib config mode grp call = elim (cons_names (prefix_of grp) call) [
  | none ↦ none
  | some names ↦ elim (get_depth_cfg lib config names.depth_names) [
    | none ↦ none
    | some cfg ↦ elim cfg [
      | none ↦ some none
      | some ds ↦ elim (cons_job mode call names ds) [
        | none ↦ none
        | some job ↦ elim (test_disabled lib config names.checkch) [
          | none ↦ none
          | some off ↦ some (if off then none else some job)
        ]
      ]
    ]
  ]
]
