-- ===== src/Checks/Schedule.antt =====
-- checks/genchecks.py, the loops that call check_insn and check_cons for a group.
use riscv_formal.Prelude.{
  ℕ, zero, suc, ◌+◌, Bool, true, false, List, [], ◌∷◌, ◌++◌, Option, none, some, map,
}
use riscv_formal.Isa.Database.{codes}
use riscv_formal.Monitor.Rewrite.{Text}
use riscv_formal.Checks.Select.{Target, insn, csr, illegal_csr}
use riscv_formal.Checks.Cons.{ConsCall}

-- The numbers of n channels from i on.
abbrev pub channels_from : ℕ → ℕ → List ℕ
channels_from i zero = []
channels_from i (suc n) = i ∷ channels_from (i + 1) n

abbrev pub concat_map {ℓ} : {A B : Type ℓ} → (A → List B) → List A → List B
concat_map f [] = []
concat_map f (x ∷ xs) = f x ++ concat_map f xs

-- The calls of check_insn, of the listed instructions, the sorted CSRs and the sorted illegal CSRs.
unfoldable pub insn_calls :
    ℕ → List Text → List Text → List (Text × Text × Text) → List (Target × ℕ)
insn_calls nret insns csrs illegal =
    concat_map (λ t. map (λ n. (t, n)) (channels_from 0 nret))
      (map insn insns ++ map csr csrs ++ map (λ i. illegal_csr (i.0) (i.1) (i.2)) illegal)

-- `check_cons(grp, check, chanidx=i, start=0, depth=1)`
abbrev pub two_depths : Bool → Text → Option ℕ → ConsCall
two_depths bus check i = record {
  check = check;
  chanidx = i;
  start = some 0;
  trig = none;
  depth = some 1;
  csr_test = none;
  bus_mode = bus;
}

-- `start=0, trig=1, depth=2`
abbrev pub three_depths : Text → ℕ → ConsCall
three_depths check i = record {
  check = check;
  chanidx = some i;
  start = some 0;
  trig = some 1;
  depth = some 2;
  csr_test = none;
  bus_mode = false;
}

-- `depth=0`
abbrev pub one_depth : Text → ℕ → ConsCall
one_depth check i = record {
  check = check;
  chanidx = some i;
  start = none;
  trig = none;
  depth = some 0;
  csr_test = none;
  bus_mode = false;
}

abbrev pub csr_call : Text → ℕ → Option Text → ConsCall
csr_call name i test = record (two_depths false name (some i)) { csr_test = some test }

unfoldable pub channel_calls : ℕ → List ConsCall
channel_calls i =
    let plain = λ (check : Text). two_depths false check (some i) in
    let bus = λ (check : Text). two_depths true check (some i) in
    plain (codes "reg")
    ∷ plain (codes "pc_fwd")
    ∷ plain (codes "pc_bwd")
    ∷ three_depths (codes "liveness") i
    ∷ three_depths (codes "unique") i
    ∷ plain (codes "causal")
    ∷ plain (codes "causal_mem")
    ∷ plain (codes "causal_io")
    ∷ one_depth (codes "ill") i
    ∷ one_depth (codes "fault") i
    ∷ bus (codes "bus_imem")
    ∷ bus (codes "bus_imem_fault")
    ∷ bus (codes "bus_dmem")
    ∷ bus (codes "bus_dmem_fault")
    ∷ bus (codes "bus_dmem_io_read")
    ∷ bus (codes "bus_dmem_io_read_fault")
    ∷ bus (codes "bus_dmem_io_write")
    ∷ bus (codes "bus_dmem_io_write_fault")
    ∷ bus (codes "bus_dmem_io_order")
    ∷ []

-- The calls of check_cons; `csr_tests` gives the tests of a CSR.
unfoldable pub cons_calls : ℕ → List Text → (Text → List (Option Text)) → List ConsCall
cons_calls nret csrs csr_tests =
    concat_map channel_calls (channels_from 0 nret)
    ++ (two_depths false (codes "hang") none ∷ two_depths false (codes "cover") none ∷ [])
    ++ concat_map
        (λ name. concat_map (λ i. map (csr_call name i) (csr_tests name)) (channels_from 0 nret))
        csrs
