-- ===== src/Monitor/Tests.antt =====
-- Runs of the monitor on small inputs, and the theorems about it at these inputs.
use mathlib.Core.List.{cons≢nil}
use riscv_formal.Prelude.{
  ℕ, ◌+◌, ◌≡◌, refl, ◌↔◌, ◌⊎◌, inl, inr, true, false, List, [], ◌∷◌, Option, none, some, map, arith,
}
use riscv_formal.Isa.Database.{codes, eq_codes, starts_with}
use riscv_formal.Insns.Mnemonic.{Mnemonic}
use riscv_formal.Insns.Module.{Macros}
use riscv_formal.Monitor.Base.{Retired}
use riscv_formal.Monitor.Channel.{isa_spec, channel_errcode}
use riscv_formal.Monitor.Agreement.{Agrees, channel_errcode-zero}
use riscv_formal.Monitor.Rob
use riscv_formal.Monitor.Rob.{Entry, Rob, rob_run, rob_step}
use riscv_formal.Monitor.Order.{Consecutive, AllOf}
use riscv_formal.Monitor.Deliver.{AllZero, Among, arrived, reset_state, rob_run-in_order}
use riscv_formal.Monitor.Keep.{Holds}
use riscv_formal.Monitor.Complete.{rob_run_complete}
use riscv_formal.Monitor.Progress.{take, held, rob_step-delivers}
use riscv_formal.Monitor.Reordered.{Reordered, rob_data, rob_wires}
use riscv_formal.Monitor.Carry.{reordered, rob_wires-rob_data}
use riscv_formal.Monitor.Pc.{PcShadow, pc_step, pc_run}
use riscv_formal.Monitor.Predict.{NoTrap, OnlyMismatch, pc_step-codes}
use riscv_formal.Monitor.Chain.{Chained, retired, pc_run-Chained}
use riscv_formal.Monitor.Regs.{RegShadow, reg_step, reg_run}
use riscv_formal.Monitor.Consistent.{Consistent, reg_run-Consistent}
use riscv_formal.Monitor.Rewrite.{
  Text, print_rewrite_file, expected_flags, directive, split, rewrite, excluded, flip_flag,
  delete_flag, replace_names, replace,
}
use riscv_formal.Monitor.Conditional.{Source, done, line, cond, cond_else, kept, Scoped}
use riscv_formal.Monitor.Replaced.{ReplacedAll, NoEmptyKey}
use riscv_formal.Monitor.Rewritten.{
  lines_of, IsSource, is_defined, Related, print_rewrite_file-kept,
}
use riscv_formal.Monitor.Options.{default_settings, monitor_macros}
use riscv_formal.Monitor.Top.{Monitor, monitor_step}
use riscv_formal.Monitor.Quiet.{Correct, monitor_step-quiet}

-- `addi x1, x2, 5` at 0x100 with 7 in x2.
abbrev first : Retired
first = record {
  valid = true;
  order = 0;
  insn = 0x00510093;
  trap = false;
  intr = false;
  rs1_addr = 2;
  rs2_addr = 0;
  rs1_rdata = 7;
  rs2_rdata = 0;
  rd_addr = 1;
  rd_wdata = 12;
  pc_rdata = 0x100;
  pc_wdata = 0x104;
  mem_addr = 0;
  mem_rmask = 0;
  mem_wmask = 0;
  mem_rdata = 0;
  mem_wdata = 0;
}

-- `addi x1, x1, 5` after it.
abbrev second : Retired
second = record first {
  order = 1;
  insn = 0x00508093;
  rs1_addr = 1;
  rs1_rdata = 12;
  rd_wdata = 17;
  pc_rdata = 0x104;
  pc_wdata = 0x108;
}

abbrev macros : Macros
macros = monitor_macros (λ n. 0) (λ n. 0) default_settings 32

abbrev insns : List Mnemonic
insns = Mnemonic.addi ∷ []

channel_errcode-zero_example : (channel_errcode false macros insns 0 false first ≡ 0) ↔ (
    false ≡ false
    → true ≡ true
    → (isa_spec macros insns first).valid ≡ true
    → Agrees false 32 first (isa_spec macros insns first))
channel_errcode-zero_example =
    channel_errcode-zero false macros insns 0 false first (omega arith) (omega arith)

abbrev blank : Rob
blank = record { buffer = λ k. record { order = 0; payload = 0 }; valid = λ k. false; cursor = 0 }

abbrev entry : ℕ → Entry
entry n = record { order = n; payload = 100 + n }

-- Two channels: order 1 comes before order 0.
abbrev cycles : List (List (Option Entry))
cycles =
    (none ∷ some (entry 1) ∷ [])
    ∷ (some (entry 0) ∷ some (entry 2) ∷ [])
    ∷ (none ∷ none ∷ [])
    ∷ (none ∷ none ∷ [])
    ∷ []

cycles_delivered : (rob_run 2 (reset_state 2 blank) cycles).1 ≡ entry 0 ∷ entry 1 ∷ entry 2 ∷ []
unfolding rob_run rob_step Rob.rob_inputs Rob.rob_outputs
cycles_delivered = refl

cycles_errors : AllZero (rob_run 2 (reset_state 2 blank) cycles).2
unfolding rob_run rob_step Rob.rob_inputs Rob.rob_outputs
cycles_errors = (refl, (refl, (refl, (refl, tt))))

rob_run-in_order_example :
    Consecutive 0 (rob_run 2 (reset_state 2 blank) cycles).1
    × AllOf (λ e. Among e (arrived cycles)) (rob_run 2 (reset_state 2 blank) cycles).1
rob_run-in_order_example = rob_run-in_order 2 blank cycles cycles_errors

rob_run_complete_example :
    Among (entry 2) (rob_run 2 (reset_state 2 blank) cycles).1
    ⊎ Holds (rob_run 2 (reset_state 2 blank) cycles).0 (entry 2)
rob_run_complete_example =
    rob_run_complete 2 (reset_state 2 blank) cycles (entry 2) cycles_errors
      ((tt, tt), (((refl, tt), (tt, tt)), (tt, (tt, tt)))) (inr (inr (inl refl)))

abbrev filled : Rob
filled = record { buffer = entry; valid = λ k. true; cursor = 1 }

rob_step-delivers_example :
    take 2 (rob_step 2 false (none ∷ none ∷ []) filled).1 ≡ map some (held 2 filled 1 2)
rob_step-delivers_example =
    rob_step-delivers 2 (none ∷ none ∷ []) filled 2 (omega arith) (refl, (refl, tt))

rob_wires-rob_data_example : rob_wires 32 (rob_data 32 second) ≡ reordered second
rob_wires-rob_data_example = rob_wires-rob_data 32 second (
  omega arith,
  omega arith,
  omega arith,
  omega arith,
  omega arith,
  omega arith,
  omega arith,
  omega arith,
)

abbrev unknown_pc : PcShadow
unknown_pc = record { valid = false; trap = true; pc = 0 }

abbrev trapped : Reordered
trapped = record (reordered second) { trap = true }

pc_step-codes_example :
    NoTrap (pc_step false (some (reordered first) ∷ some trapped ∷ []) unknown_pc).0
    × OnlyMismatch 0 (pc_step false (some (reordered first) ∷ some trapped ∷ []) unknown_pc).1
pc_step-codes_example =
    pc_step-codes false (some (reordered first) ∷ some trapped ∷ []) unknown_pc refl

abbrev two_cycles : List (List (Option Reordered))
two_cycles =
    (some (reordered first) ∷ some (reordered second) ∷ []) ∷ (some trapped ∷ none ∷ []) ∷ []

pc_run-Chained_example :
    AllZero (pc_run (pc_step true [] unknown_pc).0 two_cycles).1 ↔ Chained (retired two_cycles)
pc_run-Chained_example =
    pc_run-Chained unknown_pc two_cycles
      (omega arith, (false, (refl, (refl, tt))), (omega arith, (true, (refl, tt)), tt))

abbrev unknown_xregs : RegShadow
unknown_xregs = record { valid = λ k. true; xregs = λ k. 1 }

reg_run-Consistent_example :
    AllZero (reg_run (reg_step true [] unknown_xregs).0 two_cycles).1
    ↔ Consistent [] (retired two_cycles)
reg_run-Consistent_example =
    reg_run-Consistent unknown_xregs two_cycles (omega arith, (omega arith, tt))

-- The module of an instruction gets another name.
abbrev renamed : List (Text × Text)
renamed = (codes "insn_add", codes "new_insn") ∷ (codes "`spec", codes "s") ∷ []

-- The lines of an instruction that is for compressed instructions only.
abbrev file : Source
file = line (codes "insn_add `spec insn_addi;\n") (
    cond_else false (codes "RISCV_FORMAL_COMPRESSED") (line (codes "a\n") done)
      (cond true (codes "RISCV_FORMAL_ALIGNED_MEM") (line (codes "b\n") done)
        (line (codes "`specc\n") done))
      (line (codes "d\n") done))

file_printed :
    print_rewrite_file true false renamed (lines_of file [])
    ≡ some (codes "new_insn s new_insni;\n" ∷ codes "sc\n" ∷ codes "d\n" ∷ [])
unfolding print_rewrite_file expected_flags directive starts_with split eq_codes rewrite excluded
    flip_flag delete_flag replace_names replace
file_printed = refl

file-IsSource : IsSource file
unfolding starts_with
file-IsSource = (
  (refl, refl, refl, refl),
  (
    refl,
    ((refl, refl, refl, refl), tt),
    (refl, ((refl, refl, refl, refl), tt), ((refl, refl, refl, refl), tt)),
    ((refl, refl, refl, refl), tt),
  ),
)

file-Scoped : Scoped [] file
unfolding eq_codes
file-Scoped = (refl, tt, (refl, tt, tt), tt)

renamed-NoEmptyKey : NoEmptyKey renamed
renamed-NoEmptyKey = ((λ e. cons≢nil e), ((λ e. cons≢nil e), tt))

print_rewrite_file-kept_example :
    (out : List Text) × (print_rewrite_file true false renamed (lines_of file []) ≡ some out)
    × Related (ReplacedAll renamed) (kept (is_defined true false) file) out
print_rewrite_file-kept_example =
    print_rewrite_file-kept true false renamed file renamed-NoEmptyKey file-IsSource file-Scoped

abbrev monitor : Monitor
monitor = record {
  ch_errcodes = [];
  rob = blank;
  rob_outs = [];
  rob_errcode = 0;
  pc = unknown_pc;
  pc_errcodes = [];
  xregs = unknown_xregs;
  reg_errcodes = [];
  errcode = 0;
}

monitor_step-quiet_example :
    ((monitor_step default_settings 8 macros insns false
        (second ∷ [])
        (monitor_step default_settings 8 macros insns false (first ∷ []) monitor)).errcode
      ≡ 0)
    ↔ (AllOf (Correct default_settings macros insns) (first ∷ [])
        × ((monitor_step default_settings 8 macros insns false (first ∷ []) monitor).rob_errcode
            ≡ 0)
        × AllZero
            (monitor_step default_settings 8 macros insns false (first ∷ []) monitor).pc_errcodes
        × AllZero
            (monitor_step default_settings 8 macros insns false (first ∷ []) monitor).reg_errcodes)
monitor_step-quiet_example =
    monitor_step-quiet default_settings 8 macros insns (first ∷ []) (second ∷ []) monitor
      (omega arith) (omega arith)
