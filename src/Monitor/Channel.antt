-- ===== src/Monitor/Channel.antt =====
-- monitor/generate.py, the block of each channel that compares the RVFI port with the outputs of
-- the ISA module.
use riscv_formal.Prelude.{
  ℕ, zero, suc, ◌+◌, ◌*◌, ◌/◌, ◌%◌, ◌^◌, Bool, true, false, not, ◌&&◌, ◌||◌, ◌==◌, List, [], ◌++◌,
  if◌then◌else◌,
}
use riscv_formal.Verilog.{bit, truth}
use riscv_formal.Insns.Module.{Macros, Rvfi, Spec}
use riscv_formal.Insns.Mnemonic.{Mnemonic}
use riscv_formal.Isa.Model.{isa_model}
use riscv_formal.Monitor.Base.{Retired, error_code, report, final_code}

-- `a != b` on one bit.
abbrev pub differ : Bool → Bool → Bool
differ true b = not b
differ false b = b

-- `x[8*i+7:8*i]`
abbrev pub byte : ℕ → ℕ → ℕ
byte i x = x / 2 ^ (8 * i) % 2 ^ 8

-- The inputs that the instance `ch<n>_isa_spec` is connected to.
abbrev pub to_rvfi : Retired → Rvfi
to_rvfi r = record {
  valid = r.valid;
  insn = r.insn;
  pc_rdata = r.pc_rdata;
  rs1_rdata = r.rs1_rdata;
  rs2_rdata = r.rs2_rdata;
  mem_rdata = r.mem_rdata;
  csr_misa_rdata = 0;
}

-- The outputs of that instance; `ms` is what isa_<name>.txt lists.
unfoldable pub isa_spec : Macros → List Mnemonic → Retired → Spec
isa_spec c ms r = isa_model ms c (to_rvfi r)

-- The tests of registers, pc and trap, codes 1 to 6; option -M leaves out what was loaded.
unfoldable pub field_errors : Bool → ℕ → Retired → Spec → List ℕ
field_errors ignore_mem chidx r s =
    report (differ r.trap s.trap) (error_code chidx 1)
    ++ (report (not (r.rs1_addr == s.rs1_addr) && truth s.rs1_addr) (error_code chidx 2)
        ++ (report (not (r.rs2_addr == s.rs2_addr) && truth s.rs2_addr) (error_code chidx 3)
            ++ (report (not (r.rd_addr == s.rd_addr)) (error_code chidx 4)
                ++ (report
                      (not (r.rd_wdata == s.rd_wdata)
                        && (if ignore_mem then not (truth s.mem_rmask) else true))
                      (error_code chidx 5)
                    ++ report (not (r.pc_wdata == s.pc_wdata)) (error_code chidx 6)))))

-- The tests of n bytes of the memory access from byte i on, codes 10 and 20 for byte 0.
unfoldable pub byte_errors : ℕ → Retired → Spec → ℕ → ℕ → List ℕ
byte_errors chidx r s i zero = []
byte_errors chidx r s i (suc n) =
    report (not (bit i r.mem_rmask == 1) && bit i s.mem_rmask == 1) (error_code chidx (10 + i))
    ++ (report (bit i r.mem_wmask == 1 && not (byte i r.mem_wdata == byte i s.mem_wdata))
          (error_code chidx (20 + i))
        ++ byte_errors chidx r s (i + 1) n)

unfoldable pub mem_errors : ℕ → ℕ → Retired → Spec → List ℕ
mem_errors xlen chidx r s =
    report (not (r.mem_wmask == s.mem_wmask)) (error_code chidx 8)
    ++ (byte_errors chidx r s 0 (xlen / 8)
        ++ report (not (r.mem_addr == s.mem_addr) && (truth r.mem_wmask || truth r.mem_rmask))
            (error_code chidx 7))

-- All reports of a channel in a cycle. `spec_valid` is the first test.
unfoldable pub channel_errors : Bool → ℕ → ℕ → Bool → Retired → Spec → List ℕ
channel_errors ignore_mem xlen chidx reset r s =
    if not reset && r.valid && s.valid
    then field_errors ignore_mem chidx r s ++ (if ignore_mem then [] else mem_errors xlen chidx r s)
    else []

-- The register `ch<n>_errcode` after the edge.
unfoldable pub channel_errcode : Bool → Macros → List Mnemonic → ℕ → Bool → Retired → ℕ
channel_errcode ignore_mem c ms chidx reset r =
    final_code (channel_errors ignore_mem c.xlen chidx reset r (isa_spec c ms r))
