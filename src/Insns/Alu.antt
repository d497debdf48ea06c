-- ===== src/Insns/Alu.antt =====
-- insns/generate.py, `insn_imm`, `insn_shimm` and `insn_alu`: register and immediate arithmetic.
use riscv_formal.Prelude.{
  ℕ, ◌+◌, ◌-◌, ◌^◌, Bool, true, false, not, ◌&&◌, ◌||◌, ◌==◌, bit_xor, if◌then◌else◌,
}
use riscv_formal.Verilog.{bits, wrap, truth}
use riscv_formal.Insns.Module.{Macros, Circuit, defaults}
use riscv_formal.Insns.Format.{padding, format_r, format_i, format_i_shift}
use riscv_formal.Insns.Wires.{guard_rd, extend_w, result_width}

unfoldable pub insn_imm : ℕ → (Macros → ℕ → ℕ → ℕ) → Bool → ℕ → Circuit
insn_imm funct3 expr wmode misa c i =
    let f = format_i c.xlen i.insn in
    let opcode : ℕ = if wmode then 0b0011011 else 0b0010011 in
    let result = wrap (result_width c wmode) (expr c i.rs1_rdata f.imm) in
    let d = defaults c misa false i in
    record d {
      valid = i.valid && not (truth (padding i.insn)) && f.funct3 == funct3 && f.opcode == opcode;
      rs1_addr = f.rs1;
      rd_addr = f.rd;
      rd_wdata = guard_rd c f.rd (extend_w c wmode result);
      pc_wdata = wrap c.xlen (i.pc_rdata + 4);
    }

-- The flags `wmode` and `uwmode` of `insn_shimm` and `insn_alu`, which exclude one another.
pub data Mode : Type 0 where
  full word unsigned_word : Mode

abbrev pub is_word : Mode → Bool
is_word word = true
is_word _ = false

-- `xtra_shamt_check`
unfoldable pub shamt_check : Macros → Mode → ℕ → Bool
shamt_check c full shamt = not (truth (bits 5 5 shamt)) || c.xlen == 64
shamt_check c word shamt = not (truth (bits 5 5 shamt))
shamt_check c unsigned_word shamt = true

abbrev pub shimm_opcode : Mode → ℕ
shimm_opcode full = 0b0010011
shimm_opcode _ = 0b0011011

abbrev pub alu_opcode : Mode → ℕ
alu_opcode full = 0b0110011
alu_opcode _ = 0b0111011

unfoldable pub insn_shimm : ℕ → ℕ → (Macros → ℕ → ℕ → ℕ) → Mode → ℕ → Circuit
insn_shimm funct6 funct3 expr mode misa c i =
    let f = format_i_shift i.insn in
    let result = wrap (result_width c (is_word mode)) (expr c i.rs1_rdata f.shamt) in
    let d = defaults c misa false i in
    record d {
      valid =
          i.valid
          && not (truth (padding i.insn))
          && f.funct6 == funct6
          && f.funct3 == funct3
          && f.opcode == shimm_opcode mode
          && shamt_check c mode f.shamt;
      rs1_addr = f.rs1;
      rd_addr = f.rd;
      rd_wdata = guard_rd c f.rd (extend_w c (is_word mode) result);
      pc_wdata = wrap c.xlen (i.pc_rdata + 4);
    }

-- The arguments `alt_add` and `alt_sub` of `insn_alu`.
pub data Alt : Type 0 where
  no_alt : Alt
  alt_add : ℕ → Alt
  alt_sub : ℕ → Alt

-- The wire `shamt`, five bits wide unless the operation is 64 bits wide.
unfoldable pub alu_shamt : Macros → Mode → ℕ → ℕ
alu_shamt c mode rs2 = if not (is_word mode) && c.xlen == 64 then bits 5 0 rs2 else bits 4 0 rs2

-- The wire `result`: `expr` is given the operands and `shamt`. Under `RISCV_FORMAL_ALTOPS` an
-- instruction with a replacement computes that.
unfoldable pub alu_result : Macros → Mode → Alt → (Macros → ℕ → ℕ → ℕ → ℕ) → ℕ → ℕ → ℕ
alu_result c mode alt expr rs1 rs2 =
    let w = result_width c (is_word mode) in
    let plain = wrap w (expr c rs1 rs2 (alu_shamt c mode rs2)) in
    elim alt [
      | no_alt ↦ plain
      | alt_add m ↦ if c.altops then bit_xor (wrap w (rs1 + rs2)) (wrap w m) else plain
      | alt_sub m ↦ if c.altops then bit_xor (wrap w (rs1 + 2 ^ c.xlen - rs2)) (wrap w m) else plain
    ]

unfoldable pub insn_alu : ℕ → ℕ → (Macros → ℕ → ℕ → ℕ → ℕ) → Alt → Mode → ℕ → Circuit
insn_alu funct7 funct3 expr alt mode misa c i =
    let f = format_r i.insn in
    let result = alu_result c mode alt expr i.rs1_rdata i.rs2_rdata in
    let d = defaults c misa false i in
    record d {
      valid =
          i.valid
          && not (truth (padding i.insn))
          && f.funct7 == funct7
          && f.funct3 == funct3
          && f.opcode == alu_opcode mode;
      rs1_addr = f.rs1;
      rs2_addr = f.rs2;
      rd_addr = f.rd;
      rd_wdata = guard_rd c f.rd (extend_w c (is_word mode) result);
      pc_wdata = wrap c.xlen (i.pc_rdata + 4);
    }
