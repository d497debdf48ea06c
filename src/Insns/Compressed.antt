-- ===== src/Insns/Compressed.antt =====
-- insns/generate.py, `insn_c_addi4spn` to `insn_c_mvadd`: the compressed instructions but the
-- loads and stores.
use riscv_formal.Prelude.{ℕ, ◌+◌, Bool, false, not, ◌&&◌, ◌||◌, ◌==◌, bit_and, if◌then◌else◌}
use riscv_formal.Verilog.{bits, wrap, truth}
use riscv_formal.Insns.Module.{Macros, Circuit, misa_ok, defaults}
use riscv_formal.Insns.FormatC.{
  padding_c, format_cr, format_ci, format_ci_sp, format_ci_lui, format_ci_sri, format_ci_sli,
  format_ci_andi, format_cs_alu, format_ciw, format_cb, format_cj,
}
use riscv_formal.Insns.Wires.{guard_rd, clear_low, extend_w, result_width}

unfoldable pub insn_c_addi4spn : ℕ → Circuit
insn_c_addi4spn misa c i =
    let f = format_ciw i.insn in
    let result = i.rs1_rdata + f.imm in
    let d = defaults c misa false i in
    record d {
      valid =
          i.valid
          && not (truth (padding_c i.insn))
          && f.funct3 == 0b000
          && f.opcode == 0b00
          && truth f.imm;
      rs1_addr = 2;
      rd_addr = f.rd;
      rd_wdata = guard_rd c f.rd result;
      pc_wdata = wrap c.xlen (i.pc_rdata + 2);
    }

unfoldable pub insn_c_addi : Bool → ℕ → Circuit
insn_c_addi wmode misa c i =
    let f = format_ci c.xlen i.insn in
    let fits =
      if wmode
      then f.funct3 == 0b001 && f.opcode == 0b01 && not (f.rs1_rd == 0)
      else f.funct3 == 0b000 && f.opcode == 0b01 in
    let result = wrap (result_width c wmode) (i.rs1_rdata + f.imm) in
    let d = defaults c misa false i in
    record d {
      valid = i.valid && not (truth (padding_c i.insn)) && fits;
      rs1_addr = f.rs1_rd;
      rd_addr = f.rs1_rd;
      rd_wdata = guard_rd c f.rs1_rd (extend_w c wmode result);
      pc_wdata = wrap c.xlen (i.pc_rdata + 2);
    }

unfoldable pub insn_c_jal : ℕ → Bool → ℕ → Circuit
insn_c_jal funct3 link misa c i =
    let f = format_cj c.xlen i.insn in
    let next_pc = wrap c.xlen (i.pc_rdata + f.imm) in
    let d = defaults c misa false i in
    record d {
      valid = i.valid && not (truth (padding_c i.insn)) && f.funct3 == funct3 && f.opcode == 0b01;
      rd_addr = if link then 1 else 0;
      rd_wdata = if link then wrap c.xlen (i.pc_rdata + 2) else 0;
      pc_wdata = next_pc;
    }

unfoldable pub insn_c_li : ℕ → Circuit
insn_c_li misa c i =
    let f = format_ci c.xlen i.insn in
    let d = defaults c misa false i in
    record d {
      valid = i.valid && not (truth (padding_c i.insn)) && f.funct3 == 0b010 && f.opcode == 0b01;
      rd_addr = f.rs1_rd;
      rd_wdata = guard_rd c f.rs1_rd f.imm;
      pc_wdata = wrap c.xlen (i.pc_rdata + 2);
    }

unfoldable pub insn_c_addi16sp : ℕ → Circuit
insn_c_addi16sp misa c i =
    let f = format_ci_sp c.xlen i.insn in
    let result = i.rs1_rdata + f.imm in
    let d = defaults c misa false i in
    record d {
      valid =
          i.valid
          && not (truth (padding_c i.insn))
          && f.funct3 == 0b011
          && f.opcode == 0b01
          && f.rs1_rd == 2
          && truth f.imm;
      rs1_addr = f.rs1_rd;
      rd_addr = f.rs1_rd;
      rd_wdata = guard_rd c f.rs1_rd result;
      pc_wdata = wrap c.xlen (i.pc_rdata + 2);
    }

unfoldable pub insn_c_lui : ℕ → Circuit
insn_c_lui misa c i =
    let f = format_ci_lui c.xlen i.insn in
    let d = defaults c misa false i in
    record d {
      valid =
          i.valid
          && not (truth (padding_c i.insn))
          && f.funct3 == 0b011
          && f.opcode == 0b01
          && not (f.rs1_rd == 2)
          && truth f.imm;
      rd_addr = f.rs1_rd;
      rd_wdata = guard_rd c f.rs1_rd f.imm;
      pc_wdata = wrap c.xlen (i.pc_rdata + 2);
    }

-- `(!insn_shamt[5] || XLEN == 64)` of the compressed shifts.
unfoldable pub shamt_ok : Macros → ℕ → Bool
shamt_ok c shamt = not (truth (bits 5 5 shamt)) || c.xlen == 64

unfoldable pub insn_c_sri : ℕ → (Macros → ℕ → ℕ → ℕ) → ℕ → Circuit
insn_c_sri funct2 expr misa c i =
    let f = format_ci_sri i.insn in
    let result = expr c i.rs1_rdata f.shamt in
    let d = defaults c misa false i in
    record d {
      valid =
          i.valid
          && not (truth (padding_c i.insn))
          && f.funct3 == 0b100
          && f.funct2 == funct2
          && f.opcode == 0b01
          && shamt_ok c f.shamt;
      rs1_addr = f.rs1_rd;
      rd_addr = f.rs1_rd;
      rd_wdata = guard_rd c f.rs1_rd result;
      pc_wdata = wrap c.xlen (i.pc_rdata + 2);
    }

unfoldable pub insn_c_andi : ℕ → Circuit
insn_c_andi misa c i =
    let f = format_ci_andi c.xlen i.insn in
    let result = bit_and i.rs1_rdata f.imm in
    let d = defaults c misa false i in
    record d {
      valid =
          i.valid
          && not (truth (padding_c i.insn))
          && f.funct3 == 0b100
          && f.funct2 == 0b10
          && f.opcode == 0b01;
      rs1_addr = f.rs1_rd;
      rd_addr = f.rs1_rd;
      rd_wdata = guard_rd c f.rs1_rd result;
      pc_wdata = wrap c.xlen (i.pc_rdata + 2);
    }

unfoldable pub insn_c_alu : ℕ → ℕ → (Macros → ℕ → ℕ → ℕ) → Bool → ℕ → Circuit
insn_c_alu funct6 funct2 expr wmode misa c i =
    let f = format_cs_alu i.insn in
    let result = wrap (result_width c wmode) (expr c i.rs1_rdata i.rs2_rdata) in
    let d = defaults c misa false i in
    record d {
      valid =
          i.valid
          && not (truth (padding_c i.insn))
          && f.funct6 == funct6
          && f.funct2 == funct2
          && f.opcode == 0b01;
      rs1_addr = f.rs1_rd;
      rs2_addr = f.rs2;
      rd_addr = f.rs1_rd;
      rd_wdata = guard_rd c f.rs1_rd (extend_w c wmode result);
      pc_wdata = wrap c.xlen (i.pc_rdata + 2);
    }

unfoldable pub insn_c_b : ℕ → (ℕ → Bool) → ℕ → Circuit
insn_c_b funct3 expr misa c i =
    let f = format_cb c.xlen i.insn in
    let next_pc = wrap c.xlen (if expr i.rs1_rdata then i.pc_rdata + f.imm else i.pc_rdata + 2) in
    let d = defaults c misa false i in
    record d {
      valid = i.valid && not (truth (padding_c i.insn)) && f.funct3 == funct3 && f.opcode == 0b01;
      rs1_addr = f.rs1;
      pc_wdata = next_pc;
      trap = truth (bits 0 0 next_pc) || not (misa_ok c misa i);
    }

unfoldable pub insn_c_sli : (Macros → ℕ → ℕ → ℕ) → ℕ → Circuit
insn_c_sli expr misa c i =
    let f = format_ci_sli i.insn in
    let result = expr c i.rs1_rdata f.shamt in
    let d = defaults c misa false i in
    record d {
      valid =
          i.valid
          && not (truth (padding_c i.insn))
          && f.funct3 == 0b000
          && f.opcode == 0b10
          && shamt_ok c f.shamt;
      rs1_addr = f.rs1_rd;
      rd_addr = f.rs1_rd;
      rd_wdata = guard_rd c f.rs1_rd result;
      pc_wdata = wrap c.xlen (i.pc_rdata + 2);
    }

unfoldable pub insn_c_jalr : ℕ → Bool → ℕ → Circuit
insn_c_jalr funct4 link misa c i =
    let f = format_cr i.insn in
    let next_pc = clear_low (wrap c.xlen i.rs1_rdata) in
    let d = defaults c misa false i in
    record d {
      valid =
          i.valid
          && not (truth (padding_c i.insn))
          && f.funct4 == funct4
          && truth f.rs1_rd
          && not (truth f.rs2)
          && f.opcode == 0b10;
      rs1_addr = f.rs1_rd;
      rd_addr = if link then 1 else 0;
      rd_wdata = if link then wrap c.xlen (i.pc_rdata + 2) else 0;
      pc_wdata = next_pc;
      trap = truth (bits 0 0 next_pc) || not (misa_ok c misa i);
    }

unfoldable pub insn_c_mvadd : ℕ → Bool → ℕ → Circuit
insn_c_mvadd funct4 add misa c i =
    let f = format_cr i.insn in
    let result = if add then i.rs1_rdata + i.rs2_rdata else i.rs2_rdata in
    let d = defaults c misa false i in
    record d {
      valid =
          i.valid
          && not (truth (padding_c i.insn))
          && f.funct4 == funct4
          && truth f.rs2
          && f.opcode == 0b10;
      rs1_addr = if add then f.rs1_rd else 0;
      rs2_addr = f.rs2;
      rd_addr = f.rs1_rd;
      rd_wdata = guard_rd c f.rs1_rd result;
      pc_wdata = wrap c.xlen (i.pc_rdata + 2);
    }
