-- ===== src/Insns/Base.antt =====
-- insns/generate.py, `insn_lui` to `insn_b`: upper immediates, jumps and branches. `expr` is the
-- Verilog text that a generator is given, as a function of the wires that the text may name.
use riscv_formal.Prelude.{ℕ, ◌+◌, Bool, true, false, not, ◌&&◌, ◌||◌, ◌==◌, if◌then◌else◌}
use riscv_formal.Verilog.{wrap, truth}
use riscv_formal.Insns.Module.{Macros, Circuit, misa_ok, defaults}
use riscv_formal.Insns.Format.{padding, format_i, format_sb, format_u, format_uj}
use riscv_formal.Insns.Wires.{guard_rd, misaligned, clear_low}

unfoldable pub insn_lui : ℕ → Circuit
insn_lui misa c i =
    let f = format_u c.xlen i.insn in
    let d = defaults c misa false i in
    record d {
      valid = i.valid && not (truth (padding i.insn)) && f.opcode == 0b0110111;
      rd_addr = f.rd;
      rd_wdata = guard_rd c f.rd f.imm;
      pc_wdata = wrap c.xlen (i.pc_rdata + 4);
    }

unfoldable pub insn_auipc : ℕ → Circuit
insn_auipc misa c i =
    let f = format_u c.xlen i.insn in
    let d = defaults c misa false i in
    record d {
      valid = i.valid && not (truth (padding i.insn)) && f.opcode == 0b0010111;
      rd_addr = f.rd;
      rd_wdata = guard_rd c f.rd (i.pc_rdata + f.imm);
      pc_wdata = wrap c.xlen (i.pc_rdata + 4);
    }

unfoldable pub insn_jal : ℕ → Circuit
insn_jal misa c i =
    let f = format_uj c.xlen i.insn in
    let next_pc = wrap c.xlen (i.pc_rdata + f.imm) in
    let d = defaults c misa true i in
    record d {
      valid = i.valid && not (truth (padding i.insn)) && f.opcode == 0b1101111;
      rd_addr = f.rd;
      rd_wdata = guard_rd c f.rd (i.pc_rdata + 4);
      pc_wdata = next_pc;
      trap = misaligned c i next_pc || not (misa_ok c misa i);
    }

unfoldable pub insn_jalr : ℕ → Circuit
insn_jalr misa c i =
    let f = format_i c.xlen i.insn in
    let next_pc = clear_low (wrap c.xlen (i.rs1_rdata + f.imm)) in
    let d = defaults c misa true i in
    record d {
      valid = i.valid && not (truth (padding i.insn)) && f.funct3 == 0b000 && f.opcode == 0b1100111;
      rs1_addr = f.rs1;
      rd_addr = f.rd;
      rd_wdata = guard_rd c f.rd (i.pc_rdata + 4);
      pc_wdata = next_pc;
      trap = misaligned c i next_pc || not (misa_ok c misa i);
    }

unfoldable pub insn_b : ℕ → (Macros → ℕ → ℕ → Bool) → ℕ → Circuit
insn_b funct3 expr misa c i =
    let f = format_sb c.xlen i.insn in
    let taken = expr c i.rs1_rdata i.rs2_rdata in
    let next_pc = wrap c.xlen (if taken then i.pc_rdata + f.imm else i.pc_rdata + 4) in
    let d = defaults c misa true i in
    record d {
      valid =
          i.valid && not (truth (padding i.insn)) && f.funct3 == funct3 && f.opcode == 0b1100011;
      rs1_addr = f.rs1;
      rs2_addr = f.rs2;
      pc_wdata = next_pc;
      trap = misaligned c i next_pc || not (misa_ok c misa i);
    }
