-- ===== src/Insns/Memory.antt =====
-- insns/generate.py, `insn_l`, `insn_s` and `insn_amo`: loads, stores and atomics.
use riscv_formal.Prelude.{ℕ, ◌+◌, ◌*◌, Bool, false, not, ◌&&◌, ◌||◌, ◌==◌, if◌then◌else◌}
use riscv_formal.Verilog.{wrap, truth, sext, shl, shr}
use riscv_formal.Insns.Module.{Macros, Circuit, misa_ok, defaults}
use riscv_formal.Insns.Format.{padding, format_i, format_s, format_ra}
use riscv_formal.Insns.Wires.{guard_rd, word_addr, word_offset, byte_mask, crosses, extend}

-- The two texts of a load, with and without `RISCV_FORMAL_ALIGNED_MEM`; the second does not test
-- `insn_padding`.
unfoldable pub insn_l : ℕ → ℕ → Bool → ℕ → Circuit
insn_l funct3 numbytes signext misa c i =
    let f = format_i c.xlen i.insn in
    let addr = wrap c.xlen (i.rs1_rdata + f.imm) in
    let shifted = wrap (8 * numbytes) (shr i.mem_rdata (8 * word_offset c addr)) in
    let direct = wrap (8 * numbytes) i.mem_rdata in
    let d = defaults c misa false i in
    if c.aligned_mem
    then record d {
      valid =
          i.valid && not (truth (padding i.insn)) && f.funct3 == funct3 && f.opcode == 0b0000011;
      rs1_addr = f.rs1;
      rd_addr = f.rd;
      mem_addr = word_addr c addr;
      mem_rmask = byte_mask c numbytes (word_offset c addr);
      rd_wdata = guard_rd c f.rd (extend c signext numbytes shifted);
      pc_wdata = wrap c.xlen (i.pc_rdata + 4);
      trap = crosses numbytes addr || not (misa_ok c misa i);
    }
    else record d {
      valid = i.valid && f.funct3 == funct3 && f.opcode == 0b0000011;
      rs1_addr = f.rs1;
      rd_addr = f.rd;
      mem_addr = addr;
      mem_rmask = byte_mask c numbytes 0;
      rd_wdata = guard_rd c f.rd (extend c signext numbytes direct);
      pc_wdata = wrap c.xlen (i.pc_rdata + 4);
      trap = not (misa_ok c misa i);
    }

unfoldable pub insn_s : ℕ → ℕ → ℕ → Circuit
insn_s funct3 numbytes misa c i =
    let f = format_s c.xlen i.insn in
    let addr = wrap c.xlen (i.rs1_rdata + f.imm) in
    let d = defaults c misa false i in
    if c.aligned_mem
    then record d {
      valid =
          i.valid && not (truth (padding i.insn)) && f.funct3 == funct3 && f.opcode == 0b0100011;
      rs1_addr = f.rs1;
      rs2_addr = f.rs2;
      mem_addr = word_addr c addr;
      mem_wmask = byte_mask c numbytes (word_offset c addr);
      mem_wdata = wrap c.xlen (shl i.rs2_rdata (8 * word_offset c addr));
      pc_wdata = wrap c.xlen (i.pc_rdata + 4);
      trap = crosses numbytes addr || not (misa_ok c misa i);
    }
    else record d {
      valid =
          i.valid && not (truth (padding i.insn)) && f.funct3 == funct3 && f.opcode == 0b0100011;
      rs1_addr = f.rs1;
      rs2_addr = f.rs2;
      mem_addr = addr;
      mem_wmask = byte_mask c numbytes 0;
      mem_wdata = wrap c.xlen i.rs2_rdata;
      pc_wdata = wrap c.xlen (i.pc_rdata + 4);
      trap = not (misa_ok c misa i);
    }

-- `insn_amo` is called by no active line of the script. `expr` is given the memory word and the
-- second operand.
unfoldable pub insn_amo : ℕ → ℕ → (Macros → ℕ → ℕ → ℕ) → ℕ → Circuit
insn_amo funct5 funct3 expr misa c i =
    let f = format_ra i.insn in
    let numbytes : ℕ = if funct3 == 0b010 then 4 else 8 in
    let mem_result = wrap (8 * numbytes) (expr c i.mem_rdata i.rs2_rdata) in
    let reg_result = wrap (8 * numbytes) i.mem_rdata in
    let addr = wrap c.xlen i.rs1_rdata in
    let offset = if c.aligned_mem then word_offset c addr else 0 in
    let d = defaults c misa false i in
    record d {
      valid =
          i.valid
          && not (truth (padding i.insn))
          && f.funct5 == funct5
          && f.funct3 == funct3
          && f.opcode == 0b0101111;
      rs1_addr = f.rs1;
      rs2_addr = f.rs2;
      rd_addr = f.rd;
      rd_wdata = guard_rd c f.rd (sext (8 * numbytes) c.xlen reg_result);
      mem_addr = if c.aligned_mem then word_addr c addr else addr;
      mem_wmask = byte_mask c numbytes offset;
      mem_wdata = wrap c.xlen (shl mem_result (8 * offset));
      pc_wdata = wrap c.xlen (i.pc_rdata + 4);
      trap = crosses numbytes addr || not (misa_ok c misa i);
    }
