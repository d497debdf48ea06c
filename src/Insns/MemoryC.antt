-- ===== src/Insns/MemoryC.antt =====
-- insns/generate.py, `insn_c_l`, `insn_c_s`, `insn_c_lsp` and `insn_c_ssp`: the compressed loads
-- and stores.
use riscv_formal.Prelude.{ℕ, ◌+◌, ◌*◌, Bool, false, not, ◌&&◌, ◌||◌, ◌==◌, if◌then◌else◌}
use riscv_formal.Verilog.{wrap, truth, shl, shr}
use riscv_formal.Insns.Module.{Macros, Rvfi, Spec, Circuit, misa_ok, defaults}
use riscv_formal.Insns.FormatC.{padding_c, format_ci_lsp, format_cl, format_css, format_cs}
use riscv_formal.Insns.Wires.{guard_rd, word_addr, word_offset, byte_mask, crosses, extend}

-- The part that the loads `insn_c_l` and `insn_c_lsp` share once their wires are cut out: base
-- register, destination, offset and the test of the other fields.
unfoldable pub load_c : Macros → ℕ → Rvfi → ℕ → Bool → Bool → ℕ → ℕ → ℕ → Spec
load_c c misa i numbytes signext valid rs1 rd imm =
    let addr = wrap c.xlen (i.rs1_rdata + imm) in
    let shifted = wrap (8 * numbytes) (shr i.mem_rdata (8 * word_offset c addr)) in
    let direct = wrap (8 * numbytes) i.mem_rdata in
    let d = defaults c misa false i in
    if c.aligned_mem
    then record d {
      valid = i.valid && not (truth (padding_c i.insn)) && valid;
      rs1_addr = rs1;
      rd_addr = rd;
      mem_addr = word_addr c addr;
      mem_rmask = byte_mask c numbytes (word_offset c addr);
      rd_wdata = guard_rd c rd (extend c signext numbytes shifted);
      pc_wdata = wrap c.xlen (i.pc_rdata + 2);
      trap = crosses numbytes addr || not (misa_ok c misa i);
    }
    else record d {
      valid = i.valid && not (truth (padding_c i.insn)) && valid;
      rs1_addr = rs1;
      rd_addr = rd;
      mem_addr = addr;
      mem_rmask = byte_mask c numbytes 0;
      rd_wdata = guard_rd c rd (extend c signext numbytes direct);
      pc_wdata = wrap c.xlen (i.pc_rdata + 2);
      trap = not (misa_ok c misa i);
    }

unfoldable pub insn_c_l : ℕ → ℕ → Bool → ℕ → Circuit
insn_c_l funct3 numbytes signext misa c i =
    let f = format_cl numbytes i.insn in
    load_c c misa i numbytes signext (f.funct3 == funct3 && f.opcode == 0b00) f.rs1 f.rd f.imm

-- The part that the stores `insn_c_s` and `insn_c_ssp` share.
unfoldable pub store_c : Macros → ℕ → Rvfi → ℕ → Bool → ℕ → ℕ → ℕ → Spec
store_c c misa i numbytes valid rs1 rs2 imm =
    let addr = wrap c.xlen (i.rs1_rdata + imm) in
    let d = defaults c misa false i in
    if c.aligned_mem
    then record d {
      valid = i.valid && not (truth (padding_c i.insn)) && valid;
      rs1_addr = rs1;
      rs2_addr = rs2;
      mem_addr = word_addr c addr;
      mem_wmask = byte_mask c numbytes (word_offset c addr);
      mem_wdata = wrap c.xlen (shl i.rs2_rdata (8 * word_offset c addr));
      pc_wdata = wrap c.xlen (i.pc_rdata + 2);
      trap = crosses numbytes addr || not (misa_ok c misa i);
    }
    else record d {
      valid = i.valid && not (truth (padding_c i.insn)) && valid;
      rs1_addr = rs1;
      rs2_addr = rs2;
      mem_addr = addr;
      mem_wmask = byte_mask c numbytes 0;
      mem_wdata = wrap c.xlen i.rs2_rdata;
      pc_wdata = wrap c.xlen (i.pc_rdata + 2);
      trap = not (misa_ok c misa i);
    }

unfoldable pub insn_c_s : ℕ → ℕ → ℕ → Circuit
insn_c_s funct3 numbytes misa c i =
    let f = format_cs numbytes i.insn in
    store_c c misa i numbytes (f.funct3 == funct3 && f.opcode == 0b00) f.rs1 f.rs2 f.imm

unfoldable pub insn_c_lsp : ℕ → ℕ → Bool → ℕ → Circuit
insn_c_lsp funct3 numbytes signext misa c i =
    let f = format_ci_lsp numbytes i.insn in
    load_c c misa i numbytes signext (f.funct3 == funct3 && f.opcode == 0b10 && truth f.rd) 2 f.rd
      f.imm

unfoldable pub insn_c_ssp : ℕ → ℕ → ℕ → Circuit
insn_c_ssp funct3 numbytes misa c i =
    let f = format_css numbytes i.insn in
    store_c c misa i numbytes (f.funct3 == funct3 && f.opcode == 0b10) 2 f.rs2 f.imm
