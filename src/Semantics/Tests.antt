-- ===== src/Semantics/Tests.antt =====
-- Inputs on which the theorems about memory and multiplication are applied.
use riscv_formal.Prelude.{
  ℕ, ◌+◌, ◌-◌, ◌*◌, ◌/◌, ◌%◌, ◌^◌, ◌<◌, ◌≡◌, refl, true, false, ◌&&◌, leb, ltb, if◌then◌else◌,
  arith,
}
use riscv_formal.Verilog.{wrap, sext}
use riscv_formal.Insns.Module.{Macros, Rvfi, misa_ok}
use riscv_formal.Insns.Mnemonic.{Mnemonic}
use riscv_formal.Insns.Table.{model}
use riscv_formal.Insns.Alu
use riscv_formal.Insns.Memory.{insn_l, insn_s}
use riscv_formal.Insns.Bitmanip.{assemble}
use riscv_formal.Insns.Wires
use riscv_formal.Insns.Wires.{guard_rd, extend}
use riscv_formal.Insns.Format
use riscv_formal.Semantics.Slots.{slot}
use riscv_formal.Semantics.Memory.{merge_bytes}
use riscv_formal.Semantics.Access.{store_addr, load_addr, store_bytes, store-load}
use riscv_formal.Semantics.Multiply.{mulh-mul, mulhsu-mul, mulhu-mul, divu-remu, div_negative}

-- A 32-bit core with aligned memory; a division by zero gives 0.
abbrev rv32 : Macros
rv32 = record {
  xlen = 32;
  ilen = 32;
  aligned_mem = true;
  compressed = true;
  csr_misa = false;
  altops = false;
  div_by_zero = λ n. 0;
  mod_by_zero = λ n. 0;
}

-- `sh x3, 2(x2)` with 0x100 in x2 and 0x12345678 in x3.
abbrev sh_input : Rvfi
sh_input = record {
  valid = true;
  insn = 0x00311123;
  pc_rdata = 0x200;
  rs1_rdata = 0x100;
  rs2_rdata = 0x12345678;
  mem_rdata = 0;
  csr_misa_rdata = 0;
}

-- `lh x1, 2(x2)` after that store to a word that was 0xaabbccdd.
abbrev lh_input : Rvfi
lh_input = record sh_input { insn = 0x00211083; mem_rdata = 0x5678ccdd }

-- Operations on the words -6 and 4.
abbrev operands : ℕ → Rvfi
operands word = record sh_input { insn = word; rs1_rdata = 2 ^ 32 - 6; rs2_rdata = 4 }

sh_merged :
    lh_input.mem_rdata
    ≡ merge_bytes 4 0xaabbccdd
        (insn_s 0b001 2 0 rv32 sh_input).mem_wmask
        (insn_s 0b001 2 0 rv32 sh_input).mem_wdata
unfolding insn_s merge_bytes assemble Wires.byte_mask Wires.word_offset Format.format_s sext
sh_merged = refl

sh_quiet : (insn_s 0b001 2 0 rv32 sh_input).trap ≡ false
unfolding insn_s Wires.crosses Format.format_s sext misa_ok
sh_quiet = refl

same_addr : load_addr rv32 lh_input ≡ store_addr rv32 sh_input
unfolding Format.format_i Format.format_s sext
same_addr = refl

mul-rd : 0 < (model Mnemonic.mul rv32 (operands 0x023100b3)).rd_addr
unfolding model Alu.insn_alu Format.format_r
mul-rd = omega arith

mulh-rd : 0 < (model Mnemonic.mulh rv32 (operands 0x023110b3)).rd_addr
unfolding model Alu.insn_alu Format.format_r
mulh-rd = omega arith

mulhsu-rd : 0 < (model Mnemonic.mulhsu rv32 (operands 0x023120b3)).rd_addr
unfolding model Alu.insn_alu Format.format_r
mulhsu-rd = omega arith

mulhu-rd : 0 < (model Mnemonic.mulhu rv32 (operands 0x023130b3)).rd_addr
unfolding model Alu.insn_alu Format.format_r
mulhu-rd = omega arith

div-rd : 0 < (model Mnemonic.div rv32 (operands 0x023140b3)).rd_addr
unfolding model Alu.insn_alu Format.format_r
div-rd = omega arith

divu-rd : 0 < (model Mnemonic.divu rv32 (operands 0x023150b3)).rd_addr
unfolding model Alu.insn_alu Format.format_r
divu-rd = omega arith

remu-rd : 0 < (model Mnemonic.remu rv32 (operands 0x023170b3)).rd_addr
unfolding model Alu.insn_alu Format.format_r
remu-rd = omega arith

store_bytes_example :
    let s = insn_s 0b001 2 0 rv32 sh_input in
    let off = store_addr rv32 sh_input % (32 / 8) in
    slot 8 3 (merge_bytes (32 / 8) 0xaabbccdd s.mem_wmask s.mem_wdata)
    ≡ (if leb off 3 && ltb 3 (off + 2) then slot 8 (3 - off) 0x12345678 else slot 8 3 0xaabbccdd)
store_bytes_example = store_bytes 0b001 2 0 rv32 sh_input 0xaabbccdd 3 refl refl (omega arith)

store-load_example :
    let s = insn_s 0b001 2 0 rv32 sh_input in
    let l = insn_l 0b001 2 true 0 rv32 lh_input in
    (l.mem_addr ≡ s.mem_addr)
    × (l.mem_rmask ≡ s.mem_wmask)
    × (l.rd_wdata ≡ guard_rd rv32 l.rd_addr (extend rv32 true 2 (wrap (8 * 2) 0x12345678)))
store-load_example =
    store-load 0b001 0b001 2 0 true rv32 sh_input lh_input 0xaabbccdd 2 refl refl (omega arith)
      (omega arith) refl same_addr sh_quiet sh_merged

mulh-mul_example :
    (model Mnemonic.mulh rv32 (operands 0x023110b3)).rd_wdata * 2 ^ 32
      + (model Mnemonic.mul rv32 (operands 0x023100b3)).rd_wdata
    ≡ wrap (2 * 32) (sext 32 (2 * 32) (2 ^ 32 - 6) * sext 32 (2 * 32) 4)
mulh-mul_example =
    mulh-mul rv32 (operands 0x023100b3) (operands 0x023110b3) refl refl refl mul-rd mulh-rd

mulhsu-mul_example :
    (model Mnemonic.mulhsu rv32 (operands 0x023120b3)).rd_wdata * 2 ^ 32
      + (model Mnemonic.mul rv32 (operands 0x023100b3)).rd_wdata
    ≡ wrap (2 * 32) (sext 32 (2 * 32) (2 ^ 32 - 6) * 4)
mulhsu-mul_example =
    mulhsu-mul rv32 (operands 0x023100b3) (operands 0x023120b3) refl refl refl mul-rd mulhsu-rd

mulhu-mul_example :
    (model Mnemonic.mulhu rv32 (operands 0x023130b3)).rd_wdata * 2 ^ 32
      + (model Mnemonic.mul rv32 (operands 0x023100b3)).rd_wdata
    ≡ (2 ^ 32 - 6) * 4
mulhu-mul_example =
    mulhu-mul rv32 (operands 0x023100b3) (operands 0x023130b3) refl refl refl mul-rd (omega arith)
      (omega arith) mulhu-rd

divu-remu_example :
    let q = (model Mnemonic.divu rv32 (operands 0x023150b3)).rd_wdata in
    let r = (model Mnemonic.remu rv32 (operands 0x023170b3)).rd_wdata in
    (0 < 4 → (2 ^ 32 - 6 ≡ 4 * q + r) × (r < 4))
    × ((operands 0x023150b3).rs2_rdata ≡ 0 → (q ≡ 2 ^ 32 - 1) × (r ≡ 2 ^ 32 - 6))
divu-remu_example =
    divu-remu rv32 (operands 0x023150b3) (operands 0x023170b3) refl refl refl (omega arith) divu-rd
      remu-rd

div_negative_example :
    let q = (model Mnemonic.div rv32 (operands 0x023140b3)).rd_wdata in
    (q ≡ (2 ^ 32 - 6) / 4) × (0 < q) × (q < 2 ^ (32 - 1))
div_negative_example =
    div_negative rv32 (operands 0x023140b3) refl div-rd (omega arith) (omega arith) (omega arith)
      (omega arith)
