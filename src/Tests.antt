-- ===== src/Tests.antt =====
-- Inputs on which the theorems are applied, and runs of the instruction models.
use riscv_formal.Prelude.{
  ◌-◌, ◌%◌, ◌^◌, ◌<◌, ◌≤◌, ◌≡◌, refl, ◌⊎◌, inl, inr, true, false, List, [], ◌∷◌, some, arith,
}
use riscv_formal.Verilog.{bit}
use riscv_formal.Insns.Module.{Macros, Rvfi, misa_ok, ialign16}
use riscv_formal.Insns.Mnemonic.{Mnemonic}
use riscv_formal.Insns.Table.{model}
use riscv_formal.Verilog
use riscv_formal.Insns.Base
use riscv_formal.Insns.Alu
use riscv_formal.Insns.Wires
use riscv_formal.Insns.Format
use riscv_formal.Insns.Bitmanip.{
  leading, trailing, count_loop, bytewise, bytes_result, zip_result, unzip_result,
}
use riscv_formal.Insns.Expr.{rev8_byte}
use riscv_formal.Isa.Database.{codes}
use riscv_formal.Isa.Model.{listing, no_insn, isa_model, Has}
use riscv_formal.Isa.Decode.{decode_unique}
use riscv_formal.Isa.Select.{isa_model-select, isa_model_order}
use riscv_formal.Ports.Defs.{IsWellFormed}
use riscv_formal.Ports.All.{model-IsWellFormed}
use riscv_formal.Ports.Traps.{misa_mask, model-trap}
use riscv_formal.Ports.Next.{model-pc_wdata}
use riscv_formal.Semantics.Permute.{rev8_involutive, unzip-zip}
use riscv_formal.Insns.MemoryC
use riscv_formal.Insns.FormatC
use riscv_formal.Expansion.Effect.{SameEffect, at_word}
use riscv_formal.Expansion.Names
use riscv_formal.Expansion.Table.{short-SameEffect}
use riscv_formal.Expansion.Manual.{expand}
use riscv_formal.Semantics.Counting.{trailing_count, leading_count}

-- A 32-bit core with compressed instructions and aligned memory; a division by zero gives 0.
abbrev rv32 : Macros
rv32 = record {
  xlen = 32;
  ilen = 32;
  aligned_mem = true;
  compressed = true;
  csr_misa = false;
  altops = false;
  div_by_zero = λ n. 0;
  mod_by_zero = λ n. 0;
}

-- The same core with a `misa` register.
abbrev rv32_misa : Macros
rv32_misa = record rv32 { csr_misa = true }

-- `addi x1, x2, 5` at 0x100 with 7 in x2.
abbrev addi_input : Rvfi
addi_input = record {
  valid = true;
  insn = 0x00510093;
  pc_rdata = 0x100;
  rs1_rdata = 7;
  rs2_rdata = 0;
  mem_rdata = 0;
  csr_misa_rdata = 0;
}

-- `mul x1, x2, x3` on a core whose `misa` register is 0.
abbrev mul_input : Rvfi
mul_input = record addi_input { insn = 0x023100b3; rs2_rdata = 6 }

-- `jal x1, 16`
abbrev jal_input : Rvfi
jal_input = record addi_input { insn = 0x010000ef }

addi_result : (model Mnemonic.addi rv32 addi_input).rd_wdata ≡ 12
unfolding model Alu.insn_imm Wires.guard_rd Format.format_i Wires.extend_w Verilog.sext
    Wires.result_width
addi_result = refl

addi_valid : (model Mnemonic.addi rv32 addi_input).valid ≡ true
unfolding model Alu.insn_imm Format.padding Format.format_i
addi_valid = refl

mul_result : (model Mnemonic.mul rv32 mul_input).rd_wdata ≡ 42
unfolding model Alu.insn_alu Wires.guard_rd Format.format_r Wires.extend_w Alu.alu_result
    Wires.result_width
mul_result = refl

mul_missing : misa_ok rv32_misa (misa_mask Mnemonic.mul) mul_input ≡ false
unfolding misa_ok misa_mask
mul_missing = refl

jal_target : (model Mnemonic.jal rv32 jal_input).pc_wdata ≡ 0x110
unfolding model Base.insn_jal Format.format_uj Verilog.sext
jal_target = refl

jal_quiet : (model Mnemonic.jal rv32 jal_input).trap ≡ false
unfolding model Base.insn_jal Format.format_uj Verilog.sext Wires.misaligned ialign16 misa_ok
jal_quiet = refl

abbrev rv32i : List Mnemonic
rv32i =
    Mnemonic.add ∷ Mnemonic.addi ∷ Mnemonic.and ∷ Mnemonic.andi ∷ Mnemonic.auipc ∷ Mnemonic.beq
    ∷ Mnemonic.bge ∷ Mnemonic.bgeu ∷ Mnemonic.blt ∷ Mnemonic.bltu ∷ Mnemonic.bne ∷ Mnemonic.jal
    ∷ Mnemonic.jalr ∷ Mnemonic.lb ∷ Mnemonic.lbu ∷ Mnemonic.lh ∷ Mnemonic.lhu ∷ Mnemonic.lui
    ∷ Mnemonic.lw ∷ Mnemonic.or ∷ Mnemonic.ori ∷ Mnemonic.sb ∷ Mnemonic.sh ∷ Mnemonic.sll
    ∷ Mnemonic.slli ∷ Mnemonic.slt ∷ Mnemonic.slti ∷ Mnemonic.sltiu ∷ Mnemonic.sltu ∷ Mnemonic.sra
    ∷ Mnemonic.srai ∷ Mnemonic.srl ∷ Mnemonic.srli ∷ Mnemonic.sub ∷ Mnemonic.sw ∷ Mnemonic.xor
    ∷ Mnemonic.xori ∷ []

listing-rv32i : listing (codes "rv32i") ≡ some rv32i
unfolding listing
listing-rv32i = refl

addi-Has : Has Mnemonic.addi rv32i
addi-Has = inr (inl refl)

decode_unique_example : Mnemonic.addi ≡ Mnemonic.addi
decode_unique_example =
    decode_unique rv32 addi_input (codes "rv32i") Mnemonic.addi Mnemonic.addi listing-rv32i addi-Has
      addi-Has addi_valid addi_valid

isa_model-select_example :
    ((m : Mnemonic)
      → Has m rv32i
      → (model m rv32 addi_input).valid ≡ true
      → isa_model rv32i rv32 addi_input ≡ model m rv32 addi_input)
    × (((m : Mnemonic) → Has m rv32i → (model m rv32 addi_input).valid ≡ false)
        → isa_model rv32i rv32 addi_input ≡ no_insn)
isa_model-select_example = isa_model-select rv32 addi_input (codes "rv32i") listing-rv32i

again-Has : (m : Mnemonic) → Has m (Mnemonic.addi ∷ rv32i) → Has m rv32i
again-Has m (inl e) = inr (inl e)
again-Has m (inr p) = p

isa_model_order_example :
    isa_model (Mnemonic.addi ∷ rv32i) rv32 addi_input ≡ isa_model rv32i rv32 addi_input
isa_model_order_example =
    isa_model_order rv32 addi_input (codes "rv32i") (Mnemonic.addi ∷ rv32i) listing-rv32i
      (λ m p. inr p) again-Has

model-IsWellFormed_example : IsWellFormed rv32 (model Mnemonic.addi rv32 addi_input)
model-IsWellFormed_example = model-IsWellFormed Mnemonic.addi rv32 addi_input

model-trap_example : (model Mnemonic.mul rv32_misa mul_input).trap ≡ true
model-trap_example = model-trap Mnemonic.mul rv32_misa mul_input mul_missing

model-pc_wdata_example : (model Mnemonic.jal rv32 jal_input).pc_wdata % 2 ≡ 0
model-pc_wdata_example = model-pc_wdata Mnemonic.jal rv32 jal_input (omega arith) refl jal_quiet

rev8_involutive_example :
    bytes_result (bytewise rev8_byte) 4 (bytes_result (bytewise rev8_byte) 4 0x12345678)
    ≡ 0x12345678
rev8_involutive_example = rev8_involutive 4 0x12345678 (omega arith)

unzip-zip_example : unzip_result 16 (zip_result 16 0x12345678) ≡ 0x12345678
unzip-zip_example = unzip-zip 16 0x12345678 (omega arith)

trailing_count_example :
    (((count_loop trailing 32 24).0 ≡ 32) × (24 % 2 ^ 32 ≡ 0))
    ⊎ (((count_loop trailing 32 24).0 < 32)
        × (bit (count_loop trailing 32 24).0 24 ≡ 1)
        × (24 % 2 ^ (count_loop trailing 32 24).0 ≡ 0))
trailing_count_example = trailing_count 32 24

leading_count_example :
    (((count_loop leading 32 24).0 ≡ 32) × (24 % 2 ^ 32 ≡ 0))
    ⊎ (((count_loop leading 32 24).0 < 32)
        × (2 ^ (32 - (count_loop leading 32 24).0 - 1) ≤ 24 % 2 ^ 32)
        × (24 % 2 ^ 32 < 2 ^ (32 - (count_loop leading 32 24).0)))
leading_count_example = leading_count 32 24

-- `c.lw x8, 4(x9)`
abbrev c_lw_input : Rvfi
c_lw_input = record addi_input { insn = 0x40c0; rs1_rdata = 0x100; mem_rdata = 0x12345678 }

c_lw_valid : (model Mnemonic.c_lw rv32 c_lw_input).valid ≡ true
unfolding model MemoryC.insn_c_l MemoryC.load_c FormatC.padding_c FormatC.format_cl
c_lw_valid = refl

short-SameEffect_example :
    SameEffect
      (model Mnemonic.c_lw rv32 c_lw_input)
      (model Mnemonic.lw rv32 (at_word c_lw_input (expand Names.c_lw 0x40c0)))
short-SameEffect_example = short-SameEffect Names.c_lw rv32 c_lw_input c_lw_valid
