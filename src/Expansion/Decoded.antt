-- ===== src/Expansion/Decoded.antt =====
-- The fields that the format_c* functions cut out of a 16-bit word are those of the manual.
use riscv_formal.Prelude.{ℕ, ◌+◌, ◌*◌, ◌^◌, ◌≡◌, refl, arith}
use riscv_formal.Verilog.{bits}
use riscv_formal.Insns.FormatC.{
  format_ci_lsp, format_cl, format_css, format_cs, format_cs_alu, format_ci_sri, format_ci_sli,
  format_ciw, format_cr,
}
use riscv_formal.Expansion.Shift.{encode_shift}
use riscv_formal.Expansion.Encode.{encode_r, encode_i, encode_s}
use riscv_formal.Expansion.Names.{
  Short, c_lw, c_ld, c_lwsp, c_ldsp, c_sw, c_sd, c_swsp, c_sdsp, c_sub, c_xor, c_or, c_and, c_subw,
  c_addw, c_addi4spn, c_srli, c_srai, c_slli, c_add,
}
use riscv_formal.Expansion.Manual.{
  scatter, imm_w, imm_d, imm_lwsp, imm_ldsp, imm_swsp, imm_sdsp, imm_addi4spn, shamt_bits,
  upper_register, lower_register, full_rd, full_rs2, expand,
}

-- `l rd', offset(rs1')` and `l rd, offset(x2)`
abbrev load : ℕ → ℕ → ℕ → ℕ
load funct3 numbytes x =
    let f = format_cl numbytes x in
    encode_i (record { imm = f.imm; rs1 = f.rs1; funct3 = funct3; rd = f.rd; opcode = 0b0000011 })

abbrev load_sp : ℕ → ℕ → ℕ → ℕ
load_sp funct3 numbytes x =
    let f = format_ci_lsp numbytes x in
    encode_i (record { imm = f.imm; rs1 = 2; funct3 = funct3; rd = f.rd; opcode = 0b0000011 })

-- `s rs2', offset(rs1')` and `s rs2, offset(x2)`
abbrev store : ℕ → ℕ → ℕ → ℕ
store funct3 numbytes x =
    let f = format_cs numbytes x in
    encode_s (record { imm = f.imm; rs2 = f.rs2; rs1 = f.rs1; funct3 = funct3; opcode = 0b0100011 })

abbrev store_sp : ℕ → ℕ → ℕ → ℕ
store_sp funct3 numbytes x =
    let f = format_css numbytes x in
    encode_s (record { imm = f.imm; rs2 = f.rs2; rs1 = 2; funct3 = funct3; opcode = 0b0100011 })

-- `op rd', rd', rs2'`
abbrev alu : ℕ → ℕ → ℕ → ℕ → ℕ
alu funct7 funct3 opcode x =
    let f = format_cs_alu x in
    encode_r (record {
      funct7 = funct7;
      rs2 = f.rs2;
      rs1 = f.rs1_rd;
      funct3 = funct3;
      rd = f.rs1_rd;
      opcode = opcode;
    })

-- `op rd', rd', shamt`
abbrev shift : ℕ → ℕ → ℕ
shift funct6 x =
    let f = format_ci_sri x in
    encode_shift (record {
      funct6 = funct6;
      shamt = f.shamt;
      rs1 = f.rs1_rd;
      funct3 = 0b101;
      rd = f.rs1_rd;
      opcode = 0b0010011;
    })

-- `slli rd, rd, shamt`
abbrev shift_left : ℕ → ℕ
shift_left x =
    let f = format_ci_sli x in
    encode_shift (record {
      funct6 = 0b000000;
      shamt = f.shamt;
      rs1 = f.rs1_rd;
      funct3 = 0b001;
      rd = f.rs1_rd;
      opcode = 0b0010011;
    })

-- `addi rd', x2, imm`
abbrev add_sp : ℕ → ℕ
add_sp x =
    let f = format_ciw x in
    encode_i (record { imm = f.imm; rs1 = 2; funct3 = 0b000; rd = f.rd; opcode = 0b0010011 })

-- `add rd, rd, rs2`
abbrev add_rd : ℕ → ℕ
add_rd x =
    let f = format_cr x in
    encode_r (record {
      funct7 = 0b0000000;
      rs2 = f.rs2;
      rs1 = f.rs1_rd;
      funct3 = 0b000;
      rd = f.rs1_rd;
      opcode = 0b0110011;
    })

-- The 32-bit word with the fields that the format_c* functions cut out.
abbrev pub decoded : Short → ℕ → ℕ
decoded c_lw x = load 0b010 4 x
decoded c_ld x = load 0b011 8 x
decoded c_lwsp x = load_sp 0b010 4 x
decoded c_ldsp x = load_sp 0b011 8 x
decoded c_sw x = store 0b010 4 x
decoded c_sd x = store 0b011 8 x
decoded c_swsp x = store_sp 0b010 4 x
decoded c_sdsp x = store_sp 0b011 8 x
decoded c_sub x = alu 0b0100000 0b000 0b0110011 x
decoded c_xor x = alu 0b0000000 0b100 0b0110011 x
decoded c_or x = alu 0b0000000 0b110 0b0110011 x
decoded c_and x = alu 0b0000000 0b111 0b0110011 x
decoded c_subw x = alu 0b0100000 0b000 0b0111011 x
decoded c_addw x = alu 0b0000000 0b000 0b0111011 x
decoded c_addi4spn x = add_sp x
decoded c_srli x = shift 0b000000 x
decoded c_srai x = shift 0b010000 x
decoded c_slli x = shift_left x
decoded c_add x = add_rd x

upper_register-bits : (x : ℕ) → upper_register x ≡ 8 + bits 9 7 x
upper_register-bits x = omega arith

lower_register-bits : (x : ℕ) → lower_register x ≡ 8 + bits 4 2 x
lower_register-bits x = omega arith

full_rd-bits : (x : ℕ) → full_rd x ≡ bits 11 7 x
full_rd-bits x = omega arith

full_rs2-bits : (x : ℕ) → full_rs2 x ≡ bits 6 2 x
full_rs2-bits x = omega arith

imm_w-bits :
    (x : ℕ) → scatter imm_w x ≡ bits 5 5 x * 2 ^ 6 + bits 12 10 x * 2 ^ 3 + bits 6 6 x * 2 ^ 2
imm_w-bits x = omega arith

imm_d-bits : (x : ℕ) → scatter imm_d x ≡ bits 6 5 x * 2 ^ 6 + bits 12 10 x * 2 ^ 3
imm_d-bits x = omega arith

imm_lwsp-bits :
    (x : ℕ) → scatter imm_lwsp x ≡ bits 3 2 x * 2 ^ 6 + bits 12 12 x * 2 ^ 5 + bits 6 4 x * 2 ^ 2
imm_lwsp-bits x = omega arith

imm_ldsp-bits :
    (x : ℕ) → scatter imm_ldsp x ≡ bits 4 2 x * 2 ^ 6 + bits 12 12 x * 2 ^ 5 + bits 6 5 x * 2 ^ 3
imm_ldsp-bits x = omega arith

imm_swsp-bits : (x : ℕ) → scatter imm_swsp x ≡ bits 8 7 x * 2 ^ 6 + bits 12 9 x * 2 ^ 2
imm_swsp-bits x = omega arith

imm_sdsp-bits : (x : ℕ) → scatter imm_sdsp x ≡ bits 9 7 x * 2 ^ 6 + bits 12 10 x * 2 ^ 3
imm_sdsp-bits x = omega arith

imm_addi4spn-bits :
    (x : ℕ)
    → scatter imm_addi4spn x
      ≡ bits 10 7 x * 2 ^ 6 + bits 12 11 x * 2 ^ 4 + bits 5 5 x * 2 ^ 3 + bits 6 6 x * 2 ^ 2
imm_addi4spn-bits x = omega arith

shamt_bits-bits : (x : ℕ) → scatter shamt_bits x ≡ bits 12 12 x * 2 ^ 5 + bits 6 2 x
shamt_bits-bits x = omega arith

-- The word of the manual is the word of the fields that are cut out.
pub expand-decoded : (a : Short) (x : ℕ) → expand a x ≡ decoded a x
unfolding expand format_cl format_cs format_ci_lsp format_css format_cs_alu format_ci_sri
    format_ci_sli format_ciw format_cr
expand-decoded c_lw x = rw (imm_w-bits x, upper_register-bits x, lower_register-bits x) refl
expand-decoded c_ld x = rw (imm_d-bits x, upper_register-bits x, lower_register-bits x) refl
expand-decoded c_lwsp x = rw (imm_lwsp-bits x, full_rd-bits x) refl
expand-decoded c_ldsp x = rw (imm_ldsp-bits x, full_rd-bits x) refl
expand-decoded c_sw x = rw (imm_w-bits x, upper_register-bits x, lower_register-bits x) refl
expand-decoded c_sd x = rw (imm_d-bits x, upper_register-bits x, lower_register-bits x) refl
expand-decoded c_swsp x = rw (imm_swsp-bits x, full_rs2-bits x) refl
expand-decoded c_sdsp x = rw (imm_sdsp-bits x, full_rs2-bits x) refl
expand-decoded c_sub x = rw (upper_register-bits x, lower_register-bits x) refl
expand-decoded c_xor x = rw (upper_register-bits x, lower_register-bits x) refl
expand-decoded c_or x = rw (upper_register-bits x, lower_register-bits x) refl
expand-decoded c_and x = rw (upper_register-bits x, lower_register-bits x) refl
expand-decoded c_subw x = rw (upper_register-bits x, lower_register-bits x) refl
expand-decoded c_addw x = rw (upper_register-bits x, lower_register-bits x) refl
expand-decoded c_addi4spn x = rw (imm_addi4spn-bits x, lower_register-bits x) refl
expand-decoded c_srli x = rw (shamt_bits-bits x, upper_register-bits x) refl
expand-decoded c_srai x = rw (shamt_bits-bits x, upper_register-bits x) refl
expand-decoded c_slli x = rw (shamt_bits-bits x, full_rd-bits x) refl
expand-decoded c_add x = rw (full_rd-bits x, full_rs2-bits x) refl
