-- ===== src/Expansion/Manual.antt =====
-- The 32-bit instruction that a compressed one abbreviates, after the tables of the RISC-V
-- unprivileged manual: which bit of the 16-bit word is which bit of the immediate, and where the
-- registers stand.
use riscv_formal.Prelude.{ℕ, ◌+◌, ◌*◌, ◌/◌, ◌%◌, ◌^◌, List, [], ◌∷◌}
use riscv_formal.Expansion.Shift.{encode_shift}
use riscv_formal.Expansion.Encode.{encode_r, encode_i, encode_s}
use riscv_formal.Expansion.Names.{
  Short, c_lw, c_ld, c_lwsp, c_ldsp, c_sw, c_sd, c_swsp, c_sdsp, c_sub, c_xor, c_or, c_and, c_subw,
  c_addw, c_addi4spn, c_srli, c_srai, c_slli, c_add,
}

-- The number whose bit j is bit i of the word, for each pair of i and j.
abbrev pub scatter : List (ℕ × ℕ) → ℕ → ℕ
scatter [] x = 0
scatter ((i, j) ∷ table) x = x / 2 ^ i % 2 * 2 ^ j + scatter table x

-- uimm[5:3|2|6] of c.lw and c.sw, uimm[5:3|7:6] of c.ld and c.sd.
abbrev pub imm_w : List (ℕ × ℕ)
imm_w = (12, 5) ∷ (11, 4) ∷ (10, 3) ∷ (6, 2) ∷ (5, 6) ∷ []

abbrev pub imm_d : List (ℕ × ℕ)
imm_d = (12, 5) ∷ (11, 4) ∷ (10, 3) ∷ (6, 7) ∷ (5, 6) ∷ []

-- uimm[5|4:2|7:6] of c.lwsp, uimm[5|4:3|8:6] of c.ldsp.
abbrev pub imm_lwsp : List (ℕ × ℕ)
imm_lwsp = (12, 5) ∷ (6, 4) ∷ (5, 3) ∷ (4, 2) ∷ (3, 7) ∷ (2, 6) ∷ []

abbrev pub imm_ldsp : List (ℕ × ℕ)
imm_ldsp = (12, 5) ∷ (6, 4) ∷ (5, 3) ∷ (4, 8) ∷ (3, 7) ∷ (2, 6) ∷ []

-- uimm[5:2|7:6] of c.swsp, uimm[5:3|8:6] of c.sdsp.
abbrev pub imm_swsp : List (ℕ × ℕ)
imm_swsp = (12, 5) ∷ (11, 4) ∷ (10, 3) ∷ (9, 2) ∷ (8, 7) ∷ (7, 6) ∷ []

abbrev pub imm_sdsp : List (ℕ × ℕ)
imm_sdsp = (12, 5) ∷ (11, 4) ∷ (10, 3) ∷ (9, 8) ∷ (8, 7) ∷ (7, 6) ∷ []

-- nzuimm[5:4|9:6|2|3] of c.addi4spn, shamt[5|4:0] of the shifts.
abbrev pub imm_addi4spn : List (ℕ × ℕ)
imm_addi4spn = (12, 5) ∷ (11, 4) ∷ (10, 9) ∷ (9, 8) ∷ (8, 7) ∷ (7, 6) ∷ (6, 2) ∷ (5, 3) ∷ []

abbrev pub shamt_bits : List (ℕ × ℕ)
shamt_bits = (12, 5) ∷ (6, 4) ∷ (5, 3) ∷ (4, 2) ∷ (3, 1) ∷ (2, 0) ∷ []

-- rs1' and rd' in bits 9 to 7, rd' and rs2' in bits 4 to 2: registers 8 to 15.
abbrev pub upper_register : ℕ → ℕ
upper_register x = 8 + scatter ((9, 2) ∷ (8, 1) ∷ (7, 0) ∷ []) x

abbrev pub lower_register : ℕ → ℕ
lower_register x = 8 + scatter ((4, 2) ∷ (3, 1) ∷ (2, 0) ∷ []) x

-- rd and rs1 in bits 11 to 7, rs2 in bits 6 to 2.
abbrev pub full_rd : ℕ → ℕ
full_rd x = scatter ((11, 4) ∷ (10, 3) ∷ (9, 2) ∷ (8, 1) ∷ (7, 0) ∷ []) x

abbrev pub full_rs2 : ℕ → ℕ
full_rs2 x = scatter ((6, 4) ∷ (5, 3) ∷ (4, 2) ∷ (3, 1) ∷ (2, 0) ∷ []) x

-- `l rd, offset(rs1)`
abbrev pub load : ℕ → List (ℕ × ℕ) → ℕ → ℕ → ℕ → ℕ
load funct3 table rs1 rd x =
    encode_i
      (record { imm = scatter table x; rs1 = rs1; funct3 = funct3; rd = rd; opcode = 0b0000011 })

-- `s rs2, offset(rs1)`
abbrev pub store : ℕ → List (ℕ × ℕ) → ℕ → ℕ → ℕ → ℕ
store funct3 table rs1 rs2 x =
    encode_s
      (record { imm = scatter table x; rs2 = rs2; rs1 = rs1; funct3 = funct3; opcode = 0b0100011 })

-- `op rd, rd, rs2`
abbrev pub operation : ℕ → ℕ → ℕ → ℕ → ℕ → ℕ
operation funct7 funct3 opcode rd rs2 =
    encode_r
      (record { funct7 = funct7; rs2 = rs2; rs1 = rd; funct3 = funct3; rd = rd; opcode = opcode })

-- `op rd, rd, shamt`
abbrev pub shift : ℕ → ℕ → ℕ → ℕ → ℕ
shift funct6 funct3 rd x = encode_shift (record {
  funct6 = funct6;
  shamt = scatter shamt_bits x;
  rs1 = rd;
  funct3 = funct3;
  rd = rd;
  opcode = 0b0010011;
})

-- `addi rd', x2, nzuimm`
abbrev pub add_sp : ℕ → ℕ
add_sp x = encode_i (record {
  imm = scatter imm_addi4spn x;
  rs1 = 2;
  funct3 = 0b000;
  rd = lower_register x;
  opcode = 0b0010011;
})

-- The 32-bit word that a 16-bit word abbreviates.
unfoldable pub expand : Short → ℕ → ℕ
expand c_lw x = load 0b010 imm_w (upper_register x) (lower_register x) x
expand c_ld x = load 0b011 imm_d (upper_register x) (lower_register x) x
expand c_lwsp x = load 0b010 imm_lwsp 2 (full_rd x) x
expand c_ldsp x = load 0b011 imm_ldsp 2 (full_rd x) x
expand c_sw x = store 0b010 imm_w (upper_register x) (lower_register x) x
expand c_sd x = store 0b011 imm_d (upper_register x) (lower_register x) x
expand c_swsp x = store 0b010 imm_swsp 2 (full_rs2 x) x
expand c_sdsp x = store 0b011 imm_sdsp 2 (full_rs2 x) x
expand c_sub x = operation 0b0100000 0b000 0b0110011 (upper_register x) (lower_register x)
expand c_xor x = operation 0b0000000 0b100 0b0110011 (upper_register x) (lower_register x)
expand c_or x = operation 0b0000000 0b110 0b0110011 (upper_register x) (lower_register x)
expand c_and x = operation 0b0000000 0b111 0b0110011 (upper_register x) (lower_register x)
expand c_subw x = operation 0b0100000 0b000 0b0111011 (upper_register x) (lower_register x)
expand c_addw x = operation 0b0000000 0b000 0b0111011 (upper_register x) (lower_register x)
expand c_addi4spn x = add_sp x
expand c_srli x = shift 0b000000 0b101 (upper_register x) x
expand c_srai x = shift 0b010000 0b101 (upper_register x) x
expand c_slli x = shift 0b000000 0b001 (full_rd x) x
expand c_add x = operation 0b0000000 0b000 0b0110011 (full_rd x) (full_rs2 x)
