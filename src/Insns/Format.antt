-- ===== src/Insns/Format.antt =====
-- The wires that the `format_*` functions of insns/generate.py cut out of a 32-bit instruction
-- word, one record for each format. `imm` is extended to XLEN bits.
use riscv_formal.Prelude.{ℕ, ◌+◌, ◌*◌, ◌/◌, ◌^◌}
use riscv_formal.Verilog.{bits, sext}

-- `insn_padding`: what an instruction longer than 32 bits has above them.
unfoldable pub padding : ℕ → ℕ
padding x = x / 2 ^ 16 / 2 ^ 16

-- R-type instruction format.
pub record RFields : Type 0 where
  pub funct7 : ℕ
  pub rs2 : ℕ
  pub rs1 : ℕ
  pub funct3 : ℕ
  pub rd : ℕ
  pub opcode : ℕ

unfoldable pub format_r : ℕ → RFields
format_r x = record {
  funct7 = bits 31 25 x;
  rs2 = bits 24 20 x;
  rs1 = bits 19 15 x;
  funct3 = bits 14 12 x;
  rd = bits 11 7 x;
  opcode = bits 6 0 x;
}

-- R-type, atomics instruction format.
pub record RaFields : Type 0 where
  pub funct5 : ℕ
  pub aq : ℕ
  pub rl : ℕ
  pub rs2 : ℕ
  pub rs1 : ℕ
  pub funct3 : ℕ
  pub rd : ℕ
  pub opcode : ℕ

unfoldable pub format_ra : ℕ → RaFields
format_ra x = record {
  funct5 = bits 31 27 x;
  aq = bits 26 26 x;
  rl = bits 25 25 x;
  rs2 = bits 24 20 x;
  rs1 = bits 19 15 x;
  funct3 = bits 14 12 x;
  rd = bits 11 7 x;
  opcode = bits 6 0 x;
}

-- R-type, bitwise instruction format.
pub record RbFields : Type 0 where
  pub funct6 : ℕ
  pub shamt : ℕ
  pub rs2 : ℕ
  pub rs1 : ℕ
  pub funct3 : ℕ
  pub rd : ℕ
  pub opcode : ℕ

unfoldable pub format_rb : ℕ → RbFields
format_rb x = record {
  funct6 = bits 31 26 x;
  shamt = bits 25 20 x;
  rs2 = bits 24 20 x;
  rs1 = bits 19 15 x;
  funct3 = bits 14 12 x;
  rd = bits 11 7 x;
  opcode = bits 6 0 x;
}

-- I-type instruction format.
pub record IFields : Type 0 where
  pub imm : ℕ
  pub rs1 : ℕ
  pub funct3 : ℕ
  pub rd : ℕ
  pub opcode : ℕ

unfoldable pub format_i : ℕ → ℕ → IFields
format_i n x = record {
  imm = sext 12 n (bits 31 20 x);
  rs1 = bits 19 15 x;
  funct3 = bits 14 12 x;
  rd = bits 11 7 x;
  opcode = bits 6 0 x;
}

-- I-type, shift instruction format.
pub record IShiftFields : Type 0 where
  pub funct6 : ℕ
  pub shamt : ℕ
  pub rs1 : ℕ
  pub funct3 : ℕ
  pub rd : ℕ
  pub opcode : ℕ

unfoldable pub format_i_shift : ℕ → IShiftFields
format_i_shift x = record {
  funct6 = bits 31 26 x;
  shamt = bits 25 20 x;
  rs1 = bits 19 15 x;
  funct3 = bits 14 12 x;
  rd = bits 11 7 x;
  opcode = bits 6 0 x;
}

-- I-type, bytewise (`format_iB`) instruction format.
pub record IbFields : Type 0 where
  pub funct12 : ℕ
  pub rs1 : ℕ
  pub funct3 : ℕ
  pub rd : ℕ
  pub opcode : ℕ

unfoldable pub format_ib : ℕ → IbFields
format_ib x = record {
  funct12 = bits 31 20 x;
  rs1 = bits 19 15 x;
  funct3 = bits 14 12 x;
  rd = bits 11 7 x;
  opcode = bits 6 0 x;
}

-- B-type instruction format.
pub record BFields : Type 0 where
  pub funct7 : ℕ
  pub funct5 : ℕ
  pub rs1 : ℕ
  pub funct3 : ℕ
  pub rd : ℕ
  pub opcode : ℕ

unfoldable pub format_b : ℕ → BFields
format_b x = record {
  funct7 = bits 31 25 x;
  funct5 = bits 24 20 x;
  rs1 = bits 19 15 x;
  funct3 = bits 14 12 x;
  rd = bits 11 7 x;
  opcode = bits 6 0 x;
}

-- S-type instruction format.
pub record SFields : Type 0 where
  pub imm : ℕ
  pub rs2 : ℕ
  pub rs1 : ℕ
  pub funct3 : ℕ
  pub opcode : ℕ

unfoldable pub format_s : ℕ → ℕ → SFields
format_s n x = record {
  imm = sext 12 n (bits 31 25 x * 2 ^ 5 + bits 11 7 x);
  rs2 = bits 24 20 x;
  rs1 = bits 19 15 x;
  funct3 = bits 14 12 x;
  opcode = bits 6 0 x;
}

-- SB-type instruction format.
pub record SbFields : Type 0 where
  pub imm : ℕ
  pub rs2 : ℕ
  pub rs1 : ℕ
  pub funct3 : ℕ
  pub opcode : ℕ

unfoldable pub format_sb : ℕ → ℕ → SbFields
format_sb n x = record {
  imm =
      sext 13 n
        (bits 31 31 x * 2 ^ 12 + bits 7 7 x * 2 ^ 11 + bits 30 25 x * 2 ^ 5 + bits 11 8 x * 2);
  rs2 = bits 24 20 x;
  rs1 = bits 19 15 x;
  funct3 = bits 14 12 x;
  opcode = bits 6 0 x;
}

-- U-type instruction format.
pub record UFields : Type 0 where
  pub imm : ℕ
  pub rd : ℕ
  pub opcode : ℕ

unfoldable pub format_u : ℕ → ℕ → UFields
format_u n x = record {
  imm = sext 32 n (bits 31 12 x * 2 ^ 12);
  rd = bits 11 7 x;
  opcode = bits 6 0 x;
}

-- UJ-type instruction format.
pub record UjFields : Type 0 where
  pub imm : ℕ
  pub rd : ℕ
  pub opcode : ℕ

unfoldable pub format_uj : ℕ → ℕ → UjFields
format_uj n x = record {
  imm =
      sext 21 n
        (bits 31 31 x * 2 ^ 20 + bits 19 12 x * 2 ^ 12 + bits 20 20 x * 2 ^ 11 + bits 30 21 x * 2);
  rd = bits 11 7 x;
  opcode = bits 6 0 x;
}
