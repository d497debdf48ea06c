-- ===== src/Insns/FormatC.antt =====
-- The wires that the `format_c*` functions of insns/generate.py cut out of a 16-bit instruction
-- word, one record for each format. A signed `imm` is extended to XLEN bits; a format that takes
-- `numbytes` asserts that it is 4 or 8, so that any other number stands here for 8.
use riscv_formal.Prelude.{ℕ, ◌+◌, ◌*◌, ◌/◌, ◌^◌, ◌==◌, if◌then◌else◌}
use riscv_formal.Verilog.{bits, sext}

-- `insn_padding`: what an instruction longer than 16 bits has above them.
unfoldable pub padding_c : ℕ → ℕ
padding_c x = x / 2 ^ 16

-- CR-type instruction format.
pub record CrFields : Type 0 where
  pub funct4 : ℕ
  pub rs1_rd : ℕ
  pub rs2 : ℕ
  pub opcode : ℕ

unfoldable pub format_cr : ℕ → CrFields
format_cr x = record {
  funct4 = bits 15 12 x;
  rs1_rd = bits 11 7 x;
  rs2 = bits 6 2 x;
  opcode = bits 1 0 x;
}

-- CI-type instruction format.
pub record CiFields : Type 0 where
  pub imm : ℕ
  pub funct3 : ℕ
  pub rs1_rd : ℕ
  pub opcode : ℕ

unfoldable pub format_ci : ℕ → ℕ → CiFields
format_ci n x = record {
  imm = sext 6 n (bits 12 12 x * 2 ^ 5 + bits 6 2 x);
  funct3 = bits 15 13 x;
  rs1_rd = bits 11 7 x;
  opcode = bits 1 0 x;
}

-- CI-type, SP instruction format.
pub record CiSpFields : Type 0 where
  pub imm : ℕ
  pub funct3 : ℕ
  pub rs1_rd : ℕ
  pub opcode : ℕ

unfoldable pub format_ci_sp : ℕ → ℕ → CiSpFields
format_ci_sp n x = record {
  imm = sext 10 n (
      bits 12 12 x * 2 ^ 9
      + bits 4 3 x * 2 ^ 7
      + bits 5 5 x * 2 ^ 6
      + bits 2 2 x * 2 ^ 5
      + bits 6 6 x * 2 ^ 4);
  funct3 = bits 15 13 x;
  rs1_rd = bits 11 7 x;
  opcode = bits 1 0 x;
}

-- CI-type, LUI instruction format.
pub record CiLuiFields : Type 0 where
  pub imm : ℕ
  pub funct3 : ℕ
  pub rs1_rd : ℕ
  pub opcode : ℕ

unfoldable pub format_ci_lui : ℕ → ℕ → CiLuiFields
format_ci_lui n x = record {
  imm = sext 18 n (bits 12 12 x * 2 ^ 17 + bits 6 2 x * 2 ^ 12);
  funct3 = bits 15 13 x;
  rs1_rd = bits 11 7 x;
  opcode = bits 1 0 x;
}

-- CI-type, SRI instruction format.
pub record CiSriFields : Type 0 where
  pub shamt : ℕ
  pub funct3 : ℕ
  pub funct2 : ℕ
  pub rs1_rd : ℕ
  pub opcode : ℕ

unfoldable pub format_ci_sri : ℕ → CiSriFields
format_ci_sri x = record {
  shamt = bits 12 12 x * 2 ^ 5 + bits 6 2 x;
  funct3 = bits 15 13 x;
  funct2 = bits 11 10 x;
  rs1_rd = 2 ^ 3 + bits 9 7 x;
  opcode = bits 1 0 x;
}

-- CI-type, SLI instruction format.
pub record CiSliFields : Type 0 where
  pub shamt : ℕ
  pub funct3 : ℕ
  pub rs1_rd : ℕ
  pub opcode : ℕ

unfoldable pub format_ci_sli : ℕ → CiSliFields
format_ci_sli x = record {
  shamt = bits 12 12 x * 2 ^ 5 + bits 6 2 x;
  funct3 = bits 15 13 x;
  rs1_rd = bits 11 7 x;
  opcode = bits 1 0 x;
}

-- CI-type, ANDI instruction format.
pub record CiAndiFields : Type 0 where
  pub imm : ℕ
  pub funct3 : ℕ
  pub funct2 : ℕ
  pub rs1_rd : ℕ
  pub opcode : ℕ

unfoldable pub format_ci_andi : ℕ → ℕ → CiAndiFields
format_ci_andi n x = record {
  imm = sext 6 n (bits 12 12 x * 2 ^ 5 + bits 6 2 x);
  funct3 = bits 15 13 x;
  funct2 = bits 11 10 x;
  rs1_rd = 2 ^ 3 + bits 9 7 x;
  opcode = bits 1 0 x;
}

-- CI-type, LSP instruction format.
pub record CiLspFields : Type 0 where
  pub imm : ℕ
  pub funct3 : ℕ
  pub rd : ℕ
  pub opcode : ℕ

unfoldable pub format_ci_lsp : ℕ → ℕ → CiLspFields
format_ci_lsp numbytes x = record {
  imm =
      if numbytes == 4
      then bits 3 2 x * 2 ^ 6 + bits 12 12 x * 2 ^ 5 + bits 6 4 x * 2 ^ 2
      else bits 4 2 x * 2 ^ 6 + bits 12 12 x * 2 ^ 5 + bits 6 5 x * 2 ^ 3;
  funct3 = bits 15 13 x;
  rd = bits 11 7 x;
  opcode = bits 1 0 x;
}

-- CL-type instruction format.
pub record ClFields : Type 0 where
  pub imm : ℕ
  pub funct3 : ℕ
  pub rs1 : ℕ
  pub rd : ℕ
  pub opcode : ℕ

unfoldable pub format_cl : ℕ → ℕ → ClFields
format_cl numbytes x = record {
  imm =
      if numbytes == 4
      then bits 5 5 x * 2 ^ 6 + bits 12 10 x * 2 ^ 3 + bits 6 6 x * 2 ^ 2
      else bits 6 5 x * 2 ^ 6 + bits 12 10 x * 2 ^ 3;
  funct3 = bits 15 13 x;
  rs1 = 2 ^ 3 + bits 9 7 x;
  rd = 2 ^ 3 + bits 4 2 x;
  opcode = bits 1 0 x;
}

-- CSS-type instruction format.
pub record CssFields : Type 0 where
  pub imm : ℕ
  pub funct3 : ℕ
  pub rs2 : ℕ
  pub opcode : ℕ

unfoldable pub format_css : ℕ → ℕ → CssFields
format_css numbytes x = record {
  imm =
      if numbytes == 4
      then bits 8 7 x * 2 ^ 6 + bits 12 9 x * 2 ^ 2
      else bits 9 7 x * 2 ^ 6 + bits 12 10 x * 2 ^ 3;
  funct3 = bits 15 13 x;
  rs2 = bits 6 2 x;
  opcode = bits 1 0 x;
}

-- CS-type instruction format.
pub record CsFields : Type 0 where
  pub imm : ℕ
  pub funct3 : ℕ
  pub rs1 : ℕ
  pub rs2 : ℕ
  pub opcode : ℕ

unfoldable pub format_cs : ℕ → ℕ → CsFields
format_cs numbytes x = record {
  imm =
      if numbytes == 4
      then bits 5 5 x * 2 ^ 6 + bits 12 10 x * 2 ^ 3 + bits 6 6 x * 2 ^ 2
      else bits 6 5 x * 2 ^ 6 + bits 12 10 x * 2 ^ 3;
  funct3 = bits 15 13 x;
  rs1 = 2 ^ 3 + bits 9 7 x;
  rs2 = 2 ^ 3 + bits 4 2 x;
  opcode = bits 1 0 x;
}

-- CS-type, ALU instruction format.
pub record CsAluFields : Type 0 where
  pub funct6 : ℕ
  pub funct2 : ℕ
  pub rs1_rd : ℕ
  pub rs2 : ℕ
  pub opcode : ℕ

unfoldable pub format_cs_alu : ℕ → CsAluFields
format_cs_alu x = record {
  funct6 = bits 15 10 x;
  funct2 = bits 6 5 x;
  rs1_rd = 2 ^ 3 + bits 9 7 x;
  rs2 = 2 ^ 3 + bits 4 2 x;
  opcode = bits 1 0 x;
}

-- CIW-type instruction format.
pub record CiwFields : Type 0 where
  pub imm : ℕ
  pub funct3 : ℕ
  pub rd : ℕ
  pub opcode : ℕ

unfoldable pub format_ciw : ℕ → CiwFields
format_ciw x = record {
  imm = bits 10 7 x * 2 ^ 6 + bits 12 11 x * 2 ^ 4 + bits 5 5 x * 2 ^ 3 + bits 6 6 x * 2 ^ 2;
  funct3 = bits 15 13 x;
  rd = 2 ^ 3 + bits 4 2 x;
  opcode = bits 1 0 x;
}

-- CB-type instruction format.
pub record CbFields : Type 0 where
  pub imm : ℕ
  pub funct3 : ℕ
  pub rs1 : ℕ
  pub opcode : ℕ

unfoldable pub format_cb : ℕ → ℕ → CbFields
format_cb n x = record {
  imm = sext 9 n (
      bits 12 12 x * 2 ^ 8
      + bits 6 5 x * 2 ^ 6
      + bits 2 2 x * 2 ^ 5
      + bits 11 10 x * 2 ^ 3
      + bits 4 3 x * 2);
  funct3 = bits 15 13 x;
  rs1 = 2 ^ 3 + bits 9 7 x;
  opcode = bits 1 0 x;
}

-- CJ-type instruction format.
pub record CjFields : Type 0 where
  pub imm : ℕ
  pub funct3 : ℕ
  pub opcode : ℕ

unfoldable pub format_cj : ℕ → ℕ → CjFields
format_cj n x = record {
  imm = sext 12 n (
      bits 12 12 x * 2 ^ 11
      + bits 8 8 x * 2 ^ 10
      + bits 10 10 x * 2 ^ 9
      + bits 9 9 x * 2 ^ 8
      + bits 6 6 x * 2 ^ 7
      + bits 7 7 x * 2 ^ 6
      + bits 2 2 x * 2 ^ 5
      + bits 11 11 x * 2 ^ 4
      + bits 5 5 x * 2 ^ 3
      + bits 4 4 x * 2 ^ 2
      + bits 3 3 x * 2);
  funct3 = bits 15 13 x;
  opcode = bits 1 0 x;
}
