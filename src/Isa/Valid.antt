-- ===== src/Isa/Valid.antt =====
-- The `spec_valid` of each generator of 32-bit instructions, and the patterns of its instructions.
use riscv_formal.Prelude.{ℕ, ◌≡◌, Bool, true, false, arith, if◌then◌else◌}
use riscv_formal.Insns.Module.{Macros, Rvfi}
use riscv_formal.Insns.Format.{
  format_r, format_rb, format_i, format_i_shift, format_ib, format_b, format_s, format_sb, format_u,
  format_uj,
}
use riscv_formal.Insns.Base.{insn_lui, insn_auipc, insn_jal, insn_jalr, insn_b}
use riscv_formal.Insns.Memory.{insn_l, insn_s}
use riscv_formal.Insns.Alu.{Mode, Alt, insn_imm, insn_shimm, insn_alu, shimm_opcode, alu_opcode}
use riscv_formal.Insns.Bitmanip.{
  Count, ByteExpr, insn_count, insn_ext, insn_bit, insn_bytes, insn_clmul, insn_pack, insn_zip,
  insn_xperm, ext_opcode,
}
use riscv_formal.Insns.Expr.{rev8_funct12}
use riscv_formal.Isa.Key.{
  holds, matches, opcode_key, imm_key, alu_key, shift_key, unary_key, bytes_key, zext_key, rev8_key,
}

module _ (c : Macros) (i : Rvfi) where
  pub insn_lui-key :
      (misa : ℕ) → (insn_lui misa c i).valid ≡ true → matches (opcode_key 0b0110111) i.insn ≡ true
  unfolding insn_lui format_u holds
  insn_lui-key misa h = ground arith

  pub insn_auipc-key :
      (misa : ℕ) → (insn_auipc misa c i).valid ≡ true → matches (opcode_key 0b0010111) i.insn ≡ true
  unfolding insn_auipc format_u holds
  insn_auipc-key misa h = ground arith

  pub insn_jal-key :
      (misa : ℕ) → (insn_jal misa c i).valid ≡ true → matches (opcode_key 0b1101111) i.insn ≡ true
  unfolding insn_jal format_uj holds
  insn_jal-key misa h = ground arith

  pub insn_jalr-key :
      (misa : ℕ)
      → (insn_jalr misa c i).valid ≡ true
      → matches (imm_key 0b000 0b1100111) i.insn ≡ true
  unfolding insn_jalr format_i holds
  insn_jalr-key misa h = ground arith

  pub insn_b-key :
      (f3 : ℕ) (expr : Macros → ℕ → ℕ → Bool) (misa : ℕ)
      → (insn_b f3 expr misa c i).valid ≡ true
      → matches (imm_key f3 0b1100011) i.insn ≡ true
  unfolding insn_b format_sb holds
  insn_b-key f3 expr misa h = ground arith

  pub insn_l-key :
      (f3 nb : ℕ) (signext : Bool) (misa : ℕ)
      → (insn_l f3 nb signext misa c i).valid ≡ true
      → matches (imm_key f3 0b0000011) i.insn ≡ true
  unfolding insn_l format_i holds
  insn_l-key f3 nb signext misa h = ground arith

  pub insn_s-key :
      (f3 nb misa : ℕ)
      → (insn_s f3 nb misa c i).valid ≡ true
      → matches (imm_key f3 0b0100011) i.insn ≡ true
  unfolding insn_s format_s holds
  insn_s-key f3 nb misa h = ground arith

  pub insn_imm-key :
      (f3 : ℕ) (expr : Macros → ℕ → ℕ → ℕ) (w : Bool) (misa : ℕ)
      → (insn_imm f3 expr w misa c i).valid ≡ true
      → matches (imm_key f3 (if w then 0b0011011 else 0b0010011)) i.insn ≡ true
  unfolding insn_imm format_i holds
  insn_imm-key f3 expr w misa h = ground arith

  pub insn_shimm-key :
      (f6 f3 : ℕ) (expr : Macros → ℕ → ℕ → ℕ) (mode : Mode) (misa : ℕ)
      → (insn_shimm f6 f3 expr mode misa c i).valid ≡ true
      → matches (shift_key f6 f3 (shimm_opcode mode)) i.insn ≡ true
  unfolding insn_shimm format_i_shift holds
  insn_shimm-key f6 f3 expr mode misa h = ground arith

  pub insn_alu-key :
      (f7 f3 : ℕ) (expr : Macros → ℕ → ℕ → ℕ → ℕ) (alt : Alt) (mode : Mode) (misa : ℕ)
      → (insn_alu f7 f3 expr alt mode misa c i).valid ≡ true
      → matches (alu_key f7 f3 (alu_opcode mode)) i.insn ≡ true
  unfolding insn_alu format_r holds
  insn_alu-key f7 f3 expr alt mode misa h = ground arith

  pub insn_count-key :
      (f5 : ℕ) (kind : Count) (w : Bool) (misa : ℕ)
      → (insn_count f5 kind w misa c i).valid ≡ true
      → matches (unary_key 0b0110000 f5 0b001 (if w then 0b0011011 else 0b0010011)) i.insn ≡ true
  unfolding insn_count format_b holds
  insn_count-key f5 kind w misa h = ground arith

  pub insn_ext-key :
      (f5 : ℕ) (bmode : Bool) (misa : ℕ)
      → (insn_ext f5 true bmode misa c i).valid ≡ true
      → matches (unary_key 0b0110000 f5 0b001 0b0010011) i.insn ≡ true
  unfolding insn_ext format_b ext_opcode holds
  insn_ext-key f5 bmode misa h = ground arith

  pub zext-key :
      (misa : ℕ)
      → (insn_ext 0b00000 false false misa c i).valid ≡ true
      → matches zext_key i.insn ≡ true
  unfolding insn_ext format_b ext_opcode holds
  zext-key misa h = ground arith

  pub insn_bit-key :
      (f6 f3 : ℕ) (expr : Macros → ℕ → ℕ → ℕ) (im : Bool) (misa : ℕ)
      → (insn_bit f6 f3 expr im misa c i).valid ≡ true
      → matches (shift_key f6 f3 (if im then 0b0010011 else 0b0110011)) i.insn ≡ true
  unfolding insn_bit format_rb holds
  insn_bit-key f6 f3 expr im misa h = ground arith

  pub insn_bytes-key :
      (f12 : ℕ) (expr : ByteExpr) (misa : ℕ)
      → (insn_bytes (λ c. f12) 0b101 expr misa c i).valid ≡ true
      → matches (bytes_key f12) i.insn ≡ true
  unfolding insn_bytes format_ib holds
  insn_bytes-key f12 expr misa h = ground arith

  pub rev8-key :
      (expr : ByteExpr) (misa : ℕ)
      → (insn_bytes rev8_funct12 0b101 expr misa c i).valid ≡ true
      → matches rev8_key i.insn ≡ true
  unfolding insn_bytes rev8_funct12 format_ib holds
  rev8-key expr misa h = ground arith

  pub insn_clmul-key :
      (f3 : ℕ) (expr : ℕ → ℕ → ℕ → ℕ) (index1 : Bool) (misa : ℕ)
      → (insn_clmul f3 expr index1 misa c i).valid ≡ true
      → matches (alu_key 0b0000101 f3 0b0110011) i.insn ≡ true
  unfolding insn_clmul format_r holds
  insn_clmul-key f3 expr index1 misa h = ground arith

  pub insn_pack-key :
      (f3 : ℕ) (width : Macros → ℕ) (sg : Bool) (misa : ℕ)
      → (insn_pack f3 width sg misa c i).valid ≡ true
      → matches (alu_key 0b0000100 f3 (if sg then 0b0111011 else 0b0110011)) i.insn ≡ true
  unfolding insn_pack format_r holds
  insn_pack-key f3 width sg misa h = ground arith

  pub insn_zip-key :
      (f3 : ℕ) (un : Bool) (misa : ℕ)
      → (insn_zip f3 un misa c i).valid ≡ true
      → matches (unary_key 0b0000100 0b01111 f3 0b0010011) i.insn ≡ true
  unfolding insn_zip format_b holds
  insn_zip-key f3 un misa h = ground arith

  pub insn_xperm-key :
      (f3 width misa : ℕ)
      → (insn_xperm f3 width misa c i).valid ≡ true
      → matches (alu_key 0b0010100 f3 0b0110011) i.insn ≡ true
  unfolding insn_xperm format_r holds
  insn_xperm-key f3 width misa h = ground arith
