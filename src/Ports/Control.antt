-- ===== src/Ports/Control.antt =====
-- Traps and the next program counter of the 32-bit instructions.
use riscv_formal.Prelude.{ℕ, ◌+◌, ◌%◌, ◌<◌, ◌≡◌, Bool, true, false, arith}
use riscv_formal.Insns.Module.{Macros, Rvfi, misa_ok, defaults}
use riscv_formal.Insns.Base.{insn_lui, insn_auipc, insn_jal, insn_jalr, insn_b}
use riscv_formal.Insns.Memory.{insn_l, insn_s}
use riscv_formal.Insns.Alu.{Mode, Alt, insn_imm, insn_shimm, insn_alu}
use riscv_formal.Insns.Bitmanip.{
  Count, ByteExpr, insn_count, insn_ext, insn_bit, insn_bytes, insn_clmul, insn_pack, insn_zip,
  insn_xperm,
}
use riscv_formal.Insns.Wires.{misaligned}
use riscv_formal.Ports.Defs.{wrap-low}

module _ (c : Macros) (i : Rvfi) where
  pub insn_lui-trap : (misa : ℕ) → misa_ok c misa i ≡ false → (insn_lui misa c i).trap ≡ true
  unfolding insn_lui defaults
  insn_lui-trap misa h = ground arith

  pub insn_lui-pc_wdata :
      (misa : ℕ)
      → 0 < c.xlen
      → i.pc_rdata % 2 ≡ 0
      → (insn_lui misa c i).trap ≡ false
      → (insn_lui misa c i).pc_wdata % 2 ≡ 0
  unfolding insn_lui defaults
  insn_lui-pc_wdata misa pos even quiet =
      ground (arith, wrap-low c.xlen (i.pc_rdata + 4) pos, wrap-low c.xlen (i.pc_rdata + 2) pos)

  pub insn_auipc-trap : (misa : ℕ) → misa_ok c misa i ≡ false → (insn_auipc misa c i).trap ≡ true
  unfolding insn_auipc defaults
  insn_auipc-trap misa h = ground arith

  pub insn_auipc-pc_wdata :
      (misa : ℕ)
      → 0 < c.xlen
      → i.pc_rdata % 2 ≡ 0
      → (insn_auipc misa c i).trap ≡ false
      → (insn_auipc misa c i).pc_wdata % 2 ≡ 0
  unfolding insn_auipc defaults
  insn_auipc-pc_wdata misa pos even quiet =
      ground (arith, wrap-low c.xlen (i.pc_rdata + 4) pos, wrap-low c.xlen (i.pc_rdata + 2) pos)

  pub insn_jal-trap : (misa : ℕ) → misa_ok c misa i ≡ false → (insn_jal misa c i).trap ≡ true
  unfolding insn_jal defaults
  insn_jal-trap misa h = ground arith

  pub insn_jal-pc_wdata :
      (misa : ℕ)
      → 0 < c.xlen
      → i.pc_rdata % 2 ≡ 0
      → (insn_jal misa c i).trap ≡ false
      → (insn_jal misa c i).pc_wdata % 2 ≡ 0
  unfolding insn_jal defaults misaligned
  insn_jal-pc_wdata misa pos even quiet = ground (arith)

  pub insn_jalr-trap : (misa : ℕ) → misa_ok c misa i ≡ false → (insn_jalr misa c i).trap ≡ true
  unfolding insn_jalr defaults
  insn_jalr-trap misa h = ground arith

  pub insn_jalr-pc_wdata :
      (misa : ℕ)
      → 0 < c.xlen
      → i.pc_rdata % 2 ≡ 0
      → (insn_jalr misa c i).trap ≡ false
      → (insn_jalr misa c i).pc_wdata % 2 ≡ 0
  unfolding insn_jalr defaults misaligned
  insn_jalr-pc_wdata misa pos even quiet = ground (arith)

  pub insn_b-trap :
      (f3 : ℕ) (expr : Macros → ℕ → ℕ → Bool) (misa : ℕ)
      → misa_ok c misa i ≡ false
      → (insn_b f3 expr misa c i).trap ≡ true
  unfolding insn_b defaults
  insn_b-trap f3 expr misa h = ground arith

  pub insn_b-pc_wdata :
      (f3 : ℕ) (expr : Macros → ℕ → ℕ → Bool) (misa : ℕ)
      → 0 < c.xlen
      → i.pc_rdata % 2 ≡ 0
      → (insn_b f3 expr misa c i).trap ≡ false
      → (insn_b f3 expr misa c i).pc_wdata % 2 ≡ 0
  unfolding insn_b defaults misaligned
  insn_b-pc_wdata f3 expr misa pos even quiet = ground (arith)

  pub insn_l-trap :
      (f3 nb : ℕ) (signext : Bool) (misa : ℕ)
      → misa_ok c misa i ≡ false
      → (insn_l f3 nb signext misa c i).trap ≡ true
  unfolding insn_l defaults
  insn_l-trap f3 nb signext misa h = ground arith

  pub insn_l-pc_wdata :
      (f3 nb : ℕ) (signext : Bool) (misa : ℕ)
      → 0 < c.xlen
      → i.pc_rdata % 2 ≡ 0
      → (insn_l f3 nb signext misa c i).trap ≡ false
      → (insn_l f3 nb signext misa c i).pc_wdata % 2 ≡ 0
  unfolding insn_l defaults
  insn_l-pc_wdata f3 nb signext misa pos even quiet =
      ground (arith, wrap-low c.xlen (i.pc_rdata + 4) pos, wrap-low c.xlen (i.pc_rdata + 2) pos)

  pub insn_s-trap :
      (f3 nb misa : ℕ) → misa_ok c misa i ≡ false → (insn_s f3 nb misa c i).trap ≡ true
  unfolding insn_s defaults
  insn_s-trap f3 nb misa h = ground arith

  pub insn_s-pc_wdata :
      (f3 nb misa : ℕ)
      → 0 < c.xlen
      → i.pc_rdata % 2 ≡ 0
      → (insn_s f3 nb misa c i).trap ≡ false
      → (insn_s f3 nb misa c i).pc_wdata % 2 ≡ 0
  unfolding insn_s defaults
  insn_s-pc_wdata f3 nb misa pos even quiet =
      ground (arith, wrap-low c.xlen (i.pc_rdata + 4) pos, wrap-low c.xlen (i.pc_rdata + 2) pos)

  pub insn_imm-trap :
      (f3 : ℕ) (expr : Macros → ℕ → ℕ → ℕ) (w : Bool) (misa : ℕ)
      → misa_ok c misa i ≡ false
      → (insn_imm f3 expr w misa c i).trap ≡ true
  unfolding insn_imm defaults
  insn_imm-trap f3 expr w misa h = ground arith

  pub insn_imm-pc_wdata :
      (f3 : ℕ) (expr : Macros → ℕ → ℕ → ℕ) (w : Bool) (misa : ℕ)
      → 0 < c.xlen
      → i.pc_rdata % 2 ≡ 0
      → (insn_imm f3 expr w misa c i).trap ≡ false
      → (insn_imm f3 expr w misa c i).pc_wdata % 2 ≡ 0
  unfolding insn_imm defaults
  insn_imm-pc_wdata f3 expr w misa pos even quiet =
      ground (arith, wrap-low c.xlen (i.pc_rdata + 4) pos, wrap-low c.xlen (i.pc_rdata + 2) pos)

  pub insn_shimm-trap :
      (f6 f3 : ℕ) (expr : Macros → ℕ → ℕ → ℕ) (mode : Mode) (misa : ℕ)
      → misa_ok c misa i ≡ false
      → (insn_shimm f6 f3 expr mode misa c i).trap ≡ true
  unfolding insn_shimm defaults
  insn_shimm-trap f6 f3 expr mode misa h = ground arith

  pub insn_shimm-pc_wdata :
      (f6 f3 : ℕ) (expr : Macros → ℕ → ℕ → ℕ) (mode : Mode) (misa : ℕ)
      → 0 < c.xlen
      → i.pc_rdata % 2 ≡ 0
      → (insn_shimm f6 f3 expr mode misa c i).trap ≡ false
      → (insn_shimm f6 f3 expr mode misa c i).pc_wdata % 2 ≡ 0
  unfolding insn_shimm defaults
  insn_shimm-pc_wdata f6 f3 expr mode misa pos even quiet =
      ground (arith, wrap-low c.xlen (i.pc_rdata + 4) pos, wrap-low c.xlen (i.pc_rdata + 2) pos)

  pub insn_alu-trap :
      (f7 f3 : ℕ) (expr : Macros → ℕ → ℕ → ℕ → ℕ) (alt : Alt) (mode : Mode) (misa : ℕ)
      → misa_ok c misa i ≡ false
      → (insn_alu f7 f3 expr alt mode misa c i).trap ≡ true
  unfolding insn_alu defaults
  insn_alu-trap f7 f3 expr alt mode misa h = ground arith

  pub insn_alu-pc_wdata :
      (f7 f3 : ℕ) (expr : Macros → ℕ → ℕ → ℕ → ℕ) (alt : Alt) (mode : Mode) (misa : ℕ)
      → 0 < c.xlen
      → i.pc_rdata % 2 ≡ 0
      → (insn_alu f7 f3 expr alt mode misa c i).trap ≡ false
      → (insn_alu f7 f3 expr alt mode misa c i).pc_wdata % 2 ≡ 0
  unfolding insn_alu defaults
  insn_alu-pc_wdata f7 f3 expr alt mode misa pos even quiet =
      ground (arith, wrap-low c.xlen (i.pc_rdata + 4) pos, wrap-low c.xlen (i.pc_rdata + 2) pos)

  pub insn_count-trap :
      (f5 : ℕ) (kind : Count) (w : Bool) (misa : ℕ)
      → misa_ok c misa i ≡ false
      → (insn_count f5 kind w misa c i).trap ≡ true
  unfolding insn_count defaults
  insn_count-trap f5 kind w misa h = ground arith

  pub insn_count-pc_wdata :
      (f5 : ℕ) (kind : Count) (w : Bool) (misa : ℕ)
      → 0 < c.xlen
      → i.pc_rdata % 2 ≡ 0
      → (insn_count f5 kind w misa c i).trap ≡ false
      → (insn_count f5 kind w misa c i).pc_wdata % 2 ≡ 0
  unfolding insn_count defaults
  insn_count-pc_wdata f5 kind w misa pos even quiet =
      ground (arith, wrap-low c.xlen (i.pc_rdata + 4) pos, wrap-low c.xlen (i.pc_rdata + 2) pos)

  pub insn_ext-trap :
      (f5 : ℕ) (sg bmode : Bool) (misa : ℕ)
      → misa_ok c misa i ≡ false
      → (insn_ext f5 sg bmode misa c i).trap ≡ true
  unfolding insn_ext defaults
  insn_ext-trap f5 sg bmode misa h = ground arith

  pub insn_ext-pc_wdata :
      (f5 : ℕ) (sg bmode : Bool) (misa : ℕ)
      → 0 < c.xlen
      → i.pc_rdata % 2 ≡ 0
      → (insn_ext f5 sg bmode misa c i).trap ≡ false
      → (insn_ext f5 sg bmode misa c i).pc_wdata % 2 ≡ 0
  unfolding insn_ext defaults
  insn_ext-pc_wdata f5 sg bmode misa pos even quiet =
      ground (arith, wrap-low c.xlen (i.pc_rdata + 4) pos, wrap-low c.xlen (i.pc_rdata + 2) pos)

  pub insn_bit-trap :
      (f6 f3 : ℕ) (expr : Macros → ℕ → ℕ → ℕ) (im : Bool) (misa : ℕ)
      → misa_ok c misa i ≡ false
      → (insn_bit f6 f3 expr im misa c i).trap ≡ true
  unfolding insn_bit defaults
  insn_bit-trap f6 f3 expr im misa h = ground arith

  pub insn_bit-pc_wdata :
      (f6 f3 : ℕ) (expr : Macros → ℕ → ℕ → ℕ) (im : Bool) (misa : ℕ)
      → 0 < c.xlen
      → i.pc_rdata % 2 ≡ 0
      → (insn_bit f6 f3 expr im misa c i).trap ≡ false
      → (insn_bit f6 f3 expr im misa c i).pc_wdata % 2 ≡ 0
  unfolding insn_bit defaults
  insn_bit-pc_wdata f6 f3 expr im misa pos even quiet =
      ground (arith, wrap-low c.xlen (i.pc_rdata + 4) pos, wrap-low c.xlen (i.pc_rdata + 2) pos)

  pub insn_bytes-trap :
      (f12 : Macros → ℕ) (f3 : ℕ) (expr : ByteExpr) (misa : ℕ)
      → misa_ok c misa i ≡ false
      → (insn_bytes f12 f3 expr misa c i).trap ≡ true
  unfolding insn_bytes defaults
  insn_bytes-trap f12 f3 expr misa h = ground arith

  pub insn_bytes-pc_wdata :
      (f12 : Macros → ℕ) (f3 : ℕ) (expr : ByteExpr) (misa : ℕ)
      → 0 < c.xlen
      → i.pc_rdata % 2 ≡ 0
      → (insn_bytes f12 f3 expr misa c i).trap ≡ false
      → (insn_bytes f12 f3 expr misa c i).pc_wdata % 2 ≡ 0
  unfolding insn_bytes defaults
  insn_bytes-pc_wdata f12 f3 expr misa pos even quiet =
      ground (arith, wrap-low c.xlen (i.pc_rdata + 4) pos, wrap-low c.xlen (i.pc_rdata + 2) pos)

  pub insn_clmul-trap :
      (f3 : ℕ) (expr : ℕ → ℕ → ℕ → ℕ) (index1 : Bool) (misa : ℕ)
      → misa_ok c misa i ≡ false
      → (insn_clmul f3 expr index1 misa c i).trap ≡ true
  unfolding insn_clmul defaults
  insn_clmul-trap f3 expr index1 misa h = ground arith

  pub insn_clmul-pc_wdata :
      (f3 : ℕ) (expr : ℕ → ℕ → ℕ → ℕ) (index1 : Bool) (misa : ℕ)
      → 0 < c.xlen
      → i.pc_rdata % 2 ≡ 0
      → (insn_clmul f3 expr index1 misa c i).trap ≡ false
      → (insn_clmul f3 expr index1 misa c i).pc_wdata % 2 ≡ 0
  unfolding insn_clmul defaults
  insn_clmul-pc_wdata f3 expr index1 misa pos even quiet =
      ground (arith, wrap-low c.xlen (i.pc_rdata + 4) pos, wrap-low c.xlen (i.pc_rdata + 2) pos)

  pub insn_pack-trap :
      (f3 : ℕ) (width : Macros → ℕ) (sg : Bool) (misa : ℕ)
      → misa_ok c misa i ≡ false
      → (insn_pack f3 width sg misa c i).trap ≡ true
  unfolding insn_pack defaults
  insn_pack-trap f3 width sg misa h = ground arith

  pub insn_pack-pc_wdata :
      (f3 : ℕ) (width : Macros → ℕ) (sg : Bool) (misa : ℕ)
      → 0 < c.xlen
      → i.pc_rdata % 2 ≡ 0
      → (insn_pack f3 width sg misa c i).trap ≡ false
      → (insn_pack f3 width sg misa c i).pc_wdata % 2 ≡ 0
  unfolding insn_pack defaults
  insn_pack-pc_wdata f3 width sg misa pos even quiet =
      ground (arith, wrap-low c.xlen (i.pc_rdata + 4) pos, wrap-low c.xlen (i.pc_rdata + 2) pos)

  pub insn_zip-trap :
      (f3 : ℕ) (un : Bool) (misa : ℕ)
      → misa_ok c misa i ≡ false
      → (insn_zip f3 un misa c i).trap ≡ true
  unfolding insn_zip defaults
  insn_zip-trap f3 un misa h = ground arith

  pub insn_zip-pc_wdata :
      (f3 : ℕ) (un : Bool) (misa : ℕ)
      → 0 < c.xlen
      → i.pc_rdata % 2 ≡ 0
      → (insn_zip f3 un misa c i).trap ≡ false
      → (insn_zip f3 un misa c i).pc_wdata % 2 ≡ 0
  unfolding insn_zip defaults
  insn_zip-pc_wdata f3 un misa pos even quiet =
      ground (arith, wrap-low c.xlen (i.pc_rdata + 4) pos, wrap-low c.xlen (i.pc_rdata + 2) pos)

  pub insn_xperm-trap :
      (f3 width misa : ℕ) → misa_ok c misa i ≡ false → (insn_xperm f3 width misa c i).trap ≡ true
  unfolding insn_xperm defaults
  insn_xperm-trap f3 width misa h = ground arith

  pub insn_xperm-pc_wdata :
      (f3 width misa : ℕ)
      → 0 < c.xlen
      → i.pc_rdata % 2 ≡ 0
      → (insn_xperm f3 width misa c i).trap ≡ false
      → (insn_xperm f3 width misa c i).pc_wdata % 2 ≡ 0
  unfolding insn_xperm defaults
  insn_xperm-pc_wdata f3 width misa pos even quiet =
      ground (arith, wrap-low c.xlen (i.pc_rdata + 4) pos, wrap-low c.xlen (i.pc_rdata + 2) pos)
