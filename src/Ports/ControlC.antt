-- ===== src/Ports/ControlC.antt =====
-- Traps and the next program counter of the compressed instructions.
use riscv_formal.Prelude.{ℕ, ◌+◌, ◌%◌, ◌<◌, ◌≡◌, Bool, true, false, arith}
use riscv_formal.Insns.Module.{Macros, Rvfi, misa_ok, defaults}
use riscv_formal.Insns.FormatC.{format_cj}
use riscv_formal.Insns.Compressed.{
  insn_c_addi4spn, insn_c_addi, insn_c_jal, insn_c_li, insn_c_addi16sp, insn_c_lui, insn_c_sri,
  insn_c_andi, insn_c_alu, insn_c_b, insn_c_sli, insn_c_jalr, insn_c_mvadd,
}
use riscv_formal.Insns.MemoryC.{load_c, store_c, insn_c_l, insn_c_s, insn_c_lsp, insn_c_ssp}
use riscv_formal.Ports.Defs.{wrap-low, cj_imm-low}

module _ (c : Macros) (i : Rvfi) where
  pub insn_c_addi4spn-trap :
      (misa : ℕ) → misa_ok c misa i ≡ false → (insn_c_addi4spn misa c i).trap ≡ true
  unfolding insn_c_addi4spn defaults
  insn_c_addi4spn-trap misa h = ground arith

  pub insn_c_addi4spn-pc_wdata :
      (misa : ℕ)
      → 0 < c.xlen
      → i.pc_rdata % 2 ≡ 0
      → (insn_c_addi4spn misa c i).trap ≡ false
      → (insn_c_addi4spn misa c i).pc_wdata % 2 ≡ 0
  unfolding insn_c_addi4spn defaults
  insn_c_addi4spn-pc_wdata misa pos even quiet =
      ground (arith, wrap-low c.xlen (i.pc_rdata + 4) pos, wrap-low c.xlen (i.pc_rdata + 2) pos)

  pub insn_c_l-trap :
      (f3 nb : ℕ) (sg : Bool) (misa : ℕ)
      → misa_ok c misa i ≡ false
      → (insn_c_l f3 nb sg misa c i).trap ≡ true
  unfolding insn_c_l defaults load_c
  insn_c_l-trap f3 nb sg misa h = ground arith

  pub insn_c_l-pc_wdata :
      (f3 nb : ℕ) (sg : Bool) (misa : ℕ)
      → 0 < c.xlen
      → i.pc_rdata % 2 ≡ 0
      → (insn_c_l f3 nb sg misa c i).trap ≡ false
      → (insn_c_l f3 nb sg misa c i).pc_wdata % 2 ≡ 0
  unfolding insn_c_l defaults load_c
  insn_c_l-pc_wdata f3 nb sg misa pos even quiet =
      ground (arith, wrap-low c.xlen (i.pc_rdata + 4) pos, wrap-low c.xlen (i.pc_rdata + 2) pos)

  pub insn_c_s-trap :
      (f3 nb misa : ℕ) → misa_ok c misa i ≡ false → (insn_c_s f3 nb misa c i).trap ≡ true
  unfolding insn_c_s defaults store_c
  insn_c_s-trap f3 nb misa h = ground arith

  pub insn_c_s-pc_wdata :
      (f3 nb misa : ℕ)
      → 0 < c.xlen
      → i.pc_rdata % 2 ≡ 0
      → (insn_c_s f3 nb misa c i).trap ≡ false
      → (insn_c_s f3 nb misa c i).pc_wdata % 2 ≡ 0
  unfolding insn_c_s defaults store_c
  insn_c_s-pc_wdata f3 nb misa pos even quiet =
      ground (arith, wrap-low c.xlen (i.pc_rdata + 4) pos, wrap-low c.xlen (i.pc_rdata + 2) pos)

  pub insn_c_lsp-trap :
      (f3 nb : ℕ) (sg : Bool) (misa : ℕ)
      → misa_ok c misa i ≡ false
      → (insn_c_lsp f3 nb sg misa c i).trap ≡ true
  unfolding insn_c_lsp defaults load_c
  insn_c_lsp-trap f3 nb sg misa h = ground arith

  pub insn_c_lsp-pc_wdata :
      (f3 nb : ℕ) (sg : Bool) (misa : ℕ)
      → 0 < c.xlen
      → i.pc_rdata % 2 ≡ 0
      → (insn_c_lsp f3 nb sg misa c i).trap ≡ false
      → (insn_c_lsp f3 nb sg misa c i).pc_wdata % 2 ≡ 0
  unfolding insn_c_lsp defaults load_c
  insn_c_lsp-pc_wdata f3 nb sg misa pos even quiet =
      ground (arith, wrap-low c.xlen (i.pc_rdata + 4) pos, wrap-low c.xlen (i.pc_rdata + 2) pos)

  pub insn_c_ssp-trap :
      (f3 nb misa : ℕ) → misa_ok c misa i ≡ false → (insn_c_ssp f3 nb misa c i).trap ≡ true
  unfolding insn_c_ssp defaults store_c
  insn_c_ssp-trap f3 nb misa h = ground arith

  pub insn_c_ssp-pc_wdata :
      (f3 nb misa : ℕ)
      → 0 < c.xlen
      → i.pc_rdata % 2 ≡ 0
      → (insn_c_ssp f3 nb misa c i).trap ≡ false
      → (insn_c_ssp f3 nb misa c i).pc_wdata % 2 ≡ 0
  unfolding insn_c_ssp defaults store_c
  insn_c_ssp-pc_wdata f3 nb misa pos even quiet =
      ground (arith, wrap-low c.xlen (i.pc_rdata + 4) pos, wrap-low c.xlen (i.pc_rdata + 2) pos)

  pub insn_c_addi-trap :
      (w : Bool) (misa : ℕ) → misa_ok c misa i ≡ false → (insn_c_addi w misa c i).trap ≡ true
  unfolding insn_c_addi defaults
  insn_c_addi-trap w misa h = ground arith

  pub insn_c_addi-pc_wdata :
      (w : Bool) (misa : ℕ)
      → 0 < c.xlen
      → i.pc_rdata % 2 ≡ 0
      → (insn_c_addi w misa c i).trap ≡ false
      → (insn_c_addi w misa c i).pc_wdata % 2 ≡ 0
  unfolding insn_c_addi defaults
  insn_c_addi-pc_wdata w misa pos even quiet =
      ground (arith, wrap-low c.xlen (i.pc_rdata + 4) pos, wrap-low c.xlen (i.pc_rdata + 2) pos)

  pub insn_c_jal-trap :
      (f3 : ℕ) (link : Bool) (misa : ℕ)
      → misa_ok c misa i ≡ false
      → (insn_c_jal f3 link misa c i).trap ≡ true
  unfolding insn_c_jal defaults
  insn_c_jal-trap f3 link misa h = ground arith

  pub insn_c_jal-pc_wdata :
      (f3 : ℕ) (link : Bool) (misa : ℕ)
      → 0 < c.xlen
      → i.pc_rdata % 2 ≡ 0
      → (insn_c_jal f3 link misa c i).trap ≡ false
      → (insn_c_jal f3 link misa c i).pc_wdata % 2 ≡ 0
  unfolding insn_c_jal defaults
  insn_c_jal-pc_wdata f3 link misa pos even quiet = ground (
    arith,
    wrap-low c.xlen (i.pc_rdata + (format_cj c.xlen i.insn).imm) pos,
    cj_imm-low c.xlen i.insn pos,
  )

  pub insn_c_li-trap : (misa : ℕ) → misa_ok c misa i ≡ false → (insn_c_li misa c i).trap ≡ true
  unfolding insn_c_li defaults
  insn_c_li-trap misa h = ground arith

  pub insn_c_li-pc_wdata :
      (misa : ℕ)
      → 0 < c.xlen
      → i.pc_rdata % 2 ≡ 0
      → (insn_c_li misa c i).trap ≡ false
      → (insn_c_li misa c i).pc_wdata % 2 ≡ 0
  unfolding insn_c_li defaults
  insn_c_li-pc_wdata misa pos even quiet =
      ground (arith, wrap-low c.xlen (i.pc_rdata + 4) pos, wrap-low c.xlen (i.pc_rdata + 2) pos)

  pub insn_c_addi16sp-trap :
      (misa : ℕ) → misa_ok c misa i ≡ false → (insn_c_addi16sp misa c i).trap ≡ true
  unfolding insn_c_addi16sp defaults
  insn_c_addi16sp-trap misa h = ground arith

  pub insn_c_addi16sp-pc_wdata :
      (misa : ℕ)
      → 0 < c.xlen
      → i.pc_rdata % 2 ≡ 0
      → (insn_c_addi16sp misa c i).trap ≡ false
      → (insn_c_addi16sp misa c i).pc_wdata % 2 ≡ 0
  unfolding insn_c_addi16sp defaults
  insn_c_addi16sp-pc_wdata misa pos even quiet =
      ground (arith, wrap-low c.xlen (i.pc_rdata + 4) pos, wrap-low c.xlen (i.pc_rdata + 2) pos)

  pub insn_c_lui-trap : (misa : ℕ) → misa_ok c misa i ≡ false → (insn_c_lui misa c i).trap ≡ true
  unfolding insn_c_lui defaults
  insn_c_lui-trap misa h = ground arith

  pub insn_c_lui-pc_wdata :
      (misa : ℕ)
      → 0 < c.xlen
      → i.pc_rdata % 2 ≡ 0
      → (insn_c_lui misa c i).trap ≡ false
      → (insn_c_lui misa c i).pc_wdata % 2 ≡ 0
  unfolding insn_c_lui defaults
  insn_c_lui-pc_wdata misa pos even quiet =
      ground (arith, wrap-low c.xlen (i.pc_rdata + 4) pos, wrap-low c.xlen (i.pc_rdata + 2) pos)

  pub insn_c_sri-trap :
      (f2 : ℕ) (expr : Macros → ℕ → ℕ → ℕ) (misa : ℕ)
      → misa_ok c misa i ≡ false
      → (insn_c_sri f2 expr misa c i).trap ≡ true
  unfolding insn_c_sri defaults
  insn_c_sri-trap f2 expr misa h = ground arith

  pub insn_c_sri-pc_wdata :
      (f2 : ℕ) (expr : Macros → ℕ → ℕ → ℕ) (misa : ℕ)
      → 0 < c.xlen
      → i.pc_rdata % 2 ≡ 0
      → (insn_c_sri f2 expr misa c i).trap ≡ false
      → (insn_c_sri f2 expr misa c i).pc_wdata % 2 ≡ 0
  unfolding insn_c_sri defaults
  insn_c_sri-pc_wdata f2 expr misa pos even quiet =
      ground (arith, wrap-low c.xlen (i.pc_rdata + 4) pos, wrap-low c.xlen (i.pc_rdata + 2) pos)

  pub insn_c_andi-trap : (misa : ℕ) → misa_ok c misa i ≡ false → (insn_c_andi misa c i).trap ≡ true
  unfolding insn_c_andi defaults
  insn_c_andi-trap misa h = ground arith

  pub insn_c_andi-pc_wdata :
      (misa : ℕ)
      → 0 < c.xlen
      → i.pc_rdata % 2 ≡ 0
      → (insn_c_andi misa c i).trap ≡ false
      → (insn_c_andi misa c i).pc_wdata % 2 ≡ 0
  unfolding insn_c_andi defaults
  insn_c_andi-pc_wdata misa pos even quiet =
      ground (arith, wrap-low c.xlen (i.pc_rdata + 4) pos, wrap-low c.xlen (i.pc_rdata + 2) pos)

  pub insn_c_alu-trap :
      (f6 f2 : ℕ) (expr : Macros → ℕ → ℕ → ℕ) (w : Bool) (misa : ℕ)
      → misa_ok c misa i ≡ false
      → (insn_c_alu f6 f2 expr w misa c i).trap ≡ true
  unfolding insn_c_alu defaults
  insn_c_alu-trap f6 f2 expr w misa h = ground arith

  pub insn_c_alu-pc_wdata :
      (f6 f2 : ℕ) (expr : Macros → ℕ → ℕ → ℕ) (w : Bool) (misa : ℕ)
      → 0 < c.xlen
      → i.pc_rdata % 2 ≡ 0
      → (insn_c_alu f6 f2 expr w misa c i).trap ≡ false
      → (insn_c_alu f6 f2 expr w misa c i).pc_wdata % 2 ≡ 0
  unfolding insn_c_alu defaults
  insn_c_alu-pc_wdata f6 f2 expr w misa pos even quiet =
      ground (arith, wrap-low c.xlen (i.pc_rdata + 4) pos, wrap-low c.xlen (i.pc_rdata + 2) pos)

  pub insn_c_b-trap :
      (f3 : ℕ) (expr : ℕ → Bool) (misa : ℕ)
      → misa_ok c misa i ≡ false
      → (insn_c_b f3 expr misa c i).trap ≡ true
  unfolding insn_c_b defaults
  insn_c_b-trap f3 expr misa h = ground arith

  pub insn_c_b-pc_wdata :
      (f3 : ℕ) (expr : ℕ → Bool) (misa : ℕ)
      → 0 < c.xlen
      → i.pc_rdata % 2 ≡ 0
      → (insn_c_b f3 expr misa c i).trap ≡ false
      → (insn_c_b f3 expr misa c i).pc_wdata % 2 ≡ 0
  unfolding insn_c_b defaults
  insn_c_b-pc_wdata f3 expr misa pos even quiet = ground (arith)

  pub insn_c_sli-trap :
      (expr : Macros → ℕ → ℕ → ℕ) (misa : ℕ)
      → misa_ok c misa i ≡ false
      → (insn_c_sli expr misa c i).trap ≡ true
  unfolding insn_c_sli defaults
  insn_c_sli-trap expr misa h = ground arith

  pub insn_c_sli-pc_wdata :
      (expr : Macros → ℕ → ℕ → ℕ) (misa : ℕ)
      → 0 < c.xlen
      → i.pc_rdata % 2 ≡ 0
      → (insn_c_sli expr misa c i).trap ≡ false
      → (insn_c_sli expr misa c i).pc_wdata % 2 ≡ 0
  unfolding insn_c_sli defaults
  insn_c_sli-pc_wdata expr misa pos even quiet =
      ground (arith, wrap-low c.xlen (i.pc_rdata + 4) pos, wrap-low c.xlen (i.pc_rdata + 2) pos)

  pub insn_c_jalr-trap :
      (f4 : ℕ) (link : Bool) (misa : ℕ)
      → misa_ok c misa i ≡ false
      → (insn_c_jalr f4 link misa c i).trap ≡ true
  unfolding insn_c_jalr defaults
  insn_c_jalr-trap f4 link misa h = ground arith

  pub insn_c_jalr-pc_wdata :
      (f4 : ℕ) (link : Bool) (misa : ℕ)
      → 0 < c.xlen
      → i.pc_rdata % 2 ≡ 0
      → (insn_c_jalr f4 link misa c i).trap ≡ false
      → (insn_c_jalr f4 link misa c i).pc_wdata % 2 ≡ 0
  unfolding insn_c_jalr defaults
  insn_c_jalr-pc_wdata f4 link misa pos even quiet = ground (arith)

  pub insn_c_mvadd-trap :
      (f4 : ℕ) (add : Bool) (misa : ℕ)
      → misa_ok c misa i ≡ false
      → (insn_c_mvadd f4 add misa c i).trap ≡ true
  unfolding insn_c_mvadd defaults
  insn_c_mvadd-trap f4 add misa h = ground arith

  pub insn_c_mvadd-pc_wdata :
      (f4 : ℕ) (add : Bool) (misa : ℕ)
      → 0 < c.xlen
      → i.pc_rdata % 2 ≡ 0
      → (insn_c_mvadd f4 add misa c i).trap ≡ false
      → (insn_c_mvadd f4 add misa c i).pc_wdata % 2 ≡ 0
  unfolding insn_c_mvadd defaults
  insn_c_mvadd-pc_wdata f4 add misa pos even quiet =
      ground (arith, wrap-low c.xlen (i.pc_rdata + 4) pos, wrap-low c.xlen (i.pc_rdata + 2) pos)
