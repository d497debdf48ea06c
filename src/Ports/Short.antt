-- ===== src/Ports/Short.antt =====
-- The outputs of the generators of compressed instructions.
use riscv_formal.Prelude.{ℕ, ◌/◌, Bool, arith}
use riscv_formal.Verilog.Slices.{pow-pos}
use riscv_formal.Insns.Module.{Macros, Rvfi, defaults}
use riscv_formal.Insns.FormatC.{
  format_cr, format_ci, format_ci_sp, format_ci_lui, format_ci_sri, format_ci_sli, format_ci_andi,
  format_ci_lsp, format_cl, format_css, format_cs, format_cs_alu, format_ciw, format_cb, format_cj,
}
use riscv_formal.Insns.Compressed.{
  insn_c_addi4spn, insn_c_addi, insn_c_jal, insn_c_li, insn_c_addi16sp, insn_c_lui, insn_c_sri,
  insn_c_andi, insn_c_alu, insn_c_b, insn_c_sli, insn_c_jalr, insn_c_mvadd,
}
use riscv_formal.Insns.MemoryC.{load_c, store_c, insn_c_l, insn_c_s, insn_c_lsp, insn_c_ssp}
use riscv_formal.Ports.Defs.{
  IsWellFormed, guard_rd-lt, guard_rd-zero, wrap-lt, word_addr-lt, byte_mask-lt, clear_low-le,
}

module _ (c : Macros) (i : Rvfi) where
  pub insn_c_addi4spn-IsWellFormed : (misa : ℕ) → IsWellFormed c (insn_c_addi4spn misa c i)
  unfolding insn_c_addi4spn format_ciw defaults
  insn_c_addi4spn-IsWellFormed misa =
      grind (arith, pow-pos c.xlen, pow-pos (c.xlen / 8), guard_rd-lt, guard_rd-zero, wrap-lt)

  pub insn_c_l-IsWellFormed :
      (f3 nb : ℕ) (sg : Bool) (misa : ℕ) → IsWellFormed c (insn_c_l f3 nb sg misa c i)
  unfolding insn_c_l load_c format_cl defaults
  insn_c_l-IsWellFormed f3 nb sg misa = grind (
    arith,
    pow-pos c.xlen,
    pow-pos (c.xlen / 8),
    guard_rd-lt,
    guard_rd-zero,
    wrap-lt,
    word_addr-lt,
    byte_mask-lt,
  )

  pub insn_c_s-IsWellFormed : (f3 nb misa : ℕ) → IsWellFormed c (insn_c_s f3 nb misa c i)
  unfolding insn_c_s store_c format_cs defaults
  insn_c_s-IsWellFormed f3 nb misa = grind (
    arith,
    pow-pos c.xlen,
    pow-pos (c.xlen / 8),
    guard_rd-lt,
    guard_rd-zero,
    wrap-lt,
    word_addr-lt,
    byte_mask-lt,
  )

  pub insn_c_lsp-IsWellFormed :
      (f3 nb : ℕ) (sg : Bool) (misa : ℕ) → IsWellFormed c (insn_c_lsp f3 nb sg misa c i)
  unfolding insn_c_lsp load_c format_ci_lsp defaults
  insn_c_lsp-IsWellFormed f3 nb sg misa = grind (
    arith,
    pow-pos c.xlen,
    pow-pos (c.xlen / 8),
    guard_rd-lt,
    guard_rd-zero,
    wrap-lt,
    word_addr-lt,
    byte_mask-lt,
  )

  pub insn_c_ssp-IsWellFormed : (f3 nb misa : ℕ) → IsWellFormed c (insn_c_ssp f3 nb misa c i)
  unfolding insn_c_ssp store_c format_css defaults
  insn_c_ssp-IsWellFormed f3 nb misa = grind (
    arith,
    pow-pos c.xlen,
    pow-pos (c.xlen / 8),
    guard_rd-lt,
    guard_rd-zero,
    wrap-lt,
    word_addr-lt,
    byte_mask-lt,
  )

  pub insn_c_addi-IsWellFormed : (w : Bool) (misa : ℕ) → IsWellFormed c (insn_c_addi w misa c i)
  unfolding insn_c_addi format_ci defaults
  insn_c_addi-IsWellFormed w misa =
      grind (arith, pow-pos c.xlen, pow-pos (c.xlen / 8), guard_rd-lt, guard_rd-zero, wrap-lt)

  pub insn_c_jal-IsWellFormed :
      (f3 : ℕ) (link : Bool) (misa : ℕ) → IsWellFormed c (insn_c_jal f3 link misa c i)
  unfolding insn_c_jal format_cj defaults
  insn_c_jal-IsWellFormed f3 link misa =
      grind (arith, pow-pos c.xlen, pow-pos (c.xlen / 8), guard_rd-lt, guard_rd-zero, wrap-lt)

  pub insn_c_li-IsWellFormed : (misa : ℕ) → IsWellFormed c (insn_c_li misa c i)
  unfolding insn_c_li format_ci defaults
  insn_c_li-IsWellFormed misa =
      grind (arith, pow-pos c.xlen, pow-pos (c.xlen / 8), guard_rd-lt, guard_rd-zero, wrap-lt)

  pub insn_c_addi16sp-IsWellFormed : (misa : ℕ) → IsWellFormed c (insn_c_addi16sp misa c i)
  unfolding insn_c_addi16sp format_ci_sp defaults
  insn_c_addi16sp-IsWellFormed misa =
      grind (arith, pow-pos c.xlen, pow-pos (c.xlen / 8), guard_rd-lt, guard_rd-zero, wrap-lt)

  pub insn_c_lui-IsWellFormed : (misa : ℕ) → IsWellFormed c (insn_c_lui misa c i)
  unfolding insn_c_lui format_ci_lui defaults
  insn_c_lui-IsWellFormed misa =
      grind (arith, pow-pos c.xlen, pow-pos (c.xlen / 8), guard_rd-lt, guard_rd-zero, wrap-lt)

  pub insn_c_sri-IsWellFormed :
      (f2 : ℕ) (expr : Macros → ℕ → ℕ → ℕ) (misa : ℕ) → IsWellFormed c (insn_c_sri f2 expr misa c i)
  unfolding insn_c_sri format_ci_sri defaults
  insn_c_sri-IsWellFormed f2 expr misa =
      grind (arith, pow-pos c.xlen, pow-pos (c.xlen / 8), guard_rd-lt, guard_rd-zero, wrap-lt)

  pub insn_c_andi-IsWellFormed : (misa : ℕ) → IsWellFormed c (insn_c_andi misa c i)
  unfolding insn_c_andi format_ci_andi defaults
  insn_c_andi-IsWellFormed misa =
      grind (arith, pow-pos c.xlen, pow-pos (c.xlen / 8), guard_rd-lt, guard_rd-zero, wrap-lt)

  pub insn_c_alu-IsWellFormed :
      (f6 f2 : ℕ) (expr : Macros → ℕ → ℕ → ℕ) (w : Bool) (misa : ℕ)
      → IsWellFormed c (insn_c_alu f6 f2 expr w misa c i)
  unfolding insn_c_alu format_cs_alu defaults
  insn_c_alu-IsWellFormed f6 f2 expr w misa =
      grind (arith, pow-pos c.xlen, pow-pos (c.xlen / 8), guard_rd-lt, guard_rd-zero, wrap-lt)

  pub insn_c_b-IsWellFormed :
      (f3 : ℕ) (expr : ℕ → Bool) (misa : ℕ) → IsWellFormed c (insn_c_b f3 expr misa c i)
  unfolding insn_c_b format_cb defaults
  insn_c_b-IsWellFormed f3 expr misa =
      grind (arith, pow-pos c.xlen, pow-pos (c.xlen / 8), guard_rd-lt, guard_rd-zero, wrap-lt)

  pub insn_c_sli-IsWellFormed :
      (expr : Macros → ℕ → ℕ → ℕ) (misa : ℕ) → IsWellFormed c (insn_c_sli expr misa c i)
  unfolding insn_c_sli format_ci_sli defaults
  insn_c_sli-IsWellFormed expr misa =
      grind (arith, pow-pos c.xlen, pow-pos (c.xlen / 8), guard_rd-lt, guard_rd-zero, wrap-lt)

  pub insn_c_jalr-IsWellFormed :
      (f4 : ℕ) (link : Bool) (misa : ℕ) → IsWellFormed c (insn_c_jalr f4 link misa c i)
  unfolding insn_c_jalr format_cr defaults
  insn_c_jalr-IsWellFormed f4 link misa = grind (
    arith,
    pow-pos c.xlen,
    pow-pos (c.xlen / 8),
    guard_rd-lt,
    guard_rd-zero,
    wrap-lt,
    clear_low-le,
  )

  pub insn_c_mvadd-IsWellFormed :
      (f4 : ℕ) (add : Bool) (misa : ℕ) → IsWellFormed c (insn_c_mvadd f4 add misa c i)
  unfolding insn_c_mvadd format_cr defaults
  insn_c_mvadd-IsWellFormed f4 add misa =
      grind (arith, pow-pos c.xlen, pow-pos (c.xlen / 8), guard_rd-lt, guard_rd-zero, wrap-lt)
