-- ===== src/Ports/Full.antt =====
-- The outputs of the generators of 32-bit instructions.
use riscv_formal.Prelude.{ℕ, ◌/◌, Bool, arith}
use riscv_formal.Verilog.Slices.{pow-pos}
use riscv_formal.Insns.Module.{Macros, Rvfi, defaults}
use riscv_formal.Insns.Format.{
  format_r, format_rb, format_i, format_i_shift, format_ib, format_b, format_s, format_sb, format_u,
  format_uj,
}
use riscv_formal.Insns.Base.{insn_lui, insn_auipc, insn_jal, insn_jalr, insn_b}
use riscv_formal.Insns.Memory.{insn_l, insn_s}
use riscv_formal.Insns.Alu.{Mode, Alt, insn_imm, insn_shimm, insn_alu}
use riscv_formal.Insns.Bitmanip.{
  Count, ByteExpr, insn_count, insn_ext, insn_bit, insn_bytes, insn_clmul, insn_pack, insn_zip,
  insn_xperm,
}
use riscv_formal.Ports.Defs.{
  IsWellFormed, guard_rd-lt, guard_rd-zero, wrap-lt, word_addr-lt, byte_mask-lt, clear_low-le,
}

module _ (c : Macros) (i : Rvfi) where
  pub insn_lui-IsWellFormed : (misa : ℕ) → IsWellFormed c (insn_lui misa c i)
  unfolding insn_lui format_u defaults
  insn_lui-IsWellFormed misa =
      grind (arith, pow-pos c.xlen, pow-pos (c.xlen / 8), guard_rd-lt, guard_rd-zero, wrap-lt)

  pub insn_auipc-IsWellFormed : (misa : ℕ) → IsWellFormed c (insn_auipc misa c i)
  unfolding insn_auipc format_u defaults
  insn_auipc-IsWellFormed misa =
      grind (arith, pow-pos c.xlen, pow-pos (c.xlen / 8), guard_rd-lt, guard_rd-zero, wrap-lt)

  pub insn_jal-IsWellFormed : (misa : ℕ) → IsWellFormed c (insn_jal misa c i)
  unfolding insn_jal format_uj defaults
  insn_jal-IsWellFormed misa =
      grind (arith, pow-pos c.xlen, pow-pos (c.xlen / 8), guard_rd-lt, guard_rd-zero, wrap-lt)

  pub insn_jalr-IsWellFormed : (misa : ℕ) → IsWellFormed c (insn_jalr misa c i)
  unfolding insn_jalr format_i defaults
  insn_jalr-IsWellFormed misa = grind (
    arith,
    pow-pos c.xlen,
    pow-pos (c.xlen / 8),
    guard_rd-lt,
    guard_rd-zero,
    wrap-lt,
    clear_low-le,
  )

  pub insn_b-IsWellFormed :
      (f3 : ℕ) (expr : Macros → ℕ → ℕ → Bool) (misa : ℕ) → IsWellFormed c (insn_b f3 expr misa c i)
  unfolding insn_b format_sb defaults
  insn_b-IsWellFormed f3 expr misa =
      grind (arith, pow-pos c.xlen, pow-pos (c.xlen / 8), guard_rd-lt, guard_rd-zero, wrap-lt)

  pub insn_l-IsWellFormed :
      (f3 nb : ℕ) (signext : Bool) (misa : ℕ) → IsWellFormed c (insn_l f3 nb signext misa c i)
  unfolding insn_l format_i defaults
  insn_l-IsWellFormed f3 nb signext misa = grind (
    arith,
    pow-pos c.xlen,
    pow-pos (c.xlen / 8),
    guard_rd-lt,
    guard_rd-zero,
    wrap-lt,
    word_addr-lt,
    byte_mask-lt,
  )

  pub insn_s-IsWellFormed : (f3 nb misa : ℕ) → IsWellFormed c (insn_s f3 nb misa c i)
  unfolding insn_s format_s defaults
  insn_s-IsWellFormed f3 nb misa = grind (
    arith,
    pow-pos c.xlen,
    pow-pos (c.xlen / 8),
    guard_rd-lt,
    guard_rd-zero,
    wrap-lt,
    word_addr-lt,
    byte_mask-lt,
  )

  pub insn_imm-IsWellFormed :
      (f3 : ℕ) (expr : Macros → ℕ → ℕ → ℕ) (w : Bool) (misa : ℕ)
      → IsWellFormed c (insn_imm f3 expr w misa c i)
  unfolding insn_imm format_i defaults
  insn_imm-IsWellFormed f3 expr w misa =
      grind (arith, pow-pos c.xlen, pow-pos (c.xlen / 8), guard_rd-lt, guard_rd-zero, wrap-lt)

  pub insn_shimm-IsWellFormed :
      (f6 f3 : ℕ) (expr : Macros → ℕ → ℕ → ℕ) (mode : Mode) (misa : ℕ)
      → IsWellFormed c (insn_shimm f6 f3 expr mode misa c i)
  unfolding insn_shimm format_i_shift defaults
  insn_shimm-IsWellFormed f6 f3 expr mode misa =
      grind (arith, pow-pos c.xlen, pow-pos (c.xlen / 8), guard_rd-lt, guard_rd-zero, wrap-lt)

  pub insn_alu-IsWellFormed :
      (f7 f3 : ℕ) (expr : Macros → ℕ → ℕ → ℕ → ℕ) (alt : Alt) (mode : Mode) (misa : ℕ)
      → IsWellFormed c (insn_alu f7 f3 expr alt mode misa c i)
  unfolding insn_alu format_r defaults
  insn_alu-IsWellFormed f7 f3 expr alt mode misa =
      grind (arith, pow-pos c.xlen, pow-pos (c.xlen / 8), guard_rd-lt, guard_rd-zero, wrap-lt)

  pub insn_count-IsWellFormed :
      (f5 : ℕ) (kind : Count) (w : Bool) (misa : ℕ) → IsWellFormed c (insn_count f5 kind w misa c i)
  unfolding insn_count format_b defaults
  insn_count-IsWellFormed f5 kind w misa =
      grind (arith, pow-pos c.xlen, pow-pos (c.xlen / 8), guard_rd-lt, guard_rd-zero, wrap-lt)

  pub insn_ext-IsWellFormed :
      (f5 : ℕ) (sg bmode : Bool) (misa : ℕ) → IsWellFormed c (insn_ext f5 sg bmode misa c i)
  unfolding insn_ext format_b defaults
  insn_ext-IsWellFormed f5 sg bmode misa =
      grind (arith, pow-pos c.xlen, pow-pos (c.xlen / 8), guard_rd-lt, guard_rd-zero, wrap-lt)

  pub insn_bit-IsWellFormed :
      (f6 f3 : ℕ) (expr : Macros → ℕ → ℕ → ℕ) (im : Bool) (misa : ℕ)
      → IsWellFormed c (insn_bit f6 f3 expr im misa c i)
  unfolding insn_bit format_rb defaults
  insn_bit-IsWellFormed f6 f3 expr im misa =
      grind (arith, pow-pos c.xlen, pow-pos (c.xlen / 8), guard_rd-lt, guard_rd-zero, wrap-lt)

  pub insn_bytes-IsWellFormed :
      (f12 : Macros → ℕ) (f3 : ℕ) (expr : ByteExpr) (misa : ℕ)
      → IsWellFormed c (insn_bytes f12 f3 expr misa c i)
  unfolding insn_bytes format_ib defaults
  insn_bytes-IsWellFormed f12 f3 expr misa =
      grind (arith, pow-pos c.xlen, pow-pos (c.xlen / 8), guard_rd-lt, guard_rd-zero, wrap-lt)

  pub insn_clmul-IsWellFormed :
      (f3 : ℕ) (expr : ℕ → ℕ → ℕ → ℕ) (index1 : Bool) (misa : ℕ)
      → IsWellFormed c (insn_clmul f3 expr index1 misa c i)
  unfolding insn_clmul format_r defaults
  insn_clmul-IsWellFormed f3 expr index1 misa =
      grind (arith, pow-pos c.xlen, pow-pos (c.xlen / 8), guard_rd-lt, guard_rd-zero, wrap-lt)

  pub insn_pack-IsWellFormed :
      (f3 : ℕ) (width : Macros → ℕ) (sg : Bool) (misa : ℕ)
      → IsWellFormed c (insn_pack f3 width sg misa c i)
  unfolding insn_pack format_r defaults
  insn_pack-IsWellFormed f3 width sg misa =
      grind (arith, pow-pos c.xlen, pow-pos (c.xlen / 8), guard_rd-lt, guard_rd-zero, wrap-lt)

  pub insn_zip-IsWellFormed :
      (f3 : ℕ) (un : Bool) (misa : ℕ) → IsWellFormed c (insn_zip f3 un misa c i)
  unfolding insn_zip format_b defaults
  insn_zip-IsWellFormed f3 un misa =
      grind (arith, pow-pos c.xlen, pow-pos (c.xlen / 8), guard_rd-lt, guard_rd-zero, wrap-lt)

  pub insn_xperm-IsWellFormed : (f3 width misa : ℕ) → IsWellFormed c (insn_xperm f3 width misa c i)
  unfolding insn_xperm format_r defaults
  insn_xperm-IsWellFormed f3 width misa =
      grind (arith, pow-pos c.xlen, pow-pos (c.xlen / 8), guard_rd-lt, guard_rd-zero, wrap-lt)
