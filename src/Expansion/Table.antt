-- ===== src/Expansion/Table.antt =====
-- Which 32-bit instruction a compressed instruction abbreviates, after the RISC-V unprivileged
-- manual: the loads and stores, the operations on two registers, the shifts and c.addi4spn.
use riscv_formal.Prelude.{◌≡◌, refl, true, false, arith}
use riscv_formal.Insns.Module.{Macros, Rvfi}
use riscv_formal.Insns.Table.{model}
use riscv_formal.Insns.MemoryC.{insn_c_l, insn_c_s, insn_c_lsp, insn_c_ssp}
use riscv_formal.Insns.FormatC.{format_ci_lsp, format_cl, format_css, format_cs, format_cs_alu}
use riscv_formal.Expansion.Shift.{
  insn_c_sri-SameEffect, insn_c_sli-SameEffect, insn_c_addi4spn-SameEffect, insn_c_mvadd-SameEffect,
}
use riscv_formal.Expansion.Names.{
  Short, short, long, c_lw, c_ld, c_lwsp, c_ldsp, c_sw, c_sd, c_swsp, c_sdsp, c_sub, c_xor, c_or,
  c_and, c_subw, c_addw, c_addi4spn, c_srli, c_srai, c_slli, c_add,
}
use riscv_formal.Expansion.Manual.{expand}
use riscv_formal.Expansion.Decoded.{decoded, expand-decoded}
use riscv_formal.Expansion.Effect.{
  SameEffect, at_word, load_c-SameEffect, store_c-SameEffect, insn_c_alu-SameEffect,
}

-- The same for the word of the fields that the format_c* functions cut out.
short-decoded :
    (a : Short) (c : Macros) (i : Rvfi)
    → (model (short a) c i).valid ≡ true
    → SameEffect (model (short a) c i) (model (long a) c (at_word i (decoded a i.insn)))
unfolding model insn_c_l insn_c_s insn_c_lsp insn_c_ssp format_cl format_cs format_ci_lsp format_css
    format_cs_alu
short-decoded c_lw c i valid =
    load_c-SameEffect c _ i 4 true _ _ (omega arith) (omega arith) (omega arith) (omega arith) refl
      valid
short-decoded c_ld c i valid =
    load_c-SameEffect c _ i 8 true _ _ (omega arith) (omega arith) (omega arith) (omega arith) refl
      valid
short-decoded c_lwsp c i valid =
    load_c-SameEffect c _ i 4 true _ _ (omega arith) (omega arith) (omega arith) (omega arith) refl
      valid
short-decoded c_ldsp c i valid =
    load_c-SameEffect c _ i 8 true _ _ (omega arith) (omega arith) (omega arith) (omega arith) refl
      valid
short-decoded c_sw c i valid =
    store_c-SameEffect c _ i 4 _ _ (omega arith) (omega arith) (omega arith) (omega arith) refl
      valid
short-decoded c_sd c i valid =
    store_c-SameEffect c _ i 8 _ _ (omega arith) (omega arith) (omega arith) (omega arith) refl
      valid
short-decoded c_swsp c i valid =
    store_c-SameEffect c _ i 4 _ _ (omega arith) (omega arith) (omega arith) (omega arith) refl
      valid
short-decoded c_sdsp c i valid =
    store_c-SameEffect c _ i 8 _ _ (omega arith) (omega arith) (omega arith) (omega arith) refl
      valid
short-decoded c_sub c i valid =
    insn_c_alu-SameEffect c _ i _ _ _ false _ (omega arith) refl refl (omega arith) refl refl valid
short-decoded c_xor c i valid =
    insn_c_alu-SameEffect c _ i _ _ _ false _ (omega arith) refl refl (omega arith) refl refl valid
short-decoded c_or c i valid =
    insn_c_alu-SameEffect c _ i _ _ _ false _ (omega arith) refl refl (omega arith) refl refl valid
short-decoded c_and c i valid =
    insn_c_alu-SameEffect c _ i _ _ _ false _ (omega arith) refl refl (omega arith) refl refl valid
short-decoded c_subw c i valid =
    insn_c_alu-SameEffect c _ i _ _ _ true _ (omega arith) refl refl (omega arith) refl refl valid
short-decoded c_addw c i valid =
    insn_c_alu-SameEffect c _ i _ _ _ true _ (omega arith) refl refl (omega arith) refl refl valid
short-decoded c_addi4spn c i valid =
    insn_c_addi4spn-SameEffect c _ i _ refl refl (omega arith) refl refl valid
short-decoded c_srli c i valid =
    insn_c_sri-SameEffect c _ i _ _ _ (omega arith) refl refl (omega arith) refl refl valid
short-decoded c_srai c i valid =
    insn_c_sri-SameEffect c _ i _ _ _ (omega arith) refl refl (omega arith) refl refl valid
short-decoded c_slli c i valid =
    insn_c_sli-SameEffect c _ i _ _ (omega arith) refl refl (omega arith) refl refl valid
short-decoded c_add c i valid =
    insn_c_mvadd-SameEffect c _ i _ _ (omega arith) refl refl (omega arith) refl refl valid

-- Where a compressed load, a compressed store or one of c.sub, c.xor, c.or, c.and, c.subw, c.addw,
-- c.add, c.addi4spn, c.srli, c.srai and c.slli is valid, the 32-bit instruction that it abbreviates
-- is valid on the word that the tables of the manual expand it to, and reads and writes the same
-- registers and the same memory with the same values.
pub short-SameEffect :
    (a : Short) (c : Macros) (i : Rvfi)
    → (model (short a) c i).valid ≡ true
    → SameEffect (model (short a) c i) (model (long a) c (at_word i (expand a i.insn)))
short-SameEffect a c i valid = rw (expand-decoded a i.insn) (short-decoded a c i valid)
