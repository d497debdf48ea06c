-- ===== src/Expansion/Names.antt =====
-- The compressed instructions that are compared: the loads and stores, the operations on two
-- registers, the shifts and c.addi4spn, and the 32-bit instructions that they abbreviate.
use riscv_formal.Insns.Mnemonic.{Mnemonic}

pub data Short : Type 0 where
  c_lw c_ld c_lwsp c_ldsp c_sw c_sd c_swsp c_sdsp c_sub c_xor c_or c_and c_subw c_addw : Short
  c_addi4spn c_srli c_srai c_slli c_add : Short

abbrev pub short : Short → Mnemonic
short c_lw = Mnemonic.c_lw
short c_ld = Mnemonic.c_ld
short c_lwsp = Mnemonic.c_lwsp
short c_ldsp = Mnemonic.c_ldsp
short c_sw = Mnemonic.c_sw
short c_sd = Mnemonic.c_sd
short c_swsp = Mnemonic.c_swsp
short c_sdsp = Mnemonic.c_sdsp
short c_sub = Mnemonic.c_sub
short c_xor = Mnemonic.c_xor
short c_or = Mnemonic.c_or
short c_and = Mnemonic.c_and
short c_subw = Mnemonic.c_subw
short c_addw = Mnemonic.c_addw
short c_addi4spn = Mnemonic.c_addi4spn
short c_srli = Mnemonic.c_srli
short c_srai = Mnemonic.c_srai
short c_slli = Mnemonic.c_slli
short c_add = Mnemonic.c_add

abbrev pub long : Short → Mnemonic
long c_lw = Mnemonic.lw
long c_ld = Mnemonic.ld
long c_lwsp = Mnemonic.lw
long c_ldsp = Mnemonic.ld
long c_sw = Mnemonic.sw
long c_sd = Mnemonic.sd
long c_swsp = Mnemonic.sw
long c_sdsp = Mnemonic.sd
long c_sub = Mnemonic.sub
long c_xor = Mnemonic.xor
long c_or = Mnemonic.or
long c_and = Mnemonic.and
long c_subw = Mnemonic.subw
long c_addw = Mnemonic.addw
long c_addi4spn = Mnemonic.addi
long c_srli = Mnemonic.srli
long c_srai = Mnemonic.srai
long c_slli = Mnemonic.slli
long c_add = Mnemonic.add
