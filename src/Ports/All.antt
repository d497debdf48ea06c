-- ===== src/Ports/All.antt =====
-- The outputs of the whole instruction table.
use riscv_formal.Insns.Module.{Macros, Rvfi}
use riscv_formal.Insns.Mnemonic.{Mnemonic}
use riscv_formal.Insns.Table.{model}
use riscv_formal.Ports.Defs.{IsWellFormed}
use riscv_formal.Ports.Full
use riscv_formal.Ports.Short

-- The outputs of every instruction fit their ports, register 0 is only ever written with 0, and no
-- instruction both reads and writes memory, whatever the inputs.
pub model-IsWellFormed : (m : Mnemonic) (c : Macros) (i : Rvfi) → IsWellFormed c (model m c i)
unfolding model
model-IsWellFormed Mnemonic.add c i = Full.insn_alu-IsWellFormed c i _ _ _ _ _ _
model-IsWellFormed Mnemonic.add_uw c i = Full.insn_alu-IsWellFormed c i _ _ _ _ _ _
model-IsWellFormed Mnemonic.addi c i = Full.insn_imm-IsWellFormed c i _ _ _ _
model-IsWellFormed Mnemonic.addiw c i = Full.insn_imm-IsWellFormed c i _ _ _ _
model-IsWellFormed Mnemonic.addw c i = Full.insn_alu-IsWellFormed c i _ _ _ _ _ _
model-IsWellFormed Mnemonic.and c i = Full.insn_alu-IsWellFormed c i _ _ _ _ _ _
model-IsWellFormed Mnemonic.andi c i = Full.insn_imm-IsWellFormed c i _ _ _ _
model-IsWellFormed Mnemonic.andn c i = Full.insn_alu-IsWellFormed c i _ _ _ _ _ _
model-IsWellFormed Mnemonic.auipc c i = Full.insn_auipc-IsWellFormed c i _
model-IsWellFormed Mnemonic.bclr c i = Full.insn_bit-IsWellFormed c i _ _ _ _ _
model-IsWellFormed Mnemonic.bclri c i = Full.insn_bit-IsWellFormed c i _ _ _ _ _
model-IsWellFormed Mnemonic.beq c i = Full.insn_b-IsWellFormed c i _ _ _
model-IsWellFormed Mnemonic.bext c i = Full.insn_bit-IsWellFormed c i _ _ _ _ _
model-IsWellFormed Mnemonic.bexti c i = Full.insn_bit-IsWellFormed c i _ _ _ _ _
model-IsWellFormed Mnemonic.bge c i = Full.insn_b-IsWellFormed c i _ _ _
model-IsWellFormed Mnemonic.bgeu c i = Full.insn_b-IsWellFormed c i _ _ _
model-IsWellFormed Mnemonic.binv c i = Full.insn_bit-IsWellFormed c i _ _ _ _ _
model-IsWellFormed Mnemonic.binvi c i = Full.insn_bit-IsWellFormed c i _ _ _ _ _
model-IsWellFormed Mnemonic.blt c i = Full.insn_b-IsWellFormed c i _ _ _
model-IsWellFormed Mnemonic.bltu c i = Full.insn_b-IsWellFormed c i _ _ _
model-IsWellFormed Mnemonic.bne c i = Full.insn_b-IsWellFormed c i _ _ _
model-IsWellFormed Mnemonic.brev8 c i = Full.insn_bytes-IsWellFormed c i _ _ _ _
model-IsWellFormed Mnemonic.bset c i = Full.insn_bit-IsWellFormed c i _ _ _ _ _
model-IsWellFormed Mnemonic.bseti c i = Full.insn_bit-IsWellFormed c i _ _ _ _ _
model-IsWellFormed Mnemonic.c_add c i = Short.insn_c_mvadd-IsWellFormed c i _ _ _
model-IsWellFormed Mnemonic.c_addi c i = Short.insn_c_addi-IsWellFormed c i _ _
model-IsWellFormed Mnemonic.c_addi16sp c i = Short.insn_c_addi16sp-IsWellFormed c i _
model-IsWellFormed Mnemonic.c_addi4spn c i = Short.insn_c_addi4spn-IsWellFormed c i _
model-IsWellFormed Mnemonic.c_addiw c i = Short.insn_c_addi-IsWellFormed c i _ _
model-IsWellFormed Mnemonic.c_addw c i = Short.insn_c_alu-IsWellFormed c i _ _ _ _ _
model-IsWellFormed Mnemonic.c_and c i = Short.insn_c_alu-IsWellFormed c i _ _ _ _ _
model-IsWellFormed Mnemonic.c_andi c i = Short.insn_c_andi-IsWellFormed c i _
model-IsWellFormed Mnemonic.c_beqz c i = Short.insn_c_b-IsWellFormed c i _ _ _
model-IsWellFormed Mnemonic.c_bnez c i = Short.insn_c_b-IsWellFormed c i _ _ _
model-IsWellFormed Mnemonic.c_j c i = Short.insn_c_jal-IsWellFormed c i _ _ _
model-IsWellFormed Mnemonic.c_jal c i = Short.insn_c_jal-IsWellFormed c i _ _ _
model-IsWellFormed Mnemonic.c_jalr c i = Short.insn_c_jalr-IsWellFormed c i _ _ _
model-IsWellFormed Mnemonic.c_jr c i = Short.insn_c_jalr-IsWellFormed c i _ _ _
model-IsWellFormed Mnemonic.c_ld c i = Short.insn_c_l-IsWellFormed c i _ _ _ _
model-IsWellFormed Mnemonic.c_ldsp c i = Short.insn_c_lsp-IsWellFormed c i _ _ _ _
model-IsWellFormed Mnemonic.c_li c i = Short.insn_c_li-IsWellFormed c i _
model-IsWellFormed Mnemonic.c_lui c i = Short.insn_c_lui-IsWellFormed c i _
model-IsWellFormed Mnemonic.c_lw c i = Short.insn_c_l-IsWellFormed c i _ _ _ _
model-IsWellFormed Mnemonic.c_lwsp c i = Short.insn_c_lsp-IsWellFormed c i _ _ _ _
model-IsWellFormed Mnemonic.c_mv c i = Short.insn_c_mvadd-IsWellFormed c i _ _ _
model-IsWellFormed Mnemonic.c_or c i = Short.insn_c_alu-IsWellFormed c i _ _ _ _ _
model-IsWellFormed Mnemonic.c_sd c i = Short.insn_c_s-IsWellFormed c i _ _ _
model-IsWellFormed Mnemonic.c_sdsp c i = Short.insn_c_ssp-IsWellFormed c i _ _ _
model-IsWellFormed Mnemonic.c_slli c i = Short.insn_c_sli-IsWellFormed c i _ _
model-IsWellFormed Mnemonic.c_srai c i = Short.insn_c_sri-IsWellFormed c i _ _ _
model-IsWellFormed Mnemonic.c_srli c i = Short.insn_c_sri-IsWellFormed c i _ _ _
model-IsWellFormed Mnemonic.c_sub c i = Short.insn_c_alu-IsWellFormed c i _ _ _ _ _
model-IsWellFormed Mnemonic.c_subw c i = Short.insn_c_alu-IsWellFormed c i _ _ _ _ _
model-IsWellFormed Mnemonic.c_sw c i = Short.insn_c_s-IsWellFormed c i _ _ _
model-IsWellFormed Mnemonic.c_swsp c i = Short.insn_c_ssp-IsWellFormed c i _ _ _
model-IsWellFormed Mnemonic.c_xor c i = Short.insn_c_alu-IsWellFormed c i _ _ _ _ _
model-IsWellFormed Mnemonic.clmul c i = Full.insn_clmul-IsWellFormed c i _ _ _ _
model-IsWellFormed Mnemonic.clmulh c i = Full.insn_clmul-IsWellFormed c i _ _ _ _
model-IsWellFormed Mnemonic.clmulr c i = Full.insn_clmul-IsWellFormed c i _ _ _ _
model-IsWellFormed Mnemonic.clz c i = Full.insn_count-IsWellFormed c i _ _ _ _
model-IsWellFormed Mnemonic.clzw c i = Full.insn_count-IsWellFormed c i _ _ _ _
model-IsWellFormed Mnemonic.cpop c i = Full.insn_count-IsWellFormed c i _ _ _ _
model-IsWellFormed Mnemonic.cpopw c i = Full.insn_count-IsWellFormed c i _ _ _ _
model-IsWellFormed Mnemonic.ctz c i = Full.insn_count-IsWellFormed c i _ _ _ _
model-IsWellFormed Mnemonic.ctzw c i = Full.insn_count-IsWellFormed c i _ _ _ _
model-IsWellFormed Mnemonic.div c i = Full.insn_alu-IsWellFormed c i _ _ _ _ _ _
model-IsWellFormed Mnemonic.divu c i = Full.insn_alu-IsWellFormed c i _ _ _ _ _ _
model-IsWellFormed Mnemonic.divuw c i = Full.insn_alu-IsWellFormed c i _ _ _ _ _ _
model-IsWellFormed Mnemonic.divw c i = Full.insn_alu-IsWellFormed c i _ _ _ _ _ _
model-IsWellFormed Mnemonic.jal c i = Full.insn_jal-IsWellFormed c i _
model-IsWellFormed Mnemonic.jalr c i = Full.insn_jalr-IsWellFormed c i _
model-IsWellFormed Mnemonic.lb c i = Full.insn_l-IsWellFormed c i _ _ _ _
model-IsWellFormed Mnemonic.lbu c i = Full.insn_l-IsWellFormed c i _ _ _ _
model-IsWellFormed Mnemonic.ld c i = Full.insn_l-IsWellFormed c i _ _ _ _
model-IsWellFormed Mnemonic.lh c i = Full.insn_l-IsWellFormed c i _ _ _ _
model-IsWellFormed Mnemonic.lhu c i = Full.insn_l-IsWellFormed c i _ _ _ _
model-IsWellFormed Mnemonic.lui c i = Full.insn_lui-IsWellFormed c i _
model-IsWellFormed Mnemonic.lw c i = Full.insn_l-IsWellFormed c i _ _ _ _
model-IsWellFormed Mnemonic.lwu c i = Full.insn_l-IsWellFormed c i _ _ _ _
model-IsWellFormed Mnemonic.max c i = Full.insn_alu-IsWellFormed c i _ _ _ _ _ _
model-IsWellFormed Mnemonic.maxu c i = Full.insn_alu-IsWellFormed c i _ _ _ _ _ _
model-IsWellFormed Mnemonic.min c i = Full.insn_alu-IsWellFormed c i _ _ _ _ _ _
model-IsWellFormed Mnemonic.minu c i = Full.insn_alu-IsWellFormed c i _ _ _ _ _ _
model-IsWellFormed Mnemonic.mul c i = Full.insn_alu-IsWellFormed c i _ _ _ _ _ _
model-IsWellFormed Mnemonic.mulh c i = Full.insn_alu-IsWellFormed c i _ _ _ _ _ _
model-IsWellFormed Mnemonic.mulhsu c i = Full.insn_alu-IsWellFormed c i _ _ _ _ _ _
model-IsWellFormed Mnemonic.mulhu c i = Full.insn_alu-IsWellFormed c i _ _ _ _ _ _
model-IsWellFormed Mnemonic.mulw c i = Full.insn_alu-IsWellFormed c i _ _ _ _ _ _
model-IsWellFormed Mnemonic.or c i = Full.insn_alu-IsWellFormed c i _ _ _ _ _ _
model-IsWellFormed Mnemonic.orc_b c i = Full.insn_bytes-IsWellFormed c i _ _ _ _
model-IsWellFormed Mnemonic.ori c i = Full.insn_imm-IsWellFormed c i _ _ _ _
model-IsWellFormed Mnemonic.orn c i = Full.insn_alu-IsWellFormed c i _ _ _ _ _ _
model-IsWellFormed Mnemonic.pack c i = Full.insn_pack-IsWellFormed c i _ _ _ _
model-IsWellFormed Mnemonic.packh c i = Full.insn_pack-IsWellFormed c i _ _ _ _
model-IsWellFormed Mnemonic.packw c i = Full.insn_pack-IsWellFormed c i _ _ _ _
model-IsWellFormed Mnemonic.rem c i = Full.insn_alu-IsWellFormed c i _ _ _ _ _ _
model-IsWellFormed Mnemonic.remu c i = Full.insn_alu-IsWellFormed c i _ _ _ _ _ _
model-IsWellFormed Mnemonic.remuw c i = Full.insn_alu-IsWellFormed c i _ _ _ _ _ _
model-IsWellFormed Mnemonic.remw c i = Full.insn_alu-IsWellFormed c i _ _ _ _ _ _
model-IsWellFormed Mnemonic.rev8 c i = Full.insn_bytes-IsWellFormed c i _ _ _ _
model-IsWellFormed Mnemonic.rol c i = Full.insn_alu-IsWellFormed c i _ _ _ _ _ _
model-IsWellFormed Mnemonic.rolw c i = Full.insn_alu-IsWellFormed c i _ _ _ _ _ _
model-IsWellFormed Mnemonic.ror c i = Full.insn_alu-IsWellFormed c i _ _ _ _ _ _
model-IsWellFormed Mnemonic.rori c i = Full.insn_shimm-IsWellFormed c i _ _ _ _ _
model-IsWellFormed Mnemonic.roriw c i = Full.insn_shimm-IsWellFormed c i _ _ _ _ _
model-IsWellFormed Mnemonic.rorw c i = Full.insn_alu-IsWellFormed c i _ _ _ _ _ _
model-IsWellFormed Mnemonic.sb c i = Full.insn_s-IsWellFormed c i _ _ _
model-IsWellFormed Mnemonic.sd c i = Full.insn_s-IsWellFormed c i _ _ _
model-IsWellFormed Mnemonic.sext_b c i = Full.insn_ext-IsWellFormed c i _ _ _ _
model-IsWellFormed Mnemonic.sext_h c i = Full.insn_ext-IsWellFormed c i _ _ _ _
model-IsWellFormed Mnemonic.sh c i = Full.insn_s-IsWellFormed c i _ _ _
model-IsWellFormed Mnemonic.sh1add c i = Full.insn_alu-IsWellFormed c i _ _ _ _ _ _
model-IsWellFormed Mnemonic.sh1add_uw c i = Full.insn_alu-IsWellFormed c i _ _ _ _ _ _
model-IsWellFormed Mnemonic.sh2add c i = Full.insn_alu-IsWellFormed c i _ _ _ _ _ _
model-IsWellFormed Mnemonic.sh2add_uw c i = Full.insn_alu-IsWellFormed c i _ _ _ _ _ _
model-IsWellFormed Mnemonic.sh3add c i = Full.insn_alu-IsWellFormed c i _ _ _ _ _ _
model-IsWellFormed Mnemonic.sh3add_uw c i = Full.insn_alu-IsWellFormed c i _ _ _ _ _ _
model-IsWellFormed Mnemonic.sll c i = Full.insn_alu-IsWellFormed c i _ _ _ _ _ _
model-IsWellFormed Mnemonic.slli c i = Full.insn_shimm-IsWellFormed c i _ _ _ _ _
model-IsWellFormed Mnemonic.slli_uw c i = Full.insn_shimm-IsWellFormed c i _ _ _ _ _
model-IsWellFormed Mnemonic.slliw c i = Full.insn_shimm-IsWellFormed c i _ _ _ _ _
model-IsWellFormed Mnemonic.sllw c i = Full.insn_alu-IsWellFormed c i _ _ _ _ _ _
model-IsWellFormed Mnemonic.slt c i = Full.insn_alu-IsWellFormed c i _ _ _ _ _ _
model-IsWellFormed Mnemonic.slti c i = Full.insn_imm-IsWellFormed c i _ _ _ _
model-IsWellFormed Mnemonic.sltiu c i = Full.insn_imm-IsWellFormed c i _ _ _ _
model-IsWellFormed Mnemonic.sltu c i = Full.insn_alu-IsWellFormed c i _ _ _ _ _ _
model-IsWellFormed Mnemonic.sra c i = Full.insn_alu-IsWellFormed c i _ _ _ _ _ _
model-IsWellFormed Mnemonic.srai c i = Full.insn_shimm-IsWellFormed c i _ _ _ _ _
model-IsWellFormed Mnemonic.sraiw c i = Full.insn_shimm-IsWellFormed c i _ _ _ _ _
model-IsWellFormed Mnemonic.sraw c i = Full.insn_alu-IsWellFormed c i _ _ _ _ _ _
model-IsWellFormed Mnemonic.srl c i = Full.insn_alu-IsWellFormed c i _ _ _ _ _ _
model-IsWellFormed Mnemonic.srli c i = Full.insn_shimm-IsWellFormed c i _ _ _ _ _
model-IsWellFormed Mnemonic.srliw c i = Full.insn_shimm-IsWellFormed c i _ _ _ _ _
model-IsWellFormed Mnemonic.srlw c i = Full.insn_alu-IsWellFormed c i _ _ _ _ _ _
model-IsWellFormed Mnemonic.sub c i = Full.insn_alu-IsWellFormed c i _ _ _ _ _ _
model-IsWellFormed Mnemonic.subw c i = Full.insn_alu-IsWellFormed c i _ _ _ _ _ _
model-IsWellFormed Mnemonic.sw c i = Full.insn_s-IsWellFormed c i _ _ _
model-IsWellFormed Mnemonic.unzip c i = Full.insn_zip-IsWellFormed c i _ _ _
model-IsWellFormed Mnemonic.xnor c i = Full.insn_alu-IsWellFormed c i _ _ _ _ _ _
model-IsWellFormed Mnemonic.xor c i = Full.insn_alu-IsWellFormed c i _ _ _ _ _ _
model-IsWellFormed Mnemonic.xori c i = Full.insn_imm-IsWellFormed c i _ _ _ _
model-IsWellFormed Mnemonic.xperm4 c i = Full.insn_xperm-IsWellFormed c i _ _ _
model-IsWellFormed Mnemonic.xperm8 c i = Full.insn_xperm-IsWellFormed c i _ _ _
model-IsWellFormed Mnemonic.zext_h c i = Full.insn_ext-IsWellFormed c i _ _ _ _
model-IsWellFormed Mnemonic.zip c i = Full.insn_zip-IsWellFormed c i _ _ _
