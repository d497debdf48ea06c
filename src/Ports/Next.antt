-- ===== src/Ports/Next.antt =====
-- The next program counter of the whole instruction table.
use riscv_formal.Prelude.{◌%◌, ◌<◌, ◌≡◌, false}
use riscv_formal.Insns.Module.{Macros, Rvfi}
use riscv_formal.Insns.Mnemonic.{Mnemonic}
use riscv_formal.Insns.Table.{model}
use riscv_formal.Ports.Control
use riscv_formal.Ports.ControlC

-- From an even program counter, an instruction that does not trap goes to an even one.
pub model-pc_wdata :
    (m : Mnemonic) (c : Macros) (i : Rvfi)
    → 0 < c.xlen
    → i.pc_rdata % 2 ≡ 0
    → (model m c i).trap ≡ false
    → (model m c i).pc_wdata % 2 ≡ 0
unfolding model
model-pc_wdata Mnemonic.add c i pos even quiet =
    Control.insn_alu-pc_wdata c i _ _ _ _ _ _ pos even quiet
model-pc_wdata Mnemonic.add_uw c i pos even quiet =
    Control.insn_alu-pc_wdata c i _ _ _ _ _ _ pos even quiet
model-pc_wdata Mnemonic.addi c i pos even quiet =
    Control.insn_imm-pc_wdata c i _ _ _ _ pos even quiet
model-pc_wdata Mnemonic.addiw c i pos even quiet =
    Control.insn_imm-pc_wdata c i _ _ _ _ pos even quiet
model-pc_wdata Mnemonic.addw c i pos even quiet =
    Control.insn_alu-pc_wdata c i _ _ _ _ _ _ pos even quiet
model-pc_wdata Mnemonic.and c i pos even quiet =
    Control.insn_alu-pc_wdata c i _ _ _ _ _ _ pos even quiet
model-pc_wdata Mnemonic.andi c i pos even quiet =
    Control.insn_imm-pc_wdata c i _ _ _ _ pos even quiet
model-pc_wdata Mnemonic.andn c i pos even quiet =
    Control.insn_alu-pc_wdata c i _ _ _ _ _ _ pos even quiet
model-pc_wdata Mnemonic.auipc c i pos even quiet = Control.insn_auipc-pc_wdata c i _ pos even quiet
model-pc_wdata Mnemonic.bclr c i pos even quiet =
    Control.insn_bit-pc_wdata c i _ _ _ _ _ pos even quiet
model-pc_wdata Mnemonic.bclri c i pos even quiet =
    Control.insn_bit-pc_wdata c i _ _ _ _ _ pos even quiet
model-pc_wdata Mnemonic.beq c i pos even quiet = Control.insn_b-pc_wdata c i _ _ _ pos even quiet
model-pc_wdata Mnemonic.bext c i pos even quiet =
    Control.insn_bit-pc_wdata c i _ _ _ _ _ pos even quiet
model-pc_wdata Mnemonic.bexti c i pos even quiet =
    Control.insn_bit-pc_wdata c i _ _ _ _ _ pos even quiet
model-pc_wdata Mnemonic.bge c i pos even quiet = Control.insn_b-pc_wdata c i _ _ _ pos even quiet
model-pc_wdata Mnemonic.bgeu c i pos even quiet = Control.insn_b-pc_wdata c i _ _ _ pos even quiet
model-pc_wdata Mnemonic.binv c i pos even quiet =
    Control.insn_bit-pc_wdata c i _ _ _ _ _ pos even quiet
model-pc_wdata Mnemonic.binvi c i pos even quiet =
    Control.insn_bit-pc_wdata c i _ _ _ _ _ pos even quiet
model-pc_wdata Mnemonic.blt c i pos even quiet = Control.insn_b-pc_wdata c i _ _ _ pos even quiet
model-pc_wdata Mnemonic.bltu c i pos even quiet = Control.insn_b-pc_wdata c i _ _ _ pos even quiet
model-pc_wdata Mnemonic.bne c i pos even quiet = Control.insn_b-pc_wdata c i _ _ _ pos even quiet
model-pc_wdata Mnemonic.brev8 c i pos even quiet =
    Control.insn_bytes-pc_wdata c i _ _ _ _ pos even quiet
model-pc_wdata Mnemonic.bset c i pos even quiet =
    Control.insn_bit-pc_wdata c i _ _ _ _ _ pos even quiet
model-pc_wdata Mnemonic.bseti c i pos even quiet =
    Control.insn_bit-pc_wdata c i _ _ _ _ _ pos even quiet
model-pc_wdata Mnemonic.c_add c i pos even quiet =
    ControlC.insn_c_mvadd-pc_wdata c i _ _ _ pos even quiet
model-pc_wdata Mnemonic.c_addi c i pos even quiet =
    ControlC.insn_c_addi-pc_wdata c i _ _ pos even quiet
model-pc_wdata Mnemonic.c_addi16sp c i pos even quiet =
    ControlC.insn_c_addi16sp-pc_wdata c i _ pos even quiet
model-pc_wdata Mnemonic.c_addi4spn c i pos even quiet =
    ControlC.insn_c_addi4spn-pc_wdata c i _ pos even quiet
model-pc_wdata Mnemonic.c_addiw c i pos even quiet =
    ControlC.insn_c_addi-pc_wdata c i _ _ pos even quiet
model-pc_wdata Mnemonic.c_addw c i pos even quiet =
    ControlC.insn_c_alu-pc_wdata c i _ _ _ _ _ pos even quiet
model-pc_wdata Mnemonic.c_and c i pos even quiet =
    ControlC.insn_c_alu-pc_wdata c i _ _ _ _ _ pos even quiet
model-pc_wdata Mnemonic.c_andi c i pos even quiet =
    ControlC.insn_c_andi-pc_wdata c i _ pos even quiet
model-pc_wdata Mnemonic.c_beqz c i pos even quiet =
    ControlC.insn_c_b-pc_wdata c i _ _ _ pos even quiet
model-pc_wdata Mnemonic.c_bnez c i pos even quiet =
    ControlC.insn_c_b-pc_wdata c i _ _ _ pos even quiet
model-pc_wdata Mnemonic.c_j c i pos even quiet =
    ControlC.insn_c_jal-pc_wdata c i _ _ _ pos even quiet
model-pc_wdata Mnemonic.c_jal c i pos even quiet =
    ControlC.insn_c_jal-pc_wdata c i _ _ _ pos even quiet
model-pc_wdata Mnemonic.c_jalr c i pos even quiet =
    ControlC.insn_c_jalr-pc_wdata c i _ _ _ pos even quiet
model-pc_wdata Mnemonic.c_jr c i pos even quiet =
    ControlC.insn_c_jalr-pc_wdata c i _ _ _ pos even quiet
model-pc_wdata Mnemonic.c_ld c i pos even quiet =
    ControlC.insn_c_l-pc_wdata c i _ _ _ _ pos even quiet
model-pc_wdata Mnemonic.c_ldsp c i pos even quiet =
    ControlC.insn_c_lsp-pc_wdata c i _ _ _ _ pos even quiet
model-pc_wdata Mnemonic.c_li c i pos even quiet = ControlC.insn_c_li-pc_wdata c i _ pos even quiet
model-pc_wdata Mnemonic.c_lui c i pos even quiet = ControlC.insn_c_lui-pc_wdata c i _ pos even quiet
model-pc_wdata Mnemonic.c_lw c i pos even quiet =
    ControlC.insn_c_l-pc_wdata c i _ _ _ _ pos even quiet
model-pc_wdata Mnemonic.c_lwsp c i pos even quiet =
    ControlC.insn_c_lsp-pc_wdata c i _ _ _ _ pos even quiet
model-pc_wdata Mnemonic.c_mv c i pos even quiet =
    ControlC.insn_c_mvadd-pc_wdata c i _ _ _ pos even quiet
model-pc_wdata Mnemonic.c_or c i pos even quiet =
    ControlC.insn_c_alu-pc_wdata c i _ _ _ _ _ pos even quiet
model-pc_wdata Mnemonic.c_sd c i pos even quiet =
    ControlC.insn_c_s-pc_wdata c i _ _ _ pos even quiet
model-pc_wdata Mnemonic.c_sdsp c i pos even quiet =
    ControlC.insn_c_ssp-pc_wdata c i _ _ _ pos even quiet
model-pc_wdata Mnemonic.c_slli c i pos even quiet =
    ControlC.insn_c_sli-pc_wdata c i _ _ pos even quiet
model-pc_wdata Mnemonic.c_srai c i pos even quiet =
    ControlC.insn_c_sri-pc_wdata c i _ _ _ pos even quiet
model-pc_wdata Mnemonic.c_srli c i pos even quiet =
    ControlC.insn_c_sri-pc_wdata c i _ _ _ pos even quiet
model-pc_wdata Mnemonic.c_sub c i pos even quiet =
    ControlC.insn_c_alu-pc_wdata c i _ _ _ _ _ pos even quiet
model-pc_wdata Mnemonic.c_subw c i pos even quiet =
    ControlC.insn_c_alu-pc_wdata c i _ _ _ _ _ pos even quiet
model-pc_wdata Mnemonic.c_sw c i pos even quiet =
    ControlC.insn_c_s-pc_wdata c i _ _ _ pos even quiet
model-pc_wdata Mnemonic.c_swsp c i pos even quiet =
    ControlC.insn_c_ssp-pc_wdata c i _ _ _ pos even quiet
model-pc_wdata Mnemonic.c_xor c i pos even quiet =
    ControlC.insn_c_alu-pc_wdata c i _ _ _ _ _ pos even quiet
model-pc_wdata Mnemonic.clmul c i pos even quiet =
    Control.insn_clmul-pc_wdata c i _ _ _ _ pos even quiet
model-pc_wdata Mnemonic.clmulh c i pos even quiet =
    Control.insn_clmul-pc_wdata c i _ _ _ _ pos even quiet
model-pc_wdata Mnemonic.clmulr c i pos even quiet =
    Control.insn_clmul-pc_wdata c i _ _ _ _ pos even quiet
model-pc_wdata Mnemonic.clz c i pos even quiet =
    Control.insn_count-pc_wdata c i _ _ _ _ pos even quiet
model-pc_wdata Mnemonic.clzw c i pos even quiet =
    Control.insn_count-pc_wdata c i _ _ _ _ pos even quiet
model-pc_wdata Mnemonic.cpop c i pos even quiet =
    Control.insn_count-pc_wdata c i _ _ _ _ pos even quiet
model-pc_wdata Mnemonic.cpopw c i pos even quiet =
    Control.insn_count-pc_wdata c i _ _ _ _ pos even quiet
model-pc_wdata Mnemonic.ctz c i pos even quiet =
    Control.insn_count-pc_wdata c i _ _ _ _ pos even quiet
model-pc_wdata Mnemonic.ctzw c i pos even quiet =
    Control.insn_count-pc_wdata c i _ _ _ _ pos even quiet
model-pc_wdata Mnemonic.div c i pos even quiet =
    Control.insn_alu-pc_wdata c i _ _ _ _ _ _ pos even quiet
model-pc_wdata Mnemonic.divu c i pos even quiet =
    Control.insn_alu-pc_wdata c i _ _ _ _ _ _ pos even quiet
model-pc_wdata Mnemonic.divuw c i pos even quiet =
    Control.insn_alu-pc_wdata c i _ _ _ _ _ _ pos even quiet
model-pc_wdata Mnemonic.divw c i pos even quiet =
    Control.insn_alu-pc_wdata c i _ _ _ _ _ _ pos even quiet
model-pc_wdata Mnemonic.jal c i pos even quiet = Control.insn_jal-pc_wdata c i _ pos even quiet
model-pc_wdata Mnemonic.jalr c i pos even quiet = Control.insn_jalr-pc_wdata c i _ pos even quiet
model-pc_wdata Mnemonic.lb c i pos even quiet = Control.insn_l-pc_wdata c i _ _ _ _ pos even quiet
model-pc_wdata Mnemonic.lbu c i pos even quiet = Control.insn_l-pc_wdata c i _ _ _ _ pos even quiet
model-pc_wdata Mnemonic.ld c i pos even quiet = Control.insn_l-pc_wdata c i _ _ _ _ pos even quiet
model-pc_wdata Mnemonic.lh c i pos even quiet = Control.insn_l-pc_wdata c i _ _ _ _ pos even quiet
model-pc_wdata Mnemonic.lhu c i pos even quiet = Control.insn_l-pc_wdata c i _ _ _ _ pos even quiet
model-pc_wdata Mnemonic.lui c i pos even quiet = Control.insn_lui-pc_wdata c i _ pos even quiet
model-pc_wdata Mnemonic.lw c i pos even quiet = Control.insn_l-pc_wdata c i _ _ _ _ pos even quiet
model-pc_wdata Mnemonic.lwu c i pos even quiet = Control.insn_l-pc_wdata c i _ _ _ _ pos even quiet
model-pc_wdata Mnemonic.max c i pos even quiet =
    Control.insn_alu-pc_wdata c i _ _ _ _ _ _ pos even quiet
model-pc_wdata Mnemonic.maxu c i pos even quiet =
    Control.insn_alu-pc_wdata c i _ _ _ _ _ _ pos even quiet
model-pc_wdata Mnemonic.min c i pos even quiet =
    Control.insn_alu-pc_wdata c i _ _ _ _ _ _ pos even quiet
model-pc_wdata Mnemonic.minu c i pos even quiet =
    Control.insn_alu-pc_wdata c i _ _ _ _ _ _ pos even quiet
model-pc_wdata Mnemonic.mul c i pos even quiet =
    Control.insn_alu-pc_wdata c i _ _ _ _ _ _ pos even quiet
model-pc_wdata Mnemonic.mulh c i pos even quiet =
    Control.insn_alu-pc_wdata c i _ _ _ _ _ _ pos even quiet
model-pc_wdata Mnemonic.mulhsu c i pos even quiet =
    Control.insn_alu-pc_wdata c i _ _ _ _ _ _ pos even quiet
model-pc_wdata Mnemonic.mulhu c i pos even quiet =
    Control.insn_alu-pc_wdata c i _ _ _ _ _ _ pos even quiet
model-pc_wdata Mnemonic.mulw c i pos even quiet =
    Control.insn_alu-pc_wdata c i _ _ _ _ _ _ pos even quiet
model-pc_wdata Mnemonic.or c i pos even quiet =
    Control.insn_alu-pc_wdata c i _ _ _ _ _ _ pos even quiet
model-pc_wdata Mnemonic.orc_b c i pos even quiet =
    Control.insn_bytes-pc_wdata c i _ _ _ _ pos even quiet
model-pc_wdata Mnemonic.ori c i pos even quiet =
    Control.insn_imm-pc_wdata c i _ _ _ _ pos even quiet
model-pc_wdata Mnemonic.orn c i pos even quiet =
    Control.insn_alu-pc_wdata c i _ _ _ _ _ _ pos even quiet
model-pc_wdata Mnemonic.pack c i pos even quiet =
    Control.insn_pack-pc_wdata c i _ _ _ _ pos even quiet
model-pc_wdata Mnemonic.packh c i pos even quiet =
    Control.insn_pack-pc_wdata c i _ _ _ _ pos even quiet
model-pc_wdata Mnemonic.packw c i pos even quiet =
    Control.insn_pack-pc_wdata c i _ _ _ _ pos even quiet
model-pc_wdata Mnemonic.rem c i pos even quiet =
    Control.insn_alu-pc_wdata c i _ _ _ _ _ _ pos even quiet
model-pc_wdata Mnemonic.remu c i pos even quiet =
    Control.insn_alu-pc_wdata c i _ _ _ _ _ _ pos even quiet
model-pc_wdata Mnemonic.remuw c i pos even quiet =
    Control.insn_alu-pc_wdata c i _ _ _ _ _ _ pos even quiet
model-pc_wdata Mnemonic.remw c i pos even quiet =
    Control.insn_alu-pc_wdata c i _ _ _ _ _ _ pos even quiet
model-pc_wdata Mnemonic.rev8 c i pos even quiet =
    Control.insn_bytes-pc_wdata c i _ _ _ _ pos even quiet
model-pc_wdata Mnemonic.rol c i pos even quiet =
    Control.insn_alu-pc_wdata c i _ _ _ _ _ _ pos even quiet
model-pc_wdata Mnemonic.rolw c i pos even quiet =
    Control.insn_alu-pc_wdata c i _ _ _ _ _ _ pos even quiet
model-pc_wdata Mnemonic.ror c i pos even quiet =
    Control.insn_alu-pc_wdata c i _ _ _ _ _ _ pos even quiet
model-pc_wdata Mnemonic.rori c i pos even quiet =
    Control.insn_shimm-pc_wdata c i _ _ _ _ _ pos even quiet
model-pc_wdata Mnemonic.roriw c i pos even quiet =
    Control.insn_shimm-pc_wdata c i _ _ _ _ _ pos even quiet
model-pc_wdata Mnemonic.rorw c i pos even quiet =
    Control.insn_alu-pc_wdata c i _ _ _ _ _ _ pos even quiet
model-pc_wdata Mnemonic.sb c i pos even quiet = Control.insn_s-pc_wdata c i _ _ _ pos even quiet
model-pc_wdata Mnemonic.sd c i pos even quiet = Control.insn_s-pc_wdata c i _ _ _ pos even quiet
model-pc_wdata Mnemonic.sext_b c i pos even quiet =
    Control.insn_ext-pc_wdata c i _ _ _ _ pos even quiet
model-pc_wdata Mnemonic.sext_h c i pos even quiet =
    Control.insn_ext-pc_wdata c i _ _ _ _ pos even quiet
model-pc_wdata Mnemonic.sh c i pos even quiet = Control.insn_s-pc_wdata c i _ _ _ pos even quiet
model-pc_wdata Mnemonic.sh1add c i pos even quiet =
    Control.insn_alu-pc_wdata c i _ _ _ _ _ _ pos even quiet
model-pc_wdata Mnemonic.sh1add_uw c i pos even quiet =
    Control.insn_alu-pc_wdata c i _ _ _ _ _ _ pos even quiet
model-pc_wdata Mnemonic.sh2add c i pos even quiet =
    Control.insn_alu-pc_wdata c i _ _ _ _ _ _ pos even quiet
model-pc_wdata Mnemonic.sh2add_uw c i pos even quiet =
    Control.insn_alu-pc_wdata c i _ _ _ _ _ _ pos even quiet
model-pc_wdata Mnemonic.sh3add c i pos even quiet =
    Control.insn_alu-pc_wdata c i _ _ _ _ _ _ pos even quiet
model-pc_wdata Mnemonic.sh3add_uw c i pos even quiet =
    Control.insn_alu-pc_wdata c i _ _ _ _ _ _ pos even quiet
model-pc_wdata Mnemonic.sll c i pos even quiet =
    Control.insn_alu-pc_wdata c i _ _ _ _ _ _ pos even quiet
model-pc_wdata Mnemonic.slli c i pos even quiet =
    Control.insn_shimm-pc_wdata c i _ _ _ _ _ pos even quiet
model-pc_wdata Mnemonic.slli_uw c i pos even quiet =
    Control.insn_shimm-pc_wdata c i _ _ _ _ _ pos even quiet
model-pc_wdata Mnemonic.slliw c i pos even quiet =
    Control.insn_shimm-pc_wdata c i _ _ _ _ _ pos even quiet
model-pc_wdata Mnemonic.sllw c i pos even quiet =
    Control.insn_alu-pc_wdata c i _ _ _ _ _ _ pos even quiet
model-pc_wdata Mnemonic.slt c i pos even quiet =
    Control.insn_alu-pc_wdata c i _ _ _ _ _ _ pos even quiet
model-pc_wdata Mnemonic.slti c i pos even quiet =
    Control.insn_imm-pc_wdata c i _ _ _ _ pos even quiet
model-pc_wdata Mnemonic.sltiu c i pos even quiet =
    Control.insn_imm-pc_wdata c i _ _ _ _ pos even quiet
model-pc_wdata Mnemonic.sltu c i pos even quiet =
    Control.insn_alu-pc_wdata c i _ _ _ _ _ _ pos even quiet
model-pc_wdata Mnemonic.sra c i pos even quiet =
    Control.insn_alu-pc_wdata c i _ _ _ _ _ _ pos even quiet
model-pc_wdata Mnemonic.srai c i pos even quiet =
    Control.insn_shimm-pc_wdata c i _ _ _ _ _ pos even quiet
model-pc_wdata Mnemonic.sraiw c i pos even quiet =
    Control.insn_shimm-pc_wdata c i _ _ _ _ _ pos even quiet
model-pc_wdata Mnemonic.sraw c i pos even quiet =
    Control.insn_alu-pc_wdata c i _ _ _ _ _ _ pos even quiet
model-pc_wdata Mnemonic.srl c i pos even quiet =
    Control.insn_alu-pc_wdata c i _ _ _ _ _ _ pos even quiet
model-pc_wdata Mnemonic.srli c i pos even quiet =
    Control.insn_shimm-pc_wdata c i _ _ _ _ _ pos even quiet
model-pc_wdata Mnemonic.srliw c i pos even quiet =
    Control.insn_shimm-pc_wdata c i _ _ _ _ _ pos even quiet
model-pc_wdata Mnemonic.srlw c i pos even quiet =
    Control.insn_alu-pc_wdata c i _ _ _ _ _ _ pos even quiet
model-pc_wdata Mnemonic.sub c i pos even quiet =
    Control.insn_alu-pc_wdata c i _ _ _ _ _ _ pos even quiet
model-pc_wdata Mnemonic.subw c i pos even quiet =
    Control.insn_alu-pc_wdata c i _ _ _ _ _ _ pos even quiet
model-pc_wdata Mnemonic.sw c i pos even quiet = Control.insn_s-pc_wdata c i _ _ _ pos even quiet
model-pc_wdata Mnemonic.unzip c i pos even quiet =
    Control.insn_zip-pc_wdata c i _ _ _ pos even quiet
model-pc_wdata Mnemonic.xnor c i pos even quiet =
    Control.insn_alu-pc_wdata c i _ _ _ _ _ _ pos even quiet
model-pc_wdata Mnemonic.xor c i pos even quiet =
    Control.insn_alu-pc_wdata c i _ _ _ _ _ _ pos even quiet
model-pc_wdata Mnemonic.xori c i pos even quiet =
    Control.insn_imm-pc_wdata c i _ _ _ _ pos even quiet
model-pc_wdata Mnemonic.xperm4 c i pos even quiet =
    Control.insn_xperm-pc_wdata c i _ _ _ pos even quiet
model-pc_wdata Mnemonic.xperm8 c i pos even quiet =
    Control.insn_xperm-pc_wdata c i _ _ _ pos even quiet
model-pc_wdata Mnemonic.zext_h c i pos even quiet =
    Control.insn_ext-pc_wdata c i _ _ _ _ pos even quiet
model-pc_wdata Mnemonic.zip c i pos even quiet = Control.insn_zip-pc_wdata c i _ _ _ pos even quiet
