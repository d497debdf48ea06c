-- ===== src/Isa/Pattern.antt =====
-- The `spec_valid` of each instruction of the table, and its pattern.
use riscv_formal.Prelude.{◌≡◌, true}
use riscv_formal.Insns.Module.{Macros, Rvfi}
use riscv_formal.Insns.Mnemonic.{Mnemonic}
use riscv_formal.Insns.Table.{model}
use riscv_formal.Isa.Key.{matches, key}
use riscv_formal.Isa.Valid
use riscv_formal.Isa.ValidC

pub valid-matches :
    (m : Mnemonic) (c : Macros) (i : Rvfi)
    → (model m c i).valid ≡ true
    → matches (key m) i.insn ≡ true
unfolding model key
valid-matches Mnemonic.add c i h = Valid.insn_alu-key c i _ _ _ _ _ _ h
valid-matches Mnemonic.add_uw c i h = Valid.insn_alu-key c i _ _ _ _ _ _ h
valid-matches Mnemonic.addi c i h = Valid.insn_imm-key c i _ _ _ _ h
valid-matches Mnemonic.addiw c i h = Valid.insn_imm-key c i _ _ _ _ h
valid-matches Mnemonic.addw c i h = Valid.insn_alu-key c i _ _ _ _ _ _ h
valid-matches Mnemonic.and c i h = Valid.insn_alu-key c i _ _ _ _ _ _ h
valid-matches Mnemonic.andi c i h = Valid.insn_imm-key c i _ _ _ _ h
valid-matches Mnemonic.andn c i h = Valid.insn_alu-key c i _ _ _ _ _ _ h
valid-matches Mnemonic.auipc c i h = Valid.insn_auipc-key c i _ h
valid-matches Mnemonic.bclr c i h = Valid.insn_bit-key c i _ _ _ _ _ h
valid-matches Mnemonic.bclri c i h = Valid.insn_bit-key c i _ _ _ _ _ h
valid-matches Mnemonic.beq c i h = Valid.insn_b-key c i _ _ _ h
valid-matches Mnemonic.bext c i h = Valid.insn_bit-key c i _ _ _ _ _ h
valid-matches Mnemonic.bexti c i h = Valid.insn_bit-key c i _ _ _ _ _ h
valid-matches Mnemonic.bge c i h = Valid.insn_b-key c i _ _ _ h
valid-matches Mnemonic.bgeu c i h = Valid.insn_b-key c i _ _ _ h
valid-matches Mnemonic.binv c i h = Valid.insn_bit-key c i _ _ _ _ _ h
valid-matches Mnemonic.binvi c i h = Valid.insn_bit-key c i _ _ _ _ _ h
valid-matches Mnemonic.blt c i h = Valid.insn_b-key c i _ _ _ h
valid-matches Mnemonic.bltu c i h = Valid.insn_b-key c i _ _ _ h
valid-matches Mnemonic.bne c i h = Valid.insn_b-key c i _ _ _ h
valid-matches Mnemonic.brev8 c i h = Valid.insn_bytes-key c i _ _ _ h
valid-matches Mnemonic.bset c i h = Valid.insn_bit-key c i _ _ _ _ _ h
valid-matches Mnemonic.bseti c i h = Valid.insn_bit-key c i _ _ _ _ _ h
valid-matches Mnemonic.c_add c i h = ValidC.insn_c_mvadd-key c i _ _ _ h
valid-matches Mnemonic.c_addi c i h = ValidC.insn_c_addi-key c i _ _ h
valid-matches Mnemonic.c_addi16sp c i h = ValidC.insn_c_addi16sp-key c i _ h
valid-matches Mnemonic.c_addi4spn c i h = ValidC.insn_c_addi4spn-key c i _ h
valid-matches Mnemonic.c_addiw c i h = ValidC.insn_c_addi-key c i _ _ h
valid-matches Mnemonic.c_addw c i h = ValidC.insn_c_alu-key c i _ _ _ _ _ h
valid-matches Mnemonic.c_and c i h = ValidC.insn_c_alu-key c i _ _ _ _ _ h
valid-matches Mnemonic.c_andi c i h = ValidC.insn_c_andi-key c i _ h
valid-matches Mnemonic.c_beqz c i h = ValidC.insn_c_b-key c i _ _ _ h
valid-matches Mnemonic.c_bnez c i h = ValidC.insn_c_b-key c i _ _ _ h
valid-matches Mnemonic.c_j c i h = ValidC.insn_c_jal-key c i _ _ _ h
valid-matches Mnemonic.c_jal c i h = ValidC.insn_c_jal-key c i _ _ _ h
valid-matches Mnemonic.c_jalr c i h = ValidC.insn_c_jalr-key c i _ _ _ h
valid-matches Mnemonic.c_jr c i h = ValidC.insn_c_jalr-key c i _ _ _ h
valid-matches Mnemonic.c_ld c i h = ValidC.insn_c_l-key c i _ _ _ _ h
valid-matches Mnemonic.c_ldsp c i h = ValidC.insn_c_lsp-key c i _ _ _ _ h
valid-matches Mnemonic.c_li c i h = ValidC.insn_c_li-key c i _ h
valid-matches Mnemonic.c_lui c i h = ValidC.insn_c_lui-key c i _ h
valid-matches Mnemonic.c_lw c i h = ValidC.insn_c_l-key c i _ _ _ _ h
valid-matches Mnemonic.c_lwsp c i h = ValidC.insn_c_lsp-key c i _ _ _ _ h
valid-matches Mnemonic.c_mv c i h = ValidC.insn_c_mvadd-key c i _ _ _ h
valid-matches Mnemonic.c_or c i h = ValidC.insn_c_alu-key c i _ _ _ _ _ h
valid-matches Mnemonic.c_sd c i h = ValidC.insn_c_s-key c i _ _ _ h
valid-matches Mnemonic.c_sdsp c i h = ValidC.insn_c_ssp-key c i _ _ _ h
valid-matches Mnemonic.c_slli c i h = ValidC.insn_c_sli-key c i _ _ h
valid-matches Mnemonic.c_srai c i h = ValidC.insn_c_sri-key c i _ _ _ h
valid-matches Mnemonic.c_srli c i h = ValidC.insn_c_sri-key c i _ _ _ h
valid-matches Mnemonic.c_sub c i h = ValidC.insn_c_alu-key c i _ _ _ _ _ h
valid-matches Mnemonic.c_subw c i h = ValidC.insn_c_alu-key c i _ _ _ _ _ h
valid-matches Mnemonic.c_sw c i h = ValidC.insn_c_s-key c i _ _ _ h
valid-matches Mnemonic.c_swsp c i h = ValidC.insn_c_ssp-key c i _ _ _ h
valid-matches Mnemonic.c_xor c i h = ValidC.insn_c_alu-key c i _ _ _ _ _ h
valid-matches Mnemonic.clmul c i h = Valid.insn_clmul-key c i _ _ _ _ h
valid-matches Mnemonic.clmulh c i h = Valid.insn_clmul-key c i _ _ _ _ h
valid-matches Mnemonic.clmulr c i h = Valid.insn_clmul-key c i _ _ _ _ h
valid-matches Mnemonic.clz c i h = Valid.insn_count-key c i _ _ _ _ h
valid-matches Mnemonic.clzw c i h = Valid.insn_count-key c i _ _ _ _ h
valid-matches Mnemonic.cpop c i h = Valid.insn_count-key c i _ _ _ _ h
valid-matches Mnemonic.cpopw c i h = Valid.insn_count-key c i _ _ _ _ h
valid-matches Mnemonic.ctz c i h = Valid.insn_count-key c i _ _ _ _ h
valid-matches Mnemonic.ctzw c i h = Valid.insn_count-key c i _ _ _ _ h
valid-matches Mnemonic.div c i h = Valid.insn_alu-key c i _ _ _ _ _ _ h
valid-matches Mnemonic.divu c i h = Valid.insn_alu-key c i _ _ _ _ _ _ h
valid-matches Mnemonic.divuw c i h = Valid.insn_alu-key c i _ _ _ _ _ _ h
valid-matches Mnemonic.divw c i h = Valid.insn_alu-key c i _ _ _ _ _ _ h
valid-matches Mnemonic.jal c i h = Valid.insn_jal-key c i _ h
valid-matches Mnemonic.jalr c i h = Valid.insn_jalr-key c i _ h
valid-matches Mnemonic.lb c i h = Valid.insn_l-key c i _ _ _ _ h
valid-matches Mnemonic.lbu c i h = Valid.insn_l-key c i _ _ _ _ h
valid-matches Mnemonic.ld c i h = Valid.insn_l-key c i _ _ _ _ h
valid-matches Mnemonic.lh c i h = Valid.insn_l-key c i _ _ _ _ h
valid-matches Mnemonic.lhu c i h = Valid.insn_l-key c i _ _ _ _ h
valid-matches Mnemonic.lui c i h = Valid.insn_lui-key c i _ h
valid-matches Mnemonic.lw c i h = Valid.insn_l-key c i _ _ _ _ h
valid-matches Mnemonic.lwu c i h = Valid.insn_l-key c i _ _ _ _ h
valid-matches Mnemonic.max c i h = Valid.insn_alu-key c i _ _ _ _ _ _ h
valid-matches Mnemonic.maxu c i h = Valid.insn_alu-key c i _ _ _ _ _ _ h
valid-matches Mnemonic.min c i h = Valid.insn_alu-key c i _ _ _ _ _ _ h
valid-matches Mnemonic.minu c i h = Valid.insn_alu-key c i _ _ _ _ _ _ h
valid-matches Mnemonic.mul c i h = Valid.insn_alu-key c i _ _ _ _ _ _ h
valid-matches Mnemonic.mulh c i h = Valid.insn_alu-key c i _ _ _ _ _ _ h
valid-matches Mnemonic.mulhsu c i h = Valid.insn_alu-key c i _ _ _ _ _ _ h
valid-matches Mnemonic.mulhu c i h = Valid.insn_alu-key c i _ _ _ _ _ _ h
valid-matches Mnemonic.mulw c i h = Valid.insn_alu-key c i _ _ _ _ _ _ h
valid-matches Mnemonic.or c i h = Valid.insn_alu-key c i _ _ _ _ _ _ h
valid-matches Mnemonic.orc_b c i h = Valid.insn_bytes-key c i _ _ _ h
valid-matches Mnemonic.ori c i h = Valid.insn_imm-key c i _ _ _ _ h
valid-matches Mnemonic.orn c i h = Valid.insn_alu-key c i _ _ _ _ _ _ h
valid-matches Mnemonic.pack c i h = Valid.insn_pack-key c i _ _ _ _ h
valid-matches Mnemonic.packh c i h = Valid.insn_pack-key c i _ _ _ _ h
valid-matches Mnemonic.packw c i h = Valid.insn_pack-key c i _ _ _ _ h
valid-matches Mnemonic.rem c i h = Valid.insn_alu-key c i _ _ _ _ _ _ h
valid-matches Mnemonic.remu c i h = Valid.insn_alu-key c i _ _ _ _ _ _ h
valid-matches Mnemonic.remuw c i h = Valid.insn_alu-key c i _ _ _ _ _ _ h
valid-matches Mnemonic.remw c i h = Valid.insn_alu-key c i _ _ _ _ _ _ h
valid-matches Mnemonic.rev8 c i h = Valid.rev8-key c i _ _ h
valid-matches Mnemonic.rol c i h = Valid.insn_alu-key c i _ _ _ _ _ _ h
valid-matches Mnemonic.rolw c i h = Valid.insn_alu-key c i _ _ _ _ _ _ h
valid-matches Mnemonic.ror c i h = Valid.insn_alu-key c i _ _ _ _ _ _ h
valid-matches Mnemonic.rori c i h = Valid.insn_shimm-key c i _ _ _ _ _ h
valid-matches Mnemonic.roriw c i h = Valid.insn_shimm-key c i _ _ _ _ _ h
valid-matches Mnemonic.rorw c i h = Valid.insn_alu-key c i _ _ _ _ _ _ h
valid-matches Mnemonic.sb c i h = Valid.insn_s-key c i _ _ _ h
valid-matches Mnemonic.sd c i h = Valid.insn_s-key c i _ _ _ h
valid-matches Mnemonic.sext_b c i h = Valid.insn_ext-key c i _ _ _ h
valid-matches Mnemonic.sext_h c i h = Valid.insn_ext-key c i _ _ _ h
valid-matches Mnemonic.sh c i h = Valid.insn_s-key c i _ _ _ h
valid-matches Mnemonic.sh1add c i h = Valid.insn_alu-key c i _ _ _ _ _ _ h
valid-matches Mnemonic.sh1add_uw c i h = Valid.insn_alu-key c i _ _ _ _ _ _ h
valid-matches Mnemonic.sh2add c i h = Valid.insn_alu-key c i _ _ _ _ _ _ h
valid-matches Mnemonic.sh2add_uw c i h = Valid.insn_alu-key c i _ _ _ _ _ _ h
valid-matches Mnemonic.sh3add c i h = Valid.insn_alu-key c i _ _ _ _ _ _ h
valid-matches Mnemonic.sh3add_uw c i h = Valid.insn_alu-key c i _ _ _ _ _ _ h
valid-matches Mnemonic.sll c i h = Valid.insn_alu-key c i _ _ _ _ _ _ h
valid-matches Mnemonic.slli c i h = Valid.insn_shimm-key c i _ _ _ _ _ h
valid-matches Mnemonic.slli_uw c i h = Valid.insn_shimm-key c i _ _ _ _ _ h
valid-matches Mnemonic.slliw c i h = Valid.insn_shimm-key c i _ _ _ _ _ h
valid-matches Mnemonic.sllw c i h = Valid.insn_alu-key c i _ _ _ _ _ _ h
valid-matches Mnemonic.slt c i h = Valid.insn_alu-key c i _ _ _ _ _ _ h
valid-matches Mnemonic.slti c i h = Valid.insn_imm-key c i _ _ _ _ h
valid-matches Mnemonic.sltiu c i h = Valid.insn_imm-key c i _ _ _ _ h
valid-matches Mnemonic.sltu c i h = Valid.insn_alu-key c i _ _ _ _ _ _ h
valid-matches Mnemonic.sra c i h = Valid.insn_alu-key c i _ _ _ _ _ _ h
valid-matches Mnemonic.srai c i h = Valid.insn_shimm-key c i _ _ _ _ _ h
valid-matches Mnemonic.sraiw c i h = Valid.insn_shimm-key c i _ _ _ _ _ h
valid-matches Mnemonic.sraw c i h = Valid.insn_alu-key c i _ _ _ _ _ _ h
valid-matches Mnemonic.srl c i h = Valid.insn_alu-key c i _ _ _ _ _ _ h
valid-matches Mnemonic.srli c i h = Valid.insn_shimm-key c i _ _ _ _ _ h
valid-matches Mnemonic.srliw c i h = Valid.insn_shimm-key c i _ _ _ _ _ h
valid-matches Mnemonic.srlw c i h = Valid.insn_alu-key c i _ _ _ _ _ _ h
valid-matches Mnemonic.sub c i h = Valid.insn_alu-key c i _ _ _ _ _ _ h
valid-matches Mnemonic.subw c i h = Valid.insn_alu-key c i _ _ _ _ _ _ h
valid-matches Mnemonic.sw c i h = Valid.insn_s-key c i _ _ _ h
valid-matches Mnemonic.unzip c i h = Valid.insn_zip-key c i _ _ _ h
valid-matches Mnemonic.xnor c i h = Valid.insn_alu-key c i _ _ _ _ _ _ h
valid-matches Mnemonic.xor c i h = Valid.insn_alu-key c i _ _ _ _ _ _ h
valid-matches Mnemonic.xori c i h = Valid.insn_imm-key c i _ _ _ _ h
valid-matches Mnemonic.xperm4 c i h = Valid.insn_xperm-key c i _ _ _ h
valid-matches Mnemonic.xperm8 c i h = Valid.insn_xperm-key c i _ _ _ h
valid-matches Mnemonic.zext_h c i h = Valid.zext-key c i _ h
valid-matches Mnemonic.zip c i h = Valid.insn_zip-key c i _ _ _ h
