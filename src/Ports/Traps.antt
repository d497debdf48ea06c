-- ===== src/Ports/Traps.antt =====
-- The traps of the whole instruction table.
use riscv_formal.Prelude.{ℕ, ◌≡◌, true, false}
use riscv_formal.Insns.Module.{Macros, Rvfi, misa_b, misa_c, misa_m, misa_ok}
use riscv_formal.Insns.Mnemonic.{Mnemonic}
use riscv_formal.Insns.Table.{model}
use riscv_formal.Ports.Control
use riscv_formal.Ports.ControlC

-- The argument `misa` of the call that defines an instruction.
unfoldable pub misa_mask : Mnemonic → ℕ
misa_mask Mnemonic.add = 0
misa_mask Mnemonic.add_uw = misa_b
misa_mask Mnemonic.addi = 0
misa_mask Mnemonic.addiw = 0
misa_mask Mnemonic.addw = 0
misa_mask Mnemonic.and = 0
misa_mask Mnemonic.andi = 0
misa_mask Mnemonic.andn = misa_b
misa_mask Mnemonic.auipc = 0
misa_mask Mnemonic.bclr = misa_b
misa_mask Mnemonic.bclri = misa_b
misa_mask Mnemonic.beq = 0
misa_mask Mnemonic.bext = misa_b
misa_mask Mnemonic.bexti = misa_b
misa_mask Mnemonic.bge = 0
misa_mask Mnemonic.bgeu = 0
misa_mask Mnemonic.binv = misa_b
misa_mask Mnemonic.binvi = misa_b
misa_mask Mnemonic.blt = 0
misa_mask Mnemonic.bltu = 0
misa_mask Mnemonic.bne = 0
misa_mask Mnemonic.brev8 = 0
misa_mask Mnemonic.bset = misa_b
misa_mask Mnemonic.bseti = misa_b
misa_mask Mnemonic.c_add = misa_c
misa_mask Mnemonic.c_addi = misa_c
misa_mask Mnemonic.c_addi16sp = misa_c
misa_mask Mnemonic.c_addi4spn = misa_c
misa_mask Mnemonic.c_addiw = misa_c
misa_mask Mnemonic.c_addw = misa_c
misa_mask Mnemonic.c_and = misa_c
misa_mask Mnemonic.c_andi = misa_c
misa_mask Mnemonic.c_beqz = misa_c
misa_mask Mnemonic.c_bnez = misa_c
misa_mask Mnemonic.c_j = misa_c
misa_mask Mnemonic.c_jal = misa_c
misa_mask Mnemonic.c_jalr = misa_c
misa_mask Mnemonic.c_jr = misa_c
misa_mask Mnemonic.c_ld = misa_c
misa_mask Mnemonic.c_ldsp = misa_c
misa_mask Mnemonic.c_li = misa_c
misa_mask Mnemonic.c_lui = misa_c
misa_mask Mnemonic.c_lw = misa_c
misa_mask Mnemonic.c_lwsp = misa_c
misa_mask Mnemonic.c_mv = misa_c
misa_mask Mnemonic.c_or = misa_c
misa_mask Mnemonic.c_sd = misa_c
misa_mask Mnemonic.c_sdsp = misa_c
misa_mask Mnemonic.c_slli = misa_c
misa_mask Mnemonic.c_srai = misa_c
misa_mask Mnemonic.c_srli = misa_c
misa_mask Mnemonic.c_sub = misa_c
misa_mask Mnemonic.c_subw = misa_c
misa_mask Mnemonic.c_sw = misa_c
misa_mask Mnemonic.c_swsp = misa_c
misa_mask Mnemonic.c_xor = misa_c
misa_mask Mnemonic.clmul = 0
misa_mask Mnemonic.clmulh = 0
misa_mask Mnemonic.clmulr = 0
misa_mask Mnemonic.clz = misa_b
misa_mask Mnemonic.clzw = misa_b
misa_mask Mnemonic.cpop = misa_b
misa_mask Mnemonic.cpopw = misa_b
misa_mask Mnemonic.ctz = misa_b
misa_mask Mnemonic.ctzw = misa_b
misa_mask Mnemonic.div = misa_m
misa_mask Mnemonic.divu = misa_m
misa_mask Mnemonic.divuw = misa_m
misa_mask Mnemonic.divw = misa_m
misa_mask Mnemonic.jal = 0
misa_mask Mnemonic.jalr = 0
misa_mask Mnemonic.lb = 0
misa_mask Mnemonic.lbu = 0
misa_mask Mnemonic.ld = 0
misa_mask Mnemonic.lh = 0
misa_mask Mnemonic.lhu = 0
misa_mask Mnemonic.lui = 0
misa_mask Mnemonic.lw = 0
misa_mask Mnemonic.lwu = 0
misa_mask Mnemonic.max = misa_b
misa_mask Mnemonic.maxu = misa_b
misa_mask Mnemonic.min = misa_b
misa_mask Mnemonic.minu = misa_b
misa_mask Mnemonic.mul = misa_m
misa_mask Mnemonic.mulh = misa_m
misa_mask Mnemonic.mulhsu = misa_m
misa_mask Mnemonic.mulhu = misa_m
misa_mask Mnemonic.mulw = misa_m
misa_mask Mnemonic.or = 0
misa_mask Mnemonic.orc_b = misa_b
misa_mask Mnemonic.ori = 0
misa_mask Mnemonic.orn = misa_b
misa_mask Mnemonic.pack = 0
misa_mask Mnemonic.packh = 0
misa_mask Mnemonic.packw = 0
misa_mask Mnemonic.rem = misa_m
misa_mask Mnemonic.remu = misa_m
misa_mask Mnemonic.remuw = misa_m
misa_mask Mnemonic.remw = misa_m
misa_mask Mnemonic.rev8 = misa_b
misa_mask Mnemonic.rol = misa_b
misa_mask Mnemonic.rolw = misa_b
misa_mask Mnemonic.ror = misa_b
misa_mask Mnemonic.rori = misa_b
misa_mask Mnemonic.roriw = misa_b
misa_mask Mnemonic.rorw = misa_b
misa_mask Mnemonic.sb = 0
misa_mask Mnemonic.sd = 0
misa_mask Mnemonic.sext_b = misa_b
misa_mask Mnemonic.sext_h = misa_b
misa_mask Mnemonic.sh = 0
misa_mask Mnemonic.sh1add = misa_b
misa_mask Mnemonic.sh1add_uw = misa_b
misa_mask Mnemonic.sh2add = misa_b
misa_mask Mnemonic.sh2add_uw = misa_b
misa_mask Mnemonic.sh3add = misa_b
misa_mask Mnemonic.sh3add_uw = misa_b
misa_mask Mnemonic.sll = 0
misa_mask Mnemonic.slli = 0
misa_mask Mnemonic.slli_uw = misa_b
misa_mask Mnemonic.slliw = 0
misa_mask Mnemonic.sllw = 0
misa_mask Mnemonic.slt = 0
misa_mask Mnemonic.slti = 0
misa_mask Mnemonic.sltiu = 0
misa_mask Mnemonic.sltu = 0
misa_mask Mnemonic.sra = 0
misa_mask Mnemonic.srai = 0
misa_mask Mnemonic.sraiw = 0
misa_mask Mnemonic.sraw = 0
misa_mask Mnemonic.srl = 0
misa_mask Mnemonic.srli = 0
misa_mask Mnemonic.srliw = 0
misa_mask Mnemonic.srlw = 0
misa_mask Mnemonic.sub = 0
misa_mask Mnemonic.subw = 0
misa_mask Mnemonic.sw = 0
misa_mask Mnemonic.unzip = 0
misa_mask Mnemonic.xnor = misa_b
misa_mask Mnemonic.xor = 0
misa_mask Mnemonic.xori = 0
misa_mask Mnemonic.xperm4 = 0
misa_mask Mnemonic.xperm8 = 0
misa_mask Mnemonic.zext_h = misa_b
misa_mask Mnemonic.zip = 0

-- An instruction whose extension the `misa` register reports as missing traps.
pub model-trap :
    (m : Mnemonic) (c : Macros) (i : Rvfi)
    → misa_ok c (misa_mask m) i ≡ false
    → (model m c i).trap ≡ true
unfolding model misa_mask
model-trap Mnemonic.add c i h = Control.insn_alu-trap c i _ _ _ _ _ _ h
model-trap Mnemonic.add_uw c i h = Control.insn_alu-trap c i _ _ _ _ _ _ h
model-trap Mnemonic.addi c i h = Control.insn_imm-trap c i _ _ _ _ h
model-trap Mnemonic.addiw c i h = Control.insn_imm-trap c i _ _ _ _ h
model-trap Mnemonic.addw c i h = Control.insn_alu-trap c i _ _ _ _ _ _ h
model-trap Mnemonic.and c i h = Control.insn_alu-trap c i _ _ _ _ _ _ h
model-trap Mnemonic.andi c i h = Control.insn_imm-trap c i _ _ _ _ h
model-trap Mnemonic.andn c i h = Control.insn_alu-trap c i _ _ _ _ _ _ h
model-trap Mnemonic.auipc c i h = Control.insn_auipc-trap c i _ h
model-trap Mnemonic.bclr c i h = Control.insn_bit-trap c i _ _ _ _ _ h
model-trap Mnemonic.bclri c i h = Control.insn_bit-trap c i _ _ _ _ _ h
model-trap Mnemonic.beq c i h = Control.insn_b-trap c i _ _ _ h
model-trap Mnemonic.bext c i h = Control.insn_bit-trap c i _ _ _ _ _ h
model-trap Mnemonic.bexti c i h = Control.insn_bit-trap c i _ _ _ _ _ h
model-trap Mnemonic.bge c i h = Control.insn_b-trap c i _ _ _ h
model-trap Mnemonic.bgeu c i h = Control.insn_b-trap c i _ _ _ h
model-trap Mnemonic.binv c i h = Control.insn_bit-trap c i _ _ _ _ _ h
model-trap Mnemonic.binvi c i h = Control.insn_bit-trap c i _ _ _ _ _ h
model-trap Mnemonic.blt c i h = Control.insn_b-trap c i _ _ _ h
model-trap Mnemonic.bltu c i h = Control.insn_b-trap c i _ _ _ h
model-trap Mnemonic.bne c i h = Control.insn_b-trap c i _ _ _ h
model-trap Mnemonic.brev8 c i h = Control.insn_bytes-trap c i _ _ _ _ h
model-trap Mnemonic.bset c i h = Control.insn_bit-trap c i _ _ _ _ _ h
model-trap Mnemonic.bseti c i h = Control.insn_bit-trap c i _ _ _ _ _ h
model-trap Mnemonic.c_add c i h = ControlC.insn_c_mvadd-trap c i _ _ _ h
model-trap Mnemonic.c_addi c i h = ControlC.insn_c_addi-trap c i _ _ h
model-trap Mnemonic.c_addi16sp c i h = ControlC.insn_c_addi16sp-trap c i _ h
model-trap Mnemonic.c_addi4spn c i h = ControlC.insn_c_addi4spn-trap c i _ h
model-trap Mnemonic.c_addiw c i h = ControlC.insn_c_addi-trap c i _ _ h
model-trap Mnemonic.c_addw c i h = ControlC.insn_c_alu-trap c i _ _ _ _ _ h
model-trap Mnemonic.c_and c i h = ControlC.insn_c_alu-trap c i _ _ _ _ _ h
model-trap Mnemonic.c_andi c i h = ControlC.insn_c_andi-trap c i _ h
model-trap Mnemonic.c_beqz c i h = ControlC.insn_c_b-trap c i _ _ _ h
model-trap Mnemonic.c_bnez c i h = ControlC.insn_c_b-trap c i _ _ _ h
model-trap Mnemonic.c_j c i h = ControlC.insn_c_jal-trap c i _ _ _ h
model-trap Mnemonic.c_jal c i h = ControlC.insn_c_jal-trap c i _ _ _ h
model-trap Mnemonic.c_jalr c i h = ControlC.insn_c_jalr-trap c i _ _ _ h
model-trap Mnemonic.c_jr c i h = ControlC.insn_c_jalr-trap c i _ _ _ h
model-trap Mnemonic.c_ld c i h = ControlC.insn_c_l-trap c i _ _ _ _ h
model-trap Mnemonic.c_ldsp c i h = ControlC.insn_c_lsp-trap c i _ _ _ _ h
model-trap Mnemonic.c_li c i h = ControlC.insn_c_li-trap c i _ h
model-trap Mnemonic.c_lui c i h = ControlC.insn_c_lui-trap c i _ h
model-trap Mnemonic.c_lw c i h = ControlC.insn_c_l-trap c i _ _ _ _ h
model-trap Mnemonic.c_lwsp c i h = ControlC.insn_c_lsp-trap c i _ _ _ _ h
model-trap Mnemonic.c_mv c i h = ControlC.insn_c_mvadd-trap c i _ _ _ h
model-trap Mnemonic.c_or c i h = ControlC.insn_c_alu-trap c i _ _ _ _ _ h
model-trap Mnemonic.c_sd c i h = ControlC.insn_c_s-trap c i _ _ _ h
model-trap Mnemonic.c_sdsp c i h = ControlC.insn_c_ssp-trap c i _ _ _ h
model-trap Mnemonic.c_slli c i h = ControlC.insn_c_sli-trap c i _ _ h
model-trap Mnemonic.c_srai c i h = ControlC.insn_c_sri-trap c i _ _ _ h
model-trap Mnemonic.c_srli c i h = ControlC.insn_c_sri-trap c i _ _ _ h
model-trap Mnemonic.c_sub c i h = ControlC.insn_c_alu-trap c i _ _ _ _ _ h
model-trap Mnemonic.c_subw c i h = ControlC.insn_c_alu-trap c i _ _ _ _ _ h
model-trap Mnemonic.c_sw c i h = ControlC.insn_c_s-trap c i _ _ _ h
model-trap Mnemonic.c_swsp c i h = ControlC.insn_c_ssp-trap c i _ _ _ h
model-trap Mnemonic.c_xor c i h = ControlC.insn_c_alu-trap c i _ _ _ _ _ h
model-trap Mnemonic.clmul c i h = Control.insn_clmul-trap c i _ _ _ _ h
model-trap Mnemonic.clmulh c i h = Control.insn_clmul-trap c i _ _ _ _ h
model-trap Mnemonic.clmulr c i h = Control.insn_clmul-trap c i _ _ _ _ h
model-trap Mnemonic.clz c i h = Control.insn_count-trap c i _ _ _ _ h
model-trap Mnemonic.clzw c i h = Control.insn_count-trap c i _ _ _ _ h
model-trap Mnemonic.cpop c i h = Control.insn_count-trap c i _ _ _ _ h
model-trap Mnemonic.cpopw c i h = Control.insn_count-trap c i _ _ _ _ h
model-trap Mnemonic.ctz c i h = Control.insn_count-trap c i _ _ _ _ h
model-trap Mnemonic.ctzw c i h = Control.insn_count-trap c i _ _ _ _ h
model-trap Mnemonic.div c i h = Control.insn_alu-trap c i _ _ _ _ _ _ h
model-trap Mnemonic.divu c i h = Control.insn_alu-trap c i _ _ _ _ _ _ h
model-trap Mnemonic.divuw c i h = Control.insn_alu-trap c i _ _ _ _ _ _ h
model-trap Mnemonic.divw c i h = Control.insn_alu-trap c i _ _ _ _ _ _ h
model-trap Mnemonic.jal c i h = Control.insn_jal-trap c i _ h
model-trap Mnemonic.jalr c i h = Control.insn_jalr-trap c i _ h
model-trap Mnemonic.lb c i h = Control.insn_l-trap c i _ _ _ _ h
model-trap Mnemonic.lbu c i h = Control.insn_l-trap c i _ _ _ _ h
model-trap Mnemonic.ld c i h = Control.insn_l-trap c i _ _ _ _ h
model-trap Mnemonic.lh c i h = Control.insn_l-trap c i _ _ _ _ h
model-trap Mnemonic.lhu c i h = Control.insn_l-trap c i _ _ _ _ h
model-trap Mnemonic.lui c i h = Control.insn_lui-trap c i _ h
model-trap Mnemonic.lw c i h = Control.insn_l-trap c i _ _ _ _ h
model-trap Mnemonic.lwu c i h = Control.insn_l-trap c i _ _ _ _ h
model-trap Mnemonic.max c i h = Control.insn_alu-trap c i _ _ _ _ _ _ h
model-trap Mnemonic.maxu c i h = Control.insn_alu-trap c i _ _ _ _ _ _ h
model-trap Mnemonic.min c i h = Control.insn_alu-trap c i _ _ _ _ _ _ h
model-trap Mnemonic.minu c i h = Control.insn_alu-trap c i _ _ _ _ _ _ h
model-trap Mnemonic.mul c i h = Control.insn_alu-trap c i _ _ _ _ _ _ h
model-trap Mnemonic.mulh c i h = Control.insn_alu-trap c i _ _ _ _ _ _ h
model-trap Mnemonic.mulhsu c i h = Control.insn_alu-trap c i _ _ _ _ _ _ h
model-trap Mnemonic.mulhu c i h = Control.insn_alu-trap c i _ _ _ _ _ _ h
model-trap Mnemonic.mulw c i h = Control.insn_alu-trap c i _ _ _ _ _ _ h
model-trap Mnemonic.or c i h = Control.insn_alu-trap c i _ _ _ _ _ _ h
model-trap Mnemonic.orc_b c i h = Control.insn_bytes-trap c i _ _ _ _ h
model-trap Mnemonic.ori c i h = Control.insn_imm-trap c i _ _ _ _ h
model-trap Mnemonic.orn c i h = Control.insn_alu-trap c i _ _ _ _ _ _ h
model-trap Mnemonic.pack c i h = Control.insn_pack-trap c i _ _ _ _ h
model-trap Mnemonic.packh c i h = Control.insn_pack-trap c i _ _ _ _ h
model-trap Mnemonic.packw c i h = Control.insn_pack-trap c i _ _ _ _ h
model-trap Mnemonic.rem c i h = Control.insn_alu-trap c i _ _ _ _ _ _ h
model-trap Mnemonic.remu c i h = Control.insn_alu-trap c i _ _ _ _ _ _ h
model-trap Mnemonic.remuw c i h = Control.insn_alu-trap c i _ _ _ _ _ _ h
model-trap Mnemonic.remw c i h = Control.insn_alu-trap c i _ _ _ _ _ _ h
model-trap Mnemonic.rev8 c i h = Control.insn_bytes-trap c i _ _ _ _ h
model-trap Mnemonic.rol c i h = Control.insn_alu-trap c i _ _ _ _ _ _ h
model-trap Mnemonic.rolw c i h = Control.insn_alu-trap c i _ _ _ _ _ _ h
model-trap Mnemonic.ror c i h = Control.insn_alu-trap c i _ _ _ _ _ _ h
model-trap Mnemonic.rori c i h = Control.insn_shimm-trap c i _ _ _ _ _ h
model-trap Mnemonic.roriw c i h = Control.insn_shimm-trap c i _ _ _ _ _ h
model-trap Mnemonic.rorw c i h = Control.insn_alu-trap c i _ _ _ _ _ _ h
model-trap Mnemonic.sb c i h = Control.insn_s-trap c i _ _ _ h
model-trap Mnemonic.sd c i h = Control.insn_s-trap c i _ _ _ h
model-trap Mnemonic.sext_b c i h = Control.insn_ext-trap c i _ _ _ _ h
model-trap Mnemonic.sext_h c i h = Control.insn_ext-trap c i _ _ _ _ h
model-trap Mnemonic.sh c i h = Control.insn_s-trap c i _ _ _ h
model-trap Mnemonic.sh1add c i h = Control.insn_alu-trap c i _ _ _ _ _ _ h
model-trap Mnemonic.sh1add_uw c i h = Control.insn_alu-trap c i _ _ _ _ _ _ h
model-trap Mnemonic.sh2add c i h = Control.insn_alu-trap c i _ _ _ _ _ _ h
model-trap Mnemonic.sh2add_uw c i h = Control.insn_alu-trap c i _ _ _ _ _ _ h
model-trap Mnemonic.sh3add c i h = Control.insn_alu-trap c i _ _ _ _ _ _ h
model-trap Mnemonic.sh3add_uw c i h = Control.insn_alu-trap c i _ _ _ _ _ _ h
model-trap Mnemonic.sll c i h = Control.insn_alu-trap c i _ _ _ _ _ _ h
model-trap Mnemonic.slli c i h = Control.insn_shimm-trap c i _ _ _ _ _ h
model-trap Mnemonic.slli_uw c i h = Control.insn_shimm-trap c i _ _ _ _ _ h
model-trap Mnemonic.slliw c i h = Control.insn_shimm-trap c i _ _ _ _ _ h
model-trap Mnemonic.sllw c i h = Control.insn_alu-trap c i _ _ _ _ _ _ h
model-trap Mnemonic.slt c i h = Control.insn_alu-trap c i _ _ _ _ _ _ h
model-trap Mnemonic.slti c i h = Control.insn_imm-trap c i _ _ _ _ h
model-trap Mnemonic.sltiu c i h = Control.insn_imm-trap c i _ _ _ _ h
model-trap Mnemonic.sltu c i h = Control.insn_alu-trap c i _ _ _ _ _ _ h
model-trap Mnemonic.sra c i h = Control.insn_alu-trap c i _ _ _ _ _ _ h
model-trap Mnemonic.srai c i h = Control.insn_shimm-trap c i _ _ _ _ _ h
model-trap Mnemonic.sraiw c i h = Control.insn_shimm-trap c i _ _ _ _ _ h
model-trap Mnemonic.sraw c i h = Control.insn_alu-trap c i _ _ _ _ _ _ h
model-trap Mnemonic.srl c i h = Control.insn_alu-trap c i _ _ _ _ _ _ h
model-trap Mnemonic.srli c i h = Control.insn_shimm-trap c i _ _ _ _ _ h
model-trap Mnemonic.srliw c i h = Control.insn_shimm-trap c i _ _ _ _ _ h
model-trap Mnemonic.srlw c i h = Control.insn_alu-trap c i _ _ _ _ _ _ h
model-trap Mnemonic.sub c i h = Control.insn_alu-trap c i _ _ _ _ _ _ h
model-trap Mnemonic.subw c i h = Control.insn_alu-trap c i _ _ _ _ _ _ h
model-trap Mnemonic.sw c i h = Control.insn_s-trap c i _ _ _ h
model-trap Mnemonic.unzip c i h = Control.insn_zip-trap c i _ _ _ h
model-trap Mnemonic.xnor c i h = Control.insn_alu-trap c i _ _ _ _ _ _ h
model-trap Mnemonic.xor c i h = Control.insn_alu-trap c i _ _ _ _ _ _ h
model-trap Mnemonic.xori c i h = Control.insn_imm-trap c i _ _ _ _ h
model-trap Mnemonic.xperm4 c i h = Control.insn_xperm-trap c i _ _ _ h
model-trap Mnemonic.xperm8 c i h = Control.insn_xperm-trap c i _ _ _ h
model-trap Mnemonic.zext_h c i h = Control.insn_ext-trap c i _ _ _ _ h
model-trap Mnemonic.zip c i h = Control.insn_zip-trap c i _ _ _ h
