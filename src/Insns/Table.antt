-- ===== src/Insns/Table.antt =====
-- The calls of insns/generate.py: the module that each instruction's call writes. In a text that
-- a call passes on, `a` and `b` stand for the two operands (`rvfi_rs1_rdata`, and `rvfi_rs2_rdata`,
-- `insn_imm`, `insn_shamt` or `index`), `s` for `shamt`.
use riscv_formal.Prelude.{
  ◌+◌, ◌-◌, ◌*◌, ◌==◌, true, false, not, ltb, leb, if◌then◌else◌, bit_and, bit_or, bit_xor,
}
use riscv_formal.Verilog
use riscv_formal.Verilog.{bits, wrap, flag, shl, shr, lnot}
use riscv_formal.Insns.Module.{Circuit, misa_b, misa_c, misa_m}
use riscv_formal.Insns.Mnemonic.{Mnemonic}
use riscv_formal.Insns.Base
use riscv_formal.Insns.Memory
use riscv_formal.Insns.Alu
use riscv_formal.Insns.Alu.{full, word, unsigned_word, no_alt, alt_add, alt_sub}
use riscv_formal.Insns.Bitmanip
use riscv_formal.Insns.Bitmanip.{leading, trailing, pop, bytewise, bitwise}
use riscv_formal.Insns.Compressed
use riscv_formal.Insns.MemoryC
use riscv_formal.Insns.Expr

-- The module of an instruction.
unfoldable pub model : Mnemonic → Circuit
model Mnemonic.lui = Base.insn_lui 0
model Mnemonic.auipc = Base.insn_auipc 0
model Mnemonic.jal = Base.insn_jal 0
model Mnemonic.jalr = Base.insn_jalr 0
model Mnemonic.beq = Base.insn_b 0b000 (λ c a b. a == b) 0
model Mnemonic.bne = Base.insn_b 0b001 (λ c a b. not (a == b)) 0
model Mnemonic.blt = Base.insn_b 0b100 (λ c a b. Verilog.slt c.xlen a b) 0
model Mnemonic.bge = Base.insn_b 0b101 (λ c a b. not (Verilog.slt c.xlen a b)) 0
model Mnemonic.bltu = Base.insn_b 0b110 (λ c a b. ltb a b) 0
model Mnemonic.bgeu = Base.insn_b 0b111 (λ c a b. leb b a) 0
model Mnemonic.lb = Memory.insn_l 0b000 1 true 0
model Mnemonic.lh = Memory.insn_l 0b001 2 true 0
model Mnemonic.lw = Memory.insn_l 0b010 4 true 0
model Mnemonic.lbu = Memory.insn_l 0b100 1 false 0
model Mnemonic.lhu = Memory.insn_l 0b101 2 false 0
model Mnemonic.sb = Memory.insn_s 0b000 1 0
model Mnemonic.sh = Memory.insn_s 0b001 2 0
model Mnemonic.sw = Memory.insn_s 0b010 4 0
model Mnemonic.addi = Alu.insn_imm 0b000 (λ c a b. a + b) false 0
model Mnemonic.slti = Alu.insn_imm 0b010 (λ c a b. flag (Verilog.slt c.xlen a b)) false 0
model Mnemonic.sltiu = Alu.insn_imm 0b011 (λ c a b. flag (ltb a b)) false 0
model Mnemonic.xori = Alu.insn_imm 0b100 (λ c a b. bit_xor a b) false 0
model Mnemonic.ori = Alu.insn_imm 0b110 (λ c a b. bit_or a b) false 0
model Mnemonic.andi = Alu.insn_imm 0b111 (λ c a b. bit_and a b) false 0
model Mnemonic.slli = Alu.insn_shimm 0b000000 0b001 (λ c a b. shl a b) full 0
model Mnemonic.srli = Alu.insn_shimm 0b000000 0b101 (λ c a b. shr a b) full 0
model Mnemonic.srai = Alu.insn_shimm 0b010000 0b101 (λ c a b. Verilog.sra c.xlen a b) full 0
model Mnemonic.add = Alu.insn_alu 0b0000000 0b000 (λ c a b s. a + b) no_alt full 0
model Mnemonic.sub = Alu.insn_alu 0b0100000 0b000 (λ c a b s. Verilog.sub c.xlen a b) no_alt full 0
model Mnemonic.sll = Alu.insn_alu 0b0000000 0b001 (λ c a b s. shl a s) no_alt full 0
model Mnemonic.slt =
    Alu.insn_alu 0b0000000 0b010 (λ c a b s. flag (Verilog.slt c.xlen a b)) no_alt full 0
model Mnemonic.sltu = Alu.insn_alu 0b0000000 0b011 (λ c a b s. flag (ltb a b)) no_alt full 0
model Mnemonic.xor = Alu.insn_alu 0b0000000 0b100 (λ c a b s. bit_xor a b) no_alt full 0
model Mnemonic.srl = Alu.insn_alu 0b0000000 0b101 (λ c a b s. shr a s) no_alt full 0
model Mnemonic.sra = Alu.insn_alu 0b0100000 0b101 (λ c a b s. Verilog.sra c.xlen a s) no_alt full 0
model Mnemonic.or = Alu.insn_alu 0b0000000 0b110 (λ c a b s. bit_or a b) no_alt full 0
model Mnemonic.and = Alu.insn_alu 0b0000000 0b111 (λ c a b s. bit_and a b) no_alt full 0
model Mnemonic.lwu = Memory.insn_l 0b110 4 false 0
model Mnemonic.ld = Memory.insn_l 0b011 8 true 0
model Mnemonic.sd = Memory.insn_s 0b011 8 0
model Mnemonic.addiw = Alu.insn_imm 0b000 (λ c a b. bits 31 0 a + bits 31 0 b) true 0
model Mnemonic.slliw = Alu.insn_shimm 0b000000 0b001 (λ c a b. shl (bits 31 0 a) b) word 0
model Mnemonic.srliw = Alu.insn_shimm 0b000000 0b101 (λ c a b. shr (bits 31 0 a) b) word 0
model Mnemonic.sraiw =
    Alu.insn_shimm 0b010000 0b101 (λ c a b. Verilog.sra 32 (bits 31 0 a) b) word 0
model Mnemonic.addw =
    Alu.insn_alu 0b0000000 0b000 (λ c a b s. bits 31 0 a + bits 31 0 b) no_alt word 0
model Mnemonic.subw =
    Alu.insn_alu 0b0100000 0b000 (λ c a b s. Verilog.sub 32 (bits 31 0 a) (bits 31 0 b)) no_alt word
      0
model Mnemonic.sllw = Alu.insn_alu 0b0000000 0b001 (λ c a b s. shl (bits 31 0 a) s) no_alt word 0
model Mnemonic.srlw = Alu.insn_alu 0b0000000 0b101 (λ c a b s. shr (bits 31 0 a) s) no_alt word 0
model Mnemonic.sraw =
    Alu.insn_alu 0b0100000 0b101 (λ c a b s. Verilog.sra 32 (bits 31 0 a) s) no_alt word 0
model Mnemonic.mul =
    Alu.insn_alu 0b0000001 0b000 (λ c a b s. a * b) (alt_add 0x2cdf52a55876063e) full misa_m
model Mnemonic.mulh =
    Alu.insn_alu 0b0000001 0b001 (λ c a b s. Expr.mulh c a b) (alt_add 0x15d01651f6583fb7) full
      misa_m
model Mnemonic.mulhsu =
    Alu.insn_alu 0b0000001 0b010 (λ c a b s. Expr.mulhsu c a b) (alt_sub 0xea3969edecfbe137) full
      misa_m
model Mnemonic.mulhu =
    Alu.insn_alu 0b0000001 0b011 (λ c a b s. Expr.mulhu c a b) (alt_add 0xd13db50d949ce5e8) full
      misa_m
model Mnemonic.div =
    Alu.insn_alu 0b0000001 0b100 (λ c a b s. Expr.div c a b) (alt_sub 0x29bbf66f7f8529ec) full
      misa_m
model Mnemonic.divu =
    Alu.insn_alu 0b0000001 0b101 (λ c a b s. Expr.divu c a b) (alt_sub 0x8c629acb10e8fd70) full
      misa_m
model Mnemonic.rem =
    Alu.insn_alu 0b0000001 0b110 (λ c a b s. Expr.rem c a b) (alt_sub 0xf5b7d8538da68fa5) full
      misa_m
model Mnemonic.remu =
    Alu.insn_alu 0b0000001 0b111 (λ c a b s. Expr.remu c a b) (alt_sub 0xbc4402413138d0e1) full
      misa_m
model Mnemonic.mulw =
    Alu.insn_alu 0b0000001 0b000 (λ c a b s. bits 31 0 a * bits 31 0 b) (alt_add 0x2cdf52a55876063e)
      word misa_m
model Mnemonic.divw =
    Alu.insn_alu 0b0000001 0b100 (λ c a b s. Expr.divw c a b) (alt_sub 0x29bbf66f7f8529ec) word
      misa_m
model Mnemonic.divuw =
    Alu.insn_alu 0b0000001 0b101 (λ c a b s. Expr.divuw c a b) (alt_sub 0x8c629acb10e8fd70) word
      misa_m
model Mnemonic.remw =
    Alu.insn_alu 0b0000001 0b110 (λ c a b s. Expr.remw c a b) (alt_sub 0xf5b7d8538da68fa5) word
      misa_m
model Mnemonic.remuw =
    Alu.insn_alu 0b0000001 0b111 (λ c a b s. Expr.remuw c a b) (alt_sub 0xbc4402413138d0e1) word
      misa_m
model Mnemonic.sh1add = Alu.insn_alu 0b0010000 0b010 (λ c a b s. b + shl a 1) no_alt full misa_b
model Mnemonic.sh2add = Alu.insn_alu 0b0010000 0b100 (λ c a b s. b + shl a 2) no_alt full misa_b
model Mnemonic.sh3add = Alu.insn_alu 0b0010000 0b110 (λ c a b s. b + shl a 3) no_alt full misa_b
model Mnemonic.add_uw =
    Alu.insn_alu 0b0000100 0b000 (λ c a b s. b + bits 31 0 a) no_alt unsigned_word misa_b
model Mnemonic.sh1add_uw =
    Alu.insn_alu 0b0010000 0b010 (λ c a b s. b + shl (bits 31 0 a) 1) no_alt unsigned_word misa_b
model Mnemonic.sh2add_uw =
    Alu.insn_alu 0b0010000 0b100 (λ c a b s. b + shl (bits 31 0 a) 2) no_alt unsigned_word misa_b
model Mnemonic.sh3add_uw =
    Alu.insn_alu 0b0010000 0b110 (λ c a b s. b + shl (bits 31 0 a) 3) no_alt unsigned_word misa_b
model Mnemonic.slli_uw =
    Alu.insn_shimm 0b000010 0b001 (λ c a b. shl (bits 31 0 a) b) unsigned_word misa_b
model Mnemonic.clz = Bitmanip.insn_count 0b00000 leading false misa_b
model Mnemonic.ctz = Bitmanip.insn_count 0b00001 trailing false misa_b
model Mnemonic.cpop = Bitmanip.insn_count 0b00010 pop false misa_b
model Mnemonic.max =
    Alu.insn_alu 0b0000101 0b110 (λ c a b s. if Verilog.slt c.xlen a b then b else a) no_alt full
      misa_b
model Mnemonic.maxu =
    Alu.insn_alu 0b0000101 0b111 (λ c a b s. if ltb a b then b else a) no_alt full misa_b
model Mnemonic.min =
    Alu.insn_alu 0b0000101 0b100 (λ c a b s. if Verilog.slt c.xlen a b then a else b) no_alt full
      misa_b
model Mnemonic.minu =
    Alu.insn_alu 0b0000101 0b101 (λ c a b s. if ltb a b then a else b) no_alt full misa_b
model Mnemonic.sext_b = Bitmanip.insn_ext 0b00100 true true misa_b
model Mnemonic.sext_h = Bitmanip.insn_ext 0b00101 true false misa_b
model Mnemonic.zext_h = Bitmanip.insn_ext 0b00000 false false misa_b
model Mnemonic.orc_b =
    Bitmanip.insn_bytes (λ c. 0b001010000111) 0b101 (bytewise Expr.orc_byte) misa_b
model Mnemonic.andn =
    Alu.insn_alu 0b0100000 0b111 (λ c a b s. bit_and a (lnot c.xlen b)) no_alt full misa_b
model Mnemonic.orn =
    Alu.insn_alu 0b0100000 0b110 (λ c a b s. bit_or a (lnot c.xlen b)) no_alt full misa_b
model Mnemonic.xnor =
    Alu.insn_alu 0b0100000 0b100 (λ c a b s. lnot c.xlen (bit_xor a b)) no_alt full misa_b
model Mnemonic.rol =
    Alu.insn_alu 0b0110000 0b001 (λ c a b s. bit_or (wrap c.xlen (shl a s)) (shr a (c.xlen - s)))
      no_alt full misa_b
model Mnemonic.ror =
    Alu.insn_alu 0b0110000 0b101 (λ c a b s. bit_or (shr a s) (wrap c.xlen (shl a (c.xlen - s))))
      no_alt full misa_b
model Mnemonic.rori =
    Alu.insn_shimm 0b011000 0b101 (λ c a b. bit_or (shr a b) (wrap c.xlen (shl a (c.xlen - b))))
      full misa_b
model Mnemonic.rev8 = Bitmanip.insn_bytes Expr.rev8_funct12 0b101 (bytewise Expr.rev8_byte) misa_b
model Mnemonic.pack = Bitmanip.insn_pack 0b100 (λ c. c.xlen) false 0
model Mnemonic.packh = Bitmanip.insn_pack 0b111 (λ c. 16) false 0
model Mnemonic.brev8 = Bitmanip.insn_bytes (λ c. 0b011010000111) 0b101 (bitwise Expr.brev8_bit) 0
model Mnemonic.zip = Bitmanip.insn_zip 0b001 false 0
model Mnemonic.unzip = Bitmanip.insn_zip 0b101 true 0
model Mnemonic.clzw = Bitmanip.insn_count 0b00000 leading true misa_b
model Mnemonic.ctzw = Bitmanip.insn_count 0b00001 trailing true misa_b
model Mnemonic.cpopw = Bitmanip.insn_count 0b00010 pop true misa_b
model Mnemonic.rolw =
    Alu.insn_alu 0b0110000 0b001
      (λ c a b s. bit_or (wrap 32 (shl (bits 31 0 a) s)) (shr (bits 31 0 a) (32 - s))) no_alt word
      misa_b
model Mnemonic.rorw =
    Alu.insn_alu 0b0110000 0b101
      (λ c a b s. bit_or (shr (bits 31 0 a) s) (wrap 32 (shl (bits 31 0 a) (32 - s)))) no_alt word
      misa_b
model Mnemonic.roriw =
    Alu.insn_shimm 0b011000 0b101
      (λ c a b. bit_or (shr (bits 31 0 a) b) (wrap 32 (shl (bits 31 0 a) (32 - b)))) word misa_b
model Mnemonic.packw = Bitmanip.insn_pack 0b100 (λ c. 32) true 0
model Mnemonic.clmul = Bitmanip.insn_clmul 0b001 (λ n a i. shl a i) false 0
model Mnemonic.clmulh = Bitmanip.insn_clmul 0b011 (λ n a i. shr a (n - i)) true 0
model Mnemonic.clmulr = Bitmanip.insn_clmul 0b010 (λ n a i. shr a (n - i - 1)) false 0
model Mnemonic.bclr =
    Bitmanip.insn_bit 0b010010 0b001 (λ c a b. bit_and a (lnot c.xlen (shl 1 b))) false misa_b
model Mnemonic.bclri =
    Bitmanip.insn_bit 0b010010 0b001 (λ c a b. bit_and a (lnot c.xlen (shl 1 b))) true misa_b
model Mnemonic.bext = Bitmanip.insn_bit 0b010010 0b101 (λ c a b. bit_and (shr a b) 1) false misa_b
model Mnemonic.bexti = Bitmanip.insn_bit 0b010010 0b101 (λ c a b. bit_and (shr a b) 1) true misa_b
model Mnemonic.binv = Bitmanip.insn_bit 0b011010 0b001 (λ c a b. bit_xor a (shl 1 b)) false misa_b
model Mnemonic.binvi = Bitmanip.insn_bit 0b011010 0b001 (λ c a b. bit_xor a (shl 1 b)) true misa_b
model Mnemonic.bset = Bitmanip.insn_bit 0b001010 0b001 (λ c a b. bit_or a (shl 1 b)) false misa_b
model Mnemonic.bseti = Bitmanip.insn_bit 0b001010 0b001 (λ c a b. bit_or a (shl 1 b)) true misa_b
model Mnemonic.xperm4 = Bitmanip.insn_xperm 0b010 4 0
model Mnemonic.xperm8 = Bitmanip.insn_xperm 0b100 8 0
model Mnemonic.c_addi4spn = Compressed.insn_c_addi4spn misa_c
model Mnemonic.c_lw = MemoryC.insn_c_l 0b010 4 true misa_c
model Mnemonic.c_sw = MemoryC.insn_c_s 0b110 4 misa_c
model Mnemonic.c_addi = Compressed.insn_c_addi false misa_c
model Mnemonic.c_jal = Compressed.insn_c_jal 0b001 true misa_c
model Mnemonic.c_li = Compressed.insn_c_li misa_c
model Mnemonic.c_addi16sp = Compressed.insn_c_addi16sp misa_c
model Mnemonic.c_lui = Compressed.insn_c_lui misa_c
model Mnemonic.c_srli = Compressed.insn_c_sri 0b00 (λ c a b. shr a b) misa_c
model Mnemonic.c_srai = Compressed.insn_c_sri 0b01 (λ c a b. Verilog.sra c.xlen a b) misa_c
model Mnemonic.c_andi = Compressed.insn_c_andi misa_c
model Mnemonic.c_sub =
    Compressed.insn_c_alu 0b100011 0b00 (λ c a b. Verilog.sub c.xlen a b) false misa_c
model Mnemonic.c_xor = Compressed.insn_c_alu 0b100011 0b01 (λ c a b. bit_xor a b) false misa_c
model Mnemonic.c_or = Compressed.insn_c_alu 0b100011 0b10 (λ c a b. bit_or a b) false misa_c
model Mnemonic.c_and = Compressed.insn_c_alu 0b100011 0b11 (λ c a b. bit_and a b) false misa_c
model Mnemonic.c_j = Compressed.insn_c_jal 0b101 false misa_c
model Mnemonic.c_beqz = Compressed.insn_c_b 0b110 (λ a. a == 0) misa_c
model Mnemonic.c_bnez = Compressed.insn_c_b 0b111 (λ a. not (a == 0)) misa_c
model Mnemonic.c_slli = Compressed.insn_c_sli (λ c a b. shl a b) misa_c
model Mnemonic.c_lwsp = MemoryC.insn_c_lsp 0b010 4 true misa_c
model Mnemonic.c_jr = Compressed.insn_c_jalr 0b1000 false misa_c
model Mnemonic.c_mv = Compressed.insn_c_mvadd 0b1000 false misa_c
model Mnemonic.c_jalr = Compressed.insn_c_jalr 0b1001 true misa_c
model Mnemonic.c_add = Compressed.insn_c_mvadd 0b1001 true misa_c
model Mnemonic.c_swsp = MemoryC.insn_c_ssp 0b110 4 misa_c
model Mnemonic.c_addiw = Compressed.insn_c_addi true misa_c
model Mnemonic.c_subw =
    Compressed.insn_c_alu 0b100111 0b00 (λ c a b. Verilog.sub 32 (bits 31 0 a) (bits 31 0 b)) true
      misa_c
model Mnemonic.c_addw =
    Compressed.insn_c_alu 0b100111 0b01 (λ c a b. bits 31 0 a + bits 31 0 b) true misa_c
model Mnemonic.c_ld = MemoryC.insn_c_l 0b011 8 true misa_c
model Mnemonic.c_sd = MemoryC.insn_c_s 0b111 8 misa_c
model Mnemonic.c_ldsp = MemoryC.insn_c_lsp 0b011 8 true misa_c
model Mnemonic.c_sdsp = MemoryC.insn_c_ssp 0b111 8 misa_c
