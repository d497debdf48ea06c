-- ===== src/Isa/Key.antt =====
-- How each instruction is recognised: the fields of the word that are fixed, as the opcode tables of
-- the instruction set give them, and what it means that two such patterns exclude one another.
use riscv_formal.Prelude.{ℕ, ◌-◌, Bool, false, not, ◌&&◌, ◌||◌, ◌==◌, leb, List, [], ◌∷◌, any, all}
use riscv_formal.Verilog.{bits}
use riscv_formal.Insns.Mnemonic.{Mnemonic}

-- A field of the word has, or has not, a given value.
pub data FieldTest : Type 0 where
  eq ne : ℕ → ℕ → ℕ → FieldTest

unfoldable pub holds : ℕ → FieldTest → Bool
holds x (eq hi lo v) = bits hi lo x == v
holds x (ne hi lo v) = not (bits hi lo x == v)

abbrev pub matches : List FieldTest → ℕ → Bool
matches ts x = all (holds x) ts

-- The second field lies in the first.
abbrev pub inside : ℕ → ℕ → ℕ → ℕ → Bool
inside hi lo hi' lo' = leb lo lo' && leb lo' hi' && leb hi' hi

-- A word cannot pass both tests.
unfoldable pub excludes : FieldTest → FieldTest → Bool
excludes (eq hi lo v) (eq hi' lo' v') =
    inside hi lo hi' lo' && not (bits (hi' - lo) (lo' - lo) v == v')
excludes (eq hi lo v) (ne hi' lo' v') = inside hi lo hi' lo' && bits (hi' - lo) (lo' - lo) v == v'
excludes (ne hi lo v) t = false

-- Some test of one pattern excludes one of the other, in one of the two orders.
unfoldable pub disjoint : List FieldTest → List FieldTest → Bool
unfolding excludes
disjoint ks ls =
    any (λ k. any (λ l. excludes k l) ls) ks || any (λ l. any (λ k. excludes l k) ks) ls

abbrev pub opcode_key : ℕ → List FieldTest
opcode_key op = eq 6 0 op ∷ []

abbrev pub imm_key : ℕ → ℕ → List FieldTest
imm_key f3 op = eq 6 0 op ∷ eq 14 12 f3 ∷ []

abbrev pub alu_key : ℕ → ℕ → ℕ → List FieldTest
alu_key f7 f3 op = eq 6 0 op ∷ eq 14 12 f3 ∷ eq 31 25 f7 ∷ []

abbrev pub shift_key : ℕ → ℕ → ℕ → List FieldTest
shift_key f6 f3 op = eq 6 0 op ∷ eq 14 12 f3 ∷ eq 31 26 f6 ∷ []

abbrev pub unary_key : ℕ → ℕ → ℕ → ℕ → List FieldTest
unary_key f7 f5 f3 op = eq 6 0 op ∷ eq 14 12 f3 ∷ eq 31 25 f7 ∷ eq 24 20 f5 ∷ []

abbrev pub bytes_key : ℕ → List FieldTest
bytes_key f12 = eq 6 0 0b0010011 ∷ eq 14 12 0b101 ∷ eq 31 20 f12 ∷ []

-- Bit 25 of `rev8` and bit 3 of `zext_h` depend on XLEN.
abbrev pub rev8_key : List FieldTest
rev8_key = eq 6 0 0b0010011 ∷ eq 14 12 0b101 ∷ eq 31 26 0b011010 ∷ eq 24 20 0b11000 ∷ []

abbrev pub zext_key : List FieldTest
zext_key = eq 2 0 0b011 ∷ eq 6 4 0b011 ∷ eq 14 12 0b100 ∷ eq 31 25 0b0000100 ∷ eq 24 20 0b00000 ∷ []

abbrev pub c_key : ℕ → ℕ → List FieldTest
c_key f3 op = eq 1 0 op ∷ eq 15 13 f3 ∷ []

abbrev pub c_alu_key : ℕ → ℕ → List FieldTest
c_alu_key f6 f2 = eq 1 0 0b01 ∷ eq 15 10 f6 ∷ eq 6 5 f2 ∷ []

abbrev pub c_jr_key : ℕ → List FieldTest
c_jr_key f4 = eq 1 0 0b10 ∷ eq 15 12 f4 ∷ ne 11 7 0 ∷ eq 6 2 0 ∷ []

abbrev pub c_mv_key : ℕ → List FieldTest
c_mv_key f4 = eq 1 0 0b10 ∷ eq 15 12 f4 ∷ ne 6 2 0 ∷ []

unfoldable pub key : Mnemonic → List FieldTest
key Mnemonic.lui = opcode_key 0b0110111
key Mnemonic.auipc = opcode_key 0b0010111
key Mnemonic.jal = opcode_key 0b1101111
key Mnemonic.jalr = imm_key 0b000 0b1100111
key Mnemonic.beq = imm_key 0b000 0b1100011
key Mnemonic.bne = imm_key 0b001 0b1100011
key Mnemonic.blt = imm_key 0b100 0b1100011
key Mnemonic.bge = imm_key 0b101 0b1100011
key Mnemonic.bltu = imm_key 0b110 0b1100011
key Mnemonic.bgeu = imm_key 0b111 0b1100011
key Mnemonic.lb = imm_key 0b000 0b0000011
key Mnemonic.lh = imm_key 0b001 0b0000011
key Mnemonic.lw = imm_key 0b010 0b0000011
key Mnemonic.lbu = imm_key 0b100 0b0000011
key Mnemonic.lhu = imm_key 0b101 0b0000011
key Mnemonic.sb = imm_key 0b000 0b0100011
key Mnemonic.sh = imm_key 0b001 0b0100011
key Mnemonic.sw = imm_key 0b010 0b0100011
key Mnemonic.addi = imm_key 0b000 0b0010011
key Mnemonic.slti = imm_key 0b010 0b0010011
key Mnemonic.sltiu = imm_key 0b011 0b0010011
key Mnemonic.xori = imm_key 0b100 0b0010011
key Mnemonic.ori = imm_key 0b110 0b0010011
key Mnemonic.andi = imm_key 0b111 0b0010011
key Mnemonic.slli = shift_key 0b000000 0b001 0b0010011
key Mnemonic.srli = shift_key 0b000000 0b101 0b0010011
key Mnemonic.srai = shift_key 0b010000 0b101 0b0010011
key Mnemonic.add = alu_key 0b0000000 0b000 0b0110011
key Mnemonic.sub = alu_key 0b0100000 0b000 0b0110011
key Mnemonic.sll = alu_key 0b0000000 0b001 0b0110011
key Mnemonic.slt = alu_key 0b0000000 0b010 0b0110011
key Mnemonic.sltu = alu_key 0b0000000 0b011 0b0110011
key Mnemonic.xor = alu_key 0b0000000 0b100 0b0110011
key Mnemonic.srl = alu_key 0b0000000 0b101 0b0110011
key Mnemonic.sra = alu_key 0b0100000 0b101 0b0110011
key Mnemonic.or = alu_key 0b0000000 0b110 0b0110011
key Mnemonic.and = alu_key 0b0000000 0b111 0b0110011
key Mnemonic.lwu = imm_key 0b110 0b0000011
key Mnemonic.ld = imm_key 0b011 0b0000011
key Mnemonic.sd = imm_key 0b011 0b0100011
key Mnemonic.addiw = imm_key 0b000 0b0011011
key Mnemonic.slliw = shift_key 0b000000 0b001 0b0011011
key Mnemonic.srliw = shift_key 0b000000 0b101 0b0011011
key Mnemonic.sraiw = shift_key 0b010000 0b101 0b0011011
key Mnemonic.addw = alu_key 0b0000000 0b000 0b0111011
key Mnemonic.subw = alu_key 0b0100000 0b000 0b0111011
key Mnemonic.sllw = alu_key 0b0000000 0b001 0b0111011
key Mnemonic.srlw = alu_key 0b0000000 0b101 0b0111011
key Mnemonic.sraw = alu_key 0b0100000 0b101 0b0111011
key Mnemonic.mul = alu_key 0b0000001 0b000 0b0110011
key Mnemonic.mulh = alu_key 0b0000001 0b001 0b0110011
key Mnemonic.mulhsu = alu_key 0b0000001 0b010 0b0110011
key Mnemonic.mulhu = alu_key 0b0000001 0b011 0b0110011
key Mnemonic.div = alu_key 0b0000001 0b100 0b0110011
key Mnemonic.divu = alu_key 0b0000001 0b101 0b0110011
key Mnemonic.rem = alu_key 0b0000001 0b110 0b0110011
key Mnemonic.remu = alu_key 0b0000001 0b111 0b0110011
key Mnemonic.mulw = alu_key 0b0000001 0b000 0b0111011
key Mnemonic.divw = alu_key 0b0000001 0b100 0b0111011
key Mnemonic.divuw = alu_key 0b0000001 0b101 0b0111011
key Mnemonic.remw = alu_key 0b0000001 0b110 0b0111011
key Mnemonic.remuw = alu_key 0b0000001 0b111 0b0111011
key Mnemonic.sh1add = alu_key 0b0010000 0b010 0b0110011
key Mnemonic.sh2add = alu_key 0b0010000 0b100 0b0110011
key Mnemonic.sh3add = alu_key 0b0010000 0b110 0b0110011
key Mnemonic.add_uw = alu_key 0b0000100 0b000 0b0111011
key Mnemonic.sh1add_uw = alu_key 0b0010000 0b010 0b0111011
key Mnemonic.sh2add_uw = alu_key 0b0010000 0b100 0b0111011
key Mnemonic.sh3add_uw = alu_key 0b0010000 0b110 0b0111011
key Mnemonic.slli_uw = shift_key 0b000010 0b001 0b0011011
key Mnemonic.clz = unary_key 0b0110000 0b00000 0b001 0b0010011
key Mnemonic.ctz = unary_key 0b0110000 0b00001 0b001 0b0010011
key Mnemonic.cpop = unary_key 0b0110000 0b00010 0b001 0b0010011
key Mnemonic.max = alu_key 0b0000101 0b110 0b0110011
key Mnemonic.maxu = alu_key 0b0000101 0b111 0b0110011
key Mnemonic.min = alu_key 0b0000101 0b100 0b0110011
key Mnemonic.minu = alu_key 0b0000101 0b101 0b0110011
key Mnemonic.sext_b = unary_key 0b0110000 0b00100 0b001 0b0010011
key Mnemonic.sext_h = unary_key 0b0110000 0b00101 0b001 0b0010011
key Mnemonic.zext_h = zext_key
key Mnemonic.orc_b = bytes_key 0b001010000111
key Mnemonic.andn = alu_key 0b0100000 0b111 0b0110011
key Mnemonic.orn = alu_key 0b0100000 0b110 0b0110011
key Mnemonic.xnor = alu_key 0b0100000 0b100 0b0110011
key Mnemonic.rol = alu_key 0b0110000 0b001 0b0110011
key Mnemonic.ror = alu_key 0b0110000 0b101 0b0110011
key Mnemonic.rori = shift_key 0b011000 0b101 0b0010011
key Mnemonic.rev8 = rev8_key
key Mnemonic.pack = alu_key 0b0000100 0b100 0b0110011
key Mnemonic.packh = alu_key 0b0000100 0b111 0b0110011
key Mnemonic.brev8 = bytes_key 0b011010000111
key Mnemonic.zip = unary_key 0b0000100 0b01111 0b001 0b0010011
key Mnemonic.unzip = unary_key 0b0000100 0b01111 0b101 0b0010011
key Mnemonic.clzw = unary_key 0b0110000 0b00000 0b001 0b0011011
key Mnemonic.ctzw = unary_key 0b0110000 0b00001 0b001 0b0011011
key Mnemonic.cpopw = unary_key 0b0110000 0b00010 0b001 0b0011011
key Mnemonic.rolw = alu_key 0b0110000 0b001 0b0111011
key Mnemonic.rorw = alu_key 0b0110000 0b101 0b0111011
key Mnemonic.roriw = shift_key 0b011000 0b101 0b0011011
key Mnemonic.packw = alu_key 0b0000100 0b100 0b0111011
key Mnemonic.clmul = alu_key 0b0000101 0b001 0b0110011
key Mnemonic.clmulh = alu_key 0b0000101 0b011 0b0110011
key Mnemonic.clmulr = alu_key 0b0000101 0b010 0b0110011
key Mnemonic.bclr = shift_key 0b010010 0b001 0b0110011
key Mnemonic.bclri = shift_key 0b010010 0b001 0b0010011
key Mnemonic.bext = shift_key 0b010010 0b101 0b0110011
key Mnemonic.bexti = shift_key 0b010010 0b101 0b0010011
key Mnemonic.binv = shift_key 0b011010 0b001 0b0110011
key Mnemonic.binvi = shift_key 0b011010 0b001 0b0010011
key Mnemonic.bset = shift_key 0b001010 0b001 0b0110011
key Mnemonic.bseti = shift_key 0b001010 0b001 0b0010011
key Mnemonic.xperm4 = alu_key 0b0010100 0b010 0b0110011
key Mnemonic.xperm8 = alu_key 0b0010100 0b100 0b0110011
key Mnemonic.c_addi4spn = c_key 0b000 0b00
key Mnemonic.c_lw = c_key 0b010 0b00
key Mnemonic.c_sw = c_key 0b110 0b00
key Mnemonic.c_addi = c_key 0b000 0b01
key Mnemonic.c_jal = c_key 0b001 0b01
key Mnemonic.c_li = c_key 0b010 0b01
key Mnemonic.c_addi16sp = eq 11 7 2 ∷ c_key 0b011 0b01
key Mnemonic.c_lui = ne 11 7 2 ∷ c_key 0b011 0b01
key Mnemonic.c_srli = eq 11 10 0b00 ∷ c_key 0b100 0b01
key Mnemonic.c_srai = eq 11 10 0b01 ∷ c_key 0b100 0b01
key Mnemonic.c_andi = eq 11 10 0b10 ∷ c_key 0b100 0b01
key Mnemonic.c_sub = c_alu_key 0b100011 0b00
key Mnemonic.c_xor = c_alu_key 0b100011 0b01
key Mnemonic.c_or = c_alu_key 0b100011 0b10
key Mnemonic.c_and = c_alu_key 0b100011 0b11
key Mnemonic.c_j = c_key 0b101 0b01
key Mnemonic.c_beqz = c_key 0b110 0b01
key Mnemonic.c_bnez = c_key 0b111 0b01
key Mnemonic.c_slli = c_key 0b000 0b10
key Mnemonic.c_lwsp = c_key 0b010 0b10
key Mnemonic.c_jr = c_jr_key 0b1000
key Mnemonic.c_mv = c_mv_key 0b1000
key Mnemonic.c_jalr = c_jr_key 0b1001
key Mnemonic.c_add = c_mv_key 0b1001
key Mnemonic.c_swsp = c_key 0b110 0b10
key Mnemonic.c_addiw = c_key 0b001 0b01
key Mnemonic.c_subw = c_alu_key 0b100111 0b00
key Mnemonic.c_addw = c_alu_key 0b100111 0b01
key Mnemonic.c_ld = c_key 0b011 0b00
key Mnemonic.c_sd = c_key 0b111 0b00
key Mnemonic.c_ldsp = c_key 0b011 0b10
key Mnemonic.c_sdsp = c_key 0b111 0b10
