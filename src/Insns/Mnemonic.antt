-- ===== src/Insns/Mnemonic.antt =====
-- The instructions that the calls of insns/generate.py define, in the order of their names.
use riscv_formal.Prelude.{ℕ}

-- An instruction by the name that its call is given. The script names modules and files by it.
pub data Mnemonic : Type 0 where
  add add_uw addi addiw addw and andi andn auipc bclr bclri beq bext bexti bge bgeu : Mnemonic
  binv binvi blt bltu bne brev8 bset bseti c_add c_addi c_addi16sp c_addi4spn : Mnemonic
  c_addiw c_addw c_and c_andi c_beqz c_bnez c_j c_jal c_jalr c_jr c_ld c_ldsp c_li : Mnemonic
  c_lui c_lw c_lwsp c_mv c_or c_sd c_sdsp c_slli c_srai c_srli c_sub c_subw c_sw : Mnemonic
  c_swsp c_xor clmul clmulh clmulr clz clzw cpop cpopw ctz ctzw div divu divuw divw : Mnemonic
  jal jalr lb lbu ld lh lhu lui lw lwu max maxu min minu mul mulh mulhsu mulhu mulw : Mnemonic
  or orc_b ori orn pack packh packw rem remu remuw remw rev8 rol rolw ror rori roriw : Mnemonic
  rorw sb sd sext_b sext_h sh sh1add sh1add_uw sh2add sh2add_uw sh3add sh3add_uw sll : Mnemonic
  slli slli_uw slliw sllw slt slti sltiu sltu sra srai sraiw sraw srl srli srliw : Mnemonic
  srlw sub subw sw unzip xnor xor xori xperm4 xperm8 zext_h zip : Mnemonic

-- The place of an instruction in the order of the names, by which `sorted` lists it.
abbrev pub rank : Mnemonic → ℕ
rank add = 0
rank add_uw = 1
rank addi = 2
rank addiw = 3
rank addw = 4
rank and = 5
rank andi = 6
rank andn = 7
rank auipc = 8
rank bclr = 9
rank bclri = 10
rank beq = 11
rank bext = 12
rank bexti = 13
rank bge = 14
rank bgeu = 15
rank binv = 16
rank binvi = 17
rank blt = 18
rank bltu = 19
rank bne = 20
rank brev8 = 21
rank bset = 22
rank bseti = 23
rank c_add = 24
rank c_addi = 25
rank c_addi16sp = 26
rank c_addi4spn = 27
rank c_addiw = 28
rank c_addw = 29
rank c_and = 30
rank c_andi = 31
rank c_beqz = 32
rank c_bnez = 33
rank c_j = 34
rank c_jal = 35
rank c_jalr = 36
rank c_jr = 37
rank c_ld = 38
rank c_ldsp = 39
rank c_li = 40
rank c_lui = 41
rank c_lw = 42
rank c_lwsp = 43
rank c_mv = 44
rank c_or = 45
rank c_sd = 46
rank c_sdsp = 47
rank c_slli = 48
rank c_srai = 49
rank c_srli = 50
rank c_sub = 51
rank c_subw = 52
rank c_sw = 53
rank c_swsp = 54
rank c_xor = 55
rank clmul = 56
rank clmulh = 57
rank clmulr = 58
rank clz = 59
rank clzw = 60
rank cpop = 61
rank cpopw = 62
rank ctz = 63
rank ctzw = 64
rank div = 65
rank divu = 66
rank divuw = 67
rank divw = 68
rank jal = 69
rank jalr = 70
rank lb = 71
rank lbu = 72
rank ld = 73
rank lh = 74
rank lhu = 75
rank lui = 76
rank lw = 77
rank lwu = 78
rank max = 79
rank maxu = 80
rank min = 81
rank minu = 82
rank mul = 83
rank mulh = 84
rank mulhsu = 85
rank mulhu = 86
rank mulw = 87
rank or = 88
rank orc_b = 89
rank ori = 90
rank orn = 91
rank pack = 92
rank packh = 93
rank packw = 94
rank rem = 95
rank remu = 96
rank remuw = 97
rank remw = 98
rank rev8 = 99
rank rol = 100
rank rolw = 101
rank ror = 102
rank rori = 103
rank roriw = 104
rank rorw = 105
rank sb = 106
rank sd = 107
rank sext_b = 108
rank sext_h = 109
rank sh = 110
rank sh1add = 111
rank sh1add_uw = 112
rank sh2add = 113
rank sh2add_uw = 114
rank sh3add = 115
rank sh3add_uw = 116
rank sll = 117
rank slli = 118
rank slli_uw = 119
rank slliw = 120
rank sllw = 121
rank slt = 122
rank slti = 123
rank sltiu = 124
rank sltu = 125
rank sra = 126
rank srai = 127
rank sraiw = 128
rank sraw = 129
rank srl = 130
rank srli = 131
rank srliw = 132
rank srlw = 133
rank sub = 134
rank subw = 135
rank sw = 136
rank unzip = 137
rank xnor = 138
rank xor = 139
rank xori = 140
rank xperm4 = 141
rank xperm8 = 142
rank zext_h = 143
rank zip = 144
