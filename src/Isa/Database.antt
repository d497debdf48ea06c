-- ===== src/Isa/Database.antt =====
-- `isa_database`: a mapping from ISA names to sets of instructions, as the script builds it. A name
-- is the list of its character codes, a set its sorted listing.
use Prim.Native.Char.{code}
use riscv_formal.Prelude.{
  ℕ, Bool, true, false, ◌&&◌, ◌==◌, ltb, if◌then◌else◌, List, [], ◌∷◌, Option, none, some, String,
}
use riscv_formal.Insns.Mnemonic.{
  Mnemonic, rank, add, add_uw, addi, addiw, addw, and, andi, andn, auipc, bclr, bclri, beq, bext,
  bexti, bge, bgeu, binv, binvi, blt, bltu, bne, brev8, bset, bseti, c_add, c_addi, c_addi16sp,
  c_addi4spn, c_addiw, c_addw, c_and, c_andi, c_beqz, c_bnez, c_j, c_jal, c_jalr, c_jr, c_ld,
  c_ldsp, c_li, c_lui, c_lw, c_lwsp, c_mv, c_or, c_sd, c_sdsp, c_slli, c_srai, c_srli, c_sub,
  c_subw, c_sw, c_swsp, c_xor, clmul, clmulh, clmulr, clz, clzw, cpop, cpopw, ctz, ctzw, div, divu,
  divuw, divw, jal, jalr, lb, lbu, ld, lh, lhu, lui, lw, lwu, max, maxu, min, minu, mul, mulh,
  mulhsu, mulhu, mulw, or, orc_b, ori, orn, pack, packh, packw, rem, remu, remuw, remw, rev8, rol,
  rolw, ror, rori, roriw, rorw, sb, sd, sext_b, sext_h, sh, sh1add, sh1add_uw, sh2add, sh2add_uw,
  sh3add, sh3add_uw, sll, slli, slli_uw, slliw, sllw, slt, slti, sltiu, sltu, sra, srai, sraiw,
  sraw, srl, srli, srliw, srlw, sub, subw, sw, unzip, xnor, xor, xori, xperm4, xperm8, zext_h, zip,
}

-- The character codes of an ASCII text.
abbrev pub codes : String → List ℕ
codes String.[] = []
codes (String.◌∷◌ c s) = code c ∷ codes s

unfoldable pub eq_codes : List ℕ → List ℕ → Bool
eq_codes [] [] = true
eq_codes [] (y ∷ ys) = false
eq_codes (x ∷ xs) [] = false
eq_codes (x ∷ xs) (y ∷ ys) = (x == y) && eq_codes xs ys

-- `str.startswith`
unfoldable pub starts_with : List ℕ → List ℕ → Bool
starts_with [] ys = true
starts_with (x ∷ xs) [] = false
starts_with (x ∷ xs) (y ∷ ys) = (x == y) && starts_with xs ys

-- `set.add` and `set |= set`.
unfoldable pub add_insn : Mnemonic → List Mnemonic → List Mnemonic
add_insn m [] = m ∷ []
add_insn m (x ∷ xs) =
    if rank m == rank x
    then x ∷ xs
    else (if ltb (rank m) (rank x) then m ∷ x ∷ xs else x ∷ add_insn m xs)

unfoldable pub union : List Mnemonic → List Mnemonic → List Mnemonic
unfolding add_insn
union [] ys = ys
union (x ∷ xs) ys = add_insn x (union xs ys)

abbrev pub Database : Type 0
Database = List (List ℕ × List Mnemonic)

unfoldable pub find_isa : List ℕ → Database → Option (List Mnemonic)
unfolding eq_codes
find_isa k [] = none
find_isa k ((j, ms) ∷ db) = if eq_codes k j then some ms else find_isa k db

-- Adds instructions to the set of a name, which is created empty where it is missing.
unfoldable pub update_isa : List ℕ → List Mnemonic → Database → Database
unfolding eq_codes union
update_isa k new [] = (k, union new []) ∷ []
update_isa k new ((j, ms) ∷ db) =
    if eq_codes k j then (j, union new ms) ∷ db else (j, ms) ∷ update_isa k new db

-- What `header` does to the database: the instructions of one `current_isa` are added to each of
-- its names.
unfoldable pub register : List (List ℕ) → List Mnemonic → Database → Database
unfolding update_isa
register [] ms db = db
register (k ∷ ks) ms db = register ks ms (update_isa k ms db)

unfoldable pub register_all : List (List (List ℕ) × List Mnemonic) → Database → Database
unfolding register
register_all [] db = db
register_all ((ks, ms) ∷ r) db = register_all r (register ks ms db)

-- The assignments of `current_isa`, each with the instructions that the calls under it define.
abbrev pub calls : List (List (List ℕ) × List Mnemonic)
calls =
    (
      codes "rv32i" ∷ [],
      lui ∷ auipc ∷ jal ∷ jalr ∷ beq ∷ bne ∷ blt ∷ bge ∷ bltu ∷ bgeu ∷ lb ∷ lh ∷ lw ∷ lbu ∷ lhu ∷ sb
          ∷ sh ∷ sw ∷ addi ∷ slti ∷ sltiu ∷ xori ∷ ori ∷ andi ∷ slli ∷ srli ∷ srai ∷ add ∷ sub ∷ sll
          ∷ slt ∷ sltu ∷ xor ∷ srl ∷ sra ∷ or ∷ and ∷ [],
    )
    ∷ (
      codes "rv64i" ∷ [],
      lwu ∷ ld ∷ sd ∷ addiw ∷ slliw ∷ srliw ∷ sraiw ∷ addw ∷ subw ∷ sllw ∷ srlw ∷ sraw ∷ [],
    )
    ∷ (codes "rv32im" ∷ [], mul ∷ mulh ∷ mulhsu ∷ mulhu ∷ div ∷ divu ∷ rem ∷ remu ∷ [])
    ∷ (codes "rv64im" ∷ [], mulw ∷ divw ∷ divuw ∷ remw ∷ remuw ∷ [])
    ∷ (codes "rv32iZba" ∷ [], sh1add ∷ sh2add ∷ sh3add ∷ [])
    ∷ (codes "rv64iZba" ∷ [], add_uw ∷ sh1add_uw ∷ sh2add_uw ∷ sh3add_uw ∷ slli_uw ∷ [])
    ∷ (
      codes "rv32iZbb" ∷ [],
      clz ∷ ctz ∷ cpop ∷ max ∷ maxu ∷ min ∷ minu ∷ sext_b ∷ sext_h ∷ zext_h ∷ orc_b ∷ [],
    )
    ∷ (codes "rv32iZbb" ∷ codes "rv32iZbkb" ∷ [], andn ∷ orn ∷ xnor ∷ rol ∷ ror ∷ rori ∷ rev8 ∷ [])
    ∷ (codes "rv32iZbkb" ∷ [], pack ∷ packh ∷ brev8 ∷ zip ∷ unzip ∷ [])
    ∷ (codes "rv64iZbb" ∷ [], clzw ∷ ctzw ∷ cpopw ∷ [])
    ∷ (codes "rv64iZbb" ∷ codes "rv64iZbkb" ∷ [], rolw ∷ rorw ∷ roriw ∷ [])
    ∷ (codes "rv64iZbkb" ∷ [], packw ∷ [])
    ∷ (codes "rv32iZbc" ∷ codes "rv32iZbkc" ∷ [], clmul ∷ clmulh ∷ [])
    ∷ (codes "rv32iZbc" ∷ [], clmulr ∷ [])
    ∷ (codes "rv32iZbs" ∷ [], bclr ∷ bclri ∷ bext ∷ bexti ∷ binv ∷ binvi ∷ bset ∷ bseti ∷ [])
    ∷ (codes "rv32iZbkx" ∷ [], xperm4 ∷ xperm8 ∷ [])
    ∷ (
      codes "rv32ic" ∷ [],
      c_addi4spn ∷ c_lw ∷ c_sw ∷ c_addi ∷ c_jal ∷ c_li ∷ c_addi16sp ∷ c_lui ∷ c_srli ∷ c_srai
          ∷ c_andi ∷ c_sub ∷ c_xor ∷ c_or ∷ c_and ∷ c_j ∷ c_beqz ∷ c_bnez ∷ c_slli ∷ c_lwsp ∷ c_jr
          ∷ c_mv ∷ c_jalr ∷ c_add ∷ c_swsp ∷ [],
    )
    ∷ (codes "rv64ic" ∷ [], c_addiw ∷ c_subw ∷ c_addw ∷ c_ld ∷ c_sd ∷ c_ldsp ∷ c_sdsp ∷ [])
    ∷ []
