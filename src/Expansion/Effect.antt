-- ===== src/Expansion/Effect.antt =====
-- What a compressed instruction and its expansion must agree on, for the generators of loads, stores
-- and operations on two registers.
use riscv_formal.Prelude.{
  ℕ, ◌^◌, ◌<◌, ◌≡◌, refl, Bool, true, false, inl, inr, Bool-cases, if◌then◌else◌, arith,
}
use riscv_formal.Insns.Module.{Macros, Rvfi, Spec, defaults}
use riscv_formal.Insns.Format.{RFields, IFields, SFields}
use riscv_formal.Insns.FormatC.{format_cs_alu}
use riscv_formal.Insns.Alu.{Alt, Mode, alu_opcode, alu_result, insn_alu}
use riscv_formal.Insns.Compressed.{insn_c_alu}
use riscv_formal.Insns.Memory.{insn_l, insn_s}
use riscv_formal.Insns.MemoryC.{load_c, store_c}
use riscv_formal.Expansion.Encode.{
  encode_r, encode_i, encode_s, format_r-encode_r, format_i-encode_i, format_s-encode_s,
  padding-encode_r, padding-encode_i, padding-encode_s,
}

-- The second is valid and reads and writes what the first does.
pub record SameEffect (s t : Spec) : Type 0 where
  pub valid : t.valid ≡ true
  pub rs1_addr : t.rs1_addr ≡ s.rs1_addr
  pub rs2_addr : t.rs2_addr ≡ s.rs2_addr
  pub rd_addr : t.rd_addr ≡ s.rd_addr
  pub rd_wdata : t.rd_wdata ≡ s.rd_wdata
  pub mem_addr : t.mem_addr ≡ s.mem_addr
  pub mem_rmask : t.mem_rmask ≡ s.mem_rmask
  pub mem_wmask : t.mem_wmask ≡ s.mem_wmask
  pub mem_wdata : t.mem_wdata ≡ s.mem_wdata

-- The same retirement of another word.
abbrev pub at_word : Rvfi → ℕ → Rvfi
at_word i word = record i { insn = word }

pub load_c-SameEffect :
    (c : Macros) (misa : ℕ) (i : Rvfi) (numbytes : ℕ) (signext fits : Bool) (f : IFields)
    → f.imm < 2 ^ 11
    → f.rs1 < 2 ^ 5
    → f.funct3 < 2 ^ 3
    → f.rd < 2 ^ 5
    → f.opcode ≡ 0b0000011
    → (load_c c misa i numbytes signext fits f.rs1 f.rd f.imm).valid ≡ true
    → SameEffect
        (load_c c misa i numbytes signext fits f.rs1 f.rd f.imm)
        (insn_l f.funct3 numbytes signext 0 c (at_word i (encode_i f)))
unfolding load_c insn_l defaults
load_c-SameEffect c misa i numbytes signext fits f h1 h2 h3 h4 op valid =
    let fields = format_i-encode_i c.xlen f h1 h2 h3 h4 (omega arith) in
    let short_word = padding-encode_i f h1 h2 h3 h4 (omega arith) in
    elim (Bool-cases c.aligned_mem) [
      | inl aligned ↦
          let v = rw aligned at valid in
          rw (aligned, fields, short_word, op)
            record {
              valid = ground arith;
              rs1_addr = refl;
              rs2_addr = refl;
              rd_addr = refl;
              rd_wdata = refl;
              mem_addr = refl;
              mem_rmask = refl;
              mem_wmask = refl;
              mem_wdata = refl;
            }
      | inr direct ↦
          let v = rw direct at valid in
          rw (direct, fields, op)
            record {
              valid = ground arith;
              rs1_addr = refl;
              rs2_addr = refl;
              rd_addr = refl;
              rd_wdata = refl;
              mem_addr = refl;
              mem_rmask = refl;
              mem_wmask = refl;
              mem_wdata = refl;
            }
    ]

pub store_c-SameEffect :
    (c : Macros) (misa : ℕ) (i : Rvfi) (numbytes : ℕ) (fits : Bool) (f : SFields)
    → f.imm < 2 ^ 11
    → f.rs2 < 2 ^ 5
    → f.rs1 < 2 ^ 5
    → f.funct3 < 2 ^ 3
    → f.opcode ≡ 0b0100011
    → (store_c c misa i numbytes fits f.rs1 f.rs2 f.imm).valid ≡ true
    → SameEffect
        (store_c c misa i numbytes fits f.rs1 f.rs2 f.imm)
        (insn_s f.funct3 numbytes 0 c (at_word i (encode_s f)))
unfolding store_c insn_s defaults
store_c-SameEffect c misa i numbytes fits f h1 h2 h3 h4 op valid =
    let fields = format_s-encode_s c.xlen f h1 h2 h3 h4 (omega arith) in
    let short_word = padding-encode_s f h1 h2 h3 h4 (omega arith) in
    elim (Bool-cases c.aligned_mem) [
      | inl aligned ↦
          let v = rw aligned at valid in
          rw (aligned, fields, short_word, op)
            record {
              valid = ground arith;
              rs1_addr = refl;
              rs2_addr = refl;
              rd_addr = refl;
              rd_wdata = refl;
              mem_addr = refl;
              mem_rmask = refl;
              mem_wmask = refl;
              mem_wdata = refl;
            }
      | inr direct ↦
          let v = rw direct at valid in
          rw (direct, fields, short_word, op)
            record {
              valid = ground arith;
              rs1_addr = refl;
              rs2_addr = refl;
              rd_addr = refl;
              rd_wdata = refl;
              mem_addr = refl;
              mem_rmask = refl;
              mem_wmask = refl;
              mem_wdata = refl;
            }
    ]

pub insn_c_alu-SameEffect :
    (c : Macros) (misa : ℕ) (i : Rvfi) (funct6 funct2 : ℕ) (expr : Macros → ℕ → ℕ → ℕ)
    (wmode : Bool) (f : RFields)
    → f.funct7 < 2 ^ 7
    → f.rs2 ≡ (format_cs_alu i.insn).rs2
    → f.rs1 ≡ (format_cs_alu i.insn).rs1_rd
    → f.funct3 < 2 ^ 3
    → f.rd ≡ (format_cs_alu i.insn).rs1_rd
    → f.opcode ≡ alu_opcode (if wmode then Mode.word else Mode.full)
    → (insn_c_alu funct6 funct2 expr wmode misa c i).valid ≡ true
    → SameEffect (insn_c_alu funct6 funct2 expr wmode misa c i) (
        insn_alu f.funct7 f.funct3
          (λ c a b s. expr c a b)
          Alt.no_alt
          (if wmode then Mode.word else Mode.full)
          0
          c
          (at_word i (encode_r f)))
unfolding insn_c_alu insn_alu format_cs_alu defaults alu_result
insn_c_alu-SameEffect c misa i funct6 funct2 expr true f h1 rs2 rs1 h2 rd op valid =
    let fields =
      format_r-encode_r f h1 (omega arith) (omega arith) h2 (omega arith) (omega arith) in
    let short_word =
      padding-encode_r f h1 (omega arith) (omega arith) h2 (omega arith) (omega arith) in
    rw (fields, short_word, op, rs1, rs2, rd)
      record {
        valid = ground arith;
        rs1_addr = refl;
        rs2_addr = refl;
        rd_addr = refl;
        rd_wdata = refl;
        mem_addr = refl;
        mem_rmask = refl;
        mem_wmask = refl;
        mem_wdata = refl;
      }
insn_c_alu-SameEffect c misa i funct6 funct2 expr false f h1 rs2 rs1 h2 rd op valid =
    let fields =
      format_r-encode_r f h1 (omega arith) (omega arith) h2 (omega arith) (omega arith) in
    let short_word =
      padding-encode_r f h1 (omega arith) (omega arith) h2 (omega arith) (omega arith) in
    rw (fields, short_word, op, rs1, rs2, rd)
      record {
        valid = ground arith;
        rs1_addr = refl;
        rs2_addr = refl;
        rd_addr = refl;
        rd_wdata = refl;
        mem_addr = refl;
        mem_rmask = refl;
        mem_wmask = refl;
        mem_wdata = refl;
      }
