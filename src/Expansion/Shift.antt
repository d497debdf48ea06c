-- ===== src/Expansion/Shift.antt =====
-- The compressed shifts and additions that a 32-bit instruction computes with a wrapped result.
use native.Mathlib.Nat.{mod-mod}
use riscv_formal.Prelude.{ℕ, ◌+◌, ◌*◌, ◌^◌, ◌<◌, ◌≡◌, refl, true, false, arith}
use riscv_formal.Verilog.{bits, wrap}
use riscv_formal.Insns.Module.{Macros, Rvfi, defaults}
use riscv_formal.Insns.Format.{RFields, IFields, IShiftFields, padding, format_i_shift}
use riscv_formal.Insns.FormatC.{format_ci_sri, format_ci_sli, format_ciw, format_cr}
use riscv_formal.Insns.Wires.{guard_rd, extend_w, result_width}
use riscv_formal.Insns.Alu.{Alt, Mode, shamt_check, alu_result, insn_imm, insn_shimm, insn_alu}
use riscv_formal.Insns.Compressed.{shamt_ok, insn_c_addi4spn, insn_c_sri, insn_c_sli, insn_c_mvadd}
use riscv_formal.Expansion.Encode.{
  encode_r, encode_i, format_r-encode_r, format_i-encode_i, padding-encode_r, padding-encode_i,
}
use riscv_formal.Expansion.Effect.{SameEffect, at_word}

abbrev pub encode_shift : IShiftFields → ℕ
encode_shift f =
    f.funct6 * 2 ^ 26
    + f.shamt * 2 ^ 20
    + f.rs1 * 2 ^ 15
    + f.funct3 * 2 ^ 12
    + f.rd * 2 ^ 7
    + f.opcode

format_i_shift-encode_shift :
    (f : IShiftFields)
    → f.funct6 < 2 ^ 6
    → f.shamt < 2 ^ 6
    → f.rs1 < 2 ^ 5
    → f.funct3 < 2 ^ 3
    → f.rd < 2 ^ 5
    → f.opcode < 2 ^ 7
    → format_i_shift (encode_shift f) ≡ f
unfolding format_i_shift
format_i_shift-encode_shift f h1 h2 h3 h4 h5 h6 =
    let e1 : bits 31 26 (encode_shift f) ≡ f.funct6 = omega arith in
    let e2 : bits 25 20 (encode_shift f) ≡ f.shamt = omega arith in
    let e3 : bits 19 15 (encode_shift f) ≡ f.rs1 = omega arith in
    let e4 : bits 14 12 (encode_shift f) ≡ f.funct3 = omega arith in
    let e5 : bits 11 7 (encode_shift f) ≡ f.rd = omega arith in
    let e6 : bits 6 0 (encode_shift f) ≡ f.opcode = omega arith in
    simp (e1, e2, e3, e4, e5, e6) refl

padding-encode_shift :
    (f : IShiftFields)
    → f.funct6 < 2 ^ 6
    → f.shamt < 2 ^ 6
    → f.rs1 < 2 ^ 5
    → f.funct3 < 2 ^ 3
    → f.rd < 2 ^ 5
    → f.opcode < 2 ^ 7
    → padding (encode_shift f) ≡ 0
unfolding padding
padding-encode_shift f h1 h2 h3 h4 h5 h6 = omega arith

-- The output port wraps a result that the 32-bit instruction wraps before.
guard_rd-wrap : (c : Macros) (rd v : ℕ) → guard_rd c rd (wrap c.xlen v) ≡ guard_rd c rd v
unfolding guard_rd
guard_rd-wrap c rd v = ground (arith, mod-mod v (2 ^ c.xlen))

pub insn_c_sri-SameEffect :
    (c : Macros) (misa : ℕ) (i : Rvfi) (funct2 : ℕ) (expr : Macros → ℕ → ℕ → ℕ) (f : IShiftFields)
    → f.funct6 < 2 ^ 6
    → f.shamt ≡ (format_ci_sri i.insn).shamt
    → f.rs1 ≡ (format_ci_sri i.insn).rs1_rd
    → f.funct3 < 2 ^ 3
    → f.rd ≡ (format_ci_sri i.insn).rs1_rd
    → f.opcode ≡ 0b0010011
    → (insn_c_sri funct2 expr misa c i).valid ≡ true
    → SameEffect
        (insn_c_sri funct2 expr misa c i)
        (insn_shimm f.funct6 f.funct3 expr Mode.full 0 c (at_word i (encode_shift f)))
unfolding insn_c_sri insn_shimm format_ci_sri defaults shamt_ok shamt_check extend_w result_width
insn_c_sri-SameEffect c misa i funct2 expr f h1 shamt rs1 h2 rd op valid =
    let fields =
      format_i_shift-encode_shift f h1 (omega arith) (omega arith) h2 (omega arith) (omega arith) in
    let short_word =
      padding-encode_shift f h1 (omega arith) (omega arith) h2 (omega arith) (omega arith) in
    rw (fields, short_word, op, shamt, rs1, rd)
      record {
        valid = ground arith;
        rs1_addr = refl;
        rs2_addr = refl;
        rd_addr = refl;
        rd_wdata = guard_rd-wrap c _ _;
        mem_addr = refl;
        mem_rmask = refl;
        mem_wmask = refl;
        mem_wdata = refl;
      }

pub insn_c_sli-SameEffect :
    (c : Macros) (misa : ℕ) (i : Rvfi) (expr : Macros → ℕ → ℕ → ℕ) (f : IShiftFields)
    → f.funct6 < 2 ^ 6
    → f.shamt ≡ (format_ci_sli i.insn).shamt
    → f.rs1 ≡ (format_ci_sli i.insn).rs1_rd
    → f.funct3 < 2 ^ 3
    → f.rd ≡ (format_ci_sli i.insn).rs1_rd
    → f.opcode ≡ 0b0010011
    → (insn_c_sli expr misa c i).valid ≡ true
    → SameEffect
        (insn_c_sli expr misa c i)
        (insn_shimm f.funct6 f.funct3 expr Mode.full 0 c (at_word i (encode_shift f)))
unfolding insn_c_sli insn_shimm format_ci_sli defaults shamt_ok shamt_check extend_w result_width
insn_c_sli-SameEffect c misa i expr f h1 shamt rs1 h2 rd op valid =
    let fields =
      format_i_shift-encode_shift f h1 (omega arith) (omega arith) h2 (omega arith) (omega arith) in
    let short_word =
      padding-encode_shift f h1 (omega arith) (omega arith) h2 (omega arith) (omega arith) in
    rw (fields, short_word, op, shamt, rs1, rd)
      record {
        valid = ground arith;
        rs1_addr = refl;
        rs2_addr = refl;
        rd_addr = refl;
        rd_wdata = guard_rd-wrap c _ _;
        mem_addr = refl;
        mem_rmask = refl;
        mem_wmask = refl;
        mem_wdata = refl;
      }

pub insn_c_addi4spn-SameEffect :
    (c : Macros) (misa : ℕ) (i : Rvfi) (f : IFields)
    → f.imm ≡ (format_ciw i.insn).imm
    → f.rs1 ≡ 2
    → f.funct3 < 2 ^ 3
    → f.rd ≡ (format_ciw i.insn).rd
    → f.opcode ≡ 0b0010011
    → (insn_c_addi4spn misa c i).valid ≡ true
    → SameEffect
        (insn_c_addi4spn misa c i)
        (insn_imm f.funct3 (λ c a b. a + b) false 0 c (at_word i (encode_i f)))
unfolding insn_c_addi4spn insn_imm format_ciw defaults extend_w result_width
insn_c_addi4spn-SameEffect c misa i f imm rs1 h2 rd op valid =
    let fields =
      format_i-encode_i c.xlen f (omega arith) (omega arith) h2 (omega arith) (omega arith) in
    let short_word =
      padding-encode_i f (omega arith) (omega arith) h2 (omega arith) (omega arith) in
    rw (fields, short_word, op, imm, rs1, rd)
      record {
        valid = ground arith;
        rs1_addr = refl;
        rs2_addr = refl;
        rd_addr = refl;
        rd_wdata = guard_rd-wrap c _ _;
        mem_addr = refl;
        mem_rmask = refl;
        mem_wmask = refl;
        mem_wdata = refl;
      }

pub insn_c_mvadd-SameEffect :
    (c : Macros) (misa : ℕ) (i : Rvfi) (funct4 : ℕ) (f : RFields)
    → f.funct7 < 2 ^ 7
    → f.rs2 ≡ (format_cr i.insn).rs2
    → f.rs1 ≡ (format_cr i.insn).rs1_rd
    → f.funct3 < 2 ^ 3
    → f.rd ≡ (format_cr i.insn).rs1_rd
    → f.opcode ≡ 0b0110011
    → (insn_c_mvadd funct4 true misa c i).valid ≡ true
    → SameEffect (insn_c_mvadd funct4 true misa c i) (
        insn_alu f.funct7 f.funct3
          (λ c a b s. a + b)
          Alt.no_alt
          Mode.full
          0
          c
          (at_word i (encode_r f)))
unfolding insn_c_mvadd insn_alu alu_result format_cr defaults extend_w result_width
insn_c_mvadd-SameEffect c misa i funct4 f h1 rs2 rs1 h2 rd op valid =
    let fields =
      format_r-encode_r f h1 (omega arith) (omega arith) h2 (omega arith) (omega arith) in
    let short_word =
      padding-encode_r f h1 (omega arith) (omega arith) h2 (omega arith) (omega arith) in
    rw (fields, short_word, op, rs1, rs2, rd)
      record {
        valid = ground arith;
        rs1_addr = refl;
        rs2_addr = refl;
        rd_addr = refl;
        rd_wdata = guard_rd-wrap c _ _;
        mem_addr = refl;
        mem_rmask = refl;
        mem_wmask = refl;
        mem_wdata = refl;
      }
