-- ===== src/Expansion/Encode.antt =====
-- The words of 32-bit instructions, and the wires that insns/generate.py cuts out of them.
use riscv_formal.Prelude.{ℕ, ◌+◌, ◌*◌, ◌/◌, ◌%◌, ◌^◌, ◌<◌, ◌≡◌, refl, ◌∙◌, arith}
use riscv_formal.Verilog.{bits, sext}
use riscv_formal.Insns.Format.{RFields, IFields, SFields, padding, format_r, format_i, format_s}

abbrev pub encode_r : RFields → ℕ
encode_r f =
    f.funct7 * 2 ^ 25
    + f.rs2 * 2 ^ 20
    + f.rs1 * 2 ^ 15
    + f.funct3 * 2 ^ 12
    + f.rd * 2 ^ 7
    + f.opcode

-- Of an immediate below 2 ^ 11, which has the sign bit 0.
abbrev pub encode_i : IFields → ℕ
encode_i f = f.imm * 2 ^ 20 + f.rs1 * 2 ^ 15 + f.funct3 * 2 ^ 12 + f.rd * 2 ^ 7 + f.opcode

abbrev pub encode_s : SFields → ℕ
encode_s f =
    f.imm / 2 ^ 5 * 2 ^ 25
    + f.rs2 * 2 ^ 20
    + f.rs1 * 2 ^ 15
    + f.funct3 * 2 ^ 12
    + f.imm % 2 ^ 5 * 2 ^ 7
    + f.opcode

pub format_r-encode_r :
    (f : RFields)
    → f.funct7 < 2 ^ 7
    → f.rs2 < 2 ^ 5
    → f.rs1 < 2 ^ 5
    → f.funct3 < 2 ^ 3
    → f.rd < 2 ^ 5
    → f.opcode < 2 ^ 7
    → format_r (encode_r f) ≡ f
unfolding format_r
format_r-encode_r f h1 h2 h3 h4 h5 h6 =
    let e1 : bits 31 25 (encode_r f) ≡ f.funct7 = omega arith in
    let e2 : bits 24 20 (encode_r f) ≡ f.rs2 = omega arith in
    let e3 : bits 19 15 (encode_r f) ≡ f.rs1 = omega arith in
    let e4 : bits 14 12 (encode_r f) ≡ f.funct3 = omega arith in
    let e5 : bits 11 7 (encode_r f) ≡ f.rd = omega arith in
    let e6 : bits 6 0 (encode_r f) ≡ f.opcode = omega arith in simp (e1, e2, e3, e4, e5, e6) refl

-- An immediate with the sign bit 0 is not changed by the extension.
sext-positive : (n v : ℕ) → v < 2 ^ 11 → sext 12 n v ≡ v
unfolding sext
sext-positive n v h = ground arith

pub format_i-encode_i :
    (n : ℕ) (f : IFields)
    → f.imm < 2 ^ 11
    → f.rs1 < 2 ^ 5
    → f.funct3 < 2 ^ 3
    → f.rd < 2 ^ 5
    → f.opcode < 2 ^ 7
    → format_i n (encode_i f) ≡ f
unfolding format_i
format_i-encode_i n f h1 h2 h3 h4 h5 =
    let e1 : sext 12 n (bits 31 20 (encode_i f)) ≡ f.imm =
      sext-positive n _ (omega arith) ∙ omega arith in
    let e3 : bits 19 15 (encode_i f) ≡ f.rs1 = omega arith in
    let e4 : bits 14 12 (encode_i f) ≡ f.funct3 = omega arith in
    let e5 : bits 11 7 (encode_i f) ≡ f.rd = omega arith in
    let e6 : bits 6 0 (encode_i f) ≡ f.opcode = omega arith in simp (e1, e3, e4, e5, e6) refl

pub format_s-encode_s :
    (n : ℕ) (f : SFields)
    → f.imm < 2 ^ 11
    → f.rs2 < 2 ^ 5
    → f.rs1 < 2 ^ 5
    → f.funct3 < 2 ^ 3
    → f.opcode < 2 ^ 7
    → format_s n (encode_s f) ≡ f
unfolding format_s
format_s-encode_s n f h1 h2 h3 h4 h5 =
    let high : bits 31 25 (encode_s f) ≡ f.imm / 2 ^ 5 = omega arith in
    let low : bits 11 7 (encode_s f) ≡ f.imm % 2 ^ 5 = omega arith in
    let e1 : sext 12 n (bits 31 25 (encode_s f) * 2 ^ 5 + bits 11 7 (encode_s f)) ≡ f.imm =
      rw (high, low) (sext-positive n _ (omega arith) ∙ omega arith) in
    let e2 : bits 24 20 (encode_s f) ≡ f.rs2 = omega arith in
    let e3 : bits 19 15 (encode_s f) ≡ f.rs1 = omega arith in
    let e4 : bits 14 12 (encode_s f) ≡ f.funct3 = omega arith in
    let e5 : bits 6 0 (encode_s f) ≡ f.opcode = omega arith in simp (e1, e2, e3, e4, e5) refl

-- An encoded word has 32 bits.
pub padding-encode_r :
    (f : RFields)
    → f.funct7 < 2 ^ 7
    → f.rs2 < 2 ^ 5
    → f.rs1 < 2 ^ 5
    → f.funct3 < 2 ^ 3
    → f.rd < 2 ^ 5
    → f.opcode < 2 ^ 7
    → padding (encode_r f) ≡ 0
unfolding padding
padding-encode_r f h1 h2 h3 h4 h5 h6 = omega arith

pub padding-encode_i :
    (f : IFields)
    → f.imm < 2 ^ 11
    → f.rs1 < 2 ^ 5
    → f.funct3 < 2 ^ 3
    → f.rd < 2 ^ 5
    → f.opcode < 2 ^ 7
    → padding (encode_i f) ≡ 0
unfolding padding
padding-encode_i f h1 h2 h3 h4 h5 = omega arith

pub padding-encode_s :
    (f : SFields)
    → f.imm < 2 ^ 11
    → f.rs2 < 2 ^ 5
    → f.rs1 < 2 ^ 5
    → f.funct3 < 2 ^ 3
    → f.opcode < 2 ^ 7
    → padding (encode_s f) ≡ 0
unfolding padding
padding-encode_s f h1 h2 h3 h4 h5 = omega arith
