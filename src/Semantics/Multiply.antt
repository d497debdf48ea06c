-- ===== src/Semantics/Multiply.antt =====
-- The multiplications and the unsigned divisions of a word.
use native.Mathlib.Nat.{
  mod-mod, mod-lt, mod-eq_of_lt, div-add-mod, div-add-mod', div-le_self, mod-le, div-lt_iff_lt-mul,
  le-div_iff_mul-le, mul-le-mul_left, pow-suc, add-mul-mod_self_right, mod-mod_of_dvd,
  dvd-mul_right, mul-le-mul,
}
use riscv_formal.Prelude.{
  ℕ, zero, suc, ◌+◌, ◌-◌, ◌*◌, ◌/◌, ◌%◌, ◌^◌, ◌<◌, ◌≤◌, ◌≡◌, sym, ap, ◌∙◌, false, refl, lt→ltb, ltb,
  Bool-cases, inl, inr, arith,
}
use riscv_formal.Verilog.{wrap, sext}
use riscv_formal.Verilog.Slices.{pow-pos, pow-add, mod-mul-div}
use riscv_formal.Insns.Module.{Macros, Rvfi}
use riscv_formal.Insns.Mnemonic.{Mnemonic}
use riscv_formal.Insns.Table.{model}
use riscv_formal.Insns.Wires.{guard_rd, extend_w, result_width}
use riscv_formal.Insns.Alu.{Alt, Mode, alu_shamt, alu_result, insn_alu}
use riscv_formal.Insns.Expr

alu_result-plain :
    (c : Macros) (alt : Alt) (expr : Macros → ℕ → ℕ → ℕ → ℕ) (a b : ℕ)
    → c.altops ≡ false
    → alu_result c Mode.full alt expr a b ≡ wrap c.xlen (expr c a b (alu_shamt c Mode.full b))
unfolding alu_result result_width
alu_result-plain c Alt.no_alt expr a b plain = refl
alu_result-plain c (Alt.alt_add m) expr a b plain = simp plain refl
alu_result-plain c (Alt.alt_sub m) expr a b plain = simp plain refl

-- Without the alternative operations, what an instruction of `insn_alu` on whole words gives a
-- register other than 0.
insn_alu-rd_wdata :
    (funct7 funct3 : ℕ) (expr : Macros → ℕ → ℕ → ℕ → ℕ) (alt : Alt) (misa : ℕ) (c : Macros)
    (i : Rvfi) {a b : ℕ}
    → c.altops ≡ false
    → 0 < (insn_alu funct7 funct3 expr alt Mode.full misa c i).rd_addr
    → i.rs1_rdata ≡ a
    → i.rs2_rdata ≡ b
    → (insn_alu funct7 funct3 expr alt Mode.full misa c i).rd_wdata
      ≡ expr c a b (alu_shamt c Mode.full b) % 2 ^ c.xlen
unfolding insn_alu guard_rd extend_w
insn_alu-rd_wdata funct7 funct3 expr alt misa c i {a} {b} plain h same_a same_b =
    let nonzero = lt→ltb 0 _ h in
    let operands : alu_result c Mode.full alt expr i.rs1_rdata i.rs2_rdata
        ≡ alu_result c Mode.full alt expr a b =
      ap (λ (x : ℕ). alu_result c Mode.full alt expr x i.rs2_rdata) same_a
      ∙ ap (λ (y : ℕ). alu_result c Mode.full alt expr a y) same_b in
    simp nonzero (
      ap (λ (t : ℕ). t % 2 ^ c.xlen) (operands ∙ alu_result-plain c alt expr a b plain)
      ∙ mod-mod _ (2 ^ c.xlen))

-- Multiplication by words that differ by multiples of m.
mul-shift : (a b k l m : ℕ) → (a + k * m) * (b + l * m) % m ≡ a * b % m
mul-shift a b k l m =
    let split : (a + k * m) * (b + l * m) ≡ a * b + (a * l + k * b + k * l * m) * m = grind arith in
    rw split (add-mul-mod_self_right (a * b) _ m)

-- An extended word is the word and a multiple of 2 ^ w.
sext-shift : (w a : ℕ) → (k : ℕ) × (sext w (2 * w) a ≡ a + k * 2 ^ w)
unfolding sext
sext-shift w a = elim (Bool-cases (ltb a (2 ^ (w - 1)))) [
  | inl small ↦ (0, rw small (omega arith))
  | inr big ↦
      let e : 2 * w ≡ w + w = omega arith in
      let up = 2 ^ w - 1 in
      let one_up : 2 ^ w ≡ up + 1 = omega (arith, pow-pos w) in
      (up, rw (big, e, pow-add w w, one_up) (grind arith))
]

-- The two halves of a product of 2 * w bits.
halves : (w p : ℕ) → wrap (2 * w) p / 2 ^ w % 2 ^ w * 2 ^ w + p % 2 ^ w ≡ wrap (2 * w) p
halves w p =
    let e : 2 * w ≡ w + w = omega arith in
    let low : p % (2 ^ w * 2 ^ w) % 2 ^ w ≡ p % 2 ^ w =
      mod-mod_of_dvd (2 ^ w) p (dvd-mul_right (2 ^ w) (2 ^ w)) in
    let high : p % (2 ^ w * 2 ^ w) / 2 ^ w % 2 ^ w ≡ p % (2 ^ w * 2 ^ w) / 2 ^ w =
      rw (mod-mul-div p (2 ^ w) (2 ^ w) (pow-pos w) (pow-pos w)) (mod-mod _ (2 ^ w)) in
    rw (e, pow-add w w, high, ← low) (div-add-mod' _ (2 ^ w))

join :
    (w p : ℕ) {high low : ℕ}
    → high ≡ wrap (2 * w) p / 2 ^ w % 2 ^ w
    → low ≡ p % 2 ^ w
    → high * 2 ^ w + low ≡ wrap (2 * w) p
join w p h l = rw (h, l) (halves w p)

sext-mul : (w a b : ℕ) → a * b % 2 ^ w ≡ sext w (2 * w) a * sext w (2 * w) b % 2 ^ w
sext-mul w a b =
    let (k, ka) = sext-shift w a in
    let (l, lb) = sext-shift w b in rw (ka, lb) (sym (mul-shift a b k l (2 ^ w)))

sext-mul_plain : (w a b : ℕ) → a * b % 2 ^ w ≡ sext w (2 * w) a * b % 2 ^ w
sext-mul_plain w a b =
    let (k, ka) = sext-shift w a in
    let same : b ≡ b + 0 * 2 ^ w = omega arith in
    rw ka (sym (ap (λ (t : ℕ). (a + k * 2 ^ w) * t % 2 ^ w) same ∙ mul-shift a b k 0 (2 ^ w)))

module _ (c : Macros) (i j : Rvfi) (plain : c.altops ≡ false) (same_a : j.rs1_rdata ≡ i.rs1_rdata)
    (same_b : j.rs2_rdata ≡ i.rs2_rdata) (low_rd : 0 < (model Mnemonic.mul c i).rd_addr) where
  mul-rd_wdata : (model Mnemonic.mul c i).rd_wdata ≡ i.rs1_rdata * i.rs2_rdata % 2 ^ c.xlen
  unfolding model
  mul-rd_wdata = insn_alu-rd_wdata _ _ _ _ _ c i plain low_rd refl refl

  -- On the same operands, without the alternative operations and with a register other than 0 to
  -- write, `mulh` and `mul` give the upper and the lower word of the product of the operands, each
  -- extended by its sign to two words.
  pub mulh-mul :
      0 < (model Mnemonic.mulh c j).rd_addr
      → (model Mnemonic.mulh c j).rd_wdata * 2 ^ c.xlen + (model Mnemonic.mul c i).rd_wdata
        ≡ wrap
            (2 * c.xlen)
            (sext c.xlen (2 * c.xlen) i.rs1_rdata * sext c.xlen (2 * c.xlen) i.rs2_rdata)
  unfolding model Expr.mulh
  mulh-mul high_rd =
      let high = insn_alu-rd_wdata _ _ _ _ _ c j plain high_rd same_a same_b in
      join c.xlen _ high (mul-rd_wdata ∙ sext-mul c.xlen i.rs1_rdata i.rs2_rdata)

  -- As for `mulh`, `mulhsu` and `mul` give the product of which only the first operand is extended
  -- by its sign.
  pub mulhsu-mul :
      0 < (model Mnemonic.mulhsu c j).rd_addr
      → (model Mnemonic.mulhsu c j).rd_wdata * 2 ^ c.xlen + (model Mnemonic.mul c i).rd_wdata
        ≡ wrap (2 * c.xlen) (sext c.xlen (2 * c.xlen) i.rs1_rdata * i.rs2_rdata)
  unfolding model Expr.mulhsu
  mulhsu-mul high_rd =
      let high = insn_alu-rd_wdata _ _ _ _ _ c j plain high_rd same_a same_b in
      join c.xlen _ high (mul-rd_wdata ∙ sext-mul_plain c.xlen i.rs1_rdata i.rs2_rdata)

  -- As for `mulh`, `mulhu` and `mul` give the whole product of two words.
  pub mulhu-mul :
      i.rs1_rdata < 2 ^ c.xlen
      → i.rs2_rdata < 2 ^ c.xlen
      → 0 < (model Mnemonic.mulhu c j).rd_addr
      → (model Mnemonic.mulhu c j).rd_wdata * 2 ^ c.xlen + (model Mnemonic.mul c i).rd_wdata
        ≡ i.rs1_rdata * i.rs2_rdata
  unfolding model Expr.mulhu
  mulhu-mul fits_a fits_b high_rd =
      let high = insn_alu-rd_wdata _ _ _ _ _ c j plain high_rd same_a same_b in
      let e : 2 * c.xlen ≡ c.xlen + c.xlen = omega arith in
      let fits : i.rs1_rdata * i.rs2_rdata < 2 ^ (2 * c.xlen) =
        rw (e, pow-add c.xlen c.xlen) (grind (arith, mul-le-mul)) in
      join c.xlen _ high mul-rd_wdata ∙ mod-eq_of_lt fits

divu-div : (c : Macros) (a b : ℕ) → a < 2 ^ c.xlen → 0 < b → Expr.divu c a b % 2 ^ c.xlen ≡ a / b
unfolding Expr.divu Expr.udiv
divu-div c a b fits positive =
    let small : a / b < 2 ^ c.xlen = omega (arith, div-le_self a b) in
    ground (arith, mod-eq_of_lt small)

remu-mod : (c : Macros) (a b : ℕ) → a < 2 ^ c.xlen → 0 < b → Expr.remu c a b % 2 ^ c.xlen ≡ a % b
unfolding Expr.remu Expr.umod
remu-mod c a b fits positive =
    let small : a % b < 2 ^ c.xlen = omega (arith, mod-le a b) in ground (arith, mod-eq_of_lt small)

-- Without the alternative operations, `divu` and `remu` on the same operands, with a register other
-- than 0 to write, are the quotient and the remainder: what a divisor of 0 gives is 2 ^ XLEN - 1 and
-- the dividend.
pub divu-remu :
    (c : Macros) (i j : Rvfi)
    → c.altops ≡ false
    → j.rs1_rdata ≡ i.rs1_rdata
    → j.rs2_rdata ≡ i.rs2_rdata
    → i.rs1_rdata < 2 ^ c.xlen
    → 0 < (model Mnemonic.divu c i).rd_addr
    → 0 < (model Mnemonic.remu c j).rd_addr
    → let q = (model Mnemonic.divu c i).rd_wdata in
      let r = (model Mnemonic.remu c j).rd_wdata in
      (0 < i.rs2_rdata → (i.rs1_rdata ≡ i.rs2_rdata * q + r) × (r < i.rs2_rdata))
      × (i.rs2_rdata ≡ 0 → (q ≡ 2 ^ c.xlen - 1) × (r ≡ i.rs1_rdata))
unfolding model Expr.divu Expr.remu Expr.udiv Expr.umod
divu-remu c i j plain same_a same_b fits rd_q rd_r =
    let q = insn_alu-rd_wdata _ _ _ _ _ c i plain rd_q refl refl in
    let r = insn_alu-rd_wdata _ _ _ _ _ c j plain rd_r same_a same_b in
    (
      λ positive.
          rw (q, r, divu-div c _ _ fits positive, remu-mod c _ _ fits positive)
            (sym (div-add-mod i.rs1_rdata i.rs2_rdata), mod-lt i.rs1_rdata positive),
      λ zero_b. rw (q, r, zero_b) (mod-eq_of_lt (omega (arith, pow-pos c.xlen)), mod-eq_of_lt fits),
    )

div-div :
    (c : Macros) (a b : ℕ)
    → 0 < b
    → b < 2 ^ c.xlen - 1
    → a < 2 ^ c.xlen
    → Expr.div c a b % 2 ^ c.xlen ≡ a / b
unfolding Expr.div Expr.udiv
div-div c a b positive small fits =
    let bound : a / b < 2 ^ c.xlen = omega (arith, div-le_self a b) in
    ground (arith, mod-eq_of_lt bound)

half : (w a : ℕ) → 2 ^ (w - 1) ≤ a → a < 2 ^ w → 2 ^ w ≡ 2 * 2 ^ (w - 1)
half zero a low high = absurd (omega arith)
half (suc w) a low high = let e : suc w - 1 ≡ w = omega arith in rw (e, pow-suc 2 w) (omega arith)

-- Without the alternative operations, `div` of a negative word by a positive word from 2 on gives a
-- register other than 0 the quotient of the words as unsigned numbers, which is a positive word.
pub div_negative :
    (c : Macros) (i : Rvfi)
    → c.altops ≡ false
    → 0 < (model Mnemonic.div c i).rd_addr
    → 2 ^ (c.xlen - 1) ≤ i.rs1_rdata
    → i.rs1_rdata < 2 ^ c.xlen
    → 2 ≤ i.rs2_rdata
    → i.rs2_rdata < 2 ^ (c.xlen - 1)
    → let q = (model Mnemonic.div c i).rd_wdata in
      (q ≡ i.rs1_rdata / i.rs2_rdata) × (0 < q) × (q < 2 ^ (c.xlen - 1))
unfolding model
div_negative c i plain rd negative fits two positive =
    let q = insn_alu-rd_wdata _ _ _ _ _ c i plain rd refl refl in
    let top : 2 ^ c.xlen ≡ 2 * 2 ^ (c.xlen - 1) = half c.xlen i.rs1_rdata negative fits in
    let e = div-div c i.rs1_rdata i.rs2_rdata (omega arith) (omega arith) fits in
    rw (q, e)
      (
        refl,
        (le-div_iff_mul-le (omega arith)).1 (omega arith),
        (div-lt_iff_lt-mul (omega arith)).1 (omega (arith, mul-le-mul_left (2 ^ (c.xlen - 1)) two)),
      )
