-- ===== src/Semantics/Masks.antt =====
-- Division by powers of two, and the bits of a mask of ones.
use native.Mathlib.Nat.{
  mul-add-div, mul-div_cancel, div-eq_of_lt, add-zero, div-div-eq-div-mul, mul_comm, mul_assoc,
  pow-suc,
}
use riscv_formal.Prelude.{
  ℕ, zero, suc, ◌+◌, ◌-◌, ◌*◌, ◌/◌, ◌%◌, ◌^◌, ◌<◌, ◌≤◌, ◌≡◌, sym, ap, ◌∙◌, arith,
}
use riscv_formal.Verilog.{bit, shl}
use riscv_formal.Verilog.Slices.{pow-pos, pow-add}

pub cancel : (y a : ℕ) → y * 2 ^ a / 2 ^ a ≡ y
cancel y a = mul-div_cancel y (pow-pos a)

pub div-pow-add : (y a b : ℕ) → y / 2 ^ (a + b) ≡ y / 2 ^ a / 2 ^ b
div-pow-add y a b = rw (pow-add a b) (sym (div-div-eq-div-mul y (2 ^ a) (2 ^ b)))

div-pow : (y a b : ℕ) → y * 2 ^ (a + b) / 2 ^ a ≡ y * 2 ^ b
div-pow y a b =
    let e : y * (2 ^ a * 2 ^ b) ≡ y * 2 ^ b * 2 ^ a =
      ap (λ (t : ℕ). y * t) (mul_comm (2 ^ a) (2 ^ b)) ∙ sym (mul_assoc y (2 ^ b) (2 ^ a)) in
    rw (pow-add a b, e) (cancel (y * 2 ^ b) a)

product-pred : (a b : ℕ) → 0 < a → 0 < b → a * b - 1 ≡ a * (b - 1) + (a - 1)
product-pred a zero ha hb = absurd (omega arith)
product-pred a (suc b) ha hb =
    let e : suc b - 1 ≡ b = omega arith in
    let d : a * suc b ≡ a * b + a = omega arith in rw (e, d) (omega arith)

-- The bits of 2 ^ n - 1.
ones-div : (e f : ℕ) → (2 ^ (e + f) - 1) / 2 ^ e ≡ 2 ^ f - 1
ones-div e f =
    let q = 2 ^ f - 1 in
    let split : 2 ^ (e + f) - 1 ≡ 2 ^ e * q + (2 ^ e - 1) =
      ap (λ (t : ℕ). t - 1) (pow-add e f) ∙ product-pred (2 ^ e) (2 ^ f) (pow-pos e) (pow-pos f) in
    let rest : (2 ^ e - 1) / 2 ^ e ≡ 0 = div-eq_of_lt (omega (arith, pow-pos e)) in
    rw (split, mul-add-div (pow-pos e) q (2 ^ e - 1), rest) (add-zero q)

ones-bit : (n e : ℕ) → e < n → bit e (2 ^ n - 1) ≡ 1
ones-bit n e h =
    let f = n - suc e in
    let split : n ≡ e + suc f = omega arith in
    rw (split, ones-div e (suc f), pow-suc 2 f) (omega (arith, pow-pos f))

-- The bits of a mask of n ones from position off on.
pub mask-inside : (n off k : ℕ) → off ≤ k → k < off + n → bit k (shl (2 ^ n - 1) off) ≡ 1
mask-inside n off k low high =
    let split : k ≡ off + (k - off) = omega arith in
    rw (split, div-pow-add, cancel) (ones-bit n (k - off) (omega arith))

pub mask-below : (n off k : ℕ) → k < off → bit k (shl (2 ^ n - 1) off) ≡ 0
mask-below n off k h =
    let d = off - suc k in
    let split : off ≡ k + suc d = omega arith in rw (split, div-pow, pow-suc 2 d) (omega arith)

pub mask-above : (n off k : ℕ) → off + n ≤ k → bit k (shl (2 ^ n - 1) off) ≡ 0
mask-above n off k h =
    let e = k - off - n in
    let split : k ≡ off + (n + e) = omega arith in
    let none_left : (2 ^ n - 1) / 2 ^ n ≡ 0 = div-eq_of_lt (omega (arith, pow-pos n)) in
    rw (split, div-pow-add, cancel, div-pow-add, none_left)
      (ap (λ (t : ℕ). t % 2) (div-eq_of_lt (pow-pos e)))
