-- ===== src/Verilog/Slices.antt =====
-- A slice of a slice is a slice.
use native.Mathlib.Nat.{
  add-zero, pow-suc, mul_assoc, mul_comm, div-div-eq-div-mul, mul-add-div, mul-add-mod_self_left,
  div-lt_iff_lt-mul, mod-lt, mod-eq_of_lt, mod-mod_of_dvd, dvd-mul_right, one-le-pow, div-add-mod,
}
use riscv_formal.Prelude.{
  ℕ, zero, suc, ◌+◌, ◌-◌, ◌*◌, ◌/◌, ◌%◌, ◌^◌, ◌≤◌, ◌<◌, ◌≡◌, ap, ◌∙◌, sym, arith,
}
use riscv_formal.Verilog.{bits}

pub pow-pos : (k : ℕ) → 0 < 2 ^ k
pow-pos k = one-le-pow k 2 (omega arith)

pub pow-add : (a b : ℕ) → 2 ^ (a + b) ≡ 2 ^ a * 2 ^ b
pow-add a zero = rw add-zero (omega arith)
pow-add a (suc b) =
    let e : a + suc b ≡ suc (a + b) = omega arith in
    rw (e, pow-suc 2 (a + b), pow-add a b, pow-suc 2 b) (mul_assoc (2 ^ a) (2 ^ b) 2)

-- The remainder by a product, divided by its first factor.
pub mod-mul-div : (y d m : ℕ) → 0 < d → 0 < m → y % (d * m) / d ≡ y / d % m
mod-mul-div y d m hd hm =
    let q = y / (d * m) in
    let r = y % (d * m) in
    let small : r / d < m = (div-lt_iff_lt-mul hd).1 (rw (mul_comm m d) (mod-lt y (grind arith))) in
    let whole : y ≡ d * (m * q) + r = rw (← mul_assoc) (sym (div-add-mod y (d * m))) in
    let split : y / d ≡ m * q + r / d = ap (λ (t : ℕ). t / d) whole ∙ mul-add-div hd (m * q) r in
    rw (split, mul-add-mod_self_left m q (r / d)) (sym (mod-eq_of_lt small))

-- Cutting `w` bits from bit `d` on out of a slice that has them.
pub slice_slice :
    (x a d w e : ℕ) → x / 2 ^ a % 2 ^ (d + (w + e)) / 2 ^ d % 2 ^ w ≡ x / 2 ^ (a + d) % 2 ^ w
slice_slice x a d w e =
    rw
      (
        pow-add d (w + e),
        mod-mul-div (x / 2 ^ a) (2 ^ d) (2 ^ (w + e)) (pow-pos d) (pow-pos (w + e)),
        div-div-eq-div-mul,
        pow-add w e,
        pow-add a d,
      )
      (mod-mod_of_dvd _ _ (dvd-mul_right _ _))

pub bits-bits :
    (x hi lo hi' lo' : ℕ)
    → lo ≤ lo'
    → lo' ≤ hi'
    → hi' ≤ hi
    → bits (hi' - lo) (lo' - lo) (bits hi lo x) ≡ bits hi' lo' x
bits-bits x hi lo hi' lo' p q r =
    let d : hi + 1 - lo ≡ lo' - lo + (hi' + 1 - lo' + (hi - hi')) = omega arith in
    let w : hi' - lo + 1 - (lo' - lo) ≡ hi' + 1 - lo' = omega arith in
    let b : lo + (lo' - lo) ≡ lo' = omega arith in
    rw (d, w)
      (slice_slice x lo (lo' - lo) (hi' + 1 - lo') (hi - hi')
        ∙ ap (λ t. x / 2 ^ t % 2 ^ (hi' + 1 - lo')) b)

-- The low bits up to a bound split at any point below it.
pub mod-mul-split : (y d m : ℕ) → 0 < d → 0 < m → y % (d * m) ≡ d * (y / d % m) + y % d
mod-mul-split y d m hd hm =
    let whole : d * (y % (d * m) / d) + y % (d * m) % d ≡ y % (d * m) = div-add-mod _ d in
    let low : y % (d * m) % d ≡ y % d = mod-mod_of_dvd d y (dvd-mul_right d m) in
    omega (arith, whole, low, ap (λ (t : ℕ). d * t) (mod-mul-div y d m hd hm))

pub mod-pow-split : (x n w : ℕ) → x % 2 ^ (n + w) ≡ 2 ^ n * (x / 2 ^ n % 2 ^ w) + x % 2 ^ n
mod-pow-split x n w = rw (pow-add n w) (mod-mul-split x (2 ^ n) (2 ^ w) (pow-pos n) (pow-pos w))
