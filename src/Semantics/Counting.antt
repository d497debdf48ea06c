-- ===== src/Semantics/Counting.antt =====
-- The counting loops of `insn_count`, against what the counts are.
use native.Mathlib.Nat.{mod-lt, pow-suc}
use riscv_formal.Prelude.{
  ℕ, zero, suc, ◌+◌, ◌-◌, ◌*◌, ◌%◌, ◌^◌, ◌<◌, ◌≤◌, ◌≡◌, refl, ◌⊎◌, inl, inr, Bool, true, false,
  arith,
}
use riscv_formal.Verilog.{bit}
use riscv_formal.Verilog.Slices.{pow-pos, mod-pow-split}
use riscv_formal.Insns.Bitmanip.{leading, trailing, count_step, count_loop}

low-suc : (n x : ℕ) → x % 2 ^ suc n ≡ 2 ^ n * bit n x + x % 2 ^ n
low-suc n x = let e : n + 1 ≡ suc n = omega arith in rw e at (mod-pow-split x n 1)

bit-cases : (n x : ℕ) → (bit n x ≡ 0) ⊎ (bit n x ≡ 1)
bit-cases n x = omega arith

-- The registers `result` and `found` after the rounds for the low n bits: none of the bits is set
-- and all are counted, or bit `r` is the lowest that is set.
abbrev Trailing : ℕ → ℕ → ℕ × Bool → Type 0
Trailing n x s =
    ((s.1 ≡ false) × (s.0 ≡ n) × (x % 2 ^ n ≡ 0))
    ⊎ ((s.1 ≡ true) × (s.0 < n) × (bit s.0 x ≡ 1) × (x % 2 ^ s.0 ≡ 0))

trailing-step :
    (n x : ℕ) (s : ℕ × Bool) → Trailing n x s → Trailing (suc n) x (count_step trailing (bit n x) s)
unfolding count_step
trailing-step n x (r, true) h = ground arith
trailing-step n x (r, false) (inl (_, all, zeros)) = elim (bit-cases n x) [
  | inl clear ↦ rw clear (inl (refl, omega arith, rw (low-suc n x, clear) (omega (arith, zeros))))
  | inr set ↦
      let same : r + 0 ≡ n = omega arith in
      rw set (inr (refl, omega arith, rw same set, rw same zeros))
]
trailing-step n x (r, false) (inr (e, _, _, _)) = cc

count_loop-trailing : (n x : ℕ) → Trailing n x (count_loop trailing n x)
unfolding count_loop
count_loop-trailing zero x = inl (refl, refl, omega arith)
count_loop-trailing (suc n) x =
    trailing-step n x (count_loop trailing n x) (count_loop-trailing n x)

-- The count of trailing zeros of the low n bits of x: it is n and the bits are all 0, or it is the
-- position of a set bit below n and the bits below that are 0.
pub trailing_count :
    (n x : ℕ)
    → (((count_loop trailing n x).0 ≡ n) × (x % 2 ^ n ≡ 0))
      ⊎ (((count_loop trailing n x).0 < n)
          × (bit (count_loop trailing n x).0 x ≡ 1)
          × (x % 2 ^ (count_loop trailing n x).0 ≡ 0))
trailing_count n x = elim (count_loop-trailing n x) [
  | inl (_, all, zeros) ↦ inl (all, zeros)
  | inr (_, below, set, zeros) ↦ inr (below, set, zeros)
]

-- As the next theorem states it, of a count r for the low n bits, v.
abbrev Leading : ℕ → ℕ → ℕ → Type 0
Leading n r v = ((r ≡ n) × (v ≡ 0)) ⊎ ((r < n) × (2 ^ (n - r - 1) ≤ v) × (v < 2 ^ (n - r)))

Leading-set : (n v : ℕ) → v < 2 ^ n → Leading (suc n) 0 (2 ^ n * 1 + v)
Leading-set n v h =
    let p = pow-suc 2 n in
    let e : suc n - 0 - 1 ≡ n = omega arith in
    let f : suc n - 0 ≡ suc n = omega arith in
    inr (omega arith, rw e (omega arith), rw f (omega arith))

Leading-clear : (n r v : ℕ) → Leading n r v → Leading (suc n) (r + 1) (2 ^ n * 0 + v)
Leading-clear n r v (inl (all, zeros)) = inl (omega arith, omega arith)
Leading-clear n r v (inr (below, low, high)) =
    let e : suc n - (r + 1) ≡ n - r = omega arith in
    rw e (inr (omega arith, omega arith, omega arith))

-- The count of leading zeros of the low n bits of x: it is n and the bits are all 0, or it is some
-- r < n and the bits, as a number, lie between 2 ^ (n - r - 1) and 2 ^ (n - r).
pub leading_count :
    (n x : ℕ)
    → (((count_loop leading n x).0 ≡ n) × (x % 2 ^ n ≡ 0))
      ⊎ (((count_loop leading n x).0 < n)
          × (2 ^ (n - (count_loop leading n x).0 - 1) ≤ x % 2 ^ n)
          × (x % 2 ^ n < 2 ^ (n - (count_loop leading n x).0)))
unfolding count_loop count_step
leading_count zero x = inl (refl, omega arith)
leading_count (suc n) x = elim (bit-cases n x) [
  | inl clear ↦ rw (low-suc n x, clear) (Leading-clear n _ _ (leading_count n x))
  | inr set ↦ rw (low-suc n x, set) (Leading-set n _ (mod-lt x (pow-pos n)))
]
