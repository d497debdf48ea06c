-- ===== src/Semantics/Permute.antt =====
-- The instructions that permute the bits of a word: `rev8`, `zip` and `unzip`.
use native.Mathlib.Nat.{mod-eq_of_lt, mod-mod, pow-suc, div-div-eq-div-mul, mul_comm}
use riscv_formal.Prelude.{ℕ, suc, ◌+◌, ◌-◌, ◌*◌, ◌/◌, ◌%◌, ◌^◌, ◌<◌, ◌≡◌, sym, ap, ◌∙◌, arith}
use riscv_formal.Verilog.{bit}
use riscv_formal.Verilog.Slices.{pow-add, mod-pow-split}
use riscv_formal.Insns.Bitmanip.{assemble, bytewise, bytes_result, zip_result, unzip_result}
use riscv_formal.Insns.Expr.{rev8_byte}
use riscv_formal.Semantics.Slots.{slot, slot-assemble, assemble-slot, assemble-congr, bit-slot}

-- The loop of `rev8` assigns slot n - 1 - i to slot i.
rev8-slot : (n x i : ℕ) → i < n → rev8_byte n x i ≡ slot 8 (n - 1 - i) x
unfolding rev8_byte
rev8-slot n x i h = let e : (n - i) * 8 - 8 ≡ 8 * (n - 1 - i) = omega arith in rw e

slot-rev8 :
    (n x k : ℕ) → k < n → slot 8 k (bytes_result (bytewise rev8_byte) n x) ≡ slot 8 (n - 1 - k) x
unfolding bytes_result
slot-rev8 n x k h =
    slot-assemble 8 n (rev8_byte n x) k h
    ∙ ap (λ t. t % 2 ^ 8) (rev8-slot n x k h)
    ∙ mod-mod _ (2 ^ 8)

-- Reversing the bytes of a word of n bytes twice gives the word back.
pub rev8_involutive :
    (n x : ℕ)
    → x < 2 ^ (8 * n)
    → bytes_result (bytewise rev8_byte) n (bytes_result (bytewise rev8_byte) n x) ≡ x
unfolding bytes_result
rev8_involutive n x h =
    assemble-congr 8 n _ (λ k. slot 8 k x)
      (λ k p.
        let back : n - 1 - (n - 1 - k) ≡ k = omega arith in
        ap (λ t. t % 2 ^ 8)
          (rev8-slot n _ k p ∙ slot-rev8 n x (n - 1 - k) (omega arith) ∙ ap (λ j. slot 8 j x) back))
    ∙ assemble-slot 8 n x
    ∙ mod-eq_of_lt h

-- The two bits of a slot of two.
slot-bits : (k x : ℕ) → slot 2 k x ≡ bit (2 * k) x + 2 * bit (2 * k + 1) x
slot-bits k x =
    let e : 2 * k + 1 ≡ suc (2 * k) = omega arith in
    rw (e, pow-suc 2 (2 * k), ← div-div-eq-div-mul) (omega arith)

zip_slot : (h x k : ℕ) → k < h → slot 2 k (zip_result h x) ≡ bit k x + 2 * bit (k + h) x
unfolding zip_result
zip_slot h x k p = slot-assemble 2 h _ k p ∙ omega arith

zip_even : (h x k : ℕ) → k < h → bit (2 * k) (zip_result h x) ≡ bit k x
zip_even h x k p = omega (arith, slot-bits k (zip_result h x), zip_slot h x k p)

zip_odd : (h x k : ℕ) → k < h → bit (2 * k + 1) (zip_result h x) ≡ bit (k + h) x
zip_odd h x k p = omega (arith, slot-bits k (zip_result h x), zip_slot h x k p)

bit-high : (h x k : ℕ) → bit (k + h) x ≡ bit k (x / 2 ^ h)
bit-high h x k = let e : k + h ≡ h + k = omega arith in rw (e, pow-add h k, ← div-div-eq-div-mul)

-- The bits of a word of h bits, assembled one by one.
assemble-bit : (h x : ℕ) → assemble 1 h (λ k. bit k x) ≡ x % 2 ^ h
assemble-bit h x =
    let e : 1 * h ≡ h = omega arith in
    assemble-congr 1 h _ (λ k. slot 1 k x) (λ k p. ap (λ t. t % 2 ^ 1) (sym (bit-slot k x)))
    ∙ assemble-slot 1 h x
    ∙ ap (λ t. x % 2 ^ t) e

-- `unzip` undoes `zip`, on words of 2 * h bits.
pub unzip-zip : (h x : ℕ) → x < 2 ^ (h + h) → unzip_result h (zip_result h x) ≡ x
unfolding unzip_result
unzip-zip h x fits =
    let low : assemble 1 h (λ k. bit (2 * k) (zip_result h x)) ≡ x % 2 ^ h =
      assemble-congr 1 h _ _ (λ k p. ap (λ t. t % 2 ^ 1) (zip_even h x k p)) ∙ assemble-bit h x in
    let high : assemble 1 h (λ k. bit (2 * k + 1) (zip_result h x)) ≡ x / 2 ^ h % 2 ^ h =
      assemble-congr 1 h _ _ (λ k p. ap (λ t. t % 2 ^ 1) (zip_odd h x k p ∙ bit-high h x k))
      ∙ assemble-bit h (x / 2 ^ h) in
    rw (low, high)
      (omega (arith, mod-pow-split x h h, mod-eq_of_lt fits, mul_comm (2 ^ h) (x / 2 ^ h % 2 ^ h)))
