-- ===== src/Semantics/Slots.antt =====
-- A register that is assembled slot by slot: its slots, and when two such registers are equal.
use native.Mathlib.Nat.{
  zero-add, div-eq_of_lt, add-mul-div_right, add-mul-mod_self_right, mod-eq_of_lt, mod-mod, mod-lt,
}
use native.Mathlib.Decide.{dec_lt}
use riscv_formal.Prelude.{
  ℕ, zero, suc, ◌+◌, ◌-◌, ◌*◌, ◌/◌, ◌%◌, ◌^◌, ◌<◌, ◌≡◌, refl, sym, ap, ◌∙◌, arith,
}
use riscv_formal.Verilog.{bit}
use riscv_formal.Verilog.Slices.{pow-pos, pow-add, mod-pow-split, slice_slice}
use riscv_formal.Insns.Bitmanip.{assemble}

-- Slot k of a word cut into slots of w bits.
abbrev pub slot : ℕ → ℕ → ℕ → ℕ
slot w k x = x / 2 ^ (w * k) % 2 ^ w

pub assemble-lt : (w n : ℕ) (f : ℕ → ℕ) → assemble w n f < 2 ^ (w * n)
unfolding assemble
assemble-lt w zero f = pow-pos (w * zero)
assemble-lt w (suc n) f =
    let e : w * suc n ≡ w * n + w = omega arith in
    rw (e, pow-add (w * n) w) (grind (arith, assemble-lt w n f, mod-lt (f n) (pow-pos w)))

pub assemble-congr :
    (w n : ℕ) (f g : ℕ → ℕ)
    → ((k : ℕ) → k < n → f k % 2 ^ w ≡ g k % 2 ^ w)
    → assemble w n f ≡ assemble w n g
unfolding assemble
assemble-congr w zero f g h = refl
assemble-congr w (suc n) f g h =
    rw (assemble-congr w n f g (λ k p. h k (omega arith)), h n (omega arith))

-- A slot of the low slots is a slot.
pub slot-mod : (w n k y : ℕ) → k < n → slot w k (y % 2 ^ (w * n)) ≡ slot w k y
slot-mod w n k y h =
    let j = n - suc k in
    let e : n ≡ suc k + j = omega arith in
    let d : w * n ≡ w * k + (w + w * j) = ap (λ (t : ℕ). w * t) e ∙ omega arith in
    let cut = slice_slice y 0 (w * k) w (w * j) in
    let plain : y / 2 ^ 0 ≡ y = omega arith in
    let zero_add : 0 + w * k ≡ w * k = omega arith in rw d (rw (plain, zero_add) at cut)

-- The slots of an assembled register are what was assigned to them.
pub slot-assemble : (w n : ℕ) (f : ℕ → ℕ) (k : ℕ) → k < n → slot w k (assemble w n f) ≡ f k % 2 ^ w
unfolding assemble
slot-assemble w zero f k h = absurd (omega arith)
slot-assemble w (suc n) f k h = elim (dec_lt k n) [
  | yes p ↦
      let low : (assemble w n f + f n % 2 ^ w * 2 ^ (w * n)) % 2 ^ (w * n) ≡ assemble w n f =
        add-mul-mod_self_right (assemble w n f) (f n % 2 ^ w) (2 ^ (w * n))
        ∙ mod-eq_of_lt (assemble-lt w n f) in
      sym (slot-mod w n k _ p) ∙ ap (slot w k) low ∙ slot-assemble w n f k p
  | no p ↦
      let same : k ≡ n = omega arith in
      rw
        (
          same,
          add-mul-div_right _ (f n % 2 ^ w) (pow-pos (w * n)),
          div-eq_of_lt (assemble-lt w n f),
        )
        (ap (λ t. t % 2 ^ w) (zero-add _) ∙ mod-mod (f n) (2 ^ w))
]

-- A word is assembled from its slots.
pub assemble-slot : (w n x : ℕ) → assemble w n (λ k. slot w k x) ≡ x % 2 ^ (w * n)
unfolding assemble
assemble-slot w zero x = let e : w * zero ≡ 0 = omega arith in rw e (omega arith)
assemble-slot w (suc n) x =
    let e : w * suc n ≡ w * n + w = omega arith in
    rw (e, mod-pow-split x (w * n) w, assemble-slot w n x, mod-mod) (omega arith)

pub bit-slot : (k x : ℕ) → slot 1 k x ≡ bit k x
bit-slot k x = let e : 1 * k ≡ k = omega arith in rw e
