-- ===== src/Monitor/Order.antt =====
-- What the reorder buffer delivers.
use riscv_formal.Prelude.{
  ℕ, zero, suc, ◌+◌, ◌%◌, ◌^◌, ◌≡◌, refl, inl, inr, Bool, true, false, ◌==◌, List, [], ◌∷◌, Option,
  none, some, if◌then◌else◌, arith, Bool-cases,
}
use riscv_formal.Monitor.Rob.{
  Entry, Rob, assigned, slot_of, rob_inputs, rob_outputs, stopped, somes,
}

-- Orders that count up from c, on 64 bits.
abbrev pub Consecutive : ℕ → List Entry → Type 0
Consecutive c [] = Unit
Consecutive c (e ∷ es) = (e.order ≡ c) × Consecutive ((c + 1) % 2 ^ 64) es

-- The count that follows the last one.
abbrev pub advance : ℕ → List Entry → ℕ
advance c [] = c
advance c (e ∷ es) = advance ((c + 1) % 2 ^ 64) es

abbrev pub AllOf {ℓ} : {A : Type ℓ} → (A → Type 0) → List A → Type 0
AllOf P [] = Unit
AllOf P (x ∷ xs) = P x × AllOf P xs

somes-stopped : (n : ℕ) → somes (stopped n) ≡ []
somes-stopped zero = refl
somes-stopped (suc n) = somes-stopped n

-- Without an error the outputs of an edge have the orders from the cursor on.
pub rob_outputs-Consecutive :
    (b : ℕ) (s : Rob) (n : ℕ) (v : ℕ → Bool) (c errcode : ℕ)
    → (rob_outputs b s n v c errcode).errcode ≡ 0
    → let o = rob_outputs b s n v c errcode in
      (errcode ≡ 0) × Consecutive c (somes o.outs) × (o.cursor ≡ advance c (somes o.outs))
unfolding rob_outputs
rob_outputs-Consecutive b s zero v c errcode h = (h, tt, refl)
rob_outputs-Consecutive b s (suc n) v c errcode h = elim (Bool-cases (s.valid (slot_of b c))) [
  | inl stored ↦
      let ih =
        rob_outputs-Consecutive b s n (assigned (slot_of b c) false v) ((c + 1) % 2 ^ 64)
          (if (s.buffer (slot_of b c)).order == c then errcode else 61000 + c % 2 ^ 8)
          (simp stored at h) in
      let both : (errcode ≡ 0) × ((s.buffer (slot_of b c)).order ≡ c) = ground arith in
      simp stored (both.0, (both.1, ih.1), ih.2)
  | inr empty ↦ simp empty (simp empty at h, rw (somes-stopped n) tt, rw (somes-stopped n))
]

-- Outputs and stored entries keep any property that the stored entries had.
pub rob_outputs-AllOf :
    (P : Entry → Type 0) (b : ℕ) (s : Rob) (n : ℕ) (v : ℕ → Bool) (c errcode : ℕ)
    → ((k : ℕ) → s.valid k ≡ true → P (s.buffer k))
    → AllOf P (somes (rob_outputs b s n v c errcode).outs)
unfolding rob_outputs
rob_outputs-AllOf P b s zero v c errcode h = tt
rob_outputs-AllOf P b s (suc n) v c errcode h = elim (Bool-cases (s.valid (slot_of b c))) [
  | inl stored ↦ simp stored (
    h (slot_of b c) stored,
    rob_outputs-AllOf P b s n (assigned (slot_of b c) false v) ((c + 1) % 2 ^ 64)
        (if (s.buffer (slot_of b c)).order == c then errcode else 61000 + c % 2 ^ 8) h,
  )
  | inr empty ↦ simp empty (rw (somes-stopped n) tt)
]

-- The output blocks only clear bits of `valid`.
pub rob_outputs-valid :
    (b : ℕ) (s : Rob) (n : ℕ) (v : ℕ → Bool) (c errcode k : ℕ)
    → (rob_outputs b s n v c errcode).valid k ≡ true
    → v k ≡ true
unfolding rob_outputs
rob_outputs-valid b s zero v c errcode k h = h
rob_outputs-valid b s (suc n) v c errcode k h = elim (Bool-cases (s.valid (slot_of b c))) [
  | inl stored ↦
      let later =
        rob_outputs-valid b s n (assigned (slot_of b c) false v) ((c + 1) % 2 ^ 64)
          (if (s.buffer (slot_of b c)).order == c then errcode else 61000 + c % 2 ^ 8) k
          (simp stored at h) in
      ground arith
  | inr empty ↦ simp empty at h
]

-- What a property of the inputs and the stored entries is after the input blocks.
pub rob_inputs-AllOf :
    (P : Entry → Type 0) (b : ℕ) (old : ℕ → Bool) (ins : List (Option Entry)) (s : Rob)
    (errcode : ℕ)
    → AllOf P (somes ins)
    → ((k : ℕ) → s.valid k ≡ true → P (s.buffer k))
    → (k : ℕ) → (rob_inputs b old ins (s, errcode)).0.valid k ≡ true
    → P ((rob_inputs b old ins (s, errcode)).0.buffer k)
unfolding rob_inputs
rob_inputs-AllOf P b old [] s errcode p h k v = h k v
rob_inputs-AllOf P b old (none ∷ ins) s errcode p h k v =
    rob_inputs-AllOf P b old ins s errcode p h k v
rob_inputs-AllOf P b old (some e ∷ ins) s errcode p h k v =
    rob_inputs-AllOf P b old ins _ _ p.1
      (λ j w. elim (Bool-cases (j == slot_of b e.order)) [
        | inl same ↦ rw same p.0
        | inr other ↦ rw other (h j (rw other at w))
      ])
      k v
