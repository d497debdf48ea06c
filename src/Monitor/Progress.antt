-- ===== src/Monitor/Progress.antt =====
-- That the reorder buffer delivers what it can.
use riscv_formal.Prelude.{
  ℕ, zero, suc, ◌+◌, ◌%◌, ◌^◌, ◌≤◌, ◌≡◌, refl, ap, Bool, true, false, ◌==◌, List, [], ◌∷◌, Option,
  some, if◌then◌else◌, arith, length, map,
}
use riscv_formal.Monitor.Rob.{Entry, Rob, assigned, slot_of, rob_inputs, rob_outputs, rob_step}

-- The m slots from order c on are valid.
abbrev pub Ready : ℕ → Rob → ℕ → ℕ → Type 0
Ready b s c zero = Unit
Ready b s c (suc m) = (s.valid (slot_of b c) ≡ true) × Ready b s ((c + 1) % 2 ^ 64) m

-- What they hold.
abbrev pub held : ℕ → Rob → ℕ → ℕ → List Entry
held b s c zero = []
held b s c (suc m) = s.buffer (slot_of b c) ∷ held b s ((c + 1) % 2 ^ 64) m

-- The first m outputs.
abbrev pub take {ℓ} : {A : Type ℓ} → ℕ → List A → List A
take zero xs = []
take (suc m) [] = []
take (suc m) (x ∷ xs) = x ∷ take m xs

rob_outputs-Ready :
    (b : ℕ) (s : Rob) (n : ℕ) (v : ℕ → Bool) (c errcode m : ℕ)
    → m ≤ n
    → Ready b s c m
    → take m (rob_outputs b s n v c errcode).outs ≡ map some (held b s c m)
unfolding rob_outputs
rob_outputs-Ready b s n v c errcode zero l r = refl
rob_outputs-Ready b s zero v c errcode (suc m) l r = absurd (omega (arith, l))
rob_outputs-Ready b s (suc n) v c errcode (suc m) l r =
    let ih =
      rob_outputs-Ready b s n (assigned (slot_of b c) false v) ((c + 1) % 2 ^ 64)
        (if (s.buffer (slot_of b c)).order == c then errcode else 61000 + c % 2 ^ 8) m
        (omega (arith, l)) r.1 in
    simp (r.0) (ap (λ outs. some (s.buffer (slot_of b c)) ∷ outs) ih)

-- When the slots of the m orders from the cursor on are valid before an edge that is no reset, and
-- there are at least m channels, the first m channels deliver what those slots hold, in this order.
-- It holds with errors too.
pub rob_step-delivers :
    (b : ℕ) (ins : List (Option Entry)) (s : Rob) (m : ℕ)
    → m ≤ length ins
    → Ready b s s.cursor m
    → take m (rob_step b false ins s).1 ≡ map some (held b s s.cursor m)
unfolding rob_step
rob_step-delivers b ins s m l r =
    let t = rob_inputs b s.valid ins (s, 0) in
    rob_outputs-Ready b s (length ins) t.0.valid s.cursor t.1 m l r
