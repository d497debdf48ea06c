-- ===== src/Monitor/Complete.antt =====
-- What the reorder buffer does with each entry that comes in.
use riscv_formal.Prelude.{
  ℕ, zero, suc, ◌+◌, ◌%◌, ◌^◌, ◌≡◌, refl, ◌∙◌, ◌⊎◌, inl, inr, Bool, true, false, ◌==◌, List, [],
  ◌∷◌, ◌++◌, Option, none, some, if◌then◌else◌, Bool-cases, ==_iff, length,
}
use riscv_formal.Monitor.Rob.{
  Entry, Rob, assigned, slot_of, rob_inputs, rob_outputs, rob_step, rob_run, somes,
}
use riscv_formal.Monitor.Order.{AllOf, rob_outputs-Consecutive}
use riscv_formal.Monitor.Deliver.{AllZero, Among, arrived}
use riscv_formal.Monitor.Keep.{
  Holds, slots_differ, rob_inputs-free, rob_run-Holds, Among-append_right,
}

-- The slots of the entries are different.
abbrev pub Apart : ℕ → List Entry → Type 0
Apart b [] = Unit
Apart b (e ∷ es) = AllOf (λ x. (slot_of b e.order == slot_of b x.order) ≡ false) es × Apart b es

-- A slot to which no input goes.
rob_inputs-elsewhere :
    (b : ℕ) (old : ℕ → Bool) (ins : List (Option Entry)) (s : Rob) (errcode k : ℕ)
    → AllOf (λ x. (k == slot_of b x.order) ≡ false) (somes ins)
    → ((rob_inputs b old ins (s, errcode)).0.valid k ≡ s.valid k)
      × ((rob_inputs b old ins (s, errcode)).0.buffer k ≡ s.buffer k)
unfolding rob_inputs
rob_inputs-elsewhere b old [] s errcode k h = (refl, refl)
rob_inputs-elsewhere b old (none ∷ ins) s errcode k h = rob_inputs-elsewhere b old ins s errcode k h
rob_inputs-elsewhere b old (some e ∷ ins) s errcode k h =
    let (valid, buffer) = rob_inputs-elsewhere b old ins _ _ k h.1 in
    (valid ∙ rw (h.0) refl, buffer ∙ rw (h.0) refl)

-- The slot of an input, when no other input of the cycle goes there.
rob_inputs-stores :
    (b : ℕ) (old : ℕ → Bool) (ins : List (Option Entry)) (s : Rob) (errcode : ℕ) (e : Entry)
    → Apart b (somes ins)
    → Among e (somes ins)
    → let t = (rob_inputs b old ins (s, errcode)).0 in
      let k = slot_of b e.order in (t.valid k ≡ true) × (t.buffer k ≡ e)
unfolding rob_inputs
rob_inputs-stores b old [] s errcode e p m = absurd m
rob_inputs-stores b old (none ∷ ins) s errcode e p m = rob_inputs-stores b old ins s errcode e p m
rob_inputs-stores b old (some x ∷ ins) s errcode e p (inr m) =
    rob_inputs-stores b old ins _ _ e p.1 m
rob_inputs-stores b old (some x ∷ ins) s errcode e p (inl same) =
    let (valid, buffer) = rob_inputs-elsewhere b old ins _ _ (slot_of b x.order) p.0 in
    let k = (==_iff (slot_of b x.order) (slot_of b x.order)).1 refl in
    rw same (valid ∙ rw k refl, buffer ∙ rw k refl)

-- An output block only clears slots that were valid before the edge.
rob_outputs-new :
    (b : ℕ) (s : Rob) (n : ℕ) (v : ℕ → Bool) (c errcode k : ℕ)
    → s.valid k ≡ false
    → v k ≡ true
    → (rob_outputs b s n v c errcode).valid k ≡ true
unfolding rob_outputs
rob_outputs-new b s zero v c errcode k w h = h
rob_outputs-new b s (suc n) v c errcode k w h = elim (Bool-cases (s.valid (slot_of b c))) [
  | inl stored ↦
      let ih =
        rob_outputs-new b s n (assigned (slot_of b c) false v) ((c + 1) % 2 ^ 64)
          (if (s.buffer (slot_of b c)).order == c then errcode else 61000 + c % 2 ^ 8) k w
          (rw (slots_differ s.valid false k (slot_of b c) w stored) h) in
      simp stored ih
  | inr empty ↦ simp empty h
]

AllOf-at : (P : Entry → Type 0) (es : List Entry) (e : Entry) → AllOf P es → Among e es → P e
AllOf-at P [] e h m = absurd m
AllOf-at P (x ∷ es) e h (inl same) = rw same (h.0)
AllOf-at P (x ∷ es) e h (inr m) = AllOf-at P es e h.1 m

-- In a cycle without an error, whose inputs go to different slots, each of them is stored.
rob_step-stores :
    (b : ℕ) (ins : List (Option Entry)) (s : Rob) (e : Entry)
    → (rob_step b false ins s).2 ≡ 0
    → Apart b (somes ins)
    → Among e (somes ins)
    → Holds (rob_step b false ins s).0 e
unfolding rob_step
rob_step-stores b ins s e h p m =
    let t = rob_inputs b s.valid ins (s, 0) in
    let k = slot_of b e.order in
    let code = (rob_outputs-Consecutive b s (length ins) t.0.valid s.cursor t.1 h).0 in
    let free =
      AllOf-at (λ x. s.valid (slot_of b x.order) ≡ false) (somes ins) e
        (rob_inputs-free b s.valid ins s 0 code) m in
    let (valid, buffer) = rob_inputs-stores b s.valid ins s 0 e p m in
    (k, rob_outputs-new b s (length ins) t.0.valid s.cursor t.1 k free valid, buffer)

-- In every cycle the inputs go to different slots.
abbrev pub ApartAlways : ℕ → List (List (Option Entry)) → Type 0
ApartAlways b [] = Unit
ApartAlways b (ins ∷ cycles) = Apart b (somes ins) × ApartAlways b cycles

Among-append_cases : (e : Entry) (xs ys : List Entry) → Among e (xs ++ ys) → Among e xs ⊎ Among e ys
Among-append_cases e [] ys m = inr m
Among-append_cases e (x ∷ xs) ys (inl same) = inl (inl same)
Among-append_cases e (x ∷ xs) ys (inr m) = elim (Among-append_cases e xs ys m) [
  | inl l ↦ inl (inr l)
  | inr r ↦ inr r
]

-- Over any cycles in which the buffer reports no error, with inputs that go to different slots in
-- each cycle: every entry that came in has come out or is in a valid slot of the buffer.
pub rob_run_complete :
    (b : ℕ) (s : Rob) (cycles : List (List (Option Entry))) (e : Entry)
    → AllZero (rob_run b s cycles).2
    → ApartAlways b cycles
    → Among e (arrived cycles)
    → Among e (rob_run b s cycles).1 ⊎ Holds (rob_run b s cycles).0 e
unfolding rob_run
rob_run_complete b s [] e h p m = absurd m
rob_run_complete b s (ins ∷ cycles) e h p m =
    let (t, outs, code) = rob_step b false ins s in
    elim (Among-append_cases e (somes ins) (arrived cycles) m) [
      | inl now ↦ elim (rob_run-Holds b t cycles e h.1 (rob_step-stores b ins s e h.0 p.0 now)) [
        | inl held ↦ inr held
        | inr out ↦ inl (Among-append_right e (somes outs) (rob_run b t cycles).1 out)
      ]
      | inr later ↦ elim (rob_run_complete b t cycles e h.1 p.1 later) [
        | inl out ↦ inl (Among-append_right e (somes outs) (rob_run b t cycles).1 out)
        | inr held ↦ inr held
      ]
    ]
