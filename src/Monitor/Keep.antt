-- ===== src/Monitor/Keep.antt =====
-- What the reorder buffer keeps: where an entry is after an edge, and after a run.
use riscv_formal.Prelude.{
  ℕ, zero, suc, ◌+◌, ◌%◌, ◌^◌, ◌≡◌, ◌≢◌, refl, sym, ap, ◌∙◌, ◌⊎◌, inl, inr, Bool, true, false, not,
  ◌==◌, List, [], ◌∷◌, ◌++◌, Option, none, some, if◌then◌else◌, arith, Bool-cases, ==_iff, length,
}
use riscv_formal.Monitor.Rob.{
  Entry, Rob, assigned, slot_of, rob_inputs, rob_outputs, rob_step, rob_run, somes,
}
use riscv_formal.Monitor.Order.{AllOf, rob_outputs-Consecutive}
use riscv_formal.Monitor.Deliver.{AllZero, Among, Among-append_left}

not-differs : (x : Bool) → x ≢ not x
not-differs true h = cc
not-differs false h = cc

pub slots_differ :
    (old : ℕ → Bool) (x : Bool) (j k : ℕ) → old j ≡ x → old k ≡ not x → (j == k) ≡ false
slots_differ old x j k v w = elim (Bool-cases (j == k)) [
  | inl same ↦ absurd (not-differs x (sym v ∙ ap old ((==_iff j k).0 same) ∙ w))
  | inr other ↦ other
]

-- Without an error no input goes to a slot that was valid before the edge.
pub rob_inputs-old :
    (b : ℕ) (old : ℕ → Bool) (ins : List (Option Entry)) (s : Rob) (errcode : ℕ)
    → (rob_inputs b old ins (s, errcode)).1 ≡ 0
    → (errcode ≡ 0)
      × ((k : ℕ)
          → old k ≡ true
          → ((rob_inputs b old ins (s, errcode)).0.valid k ≡ s.valid k)
            × ((rob_inputs b old ins (s, errcode)).0.buffer k ≡ s.buffer k))
unfolding rob_inputs
rob_inputs-old b old [] s errcode h = (h, λ k v. (refl, refl))
rob_inputs-old b old (none ∷ ins) s errcode h = rob_inputs-old b old ins s errcode h
rob_inputs-old b old (some e ∷ ins) s errcode h =
    let ih = rob_inputs-old b old ins _ _ h in
    let free : (old (slot_of b e.order) ≡ false) × (errcode ≡ 0) = ground arith in
    (
      free.1,
      λ k v.
          let other = slots_differ old true k (slot_of b e.order) v free.0 in
          let (valid, buffer) = ih.1 k v in (valid ∙ rw other refl, buffer ∙ rw other refl),
    )

-- Without an error every input goes to a slot that was free.
pub rob_inputs-free :
    (b : ℕ) (old : ℕ → Bool) (ins : List (Option Entry)) (s : Rob) (errcode : ℕ)
    → (rob_inputs b old ins (s, errcode)).1 ≡ 0
    → AllOf (λ e. old (slot_of b e.order) ≡ false) (somes ins)
unfolding rob_inputs
rob_inputs-free b old [] s errcode h = tt
rob_inputs-free b old (none ∷ ins) s errcode h = rob_inputs-free b old ins s errcode h
rob_inputs-free b old (some e ∷ ins) s errcode h =
    let code = (rob_inputs-old b old ins _ _ h).0 in (ground arith, rob_inputs-free b old ins _ _ h)

-- A stored entry stays in its slot or comes out.
rob_outputs-keeps :
    (b : ℕ) (s : Rob) (n : ℕ) (v : ℕ → Bool) (c errcode k : ℕ)
    → v k ≡ true
    → ((rob_outputs b s n v c errcode).valid k ≡ true)
      ⊎ Among (s.buffer k) (somes (rob_outputs b s n v c errcode).outs)
unfolding rob_outputs
rob_outputs-keeps b s zero v c errcode k h = inl h
rob_outputs-keeps b s (suc n) v c errcode k h = elim (Bool-cases (s.valid (slot_of b c))) [
  | inl stored ↦ elim (Bool-cases (k == slot_of b c)) [
    | inl same ↦ simp stored (inr (inl (ap s.buffer ((==_iff k (slot_of b c)).0 same))))
    | inr other ↦
        let ih =
          rob_outputs-keeps b s n (assigned (slot_of b c) false v) ((c + 1) % 2 ^ 64)
            (if (s.buffer (slot_of b c)).order == c then errcode else 61000 + c % 2 ^ 8) k
            (rw other h) in
        elim ih [ inl kept ↦ simp stored (inl kept) | inr out ↦ simp stored (inr (inr out)) ]
  ]
  | inr empty ↦ simp empty (inl h)
]

-- Where an entry is: in a valid slot of the buffer.
abbrev pub Holds : Rob → Entry → Type 0
Holds s e = (k : ℕ) × (s.valid k ≡ true) × (s.buffer k ≡ e)

-- In a cycle without an error every stored entry stays or comes out.
rob_step-Holds :
    (b : ℕ) (ins : List (Option Entry)) (s : Rob) (e : Entry)
    → (rob_step b false ins s).2 ≡ 0
    → Holds s e
    → Holds (rob_step b false ins s).0 e ⊎ Among e (somes (rob_step b false ins s).1)
unfolding rob_step
rob_step-Holds b ins s e h (k, v, same) =
    let t = rob_inputs b s.valid ins (s, 0) in
    let inputs =
      rob_inputs-old b s.valid ins s 0
        (rob_outputs-Consecutive b s (length ins) t.0.valid s.cursor t.1 h).0 in
    let (valid, buffer) = inputs.1 k v in
    elim (rob_outputs-keeps b s (length ins) t.0.valid s.cursor t.1 k (valid ∙ v)) [
      | inl kept ↦ inl (k, kept, buffer ∙ same)
      | inr out ↦ inr (rw (sym same) out)
    ]

pub Among-append_right : (e : Entry) (xs ys : List Entry) → Among e ys → Among e (xs ++ ys)
Among-append_right e [] ys h = h
Among-append_right e (x ∷ xs) ys h = inr (Among-append_right e xs ys h)

pub rob_run-Holds :
    (b : ℕ) (s : Rob) (cycles : List (List (Option Entry))) (e : Entry)
    → AllZero (rob_run b s cycles).2
    → Holds s e
    → Holds (rob_run b s cycles).0 e ⊎ Among e (rob_run b s cycles).1
unfolding rob_run
rob_run-Holds b s [] e h held = inl held
rob_run-Holds b s (ins ∷ cycles) e h held =
    let (t, outs, code) = rob_step b false ins s in
    elim (rob_step-Holds b ins s e h.0 held) [
      | inl kept ↦ elim (rob_run-Holds b t cycles e h.1 kept) [
        | inl held ↦ inl held
        | inr out ↦ inr (Among-append_right e (somes outs) (rob_run b t cycles).1 out)
      ]
      | inr out ↦ inr (Among-append_left e (somes outs) (rob_run b t cycles).1 out)
    ]
