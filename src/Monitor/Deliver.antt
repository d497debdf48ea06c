-- ===== src/Monitor/Deliver.antt =====
-- What the reorder buffer delivers over a run from its reset.
use riscv_formal.Prelude.{
  ℕ, ◌+◌, ◌%◌, ◌^◌, ◌≡◌, refl, sym, ◌⊎◌, inl, inr, Bool, true, false, List, [], ◌∷◌, ◌++◌, Option,
  none, some, length,
}
use riscv_formal.Monitor.Rob.{Entry, Rob, rob_inputs, rob_step, rob_run, somes}
use riscv_formal.Monitor.Order.{
  Consecutive, advance, AllOf, rob_outputs-Consecutive, rob_outputs-AllOf, rob_outputs-valid,
  rob_inputs-AllOf,
}

abbrev pub AllZero : List ℕ → Type 0
AllZero [] = Unit
AllZero (c ∷ cs) = (c ≡ 0) × AllZero cs

-- The entry stands in the list.
abbrev pub Among : Entry → List Entry → Type 0
Among e [] = ⊥
Among e (x ∷ xs) = (e ≡ x) ⊎ Among e xs

-- All valid inputs of a run, in the order of cycles and channels.
abbrev pub arrived : List (List (Option Entry)) → List Entry
arrived [] = []
arrived (ins ∷ cycles) = somes ins ++ arrived cycles

pub AllOf-append :
    {A : Type 0} (P : A → Type 0) (xs ys : List A) → AllOf P xs → AllOf P ys → AllOf P (xs ++ ys)
AllOf-append P [] ys h k = k
AllOf-append P (x ∷ xs) ys h k = (h.0, AllOf-append P xs ys h.1 k)

AllOf-append_split :
    (P : Entry → Type 0) (xs ys : List Entry) → AllOf P (xs ++ ys) → AllOf P xs × AllOf P ys
AllOf-append_split P [] ys h = (tt, h)
AllOf-append_split P (x ∷ xs) ys h = let (l, r) = AllOf-append_split P xs ys h.1 in ((h.0, l), r)

Consecutive-append :
    (c : ℕ) (xs ys : List Entry)
    → Consecutive c xs
    → Consecutive (advance c xs) ys
    → Consecutive c (xs ++ ys)
Consecutive-append c [] ys h k = k
Consecutive-append c (x ∷ xs) ys h k = (h.0, Consecutive-append ((c + 1) % 2 ^ 64) xs ys h.1 k)

rob_inputs-cursor :
    (b : ℕ) (old : ℕ → Bool) (ins : List (Option Entry)) (s : Rob) (errcode : ℕ)
    → (rob_inputs b old ins (s, errcode)).0.cursor ≡ s.cursor
unfolding rob_inputs
rob_inputs-cursor b old [] s errcode = refl
rob_inputs-cursor b old (none ∷ ins) s errcode = rob_inputs-cursor b old ins s errcode
rob_inputs-cursor b old (some e ∷ ins) s errcode = rob_inputs-cursor b old ins _ _

-- Every valid slot of the buffer has the property.
abbrev Stored : (Entry → Type 0) → Rob → Type 0
Stored P s = (k : ℕ) → s.valid k ≡ true → P (s.buffer k)

rob_step-Stored :
    (P : Entry → Type 0) (b : ℕ) (ins : List (Option Entry)) (s : Rob)
    → AllOf P (somes ins)
    → Stored P s
    → Stored P (rob_step b false ins s).0 × AllOf P (somes (rob_step b false ins s).1)
unfolding rob_step
rob_step-Stored P b ins s p h = (
  λ k v. rob_inputs-AllOf P b s.valid ins s 0 p h k (
      rob_outputs-valid b s (length ins) (rob_inputs b s.valid ins (s, 0)).0.valid s.cursor
        (rob_inputs b s.valid ins (s, 0)).1 k v),
  rob_outputs-AllOf P b s (length ins) _ s.cursor _ h,
)

rob_run-Consecutive :
    (b : ℕ) (s : Rob) (cycles : List (List (Option Entry)))
    → AllZero (rob_run b s cycles).2
    → Consecutive s.cursor (rob_run b s cycles).1
unfolding rob_run rob_step
rob_run-Consecutive b s [] h = tt
rob_run-Consecutive b s (ins ∷ cycles) h =
    let t = (rob_inputs b s.valid ins (s, 0)) in
    let o = rob_outputs-Consecutive b s (length ins) t.0.valid s.cursor t.1 h.0 in
    Consecutive-append s.cursor (somes (rob_step b false ins s).1)
      (rob_run b (rob_step b false ins s).0 cycles).1 o.1
      (rw (sym o.2) (rob_run-Consecutive b (rob_step b false ins s).0 cycles h.1))

rob_run-AllOf :
    (P : Entry → Type 0) (b : ℕ) (s : Rob) (cycles : List (List (Option Entry)))
    → Stored P s
    → AllOf P (arrived cycles)
    → AllOf P (rob_run b s cycles).1
unfolding rob_run
rob_run-AllOf P b s [] h p = tt
rob_run-AllOf P b s (ins ∷ cycles) h p =
    let (now, later) = AllOf-append_split P (somes ins) (arrived cycles) p in
    let step = rob_step-Stored P b ins s now h in
    AllOf-append P (somes (rob_step b false ins s).1) _ step.1
      (rob_run-AllOf P b (rob_step b false ins s).0 cycles step.0 later)

pub Among-append_left : (e : Entry) (xs ys : List Entry) → Among e xs → Among e (xs ++ ys)
Among-append_left e [] ys h = absurd h
Among-append_left e (x ∷ xs) ys (inl p) = inl p
Among-append_left e (x ∷ xs) ys (inr p) = inr (Among-append_left e xs ys p)

AllOf-weaken :
    (P Q : Entry → Type 0) (xs : List Entry) → ((e : Entry) → P e → Q e) → AllOf P xs → AllOf Q xs
AllOf-weaken P Q [] f h = tt
AllOf-weaken P Q (x ∷ xs) f h = (f x h.0, AllOf-weaken P Q xs f h.1)

AllOf-Among : (xs : List Entry) → AllOf (λ e. Among e xs) xs
AllOf-Among [] = tt
AllOf-Among (x ∷ xs) = (
  inl refl,
  AllOf-weaken (λ e. Among e xs) (λ e. Among e (x ∷ xs)) xs (λ e. inr) (AllOf-Among xs),
)

-- The state that a reset edge leaves.
abbrev pub reset_state : ℕ → Rob → Rob
reset_state b s = (rob_step b true [] s).0

-- After a reset edge, whatever the state before it, and over any cycles in which the buffer reports
-- no error: the entries that come out have the orders 0, 1, 2 and so on (on 64 bits), and every one
-- of them is an entry that came in.
pub rob_run-in_order :
    (b : ℕ) (s : Rob) (cycles : List (List (Option Entry)))
    → AllZero (rob_run b (reset_state b s) cycles).2
    → let outs = (rob_run b (reset_state b s) cycles).1 in
      Consecutive 0 outs × AllOf (λ e. Among e (arrived cycles)) outs
unfolding rob_step
rob_run-in_order b s cycles h = (
  rob_run-Consecutive b (reset_state b s) cycles h,
  rob_run-AllOf (λ e. Among e (arrived cycles)) b (reset_state b s) cycles (λ k v. cc)
      (AllOf-Among (arrived cycles)),
)
