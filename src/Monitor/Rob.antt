-- ===== src/Monitor/Rob.antt =====
-- monitor/generate.py, the module <prefix>_rob: the reorder buffer. At an edge every test reads the
-- registers `valid` and `buffer` as they were before it, and of two assignments `<=` to one slot
-- the later one stays; `cursor` and `continue_flag` are assigned at once. `orderbits`, which the script
-- computes by the module math, is an argument.
use riscv_formal.Prelude.{
  ℕ, zero, suc, ◌+◌, ◌%◌, ◌^◌, Bool, true, false, ◌==◌, List, [], ◌∷◌, ◌++◌, Option, none, some,
  if◌then◌else◌, length,
}

-- `i<n>_order` and `i<n>_data`, or what a slot of `buffer` holds.
pub record Entry : Type 0 where
  pub order : ℕ
  pub payload : ℕ

pub record Rob : Type 0 where
  pub buffer : ℕ → Entry
  pub valid : ℕ → Bool
  pub cursor : ℕ

-- An array with one slot assigned.
abbrev pub assigned {ℓ} : {A : Type ℓ} → ℕ → A → (ℕ → A) → ℕ → A
assigned k v f j = if j == k then v else f j

-- `x[orderbits-1:0]`
abbrev pub slot_of : ℕ → ℕ → ℕ
slot_of orderbits x = x % 2 ^ orderbits

-- The blocks `if (i<n>_valid)`, one for each channel; `old` is `valid` before the edge, `s` what is
-- assigned so far. `none` is a channel with `i<n>_valid` low.
unfoldable pub rob_inputs : ℕ → (ℕ → Bool) → List (Option Entry) → Rob × ℕ → Rob × ℕ
rob_inputs orderbits old [] (s, errcode) = (s, errcode)
rob_inputs orderbits old (none ∷ ins) (s, errcode) = rob_inputs orderbits old ins (s, errcode)
rob_inputs orderbits old (some e ∷ ins) (s, errcode) =
    let k = slot_of orderbits e.order in
    rob_inputs orderbits old ins (
      record s { buffer = assigned k e s.buffer; valid = assigned k true s.valid },
      if old k then 60000 + e.order % 2 ^ 8 else errcode,
    )

-- What the output blocks have assigned so far.
pub record Outputs : Type 0 where
  pub outs : List (Option Entry)
  pub valid : ℕ → Bool
  pub cursor : ℕ
  pub errcode : ℕ

-- The output blocks of n channels with `continue_flag` low: no output.
abbrev pub stopped : ℕ → List (Option Entry)
stopped zero = []
stopped (suc n) = none ∷ stopped n

-- The output blocks of n channels with `continue_flag` high; `old` is the state before the edge.
unfoldable pub rob_outputs : ℕ → Rob → ℕ → (ℕ → Bool) → ℕ → ℕ → Outputs
rob_outputs orderbits old zero valid cursor errcode = record {
  outs = [];
  valid = valid;
  cursor = cursor;
  errcode = errcode;
}
rob_outputs orderbits old (suc n) valid cursor errcode =
    let k = slot_of orderbits cursor in
    let e = old.buffer k in
    let rest =
      rob_outputs orderbits old n (assigned k false valid) ((cursor + 1) % 2 ^ 64)
        (if e.order == cursor then errcode else 61000 + cursor % 2 ^ 8) in
    if old.valid k
    then record rest { outs = some e ∷ rest.outs }
    else record { outs = none ∷ stopped n; valid = valid; cursor = cursor; errcode = errcode }

-- One edge: the state, the outputs and `errcode` after it.
unfoldable pub rob_step : ℕ → Bool → List (Option Entry) → Rob → Rob × List (Option Entry) × ℕ
rob_step orderbits true ins s =
    (record s { valid = λ k. false; cursor = 0 }, stopped (length ins), 0)
rob_step orderbits false ins s =
    let (t, errcode) = rob_inputs orderbits s.valid ins (s, 0) in
    let o = rob_outputs orderbits s (length ins) t.valid s.cursor errcode in
    (record { buffer = t.buffer; valid = o.valid; cursor = o.cursor }, o.outs, o.errcode)

-- With a depth of 0 the outputs are the inputs and there is no error.
unfoldable pub rob_bypass : List (Option Entry) → List (Option Entry) × ℕ
rob_bypass ins = (ins, 0)

-- The entries that come out of a step, channel 0 first.
abbrev pub somes {ℓ} : {A : Type ℓ} → List (Option A) → List A
somes [] = []
somes (none ∷ xs) = somes xs
somes (some x ∷ xs) = x ∷ somes xs

-- Edges one after another, without a reset: the state after them, the valid outputs from the first
-- on, and the error codes.
unfoldable pub rob_run : ℕ → Rob → List (List (Option Entry)) → Rob × List Entry × List ℕ
rob_run orderbits s [] = (s, [], [])
rob_run orderbits s (ins ∷ cycles) =
    let (t, outs, errcode) = rob_step orderbits false ins s in
    let (u, later, errcodes) = rob_run orderbits t cycles in
    (u, somes outs ++ later, errcode ∷ errcodes)
