-- ===== src/Monitor/Chain.antt =====
-- What the shadow pc accepts, as a property of the instructions in the order of their retirement.
use riscv_formal.Prelude.{
  ℕ, ◌+◌, ◌<◌, ◌≤◌, ◌≡◌, ◌≢◌, refl, sym, ap, ◌∙◌, ◌↔◌, Bool, true, false, not, List, [], ◌∷◌, ◌++◌,
  Option, none, some, length, arith,
}
use riscv_formal.Monitor.Base.{final_code}
use riscv_formal.Monitor.Reordered.{Reordered}
use riscv_formal.Monitor.Rob.{somes}
use riscv_formal.Monitor.Order.{AllOf}
use riscv_formal.Monitor.Deliver.{AllZero, AllOf-append}
use riscv_formal.Monitor.Pc.{
  PcShadow, pc_shadow, pc_errors, pc_update, pc_channels, pc_step, pc_run,
}
use riscv_formal.Monitor.Predict.{NoTrap, pc_errors-code, pc_update-NoTrap}

-- b may come right after a: its pc is the one that a went to, unless a trapped or b is the first
-- instruction of a handler.
abbrev pub Follows : Reordered → Reordered → Type 0
Follows a b = a.trap ≡ false → b.intr ≡ false → a.pc_wdata ≡ b.pc_rdata

abbrev pub Chained : List Reordered → Type 0
Chained [] = Unit
Chained (a ∷ []) = Unit
Chained (a ∷ b ∷ rs) = Follows a b × Chained (b ∷ rs)

-- The same from a state of the registers on.
abbrev ChainedFrom : PcShadow → List Reordered → Type 0
ChainedFrom s [] = Unit
ChainedFrom s (r ∷ rs) =
    (s.valid ≡ true → r.intr ≡ false → s.pc ≡ r.pc_rdata) × ChainedFrom (pc_update r) rs

-- The registers after instructions one by one.
abbrev last_update : PcShadow → List Reordered → PcShadow
last_update s [] = s
last_update s (r ∷ rs) = last_update (pc_update r) rs

-- All instructions have the trap bit t.
abbrev pub AllTrap : Bool → List Reordered → Type 0
AllTrap t = AllOf (λ r. r.trap ≡ t)

pc_shadow-last_update :
    (own : Reordered) (s : PcShadow) (earlier : List (Option Reordered))
    → AllTrap own.trap (somes earlier)
    → pc_shadow own s earlier ≡ last_update s (somes earlier)
unfolding pc_shadow
pc_shadow-last_update own s [] h = refl
pc_shadow-last_update own s (none ∷ earlier) h = pc_shadow-last_update own s earlier h
pc_shadow-last_update own s (some e ∷ earlier) h =
    ap (λ t. pc_shadow own (record { valid = not t; trap = t; pc = e.pc_wdata }) earlier)
      (sym (h.0))
    ∙ pc_shadow-last_update own (pc_update e) earlier h.1

last_update-NoTrap : (s : PcShadow) (rs : List Reordered) → NoTrap s → NoTrap (last_update s rs)
last_update-NoTrap s [] h = h
last_update-NoTrap s (r ∷ rs) h = last_update-NoTrap (pc_update r) rs (pc_update-NoTrap r)

pub somes-none : {A : Type 0} (xs : List (Option A)) → somes (xs ++ (none ∷ [])) ≡ somes xs
somes-none [] = refl
somes-none (none ∷ xs) = somes-none xs
somes-none (some x ∷ xs) = ap (λ zs. x ∷ zs) (somes-none xs)

pub somes-some :
    {A : Type 0} (xs : List (Option A)) (y : A) → somes (xs ++ (some y ∷ [])) ≡ somes xs ++ (y ∷ [])
somes-some [] y = refl
somes-some (none ∷ xs) y = somes-some xs y
somes-some (some x ∷ xs) y = ap (λ zs. x ∷ zs) (somes-some xs y)

last_update-append :
    (s : PcShadow) (xs ys : List Reordered)
    → last_update s (xs ++ ys) ≡ last_update (last_update s xs) ys
last_update-append s [] ys = refl
last_update-append s (x ∷ xs) ys = last_update-append (pc_update x) xs ys

pc_errors-zero :
    (chidx : ℕ) (s : PcShadow) (r : Reordered)
    → chidx < 600
    → NoTrap s
    → (final_code (pc_errors chidx s r) ≡ 0) ↔ (s.valid ≡ true → r.intr ≡ false → s.pc ≡ r.pc_rdata)
pc_errors-zero chidx s r l h =
    rw (pc_errors-code chidx s r h) (λ z v i. ground arith, λ f. ground arith)

pc_channels-zero :
    (chidx : ℕ) (s : PcShadow) (earlier : List (Option Reordered)) (next : PcShadow)
    (ros : List (Option Reordered)) (t : Bool)
    → chidx + length ros ≤ 600
    → NoTrap s
    → AllTrap t (somes earlier)
    → AllTrap t (somes ros)
    → last_update s (somes earlier) ≡ next
    → ((pc_channels chidx s earlier next ros).0 ≡ last_update next (somes ros))
      × (AllZero (pc_channels chidx s earlier next ros).1 ↔ ChainedFrom next (somes ros))
unfolding pc_channels
pc_channels-zero chidx s earlier next [] t l h p q e = (refl, (λ e. tt, λ e. tt))
pc_channels-zero chidx s earlier next (none ∷ ros) t l h p q e =
    let (after, codes) =
      pc_channels-zero (chidx + 1) s (earlier ++ (none ∷ [])) next ros t (omega (arith, l)) h
        (rw (somes-none earlier) p) q (rw (somes-none earlier) e) in
    (after, (λ z. codes.0 (z.1), λ c. (refl, codes.1 c)))
pc_channels-zero chidx s earlier next (some r ∷ ros) t l h p q e =
    let (after, codes) =
      pc_channels-zero (chidx + 1) s (earlier ++ (some r ∷ [])) (pc_update r) ros t
        (omega (arith, l)) h
        (rw (somes-some earlier r)
          (AllOf-append (λ r. r.trap ≡ t) (somes earlier) (r ∷ []) p (q.0, tt)))
        q.1 (rw (somes-some earlier r) (last_update-append s (somes earlier) (r ∷ []))) in
    let shadow = pc_shadow-last_update r s earlier (rw (q.0) p) ∙ e in
    let own =
      pc_errors-zero chidx next r (omega (arith, l))
        (rw (sym e) (last_update-NoTrap s (somes earlier) h)) in
    rw shadow (after, (λ z. (own.0 (z.0), codes.0 (z.1)), λ c. (own.1 (c.0), codes.1 (c.1))))

-- In every cycle the instructions trap all or none, and there are at most 600 channels.
abbrev pub Uniform : List (List (Option Reordered)) → Type 0
Uniform [] = Unit
Uniform (ros ∷ cycles) = (length ros ≤ 600) × ((t : Bool) × AllTrap t (somes ros)) × Uniform cycles

-- All instructions of a run, in the order of cycles and channels.
abbrev pub retired : List (List (Option Reordered)) → List Reordered
retired [] = []
retired (ros ∷ cycles) = somes ros ++ retired cycles

ChainedFrom-append :
    (s : PcShadow) (xs ys : List Reordered)
    → ChainedFrom s (xs ++ ys) ↔ (ChainedFrom s xs × ChainedFrom (last_update s xs) ys)
ChainedFrom-append s [] ys = (λ c. (tt, c), λ c. c.1)
ChainedFrom-append s (x ∷ xs) ys =
    let ih = ChainedFrom-append (pc_update x) xs ys in
    (λ c. ((c.0, (ih.0 c.1).0), (ih.0 c.1).1), λ c. (c.0.0, ih.1 (c.0.1, c.1)))

pub AllZero-append : (xs ys : List ℕ) → AllZero (xs ++ ys) ↔ (AllZero xs × AllZero ys)
AllZero-append [] ys = (λ c. (tt, c), λ c. c.1)
AllZero-append (x ∷ xs) ys =
    let ih = AllZero-append xs ys in
    (λ c. ((c.0, (ih.0 c.1).0), (ih.0 c.1).1), λ c. (c.0.0, ih.1 (c.0.1, c.1)))

pc_run-ChainedFrom :
    (s : PcShadow) (cycles : List (List (Option Reordered)))
    → NoTrap s
    → Uniform cycles
    → AllZero (pc_run s cycles).1 ↔ ChainedFrom s (retired cycles)
unfolding pc_run pc_step
pc_run-ChainedFrom s [] h u = (λ e. tt, λ e. tt)
pc_run-ChainedFrom s (ros ∷ cycles) h (l, (t, uniform), u) =
    let (after, codes) = pc_channels-zero 0 s [] s ros t (omega (arith, l)) h tt uniform refl in
    let now = (pc_channels 0 s [] s ros) in
    let later = pc_run-ChainedFrom now.0 cycles (rw after (last_update-NoTrap s (somes ros) h)) u in
    let zeros = AllZero-append now.1 (pc_run now.0 cycles).1 in
    let chain = ChainedFrom-append s (somes ros) (retired cycles) in
    (
      λ z. chain.1 (codes.0 (zeros.0 z).0, rw (sym after) (later.0 (zeros.0 z).1)),
      λ c. zeros.1 (codes.1 (chain.0 c).0, later.1 (rw after (chain.0 c).1)),
    )

ChainedFrom-Chained :
    (a : Reordered) (rs : List Reordered) → ChainedFrom (pc_update a) rs ↔ Chained (a ∷ rs)
ChainedFrom-Chained a [] = (λ c. tt, λ c. tt)
ChainedFrom-Chained a (b ∷ rs) =
    let ih = ChainedFrom-Chained b rs in
    (λ c. (λ t i. c.0 (rw t refl) i, ih.0 c.1), λ c. (λ v i. c.0 (ground arith) i, ih.1 c.1))

-- Nothing is asked of the first instruction.
ChainedFrom-start :
    (s : PcShadow) (rs : List Reordered) → s.valid ≡ false → ChainedFrom s rs ↔ Chained rs
ChainedFrom-start s [] v = (λ c. tt, λ c. tt)
ChainedFrom-start s (r ∷ rs) v =
    let rest = ChainedFrom-Chained r rs in
    (λ c. rest.0 c.1, λ c. (λ w. absurd (true-false (sym w ∙ v)), rest.1 c))
  where
    true-false : true ≢ false
    true-false e = cc

-- After a reset edge, over any cycles with at most 600 channels in which the instructions of one
-- cycle trap all or none: the tests of the pc leave only zeros just when each instruction follows
-- the one before it in the order of retirement, which is that its pc_rdata is the pc_wdata of that
-- one unless that one trapped or it has intr set.
pub pc_run-Chained :
    (s : PcShadow) (cycles : List (List (Option Reordered)))
    → Uniform cycles
    → AllZero (pc_run (pc_step true [] s).0 cycles).1 ↔ Chained (retired cycles)
unfolding pc_step
pc_run-Chained s cycles u =
    let start = (pc_step true [] s).0 in
    let run = pc_run-ChainedFrom start cycles refl u in
    let chain = ChainedFrom-start start (retired cycles) refl in
    (λ z. chain.0 (run.0 z), λ c. run.1 (chain.1 c))
