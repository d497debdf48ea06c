-- ===== src/Monitor/Consistent.antt =====
-- What the shadow registers accept, as a property of the instructions in the order of their
-- retirement.
use riscv_formal.Prelude.{
  ℕ, ◌+◌, ◌<◌, ◌≤◌, ◌≡◌, refl, sym, ap, ◌∙◌, ◌↔◌, inl, inr, Bool, true, false, not, ◌&&◌, ◌==◌,
  List, [], ◌∷◌, ◌++◌, Option, none, some, if◌then◌else◌, length, arith, Bool-cases,
}
use riscv_formal.Monitor.Base.{error_code, report, final_code}
use riscv_formal.Monitor.Reordered.{Reordered}
use riscv_formal.Monitor.Rob.{somes}
use riscv_formal.Monitor.Deliver.{AllZero}
use riscv_formal.Monitor.Chain.{somes-none, somes-some, AllZero-append, retired}
use riscv_formal.Monitor.Regs.{
  RegShadow, reg_shadow, reg_errors, reg_update, reg_code, reg_channels, reg_step, reg_run,
}

-- What the last of the instructions that wrote a register wrote there; `past` has the latest first.
-- Before any write x0 is 0.
abbrev pub last_write : ℕ → List Reordered → Option ℕ
last_write addr [] = if addr == 0 then some 0 else none
last_write addr (r ∷ past) = if addr == r.rd_addr then some r.rd_wdata else last_write addr past

-- A value that was read, against the one that was written, if any.
abbrev pub Reads : Option ℕ → ℕ → Type 0
Reads none rdata = Unit
Reads (some written) rdata = written ≡ rdata

-- Every source of every instruction was read as it was written last.
abbrev pub Consistent : List Reordered → List Reordered → Type 0
Consistent past [] = Unit
Consistent past (r ∷ rs) =
    (Reads (last_write r.rs1_addr past) r.rs1_rdata
      × Reads (last_write r.rs2_addr past) r.rs2_rdata)
    × Consistent (r ∷ past) rs

-- What the registers hold for an address.
abbrev view : RegShadow → ℕ → Option ℕ
view s addr = if s.valid addr then some (s.xregs addr) else none

-- The registers hold the last writes.
abbrev Follows : RegShadow → List Reordered → Type 0
Follows s past = (addr : ℕ) → view s addr ≡ last_write addr past

-- The registers after instructions one by one, and what is past then.
abbrev updates : RegShadow → List Reordered → RegShadow
updates s [] = s
updates s (r ∷ rs) = updates (reg_update r s) rs

abbrev passed : List Reordered → List Reordered → List Reordered
passed past [] = past
passed past (r ∷ rs) = passed (r ∷ past) rs

reg_update-Follows :
    (s : RegShadow) (past : List Reordered) (r : Reordered)
    → Follows s past
    → Follows (reg_update r s) (r ∷ past)
reg_update-Follows s past r h addr = elim (Bool-cases (addr == r.rd_addr)) [
  | inl here ↦ simp here refl
  | inr other ↦ simp other (h addr)
]

updates-Follows :
    (s : RegShadow) (past rs : List Reordered)
    → Follows s past
    → Follows (updates s rs) (passed past rs)
updates-Follows s past [] h = h
updates-Follows s past (r ∷ rs) h =
    updates-Follows (reg_update r s) (r ∷ past) rs (reg_update-Follows s past r h)

updates-append :
    (s : RegShadow) (xs ys : List Reordered) → updates s (xs ++ ys) ≡ updates (updates s xs) ys
updates-append s [] ys = refl
updates-append s (x ∷ xs) ys = updates-append (reg_update x s) xs ys

==_sym : (a b : ℕ) → (a == b) ≡ (b == a)
==_sym a b = ground arith

found_by :
    (x y : ℕ) (v t u : Bool)
    → t ≡ u
    → ◌≡◌ {A = Bool × ℕ}
        (if t then (true, x) else (v, y))
        (if u then true else v, if u then x else y)
found_by x y v true u e = rw (sym e) refl
found_by x y v false u e = rw (sym e) refl

-- What comes from the channels before is what the registers are after them.
reg_shadow-updates :
    (addr : ℕ) (s : RegShadow) (earlier : List (Option Reordered))
    → let t = updates s (somes earlier) in
      reg_shadow addr (s.valid addr, s.xregs addr) earlier ≡ (t.valid addr, t.xregs addr)
unfolding reg_shadow
reg_shadow-updates addr s [] = refl
reg_shadow-updates addr s (none ∷ earlier) = reg_shadow-updates addr s earlier
reg_shadow-updates addr s (some e ∷ earlier) =
    ap (λ found. reg_shadow addr found earlier)
      (found_by e.rd_wdata (s.xregs addr) (s.valid addr) (e.rd_addr == addr) (addr == e.rd_addr)
        (==_sym e.rd_addr addr))
    ∙ reg_shadow-updates addr (reg_update e s) earlier

read-zero :
    (v : Bool) (x d : ℕ) → ((v && not (x == d)) ≡ false) ↔ Reads (if v then some x else none) d
read-zero true x d = ground arith
read-zero false x d = (λ e. tt, λ e. refl)

two_reports :
    (t u : Bool) (c d : ℕ)
    → 0 < c
    → 0 < d
    → (final_code (report t c ++ report u d) ≡ 0) ↔ ((t ≡ false) × (u ≡ false))
unfolding final_code
two_reports true true c d h k = ground arith
two_reports true false c d h k = ground arith
two_reports false true c d h k = ground arith
two_reports false false c d h k = (λ e. (refl, refl), λ e. refl)

reg_errors-zero :
    (chidx : ℕ) (s : RegShadow) (r : Reordered)
    → chidx < 600
    → (final_code (
          reg_errors chidx
            (s.valid r.rs1_addr, s.xregs r.rs1_addr)
            (s.valid r.rs2_addr, s.xregs r.rs2_addr)
            r)
        ≡ 0)
      ↔ (Reads (view s r.rs1_addr) r.rs1_rdata × Reads (view s r.rs2_addr) r.rs2_rdata)
unfolding reg_errors final_code
reg_errors-zero chidx s r l =
    let codes =
      two_reports (s.valid r.rs1_addr && not (s.xregs r.rs1_addr == r.rs1_rdata))
        (s.valid r.rs2_addr && not (s.xregs r.rs2_addr == r.rs2_rdata)) (error_code chidx 31)
        (error_code chidx 32) (omega (arith, l)) (omega (arith, l)) in
    let one = read-zero (s.valid r.rs1_addr) (s.xregs r.rs1_addr) r.rs1_rdata in
    let two = read-zero (s.valid r.rs2_addr) (s.xregs r.rs2_addr) r.rs2_rdata in
    (λ z. (one.0 (codes.0 z).0, two.0 (codes.0 z).1), λ p. codes.1 (one.1 (p.0), two.1 (p.1)))

reg_channels-zero :
    (chidx : ℕ) (s : RegShadow) (earlier : List (Option Reordered)) (next : RegShadow)
    (ros : List (Option Reordered)) (past : List Reordered)
    → chidx + length ros ≤ 600
    → updates s (somes earlier) ≡ next
    → Follows next past
    → ((reg_channels chidx s earlier next ros).0 ≡ updates next (somes ros))
      × (AllZero (reg_channels chidx s earlier next ros).1 ↔ Consistent past (somes ros))
unfolding reg_channels reg_code
reg_channels-zero chidx s earlier next [] past l e f = (refl, (λ e. tt, λ e. tt))
reg_channels-zero chidx s earlier next (none ∷ ros) past l e f =
    let (after, codes) =
      reg_channels-zero (chidx + 1) s (earlier ++ (none ∷ [])) next ros past (omega (arith, l))
        (rw (somes-none earlier) e) f in
    (after, (λ z. codes.0 (z.1), λ c. (refl, codes.1 c)))
reg_channels-zero chidx s earlier next (some r ∷ ros) past l e f =
    let (after, codes) =
      reg_channels-zero (chidx + 1) s (earlier ++ (some r ∷ [])) (reg_update r next) ros (r ∷ past)
        (omega (arith, l))
        (rw (somes-some earlier r)
          (updates-append s (somes earlier) (r ∷ []) ∙ ap (reg_update r) e))
        (reg_update-Follows next past r f) in
    let own = reg_errors-zero chidx next r (omega (arith, l)) in
    let read =
      λ (addr : ℕ). reg_shadow-updates addr s earlier ∙ ap (λ t. (t.valid addr, t.xregs addr)) e in
    rw (read r.rs1_addr, read r.rs2_addr, ← f r.rs1_addr, ← f r.rs2_addr)
      (after, (λ z. (own.0 (z.0), codes.0 (z.1)), λ c. (own.1 (c.0), codes.1 (c.1))))

Consistent-append :
    (past xs ys : List Reordered)
    → Consistent past (xs ++ ys) ↔ (Consistent past xs × Consistent (passed past xs) ys)
Consistent-append past [] ys = (λ c. (tt, c), λ c. c.1)
Consistent-append past (x ∷ xs) ys =
    let ih = Consistent-append (x ∷ past) xs ys in
    (λ c. ((c.0, (ih.0 c.1).0), (ih.0 c.1).1), λ c. (c.0.0, ih.1 (c.0.1, c.1)))

-- There are at most 600 channels.
abbrev pub FewChannels : List (List (Option Reordered)) → Type 0
FewChannels [] = Unit
FewChannels (ros ∷ cycles) = (length ros ≤ 600) × FewChannels cycles

reg_run-Follows :
    (s : RegShadow) (past : List Reordered) (cycles : List (List (Option Reordered)))
    → Follows s past
    → FewChannels cycles
    → AllZero (reg_run s cycles).1 ↔ Consistent past (retired cycles)
unfolding reg_run reg_step
reg_run-Follows s past [] h few = (λ e. tt, λ e. tt)
reg_run-Follows s past (ros ∷ cycles) h (l, few) =
    let (after, codes) = reg_channels-zero 0 s [] s ros past (omega (arith, l)) refl h in
    let now = (reg_channels 0 s [] s ros) in
    let later =
      reg_run-Follows now.0 (passed past (somes ros)) cycles
        (rw after (updates-Follows s past (somes ros) h)) few in
    let zeros = AllZero-append now.1 (reg_run now.0 cycles).1 in
    let rest = Consistent-append past (somes ros) (retired cycles) in
    (
      λ z. rest.1 (codes.0 (zeros.0 z).0, later.0 (zeros.0 z).1),
      λ c. zeros.1 (codes.1 (rest.0 c).0, later.1 (rest.0 c).1),
    )

-- After a reset edge, whatever the registers were, over any cycles with at most 600 channels: the
-- tests of the registers leave only zeros just when every instruction, in the order of retirement,
-- has in rs1_rdata and rs2_rdata what the last instruction before it with this rd_addr has in
-- rd_wdata; before any such instruction x0 must read as 0 and the others may read as anything.
pub reg_run-Consistent :
    (s : RegShadow) (cycles : List (List (Option Reordered)))
    → FewChannels cycles
    → AllZero (reg_run (reg_step true [] s).0 cycles).1 ↔ Consistent [] (retired cycles)
unfolding reg_step
reg_run-Consistent s cycles few =
    reg_run-Follows (reg_step true [] s).0 [] cycles (λ addr. start addr) few
  where
    start : (addr : ℕ) → view (reg_step true [] s).0 addr ≡ last_write addr []
    start addr = elim (Bool-cases (addr == 0)) [
      | inl here ↦ simp here refl
      | inr other ↦ simp other refl
    ]
