-- ===== src/Monitor/Predict.antt =====
-- What the shadow pc checks.
use riscv_formal.Prelude.{
  ℕ, ◌+◌, ◌≡◌, refl, ◌⊎◌, inl, inr, Bool, true, false, not, ◌&&◌, ◌==◌, List, [], ◌∷◌, ◌++◌, Option,
  none, some, if◌then◌else◌, map, arith,
}
use riscv_formal.Monitor.Base.{error_code, final_code}
use riscv_formal.Monitor.Reordered.{Reordered}
use riscv_formal.Monitor.Pc.{PcShadow, pc_shadow, pc_errors, pc_update, pc_channels, pc_step}

-- The prediction of the registers is not valid after a trap.
abbrev pub NoTrap : PcShadow → Type 0
NoTrap s = (s.valid && s.trap) ≡ false

pub pc_update-NoTrap : (r : Reordered) → NoTrap (pc_update r)
pc_update-NoTrap r = ground arith

pub pc_shadow-NoTrap :
    (own : Reordered) (s : PcShadow) (earlier : List (Option Reordered))
    → NoTrap s
    → NoTrap (pc_shadow own s earlier)
unfolding pc_shadow
pc_shadow-NoTrap own s [] h = h
pc_shadow-NoTrap own s (none ∷ earlier) h = pc_shadow-NoTrap own s earlier h
pc_shadow-NoTrap own s (some e ∷ earlier) h = pc_shadow-NoTrap own _ earlier (pc_update-NoTrap own)

-- The code of a channel is 0 or the code number 30.
abbrev pub OnlyMismatch : ℕ → List ℕ → Type 0
OnlyMismatch chidx [] = Unit
OnlyMismatch chidx (c ∷ cs) = ((c ≡ 0) ⊎ (c ≡ error_code chidx 30)) × OnlyMismatch (chidx + 1) cs

pub pc_errors-code :
    (chidx : ℕ) (s : PcShadow) (r : Reordered)
    → NoTrap s
    → final_code (pc_errors chidx s r)
      ≡ (if s.valid && not (s.pc == r.pc_rdata) && not r.intr then error_code chidx 30 else 0)
unfolding pc_errors final_code
pc_errors-code chidx s r h = ground arith

one_or_none : (t : Bool) (c : ℕ) → ((if t then c else 0) ≡ 0) ⊎ ((if t then c else 0) ≡ c)
one_or_none true c = inr refl
one_or_none false c = inl refl

pc_channels-codes :
    (chidx : ℕ) (s : PcShadow) (earlier : List (Option Reordered)) (next : PcShadow)
    (ros : List (Option Reordered))
    → NoTrap s
    → NoTrap next
    → NoTrap (pc_channels chidx s earlier next ros).0
      × OnlyMismatch chidx (pc_channels chidx s earlier next ros).1
unfolding pc_channels
pc_channels-codes chidx s earlier next [] h k = (k, tt)
pc_channels-codes chidx s earlier next (none ∷ ros) h k =
    let (after, codes) = pc_channels-codes (chidx + 1) s (earlier ++ (none ∷ [])) next ros h k in
    (after, (inl refl, codes))
pc_channels-codes chidx s earlier next (some r ∷ ros) h k =
    let (after, codes) =
      pc_channels-codes (chidx + 1) s (earlier ++ (some r ∷ [])) (pc_update r) ros h
        (pc_update-NoTrap r) in
    let code = pc_errors-code chidx (pc_shadow r s earlier) r (pc_shadow-NoTrap r s earlier h) in
    (after, (rw code (one_or_none _ _), codes))

-- When `shadow_pc_valid` and `shadow_pc_trap` are not both set, they are not after the edge, and
-- every code that the tests of the pc leave is 0 or number 30 of its channel. Number 33, "expected
-- intr after trap", is never reported.
pub pc_step-codes :
    (reset : Bool) (ros : List (Option Reordered)) (s : PcShadow)
    → NoTrap s
    → NoTrap (pc_step reset ros s).0 × OnlyMismatch 0 (pc_step reset ros s).1
unfolding pc_step
pc_step-codes true ros s h = (refl, zeros 0 ros)
  where
    zeros : (chidx : ℕ) (ros : List (Option Reordered)) → OnlyMismatch chidx (map (λ r. 0) ros)
    zeros chidx [] = tt
    zeros chidx (r ∷ ros) = (inl refl, zeros (chidx + 1) ros)
pc_step-codes false ros s h = pc_channels-codes 0 s [] s ros h h
