-- ===== src/Monitor/Regs.antt =====
-- monitor/generate.py, the registers `shadow_xregs*`: what they predict for the sources of each
-- reordered channel, and the reports of the tasks `ro<n>_handle_error_r`. `none` is a channel with
-- `ro<n>_rvfi_valid` low.
use riscv_formal.Prelude.{
  ℕ, ◌+◌, Bool, true, false, not, ◌&&◌, ◌==◌, List, [], ◌∷◌, ◌++◌, Option, none, some,
  if◌then◌else◌, map,
}
use riscv_formal.Monitor.Base.{error_code, report, final_code}
use riscv_formal.Monitor.Rob.{assigned}
use riscv_formal.Monitor.Reordered.{Reordered}

-- `shadow_xregs_valid` and `shadow_xregs`.
pub record RegShadow : Type 0 where
  pub valid : ℕ → Bool
  pub xregs : ℕ → ℕ

-- `shadow<n>_rs1_valid` and `shadow<n>_rs1_rdata`, or rs2, of a valid channel: what the registers
-- have for the address, replaced by what channels before it write there.
unfoldable pub reg_shadow : ℕ → Bool × ℕ → List (Option Reordered) → Bool × ℕ
reg_shadow addr found [] = found
reg_shadow addr found (none ∷ earlier) = reg_shadow addr found earlier
reg_shadow addr found (some e ∷ earlier) =
    reg_shadow addr (if e.rd_addr == addr then (true, e.rd_wdata) else found) earlier

-- The reports of a valid channel.
unfoldable pub reg_errors : ℕ → Bool × ℕ → Bool × ℕ → Reordered → List ℕ
reg_errors chidx (valid1, rdata1) (valid2, rdata2) r =
    report (valid1 && not (rdata1 == r.rs1_rdata)) (error_code chidx 31)
    ++ report (valid2 && not (rdata2 == r.rs2_rdata)) (error_code chidx 32)

-- What a valid channel assigns to the registers.
abbrev pub reg_update : Reordered → RegShadow → RegShadow
reg_update r s = record {
  valid = assigned r.rd_addr true s.valid;
  xregs = assigned r.rd_addr r.rd_wdata s.xregs;
}

-- `ro<n>_errcode_r` of a valid channel.
unfoldable pub reg_code : ℕ → RegShadow → List (Option Reordered) → Reordered → ℕ
reg_code chidx s earlier r = final_code (
    reg_errors chidx (reg_shadow r.rs1_addr (s.valid r.rs1_addr, s.xregs r.rs1_addr) earlier)
      (reg_shadow r.rs2_addr (s.valid r.rs2_addr, s.xregs r.rs2_addr) earlier) r)

-- The blocks of the channels from chidx on. `s` is what the registers were before the edge, `next`
-- what is assigned so far; the result is the registers and `ro<n>_errcode_r` after the edge.
unfoldable pub reg_channels :
    ℕ
    → RegShadow
    → List (Option Reordered)
    → RegShadow
    → List (Option Reordered)
    → RegShadow × List ℕ
reg_channels chidx s earlier next [] = (next, [])
reg_channels chidx s earlier next (none ∷ ros) =
    let (after, codes) = reg_channels (chidx + 1) s (earlier ++ (none ∷ [])) next ros in
    (after, 0 ∷ codes)
reg_channels chidx s earlier next (some r ∷ ros) =
    let (after, codes) =
      reg_channels (chidx + 1) s (earlier ++ (some r ∷ [])) (reg_update r next) ros in
    (after, reg_code chidx s earlier r ∷ codes)

-- One edge.
unfoldable pub reg_step : Bool → List (Option Reordered) → RegShadow → RegShadow × List ℕ
reg_step true ros s =
    (record { valid = λ k. k == 0; xregs = assigned 0 0 s.xregs }, map (λ r. 0) ros)
reg_step false ros s = reg_channels 0 s [] s ros

-- Edges one after another, without a reset.
unfoldable pub reg_run : RegShadow → List (List (Option Reordered)) → RegShadow × List ℕ
reg_run s [] = (s, [])
reg_run s (ros ∷ cycles) =
    let (t, codes) = reg_step false ros s in
    let (u, later) = reg_run t cycles in (u, codes ++ later)
