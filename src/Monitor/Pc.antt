-- ===== src/Monitor/Pc.antt =====
-- monitor/generate.py, the registers `shadow_pc*`: what they predict for the pc of each reordered
-- channel, and the reports of the tasks `ro<n>_handle_error_p`. `none` is a channel with
-- `ro<n>_rvfi_valid` low.
use riscv_formal.Prelude.{
  ℕ, ◌+◌, Bool, true, false, not, ◌&&◌, ◌==◌, List, [], ◌∷◌, ◌++◌, Option, none, some, map,
}
use riscv_formal.Monitor.Base.{error_code, report, final_code}
use riscv_formal.Monitor.Reordered.{Reordered}

pub record PcShadow : Type 0 where
  pub valid : Bool
  pub trap : Bool
  pub pc : ℕ

-- `shadow<n>_pc_*` for the valid channel `own`, from the registers and the channels before it. The
-- trap bit is the one of `own`, also where the pc is the one of another channel.
unfoldable pub pc_shadow : Reordered → PcShadow → List (Option Reordered) → PcShadow
pc_shadow own s [] = s
pc_shadow own s (none ∷ earlier) = pc_shadow own s earlier
pc_shadow own s (some e ∷ earlier) =
    pc_shadow own (record { valid = not own.trap; trap = own.trap; pc = e.pc_wdata }) earlier

-- The reports of a valid channel.
unfoldable pub pc_errors : ℕ → PcShadow → Reordered → List ℕ
pc_errors chidx s r =
    report (s.valid && not (s.pc == r.pc_rdata) && not r.intr) (error_code chidx 30)
    ++ report (s.valid && s.trap && not r.intr) (error_code chidx 33)

-- What a valid channel assigns to the registers.
abbrev pub pc_update : Reordered → PcShadow
pc_update r = record { valid = not r.trap; trap = r.trap; pc = r.pc_wdata }

-- The blocks of the channels from chidx on. `s` is what the registers were before the edge, `next`
-- what is assigned so far; the result is the registers and `ro<n>_errcode_p` after the edge.
unfoldable pub pc_channels :
    ℕ → PcShadow → List (Option Reordered) → PcShadow → List (Option Reordered) → PcShadow × List ℕ
pc_channels chidx s earlier next [] = (next, [])
pc_channels chidx s earlier next (none ∷ ros) =
    let (after, codes) = pc_channels (chidx + 1) s (earlier ++ (none ∷ [])) next ros in
    (after, 0 ∷ codes)
pc_channels chidx s earlier next (some r ∷ ros) =
    let (after, codes) = pc_channels (chidx + 1) s (earlier ++ (some r ∷ [])) (pc_update r) ros in
    (after, final_code (pc_errors chidx (pc_shadow r s earlier) r) ∷ codes)

-- One edge.
unfoldable pub pc_step : Bool → List (Option Reordered) → PcShadow → PcShadow × List ℕ
pc_step true ros s = (record s { valid = false; trap = false }, map (λ r. 0) ros)
pc_step false ros s = pc_channels 0 s [] s ros

-- Edges one after another, without a reset.
unfoldable pub pc_run : PcShadow → List (List (Option Reordered)) → PcShadow × List ℕ
pc_run s [] = (s, [])
pc_run s (ros ∷ cycles) =
    let (t, codes) = pc_step false ros s in let (u, later) = pc_run t cycles in (u, codes ++ later)
