-- ===== src/Monitor/Top.antt =====
-- monitor/generate.py, the module <prefix>: the channels, the reorder buffer, the shadow registers
-- and `errcode`, clocked together. At an edge every register is computed from the registers as they
-- were before it.
use riscv_formal.Prelude.{
  ℕ, ◌+◌, Bool, ◌&&◌, ◌==◌, List, [], ◌∷◌, ◌++◌, Option, none, some, if◌then◌else◌, map,
}
use riscv_formal.Insns.Module.{Macros}
use riscv_formal.Insns.Mnemonic.{Mnemonic}
use riscv_formal.Monitor.Base.{Retired}
use riscv_formal.Monitor.Channel.{channel_errcode}
use riscv_formal.Monitor.Rob.{Entry, Rob, rob_step}
use riscv_formal.Monitor.Reordered.{Reordered, rob_data, rob_wires}
use riscv_formal.Monitor.Pc.{PcShadow, pc_step}
use riscv_formal.Monitor.Regs.{RegShadow, reg_step}
use riscv_formal.Monitor.Rewrite.{map_option}
use riscv_formal.Monitor.Options.{Settings}

-- The registers of the module and of the reorder buffer.
pub record Monitor : Type 0 where
  pub ch_errcodes : List ℕ
  pub rob : Rob
  pub rob_outs : List (Option Entry)
  pub rob_errcode : ℕ
  pub pc : PcShadow
  pub pc_errcodes : List ℕ
  pub xregs : RegShadow
  pub reg_errcodes : List ℕ
  pub errcode : ℕ

-- `ch<n>_errcode` of the channels from chidx on.
unfoldable pub channel_codes : Settings → Macros → List Mnemonic → Bool → ℕ → List Retired → List ℕ
channel_codes o c ms reset chidx [] = []
channel_codes o c ms reset chidx (r ∷ rs) =
    channel_errcode o.ignore_mem c ms chidx reset r ∷ channel_codes o c ms reset (chidx + 1) rs

-- `rob_i<n>_*`
abbrev pub rob_input : ℕ → Retired → Option Entry
rob_input xlen r =
    if r.valid then some (record { order = r.order; payload = rob_data xlen r }) else none

-- `ro<n>_*`
abbrev pub rob_output : ℕ → Option Entry → Option Reordered
rob_output xlen e = map_option (λ e. rob_wires xlen e.payload) e

-- `if (v) errcode <= v` for every v.
unfoldable pub last_error : ℕ → List ℕ → ℕ
last_error errcode [] = errcode
last_error errcode (v ∷ vs) = last_error (if v == 0 then errcode else v) vs

-- The list `errcodes`, in the order in which it is built.
abbrev pub errcodes : Monitor → List ℕ
errcodes s = s.ch_errcodes ++ (s.rob_errcode ∷ (s.pc_errcodes ++ s.reg_errcodes))

-- The outputs of the reorder buffer, which are its inputs where it has no depth.
abbrev pub reordered_channels : Settings → ℕ → List Retired → Monitor → List (Option Reordered)
reordered_channels o xlen rs s =
    map (rob_output xlen) (if o.robdepth == 0 then map (rob_input xlen) rs else s.rob_outs)

-- One edge; `orderbits` is the number of bits that index the reorder buffer.
unfoldable pub monitor_step :
    Settings → ℕ → Macros → List Mnemonic → Bool → List Retired → Monitor → Monitor
monitor_step o orderbits c ms reset rs s =
    let ros = reordered_channels o c.xlen rs s in
    let off = o.nopccheck && o.noregscheck in
    let (rob, rob_outs, rob_errcode) =
      if o.robdepth == 0
      then (s.rob, s.rob_outs, 0)
      else rob_step orderbits reset (map (rob_input c.xlen) rs) s.rob in
    let (pc, pc_errcodes) = pc_step reset ros s.pc in
    let (xregs, reg_errcodes) = reg_step reset ros s.xregs in
    record {
      ch_errcodes = channel_codes o c ms reset 0 rs;
      rob = rob;
      rob_outs = rob_outs;
      rob_errcode = if off then 0 else rob_errcode;
      pc = pc;
      pc_errcodes = if o.nopccheck then [] else pc_errcodes;
      xregs = xregs;
      reg_errcodes = if o.noregscheck then [] else reg_errcodes;
      errcode = if reset then 0 else last_error 0 (errcodes s);
    }
