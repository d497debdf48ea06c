-- ===== src/Monitor/Quiet.antt =====
-- What an `errcode` of 0 says of the cycle before.
use riscv_formal.Prelude.{
  ℕ, ◌+◌, ◌≤◌, ◌≡◌, ◌↔◌, refl, true, false, ◌==◌, List, [], ◌∷◌, ◌++◌, if◌then◌else◌, length, arith,
}
use riscv_formal.Insns.Module.{Macros}
use riscv_formal.Insns.Mnemonic.{Mnemonic}
use riscv_formal.Monitor.Base.{Retired}
use riscv_formal.Monitor.Channel.{isa_spec}
use riscv_formal.Monitor.Agreement.{Agrees, channel_errcode-zero}
use riscv_formal.Monitor.Order.{AllOf}
use riscv_formal.Monitor.Deliver.{AllZero}
use riscv_formal.Monitor.Chain.{AllZero-append}
use riscv_formal.Monitor.Options.{Settings}
use riscv_formal.Monitor.Top.{Monitor, channel_codes, last_error, errcodes, monitor_step}

pick-zero : (errcode v : ℕ) → ((if v == 0 then errcode else v) ≡ 0) ↔ ((errcode ≡ 0) × (v ≡ 0))
pick-zero errcode v = ground arith

-- `errcode` takes one of the codes whenever one is not 0.
last_error-zero :
    (errcode : ℕ) (vs : List ℕ) → (last_error errcode vs ≡ 0) ↔ ((errcode ≡ 0) × AllZero vs)
unfolding last_error
last_error-zero errcode [] = (λ e. (e, tt), λ e. e.0)
last_error-zero errcode (v ∷ vs) =
    let ih = last_error-zero (if v == 0 then errcode else v) vs in
    let pick = pick-zero errcode v in
    (
      λ e. let (now, later) = ih.0 e in ((pick.0 now).0, ((pick.0 now).1, later)),
      λ z. ih.1 (pick.1 (z.0, z.1.0), z.1.1),
    )

-- What a retirement must satisfy: the ISA module has no instruction for its word, or agrees.
abbrev pub Correct : Settings → Macros → List Mnemonic → Retired → Type 0
Correct o c ms r =
    r.valid ≡ true → (isa_spec c ms r).valid ≡ true → Agrees o.ignore_mem c.xlen r (isa_spec c ms r)

channel_codes-zero :
    (o : Settings) (c : Macros) (ms : List Mnemonic) (chidx : ℕ) (rs : List Retired)
    → c.xlen ≤ 64
    → chidx + length rs ≤ 600
    → AllZero (channel_codes o c ms false chidx rs) ↔ AllOf (Correct o c ms) rs
unfolding channel_codes
channel_codes-zero o c ms chidx [] hx hc = (λ e. tt, λ e. tt)
channel_codes-zero o c ms chidx (r ∷ rs) hx hc =
    let own = channel_errcode-zero o.ignore_mem c ms chidx false r hx (omega (arith, hc)) in
    let ih = channel_codes-zero o c ms (chidx + 1) rs hx (omega (arith, hc)) in
    (λ z. (own.0 (z.0) refl, ih.0 z.1), λ h. (own.1 (λ e. h.0), ih.1 h.1))

-- After an edge and another one that is no reset, errcode is 0 just when every code was 0 between
-- them. When the first edge was no reset either, and there are at most 600 channels and 64 bits,
-- this includes that every valid channel of the first edge that retired an instruction of the ISA
-- agreed with the ISA module.
pub monitor_step-quiet :
    (o : Settings) (orderbits : ℕ) (c : Macros) (ms : List Mnemonic) (rs next : List Retired)
    (s : Monitor)
    → c.xlen ≤ 64
    → length rs ≤ 600
    → let t = monitor_step o orderbits c ms false rs s in
      ((monitor_step o orderbits c ms false next t).errcode ≡ 0) ↔ (
        AllOf (Correct o c ms) rs
        × (t.rob_errcode ≡ 0)
        × AllZero t.pc_errcodes
        × AllZero t.reg_errcodes)
unfolding monitor_step
monitor_step-quiet o orderbits c ms rs next s hx hc =
    let t = monitor_step o orderbits c ms false rs s in
    let last = last_error-zero 0 (errcodes t) in
    let ch = AllZero-append t.ch_errcodes (t.rob_errcode ∷ (t.pc_errcodes ++ t.reg_errcodes)) in
    let ro = AllZero-append t.pc_errcodes t.reg_errcodes in
    let correct = channel_codes-zero o c ms 0 rs hx (omega (arith, hc)) in
    (
      λ e.
          let (channels, rest) = ch.0 (last.0 e).1 in
          let (pc, reg) = ro.0 rest.1 in (correct.0 channels, rest.0, pc, reg),
      λ (channels, rob, pc, reg). last.1 (refl, ch.1 (correct.1 channels, (rob, ro.1 (pc, reg)))),
    )
