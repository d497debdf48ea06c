-- ===== src/Monitor/Agreement.antt =====
-- When the block of a channel reports an error.
use riscv_formal.Prelude.{
  ℕ, zero, suc, ◌+◌, ◌/◌, ◌<◌, ◌≤◌, ◌≡◌, refl, ◌↔◌, ◌⊎◌, inl, inr, Bool, true, false, not, ◌&&◌,
  ◌||◌, ◌==◌, List, [], ◌++◌, if◌then◌else◌, arith, Bool-cases,
}
use native.Mathlib.Decide.{dec_lt}
use riscv_formal.Verilog.{bit, truth}
use riscv_formal.Insns.Module.{Macros, Spec}
use riscv_formal.Insns.Mnemonic.{Mnemonic}
use riscv_formal.Monitor.Base.{
  Retired, error_code, report, final_code, AllPositive, AllPositive-append, final_code-zero,
  append-nil_iff,
}
use riscv_formal.Monitor.Channel.{
  byte, isa_spec, field_errors, byte_errors, mem_errors, channel_errors, channel_errcode,
}

-- What a retirement and the ISA module must agree on. A source register counts only if the
-- instruction reads it; a core may read more bytes of memory than the instruction needs, and the
-- bytes that it does not write do not count.
pub record Agrees (ignore_mem : Bool) (xlen : ℕ) (r : Retired) (s : Spec) : Type 0 where
  pub trap : r.trap ≡ s.trap
  pub rs1 : (s.rs1_addr ≡ 0) ⊎ (r.rs1_addr ≡ s.rs1_addr)
  pub rs2 : (s.rs2_addr ≡ 0) ⊎ (r.rs2_addr ≡ s.rs2_addr)
  pub rd : r.rd_addr ≡ s.rd_addr
  pub rd_wdata : (r.rd_wdata ≡ s.rd_wdata) ⊎ ((ignore_mem ≡ true) × (0 < s.mem_rmask))
  pub pc_wdata : r.pc_wdata ≡ s.pc_wdata
  pub wmask : (ignore_mem ≡ true) ⊎ (r.mem_wmask ≡ s.mem_wmask)
  pub addr :
      (ignore_mem ≡ true) ⊎ ((r.mem_addr ≡ s.mem_addr) ⊎ ((r.mem_wmask ≡ 0) × (r.mem_rmask ≡ 0)))
  pub read_bytes :
      (k : ℕ) → k < xlen / 8 → ignore_mem ≡ false → bit k s.mem_rmask ≡ 1 → bit k r.mem_rmask ≡ 1
  pub written_bytes :
      (k : ℕ)
      → k < xlen / 8
      → ignore_mem ≡ false
      → bit k r.mem_wmask ≡ 1
      → byte k r.mem_wdata ≡ byte k s.mem_wdata

-- The tests of byte k.
abbrev ByteOk : Retired → Spec → ℕ → Type 0
ByteOk r s k =
    (bit k s.mem_rmask ≡ 1 → bit k r.mem_rmask ≡ 1)
    × (bit k r.mem_wmask ≡ 1 → byte k r.mem_wdata ≡ byte k s.mem_wdata)

byte-nil :
    (c d : ℕ) (r : Retired) (s : Spec) (k : ℕ) (rest : List ℕ)
    → (report (not (bit k r.mem_rmask == 1) && bit k s.mem_rmask == 1) c
          ++ (report (bit k r.mem_wmask == 1 && not (byte k r.mem_wdata == byte k s.mem_wdata)) d
              ++ rest)
        ≡ [])
      ↔ (ByteOk r s k × (rest ≡ []))
byte-nil c d r s k rest = ground arith

byte_errors-nil :
    (chidx : ℕ) (r : Retired) (s : Spec) (n i : ℕ)
    → (byte_errors chidx r s i n ≡ []) ↔ ((k : ℕ) → i ≤ k → k < i + n → ByteOk r s k)
unfolding byte_errors
byte_errors-nil chidx r s zero i = (λ e k low high. absurd (omega arith), λ h. refl)
byte_errors-nil chidx r s (suc n) i =
    let here =
      byte-nil (error_code chidx (10 + i)) (error_code chidx (20 + i)) r s i
        (byte_errors chidx r s (i + 1) n) in
    let later = byte_errors-nil chidx r s n (i + 1) in
    (
      λ e k low high. elim (dec_lt i k) [
        | yes after ↦ later.0 (here.0 e).1 k (omega arith) (omega arith)
        | no now ↦ let same : k ≡ i = omega arith in rw same (here.0 e).0
      ],
      λ h. here.1 (
        h i (omega arith) (omega arith),
        later.1 (λ k low high. h k (omega arith) (omega arith)),
      ),
    )

field_errors-nil :
    (ignore_mem : Bool) (chidx : ℕ) (r : Retired) (s : Spec)
    → (field_errors ignore_mem chidx r s ≡ []) ↔ (
        (r.trap ≡ s.trap)
        × ((s.rs1_addr ≡ 0) ⊎ (r.rs1_addr ≡ s.rs1_addr))
        × ((s.rs2_addr ≡ 0) ⊎ (r.rs2_addr ≡ s.rs2_addr))
        × (r.rd_addr ≡ s.rd_addr)
        × ((r.rd_wdata ≡ s.rd_wdata) ⊎ ((ignore_mem ≡ true) × (0 < s.mem_rmask)))
        × (r.pc_wdata ≡ s.pc_wdata))
unfolding field_errors
field_errors-nil ignore_mem chidx r s = ground arith

mem_errors-nil :
    (xlen chidx : ℕ) (r : Retired) (s : Spec)
    → (mem_errors xlen chidx r s ≡ []) ↔ (
        (r.mem_wmask ≡ s.mem_wmask)
        × ((r.mem_addr ≡ s.mem_addr) ⊎ ((r.mem_wmask ≡ 0) × (r.mem_rmask ≡ 0)))
        × (byte_errors chidx r s 0 (xlen / 8) ≡ []))
unfolding mem_errors
mem_errors-nil xlen chidx r s =
    let split = append-nil_iff (byte_errors chidx r s 0 (xlen / 8)) (
      report (not (r.mem_addr == s.mem_addr) && (truth r.mem_wmask || truth r.mem_rmask))
        (error_code chidx 7)) in
    ground arith

-- The check of memory is on.
on : {P : Type 0} → (false ≡ true) ⊎ P → P
on (inl e) = cc
on (inr p) = p

both-nil :
    (ignore_mem : Bool) (xlen chidx : ℕ) (r : Retired) (s : Spec)
    → (field_errors ignore_mem chidx r s ++ (if ignore_mem then [] else mem_errors xlen chidx r s)
        ≡ [])
      ↔ Agrees ignore_mem xlen r s
both-nil true xlen chidx r s =
    let fields = field_errors-nil true chidx r s in
    let join = append-nil_iff (field_errors true chidx r s) [] in
    (
      λ e.
          let (t, a, b, d, w, p) = fields.0 (join.0 e).0 in
          record {
            trap = t;
            rs1 = a;
            rs2 = b;
            rd = d;
            rd_wdata = w;
            pc_wdata = p;
            wmask = inl refl;
            addr = inl refl;
            read_bytes = λ k h off. cc;
            written_bytes = λ k h off. cc;
          },
      λ g. join.1 (fields.1 (g.trap, g.rs1, g.rs2, g.rd, g.rd_wdata, g.pc_wdata), refl),
    )
both-nil false xlen chidx r s =
    let fields = field_errors-nil false chidx r s in
    let memory = mem_errors-nil xlen chidx r s in
    let bytes = byte_errors-nil chidx r s (xlen / 8) 0 in
    let join = append-nil_iff (field_errors false chidx r s) (mem_errors xlen chidx r s) in
    (
      λ e.
          let (t, a, b, d, w, p) = fields.0 (join.0 e).0 in
          let (m, at, each) = memory.0 (join.0 e).1 in
          record {
            trap = t;
            rs1 = a;
            rs2 = b;
            rd = d;
            rd_wdata = w;
            pc_wdata = p;
            wmask = inr m;
            addr = inr at;
            read_bytes = λ k h off. (bytes.0 each k (omega arith) (omega arith)).0;
            written_bytes = λ k h off. (bytes.0 each k (omega arith) (omega arith)).1;
          },
      λ g. join.1 (
        fields.1 (g.trap, g.rs1, g.rs2, g.rd, g.rd_wdata, g.pc_wdata),
        memory.1 (
          on g.wmask,
          on g.addr,
          bytes.1 (λ k low high.
              (g.read_bytes k (omega arith) refl, g.written_bytes k (omega arith) refl)),
        ),
      ),
    )

byte_errors-AllPositive :
    (chidx : ℕ) (r : Retired) (s : Spec) (n i : ℕ)
    → chidx < 600
    → i + n ≤ 8
    → AllPositive (byte_errors chidx r s i n)
unfolding byte_errors
byte_errors-AllPositive chidx r s zero i hc h = tt
byte_errors-AllPositive chidx r s (suc n) i hc h =
    let later = byte_errors-AllPositive chidx r s n (i + 1) hc (omega arith) in ground arith

field_errors-AllPositive :
    (ignore_mem : Bool) (chidx : ℕ) (r : Retired) (s : Spec)
    → chidx < 600
    → AllPositive (field_errors ignore_mem chidx r s)
unfolding field_errors
field_errors-AllPositive ignore_mem chidx r s hc = ground arith

mem_errors-AllPositive :
    (xlen chidx : ℕ) (r : Retired) (s : Spec)
    → xlen ≤ 64
    → chidx < 600
    → AllPositive (mem_errors xlen chidx r s)
unfolding mem_errors
mem_errors-AllPositive xlen chidx r s hx hc =
    let bytes =
      AllPositive-append (byte_errors chidx r s 0 (xlen / 8))
        (report (not (r.mem_addr == s.mem_addr) && (truth r.mem_wmask || truth r.mem_rmask))
          (error_code chidx 7))
        (byte_errors-AllPositive chidx r s (xlen / 8) 0 hc (omega arith)) (ground arith) in
    ground arith

codes-AllPositive :
    (ignore_mem : Bool) (xlen chidx : ℕ) (r : Retired) (s : Spec)
    → xlen ≤ 64
    → chidx < 600
    → AllPositive (
        field_errors ignore_mem chidx r s ++ (if ignore_mem then [] else mem_errors xlen chidx r s))
codes-AllPositive true xlen chidx r s hx hc =
    AllPositive-append (field_errors true chidx r s) _ (field_errors-AllPositive true chidx r s hc)
      tt
codes-AllPositive false xlen chidx r s hx hc =
    AllPositive-append (field_errors false chidx r s) (mem_errors xlen chidx r s)
      (field_errors-AllPositive false chidx r s hc) (mem_errors-AllPositive xlen chidx r s hx hc)

-- The register of a channel is 0 after an edge just when the edge was a reset, the channel retired
-- nothing, the word is no instruction of the ISA, or the retirement agrees with the ISA module. At
-- most 600 channels and 64 bits, so that no code wraps around to 0.
pub channel_errcode-zero :
    (ignore_mem : Bool) (c : Macros) (ms : List Mnemonic) (chidx : ℕ) (reset : Bool) (r : Retired)
    → c.xlen ≤ 64
    → chidx < 600
    → (channel_errcode ignore_mem c ms chidx reset r ≡ 0) ↔ (
        reset ≡ false
        → r.valid ≡ true
        → (isa_spec c ms r).valid ≡ true
        → Agrees ignore_mem c.xlen r (isa_spec c ms r))
unfolding channel_errcode channel_errors final_code
channel_errcode-zero ignore_mem c ms chidx reset r hx hc =
    let s = isa_spec c ms r in
    let zero_iff = final_code-zero _ (codes-AllPositive ignore_mem c.xlen chidx r s hx hc) in
    let nil_iff = both-nil ignore_mem c.xlen chidx r s in
    elim (Bool-cases (not reset && r.valid && s.valid)) [
      | inl tested ↦ (
        λ e _ _ _. nil_iff.0 (zero_iff.0 (simp tested at e)),
        λ agrees. simp tested (zero_iff.1 (nil_iff.1 (ground arith))),
      )
      | inr idle ↦ (λ _ a b d. absurd (ground arith), λ _. simp idle refl)
    ]
