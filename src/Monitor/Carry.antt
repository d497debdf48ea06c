-- ===== src/Monitor/Carry.antt =====
-- That the reorder buffer carries the fields of an instruction unchanged.
use native.Mathlib.Nat.{
  mod-mod, mod-lt, mod-eq_of_lt, div-eq_of_lt, add-mul-div_right, add-mul-mod_self_right,
  mul-le-mul_right, zero-add,
}
use riscv_formal.Prelude.{
  ℕ, ◌+◌, ◌*◌, ◌/◌, ◌%◌, ◌^◌, ◌<◌, ◌≡◌, refl, sym, ap, ◌∙◌, Bool, true, false, ◌==◌, List, [], ◌∷◌,
  if◌then◌else◌, arith,
}
use riscv_formal.Verilog.Slices.{pow-pos, pow-add}
use riscv_formal.Monitor.Base.{Retired}
use riscv_formal.Monitor.Reordered.{
  Reordered, rob_fields, rob_pack, rob_slices, wires, rob_data, rob_wires,
}

abbrev widths : List (ℕ × ℕ) → List ℕ
widths [] = []
widths ((w, v) ∷ fs) = w ∷ widths fs

-- What a bus of each width keeps of the values.
abbrev truncated : List (ℕ × ℕ) → List ℕ
truncated [] = []
truncated ((w, v) ∷ fs) = v % 2 ^ w ∷ truncated fs

-- `rob_pack` leaves the bits below its start free.
rob_pack-shifted :
    (cursor : ℕ) (fs : List (ℕ × ℕ)) → (k : ℕ) × (rob_pack cursor fs ≡ k * 2 ^ cursor)
unfolding rob_pack
rob_pack-shifted cursor [] = (0, omega arith)
rob_pack-shifted cursor ((w, v) ∷ fs) =
    let (k, e) = rob_pack-shifted (cursor + w) fs in
    (v % 2 ^ w + k * 2 ^ w, rw (e, pow-add cursor w) (omega arith))

rob_slices-rob_pack :
    (cursor low : ℕ) (fs : List (ℕ × ℕ))
    → low < 2 ^ cursor
    → rob_slices cursor (widths fs) (low + rob_pack cursor fs) ≡ truncated fs
unfolding rob_slices rob_pack
rob_slices-rob_pack cursor low [] l = refl
rob_slices-rob_pack cursor low ((w, v) ∷ fs) l =
    let (k, e) = rob_pack-shifted (cursor + w) fs in
    let P = 2 ^ cursor in
    let W = 2 ^ w in
    let top : low + (v % W * P + rob_pack (cursor + w) fs) ≡ low + (v % W + k * W) * P =
      rw (e, pow-add cursor w) (omega arith) in
    let head : (low + (v % W * P + rob_pack (cursor + w) fs)) / P % W ≡ v % W =
      rw
        (
          top,
          add-mul-div_right low (v % W + k * W) (pow-pos cursor),
          div-eq_of_lt l,
          zero-add (v % W + k * W),
        )
        (add-mul-mod_self_right (v % W) k W ∙ mod-mod v W) in
    let below : low + v % W * P < 2 ^ (cursor + w) =
      rw (pow-add cursor w) (omega (arith, l, mul-le-mul_right P (mod-lt v (pow-pos w)))) in
    let tail = rob_slices-rob_pack (cursor + w) (low + v % W * P) fs below in
    let assoc : low + (v % W * P + rob_pack (cursor + w) fs)
        ≡ low + v % W * P + rob_pack (cursor + w) fs =
      omega arith in
    rw (head, assoc) (ap (λ xs. v % W ∷ xs) tail)

-- The inputs fit their wires.
abbrev pub Fits : ℕ → Retired → Type 0
Fits xlen r =
    (r.rs1_addr < 2 ^ 5)
    × (r.rs2_addr < 2 ^ 5)
    × (r.rd_addr < 2 ^ 5)
    × (r.rs1_rdata < 2 ^ xlen)
    × (r.rs2_rdata < 2 ^ xlen)
    × (r.rd_wdata < 2 ^ xlen)
    × (r.pc_rdata < 2 ^ xlen)
    × (r.pc_wdata < 2 ^ xlen)

-- The fields of the channel that have the names of the wires.
abbrev pub reordered : Retired → Reordered
reordered r = record {
  rs1_addr = r.rs1_addr;
  rs2_addr = r.rs2_addr;
  rd_addr = r.rd_addr;
  rs1_rdata = r.rs1_rdata;
  rs2_rdata = r.rs2_rdata;
  rd_wdata = r.rd_wdata;
  pc_rdata = r.pc_rdata;
  pc_wdata = r.pc_wdata;
  intr = r.intr;
  trap = r.trap;
}

bit-back : (b : Bool) → ((if b then 1 else 0) % 2 ^ 1 == 1) ≡ b
bit-back true = refl
bit-back false = refl

-- For every xlen, the wires that are read from the data of the reorder buffer are the fields of the
-- instruction whose data was put in, when these fit the wires of the input.
pub rob_wires-rob_data :
    (xlen : ℕ) (r : Retired) → Fits xlen r → rob_wires xlen (rob_data xlen r) ≡ reordered r
unfolding rob_wires rob_data
rob_wires-rob_data xlen r (a, b, c, d, e, f, g, h) =
    let slices = rob_slices-rob_pack 0 0 (rob_fields xlen r) (omega arith) in
    let whole =
      ap (rob_slices 0 (widths (rob_fields xlen r)))
        (sym (zero-add (rob_pack 0 (rob_fields xlen r)))) in
    let fields : wires (truncated (rob_fields xlen r)) ≡ reordered r =
      rw
        (
          mod-eq_of_lt a,
          mod-eq_of_lt b,
          mod-eq_of_lt c,
          mod-eq_of_lt d,
          mod-eq_of_lt e,
          mod-eq_of_lt f,
          mod-eq_of_lt g,
          mod-eq_of_lt h,
          bit-back r.intr,
          bit-back r.trap,
        )
        refl in
    ap wires (whole ∙ slices) ∙ fields
