-- ===== src/Monitor/Reordered.antt =====
-- monitor/generate.py, the wires `ro<n>_rvfi_*`: what the tests of pc and registers read of an
-- instruction, and how the reorder buffer carries it in `data`.
use riscv_formal.Prelude.{
  ℕ, zero, suc, ◌+◌, ◌*◌, ◌/◌, ◌%◌, ◌^◌, Bool, ◌==◌, List, [], ◌∷◌, if◌then◌else◌,
}
use riscv_formal.Monitor.Base.{Retired}

pub record Reordered : Type 0 where
  pub rs1_addr : ℕ
  pub rs2_addr : ℕ
  pub rd_addr : ℕ
  pub rs1_rdata : ℕ
  pub rs2_rdata : ℕ
  pub rd_wdata : ℕ
  pub pc_rdata : ℕ
  pub pc_wdata : ℕ
  pub intr : Bool
  pub trap : Bool

-- The list that the loop goes through: the width and the value of each field.
abbrev pub rob_fields : ℕ → Retired → List (ℕ × ℕ)
rob_fields xlen r =
    (5, r.rs1_addr)
    ∷ (5, r.rs2_addr)
    ∷ (5, r.rd_addr)
    ∷ (xlen, r.rs1_rdata)
    ∷ (xlen, r.rs2_rdata)
    ∷ (xlen, r.rd_wdata)
    ∷ (xlen, r.pc_rdata)
    ∷ (xlen, r.pc_wdata)
    ∷ (1, if r.intr then 1 else 0)
    ∷ (1, if r.trap then 1 else 0)
    ∷ []

-- `assign rob_i<n>_data[cursor+w-1:cursor] = value; cursor += w`, as a sum over disjoint bits.
unfoldable pub rob_pack : ℕ → List (ℕ × ℕ) → ℕ
rob_pack cursor [] = 0
rob_pack cursor ((w, v) ∷ fs) = v % 2 ^ w * 2 ^ cursor + rob_pack (cursor + w) fs

-- `rob_o<n>_data[cursor+w-1:cursor]` for each width.
unfoldable pub rob_slices : ℕ → List ℕ → ℕ → List ℕ
rob_slices cursor [] x = []
rob_slices cursor (w ∷ ws) x = x / 2 ^ cursor % 2 ^ w ∷ rob_slices (cursor + w) ws x

-- The element at position n, or 0 past the end.
abbrev element : ℕ → List ℕ → ℕ
element n [] = 0
element zero (x ∷ xs) = x
element (suc n) (x ∷ xs) = element n xs

-- The fields by name, from the slices in the order of `rob_fields`.
abbrev pub wires : List ℕ → Reordered
wires xs = record {
  rs1_addr = element 0 xs;
  rs2_addr = element 1 xs;
  rd_addr = element 2 xs;
  rs1_rdata = element 3 xs;
  rs2_rdata = element 4 xs;
  rd_wdata = element 5 xs;
  pc_rdata = element 6 xs;
  pc_wdata = element 7 xs;
  intr = element 8 xs == 1;
  trap = element 9 xs == 1;
}

-- `ch<n>_rvfi_*` to `rob_i<n>_data`.
unfoldable pub rob_data : ℕ → Retired → ℕ
rob_data xlen r = rob_pack 0 (rob_fields xlen r)

-- `rob_o<n>_data` to `ro<n>_rvfi_*`.
unfoldable pub rob_wires : ℕ → ℕ → Reordered
rob_wires xlen x =
    wires (rob_slices 0 (5 ∷ 5 ∷ 5 ∷ xlen ∷ xlen ∷ xlen ∷ xlen ∷ xlen ∷ 1 ∷ 1 ∷ []) x)
