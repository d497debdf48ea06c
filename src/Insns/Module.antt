-- ===== src/Insns/Module.antt =====
-- The ports of a generated instruction module, the macros that it is compiled under, and what
-- `header`, `misa_check` and `footer` of insns/generate.py contribute to every module.
use riscv_formal.Prelude.{ℕ, ◌^◌, Bool, true, false, not, bit_and, bit_or, ◌==◌, if◌then◌else◌}

-- The macros `RISCV_FORMAL_XLEN`, `_ILEN`, `_ALIGNED_MEM`, `_COMPRESSED`, `_CSR_MISA` and
-- `_ALTOPS`. `div_by_zero n` and `mod_by_zero n` are what the tool makes of the unknown value `x`
-- that Verilog gives to `n / 0` and `n % 0`.
pub record Macros : Type 0 where
  pub xlen : ℕ
  pub ilen : ℕ
  pub aligned_mem : Bool
  pub compressed : Bool
  pub csr_misa : Bool
  pub altops : Bool
  pub div_by_zero : ℕ → ℕ
  pub mod_by_zero : ℕ → ℕ

-- The inputs of a module.
pub record Rvfi : Type 0 where
  pub valid : Bool
  pub insn : ℕ
  pub pc_rdata : ℕ
  pub rs1_rdata : ℕ
  pub rs2_rdata : ℕ
  pub mem_rdata : ℕ
  pub csr_misa_rdata : ℕ

-- The outputs of a module. `csr_misa_rmask` exists only under `RISCV_FORMAL_CSR_MISA` and is 0
-- otherwise.
pub record Spec : Type 0 where
  pub valid : Bool
  pub trap : Bool
  pub rs1_addr : ℕ
  pub rs2_addr : ℕ
  pub rd_addr : ℕ
  pub rd_wdata : ℕ
  pub pc_wdata : ℕ
  pub mem_addr : ℕ
  pub mem_rmask : ℕ
  pub mem_wmask : ℕ
  pub mem_wdata : ℕ
  pub csr_misa_rmask : ℕ

-- What an instruction module computes, under given macros.
abbrev pub Circuit : Type 0
Circuit = Macros → Rvfi → Spec

-- `MISA_A`, `MISA_B`, `MISA_C` and `MISA_M`.
abbrev pub misa_a : ℕ
misa_a = 2 ^ 0

abbrev pub misa_b : ℕ
misa_b = 2 ^ 1

abbrev pub misa_c : ℕ
misa_c = 2 ^ 2

abbrev pub misa_m : ℕ
misa_m = 2 ^ 12

-- The wire `misa_ok` of `misa_check`.
unfoldable pub misa_ok : Macros → ℕ → Rvfi → Bool
misa_ok c mask i = if c.csr_misa then bit_and i.csr_misa_rdata mask == mask else true

-- The wire `ialign16` of `misa_check`.
unfoldable pub ialign16 : Macros → Rvfi → Bool
ialign16 c i = if c.csr_misa then not (bit_and i.csr_misa_rdata misa_c == 0) else c.compressed

-- The output `spec_csr_misa_rmask` that `misa_check` assigns.
unfoldable pub misa_rmask : Macros → ℕ → Bool → ℕ
misa_rmask c mask ialign = if c.csr_misa then (if ialign then bit_or mask misa_c else mask) else 0

-- The assignments that `footer` makes to what a module left open (`defaults_cache` as `header`
-- fills it), with the mask of `misa_check`. A module then replaces what it assigns itself.
unfoldable pub defaults : Macros → ℕ → Bool → Rvfi → Spec
defaults c mask ialign i = record {
  valid = false;
  trap = not (misa_ok c mask i);
  rs1_addr = 0;
  rs2_addr = 0;
  rd_addr = 0;
  rd_wdata = 0;
  pc_wdata = 0;
  mem_addr = 0;
  mem_rmask = 0;
  mem_wmask = 0;
  mem_wdata = 0;
  csr_misa_rmask = misa_rmask c mask ialign;
}
