-- ===== src/Ports/Defs.antt =====
-- Well-formed outputs, and the lemmas on shared wires that they rest on.
use riscv_formal.Prelude.{ℕ, zero, suc, ◌-◌, ◌/◌, ◌%◌, ◌^◌, ◌<◌, ◌≤◌, ◌≡◌, ◌⊎◌, arith}
use native.Mathlib.Nat.{mod-lt, mod-mod_of_dvd, pow-suc, dvd-mul_left}
use riscv_formal.Verilog.{wrap, shl, sext}
use riscv_formal.Verilog.Slices.{pow-pos}
use riscv_formal.Insns.Module.{Macros, Spec}
use riscv_formal.Insns.Wires.{guard_rd, word_addr, byte_mask, clear_low}
use riscv_formal.Insns.FormatC.{format_cj}

-- Every output fits its port; register 0 is only written with 0; no instruction both reads and
-- writes memory.
pub record IsWellFormed (c : Macros) (s : Spec) : Type 0 where
  pub rs1_fits : s.rs1_addr < 32
  pub rs2_fits : s.rs2_addr < 32
  pub rd_fits : s.rd_addr < 32
  pub rd_wdata_fits : s.rd_wdata < 2 ^ c.xlen
  pub pc_wdata_fits : s.pc_wdata < 2 ^ c.xlen
  pub mem_addr_fits : s.mem_addr < 2 ^ c.xlen
  pub mem_rmask_fits : s.mem_rmask < 2 ^ (c.xlen / 8)
  pub mem_wmask_fits : s.mem_wmask < 2 ^ (c.xlen / 8)
  pub mem_wdata_fits : s.mem_wdata < 2 ^ c.xlen
  pub zero_reg : (0 < s.rd_addr) ⊎ (s.rd_wdata ≡ 0)
  pub one_access : (s.mem_rmask ≡ 0) ⊎ (s.mem_wmask ≡ 0)

pub wrap-lt : (w x : ℕ) → wrap w x < 2 ^ w
wrap-lt w x = mod-lt x (pow-pos w)

pub guard_rd-lt : (c : Macros) (rd x : ℕ) → guard_rd c rd x < 2 ^ c.xlen
unfolding guard_rd
guard_rd-lt c rd x = ground (arith, wrap-lt c.xlen x, pow-pos c.xlen)

pub guard_rd-zero : (c : Macros) (rd x : ℕ) → (0 < rd) ⊎ (guard_rd c rd x ≡ 0)
unfolding guard_rd
guard_rd-zero c rd x = ground arith

pub word_addr-lt : (c : Macros) (x : ℕ) → word_addr c (wrap c.xlen x) < 2 ^ c.xlen
unfolding word_addr
word_addr-lt c x = omega (arith, wrap-lt c.xlen x)

pub byte_mask-lt : (c : Macros) (nb off : ℕ) → byte_mask c nb off < 2 ^ (c.xlen / 8)
unfolding byte_mask
byte_mask-lt c nb off = wrap-lt (c.xlen / 8) (shl (2 ^ nb - 1) off)

pub clear_low-le : (x : ℕ) → clear_low x ≤ x
unfolding clear_low
clear_low-le x = omega arith

-- The low bit of a truncated number is its own.
pub wrap-low : (w x : ℕ) → 0 < w → wrap w x % 2 ≡ x % 2
wrap-low zero x h = absurd (omega arith)
wrap-low (suc w) x h = mod-mod_of_dvd 2 x (rw (pow-suc 2 w) (dvd-mul_left 2 (2 ^ w)))

pub pow-low : (w : ℕ) → 0 < w → 2 ^ w % 2 ≡ 0
pow-low zero h = absurd (omega arith)
pow-low (suc w) h = omega (arith, pow-suc 2 w)

-- The offsets of the compressed jumps and branches are even.
pub cj_imm-low : (n x : ℕ) → 0 < n → (format_cj n x).imm % 2 ≡ 0
unfolding format_cj sext
cj_imm-low n x h = ground (arith, pow-low n h)
