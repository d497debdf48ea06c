-- ===== src/Insns/Wires.antt =====
-- Wires that the instruction modules of insns/generate.py have in common.
use riscv_formal.Prelude.{ℕ, ◌-◌, ◌*◌, ◌/◌, ◌%◌, ◌^◌, Bool, if◌then◌else◌}
use riscv_formal.Verilog.{bits, wrap, truth, sext, shl}
use riscv_formal.Insns.Module.{Macros, Rvfi, ialign16}

-- `spec_rd_addr ? value : 0` on an XLEN-bit output.
unfoldable pub guard_rd : Macros → ℕ → ℕ → ℕ
guard_rd c rd value = if truth rd then wrap c.xlen value else 0

-- The test of the jumps and branches on the low bits of `next_pc`.
unfoldable pub misaligned : Macros → Rvfi → ℕ → Bool
misaligned c i next_pc = if ialign16 c i then truth (bits 0 0 next_pc) else truth (bits 1 0 next_pc)

-- `addr & ~(XLEN/8 - 1)`: the start of the aligned word that holds `addr`.
unfoldable pub word_addr : Macros → ℕ → ℕ
word_addr c addr = addr - addr % (c.xlen / 8)

-- `addr - spec_mem_addr` for that start.
unfoldable pub word_offset : Macros → ℕ → ℕ
word_offset c addr = addr % (c.xlen / 8)

-- `((1 << numbytes) - 1) << offset` on a mask of XLEN/8 bits.
unfoldable pub byte_mask : Macros → ℕ → ℕ → ℕ
byte_mask c numbytes offset = wrap (c.xlen / 8) (shl (2 ^ numbytes - 1) offset)

-- `(addr & (numbytes - 1)) != 0`
unfoldable pub crosses : ℕ → ℕ → Bool
crosses numbytes addr = truth (addr % numbytes)

-- `$signed(result)` or `result`, for a load of `numbytes` bytes.
unfoldable pub extend : Macros → Bool → ℕ → ℕ → ℕ
extend c signext numbytes result = if signext then sext (8 * numbytes) c.xlen result else result

-- `{{XLEN-32{result[31]}}, result}` of a `wmode` instruction, and plain `result` otherwise.
unfoldable pub extend_w : Macros → Bool → ℕ → ℕ
extend_w c wmode result = if wmode then sext 32 c.xlen result else result

-- The width of `result_range`.
unfoldable pub result_width : Macros → Bool → ℕ
result_width c wmode = if wmode then 32 else c.xlen

-- `x & ~1`
unfoldable pub clear_low : ℕ → ℕ
clear_low x = x - x % 2
