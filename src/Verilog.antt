-- ===== src/Verilog.antt =====
-- The Verilog operators that the texts of insns/generate.py are written with, on unsigned words:
-- a w-bit vector is a number below 2 ^ w, and every wire keeps its declared width by `wrap`.
pub mod Slices
use riscv_formal.Prelude.{ℕ, ◌+◌, ◌-◌, ◌*◌, ◌/◌, ◌%◌, ◌^◌, Bool, ltb, if◌then◌else◌}
use riscv_formal.Prelude.Int.{ℤ, pos, negsuc, ltb_ℤ}

-- `x[hi:lo]`
abbrev pub bits : ℕ → ℕ → ℕ → ℕ
bits hi lo x = x / 2 ^ lo % 2 ^ (hi + 1 - lo)

-- `x[k]`, for a number k that is not written in the text.
abbrev pub bit : ℕ → ℕ → ℕ
bit k x = x / 2 ^ k % 2

-- The value of a `wire [w-1:0]` that is assigned `x`.
abbrev pub wrap : ℕ → ℕ → ℕ
wrap w x = x % 2 ^ w

-- A nonzero vector as a condition.
abbrev pub truth : ℕ → Bool
truth x = ltb 0 x

-- A condition as a one-bit vector.
abbrev pub flag : Bool → ℕ
flag b = if b then 1 else 0

-- The m-bit `$signed(x)` in a context of n bits, m ≤ n: the top bit is repeated.
unfoldable pub sext : ℕ → ℕ → ℕ → ℕ
sext m n x = if ltb x (2 ^ (m - 1)) then x else x + (2 ^ n - 2 ^ m)

-- `-` in a context of w bits.
unfoldable pub sub : ℕ → ℕ → ℕ → ℕ
sub w a b = (a + 2 ^ w - b) % 2 ^ w

-- `~` in a context of w bits.
unfoldable pub lnot : ℕ → ℕ → ℕ
lnot w a = 2 ^ w - 1 - a

abbrev pub shl : ℕ → ℕ → ℕ
shl a s = a * 2 ^ s

abbrev pub shr : ℕ → ℕ → ℕ
shr a s = a / 2 ^ s

-- The integer that the w-bit `$signed(a)` stands for.
unfoldable pub signed : ℕ → ℕ → ℤ
signed w a = if ltb a (2 ^ (w - 1)) then pos a else negsuc (2 ^ w - 1 - a)

-- `$signed(a) < $signed(b)`
unfoldable pub slt : ℕ → ℕ → ℕ → Bool
slt w a b = ltb_ℤ (signed w a) (signed w b)

-- `$signed(a) >>> s` in a context of w bits.
unfoldable pub sra : ℕ → ℕ → ℕ → ℕ
sra w a s = if ltb a (2 ^ (w - 1)) then a / 2 ^ s else 2 ^ w - 1 - (2 ^ w - 1 - a) / 2 ^ s
