-- ===== src/Insns/Expr.antt =====
-- The longer Verilog texts that the calls of insns/generate.py pass to the generators. Each is
-- evaluated as Verilog does: the operands of an expression take the width of its widest operand,
-- and are extended by their sign only if every operand of the expression is signed. A conditional
-- with one unsigned branch (a concatenation is unsigned) makes both branches unsigned.
use riscv_formal.Prelude.{ℕ, ◌+◌, ◌-◌, ◌*◌, ◌/◌, ◌%◌, ◌^◌, ◌==◌, ◌&&◌, if◌then◌else◌}
use riscv_formal.Verilog.{bits, bit, wrap, truth, sext}
use riscv_formal.Insns.Module.{Macros}

-- `2*XLEN`-bit products of sign- or zero-extended operands, shifted down by XLEN.
unfoldable pub mulh : Macros → ℕ → ℕ → ℕ
mulh c a b =
    wrap (2 * c.xlen) (sext c.xlen (2 * c.xlen) a * sext c.xlen (2 * c.xlen) b) / 2 ^ c.xlen

unfoldable pub mulhsu : Macros → ℕ → ℕ → ℕ
mulhsu c a b = wrap (2 * c.xlen) (sext c.xlen (2 * c.xlen) a * b) / 2 ^ c.xlen

unfoldable pub mulhu : Macros → ℕ → ℕ → ℕ
mulhu c a b = wrap (2 * c.xlen) (a * b) / 2 ^ c.xlen

-- `/` and `%` on words: by zero they give the unknown value, which the tool chooses.
unfoldable pub udiv : Macros → ℕ → ℕ → ℕ
udiv c a b = if b == 0 then c.div_by_zero a else a / b

unfoldable pub umod : Macros → ℕ → ℕ → ℕ
umod c a b = if b == 0 then c.mod_by_zero a else a % b

-- The last branch is `$signed(a) / $signed(b)` in the source; the concatenations in the other
-- branches make it unsigned.
unfoldable pub div : Macros → ℕ → ℕ → ℕ
div c a b =
    if b == 0
    then 2 ^ c.xlen - 1
    else (if (a == 2 ^ (c.xlen - 1)) && (b == 2 ^ c.xlen - 1) then 2 ^ (c.xlen - 1) else udiv c a b)

unfoldable pub divu : Macros → ℕ → ℕ → ℕ
divu c a b = if b == 0 then 2 ^ c.xlen - 1 else udiv c a b

-- As in `div`, the last branch is unsigned.
unfoldable pub rem : Macros → ℕ → ℕ → ℕ
rem c a b =
    if b == 0
    then a
    else (if (a == 2 ^ (c.xlen - 1)) && (b == 2 ^ c.xlen - 1) then 0 else umod c a b)

unfoldable pub remu : Macros → ℕ → ℕ → ℕ
remu c a b = if b == 0 then a else umod c a b

-- The second test compares whole registers with 32-bit constants.
unfoldable pub divw : Macros → ℕ → ℕ → ℕ
divw c a b =
    if bits 31 0 b == 0
    then 2 ^ 32 - 1
    else (if (a == 2 ^ 31) && (b == 2 ^ 32 - 1) then 2 ^ 31 else udiv c (bits 31 0 a) (bits 31 0 b))

unfoldable pub divuw : Macros → ℕ → ℕ → ℕ
divuw c a b = if bits 31 0 b == 0 then 2 ^ 32 - 1 else udiv c (bits 31 0 a) (bits 31 0 b)

-- Both tests compare whole registers.
unfoldable pub remw : Macros → ℕ → ℕ → ℕ
remw c a b =
    if b == 0
    then a
    else (if (a == 2 ^ 31) && (b == 2 ^ 32 - 1) then 0 else umod c (bits 31 0 a) (bits 31 0 b))

unfoldable pub remuw : Macros → ℕ → ℕ → ℕ
remuw c a b = if b == 0 then a else umod c (bits 31 0 a) (bits 31 0 b)

-- `{8{|rvfi_rs1_rdata[i*8+:8]}}`
unfoldable pub orc_byte : ℕ → ℕ → ℕ → ℕ
orc_byte nbytes x i = if truth (x / 2 ^ (i * 8) % 2 ^ 8) then 2 ^ 8 - 1 else 0

-- `rvfi_rs1_rdata[((nbytes-i)*8)-1-:8]`
unfoldable pub rev8_byte : ℕ → ℕ → ℕ → ℕ
rev8_byte nbytes x i = x / 2 ^ ((nbytes - i) * 8 - 8) % 2 ^ 8

-- `{6'b 011010, XLEN == 64, 5'b 11000}`
unfoldable pub rev8_funct12 : Macros → ℕ
rev8_funct12 c = if c.xlen == 64 then 0b011010111000 else 0b011010011000

-- `rvfi_rs1_rdata[(i+1)*8-(j+1)]`
unfoldable pub brev8_bit : ℕ → ℕ → ℕ → ℕ → ℕ
brev8_bit nbytes x i j = bit ((i + 1) * 8 - (j + 1)) x
