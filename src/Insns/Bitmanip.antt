-- ===== src/Insns/Bitmanip.antt =====
-- insns/generate.py, `insn_count` to `insn_xperm`: the bit-manipulation instructions. The `always`
-- blocks of their texts are loops over bit positions.
use riscv_formal.Prelude.{
  ℕ, zero, suc, ◌+◌, ◌*◌, ◌/◌, ◌%◌, ◌^◌, Bool, false, not, ◌&&◌, ◌||◌, ◌==◌, bit_xor, if◌then◌else◌,
}
use riscv_formal.Verilog.{bits, bit, wrap, truth, flag, sext, shr}
use riscv_formal.Insns.Module.{Macros, Circuit, defaults}
use riscv_formal.Insns.Format.{padding, format_r, format_rb, format_ib, format_b}
use riscv_formal.Insns.Wires.{guard_rd, extend_w, result_width}

-- The arguments `trailing` and `pop` of `insn_count`.
pub data Count : Type 0 where
  leading trailing pop : Count

-- One round of the loop of `insn_count`, on the bit at hand and the registers `result`, `found`.
unfoldable pub count_step : Count → ℕ → ℕ × Bool → ℕ × Bool
count_step leading b (result, found) = (if b == 1 then 0 else result + 1, found)
count_step trailing b (result, found) =
    let found' = found || truth b in (result + flag (not (truth b || found')), found')
count_step pop b (result, found) = (result + b, found)

-- The first `n` rounds of the loop, i = 0 to n - 1.
unfoldable pub count_loop : Count → ℕ → ℕ → ℕ × Bool
count_loop kind zero x = (0, false)
count_loop kind (suc n) x = count_step kind (bit n x) (count_loop kind n x)

unfoldable pub insn_count : ℕ → Count → Bool → ℕ → Circuit
insn_count funct5 kind wmode misa c i =
    let f = format_b i.insn in
    let opcode : ℕ = if wmode then 0b0011011 else 0b0010011 in
    let result = (count_loop kind (result_width c wmode) i.rs1_rdata).0 in
    let d = defaults c misa false i in
    record d {
      valid =
          i.valid
          && not (truth (padding i.insn))
          && f.funct7 == 0b0110000
          && f.funct5 == funct5
          && f.funct3 == 0b001
          && f.opcode == opcode;
      rs1_addr = f.rs1;
      rd_addr = f.rd;
      rd_wdata = guard_rd c f.rd (extend_w c wmode result);
      pc_wdata = wrap c.xlen (i.pc_rdata + 4);
    }

-- The opcode `{3'b 011, XLEN != 32, 3'b 011}` of the zero-extending form.
unfoldable pub ext_opcode : Macros → Bool → ℕ
ext_opcode c is_signed =
    if is_signed then 0b0010011 else (if c.xlen == 32 then 0b0110011 else 0b0111011)

unfoldable pub insn_ext : ℕ → Bool → Bool → ℕ → Circuit
insn_ext funct5 is_signed bmode misa c i =
    let f = format_b i.insn in
    let width : ℕ = if bmode then 8 else 16 in
    let funct7 : ℕ = if is_signed then 0b0110000 else 0b0000100 in
    let funct3 : ℕ = if is_signed then 0b001 else 0b100 in
    let result = wrap width i.rs1_rdata in
    let d = defaults c misa false i in
    record d {
      valid =
          i.valid
          && not (truth (padding i.insn))
          && f.funct7 == funct7
          && f.funct5 == funct5
          && f.funct3 == funct3
          && f.opcode == ext_opcode c is_signed;
      rs1_addr = f.rs1;
      rd_addr = f.rd;
      rd_wdata = guard_rd c f.rd (if is_signed then sext width c.xlen result else result);
      pc_wdata = wrap c.xlen (i.pc_rdata + 4);
    }

-- `xtra_shamt_check` of `insn_bit`.
unfoldable pub bit_shamt_check : Macros → Bool → ℕ → Bool
bit_shamt_check c imode shamt =
    if imode then not (truth (bits 5 5 shamt)) || c.xlen == 64 else not (truth (bits 5 5 shamt))

-- The wire `index`: `& (XLEN - 1)` is the remainder by XLEN, a power of two.
unfoldable pub bit_index : Macros → Bool → ℕ → ℕ → ℕ
bit_index c imode shamt rs2 = if imode then shamt % c.xlen else rs2 % c.xlen

unfoldable pub insn_bit : ℕ → ℕ → (Macros → ℕ → ℕ → ℕ) → Bool → ℕ → Circuit
insn_bit funct6 funct3 expr imode misa c i =
    let f = format_rb i.insn in
    let opcode : ℕ = if imode then 0b0010011 else 0b0110011 in
    let result = wrap c.xlen (expr c i.rs1_rdata (bit_index c imode f.shamt i.rs2_rdata)) in
    let d = defaults c misa false i in
    record d {
      valid =
          i.valid
          && not (truth (padding i.insn))
          && f.funct6 == funct6
          && f.funct3 == funct3
          && f.opcode == opcode
          && bit_shamt_check c imode f.shamt;
      rs1_addr = f.rs1;
      rs2_addr = if imode then 0 else f.rs2;
      rd_addr = f.rd;
      rd_wdata = guard_rd c f.rd result;
      pc_wdata = wrap c.xlen (i.pc_rdata + 4);
    }

-- A register that starts at 0 and whose slots of w bits, 0 to n - 1, are assigned once each.
unfoldable pub assemble : ℕ → ℕ → (ℕ → ℕ) → ℕ
assemble w zero f = 0
assemble w (suc n) f = assemble w n f + f n % 2 ^ w * 2 ^ (w * n)

-- The argument `expr` of `insn_bytes`, for a byte or (`bitwise`) for each bit j of byte i. It is
-- given `nbytes` and the operand.
pub data ByteExpr : Type 0 where
  bytewise : (ℕ → ℕ → ℕ → ℕ) → ByteExpr
  bitwise : (ℕ → ℕ → ℕ → ℕ → ℕ) → ByteExpr

-- The loops of `insn_bytes`.
unfoldable pub bytes_result : ByteExpr → ℕ → ℕ → ℕ
bytes_result (bytewise expr) nbytes x = assemble 8 nbytes (λ i. expr nbytes x i)
bytes_result (bitwise expr) nbytes x =
    assemble 8 nbytes (λ i. assemble 1 8 (λ j. expr nbytes x i j))

unfoldable pub insn_bytes : (Macros → ℕ) → ℕ → ByteExpr → ℕ → Circuit
insn_bytes funct12 funct3 expr misa c i =
    let f = format_ib i.insn in
    let result = bytes_result expr (c.xlen / 8) i.rs1_rdata in
    let d = defaults c misa false i in
    record d {
      valid =
          i.valid
          && not (truth (padding i.insn))
          && f.funct12 == funct12 c
          && f.funct3 == funct3
          && f.opcode == 0b0010011;
      rs1_addr = f.rs1;
      rd_addr = f.rd;
      rd_wdata = guard_rd c f.rd result;
      pc_wdata = wrap c.xlen (i.pc_rdata + 4);
    }

-- The loop of `insn_clmul` with n rounds left: `expr` is given XLEN, the operand and i.
unfoldable pub clmul_loop : (ℕ → ℕ → ℕ → ℕ) → ℕ → ℕ → ℕ → ℕ → ℕ → ℕ → ℕ
clmul_loop expr xlen rs1 rs2 zero i result = result
clmul_loop expr xlen rs1 rs2 (suc n) i result =
    clmul_loop expr xlen rs1 rs2 n (i + 1)
      (if bit i rs2 == 1 then bit_xor result (wrap xlen (expr xlen rs1 i)) else result)

unfoldable pub insn_clmul : ℕ → (ℕ → ℕ → ℕ → ℕ) → Bool → ℕ → Circuit
insn_clmul funct3 expr index1 misa c i =
    let f = format_r i.insn in
    let i_first : ℕ = if index1 then 1 else 0 in
    let result = clmul_loop expr c.xlen i.rs1_rdata i.rs2_rdata c.xlen i_first 0 in
    let d = defaults c misa false i in
    record d {
      valid =
          i.valid
          && not (truth (padding i.insn))
          && f.funct7 == 0b0000101
          && f.funct3 == funct3
          && f.opcode == 0b0110011;
      rs1_addr = f.rs1;
      rs2_addr = f.rs2;
      rd_addr = f.rd;
      rd_wdata = guard_rd c f.rd result;
      pc_wdata = wrap c.xlen (i.pc_rdata + 4);
    }

-- `{rs2[h-1:0], rs1[h-1:0]}`
unfoldable pub concat_low : ℕ → ℕ → ℕ → ℕ
concat_low h rs2 rs1 = wrap h rs2 * 2 ^ h + wrap h rs1

unfoldable pub insn_pack : ℕ → (Macros → ℕ) → Bool → ℕ → Circuit
insn_pack funct3 width is_signed misa c i =
    let f = format_r i.insn in
    let opcode : ℕ = if is_signed then 0b0111011 else 0b0110011 in
    let result = concat_low (width c / 2) i.rs2_rdata i.rs1_rdata in
    let d = defaults c misa false i in
    record d {
      valid =
          i.valid
          && not (truth (padding i.insn))
          && f.funct7 == 0b0000100
          && f.funct3 == funct3
          && f.opcode == opcode;
      rs1_addr = f.rs1;
      rs2_addr = f.rs2;
      rd_addr = f.rd;
      rd_wdata = guard_rd c f.rd (if is_signed then sext (width c) c.xlen result else result);
      pc_wdata = wrap c.xlen (i.pc_rdata + 4);
    }

-- The loops of `insn_zip`, over h = XLEN / 2 pairs of bits.
unfoldable pub zip_result : ℕ → ℕ → ℕ
zip_result h x = assemble 2 h (λ i. bit i x + 2 * bit (i + h) x)

unfoldable pub unzip_result : ℕ → ℕ → ℕ
unzip_result h x = assemble 1 h (λ i. bit (2 * i) x) + assemble 1 h (λ i. bit (2 * i + 1) x) * 2 ^ h

unfoldable pub insn_zip : ℕ → Bool → ℕ → Circuit
insn_zip funct3 unzip misa c i =
    let f = format_b i.insn in
    let h = c.xlen / 2 in
    let result = if unzip then unzip_result h i.rs1_rdata else zip_result h i.rs1_rdata in
    let d = defaults c misa false i in
    record d {
      valid =
          i.valid
          && not (truth (padding i.insn))
          && c.xlen == 32
          && f.funct7 == 0b0000100
          && f.funct5 == 0b01111
          && f.funct3 == funct3
          && f.opcode == 0b0010011;
      rs1_addr = f.rs1;
      rd_addr = f.rd;
      rd_wdata = guard_rd c f.rd result;
      pc_wdata = wrap c.xlen (i.pc_rdata + 4);
    }

-- The loop of `insn_xperm`: slot k of the result is `(rs1 >> index) & mask` for the index in slot k
-- of rs2, a shift by `index` bits.
unfoldable pub xperm_result : ℕ → ℕ → ℕ → ℕ → ℕ
xperm_result width n rs1 rs2 = assemble width n (λ k. shr rs1 (wrap width (shr rs2 (k * width))))

unfoldable pub insn_xperm : ℕ → ℕ → ℕ → Circuit
insn_xperm funct3 width misa c i =
    let f = format_r i.insn in
    let result = xperm_result width (c.xlen / width) i.rs1_rdata i.rs2_rdata in
    let d = defaults c misa false i in
    record d {
      valid =
          i.valid
          && not (truth (padding i.insn))
          && f.funct7 == 0b0010100
          && f.funct3 == funct3
          && f.opcode == 0b0110011;
      rs1_addr = f.rs1;
      rs2_addr = f.rs2;
      rd_addr = f.rd;
      rd_wdata = guard_rd c f.rd result;
      pc_wdata = wrap c.xlen (i.pc_rdata + 4);
    }
