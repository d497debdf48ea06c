-- ===== src/Semantics/Access.antt =====
-- `insn_l` and `insn_s` of insns/generate.py with `RISCV_FORMAL_ALIGNED_MEM`.
use native.Mathlib.Nat.{mod-lt, mod-mod_of_dvd, dvd-mul_right, div-add-mod, mul-le-mul_left}
use riscv_formal.Prelude.{
  ℕ, ◌+◌, ◌-◌, ◌*◌, ◌/◌, ◌%◌, ◌^◌, ◌<◌, ◌≤◌, ◌≡◌, Bool, true, false, ◌&&◌, leb, ltb, if◌then◌else◌,
  arith, sym, ap, ◌∙◌, suc,
}
use riscv_formal.Verilog.Slices.{mod-mul-div}
use riscv_formal.Verilog.{wrap, shl, shr}
use riscv_formal.Insns.Module.{Macros, Rvfi}
use riscv_formal.Insns.Format.{format_i, format_s}
use riscv_formal.Insns.Wires.{guard_rd, word_addr, word_offset, byte_mask, crosses, extend}
use riscv_formal.Insns.Memory.{insn_l, insn_s}
use riscv_formal.Semantics.Slots.{slot}
use riscv_formal.Semantics.Memory.{merge_bytes, stored, stored-slot, stored-load}

-- The address that a store, and a load, computes.
abbrev pub store_addr : Macros → Rvfi → ℕ
store_addr c i = wrap c.xlen (i.rs1_rdata + (format_s c.xlen i.insn).imm)

abbrev pub load_addr : Macros → Rvfi → ℕ
load_addr c i = wrap c.xlen (i.rs1_rdata + (format_i c.xlen i.insn).imm)

module _ (funct3 n misa : ℕ) (c : Macros) (i : Rvfi) (aligned : c.aligned_mem ≡ true) where
  insn_s-mem_wmask :
      (insn_s funct3 n misa c i).mem_wmask
      ≡ wrap (c.xlen / 8) (shl (2 ^ n - 1) (store_addr c i % (c.xlen / 8)))
  unfolding insn_s byte_mask word_offset
  insn_s-mem_wmask = rw aligned

  insn_s-mem_wdata :
      8 * (c.xlen / 8) ≡ c.xlen
      → (insn_s funct3 n misa c i).mem_wdata
        ≡ wrap (8 * (c.xlen / 8)) (shl i.rs2_rdata (8 * (store_addr c i % (c.xlen / 8))))
  unfolding insn_s word_offset
  insn_s-mem_wdata whole = rw (aligned, whole)

  insn_s-mem_addr : (insn_s funct3 n misa c i).mem_addr ≡ word_addr c (store_addr c i)
  unfolding insn_s
  insn_s-mem_addr = rw aligned

  insn_s-quiet : (insn_s funct3 n misa c i).trap ≡ false → crosses n (store_addr c i) ≡ false
  unfolding insn_s
  insn_s-quiet quiet = let q = rw aligned at quiet in ground arith

module _ (funct3 n misa : ℕ) (signext : Bool) (c : Macros) (i : Rvfi)
    (aligned : c.aligned_mem ≡ true) where
  insn_l-mem_rmask :
      (insn_l funct3 n signext misa c i).mem_rmask
      ≡ wrap (c.xlen / 8) (shl (2 ^ n - 1) (load_addr c i % (c.xlen / 8)))
  unfolding insn_l byte_mask word_offset
  insn_l-mem_rmask = rw aligned

  insn_l-mem_addr : (insn_l funct3 n signext misa c i).mem_addr ≡ word_addr c (load_addr c i)
  unfolding insn_l
  insn_l-mem_addr = rw aligned

  insn_l-rd_wdata :
      (insn_l funct3 n signext misa c i).rd_wdata
      ≡ guard_rd c
          (insn_l funct3 n signext misa c i).rd_addr
          (extend c signext n (wrap (8 * n) (shr i.mem_rdata (8 * (load_addr c i % (c.xlen / 8))))))
  unfolding insn_l word_offset
  insn_l-rd_wdata = rw aligned

-- A store with aligned memory replaces, of the word it addresses, the bytes from the offset of its
-- address on by the low bytes of rs2, as far as they stand in the word, and no other byte.
pub store_bytes :
    (funct3 n misa : ℕ) (c : Macros) (i : Rvfi) (old k : ℕ)
    → c.aligned_mem ≡ true
    → 8 * (c.xlen / 8) ≡ c.xlen
    → k < c.xlen / 8
    → let s = insn_s funct3 n misa c i in
      let off = store_addr c i % (c.xlen / 8) in
      slot 8 k (merge_bytes (c.xlen / 8) old s.mem_wmask s.mem_wdata)
      ≡ (if leb off k && ltb k (off + n) then slot 8 (k - off) i.rs2_rdata else slot 8 k old)
store_bytes funct3 n misa c i old k aligned whole h =
    rw
      (insn_s-mem_wmask funct3 n misa c i aligned, insn_s-mem_wdata funct3 n misa c i aligned whole)
      (stored-slot (c.xlen / 8) n _ old i.rs2_rdata k h)

crosses-false : (n addr : ℕ) → crosses n addr ≡ false → addr % n ≡ 0
unfolding crosses
crosses-false n addr h = ground arith

-- An aligned access stays in its word.
fits-word : (n q addr : ℕ) → 0 < n → 0 < q → addr % n ≡ 0 → addr % (n * q) + n ≤ n * q
fits-word n q addr pos pos_q even =
    let r = addr % (n * q) in
    let quotient : r / n < q = rw (mod-mul-div addr n q pos pos_q) (mod-lt (addr / n) pos_q) in
    let whole : r % n ≡ 0 = mod-mod_of_dvd n addr (dvd-mul_right n q) ∙ even in
    let split : n * (r / n) + r % n ≡ r = div-add-mod r n in
    let room : n * suc (r / n) ≤ n * q = mul-le-mul_left n quotient in omega arith

-- Where a load with aligned memory has the address of an earlier store of as many bytes that did
-- not trap, and the memory word is what the store left, it addresses the same bytes, and gives rd,
-- unless rd is 0, the low bytes of the store's rs2, extended as the load does.
pub store-load :
    (funct_s funct_l n misa : ℕ) (signext : Bool) (c : Macros) (i j : Rvfi) (old q : ℕ)
    → c.aligned_mem ≡ true
    → 8 * (c.xlen / 8) ≡ c.xlen
    → 0 < n
    → 0 < q
    → c.xlen / 8 ≡ n * q
    → load_addr c j ≡ store_addr c i
    → (insn_s funct_s n misa c i).trap ≡ false
    → j.mem_rdata
      ≡ merge_bytes
          (c.xlen / 8)
          old
          (insn_s funct_s n misa c i).mem_wmask
          (insn_s funct_s n misa c i).mem_wdata
    → let s = insn_s funct_s n misa c i in
      let l = insn_l funct_l n signext misa c j in
      (l.mem_addr ≡ s.mem_addr)
      × (l.mem_rmask ≡ s.mem_wmask)
      × (l.rd_wdata ≡ guard_rd c l.rd_addr (extend c signext n (wrap (8 * n) i.rs2_rdata)))
store-load funct_s funct_l n misa signext c i j old q aligned whole pos pos_q fits same quiet mem =
    let off = store_addr c i % (c.xlen / 8) in
    let straight : store_addr c i % n ≡ 0 =
      crosses-false n _ (insn_s-quiet funct_s n misa c i aligned quiet) in
    let room : off + n ≤ c.xlen / 8 = rw fits (fits-word n q (store_addr c i) pos pos_q straight) in
    let word : j.mem_rdata ≡ stored (c.xlen / 8) n off old i.rs2_rdata =
      mem
      ∙ rw (
        insn_s-mem_wmask funct_s n misa c i aligned,
        insn_s-mem_wdata funct_s n misa c i aligned whole,
      ) in
    (
      insn_l-mem_addr funct_l n misa signext c j aligned
          ∙ ap (λ (t : ℕ). word_addr c t) same
          ∙ sym (insn_s-mem_addr funct_s n misa c i aligned),
      insn_l-mem_rmask funct_l n misa signext c j aligned
          ∙ rw same (sym (insn_s-mem_wmask funct_s n misa c i aligned)),
      insn_l-rd_wdata funct_l n misa signext c j aligned
          ∙ rw (same, word, stored-load (c.xlen / 8) n off old i.rs2_rdata room),
    )
