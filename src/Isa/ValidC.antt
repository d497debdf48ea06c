-- ===== src/Isa/ValidC.antt =====
-- The `spec_valid` of each generator of compressed instructions, and their patterns.
use riscv_formal.Prelude.{ℕ, ◌≡◌, Bool, true, arith, ◌∷◌, if◌then◌else◌}
use riscv_formal.Insns.Module.{Macros, Rvfi}
use riscv_formal.Insns.FormatC.{
  format_cr, format_ci, format_ci_sp, format_ci_lui, format_ci_sri, format_ci_sli, format_ci_andi,
  format_ci_lsp, format_cl, format_css, format_cs, format_cs_alu, format_ciw, format_cb, format_cj,
}
use riscv_formal.Insns.Compressed.{
  insn_c_addi4spn, insn_c_addi, insn_c_jal, insn_c_li, insn_c_addi16sp, insn_c_lui, insn_c_sri,
  insn_c_andi, insn_c_alu, insn_c_b, insn_c_sli, insn_c_jalr, insn_c_mvadd,
}
use riscv_formal.Insns.MemoryC.{load_c, store_c, insn_c_l, insn_c_s, insn_c_lsp, insn_c_ssp}
use riscv_formal.Isa.Key.{eq, ne, holds, matches, c_key, c_alu_key, c_jr_key, c_mv_key}

module _ (c : Macros) (i : Rvfi) where
  pub insn_c_addi4spn-key :
      (misa : ℕ)
      → (insn_c_addi4spn misa c i).valid ≡ true
      → matches (c_key 0b000 0b00) i.insn ≡ true
  unfolding insn_c_addi4spn format_ciw holds
  insn_c_addi4spn-key misa h = ground arith

  pub insn_c_l-key :
      (f3 nb : ℕ) (sg : Bool) (misa : ℕ)
      → (insn_c_l f3 nb sg misa c i).valid ≡ true
      → matches (c_key f3 0b00) i.insn ≡ true
  unfolding insn_c_l load_c format_cl holds
  insn_c_l-key f3 nb sg misa h = ground arith

  pub insn_c_s-key :
      (f3 nb misa : ℕ)
      → (insn_c_s f3 nb misa c i).valid ≡ true
      → matches (c_key f3 0b00) i.insn ≡ true
  unfolding insn_c_s store_c format_cs holds
  insn_c_s-key f3 nb misa h = ground arith

  pub insn_c_lsp-key :
      (f3 nb : ℕ) (sg : Bool) (misa : ℕ)
      → (insn_c_lsp f3 nb sg misa c i).valid ≡ true
      → matches (c_key f3 0b10) i.insn ≡ true
  unfolding insn_c_lsp load_c format_ci_lsp holds
  insn_c_lsp-key f3 nb sg misa h = ground arith

  pub insn_c_ssp-key :
      (f3 nb misa : ℕ)
      → (insn_c_ssp f3 nb misa c i).valid ≡ true
      → matches (c_key f3 0b10) i.insn ≡ true
  unfolding insn_c_ssp store_c format_css holds
  insn_c_ssp-key f3 nb misa h = ground arith

  pub insn_c_addi-key :
      (w : Bool) (misa : ℕ)
      → (insn_c_addi w misa c i).valid ≡ true
      → matches (c_key (if w then 0b001 else 0b000) 0b01) i.insn ≡ true
  unfolding insn_c_addi format_ci holds
  insn_c_addi-key w misa h = ground arith

  pub insn_c_jal-key :
      (f3 : ℕ) (link : Bool) (misa : ℕ)
      → (insn_c_jal f3 link misa c i).valid ≡ true
      → matches (c_key f3 0b01) i.insn ≡ true
  unfolding insn_c_jal format_cj holds
  insn_c_jal-key f3 link misa h = ground arith

  pub insn_c_li-key :
      (misa : ℕ) → (insn_c_li misa c i).valid ≡ true → matches (c_key 0b010 0b01) i.insn ≡ true
  unfolding insn_c_li format_ci holds
  insn_c_li-key misa h = ground arith

  pub insn_c_addi16sp-key :
      (misa : ℕ)
      → (insn_c_addi16sp misa c i).valid ≡ true
      → matches (eq 11 7 2 ∷ c_key 0b011 0b01) i.insn ≡ true
  unfolding insn_c_addi16sp format_ci_sp holds
  insn_c_addi16sp-key misa h = ground arith

  pub insn_c_lui-key :
      (misa : ℕ)
      → (insn_c_lui misa c i).valid ≡ true
      → matches (ne 11 7 2 ∷ c_key 0b011 0b01) i.insn ≡ true
  unfolding insn_c_lui format_ci_lui holds
  insn_c_lui-key misa h = ground arith

  pub insn_c_sri-key :
      (f2 : ℕ) (expr : Macros → ℕ → ℕ → ℕ) (misa : ℕ)
      → (insn_c_sri f2 expr misa c i).valid ≡ true
      → matches (eq 11 10 f2 ∷ c_key 0b100 0b01) i.insn ≡ true
  unfolding insn_c_sri format_ci_sri holds
  insn_c_sri-key f2 expr misa h = ground arith

  pub insn_c_andi-key :
      (misa : ℕ)
      → (insn_c_andi misa c i).valid ≡ true
      → matches (eq 11 10 0b10 ∷ c_key 0b100 0b01) i.insn ≡ true
  unfolding insn_c_andi format_ci_andi holds
  insn_c_andi-key misa h = ground arith

  pub insn_c_alu-key :
      (f6 f2 : ℕ) (expr : Macros → ℕ → ℕ → ℕ) (w : Bool) (misa : ℕ)
      → (insn_c_alu f6 f2 expr w misa c i).valid ≡ true
      → matches (c_alu_key f6 f2) i.insn ≡ true
  unfolding insn_c_alu format_cs_alu holds
  insn_c_alu-key f6 f2 expr w misa h = ground arith

  pub insn_c_b-key :
      (f3 : ℕ) (expr : ℕ → Bool) (misa : ℕ)
      → (insn_c_b f3 expr misa c i).valid ≡ true
      → matches (c_key f3 0b01) i.insn ≡ true
  unfolding insn_c_b format_cb holds
  insn_c_b-key f3 expr misa h = ground arith

  pub insn_c_sli-key :
      (expr : Macros → ℕ → ℕ → ℕ) (misa : ℕ)
      → (insn_c_sli expr misa c i).valid ≡ true
      → matches (c_key 0b000 0b10) i.insn ≡ true
  unfolding insn_c_sli format_ci_sli holds
  insn_c_sli-key expr misa h = ground arith

  pub insn_c_jalr-key :
      (f4 : ℕ) (link : Bool) (misa : ℕ)
      → (insn_c_jalr f4 link misa c i).valid ≡ true
      → matches (c_jr_key f4) i.insn ≡ true
  unfolding insn_c_jalr format_cr holds
  insn_c_jalr-key f4 link misa h = ground arith

  pub insn_c_mvadd-key :
      (f4 : ℕ) (add : Bool) (misa : ℕ)
      → (insn_c_mvadd f4 add misa c i).valid ≡ true
      → matches (c_mv_key f4) i.insn ≡ true
  unfolding insn_c_mvadd format_cr holds
  insn_c_mvadd-key f4 add misa h = ground arith
