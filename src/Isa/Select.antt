-- ===== src/Isa/Select.antt =====
-- The module of a whole ISA, isa_<name>.v of insns/generate.py, against its instructions.
use riscv_formal.Prelude.{
  ℕ, ◌≡◌, refl, sym, ap, ◌∙◌, true, false, List, [], ◌∷◌, ◌⊎◌, inl, inr, some, Bool-cases,
}
use riscv_formal.Insns.Module.{Macros, Rvfi}
use riscv_formal.Insns.Mnemonic.{Mnemonic}
use riscv_formal.Insns.Table.{model}
use riscv_formal.Isa.Model.{listing, no_insn, isa_model, Has}
use riscv_formal.Isa.Decode.{decode_unique}

module _ (c : Macros) (i : Rvfi) where
  abbrev Unique : List Mnemonic → Type 0
  Unique ms =
      (m n : Mnemonic)
      → Has m ms
      → Has n ms
      → (model m c i).valid ≡ true
      → (model n c i).valid ≡ true
      → m ≡ n

  isa_model-pick :
      (m : Mnemonic) (ms : List Mnemonic)
      → Unique ms
      → Has m ms
      → (model m c i).valid ≡ true
      → isa_model ms c i ≡ model m c i
  unfolding isa_model
  isa_model-pick m [] u p v = absurd p
  isa_model-pick m (x ∷ ms) u p v = elim (Bool-cases (model x c i).valid) [
    | inl here ↦ simp here (ap (λ y. model y c i) (u x m (inl refl) p here v))
    | inr other ↦ elim p [
      | inl e ↦ rw (← e, v)
      | inr q ↦ rw other (isa_model-pick m ms (λ a b r s. u a b (inr r) (inr s)) q v)
    ]
  ]

  isa_model-none :
      (ms : List Mnemonic)
      → ((m : Mnemonic) → Has m ms → (model m c i).valid ≡ false)
      → isa_model ms c i ≡ no_insn
  unfolding isa_model
  isa_model-none [] h = refl
  isa_model-none (x ∷ ms) h = rw (h x (inl refl)) (isa_model-none ms (λ m p. h m (inr p)))

  -- A valid instruction of a list, or none.
  valid-cases :
      (ms : List Mnemonic)
      → ((m : Mnemonic) × Has m ms × ((model m c i).valid ≡ true))
        ⊎ ((m : Mnemonic) → Has m ms → (model m c i).valid ≡ false)
  valid-cases [] = inr (λ m p. absurd p)
  valid-cases (x ∷ ms) = elim (Bool-cases (model x c i).valid) [
    | inl here ↦ inl (x, inl refl, here)
    | inr other ↦ elim (valid-cases ms) [
      | inl (m, p, v) ↦ inl (m, inr p, v)
      | inr none_valid ↦ inr (λ m p. elim p [
        | inl e ↦ ap (λ y. (model y c i).valid) e ∙ other
        | inr q ↦ none_valid m q
      ])
    ]
  ]

  -- The module of an ISA has the outputs of its valid instruction where there is one, and is 0 on
  -- every output where there is none.
  pub isa_model-select :
      (isa : List ℕ) {ms : List Mnemonic}
      → listing isa ≡ some ms
      → ((m : Mnemonic) → Has m ms → (model m c i).valid ≡ true → isa_model ms c i ≡ model m c i)
        × (((m : Mnemonic) → Has m ms → (model m c i).valid ≡ false) → isa_model ms c i ≡ no_insn)
  isa_model-select isa {ms} e =
      (λ m p v. isa_model-pick m ms (λ a b. decode_unique c i isa a b e) p v, isa_model-none ms)

  -- Listing the same instructions in another order, or more than once, gives the same module.
  pub isa_model_order :
      (isa : List ℕ) {ms : List Mnemonic} (ns : List Mnemonic)
      → listing isa ≡ some ms
      → ((m : Mnemonic) → Has m ms → Has m ns)
      → ((m : Mnemonic) → Has m ns → Has m ms)
      → isa_model ns c i ≡ isa_model ms c i
  isa_model_order isa {ms} ns e to from = elim (valid-cases ms) [
    | inl (m, p, v) ↦
        isa_model-pick m ns (λ a b q r. decode_unique c i isa a b e (from a q) (from b r)) (to m p)
          v
        ∙ sym ((isa_model-select isa e).0 m p v)
    | inr none_valid ↦
        isa_model-none ns (λ m q. none_valid m (from m q)) ∙ sym (isa_model-none ms none_valid)
  ]
