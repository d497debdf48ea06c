-- ===== src/Isa/Model.antt =====
-- The last loop of insns/generate.py: the listing of an ISA name and the module of the whole ISA.
use riscv_formal.Prelude.{ℕ, ◌≡◌, false, List, [], ◌∷◌, ◌⊎◌, Option, none, some, if◌then◌else◌}
use riscv_formal.Insns.Module.{Spec, Circuit}
use riscv_formal.Insns.Mnemonic.{Mnemonic}
use riscv_formal.Insns.Table.{model}
use riscv_formal.Isa.Database.{find_isa}
use riscv_formal.Isa.Propagate.{isa_database}

-- What isa_<name>.txt lists.
unfoldable pub listing : List ℕ → Option (List Mnemonic)
unfolding find_isa isa_database
listing isa = elim isa_database [ none ↦ none | some db ↦ find_isa isa db ]

-- The outputs of a whole ISA where no instruction is valid.
abbrev pub no_insn : Spec
no_insn = record {
  valid = false;
  trap = false;
  rs1_addr = 0;
  rs2_addr = 0;
  rd_addr = 0;
  rd_wdata = 0;
  pc_wdata = 0;
  mem_addr = 0;
  mem_rmask = 0;
  mem_wmask = 0;
  mem_wdata = 0;
  csr_misa_rmask = 0;
}

-- The module of a whole ISA: each output is taken from the first listed instruction that is valid,
-- by a chain of conditionals that ends in 0.
unfoldable pub isa_model : List Mnemonic → Circuit
isa_model [] c i = no_insn
isa_model (m ∷ ms) c i = if (model m c i).valid then model m c i else isa_model ms c i

-- The instruction stands in the listing.
abbrev pub Has : Mnemonic → List Mnemonic → Type 0
Has m [] = ⊥
Has m (x ∷ xs) = (m ≡ x) ⊎ Has m xs
