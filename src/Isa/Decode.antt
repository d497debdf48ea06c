-- ===== src/Isa/Decode.antt =====
-- The decoding of the ISA listings that insns/generate.py writes: the database and the patterns of
-- its instructions, checked pair by pair.
use riscv_formal.Prelude.{
  ℕ, ◌≡◌, refl, sym, ◌∙◌, Bool, true, false, ◌&&◌, List, [], ◌∷◌, inl, inr, Option, none, some, all,
  Bool-cases, and-left, and-right, arith,
}
use riscv_formal.Insns.Module.{Macros, Rvfi}
use riscv_formal.Insns.Mnemonic.{Mnemonic}
use riscv_formal.Insns.Table.{model}
use riscv_formal.Isa.Database.{Database, eq_codes, find_isa}
use riscv_formal.Isa.Propagate.{isa_database}
use riscv_formal.Isa.Key.{key, disjoint}
use riscv_formal.Isa.Exclusion.{disjoint_lem}
use riscv_formal.Isa.Pattern.{valid-matches}
use riscv_formal.Isa.Model.{listing, Has}

apart : Mnemonic → List Mnemonic → Bool
apart m ms = all (λ n. disjoint (key m) (key n)) ms

all_apart : List Mnemonic → Bool
unfolding apart
all_apart [] = true
all_apart (m ∷ ms) = apart m ms && all_apart ms

database_apart : Option Database → Bool
unfolding all_apart
database_apart none = false
database_apart (some db) = all (λ e. all_apart e.1) db

database_apart_check : database_apart isa_database ≡ true
unfolding database_apart isa_database key disjoint
database_apart_check = refl

-- The check of the whole database holds of each listing.
find_isa-apart :
    (isa : List ℕ) (db : Database) {ms : List Mnemonic}
    → all (λ e. all_apart e.1) db ≡ true
    → find_isa isa db ≡ some ms
    → all_apart ms ≡ true
unfolding find_isa
find_isa-apart isa [] h e = cc
find_isa-apart isa ((j, ns) ∷ db) {ms} h e = elim (Bool-cases (eq_codes isa j)) [
  | inl same ↦
      let found : some ns ≡ some ms = rw same at e in
      let here : all_apart ns ≡ true = and-left _ _ h in ground arith
  | inr other ↦ find_isa-apart isa db (and-right _ _ h) (rw other at e)
]

database-apart :
    (o : Option Database) (isa : List ℕ) {ms : List Mnemonic}
    → database_apart o ≡ true
    → (elim o [ none ↦ none | some db ↦ find_isa isa db ]) ≡ some ms
    → all_apart ms ≡ true
unfolding database_apart
database-apart none isa h e = cc
database-apart (some db) isa h e = find_isa-apart isa db h e

listing-apart : (isa : List ℕ) {ms : List Mnemonic} → listing isa ≡ some ms → all_apart ms ≡ true
listing-apart isa e = database-apart isa_database isa database_apart_check (unfold listing in e)

module _ (c : Macros) (i : Rvfi) where
  abbrev IsValid : Mnemonic → Type 0
  IsValid m = (model m c i).valid ≡ true

  apart-not-valid :
      (m n : Mnemonic) (ms : List Mnemonic)
      → apart m ms ≡ true
      → Has n ms
      → IsValid m
      → IsValid n
      → ⊥
  unfolding apart
  apart-not-valid m n [] h has p q = has
  apart-not-valid m n (x ∷ ms) h (inl e) p q =
      disjoint_lem (key m) (key n) i.insn (rw e (and-left _ _ h)) (valid-matches m c i p)
        (valid-matches n c i q)
  apart-not-valid m n (x ∷ ms) h (inr r) p q = apart-not-valid m n ms (and-right _ _ h) r p q

  all_apart_unique :
      (m n : Mnemonic) (ms : List Mnemonic)
      → all_apart ms ≡ true
      → Has m ms
      → Has n ms
      → IsValid m
      → IsValid n
      → m ≡ n
  unfolding all_apart
  all_apart_unique m n [] h p q v w = absurd p
  all_apart_unique m n (x ∷ ms) h (inl p) (inl q) v w = p ∙ sym q
  all_apart_unique m n (x ∷ ms) h (inl p) (inr q) v w =
      absurd (apart-not-valid m n ms (rw p (and-left (apart x ms) (all_apart ms) h)) q v w)
  all_apart_unique m n (x ∷ ms) h (inr p) (inl q) v w =
      absurd (apart-not-valid n m ms (rw q (and-left (apart x ms) (all_apart ms) h)) p w v)
  all_apart_unique m n (x ∷ ms) h (inr p) (inr q) v w =
      all_apart_unique m n ms (and-right _ _ h) p q v w

  -- In the listing of any ISA name of the database, two instructions that are both valid on the
  -- same inputs are the same instruction.
  pub decode_unique :
      (isa : List ℕ) {ms : List Mnemonic} (m n : Mnemonic)
      → listing isa ≡ some ms
      → Has m ms
      → Has n ms
      → (model m c i).valid ≡ true
      → (model n c i).valid ≡ true
      → m ≡ n
  decode_unique isa {ms} m n e p q v w = all_apart_unique m n ms (listing-apart isa e) p q v w
