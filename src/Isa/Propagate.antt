-- ===== src/Isa/Propagate.antt =====
-- `isa_propagate` and what follows it in insns/generate.py: the sets of the combined ISA names.
use riscv_formal.Prelude.{
  ℕ, zero, suc, Bool, true, false, not, ◌&&◌, ◌||◌, ◌==◌, leb, if◌then◌else◌, List, [], ◌∷◌, ◌++◌,
  Option, none, some, length, any,
}
use riscv_formal.Insns.Mnemonic.{Mnemonic, rank, c_jal, zip, unzip}
use riscv_formal.Isa.Database.{
  codes, eq_codes, starts_with, Database, find_isa, update_isa, register_all, calls,
}

-- `none` is a failed assertion.
infixl 5 ◌>>=◌
abbrev pub ◌>>=◌ : Option Database → (Database → Option Database) → Option Database
none >>= f = none
some db >>= f = f db

unfoldable pub isa_propagate_pair : List ℕ → List ℕ → Database → Option Database
unfolding find_isa update_isa
isa_propagate_pair from_isa to_isa db = elim (find_isa from_isa db) [
  | none ↦ none
  | some ms ↦ some (update_isa to_isa ms db)
]

-- The character classes of `rv_ext_pat`, matched with `re.IGNORECASE`.
abbrev pub is_letter : ℕ → Bool
is_letter c = (leb b'a' c && leb c b'z') || (leb b'A' c && leb c b'Z')

abbrev pub is_long_prefix : ℕ → Bool
is_long_prefix c = any (λ x. c == x) (codes "ZXSzxs")

abbrev pub is_version : ℕ → Bool
is_version c = (leb b'0' c && leb c b'9') || c == b'p' || c == b'P'

-- The longest prefix of which every character passes, and the rest.
unfoldable pub span : (ℕ → Bool) → List ℕ → List ℕ × List ℕ
span p [] = ([], [])
span p (x ∷ xs) = let (a, b) = span p xs in if p x then (x ∷ a, b) else ([], x ∷ xs)

abbrev pub starts_letter : List ℕ → Bool
starts_letter [] = false
starts_letter (c ∷ r) = is_letter c

-- `re.finditer(rv_ext_pat, suffix)`, with the length of the text as fuel: each round takes a
-- character at least.
unfoldable pub extensions : ℕ → List ℕ → List (List ℕ)
unfolding span
extensions zero s = []
extensions (suc f) [] = []
extensions (suc f) (c ∷ r) =
    let long = span is_letter r in
    let long_version = span is_version long.1 in
    let version = span is_version r in
    let long_rest = (c ∷ (long.0 ++ long_version.0)) ∷ extensions f long_version.1 in
    let short_rest = (c ∷ version.0) ∷ extensions f version.1 in
    let skip = extensions f r in
    if not (is_letter c)
    then skip
    else (if is_long_prefix c && starts_letter r then long_rest else short_rest)

abbrev pub rv32i : List ℕ
rv32i = codes "rv32i"

abbrev pub rv64i : List ℕ
rv64i = codes "rv64i"

-- The loop of `isa_propagate` over the extensions that the suffix is made of.
unfoldable pub propagate_parts : List ℕ → List (List ℕ) → Database → Option Database
unfolding eq_codes isa_propagate_pair
propagate_parts suffix [] db = some db
propagate_parts suffix (src ∷ r) db =
    let go = λ (d : Database). propagate_parts suffix r d in
    if eq_codes src suffix
    then go db
    else (isa_propagate_pair (rv32i ++ src) (rv32i ++ suffix) db
        >>= isa_propagate_pair (rv64i ++ src) (rv64i ++ suffix)
        >>= go)

abbrev pub is_empty : List ℕ → Bool
is_empty [] = true
is_empty (c ∷ r) = false

unfoldable pub isa_propagate : List ℕ → Database → Option Database
unfolding isa_propagate_pair propagate_parts extensions
isa_propagate suffix db =
    (if is_empty suffix
      then some db
      else isa_propagate_pair rv32i (rv32i ++ suffix) db
        >>= isa_propagate_pair rv64i (rv64i ++ suffix))
    >>= propagate_parts suffix (extensions (length suffix) suffix)
    >>= isa_propagate_pair (rv32i ++ suffix) (rv64i ++ suffix)

-- A round of the loops over `ext`: a name that is not there is skipped; the parts of B also go
-- into its two sets.
unfoldable pub propagate_ext : Bool → List ℕ → Database → Option Database
unfolding isa_propagate find_isa isa_propagate_pair
propagate_ext in_b ext db = elim (find_isa (rv32i ++ ext) db) [
  | none ↦ some db
  | some _ ↦
      if in_b
      then isa_propagate ext db
        >>= isa_propagate_pair (rv32i ++ ext) (codes "rv32ib")
        >>= isa_propagate_pair (rv64i ++ ext) (codes "rv64ib")
      else isa_propagate ext db
]

-- `insns.discard` and `insns -= …`
unfoldable pub discard : List Mnemonic → List Mnemonic → List Mnemonic
discard out [] = []
discard out (m ∷ ms) =
    if any (λ x. rank x == rank m) out then discard out ms else m ∷ discard out ms

-- The loop under "ISA Fixup".
unfoldable pub fixup : Database → Database
unfolding starts_with discard
fixup [] = []
fixup ((k, ms) ∷ db) =
    (
      k,
      if starts_with (codes "rv64") k
          then discard (zip ∷ unzip ∷ []) (discard (c_jal ∷ []) ms)
          else ms,
    )
    ∷ fixup db

-- The script from the first `isa_propagate` to the fixup.
unfoldable pub build : Database → Option Database
unfolding isa_propagate propagate_ext fixup
build db =
    isa_propagate (codes "") db
    >>= isa_propagate (codes "c")
    >>= isa_propagate (codes "m")
    >>= isa_propagate (codes "mc")
    >>= propagate_ext true (codes "Zba")
    >>= propagate_ext true (codes "Zbb")
    >>= propagate_ext true (codes "Zbs")
    >>= isa_propagate_pair (codes "rv32ib") (codes "rv64ib")
    >>= propagate_ext false (codes "Zbc")
    >>= propagate_ext false (codes "Zbkb")
    >>= propagate_ext false (codes "Zbkc")
    >>= propagate_ext false (codes "Zbkx")
    >>= isa_propagate (codes "Zba_Zbb_Zbc_Zbs")
    >>= isa_propagate (codes "Zbkb_Zbkc_Zbkx")
    >>= λ d. some (fixup d)

-- The database that the listings are written from; empty if an assertion failed.
unfoldable pub isa_database : Option Database
unfolding register_all build
isa_database = build (register_all calls [])
