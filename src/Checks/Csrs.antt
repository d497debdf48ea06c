-- ===== src/Checks/Csrs.antt =====
-- checks/genchecks.py: the CSRs of the specification 1.12, and the sections [csrs], [custom_csrs] and
-- [illegal_csrs]. A set or a dictionary is a list without repetitions. `none` is an exception.
use riscv_formal.Prelude.{
  ℕ, zero, suc, ◌+◌, ◌-◌, ◌/◌, ◌%◌, ◌^◌, bit_or, Bool, true, false, ◌&&◌, ◌==◌, List, [], ◌∷◌, ◌++◌,
  Option, none, some, if◌then◌else◌, any, map,
}
use riscv_formal.Isa.Database.{codes, eq_codes}
use riscv_formal.Monitor.Rewrite.{Text, split}
use riscv_formal.Checks.Select.{decimal}
use riscv_formal.Checks.Settings.{has_mod}

-- `range(a, b)` with n = b - a
unfoldable pub range : ℕ → ℕ → List ℕ
range a zero = []
range a (suc n) = a ∷ range (a + 1) n

-- `reduce(lambda x, y: x | 1<<y, bits, 0)`, from what is there.
unfoldable pub mask_value : ℕ → List ℕ → ℕ
mask_value x [] = x
mask_value x (y ∷ bits) = mask_value (bit_or x (2 ^ y)) bits

-- The binary digits of a number of at most n bits, n digits.
unfoldable pub binary : ℕ → ℕ → Text
binary zero x = []
binary (suc n) x = (48 + x / 2 ^ n % 2) ∷ binary n x

-- For bits below mask_len.
unfoldable pub mask_bits : Text → List ℕ → ℕ → Bool → Text
mask_bits test bits mask_len invert =
    test
    ++ codes "_mask="
    ++ (if invert then codes "~" else [])
    ++ decimal mask_len
    ++ codes "'b"
    ++ binary mask_len (mask_value 0 bits)

-- A CSR and its tests, or None.
abbrev pub SpecCsrs : Type 0
SpecCsrs = List (Text × Option (List Text))

-- `spec_csrs[name] = tests`
unfoldable pub set_key {ℓ} : {A : Type ℓ} → Text → A → List (Text × A) → List (Text × A)
set_key name a [] = (name, a) ∷ []
set_key name a ((n, b) ∷ kvs) =
    let rest = set_key name a kvs in if eq_codes name n then (n, a) ∷ kvs else (n, b) ∷ rest

abbrev pub zero_mask : ℕ → List ℕ → Bool → Option (List Text)
zero_mask xlen bits invert = some (mask_bits (codes "zero") bits xlen invert ∷ [])

-- The dictionary as it is written.
unfoldable pub base_csrs : ℕ → SpecCsrs
base_csrs xlen =
    let const = some (codes "const" ∷ []) in
    let inc = some (codes "inc" ∷ []) in
    (codes "mvendorid", const)
    ∷ (codes "marchid", const)
    ∷ (codes "mimpid", const)
    ∷ (codes "mhartid", const)
    ∷ (codes "mconfigptr", const)
    ∷ (
      codes "mstatus",
      zero_mask xlen ((0 ∷ 2 ∷ 4 ∷ range 23 8) ++ (if xlen == 64 then 31 ∷ range 38 25 else []))
          false,
    )
    ∷ (
      codes "misa",
      zero_mask xlen ((6 ∷ 10 ∷ 11 ∷ 14 ∷ 17 ∷ 19 ∷ 22 ∷ 24 ∷ 25 ∷ []) ++ range 26 (xlen - 28))
          false,
    )
    ∷ (codes "mie", none)
    ∷ (codes "mtvec", none)
    ∷ (codes "mscratch", some (codes "any" ∷ []))
    ∷ (codes "mepc", none)
    ∷ (codes "mcause", none)
    ∷ (codes "mtval", none)
    ∷ (codes "mip", none)
    ∷ (codes "mcycle", inc)
    ∷ (codes "minstret", inc)
    ∷ []

-- With the counters and their events.
unfoldable pub spec_csrs : ℕ → SpecCsrs
spec_csrs xlen =
    base_csrs xlen
    ++ map (λ i. (codes "mhpmcounter" ++ decimal i, none)) (range 3 29)
    ++ map (λ i. (codes "mhpmevent" ++ decimal i, none)) (range 3 29)

-- A CSR that needs a module of the ISA.
pub record Restricted : Type 0 where
  pub name : Text
  pub needs : Text
  pub addr : Text
  pub tests : Option (List Text)

abbrev pub restricted : Text → Text → Text → Option (List Text) → Restricted
restricted name needs addr tests = record { name = name; needs = needs; addr = addr; tests = tests }

unfoldable pub restricted_csrs : ℕ → List Restricted
restricted_csrs xlen =
    restricted (codes "medeleg") (codes "s") (codes "302") none
    ∷ restricted (codes "mideleg") (codes "s") (codes "303") none
    ∷ restricted (codes "mcounteren") (codes "u") (codes "306") none
    ∷ restricted (codes "mstatush") (codes "32") (codes "310") (zero_mask xlen (4 ∷ 5 ∷ []) true)
    ∷ restricted (codes "mtinst") (codes "h") (codes "34A") none
    ∷ restricted (codes "mtval2") (codes "h") (codes "34B") none
    ∷ restricted (codes "menvcfg") (codes "u") (codes "30A") none
    ∷ restricted (codes "menvcfgh") (codes "u") (codes "31A") none
    ∷ []

abbrev pub Illegal : Type 0
Illegal = Text × Text × Text

abbrev pub same_illegal : Illegal → Illegal → Bool
same_illegal x y = eq_codes (x.0) (y.0) && eq_codes (x.1) (y.1) && eq_codes (x.2) (y.2)

-- `illegal_csrs.add`
unfoldable pub add_illegal : Illegal → List Illegal → List Illegal
add_illegal x xs = if any (same_illegal x) xs then xs else xs ++ (x ∷ [])

-- The loop over restricted_csrs.
unfoldable pub restrict :
    List Text → List Restricted → SpecCsrs × List Illegal → SpecCsrs × List Illegal
restrict mods [] (spec, illegal) = (spec, illegal)
restrict mods (r ∷ rs) (spec, illegal) =
    let legal = restrict mods rs (set_key r.name r.tests spec, illegal) in
    let not_legal = restrict mods rs (spec, add_illegal (r.addr, codes "m", codes "rw") illegal) in
    if has_mod r.needs mods then legal else not_legal

-- `csrs.add`
unfoldable pub add_name : Text → List Text → List Text
add_name name names = if has_mod name names then names else names ++ (name ∷ [])

-- `csrs` and `csr_tests`.
pub record CsrSet : Type 0 where
  pub csrs : List Text
  pub csr_tests : List (Text × List Text)

-- The loop over spec_csrs; a test list that is empty or None is left out.
unfoldable pub add_spec : SpecCsrs → CsrSet → CsrSet
add_spec [] s = s
add_spec ((name, tests) ∷ spec) s =
    add_spec spec (record { csrs = add_name name s.csrs; csr_tests = put tests name s.csr_tests })
  where
    put : Option (List Text) → Text → List (Text × List Text) → List (Text × List Text)
    put none name tests = tests
    put (some []) name tests = tests
    put (some (t ∷ ts)) name tests = set_key name (t ∷ ts) tests

-- The block `if csr_spec == "1.12"`.
unfoldable pub read_spec : ℕ → List Text → CsrSet → List Illegal → CsrSet × List Illegal
read_spec xlen mods s illegal =
    let (spec, more) = restrict mods (restricted_csrs xlen) (spec_csrs xlen, illegal) in
    (add_spec spec s, more)

-- A line of [illegal_csrs], by its words.
unfoldable pub illegal_line : List Text → List Illegal → Option (List Illegal)
illegal_line [] illegal = some illegal
illegal_line (addr ∷ modes ∷ rw_ ∷ []) illegal = some (add_illegal (addr, modes, rw_) illegal)
illegal_line (a ∷ []) illegal = none
illegal_line (a ∷ b ∷ []) illegal = none
illegal_line (a ∷ b ∷ c ∷ d ∷ more) illegal = none

unfoldable pub illegal_lines : List Text → List Illegal → Option (List Illegal)
illegal_lines [] illegal = some illegal
illegal_lines (line ∷ lines) illegal = elim (illegal_line (split [] line) illegal) [
  | none ↦ none
  | some more ↦ illegal_lines lines more
]
