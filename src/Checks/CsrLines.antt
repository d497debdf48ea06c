-- ===== src/Checks/CsrLines.antt =====
-- checks/genchecks.py: add_csr, add_csr_tests and the sections [csrs] and [custom_csrs]. `findall`
-- splits the tests of a CSR at spaces outside quotation marks, `int16` reads a hexadecimal number.
use riscv_formal.Prelude.{
  ℕ, zero, suc, Bool, not, ◌&&◌, ◌==◌, List, [], ◌∷◌, ◌++◌, Option, none, some, if◌then◌else◌, any,
}
use riscv_formal.Isa.Database.{eq_codes}
use riscv_formal.Monitor.Rewrite.{Text, space, split}
use riscv_formal.Checks.Strings.{strip, lstrip}
use riscv_formal.Checks.Csrs.{CsrSet, add_name, set_key}

-- What `text.split(maxsplit=n)` leaves as its last part, where there are more than n words.
unfoldable pub after_words : ℕ → Text → Text
after_words zero cs = lstrip space cs
after_words (suc n) cs = after_words n (lstrip (λ c. not (space c)) (lstrip space cs))

-- add_csr, and the name that it returns.
unfoldable pub add_csr : (Text → List Text) → Text → CsrSet → Text × CsrSet
add_csr findall csr_str s = elim (split [] csr_str) [
  | [] ↦ named (strip csr_str) s
  | w ∷ ws ↦ elim ws [
    | [] ↦ named (strip csr_str) s
    | v ∷ vs ↦
        named w (record s { csr_tests = set_key w (findall (after_words 1 csr_str)) s.csr_tests })
  ]
]
  where
    named : Text → CsrSet → Text × CsrSet
    named name s = (name, record s { csrs = add_name name s.csrs })

-- The section [csrs].
unfoldable pub csr_lines : (Text → List Text) → List Text → CsrSet → CsrSet
csr_lines findall [] s = s
csr_lines findall ([] ∷ lines) s = csr_lines findall lines s
csr_lines findall ((c ∷ cs) ∷ lines) s = csr_lines findall lines (add_csr findall (c ∷ cs) s).1

-- Name, address and levels.
abbrev pub CustomCsr : Type 0
CustomCsr = Text × ℕ × Text

abbrev pub same_custom : CustomCsr → CustomCsr → Bool
same_custom x y = eq_codes (x.0) (y.0) && (x.1 == y.1) && eq_codes (x.2) (y.2)

-- `custom_csrs.add`
unfoldable pub add_custom : CustomCsr → List CustomCsr → List CustomCsr
add_custom x xs = if any (same_custom x) xs then xs else xs ++ (x ∷ [])

-- A line of [custom_csrs]; one of less than three words is passed over.
unfoldable pub custom_line :
    (Text → List Text)
    → (Text → Option ℕ)
    → Text
    → CsrSet × List CustomCsr
    → Option (CsrSet × List CustomCsr)
custom_line findall int16 line (s, custom) = elim (split [] line) [
  | [] ↦ some (s, custom)
  | addr ∷ ws ↦ elim ws [
    | [] ↦ some (s, custom)
    | levels ∷ more ↦ elim more [
      | [] ↦ some (s, custom)
      | csr ∷ rest ↦ elim (int16 addr) [
        | none ↦ none
        | some n ↦
            let (name, t) = add_csr findall (after_words 2 line) s in
            some (t, add_custom (name, n, levels) custom)
      ]
    ]
  ]
]

unfoldable pub custom_lines :
    (Text → List Text)
    → (Text → Option ℕ)
    → List Text
    → CsrSet × List CustomCsr
    → Option (CsrSet × List CustomCsr)
custom_lines findall int16 [] state = some state
custom_lines findall int16 (line ∷ lines) state = elim (custom_line findall int16 line state) [
  | none ↦ none
  | some next ↦ custom_lines findall int16 lines next
]
