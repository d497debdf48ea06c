-- ===== src/Macros/Agree.antt =====
-- The CSRs of checks/rvfi_macros.py and those of the specification in checks/genchecks.py.
use riscv_formal.Prelude.{ℕ, ◌≡◌, refl, Bool, true, ◌&&◌, List, ◌++◌, all, any}
use riscv_formal.Isa.Database.{codes, eq_codes}
use riscv_formal.Monitor.Rewrite.{Text}
use riscv_formal.Checks.Csrs.{range, base_csrs, spec_csrs, restricted_csrs}
use riscv_formal.Checks.Select.{digits}
use riscv_formal.Checks.Numbers.{hex_digits, hex3}
use riscv_formal.Macros.Csrs.{Csr, csr_xlen, csr_64, xlen_csrs, counter_csrs, csrs, csr_index}

-- A CSR of this name, and one whose number in machine mode is printed like this.
abbrev pub declares : Text → List Csr → Bool
declares name table = any (λ c. eq_codes name c.name) table

abbrev pub has_number : Text → Text → List Csr → Bool
has_number name addr table =
    any (λ c. eq_codes name c.name && eq_codes (codes "12'h" ++ addr) (csr_index c.mindex)) table

-- For every XLEN: each CSR that the generator of checks takes from the specification, with or
-- without a module of the ISA, has its macros, and where it names the number of a CSR the macros
-- have the same number.
pub spec_csrs-csrs :
    (xlen : ℕ)
    → (all (λ kv. declares (kv.0) csrs) (spec_csrs xlen) ≡ true)
      × (all (λ r. has_number r.name r.addr csrs) (restricted_csrs xlen) ≡ true)
unfolding spec_csrs base_csrs restricted_csrs csrs xlen_csrs counter_csrs csr_xlen csr_64 csr_index
    range digits hex_digits hex3 eq_codes
spec_csrs-csrs xlen = (refl, refl)
