-- ===== src/Monitor/Base.antt =====
-- What the parts of the monitor have in common: the values of a channel, and the error codes that
-- the tasks `ch<n>_handle_error` and `ro<n>_handle_error_*` store. An assignment `<=` to the same
-- register that comes later in a block replaces an earlier one, so that a register of error codes
-- ends with the last code that was reported.
use riscv_formal.Prelude.{
  ℕ, ◌+◌, ◌*◌, ◌%◌, ◌^◌, ◌<◌, ◌≡◌, refl, ◌↔◌, Bool, List, [], ◌∷◌, ◌++◌, if◌then◌else◌, arith,
}

-- The RVFI inputs of one channel, without `halt`, `mode` and `mem_extamo`, which only messages read.
pub record Retired : Type 0 where
  pub valid : Bool
  pub order : ℕ
  pub insn : ℕ
  pub trap : Bool
  pub intr : Bool
  pub rs1_addr : ℕ
  pub rs2_addr : ℕ
  pub rs1_rdata : ℕ
  pub rs2_rdata : ℕ
  pub rd_addr : ℕ
  pub rd_wdata : ℕ
  pub pc_rdata : ℕ
  pub pc_wdata : ℕ
  pub mem_addr : ℕ
  pub mem_rmask : ℕ
  pub mem_wmask : ℕ
  pub mem_rdata : ℕ
  pub mem_wdata : ℕ

-- The code number k of channel chidx, on the 16 bits of the task's input `code`.
abbrev pub error_code : ℕ → ℕ → ℕ
error_code chidx k = (100 * (1 + chidx) + k) % 2 ^ 16

-- `if (test) handle_error(code)`
abbrev pub report : Bool → ℕ → List ℕ
report test code = if test then code ∷ [] else []

-- The register after the reports of a block that starts with `errcode <= 0`.
unfoldable pub final_code : List ℕ → ℕ
final_code [] = 0
final_code (c ∷ []) = c
final_code (c ∷ d ∷ cs) = final_code (d ∷ cs)

-- No code is 0.
abbrev pub AllPositive : List ℕ → Type 0
AllPositive [] = Unit
AllPositive (c ∷ cs) = (0 < c) × AllPositive cs

pub AllPositive-append : (xs ys : List ℕ) → AllPositive xs → AllPositive ys → AllPositive (xs ++ ys)
AllPositive-append [] ys h k = k
AllPositive-append (x ∷ xs) ys h k = (h.0, AllPositive-append xs ys h.1 k)

-- The register is 0 just when nothing was reported.
pub final_code-zero : (cs : List ℕ) → AllPositive cs → (final_code cs ≡ 0) ↔ (cs ≡ [])
unfolding final_code
final_code-zero [] h = (λ e. refl, λ e. refl)
final_code-zero (c ∷ []) h = (λ e. absurd (omega (arith, h.0)), λ e. cc)
final_code-zero (c ∷ d ∷ cs) h = (λ e. absurd (cc ((final_code-zero (d ∷ cs) h.1).0 e)), λ e. cc)

pub append-nil_iff : {A : Type 0} (xs ys : List A) → (xs ++ ys ≡ []) ↔ ((xs ≡ []) × (ys ≡ []))
append-nil_iff [] ys = (λ e. (refl, e), λ e. e.1)
append-nil_iff (x ∷ xs) ys = (λ e. cc, λ e. cc (e.0))
