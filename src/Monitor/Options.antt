-- ===== src/Monitor/Options.antt =====
-- monitor/generate.py, the options of the script. `none` is the exit through usage(), or int() of
-- what is no number. The options come from getopt, and `int` reads a number.
use riscv_formal.Prelude.{
  ℕ, Bool, true, false, ◌==◌, List, [], ◌∷◌, ◌++◌, Option, none, some, if◌then◌else◌, any,
}
use riscv_formal.Isa.Database.{codes, starts_with}
use riscv_formal.Insns.Module.{Macros}
use riscv_formal.Monitor.Rewrite.{Text}

-- An option and its argument, of "i:p:c:r:aMRPAQV".
pub data Argument : Type 0 where
  isa prefix channels robdepth : Text → Argument
  aligned ignore_mem noregscheck nopccheck use_assert quiet_mode verbose_mode : Argument

pub record Settings : Type 0 where
  pub isa : Text
  pub prefix : Option Text
  pub channels : ℕ
  pub robdepth : ℕ
  pub aligned : Bool
  pub ignore_mem : Bool
  pub use_assert : Bool
  pub quiet_mode : Bool
  pub verbose_mode : Bool
  pub noregscheck : Bool
  pub nopccheck : Bool

abbrev pub default_settings : Settings
default_settings = record {
  isa = codes "rv32i";
  prefix = none;
  channels = 1;
  robdepth = 256;
  aligned = false;
  ignore_mem = false;
  use_assert = false;
  quiet_mode = false;
  verbose_mode = false;
  noregscheck = false;
  nopccheck = false;
}

-- One turn of the loop over the options.
unfoldable pub set_option : (Text → Option ℕ) → Settings → Argument → Option Settings
set_option int s (isa a) = some (record s { isa = a })
set_option int s (prefix a) = some (record s { prefix = some a })
set_option int s (channels a) = elim (int a) [
  | none ↦ none
  | some n ↦ some (record s { channels = n })
]
set_option int s (robdepth a) = elim (int a) [
  | none ↦ none
  | some n ↦ some (record s { robdepth = n })
]
set_option int s aligned = some (record s { aligned = true })
set_option int s ignore_mem = some (record s { ignore_mem = true })
set_option int s noregscheck = some (record s { noregscheck = true })
set_option int s nopccheck = some (record s { nopccheck = true })
set_option int s use_assert = some (record s { use_assert = true })
set_option int s quiet_mode = some (record s { quiet_mode = true })
set_option int s verbose_mode = some (record s { verbose_mode = true })

unfoldable pub set_options : (Text → Option ℕ) → Settings → List Argument → Option Settings
set_options int s [] = some s
set_options int s (o ∷ os) = elim (set_option int s o) [
  | none ↦ none
  | some t ↦ set_options int t os
]

-- `xlen`, from the beginning of the ISA name.
unfoldable pub isa_xlen : Text → Option ℕ
isa_xlen name =
    if starts_with (codes "rv32") name
    then some 32
    else (if starts_with (codes "rv64") name then some 64 else none)

-- `"c" in isa`
unfoldable pub isa_compressed : Text → Bool
isa_compressed name = any (λ c. c == 99) name

-- `prefix`, which starts with the ISA name unless it is given.
abbrev pub module_prefix : Settings → Text
module_prefix s = elim s.prefix [ none ↦ codes "riscv_formal_monitor_" ++ s.isa | some p ↦ p ]

-- What the options and the further arguments come to: the settings and xlen.
unfoldable pub configure : (Text → Option ℕ) → List Argument → List Text → Option (Settings × ℕ)
configure int os args = elim (set_options int default_settings os) [
  | none ↦ none
  | some s ↦ elim args [
    | a ∷ more ↦ none
    | [] ↦ elim (isa_xlen s.isa) [ none ↦ none | some xlen ↦ some (s, xlen) ]
  ]
]

-- What the models of the instructions are compiled with.
abbrev pub monitor_macros : (ℕ → ℕ) → (ℕ → ℕ) → Settings → ℕ → Macros
monitor_macros div_by_zero mod_by_zero s xlen = record {
  xlen = xlen;
  ilen = 32;
  aligned_mem = s.aligned;
  compressed = isa_compressed s.isa;
  csr_misa = false;
  altops = false;
  div_by_zero = div_by_zero;
  mod_by_zero = mod_by_zero;
}
