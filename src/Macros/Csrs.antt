-- ===== src/Macros/Csrs.antt =====
-- checks/rvfi_macros.py: the CSRs with their numbers, and the macros of a CSR.
use riscv_formal.Prelude.{
  ℕ, ◌+◌, Bool, true, false, List, [], ◌∷◌, ◌++◌, Option, none, some, if◌then◌else◌, map,
}
use riscv_formal.Isa.Database.{codes}
use riscv_formal.Monitor.Rewrite.{Text}
use riscv_formal.Checks.Settings.{upper}
use riscv_formal.Checks.Select.{decimal}
use riscv_formal.Checks.Csrs.{range}
use riscv_formal.Checks.Numbers.{hex3}
use riscv_formal.Macros.Group.{Group, group, no_groups}
use riscv_formal.Macros.Print.{define_of}

-- The key `len`: "xlen" or "64".
pub data CsrLen : Type 0 where
  len_xlen len_64 : CsrLen

pub record Csr : Type 0 where
  pub len : CsrLen
  pub name : Text
  pub mindex : Option ℕ
  pub sindex : Option ℕ
  pub uindex : Option ℕ
  pub hmindex : Option ℕ
  pub hsindex : Option ℕ
  pub huindex : Option ℕ

-- `Csr("xlen", name, mindex, None, None)`
unfoldable pub csr_xlen : Text → Option ℕ → Csr
csr_xlen name mindex = record {
  len = len_xlen;
  name = name;
  mindex = mindex;
  sindex = none;
  uindex = none;
  hmindex = none;
  hsindex = none;
  huindex = none;
}

-- `Csr("64", name, mindex, None, uindex, hmindex, None, huindex)`
unfoldable pub csr_64 : Text → Option ℕ → Option ℕ → Option ℕ → Option ℕ → Csr
csr_64 name mindex uindex hmindex huindex = record {
  len = len_64;
  name = name;
  mindex = mindex;
  sindex = none;
  uindex = uindex;
  hmindex = hmindex;
  hsindex = none;
  huindex = huindex;
}

-- The rows that are written one by one, of XLEN bits. The numbers are hexadecimal in the script.
unfoldable pub xlen_csrs : List Csr
xlen_csrs =
    csr_xlen (codes "fflags") none
    ∷ csr_xlen (codes "frm") none
    ∷ csr_xlen (codes "fcsr") none
    ∷ csr_xlen (codes "mvendorid") (some 3857)
    ∷ csr_xlen (codes "marchid") (some 3858)
    ∷ csr_xlen (codes "mimpid") (some 3859)
    ∷ csr_xlen (codes "mhartid") (some 3860)
    ∷ csr_xlen (codes "mconfigptr") (some 3861)
    ∷ csr_xlen (codes "mstatus") (some 768)
    ∷ csr_xlen (codes "mstatush") (some 784)
    ∷ csr_xlen (codes "misa") (some 769)
    ∷ csr_xlen (codes "medeleg") (some 770)
    ∷ csr_xlen (codes "mideleg") (some 771)
    ∷ csr_xlen (codes "mie") (some 772)
    ∷ csr_xlen (codes "mtvec") (some 773)
    ∷ csr_xlen (codes "mcounteren") (some 774)
    ∷ csr_xlen (codes "mscratch") (some 832)
    ∷ csr_xlen (codes "mepc") (some 833)
    ∷ csr_xlen (codes "mcause") (some 834)
    ∷ csr_xlen (codes "mtval") (some 835)
    ∷ csr_xlen (codes "mip") (some 836)
    ∷ csr_xlen (codes "mtinst") (some 842)
    ∷ csr_xlen (codes "mtval2") (some 843)
    ∷ csr_xlen (codes "mcountinhibit") (some 800)
    ∷ csr_xlen (codes "menvcfg") (some 778)
    ∷ csr_xlen (codes "menvcfgh") (some 794)
    ∷ []

-- `*(Csr("xlen", f"{name}{i}", base + i, None, None) for i in range(first, first + n))`
abbrev pub numbered : Text → ℕ → ℕ → ℕ → List Csr
numbered name base first n =
    map (λ i. csr_xlen (name ++ decimal i) (some (base + i))) (range first n)

unfoldable pub counter_csrs : List Csr
counter_csrs =
    csr_64 (codes "mcycle") (some 2816) (some 3072) (some 2944) (some 3200)
    ∷ csr_64 (codes "time") none (some 3073) none (some 3073)
    ∷ csr_64 (codes "minstret") (some 2818) (some 3074) (some 2946) (some 3202)
    ∷ map
        (λ i.
          csr_64 (codes "mhpmcounter" ++ decimal i) (some (2816 + i)) (some (3072 + i))
            (some (2944 + i)) (some (3200 + i)))
        (range 3 29)

unfoldable pub csrs : List Csr
csrs =
    xlen_csrs
    ++ numbered (codes "pmpcfg") 928 0 16
    ++ numbered (codes "pmpaddr") 944 0 64
    ++ numbered (codes "mhpmevent") 800 3 29
    ++ counter_csrs

unfoldable pub csr_index : Option ℕ → Text
csr_index none = codes "12'hFFF"
csr_index (some index) = codes "12'h" ++ hex3 index

unfoldable pub csr_width : CsrLen → Text
csr_width len_xlen = codes "`RISCV_FORMAL_XLEN"
csr_width len_64 = codes "64"

abbrev pub is_64 : CsrLen → Bool
is_64 len_xlen = false
is_64 len_64 = true

unfoldable pub csr_group : Csr → Group
csr_group csr =
    let signal : Text → Text × Text = λ s. (csr_width csr.len, codes "csr_" ++ csr.name ++ s) in
    group
      (record {
        name = codes "rvformal_csr_" ++ csr.name;
        signals =
            signal (codes "_rmask")
            ∷ signal (codes "_wmask")
            ∷ signal (codes "_rdata")
            ∷ signal (codes "_wdata")
            ∷ [];
        channels = some (codes "`RISCV_FORMAL_NRET");
        condition = some (codes "RISCV_FORMAL_CSR_" ++ map upper csr.name);
        nosep = false;
        csr_conn32 = is_64 csr.len;
      })
      no_groups

-- The lines that give the numbers of a CSR.
unfoldable pub index_lines : Csr → List Text
index_lines csr =
    let line = λ (level high : Text) (index : Option ℕ).
      codes "localparam [11:0] csr_"
      ++ level
      ++ codes "index_"
      ++ csr.name
      ++ high
      ++ codes " = "
      ++ csr_index index
      ++ codes "; \\" in
    (define_of (codes "rvformal_csr_" ++ csr.name ++ codes "_indices \\")
      ∷ line (codes "m") [] csr.mindex
      ∷ line (codes "s") [] csr.sindex
      ∷ line (codes "u") [] csr.uindex
      ∷ [])
    ++ (if is_64 csr.len
        then line (codes "m") (codes "h") csr.hmindex
          ∷ line (codes "s") (codes "h") csr.hsindex
          ∷ line (codes "u") (codes "h") csr.huindex
          ∷ []
        else [])
    ++ ([] ∷ [])
