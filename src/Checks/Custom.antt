-- ===== src/Checks/Custom.antt =====
-- checks/genchecks.py, print_custom_csrs: the macros of the custom CSRs. The set custom_csrs is a list.
use riscv_formal.Prelude.{ℕ, Bool, ◌==◌, List, [], ◌∷◌, ◌++◌, if◌then◌else◌, any, map}
use riscv_formal.Isa.Database.{codes, eq_codes}
use riscv_formal.Monitor.Rewrite.{Text}
use riscv_formal.Checks.Settings.{upper}
use riscv_formal.Checks.CsrLines.{CustomCsr}
use riscv_formal.Checks.Numbers.{hex3}
use riscv_formal.Checks.Schedule.{concat_map}

-- The formats of one signal of one CSR.
abbrev pub custom_input : Text → Text → Text → Text
custom_input direction csr signal =
    codes "  ,"
    ++ (direction
        ++ (codes " [`RISCV_FORMAL_NRET * `RISCV_FORMAL_XLEN - 1 : 0] rvfi_csr_"
            ++ (csr ++ (codes "_" ++ (signal ++ codes " \\")))))

abbrev pub custom_wire : Text → Text → Text
custom_wire csr signal =
    codes "  (* keep *) wire [`RISCV_FORMAL_NRET * `RISCV_FORMAL_XLEN - 1 : 0] rvfi_csr_"
    ++ (csr ++ (codes "_" ++ (signal ++ codes "; \\")))

abbrev pub custom_conn : Text → Text → Text
custom_conn csr signal =
    let port = csr ++ (codes "_" ++ signal) in
    codes "  ,.rvfi_csr_" ++ (port ++ (codes " (rvfi_csr_" ++ (port ++ codes ") \\")))

abbrev pub custom_channel : Text → Text → Text
custom_channel csr signal =
    let port = csr ++ (codes "_" ++ signal) in
    codes "  wire [`RISCV_FORMAL_XLEN - 1 : 0] csr_"
    ++ (port
        ++ (codes " = rvfi_csr_"
            ++ (port ++ codes " [(_idx)*(`RISCV_FORMAL_XLEN) +: `RISCV_FORMAL_XLEN]; \\")))

abbrev pub custom_signal : Text → Text → Text
custom_signal csr signal =
    codes "`RISCV_FORMAL_CHANNEL_SIGNAL(`RISCV_FORMAL_NRET, `RISCV_FORMAL_XLEN, csr_"
    ++ (csr ++ (codes "_" ++ (signal ++ codes ") \\")))

abbrev pub custom_index : Text → Text → ℕ → Text
custom_index level name index =
    codes "  localparam [11:0] csr_"
    ++ (level ++ (codes "index_" ++ (name ++ (codes " = 12'h" ++ (hex3 index ++ codes "; \\")))))

abbrev pub csr_signals : List Text
csr_signals = codes "rmask" ∷ codes "wmask" ∷ codes "rdata" ∷ codes "wdata" ∷ []

-- `level in levels`, for a level of one letter.
abbrev pub has_letter : ℕ → Text → Bool
has_letter c levels = any (λ d. d == c) levels

-- The lines of a macro, from what it prints for each CSR.
unfoldable pub custom_macro : Text → (CustomCsr → List Text) → List CustomCsr → List Text
custom_macro macro lines custom =
    let arg = if eq_codes macro (codes "channel") then codes "(_idx)" else [] in
    (codes "`define RISCV_FORMAL_CUSTOM_CSR_" ++ (map upper macro ++ (arg ++ codes " \\")))
    ∷ (concat_map lines custom ++ ([] ∷ []))

abbrev pub of_signals : (Text → Text → Text) → CustomCsr → List Text
of_signals format custom = map (format (custom.0)) csr_signals

unfoldable pub index_lines : CustomCsr → List Text
index_lines (name, addr, levels) =
    map (λ level. custom_index (level ∷ []) name (if has_letter level levels then addr else 0xfff))
      (109 ∷ 115 ∷ 117 ∷ [])

unfoldable pub print_custom_csrs : List CustomCsr → List Text
print_custom_csrs custom =
    custom_macro (codes "inputs") (of_signals (custom_input (codes "input"))) custom
    ++ (custom_macro (codes "wires") (of_signals custom_wire) custom
        ++ (custom_macro (codes "conn") (of_signals custom_conn) custom
            ++ (custom_macro (codes "channel") (of_signals custom_channel) custom
                ++ (custom_macro (codes "signals") (of_signals custom_signal) custom
                    ++ (custom_macro (codes "outputs") (of_signals (custom_input (codes "output")))
                          custom
                        ++ custom_macro (codes "indices") index_lines custom)))))
