-- ===== src/Checks/ConsTexts.antt =====
-- checks/genchecks.py, the texts that check_cons prints through hfmt, without the indentation and the
-- blank first and last line that hfmt drops.
use riscv_formal.Prelude.{List, [], ◌∷◌}
use riscv_formal.Isa.Database.{codes}
use riscv_formal.Monitor.Rewrite.{Text}

abbrev pub cons_options : List Text
cons_options =
    codes ": [options]"
    ∷ codes ": mode @xmode@"
    ∷ codes ": expect pass,fail"
    ∷ codes ": append @append@"
    ∷ codes ": depth @depth_plus@"
    ∷ codes ": skip @skip@"
    ∷ codes ":"
    ∷ codes ": [engines]"
    ∷ codes ": @engine@"
    ∷ codes ":"
    ∷ codes ": [script]"
    ∷ []

abbrev pub cons_prep : List Text
cons_prep = codes ": prep -flatten -nordff -top rvfi_testbench" ∷ []

abbrev pub cons_files : List Text
cons_files =
    codes ": chformal -early"
    ∷ codes ":"
    ∷ codes ": [files]"
    ∷ codes ": @basedir@/checks/rvfi_macros.vh"
    ∷ codes ": @basedir@/checks/rvfi_channel.sv"
    ∷ codes ": @basedir@/checks/rvfi_testbench.sv"
    ∷ codes ": @basedir@/checks/rvfi_@check@_check.sv"
    ∷ codes ":"
    ∷ codes ": [file defines.sv]"
    ∷ []

abbrev pub cons_defines : List Text
cons_defines =
    codes ": `define RISCV_FORMAL"
    ∷ codes ": `define RISCV_FORMAL_NRET @nret@"
    ∷ codes ": `define RISCV_FORMAL_XLEN @xlen@"
    ∷ codes ": `define RISCV_FORMAL_ILEN @ilen@"
    ∷ codes ": `define RISCV_FORMAL_CHECKER rvfi_@check@_check"
    ∷ codes ": `define RISCV_FORMAL_RESET_CYCLES @start@"
    ∷ codes ": `define RISCV_FORMAL_CHECK_CYCLE @depth@"
    ∷ []

abbrev pub bus_defines : List Text
bus_defines =
    codes ": `define RISCV_FORMAL_BUS"
    ∷ codes ": `define RISCV_FORMAL_NBUS @nbus@"
    ∷ codes ": `define RISCV_FORMAL_BUSLEN @buslen@"
    ∷ []

abbrev pub cons_includes : List Text
cons_includes =
    codes ": `include \"rvfi_macros.vh\""
    ∷ codes ":"
    ∷ codes ": [file @checkch@.sv]"
    ∷ codes ": `include \"defines.sv\""
    ∷ codes ": `include \"rvfi_channel.sv\""
    ∷ codes ": `include \"rvfi_testbench.sv\""
    ∷ codes ": `include \"rvfi_@check@_check.sv\""
    ∷ []

abbrev pub cover_stmts : List Text
cover_stmts = codes ":" ∷ codes ": [file cover_stmts.vh]" ∷ codes ": @cover@" ∷ []
