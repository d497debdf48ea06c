-- ===== src/Checks/InsnTexts.antt =====
-- checks/genchecks.py, the texts that check_insn prints through hfmt, without the indentation and the
-- blank first and last line that hfmt drops.
use riscv_formal.Prelude.{List, [], ◌∷◌}
use riscv_formal.Isa.Database.{codes}
use riscv_formal.Monitor.Rewrite.{Text}

abbrev pub insn_options : List Text
insn_options =
    codes ": [options]"
    ∷ codes ": mode @mode@"
    ∷ codes ": expect pass,fail"
    ∷ codes ": append @append@"
    ∷ codes ": depth @depth_plus@"
    ∷ codes ": skip @skip@"
    ∷ codes ":"
    ∷ codes ": [engines]"
    ∷ codes ": @engine@"
    ∷ codes ":"
    ∷ codes ": [script]"
    ∷ []

abbrev pub insn_prep : List Text
insn_prep = codes ": prep -flatten -nordff -top rvfi_testbench" ∷ []

abbrev pub insn_files : List Text
insn_files =
    codes ": chformal -early"
    ∷ codes ":"
    ∷ codes ": [files]"
    ∷ codes ": @basedir@/checks/rvfi_macros.vh"
    ∷ codes ": @basedir@/checks/rvfi_channel.sv"
    ∷ codes ": @basedir@/checks/rvfi_testbench.sv"
    ∷ []

abbrev pub ill_file : List Text
ill_file = codes ": @basedir@/checks/rvfi_csr_ill_check.sv" ∷ []

abbrev pub csrw_file : List Text
csrw_file = codes ": @basedir@/checks/rvfi_csrw_check.sv" ∷ []

abbrev pub insn_file : List Text
insn_file =
    codes ": @basedir@/checks/rvfi_insn_check.sv" ∷ codes ": @basedir@/insns/insn_@insn@.v" ∷ []

abbrev pub insn_defines : List Text
insn_defines =
    codes ":"
    ∷ codes ": [file defines.sv]"
    ∷ codes ": `define RISCV_FORMAL"
    ∷ codes ": `define RISCV_FORMAL_NRET @nret@"
    ∷ codes ": `define RISCV_FORMAL_XLEN @xlen@"
    ∷ codes ": `define RISCV_FORMAL_ILEN @ilen@"
    ∷ codes ": `define RISCV_FORMAL_RESET_CYCLES 1"
    ∷ codes ": `define RISCV_FORMAL_CHECK_CYCLE @depth@"
    ∷ codes ": `define RISCV_FORMAL_CHANNEL_IDX @channel@"
    ∷ []

abbrev pub ill_checker : List Text
ill_checker =
    codes ": `define RISCV_FORMAL_CHECKER rvfi_csr_ill_check"
    ∷ codes ": `define RISCV_FORMAL_ILL_CSR_ADDR @insn@"
    ∷ []

abbrev pub csrw_checker : List Text
csrw_checker =
    codes ": `define RISCV_FORMAL_CHECKER rvfi_csrw_check"
    ∷ codes ": `define RISCV_FORMAL_CSRW_NAME @insn@"
    ∷ []

abbrev pub insn_checker : List Text
insn_checker =
    codes ": `define RISCV_FORMAL_CHECKER rvfi_insn_check"
    ∷ codes ": `define RISCV_FORMAL_INSN_MODEL rvfi_insn_@insn@"
    ∷ []

abbrev pub insn_includes : List Text
insn_includes =
    codes ": `include \"rvfi_macros.vh\""
    ∷ codes ":"
    ∷ codes ": [file @checkch@.sv]"
    ∷ codes ": `include \"defines.sv\""
    ∷ codes ": `include \"rvfi_channel.sv\""
    ∷ codes ": `include \"rvfi_testbench.sv\""
    ∷ []

abbrev pub ill_include : List Text
ill_include = codes ": `include \"rvfi_csr_ill_check.sv\"" ∷ []

abbrev pub csrw_include : List Text
csrw_include = codes ": `include \"rvfi_csrw_check.sv\"" ∷ []

abbrev pub insn_include : List Text
insn_include = codes ": `include \"rvfi_insn_check.sv\"" ∷ codes ": `include \"insn_@insn@.v\"" ∷ []
