-- ===== src/Macros/Output.antt =====
-- checks/rvfi_macros.py: all that the script prints. `none` is an exception.
use riscv_formal.Prelude.{true, false, List, [], ◌∷◌, ◌++◌, Option, none, some, if◌then◌else◌, map}
use riscv_formal.Isa.Database.{codes, eq_codes}
use riscv_formal.Monitor.Rewrite.{Text}
use riscv_formal.Checks.Settings.{upper}
use riscv_formal.Checks.Schedule.{concat_map}
use riscv_formal.Checks.Parts.{append_option, all_parts}
use riscv_formal.Macros.Group.{Group, group, Groups, no_groups, add_group}
use riscv_formal.Macros.Print.{print_macros}
use riscv_formal.Macros.Csrs.{Csr, csrs, csr_group, index_lines}

-- The lines before the first CSR.
abbrev pub preamble : List Text
preamble =
    codes "// Generated by rvfi_macros.py"
    ∷ []
    ∷ codes "`ifdef YOSYS"
    ∷ codes "`define rvformal_rand_reg rand reg"
    ∷ codes "`define rvformal_rand_const_reg rand const reg"
    ∷ codes "`else"
    ∷ codes "`ifdef SIMULATION"
    ∷ codes "`define rvformal_rand_reg reg"
    ∷ codes "`define rvformal_rand_const_reg reg"
    ∷ codes "`else"
    ∷ codes "`define rvformal_rand_reg wire"
    ∷ codes "`define rvformal_rand_const_reg reg"
    ∷ codes "`endif"
    ∷ codes "`endif"
    ∷ []
    ∷ codes "`ifndef RISCV_FORMAL_VALIDADDR"
    ∷ codes "`define RISCV_FORMAL_VALIDADDR(addr) 1"
    ∷ codes "`endif"
    ∷ []
    ∷ codes "`ifndef RISCV_FORMAL_IOADDR"
    ∷ codes "`define RISCV_FORMAL_IOADDR(addr) 1"
    ∷ codes "`endif"
    ∷ []
    ∷ codes "`define rvformal_addr_valid(a) (`RISCV_FORMAL_VALIDADDR(a))"
    ∷ codes "`define rvformal_addr_io(a) (`rvformal_addr_valid(a) && (`RISCV_FORMAL_IOADDR(a)))"
    ∷ codes
        "`define rvformal_addr_eq(a, b) ((`rvformal_addr_valid(a) == `rvformal_addr_valid(b)) && (!`rvformal_addr_valid(a) || (a == b)))"
    ∷ codes
        "`define rvformal_addr_eq_io(a, b) (`rvformal_addr_io(a) ? `rvformal_addr_io(b) : `rvformal_addr_eq(a, b))"
    ∷ []
    ∷ []

-- The lines of a CSR, in the loop over all.
unfoldable pub csr_lines : Csr → Option (List Text)
csr_lines csr = append_option (print_macros (csr_group csr)) (some (index_lines csr))

unfoldable pub all_csr_lines : List Csr → Option (List Text)
all_csr_lines [] = some []
all_csr_lines (csr ∷ csrs) = append_option (csr_lines csr) (all_csr_lines csrs)

-- The macro with the numbers of all CSRs.
unfoldable pub indices_lines : List Csr → List Text
indices_lines csrs =
    (codes "`define RVFI_INDICES \\" ∷ [])
    ++ map (λ csr. codes "`rvformal_csr_" ++ csr.name ++ codes "_indices \\") csrs
    ++ (codes "`rvformal_custom_csr_indices" ∷ [] ∷ [])

-- A turn of the loop over the macros of the custom CSRs.
unfoldable pub custom_lines : Text → List Text
custom_lines macro =
    let user = codes "RISCV_FORMAL_CUSTOM_CSR_" ++ map upper macro in
    let name = codes "`define rvformal_custom_csr_" ++ macro in
    ((codes "`ifdef " ++ user) ∷ [])
    ++ (if eq_codes macro (codes "channel")
        then (name ++ codes "(_idx) `" ++ user ++ codes "(_idx)")
          ∷ codes "`else"
          ∷ (name ++ codes "(_idx)")
          ∷ []
        else (name ++ codes " `" ++ user) ∷ codes "`else" ∷ name ∷ [])
    ++ (codes "`endif" ∷ [])

abbrev pub custom_macros : List Text
custom_macros =
    codes "inputs"
    ∷ codes "wires"
    ∷ codes "conn"
    ∷ codes "channel"
    ∷ codes "signals"
    ∷ codes "outputs"
    ∷ codes "indices"
    ∷ []

-- `custom_csr`, which is not printed.
unfoldable pub custom_csr : Group
custom_csr =
    group
      (record {
        name = codes "rvformal_custom_csr";
        signals = [];
        channels = some (codes "`RISCV_FORMAL_NRET");
        condition = none;
        nosep = false;
        csr_conn32 = false;
      })
      no_groups

-- `group_rollback`
unfoldable pub group_rollback : Group
group_rollback =
    group
      (record {
        name = codes "rvformal_rollback";
        signals = (codes " 1", codes "rollback_valid") ∷ (codes "64", codes "rollback_order") ∷ [];
        channels = none;
        condition = some (codes "RISCV_FORMAL_ROLLBACK");
        nosep = false;
        csr_conn32 = false;
      })
      no_groups

-- `group_extamo`
unfoldable pub group_extamo : Group
group_extamo =
    group
      (record {
        name = codes "rvformal_extamo";
        signals = (codes "1", codes "mem_extamo") ∷ [];
        channels = some (codes "`RISCV_FORMAL_NRET");
        condition = some (codes "RISCV_FORMAL_EXTAMO");
        nosep = false;
        csr_conn32 = false;
      })
      no_groups

-- `group_fault`
unfoldable pub group_fault : Group
group_fault =
    group
      (record {
        name = codes "rvformal_mem_fault";
        signals =
            (codes "                 1  ", codes "mem_fault")
            ∷ (codes "`RISCV_FORMAL_XLEN/8", codes "mem_fault_rmask")
            ∷ (codes "`RISCV_FORMAL_XLEN/8", codes "mem_fault_wmask")
            ∷ [];
        channels = some (codes "`RISCV_FORMAL_NRET");
        condition = some (codes "RISCV_FORMAL_MEM_FAULT");
        nosep = false;
        csr_conn32 = false;
      })
      no_groups

-- `*csr_groups, custom_csr`
unfoldable pub csr_groups : List Csr → Groups
csr_groups [] = add_group custom_csr no_groups
csr_groups (csr ∷ csrs) = add_group (csr_group csr) (csr_groups csrs)

-- `rvfi`
unfoldable pub rvfi : Group
rvfi =
    group
      (record {
        name = codes "RVFI";
        signals =
            (codes "                 1  ", codes "valid    ")
            ∷ (codes "                64  ", codes "order    ")
            ∷ (codes "`RISCV_FORMAL_ILEN  ", codes "insn     ")
            ∷ (codes "                 1  ", codes "trap     ")
            ∷ (codes "                 1  ", codes "halt     ")
            ∷ (codes "                 1  ", codes "intr     ")
            ∷ (codes "                 2  ", codes "mode     ")
            ∷ (codes "                 2  ", codes "ixl      ")
            ∷ (codes "                 5  ", codes "rs1_addr ")
            ∷ (codes "                 5  ", codes "rs2_addr ")
            ∷ (codes "`RISCV_FORMAL_XLEN  ", codes "rs1_rdata")
            ∷ (codes "`RISCV_FORMAL_XLEN  ", codes "rs2_rdata")
            ∷ (codes "                 5  ", codes "rd_addr  ")
            ∷ (codes "`RISCV_FORMAL_XLEN  ", codes "rd_wdata ")
            ∷ (codes "`RISCV_FORMAL_XLEN  ", codes "pc_rdata ")
            ∷ (codes "`RISCV_FORMAL_XLEN  ", codes "pc_wdata ")
            ∷ (codes "`RISCV_FORMAL_XLEN  ", codes "mem_addr ")
            ∷ (codes "`RISCV_FORMAL_XLEN/8", codes "mem_rmask")
            ∷ (codes "`RISCV_FORMAL_XLEN/8", codes "mem_wmask")
            ∷ (codes "`RISCV_FORMAL_XLEN  ", codes "mem_rdata")
            ∷ (codes "`RISCV_FORMAL_XLEN  ", codes "mem_wdata")
            ∷ [];
        channels = some (codes "`RISCV_FORMAL_NRET");
        condition = none;
        nosep = false;
        csr_conn32 = false;
      })
      (add_group group_extamo (add_group group_rollback (add_group group_fault (csr_groups csrs))))

-- `rvfi_bus`
unfoldable pub rvfi_bus : Group
rvfi_bus =
    group
      (record {
        name = codes "RVFI_BUS";
        signals =
            (codes "                   1  ", codes "bus_valid")
            ∷ (codes "                   1  ", codes "bus_insn ")
            ∷ (codes "                   1  ", codes "bus_data ")
            ∷ (codes "                   1  ", codes "bus_fault")
            ∷ (codes "  `RISCV_FORMAL_XLEN  ", codes "bus_addr ")
            ∷ (codes "`RISCV_FORMAL_BUSLEN/8", codes "bus_rmask")
            ∷ (codes "`RISCV_FORMAL_BUSLEN/8", codes "bus_wmask")
            ∷ (codes "`RISCV_FORMAL_BUSLEN  ", codes "bus_rdata")
            ∷ (codes "`RISCV_FORMAL_BUSLEN  ", codes "bus_wdata")
            ∷ [];
        channels = some (codes "`RISCV_FORMAL_NBUS");
        condition = some (codes "RISCV_FORMAL_BUS");
        nosep = true;
        csr_conn32 = false;
      })
      no_groups

-- All that is printed.
unfoldable pub output : Option (List Text)
output = all_parts (
    some preamble
    ∷ all_csr_lines csrs
    ∷ some (indices_lines csrs)
    ∷ some (concat_map custom_lines custom_macros)
    ∷ print_macros group_rollback
    ∷ print_macros group_extamo
    ∷ print_macros group_fault
    ∷ print_macros rvfi
    ∷ print_macros rvfi_bus
    ∷ [])
