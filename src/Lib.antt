-- ===== src/Lib.antt =====
-- riscv-formal: the instruction models that insns/generate.py writes, the monitor that
-- monitor/generate.py writes, the checks that checks/genchecks.py writes, and the macros that
-- checks/rvfi_macros.py writes.
--
-- The script insns/generate.py is the reference that every check of the repository compares a core
-- with. Each call of an insn_* function writes one Verilog module, insns/insn_<name>.v, which looks at
-- one retired instruction on the RVFI port and says whether it is this instruction (spec_valid),
-- whether it traps, and what it reads and writes. `isa_database` collects the instructions by ISA
-- name, `isa_propagate` closes it under extensions, and the last loop writes insns/isa_<name>.txt and
-- the module insns/isa_<name>.v, which selects the outputs of the instruction that is valid.
--
-- The script monitor/generate.py writes a module that watches a core while it runs. Its channels are
-- compared with the ISA module, a reorder buffer puts the retired instructions in the order of their
-- rvfi_order, and shadow copies of the pc and the registers follow them in this order; every part
-- keeps a register with the code of its error, and errcode shows one of these.
--
-- The script checks/genchecks.py reads the configuration of a core and writes one .sby file for each
-- check that the configuration gives a depth and does not filter out, and a makefile that runs them.
-- Each file includes what checks/rvfi_macros.py writes: for each group of signals of the RVFI port the
-- macros that declare and connect them, where a define of the check turns the group on.
--
-- The model of the first two scripts is the function that each written module computes, not its text:
-- a `Circuit` maps the macros of a configuration (Macros) and the RVFI inputs (Rvfi) to the outputs
-- (Spec). A wire of w bits is a native number, and every assignment to it keeps its width by `wrap w`, `% 2 ^ w`.
--
--   Prelude, Prelude/*       names that are shared: tests on numbers, lists, signed integers.
--   Verilog, Verilog/*       the Verilog operators that the texts use; slices of words.
--   Insns/Module             header, assign, misa_check and footer: ports, macros and defaults.
--   Insns/Format, FormatC    the format_* functions: the fields of an instruction word.
--   Insns/Wires              wires that several generators declare alike.
--   Insns/Base, Memory, Alu, Bitmanip
--                            the insn_* functions of 32-bit instructions.
--   Insns/Compressed, MemoryC
--                            the insn_c_* functions.
--   Insns/Expr               the longer Verilog texts that the calls pass on.
--   Insns/Mnemonic, Table    the names of the instructions and the call of each (`model`).
--   Isa/Database, Propagate  isa_database, isa_propagate and the fixup of c_jal.
--   Isa/Model                isa_<name>.txt (`listing`) and isa_<name>.v (`isa_model`).
--   Isa/Key to Isa/Exclusion the opcode and function fields of each instruction, compared in pairs.
--   Isa/Decode, Select       the decoding of a whole ISA.
--   Ports/*                  the outputs of all instructions: widths, traps, the next pc.
--   Expansion/*              compressed instructions against the 32-bit ones they abbreviate, by the
--                            tables of the manual (Manual); Decoded: the expanded words.
--   Semantics/*              what instructions compute, against descriptions by arithmetic.
--   Monitor/Options          the options of monitor/generate.py.
--   Monitor/Base, Channel    the block of each channel; Agreement: what it accepts.
--   Monitor/Rob              the module <prefix>_rob; Order, Deliver, Keep, Complete, Progress: what it
--                            delivers and keeps.
--   Monitor/Reordered        the data that the reorder buffer carries; Carry: that it is unchanged.
--   Monitor/Pc               the shadow pc; Predict, Chain: what it reports and accepts.
--   Monitor/Regs             the shadow registers; Consistent: what they accept.
--   Monitor/Top              the module <prefix>, clocked; Quiet: what errcode says.
--   Monitor/Rewrite          print_rewrite_file; Conditional, Replaced, Rewritten: what it prints.
--   Checks/Strings, Config   the reading of <cfgname>.cfg; Sections: what it puts where.
--   Checks/Settings          the section [options] and the ISA string.
--   Checks/Select            get_depth_cfg, test_disabled, the assumptions and check_insn; Chosen: what
--                            the sections decide.
--   Checks/Csrs, CsrLines    the CSRs of csr_spec and of the configuration; Restrict: what becomes of one.
--   Checks/Cons, Schedule    check_cons and the loops that call it; Enough: the depths they ask for.
--   Checks/Template, Hargs   hfmt and the dictionary hargs; Filled, Keys, Known: what is filled in.
--   Checks/InsnTexts, ConsTexts, Custom, Parts
--                            the templates and the parts that all files have.
--   Checks/InsnFile, ConsFile
--                            the .sby files; Fillable: that no key is missing.
--   Checks/Run               what the calls change, and the loops over the groups.
--   Checks/Makefile          the makefile; Sort, Numbers: sorting and the writing of numbers; Sorted,
--                            Order, Sets, Written: which checks it has.
--   Macros/Group, Print      the class Group of checks/rvfi_macros.py and print_macros.
--   Macros/Csrs, Output      the table of CSRs and all lines that are printed; Agree: the CSRs of both
--                            scripts.
--   Tests, Semantics/Tests, Monitor/Tests, Checks/Tests, Checks/FileTests
--                            inputs on which the theorems are applied.
--
-- The loops of the Verilog texts run over a number of bits that is fixed by the macros and are
-- recursions on that number. `extensions` reads an ISA name on fuel, one unit per character of the
-- name, and each round takes at least one character. A division by zero in a text is the unknown value
-- of Verilog: the fields `div_by_zero` and `mod_by_zero` of Macros are what the tool makes of it.
-- The expressions follow IEEE 1800: an operand takes the width of the
-- widest, and is extended by its sign only if all operands are signed.
--
-- A module that is clocked is a function from its registers before an edge to its registers after it;
-- an assignment `<=` reads the former, and of several to one register the last one stays. The number of
-- channels is the length of the list of inputs. orderbits, which monitor/generate.py computes from
-- robdepth with the module math, is an argument of the reorder buffer.
--
-- In checks/genchecks.py the functions of the module re and int() are parameters, `none` is an assertion
-- or an exception, and `decimal` writes a number on fuel, one unit more than the number.
--
-- The templates of the .sby files are lists of their lines without the indentation, which hfmt removes.
-- A file or the makefile is the list of its lines. A set is a list without repetitions, in some order;
-- the dictionary hargs is passed from call to call.
--
-- Not modelled: the spelling of the emitted Verilog of the instructions and the monitor, and the
-- messages of the monitor; of checks/genchecks.py the command line, the directories and what is printed
-- to the terminal before the last line; the scripts under tests/ and cores/, which call external tools;
-- the SystemVerilog checkers and the cores.
mod Prelude
pub mod Verilog
pub mod Insns
pub mod Isa
pub mod Ports
pub mod Semantics
pub mod Expansion
pub mod Macros
pub mod Monitor
pub mod Checks
mod Tests
