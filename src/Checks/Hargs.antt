-- ===== src/Checks/Hargs.antt =====
-- checks/genchecks.py: what the texts of all files are filled in with.
use riscv_formal.Prelude.{ℕ, Bool, List, [], ◌∷◌, ◌++◌, Option, none, some, if◌then◌else◌}
use riscv_formal.Isa.Database.{codes, eq_codes}
use riscv_formal.Monitor.Rewrite.{Text}
use riscv_formal.Checks.Config.{Config, find_section}
use riscv_formal.Checks.Settings.{Globals}
use riscv_formal.Checks.Select.{decimal}
use riscv_formal.Checks.CsrLines.{CustomCsr}
use riscv_formal.Checks.Csrs.{set_key}
use riscv_formal.Checks.Template.{Hargs}

-- What is known when the first file is written: the configuration and what follows from it, and the
-- directories that the script finds itself in.
pub record Setup : Type 0 where
  pub config : Config
  pub globals : Globals
  pub xlen : ℕ
  pub ilen : ℕ
  pub compr : Bool
  pub custom_csrs : List CustomCsr
  pub basedir : Text
  pub corename : Text

-- `hargs["engine"]` and `hargs["ilang_file"]`
unfoldable pub engine_of : Globals → Text
engine_of g =
    if eq_codes g.solver (codes "bmc3")
    then codes "abc bmc3"
    else if eq_codes g.solver (codes "btormc")
    then codes "btor btormc"
    else codes "smtbmc " ++ ((if g.dumpsmt2 then codes "--dumpsmt2 " else []) ++ g.solver)

unfoldable pub ilang_file_of : Text → Globals → Text
ilang_file_of corename g =
    if eq_codes g.solver (codes "bmc3")
    then corename ++ codes "-gates.il"
    else corename ++ codes "-hier.il"

-- `hargs["cover"]`, where there is such a section.
abbrev pub cover_harg : Option Text → Hargs
cover_harg none = []
cover_harg (some body) = (codes "cover", body) ∷ []

unfoldable pub initial_hargs : Setup → Hargs
initial_hargs s =
    (codes "basedir", s.basedir)
    ∷ (codes "core", s.corename)
    ∷ (codes "nret", decimal s.globals.nret)
    ∷ (codes "xlen", decimal s.xlen)
    ∷ (codes "ilen", decimal s.ilen)
    ∷ (codes "buslen", decimal s.globals.buslen)
    ∷ (codes "nbus", decimal s.globals.nbus)
    ∷ (codes "append", codes "0")
    ∷ (codes "mode", s.globals.mode)
    ∷ (cover_harg (find_section (codes "cover") s.config.sections)
        ++ ((codes "engine", engine_of s.globals)
            ∷ (codes "ilang_file", ilang_file_of s.corename s.globals)
            ∷ []))

-- `hargs[key] = value`, one after another.
abbrev pub set_hargs : Hargs → Hargs → Hargs
set_hargs [] hargs = hargs
set_hargs ((key, value) ∷ kvs) hargs = set_hargs kvs (set_key key value hargs)
