-- ===== src/Macros/Print.antt =====
-- checks/rvfi_macros.py, print_macros: the texts that are printed one after another. `none` is an
-- exception.
use riscv_formal.Prelude.{
  ◌+◌, Bool, true, false, List, [], ◌∷◌, ◌++◌, Option, none, some, if◌then◌else◌, map,
}
use riscv_formal.Isa.Database.{codes}
use riscv_formal.Monitor.Rewrite.{Text}
use riscv_formal.Checks.Parts.{all_parts, append_option}
use riscv_formal.Macros.Group.{
  GroupFields, Group, group, Groups, fields, has_conn32, of_groups, width_columns, name_columns,
  right, left, bitrange, channel_idx, is_shouted, macro_name, macro_name_nosep, given, commas,
  high_name,
}

-- `rvfi_{name:<{self._cn}}`
abbrev pub rvfi_name : GroupFields → Text → Text
rvfi_name f name = codes "rvfi_" ++ left (name_columns f) name

-- A text for each signal, of its width and its name.
abbrev pub of_signals : GroupFields → (Text → Text → Text) → List Text
of_signals f text = map (λ s. text (s.0) (s.1)) f.signals

-- ``"`" + group.macro_name(s)`` for the appended groups.
abbrev pub appended : Groups → Text → List Text
appended gs s = of_groups (λ g. true) (λ g. 96 ∷ macro_name (fields g) s []) gs

abbrev pub with_channels : Groups → Text → List Text
with_channels gs s =
    of_groups (λ g. given (fields g).channels) (λ g. 96 ∷ macro_name (fields g) s []) gs

abbrev pub define_of : Text → Text
define_of name = codes "`define " ++ name

-- The definitions that every group has.
unfoldable pub port_defines : GroupFields → Groups → List Text
port_defines f gs =
    let defined = λ (s : Text). define_of (macro_name_nosep f s) in
    let ports = λ (direction : Text) (no_channel : Bool).
      of_signals f
        (λ width name. direction ++ bitrange f no_channel width ++ (32 ∷ rvfi_name f name)) in
    commas f (define_of (macro_name f (codes "wires") []) ∷ []) (
      of_signals f (λ width name.
        codes "(* keep *) wire " ++ bitrange f false width ++ (32 ∷ rvfi_name f name) ++ codes ";")
      ++ appended gs (codes "wires"))
    ∷ commas f (defined (codes "outputs") ∷ ports (codes "output ") false)
        (appended gs (codes "outputs"))
    ∷ commas f (defined (codes "channel_outputs") ∷ ports (codes "output ") true)
        (appended gs (codes "channel_outputs"))
    ∷ commas f (defined (codes "inputs") ∷ ports (codes "input ") false)
        (appended gs (codes "inputs"))
    ∷ commas f (defined (codes "channel_inputs") ∷ ports (codes "input ") true)
        (appended gs (codes "channel_inputs"))
    ∷ commas f
        (defined (codes "conn")
          ∷ of_signals f (λ width name.
            codes "." ++ rvfi_name f name ++ codes " (" ++ rvfi_name f name ++ codes ")"))
        (appended gs (codes "conn"))
    ∷ commas f
        (defined (codes "channel_conn")
          ∷ of_signals f (λ width name.
            codes "."
            ++ rvfi_name f name
            ++ codes " ("
            ++ rvfi_name f name
            ++ (32 ∷ channel_idx f width)
            ++ codes ")"))
        (appended gs (codes "channel_conn"))
    ∷ []

-- `.rvfi_{high_name(name):<{cn}} (rvfi_{name:<{_cn}}[63:32])` for each signal.
unfoldable pub high_ports : GroupFields → List (Text × Text) → Option (List Text)
high_ports f [] = some []
high_ports f ((width, name) ∷ signals) = elim (high_name name) [
  | none ↦ none
  | some high ↦
      append_option
        (some (
          (codes ".rvfi_"
            ++ left (name_columns f + 1) high
            ++ codes " ("
            ++ rvfi_name f name
            ++ codes "[63:32])")
          ∷ []))
        (high_ports f signals)
]

-- The macro for a core of 32 bits.
unfoldable pub conn32_define : GroupFields → Groups → Option (List Text)
conn32_define f gs =
    let first = define_of (macro_name_nosep f (codes "conn32")) in
    let low = of_signals f (λ width name.
      codes ".rvfi_"
      ++ left (name_columns f + 1) name
      ++ codes " ("
      ++ rvfi_name f name
      ++ codes "[31: 0])") in
    let plain = of_signals f (λ width name.
      codes "." ++ rvfi_name f name ++ codes " (" ++ rvfi_name f name ++ codes ")") in
    let of_conn =
      of_groups (λ g. true)
        (λ g. 96 ∷ macro_name (fields g) (if has_conn32 g then codes "conn32" else codes "conn") [])
        gs in
    let split_ports : Option (List Text) = elim (high_ports f f.signals) [
      | none ↦ none
      | some high ↦ some (commas f (first ∷ (low ++ high)) (appended gs (codes "conn32")) ∷ [])
    ] in
    let whole_ports : Option (List Text) = some (commas f (first ∷ plain) of_conn ∷ []) in
    if f.csr_conn32 then split_ports else (if has_conn32 (group f gs) then whole_ports else some [])

-- `if self.channels`
unfoldable pub channel_defines : GroupFields → Groups → List Text
channel_defines f gs = elim f.channels [
  | none ↦ []
  | some channels ↦
      if given (some channels)
      then commas f (define_of (macro_name f (codes "channel") []) ∷ []) (
          of_signals f (λ width name.
            codes "wire "
            ++ bitrange f true width
            ++ (32 ∷ left (name_columns f) name)
            ++ codes " = "
            ++ rvfi_name f name
            ++ (32 ∷ channel_idx f width)
            ++ codes ";")
          ++ with_channels gs (codes "channel"))
        ∷ commas f (define_of (macro_name f (codes "signals") []) ∷ []) (
            of_signals f (λ width name.
              codes "`RISCV_FORMAL_CHANNEL_SIGNAL("
              ++ channels
              ++ codes ", "
              ++ right (width_columns f) width
              ++ codes ", "
              ++ left (name_columns f) name
              ++ codes ")")
            ++ with_channels gs (codes "signals"))
        ∷ []
      else []
]

-- `if self.nosep`
unfoldable pub nosep_defines : Group → List Text
nosep_defines g =
    let f = fields g in
    let line = λ (s sep : Text).
      define_of (macro_name f s []) ++ sep ++ codes ", `" ++ macro_name_nosep f s in
    if f.nosep
    then (line (codes "outputs") (codes " ")
        ∷ line (codes "inputs") (codes " ")
        ∷ line (codes "conn") (codes "  ")
        ∷ line (codes "channel_outputs") (codes " ")
        ∷ line (codes "channel_inputs") (codes " ")
        ∷ line (codes "channel_conn") (codes "  ")
        ∷ [])
      ++ (if has_conn32 g then define_of (macro_name f (codes "conn32") []) ∷ [] else [])
    else []

-- The branch where the condition is not defined.
unfoldable pub else_lines : Group → List Text
else_lines g =
    let f = fields g in
    let line = λ (s : Text). define_of (macro_name f s []) in
    if given f.condition
    then (codes "`else"
        ∷ line (codes "wires")
        ∷ line (codes "outputs")
        ∷ line (codes "inputs")
        ∷ line (codes "conn")
        ∷ [])
      ++ (if has_conn32 g then line (codes "conn32") ∷ [] else [])
      ++ (if given f.channels then line (codes "channel") ∷ [] else [])
      ++ (codes "`endif" ∷ [])
    else []

-- The macro that names a channel.
unfoldable pub channel_macro : GroupFields → List Text
channel_macro f =
    if is_shouted f
    then []
      ∷ (codes "`define " ++ f.name ++ codes "_CHANNEL(_name, _idx) \\")
      ∷ codes "generate if(1) begin:_name \\"
      ∷ (codes "  `" ++ f.name ++ codes "_GETCHANNEL(_idx) \\")
      ∷ codes "end endgenerate"
      ∷ []
    else []

abbrev pub ifdef_lines : Option Text → List Text
ifdef_lines none = []
ifdef_lines (some []) = []
ifdef_lines (some (c ∷ cs)) = (codes "`ifdef " ++ (c ∷ cs)) ∷ []

unfoldable pub print_macros : Group → Option (List Text)
print_macros (group f gs) = all_parts (
    some (ifdef_lines f.condition ++ port_defines f gs)
    ∷ conn32_define f gs
    ∷ some (channel_defines f gs)
    ∷ some (nosep_defines (group f gs))
    ∷ some (else_lines (group f gs))
    ∷ some (channel_macro f)
    ∷ [])
