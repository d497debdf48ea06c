-- ===== src/Macros/Group.antt =====
-- checks/rvfi_macros.py, the class Group: its fields and the names and ranges made from them.
use riscv_formal.Prelude.{
  ℕ, zero, suc, ◌-◌, Bool, true, false, not, ◌&&◌, ◌||◌, ltb, List, [], ◌∷◌, ◌++◌, Option, none,
  some, if◌then◌else◌, length, map,
}
use riscv_formal.Isa.Database.{codes, eq_codes}
use riscv_formal.Monitor.Rewrite.{Text}
use riscv_formal.Checks.Strings.{strip, split_at}
use riscv_formal.Checks.Settings.{upper}

-- The fields but for `append`; a signal is its width and its name.
pub record GroupFields : Type 0 where
  pub name : Text
  pub signals : List (Text × Text)
  pub channels : Option Text
  pub condition : Option Text
  pub nosep : Bool
  pub csr_conn32 : Bool

mutual
  pub data Group : Type 0 where
    group : GroupFields → Groups → Group

  pub data Groups : Type 0 where
    no_groups : Groups
    add_group : Group → Groups → Groups

unfoldable pub fields : Group → GroupFields
fields (group f append) = f

-- `_has_conn32`
unfoldable mutual
  pub has_conn32 : Group → Bool
  has_conn32 (group f append) = f.csr_conn32 || some_conn32 append

  pub some_conn32 : Groups → Bool
  some_conn32 no_groups = false
  some_conn32 (add_group g gs) = has_conn32 g || some_conn32 gs

-- `[f(group) for group in append if test(group)]`
unfoldable pub of_groups : (Group → Bool) → (Group → Text) → Groups → List Text
of_groups test f no_groups = []
of_groups test f (add_group g gs) =
    let rest = of_groups test f gs in if test g then f g ∷ rest else rest

-- `max(lengths, default=0)`
unfoldable pub longest : List Text → ℕ
longest [] = 0
longest (t ∷ ts) = let rest = longest ts in if ltb rest (length t) then length t else rest

-- `_cw` and `_cn`
unfoldable pub width_columns : GroupFields → ℕ
width_columns f = longest (map (λ s. s.0) f.signals)

unfoldable pub name_columns : GroupFields → ℕ
name_columns f = longest (map (λ s. s.1) f.signals)

-- `{t:>{n}}` and `{t:<{n}}`
abbrev pub spaces : ℕ → Text
spaces zero = []
spaces (suc n) = 32 ∷ spaces n

abbrev pub right : ℕ → Text → Text
right n t = spaces (n - length t) ++ t

abbrev pub left : ℕ → Text → Text
left n t = t ++ spaces (n - length t)

-- `str(width).strip() == '1'`
abbrev pub is_one : Text → Bool
is_one width = eq_codes (strip width) (codes "1")

unfoldable pub bitrange : GroupFields → Bool → Text → Text
bitrange f no_channel width = elim (if no_channel then none else f.channels) [
  | none ↦
      if is_one width
      then codes "[" ++ spaces (width_columns f) ++ codes "   0 : 0]"
      else codes "[" ++ right (width_columns f) width ++ codes " - 1 : 0]"
  | some channels ↦
      if is_one width
      then codes "[" ++ channels ++ codes "   " ++ spaces (width_columns f) ++ codes " - 1 : 0]"
      else codes "["
        ++ channels
        ++ codes " * "
        ++ right (width_columns f) width
        ++ codes " - 1 : 0]"
]

unfoldable pub channel_idx : GroupFields → Text → Text
channel_idx f width =
    if is_one width
    then codes "[ _idx   "
      ++ spaces (width_columns f)
      ++ codes "  +: "
      ++ right (width_columns f) width
      ++ codes "]"
    else codes "[(_idx)*("
      ++ right (width_columns f) width
      ++ codes ") +: "
      ++ right (width_columns f) width
      ++ codes "]"

-- `self.name.upper() == self.name`
abbrev pub is_shouted : GroupFields → Bool
is_shouted f = eq_codes (map upper f.name) f.name

unfoldable pub macro_name : GroupFields → Text → Text → Text
macro_name f s extra =
    if is_shouted f
    then (if eq_codes s (codes "channel")
        then f.name ++ codes "_GETCHANNEL" ++ map upper extra ++ codes "(_idx)"
        else if eq_codes s (codes "channel_conn")
        then f.name ++ codes "_CHANNEL_CONN" ++ map upper extra ++ codes "(_idx)"
        else f.name ++ codes "_" ++ map upper s ++ map upper extra)
    else (if eq_codes s (codes "channel")
        then f.name ++ codes "_channel" ++ extra ++ codes "(_idx)"
        else if eq_codes s (codes "channel_conn")
        then f.name ++ codes "_channel_conn" ++ extra ++ codes "(_idx)"
        else f.name ++ codes "_" ++ s ++ extra)

unfoldable pub macro_name_nosep : GroupFields → Text → Text
macro_name_nosep f s = macro_name f s (if f.nosep then codes "_nosep" else [])

-- `sep.join(parts)`
unfoldable pub join : Text → List Text → Text
join sep [] = []
join sep (p ∷ []) = p
join sep (p ∷ q ∷ parts) = p ++ sep ++ join sep (q ∷ parts)

-- Whether an optional text is true.
abbrev pub given : Option Text → Bool
given none = false
given (some []) = false
given (some (c ∷ cs)) = true

unfoldable pub commas : GroupFields → List Text → List Text → Text
commas f parts suffix =
    let line_end = codes " \\\n  " in
    let comma = codes ", \\\n  " in
    if (given f.condition && not f.nosep) || ltb (length parts) 2
    then join line_end (join comma parts ∷ suffix)
    else elim parts [ [] ↦ [] | first ∷ rest ↦ join line_end (first ∷ join comma rest ∷ suffix) ]

-- `parts[-2] += 'h'`, an IndexError where there is one part.
unfoldable pub mark_high : List Text → Option (List Text)
mark_high [] = none
mark_high (p ∷ []) = none
mark_high (p ∷ q ∷ []) = some ((p ++ codes "h") ∷ q ∷ [])
mark_high (p ∷ q ∷ r ∷ parts) = elim (mark_high (q ∷ r ∷ parts)) [
  | none ↦ none
  | some marked ↦ some (p ∷ marked)
]

unfoldable pub high_name : Text → Option Text
high_name name = elim (mark_high (split_at 95 name)) [
  | none ↦ none
  | some parts ↦ some (join (codes "_") parts)
]
