-- ===== src/Checks/Known.antt =====
-- The keys of `hargs` when check_insn writes a file.
use riscv_formal.Prelude.{
  or_assoc, ℕ, ◌≡◌, refl, sym, ◌∙◌, inl, inr, Bool, true, false, ◌||◌, List, [], ◌∷◌, ◌++◌, Option,
  none, some, map, Bool-cases,
}
use riscv_formal.Isa.Database.{codes, eq_codes}
use riscv_formal.Monitor.Rewrite.{Text}
use riscv_formal.Checks.Config.{find_section}
use riscv_formal.Checks.Select.{InsnJob, decimal}
use riscv_formal.Checks.Template.{Hargs}
use riscv_formal.Checks.Hargs.{Setup, engine_of, ilang_file_of, cover_harg, initial_hargs}
use riscv_formal.Checks.InsnFile.{insn_hargs}
use riscv_formal.Checks.Sets.{has_file}
use riscv_formal.Checks.Keys.{KeysOf, has_file-set_hargs}

abbrev pub keys_only : List Text → Hargs
keys_only = map (λ k. (k, []))

-- Whether the key is one of the first list, or else.
abbrev ors : Text → List Text → Bool → Bool
ors k [] b = b
ors k (n ∷ ns) b = eq_codes k n || ors k ns b

ors-keeps :
    (k : Text) (ns : List Text) (b c : Bool)
    → (b ≡ true → c ≡ true)
    → ors k ns b ≡ true
    → ors k ns c ≡ true
ors-keeps k [] b c f h = f h
ors-keeps k (n ∷ ns) b c f h = elim (Bool-cases (eq_codes k n)) [
  | inl same ↦ rw same refl
  | inr other ↦ rw other (ors-keeps k ns b c f (rw other at h))
]

ors-split : (k : Text) (ns : List Text) (b : Bool) → ors k ns b ≡ (ors k ns false || b)
ors-split k [] b = refl
ors-split k (n ∷ ns) b = rw (ors-split k ns b) (sym (or_assoc (eq_codes k n) (ors k ns false) b))

-- The keys of `hargs` before the first file, in their order.
abbrev early_keys : List Text
early_keys =
    codes "basedir"
    ∷ codes "core"
    ∷ codes "nret"
    ∷ codes "xlen"
    ∷ codes "ilen"
    ∷ codes "buslen"
    ∷ codes "nbus"
    ∷ codes "append"
    ∷ codes "mode"
    ∷ []

abbrev first_keys : List Text
first_keys = early_keys ++ (codes "engine" ∷ codes "ilang_file" ∷ [])

has_file-cover_harg :
    (k : Text) (o : Option Text) (hargs : Hargs)
    → has_file k hargs ≡ true
    → has_file k (cover_harg o ++ hargs) ≡ true
has_file-cover_harg k none hargs h = h
has_file-cover_harg k (some body) hargs h = rw h (or_true (eq_codes k (codes "cover")))
  where
    or_true : (a : Bool) → (a || true) ≡ true
    or_true true = refl
    or_true false = refl

first_keys-KeysOf : (s : Setup) → KeysOf (keys_only first_keys) (initial_hargs s)
unfolding initial_hargs
first_keys-KeysOf s k h =
    ors-keeps k early_keys (has_file k last) (has_file k (cover_harg cover ++ last))
      (has_file-cover_harg k cover last) h
  where
    cover : Option Text
    cover = find_section (codes "cover") s.config.sections

    last : Hargs
    last =
        (codes "engine", engine_of s.globals)
        ∷ (codes "ilang_file", ilang_file_of s.corename s.globals)
        ∷ []

-- The keys that check_insn sets.
abbrev insn_keys : List Text
insn_keys =
    codes "insn"
    ∷ codes "checkch"
    ∷ codes "channel"
    ∷ codes "depth"
    ∷ codes "depth_plus"
    ∷ codes "skip"
    ∷ []

abbrev pub all_insn_keys : Hargs
all_insn_keys = keys_only (insn_keys ++ first_keys)

pub all_insn_keys-KeysOf :
    (s : Setup) (text : Text) (chanidx : ℕ) (job : InsnJob) (hargs : Hargs)
    → KeysOf (initial_hargs s) hargs
    → KeysOf all_insn_keys (insn_hargs text chanidx job hargs)
unfolding insn_hargs
all_insn_keys-KeysOf s text chanidx job hargs keys k h =
    has_file-set_hargs k
      ((codes "insn", text)
        ∷ (codes "checkch", job.checkch)
        ∷ (codes "channel", decimal chanidx)
        ∷ (codes "depth", decimal job.depth)
        ∷ (codes "depth_plus", decimal job.depth_plus)
        ∷ (codes "skip", decimal job.skip)
        ∷ [])
      hargs
    ∙ sym (ors-split k insn_keys (has_file k hargs))
    ∙ ors-keeps k insn_keys (has_file k (keys_only first_keys)) (has_file k hargs)
        (λ first. keys k (first_keys-KeysOf s k first)) h
