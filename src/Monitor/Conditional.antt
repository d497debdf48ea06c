-- ===== src/Monitor/Conditional.antt =====
-- What print_rewrite_file makes of well-nested conditionals.
use riscv_formal.Prelude.{
  ◌≡◌, refl, sym, ap, ◌∙◌, Bool, true, false, not, ◌||◌, List, [], ◌∷◌, ◌++◌, Option, none, some,
  if◌then◌else◌, ==_iff,
}
use riscv_formal.Isa.Database.{eq_codes}
use riscv_formal.Monitor.Rewrite.{
  Text, Directive, ifdef, ifndef, text, else_branch, endif, Flags, has_flag, flip_flag, delete_flag,
  same, excluded, rewrite, map_option,
}

-- A text with its conditionals: the flag must have the given value for the first branch.
pub data Source : Type 0 where
  done : Source
  line : Text → Source → Source
  cond : Bool → Text → Source → Source → Source
  cond_else : Bool → Text → Source → Source → Source → Source

abbrev pub opening : Bool → Text → Directive
opening true n = ifdef n
opening false n = ifndef n

-- Its lines, before those that follow it.
abbrev pub render : Source → List Directive → List Directive
render done ds = ds
render (line l s) ds = text l ∷ render s ds
render (cond val n body s) ds = opening val n ∷ render body (endif ∷ render s ds)
render (cond_else val n body other s) ds =
    opening val n ∷ render body (else_branch ∷ render other (endif ∷ render s ds))

-- The lines that a preprocessor keeps.
abbrev pub kept : (Text → Bool) → Source → List Text
kept expected done = []
kept expected (line l s) = l ∷ kept expected s
kept expected (cond val n body s) =
    (if same (expected n) val then kept expected body else []) ++ kept expected s
kept expected (cond_else val n body other s) =
    (if same (expected n) val then kept expected body else kept expected other) ++ kept expected s

-- No conditional stands inside another one on the same flag, or on one of the flags given.
abbrev pub Scoped : Flags → Source → Type 0
Scoped flags done = Unit
Scoped flags (line l s) = Scoped flags s
Scoped flags (cond val n body s) =
    (has_flag n flags ≡ false) × Scoped ((n, val) ∷ flags) body × Scoped flags s
Scoped flags (cond_else val n body other s) =
    (has_flag n flags ≡ false)
    × Scoped ((n, val) ∷ flags) body
    × Scoped ((n, not val) ∷ flags) other
    × Scoped flags s

abbrev pub every : (Text → Text) → List Text → List Text
every f [] = []
every f (x ∷ xs) = f x ∷ every f xs

pub eq_codes_refl : (n : Text) → eq_codes n n ≡ true
unfolding eq_codes
eq_codes_refl [] = refl
eq_codes_refl (c ∷ n) = rw ((==_iff c c).1 refl, eq_codes_refl n) refl

every-append :
    (f : Text → Text) (xs ys zs : List Text)
    → every f xs ++ (every f ys ++ zs) ≡ every f (xs ++ ys) ++ zs
every-append f [] ys zs = refl
every-append f (x ∷ xs) ys zs = ap (λ l. f x ∷ l) (every-append f xs ys zs)

-- Puts lines, with their names replaced, before an output, unless they are excluded.
abbrev put : (Text → Text) → Bool → List Text → Option (List Text) → Option (List Text)
put f e xs o = map_option (λ out. every f (if e then [] else xs) ++ out) o

put-nil : (f : Text → Text) (e : Bool) (o : Option (List Text)) → o ≡ put f e [] o
put-nil f true none = refl
put-nil f false none = refl
put-nil f true (some o) = refl
put-nil f false (some o) = refl

put-line :
    (f : Text → Text) (e : Bool) (l : Text) (xs : List Text) (o : Option (List Text))
    → (if e then put f e xs o else map_option (λ out. f l ∷ out) (put f e xs o))
      ≡ put f e (l ∷ xs) o
put-line f true l xs none = refl
put-line f false l xs none = refl
put-line f true l xs (some o) = refl
put-line f false l xs (some o) = refl

put-cond :
    (f : Text → Text) (e t : Bool) (xs ys : List Text) (o : Option (List Text))
    → put f (not t || e) xs (put f e ys o) ≡ put f e ((if t then xs else []) ++ ys) o
put-cond f true true xs ys none = refl
put-cond f true false xs ys none = refl
put-cond f false true xs ys none = refl
put-cond f false false xs ys none = refl
put-cond f true true xs ys (some o) = refl
put-cond f true false xs ys (some o) = refl
put-cond f false true xs ys (some o) = ap some (every-append f xs ys o)
put-cond f false false xs ys (some o) = refl

same-not : (a b : Bool) → same a (not b) ≡ not (same a b)
same-not true b = refl
same-not false b = refl

put-cond_else :
    (f : Text → Text) (e t : Bool) (xs ys zs : List Text) (o : Option (List Text))
    → put f (not t || e) xs (put f (not (not t) || e) ys (put f e zs o))
      ≡ put f e ((if t then xs else ys) ++ zs) o
put-cond_else f e true xs ys zs o =
    ap (put f e xs) (put-cond f e false ys zs o) ∙ put-cond f e true xs zs o
put-cond_else f e false xs ys zs o =
    sym (put-nil_excluded (put f e ys (put f e zs o))) ∙ put-cond f e true ys zs o
  where
    put-nil_excluded : (o : Option (List Text)) → o ≡ put f true xs o
    put-nil_excluded none = refl
    put-nil_excluded (some o) = refl

-- What the printing of a text adds to the output of what follows it.
abbrev shown :
    (Text → Bool) → (Text → Text) → Flags → Source → Option (List Text) → Option (List Text)
shown expected names flags s rest = put names (excluded expected flags) (kept expected s) rest

rewrite-open :
    (expected : Text → Bool) (names : Text → Text) (stack : List Text) (flags : Flags) (val : Bool)
    (n : Text) (ds : List Directive)
    → has_flag n flags ≡ false
    → rewrite expected names stack flags (opening val n ∷ ds)
      ≡ rewrite expected names (n ∷ stack) ((n, val) ∷ flags) ds
unfolding rewrite
rewrite-open expected names stack flags true n ds h = rw h refl
rewrite-open expected names stack flags false n ds h = rw h refl

rewrite-else :
    (expected : Text → Bool) (names : Text → Text) (stack : List Text) (flags : Flags) (val : Bool)
    (n : Text) (ds : List Directive)
    → rewrite expected names (n ∷ stack) ((n, val) ∷ flags) (else_branch ∷ ds)
      ≡ rewrite expected names (n ∷ stack) ((n, not val) ∷ flags) ds
unfolding rewrite flip_flag
rewrite-else expected names stack flags val n ds = rw (eq_codes_refl n) refl

rewrite-end :
    (expected : Text → Bool) (names : Text → Text) (stack : List Text) (flags : Flags) (val : Bool)
    (n : Text) (ds : List Directive)
    → rewrite expected names (n ∷ stack) ((n, val) ∷ flags) (endif ∷ ds)
      ≡ rewrite expected names stack flags ds
unfolding rewrite delete_flag
rewrite-end expected names stack flags val n ds = rw (eq_codes_refl n) refl

rewrite-render :
    (expected : Text → Bool) (names : Text → Text) (stack : List Text) (flags : Flags) (s : Source)
    (ds : List Directive)
    → Scoped flags s
    → rewrite expected names stack flags (render s ds)
      ≡ shown expected names flags s (rewrite expected names stack flags ds)
unfolding excluded rewrite
rewrite-render expected names stack flags done ds h =
    put-nil names (excluded expected flags) (rewrite expected names stack flags ds)
rewrite-render expected names stack flags (line l s) ds h =
    rw (rewrite-render expected names stack flags s ds h) (
      put-line names (excluded expected flags) l (kept expected s)
        (rewrite expected names stack flags ds))
rewrite-render expected names stack flags (cond val n body s) ds (free, inner, h) =
    let after = endif ∷ render s ds in
    rewrite-open expected names stack flags val n (render body after) free
    ∙ rewrite-render expected names (n ∷ stack) ((n, val) ∷ flags) body after inner
    ∙ ap (shown expected names ((n, val) ∷ flags) body) (
        rewrite-end expected names stack flags val n (render s ds)
        ∙ rewrite-render expected names stack flags s ds h)
    ∙ put-cond names (excluded expected flags) (same (expected n) val) (kept expected body)
        (kept expected s) (rewrite expected names stack flags ds)
rewrite-render expected names stack flags (cond_else val n body other s) ds
      (free, inner, outer, h) =
    let after = endif ∷ render s ds in
    let between = else_branch ∷ render other after in
    rewrite-open expected names stack flags val n (render body between) free
    ∙ rewrite-render expected names (n ∷ stack) ((n, val) ∷ flags) body between inner
    ∙ ap (shown expected names ((n, val) ∷ flags) body) (
        rewrite-else expected names stack flags val n (render other after)
        ∙ rewrite-render expected names (n ∷ stack) ((n, not val) ∷ flags) other after outer
        ∙ ap (shown expected names ((n, not val) ∷ flags) other) (
            rewrite-end expected names stack flags (not val) n (render s ds)
            ∙ rewrite-render expected names stack flags s ds h))
    ∙ rw (same-not (expected n) val) (
        put-cond_else names (excluded expected flags) (same (expected n) val) (kept expected body)
          (kept expected other) (kept expected s) (rewrite expected names stack flags ds))

all-kept : (f : Text → Text) (xs : List Text) → every f xs ++ [] ≡ every f xs
all-kept f [] = refl
all-kept f (x ∷ xs) = ap (λ l. f x ∷ l) (all-kept f xs)

-- For every choice of flags and names: from well-nested conditionals, none of which stands inside
-- another one on the same flag, the loop prints the lines that a preprocessor keeps, in their order
-- and each with its names replaced, and no assertion fails.
pub rewrite-kept :
    (expected : Text → Bool) (names : Text → Text) (s : Source)
    → Scoped [] s
    → rewrite expected names [] [] (render s []) ≡ some (every names (kept expected s))
unfolding rewrite excluded
rewrite-kept expected names s h =
    rewrite-render expected names [] [] s [] h ∙ ap some (all-kept names (kept expected s))
