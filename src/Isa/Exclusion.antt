-- ===== src/Isa/Exclusion.antt =====
-- Patterns of instruction words that exclude one another.
use riscv_formal.Prelude.{ℕ, ◌≡◌, true, List, [], ◌∷◌, any, arith}
use riscv_formal.Verilog.Slices.{bits-bits}
use riscv_formal.Isa.Key.{FieldTest, eq, ne, holds, matches, excludes, disjoint}

excludes_lem :
    (k l : FieldTest) (x : ℕ) → excludes k l ≡ true → holds x k ≡ true → holds x l ≡ true → ⊥
unfolding excludes holds
excludes_lem (eq hi lo v) (eq hi' lo' v') x e p q = ground (arith, bits-bits x hi lo hi' lo')
excludes_lem (eq hi lo v) (ne hi' lo' v') x e p q = ground (arith, bits-bits x hi lo hi' lo')
excludes_lem (ne hi lo v) t x e p q = cc

any-excludes :
    (k : FieldTest) (ls : List FieldTest) (x : ℕ)
    → any (excludes k) ls ≡ true
    → holds x k ≡ true
    → matches ls x ≡ true
    → ⊥
any-excludes k [] x e p q = cc
any-excludes k (l ∷ ls) x e p q = ground (arith, excludes_lem k l x, any-excludes k ls x)

any-any-excludes :
    (ks ls : List FieldTest) (x : ℕ)
    → any (λ k. any (λ l. excludes k l) ls) ks ≡ true
    → matches ks x ≡ true
    → matches ls x ≡ true
    → ⊥
any-any-excludes [] ls x e p q = cc
any-any-excludes (k ∷ ks) ls x e p q = ground (arith, any-excludes k ls x, any-any-excludes ks ls x)

pub disjoint_lem :
    (ks ls : List FieldTest) (x : ℕ)
    → disjoint ks ls ≡ true
    → matches ks x ≡ true
    → matches ls x ≡ true
    → ⊥
unfolding disjoint
disjoint_lem ks ls x e p q = ground (arith, any-any-excludes ks ls x, any-any-excludes ls ks x)
