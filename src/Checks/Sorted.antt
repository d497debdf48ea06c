-- ===== src/Checks/Sorted.antt =====
-- Sorting by a key that no two elements share does not depend on the order of the list.
use mathlib.Core.List.{Permᴰ}
use mathlib.Core.List.Permᴰ
use mathlib.Core.Bool.{false≢true}
use riscv_formal.Prelude.{
  ℕ, ◌≡◌, refl, sym, ap, ◌∙◌, ◌⊎◌, inl, inr, true, false, ltb, List, [], ◌∷◌, arith, Bool-cases,
}
use riscv_formal.Monitor.Rewrite.{Text}
use riscv_formal.Checks.Sort.{text_leb, insert_by, sort_by}

-- The three ways in which two characters compare.
character-cases :
    (x y : ℕ)
    → ((ltb x y ≡ true) × (ltb y x ≡ false))
      ⊎ (((ltb x y ≡ false) × (ltb y x ≡ true)) ⊎ ((ltb x y ≡ false) × (ltb y x ≡ false) × (x ≡ y)))
character-cases x y = elim (Bool-cases (ltb x y)) [
  | inl lt ↦ inl (lt, ground arith)
  | inr ge ↦ elim (Bool-cases (ltb y x)) [
    | inl gt ↦ inr (inl (ge, gt))
    | inr le ↦ inr (inr (ge, le, ground arith))
  ]
]

text_leb_total : (a b : Text) → (text_leb a b ≡ true) ⊎ (text_leb b a ≡ true)
unfolding text_leb
text_leb_total [] b = inl refl
text_leb_total (x ∷ a) [] = inr refl
text_leb_total (x ∷ a) (y ∷ b) = elim (character-cases x y) [
  | inl lt ↦ inl (rw (lt.0) refl)
  | inr ge ↦ elim ge [
    | inl gt ↦ inr (rw (gt.1) refl)
    | inr eq ↦ rw (eq.0, eq.1) (text_leb_total a b)
  ]
]

text_leb_antisym : (a b : Text) → text_leb a b ≡ true → text_leb b a ≡ true → a ≡ b
unfolding text_leb
text_leb_antisym [] [] h k = refl
text_leb_antisym [] (y ∷ b) h k = cc
text_leb_antisym (x ∷ a) [] h k = cc
text_leb_antisym (x ∷ a) (y ∷ b) h k = elim (character-cases x y) [
  | inl lt ↦ absurd (false≢true (simp (lt.0, lt.1) at k))
  | inr ge ↦ elim ge [
    | inl gt ↦ absurd (false≢true (simp (gt.0, gt.1) at h))
    | inr eq ↦ rw (eq.2) (
        ap (λ (t : Text). y ∷ t)
          (text_leb_antisym a b (simp (eq.0, eq.1) at h) (simp (eq.0, eq.1) at k)))
  ]
]

ltb_trans : (x y z : ℕ) → ltb x y ≡ true → ltb y z ≡ true → ltb x z ≡ true
ltb_trans x y z h k = ground arith

text_leb_trans : (a b c : Text) → text_leb a b ≡ true → text_leb b c ≡ true → text_leb a c ≡ true
unfolding text_leb
text_leb_trans [] b c h k = refl
text_leb_trans (x ∷ a) [] c h k = cc
text_leb_trans (x ∷ a) (y ∷ b) [] h k = cc
text_leb_trans (x ∷ a) (y ∷ b) (z ∷ c) h k = elim (character-cases x y) [
  | inr (inl gt) ↦ absurd (false≢true (simp (gt.0, gt.1) at h))
  | inl lt ↦ elim (character-cases y z) [
    | inr (inl gt) ↦ absurd (false≢true (simp (gt.0, gt.1) at k))
    | inl lt2 ↦ simp (ltb_trans x y z lt.0 lt2.0) refl
    | inr (inr eq) ↦ rw (sym eq.2) (simp lt.0 refl)
  ]
  | inr (inr eq) ↦ elim (character-cases y z) [
    | inr (inl gt) ↦ absurd (false≢true (simp (gt.0, gt.1) at k))
    | inl lt2 ↦ rw (eq.2) (simp lt2.0 refl)
    | inr (inr eq2) ↦ rw (eq.2) (
        simp (eq2.0, eq2.1)
          (text_leb_trans a b c (simp (eq.0, eq.1) at h) (simp (eq2.0, eq2.1) at k)))
  ]
]

module _ {ℓ} {A : Type ℓ} (key : A → Text) where
  insert_by-below :
      (x y : A) (l : List A)
      → text_leb (key x) (key y) ≡ true
      → text_leb (key y) (key x) ≡ false
      → insert_by key x (insert_by key y l) ≡ insert_by key y (insert_by key x l)
  unfolding insert_by
  insert_by-below x y [] h k = simp (h, k) refl
  insert_by-below x y (z ∷ l) h k = elim (Bool-cases (text_leb (key x) (key z))) [
    | inl p ↦ elim (Bool-cases (text_leb (key y) (key z))) [
      | inl q ↦ simp (h, k, p, q) refl
      | inr q ↦ simp (h, k, p, q) refl
    ]
    | inr p ↦ elim (Bool-cases (text_leb (key y) (key z))) [
      | inl q ↦ absurd (false≢true (sym p ∙ text_leb_trans (key x) (key y) (key z) h q))
      | inr q ↦ simp (p, q) (ap (λ (t : List A). z ∷ t) (insert_by-below x y l h k))
    ]
  ]

  insert_by-insert_by :
      ((x y : A) → key x ≡ key y → x ≡ y)
      → (x y : A) (l : List A)
      → insert_by key x (insert_by key y l) ≡ insert_by key y (insert_by key x l)
  insert_by-insert_by inj x y l = elim (Bool-cases (text_leb (key x) (key y))) [
    | inl h ↦ elim (Bool-cases (text_leb (key y) (key x))) [
      | inl k ↦ rw (inj x y (text_leb_antisym (key x) (key y) h k)) refl
      | inr k ↦ insert_by-below x y l h k
    ]
    | inr h ↦ elim (text_leb_total (key x) (key y)) [
      | inl k ↦ absurd (false≢true (sym h ∙ k))
      | inr k ↦ sym (insert_by-below y x l k h)
    ]
  ]

  pub sort_by-Permᴰ :
      ((x y : A) → key x ≡ key y → x ≡ y)
      → {l m : List A} → Permᴰ l m
      → sort_by key l ≡ sort_by key m
  unfolding sort_by
  sort_by-Permᴰ inj Permᴰ.nil = refl
  sort_by-Permᴰ inj (Permᴰ.cons {a = a} {l₂ = m} e p) =
      ap (insert_by key a) (sort_by-Permᴰ inj p) ∙ ap (λ b. insert_by key b (sort_by key m)) e
  sort_by-Permᴰ inj (Permᴰ.swap {a = a} {b = b} {l = l} e f) =
      insert_by-insert_by inj a b (sort_by key l) ∙ rw (e, f) refl
  sort_by-Permᴰ inj (Permᴰ.trans p q) = sort_by-Permᴰ inj p ∙ sort_by-Permᴰ inj q

  insert_by-Permᴰ : (x : A) (l : List A) → Permᴰ (insert_by key x l) (x ∷ l)
  unfolding insert_by
  insert_by-Permᴰ x [] = Permᴰ.refl (x ∷ [])
  insert_by-Permᴰ x (y ∷ l) = elim (Bool-cases (text_leb (key x) (key y))) [
    | inl h ↦ simp h (Permᴰ.refl (x ∷ y ∷ l))
    | inr h ↦ simp h (Permᴰ.trans (Permᴰ.cons refl (insert_by-Permᴰ x l)) (Permᴰ.swap refl refl))
  ]

  pub sort_by-keeps : (l : List A) → Permᴰ (sort_by key l) l
  unfolding sort_by
  sort_by-keeps [] = Permᴰ.nil
  sort_by-keeps (x ∷ l) =
      Permᴰ.trans (insert_by-Permᴰ x (sort_by key l)) (Permᴰ.cons refl (sort_by-keeps l))
