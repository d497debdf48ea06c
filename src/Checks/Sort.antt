-- ===== src/Checks/Sort.antt =====
-- `sorted` of Python on texts, by a key that is a text; texts compare by their character codes.
use riscv_formal.Prelude.{Bool, true, false, ltb, List, [], ◌∷◌, if◌then◌else◌}
use riscv_formal.Monitor.Rewrite.{Text}

-- `a <= b`
unfoldable pub text_leb : Text → Text → Bool
text_leb [] b = true
text_leb (x ∷ a) [] = false
text_leb (x ∷ a) (y ∷ b) =
    let rest = text_leb a b in if ltb x y then true else (if ltb y x then false else rest)

module _ {ℓ} {A : Type ℓ} where
  -- Puts an element before the first one whose key is not less.
  unfoldable pub insert_by : (A → Text) → A → List A → List A
  insert_by key x [] = x ∷ []
  insert_by key x (y ∷ ys) =
      let rest = insert_by key x ys in if text_leb (key x) (key y) then x ∷ y ∷ ys else y ∷ rest

  unfoldable pub sort_by : (A → Text) → List A → List A
  sort_by key [] = []
  sort_by key (x ∷ xs) = insert_by key x (sort_by key xs)

-- `sorted(texts)`
abbrev pub sorted : List Text → List Text
sorted = sort_by (λ t. t)
