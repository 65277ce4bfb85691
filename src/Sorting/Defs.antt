-- ===== src/Sorting/Defs.antt =====
-- Insertion sort has the result that Python documents: sorted by `<`, and stable.
use decision_memory.Prelude.{
  if◌then◌else◌, nat_eq, pair_eq, list_eq, All, ◌≡◌, Bool, false, List, [], ◌∷◌,
}

module _ {ℓ} {A : Type ℓ} (lt : A → A → Bool) where
  -- `x` stood before all of the list: it passes only what is smaller.
  abbrev pub insert : A → List A → List A
  insert x [] = x ∷ []
  insert x (y ∷ ys) = if lt y x then y ∷ insert x ys else x ∷ y ∷ ys

  unfoldable pub sort_by : List A → List A
  sort_by [] = []
  sort_by (x ∷ xs) = insert x (sort_by xs)

  -- No member is smaller than one before it.
  abbrev pub IsSorted : List A → Type ℓ
  IsSorted [] = Unit
  IsSorted (x ∷ xs) = All (λ y. lt y x ≡ false) xs × IsSorted xs
