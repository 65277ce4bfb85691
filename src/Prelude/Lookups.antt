-- ===== src/Prelude/Lookups.antt =====
-- Lookups over whole lists, the members of a mapped list, numbered lists and zips.
use Prim.Native.Nat.{ℕ, zero, suc, ◌+◌}
use mathlib.Core.Path.{◌≡◌, refl, ap}
use mathlib.Core.Logic.{inl, inr}
use mathlib.Core.Bool.{Bool, true, false}
use mathlib.Core.Option.{Option, none, some}
use mathlib.Core.Option.{map as option_map}
use mathlib.Core.List.{List, [], ◌∷◌, ◌++◌, map}
use native.Mathlib.Omega.{arith}
use decision_memory.Prelude.Tests.{Option-cases}
use decision_memory.Prelude.Lists.{length, All, In, here, there}

abbrev pub is_some {ℓ} : {A : Type ℓ} → Option A → Bool
is_some none = false
is_some (some a) = true

-- `[f[x] for x in xs]`, where a lookup that fails ends the whole.
abbrev pub map_option {ℓ κ} : {A : Type ℓ} {B : Type κ} → (A → Option B) → List A → Option (List B)
map_option f [] = some []
map_option f (x ∷ xs) = elim (f x) [
  | none ↦ none
  | some y ↦ option_map (λ ys. y ∷ ys) (map_option f xs)
]

pub map-snoc {ℓ κ} :
    {A : Type ℓ} {B : Type κ} (f : A → B) (xs : List A) (x : A)
    → map f (xs ++ x ∷ []) ≡ map f xs ++ f x ∷ []
map-snoc f [] x = refl
map-snoc f (y ∷ xs) x = ap (λ t. f y ∷ t) (map-snoc f xs x)

pub map-append {ℓ κ} :
    {A : Type ℓ} {B : Type κ} (f : A → B) (xs ys : List A) → map f (xs ++ ys) ≡ map f xs ++ map f ys
map-append f [] ys = refl
map-append f (x ∷ xs) ys = ap (λ t. f x ∷ t) (map-append f xs ys)

pub map-map {ℓ κ ν} :
    {A : Type ℓ} {B : Type κ} {C : Type ν} (g : B → C) (f : A → B) (xs : List A)
    → map g (map f xs) ≡ map (λ x. g (f x)) xs
map-map g f [] = refl
map-map g f (x ∷ xs) = ap (λ t. g (f x) ∷ t) (map-map g f xs)

pub length-map {ℓ κ} :
    {A : Type ℓ} {B : Type κ} (f : A → B) (xs : List A) → length (map f xs) ≡ length xs
length-map f [] = refl
length-map f (x ∷ xs) = ap suc (length-map f xs)

map_option-cons {ℓ κ} :
    {A : Type ℓ} {B : Type κ} (f : A → Option B) (x : A) (xs : List A) {y : B} {ys : List B}
    → f x ≡ some y
    → map_option f xs ≡ some ys
    → map_option f (x ∷ xs) ≡ some (y ∷ ys)
map_option-cons f x xs e k = ground arith

-- A lookup that finds every member, and whose results know what they were found for.
pub map_option-total {ℓ κ} :
    {A : Type ℓ} {B : Type κ} (f : A → Option B) (g : B → A)
    → ((x : A) (y : B) → f x ≡ some y → g y ≡ x)
    → (xs : List A) → All (λ x. is_some (f x) ≡ true) xs
    → (ys : List B) × (map_option f xs ≡ some ys) × (map g ys ≡ xs)
map_option-total f g h [] found = ([], refl, refl)
map_option-total f g h (x ∷ xs) (found, rest) = elim (Option-cases (f x)) [
  | inl missing ↦ let wrong : false ≡ true = rw missing at found in (cc)
  | inr (y, e) ↦
      let (ys, e', k) = map_option-total f g h xs rest in
      (y ∷ ys, map_option-cons f x xs e e', λ i. h x y e i ∷ k i)
]

-- `enumerate(xs, start=start)`
abbrev pub enumerate {ℓ} : {A : Type ℓ} → ℕ → List A → List (ℕ × A)
enumerate start [] = []
enumerate start (x ∷ xs) = (start, x) ∷ enumerate (start + 1) xs

-- `zip(xs, ys, strict=True)`: lists of different lengths raise.
abbrev pub zip_strict {ℓ κ} : {A : Type ℓ} {B : Type κ} → List A → List B → Option (List (A × B))
zip_strict [] [] = some []
zip_strict [] (y ∷ ys) = none
zip_strict (x ∷ xs) [] = none
zip_strict (x ∷ xs) (y ∷ ys) = option_map (λ rest. (x, y) ∷ rest) (zip_strict xs ys)

-- The numbers of the list of `n` numbers from `start` on.
abbrev pub count_up : ℕ → ℕ → List ℕ
count_up start zero = []
count_up start (suc n) = start ∷ count_up (start + 1) n

pub All-map {ℓ κ μ} :
    {A : Type ℓ} {P : A → Type κ} {Q : A → Type μ} (xs : List A)
    → ((x : A) → P x → Q x)
    → All P xs
    → All Q xs
All-map [] h k = tt
All-map (x ∷ xs) h (k, rest) = (h x k, All-map xs h rest)

pub All-snoc {ℓ κ} :
    {A : Type ℓ} (P : A → Type κ) (xs : List A) (x : A) → All P xs → P x → All P (xs ++ x ∷ [])
All-snoc P [] x h k = (k, tt)
All-snoc P (y ∷ xs) x (h, rest) k = (h, All-snoc P xs x rest k)

module _ {ℓ κ} {A : Type ℓ} {B : Type κ} (f : A → B) where
  pub In→map : {a : A} {xs : List A} → In a xs → In (f a) (map f xs)
  In→map (here e) = here (ap f e)
  In→map (there m) = there (In→map m)

  pub In-map : {b : B} (xs : List A) → In b (map f xs) → (a : A) × In a xs × (f a ≡ b)
  In-map [] m = elim m [ ]
  In-map (x ∷ xs) (here e) = (x, here refl, e)
  In-map (x ∷ xs) (there m) = let (a, k, e) = In-map xs m in (a, there k, e)
