-- ===== src/Prelude/Lists.antt =====
-- Lists measured and cut by native numbers, under the library's names, and membership tests.
use Prim.Native.Nat.{ℕ, zero, suc, ◌+◌, ◌≤◌}
use mathlib.Core.Path.{◌≡◌, refl, sym, ap, subst}
use mathlib.Core.Logic.{◌↔◌, ◌⊎◌, inl, inr}
use mathlib.Core.Bool.{Bool, true, false, ◌&&◌, ◌||◌}
use mathlib.Core.Option.{Option, none, some}
use mathlib.Core.List.{List, [], ◌∷◌, ◌++◌}
use native.Mathlib.Omega.{arith}
use decision_memory.Prelude.Tests.{Eq, ◌==◌, if◌then◌else◌, Bool-cases}

module _ {ℓ} {A : Type ℓ} where
  abbrev pub length : List A → ℕ
  length [] = 0
  length (x ∷ xs) = suc (length xs)

  abbrev pub get_elem? : List A → ℕ → Option A
  get_elem? [] i = none
  get_elem? (x ∷ xs) zero = some x
  get_elem? (x ∷ xs) (suc i) = get_elem? xs i

  abbrev pub take : ℕ → List A → List A
  take zero xs = []
  take (suc n) [] = []
  take (suc n) (x ∷ xs) = x ∷ take n xs

  abbrev pub drop : ℕ → List A → List A
  drop zero xs = xs
  drop (suc n) [] = []
  drop (suc n) (x ∷ xs) = drop n xs

  abbrev pub any : (A → Bool) → List A → Bool
  any p [] = false
  any p (x ∷ xs) = p x || any p xs

  abbrev pub all : (A → Bool) → List A → Bool
  all p [] = true
  all p (x ∷ xs) = p x && all p xs

  abbrev pub keep : (A → Bool) → List A → List A
  keep p [] = []
  keep p (x ∷ xs) = let rest = keep p xs in if p x then x ∷ rest else rest

  -- Membership with its position, and universal quantification by recursion.
  pub data In (a : A) : List A → Type ℓ where
    here : {x : A} {xs : List A} → x ≡ a → In a (x ∷ xs)
    there : {x : A} {xs : List A} → In a xs → In a (x ∷ xs)

  abbrev pub All {κ} : (A → Type κ) → List A → Type κ
  All P [] = Unit
  All P (x ∷ xs) = P x × All P xs

  pub length-append : (xs ys : List A) → length (xs ++ ys) ≡ length xs + length ys
  length-append [] ys = omega arith
  length-append (x ∷ xs) ys = omega (arith, length-append xs ys)

  pub take-append-drop : (n : ℕ) (xs : List A) → take n xs ++ drop n xs ≡ xs
  take-append-drop zero xs = refl
  take-append-drop (suc n) [] = refl
  take-append-drop (suc n) (x ∷ xs) = ap (λ t. x ∷ t) (take-append-drop n xs)

  pub take-append : (xs ys : List A) → take (length xs) (xs ++ ys) ≡ xs
  take-append [] ys = refl
  take-append (x ∷ xs) ys = ap (λ t. x ∷ t) (take-append xs ys)

  pub drop-append : (xs ys : List A) → drop (length xs) (xs ++ ys) ≡ ys
  drop-append [] ys = refl
  drop-append (x ∷ xs) ys = drop-append xs ys

  pub All-of_In {κ} : {P : A → Type κ} (xs : List A) → ((x : A) → In x xs → P x) → All P xs
  All-of_In [] h = tt
  All-of_In (x ∷ xs) h = (h x (here refl), All-of_In xs (λ y m. h y (there m)))

  pub any→In : (p : A → Bool) (xs : List A) → any p xs ≡ true → (x : A) × In x xs × (p x ≡ true)
  any→In p [] h = cc
  any→In p (x ∷ xs) h = elim (Bool-cases (p x)) [
    | inl now ↦ (x, here refl, now)
    | inr later ↦ let (y, m, e) = any→In p xs (ground arith) in (y, there m, e)
  ]

module _ {ℓ} {A : Type ℓ} ⦃e : Eq A⦄ where
  abbrev pub contains : List A → A → Bool
  contains [] a = false
  contains (x ∷ xs) a = x == a || contains xs a

  -- The members of a list, each once: `set(xs)`.
  unfoldable pub distinct : List A → List A
  distinct [] = []
  distinct (x ∷ xs) = let rest = distinct xs in if contains xs x then rest else x ∷ rest

  -- No member stands again behind itself.
  abbrev pub NoRepeat : List A → Type 0
  NoRepeat [] = Unit
  NoRepeat (x ∷ xs) = (contains xs x ≡ false) × NoRepeat xs

  pub length-distinct-le : (xs : List A) → length (distinct xs) ≤ length xs
  unfolding distinct
  length-distinct-le [] = omega arith
  length-distinct-le (x ∷ xs) = ground (arith, length-distinct-le xs)

  pub length-distinct→NoRepeat : (xs : List A) → length (distinct xs) ≡ length xs → NoRepeat xs
  unfolding distinct
  length-distinct→NoRepeat [] h = tt
  length-distinct→NoRepeat (x ∷ xs) h = elim (Bool-cases (contains xs x)) [
    | inl again ↦
        let e : length (distinct xs) ≡ suc (length xs) = rw again at h in
        absurd (omega (arith, length-distinct-le xs))
    | inr fresh ↦
        let e : suc (length (distinct xs)) ≡ suc (length xs) = rw fresh at h in
        (fresh, length-distinct→NoRepeat xs (omega arith))
  ]

  pub NoRepeat→length-distinct : (xs : List A) → NoRepeat xs → length (distinct xs) ≡ length xs
  unfolding distinct
  NoRepeat→length-distinct [] h = refl
  NoRepeat→length-distinct (x ∷ xs) (fresh, rest) = ground (arith, NoRepeat→length-distinct xs rest)

  pub contains→In : (xs : List A) (a : A) → contains xs a ≡ true → In a xs
  contains→In [] a h = cc
  contains→In (x ∷ xs) a h = elim (Bool-cases (x == a)) [
    | inl same ↦ here ((e.beq_iff x a).0 same)
    | inr other ↦ there (contains→In xs a (ground arith))
  ]

  pub In→contains : (xs : List A) (a : A) → In a xs → contains xs a ≡ true
  In→contains [] a m = elim m [ ]
  In→contains (x ∷ xs) a (here same) = ground (arith, (e.beq_iff x a).1 same)
  In→contains (x ∷ xs) a (there m) = ground (arith, In→contains xs a m)

module _ {ℓ} {A : Type ℓ} where
  pub In-append_left : {a : A} {xs : List A} (ys : List A) → In a xs → In a (xs ++ ys)
  In-append_left ys (here e) = here e
  In-append_left ys (there m) = there (In-append_left ys m)

  pub In-append_right : {a : A} (xs : List A) {ys : List A} → In a ys → In a (xs ++ ys)
  In-append_right [] m = m
  In-append_right (x ∷ xs) m = there (In-append_right xs m)

  pub In-append : {a : A} (xs ys : List A) → In a (xs ++ ys) → In a xs ⊎ In a ys
  In-append [] ys m = inr m
  In-append (x ∷ xs) ys (here e) = inl (here e)
  In-append (x ∷ xs) ys (there m) = elim (In-append xs ys m) [
    | inl l ↦ inl (there l)
    | inr r ↦ inr r
  ]

  pub In-if : {a : A} (t : Bool) (xs : List A) → In a (if t then xs else []) → (t ≡ true) × In a xs
  In-if true xs m = (refl, m)
  In-if false xs m = elim m [ ]

  pub In-singleton : {a x : A} → In a (x ∷ []) → x ≡ a
  In-singleton (here e) = e
  In-singleton (there m) = elim m [ ]

  pub In→any : (p : A → Bool) (xs : List A) {x : A} → In x xs → p x ≡ true → any p xs ≡ true
  In→any p [] m h = elim m [ ]
  In→any p (y ∷ xs) (here e) h = rw (e, h)
  In→any p (y ∷ xs) (there m) h = ground (arith, In→any p xs m h)

  pub All→In {κ} : (P : A → Type κ) {x : A} {xs : List A} → All P xs → In x xs → P x
  All→In P {xs = []} h m = elim m [ ]
  All→In P {xs = y ∷ xs} h (here e) = subst P e h.0
  All→In P {xs = y ∷ xs} h (there m) = All→In P h.1 m

module _ {ℓ κ} {A : Type ℓ} {B : Type κ} (f : A → List B) where
  abbrev pub concat_map : List A → List B
  concat_map [] = []
  concat_map (x ∷ xs) = f x ++ concat_map xs

  pub In-concat_map : {b : B} (xs : List A) → In b (concat_map xs) → (a : A) × In a xs × In b (f a)
  In-concat_map [] m = elim m [ ]
  In-concat_map (x ∷ xs) m = elim (In-append (f x) (concat_map xs) m) [
    | inl l ↦ (x, here refl, l)
    | inr r ↦ let (a, n, k) = In-concat_map xs r in (a, there n, k)
  ]

  pub In→concat_map : {a : A} {b : B} (xs : List A) → In a xs → In b (f a) → In b (concat_map xs)
  In→concat_map [] m k = elim m [ ]
  In→concat_map {b} (x ∷ xs) (here e) k =
      In-append_left (concat_map xs) (subst (λ y. In b (f y)) (sym e) k)
  In→concat_map (x ∷ xs) (there m) k = In-append_right (f x) (In→concat_map xs m k)

module _ {ℓ} {A : Type ℓ} ⦃e : Eq A⦄ where
  pub not_contains : (xs : List A) (a : A) → contains xs a ≡ false → ¬ In a xs
  not_contains xs a h m = let listed : contains xs a ≡ true = In→contains xs a m in (cc)

  distinct-In : (xs : List A) {a : A} → In a (distinct xs) → In a xs
  unfolding distinct
  distinct-In [] m = m
  distinct-In (x ∷ xs) {a} m = elim (Bool-cases (contains xs x)) [
    | inl again ↦ there (distinct-In xs (rw again at m))
    | inr fresh ↦ elim (In-append (x ∷ []) (distinct xs) (rw fresh at m)) [
      | inl first ↦ here (In-singleton first)
      | inr later ↦ there (distinct-In xs later)
    ]
  ]

  In→distinct : (xs : List A) {a : A} → In a xs → In a (distinct xs)
  unfolding distinct
  In→distinct [] m = m
  In→distinct (x ∷ xs) {a} (here same) = elim (Bool-cases (contains xs x)) [
    | inl again ↦
        rw again (subst (λ y. In y (distinct xs)) same (In→distinct xs (contains→In xs x again)))
    | inr fresh ↦ rw fresh (here same)
  ]
  In→distinct (x ∷ xs) (there m) = elim (Bool-cases (contains xs x)) [
    | inl again ↦ rw again (In→distinct xs m)
    | inr fresh ↦ rw fresh (there (In→distinct xs m))
  ]

  pub In-distinct : (xs : List A) (a : A) → In a (distinct xs) ↔ In a xs
  In-distinct xs a = (distinct-In xs, In→distinct xs)

  pub distinct-NoRepeat : (xs : List A) → NoRepeat (distinct xs)
  unfolding distinct
  distinct-NoRepeat [] = tt
  distinct-NoRepeat (x ∷ xs) = elim (Bool-cases (contains xs x)) [
    | inl again ↦ rw again (distinct-NoRepeat xs)
    | inr fresh ↦ rw fresh (still fresh, distinct-NoRepeat xs)
  ]
    where
      still : contains xs x ≡ false → contains (distinct xs) x ≡ false
      still fresh = elim (Bool-cases (contains (distinct xs) x)) [
        | inr e ↦ e
        | inl e ↦
            absurd (not_contains xs x fresh ((In-distinct xs x).0 (contains→In (distinct xs) x e)))
      ]
