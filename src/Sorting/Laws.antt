-- ===== src/Sorting/Laws.antt =====
-- What sorting keeps, and when its result does not depend on the order of its input.
use mathlib.Core.List.{Permᴰ}
use mathlib.Core.List.Permᴰ
use decision_memory.Prelude.{
  Bool-cases, nat_eq, pair_eq, list_eq, All, ◌≡◌, refl, ◌∙◌, inl, inr, Bool, true, false, List, [],
  ◌∷◌, arith,
}
use decision_memory.Sorting.Defs.{insert, sort_by, IsSorted}

-- The laws of `<` on values that Python compares: numbers, texts and tuples of them.
pub record IsStrictOrder {ℓ} {A : Type ℓ} (lt : A → A → Bool) : Type ℓ where
  pub lt_irrefl : (a : A) → lt a a ≡ false
  pub lt_trans : (a b c : A) → lt a b ≡ true → lt b c ≡ true → lt a c ≡ true
  pub lt_connex : (a b : A) → lt a b ≡ false → lt b a ≡ false → a ≡ b

module _ {ℓ} {A : Type ℓ} {lt : A → A → Bool} (o : IsStrictOrder lt) where
  open o use {lt_irrefl, lt_trans, lt_connex}

  pub lt_asymm : (a b : A) → lt a b ≡ true → lt b a ≡ false
  lt_asymm a b h = elim (Bool-cases (lt b a)) [
    | inr e ↦ e
    | inl e ↦
        let both : lt a a ≡ true = lt_trans a b a h e in
        let none_smaller : lt a a ≡ false = lt_irrefl a in (cc)
  ]

  -- Not smaller is transitive.
  pub not_lt_trans : (a b c : A) → lt b a ≡ false → lt c b ≡ false → lt c a ≡ false
  not_lt_trans a b c h k = elim (Bool-cases (lt c a)) [
    | inr e ↦ e
    | inl e ↦ elim (Bool-cases (lt a b)) [
      | inl ab ↦ let cb : lt c b ≡ true = lt_trans c a b e ab in (cc)
      | inr ba ↦
          let same : a ≡ b = lt_connex a b ba h in let cb : lt c b ≡ true = rw (← same) e in (cc)
    ]
  ]

  insert-All : (P : A → Type 0) (x : A) (xs : List A) → P x → All P xs → All P (insert lt x xs)
  insert-All P x [] px all_xs = (px, tt)
  insert-All P x (y ∷ ys) px (py, rest) = elim (Bool-cases (lt y x)) [
    | inl passes ↦ rw passes (py, insert-All P x ys px rest)
    | inr stays ↦ rw stays (px, (py, rest))
  ]

  All-not_lt :
      (x y : A) (ys : List A)
      → lt y x ≡ false
      → All (λ z. lt z y ≡ false) ys
      → All (λ z. lt z x ≡ false) ys
  All-not_lt x y [] h all_ys = tt
  All-not_lt x y (z ∷ ys) h (hz, rest) = (not_lt_trans x y z h hz, All-not_lt x y ys h rest)

  insert-IsSorted : (x : A) (xs : List A) → IsSorted lt xs → IsSorted lt (insert lt x xs)
  insert-IsSorted x [] s = (tt, tt)
  insert-IsSorted x (y ∷ ys) (low, s) = elim (Bool-cases (lt y x)) [
    | inl passes ↦
        rw passes
          (insert-All (λ z. lt z y ≡ false) x ys (lt_asymm y x passes) low, insert-IsSorted x ys s)
    | inr stays ↦ rw stays ((stays, All-not_lt x y ys stays low), (low, s))
  ]

  -- The result is sorted.
  pub sort_by-IsSorted : (xs : List A) → IsSorted lt (sort_by lt xs)
  unfolding sort_by
  sort_by-IsSorted [] = tt
  sort_by-IsSorted (x ∷ xs) = insert-IsSorted x (sort_by lt xs) (sort_by-IsSorted xs)

  insert_comm :
      (x y : A) (xs : List A) → insert lt x (insert lt y xs) ≡ insert lt y (insert lt x xs)
  insert_comm x y [] = ground (arith, lt_asymm x y, lt_connex x y)
  insert_comm x y (z ∷ zs) =
      ground
        (arith, insert_comm x y zs, lt_trans z x y, lt_trans z y x, lt_connex x y, lt_asymm x y)

  -- Sorting by a total order forgets the order of the input.
  pub sort_by-canonical : {xs ys : List A} → Permᴰ xs ys → sort_by lt xs ≡ sort_by lt ys
  unfolding sort_by
  sort_by-canonical Permᴰ.nil = refl
  sort_by-canonical (Permᴰ.cons e p) = λ i. insert lt (e i) (sort_by-canonical p i)
  sort_by-canonical (Permᴰ.swap {a} {b} {l} e f) =
      insert_comm a b (sort_by lt l) ∙ (λ i. insert lt (f i) (insert lt (e i) (sort_by lt l)))
  sort_by-canonical (Permᴰ.trans p q) = sort_by-canonical p ∙ sort_by-canonical q

module _ {ℓ} {A : Type ℓ} (lt : A → A → Bool) where
  insert-perm : (x : A) (xs : List A) → Permᴰ (insert lt x xs) (x ∷ xs)
  insert-perm x [] = Permᴰ.refl (x ∷ [])
  insert-perm x (y ∷ ys) = elim (Bool-cases (lt y x)) [
    | inl passes ↦
        rw passes (Permᴰ.trans (Permᴰ.cons refl (insert-perm x ys)) (Permᴰ.swap refl refl))
    | inr stays ↦ rw stays (Permᴰ.refl (x ∷ y ∷ ys))
  ]

  -- The result holds what the input holds, as often.
  pub sort_by-perm : (xs : List A) → Permᴰ (sort_by lt xs) xs
  unfolding sort_by
  sort_by-perm [] = Permᴰ.nil
  sort_by-perm (x ∷ xs) =
      Permᴰ.trans (insert-perm x (sort_by lt xs)) (Permᴰ.cons refl (sort_by-perm xs))
