-- ===== src/Prelude/Keeps.antt =====
-- The members that pass a test, and lists with one member.
use mathlib.Core.Path.{◌≡◌, refl, sym, ap, ◌∙◌}
use mathlib.Core.Logic.{◌↔◌, inl, inr}
use mathlib.Core.Bool.{Bool, true, false}
use mathlib.Core.List.{List, [], ◌∷◌, ◌++◌}
use decision_memory.Prelude.Tests.{Bool-cases, nat_eq, pair_eq, list_eq, Eq}
use decision_memory.Prelude.Lists.{
  keep, All, contains, NoRepeat, contains→In, In-append, In-singleton, concat_map, not_contains, In,
  here, there,
}

module _ {ℓ} {A : Type ℓ} (p : A → Bool) where
  pub keep-In : (xs : List A) {a : A} → In a (keep p xs) → In a xs × (p a ≡ true)
  keep-In [] m = elim m [ ]
  keep-In (x ∷ xs) {a} m = elim (Bool-cases (p x)) [
    | inl passes ↦ elim (In-append (x ∷ []) (keep p xs) (rw passes at m)) [
      | inl first ↦ let e = In-singleton first in (here e, ap p (sym e) ∙ passes)
      | inr later ↦ let (n, h) = keep-In xs later in (there n, h)
    ]
    | inr fails ↦ let (n, h) = keep-In xs (rw fails at m) in (there n, h)
  ]

  pub In→keep : (xs : List A) {a : A} → In a xs → p a ≡ true → In a (keep p xs)
  In→keep [] m h = elim m [ ]
  In→keep (x ∷ xs) (here e) h = rw (e, h) (here refl)
  In→keep (x ∷ xs) (there m) h = elim (Bool-cases (p x)) [
    | inl passes ↦ rw passes (there (In→keep xs m h))
    | inr fails ↦ rw fails (In→keep xs m h)
  ]

module _ {ℓ} {A : Type ℓ} ⦃e : Eq A⦄ where
  pub keep-NoRepeat : (p : A → Bool) (xs : List A) → NoRepeat xs → NoRepeat (keep p xs)
  keep-NoRepeat p [] h = tt
  keep-NoRepeat p (x ∷ xs) (fresh, h) = elim (Bool-cases (p x)) [
    | inl passes ↦ rw passes (still, keep-NoRepeat p xs h)
    | inr fails ↦ rw fails (keep-NoRepeat p xs h)
  ]
    where
      still : contains (keep p xs) x ≡ false
      still = elim (Bool-cases (contains (keep p xs) x)) [
        | inr k ↦ k
        | inl k ↦ absurd (not_contains xs x fresh (keep-In p xs (contains→In (keep p xs) x k)).0)
      ]

  -- A list without repetition whose members are all the same.
  pub only_member :
      (xs : List A) (k : A) → NoRepeat xs → In k xs → ((x : A) → In x xs → x ≡ k) → xs ≡ k ∷ []
  only_member [] k h m same = elim m [ ]
  only_member (x ∷ []) k h m same = ap (λ y. y ∷ []) (same x (here refl))
  only_member (x ∷ y ∷ xs) k (fresh, h) m same =
      absurd (
        not_contains (y ∷ xs) x fresh
          (here (same y (there (here refl)) ∙ sym (same x (here refl)))))

module _ {ℓ κ} {A : Type ℓ} (P : A → Type κ) where
  pub All-append : (xs ys : List A) → All P xs → All P ys → All P (xs ++ ys)
  All-append [] ys h k = k
  All-append (x ∷ xs) ys (h, rest) k = (h, All-append xs ys rest k)

  pub All-split : (xs ys : List A) → All P (xs ++ ys) → All P xs × All P ys
  All-split [] ys h = (tt, h)
  All-split (x ∷ xs) ys (h, rest) = let (a, b) = All-split xs ys rest in ((h, a), b)

module _ {ℓ ℓ' κ} {A : Type ℓ} {B : Type ℓ'} (P : B → Type κ) where
  pub All-concat_map :
      (f : A → List B) (xs : List A) → ((x : A) → All P (f x)) → All P (concat_map f xs)
  All-concat_map f [] h = tt
  All-concat_map f (x ∷ xs) h = All-append P (f x) (concat_map f xs) (h x) (All-concat_map f xs h)

pub append-nil_split {ℓ} : {A : Type ℓ} (xs ys : List A) → (xs ++ ys ≡ []) ↔ ((xs ≡ []) × (ys ≡ []))
append-nil_split [] ys = (λ h. (refl, h), λ p. p.1)
append-nil_split (x ∷ xs) ys = (λ h. absurd (cc), λ p. absurd (let e = p.0 in (cc)))
