-- ===== src/Sorting/Perms.antt =====
-- What a permutation keeps: the members, and that none repeats.
use mathlib.Core.List.{Permᴰ}
use decision_memory.Prelude.{
  Eq, ◌==◌, ==_sym, nat_eq, pair_eq, list_eq, contains, NoRepeat, In, here, there, ◌||◌, ◌≡◌, refl,
  subst, sym, ap, ◌∙◌, List, ◌∷◌, map, arith,
}

module _ {ℓ} {A : Type ℓ} where
  pub Permᴰ-In : {a : A} {xs ys : List A} → Permᴰ xs ys → In a xs → In a ys
  Permᴰ-In Permᴰ.nil m = m
  Permᴰ-In (Permᴰ.cons e p) (here h) = here (sym e ∙ h)
  Permᴰ-In (Permᴰ.cons e p) (there m) = there (Permᴰ-In p m)
  Permᴰ-In (Permᴰ.swap e f) (here h) = there (here (sym e ∙ h))
  Permᴰ-In (Permᴰ.swap e f) (there (here h)) = here (sym f ∙ h)
  Permᴰ-In (Permᴰ.swap e f) (there (there m)) = there (there m)
  Permᴰ-In (Permᴰ.trans p q) m = Permᴰ-In q (Permᴰ-In p m)

pub Permᴰ-map {ℓ κ} :
    {A : Type ℓ} {B : Type κ} (f : A → B) {xs ys : List A}
    → Permᴰ xs ys
    → Permᴰ (map f xs) (map f ys)
Permᴰ-map f Permᴰ.nil = Permᴰ.nil
Permᴰ-map f (Permᴰ.cons e p) = Permᴰ.cons (ap f e) (Permᴰ-map f p)
Permᴰ-map f (Permᴰ.swap e k) = Permᴰ.swap (ap f e) (ap f k)
Permᴰ-map f (Permᴰ.trans p q) = Permᴰ.trans (Permᴰ-map f p) (Permᴰ-map f q)

module _ {ℓ} {A : Type ℓ} ⦃e : Eq A⦄ where
  Permᴰ-contains : {xs ys : List A} (a : A) → Permᴰ xs ys → contains xs a ≡ contains ys a
  Permᴰ-contains a Permᴰ.nil = refl
  Permᴰ-contains a (Permᴰ.cons k p) = λ i. k i == a || Permᴰ-contains a p i
  Permᴰ-contains a (Permᴰ.swap k l) = ground (arith, ap (λ x. x == a) k, ap (λ x. x == a) l)
  Permᴰ-contains a (Permᴰ.trans p q) = Permᴰ-contains a p ∙ Permᴰ-contains a q

  NoRepeat-swap : (x y : A) (xs : List A) → NoRepeat (x ∷ y ∷ xs) → NoRepeat (y ∷ x ∷ xs)
  NoRepeat-swap x y xs (h, (k, rest)) = (ground (arith, ==_sym x y), (ground arith, rest))

  pub Permᴰ-NoRepeat : {xs ys : List A} → Permᴰ xs ys → NoRepeat xs → NoRepeat ys
  Permᴰ-NoRepeat Permᴰ.nil h = h
  Permᴰ-NoRepeat (Permᴰ.cons {b = y} {l₂ = ys} k p) (h, rest) =
      (sym (Permᴰ-contains y p) ∙ ap (contains _) (sym k) ∙ h, Permᴰ-NoRepeat p rest)
  Permᴰ-NoRepeat (Permᴰ.swap {l = xs} k l) h =
      subst NoRepeat (λ i. l i ∷ k i ∷ xs) (NoRepeat-swap _ _ xs h)
  Permᴰ-NoRepeat (Permᴰ.trans p q) h = Permᴰ-NoRepeat q (Permᴰ-NoRepeat p h)
