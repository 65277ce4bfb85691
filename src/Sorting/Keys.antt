-- ===== src/Sorting/Keys.antt =====
-- Sorting by a key, and the order `<` of numbers, texts, tuples and negated keys.
use mathlib.Core.List.{Permᴰ}
use decision_memory.Prelude.{
  ltb, if◌then◌else◌, nat_eq, ◌==◌, pair_eq, list_eq, Eq, ◌≡◌, refl, sym, ap, ◌∙◌, Bool, true,
  false, ◌&&◌, List, [], ◌∷◌, map, arith,
}
use decision_memory.Text.{Text, text_lt}
use decision_memory.Sorting.Defs.{insert, sort_by}
use decision_memory.Sorting.Laws.{sort_by-canonical, IsStrictOrder}

module _ {ℓ κ} {A : Type ℓ} {K : Type κ} (key : A → K) (lt : K → K → Bool) where
  -- `sorted(xs, key=key)`
  abbrev pub sort_on : List A → List A
  sort_on = sort_by (λ a b. lt (key a) (key b))

  map-insert :
      (x : A) (xs : List A)
      → map key (insert (λ a b. lt (key a) (key b)) x xs) ≡ insert lt (key x) (map key xs)
  map-insert x [] = refl
  map-insert x (y ∷ ys) = ground (arith, map-insert x ys)

  pub map-sort_on : (xs : List A) → map key (sort_on xs) ≡ sort_by lt (map key xs)
  unfolding sort_by
  map-sort_on [] = refl
  map-sort_on (x ∷ xs) = map-insert x (sort_on xs) ∙ ap (insert lt (key x)) (map-sort_on xs)

pub ltb-IsStrictOrder : IsStrictOrder ltb
ltb-IsStrictOrder = record {
  lt_irrefl = λ a. ground arith;
  lt_trans = λ a b c h k. ground arith;
  lt_connex = λ a b h k. ground arith;
}

-- The order of negated keys.
abbrev pub flipped {ℓ} : {A : Type ℓ} → (A → A → Bool) → A → A → Bool
flipped lt a b = lt b a

pub flipped-IsStrictOrder {ℓ} :
    {A : Type ℓ} {lt : A → A → Bool} → IsStrictOrder lt → IsStrictOrder (flipped lt)
flipped-IsStrictOrder o = record {
  lt_irrefl = o.lt_irrefl;
  lt_trans = λ a b c h k. o.lt_trans c b a k h;
  lt_connex = λ a b h k. o.lt_connex a b k h;
}

text_lt_irrefl : (s : Text) → text_lt s s ≡ false
text_lt_irrefl [] = refl
text_lt_irrefl (c ∷ s) = ground (arith, text_lt_irrefl s)

text_lt_trans : (s t u : Text) → text_lt s t ≡ true → text_lt t u ≡ true → text_lt s u ≡ true
text_lt_trans [] [] u h k = cc
text_lt_trans [] (d ∷ t) [] h k = cc
text_lt_trans [] (d ∷ t) (e ∷ u) h k = refl
text_lt_trans (c ∷ s) [] u h k = cc
text_lt_trans (c ∷ s) (d ∷ t) [] h k = cc
text_lt_trans (c ∷ s) (d ∷ t) (e ∷ u) h k = ground (arith, text_lt_trans s t u)

text_lt_connex : (s t : Text) → text_lt s t ≡ false → text_lt t s ≡ false → s ≡ t
text_lt_connex [] [] h k = refl
text_lt_connex [] (d ∷ t) h k = cc
text_lt_connex (c ∷ s) [] h k = cc
text_lt_connex (c ∷ s) (d ∷ t) h k = ground (arith, text_lt_connex s t)

pub text_lt-IsStrictOrder : IsStrictOrder text_lt
text_lt-IsStrictOrder = record {
  lt_irrefl = text_lt_irrefl;
  lt_trans = text_lt_trans;
  lt_connex = text_lt_connex;
}

-- Tuples compare by their first component, and by the rest where that is equal.
module _ {ℓ κ} {A : Type ℓ} {B : Type κ} ⦃e : Eq A⦄ (lt : A → A → Bool) (lt' : B → B → Bool) where
  abbrev pub pair_lt : A × B → A × B → Bool
  pair_lt (a, b) (c, d) = if lt a c then true else a == c && lt' b d

module _ {ℓ κ} {A : Type ℓ} {B : Type κ} ⦃e : Eq A⦄ {lt : A → A → Bool} {lt' : B → B → Bool}
    (o : IsStrictOrder lt) (o' : IsStrictOrder lt') where
  pub pair_lt-IsStrictOrder : IsStrictOrder (pair_lt lt lt')
  pair_lt-IsStrictOrder = record {
    lt_irrefl = λ (a, b). ground (arith, o.lt_irrefl a, o'.lt_irrefl b);
    lt_trans = λ (a, b) (c, d) (f, g) h k.
        ground
          (arith, o.lt_trans a c f, o'.lt_trans b d g, e.beq_iff a c, e.beq_iff c f, e.beq_iff a f);
    lt_connex = λ (a, b) (c, d) h k.
        ground (arith, o.lt_connex a c, o'.lt_connex b d, e.beq_iff a c, e.beq_iff c a);
  }

-- Only the keys decide in which order they come out.
module _ {ℓ κ} {A : Type ℓ} {K : Type κ} (key : A → K) {lt : K → K → Bool} where
  pub sort_on-keys :
      (xs ys : List A)
      → IsStrictOrder lt
      → Permᴰ (map key xs) (map key ys)
      → map key (sort_on key lt xs) ≡ map key (sort_on key lt ys)
  sort_on-keys xs ys o p =
      map-sort_on key lt xs ∙ sort_by-canonical o p ∙ sym (map-sort_on key lt ys)
