-- ===== src/Citations/Locations.antt =====
-- The table of seen locations mirrors the citations: one entry for each, in order.
use decision_memory.Prelude.{
  nat_eq, ◌==◌, pair_eq, list_eq, ==_sym, Eq, contains, NoRepeat, count_up, keys, get, put, ℕ, zero,
  suc, ◌+◌, ◌≡◌, refl, ap, ◌∙◌, false, none, List, [], ◌∷◌, ◌++◌, map, arith,
}
use decision_memory.Text.{codes}
use decision_memory.Dto.{}
use decision_memory.Citations.{Location, Citation}

abbrev pub location_of : Citation → Location
location_of c = (codes "chunk", (c.evidence_id, (c.relative_path, c.section)))

-- The table that belongs to a list of citations.
abbrev pub seen_of : List Citation → List (Location × ℕ)
seen_of citations = map (λ c. (location_of c, c.citation_id)) citations

pub count_up-snoc : (start n : ℕ) → count_up start n ++ (start + n) ∷ [] ≡ count_up start (suc n)
count_up-snoc start zero = ap (λ k. k ∷ []) (omega arith)
count_up-snoc start (suc n) =
    (λ i. start ∷ (count_up (start + 1) n ++ shift i ∷ []))
    ∙ ap (λ t. start ∷ t) (count_up-snoc (start + 1) n)
  where
    shift : start + suc n ≡ (start + 1) + n
    shift = omega arith

module _ {ℓ κ} {K : Type ℓ} {V : Type κ} ⦃e : Eq K⦄ where
  pub get-none→put :
      (d : List (K × V)) (key : K) (value : V)
      → get d key ≡ none
      → put d key value ≡ d ++ (key, value) ∷ []
  get-none→put [] key value h = refl
  get-none→put ((k, v) ∷ d) key value h = ground (arith, get-none→put d key value)

  pub get-none→contains :
      (d : List (K × V)) (key : K) → get d key ≡ none → contains (keys d) key ≡ false
  get-none→contains [] key h = refl
  get-none→contains ((k, v) ∷ d) key h = ground (arith, get-none→contains d key)

module _ {ℓ} {K : Type ℓ} ⦃e : Eq K⦄ where
  contains-snoc :
      (xs : List K) (a b : K)
      → contains xs b ≡ false
      → (a == b) ≡ false
      → contains (xs ++ a ∷ []) b ≡ false
  contains-snoc [] a b h k = ground arith
  contains-snoc (x ∷ xs) a b h k = ground (arith, contains-snoc xs a b)

  pub NoRepeat-snoc :
      (xs : List K) (a : K) → NoRepeat xs → contains xs a ≡ false → NoRepeat (xs ++ a ∷ [])
  NoRepeat-snoc [] a h k = (refl, tt)
  NoRepeat-snoc (x ∷ xs) a (h, rest) k =
      (contains-snoc xs a x h (ground (arith, ==_sym a x)), NoRepeat-snoc xs a rest (ground arith))
