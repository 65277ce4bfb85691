-- ===== src/Morphology/Tests.antt =====
-- Tokens of the documentation: `falls` and `falling` share `fall`, and neither comes from the other.
use decision_memory.Prelude.{
  nat_eq, pair_eq, list_eq, In, here, ◌≡◌, refl, ◌↔◌, ◌⊎◌, inr, true, false, [], ◌∷◌, arith,
}
use decision_memory.Text.{codes}
use decision_memory.Morphology.{stem_match_ordered, stem_match, base_set, base_sets_intersect}
use decision_memory.Morphology.Rules.{IsBase, Inflects, doubled}
use decision_memory.Morphology.Exact.{base_set-exact}
use decision_memory.Morphology.Match.{stem_match-exact}

bases_of_using : base_set (codes "using") ≡ codes "using" ∷ codes "use" ∷ []
unfolding base_set
bases_of_using = refl

falls_and_falling :
    (stem_match (codes "falls") (codes "falling") ≡ false)
    × (base_sets_intersect (codes "falls") (codes "falling") ≡ true)
unfolding stem_match stem_match_ordered base_sets_intersect
falls_and_falling = (refl, refl)

shipped_from_ship : IsBase (codes "ship") (codes "shipped")
shipped_from_ship = inr (doubled (codes "shi") 112 (codes "ed") (here refl) (omega arith) refl refl)

base_set-exact_example :
    In (codes "ship") (base_set (codes "shipped")) ↔ IsBase (codes "ship") (codes "shipped")
base_set-exact_example = base_set-exact (codes "ship") (codes "shipped")

stem_match-exact_example :
    (stem_match (codes "relies") (codes "rely") ≡ true)
    ↔ (IsBase (codes "relies") (codes "rely") ⊎ Inflects (codes "rely") (codes "relies"))
stem_match-exact_example = stem_match-exact (codes "relies") (codes "rely")
