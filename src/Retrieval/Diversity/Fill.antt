-- ===== src/Retrieval/Diversity/Fill.antt =====
-- The fill pass, and what the two passes accept together.
use decision_memory.Prelude.{
  ltb, leb, if◌then◌else◌, Bool-cases, nat_eq, pair_eq, list_eq, length, All, ℕ, ◌+◌, ◌≤◌, ◌≡◌,
  refl, ◌∙◌, inl, inr, List, [], ◌∷◌, map, arith,
}
use decision_memory.Text.{}
use decision_memory.Dto.{FusedCandidate}
use decision_memory.Retrieval.Diversity.{
  accepted_limit, is_record_cap, breadth_pass, count_final, fill_pass, diversity_decisions,
  Decision,
}
use decision_memory.Retrieval.Diversity.Breadth.{
  cap_count, breadth_pass-candidates, breadth_pass-le_limit, breadth_pass-below_limit,
  count_final-le, IsOpen, breadth_pass-IsOpen,
}

module _ {F : Type 0} where
  pub fill_pass-candidates :
      (count : ℕ) (ds : List (Decision F))
      → map (λ d. d.candidate) (fill_pass count ds) ≡ map (λ d. d.candidate) ds
  unfolding fill_pass
  fill_pass-candidates count [] = refl
  fill_pass-candidates count (d ∷ ds) =
      ground (arith, fill_pass-candidates count ds, fill_pass-candidates (count + 1) ds)

  fill_pass-idle :
      (count : ℕ) (ds : List (Decision F)) → accepted_limit ≤ count → fill_pass count ds ≡ ds
  unfolding fill_pass
  fill_pass-idle count [] h = refl
  fill_pass-idle count (d ∷ ds) h = ground (arith, fill_pass-idle count ds)

  -- As long as there is room, each open entry at the cap is accepted.
  pub fill_pass-short :
      (count : ℕ) (ds : List (Decision F))
      → All IsOpen ds
      → count + cap_count ds ≤ accepted_limit
      → count_final (fill_pass count ds) ≡ count_final ds + cap_count ds
  unfolding fill_pass
  fill_pass-short count [] ready h = refl
  fill_pass-short count (d ∷ ds) (ready, rest) h = elim (Bool-cases (is_record_cap d.disposition)) [
    | inl capped ↦ ground (arith, ready, fill_pass-short (count + 1) ds rest)
    | inr other ↦ ground (arith, fill_pass-short count ds rest)
  ]

  pub fill_pass-full :
      (count : ℕ) (ds : List (Decision F))
      → All IsOpen ds
      → count ≤ accepted_limit
      → accepted_limit ≤ count + cap_count ds
      → count + count_final (fill_pass count ds) ≡ accepted_limit + count_final ds
  unfolding fill_pass
  fill_pass-full count [] ready h g = omega arith
  fill_pass-full count (d ∷ ds) (ready, rest) h g =
      elim (Bool-cases (is_record_cap d.disposition)) [
        | inl capped ↦ elim (Bool-cases (ltb count accepted_limit)) [
          | inl room ↦ ground (arith, ready, fill_pass-full (count + 1) ds rest)
          | inr full ↦ ground (arith, ready, fill_pass-idle count ds)
        ]
        | inr other ↦ ground (arith, fill_pass-full count ds rest)
      ]

  -- Every candidate keeps its entry, in the order of the fused ranks.
  pub diversity_decisions-candidates :
      (cs : List (FusedCandidate F)) → map (λ d. d.candidate) (diversity_decisions cs) ≡ cs
  unfolding diversity_decisions
  diversity_decisions-candidates cs =
      fill_pass-candidates (count_final (breadth_pass 0 (λ key. 0) cs))
        (breadth_pass 0 (λ key. 0) cs)
      ∙ breadth_pass-candidates 0 (λ key. 0) cs

  -- The two passes accept every candidate when there are at most eight, and eight otherwise.
  pub count_final-diversity_decisions :
      (cs : List (FusedCandidate F))
      → count_final (diversity_decisions cs)
        ≡ (if leb (length cs) accepted_limit then length cs else accepted_limit)
  unfolding diversity_decisions
  count_final-diversity_decisions cs =
      let states = breadth_pass 0 (λ key. 0) cs in
      let ready = breadth_pass-IsOpen 0 (λ key. 0) cs in
      let bound = breadth_pass-le_limit 0 (λ key. 0) cs (omega arith) in
      let below = breadth_pass-below_limit 0 (λ key. 0) cs in
      let fits = count_final-le 0 (λ key. 0) cs in
      let short = fill_pass-short (count_final states) states ready in
      let full = fill_pass-full (count_final states) states ready in ground arith
