-- ===== src/Retrieval/Diversity/Ranks.antt =====
-- The final ranks run from one to the number of accepted entries without a gap or a repeat, and the
-- cap per record binds the breadth pass.
use decision_memory.Prelude.{
  ltb, leb, nat_beq, if◌then◌else◌, Bool-cases, nat_eq, pair_eq, list_eq, All, ℕ, suc, ◌+◌, ◌≤◌,
  ◌≡◌, inl, inr, Bool, true, false, ◌&&◌, Option, none, some, List, [], ◌∷◌, arith,
}
use decision_memory.Text.{Text}
use decision_memory.Dto.{FusedCandidate}
use decision_memory.Retrieval.Diversity.{
  diversity_cap, bump, is_record_cap, breadth_pass, count_final, fill_pass, diversity_decisions,
  Decision,
}
use decision_memory.Retrieval.Diversity.Breadth.{
  breadth_count, breadth_pass-le_cap, IsOpen, breadth_pass-IsOpen,
}
use decision_memory.Retrieval.Diversity.Fill.{}

abbrev pub has_rank : ℕ → Option ℕ → Bool
has_rank r none = false
has_rank r (some rank) = nat_beq r rank

abbrev pub indicator : Bool → ℕ
indicator true = 1
indicator false = 0

module _ {F : Type 0} where
  -- The entries with one final rank.
  abbrev pub rank_count : ℕ → List (Decision F) → ℕ
  rank_count r [] = 0
  rank_count r (d ∷ ds) = if has_rank r d.final then suc (rank_count r ds) else rank_count r ds

  breadth_pass-rank_count :
      (r count : ℕ) (counts : Text → ℕ) (cs : List (FusedCandidate F))
      → rank_count r (breadth_pass count counts cs)
        ≡ indicator (ltb count r && leb r (count + count_final (breadth_pass count counts cs)))
  unfolding breadth_pass
  breadth_pass-rank_count r count counts [] = ground arith
  breadth_pass-rank_count r count counts (c ∷ cs) = ground (
    arith,
    breadth_pass-rank_count r count counts cs,
    breadth_pass-rank_count r (count + 1) (bump counts c.record_id) cs,
  )

  fill_pass-count_final-ge :
      (count : ℕ) (ds : List (Decision F))
      → All IsOpen ds
      → count_final ds ≤ count_final (fill_pass count ds)
  unfolding fill_pass
  fill_pass-count_final-ge count [] ready = omega arith
  fill_pass-count_final-ge count (d ∷ ds) (ready, rest) = ground (
    arith,
    ready,
    fill_pass-count_final-ge count ds rest,
    fill_pass-count_final-ge (count + 1) ds rest,
  )

  fill_pass-rank_count :
      (r count : ℕ) (ds : List (Decision F))
      → All IsOpen ds
      → rank_count r (fill_pass count ds)
        ≡ rank_count r ds
          + indicator
              (ltb count r && leb (r + count_final ds) (count + count_final (fill_pass count ds)))
  unfolding fill_pass
  fill_pass-rank_count r count [] ready = ground arith
  fill_pass-rank_count r count (d ∷ ds) (ready, rest) =
      elim (Bool-cases (is_record_cap d.disposition)) [
        | inl capped ↦ ground (
          arith,
          ready,
          fill_pass-rank_count r (count + 1) ds rest,
          fill_pass-rank_count r count ds rest,
          fill_pass-count_final-ge count ds rest,
          fill_pass-count_final-ge (count + 1) ds rest,
        )
        | inr other ↦ ground (arith, fill_pass-rank_count r count ds rest)
      ]

  -- Each rank from one to the number of accepted entries is held by one entry, and no other rank by any.
  pub diversity_decisions-rank_count :
      (r : ℕ) (cs : List (FusedCandidate F))
      → rank_count r (diversity_decisions cs)
        ≡ indicator (ltb 0 r && leb r (count_final (diversity_decisions cs)))
  unfolding diversity_decisions
  diversity_decisions-rank_count r cs =
      let states = breadth_pass 0 (λ key. 0) cs in
      let first = breadth_pass-rank_count r 0 (λ key. 0) cs in
      let ready = breadth_pass-IsOpen 0 (λ key. 0) cs in
      let second = fill_pass-rank_count r (count_final states) states ready in
      let grows = fill_pass-count_final-ge (count_final states) states ready in ground arith

  fill_pass-breadth_count :
      (r : Text) (count : ℕ) (ds : List (Decision F))
      → breadth_count r (fill_pass count ds) ≤ breadth_count r ds
  unfolding fill_pass
  fill_pass-breadth_count r count [] = omega arith
  fill_pass-breadth_count r count (d ∷ ds) =
      ground (arith, fill_pass-breadth_count r count ds, fill_pass-breadth_count r (count + 1) ds)

  -- The breadth pass accepts at most two candidates of one record.
  pub diversity_decisions-le_cap :
      (r : Text) (cs : List (FusedCandidate F))
      → breadth_count r (diversity_decisions cs) ≤ diversity_cap
  unfolding diversity_decisions
  diversity_decisions-le_cap r cs =
      let states = breadth_pass 0 (λ key. 0) cs in
      let first = breadth_pass-le_cap r 0 (λ key. 0) cs in
      let second = fill_pass-breadth_count r (count_final states) states in omega arith
