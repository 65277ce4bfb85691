-- ===== src/Retrieval/Diversity/Tests.antt =====
-- Four fused candidates, three of them of one record, and the theorems at them.
use decision_memory.Prelude.{
  ltb, leb, nat_eq, pair_eq, list_eq, ℕ, ◌-◌, ◌≤◌, ◌≡◌, refl, ◌&&◌, none, some, option_map, List,
  [], ◌∷◌, map,
}
use decision_memory.Text.{Text, codes}
use decision_memory.Sorting.{sort_by}
use decision_memory.Dto.{ActiveChunkDescriptor, record_cap, FinalDisposition, FusedCandidate}
use decision_memory.Retrieval.Diversity.{
  diversity_cap, breadth_pass, count_final, fill_pass, finalize, accepted_pairs,
  diversity_decisions, accepted_ids, diversity_stage,
}
use decision_memory.Retrieval.Diversity.Breadth.{breadth_count}
use decision_memory.Retrieval.Diversity.Fill.{
  diversity_decisions-candidates, count_final-diversity_decisions,
}
use decision_memory.Retrieval.Diversity.Ranks.{
  indicator, rank_count, diversity_decisions-rank_count, diversity_decisions-le_cap,
}

abbrev candidate_of : Text → Text → ℕ → FusedCandidate ℕ
candidate_of chunk_id record_id rank = record {
  chunk_id = chunk_id;
  record_id = record_id;
  value_path = codes "context";
  fingerprint = codes "f";
  ordinal = 0;
  text = codes "text";
  provenance = [];
  lexical_rank = some rank;
  semantic_rank = none;
  fused_score = 100 - rank;
  fused_rank = rank;
  breadth_disposition = record_cap;
  selection_pass = none;
  final_rank = none;
  final_disposition = FinalDisposition.outside_top_8;
}

abbrev four : List (FusedCandidate ℕ)
four =
    candidate_of (codes "c1") (codes "r") 1
    ∷ candidate_of (codes "c2") (codes "r") 2
    ∷ candidate_of (codes "c3") (codes "r") 3
    ∷ candidate_of (codes "c4") (codes "s") 4
    ∷ []

-- The third of the record waits for the fill pass and gets the last rank.
third_is_filled :
    map (λ d. d.final) (diversity_decisions four) ≡ some 1 ∷ some 2 ∷ some 4 ∷ some 3 ∷ []
unfolding diversity_decisions breadth_pass fill_pass
third_is_filled = refl

-- A chunk that is not in the table of accepted chunks raises.
missing_chunk : diversity_stage four (λ chunk_id. none) ≡ none
unfolding diversity_stage diversity_decisions breadth_pass fill_pass accepted_ids accepted_pairs
    sort_by
missing_chunk = refl

abbrev stored : ActiveChunkDescriptor
stored = record {
  chunk_id = codes "c1";
  record_id = codes "r";
  record_title = codes "Title";
  record_status = none;
  record_tags = [];
  value_path = codes "context";
  fingerprint = codes "f";
  ordinal = 0;
  text = codes "text";
  provenance = [];
}

final_facts :
    option_map
      (λ p. map (λ c. c.final_rank) p.0)
      (diversity_stage (candidate_of (codes "c1") (codes "r") 1 ∷ []) (λ chunk_id. some stored))
    ≡ some (some 1 ∷ [])
unfolding diversity_stage diversity_decisions breadth_pass fill_pass finalize accepted_ids
    accepted_pairs sort_by
final_facts = refl

diversity_decisions-candidates_example : map (λ d. d.candidate) (diversity_decisions four) ≡ four
diversity_decisions-candidates_example = diversity_decisions-candidates four

count_final-diversity_decisions_example : count_final (diversity_decisions four) ≡ 4
count_final-diversity_decisions_example = count_final-diversity_decisions four

diversity_decisions-rank_count_example :
    rank_count 4 (diversity_decisions four)
    ≡ indicator (ltb 0 4 && leb 4 (count_final (diversity_decisions four)))
diversity_decisions-rank_count_example = diversity_decisions-rank_count 4 four

diversity_decisions-le_cap_example :
    breadth_count (codes "r") (diversity_decisions four) ≤ diversity_cap
diversity_decisions-le_cap_example = diversity_decisions-le_cap (codes "r") four
