-- ===== src/Retrieval/Fusion.antt =====
-- `_fusion_stage` of src/decision_memory/application/query.py. A `KeyError` is `none`.
pub mod Union
use decision_memory.Prelude.{
  ◌>>=◌, nat_eq, pair_eq, list_eq, Eq, distinct, map_option, enumerate, keys, get, ℕ, ◌+◌, Option,
  none, some, List, ◌++◌, map,
}
use decision_memory.Text.{Text, text_lt}
use decision_memory.Sorting.{sort_by}
use decision_memory.Sorting.Keys.{sort_on}
use decision_memory.Dto.{
  ActiveChunkDescriptor, record_cap, FinalDisposition, outside_top_8, FusedCandidate,
}
use decision_memory.Retrieval.Ranking.{rrf_constant, stable_sort_key, descending_lt, FloatOps}

-- One tuple of `scored`, with the chunk that its sort key is read from.
pub record Scored (F : Type 0) : Type 0 where
  pub chunk : ActiveChunkDescriptor
  pub chunk_id : Text
  pub fused : F
  pub lexical_rank : Option ℕ
  pub semantic_rank : Option ℕ

-- `sorted(set(ranked_lexical) | set(ranked_semantic))`
abbrev pub union_ids : List (Text × ℕ) → List (Text × ℕ) → List Text
union_ids ranked_lexical ranked_semantic =
    sort_by text_lt (distinct (keys ranked_lexical ++ keys ranked_semantic))

module _ {F : Type 0} ⦃e : Eq F⦄ (ops : FloatOps F) where
  abbrev pub add_contribution : F → Option ℕ → F
  add_contribution fused none = fused
  add_contribution fused (some rank) = ops.add fused (ops.reciprocal (rrf_constant + rank))

  abbrev pub score_id :
      List (Text × ℕ)
      → List (Text × ℕ)
      → List (Text × ActiveChunkDescriptor)
      → Text
      → Option (Scored F)
  score_id ranked_lexical ranked_semantic accepted_by_id chunk_id = do
    let lexical_rank = get ranked_lexical chunk_id
    let semantic_rank = get ranked_semantic chunk_id
    chunk ← get accepted_by_id chunk_id
    some (record {
      chunk = chunk;
      chunk_id = chunk_id;
      fused = add_contribution (add_contribution ops.zero_float lexical_rank) semantic_rank;
      lexical_rank = lexical_rank;
      semantic_rank = semantic_rank;
    })

  -- `scored.sort(key=...)`
  unfoldable pub rank_scored : List (Scored F) → List (Scored F)
  rank_scored = sort_on (λ s. (s.fused, stable_sort_key s.chunk)) (descending_lt ops)

  abbrev pub fused_candidate : ℕ × Scored F → FusedCandidate F
  fused_candidate (rank, s) = record {
    chunk_id = s.chunk_id;
    record_id = s.chunk.record_id;
    value_path = s.chunk.value_path;
    fingerprint = s.chunk.fingerprint;
    ordinal = s.chunk.ordinal;
    text = s.chunk.text;
    provenance = s.chunk.provenance;
    lexical_rank = s.lexical_rank;
    semantic_rank = s.semantic_rank;
    fused_score = s.fused;
    fused_rank = rank;
    breadth_disposition = record_cap;
    selection_pass = none;
    final_rank = none;
    final_disposition = FinalDisposition.outside_top_8;
  }

  unfoldable pub fusion_stage :
      List (Text × ℕ)
      → List (Text × ℕ)
      → List (Text × ActiveChunkDescriptor)
      → Option (List (FusedCandidate F))
  fusion_stage ranked_lexical ranked_semantic accepted_by_id = do
    scored ←
        map_option (score_id ranked_lexical ranked_semantic accepted_by_id)
          (union_ids ranked_lexical ranked_semantic)
    some (map fused_candidate (enumerate 1 (rank_scored scored)))
