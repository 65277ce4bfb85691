-- ===== src/Retrieval/Semantic.antt =====
-- The semantic stage inside `query_index` of src/decision_memory/application/query.py: the matches of
-- the vector store are checked and ranked. A `RetrievalFailure` is `none`.
use decision_memory.Prelude.{
  leb, nat_beq, if◌then◌else◌, ◌>>=◌, nat_eq, pair_eq, list_eq, Eq, length, all, contains,
  map_option, enumerate, zip_strict, keys, get, put, ℕ, Bool, not, ◌&&◌, Option, none, some, List,
  [], ◌∷◌, map,
}
use decision_memory.Text.{Text}
use decision_memory.Sorting.{}
use decision_memory.Sorting.Keys.{sort_on}
use decision_memory.Dto.{ActiveChunkDescriptor, SemanticDisposition, SemanticRow}
use decision_memory.Retrieval.Ranking.{
  candidate_limit, stable_sort_key, sort_rows, ascending_lt, FloatOps,
}

-- `len(ids) == len(accepted) and set(ids) == accepted`, where `accepted` is a set.
abbrev pub same_ids : List Text → List Text → Bool
same_ids ids expected =
    nat_beq (length ids) (length expected)
    && (all (contains expected) ids && all (contains ids) expected)

module _ {F : Type 0} ⦃e : Eq F⦄ (ops : FloatOps F) where
  abbrev pub valid_distance : F → Bool
  valid_distance distance =
      not (ops.is_nan distance)
      && (not (ops.lt distance ops.lowest_distance) && not (ops.lt ops.highest_distance distance))

  -- `max(0.0, min(2.0, raw_distance))`
  abbrev pub clamp_distance : F → F
  clamp_distance raw =
      let low = if ops.lt raw ops.two_float then raw else ops.two_float in
      if ops.lt ops.zero_float low then low else ops.zero_float

  -- The loop over the matches.
  abbrev pub check_match :
      List (Text × ActiveChunkDescriptor) → Text × F → Option (ActiveChunkDescriptor × F)
  check_match accepted_by_id (chunk_id, raw) = do
    chunk ← get accepted_by_id chunk_id
    if valid_distance raw then some (chunk, clamp_distance raw) else none

  -- `scored.sort(key=...)`
  unfoldable pub rank_matches : List (ActiveChunkDescriptor × F) → List (ActiveChunkDescriptor × F)
  rank_matches = sort_on (λ p. (p.1, stable_sort_key p.0)) (ascending_lt ops)

  abbrev pub semantic_row : ℕ × (ActiveChunkDescriptor × F) → SemanticRow F
  semantic_row (rank, (chunk, distance)) = record {
    chunk_id = chunk.chunk_id;
    rank = rank;
    distance = distance;
    similarity = ops.minus ops.one_float distance;
    disposition =
        if leb rank candidate_limit
        then SemanticDisposition.ranked
        else SemanticDisposition.outside_top_24;
  }

  -- `{row.chunk_id: row.rank for row in semantic_rows if row.disposition == RANKED}`
  abbrev pub ranked_rows : List (Text × ℕ) → List (SemanticRow F) → List (Text × ℕ)
  ranked_rows found [] = found
  ranked_rows found (row ∷ rows) = elim (row.disposition) [
    | SemanticDisposition.ranked ↦ ranked_rows (put found row.chunk_id row.rank) rows
    | SemanticDisposition.outside_top_24 ↦ ranked_rows found rows
  ]

  -- From the ids and the distances that the store returns.
  unfoldable pub semantic_stage :
      List (Text × ActiveChunkDescriptor)
      → List Text
      → List F
      → Option (List (SemanticRow F) × List (Text × ℕ))
  semantic_stage accepted_by_id ids distances = do
    checked_ids ← if same_ids ids (keys accepted_by_id) then some ids else none
    pairs ← zip_strict checked_ids distances
    scored ← map_option (check_match accepted_by_id) pairs
    let rows = map semantic_row (enumerate 1 (rank_matches scored))
    sorted_rows ← sort_rows (λ row. row.chunk_id) accepted_by_id rows
    some (sorted_rows, ranked_rows [] rows)
