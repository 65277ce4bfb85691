-- ===== src/Retrieval/Lexical.antt =====
-- `_lexical_stage` of src/decision_memory/application/query.py. A `ValueError` or a `KeyError` is
-- `none`. The scorer of the `LexicalScorer` protocol is a parameter.
use decision_memory.Prelude.{
  leb, if◌then◌else◌, ◌>>=◌, nat_eq, pair_eq, list_eq, Eq, any, contains, enumerate, zip_strict,
  values, put, ℕ, Bool, true, false, Option, none, some, List, [], ◌∷◌, ◌++◌, map,
}
use decision_memory.Text.{Text, text_lt}
use decision_memory.Sorting.{}
use decision_memory.Sorting.Keys.{sort_on}
use decision_memory.Dto.{ActiveChunkDescriptor, LexicalDisposition, LexicalRow}
use decision_memory.Tokenizer.{tokenize}
use decision_memory.Retrieval.Ranking.{
  candidate_limit, stable_sort_key, sort_rows, descending_lt, FloatOps,
}

module _ {F : Type 0} where
  -- The row of a positive score at its rank.
  abbrev pub ranked_row : ℕ × (ActiveChunkDescriptor × F) → LexicalRow F
  ranked_row (rank, (chunk, score)) = record {
    chunk_id = chunk.chunk_id;
    score = score;
    rank = some rank;
    disposition =
        if leb rank candidate_limit
        then LexicalDisposition.ranked
        else LexicalDisposition.outside_top_24;
  }

  abbrev pub unranked_row : ActiveChunkDescriptor → F → LexicalDisposition → LexicalRow F
  unranked_row chunk score disposition = record {
    chunk_id = chunk.chunk_id;
    score = score;
    rank = none;
    disposition = disposition;
  }

  -- `ranked[chunk.chunk_id] = rank`, for the ranks up to the limit.
  abbrev pub ranked_ids : List (Text × ℕ) → List (ℕ × (ActiveChunkDescriptor × F)) → List (Text × ℕ)
  ranked_ids found [] = found
  ranked_ids found ((rank, (chunk, score)) ∷ entries) =
      if leb rank candidate_limit
      then ranked_ids (put found chunk.chunk_id rank) entries
      else ranked_ids found entries

module _ {F : Type 0} ⦃e : Eq F⦄ (ops : FloatOps F) where
  -- `positive.sort(key=...)`
  unfoldable pub rank_positive : List (ActiveChunkDescriptor × F) → List (ActiveChunkDescriptor × F)
  rank_positive = sort_on (λ p. (p.1, stable_sort_key p.0)) (descending_lt ops)

module _ (lower : Text → Text) (is_letter is_mark : ℕ → Bool) {F : Type 0} ⦃e : Eq F⦄
    (ops : FloatOps F) where
  abbrev pub shares_token : List Text → List Text → Bool
  shares_token query_tokens doc_tokens = any (contains doc_tokens) query_tokens

  -- The loop over the scored chunks: the rows without a rank, and the positive scores.
  unfoldable pub classify_scores :
      List Text
      → List (ActiveChunkDescriptor × F)
      → Option (List (LexicalRow F) × List (ActiveChunkDescriptor × F))
  classify_scores query_tokens [] = some ([], [])
  classify_scores query_tokens ((chunk, score) ∷ scored) = do
    (rows, positive) ← classify_scores query_tokens scored
    elim (ops.is_finite score) [
      | false ↦ none
      | true ↦ elim (shares_token query_tokens (tokenize lower is_letter is_mark chunk.text)) [
        | false ↦ some (unranked_row chunk score LexicalDisposition.no_term_match ∷ rows, positive)
        | true ↦ elim (ops.lt ops.zero_float score) [
          | false ↦
              some (unranked_row chunk score LexicalDisposition.nonpositive_score ∷ rows, positive)
          | true ↦ some (rows, (chunk, score) ∷ positive)
        ]
      ]
    ]

  unfoldable pub lexical_stage :
      Text
      → List (Text × ActiveChunkDescriptor)
      → (List Text → List (List Text) → List F)
      → Option (List (LexicalRow F) × List (Text × ℕ))
  lexical_stage question accepted_by_id scorer = do
    let ordered = sort_on (λ chunk. chunk.chunk_id) text_lt (values accepted_by_id)
    let query_tokens = tokenize lower is_letter is_mark question
    let document_tokens = map (λ chunk. tokenize lower is_letter is_mark chunk.text) ordered
    scored ← zip_strict ordered (scorer query_tokens document_tokens)
    (rows, positive) ← classify_scores query_tokens scored
    let ranked_entries = enumerate 1 (rank_positive ops positive)
    sorted_rows ←
        sort_rows (λ row. row.chunk_id) accepted_by_id (rows ++ map ranked_row ranked_entries)
    some (sorted_rows, ranked_ids [] ranked_entries)
