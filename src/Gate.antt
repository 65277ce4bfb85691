-- ===== src/Gate.antt =====
-- `query_index` of src/decision_memory/application/query.py up to the lexical stage: the checks, their
-- order and their results. The token counter and the digest of the manifest are parameters.
pub mod Selected
pub mod Decided
pub mod Ready
mod Tests
use decision_memory.Prelude.{
  ltb, if◌then◌else◌, ◌==◌, nat_eq, pair_eq, list_eq, keep, contains, is_some, put, ℕ, Bool, true,
  false, not, ◌&&◌, Option, none, some, List, [], ◌∷◌, map,
}
use decision_memory.Text.{Text, is_empty, strip}
use decision_memory.Dto.{accepted, excluded, QueryFilters, ActiveChunkDescriptor, FilterRow}
use decision_memory.Filters.{filter_descriptors}
use decision_memory.Freshness.{
  manifest_freshness, FreshnessState, current, drift, unknown, incompatible, ManifestEntry, Store,
}
use decision_memory.Retrieval.Ranking.{sort_rows}

abbrev pub model_token_limit : ℕ
model_token_limit = 8191

abbrev pub store_format_version : ℕ
store_format_version = 2

abbrev pub exit_error : ℕ
exit_error = 1

abbrev pub exit_usage : ℕ
exit_usage = 2

pub record QueryRequest : Type 0 where
  pub question : Text
  pub allow_stale : Bool
  pub filters : QueryFilters

-- `store_format() == STORE_FORMAT_VERSION`
abbrev pub store_format_is : Option ℕ → Bool
store_format_is none = false
store_format_is (some format) = format == store_format_version

-- The codes of the failures, by their name after the dot.
pub data FailureCode : Type 0 where
  empty_question uninitialized unsupported_format incompatible_signature refused
        overlimit_question :
      FailureCode
  parity : FailureCode

-- How far the query gets. `failed` and `abstained` are results, with the freshness of their trace;
-- `raised` is a `RetrievalFailure` of the filter stage, or the `KeyError`
-- that the rows of `filter_descriptors` do not cause, and `ready` goes on to the lexical stage.
pub data Gate : Type 0 where
  failed : FailureCode → ℕ → FreshnessState → Gate
  abstained : FreshnessState → List FilterRow → Gate
  raised : Gate
  ready : FreshnessState → List FilterRow → List (Text × ActiveChunkDescriptor) → Gate

-- `{chunk.chunk_id: chunk for chunk in chunks}`
abbrev pub by_chunk_id :
    List (Text × ActiveChunkDescriptor)
    → List ActiveChunkDescriptor
    → List (Text × ActiveChunkDescriptor)
by_chunk_id table [] = table
by_chunk_id table (chunk ∷ chunks) = by_chunk_id (put table chunk.chunk_id chunk) chunks

abbrev pub is_accepted : FilterRow → Bool
is_accepted row = elim (row.state) [ accepted ↦ true | excluded ↦ false ]

abbrev pub accepted_chunk_ids : List FilterRow → List Text
accepted_chunk_ids rows = map (λ row. row.chunk_id) (keep is_accepted rows)

-- `freshness_state in (DRIFT, UNKNOWN)`
abbrev pub is_stale : FreshnessState → Bool
is_stale drift = true
is_stale unknown = true
is_stale _ = false

module _ (count_tokens : Text → ℕ) where
  -- From the read of the snapshot on.
  unfoldable pub filter_stage :
      QueryRequest → Store → FreshnessState → Option (List ActiveChunkDescriptor) → Gate
  filter_stage request store freshness none = raised
  filter_stage request store freshness (some active) =
      let filter_rows = filter_descriptors active request.filters in
      let accepted_ids = accepted_chunk_ids filter_rows in
      let accepted_by_id =
        by_chunk_id [] (keep (λ chunk. contains accepted_ids chunk.chunk_id) active) in
      elim (sort_rows (λ row. row.chunk_id) (by_chunk_id [] active) filter_rows) [
        | none ↦ raised
        | some trace_rows ↦
            if is_empty active
            then abstained freshness []
            else if is_empty accepted_ids
            then abstained freshness trace_rows
            else if ltb model_token_limit (count_tokens request.question)
            then failed overlimit_question exit_usage freshness
            else if not (is_empty store.parity_problems)
            then failed parity exit_error freshness
            else ready freshness trace_rows accepted_by_id
      ]

module _ (count_tokens : Text → ℕ) (semantic_digest : List ManifestEntry → Text)
    (running_signature : Text) where
  -- The whole, with the manifest that loads, or `none`.
  unfoldable pub query_gate : QueryRequest → Store → Option (List ManifestEntry) → Gate
  query_gate request store manifest =
      let freshness =
        (manifest_freshness semantic_digest store store.manifest_path store.stored_semantic
          manifest).0 in
      if is_empty (strip request.question)
      then failed empty_question exit_usage current
      else if not (is_some store.generation_id)
      then failed uninitialized exit_error current
      else if not (store_format_is store.store_format)
      then failed unsupported_format exit_error current
      else if not (store.pipeline_signature == running_signature)
      then failed incompatible_signature exit_error incompatible
      else if is_stale freshness && not request.allow_stale
      then failed refused exit_error freshness
      else filter_stage count_tokens request store freshness store.active_chunks
