-- ===== src/Gate/Ready.antt =====
-- Where each query ends or goes on, and what its result says of the freshness of the index.
use decision_memory.Prelude.{
  ltb, Bool-cases, Option-cases, nat_eq, pair_eq, list_eq, keep, contains, ℕ, ◌≡◌, refl, sym, subst,
  inl, inr, true, false, not, ◌&&◌, Option, none, some, List, [], arith,
}
use decision_memory.Text.{Text, is_empty, strip}
use decision_memory.Dto.{ActiveChunkDescriptor}
use decision_memory.Filters.{filter_descriptors}
use decision_memory.Filters.Rows.{}
use decision_memory.Freshness.{
  manifest_freshness, FreshnessState, current, incompatible, ManifestEntry, Store,
}
use decision_memory.Retrieval.Ranking.{sort_rows}
use decision_memory.Gate.{
  exit_error, exit_usage, model_token_limit, parity, failed, abstained, ready, by_chunk_id,
  accepted_chunk_ids, is_stale, filter_stage, query_gate, QueryRequest, empty_question,
  uninitialized, unsupported_format, incompatible_signature, refused, overlimit_question, Gate,
}
use decision_memory.Gate.Decided.{
  IsLetIn, IsSigned, IsSelected, IsDecided, empty-cases, In-some, generation-cases, signature-cases,
  format-cases, stale-cases,
}
use decision_memory.Gate.Selected.{accepted_chunk_ids-cases, sort_rows-filtered}

module _ (count_tokens : Text → ℕ) (running_signature : Text) (request : QueryRequest)
    (store : Store) where
  filter_stage-IsDecided :
      (measured : FreshnessState) (snapshot : Option (List ActiveChunkDescriptor))
      → store.active_chunks ≡ snapshot
      → IsLetIn count_tokens running_signature request store measured
      → IsDecided count_tokens running_signature request store measured
          (filter_stage count_tokens request store measured snapshot)
  unfolding filter_stage
  filter_stage-IsDecided measured none e let_in = (let_in, e)
  filter_stage-IsDecided measured (some active) e let_in =
      let rows = filter_descriptors active request.filters in
      let result = filter_stage count_tokens request store measured (some active) in
      let carry : (g : Gate)
          → result ≡ g
          → IsDecided count_tokens running_signature request store measured g
          → IsDecided count_tokens running_signature request store measured result =
        λ g k. subst (IsDecided count_tokens running_signature request store measured) (sym k) in
      elim (Option-cases (sort_rows (λ row. row.chunk_id) (by_chunk_id [] active) rows)) [
        | inl broken ↦ absurd (sort_rows-filtered active request.filters broken)
        | inr (sorted, found) ↦ elim (accepted_chunk_ids-cases request.filters active) [
          | inl (nothing, fail) ↦ elim (Bool-cases (is_empty active)) [
            | inl no_chunk ↦
                carry (abstained measured []) (rw (filter_stage, found, no_chunk) refl)
                  (active, let_in, e, fail, refl)
            | inr some_chunk ↦
                carry (abstained measured sorted)
                  (rw (filter_stage, found, some_chunk, nothing) refl)
                  (active, let_in, e, fail, refl)
          ]
          | inr (something, (chunk, m, passes)) ↦
              let some_chunk = In-some m in
              let selected : IsSelected count_tokens running_signature request store measured =
                (active, e, (chunk, m, passes)) in
              elim (Bool-cases (ltb model_token_limit (count_tokens request.question))) [
                | inl long ↦
                    carry (failed overlimit_question exit_usage measured)
                      (rw (filter_stage, found, some_chunk, something, long) refl)
                      (let_in, selected, ground arith, refl, refl)
                | inr short ↦ elim (empty-cases store.parity_problems) [
                  | inl (clean, none_left) ↦
                      carry
                        (ready measured sorted (
                          by_chunk_id [] (
                            keep (λ chunk. contains (accepted_chunk_ids rows) chunk.chunk_id)
                              active)))
                        (rw (filter_stage, found, some_chunk, something, short, clean) refl)
                        (let_in, selected, ground arith, none_left, refl)
                  | inr (problems, some_left) ↦
                      carry (failed parity exit_error measured)
                        (rw (filter_stage, found, some_chunk, something, short, problems) refl)
                        (let_in, selected, ground arith, some_left, refl, refl)
                ]
              ]
        ]
      ]

module _ (count_tokens : Text → ℕ) (semantic_digest : List ManifestEntry → Text)
    (running_signature : Text) where
  -- A query fails exactly for the first of these that holds, with the exit code 2 for a blank or a
  -- too long question and 1 otherwise: a blank question, no generation, a store format other than 2,
  -- another pipeline signature, a stale index that the request does not allow, and, where some chunk
  -- passes the filters, a question above 8191 tokens and a parity problem. It abstains when no chunk
  -- passes, raises only when the snapshot cannot be read, and otherwise reaches the lexical stage.
  -- The freshness of the result is the measured one, but current before the signature is compared
  -- and incompatible where it differs.
  pub query_gate-IsDecided :
      (request : QueryRequest) (store : Store) (manifest : Option (List ManifestEntry))
      → IsDecided count_tokens running_signature request store
          (manifest_freshness semantic_digest store store.manifest_path store.stored_semantic
            manifest).0
          (query_gate count_tokens semantic_digest running_signature request store manifest)
  unfolding query_gate
  query_gate-IsDecided request store manifest =
      let measured =
        (manifest_freshness semantic_digest store store.manifest_path store.stored_semantic
          manifest).0 in
      let result =
        query_gate count_tokens semantic_digest running_signature request store manifest in
      let carry : (g : Gate)
          → result ≡ g
          → IsDecided count_tokens running_signature request store measured g
          → IsDecided count_tokens running_signature request store measured result =
        λ g k. subst (IsDecided count_tokens running_signature request store measured) (sym k) in
      elim (empty-cases (strip request.question)) [
        | inl (blank, e) ↦
            carry (failed empty_question exit_usage current) (rw blank refl) (e, refl, refl)
        | inr (asked, a) ↦ elim (generation-cases store.generation_id) [
          | inr (absent, e) ↦
              carry (failed uninitialized exit_error current) (rw (asked, absent) refl)
                (a, e, refl, refl)
          | inl (built, b) ↦ elim (format-cases store.store_format) [
            | inr (other_format, e) ↦
                carry (failed unsupported_format exit_error current)
                  (rw (asked, built, other_format) refl) ((a, b), e, refl, refl)
            | inl (supported, c) ↦
                elim (signature-cases store.pipeline_signature running_signature) [
                  | inr (differs, e) ↦
                      carry (failed incompatible_signature exit_error incompatible)
                        (rw (asked, built, supported, differs) refl) (((a, b), c), e, refl, refl)
                  | inl (same, d) ↦
                      let signed : IsSigned count_tokens running_signature request store measured =
                        (((a, b), c), d) in
                      let goes_on : (is_stale measured && not request.allow_stale) ≡ false
                          → IsLetIn count_tokens running_signature request store measured
                          → IsDecided count_tokens running_signature request store measured result =
                        λ fresh let_in.
                          carry
                            (filter_stage count_tokens request store measured store.active_chunks)
                            (rw (asked, built, supported, same, fresh) refl)
                            (filter_stage-IsDecided count_tokens running_signature request store
                              measured store.active_chunks refl let_in) in
                      elim (stale-cases measured) [
                        | inr (fresh, k, l) ↦ goes_on (ground arith) (signed, inr (k, l))
                        | inl (stale, k) ↦ elim (Bool-cases request.allow_stale) [
                          | inl allowed ↦ goes_on (ground arith) (signed, inl allowed)
                          | inr strict ↦
                              let refuses : (is_stale measured && not request.allow_stale) ≡ true =
                                ground arith in
                              carry (failed refused exit_error measured)
                                (rw (asked, built, supported, same, refuses) refl)
                                (signed, strict, k, refl, refl)
                        ]
                      ]
                ]
          ]
        ]
      ]
