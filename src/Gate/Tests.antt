-- ===== src/Gate/Tests.antt =====
-- Requests against a store of one chunk, and the theorem at one that is ready.
use decision_memory.Prelude.{
  nat_eq, pair_eq, list_eq, length, ◌≡◌, refl, Bool, true, false, Option, none, some, List, [], ◌∷◌,
}
use decision_memory.Text.{Text, codes, is_space}
use decision_memory.Sorting.{}
use decision_memory.Dto.{ActiveChunkDescriptor}
use decision_memory.Filters.{}
use decision_memory.Freshness.{manifest_freshness, current, unknown, ManifestEntry, Store}
use decision_memory.Retrieval.Ranking.{}
use decision_memory.Gate.{
  exit_error, exit_usage, failed, query_gate, QueryRequest, empty_question, refused, Gate,
}
use decision_memory.Gate.Decided.{IsDecided}
use decision_memory.Gate.Ready.{query_gate-IsDecided}

abbrev stored_chunk : ActiveChunkDescriptor
stored_chunk = record {
  chunk_id = codes "ch_1";
  record_id = codes "DM-0001";
  record_title = codes "Title";
  record_status = none;
  record_tags = [];
  value_path = codes "context";
  fingerprint = codes "f";
  ordinal = 0;
  text = codes "text";
  provenance = [];
}

abbrev one_chunk : Store
one_chunk = record {
  pipeline_signature = codes "sig";
  generation_id = some (codes "g");
  store_format = some 2;
  parity_problems = [];
  active_chunks = some (stored_chunk ∷ []);
  manifest_path = some (codes "m");
  stored_semantic = some (codes "d");
  ledger_entry_digests = [];
  has_failed_records = false;
}

abbrev asks : Text → Bool → QueryRequest
asks question allow_stale = record {
  question = question;
  allow_stale = allow_stale;
  filters = record { record_ids = []; statuses = []; tags = []; value_paths = [] };
}

abbrev gate_of : QueryRequest → Option (List ManifestEntry) → Gate
gate_of request manifest =
    query_gate length (λ entries. codes "d") (codes "sig") request one_chunk manifest

blank_question :
    gate_of (asks (codes "  ") false) (some []) ≡ failed empty_question exit_usage current
unfolding query_gate is_space
blank_question = refl

-- Without a manifest the index is of unknown freshness: refused, and read when that is allowed.
unknown_refused : gate_of (asks (codes "why") false) none ≡ failed refused exit_error unknown
unfolding query_gate manifest_freshness is_space
unknown_refused = refl

query_gate-IsDecided_example :
    IsDecided length
      (codes "sig")
      (asks (codes "why") true)
      one_chunk
      (manifest_freshness
        (λ entries. codes "d")
        one_chunk
        one_chunk.manifest_path
        one_chunk.stored_semantic
        none).0
      (gate_of (asks (codes "why") true) none)
query_gate-IsDecided_example =
    query_gate-IsDecided length (λ entries. codes "d") (codes "sig") (asks (codes "why") true)
      one_chunk none
