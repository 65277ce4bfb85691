-- ===== src/Adapters/Corpus.antt =====
-- `validate_corpus` of src/decision_memory/application/corpus_validation.py.
use decision_memory.Prelude.{
  if◌then◌else◌, nat_eq, ◌==◌, pair_eq, list_eq, any, ℕ, Bool, not, Option, none, some, List, [],
  map,
}
use decision_memory.Text.{Text, codes}
use decision_memory.Records.{Violation}
use decision_memory.Records.Fields.{has_errors}
use decision_memory.Ingest.{exit_ok, exit_failed, exit_corpus_invalid}
use decision_memory.Adapters.{
  raised, returned, failure_of, nothing_discovered, not_a_directory, DiscoveredSpec,
  DiscoveryResult, AdaptationResult, AdapterFailure, Attempt, SourceAdapter,
}

pub record SourceValidationResult : Type 0 where
  pub id : Text
  pub kind : Text
  pub violations : List Violation
  pub failure : Option AdapterFailure

pub record CorpusValidationOutcome : Type 0 where
  pub exit_code : ℕ
  pub adapter_id : Text
  pub adapter_version : Text
  pub discovered : DiscoveryResult
  pub results : List SourceValidationResult
  pub corpus_error : Option Text
  pub discovery_failure : Option AdapterFailure

abbrev pub exception_result : DiscoveredSpec → Text → Text → Text → SourceValidationResult
exception_result spec operation exception_type message = record {
  id = spec.id;
  kind = codes "exception";
  violations = [];
  failure = some (failure_of operation exception_type message);
}

abbrev pub parsed_result : DiscoveredSpec → Attempt AdaptationResult → SourceValidationResult
parsed_result spec (raised exception_type message) =
    exception_result spec (codes "parse") exception_type message
parsed_result spec (returned result) = record {
  id = spec.id;
  kind = if has_errors result.violations then codes "violation" else codes "ok";
  violations = result.violations;
  failure = none;
}

-- The parse waits for the fingerprint.
abbrev pub source_result :
    DiscoveredSpec → Attempt Text → Attempt AdaptationResult → SourceValidationResult
source_result spec (raised exception_type message) parsed =
    exception_result spec (codes "fingerprint") exception_type message
source_result spec (returned fingerprint) parsed = parsed_result spec parsed

abbrev pub validate_source : SourceAdapter → DiscoveredSpec → SourceValidationResult
validate_source adapter spec = source_result spec (adapter.fingerprint spec) (adapter.parse spec)

abbrev pub is_not_ok : SourceValidationResult → Bool
is_not_ok r = not (r.kind == codes "ok")

module _ (adapter : SourceAdapter) where
  abbrev pub outcome :
      ℕ
      → DiscoveryResult
      → List SourceValidationResult
      → Option Text
      → Option AdapterFailure
      → CorpusValidationOutcome
  outcome exit_code discovered results corpus_error discovery_failure = record {
    exit_code = exit_code;
    adapter_id = adapter.adapter_id;
    adapter_version = adapter.adapter_version;
    discovered = discovered;
    results = results;
    corpus_error = corpus_error;
    discovery_failure = discovery_failure;
  }

  abbrev pub validate_sources :
      DiscoveryResult → List SourceValidationResult → CorpusValidationOutcome
  validate_sources discovery results =
      outcome (if any is_not_ok results then exit_failed else exit_ok) discovery results none none

  abbrev pub validate_layout : DiscoveryResult → Option Text → CorpusValidationOutcome
  validate_layout discovery (some message) =
      outcome exit_corpus_invalid discovery [] (some message) none
  validate_layout discovery none =
      validate_sources discovery (map (validate_source adapter) discovery.specs)

  abbrev pub validate_discovered : Attempt DiscoveryResult → CorpusValidationOutcome
  validate_discovered (raised exception_type message) =
      outcome exit_failed nothing_discovered [] none
        (some (failure_of (codes "discover") exception_type message))
  validate_discovered (returned discovery) = validate_layout discovery discovery.corpus_error

  unfoldable pub validate_corpus : Bool → CorpusValidationOutcome
  validate_corpus is_dir =
      if is_dir
      then validate_discovered adapter.discover
      else outcome exit_corpus_invalid nothing_discovered [] (some not_a_directory) none
