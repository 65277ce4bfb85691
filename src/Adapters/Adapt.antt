-- ===== src/Adapters/Adapt.antt =====
-- `adapt_corpus` of src/decision_memory/application/adapter.py. The writes are the list of the files
-- written, with the manifest at their end; the digests, the fingerprints of the previous manifest and
-- the files that are there are parameters.
use decision_memory.Prelude.{
  nat_beq, if◌then◌else◌, nat_eq, ◌==◌, pair_eq, list_eq, any, concat_map, is_some, get, put, ℕ,
  Bool, false, ◌&&◌, Option, none, some, List, [], ◌∷◌, ◌++◌, map,
}
use decision_memory.Text.{Text, codes}
use decision_memory.Records.{CanonicalDecisionRecord, Violation}
use decision_memory.Records.Fields.{has_errors}
use decision_memory.Ingest.Entries.{IngestEntry}
use decision_memory.Ingest.{exit_ok, exit_failed, exit_corpus_invalid}
use decision_memory.Chunking.Units.{FieldSources}
use decision_memory.Adapters.{
  raised, returned, failure_of, nothing_discovered, not_a_directory, DiscoveredSpec, SkippedSource,
  Collision, DiscoveryResult, AdaptationResult, AdapterFailure, Attempt, SourceAdapter,
}

pub record RecordOutcome : Type 0 where
  pub id : Text
  pub state : Text
  pub fingerprint : Text
  pub violations : List Violation
  pub failure : Option AdapterFailure

pub record AdaptOutcome : Type 0 where
  pub exit_code : ℕ
  pub dry_run : Bool
  pub discovered : DiscoveryResult
  pub records : List RecordOutcome
  pub adapter_id : Text
  pub adapter_version : Text
  pub corpus_error : Option Text
  pub failure : Option AdapterFailure

pub data Write : Type 0 where
  wrote_record : Text → CanonicalDecisionRecord → Write
  wrote_manifest : Text → List IngestEntry → List SkippedSource → List Collision → Write

-- The previous manifest as it is read: its schema version, and the id and fingerprint of each entry.
pub data PreviousFile : Type 0 where
  absent unreadable : PreviousFile
  readable : Option ℕ → List (Text × Text) → PreviousFile

-- A dictionary of pairs, where a later pair replaces an earlier one of the key.
abbrev pub dict_of : List (Text × Text) → List (Text × Text) → List (Text × Text)
dict_of d [] = d
dict_of d ((key, value) ∷ pairs) = dict_of (put d key value) pairs

abbrev pub version_mismatch : List (Text × Text) × Option Text
version_mismatch = (
  [],
  some (
      codes
        "previous manifest is not schema version 2; every record is being rewritten (run adapt again to rebuild it)"),
)

-- The fingerprints of the previous manifest, and the warning.
abbrev pub load_previous_manifest : PreviousFile → List (Text × Text) × Option Text
load_previous_manifest absent = ([], none)
load_previous_manifest unreadable = ([], none)
load_previous_manifest (readable none entries) = version_mismatch
load_previous_manifest (readable (some version) entries) =
    if nat_beq version 2 then (dict_of [] entries, none) else version_mismatch

-- What the loop appends for one spec: an outcome, and an entry and a write where there is one.
pub record Adapted : Type 0 where
  pub outcome : RecordOutcome
  pub entry : Option IngestEntry
  pub write : Option (Text × CanonicalDecisionRecord)

abbrev pub failed_spec : DiscoveredSpec → Text → List Violation → Option AdapterFailure → Adapted
failed_spec spec fingerprint violations failure = record {
  outcome = record {
    id = spec.id;
    state = codes "failed";
    fingerprint = fingerprint;
    violations = violations;
    failure = failure;
  };
  entry = none;
  write = none;
}

abbrev pub optional {ℓ} : {A : Type ℓ} → Option A → List A
optional none = []
optional (some a) = a ∷ []

module _ (relative_to : Text → Text → Text) (record_digest_of : CanonicalDecisionRecord → Text)
    (entry_digest_of : IngestEntry → Text) (previous : List (Text × Text))
    (record_exists : Text → Bool) where
  abbrev pub is_unchanged : Text → Text → Bool
  is_unchanged id fingerprint = elim (get previous id) [
    | none ↦ false
    | some p ↦ p == fingerprint && record_exists id
  ]

  abbrev pub state_of : Text → Text → Text
  state_of id fingerprint =
      if is_unchanged id fingerprint
      then codes "unchanged"
      else if is_some (get previous id)
      then codes "rewritten"
      else codes "written"

  abbrev pub entry_without_digest :
      DiscoveredSpec → Text → CanonicalDecisionRecord → FieldSources → IngestEntry
  entry_without_digest spec fingerprint adapted field_sources = record {
    id = spec.id;
    fingerprint = fingerprint;
    contributing_files = map (relative_to spec.corpus_root) spec.contributing_files;
    record_path = spec.id ++ codes ".md";
    record_digest = record_digest_of adapted;
    entry_digest = [];
    field_sources = field_sources;
  }

  abbrev pub manifest_entry :
      DiscoveredSpec → Text → CanonicalDecisionRecord → FieldSources → IngestEntry
  manifest_entry spec fingerprint adapted field_sources = record {
    id = spec.id;
    fingerprint = fingerprint;
    contributing_files = map (relative_to spec.corpus_root) spec.contributing_files;
    record_path = spec.id ++ codes ".md";
    record_digest = record_digest_of adapted;
    entry_digest = entry_digest_of (entry_without_digest spec fingerprint adapted field_sources);
    field_sources = field_sources;
  }

  abbrev pub adapted_record :
      DiscoveredSpec → Text → AdaptationResult → Option CanonicalDecisionRecord → Adapted
  adapted_record spec fingerprint result none = failed_spec spec fingerprint result.violations none
  adapted_record spec fingerprint result (some adapted) =
      if has_errors result.violations
      then failed_spec spec fingerprint result.violations none
      else record {
        outcome = record {
          id = spec.id;
          state = state_of spec.id fingerprint;
          fingerprint = fingerprint;
          violations = result.violations;
          failure = none;
        };
        entry = some (manifest_entry spec fingerprint adapted result.field_sources);
        write = if is_unchanged spec.id fingerprint then none else some (spec.id, adapted);
      }

  abbrev pub adapt_parsed : DiscoveredSpec → Text → Attempt AdaptationResult → Adapted
  adapt_parsed spec fingerprint (raised exception_type message) =
      failed_spec spec fingerprint [] (some (failure_of (codes "parse") exception_type message))
  adapt_parsed spec fingerprint (returned result) =
      adapted_record spec fingerprint result result.adapted

  abbrev pub adapt_fingerprinted :
      DiscoveredSpec → Attempt Text → Attempt AdaptationResult → Adapted
  adapt_fingerprinted spec (raised exception_type message) parsed =
      failed_spec spec [] [] (some (failure_of (codes "fingerprint") exception_type message))
  adapt_fingerprinted spec (returned fingerprint) parsed = adapt_parsed spec fingerprint parsed

  abbrev pub adapt_spec : SourceAdapter → DiscoveredSpec → Adapted
  adapt_spec adapter spec = adapt_fingerprinted spec (adapter.fingerprint spec) (adapter.parse spec)

  abbrev pub has_failed : RecordOutcome → Bool
  has_failed r = r.state == codes "failed"

  module _ (adapter : SourceAdapter) (dry_run : Bool) where
    abbrev pub adapt_outcome :
        ℕ
        → DiscoveryResult
        → List RecordOutcome
        → Option Text
        → Option AdapterFailure
        → AdaptOutcome
    adapt_outcome exit_code discovered records corpus_error failure = record {
      exit_code = exit_code;
      dry_run = dry_run;
      discovered = discovered;
      records = records;
      adapter_id = adapter.adapter_id;
      adapter_version = adapter.adapter_version;
      corpus_error = corpus_error;
      failure = failure;
    }

    abbrev pub writes_of : DiscoveryResult → List Adapted → List Write
    writes_of discovery adapted =
        if dry_run
        then []
        else map (λ w. wrote_record w.0 w.1) (concat_map (λ a. optional a.write) adapted)
          ++ wrote_manifest adapter.adapter_version (concat_map (λ a. optional a.entry) adapted)
              discovery.skipped discovery.collisions
            ∷ []

    abbrev pub adapt_all : DiscoveryResult → List Adapted → AdaptOutcome × List Write
    adapt_all discovery adapted =
        let records = map (λ a. a.outcome) adapted in
        (
          adapt_outcome (if any has_failed records then exit_failed else exit_ok) discovery records
              none none,
          writes_of discovery adapted,
        )

    abbrev pub adapt_layout : DiscoveryResult → Option Text → AdaptOutcome × List Write
    adapt_layout discovery (some message) =
        (adapt_outcome exit_corpus_invalid discovery [] (some message) none, [])
    adapt_layout discovery none = adapt_all discovery (map (adapt_spec adapter) discovery.specs)

    abbrev pub adapt_discovered : Attempt DiscoveryResult → AdaptOutcome × List Write
    adapt_discovered (raised exception_type message) = (
      adapt_outcome exit_failed nothing_discovered [] none
          (some (failure_of (codes "discover") exception_type message)),
      [],
    )
    adapt_discovered (returned discovery) = adapt_layout discovery discovery.corpus_error

    unfoldable pub adapt_corpus : Bool → AdaptOutcome × List Write
    adapt_corpus is_dir = if is_dir then adapt_discovered adapter.discover else (
      adapt_outcome exit_corpus_invalid nothing_discovered [] (some not_a_directory) none,
      [],
    )
