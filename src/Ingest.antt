-- ===== src/Ingest.antt =====
-- `_run_ingest`, `_dry_run` and `ingest_records` of src/decision_memory/application/ingest.py. The
-- calls of the store that change it are the list of `Change`s in their order; what the store, the
-- provider, the key check and the readers of the manifest and of its digests answer is a parameter.
pub mod Batches
pub mod Entries
pub mod Runs
pub mod Preview
pub mod Order
pub mod Provider
mod Tests
use decision_memory.Prelude.{
  if◌then◌else◌, nat_eq, ◌==◌, pair_eq, list_eq, any, keep, contains, concat_map, get, ℕ, ◌+◌, Bool,
  true, false, not, ◌&&◌, ◌||◌, Option, none, some, List, [], ◌∷◌, ◌++◌, map,
}
use decision_memory.Text.{Text, codes, is_empty, text_lt, strip, join}
use decision_memory.Sorting.Keys.{sort_on}
use decision_memory.Records.{CanonicalDecisionRecord}
use decision_memory.Chunking.{Chunked}
use decision_memory.Chunking.Units.{FieldSources}
use decision_memory.Ingest.Entries.{
  Existing, Ingested, is_current, dry_run_entry, ingest_entry, IngestEntry, removed, failed,
  RecordIngestResult, Change, opened, marked_pending, deleted_record, cleaned, derived, activated,
  deleted_vectors,
}

abbrev pub exit_ok : ℕ
exit_ok = 0

abbrev pub exit_failed : ℕ
exit_failed = 1

abbrev pub exit_corpus_invalid : ℕ
exit_corpus_invalid = 3

pub data IngestState : Type 0 where
  completed partial run_failed : IngestState

pub record Failure : Type 0 where
  pub code : Text
  pub stage : Text
  pub detail : Text

pub record IngestResult : Type 0 where
  pub state : IngestState
  pub exit_code : ℕ
  pub records : List RecordIngestResult
  pub provider_attempts : ℕ
  pub failure : Option Failure

-- `Manifest`, with the fields that ingest reads.
pub record Manifest : Type 0 where
  pub entries : List IngestEntry
  pub source_root_hint : Text

abbrev pub sum : List ℕ → ℕ
sum [] = 0
sum (n ∷ ns) = n + sum ns

abbrev pub result_of : ℕ → IngestState → List RecordIngestResult → Option Failure → IngestResult
result_of exit_code state records failure = record {
  state = state;
  exit_code = exit_code;
  records = records;
  provider_attempts = sum (map (λ r. r.batch_count) records);
  failure = failure;
}

abbrev pub stopped_with : List RecordIngestResult → Text → Text → Text → IngestResult
stopped_with records code stage detail =
    result_of exit_failed run_failed records
      (some (record { code = code; stage = stage; detail = detail }))

abbrev pub is_failed : RecordIngestResult → Bool
is_failed r = elim r.action [ failed ↦ true | _ ↦ false ]

-- The end of a run: partial when a record failed.
abbrev pub finished : List RecordIngestResult → IngestResult
finished records =
    let is_partial = any is_failed records in
    result_of (if is_partial then exit_failed else exit_ok)
      (if is_partial then partial else completed) records none

unfoldable pub plan_needs_provider : Manifest → List (Text × Existing) → Bool → Bool
plan_needs_provider manifest states rebuild =
    not (is_empty manifest.entries)
    && (rebuild
        || any (λ entry. not (is_current (get states entry.id) entry.fingerprint)) manifest.entries)

abbrev pub sorted_entries : Manifest → List IngestEntry
sorted_entries manifest = sort_on (λ entry. entry.id) text_lt manifest.entries

abbrev pub is_removable : List Text → Text × Existing → Bool
is_removable manifest_ids (record_id, (state, rest)) =
    not (contains manifest_ids record_id || state == codes "removed")

abbrev pub removed_result : Text → RecordIngestResult
removed_result record_id = record {
  record_id = record_id;
  action = removed;
  state = codes "removed";
  desired_fingerprint = [];
  active_fingerprint = none;
  chunks = [];
  batch_count = 0;
  failure_code = none;
}

abbrev pub is_incompatible : Bool → Option Text → Text → Bool
is_incompatible rebuild none signature = false
is_incompatible rebuild (some stored) signature = not rebuild && not (stored == signature)

abbrev pub planned_states : Bool → List (Text × Existing) → List (Text × Existing)
planned_states rebuild existing_states = if rebuild then [] else existing_states

module _ {Vector : Type 0} where
  abbrev pub removal : Text → Text × Existing → List (Change Vector)
  removal generation_id (record_id, (state, (desired, active))) =
      marked_pending record_id ∷ deleted_record generation_id record_id active ∷ []

module _ {Vector : Type 0} (generation_id : Text)
    (supersession_problems activation_problems : List (Change Vector) → List Text)
    (metadata : Change Vector) where
  -- The changes up to the check of the supersessions.
  abbrev pub staged :
      Bool → Manifest → List (Text × Existing) → List (Ingested Vector) → List (Change Vector)
  staged rebuild manifest states ingested =
      opened rebuild
      ∷ (concat_map (λ i. i.1) ingested
          ++ (concat_map (removal generation_id)
                (keep (is_removable (map (λ entry. entry.id) manifest.entries)) states)
              ++ cleaned generation_id ∷ derived ∷ []))

  abbrev pub all_results :
      Manifest → List (Text × Existing) → List (Ingested Vector) → List RecordIngestResult
  all_results manifest states ingested =
      map (λ i. i.0.0) ingested
      ++ map (λ row. removed_result row.0)
          (keep (is_removable (map (λ entry. entry.id) manifest.entries)) states)

  -- The activation, and what follows where it has no problem.
  abbrev pub activate :
      Manifest
      → List (Text × Existing)
      → List (Ingested Vector)
      → List (Change Vector)
      → List Text
      → IngestResult × List (Change Vector)
  activate manifest states ingested changes [] = (
    finished (all_results manifest states ingested),
    changes ++ metadata ∷ map (λ i. deleted_vectors i.0.1) ingested,
  )
  activate manifest states ingested changes (problem ∷ problems) = (
    stopped_with (all_results manifest states ingested) (codes "store.parity") (codes "store")
        (join (codes "; ") (problem ∷ problems)),
    changes,
  )

  abbrev pub check_supersessions :
      Manifest
      → List (Text × Existing)
      → List (Ingested Vector)
      → List (Change Vector)
      → List Text
      → IngestResult × List (Change Vector)
  check_supersessions manifest states ingested changes [] =
      let tried = changes ++ activated generation_id ∷ [] in
      activate manifest states ingested tried (activation_problems tried)
  check_supersessions manifest states ingested changes (problem ∷ problems) = (
    stopped_with (all_results manifest states ingested) (codes "supersession.invalid")
        (codes "ingest") (join (codes "; ") (problem ∷ problems)),
    changes,
  )

  -- The run behind the loop over the entries.
  unfoldable pub apply_ingested :
      Bool
      → Manifest
      → List (Text × Existing)
      → List (Ingested Vector)
      → IngestResult × List (Change Vector)
  apply_ingested rebuild manifest states ingested =
      check_supersessions manifest states ingested (staged rebuild manifest states ingested)
        (supersession_problems (staged rebuild manifest states ingested))

module _ (read_record : Text → Option CanonicalDecisionRecord)
    (record_digest_of : CanonicalDecisionRecord → Text) (entry_digest_of : IngestEntry → Text)
    (count_tokens : Text → ℕ)
    (chunk : CanonicalDecisionRecord → FieldSources → Text → Text → Chunked) where
  unfoldable pub dry_run : Manifest → IngestResult
  dry_run manifest = finished (
      map (dry_run_entry read_record record_digest_of entry_digest_of count_tokens chunk)
        (sorted_entries manifest))

  module _ {Vector : Type 0} (embed : List Text → Option (List Vector))
      (old_ids_of : Change Vector → List Text) (generation_id : Text)
      (supersession_problems activation_problems : List (Change Vector) → List Text)
      (metadata : Change Vector) where
    abbrev pub ingest_each : Manifest → List (Text × Existing) → List (Ingested Vector)
    ingest_each manifest states =
        map
          (λ entry.
            ingest_entry read_record record_digest_of entry_digest_of count_tokens chunk embed
              old_ids_of generation_id entry (get states entry.id))
          (sorted_entries manifest)

    -- The run behind the checks of its plan.
    abbrev pub apply_plan :
        Bool → Manifest → List (Text × Existing) → IngestResult × List (Change Vector)
    apply_plan rebuild manifest states =
        apply_ingested generation_id supersession_problems activation_problems metadata rebuild
          manifest states (ingest_each manifest states)

    -- What the key check says, where the plan has an embedding call.
    abbrev pub check_key :
        Bool → Manifest → List (Text × Existing) → Option Text → IngestResult × List (Change Vector)
    check_key rebuild manifest states none = apply_plan rebuild manifest states
    check_key rebuild manifest states (some message) = (
      stopped_with [] (codes "provider.key") (codes "planning")
          (if is_empty (strip message) then codes "OPENAI_API_KEY is not set" else strip message),
      [],
    )

    unfoldable pub run_ingest :
        Bool
        → Manifest
        → Option Text
        → Text
        → List (Text × Existing)
        → Option Text
        → IngestResult × List (Change Vector)
    run_ingest rebuild manifest stored_signature signature existing_states key_error =
        let states = planned_states rebuild existing_states in
        if is_incompatible rebuild stored_signature signature
        then (
          stopped_with [] (codes "pipeline.incompatible") (codes "pipeline")
              (codes "index was built with a different pipeline signature; run ingest --rebuild"),
          [],
        )
        else if plan_needs_provider manifest states rebuild
        then check_key rebuild manifest states key_error
        else apply_plan rebuild manifest states

    unfoldable pub ingest_records :
        Bool
        → Option Manifest
        → Bool
        → Bool
        → Option Text
        → Text
        → List (Text × Existing)
        → Option Text
        → IngestResult × List (Change Vector)
    ingest_records is_dir none dry rebuild stored_signature signature existing_states key_error =
        if is_dir
        then (
          stopped_with [] (codes "manifest.invalid") (codes "manifest")
              (codes "manifest could not be read"),
          [],
        )
        else (result_of exit_corpus_invalid run_failed [] none, [])
    ingest_records is_dir (some manifest) dry rebuild stored_signature signature existing_states
          key_error =
        if not is_dir
        then (result_of exit_corpus_invalid run_failed [] none, [])
        else if dry
        then (dry_run manifest, [])
        else run_ingest rebuild manifest stored_signature signature existing_states key_error
