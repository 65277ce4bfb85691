-- ===== src/Ingest/Entries.antt =====
-- One manifest entry in src/decision_memory/application/ingest.py: `_ingest_entry`,
-- `_unchanged_entry`, `_failed` and `_dry_run_entry`. The reader of records, the digests, the
-- chunking and the provider are parameters.
use decision_memory.Prelude.{
  if◌then◌else◌, nat_eq, ◌==◌, pair_eq, list_eq, ℕ, Bool, false, not, ◌&&◌, Option, none, some,
  List, [], ◌∷◌, map,
}
use decision_memory.Text.{Text, codes, is_empty}
use decision_memory.Dto.{ChunkPlan}
use decision_memory.Records.{CanonicalDecisionRecord}
use decision_memory.Chunking.{embedding_input, Chunked, refused, planned}
use decision_memory.Chunking.Units.{FieldSources, or_empty, missing_provenance}
use decision_memory.Ingest.Batches.{batch_count, embed_in_batches}

-- `ManifestEntry`, with the fields that ingest reads.
pub record IngestEntry : Type 0 where
  pub id : Text
  pub fingerprint : Text
  pub contributing_files : List Text
  pub record_path : Text
  pub record_digest : Text
  pub entry_digest : Text
  pub field_sources : FieldSources

pub data RecordAction : Type 0 where
  added updated unchanged removed failed : RecordAction

pub record RecordIngestResult : Type 0 where
  pub record_id : Text
  pub action : RecordAction
  pub state : Text
  pub desired_fingerprint : Text
  pub active_fingerprint : Option Text
  pub chunks : List ChunkPlan
  pub batch_count : ℕ
  pub failure_code : Option Text

-- A row of `existing_states`: the state, the desired and the active fingerprint.
abbrev pub Existing : Type 0
Existing = Text × (Option Text × Option Text)

-- The calls of the store that change it.
pub data Change (Vector : Type 0) : Type 0 where
  opened : Bool → Change Vector
  wrote : Text → CanonicalDecisionRecord → List ChunkPlan → List Vector → Text → Change Vector
  marked_failed : Text → Text → Option Text → Text → Text → Change Vector
  marked_pending : Text → Change Vector
  deleted_record : Text → Text → Option Text → Change Vector
  cleaned : Text → Change Vector
  derived : Change Vector
  activated : Text → Change Vector
  set_metadata : Text → Text → Text → Text → Change Vector
  deleted_vectors : List Text → Change Vector

-- The result of an entry, the ids of the vectors it replaces, and the changes.
abbrev pub Ingested : Type 0 → Type 0
Ingested Vector = (RecordIngestResult × List Text) × List (Change Vector)

unfoldable pub is_current : Option Existing → Text → Bool
is_current none fingerprint = false
is_current (some (state, (desired, active))) fingerprint =
    state == codes "current" && (elim active [ none ↦ false | some a ↦ a == fingerprint ])

abbrev pub active_of : Option Existing → Option Text
active_of none = none
active_of (some (state, (desired, active))) = active

abbrev pub failed_result : Text → Text → RecordIngestResult
failed_result record_id failure_code = record {
  record_id = record_id;
  action = failed;
  state = codes "failed";
  desired_fingerprint = [];
  active_fingerprint = none;
  chunks = [];
  batch_count = 0;
  failure_code = some failure_code;
}

abbrev pub unchanged_result : IngestEntry → RecordIngestResult
unchanged_result entry = record {
  record_id = entry.id;
  action = unchanged;
  state = codes "current";
  desired_fingerprint = entry.fingerprint;
  active_fingerprint = some entry.fingerprint;
  chunks = [];
  batch_count = 0;
  failure_code = none;
}

abbrev pub action_for : Option Existing → RecordAction
action_for existing = elim (active_of existing) [ none ↦ added | some a ↦ updated ]

module _ {Vector : Type 0} where
  -- A result, with the changes of the store that came before it.
  abbrev pub failed_entry :
      IngestEntry → Option Text → Text → RecordIngestResult × List (Change Vector)
  failed_entry entry prior code = (
    failed_result entry.id code,
    marked_failed entry.id entry.fingerprint prior code entry.entry_digest ∷ [],
  )

  abbrev pub without_vectors : RecordIngestResult × List (Change Vector) → Ingested Vector
  without_vectors (result, changes) = ((result, []), changes)

-- What the checks of a record before its embedding give.
pub data Prepared : Type 0 where
  unready : Text → Prepared
  ready : CanonicalDecisionRecord → List ChunkPlan → List Text → Prepared

module _ (read_record : Text → Option CanonicalDecisionRecord)
    (record_digest_of : CanonicalDecisionRecord → Text) (entry_digest_of : IngestEntry → Text)
    (count_tokens : Text → ℕ)
    (chunk : CanonicalDecisionRecord → FieldSources → Text → Text → Chunked) where
  abbrev pub prepare_chunks : CanonicalDecisionRecord → Chunked → Prepared
  prepare_chunks record_ (refused e) = unready (codes "chunking.oversize")
  prepare_chunks record_ (planned chunks) =
      ready record_ chunks
        (map (λ c. embedding_input (or_empty record_.title) c.value_path c.text) chunks)

  abbrev pub prepare_record : Text → IngestEntry → Option CanonicalDecisionRecord → Prepared
  prepare_record generation_id entry none = unready (codes "record.unreadable")
  prepare_record generation_id entry (some record_) =
      if not (record_digest_of record_ == entry.record_digest)
      then unready (codes "digest.record_mismatch")
      else if not (entry_digest_of entry == entry.entry_digest)
      then unready (codes "digest.entry_mismatch")
      else if not (is_empty (missing_provenance entry.field_sources record_))
      then unready (codes "provenance.missing")
      else prepare_chunks record_
          (chunk record_ entry.field_sources generation_id entry.fingerprint)

  unfoldable pub prepare : Text → IngestEntry → Prepared
  prepare generation_id entry = prepare_record generation_id entry (read_record entry.id)

  abbrev pub preview : IngestEntry → Prepared → RecordIngestResult
  preview entry (unready code) = failed_result entry.id code
  preview entry (ready record_ chunks inputs) = record {
    record_id = entry.id;
    action = added;
    state = codes "current";
    desired_fingerprint = entry.fingerprint;
    active_fingerprint = none;
    chunks = chunks;
    batch_count = batch_count count_tokens inputs;
    failure_code = none;
  }

  unfoldable pub dry_run_entry : IngestEntry → RecordIngestResult
  dry_run_entry entry = preview entry (prepare (codes "dry-run") entry)

  module _ {Vector : Type 0} where
    abbrev pub unchanged_record :
        IngestEntry → Option CanonicalDecisionRecord → RecordIngestResult × List (Change Vector)
    unchanged_record entry none =
        failed_entry entry (some entry.fingerprint) (codes "record.unreadable")
    unchanged_record entry (some record_) =
        if not (record_digest_of record_ == entry.record_digest)
        then failed_entry entry (some entry.fingerprint) (codes "digest.record_mismatch")
        else if not (is_empty (missing_provenance entry.field_sources record_))
        then failed_entry entry (some entry.fingerprint) (codes "provenance.missing")
        else (unchanged_result entry, [])

    unfoldable pub unchanged_entry : IngestEntry → RecordIngestResult × List (Change Vector)
    unchanged_entry entry = unchanged_record entry (read_record entry.id)

    module _ (embed : List Text → Option (List Vector))
        (old_ids_of : Change Vector → List Text) where
      abbrev pub current_result :
          IngestEntry → Option Existing → List ChunkPlan → List Text → RecordIngestResult
      current_result entry existing chunks inputs = record {
        record_id = entry.id;
        action = action_for existing;
        state = codes "current";
        desired_fingerprint = entry.fingerprint;
        active_fingerprint = some entry.fingerprint;
        chunks = chunks;
        batch_count = batch_count count_tokens inputs;
        failure_code = none;
      }

      abbrev pub write_entry :
          Text
          → IngestEntry
          → Option Existing
          → CanonicalDecisionRecord
          → List ChunkPlan
          → List Text
          → Option (List Vector)
          → Ingested Vector
      write_entry generation_id entry existing record_ chunks inputs none =
          without_vectors (failed_entry entry (active_of existing) (codes "provider.embedding"))
      write_entry generation_id entry existing record_ chunks inputs (some vectors) =
          let change = wrote generation_id record_ chunks vectors entry.entry_digest in
          ((current_result entry existing chunks inputs, old_ids_of change), change ∷ [])

      abbrev pub ingest_prepared : Text → IngestEntry → Option Existing → Prepared → Ingested Vector
      ingest_prepared generation_id entry existing (unready code) =
          without_vectors (failed_entry entry (active_of existing) code)
      ingest_prepared generation_id entry existing (ready record_ chunks inputs) =
          write_entry generation_id entry existing record_ chunks inputs
            (embed_in_batches count_tokens embed inputs)

      unfoldable pub ingest_entry : Text → IngestEntry → Option Existing → Ingested Vector
      ingest_entry generation_id entry existing =
          if is_current existing entry.fingerprint
          then without_vectors (unchanged_entry entry)
          else ingest_prepared generation_id entry existing (prepare generation_id entry)
