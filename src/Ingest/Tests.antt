-- ===== src/Ingest/Tests.antt =====
-- An ingest run over a new, an unchanged and a removed record, and its theorems there.
use decision_memory.Prelude.{
  nat_eq, pair_eq, list_eq, length, All, concat_map, ℕ, ◌*◌, ◌/◌, ◌≡◌, refl, false, Option, none,
  some, List, [], ◌∷◌, map,
}
use decision_memory.Text.{Text, codes, is_space}
use decision_memory.Sorting.{sort_by}
use decision_memory.Records.{CanonicalDecisionRecord}
use decision_memory.Chunking.Units.{FieldSources}
use decision_memory.Chunking.{Chunked, Payload}
use decision_memory.Ingest.Batches.{batch_count, embed_in_batches}
use decision_memory.Ingest.Batches.Bounds.{IsBatch, embed_all, embed_in_batches-IsBatch}
use decision_memory.Ingest.Entries.{
  Existing, is_current, dry_run_entry, unchanged_entry, ingest_entry, IngestEntry,
  RecordIngestResult, Change, set_metadata,
}
use decision_memory.Ingest.{plan_needs_provider, apply_ingested, run_ingest, IngestResult, Manifest}
use decision_memory.Ingest.Provider.{run_ingest-provider_free}
use decision_memory.Ingest.Order.{IsRun, run_ingest-Applied}
use decision_memory.Ingest.Preview.{Foretells, chunk_with, dry_run_entry-Foretells}

abbrev sourced : FieldSources
sourced = (codes "why[0]", record { path = codes "a.md"; section = codes "Why" } ∷ []) ∷ []

abbrev small : Text → CanonicalDecisionRecord
small id = record {
  id = some id;
  title = none;
  status = none;
  date = none;
  body = none;
  context = none;
  decision = none;
  why = codes "Small." ∷ [];
  rationale_summary = none;
  consequences = none;
  evidence = none;
  tags = [];
  supersedes = none;
}

abbrev read_small : Text → Option CanonicalDecisionRecord
read_small id = some (small id)

abbrev record_digest_d : CanonicalDecisionRecord → Text
record_digest_d r = codes "d"

abbrev entry_digest_e : IngestEntry → Text
entry_digest_e entry = codes "e"

abbrev entry_of : Text → IngestEntry
entry_of id = record {
  id = id;
  fingerprint = codes "f";
  contributing_files = [];
  record_path = id;
  record_digest = codes "d";
  entry_digest = codes "e";
  field_sources = sourced;
}

abbrev manifest : Manifest
manifest = record {
  entries = entry_of (codes "b") ∷ entry_of (codes "a") ∷ [];
  source_root_hint = [];
}

abbrev unchanged_manifest : Manifest
unchanged_manifest = record { entries = entry_of (codes "b") ∷ []; source_root_hint = [] }

abbrev states : List (Text × Existing)
states =
    (codes "b", (codes "current", (some (codes "f"), some (codes "f"))))
    ∷ (codes "c", (codes "current", (some (codes "f"), some (codes "f"))))
    ∷ []

abbrev share_of : ℕ → ℕ
share_of n = n * 15 / 100

abbrev plain_digest : Text → Text
plain_digest t = t

abbrev first_text : List Payload → Text
first_text payload = codes "p"

abbrev chunked_20 : CanonicalDecisionRecord → FieldSources → Text → Text → Chunked
chunked_20 = chunk_with length share_of 20 plain_digest first_text

-- A provider that answers a vector for each text, and one that fails.
abbrev lengths : List Text → Option (List ℕ)
lengths batch = some (map length batch)

abbrev fails : List Text → Option (List ℕ)
fails batch = none

abbrev no_old : Change ℕ → List Text
no_old change = []

abbrev no_problems : List (Change ℕ) → List Text
no_problems changes = []

abbrev metadata : Change ℕ
metadata = set_metadata [] [] [] []

abbrev run_with :
    (List Text → Option (List ℕ)) → Manifest → Option Text → IngestResult × List (Change ℕ)
run_with embed m key_error =
    run_ingest read_small record_digest_d entry_digest_e length chunked_20 embed no_old (codes "g")
      no_problems no_problems metadata false m (some (codes "s")) (codes "s") states key_error

needs_key : (run_with lengths manifest (some [])).1 ≡ []
unfolding run_ingest plan_needs_provider is_current is_space
needs_key = refl

runs_without_key :
    map
      (λ (r : RecordIngestResult). r.record_id)
      (run_with fails unchanged_manifest (some [])).0.records
    ≡ codes "b" ∷ codes "c" ∷ []
unfolding run_ingest plan_needs_provider is_current apply_ingested ingest_entry unchanged_entry
    sort_by decision_memory.Chunking.Units.missing_provenance
    decision_memory.Chunking.Units.chunkable_units decision_memory.Text.Segments.decimal
    decision_memory.Chunking.Units.split_body_units
runs_without_key = refl

embed_in_batches-IsBatch_example :
    (batches : List (List Text)) × (concat_map (λ b. b) batches ≡ codes "ab" ∷ codes "c" ∷ [])
    × All (IsBatch length) batches
    × (embed_in_batches length lengths (codes "ab" ∷ codes "c" ∷ [])
        ≡ embed_all length lengths batches)
    × (batch_count length (codes "ab" ∷ codes "c" ∷ []) ≡ length batches)
embed_in_batches-IsBatch_example =
    embed_in_batches-IsBatch length lengths (codes "ab" ∷ codes "c" ∷ [])

run_ingest-provider_free_example :
    run_with lengths unchanged_manifest none ≡ run_with fails unchanged_manifest (some [])
unfolding plan_needs_provider is_current
run_ingest-provider_free_example =
    run_ingest-provider_free read_small record_digest_d entry_digest_e length chunked_20 lengths
      fails no_old (codes "g") no_problems no_problems metadata false unchanged_manifest
      (some (codes "s")) (codes "s") states none (some []) refl

run_ingest-Applied_example :
    IsRun
      (codes "g")
      no_problems
      false
      manifest
      (some (codes "s"))
      (codes "s")
      states
      none
      (run_with lengths manifest none)
run_ingest-Applied_example =
    run_ingest-Applied read_small record_digest_d entry_digest_e length chunked_20 lengths no_old
      (codes "g") no_problems no_problems metadata false manifest (some (codes "s")) (codes "s")
      states none

dry_run_entry-Foretells_example :
    Foretells
      (dry_run_entry read_small record_digest_d entry_digest_e length chunked_20
        (entry_of (codes "a")))
      (ingest_entry read_small record_digest_d entry_digest_e length chunked_20 lengths no_old
        (codes "g")
        (entry_of (codes "a"))
        none).0.0
unfolding is_current
dry_run_entry-Foretells_example =
    dry_run_entry-Foretells length share_of 20 plain_digest first_text read_small record_digest_d
      entry_digest_e lengths no_old (codes "g") (entry_of (codes "a")) none refl
