-- ===== src/Adapters/Tests.antt =====
-- A corpus of two sources, one of which fails to parse, and the theorems there.
use decision_memory.Prelude.{
  if◌then◌else◌, Bool-cases, nat_eq, ◌==◌, pair_eq, list_eq, All, concat_map, ◌≡◌, refl, ◌⊎◌, inl,
  inr, Bool, true, false, none, some, List, [], ◌∷◌, map,
}
use decision_memory.Text.{Text, codes}
use decision_memory.Records.{CanonicalDecisionRecord}
use decision_memory.Records.Fields.{has_errors}
use decision_memory.Ingest.Entries.{IngestEntry}
use decision_memory.Adapters.{
  raised, returned, DiscoveredSpec, DiscoveryResult, AdaptationResult, Attempt, SourceAdapter,
}
use decision_memory.Adapters.Corpus.{validate_corpus}
use decision_memory.Adapters.Adapt.{
  load_previous_manifest, optional, adapt_spec, adapt_corpus, RecordOutcome, AdaptOutcome,
  wrote_manifest, readable, Adapted,
}
use decision_memory.Adapters.Agreement.{Explains, validate_corpus-adapt_corpus}
use decision_memory.Adapters.Rerun.{adapt_corpus-rerun}

abbrev bare : Text → CanonicalDecisionRecord
bare id = record {
  id = some id;
  title = none;
  status = none;
  date = none;
  body = none;
  context = none;
  decision = none;
  why = [];
  rationale_summary = none;
  consequences = none;
  evidence = none;
  tags = [];
  supersedes = none;
}

abbrev source : Text → DiscoveredSpec
source id = record { id = id; corpus_root = codes "specs"; contributing_files = [] }

abbrev discovery : DiscoveryResult
discovery = record {
  specs = source (codes "a") ∷ source (codes "b") ∷ [];
  skipped = [];
  collisions = [];
  corpus_error = none;
}

abbrev parse_one : DiscoveredSpec → Attempt AdaptationResult
parse_one s =
    if s.id == codes "a"
    then returned (record { adapted = some (bare s.id); violations = []; field_sources = [] })
    else raised (codes "ValueError") []

abbrev adapter : SourceAdapter
adapter = record {
  adapter_id = codes "test";
  adapter_version = codes "1";
  discover = returned discovery;
  fingerprint = λ s. returned (s.id);
  parse = parse_one;
}

abbrev record_digest_d : CanonicalDecisionRecord → Text
record_digest_d r = codes "d"

abbrev within : Text → Text → Text
within root path = path

abbrev entry_digest_e : IngestEntry → Text
entry_digest_e entry = codes "e"

abbrev no_file : Text → Bool
no_file id = false

abbrev a_file : Text → Bool
a_file id = true

-- The failed source, its message, and the state of the other in a first and a second run.
states_of : AdaptOutcome → List Text
states_of o = map (λ (r : RecordOutcome). r.state) o.records

first_run :
    states_of (adapt_corpus within record_digest_d entry_digest_e [] no_file adapter false true).0
    ≡ codes "written" ∷ codes "failed" ∷ []
unfolding adapt_corpus states_of has_errors
first_run = refl

later_version :
    (load_previous_manifest
      (readable (some 2) ((codes "a", codes "1") ∷ (codes "a", codes "2") ∷ []))).0
    ≡ (codes "a", codes "2") ∷ []
later_version = refl

parse_one-Explains : (s : DiscoveredSpec) → Explains (parse_one s)
parse_one-Explains s = elim (Bool-cases (s.id == codes "a")) [
  | inl first ↦ rw first (inl refl)
  | inr other ↦ rw other tt
]

validate_corpus-adapt_corpus_example :
    (validate_corpus adapter true).exit_code
    ≡ (adapt_corpus within record_digest_d entry_digest_e [] no_file adapter false true).0.exit_code
validate_corpus-adapt_corpus_example =
    validate_corpus-adapt_corpus within record_digest_d entry_digest_e [] no_file adapter true false
      parse_one-Explains

adapt_corpus-rerun_example :
    ((adapt_corpus within record_digest_d entry_digest_e
        ((codes "a", codes "a") ∷ [])
        a_file
        adapter
        false
        true).1
      ≡ wrote_manifest
          (codes "1")
          (concat_map
            (λ (a : Adapted). optional a.entry)
            (map
              (adapt_spec within record_digest_d entry_digest_e [] no_file adapter)
              discovery.specs))
          []
          []
        ∷ [])
    × All
        (λ (o : RecordOutcome). (o.state ≡ codes "failed") ⊎ (o.state ≡ codes "unchanged"))
        (adapt_corpus within record_digest_d entry_digest_e
          ((codes "a", codes "a") ∷ [])
          a_file
          adapter
          false
          true).0.records
unfolding has_errors
adapt_corpus-rerun_example =
    adapt_corpus-rerun within record_digest_d entry_digest_e [] ((codes "a", codes "a") ∷ [])
      no_file a_file adapter discovery refl refl ((refl, refl), tt)
