-- ===== src/Disclosures.antt =====
-- `_collect_notices` and `_render_disclosures` of src/decision_memory/application/query.py, with the
-- notice and the answer sentence of dto.py. What the store answers for a record is the parameter
-- `supersession_notices`, and the resolver of a source path is one as it is for the code.
pub mod Numbered
pub mod Collected
mod Tests
use decision_memory.Prelude.{
  if◌then◌else◌, nat_eq, ◌==◌, pair_eq, list_eq, length, contains, distinct, get, put, ℕ, ◌+◌,
  Option, none, some, List, [], ◌∷◌, ◌++◌, map,
}
use decision_memory.Text.{Text, codes, text_lt, is_empty}
use decision_memory.Text.Segments.{decimal}
use decision_memory.Sorting.{sort_by}
use decision_memory.Sorting.Keys.{sort_on, pair_lt}
use decision_memory.Dto.{SourceReference, ActiveChunkDescriptor}
use decision_memory.Chunking.Units.{sources_of}
use decision_memory.Ingest.Entries.{IngestEntry}
use decision_memory.Citations.{
  supersession, hint_unavailable, current, stale_version, ResolutionState, Citation,
}

pub record SupersessionNotice : Type 0 where
  pub predecessor_id : Text
  pub successor_id : Text
  pub successor_title : Text
  pub successor_status : Text
  pub successor_date : Option Text
  pub metadata_evidence_id : Text

-- The numbers of `citation_ids` are those of `Citation`.
pub record AnswerSentence : Type 0 where
  pub sentence_id : Text
  pub text : Text
  pub citation_ids : List ℕ

abbrev pub notice_key : SupersessionNotice → Text × Text
notice_key n = (n.predecessor_id, n.successor_id)

-- `sorted(notices, key=lambda n: (n.successor_id, n.predecessor_id))`
abbrev pub sorted_notices : List SupersessionNotice → List SupersessionNotice
sorted_notices = sort_on (λ n. (n.successor_id, n.predecessor_id)) (pair_lt text_lt text_lt)

-- The variables of the loop of `_collect_notices`; the set `seen` is a list.
pub record Collection : Type 0 where
  pub collected : List SupersessionNotice
  pub seen : List (Text × Text)

abbrev pub add_notice : Collection → SupersessionNotice → Collection
add_notice c n =
    if contains c.seen (notice_key n)
    then c
    else record { collected = c.collected ++ n ∷ []; seen = c.seen ++ notice_key n ∷ [] }

abbrev pub add_notices : Collection → List SupersessionNotice → Collection
add_notices c [] = c
add_notices c (n ∷ ns) = add_notices (add_notice c n) ns

module _ (supersession_notices : Text → List SupersessionNotice) where
  abbrev pub add_records : Collection → List Text → Collection
  add_records c [] = c
  add_records c (record_id ∷ record_ids) =
      add_records (add_notices c (supersession_notices record_id)) record_ids

  -- `sorted({chunk.record_id for chunk in accepted})`
  abbrev pub retrieved_ids : List ActiveChunkDescriptor → List Text
  retrieved_ids accepted = sort_by text_lt (distinct (map (λ chunk. chunk.record_id) accepted))

  unfoldable pub collect_notices : List ActiveChunkDescriptor → List SupersessionNotice
  collect_notices accepted =
      let c = add_records (record { collected = []; seen = [] }) (retrieved_ids accepted) in
      sorted_notices c.collected

-- `{entry.id: entry for entry in manifest.entries}`
abbrev pub entries_by_id : List (Text × IngestEntry) → List IngestEntry → List (Text × IngestEntry)
entries_by_id table [] = table
entries_by_id table (entry ∷ entries) = entries_by_id (put table entry.id entry) entries

-- The entries of the manifest by their ids; a manifest that was not loaded is `none`.
abbrev pub manifest_by_id : Option (List IngestEntry) → List (Text × IngestEntry)
manifest_by_id none = []
manifest_by_id (some entries) = entries_by_id [] entries

-- `sources[0] if sources else SourceReference("", "")`
abbrev pub first_source : List SourceReference → SourceReference
first_source [] = record { path = []; section = [] }
first_source (source ∷ sources) = source

abbrev pub disclosed_source : List (Text × IngestEntry) → Text → SourceReference
disclosed_source table successor_id = elim (get table successor_id) [
  | none ↦ first_source []
  | some entry ↦ first_source (sources_of entry.field_sources (codes "supersedes"))
]

abbrev pub disclosure_text : SupersessionNotice → Text
disclosure_text n =
    codes "This decision was later changed by "
    ++ (n.successor_title ++ (codes " (" ++ (n.successor_id ++ codes ").")))

-- The variables of the loop of `_render_disclosures`.
pub record Disclosed : Type 0 where
  pub sentences : List AnswerSentence
  pub citations : List Citation

module _ (resolve_source : Text → ResolutionState) (stale_record_ids : List Text)
    (table : List (Text × IngestEntry)) (start_at : ℕ) where
  abbrev pub disclosure_citation : ℕ → SupersessionNotice → Citation
  disclosure_citation citation_id n =
      let source = disclosed_source table n.successor_id in
      record {
        citation_id = citation_id;
        kind = supersession;
        evidence_id = n.metadata_evidence_id;
        record_id = n.successor_id;
        chunk_id = none;
        value_path = codes "supersedes";
        relative_path = source.path;
        section = source.section;
        resolution = if is_empty source.path then hint_unavailable else resolve_source source.path;
        freshness = if contains stale_record_ids n.successor_id then stale_version else current;
      }

  -- The body of the loop.
  abbrev pub disclose_notice : ℕ → Disclosed → SupersessionNotice → Disclosed
  disclose_notice index d n =
      let citation_id = start_at + length d.citations + 1 in
      record {
        citations = d.citations ++ disclosure_citation citation_id n ∷ [];
        sentences =
            d.sentences
            ++ record {
              sentence_id = codes "D" ++ decimal index;
              text = disclosure_text n;
              citation_ids = citation_id ∷ [];
            }
              ∷ [];
      }

  abbrev pub disclose : ℕ → Disclosed → List SupersessionNotice → Disclosed
  disclose index d [] = d
  disclose index d (n ∷ ns) = disclose (index + 1) (disclose_notice index d n) ns

unfoldable pub render_disclosures :
    Option (List IngestEntry)
    → List SupersessionNotice
    → (Text → ResolutionState)
    → List Text
    → ℕ
    → Disclosed
render_disclosures manifest [] resolve_source stale_record_ids start_at = record {
  sentences = [];
  citations = [];
}
render_disclosures manifest (n ∷ ns) resolve_source stale_record_ids start_at =
    disclose resolve_source stale_record_ids (manifest_by_id manifest) start_at 1
      (record { sentences = []; citations = [] }) (sorted_notices (n ∷ ns))
