-- ===== src/Disclosures/Tests.antt =====
-- Two notices that are disclosed behind the citations of an answer, and the theorem at them.
use decision_memory.Prelude.{
  if◌then◌else◌, ◌==◌, nat_eq, pair_eq, list_eq, length, distinct, All, In, NoRepeat, count_up, ℕ,
  ◌≡◌, refl, Option, none, some, List, [], ◌∷◌, ◌++◌, map,
}
use decision_memory.Text.{Text, codes}
use decision_memory.Sorting.{sort_by}
use decision_memory.Dto.{SourceReference, ActiveChunkDescriptor}
use decision_memory.Ingest.Entries.{IngestEntry}
use decision_memory.Citations.{
  allocate_citations, resolved, hint_unavailable, ResolutionState, Citation, DraftSentence,
}
use decision_memory.Disclosures.{
  notice_key, sorted_notices, collect_notices, render_disclosures, SupersessionNotice, Disclosed,
}
use decision_memory.Disclosures.Collected.{Given, collect_notices-exact}
use decision_memory.Disclosures.Numbered.{cited_record, noticed_record, render_disclosures-numbered}

abbrev source : SourceReference
source = record { path = codes "log.md"; section = codes "one" }

abbrev cited_chunk : Text → ActiveChunkDescriptor
cited_chunk record_id = record {
  chunk_id = codes "ch_1";
  record_id = record_id;
  record_title = codes "Title";
  record_status = none;
  record_tags = [];
  value_path = codes "context";
  fingerprint = codes "f";
  ordinal = 0;
  text = codes "text";
  provenance = source ∷ [];
}

abbrev lookup : Text → Option ActiveChunkDescriptor
lookup id = if id == codes "ch_1" then some (cited_chunk (codes "D1")) else none

abbrev drafts : List DraftSentence
drafts =
    record { sentence_id = codes "s1"; text = codes "text"; chunk_ids = codes "ch_1" ∷ [] } ∷ []

abbrev entries : List IngestEntry
entries =
    record {
      id = codes "D3";
      fingerprint = codes "f";
      contributing_files = [];
      record_path = codes "D3.md";
      record_digest = codes "d";
      entry_digest = codes "e";
      field_sources = (codes "supersedes", source ∷ []) ∷ [];
    }
    ∷ []

abbrev notice : Text → Text → SupersessionNotice
notice predecessor_id successor_id = record {
  predecessor_id = predecessor_id;
  successor_id = successor_id;
  successor_title = codes "Later";
  successor_status = codes "accepted";
  successor_date = none;
  metadata_evidence_id = codes "m_" ++ successor_id;
}

abbrev successors : Text → List SupersessionNotice
successors id =
    if id == codes "D1"
    then notice id (codes "D3") ∷ notice id (codes "D2") ∷ notice id (codes "D3") ∷ []
    else []

abbrev notices : List SupersessionNotice
notices = notice (codes "D1") (codes "D2") ∷ notice (codes "D1") (codes "D3") ∷ []

abbrev resolve : Text → ResolutionState
resolve path = resolved

abbrev stale : List Text
stale = codes "D3" ∷ []

abbrev accepted : List ActiveChunkDescriptor
accepted = cited_chunk (codes "D1") ∷ cited_chunk (codes "D0") ∷ cited_chunk (codes "D1") ∷ []

collected : collect_notices successors accepted ≡ notices
unfolding collect_notices sort_by distinct
collected = refl

abbrev disclosed : Disclosed
disclosed = render_disclosures (some entries) notices resolve stale 1

two_disclosures :
    (map {B = Text × List ℕ} (λ s. (s.sentence_id, s.citation_ids)) disclosed.sentences
      ≡ (codes "D1", 2 ∷ []) ∷ (codes "D2", 3 ∷ []) ∷ [])
    × (map (λ s. s.text) disclosed.sentences
        ≡ codes "This decision was later changed by Later (D2)."
          ∷ codes "This decision was later changed by Later (D3)."
          ∷ [])
    × (map (λ c. c.resolution) disclosed.citations ≡ hint_unavailable ∷ resolved ∷ [])
unfolding render_disclosures sort_by decision_memory.Text.Segments.decimal
two_disclosures = (refl, refl, refl)

abbrev prior : List Citation
prior = (allocate_citations stale resolve drafts lookup).0

abbrev behind : Disclosed
behind = render_disclosures (some entries) notices resolve stale (length prior)

render_disclosures-numbered_example :
    (map (λ c. c.citation_id) (prior ++ behind.citations)
      ≡ count_up 1 (length (prior ++ behind.citations)))
    × (map (λ s. s.citation_ids) behind.sentences ≡ map (λ c. c.citation_id ∷ []) behind.citations)
    × (map cited_record behind.citations ≡ map (noticed_record stale) (sorted_notices notices))
render_disclosures-numbered_example =
    render_disclosures-numbered stale resolve drafts lookup (some entries) notices

collect_notices-exact_example :
    All (λ n. Given successors accepted n) (collect_notices successors accepted)
    × All
        (λ chunk.
          All
            (λ n. In (notice_key n) (map notice_key (collect_notices successors accepted)))
            (successors chunk.record_id))
        accepted
    × NoRepeat (map notice_key (collect_notices successors accepted))
collect_notices-exact_example = collect_notices-exact successors accepted
