-- ===== src/Citations.antt =====
-- `_allocate_citations` of src/decision_memory/application/query.py, with the citation records of
-- dto.py. The citation id `C{n}` is its number `n`, by which the code also sorts the ids. The source
-- resolver is a parameter, as it is for the code.
pub mod Locations
pub mod Sound
pub mod Loops
mod Tests
use decision_memory.Prelude.{
  ltb, if◌then◌else◌, nat_eq, pair_eq, list_eq, length, contains, get, put, ℕ, ◌+◌, Option, none,
  some, List, [], ◌∷◌, ◌++◌,
}
use decision_memory.Text.{Text, codes}
use decision_memory.Sorting.{sort_by}
use decision_memory.Dto.{SourceReference, ActiveChunkDescriptor}

pub data CitationKind : Type 0 where
  chunk supersession : CitationKind

pub data ResolutionState : Type 0 where
  resolved missing hint_unavailable invalid_relative_path : ResolutionState

pub data CitationFreshness : Type 0 where
  current stale_version : CitationFreshness

pub record Citation : Type 0 where
  pub citation_id : ℕ
  pub kind : CitationKind
  pub evidence_id : Text
  pub record_id : Text
  pub chunk_id : Option Text
  pub value_path : Text
  pub relative_path : Text
  pub section : Text
  pub resolution : ResolutionState
  pub freshness : CitationFreshness

pub record DraftSentence : Type 0 where
  pub sentence_id : Text
  pub text : Text
  pub chunk_ids : List Text

-- `(CitationKind.CHUNK.value, chunk_id, source.path, source.section)`
abbrev pub Location : Type 0
Location = Text × (Text × (Text × Text))

abbrev pub location : Text → SourceReference → Location
location chunk_id source = (codes "chunk", (chunk_id, (source.path, source.section)))

-- The variables of the loop; `ids` is of the sentence at hand.
pub record Allocation : Type 0 where
  pub citations : List Citation
  pub seen : List (Location × ℕ)
  pub sentence_ids : List (Text × List ℕ)
  pub ids : List ℕ

abbrev pub empty_allocation : Allocation
empty_allocation = record { citations = []; seen = []; sentence_ids = []; ids = [] }

abbrev pub close_sentence : Text → Allocation → Allocation
close_sentence sentence_id a = record a {
  sentence_ids = put a.sentence_ids sentence_id (sort_by ltb a.ids);
}

module _ (stale_record_ids : List Text) (resolve_source : Text → ResolutionState) where
  abbrev pub new_citation : ℕ → Text → ActiveChunkDescriptor → SourceReference → Citation
  new_citation citation_id chunk_id c source = record {
    citation_id = citation_id;
    kind = chunk;
    evidence_id = chunk_id;
    record_id = c.record_id;
    chunk_id = some chunk_id;
    value_path = c.value_path;
    relative_path = source.path;
    section = source.section;
    resolution = resolve_source source.path;
    freshness = if contains stale_record_ids c.record_id then stale_version else current;
  }

  -- The body of the innermost loop.
  unfoldable pub cite_source :
      Text → ActiveChunkDescriptor → Allocation → SourceReference → Allocation
  cite_source chunk_id c a source = elim (get a.seen (location chunk_id source)) [
    | some existing ↦ record a { ids = a.ids ++ existing ∷ [] }
    | none ↦
        let citation_id = length a.citations + 1 in
        record a {
          citations = a.citations ++ new_citation citation_id chunk_id c source ∷ [];
          seen = put a.seen (location chunk_id source) citation_id;
          ids = a.ids ++ citation_id ∷ [];
        }
  ]

  pub cite_sources : Text → ActiveChunkDescriptor → Allocation → List SourceReference → Allocation
  cite_sources chunk_id c a [] = a
  cite_sources chunk_id c a (source ∷ sources) =
      cite_sources chunk_id c (cite_source chunk_id c a source) sources

  pub cite_chunks : (Text → Option ActiveChunkDescriptor) → Allocation → List Text → Allocation
  cite_chunks chunk_by_id a [] = a
  cite_chunks chunk_by_id a (chunk_id ∷ chunk_ids) = elim (chunk_by_id chunk_id) [
    | none ↦ cite_chunks chunk_by_id a chunk_ids
    | some c ↦ cite_chunks chunk_by_id (cite_sources chunk_id c a c.provenance) chunk_ids
  ]

  pub cite_sentences :
      (Text → Option ActiveChunkDescriptor) → Allocation → List DraftSentence → Allocation
  cite_sentences chunk_by_id a [] = a
  cite_sentences chunk_by_id a (sentence ∷ sentences) =
      let cited = cite_chunks chunk_by_id (record a { ids = [] }) sentence.chunk_ids in
      cite_sentences chunk_by_id (close_sentence sentence.sentence_id cited) sentences

  unfoldable pub allocate_citations :
      List DraftSentence
      → (Text → Option ActiveChunkDescriptor)
      → List Citation × List (Text × List ℕ)
  allocate_citations sentences chunk_by_id =
      let a = cite_sentences chunk_by_id empty_allocation sentences in (a.citations, a.sentence_ids)
