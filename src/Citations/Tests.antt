-- ===== src/Citations/Tests.antt =====
-- Two sentences that share a source, and the theorem at them.
use decision_memory.Prelude.{
  if◌then◌else◌, ◌==◌, nat_eq, pair_eq, list_eq, length, NoRepeat, count_up, ℕ, ◌≡◌, refl, Option,
  none, some, List, [], ◌∷◌, map,
}
use decision_memory.Text.{Text, codes}
use decision_memory.Sorting.{sort_by}
use decision_memory.Dto.{SourceReference, ActiveChunkDescriptor}
use decision_memory.Citations.{
  cite_source, cite_sources, cite_chunks, cite_sentences, allocate_citations, missing,
  stale_version, Citation, DraftSentence,
}
use decision_memory.Citations.Locations.{location_of}
use decision_memory.Citations.Sound.{Resolve}
use decision_memory.Citations.Loops.{allocate_citations-Resolve}

abbrev source_of : Text → SourceReference
source_of section = record { path = codes "log.md"; section = section }

abbrev cited_chunk : ActiveChunkDescriptor
cited_chunk = record {
  chunk_id = codes "ch_1";
  record_id = codes "DM-0001";
  record_title = codes "Title";
  record_status = none;
  record_tags = [];
  value_path = codes "context";
  fingerprint = codes "f";
  ordinal = 0;
  text = codes "text";
  provenance = source_of (codes "one") ∷ source_of (codes "two") ∷ [];
}

abbrev lookup : Text → Option ActiveChunkDescriptor
lookup id = if id == codes "ch_1" then some cited_chunk else none

abbrev draft : Text → DraftSentence
draft sentence_id = record {
  sentence_id = sentence_id;
  text = codes "text";
  chunk_ids = codes "ch_1" ∷ codes "gone" ∷ [];
}

abbrev drafts : List DraftSentence
drafts = draft (codes "s1") ∷ draft (codes "s2") ∷ []

abbrev allocated : List Citation × List (Text × List ℕ)
allocated = allocate_citations (codes "DM-0001" ∷ []) (λ path. missing) drafts lookup

shared_sources :
    (allocated.1 ≡ (codes "s1", 1 ∷ 2 ∷ []) ∷ (codes "s2", 1 ∷ 2 ∷ []) ∷ [])
    × (map (λ c. c.freshness) allocated.0 ≡ stale_version ∷ stale_version ∷ [])
unfolding allocate_citations cite_sentences cite_chunks cite_sources cite_source sort_by
shared_sources = (refl, refl)

allocate_citations-Resolve_example :
    (map (λ c. c.citation_id) allocated.0 ≡ count_up 1 (length allocated.0))
    × NoRepeat (map location_of allocated.0)
    × Resolve (length allocated.0) allocated.1
allocate_citations-Resolve_example =
    allocate_citations-Resolve (codes "DM-0001" ∷ []) (λ path. missing) drafts lookup
