-- ===== src/Citations/Loops.antt =====
-- The loops of the allocation keep its invariant, so the allocated citations resolve.

use decision_memory.Prelude.{
  ltb, Option-cases, nat_eq, pair_eq, list_eq, length, All, All-of_In, NoRepeat, All→In, count_up,
  keys, ℕ, ◌≡◌, refl, ap, ◌∙◌, subst, inl, inr, Bool, Option, List, [], ◌∷◌, map,
}
use decision_memory.Text.{Text}
use decision_memory.Sorting.{sort_by-perm, sort_by}
use decision_memory.Sorting.Perms.{Permᴰ-In}
use decision_memory.Dto.{SourceReference, ActiveChunkDescriptor}
use decision_memory.Citations.{
  empty_allocation, close_sentence, cite_source, cite_sources, cite_chunks, cite_sentences,
  allocate_citations, ResolutionState, Citation, DraftSentence, Allocation,
}
use decision_memory.Citations.Locations.{location_of, seen_of}
use decision_memory.Citations.Sound.{Within, Resolve, Resolve-put, cite_source-IsSound, IsSound}

keys-seen_of : (cs : List Citation) → keys (seen_of cs) ≡ map location_of cs
keys-seen_of [] = refl
keys-seen_of (c ∷ cs) = ap (λ t. location_of c ∷ t) (keys-seen_of cs)

All-sort : (P : ℕ → Type 0) (lt : ℕ → ℕ → Bool) (xs : List ℕ) → All P xs → All P (sort_by lt xs)
All-sort P lt xs h = All-of_In (sort_by lt xs) (λ x m. All→In P h (Permᴰ-In (sort_by-perm lt xs) m))

module _ (stale_record_ids : List Text) (resolve_source : Text → ResolutionState) where
  cite_sources-IsSound :
      (chunk_id : Text) (c : ActiveChunkDescriptor) (a : Allocation)
      (sources : List SourceReference)
      → IsSound a
      → IsSound (cite_sources stale_record_ids resolve_source chunk_id c a sources)
  unfolding cite_sources
  cite_sources-IsSound chunk_id c a [] h = h
  cite_sources-IsSound chunk_id c a (source ∷ sources) h =
      cite_sources-IsSound chunk_id c
        (cite_source stale_record_ids resolve_source chunk_id c a source) sources
        (cite_source-IsSound stale_record_ids resolve_source chunk_id c a source h)

  cite_chunks-IsSound :
      (chunk_by_id : Text → Option ActiveChunkDescriptor) (a : Allocation) (chunk_ids : List Text)
      → IsSound a
      → IsSound (cite_chunks stale_record_ids resolve_source chunk_by_id a chunk_ids)
  unfolding cite_chunks
  cite_chunks-IsSound chunk_by_id a [] h = h
  cite_chunks-IsSound chunk_by_id a (chunk_id ∷ chunk_ids) h =
      elim (Option-cases (chunk_by_id chunk_id)) [
        | inl absent ↦ rw (cite_chunks, absent) (cite_chunks-IsSound chunk_by_id a chunk_ids h)
        | inr (c, found) ↦
            rw (cite_chunks, found)
              (cite_chunks-IsSound chunk_by_id
                (cite_sources stale_record_ids resolve_source chunk_id c a c.provenance) chunk_ids
                (cite_sources-IsSound chunk_id c a c.provenance h))
      ]

  restart-IsSound : (a : Allocation) → IsSound a → IsSound (record a { ids = [] })
  restart-IsSound a h = record {
    numbered = h.numbered;
    mirrored = h.mirrored;
    unrepeated = h.unrepeated;
    listed = h.listed;
    resolves = tt;
  }

  close_sentence-IsSound :
      (sentence_id : Text) (a : Allocation) → IsSound a → IsSound (close_sentence sentence_id a)
  close_sentence-IsSound sentence_id a h = record {
    numbered = h.numbered;
    mirrored = h.mirrored;
    unrepeated = h.unrepeated;
    listed =
        Resolve-put (length a.citations) a.sentence_ids sentence_id (sort_by ltb a.ids) h.listed
          (All-sort (Within (length a.citations)) ltb a.ids h.resolves);
    resolves = h.resolves;
  }

  cite_sentences-IsSound :
      (chunk_by_id : Text → Option ActiveChunkDescriptor) (a : Allocation)
      (sentences : List DraftSentence)
      → IsSound a
      → IsSound (cite_sentences stale_record_ids resolve_source chunk_by_id a sentences)
  unfolding cite_sentences
  cite_sentences-IsSound chunk_by_id a [] h = h
  cite_sentences-IsSound chunk_by_id a (sentence ∷ sentences) h =
      let start = restart-IsSound a h in
      let cited =
        cite_chunks stale_record_ids resolve_source chunk_by_id (record a { ids = [] })
          sentence.chunk_ids in
      let sound =
        cite_chunks-IsSound chunk_by_id (record a { ids = [] }) sentence.chunk_ids start in
      cite_sentences-IsSound chunk_by_id (close_sentence sentence.sentence_id cited) sentences
        (close_sentence-IsSound sentence.sentence_id cited sound)

  -- The citations are numbered from one on without a gap, no location is cited twice, and every id
  -- that a sentence lists is the number of a citation.
  pub allocate_citations-Resolve :
      (sentences : List DraftSentence) (chunk_by_id : Text → Option ActiveChunkDescriptor)
      → let (citations, sentence_ids) =
          allocate_citations stale_record_ids resolve_source sentences chunk_by_id in
        (map (λ c. c.citation_id) citations ≡ count_up 1 (length citations))
        × NoRepeat (map location_of citations)
        × Resolve (length citations) sentence_ids
  unfolding allocate_citations
  allocate_citations-Resolve sentences chunk_by_id =
      let h = cite_sentences-IsSound chunk_by_id empty_allocation sentences (record {
        numbered = refl;
        mirrored = refl;
        unrepeated = tt;
        listed = tt;
        resolves = tt;
      }) in
      (
        h.numbered,
        subst NoRepeat
            (ap keys h.mirrored
              ∙ keys-seen_of
                  (cite_sentences stale_record_ids resolve_source chunk_by_id empty_allocation
                    sentences).citations)
            h.unrepeated,
        h.listed,
      )
