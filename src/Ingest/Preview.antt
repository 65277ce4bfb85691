-- ===== src/Ingest/Preview.antt =====
-- The dry run of an entry foretells its failure and its batches.
use decision_memory.Prelude.{
  Bool-cases, nat_eq, ◌==◌, pair_eq, list_eq, all, All, All-append, All-split, map-append,
  enumerate, ℕ, ◌≡◌, refl, sym, ap, ◌∙◌, subst, ◌⊎◌, inl, inr, false, Option, none, some, List, [],
  ◌∷◌, ◌++◌, map,
}
use decision_memory.Text.{Text, codes, is_empty}
use decision_memory.Dto.{ChunkPlan}
use decision_memory.Records.{CanonicalDecisionRecord}
use decision_memory.Chunking.Plans.{IsWithin, unit_plans, all_plans, chunk_record-planned}
use decision_memory.Chunking.Units.{
  FieldSources, or_empty, chunkable_units, missing_provenance, ChunkUnit,
}
use decision_memory.Chunking.{
  embedding_input, pieces_of, chunk_record, Payload, Chunked, refused, planned,
}
use decision_memory.Ingest.Batches.{batch_count, embed_in_batches}
use decision_memory.Ingest.Entries.{
  Existing, is_current, prepare_chunks, prepare_record, prepare, preview, dry_run_entry,
  write_entry, ingest_prepared, ingest_entry, IngestEntry, RecordIngestResult, Change, Prepared,
  unready, ready,
}

-- The same failure, or the same inputs.
abbrev SameInputs : Prepared → Prepared → Type 0
SameInputs (unready code) (unready code') = code ≡ code'
SameInputs (unready code) (ready r chunks inputs) = ⊥
SameInputs (ready r chunks inputs) (unready code) = ⊥
SameInputs (ready r chunks inputs) (ready r' chunks' inputs') = inputs ≡ inputs'

-- The provider failed, or the preview has the failure and the batches of the entry.
abbrev pub Foretells : RecordIngestResult → RecordIngestResult → Type 0
Foretells preview_result result =
    (result.failure_code ≡ some (codes "provider.embedding"))
    ⊎ ((result.record_id ≡ preview_result.record_id)
        × (result.failure_code ≡ preview_result.failure_code)
        × (result.batch_count ≡ preview_result.batch_count))

module _ (count_tokens : Text → ℕ) (share : ℕ → ℕ) (target : ℕ) (sha256_hex : Text → Text)
    (canonical_json : List Payload → Text) where
  abbrev inputs_of : Text → List ChunkPlan → List Text
  inputs_of title = map (λ c. embedding_input title c.value_path c.text)

  module _ (title generation_id generation_id' fingerprint record_id : Text) where
    abbrev one : ChunkUnit → List (ℕ × Text) → List ChunkPlan
    one =
        unit_plans count_tokens share target sha256_hex canonical_json title generation_id
          fingerprint record_id

    abbrev two : ChunkUnit → List (ℕ × Text) → List ChunkPlan
    two =
        unit_plans count_tokens share target sha256_hex canonical_json title generation_id'
          fingerprint record_id

    pieces-Same :
        (u : ChunkUnit) (pieces : List (ℕ × Text))
        → All IsWithin (one u pieces)
        → (inputs_of title (one u pieces) ≡ inputs_of title (two u pieces))
          × All IsWithin (two u pieces)
    pieces-Same u [] h = (refl, tt)
    pieces-Same u ((ordinal, chunk_text) ∷ pieces) (h, rest) =
        let (same, all) = pieces-Same u pieces rest in
        (λ i. embedding_input title u.value_path chunk_text ∷ same i, (h, all))

    units-Same :
        (us : List ChunkUnit)
        → All IsWithin (
            all_plans count_tokens share target sha256_hex canonical_json title generation_id
              fingerprint record_id us)
        → (inputs_of title (
              all_plans count_tokens share target sha256_hex canonical_json title generation_id
                fingerprint record_id us)
            ≡ inputs_of title (
                all_plans count_tokens share target sha256_hex canonical_json title generation_id'
                  fingerprint record_id us))
          × All IsWithin (
              all_plans count_tokens share target sha256_hex canonical_json title generation_id'
                fingerprint record_id us)
    units-Same [] h = (refl, tt)
    units-Same (u ∷ us) h =
        let pieces =
          enumerate 0 (pieces_of count_tokens share target sha256_hex canonical_json u) in
        let (a, b) =
          All-split IsWithin (one u pieces)
            (all_plans count_tokens share target sha256_hex canonical_json title generation_id
              fingerprint record_id us)
            h in
        let (same, all) = pieces-Same u pieces a in
        let (same', all') = units-Same us b in
        (
          map-append (λ (c : ChunkPlan). embedding_input title c.value_path c.text) (one u pieces) _
              ∙ (λ i. same i ++ same' i)
              ∙ sym (
                  map-append (λ (c : ChunkPlan). embedding_input title c.value_path c.text)
                    (two u pieces) _),
          All-append IsWithin (two u pieces) _ all all',
        )

  abbrev pub chunk_with : CanonicalDecisionRecord → FieldSources → Text → Text → Chunked
  chunk_with = chunk_record count_tokens share target sha256_hex canonical_json

  -- A record that is planned in one generation is planned in each, with the same inputs.
  planned-again :
      (r : CanonicalDecisionRecord) (field_sources : FieldSources)
      (generation_id generation_id' fingerprint : Text) (plans : List ChunkPlan)
      → chunk_with r field_sources generation_id fingerprint ≡ planned plans
      → (plans' : List ChunkPlan) × (chunk_with r field_sources generation_id' fingerprint
          ≡ planned plans')
        × (inputs_of (or_empty r.title) plans ≡ inputs_of (or_empty r.title) plans')
  planned-again r field_sources generation_id generation_id' fingerprint plans h =
      let (id, e, same, all) =
        (chunk_record-planned count_tokens share target sha256_hex canonical_json r field_sources
            generation_id fingerprint plans).0
          h in
      let us = chunkable_units field_sources r in
      let (inputs, all') =
        units-Same (or_empty r.title) generation_id generation_id' fingerprint id us
          (subst (λ t. All IsWithin t) same all) in
      let plans' =
        all_plans count_tokens share target sha256_hex canonical_json (or_empty r.title)
          generation_id' fingerprint id us in
      (
        plans',
        (chunk_record-planned count_tokens share target sha256_hex canonical_json r field_sources
              generation_id' fingerprint plans').1
            (id, e, refl, all'),
        ap (inputs_of (or_empty r.title)) same ∙ inputs,
      )

  module _ (read_record : Text → Option CanonicalDecisionRecord)
      (record_digest_of : CanonicalDecisionRecord → Text)
      (entry_digest_of : IngestEntry → Text) where
    chunks-Same :
        (r : CanonicalDecisionRecord) (field_sources : FieldSources)
        (generation_id generation_id' fingerprint : Text) (c c' : Chunked)
        → chunk_with r field_sources generation_id fingerprint ≡ c
        → chunk_with r field_sources generation_id' fingerprint ≡ c'
        → SameInputs
            (prepare_chunks read_record record_digest_of entry_digest_of count_tokens chunk_with r
              c)
            (prepare_chunks read_record record_digest_of entry_digest_of count_tokens chunk_with r
              c')
    chunks-Same r fs g g' fp (refused e) (refused e') h h' = refl
    chunks-Same r fs g g' fp (refused e) (planned plans') h h' =
        let (plans, k, _) = planned-again r fs g' g fp plans' h' in
        let wrong : refused e ≡ planned plans = sym h ∙ k in absurd (cc)
    chunks-Same r fs g g' fp (planned plans) (refused e') h h' =
        let (plans', k, _) = planned-again r fs g g' fp plans h in
        let wrong : refused e' ≡ planned plans' = sym h' ∙ k in absurd (cc)
    chunks-Same r fs g g' fp (planned plans) (planned plans') h h' =
        let (again, k, same) = planned-again r fs g g' fp plans h in
        let e : planned plans' ≡ planned again = sym h' ∙ k in
        let e' : plans' ≡ again = cc in same ∙ ap (inputs_of (or_empty r.title)) (sym e')

    prepared-Same :
        (g g' : Text) (entry : IngestEntry) (o : Option CanonicalDecisionRecord)
        → SameInputs
            (prepare_record read_record record_digest_of entry_digest_of count_tokens chunk_with g
              entry o)
            (prepare_record read_record record_digest_of entry_digest_of count_tokens chunk_with g'
              entry o)
    prepared-Same g g' entry none = refl
    prepared-Same g g' entry (some r) =
        elim (Bool-cases (record_digest_of r == entry.record_digest)) [
          | inr differs ↦ rw differs refl
          | inl same ↦ elim (Bool-cases (entry_digest_of entry == entry.entry_digest)) [
            | inr differs ↦ rw (same, differs) refl
            | inl same' ↦ elim (Bool-cases (is_empty (missing_provenance entry.field_sources r))) [
              | inr lacking ↦ rw (same, same', lacking) refl
              | inl sourced ↦
                  rw (same, same', sourced)
                    (chunks-Same r entry.field_sources g g' entry.fingerprint _ _ refl refl)
            ]
          ]
        ]

    module _ {Vector : Type 0} (embed : List Text → Option (List Vector))
        (old_ids_of : Change Vector → List Text) where
      ingested-Foretold :
          (g : Text) (entry : IngestEntry) (existing : Option Existing) (p q : Prepared)
          → SameInputs p q
          → Foretells
              (preview read_record record_digest_of entry_digest_of count_tokens chunk_with entry p)
              (ingest_prepared read_record record_digest_of entry_digest_of count_tokens chunk_with
                embed old_ids_of g entry existing q).0.0
      ingested-Foretold g entry existing (unready code) (unready code') same =
          inr (refl, ap some (sym same), refl)
      ingested-Foretold g entry existing (unready code) (ready r chunks inputs) same = absurd same
      ingested-Foretold g entry existing (ready r chunks inputs) (unready code) same = absurd same
      ingested-Foretold g entry existing (ready r chunks inputs) (ready r' chunks' inputs') same =
          by_vectors (embed_in_batches count_tokens embed inputs')
        where
          by_vectors :
              (o : Option (List Vector))
              → Foretells
                  (preview read_record record_digest_of entry_digest_of count_tokens chunk_with
                    entry
                    (ready r chunks inputs))
                  (write_entry read_record record_digest_of entry_digest_of count_tokens chunk_with
                    embed old_ids_of g entry existing r' chunks' inputs' o).0.0
          by_vectors none = inl refl
          by_vectors (some vectors) = inr (refl, refl, ap (batch_count count_tokens) (sym same))

      -- For an entry that is not current, the dry run has the record id, the failure code and the
      -- batch count of the real run, unless the provider fails.
      pub dry_run_entry-Foretells :
          (generation_id : Text) (entry : IngestEntry) (existing : Option Existing)
          → is_current existing entry.fingerprint ≡ false
          → Foretells
              (dry_run_entry read_record record_digest_of entry_digest_of count_tokens chunk_with
                entry)
              (ingest_entry read_record record_digest_of entry_digest_of count_tokens chunk_with
                embed old_ids_of generation_id entry existing).0.0
      unfolding dry_run_entry ingest_entry prepare
      dry_run_entry-Foretells generation_id entry existing stale = rw stale (
          ingested-Foretold generation_id entry existing _ _
            (prepared-Same (codes "dry-run") generation_id entry (read_record entry.id)))
