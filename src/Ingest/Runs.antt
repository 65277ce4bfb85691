-- ===== src/Ingest/Runs.antt =====
-- Each entry is reported under its id, and the loop over the entries deletes no vectors.
use decision_memory.Prelude.{
  Bool-cases, nat_eq, ◌==◌, pair_eq, list_eq, All, concat_map, All-append, get, ℕ, ◌≡◌, refl, inl,
  inr, Bool, true, false, Option, none, some, List, [], ◌∷◌, map,
}
use decision_memory.Text.{Text, is_empty}
use decision_memory.Sorting.{}
use decision_memory.Sorting.Keys.{}
use decision_memory.Records.{CanonicalDecisionRecord}
use decision_memory.Chunking.{Chunked}
use decision_memory.Chunking.Units.{FieldSources, missing_provenance}
use decision_memory.Ingest.Entries.{
  Existing, Ingested, is_current, without_vectors, prepare, unchanged_record, unchanged_entry,
  write_entry, ingest_prepared, ingest_entry, IngestEntry, Change, deleted_vectors, Prepared,
  unready, ready,
}
use decision_memory.Ingest.Batches.{embed_in_batches}
use decision_memory.Ingest.{}

abbrev pub deletes_vectors : {Vector : Type 0} → Change Vector → Bool
deletes_vectors c = elim c [ deleted_vectors ids ↦ true | _ ↦ false ]

module _ (read_record : Text → Option CanonicalDecisionRecord)
    (record_digest_of : CanonicalDecisionRecord → Text) (entry_digest_of : IngestEntry → Text)
    (count_tokens : Text → ℕ)
    (chunk : CanonicalDecisionRecord → FieldSources → Text → Text → Chunked) {Vector : Type 0}
    (embed : List Text → Option (List Vector)) (old_ids_of : Change Vector → List Text)
    (generation_id : Text) where
  -- An entry is reported under its id, and its changes delete no vectors.
  abbrev IsReport : IngestEntry → Ingested Vector → Type 0
  IsReport entry i = (i.0.0.record_id ≡ entry.id) × All (λ c. deletes_vectors c ≡ false) i.1

  unchanged-Report :
      (entry : IngestEntry)
      → IsReport entry (
          without_vectors
            (unchanged_entry read_record record_digest_of entry_digest_of count_tokens chunk entry))
  unfolding unchanged_entry
  unchanged-Report entry = by_record (read_record entry.id)
    where
      by_record :
          (o : Option CanonicalDecisionRecord)
          → IsReport entry (
              without_vectors (
                unchanged_record read_record record_digest_of entry_digest_of count_tokens chunk
                  entry o))
      by_record none = (refl, (refl, tt))
      by_record (some r) = elim (Bool-cases (record_digest_of r == entry.record_digest)) [
        | inr differs ↦ rw differs (refl, (refl, tt))
        | inl same ↦ elim (Bool-cases (is_empty (missing_provenance entry.field_sources r))) [
          | inr lacking ↦ rw (same, lacking) (refl, (refl, tt))
          | inl sourced ↦ rw (same, sourced) (refl, tt)
        ]
      ]

  prepared-Report :
      (entry : IngestEntry) (existing : Option Existing) (p : Prepared)
      → IsReport entry (
          ingest_prepared read_record record_digest_of entry_digest_of count_tokens chunk embed
            old_ids_of generation_id entry existing p)
  prepared-Report entry existing (unready code) = (refl, (refl, tt))
  prepared-Report entry existing (ready r chunks inputs) =
      by_vectors (embed_in_batches count_tokens embed inputs)
    where
      by_vectors :
          (o : Option (List Vector))
          → IsReport entry (
              write_entry read_record record_digest_of entry_digest_of count_tokens chunk embed
                old_ids_of generation_id entry existing r chunks inputs o)
      by_vectors none = (refl, (refl, tt))
      by_vectors (some vectors) = (refl, (refl, tt))

  ingest_entry-Report :
      (entry : IngestEntry) (existing : Option Existing)
      → IsReport entry (
          ingest_entry read_record record_digest_of entry_digest_of count_tokens chunk embed
            old_ids_of generation_id entry existing)
  unfolding ingest_entry
  ingest_entry-Report entry existing = elim (Bool-cases (is_current existing entry.fingerprint)) [
    | inl current ↦ rw current (unchanged-Report entry)
    | inr stale ↦ rw stale (
        prepared-Report entry existing (
          prepare read_record record_digest_of entry_digest_of count_tokens chunk generation_id
            entry))
  ]

  -- The entries one after the other.
  pub each-Report :
      (states : List (Text × Existing)) (entries : List IngestEntry)
      → (map
            (λ (i : Ingested Vector). i.0.0.record_id)
            (map
              (λ entry.
                ingest_entry read_record record_digest_of entry_digest_of count_tokens chunk embed
                  old_ids_of generation_id entry
                  (get states entry.id))
              entries)
          ≡ map (λ (e : IngestEntry). e.id) entries)
        × All
            (λ c. deletes_vectors c ≡ false)
            (concat_map
              (λ (i : Ingested Vector). i.1)
              (map
                (λ entry.
                  ingest_entry read_record record_digest_of entry_digest_of count_tokens chunk embed
                    old_ids_of generation_id entry
                    (get states entry.id))
                entries))
  each-Report states [] = (refl, tt)
  each-Report states (entry ∷ entries) =
      let (id, plain) = ingest_entry-Report entry (get states entry.id) in
      let (ids, plains) = each-Report states entries in
      (λ i. id i ∷ ids i, All-append (λ c. deletes_vectors c ≡ false) _ _ plain plains)
