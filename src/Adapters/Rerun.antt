-- ===== src/Adapters/Rerun.antt =====
-- A second run over the same sources writes no record again.
use decision_memory.Prelude.{
  Bool-cases, &&-intro, nat_eq, ◌==◌, pair_eq, list_eq, ==_refl, all, All, concat_map, All-split,
  get, ◌≡◌, refl, sym, ap, ◌∙◌, subst, ◌⊎◌, inl, inr, Bool, true, false, Option, none, some, List,
  [], ◌∷◌, ◌++◌, map,
}
use decision_memory.Text.{Text, codes}
use decision_memory.Records.{CanonicalDecisionRecord}
use decision_memory.Records.Fields.{has_errors}
use decision_memory.Ingest.Entries.{IngestEntry}
use decision_memory.Adapters.{
  raised, returned, DiscoveredSpec, DiscoveryResult, AdaptationResult, Attempt, SourceAdapter,
}
use decision_memory.Adapters.Adapt.{
  optional, is_unchanged, manifest_entry, adapted_record, adapt_fingerprinted, adapt_spec,
  adapt_layout, adapt_discovered, adapt_corpus, RecordOutcome, AdaptOutcome, Write, wrote_record,
  wrote_manifest, Adapted,
}

-- The manifest has the fingerprint of an entry, and its file is there.
abbrev pub IsStored : List (Text × Text) → (Text → Bool) → IngestEntry → Type 0
IsStored previous record_exists e =
    (get previous e.id ≡ some e.fingerprint) × (record_exists e.id ≡ true)

-- Nothing is written again, and the entry is as before.
abbrev IsSettled : Adapted → Adapted → Type 0
IsSettled before after =
    (after.write ≡ none)
    × (after.entry ≡ before.entry)
    × ((after.outcome.state ≡ codes "failed") ⊎ (after.outcome.state ≡ codes "unchanged"))

module _ (relative_to : Text → Text → Text) (record_digest_of : CanonicalDecisionRecord → Text)
    (entry_digest_of : IngestEntry → Text) (previous previous' : List (Text × Text))
    (record_exists record_exists' : Text → Bool) where
  record-Settled :
      (spec : DiscoveredSpec) (fingerprint : Text) (result : AdaptationResult)
      (o : Option CanonicalDecisionRecord)
      → All (IsStored previous' record_exists') (
          optional
            (adapted_record relative_to record_digest_of entry_digest_of previous record_exists spec
              fingerprint result o).entry)
      → IsSettled
          (adapted_record relative_to record_digest_of entry_digest_of previous record_exists spec
            fingerprint result o)
          (adapted_record relative_to record_digest_of entry_digest_of previous' record_exists' spec
            fingerprint result o)
  record-Settled spec fingerprint result none h = (refl, refl, inl refl)
  record-Settled spec fingerprint result (some adapted) h =
      elim (Bool-cases (has_errors result.violations)) [
        | inl bad ↦ rw bad (refl, refl, inl refl)
        | inr good ↦
            let stored : All (IsStored previous' record_exists') (
                manifest_entry relative_to record_digest_of entry_digest_of previous record_exists
                  spec fingerprint adapted result.field_sources
                ∷ []) =
              rw good at h in
            let known : get previous' spec.id ≡ some fingerprint = stored.0.0 in
            let same : is_unchanged relative_to record_digest_of entry_digest_of previous'
                  record_exists' spec.id fingerprint
                ≡ true =
              rw (is_unchanged, known)
                (&&-intro {a = fingerprint == fingerprint} (==_refl fingerprint) stored.0.1) in
            rw (good, same) (refl, refl, inr refl)
      ]

  spec-Settled :
      (spec : DiscoveredSpec) (fingerprint : Attempt Text) (parsed : Attempt AdaptationResult)
      → All (IsStored previous' record_exists') (
          optional
            (adapt_fingerprinted relative_to record_digest_of entry_digest_of previous record_exists
              spec fingerprint parsed).entry)
      → IsSettled
          (adapt_fingerprinted relative_to record_digest_of entry_digest_of previous record_exists
            spec fingerprint parsed)
          (adapt_fingerprinted relative_to record_digest_of entry_digest_of previous' record_exists'
            spec fingerprint parsed)
  spec-Settled spec (raised t m) parsed h = (refl, refl, inl refl)
  spec-Settled spec (returned fp) (raised t m) h = (refl, refl, inl refl)
  spec-Settled spec (returned fp) (returned result) h =
      record-Settled spec fp result result.adapted h

  module _ (adapter : SourceAdapter) where
    specs-Settled :
        (specs : List DiscoveredSpec)
        → All (IsStored previous' record_exists') (
            concat_map
              (λ (a : Adapted). optional a.entry)
              (map
                (adapt_spec relative_to record_digest_of entry_digest_of previous record_exists
                  adapter)
                specs))
        → (concat_map
              (λ (a : Adapted). optional a.write)
              (map
                (adapt_spec relative_to record_digest_of entry_digest_of previous' record_exists'
                  adapter)
                specs)
            ≡ [])
          × (concat_map
                (λ (a : Adapted). optional a.entry)
                (map
                  (adapt_spec relative_to record_digest_of entry_digest_of previous' record_exists'
                    adapter)
                  specs)
              ≡ concat_map
                  (λ (a : Adapted). optional a.entry)
                  (map
                    (adapt_spec relative_to record_digest_of entry_digest_of previous record_exists
                      adapter)
                    specs))
          × All
              (λ (o : RecordOutcome). (o.state ≡ codes "failed") ⊎ (o.state ≡ codes "unchanged"))
              (map
                (λ (a : Adapted). a.outcome)
                (map
                  (adapt_spec relative_to record_digest_of entry_digest_of previous' record_exists'
                    adapter)
                  specs))
    specs-Settled [] h = (refl, refl, tt)
    specs-Settled (spec ∷ specs) h =
        let (now, rest) =
          All-split (IsStored previous' record_exists')
            (optional
              (adapt_spec relative_to record_digest_of entry_digest_of previous record_exists
                adapter spec).entry)
            _ h in
        let (no_write, same, settled) =
          spec-Settled spec (adapter.fingerprint spec) (adapter.parse spec) now in
        let (no_writes, sames, all) = specs-Settled specs rest in
        (
          (λ i. optional (no_write i) ++ no_writes i),
          (λ i. optional (same i) ++ sames i),
          (settled, all),
        )

    -- When the previous manifest has the fingerprints of the entries that a run found and their files
    -- are there, the next run over the same sources writes no record: it writes the manifest with the
    -- same entries, and each of its outcomes is failed or unchanged.
    pub adapt_corpus-rerun :
        (discovery : DiscoveryResult)
        → adapter.discover ≡ returned discovery
        → discovery.corpus_error ≡ none
        → All (IsStored previous' record_exists') (
            concat_map
              (λ (a : Adapted). optional a.entry)
              (map
                (adapt_spec relative_to record_digest_of entry_digest_of previous record_exists
                  adapter)
                discovery.specs))
        → ((adapt_corpus relative_to record_digest_of entry_digest_of previous' record_exists'
              adapter false true).1
            ≡ wrote_manifest adapter.adapter_version
                (concat_map
                  (λ (a : Adapted). optional a.entry)
                  (map
                    (adapt_spec relative_to record_digest_of entry_digest_of previous record_exists
                      adapter)
                    discovery.specs))
                discovery.skipped
                discovery.collisions
              ∷ [])
          × All
              (λ (o : RecordOutcome). (o.state ≡ codes "failed") ⊎ (o.state ≡ codes "unchanged"))
              (adapt_corpus relative_to record_digest_of entry_digest_of previous' record_exists'
                adapter false true).0.records
    unfolding adapt_corpus
    adapt_corpus-rerun discovery found complete stored =
        let (no_writes, same, all) = specs-Settled discovery.specs stored in
        let layout =
          adapt_layout relative_to record_digest_of entry_digest_of previous' record_exists' adapter
            false discovery in
        let e : adapt_discovered relative_to record_digest_of entry_digest_of previous'
              record_exists' adapter false adapter.discover
            ≡ layout none =
          ap
            (adapt_discovered relative_to record_digest_of entry_digest_of previous' record_exists'
              adapter false)
            found
          ∙ ap layout complete in
        (
          ap (λ t. t.1) e ∙ (λ i.
              map (λ w. wrote_record w.0 w.1) (no_writes i)
              ++ wrote_manifest adapter.adapter_version (same i) discovery.skipped
                  discovery.collisions
                ∷ []),
          subst
              (λ (t : AdaptOutcome × List Write).
                All
                  (λ (o : RecordOutcome).
                    (o.state ≡ codes "failed") ⊎ (o.state ≡ codes "unchanged"))
                  t.0.records)
              (sym e) all,
        )
