-- ===== src/Adapters/Agreement.antt =====
-- The validation of a corpus agrees with its adaptation.
use decision_memory.Prelude.{
  Bool-cases, nat_eq, ◌==◌, pair_eq, list_eq, any, is_some, get, ◌≡◌, refl, sym, ap, ◌∙◌, ◌⊎◌, inl,
  inr, Bool, true, false, ◌||◌, Option, none, some, List, [], ◌∷◌, map,
}
use decision_memory.Text.{Text, codes}
use decision_memory.Records.{CanonicalDecisionRecord}
use decision_memory.Records.Fields.{has_errors}
use decision_memory.Ingest.Entries.{IngestEntry}
use decision_memory.Adapters.{
  raised, returned, DiscoveredSpec, DiscoveryResult, AdaptationResult, Attempt, SourceAdapter,
}
use decision_memory.Adapters.Corpus.{
  parsed_result, source_result, validate_source, is_not_ok, validate_layout, validate_discovered,
  validate_corpus,
}
use decision_memory.Adapters.Adapt.{
  is_unchanged, state_of, adapted_record, adapt_fingerprinted, adapt_spec, has_failed, adapt_layout,
  adapt_discovered, adapt_corpus, Adapted,
}

-- A parse that gives no record reports an error.
abbrev pub Explains : Attempt AdaptationResult → Type 0
Explains (raised exception_type message) = Unit
Explains (returned result) = (is_some result.adapted ≡ true) ⊎ (has_errors result.violations ≡ true)

any-map {ℓ κ} :
    {A : Type ℓ} {B : Type κ} (p : B → Bool) (f : A → B) (xs : List A)
    → any p (map f xs) ≡ any (λ x. p (f x)) xs
any-map p f [] = refl
any-map p f (x ∷ xs) = ap (λ t. p (f x) || t) (any-map p f xs)

any-same {ℓ} :
    {A : Type ℓ} (p q : A → Bool) (xs : List A) → ((x : A) → p x ≡ q x) → any p xs ≡ any q xs
any-same p q [] h = refl
any-same p q (x ∷ xs) h = λ i. h x i || any-same p q xs h i

module _ (relative_to : Text → Text → Text) (record_digest_of : CanonicalDecisionRecord → Text)
    (entry_digest_of : IngestEntry → Text) (previous : List (Text × Text))
    (record_exists : Text → Bool) where
  state_of-Kept :
      (id fingerprint : Text)
      → (state_of relative_to record_digest_of entry_digest_of previous record_exists id fingerprint
          == codes "failed")
        ≡ false
  state_of-Kept id fingerprint =
      elim (Bool-cases (
        is_unchanged relative_to record_digest_of entry_digest_of previous record_exists id
          fingerprint)) [
            | inl same ↦ rw same refl
            | inr differs ↦ elim (Bool-cases (is_some (get previous id))) [
              | inl known ↦ rw (differs, known) refl
              | inr new ↦ rw (differs, new) refl
            ]
          ]

  record-Agrees :
      (spec : DiscoveredSpec) (fingerprint : Text) (result : AdaptationResult)
      (o : Option CanonicalDecisionRecord)
      → (is_some o ≡ true) ⊎ (has_errors result.violations ≡ true)
      → is_not_ok (parsed_result spec (returned result))
        ≡ has_failed relative_to record_digest_of entry_digest_of previous record_exists
            (adapted_record relative_to record_digest_of entry_digest_of previous record_exists spec
              fingerprint result o).outcome
  record-Agrees spec fingerprint result none (inl e) = absurd (cc)
  record-Agrees spec fingerprint result none (inr e) = rw e refl
  record-Agrees spec fingerprint result (some adapted) h =
      elim (Bool-cases (has_errors result.violations)) [
        | inl bad ↦ rw bad refl
        | inr good ↦ rw (good, state_of-Kept spec.id fingerprint) refl
      ]

  source-Agrees :
      (spec : DiscoveredSpec) (fingerprint : Attempt Text) (parsed : Attempt AdaptationResult)
      → Explains parsed
      → is_not_ok (source_result spec fingerprint parsed)
        ≡ has_failed relative_to record_digest_of entry_digest_of previous record_exists
            (adapt_fingerprinted relative_to record_digest_of entry_digest_of previous record_exists
              spec fingerprint parsed).outcome
  source-Agrees spec (raised t m) parsed h = refl
  source-Agrees spec (returned fp) (raised t m) h = refl
  source-Agrees spec (returned fp) (returned result) h =
      record-Agrees spec fp result result.adapted h

  -- When each parse that gives no record reports an error, the validation of a corpus has the exit
  -- code of its adaptation.
  pub validate_corpus-adapt_corpus :
      (adapter : SourceAdapter) (is_dir dry_run : Bool)
      → ((spec : DiscoveredSpec) → Explains (adapter.parse spec))
      → (validate_corpus adapter is_dir).exit_code
        ≡ (adapt_corpus relative_to record_digest_of entry_digest_of previous record_exists adapter
            dry_run is_dir).0.exit_code
  unfolding validate_corpus adapt_corpus
  validate_corpus-adapt_corpus adapter false dry_run h = refl
  validate_corpus-adapt_corpus adapter true dry_run h = by_discovery adapter.discover
    where
      by_layout :
          (discovery : DiscoveryResult) (o : Option Text)
          → (validate_layout adapter discovery o).exit_code
            ≡ (adapt_layout relative_to record_digest_of entry_digest_of previous record_exists
                adapter dry_run discovery o).0.exit_code
      by_layout discovery (some message) = refl
      by_layout discovery none =
          let same : any is_not_ok (map (validate_source adapter) discovery.specs)
              ≡ any (has_failed relative_to record_digest_of entry_digest_of previous record_exists)
                  (map (λ a. a.outcome)
                    (map
                      (adapt_spec relative_to record_digest_of entry_digest_of previous
                        record_exists adapter)
                      discovery.specs)) =
            any-map is_not_ok (validate_source adapter) discovery.specs
            ∙ any-same _ _ discovery.specs (λ spec.
              source-Agrees spec (adapter.fingerprint spec) (adapter.parse spec) (h spec))
            ∙ sym (
                any-map
                  (λ (a : Adapted).
                    has_failed relative_to record_digest_of entry_digest_of previous record_exists
                      a.outcome)
                  (adapt_spec relative_to record_digest_of entry_digest_of previous record_exists
                    adapter)
                  discovery.specs)
            ∙ sym (
                any-map
                  (has_failed relative_to record_digest_of entry_digest_of previous record_exists)
                  (λ (a : Adapted). a.outcome)
                  (map
                    (adapt_spec relative_to record_digest_of entry_digest_of previous record_exists
                      adapter)
                    discovery.specs)) in
          rw same refl

      by_discovery :
          (d : Attempt DiscoveryResult)
          → (validate_discovered adapter d).exit_code
            ≡ (adapt_discovered relative_to record_digest_of entry_digest_of previous record_exists
                adapter dry_run d).0.exit_code
      by_discovery (raised t m) = refl
      by_discovery (returned discovery) = by_layout discovery discovery.corpus_error
