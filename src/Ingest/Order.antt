-- ===== src/Ingest/Order.antt =====
-- A run is refused before it changes the store, or it reports every record and deletes vectors only
-- behind an activation without problems.
use decision_memory.Prelude.{
  Bool-cases, nat_eq, pair_eq, list_eq, any, keep, All, In-append_right, concat_map, In, here,
  All-append, map-append, map-map, ℕ, ◌≡◌, refl, sym, ◌∙◌, subst, ◌↔◌, ◌⊎◌, inl, inr, Bool, false,
  Option, none, some, List, [], ◌∷◌, ◌++◌, map, arith,
}
use decision_memory.Text.{Text}
use decision_memory.Sorting.{}
use decision_memory.Sorting.Keys.{}
use decision_memory.Records.{CanonicalDecisionRecord}
use decision_memory.Chunking.{Chunked}
use decision_memory.Chunking.Units.{FieldSources}
use decision_memory.Ingest.Entries.{
  Existing, Ingested, IngestEntry, RecordIngestResult, Change, cleaned, derived, activated,
  deleted_vectors,
}
use decision_memory.Ingest.{
  exit_ok, exit_failed, is_failed, finished, plan_needs_provider, sorted_entries, is_removable,
  removed_result, is_incompatible, planned_states, removal, staged, all_results, activate,
  check_supersessions, apply_ingested, ingest_each, check_key, run_ingest, IngestResult, Manifest,
}
use decision_memory.Ingest.Runs.{deletes_vectors, each-Report}

-- A run that stops before the store is opened.
abbrev pub IsRefused : {Vector : Type 0} → IngestResult × List (Change Vector) → Type 0
IsRefused (r, changes) = (r.records ≡ []) × (changes ≡ []) × (r.exit_code ≡ exit_failed)

abbrev pub removed_ids : Manifest → List (Text × Existing) → List Text
removed_ids manifest states =
    map (λ row. row.0) (keep (is_removable (map (λ entry. entry.id) manifest.entries)) states)

-- One result for each entry, sorted by id, and one for each removed record.
abbrev pub IsAccounted : Manifest → List (Text × Existing) → IngestResult → Type 0
IsAccounted manifest states r =
    map (λ result. result.record_id) r.records
    ≡ map (λ entry. entry.id) (sorted_entries manifest) ++ removed_ids manifest states

-- The exit code is that of success exactly without a failure and a failed record.
abbrev pub HasExit : IngestResult → Type 0
HasExit r = (r.exit_code ≡ exit_ok) ↔ ((r.failure ≡ none) × (any is_failed r.records ≡ false))

-- Vectors are deleted behind an activation that found no problem.
abbrev pub IsOrdered :
    {Vector : Type 0} → Text → (List (Change Vector) → List Text) → List (Change Vector) → Type 0
IsOrdered {Vector} generation_id activation_problems changes =
    All (λ c. deletes_vectors c ≡ false) changes
    ⊎ ((before : List (Change Vector)) × (after : List (Change Vector)) × (changes
          ≡ before ++ after)
        × In (activated generation_id) before
        × (activation_problems before ≡ [])
        × All (λ c. deletes_vectors c ≡ false) before)

finished-HasExit : (records : List RecordIngestResult) → HasExit (finished records)
finished-HasExit records = elim (Bool-cases (any is_failed records)) [
  | inl bad ↦ rw bad ((λ h. absurd (omega arith)), λ p. absurd (let k = p.1 in (cc)))
  | inr good ↦ rw good ((λ h. (refl, refl)), λ p. refl)
]

-- Refused, or with a compatible index and a key where the plan needs one, and then applied.
abbrev pub IsRun :
    {Vector : Type 0}
    → Text
    → (List (Change Vector) → List Text)
    → Bool
    → Manifest
    → Option Text
    → Text
    → List (Text × Existing)
    → Option Text
    → IngestResult × List (Change Vector)
    → Type 0
IsRun generation_id activation_problems rebuild manifest stored_signature signature existing_states
      key_error (r, changes) =
    IsRefused (r, changes)
    ⊎ ((is_incompatible rebuild stored_signature signature ≡ false)
        × ((plan_needs_provider manifest (planned_states rebuild existing_states) rebuild ≡ false)
            ⊎ (key_error ≡ none))
        × (IsAccounted manifest (planned_states rebuild existing_states) r
            × HasExit r
            × IsOrdered generation_id activation_problems changes))

module _ {Vector : Type 0} (generation_id : Text)
    (supersession_problems activation_problems : List (Change Vector) → List Text)
    (metadata : Change Vector) where
  removals-Kept :
      (rows : List (Text × Existing))
      → All
          (λ (c : Change Vector). deletes_vectors c ≡ false)
          (concat_map (removal generation_id) rows ++ cleaned generation_id ∷ derived ∷ [])
  removals-Kept [] = (refl, (refl, tt))
  removals-Kept (row ∷ rows) = (refl, (refl, removals-Kept rows))

  -- What the loops report and change, whatever the store then answers.
  IsApplied : Manifest → List (Text × Existing) → IngestResult × List (Change Vector) → Type 0
  IsApplied manifest states (r, changes) =
      IsAccounted manifest states r
      × HasExit r
      × IsOrdered generation_id activation_problems changes

  apply_ingested-Applied :
      (rebuild : Bool) (manifest : Manifest) (states : List (Text × Existing))
      (ingested : List (Ingested Vector))
      → map (λ i. i.0.0.record_id) ingested ≡ map (λ entry. entry.id) (sorted_entries manifest)
      → All (λ c. deletes_vectors c ≡ false) (concat_map (λ i. i.1) ingested)
      → IsApplied manifest states (
          apply_ingested generation_id supersession_problems activation_problems metadata rebuild
            manifest states ingested)
  unfolding IsApplied apply_ingested
  apply_ingested-Applied rebuild manifest states ingested ids plain =
      by_supersessions (supersession_problems changes)
    where
      changes : List (Change Vector)
      changes =
          staged generation_id supersession_problems activation_problems metadata rebuild manifest
            states ingested

      kept : All (λ c. deletes_vectors c ≡ false) changes
      kept = (
        refl,
        All-append (λ (c : Change Vector). deletes_vectors c ≡ false) _ _ plain
            (removals-Kept (keep (is_removable (map (λ entry. entry.id) manifest.entries)) states)),
      )

      accounted :
          map
            (λ result. result.record_id)
            (all_results generation_id supersession_problems activation_problems metadata manifest
              states ingested)
          ≡ map (λ entry. entry.id) (sorted_entries manifest) ++ removed_ids manifest states
      accounted =
          map-append (λ result. result.record_id) (map (λ (i : Ingested Vector). i.0.0) ingested) _
          ∙ (λ i.
              (map-map (λ result. result.record_id) (λ (j : Ingested Vector). j.0.0) ingested ∙ ids)
                i
              ++ map-map (λ result. result.record_id)
                  (λ (row : Text × Existing). removed_result row.0)
                  (keep (is_removable (map (λ entry. entry.id) manifest.entries)) states) i)

      tried : List (Change Vector)
      tried = changes ++ activated generation_id ∷ []

      kept_tried : All (λ (c : Change Vector). deletes_vectors c ≡ false) tried
      kept_tried =
          All-append (λ (c : Change Vector). deletes_vectors c ≡ false) changes _ kept (refl, tt)

      by_activation :
          (problems : List Text)
          → activation_problems tried ≡ problems
          → IsApplied manifest states (
              activate generation_id supersession_problems activation_problems metadata manifest
                states ingested tried problems)
      by_activation [] e = (
        accounted,
        finished-HasExit (
            all_results generation_id supersession_problems activation_problems metadata manifest
              states ingested),
        inr (
          tried,
          metadata ∷ map (λ i. deleted_vectors i.0.1) ingested,
          refl,
          In-append_right changes (here refl),
          e,
          kept_tried,
        ),
      )
      by_activation (problem ∷ problems) e = (
        accounted,
        ((λ h. absurd (omega arith)), λ p. absurd (let k = p.0 in (cc))),
        inl kept_tried,
      )

      by_supersessions :
          (problems : List Text)
          → IsApplied manifest states (
              check_supersessions generation_id supersession_problems activation_problems metadata
                manifest states ingested changes problems)
      by_supersessions [] = by_activation (activation_problems tried) refl
      by_supersessions (problem ∷ problems) =
          (accounted, ((λ h. absurd (omega arith)), λ p. absurd (let k = p.0 in (cc))), inl kept)

module _ (read_record : Text → Option CanonicalDecisionRecord)
    (record_digest_of : CanonicalDecisionRecord → Text) (entry_digest_of : IngestEntry → Text)
    (count_tokens : Text → ℕ)
    (chunk : CanonicalDecisionRecord → FieldSources → Text → Text → Chunked) {Vector : Type 0}
    (embed : List Text → Option (List Vector)) (old_ids_of : Change Vector → List Text)
    (generation_id : Text)
    (supersession_problems activation_problems : List (Change Vector) → List Text)
    (metadata : Change Vector) where
  -- A run either stops with the error code, no result and no change of the store, or its index is
  -- compatible and a key is there if the plan needs one; then there is one result for each
  -- manifest entry, sorted by id, and for each removed record, it exits with success exactly when
  -- nothing failed, and it deletes vectors only behind an activation that found no problem.
  pub run_ingest-Applied :
      (rebuild : Bool) (manifest : Manifest) (stored_signature : Option Text) (signature : Text)
      (existing_states : List (Text × Existing)) (key_error : Option Text)
      → IsRun generation_id activation_problems rebuild manifest stored_signature signature
          existing_states key_error
          (run_ingest read_record record_digest_of entry_digest_of count_tokens chunk embed
            old_ids_of generation_id supersession_problems activation_problems metadata rebuild
            manifest stored_signature signature existing_states key_error)
  unfolding run_ingest IsApplied
  run_ingest-Applied rebuild manifest stored_signature signature existing_states key_error =
      elim (Bool-cases (is_incompatible rebuild stored_signature signature)) [
        | inl clash ↦ rw clash (inl (refl, refl, refl))
        | inr compatible ↦
            elim (Bool-cases
              (plan_needs_provider manifest (planned_states rebuild existing_states) rebuild)) [
                | inr free ↦ rw (compatible, free) (inr (refl, inl refl, applied))
                | inl asks ↦
                    let e : run_ingest read_record record_digest_of entry_digest_of count_tokens
                          chunk embed old_ids_of generation_id supersession_problems
                          activation_problems metadata rebuild manifest stored_signature signature
                          existing_states key_error
                        ≡ check_key read_record record_digest_of entry_digest_of count_tokens chunk
                            embed old_ids_of generation_id supersession_problems activation_problems
                            metadata rebuild manifest states key_error =
                      rw (compatible, asks) refl in
                    subst
                      (IsRun generation_id activation_problems rebuild manifest stored_signature
                        signature existing_states key_error)
                      (sym e) (by_key compatible key_error)
              ]
      ]
    where
      states : List (Text × Existing)
      states = planned_states rebuild existing_states

      applied :
          IsApplied generation_id supersession_problems activation_problems metadata manifest states
            (apply_ingested generation_id supersession_problems activation_problems metadata rebuild
              manifest states
              (ingest_each read_record record_digest_of entry_digest_of count_tokens chunk embed
                old_ids_of generation_id supersession_problems activation_problems metadata manifest
                states))
      applied =
          let (ids, plain) =
            each-Report read_record record_digest_of entry_digest_of count_tokens chunk embed
              old_ids_of generation_id states (sorted_entries manifest) in
          apply_ingested-Applied generation_id supersession_problems activation_problems metadata
            rebuild manifest states _ ids plain

      by_key :
          is_incompatible rebuild stored_signature signature ≡ false
          → (error : Option Text)
          → IsRun generation_id activation_problems rebuild manifest stored_signature signature
              existing_states error
              (check_key read_record record_digest_of entry_digest_of count_tokens chunk embed
                old_ids_of generation_id supersession_problems activation_problems metadata rebuild
                manifest states error)
      by_key compatible none = inr (compatible, inr refl, applied)
      by_key compatible (some message) = inl (refl, refl, refl)
