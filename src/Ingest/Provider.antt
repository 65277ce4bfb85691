-- ===== src/Ingest/Provider.antt =====
-- A run whose plan needs no provider does not ask it.
use decision_memory.Prelude.{
  if◌then◌else◌, Bool-cases, nat_eq, pair_eq, list_eq, In→any, In, here, there, get, ℕ, ◌≡◌, refl,
  ap, inl, inr, Bool, true, false, not, Option, List, [], ◌∷◌, map, arith,
}
use decision_memory.Text.{Text, codes, is_empty, text_lt}
use decision_memory.Sorting.{sort_by-perm, sort_by}
use decision_memory.Sorting.Perms.{Permᴰ-In}
use decision_memory.Sorting.Keys.{}
use decision_memory.Records.{CanonicalDecisionRecord}
use decision_memory.Chunking.{Chunked}
use decision_memory.Chunking.Units.{FieldSources}
use decision_memory.Ingest.Entries.{Existing, is_current, ingest_entry, IngestEntry, Change}
use decision_memory.Ingest.{
  stopped_with, plan_needs_provider, sorted_entries, is_incompatible, planned_states,
  apply_ingested, run_ingest, Manifest,
}

map-same {ℓ κ} :
    {A : Type ℓ} {B : Type κ} (f g : A → B) (xs : List A)
    → ((x : A) → In x xs → f x ≡ g x)
    → map f xs ≡ map g xs
map-same f g [] h = refl
map-same f g (x ∷ xs) h = λ i. h x (here refl) i ∷ map-same f g xs (λ y m. h y (there m)) i

is_empty-In {ℓ} : {A : Type ℓ} {a : A} (xs : List A) → In a xs → is_empty xs ≡ false
is_empty-In [] m = elim m [ ]
is_empty-In (x ∷ xs) m = refl

free_plan-Current :
    (manifest : Manifest) (states : List (Text × Existing)) (rebuild : Bool)
    → plan_needs_provider manifest states rebuild ≡ false
    → (entry : IngestEntry) → In entry manifest.entries
    → is_current (get states entry.id) entry.fingerprint ≡ true
unfolding plan_needs_provider
free_plan-Current manifest states rebuild h entry m =
    elim (Bool-cases (is_current (get states entry.id) entry.fingerprint)) [
      | inl current ↦ current
      | inr stale ↦
          let some_entry = is_empty-In manifest.entries m in
          let asks =
            In→any (λ e. not (is_current (get states e.id) e.fingerprint)) manifest.entries m
              (ground arith) in
          absurd (ground arith)
    ]

module _ (read_record : Text → Option CanonicalDecisionRecord)
    (record_digest_of : CanonicalDecisionRecord → Text) (entry_digest_of : IngestEntry → Text)
    (count_tokens : Text → ℕ)
    (chunk : CanonicalDecisionRecord → FieldSources → Text → Text → Chunked) {Vector : Type 0}
    (embed embed' : List Text → Option (List Vector)) (old_ids_of : Change Vector → List Text)
    (generation_id : Text)
    (supersession_problems activation_problems : List (Change Vector) → List Text)
    (metadata : Change Vector) where
  current_entry :
      (entry : IngestEntry) (existing : Option Existing)
      → is_current existing entry.fingerprint ≡ true
      → ingest_entry read_record record_digest_of entry_digest_of count_tokens chunk embed
          old_ids_of generation_id entry existing
        ≡ ingest_entry read_record record_digest_of entry_digest_of count_tokens chunk embed'
            old_ids_of generation_id entry existing
  unfolding ingest_entry
  current_entry entry existing h = rw h refl

  -- When the plan needs no provider, the run has the same result and the same changes whatever the
  -- provider answers and whatever the key check says.
  pub run_ingest-provider_free :
      (rebuild : Bool) (manifest : Manifest) (stored_signature : Option Text) (signature : Text)
      (existing_states : List (Text × Existing)) (key_error key_error' : Option Text)
      → plan_needs_provider manifest (planned_states rebuild existing_states) rebuild ≡ false
      → run_ingest read_record record_digest_of entry_digest_of count_tokens chunk embed old_ids_of
          generation_id supersession_problems activation_problems metadata rebuild manifest
          stored_signature signature existing_states key_error
        ≡ run_ingest read_record record_digest_of entry_digest_of count_tokens chunk embed'
            old_ids_of generation_id supersession_problems activation_problems metadata rebuild
            manifest stored_signature signature existing_states key_error'
  unfolding run_ingest sort_by
  run_ingest-provider_free rebuild manifest stored_signature signature existing_states key_error
        key_error' h =
      rw h (
        ap
          (λ ingested.
            if is_incompatible rebuild stored_signature signature
            then (
              stopped_with [] (codes "pipeline.incompatible") (codes "pipeline") (
                  codes
                    "index was built with a different pipeline signature; run ingest --rebuild"),
              [],
            )
            else apply_ingested generation_id supersession_problems activation_problems metadata
                rebuild manifest (planned_states rebuild existing_states) ingested)
          (map-same _ _ (sorted_entries manifest) (λ entry m.
            current_entry entry (get (planned_states rebuild existing_states) entry.id) (
              free_plan-Current manifest (planned_states rebuild existing_states) rebuild h entry
                (Permᴰ-In (sort_by-perm (λ a b. text_lt a.id b.id) manifest.entries) m)))))
