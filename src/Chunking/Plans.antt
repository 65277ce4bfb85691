-- ===== src/Chunking/Plans.antt =====
-- When a record is planned, and what its plan is.
use decision_memory.Prelude.{
  ltb, Bool-cases, some_inj, nat_eq, pair_eq, list_eq, all, All, concat_map, All-append, All-split,
  enumerate, ℕ, ◌≤◌, ◌≡◌, refl, ap, ◌∙◌, subst, ◌↔◌, inl, inr, false, Option, none, some, List, [],
  ◌∷◌, ◌++◌, map, arith,
}
use decision_memory.Text.{Text, codes}
use decision_memory.Dto.{ChunkPlan}
use decision_memory.Chunking.Sentences.{paragraphs}
use decision_memory.Chunking.Packing.{pack_paragraphs}
use decision_memory.Chunking.Overlap.{apply_overlap}
use decision_memory.Gate.{model_token_limit}
use decision_memory.Records.{CanonicalDecisionRecord}
use decision_memory.Chunking.Units.{FieldSources, or_empty, chunkable_units, ChunkUnit}
use decision_memory.Chunking.{
  embedding_input, no_id, refused, planned, prepend, and_then, pieces_of, plan_of, plan_pieces,
  plan_units, chunk_record, text_item, number_item, Payload, Chunked,
}

abbrev pub IsWithin : ChunkPlan → Type 0
IsWithin p = p.embedding_input_token_count ≤ model_token_limit

prepend-planned :
    (plans : List ChunkPlan) (rest : Chunked) (all : List ChunkPlan)
    → prepend plans rest ≡ planned all
    → (more : List ChunkPlan) × (rest ≡ planned more) × (all ≡ plans ++ more)
prepend-planned plans (refused e) all h = absurd (cc)
prepend-planned plans (planned more) all h = (more, refl, cc)

and_then-planned :
    (first rest : Chunked) (all : List ChunkPlan)
    → and_then first rest ≡ planned all
    → (plans : List ChunkPlan) × (more : List ChunkPlan) × (first ≡ planned plans)
      × (rest ≡ planned more)
      × (all ≡ plans ++ more)
and_then-planned (refused e) rest all h = absurd (cc)
and_then-planned (planned plans) rest all h =
    let (more, e, k) = prepend-planned plans rest all h in (plans, more, refl, e, k)

module _ (count_tokens : Text → ℕ) (share : ℕ → ℕ) (target : ℕ) (sha256_hex : Text → Text)
    (canonical_json : List Payload → Text) where
  module _ (title generation_id fingerprint record_id : Text) where
    -- What the plan of one text of a unit says, field by field.
    abbrev pub expected_plan : ChunkUnit → ℕ × Text → ChunkPlan
    expected_plan u (position, piece) = record {
      chunk_id =
          codes "ch_"
          ++ sha256_hex (
              canonical_json (
                text_item (codes "chunk-v1")
                ∷ text_item generation_id
                ∷ text_item record_id
                ∷ text_item fingerprint
                ∷ text_item u.value_path
                ∷ number_item position
                ∷ []));
      record_id = record_id;
      fingerprint = fingerprint;
      value_path = u.value_path;
      ordinal = position;
      text = piece;
      evidence_token_count = count_tokens piece;
      embedding_input_token_count = count_tokens (embedding_input title u.value_path piece);
      sources = u.sources;
    }

    abbrev pub unit_plans : ChunkUnit → List (ℕ × Text) → List ChunkPlan
    unit_plans u = map (expected_plan u)

    -- The plans of the packed and overlapped texts of each unit.
    abbrev pub all_plans : List ChunkUnit → List ChunkPlan
    all_plans = concat_map (λ u. unit_plans u (
        enumerate 0 (
          apply_overlap count_tokens share
            (pack_paragraphs count_tokens target (paragraphs u.text)))))

    -- What is planned is the whole plan, and each input of it is within the limit.
    plan_pieces-planned :
        (u : ChunkUnit) (pieces : List (ℕ × Text)) (plans : List ChunkPlan)
        → plan_pieces count_tokens share target sha256_hex canonical_json title generation_id
            fingerprint record_id u pieces
          ≡ planned plans
        → (plans ≡ unit_plans u pieces) × All IsWithin plans
    plan_pieces-planned u [] plans h = let e : plans ≡ [] = cc in rw e (refl, tt)
    plan_pieces-planned u ((ordinal, chunk_text) ∷ pieces) plans h =
        elim (Bool-cases
          (ltb model_token_limit (count_tokens (embedding_input title u.value_path chunk_text)))) [
            | inl over ↦ let wrong = rw (plan_pieces, over) at h in absurd (cc)
            | inr within ↦
                let kept = rw (plan_pieces, within) at h in
                let (more, e, k) =
                  prepend-planned
                    (plan_of count_tokens share target sha256_hex canonical_json title generation_id
                        fingerprint record_id u (ordinal, chunk_text)
                      ∷ [])
                    (plan_pieces count_tokens share target sha256_hex canonical_json title
                      generation_id fingerprint record_id u pieces)
                    plans kept in
                let (same, all) = plan_pieces-planned u pieces more e in
                (
                  k
                      ∙ ap
                          (λ t.
                            plan_of count_tokens share target sha256_hex canonical_json title
                              generation_id fingerprint record_id u (ordinal, chunk_text)
                            ∷ t)
                          same,
                  rw k (ground arith, all),
                )
          ]

    planned-plan_pieces :
        (u : ChunkUnit) (pieces : List (ℕ × Text))
        → All IsWithin (unit_plans u pieces)
        → plan_pieces count_tokens share target sha256_hex canonical_json title generation_id
            fingerprint record_id u pieces
          ≡ planned (unit_plans u pieces)
    planned-plan_pieces u [] h = refl
    planned-plan_pieces u ((ordinal, chunk_text) ∷ pieces) (now, rest) =
        let within : ltb model_token_limit
              (count_tokens (embedding_input title u.value_path chunk_text))
            ≡ false =
          ground arith in
        rw (plan_pieces, within, planned-plan_pieces u pieces rest) refl

    plan_units-planned :
        (us : List ChunkUnit) (plans : List ChunkPlan)
        → plan_units count_tokens share target sha256_hex canonical_json title generation_id
            fingerprint record_id us
          ≡ planned plans
        → (plans ≡ all_plans us) × All IsWithin plans
    plan_units-planned [] plans h = let e : plans ≡ [] = cc in rw e (refl, tt)
    plan_units-planned (u ∷ us) plans h =
        let (first, more, e, e', k) = and_then-planned _ _ plans h in
        let (same, all) =
          plan_pieces-planned u
            (enumerate 0 (pieces_of count_tokens share target sha256_hex canonical_json u)) first
            e in
        let (same', all') = plan_units-planned us more e' in
        (k ∙ (λ i. same i ++ same' i), rw k (All-append IsWithin first more all all'))

    planned-plan_units :
        (us : List ChunkUnit)
        → All IsWithin (all_plans us)
        → plan_units count_tokens share target sha256_hex canonical_json title generation_id
            fingerprint record_id us
          ≡ planned (all_plans us)
    planned-plan_units [] h = refl
    planned-plan_units (u ∷ us) h =
        let (a, b) =
          All-split IsWithin
            (unit_plans u
              (enumerate 0 (pieces_of count_tokens share target sha256_hex canonical_json u)))
            (all_plans us) h in
        rw (planned-plan_pieces u _ a, planned-plan_units us b) refl

  -- A record is planned exactly when it has an id and every embedding input is within the token
  -- limit; the plan is then, for the units in order, their packed and overlapped texts numbered
  -- from zero, with the id, the counts and the sources of each.
  pub chunk_record-planned :
      (r : CanonicalDecisionRecord) (field_sources : FieldSources)
      (generation_id fingerprint : Text) (plans : List ChunkPlan)
      → (chunk_record count_tokens share target sha256_hex canonical_json r field_sources
            generation_id fingerprint
          ≡ planned plans)
        ↔ ((id : Text) × (r.id ≡ some id)
            × (plans
                ≡ all_plans
                    (or_empty r.title)
                    generation_id
                    fingerprint
                    id
                    (chunkable_units field_sources r))
            × All IsWithin plans)
  unfolding chunk_record
  chunk_record-planned r field_sources generation_id fingerprint plans = by_id r.id
    where
      us : List ChunkUnit
      us = chunkable_units field_sources r

      by_id :
          (o : Option Text)
          → ((elim o [
            | none ↦ refused no_id
            | some id ↦
                plan_units count_tokens share target sha256_hex canonical_json
                  (or_empty r.title)
                  generation_id
                  fingerprint
                  id
                  us
          ])
              ≡ planned plans)
            ↔ ((id : Text) × (o ≡ some id)
                × (plans ≡ all_plans (or_empty r.title) generation_id fingerprint id us)
                × All IsWithin plans)
      by_id none = (λ h. absurd (cc), λ p. absurd (let e = p.1 in (cc)))
      by_id (some id) = (
        λ h.
            let (same, all) =
              plan_units-planned (or_empty r.title) generation_id fingerprint id us plans h in
            (id, refl, same, all),
        λ p.
            let (id', e, same, all) = p in
            let k : id ≡ id' = some_inj e in
            rw (k, same)
              (planned-plan_units (or_empty r.title) generation_id fingerprint id' us
                (subst (λ t. All IsWithin t) same all)),
      )
