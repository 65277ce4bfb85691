-- ===== src/Ingest/Batches/Bounds.antt =====
-- The batches are the inputs in order, each within the caps, and as many as are counted.
use decision_memory.Prelude.{
  Bool-cases, nat_eq, pair_eq, list_eq, length, All, length-append, concat_map, ℕ, suc, ◌+◌, ◌≤◌,
  ◌<◌, ◌≡◌, refl, ap, ◌∙◌, ◌≢◌, ◌⊎◌, inl, inr, true, false, Option, some, List, [], ◌∷◌, ◌++◌,
  append_assoc, arith,
}
use decision_memory.Text.{Text}
use decision_memory.Ingest.Batches.{
  batch_chunk_cap, batch_token_cap, is_full, extend, embed_from, embed_in_batches, count_from,
  batch_count,
}

module _ (count_tokens : Text → ℕ) where
  abbrev pub total : List Text → ℕ
  total [] = 0
  total (text ∷ texts) = count_tokens text + total texts

  -- A batch of at most 64 inputs, with at most 50000 tokens unless it has one input.
  abbrev pub IsBatch : List Text → Type 0
  IsBatch batch =
      (batch ≢ [])
      × (length batch ≤ batch_chunk_cap)
      × ((total batch ≤ batch_token_cap) ⊎ (length batch ≡ 1))

  -- Each batch embedded in order.
  abbrev pub embed_all :
      {Vector : Type 0}
      → (List Text → Option (List Vector))
      → List (List Text)
      → Option (List Vector)
  embed_all embed [] = some []
  embed_all embed (batch ∷ batches) = extend count_tokens embed batch (embed_all embed batches)

  -- What is open keeps within the caps, and its tokens are counted.
  abbrev Open : List Text → ℕ → Type 0
  Open [] tokens = tokens ≡ 0
  Open (item ∷ batch) tokens = (tokens ≡ total (item ∷ batch)) × IsBatch (item ∷ batch)

  total-snoc :
      (batch : List Text) (text : Text)
      → total (batch ++ text ∷ []) ≡ total batch + count_tokens text
  total-snoc [] text = omega arith
  total-snoc (item ∷ batch) text = omega (arith, total-snoc batch text)

  room :
      (n tokens more : ℕ)
      → is_full (suc n) tokens more ≡ false
      → (suc n < batch_chunk_cap) × (tokens + more ≤ batch_token_cap)
  room n tokens more h = (ground arith, ground arith)

  Open-snoc :
      (batch : List Text) (tokens : ℕ) (text : Text)
      → Open batch tokens
      → is_full (length batch) tokens (count_tokens text) ≡ false
      → Open (batch ++ text ∷ []) (tokens + count_tokens text)
  Open-snoc [] tokens text h free = (omega arith, ((λ e. cc), omega arith, inr refl))
  Open-snoc (item ∷ batch) tokens text (counted, (filled, small, sized)) free =
      let (a, rest) = room (length batch) tokens (count_tokens text) free in
      let size = length-append batch (text ∷ []) in
      let sum = total-snoc (item ∷ batch) text in
      (omega arith, ((λ e. cc), omega arith, inl (omega arith)))

  Open-IsBatch :
      (batch : List Text) (tokens more : ℕ)
      → Open batch tokens
      → is_full (length batch) tokens more ≡ true
      → IsBatch batch
  Open-IsBatch [] tokens more h full = absurd (cc)
  Open-IsBatch (item ∷ batch) tokens more h full = h.1

  divided :
      {Vector : Type 0} (embed : List Text → Option (List Vector)) (batch : List Text) (tokens : ℕ)
      (inputs : List Text)
      → Open batch tokens
      → (batches : List (List Text)) × (concat_map (λ b. b) batches ≡ batch ++ inputs)
        × All IsBatch batches
        × (embed_from count_tokens embed batch tokens inputs ≡ embed_all embed batches)
        × (count_from count_tokens (length batch) tokens inputs ≡ length batches)
  divided embed [] tokens [] h = ([], refl, tt, refl, refl)
  divided embed (item ∷ batch) tokens [] h =
      ((item ∷ batch) ∷ [], refl, (h.1, tt), refl, ground arith)
  divided embed batch tokens (text ∷ inputs) h =
      elim (Bool-cases (is_full (length batch) tokens (count_tokens text))) [
        | inr free ↦
            let next = length-append batch (text ∷ []) in
            let size : suc (length batch) ≡ length (batch ++ text ∷ []) = omega arith in
            let (batches, whole, caps, same, counted) =
              divided embed (batch ++ text ∷ []) (tokens + count_tokens text) inputs
                (Open-snoc batch tokens text h free) in
            (
              batches,
              whole ∙ append_assoc batch (text ∷ []) inputs,
              caps,
              rw (embed_from, free) same,
              rw (count_from, free, size) counted,
            )
        | inl full ↦
            let (batches, whole, caps, same, counted) =
              divided embed (text ∷ []) (count_tokens text) inputs
                (omega arith, ((λ e. cc), omega arith, inr refl)) in
            (
              batch ∷ batches,
              ap (λ t. batch ++ t) whole,
              (Open-IsBatch batch tokens (count_tokens text) h full, caps),
              rw (embed_from, full) (ap (extend count_tokens embed batch) same),
              rw (count_from, full) (ap suc counted),
            )
      ]

  -- The inputs are embedded in batches that are the inputs in order, each not empty, of at most 64
  -- inputs and of at most 50000 tokens unless it is a single input; the vectors are those of the
  -- batches in order, and `batch_count` is the number of the batches.
  pub embed_in_batches-IsBatch :
      {Vector : Type 0} (embed : List Text → Option (List Vector)) (inputs : List Text)
      → (batches : List (List Text)) × (concat_map (λ b. b) batches ≡ inputs)
        × All IsBatch batches
        × (embed_in_batches count_tokens embed inputs ≡ embed_all embed batches)
        × (batch_count count_tokens inputs ≡ length batches)
  unfolding embed_in_batches batch_count
  embed_in_batches-IsBatch embed inputs = divided embed [] 0 inputs refl
