-- ===== src/Claims/Draft.antt =====
-- The loop of `query_index` over the draft sentences, with the lists that its trace keeps.
use decision_memory.Prelude.{
  nat_eq, pair_eq, list_eq, length, length-append, map-snoc, ℕ, ◌+◌, ◌≡◌, refl, sym, ◌∙◌, subst,
  Bool, false, Option, none, some, List, [], ◌∷◌, ◌++◌, map, append-nil, append_assoc, arith,
}
use decision_memory.Text.{Text}
use decision_memory.Verification.{DecompositionVerdict}
use decision_memory.Citations.{DraftSentence}
use decision_memory.Claims.{
  stopped, done, emitted, dropped, Evidence, missing_ids, verify_sentence, Answer, SubClaim,
  DropReason, decomposition_invalid, SentenceOutcome,
}

pub record ClaimTrace : Type 0 where
  pub emitted_sentences : List DraftSentence
  pub containment_rows : List (Text × Bool)
  pub removed : List Text
  pub decomposed_rows : List SubClaim
  pub empty_decompositions : List Text
  pub rejected_decompositions : List (Text × (ℕ × DecompositionVerdict))
  pub dropped_sentences : List (Text × DropReason)
  pub missing_chunk_refs : List (Text × List Text)

abbrev pub empty_trace : ClaimTrace
empty_trace = record {
  emitted_sentences = [];
  containment_rows = [];
  removed = [];
  decomposed_rows = [];
  empty_decompositions = [];
  rejected_decompositions = [];
  dropped_sentences = [];
  missing_chunk_refs = [];
}

-- `empty_decompositions.append(...)` and `rejected_decompositions.append(...)`, by the drop.
abbrev pub empty_rows : Text → DropReason → Option (ℕ × DecompositionVerdict) → List Text
empty_rows id decomposition_invalid none = id ∷ []
empty_rows id _ _ = []

abbrev pub rejected_rows :
    Text → Option (ℕ × DecompositionVerdict) → List (Text × (ℕ × DecompositionVerdict))
rejected_rows id none = []
rejected_rows id (some verdict) = (id, verdict) ∷ []

abbrev pub missing_rows : Text → List Text → List (Text × List Text)
missing_rows id [] = []
missing_rows id (absent ∷ ids) = (id, absent ∷ ids) ∷ []

-- The rows that one sentence appends.
abbrev pub record_outcome : ClaimTrace → DraftSentence → List Text → SentenceOutcome → ClaimTrace
record_outcome t sentence absent (emitted e contained rows) = record t {
  emitted_sentences = t.emitted_sentences ++ e ∷ [];
  containment_rows = t.containment_rows ++ (sentence.sentence_id, contained) ∷ [];
  decomposed_rows = t.decomposed_rows ++ rows;
  missing_chunk_refs = t.missing_chunk_refs ++ missing_rows sentence.sentence_id absent;
}
record_outcome t sentence absent (dropped reason verdict rows) = record t {
  containment_rows = t.containment_rows ++ (sentence.sentence_id, false) ∷ [];
  removed = t.removed ++ sentence.sentence_id ∷ [];
  decomposed_rows = t.decomposed_rows ++ rows;
  empty_decompositions = t.empty_decompositions ++ empty_rows sentence.sentence_id reason verdict;
  rejected_decompositions = t.rejected_decompositions ++ rejected_rows sentence.sentence_id verdict;
  dropped_sentences = t.dropped_sentences ++ (sentence.sentence_id, reason) ∷ [];
  missing_chunk_refs = t.missing_chunk_refs ++ missing_rows sentence.sentence_id absent;
}

module _ (fold : Text → Text) (decompose : Text → Evidence → ℕ → Option (List Text))
    (entail : Text → Evidence → Option (Bool × Text)) (chunk_text_by_id : Text → Option Text) where
  pub verify_draft : ClaimTrace → List DraftSentence → Answer ClaimTrace
  verify_draft t [] = done t
  verify_draft t (sentence ∷ sentences) =
      elim (verify_sentence fold decompose entail chunk_text_by_id sentence) [
        | stopped failure ↦ stopped failure
        | done outcome ↦
            verify_draft (record_outcome t sentence (missing_ids chunk_text_by_id sentence) outcome)
              sentences
      ]

  -- The sentences that a trace accounts for.
  abbrev pub accounted : ClaimTrace → ℕ
  accounted t = length t.emitted_sentences + length t.dropped_sentences

  -- That a trace accounts for the sentences of a list.
  abbrev pub IsBalanced : List DraftSentence → Answer ClaimTrace → Type 0
  IsBalanced sentences (stopped failure) = Unit
  IsBalanced sentences (done t) =
      (accounted t ≡ length sentences)
      × (map (λ p. p.0) t.containment_rows ≡ map (λ s. s.sentence_id) sentences)
      × (t.removed ≡ map (λ p. p.0) t.dropped_sentences)

  record_outcome-IsBalanced :
      (before : List DraftSentence) (t : ClaimTrace) (sentence : DraftSentence) (absent : List Text)
      (outcome : SentenceOutcome)
      → IsBalanced before (done t)
      → IsBalanced (before ++ sentence ∷ []) (done (record_outcome t sentence absent outcome))
  record_outcome-IsBalanced before t sentence absent (emitted e contained rows) (h, k, l) = (
    omega (arith, length-append t.emitted_sentences (e ∷ []), length-append before (sentence ∷ [])),
    map-snoc (λ p. p.0) t.containment_rows (sentence.sentence_id, contained)
        ∙ (λ i. k i ++ sentence.sentence_id ∷ [])
        ∙ sym (map-snoc (λ s. s.sentence_id) before sentence),
    l,
  )
  record_outcome-IsBalanced before t sentence absent (dropped reason verdict rows) (h, k, l) = (
    omega (
      arith,
      length-append t.dropped_sentences ((sentence.sentence_id, reason) ∷ []),
      length-append before (sentence ∷ []),
    ),
    map-snoc (λ p. p.0) t.containment_rows (sentence.sentence_id, false)
        ∙ (λ i. k i ++ sentence.sentence_id ∷ [])
        ∙ sym (map-snoc (λ s. s.sentence_id) before sentence),
    (λ i. l i ++ sentence.sentence_id ∷ [])
        ∙ sym (map-snoc (λ p. p.0) t.dropped_sentences (sentence.sentence_id, reason)),
  )

  after_outcome :
      (before : List DraftSentence) (t : ClaimTrace) (sentence : DraftSentence)
      (sentences : List DraftSentence) (answer : Answer SentenceOutcome)
      → ((outcome : SentenceOutcome)
          → IsBalanced ((before ++ sentence ∷ []) ++ sentences) (
              verify_draft
                (record_outcome t sentence (missing_ids chunk_text_by_id sentence) outcome)
                sentences))
      → IsBalanced (before ++ sentence ∷ sentences) (elim answer [
        | stopped failure ↦ stopped failure
        | done outcome ↦
            verify_draft
              (record_outcome t sentence (missing_ids chunk_text_by_id sentence) outcome)
              sentences
      ])
  after_outcome before t sentence sentences (stopped failure) go = tt
  after_outcome before t sentence sentences (done outcome) go =
      subst
        (λ l. IsBalanced l (
          verify_draft (record_outcome t sentence (missing_ids chunk_text_by_id sentence) outcome)
            sentences))
        (append_assoc before (sentence ∷ []) sentences) (go outcome)

  IsBalanced-from :
      (before : List DraftSentence) (t : ClaimTrace) (sentences : List DraftSentence)
      → IsBalanced before (done t)
      → IsBalanced (before ++ sentences) (verify_draft t sentences)
  unfolding verify_draft
  IsBalanced-from before t [] h = subst (λ l. IsBalanced l (done t)) (sym (append-nil before)) h
  IsBalanced-from before t (sentence ∷ sentences) h =
      after_outcome before t sentence sentences
        (verify_sentence fold decompose entail chunk_text_by_id sentence)
        (λ outcome.
          IsBalanced-from (before ++ sentence ∷ [])
            (record_outcome t sentence (missing_ids chunk_text_by_id sentence) outcome) sentences
            (record_outcome-IsBalanced before t sentence (missing_ids chunk_text_by_id sentence)
              outcome h))

  -- When no provider call fails, the emitted and the dropped sentences together are as many as the
  -- draft sentences, the containment rows are of the draft sentences in order, and the removed ids are
  -- those of the dropped sentences in order.
  pub verify_draft-IsBalanced :
      (sentences : List DraftSentence) → IsBalanced sentences (verify_draft empty_trace sentences)
  verify_draft-IsBalanced sentences = IsBalanced-from [] empty_trace sentences (refl, refl, refl)
