-- ===== src/Claims.antt =====
-- The claim verification of one draft sentence in `query_index` of
-- src/decision_memory/application/query.py. The two provider calls are parameters: `decompose` takes
-- the number of the attempt as well, since a second call may answer otherwise, and an exception is
-- `none`. A sub claim id `{sentence}.{n}` is the sentence id with the number `n`.
pub mod Supported
pub mod Draft
mod Tests
use decision_memory.Prelude.{
  if◌then◌else◌, nat_eq, pair_eq, list_eq, length, any, keep, contains, is_some, ℕ, ◌+◌, Bool, true,
  false, not, Option, none, some, List, [], ◌∷◌, map,
}
use decision_memory.Text.{Text, is_empty}
use decision_memory.Verification.{
  is_retryable, deterministic_containment, classify_decomposition_detail, Disposition,
  DecompositionVerdict,
}
use decision_memory.Citations.{DraftSentence}

pub data ProviderFailure : Type 0 where
  decompose_failed entailment_failed : ProviderFailure

-- A result, or the failed query result of a provider failure.
pub data Answer (A : Type 0) : Type 0 where
  stopped : ProviderFailure → Answer A
  done : A → Answer A

pub data Entailment : Type 0 where
  skipped supported unsupported : Entailment

pub record SubClaim : Type 0 where
  pub sub_claim_number : ℕ
  pub sentence_id : Text
  pub text : Text
  pub contained : Bool
  pub entailment : Entailment
  pub reason : Text
  pub citations : List Text

pub data DropReason : Type 0 where
  no_available_citations decomposition_invalid unsupported_sub_claim : DropReason

-- What one sentence adds to the lists of the loop: it is emitted or dropped, with its rows.
pub data SentenceOutcome : Type 0 where
  emitted : DraftSentence → Bool → List SubClaim → SentenceOutcome
  dropped : DropReason → Option (ℕ × DecompositionVerdict) → List SubClaim → SentenceOutcome

abbrev pub Evidence : Type 0
Evidence = List (Text × Text)

-- The ids in order of first occurrence, from those that were seen.
abbrev pub dedupe : List Text → List Text → List Text
dedupe seen [] = []
dedupe seen (id ∷ ids) =
    let known = dedupe seen ids in
    let fresh = id ∷ dedupe (id ∷ seen) ids in if contains seen id then known else fresh

abbrev pub is_retryable_verdict : Option Disposition → Bool
is_retryable_verdict none = false
is_retryable_verdict (some d) = is_retryable d

module _ (chunk_text_by_id : Text → Option Text) where
  abbrev pub available_ids : DraftSentence → List Text
  available_ids sentence = keep (λ id. is_some (chunk_text_by_id id)) (dedupe [] sentence.chunk_ids)

  abbrev pub missing_ids : DraftSentence → List Text
  missing_ids sentence =
      keep (λ id. not (is_some (chunk_text_by_id id))) (dedupe [] sentence.chunk_ids)

  abbrev pub evidence_of : List Text → Evidence
  evidence_of [] = []
  evidence_of (id ∷ ids) = elim (chunk_text_by_id id) [
    | none ↦ evidence_of ids
    | some text ↦ (id, text) ∷ evidence_of ids
  ]

abbrev pub is_unsupported : SubClaim → Bool
is_unsupported row = elim (row.entailment) [
  | skipped ↦ false
  | supported ↦ false
  | unsupported ↦ true
]

module _ (fold : Text → Text) where
  -- The ids of the chunks that contain the claim alone.
  abbrev pub matching_ids : Text → Evidence → List Text
  matching_ids text evidence =
      map (λ p. p.0) (keep (λ p. deterministic_containment fold text (p.1 ∷ [])) evidence)

module _ (fold : Text → Text) (decompose : Text → Evidence → ℕ → Option (List Text)) where
  -- The second attempt, and the first.
  abbrev pub second_attempt : Text → Evidence → Answer (List Text × DecompositionVerdict)
  second_attempt text evidence = elim (decompose text evidence 1) [
    | none ↦ stopped decompose_failed
    | some texts ↦ done (texts, classify_decomposition_detail fold texts text)
  ]

  unfoldable pub decompose_sentence : Text → Evidence → Answer (List Text × DecompositionVerdict)
  decompose_sentence text evidence = elim (decompose text evidence 0) [
    | none ↦ stopped decompose_failed
    | some texts ↦
        let verdict = classify_decomposition_detail fold texts text in
        if is_empty texts
        then done (texts, verdict)
        else if is_retryable_verdict verdict.disposition
        then second_attempt text evidence
        else done (texts, verdict)
  ]

module _ (fold : Text → Text) (entail : Text → Evidence → Option (Bool × Text)) where
  unfoldable pub verify_sub_claim : DraftSentence → Evidence → ℕ → Text → Answer SubClaim
  verify_sub_claim sentence evidence number text =
      let matching = matching_ids fold text evidence in
      if not (is_empty matching)
      then done (record {
        sub_claim_number = number;
        sentence_id = sentence.sentence_id;
        text = text;
        contained = true;
        entailment = skipped;
        reason = [];
        citations = matching;
      })
      else elim (entail text evidence) [
        | none ↦ stopped entailment_failed
        | some (holds, reason) ↦ done (record {
          sub_claim_number = number;
          sentence_id = sentence.sentence_id;
          text = text;
          contained = false;
          entailment = if holds then supported else unsupported;
          reason = reason;
          citations = map (λ p. p.0) evidence;
        })
      ]

  -- The rows of all sub claims, in order.
  unfoldable pub verify_sub_claims :
      DraftSentence → Evidence → ℕ → List Text → Answer (List SubClaim)
  verify_sub_claims sentence evidence number [] = done []
  verify_sub_claims sentence evidence number (text ∷ texts) =
      elim (verify_sub_claim sentence evidence number text) [
        | stopped failure ↦ stopped failure
        | done row ↦ elim (verify_sub_claims sentence evidence (number + 1) texts) [
          | stopped failure ↦ stopped failure
          | done rows ↦ done (row ∷ rows)
        ]
      ]

  -- What becomes of a sentence once its decomposition has been answered.
  unfoldable pub judge :
      DraftSentence
      → List Text
      → Evidence
      → List Text × DecompositionVerdict
      → Answer SentenceOutcome
  judge sentence available evidence (texts, verdict) =
      if is_empty texts
      then done (dropped decomposition_invalid none [])
      else elim (verdict.disposition) [
        | some d ↦ done (dropped decomposition_invalid (some (length texts, verdict)) [])
        | none ↦ elim (verify_sub_claims sentence evidence 1 texts) [
          | stopped failure ↦ stopped failure
          | done rows ↦ done (
              if any is_unsupported rows
              then dropped unsupported_sub_claim none rows
              else emitted (record sentence { chunk_ids = available }) false rows)
        ]
      ]

module _ (fold : Text → Text) (decompose : Text → Evidence → ℕ → Option (List Text))
    (entail : Text → Evidence → Option (Bool × Text)) where
  unfoldable pub verify_sentence : (Text → Option Text) → DraftSentence → Answer SentenceOutcome
  verify_sentence chunk_text_by_id sentence =
      let available = available_ids chunk_text_by_id sentence in
      let evidence = evidence_of chunk_text_by_id available in
      if deterministic_containment fold sentence.text (map (λ p. p.1) evidence)
      then done (emitted (record sentence { chunk_ids = available }) true [])
      else if is_empty evidence
      then done (dropped no_available_citations none [])
      else elim (decompose_sentence fold decompose sentence.text evidence) [
        | stopped failure ↦ stopped failure
        | done answer ↦ judge fold entail sentence available evidence answer
      ]
