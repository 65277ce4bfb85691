-- ===== src/Claims/Supported.antt =====
-- An emitted sentence is backed: the evidence contains it, or each claim of a faithful decomposition.
use decision_memory.Prelude.{
  if◌then◌else◌, Bool-cases, Option-cases, ||-false, nat_eq, pair_eq, list_eq, any, All, ℕ, ◌+◌,
  ◌≡◌, refl, sym, ap, ◌∙◌, ◌⊎◌, inl, inr, Bool, true, false, Option, none, some, List, [], ◌∷◌, map,
}
use decision_memory.Text.{Text, is_empty}
use decision_memory.Verification.{
  deterministic_containment, classify_decomposition_detail, classify_decomposition,
  DecompositionVerdict,
}
use decision_memory.Verification.Verdict.{classify_decomposition-IsFaithful, IsFaithful}
use decision_memory.Citations.{DraftSentence}
use decision_memory.Claims.{
  stopped, done, emitted, dropped, Evidence, is_retryable_verdict, available_ids, evidence_of,
  is_unsupported, matching_ids, second_attempt, decompose_sentence, verify_sub_claim,
  verify_sub_claims, judge, verify_sentence, Answer, SubClaim, unsupported_sub_claim,
  SentenceOutcome,
}

module _ (fold : Text → Text) (decompose : Text → Evidence → ℕ → Option (List Text))
    (entail : Text → Evidence → Option (Bool × Text)) where
  -- A claim that one chunk of the evidence contains, or that the provider finds entailed.
  abbrev pub Holds : Evidence → Text → Type 0
  Holds evidence text =
      (is_empty (matching_ids fold text evidence) ≡ false)
      ⊎ ((reason : Text) × (entail text evidence ≡ some (true, reason)))

  abbrev RowHolds : Evidence → Text → Answer SubClaim → Type 0
  RowHolds evidence text (stopped failure) = Unit
  RowHolds evidence text (done row) = is_unsupported row ≡ false → Holds evidence text

  abbrev RowsHold : Evidence → List Text → Answer (List SubClaim) → Type 0
  RowsHold evidence texts (stopped failure) = Unit
  RowsHold evidence texts (done rows) =
      any (is_unsupported) rows ≡ false → All (Holds evidence) texts

  -- The verdict that an answer carries is of its texts.
  abbrev Judged : Text → Answer (List Text × DecompositionVerdict) → Type 0
  Judged text (stopped failure) = Unit
  Judged text (done (texts, verdict)) = verdict ≡ classify_decomposition_detail fold texts text

  -- What stands behind an emitted sentence.
  abbrev pub Backed : DraftSentence → List Text → Evidence → Answer SentenceOutcome → Type 0
  Backed sentence available evidence (stopped failure) = Unit
  Backed sentence available evidence (done (dropped reason verdict rows)) = Unit
  Backed sentence available evidence (done (emitted e contained rows)) =
      (e.text ≡ sentence.text)
      × (e.chunk_ids ≡ available)
      × ((deterministic_containment fold sentence.text (map (λ p. p.1) evidence) ≡ true)
          ⊎ ((texts : List Text) × (is_empty texts ≡ false)
              × IsFaithful fold texts sentence.text
              × All (Holds evidence) texts))

  verify_sub_claim-RowHolds :
      (sentence : DraftSentence) (evidence : Evidence) (number : ℕ) (text : Text)
      → RowHolds evidence text (verify_sub_claim fold entail sentence evidence number text)
  unfolding verify_sub_claim
  verify_sub_claim-RowHolds sentence evidence number text =
      elim (Bool-cases (is_empty (matching_ids fold text evidence))) [
        | inr matched ↦ rw (verify_sub_claim, matched) (λ h. inl matched)
        | inl unmatched ↦ elim (Option-cases (entail text evidence)) [
          | inl broken ↦ rw (verify_sub_claim, unmatched, broken) tt
          | inr ((true, reason), e) ↦ rw (verify_sub_claim, unmatched, e) (λ h. inr (reason, e))
          | inr ((false, reason), e) ↦ rw (verify_sub_claim, unmatched, e) (λ h. cc)
        ]
      ]

  verify_sub_claims-RowsHold :
      (sentence : DraftSentence) (evidence : Evidence) (number : ℕ) (texts : List Text)
      → RowsHold evidence texts (verify_sub_claims fold entail sentence evidence number texts)
  unfolding verify_sub_claims
  verify_sub_claims-RowsHold sentence evidence number [] = λ h. tt
  verify_sub_claims-RowsHold sentence evidence number (text ∷ texts) =
      let first = verify_sub_claim-RowHolds sentence evidence number text in
      let rest = verify_sub_claims-RowsHold sentence evidence (number + 1) texts in
      both (verify_sub_claim fold entail sentence evidence number text)
        (verify_sub_claims fold entail sentence evidence (number + 1) texts) first rest
    where
      both :
          (row : Answer SubClaim) (rows : Answer (List SubClaim))
          → RowHolds evidence text row
          → RowsHold evidence texts rows
          → RowsHold evidence (text ∷ texts) (elim row [
            | stopped failure ↦ stopped failure
            | done r ↦ elim rows [ stopped failure ↦ stopped failure | done rs ↦ done (r ∷ rs) ]
          ])
      both (stopped failure) rows h k = tt
      both (done row) (stopped failure) h k = tt
      both (done row) (done rows) h k = λ l.
          let (now, later) = ||-false (is_unsupported row) (any is_unsupported rows) l in
          (h now, k later)

  second_attempt-Judged :
      (text : Text) (evidence : Evidence)
      → Judged text (second_attempt fold decompose text evidence)
  second_attempt-Judged text evidence = elim (Option-cases (decompose text evidence 1)) [
    | inl broken ↦ rw (second_attempt, broken) tt
    | inr (texts, e) ↦ rw (second_attempt, e) refl
  ]

  decompose_sentence-Judged :
      (text : Text) (evidence : Evidence)
      → Judged text (decompose_sentence fold decompose text evidence)
  unfolding decompose_sentence
  decompose_sentence-Judged text evidence = elim (Option-cases (decompose text evidence 0)) [
    | inl broken ↦ rw (decompose_sentence, broken) tt
    | inr (texts, e) ↦ elim (Bool-cases (is_empty texts)) [
      | inl empty ↦ rw (decompose_sentence, e, empty) refl
      | inr some_text ↦
          elim (Bool-cases
            (is_retryable_verdict (classify_decomposition_detail fold texts text).disposition)) [
              | inr final ↦ rw (decompose_sentence, e, some_text, final) refl
              | inl again ↦
                  rw (decompose_sentence, e, some_text, again) (second_attempt-Judged text evidence)
            ]
    ]
  ]

  module _ (sentence : DraftSentence) (available : List Text) (evidence : Evidence) where
    judge_rows :
        (texts : List Text) (rows : Answer (List SubClaim))
        → is_empty texts ≡ false
        → classify_decomposition fold texts sentence.text ≡ none
        → RowsHold evidence texts rows
        → Backed sentence available evidence (elim rows [
          | stopped failure ↦ stopped failure
          | done rs ↦ done (
              if any is_unsupported rs
              then dropped unsupported_sub_claim none rs
              else emitted (record sentence { chunk_ids = available }) false rs)
        ])
    judge_rows texts (stopped failure) h valid k = tt
    judge_rows texts (done rows) h valid k = elim (Bool-cases (any is_unsupported rows)) [
      | inl unsupported_row ↦ rw unsupported_row tt
      | inr all_hold ↦ rw all_hold (
        refl,
        refl,
        inr (
          texts,
          h,
          classify_decomposition-IsFaithful fold texts sentence.text valid,
          k all_hold,
        ),
      )
    ]

    judge-Backed :
        (texts : List Text) (verdict : DecompositionVerdict)
        → verdict ≡ classify_decomposition_detail fold texts sentence.text
        → Backed sentence available evidence
            (judge fold entail sentence available evidence (texts, verdict))
    unfolding judge classify_decomposition
    judge-Backed texts verdict h = elim (Bool-cases (is_empty texts)) [
      | inl empty ↦ rw (judge, empty) tt
      | inr some_text ↦ elim (Option-cases verdict.disposition) [
        | inr (d, e) ↦ rw (judge, some_text, e) tt
        | inl valid ↦
            rw (judge, some_text, valid)
              (judge_rows texts (verify_sub_claims fold entail sentence evidence 1 texts) some_text
                (ap (λ v. v.disposition) (sym h) ∙ valid)
                (verify_sub_claims-RowsHold sentence evidence 1 texts))
      ]
    ]

    answered :
        (answer : Answer (List Text × DecompositionVerdict))
        → Judged sentence.text answer
        → Backed sentence available evidence (elim answer [
          | stopped failure ↦ stopped failure
          | done a ↦ judge fold entail sentence available evidence a
        ])
    answered (stopped failure) h = tt
    answered (done (texts, verdict)) h = judge-Backed texts verdict h

  -- An emitted sentence keeps the text of the draft and cites its available ids only, and the evidence
  -- contains it, or it has a faithful decomposition each claim of which a chunk contains or the
  -- provider finds entailed.
  pub verify_sentence-Backed :
      (chunk_text_by_id : Text → Option Text) (sentence : DraftSentence)
      → let available = available_ids chunk_text_by_id sentence in
        Backed sentence available
          (evidence_of chunk_text_by_id available)
          (verify_sentence fold decompose entail chunk_text_by_id sentence)
  unfolding verify_sentence
  verify_sentence-Backed chunk_text_by_id sentence =
      let available = available_ids chunk_text_by_id sentence in
      let evidence = evidence_of chunk_text_by_id available in
      elim (Bool-cases (deterministic_containment fold sentence.text (map (λ p. p.1) evidence))) [
        | inl contained ↦ rw (verify_sentence, contained) (refl, refl, inl contained)
        | inr other ↦ elim (Bool-cases (is_empty evidence)) [
          | inl nothing ↦ rw (verify_sentence, other, nothing) tt
          | inr some_evidence ↦
              rw (verify_sentence, other, some_evidence)
                (answered sentence available evidence
                  (decompose_sentence fold decompose sentence.text evidence)
                  (decompose_sentence-Judged sentence.text evidence))
        ]
      ]
