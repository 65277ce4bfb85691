-- ===== src/Verification/Verdict.antt =====
-- What a verdict on a decomposition means.
use decision_memory.Prelude.{
  ltb, nat_beq, Bool-cases, Option-cases, nat_eq, pair_eq, list_eq, length, All, distinct, NoRepeat,
  length-distinct→NoRepeat, NoRepeat→length-distinct, concat_map, ◌≤◌, ◌<◌, ◌≡◌, refl, ap, inl, inr,
  Option, none, some, List, [], ◌∷◌, ◌++◌, map, append-nil, arith,
}
use decision_memory.Text.{Text}
use decision_memory.Vocabulary.{}
use decision_memory.Verification.{
  max_sub_claims, max_added_function_words, sub_claim_is_additive_free, first_omitted,
  normalize_for_containment, sentence_tokens, response_is_complete, first_additive, halves_verdict,
  classify_decomposition_detail, classify_decomposition, Category, Disposition, over_cap, duplicate,
  not_additive, incomplete, sub_claim_side, parent_side, DecompositionVerdict,
}
use decision_memory.Verification.Additive.{
  sub_claim_is_additive_free-Absorbs, sub_claim_is_additive_free_self, Absorbs,
}
use decision_memory.Verification.Stops.{sub_claim_is_additive_free-StopsAt, StopsAt}
use decision_memory.Verification.Complete.{
  Kept, first_omitted-none, All-Kept→first_omitted, first_omitted-some, All-Kept_self,
  IsFirstOmitted,
}

module _ (fold : Text → Text) where
  -- What a valid response satisfies.
  pub record IsFaithful (sub_claim_texts : List Text) (parent_text : Text) : Type 0 where
    pub within_cap : length sub_claim_texts ≤ max_sub_claims
    pub no_repeat : NoRepeat (map (normalize_for_containment fold) sub_claim_texts)
    pub adds_nothing :
        All
          (λ text.
            Absorbs
              (sentence_tokens fold parent_text)
              max_added_function_words
              (sentence_tokens fold text))
          sub_claim_texts
    pub omits_nothing :
        All
          (Kept (concat_map (sentence_tokens fold) sub_claim_texts))
          (sentence_tokens fold parent_text)

  first_additive-Absorbs :
      (texts parent_tokens : List Text)
      → first_additive fold texts parent_tokens ≡ none
      → All
          (λ text. Absorbs parent_tokens max_added_function_words (sentence_tokens fold text))
          texts
  unfolding first_additive
  first_additive-Absorbs [] parent_tokens h = tt
  first_additive-Absorbs (text ∷ texts) parent_tokens h =
      elim (Option-cases (sub_claim_is_additive_free (sentence_tokens fold text) parent_tokens)) [
        | inl passed ↦ (
          sub_claim_is_additive_free-Absorbs (sentence_tokens fold text) parent_tokens passed,
          first_additive-Absorbs texts parent_tokens (ground arith),
        )
        | inr (failure, found) ↦
            let impossible : some failure ≡ none = rw (found, first_additive) at h in (cc)
      ]

  halves_verdict-none :
      (texts parent_tokens : List Text)
      → (halves_verdict fold texts parent_tokens).disposition ≡ none
      → (first_additive fold texts parent_tokens ≡ none)
        × (response_is_complete fold texts parent_tokens ≡ none)
  unfolding halves_verdict
  halves_verdict-none texts parent_tokens h = ground arith

  classify-halves :
      (texts : List Text) (parent_text : Text)
      → classify_decomposition fold texts parent_text ≡ none
      → (length texts ≤ max_sub_claims)
        × (length (distinct (map (normalize_for_containment fold) texts))
            ≡ length (map (normalize_for_containment fold) texts))
        × ((halves_verdict fold texts (sentence_tokens fold parent_text)).disposition ≡ none)
  unfolding classify_decomposition classify_decomposition_detail
  classify-halves texts parent_text h = ground arith

  -- A response that is classified as valid has at most eight sub claims and no normalized duplicate,
  -- its sub claims add nothing to the parent but two function words each, and together they keep
  -- every parent token that is not exempt.
  pub classify_decomposition-IsFaithful :
      (texts : List Text) (parent_text : Text)
      → classify_decomposition fold texts parent_text ≡ none
      → IsFaithful texts parent_text
  unfolding response_is_complete
  classify_decomposition-IsFaithful texts parent_text h =
      let (cap, unique, halves) = classify-halves texts parent_text h in
      let (additive, complete) =
        halves_verdict-none texts (sentence_tokens fold parent_text) halves in
      record {
        within_cap = cap;
        no_repeat = length-distinct→NoRepeat (map (normalize_for_containment fold) texts) unique;
        adds_nothing = first_additive-Absorbs texts (sentence_tokens fold parent_text) additive;
        omits_nothing =
            first_omitted-none (concat_map (sentence_tokens fold) texts)
              (sentence_tokens fold parent_text) complete;
      }

  first_additive_self :
      (text : Text) → first_additive fold (text ∷ []) (sentence_tokens fold text) ≡ none
  unfolding first_additive
  first_additive_self text =
      rw (sub_claim_is_additive_free_self (sentence_tokens fold text), first_additive)

  response_is_complete_self :
      (text : Text) → response_is_complete fold (text ∷ []) (sentence_tokens fold text) ≡ none
  unfolding response_is_complete
  response_is_complete_self text =
      let tokens = sentence_tokens fold text in
      rw (append-nil tokens) (All-Kept→first_omitted tokens tokens (All-Kept_self tokens))

  -- A response that repeats its parent sentence as its only sub claim is valid.
  pub classify_decomposition_self :
      (parent_text : Text) → classify_decomposition fold (parent_text ∷ []) parent_text ≡ none
  unfolding classify_decomposition classify_decomposition_detail halves_verdict distinct
  classify_decomposition_self parent_text =
      ground (arith, first_additive_self parent_text, response_is_complete_self parent_text)

  -- The first sub claim that fails, behind sub claims that add nothing, and where its walk stops.
  abbrev pub FailsAt : List Text → List Text → Category → Text → Type 0
  FailsAt texts parent_tokens category token =
      (before : List Text) × (text : Text) × (after : List Text) × (texts ≡ before ++ text ∷ after)
      × All (λ t. Absorbs parent_tokens max_added_function_words (sentence_tokens fold t)) before
      × StopsAt parent_tokens max_added_function_words (sentence_tokens fold text) category token

  abbrev pub HasNoDetail : DecompositionVerdict → Type 0
  HasNoDetail v = (v.additive_failure ≡ none) × (v.failure_token ≡ []) × (v.failure_side ≡ none)

  -- What each disposition says of the response, and the observational fields beside it.
  abbrev pub Explains : List Text → Text → Option Disposition → DecompositionVerdict → Type 0
  Explains texts parent_text (some over_cap) v = (max_sub_claims < length texts) × HasNoDetail v
  Explains texts parent_text (some duplicate) v =
      (¬ NoRepeat (map (normalize_for_containment fold) texts)) × HasNoDetail v
  Explains texts parent_text (some not_additive) v =
      (category : Category) × FailsAt texts (sentence_tokens fold parent_text) category
        v.failure_token
      × (v.additive_failure ≡ some category)
      × (v.failure_side ≡ some sub_claim_side)
  Explains texts parent_text (some incomplete) v =
      All
        (λ t.
          Absorbs (sentence_tokens fold parent_text) max_added_function_words
            (sentence_tokens fold t))
        texts
      × IsFirstOmitted (concat_map (sentence_tokens fold) texts) (sentence_tokens fold parent_text)
          v.failure_token
      × (v.additive_failure ≡ none)
      × (v.failure_side ≡ some parent_side)
  Explains texts parent_text none v = HasNoDetail v

  first_additive-FailsAt :
      (texts parent_tokens : List Text) (category : Category) (token : Text)
      → first_additive fold texts parent_tokens ≡ some (category, token)
      → FailsAt texts parent_tokens category token
  unfolding first_additive
  first_additive-FailsAt [] parent_tokens category token h = cc
  first_additive-FailsAt (text ∷ texts) parent_tokens category token h =
      let tokens = sentence_tokens fold text in
      elim (Option-cases (sub_claim_is_additive_free tokens parent_tokens)) [
        | inl passed ↦
            let (before, t, after, e, absorbed, stops) =
              first_additive-FailsAt texts parent_tokens category token (ground arith) in
            (
              text ∷ before,
              t,
              after,
              ap (λ l. text ∷ l) e,
              (sub_claim_is_additive_free-Absorbs tokens parent_tokens passed, absorbed),
              stops,
            )
        | inr (failure, found) ↦ (
          [],
          text,
          texts,
          refl,
          tt,
          sub_claim_is_additive_free-StopsAt tokens parent_tokens category token (ground arith),
        )
      ]

  halves_verdict-Explains :
      (texts : List Text) (parent_text : Text)
      → let v = halves_verdict fold texts (sentence_tokens fold parent_text) in
        Explains texts parent_text v.disposition v
  unfolding halves_verdict response_is_complete
  halves_verdict-Explains texts parent_text =
      elim (Option-cases (first_additive fold texts (sentence_tokens fold parent_text))) [
        | inr ((category, token), found) ↦
            let fails = first_additive-FailsAt texts _ category token found in
            rw (found, halves_verdict) (category, fails, refl, refl)
        | inl passed ↦
            elim (Option-cases (
              first_omitted (concat_map (sentence_tokens fold) texts)
                (sentence_tokens fold parent_text))) [
                  | inr (omitted, found) ↦
                      rw (passed, found, halves_verdict)
                        (
                          first_additive-Absorbs texts _ passed,
                          first_omitted-some _ _ omitted found,
                          refl,
                          refl,
                        )
                  | inl complete ↦ rw (passed, complete, halves_verdict) (refl, refl, refl)
                ]
      ]

  -- A verdict says what its disposition means: over the cap, there are more than eight sub claims;
  -- duplicate, two have the same normalized text; not additive free, behind sub claims that add
  -- nothing the walk over the tokens of one stops at the reported token, which matches none of the
  -- parent tokens left and is a content token or the function word past the budget, as reported; and
  -- incomplete, no sub claim adds anything and the token is the first parent token that they omit.
  -- Any other verdict has no detail.
  pub classify_decomposition_detail-Explains :
      (texts : List Text) (parent_text : Text)
      → let v = classify_decomposition_detail fold texts parent_text in
        Explains texts parent_text v.disposition v
  unfolding classify_decomposition_detail
  classify_decomposition_detail-Explains texts parent_text =
      let normalized = map (normalize_for_containment fold) texts in
      elim (Bool-cases (ltb max_sub_claims (length texts))) [
        | inl over ↦
            rw over (
              let more : max_sub_claims < length texts = ground arith in (more, (refl, refl, refl)))
        | inr within ↦
            elim (Bool-cases (nat_beq (length (distinct normalized)) (length normalized))) [
              | inr again ↦
                  rw (within, again)
                    (
                      λ unique.
                          let same = NoRepeat→length-distinct normalized unique in (ground arith),
                      (refl, refl, refl),
                    )
              | inl unique ↦ rw (within, unique) (halves_verdict-Explains texts parent_text)
            ]
      ]
