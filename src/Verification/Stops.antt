-- ===== src/Verification/Stops.antt =====
-- The additive half: where the walk over the tokens of a sub claim that fails stops.
use decision_memory.Prelude.{
  Option-cases, nat_eq, pair_eq, list_eq, ℕ, suc, ◌+◌, ◌-◌, ◌≤◌, ◌<◌, ◌≡◌, sym, ◌∙◌, subst, ◌⊎◌,
  inl, inr, true, false, none, some, List, [], ◌∷◌, ◌++◌, arith,
}
use decision_memory.Text.{Text}
use decision_memory.Vocabulary.{is_function_word}
use decision_memory.Verification.{
  max_added_function_words, tokens_match, Pool, fresh_pool, claim, additive_from,
  sub_claim_is_additive_free, Category, content_token, function_word_overrun,
}
use decision_memory.Verification.Additive.{
  Unmatched, available, available-fresh_pool, claim-Taken, claim-Unmatched, additive_from-claimed,
}

-- Where the walk over the tokens stops, with the parent tokens `available` and room for `budget`
-- function words: each token before that takes the first parent token it matches, or is a function
-- word that matches none; the token itself matches none of the parent tokens that are left, and is
-- no function word or one past the budget.
pub data StopsAt : List Text → ℕ → List Text → Category → Text → Type 0 where
  takes :
      {budget : ℕ} {token : Text} {tokens available : List Text} {category : Category} {stop : Text}
      (parent : Text) (before after : List Text)
      → tokens_match token parent ≡ true
      → Unmatched token before
      → available ≡ before ++ parent ∷ after
      → StopsAt (before ++ after) budget tokens category stop
      → StopsAt available budget (token ∷ tokens) category stop
  adds :
      {budget : ℕ} {token : Text} {tokens available : List Text} {category : Category} {stop : Text}
      → Unmatched token available
      → is_function_word token ≡ true
      → StopsAt available budget tokens category stop
      → StopsAt available (suc budget) (token ∷ tokens) category stop
  new_content :
      {budget : ℕ} {token : Text} {tokens available : List Text}
      → Unmatched token available
      → is_function_word token ≡ false
      → StopsAt available budget (token ∷ tokens) content_token token
  overrun :
      {token : Text} {tokens available : List Text}
      → Unmatched token available
      → is_function_word token ≡ true
      → StopsAt available 0 (token ∷ tokens) function_word_overrun token

-- A round of the loop on a token that matches nothing.
additive_from-stuck :
    (t : Text) (tokens : List Text) (pool : Pool) (spent : ℕ) (category : Category) (stop : Text)
    → claim t pool ≡ none
    → additive_from pool spent (t ∷ tokens) ≡ some (category, stop)
    → ((is_function_word t ≡ false) × (content_token ≡ category) × (t ≡ stop))
      ⊎ (((is_function_word t ≡ true)
            × (max_added_function_words < spent + 1)
            × (function_word_overrun ≡ category)
            × (t ≡ stop))
          ⊎ ((is_function_word t ≡ true)
              × (spent + 1 ≤ max_added_function_words)
              × (additive_from pool (spent + 1) tokens ≡ some (category, stop))))
unfolding additive_from
additive_from-stuck t tokens pool spent category stop stuck h = ground arith

-- The loop that ends with a failure stops at the token that it names.
additive_from-StopsAt :
    (tokens : List Text) (pool : Pool) (budget spent : ℕ) (category : Category) (stop : Text)
    → budget + spent ≡ max_added_function_words
    → additive_from pool spent tokens ≡ some (category, stop)
    → StopsAt (available pool) budget tokens category stop
unfolding additive_from
additive_from-StopsAt [] pool budget spent category stop e h = cc
additive_from-StopsAt (t ∷ tokens) pool budget spent category stop e h =
    elim (Option-cases (claim t pool)) [
      | inl stuck ↦
          let unmatched = claim-Unmatched t pool stuck in
          elim (additive_from-stuck t tokens pool spent category stop stuck h) [
            | inl (content, same, at) ↦
                subst (λ c. StopsAt (available pool) budget (t ∷ tokens) c stop) same
                  (subst (StopsAt (available pool) budget (t ∷ tokens) content_token) at
                    (new_content unmatched content))
            | inr (inl (word, past, same, at)) ↦
                let spent_all : 0 ≡ budget = omega arith in
                subst (λ n. StopsAt (available pool) n (t ∷ tokens) category stop) spent_all
                  (subst (λ c. StopsAt (available pool) 0 (t ∷ tokens) c stop) same
                    (subst (StopsAt (available pool) 0 (t ∷ tokens) function_word_overrun) at
                      (overrun unmatched word)))
            | inr (inr (word, room, later)) ↦
                subst (λ n. StopsAt (available pool) n (t ∷ tokens) category stop) (omega arith)
                  (adds unmatched word (
                    additive_from-StopsAt tokens pool (budget - 1) (spent + 1) category stop
                      (omega arith) later))
          ]
      | inr (pool', found) ↦
          let (parent, before, after, same, unmatched, e₁, e₂) = claim-Taken t pool pool' found in
          takes parent before after same unmatched e₁ (
            subst (λ l. StopsAt l budget tokens category stop) e₂
              (additive_from-StopsAt tokens pool' budget spent category stop e
                (sym (additive_from-claimed t tokens pool pool' spent found) ∙ h)))
    ]

-- A failure is where the walk over the tokens of the sub claim stops.
pub sub_claim_is_additive_free-StopsAt :
    (sub_tokens parent_tokens : List Text) (category : Category) (stop : Text)
    → sub_claim_is_additive_free sub_tokens parent_tokens ≡ some (category, stop)
    → StopsAt parent_tokens max_added_function_words sub_tokens category stop
unfolding sub_claim_is_additive_free
sub_claim_is_additive_free-StopsAt sub_tokens parent_tokens category stop h =
    subst (λ l. StopsAt l max_added_function_words sub_tokens category stop)
      (available-fresh_pool parent_tokens)
      (additive_from-StopsAt sub_tokens (fresh_pool parent_tokens) max_added_function_words 0
        category stop (omega arith) h)
