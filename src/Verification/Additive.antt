-- ===== src/Verification/Additive.antt =====
-- The additive half: what a sub claim that passes is made of.
use decision_memory.Prelude.{
  Bool-cases, Option-cases, some_inj, nat_eq, pair_eq, list_eq, All, ℕ, suc, ◌+◌, ◌-◌, ◌≤◌, ◌≡◌,
  refl, sym, ap, ◌∙◌, subst, inl, inr, true, false, none, some, List, [], ◌∷◌, ◌++◌, map, arith,
}
use decision_memory.Text.{Text}
use decision_memory.Vocabulary.{is_function_word}
use decision_memory.Verification.{
  max_added_function_words, tokens_match, Pool, fresh_pool, claim, additive_from,
  sub_claim_is_additive_free,
}
use decision_memory.Verification.Matching.{tokens_match_refl}

-- The tokens can be absorbed by the parent tokens `available`, each of which serves once, with at
-- most `budget` function words added. The relation leaves open which match is taken.
pub data Absorbs : List Text → ℕ → List Text → Type 0 where
  done : {available : List Text} {budget : ℕ} → Absorbs available budget []
  matched :
      {budget : ℕ} {token : Text} {tokens available : List Text} (parent : Text)
      (before after : List Text)
      → tokens_match token parent ≡ true
      → available ≡ before ++ parent ∷ after
      → Absorbs (before ++ after) budget tokens
      → Absorbs available budget (token ∷ tokens)
  added :
      {available : List Text} {budget : ℕ} {token : Text} {tokens : List Text}
      → is_function_word token ≡ true
      → Absorbs available budget tokens
      → Absorbs available (suc budget) (token ∷ tokens)

-- The token matches none of the parent tokens.
abbrev pub Unmatched : Text → List Text → Type 0
Unmatched token parents = All (λ parent. tokens_match token parent ≡ false) parents

-- The parent tokens that are not used yet.
pub available : Pool → List Text
available [] = []
available ((t, true) ∷ pool) = available pool
available ((t, false) ∷ pool) = t ∷ available pool

pub available-fresh_pool : (parents : List Text) → available (fresh_pool parents) ≡ parents
unfolding available
available-fresh_pool [] = refl
available-fresh_pool (t ∷ parents) = ap (λ l. t ∷ l) (available-fresh_pool parents)

-- What a successful pass of the inner loop took from the pool.
abbrev pub Taken : Text → Pool → Pool → Type 0
Taken token pool pool' =
    (parent : Text) × (before : List Text) × (after : List Text) × (tokens_match token parent
      ≡ true)
    × Unmatched token before
    × (available pool ≡ before ++ parent ∷ after)
    × (available pool' ≡ before ++ after)

Taken-used :
    (token t : Text) (pool pool' : Pool)
    → Taken token pool pool'
    → Taken token ((t, true) ∷ pool) ((t, true) ∷ pool')
unfolding available
Taken-used token t pool pool' taken = taken

Taken-unused :
    (token t : Text) (pool pool' : Pool)
    → tokens_match token t ≡ false
    → Taken token pool pool'
    → Taken token ((t, false) ∷ pool) ((t, false) ∷ pool')
unfolding available
Taken-unused token t pool pool' other (parent, before, after, same, unmatched, e, f) =
    (parent, t ∷ before, after, same, (other, unmatched), ap (λ l. t ∷ l) e, ap (λ l. t ∷ l) f)

pub claim-Taken :
    (token : Text) (pool pool' : Pool) → claim token pool ≡ some pool' → Taken token pool pool'
unfolding claim available
claim-Taken token [] pool' h = cc
claim-Taken token ((t, true) ∷ pool) pool' h = elim (Option-cases (claim token pool)) [
  | inl stuck ↦ let impossible : none ≡ some pool' = rw stuck at h in (cc)
  | inr (rest, found) ↦
      let e : (t, true) ∷ rest ≡ pool' = some_inj (rw found at h) in
      subst (Taken token ((t, true) ∷ pool)) e
        (Taken-used token t pool rest (claim-Taken token pool rest found))
]
claim-Taken token ((t, false) ∷ pool) pool' h = elim (Bool-cases (tokens_match token t)) [
  | inl same ↦
      let e : (t, true) ∷ pool ≡ pool' = some_inj (rw same at h) in
      (t, [], available pool, same, tt, refl, ap available (sym e))
  | inr other ↦ elim (Option-cases (claim token pool)) [
    | inl stuck ↦ let impossible : none ≡ some pool' = rw (other, stuck) at h in (cc)
    | inr (rest, found) ↦
        let e : (t, false) ∷ rest ≡ pool' = some_inj (rw (other, found) at h) in
        subst (Taken token ((t, false) ∷ pool)) e
          (Taken-unused token t pool rest other (claim-Taken token pool rest found))
  ]
]

pub claim-Unmatched :
    (token : Text) (pool : Pool) → claim token pool ≡ none → Unmatched token (available pool)
unfolding claim available
claim-Unmatched token [] h = tt
claim-Unmatched token ((t, true) ∷ pool) h = elim (Option-cases (claim token pool)) [
  | inl stuck ↦ claim-Unmatched token pool stuck
  | inr (rest, found) ↦ let impossible : some ((t, true) ∷ rest) ≡ none = rw found at h in (cc)
]
claim-Unmatched token ((t, false) ∷ pool) h = elim (Bool-cases (tokens_match token t)) [
  | inl same ↦ let impossible : some ((t, true) ∷ pool) ≡ none = rw same at h in (cc)
  | inr other ↦ elim (Option-cases (claim token pool)) [
    | inl stuck ↦ (other, claim-Unmatched token pool stuck)
    | inr (rest, found) ↦
        let impossible : some ((t, false) ∷ rest) ≡ none = rw (other, found) at h in (cc)
  ]
]

-- A round of the loop that goes on.
pub additive_from-claimed :
    (token : Text) (tokens : List Text) (pool pool' : Pool) (spent : ℕ)
    → claim token pool ≡ some pool'
    → additive_from pool spent (token ∷ tokens) ≡ additive_from pool' spent tokens
unfolding additive_from
additive_from-claimed token tokens pool pool' spent found = rw (found, additive_from)

additive_from-added :
    (token : Text) (tokens : List Text) (pool : Pool) (spent : ℕ)
    → claim token pool ≡ none
    → additive_from pool spent (token ∷ tokens) ≡ none
    → (is_function_word token ≡ true)
      × (spent + 1 ≤ max_added_function_words)
      × (additive_from pool (spent + 1) tokens ≡ none)
unfolding additive_from
additive_from-added token tokens pool spent stuck h = ground arith

-- The loop that ends without a failure has absorbed its tokens.
additive_from-Absorbs :
    (tokens : List Text) (pool : Pool) (budget spent : ℕ)
    → budget + spent ≡ max_added_function_words
    → additive_from pool spent tokens ≡ none
    → Absorbs (available pool) budget tokens
additive_from-Absorbs [] pool budget spent e h = done
additive_from-Absorbs (token ∷ tokens) pool budget spent e h =
    elim (Option-cases (claim token pool)) [
      | inl stuck ↦
          let (word, room, goes_on) = additive_from-added token tokens pool spent stuck h in
          let one_more : Absorbs (available pool) (suc (budget - 1)) (token ∷ tokens) =
            added word
              (additive_from-Absorbs tokens pool (budget - 1) (spent + 1) (omega arith) goes_on) in
          subst (λ n. Absorbs (available pool) n (token ∷ tokens)) (omega arith) one_more
      | inr (pool', found) ↦
          let (parent, before, after, same, unmatched, e₁, e₂) =
            claim-Taken token pool pool' found in
          matched parent before after same e₁ (
            subst (λ l. Absorbs l budget tokens) e₂
              (additive_from-Absorbs tokens pool' budget spent e
                (sym (additive_from-claimed token tokens pool pool' spent found) ∙ h)))
    ]

-- A sub claim that the greedy check passes can be absorbed: each of its tokens takes a parent token
-- of its own that it matches, but for at most two function words.
pub sub_claim_is_additive_free-Absorbs :
    (sub_tokens parent_tokens : List Text)
    → sub_claim_is_additive_free sub_tokens parent_tokens ≡ none
    → Absorbs parent_tokens max_added_function_words sub_tokens
unfolding sub_claim_is_additive_free
sub_claim_is_additive_free-Absorbs sub_tokens parent_tokens h =
    subst (λ l. Absorbs l max_added_function_words sub_tokens) (available-fresh_pool parent_tokens)
      (additive_from-Absorbs sub_tokens (fresh_pool parent_tokens) max_added_function_words 0
        (omega arith) h)

-- The parent tokens against themselves: each token finds the entry of its own, since all entries
-- before it are used.
used_pool : List Text → Pool
used_pool = map (λ t. (t, true))

claim-own :
    (seen : List Text) (token : Text) (rest : List Text)
    → claim token (used_pool seen ++ fresh_pool (token ∷ rest))
      ≡ some (used_pool (seen ++ token ∷ []) ++ fresh_pool rest)
unfolding claim used_pool
claim-own [] token rest = rw (tokens_match_refl token)
claim-own (t ∷ seen) token rest = rw (claim-own seen token rest)

additive_from-own :
    (seen tokens : List Text) (spent : ℕ)
    → additive_from (used_pool seen ++ fresh_pool tokens) spent tokens ≡ none
unfolding additive_from
additive_from-own seen [] spent = refl
additive_from-own seen (token ∷ tokens) spent =
    additive_from-claimed token tokens _ _ spent (claim-own seen token tokens)
    ∙ additive_from-own (seen ++ token ∷ []) tokens spent

pub sub_claim_is_additive_free_self :
    (tokens : List Text) → sub_claim_is_additive_free tokens tokens ≡ none
unfolding sub_claim_is_additive_free used_pool
sub_claim_is_additive_free_self tokens = additive_from-own [] tokens 0
