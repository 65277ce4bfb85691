-- ===== src/Verification.antt =====
-- src/decision_memory/application/verification.py: deterministic containment of a sentence in its
-- evidence, and the validity test of a decomposition into sub claims. The Unicode tables behind
-- `unicodedata.normalize("NFKC", ·)` and `str.casefold` are the parameter `fold`, their composition.
pub mod Containment
pub mod Matching
pub mod Additive
pub mod Stops
pub mod Complete
pub mod Verdict
mod Tests
use decision_memory.Prelude.{
  ltb, nat_beq, if◌then◌else◌, ◌==◌, nat_eq, pair_eq, list_eq, length, any, keep, contains,
  distinct, concat_map, ℕ, ◌+◌, Bool, true, false, not, ◌&&◌, ◌||◌, Option, none, some, option_map,
  List, [], ◌∷◌, ◌++◌, map,
}
use decision_memory.Text.{Text, codes, is_empty, is_substring, is_space, strip_by, split, join}
use decision_memory.Morphology.{base_sets_intersect}
use decision_memory.Vocabulary.{is_function_word, is_exempt}

abbrev pub max_sub_claims : ℕ
max_sub_claims = 8

abbrev pub max_added_function_words : ℕ
max_added_function_words = 2

-- `_TOKEN_STRIP`
abbrev token_strip : Text
token_strip = codes ".,;:!?" ++ (0x22 ∷ codes "'()[]{}<>")

-- `text.replace("\r\n", "\n")`
abbrev pub replace_crlf : Text → Text
replace_crlf [] = []
replace_crlf (c ∷ []) = c ∷ []
replace_crlf (c ∷ d ∷ s) =
    let both = 10 ∷ replace_crlf s in
    let one = c ∷ replace_crlf (d ∷ s) in if nat_beq c 13 && nat_beq d 10 then both else one

-- `text.replace("\r", "\n")`
abbrev pub replace_cr : Text → Text
replace_cr = map (λ c. if nat_beq c 13 then 10 else c)

-- What `sentence_tokens` does with the words of a normalized text.
strip_tokens : List Text → List Text
unfolding is_space
strip_tokens words = keep (λ t. not (is_empty t)) (map (strip_by (contains token_strip)) words)

pub tokens_match : Text → Text → Bool
tokens_match a b =
    if a == b
    then true
    else if is_function_word a || is_function_word b
    then false
    else base_sets_intersect a b

pub data Category : Type 0 where
  content_token function_word_overrun : Category

-- The parent tokens, each with its entry of `used`.
abbrev pub Pool : Type 0
Pool = List (Text × Bool)

abbrev pub fresh_pool : List Text → Pool
fresh_pool = map (λ t. (t, false))

-- The inner loop: the first unused parent token that matches becomes used.
pub claim : Text → Pool → Option Pool
claim token [] = none
claim token ((parent, used) ∷ pool) =
    if not used && tokens_match token parent
    then some ((parent, true) ∷ pool)
    else option_map (λ rest. (parent, used) ∷ rest) (claim token pool)

-- The outer loop, from the pool and the number of function words added so far.
pub additive_from : Pool → ℕ → List Text → Option (Category × Text)
additive_from pool added [] = none
additive_from pool added (token ∷ tokens) = elim (claim token pool) [
  | some pool' ↦ additive_from pool' added tokens
  | none ↦
      let rest = additive_from pool (added + 1) tokens in
      if not (is_function_word token)
      then some (content_token, token)
      else if ltb max_added_function_words (added + 1)
      then some (function_word_overrun, token)
      else rest
]

unfoldable pub sub_claim_is_additive_free : List Text → List Text → Option (Category × Text)
sub_claim_is_additive_free sub_tokens parent_tokens =
    additive_from (fresh_pool parent_tokens) 0 sub_tokens

-- The walk over the parent tokens, from the tokens of all sub claims.
pub first_omitted : List Text → List Text → Option Text
first_omitted response_tokens [] = none
first_omitted response_tokens (parent ∷ parents) =
    let rest = first_omitted response_tokens parents in
    if is_exempt parent
    then rest
    else if not (any (tokens_match parent) response_tokens)
    then some parent
    else rest

pub data Disposition : Type 0 where
  over_cap duplicate not_additive incomplete : Disposition

pub data Side : Type 0 where
  sub_claim_side parent_side : Side

-- `DecompositionVerdict`. The empty string of a closed vocabulary is `none`.
pub record DecompositionVerdict : Type 0 where
  pub disposition : Option Disposition
  pub additive_failure : Option Category
  pub failure_token : Text
  pub failure_side : Option Side

abbrev pub plain_verdict : Option Disposition → DecompositionVerdict
plain_verdict d = record {
  disposition = d;
  additive_failure = none;
  failure_token = [];
  failure_side = none;
}

-- `disposition in RETRYABLE_DISPOSITIONS`
abbrev pub is_retryable : Disposition → Bool
is_retryable not_additive = true
is_retryable incomplete = true
is_retryable _ = false

module _ (fold : Text → Text) where
  unfoldable pub normalize_for_containment : Text → Text
  normalize_for_containment text = join (codes " ") (split (replace_cr (replace_crlf (fold text))))

  unfoldable pub deterministic_containment : Text → List Text → Bool
  deterministic_containment sentence chunk_texts =
      let target = normalize_for_containment sentence in
      if is_empty target
      then false
      else any (λ chunk. is_substring target (normalize_for_containment chunk)) chunk_texts

  pub sentence_tokens : Text → List Text
  sentence_tokens text = strip_tokens (split (normalize_for_containment text))

  pub response_is_complete : List Text → List Text → Option Text
  response_is_complete sub_claim_texts parent_tokens =
      first_omitted (concat_map sentence_tokens sub_claim_texts) parent_tokens

  -- The loop over the sub claims, which stops at the first that adds content.
  pub first_additive : List Text → List Text → Option (Category × Text)
  first_additive [] parent_tokens = none
  first_additive (text ∷ texts) parent_tokens =
      elim (sub_claim_is_additive_free (sentence_tokens text) parent_tokens) [
        | some failure ↦ some failure
        | none ↦ first_additive texts parent_tokens
      ]

  -- The verdict of the two halves, once the checks of the whole response have passed.
  pub halves_verdict : List Text → List Text → DecompositionVerdict
  halves_verdict sub_claim_texts parent_tokens =
      elim (first_additive sub_claim_texts parent_tokens) [
        | some (category, token) ↦ record {
          disposition = some not_additive;
          additive_failure = some category;
          failure_token = token;
          failure_side = some sub_claim_side;
        }
        | none ↦ elim (response_is_complete sub_claim_texts parent_tokens) [
          | some omitted ↦ record {
            disposition = some incomplete;
            additive_failure = none;
            failure_token = omitted;
            failure_side = some parent_side;
          }
          | none ↦ plain_verdict none
        ]
      ]

  pub classify_decomposition_detail : List Text → Text → DecompositionVerdict
  classify_decomposition_detail sub_claim_texts parent_text =
      let normalized = map normalize_for_containment sub_claim_texts in
      if ltb max_sub_claims (length sub_claim_texts)
      then plain_verdict (some over_cap)
      else if not (nat_beq (length (distinct normalized)) (length normalized))
      then plain_verdict (some duplicate)
      else halves_verdict sub_claim_texts (sentence_tokens parent_text)

  unfoldable pub classify_decomposition : List Text → Text → Option Disposition
  classify_decomposition sub_claim_texts parent_text =
      (classify_decomposition_detail sub_claim_texts parent_text).disposition
