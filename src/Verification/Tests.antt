-- ===== src/Verification/Tests.antt =====
-- The verdicts on small responses, with the letters A to Z folded, and the theorems at them.
use decision_memory.Prelude.{
  leb, if◌then◌else◌, nat_eq, pair_eq, list_eq, distinct, In, ◌+◌, ◌≡◌, refl, ◌≢◌, ◌↔◌, true, ◌&&◌,
  none, some, List, [], ◌∷◌, map,
}
use decision_memory.Text.{Text, codes, split}
use decision_memory.Vocabulary.{is_function_word, is_exempt}
use decision_memory.Morphology.{base_sets_intersect}
use decision_memory.Morphology.Rules.{}
use decision_memory.Morphology.Match.{}
use decision_memory.Verification.{
  strip_tokens, tokens_match, claim, additive_from, sub_claim_is_additive_free, first_omitted,
  normalize_for_containment, deterministic_containment, sentence_tokens, response_is_complete,
  first_additive, halves_verdict, classify_decomposition_detail, classify_decomposition,
  content_token, not_additive, incomplete, sub_claim_side, parent_side,
}
use decision_memory.Verification.Containment.{Encloses, deterministic_containment-exact}
use decision_memory.Verification.Additive.{}
use decision_memory.Verification.Complete.{}
use decision_memory.Verification.Verdict.{
  classify_decomposition-IsFaithful, Explains, classify_decomposition_detail-Explains, IsFaithful,
}

abbrev ascii_fold : Text → Text
ascii_fold = map (λ c. if leb 65 c && leb c 90 then c + 32 else c)

abbrev parent : Text
parent = codes "The team chose SQLite, while it rejected Redis."

abbrev halves : List Text
halves = codes "The team chose SQLite." ∷ codes "The team rejected Redis." ∷ []

program : Unit {0}
unfolding classify_decomposition classify_decomposition_detail halves_verdict first_additive
    response_is_complete distinct first_omitted sub_claim_is_additive_free additive_from claim
    tokens_match sentence_tokens strip_tokens normalize_for_containment is_exempt is_function_word
    base_sets_intersect deterministic_containment split
program = tt

valid_split : classify_decomposition ascii_fold halves parent ≡ none
unfolding program
valid_split = refl

dropped_clause :
    classify_decomposition_detail ascii_fold (codes "The team chose SQLite." ∷ []) parent ≡ record {
      disposition = some incomplete;
      additive_failure = none;
      failure_token = codes "rejected";
      failure_side = some parent_side;
    }
unfolding program
dropped_clause = refl

invented_word :
    classify_decomposition_detail ascii_fold (codes "The team chose Postgres." ∷ []) parent
    ≡ record {
      disposition = some not_additive;
      additive_failure = some content_token;
      failure_token = codes "postgres";
      failure_side = some sub_claim_side;
    }
unfolding program
invented_word = refl

contained_in_second :
    deterministic_containment ascii_fold (codes "chose  SQLite") (codes "x" ∷ parent ∷ []) ≡ true
unfolding program
contained_in_second = refl

deterministic_containment-exact_example :
    (deterministic_containment ascii_fold (codes "chose  SQLite") (parent ∷ []) ≡ true) ↔ (
      (normalize_for_containment ascii_fold (codes "chose  SQLite") ≢ [])
      × ((chunk : Text) × In chunk (parent ∷ [])
          × Encloses ascii_fold chunk (codes "chose  SQLite")))
deterministic_containment-exact_example =
    deterministic_containment-exact ascii_fold (codes "chose  SQLite") (parent ∷ [])

classify_decomposition-IsFaithful_example : IsFaithful ascii_fold halves parent
classify_decomposition-IsFaithful_example =
    classify_decomposition-IsFaithful ascii_fold halves parent valid_split

abbrev additive : List Text
additive = codes "The team chose SQLite." ∷ codes "The team rejected Postgres." ∷ []

adds_content : classify_decomposition_detail ascii_fold additive parent ≡ record {
  disposition = some not_additive;
  additive_failure = some content_token;
  failure_token = codes "postgres";
  failure_side = some sub_claim_side;
}
unfolding program
adds_content = refl

classify_decomposition_detail-Explains_example :
    let v = classify_decomposition_detail ascii_fold additive parent in
    Explains ascii_fold additive parent v.disposition v
classify_decomposition_detail-Explains_example =
    classify_decomposition_detail-Explains ascii_fold additive parent
