-- ===== src/Verification/Matching.antt =====
-- The matcher of tokens, which both halves of the validity test use.
use decision_memory.Prelude.{
  ◌==◌, nat_eq, pair_eq, list_eq, ==_refl, ==_sym, ◌≡◌, true, false, arith,
}
use decision_memory.Text.{Text}
use decision_memory.Morphology.{stem_match}
use decision_memory.Morphology.Match.{base_sets_intersect_comm, stem_match→base_sets_intersect}
use decision_memory.Vocabulary.{is_function_word}
use decision_memory.Verification.{tokens_match}

pub tokens_match_refl : (a : Text) → tokens_match a a ≡ true
unfolding tokens_match
tokens_match_refl a = rw (==_refl a)

-- Whether two tokens match does not depend on their order.
tokens_match_comm : (a b : Text) → tokens_match a b ≡ tokens_match b a
unfolding tokens_match
tokens_match_comm a b = rw (==_sym a b, base_sets_intersect_comm a b) (ground arith)

-- A function word matches only itself.
pub tokens_match_function_word :
    (a b : Text) → is_function_word a ≡ true → tokens_match a b ≡ (a == b)
unfolding tokens_match
tokens_match_function_word a b h = ground arith

-- Content tokens that the directional matcher accepts match.
pub stem_match→tokens_match :
    (a b : Text)
    → is_function_word a ≡ false
    → is_function_word b ≡ false
    → stem_match a b ≡ true
    → tokens_match a b ≡ true
unfolding tokens_match
stem_match→tokens_match a b content_a content_b h =
    rw (content_a, content_b, stem_match→base_sets_intersect a b h) (ground arith)
