-- ===== src/Retrieval/Tests.antt =====
-- The ranking stages at two chunks, with scores in millionths.
use mathlib.Core.List.{Permᴰ}
use decision_memory.Prelude.{
  ltb, leb, nat_eq, pair_eq, list_eq, length, distinct, In, here, there, is_some, count_up, keys,
  get, ℕ, ◌+◌, ◌-◌, ◌/◌, ◌≡◌, refl, subst, Bool, true, false, ◌&&◌, Option, none, some, option_map,
  List, [], ◌∷◌, ◌++◌, map,
}
use decision_memory.Text.{Text, codes}
use decision_memory.Sorting.{sort_by}
use decision_memory.Sorting.Keys.{ltb-IsStrictOrder}
use decision_memory.Dto.{ActiveChunkDescriptor, LexicalRow, FusedCandidate}
use decision_memory.Tokenizer.{is_stopword, scan, tokenize}
use decision_memory.Retrieval.Ranking.{sort_rows, FloatOps}
use decision_memory.Retrieval.Lexical.{rank_positive, classify_scores, lexical_stage}
use decision_memory.Retrieval.Semantic.{rank_matches, semantic_stage}
use decision_memory.Retrieval.Fusion.{rank_scored, fusion_stage, Scored}
use decision_memory.Retrieval.Fusion.Union.{fusion_stage-union}
use decision_memory.Retrieval.Stability.{
  InOrder, Outranks, scored_chunk, content, fused_content, rank_positive-content,
  rank_scored-content,
}

abbrev millionths : FloatOps ℕ
millionths = record {
  zero_float = 0;
  one_float = 1000000;
  two_float = 2000000;
  lowest_distance = 0;
  highest_distance = 2000001;
  is_nan = λ x. false;
  is_finite = λ x. true;
  lt = ltb;
  add = λ x y. x + y;
  minus = λ x y. x - y;
  reciprocal = λ n. 1000000 / n;
}

abbrev chunk_of : Text → Text → ActiveChunkDescriptor
chunk_of chunk_id record_id = record {
  chunk_id = chunk_id;
  record_id = record_id;
  record_title = codes "Title";
  record_status = none;
  record_tags = [];
  value_path = codes "context";
  fingerprint = codes "f";
  ordinal = 0;
  text = codes "text";
  provenance = [];
}

abbrev first_chunk : ActiveChunkDescriptor
first_chunk = chunk_of (codes "a") (codes "DM-0002")

abbrev second_chunk : ActiveChunkDescriptor
second_chunk = chunk_of (codes "b") (codes "DM-0001")

abbrev both : List (Text × ActiveChunkDescriptor)
both = (codes "a", first_chunk) ∷ (codes "b", second_chunk) ∷ []

abbrev lexical_ranks : List (Text × ℕ)
lexical_ranks = (codes "b", 1) ∷ []

abbrev semantic_ranks : List (Text × ℕ)
semantic_ranks = (codes "a", 1) ∷ (codes "b", 2) ∷ []

-- The chunk with two contributions comes first.
fused_first :
    option_map
      (λ cs. map (λ c. c.chunk_id) cs)
      (fusion_stage millionths lexical_ranks semantic_ranks both)
    ≡ some (codes "b" ∷ codes "a" ∷ [])
unfolding fusion_stage rank_scored sort_by distinct
fused_first = refl

-- Equal scores fall back on the record, not on the chunk id.
tie_by_record :
    map (λ p. p.0.chunk_id) (rank_positive millionths ((first_chunk, 5) ∷ (second_chunk, 5) ∷ []))
    ≡ codes "b" ∷ codes "a" ∷ []
unfolding rank_positive sort_by
tie_by_record = refl

abbrev no_fold : Text → Text
no_fold text = text

abbrev ascii_letter : ℕ → Bool
ascii_letter c = leb 97 c && leb c 122

-- The question shares a token with both texts, and the second score is not positive.
abbrev lexical_result : Option (List (LexicalRow ℕ) × List (Text × ℕ))
lexical_result =
    lexical_stage no_fold ascii_letter (λ c. false) millionths (codes "text") both
      (λ q d. 3 ∷ 0 ∷ [])

lexical_rows :
    (option_map (λ p. map (λ r. r.rank) p.0) lexical_result ≡ some (none ∷ some 1 ∷ []))
    × (option_map (λ p. p.1) lexical_result ≡ some ((codes "a", 1) ∷ []))
unfolding lexical_stage classify_scores rank_positive sort_rows sort_by tokenize scan is_stopword
lexical_rows = (refl, refl)

semantic_rows :
    option_map
      (λ p. p.1)
      (semantic_stage millionths both (codes "a" ∷ codes "b" ∷ []) (700 ∷ 300 ∷ []))
    ≡ some ((codes "b", 1) ∷ (codes "a", 2) ∷ [])
unfolding semantic_stage rank_matches sort_rows sort_by
semantic_rows = refl

-- A distance outside of the range, or an id too many, is refused.
semantic_refusals :
    (semantic_stage millionths both (codes "a" ∷ codes "b" ∷ []) (2000002 ∷ 300 ∷ []) ≡ none)
    × (semantic_stage millionths both (codes "a" ∷ codes "c" ∷ []) (700 ∷ 300 ∷ []) ≡ none)
    × (semantic_stage millionths both (codes "a" ∷ codes "b" ∷ []) (700 ∷ []) ≡ none)
unfolding semantic_stage rank_matches sort_rows sort_by
semantic_refusals = (refl, refl, refl)

all_accepted :
    (id : Text) → In id (keys lexical_ranks ++ keys semantic_ranks) → is_some (get both id) ≡ true
all_accepted id (here e) = subst (λ t. is_some (get both t) ≡ true) e refl
all_accepted id (there (here e)) = subst (λ t. is_some (get both t) ≡ true) e refl
all_accepted id (there (there (here e))) = subst (λ t. is_some (get both t) ≡ true) e refl
all_accepted id (there (there (there m))) = elim m [ ]

fusion_stage-union_example :
    (candidates : List (FusedCandidate ℕ)) × (fusion_stage millionths lexical_ranks semantic_ranks
        both
      ≡ some candidates)
    × Permᴰ
        (map (λ c. c.chunk_id) candidates)
        (distinct (keys lexical_ranks ++ keys semantic_ranks))
    × (map (λ c. c.fused_rank) candidates ≡ count_up 1 (length candidates))
fusion_stage-union_example =
    fusion_stage-union millionths lexical_ranks semantic_ranks both all_accepted

abbrev tied : List (ActiveChunkDescriptor × ℕ)
tied = (first_chunk, 5) ∷ (second_chunk, 5) ∷ []

-- The same contents in the other order, under other chunk ids.
abbrev rebuilt : List (ActiveChunkDescriptor × ℕ)
rebuilt =
    (chunk_of (codes "x") (codes "DM-0001"), 5) ∷ (chunk_of (codes "y") (codes "DM-0002"), 5) ∷ []

rank_positive-content_example :
    Permᴰ (rank_positive millionths tied) tied
    × InOrder (Outranks ltb) (rank_positive millionths tied)
    × (map content (rank_positive millionths tied) ≡ map content (rank_positive millionths rebuilt))
rank_positive-content_example =
    rank_positive-content millionths ltb-IsStrictOrder tied rebuilt (Permᴰ.swap refl refl)

abbrev scored_of : ActiveChunkDescriptor → Scored ℕ
scored_of chunk = record {
  chunk = chunk;
  chunk_id = chunk.chunk_id;
  fused = 16393;
  lexical_rank = none;
  semantic_rank = some 1;
}

abbrev tied_scores : List (Scored ℕ)
tied_scores = map (λ p. scored_of p.0) tied

abbrev rebuilt_scores : List (Scored ℕ)
rebuilt_scores = map (λ p. scored_of p.0) rebuilt

rank_scored-content_example :
    Permᴰ (rank_scored millionths tied_scores) tied_scores
    × InOrder
        (λ s t. Outranks ltb (scored_chunk s) (scored_chunk t))
        (rank_scored millionths tied_scores)
    × (map fused_content (rank_scored millionths tied_scores)
        ≡ map fused_content (rank_scored millionths rebuilt_scores))
rank_scored-content_example =
    rank_scored-content millionths ltb-IsStrictOrder tied_scores rebuilt_scores
      (Permᴰ.swap refl refl)
