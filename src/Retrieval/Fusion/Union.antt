-- ===== src/Retrieval/Fusion/Union.antt =====
-- Which candidates the fusion returns, in which order and with which ranks.
use mathlib.Core.List.{Permᴰ}
use mathlib.Core.List.Permᴰ
use decision_memory.Sorting.Perms.{Permᴰ-In}
use decision_memory.Prelude.{
  Option-cases, some_inj, nat_eq, pair_eq, list_eq, Eq, length, All-of_In, distinct, In-distinct,
  is_some, map_option-total, enumerate, count_up, In, keys, get, ℕ, suc, ◌+◌, ◌≡◌, refl, sym, ap,
  ◌∙◌, subst, inl, inr, true, none, some, List, [], ◌∷◌, ◌++◌, map, arith,
}
use decision_memory.Text.{Text, text_lt}
use decision_memory.Sorting.{sort_by-perm}
use decision_memory.Sorting.Keys.{}
use decision_memory.Dto.{ActiveChunkDescriptor, FusedCandidate}
use decision_memory.Retrieval.Ranking.{stable_sort_key, descending_lt, FloatOps}
use decision_memory.Retrieval.Fusion.{
  union_ids, score_id, rank_scored, fused_candidate, fusion_stage, Scored,
}

module _ {F : Type 0} ⦃e : Eq F⦄ (ops : FloatOps F) where
  fused_ranks :
      (start : ℕ) (scored : List (Scored F))
      → map (λ c. c.fused_rank) (map (fused_candidate ops) (enumerate start scored))
        ≡ count_up start (length scored)
  fused_ranks start [] = refl
  fused_ranks start (s ∷ scored) = ap (λ t. start ∷ t) (fused_ranks (start + 1) scored)

  candidates_length :
      (start : ℕ) (scored : List (Scored F))
      → length (map (fused_candidate ops) (enumerate start scored)) ≡ length scored
  candidates_length start [] = refl
  candidates_length start (s ∷ scored) = ap suc (candidates_length (start + 1) scored)

  enumerate_ids :
      (start : ℕ) (scored : List (Scored F))
      → map (λ c. c.chunk_id) (map (fused_candidate ops) (enumerate start scored))
        ≡ map (λ s. s.chunk_id) scored
  enumerate_ids start [] = refl
  enumerate_ids start (s ∷ scored) = ap (λ t. s.chunk_id ∷ t) (enumerate_ids (start + 1) scored)

  score_id-chunk_id :
      (L S : List (Text × ℕ)) (A : List (Text × ActiveChunkDescriptor)) (id : Text) (s : Scored F)
      → score_id ops L S A id ≡ some s
      → s.chunk_id ≡ id
  score_id-chunk_id L S A id s h = elim (Option-cases (get A id)) [
    | inl missing ↦ let impossible : none ≡ some s = rw missing at h in (cc)
    | inr (chunk, found) ↦ ap (λ t. t.chunk_id) (sym (some_inj (rw found at h)))
  ]

  score_id-total :
      (L S : List (Text × ℕ)) (A : List (Text × ActiveChunkDescriptor)) (id : Text)
      → is_some (get A id) ≡ true
      → is_some (score_id ops L S A id) ≡ true
  score_id-total L S A id h = ground arith

  -- When every ranked id is an accepted chunk, the fusion returns each id of the two rankings once,
  -- with the ranks from one on.
  pub fusion_stage-union :
      (ranked_lexical ranked_semantic : List (Text × ℕ))
      (accepted_by_id : List (Text × ActiveChunkDescriptor))
      → ((id : Text)
          → In id (keys ranked_lexical ++ keys ranked_semantic)
          → is_some (get accepted_by_id id) ≡ true)
      → (candidates : List (FusedCandidate F)) × (fusion_stage ops ranked_lexical ranked_semantic
            accepted_by_id
          ≡ some candidates)
        × Permᴰ
            (map (λ c. c.chunk_id) candidates)
            (distinct (keys ranked_lexical ++ keys ranked_semantic))
        × (map (λ c. c.fused_rank) candidates ≡ count_up 1 (length candidates))
  unfolding fusion_stage rank_scored
  fusion_stage-union L S A h =
      let union = keys L ++ keys S in
      let present : (id : Text) → In id (union_ids L S) → is_some (score_id ops L S A id) ≡ true =
        λ id m.
          score_id-total L S A id (
            h id ((In-distinct union id).0 (Permᴰ-In (sort_by-perm text_lt (distinct union)) m))) in
      let (scored, e, back) =
        map_option-total (score_id ops L S A) (λ s. s.chunk_id) (score_id-chunk_id L S A)
          (union_ids L S) (All-of_In (union_ids L S) present) in
      let ranked = rank_scored ops scored in
      let ids : Permᴰ (map (λ s. s.chunk_id) ranked) (distinct union) =
        Permᴰ.trans
          (Permᴰ.map (λ s. s.chunk_id)
            (sort_by-perm
              (λ s t.
                descending_lt ops (s.fused, stable_sort_key s.chunk)
                  (t.fused, stable_sort_key t.chunk))
              scored))
          (subst (λ t. Permᴰ t (distinct union)) (sym back)
            (sort_by-perm text_lt (distinct union))) in
      (
        map (fused_candidate ops) (enumerate 1 ranked),
        rw e refl,
        subst (λ t. Permᴰ t (distinct union)) (sym (enumerate_ids 1 ranked)) ids,
        fused_ranks 1 ranked ∙ ap (count_up 1) (sym (candidates_length 1 ranked)),
      )
