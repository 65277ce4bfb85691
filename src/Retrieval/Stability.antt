-- ===== src/Retrieval/Stability.antt =====
-- The three ranking sorts go by the score and then by the content of the chunks, so that a rebuild
-- that hands out new chunk ids ranks the same content the same.
use mathlib.Core.List.{Permᴰ}
use decision_memory.Prelude.{
  Bool-cases, nat_eq, pair_eq, list_eq, Eq, All, ℕ, ◌≤◌, ◌≡◌, sym, subst, ◌⊎◌, inl, inr, Bool, true,
  false, List, [], ◌∷◌, map, arith,
}
use decision_memory.Text.{Text, text_lt}
use decision_memory.Sorting.{sort_by-IsSorted, sort_by-perm, IsStrictOrder, IsSorted}
use decision_memory.Sorting.Keys.{
  map-sort_on, text_lt-IsStrictOrder, flipped-IsStrictOrder, pair_lt-IsStrictOrder, sort_on-keys,
}
use decision_memory.Dto.{ActiveChunkDescriptor}
use decision_memory.Retrieval.Ranking.{
  stable_sort_key, key_lt, key_lt-IsStrictOrder, ascending_lt, descending_lt, FloatOps,
}
use decision_memory.Retrieval.Lexical.{rank_positive}
use decision_memory.Retrieval.Semantic.{rank_matches}
use decision_memory.Retrieval.Fusion.{rank_scored, Scored}

-- The order of the content of chunks: by record id, fingerprint, value path and ordinal, of which
-- the first that differs decides. The chunk id takes no part.
pub data Precedes (a b : ActiveChunkDescriptor) : Type 0 where
  by_record : text_lt a.record_id b.record_id ≡ true → Precedes a b
  by_fingerprint :
      a.record_id ≡ b.record_id → text_lt a.fingerprint b.fingerprint ≡ true → Precedes a b
  by_path :
      a.record_id ≡ b.record_id
      → a.fingerprint ≡ b.fingerprint
      → text_lt a.value_path b.value_path ≡ true
      → Precedes a b
  by_ordinal :
      a.record_id ≡ b.record_id
      → a.fingerprint ≡ b.fingerprint
      → a.value_path ≡ b.value_path
      → a.ordinal ≤ b.ordinal
      → Precedes a b

-- `R` holds of each member and every member behind it.
abbrev pub InOrder {ℓ} : {A : Type ℓ} → (A → A → Type 0) → List A → Type ℓ
InOrder R [] = Unit
InOrder R (x ∷ xs) = All (R x) xs × InOrder R xs

module _ {F : Type 0} (lt : F → F → Bool) where
  -- A smaller number stands first, and of equal numbers the content that precedes.
  pub data Nearer : ActiveChunkDescriptor × F → ActiveChunkDescriptor × F → Type 0 where
    smaller : {a b : ActiveChunkDescriptor} {s t : F} → lt s t ≡ true → Nearer (a, s) (b, t)
    level : {a b : ActiveChunkDescriptor} {s t : F} → s ≡ t → Precedes a b → Nearer (a, s) (b, t)

  -- A larger number stands first, and of equal numbers the content that precedes.
  pub data Outranks : ActiveChunkDescriptor × F → ActiveChunkDescriptor × F → Type 0 where
    larger : {a b : ActiveChunkDescriptor} {s t : F} → lt t s ≡ true → Outranks (a, s) (b, t)
    tied : {a b : ActiveChunkDescriptor} {s t : F} → s ≡ t → Precedes a b → Outranks (a, s) (b, t)

module _ {F : Type 0} where
  -- The score and the content of an entry, without the chunk id.
  abbrev pub content : ActiveChunkDescriptor × F → F × (Text × (Text × (Text × ℕ)))
  content (c, score) = (score, (c.record_id, (c.fingerprint, (c.value_path, c.ordinal))))

  abbrev pub scored_chunk : Scored F → ActiveChunkDescriptor × F
  scored_chunk s = (s.chunk, s.fused)

  abbrev pub fused_content : Scored F → F × (Text × (Text × (Text × ℕ)))
  fused_content s = content (scored_chunk s)

text_cases : (s t : Text) → text_lt t s ≡ false → (text_lt s t ≡ true) ⊎ (s ≡ t)
text_cases s t h = elim (Bool-cases (text_lt s t)) [
  | inl less ↦ inl less
  | inr not_less ↦ inr (text_lt-IsStrictOrder.lt_connex s t not_less h)
]

-- Where no key is smaller, the content precedes.
key_lt-Precedes :
    (a b : ActiveChunkDescriptor)
    → key_lt (stable_sort_key b) (stable_sort_key a) ≡ false
    → Precedes a b
key_lt-Precedes a b h = elim (text_cases a.record_id b.record_id (ground arith)) [
  | inl less ↦ by_record less
  | inr e ↦
      let same = (list_eq.beq_iff b.record_id a.record_id).1 (sym e) in
      elim (text_cases a.fingerprint b.fingerprint (ground arith)) [
        | inl less ↦ by_fingerprint e less
        | inr e' ↦
            let same' = (list_eq.beq_iff b.fingerprint a.fingerprint).1 (sym e') in
            elim (text_cases a.value_path b.value_path (ground arith)) [
              | inl less ↦ by_path e e' less
              | inr e'' ↦
                  let same'' = (list_eq.beq_iff b.value_path a.value_path).1 (sym e'') in
                  by_ordinal e e' e'' (ground arith)
            ]
      ]
]

-- A sorted list of keys is the list in the order that the keys decide.
module _ {ℓ κ} {A : Type ℓ} {K : Type κ} (key : A → K) (lt : K → K → Bool) (R : A → A → Type 0)
    (decides : (x y : A) → lt (key y) (key x) ≡ false → R x y) where
  All-decides : (x : A) (ys : List A) → All (λ k. lt k (key x) ≡ false) (map key ys) → All (R x) ys
  All-decides x [] h = tt
  All-decides x (y ∷ ys) (h, rest) = (decides x y h, All-decides x ys rest)

  IsSorted→InOrder : (xs : List A) → IsSorted lt (map key xs) → InOrder R xs
  IsSorted→InOrder [] h = tt
  IsSorted→InOrder (x ∷ xs) (low, rest) = (All-decides x xs low, IsSorted→InOrder xs rest)

module _ {F : Type 0} ⦃e : Eq F⦄ (ops : FloatOps F) (o : IsStrictOrder ops.lt) where
  descending : IsStrictOrder (descending_lt ops)
  descending = pair_lt-IsStrictOrder (flipped-IsStrictOrder o) key_lt-IsStrictOrder

  ascending : IsStrictOrder (ascending_lt ops)
  ascending = pair_lt-IsStrictOrder o key_lt-IsStrictOrder

  descending-Outranks :
      (x y : ActiveChunkDescriptor × F)
      → descending_lt ops (content y) (content x) ≡ false
      → Outranks ops.lt x y
  descending-Outranks (a, s) (b, t) h = elim (Bool-cases (ops.lt t s)) [
    | inl less ↦ larger less
    | inr not_less ↦
        let same : s ≡ t = o.lt_connex s t (ground arith) not_less in
        let equal = (e.beq_iff t s).1 (sym same) in tied same (key_lt-Precedes a b (ground arith))
  ]

  ascending-Nearer :
      (x y : ActiveChunkDescriptor × F)
      → ascending_lt ops (content y) (content x) ≡ false
      → Nearer ops.lt x y
  ascending-Nearer (a, s) (b, t) h = elim (Bool-cases (ops.lt s t)) [
    | inl less ↦ smaller less
    | inr not_less ↦
        let same : s ≡ t = o.lt_connex s t not_less (ground arith) in
        let equal = (e.beq_iff t s).1 (sym same) in level same (key_lt-Precedes a b (ground arith))
  ]

  -- Where `<` is a strict total order of the scores, the positive lexical scores come out each once,
  -- the larger first, and equal scores by record id, fingerprint, value path and ordinal; and two
  -- inputs with the same contents in any order come out with the same sequence of contents.
  pub rank_positive-content :
      (xs ys : List (ActiveChunkDescriptor × F))
      → Permᴰ (map content xs) (map content ys)
      → Permᴰ (rank_positive ops xs) xs
        × InOrder (Outranks ops.lt) (rank_positive ops xs)
        × (map content (rank_positive ops xs) ≡ map content (rank_positive ops ys))
  unfolding rank_positive
  rank_positive-content xs ys p = (
    sort_by-perm _ xs,
    IsSorted→InOrder content (descending_lt ops) (Outranks ops.lt) descending-Outranks
        (rank_positive ops xs)
        (subst (IsSorted (descending_lt ops)) (sym (map-sort_on content (descending_lt ops) xs))
          (sort_by-IsSorted descending (map content xs))),
    sort_on-keys content xs ys descending p,
  )

  -- Where `<` is a strict total order of the distances, the semantic matches come out each once, the
  -- nearer first, and equal distances by record id, fingerprint, value path and ordinal; and two
  -- inputs with the same contents in any order come out with the same sequence of contents.
  rank_matches-content :
      (xs ys : List (ActiveChunkDescriptor × F))
      → Permᴰ (map content xs) (map content ys)
      → Permᴰ (rank_matches ops xs) xs
        × InOrder (Nearer ops.lt) (rank_matches ops xs)
        × (map content (rank_matches ops xs) ≡ map content (rank_matches ops ys))
  unfolding rank_matches
  rank_matches-content xs ys p = (
    sort_by-perm _ xs,
    IsSorted→InOrder content (ascending_lt ops) (Nearer ops.lt) ascending-Nearer
        (rank_matches ops xs)
        (subst (IsSorted (ascending_lt ops)) (sym (map-sort_on content (ascending_lt ops) xs))
          (sort_by-IsSorted ascending (map content xs))),
    sort_on-keys content xs ys ascending p,
  )

  -- Where `<` is a strict total order of the scores, the fused chunks come out each once, the larger
  -- score first, and equal scores by record id, fingerprint, value path and ordinal; and two inputs
  -- with the same contents in any order come out with the same sequence of contents.
  pub rank_scored-content :
      (xs ys : List (Scored F))
      → Permᴰ (map fused_content xs) (map fused_content ys)
      → Permᴰ (rank_scored ops xs) xs
        × InOrder (λ s t. Outranks ops.lt (scored_chunk s) (scored_chunk t)) (rank_scored ops xs)
        × (map fused_content (rank_scored ops xs) ≡ map fused_content (rank_scored ops ys))
  unfolding rank_scored
  rank_scored-content xs ys p = (
    sort_by-perm _ xs,
    IsSorted→InOrder fused_content (descending_lt ops)
        (λ s t. Outranks ops.lt (scored_chunk s) (scored_chunk t))
        (λ s t. descending-Outranks (scored_chunk s) (scored_chunk t)) (rank_scored ops xs)
        (subst (IsSorted (descending_lt ops))
          (sym (map-sort_on fused_content (descending_lt ops) xs))
          (sort_by-IsSorted descending (map fused_content xs))),
    sort_on-keys fused_content xs ys descending p,
  )
