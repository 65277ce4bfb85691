-- ===== src/Chunking/Packing/Greedy.antt =====
-- Packing divides the items, in order, into runs that fit the target and cannot be longer.
use decision_memory.Prelude.{
  ltb, leb, ltb→lt, leb→le, Bool-cases, nat_eq, pair_eq, list_eq, ℕ, ◌≤◌, ◌<◌, ◌≡◌, refl, ◌⊎◌, inl,
  inr, false, List, [], ◌∷◌, ◌++◌, append_assoc, arith,
}
use decision_memory.Text.{Text, codes, join}
use decision_memory.Chunking.Sentences.{split_sentences}
use decision_memory.Chunking.Packing.{
  close_chunk, pack_from, pack_oversize, pack_oversize_paragraph, pack_paragraphs,
}

module _ (count_tokens : Text → ℕ) (target : ℕ) (separator : Text)
    (oversize : Text → List Text) where
  -- Why a run ends: nothing is left, the next item is over the target, or it does not fit.
  abbrev pub Ends : List Text → List Text → Type 0
  Ends items [] = Unit
  Ends items (next ∷ rest) =
      (target < count_tokens next) ⊎ (target < count_tokens (join separator (items ++ next ∷ [])))

  pub data Packs : List Text → List Text → Type 0 where
    nothing : Packs [] []
    fits :
        (item : Text) (items rest : List Text) {chunks : List Text}
        → count_tokens (join separator (item ∷ items)) ≤ target
        → Ends (item ∷ items) rest
        → Packs rest chunks
        → Packs (item ∷ (items ++ rest)) (join separator (item ∷ items) ∷ chunks)
    large :
        (item : Text) {rest chunks : List Text}
        → target < count_tokens item
        → Packs rest chunks
        → Packs (item ∷ rest) (oversize item ++ chunks)

  -- What is open fits the target.
  abbrev Fits : List Text → Type 0
  Fits [] = Unit
  Fits (item ∷ items) = count_tokens (join separator (item ∷ items)) ≤ target

  Fits-snoc :
      (current : List Text) (item : Text)
      → count_tokens (join separator (current ++ item ∷ [])) ≤ target
      → Fits (current ++ item ∷ [])
  Fits-snoc [] item h = h
  Fits-snoc (x ∷ current) item h = h

  -- An item over the target closes what is open, and so does one that does not fit.
  Packs-large :
      (current : List Text) (item : Text) {rest chunks : List Text}
      → Fits current
      → target < count_tokens item
      → Packs rest chunks
      → Packs (current ++ item ∷ rest) (close_chunk separator current ++ (oversize item ++ chunks))
  Packs-large [] item h over packed = large item over packed
  Packs-large (x ∷ current) item {rest} h over packed =
      fits x current (item ∷ rest) h (inl over) (large item over packed)

  Packs-full :
      (current : List Text) (item : Text) {rest chunks : List Text}
      → Fits current
      → ltb target (count_tokens item) ≡ false
      → leb (count_tokens (join separator (current ++ item ∷ []))) target ≡ false
      → Packs (item ∷ rest) chunks
      → Packs (current ++ item ∷ rest) (close_chunk separator current ++ chunks)
  Packs-full [] item h under full packed = absurd (ground arith)
  Packs-full (x ∷ current) item {rest} h under full packed =
      fits x current (item ∷ rest) h (inr (ground arith)) packed

  pack_from-Packs :
      (current items : List Text)
      → Fits current
      → Packs (current ++ items) (pack_from count_tokens target separator oversize current items)
  pack_from-Packs [] [] h = nothing
  pack_from-Packs (x ∷ current) [] h = fits x current [] h tt nothing
  pack_from-Packs current (item ∷ items) h = elim (Bool-cases (ltb target (count_tokens item))) [
    | inl over ↦
        rw (pack_from, over)
          (Packs-large current item h (ltb→lt target (count_tokens item) over)
            (pack_from-Packs [] items tt))
    | inr under ↦
        elim (Bool-cases (leb (count_tokens (join separator (current ++ item ∷ []))) target)) [
          | inl longer ↦
              rw (pack_from, under, longer)
                (rw (← append_assoc current (item ∷ []) items) (
                  pack_from-Packs (current ++ item ∷ []) items
                    (Fits-snoc current item (leb→le _ _ longer))))
          | inr full ↦
              rw (pack_from, under, full)
                (Packs-full current item h under full
                  (pack_from-Packs (item ∷ []) items (ground arith)))
        ]
  ]

-- Every paragraph is packed, and every sentence of a paragraph over the target.
module _ (count_tokens : Text → ℕ) (target : ℕ) where
  -- Packing divides the paragraphs in order: each chunk is a run of paragraphs joined by two line
  -- feeds that fits the target and to which the next paragraph could not be added, or it belongs
  -- to one paragraph over the target.
  pub pack_paragraphs-Packs :
      (parts : List Text)
      → Packs count_tokens target
          (10 ∷ 10 ∷ [])
          (pack_oversize_paragraph count_tokens target)
          parts
          (pack_paragraphs count_tokens target parts)
  unfolding pack_paragraphs
  pack_paragraphs-Packs parts = pack_from-Packs count_tokens target _ _ [] parts tt

  pub pack_oversize_paragraph-Packs :
      (paragraph : Text)
      → ((split_sentences paragraph ≡ [])
          × (pack_oversize_paragraph count_tokens target paragraph ≡ paragraph ∷ []))
        ⊎ Packs count_tokens target
            (codes " ")
            (λ sentence. sentence ∷ [])
            (split_sentences paragraph)
            (pack_oversize_paragraph count_tokens target paragraph)
  unfolding pack_oversize_paragraph
  pack_oversize_paragraph-Packs paragraph = by_sentences (split_sentences paragraph)
    where
      by_sentences :
          (sentences : List Text)
          → ((sentences ≡ [])
              × (pack_oversize count_tokens target paragraph sentences ≡ paragraph ∷ []))
            ⊎ Packs count_tokens target
                (codes " ")
                (λ sentence. sentence ∷ [])
                sentences
                (pack_oversize count_tokens target paragraph sentences)
      by_sentences [] = inl (refl, refl)
      by_sentences (x ∷ xs) = inr (pack_from-Packs count_tokens target _ _ [] (x ∷ xs) tt)
