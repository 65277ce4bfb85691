-- ===== src/Chunking/Packing.antt =====
-- `_pack_paragraphs` and `_pack_oversize_paragraph` of
-- src/decision_memory/application/chunking.py. The two loops are the same but for the separator and
-- for what becomes of an item over the target.
pub mod Greedy
use decision_memory.Prelude.{
  ltb, leb, nat_eq, pair_eq, list_eq, ℕ, true, false, List, [], ◌∷◌, ◌++◌,
}
use decision_memory.Text.{Text, codes, join}
use decision_memory.Chunking.Sentences.{split_sentences}

-- `if current: chunks.append(separator.join(current))`
abbrev pub close_chunk : Text → List Text → List Text
close_chunk separator [] = []
close_chunk separator (item ∷ items) = join separator (item ∷ items) ∷ []

module _ (count_tokens : Text → ℕ) (target : ℕ) where
  module _ (separator : Text) (oversize : Text → List Text) where
    abbrev pub pack_from : List Text → List Text → List Text
    pack_from current [] = close_chunk separator current
    pack_from current (item ∷ items) = elim (ltb target (count_tokens item)) [
      | true ↦ close_chunk separator current ++ (oversize item ++ pack_from [] items)
      | false ↦ elim (leb (count_tokens (join separator (current ++ item ∷ []))) target) [
        | true ↦ pack_from (current ++ item ∷ []) items
        | false ↦ close_chunk separator current ++ pack_from (item ∷ []) items
      ]
    ]

  abbrev pub pack_sentences : List Text → List Text
  pack_sentences = pack_from (codes " ") (λ sentence. sentence ∷ []) []

  -- A paragraph without a sentence is a chunk.
  abbrev pub pack_oversize : Text → List Text → List Text
  pack_oversize paragraph [] = paragraph ∷ []
  pack_oversize paragraph (sentence ∷ sentences) = pack_sentences (sentence ∷ sentences)

  unfoldable pub pack_oversize_paragraph : Text → List Text
  pack_oversize_paragraph paragraph = pack_oversize paragraph (split_sentences paragraph)

  unfoldable pub pack_paragraphs : List Text → List Text
  pack_paragraphs = pack_from (10 ∷ 10 ∷ []) pack_oversize_paragraph []
