-- ===== src/Chunking/Overlap.antt =====
-- `_overlap_text` and `_apply_overlap` of src/decision_memory/application/chunking.py. `int(n * 0.15)`
-- of a float is the parameter `share`.
pub mod Largest
use Prim.Native.Nat.{max}
use decision_memory.Prelude.{
  leb, if◌then◌else◌, nat_eq, pair_eq, list_eq, ℕ, true, false, List, [], ◌∷◌, ◌++◌,
}
use decision_memory.Text.{Text, codes, is_empty, join}
use decision_memory.Chunking.Sentences.{split_sentences}

module _ (count_tokens : Text → ℕ) (share : ℕ → ℕ) where
  abbrev pub overlap_limit : Text → ℕ
  overlap_limit chunk_text = max 1 (share (count_tokens chunk_text))

  -- The tails of the sentences, the longest first.
  abbrev pub first_fit : ℕ → List Text → Text
  first_fit limit [] = []
  first_fit limit (sentence ∷ sentences) =
      elim (leb (count_tokens (join (codes " ") (sentence ∷ sentences))) limit) [
        | true ↦ join (codes " ") (sentence ∷ sentences)
        | false ↦ first_fit limit sentences
      ]

  unfoldable pub overlap_text : Text → Text
  overlap_text chunk_text = first_fit (overlap_limit chunk_text) (split_sentences chunk_text)

  abbrev pub with_overlap : Text → Text → Text
  with_overlap overlap chunk_text =
      if is_empty overlap then chunk_text else overlap ++ (10 ∷ 10 ∷ chunk_text)

  abbrev pub overlap_from : Text → List Text → List Text
  overlap_from previous [] = []
  overlap_from previous (chunk_text ∷ packed) =
      with_overlap (overlap_text previous) chunk_text ∷ overlap_from chunk_text packed

  unfoldable pub apply_overlap : List Text → List Text
  apply_overlap [] = []
  apply_overlap (chunk_text ∷ packed) = chunk_text ∷ overlap_from chunk_text packed
