-- ===== src/Chunking/Overlap/Largest.antt =====
-- The overlap is the longest tail of sentences within the limit.
use Prim.Native.Nat.{max}
use decision_memory.Prelude.{
  leb, leb→le, Bool-cases, nat_eq, pair_eq, list_eq, length, ℕ, suc, ◌≤◌, ◌<◌, ◌≡◌, refl, ap, ◌≢◌,
  ◌⊎◌, inl, inr, List, [], ◌∷◌, ◌++◌, arith,
}
use decision_memory.Text.{Text, codes, join}
use decision_memory.Chunking.Sentences.{split_sentences}
use decision_memory.Chunking.Overlap.{first_fit, overlap_text}

module _ (count_tokens : Text → ℕ) where
  -- No tail of the sentences that begins before the given place fits.
  abbrev pub NoneBefore : ℕ → ℕ → List Text → Type 0
  NoneBefore limit place sentences =
      (before tail : List Text)
      → sentences ≡ before ++ tail
      → tail ≢ []
      → length before < place
      → limit < count_tokens (join (codes " ") tail)

  abbrev pub IsLargest : ℕ → List Text → Text → Type 0
  IsLargest limit sentences overlap =
      ((overlap ≡ []) × NoneBefore limit (length sentences) sentences)
      ⊎ ((before : List Text) × (tail : List Text) × (sentences ≡ before ++ tail)
          × (tail ≢ [])
          × (overlap ≡ join (codes " ") tail)
          × (count_tokens overlap ≤ limit)
          × NoneBefore limit (length before) sentences)

  NoneBefore-cons :
      (limit place : ℕ) (sentence : Text) (sentences : List Text)
      → limit < count_tokens (join (codes " ") (sentence ∷ sentences))
      → NoneBefore limit place sentences
      → NoneBefore limit (suc place) (sentence ∷ sentences)
  NoneBefore-cons limit place sentence sentences over rest [] tail same some_tail h =
      rw (← same) over
  NoneBefore-cons limit place sentence sentences over rest (x ∷ before) tail same some_tail h =
      rest before tail (cc) some_tail (omega arith)

  first_fit-IsLargest :
      (share : ℕ → ℕ) (limit : ℕ) (sentences : List Text)
      → IsLargest limit sentences (first_fit count_tokens share limit sentences)
  first_fit-IsLargest share limit [] =
      inl (refl, λ before tail same some_tail h. absurd (omega arith))
  first_fit-IsLargest share limit (sentence ∷ sentences) =
      elim (Bool-cases (leb (count_tokens (join (codes " ") (sentence ∷ sentences))) limit)) [
        | inl within ↦
            rw (first_fit, within)
              (inr (
                [],
                sentence ∷ sentences,
                refl,
                (λ e. cc),
                refl,
                leb→le _ _ within,
                λ before tail same some_tail h. absurd (omega arith),
              ))
        | inr over ↦
            let more : limit < count_tokens (join (codes " ") (sentence ∷ sentences)) =
              ground arith in
            rw (first_fit, over)
              (elim (first_fit-IsLargest share limit sentences) [
                | inl (e, none_fits) ↦
                    inl (e, NoneBefore-cons limit _ sentence sentences more none_fits)
                | inr (before, tail, same, some_tail, e, within, none_longer) ↦ inr (
                  sentence ∷ before,
                  tail,
                  ap (λ t. sentence ∷ t) same,
                  some_tail,
                  e,
                  within,
                  NoneBefore-cons limit _ sentence sentences more none_longer,
                )
              ])
      ]

  -- The overlap is the longest tail of the sentences that has at most the limit of tokens, joined
  -- by spaces, and empty when no tail has.
  pub overlap_text-IsLargest :
      (share : ℕ → ℕ) (chunk_text : Text)
      → IsLargest
          (max 1 (share (count_tokens chunk_text)))
          (split_sentences chunk_text)
          (overlap_text count_tokens share chunk_text)
  unfolding overlap_text
  overlap_text-IsLargest share chunk_text =
      first_fit-IsLargest share (max 1 (share (count_tokens chunk_text)))
        (split_sentences chunk_text)
