-- ===== src/Ingest/Batches.antt =====
-- `_embed_in_batches` and `_batch_count` of src/decision_memory/application/ingest.py. The token
-- counter and the provider, which may fail, are parameters.
pub mod Bounds
use decision_memory.Prelude.{
  ltb, leb, if◌then◌else◌, ◌>>=◌, nat_eq, pair_eq, list_eq, length, ℕ, suc, ◌+◌, Bool, true, false,
  ◌&&◌, ◌||◌, Option, some, option_map, List, [], ◌∷◌, ◌++◌,
}
use decision_memory.Text.{Text}

abbrev pub batch_chunk_cap : ℕ
batch_chunk_cap = 64

abbrev pub batch_token_cap : ℕ
batch_token_cap = 50000

-- Whether an open batch of a size and tokens has no room for more tokens.
abbrev pub is_full : ℕ → ℕ → ℕ → Bool
is_full size tokens more =
    ltb 0 size && (leb batch_chunk_cap size || ltb batch_token_cap (tokens + more))

module _ (count_tokens : Text → ℕ) where
  module _ {Vector : Type 0} (embed : List Text → Option (List Vector)) where
    -- `vectors.extend(embed(batch))` before the rest.
    abbrev pub extend : List Text → Option (List Vector) → Option (List Vector)
    extend batch rest = embed batch >>= (λ vectors. option_map (λ more. vectors ++ more) rest)

    abbrev pub embed_from : List Text → ℕ → List Text → Option (List Vector)
    embed_from [] tokens [] = some []
    embed_from (item ∷ batch) tokens [] = extend (item ∷ batch) (some [])
    embed_from batch tokens (text ∷ inputs) =
        elim (is_full (length batch) tokens (count_tokens text)) [
          | true ↦ extend batch (embed_from (text ∷ []) (count_tokens text) inputs)
          | false ↦ embed_from (batch ++ text ∷ []) (tokens + count_tokens text) inputs
        ]

    unfoldable pub embed_in_batches : List Text → Option (List Vector)
    embed_in_batches = embed_from [] 0

  abbrev pub count_from : ℕ → ℕ → List Text → ℕ
  count_from size tokens [] = if ltb 0 size then 1 else 0
  count_from size tokens (text ∷ inputs) = elim (is_full size tokens (count_tokens text)) [
    | true ↦ suc (count_from 1 (count_tokens text) inputs)
    | false ↦ count_from (suc size) (tokens + count_tokens text) inputs
  ]

  unfoldable pub batch_count : List Text → ℕ
  batch_count = count_from 0 0
