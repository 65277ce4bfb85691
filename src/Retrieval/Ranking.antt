-- ===== src/Retrieval/Ranking.antt =====
-- What the ranking stages of src/decision_memory/application/query.py share: the sort key that
-- outlives a build, and the operations on floats.
-- A `float` is a value of a type `F` up to `==`, and its operations are a record, since the
-- arithmetic of the platform is not the program's: `lt` is `<`, `reciprocal n` is `1.0 / n`,
-- and `lowest_distance`, `highest_distance` are `-DISTANCE_EPSILON` and `2.0 + DISTANCE_EPSILON`.
-- `is_nan` is the failure of `x == x`.
use decision_memory.Prelude.{
  ltb, ◌>>=◌, nat_eq, pair_eq, list_eq, Eq, map_option, get, ℕ, Bool, Option, some, option_map,
  List, map,
}
use decision_memory.Text.{Text, text_lt}
use decision_memory.Sorting.{IsStrictOrder}
use decision_memory.Sorting.Keys.{
  sort_on, ltb-IsStrictOrder, flipped, text_lt-IsStrictOrder, pair_lt, pair_lt-IsStrictOrder,
}
use decision_memory.Dto.{ActiveChunkDescriptor}

pub record FloatOps (F : Type 0) : Type 0 where
  pub zero_float : F
  pub one_float : F
  pub two_float : F
  pub lowest_distance : F
  pub highest_distance : F
  pub is_nan : F → Bool
  pub is_finite : F → Bool
  pub lt : F → F → Bool
  pub add : F → F → F
  pub minus : F → F → F
  pub reciprocal : ℕ → F

abbrev pub candidate_limit : ℕ
candidate_limit = 24

abbrev pub rrf_constant : ℕ
rrf_constant = 60

abbrev pub SortKey : Type 0
SortKey = Text × (Text × (Text × ℕ))

abbrev pub stable_sort_key : ActiveChunkDescriptor → SortKey
stable_sort_key chunk = (chunk.record_id, (chunk.fingerprint, (chunk.value_path, chunk.ordinal)))

-- `<` on these tuples.
abbrev pub key_lt : SortKey → SortKey → Bool
key_lt = pair_lt text_lt (pair_lt text_lt (pair_lt text_lt ltb))

pub key_lt-IsStrictOrder : IsStrictOrder key_lt
key_lt-IsStrictOrder = pair_lt-IsStrictOrder text_lt-IsStrictOrder (
    pair_lt-IsStrictOrder text_lt-IsStrictOrder
      (pair_lt-IsStrictOrder text_lt-IsStrictOrder ltb-IsStrictOrder))

-- Trace rows in the order of the key of their chunk; a row without a chunk raises.
module _ {Row : Type 0} (row_id : Row → Text)
    (accepted_by_id : List (Text × ActiveChunkDescriptor)) where
  abbrev pub keyed : Row → Option (SortKey × Row)
  keyed row = option_map (λ chunk. (stable_sort_key chunk, row)) (get accepted_by_id (row_id row))

  unfoldable pub sort_rows : List Row → Option (List Row)
  sort_rows rows = do
    keyed_rows ← map_option keyed rows
    some (map (λ p. p.1) (sort_on (λ p. p.0) key_lt keyed_rows))

module _ {F : Type 0} ⦃e : Eq F⦄ (ops : FloatOps F) where
  -- `(score, *stable_sort_key(chunk))`, smallest score first.
  abbrev pub ascending_lt : F × SortKey → F × SortKey → Bool
  ascending_lt = pair_lt ops.lt key_lt

  -- `(-score, *stable_sort_key(chunk))`, largest score first.
  abbrev pub descending_lt : F × SortKey → F × SortKey → Bool
  descending_lt = pair_lt (flipped ops.lt) key_lt
