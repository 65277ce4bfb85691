-- ===== src/Filters.antt =====
-- src/decision_memory/application/filters.py: normalization of raw filter values, the value path
-- selector, and the filtering of a snapshot of chunks. `str.lower` is the parameter `lower`, for its
-- Unicode table. A raised `FilterUsageError` is `none`; its message is not modelled.
pub mod Selectors
pub mod Rows
pub mod Build
mod Tests
use decision_memory.Prelude.{
  leb, if◌then◌else◌, ◌>>=◌, ◌==◌, nat_eq, pair_eq, list_eq, length, drop, any, all, contains,
  distinct, ℕ, ◌*◌, Bool, false, not, ◌&&◌, ◌||◌, Option, none, some, option_map, List, [], ◌∷◌,
  ◌++◌, map,
}
use decision_memory.Text.{
  Text, codes, is_empty, text_lt, drop_last, starts_with, ends_with, is_substring, strip,
}
use decision_memory.Sorting.{sort_by}
use decision_memory.ValuePath.{is_valid_value_path}
use decision_memory.Dto.{
  accepted, excluded, FilterExclusionReason, status, tag, QueryFilters, ActiveChunkDescriptor,
  FilterRow,
}

abbrev pub filter_statuses : List Text
filter_statuses = codes "proposed" ∷ codes "accepted" ∷ codes "superseded" ∷ codes "rejected" ∷ []

abbrev pub fixed_value_path_selectors : List Text
fixed_value_path_selectors =
    codes "decision.alternatives[*]"
    ∷ codes "why[*]"
    ∷ codes "consequences.positive[*]"
    ∷ codes "consequences.negative[*]"
    ∷ codes "body[*]"
    ∷ []

abbrev pub star : Text
star = codes "[*]"

abbrev pub is_digit : ℕ → Bool
is_digit c = leb b'0' c && leb c b'9'

-- `_INDEX_RE.fullmatch`: one digit, or digits of which the first is not zero.
unfoldable pub is_index : Text → Bool
is_index [] = false
is_index (c ∷ s) = is_digit c && is_empty s || leb b'1' c && leb c b'9' && all is_digit s

-- The branch for a selector that ends in `[*]`, from the text before that.
matches_star : Text → Text → Bool
matches_star prefix chunk_path =
    let remainder = drop (length prefix) chunk_path in
    let index_text = drop_last 1 (drop 1 remainder) in
    if not (starts_with chunk_path (prefix ++ codes "["))
    then false
    else if not (starts_with remainder (codes "[") && ends_with remainder (codes "]"))
    then false
    else if not (is_index index_text)
    then false
    else chunk_path == prefix ++ (codes "[" ++ (index_text ++ codes "]"))

pub matches_value_path : Text → Text → Bool
matches_value_path selector chunk_path =
    if ends_with selector star
    then matches_star (drop_last (length star) selector) chunk_path
    else chunk_path == selector

-- The four tests of the loop body of `filter_descriptors`: whether a constraint fails.
abbrev pub fails_record_id : QueryFilters → ActiveChunkDescriptor → Bool
fails_record_id f chunk = not (is_empty f.record_ids) && not (contains f.record_ids chunk.record_id)

abbrev pub status_listed : List Text → Option Text → Bool
status_listed statuses none = false
status_listed statuses (some s) = contains statuses s

abbrev pub fails_status : QueryFilters → ActiveChunkDescriptor → Bool
fails_status f chunk =
    not (is_empty f.statuses) && not (status_listed f.statuses chunk.record_status)

abbrev pub fails_tag : QueryFilters → ActiveChunkDescriptor → Bool
fails_tag f chunk = not (is_empty f.tags) && not (any (contains f.tags) chunk.record_tags)

abbrev pub fails_value_path : QueryFilters → ActiveChunkDescriptor → Bool
fails_value_path f chunk =
    not (is_empty f.value_paths)
    && not (any (λ selector. matches_value_path selector chunk.value_path) f.value_paths)

abbrev reason_if : Bool → FilterExclusionReason → List FilterExclusionReason
reason_if failed reason = if failed then reason ∷ [] else []

pub exclusion_reasons : QueryFilters → ActiveChunkDescriptor → List FilterExclusionReason
exclusion_reasons f chunk =
    reason_if (fails_record_id f chunk) FilterExclusionReason.record_id
    ++ (reason_if (fails_status f chunk) FilterExclusionReason.status
        ++ (reason_if (fails_tag f chunk) FilterExclusionReason.tag
            ++ reason_if (fails_value_path f chunk) FilterExclusionReason.value_path))

unfoldable pub filter_row : QueryFilters → ActiveChunkDescriptor → FilterRow
filter_row f chunk =
    let reasons = exclusion_reasons f chunk in
    record {
      chunk_id = chunk.chunk_id;
      record_id = chunk.record_id;
      record_status = chunk.record_status;
      record_tags = chunk.record_tags;
      value_path = chunk.value_path;
      state = if is_empty reasons then accepted else excluded;
      exclusion_reasons = reasons;
    }

unfoldable pub filter_descriptors : List ActiveChunkDescriptor → QueryFilters → List FilterRow
filter_descriptors descriptors f = map (filter_row f) descriptors

-- `for value in values: …; cleaned.append(…)`, where a value that is refused ends the loop.
abbrev pub clean_each : (Text → Option Text) → List Text → Option (List Text)
clean_each clean [] = some []
clean_each clean (value ∷ values) = elim (clean value) [
  | none ↦ none
  | some v ↦ option_map (λ rest. v ∷ rest) (clean_each clean values)
]

pub clean_scalar : Text → Option Text
clean_scalar value = let stripped = strip value in if is_empty stripped then none else some stripped

pub clean_value_path : Text → Option Text
clean_value_path value =
    let stripped = strip value in
    if is_empty stripped
    then none
    else if is_substring star stripped
    then if contains fixed_value_path_selectors stripped then some stripped else none
    else if is_valid_value_path stripped
    then some stripped
    else none

-- `tuple(sorted(set(values)))`
unfoldable pub sorted_set : List Text → List Text
unfolding sort_by
sorted_set values = sort_by text_lt (distinct values)

module _ (lower : Text → Text) where
  pub clean_status : Text → Option Text
  clean_status value =
      let stripped = strip value in
      let normalized = lower stripped in
      if is_empty stripped
      then none
      else if contains filter_statuses normalized
      then some normalized
      else none

  pub build_query_filters : List Text → List Text → List Text → List Text → Option QueryFilters
  build_query_filters record_ids statuses tags value_paths = do
    cleaned_ids ← clean_each clean_scalar record_ids
    cleaned_tags ← clean_each clean_scalar tags
    cleaned_statuses ← clean_each clean_status statuses
    cleaned_paths ← clean_each clean_value_path value_paths
    some (record {
      record_ids = sorted_set cleaned_ids;
      statuses = sorted_set cleaned_statuses;
      tags = sorted_set cleaned_tags;
      value_paths = sorted_set cleaned_paths;
    })
