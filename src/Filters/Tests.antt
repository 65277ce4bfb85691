-- ===== src/Filters/Tests.antt =====
-- A snapshot of two chunks under filters, and the theorems at it.
use decision_memory.Prelude.{
  nat_eq, pair_eq, list_eq, distinct, ◌≡◌, refl, ◌↔◌, true, false, none, some, List, [], ◌∷◌, map,
}
use decision_memory.Text.{Text, codes, is_space}
use decision_memory.ValuePath.{is_valid_value_path}
use decision_memory.Sorting.{sort_by}
use decision_memory.Dto.{accepted, FilterExclusionReason, QueryFilters, ActiveChunkDescriptor}
use decision_memory.Filters.{
  is_index, matches_star, matches_value_path, exclusion_reasons, filter_row, filter_descriptors,
  clean_scalar, clean_value_path, sorted_set, clean_status, build_query_filters,
}
use decision_memory.Filters.Selectors.{Selects, matches_value_path-Selects}
use decision_memory.Filters.Rows.{filter_row-Passes, Passes}
use decision_memory.Filters.Build.{build_query_filters-AreNormalized, AreNormalized}

abbrev chunk : ActiveChunkDescriptor
chunk = record {
  chunk_id = codes "ch_1";
  record_id = codes "DM-0005";
  record_title = codes "Loading";
  record_status = none;
  record_tags = codes "cli" ∷ [];
  value_path = codes "decision.alternatives[10]";
  fingerprint = codes "f";
  ordinal = 0;
  text = codes "text";
  provenance = [];
}

abbrev no_filters : QueryFilters
no_filters = record { record_ids = []; statuses = []; tags = []; value_paths = [] }

abbrev by_status : QueryFilters
by_status = record no_filters { statuses = codes "accepted" ∷ [] }

program : Unit {0}
unfolding filter_descriptors filter_row exclusion_reasons matches_value_path matches_star is_index
    build_query_filters clean_scalar clean_value_path clean_status sorted_set is_valid_value_path
    is_space
program = tt

-- A record without a status fails every status constraint.
missing_status :
    map (λ r. r.exclusion_reasons) (filter_descriptors (chunk ∷ []) by_status)
    ≡ (FilterExclusionReason.status ∷ []) ∷ []
unfolding program
missing_status = refl

leading_zero :
    (matches_value_path (codes "why[*]") (codes "why[01]") ≡ false)
    × (matches_value_path (codes "why[*]") (codes "why[10]") ≡ true)
    × (matches_value_path (codes "why[*]") (codes "why[1].x") ≡ false)
unfolding program
leading_zero = (refl, refl, refl)

raw_tags : List Text
raw_tags = codes " b" ∷ codes "a" ∷ codes "b " ∷ []

built : QueryFilters
built = record no_filters { tags = codes "a" ∷ codes "b" ∷ [] }

builds : build_query_filters (λ t. t) [] [] raw_tags [] ≡ some built
unfolding program raw_tags built distinct sort_by
builds = refl

refuses : build_query_filters (λ t. t) [] (codes "open" ∷ []) [] [] ≡ none
unfolding program
refuses = refl

matches_value_path-Selects_example :
    (matches_value_path (codes "why[*]") (codes "why[10]") ≡ true)
    ↔ Selects (codes "why[*]") (codes "why[10]")
matches_value_path-Selects_example = matches_value_path-Selects (codes "why[*]") (codes "why[10]")

filter_row-Passes_example : ((filter_row by_status chunk).state ≡ accepted) ↔ Passes by_status chunk
filter_row-Passes_example = filter_row-Passes by_status chunk

build_query_filters-AreNormalized_example : AreNormalized (λ t. t) [] [] raw_tags [] built
build_query_filters-AreNormalized_example =
    build_query_filters-AreNormalized (λ t. t) [] [] raw_tags [] built builds
