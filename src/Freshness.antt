-- ===== src/Freshness.antt =====
-- The freshness decision of src/decision_memory/application/query.py: the stored index against the
-- records manifest. The store is the record of what its methods return; a manifest that cannot be
-- loaded is `none`. `semantic_manifest_digest`, a SHA-256, is the parameter `semantic_digest`.
pub mod Reasons
pub mod Exact
mod Tests
use decision_memory.Prelude.{
  if◌then◌else◌, ◌==◌, nat_eq, pair_eq, list_eq, contains, concat_map, keys, get, ℕ, Bool, false,
  not, ◌&&◌, ◌||◌, Option, none, some, List, [], ◌∷◌, ◌++◌, map,
}
use decision_memory.Text.{Text, codes, text_lt}
use decision_memory.Sorting.{}
use decision_memory.Sorting.Keys.{sort_on}
use decision_memory.Dto.{ActiveChunkDescriptor}

pub data FreshnessState : Type 0 where
  current drift unknown incompatible : FreshnessState

pub data StaleReason : Type 0 where
  record_added record_changed record_removed : StaleReason
  manifest_unavailable manifest_changed_during_query failed_ingest : StaleReason

-- The string of a reason, by which reasons are sorted and told apart.
abbrev pub reason_value : StaleReason → Text
reason_value record_added = codes "record_added"
reason_value record_changed = codes "record_changed"
reason_value record_removed = codes "record_removed"
reason_value manifest_unavailable = codes "manifest_unavailable"
reason_value manifest_changed_during_query = codes "manifest_changed_during_query"
reason_value failed_ingest = codes "failed_ingest"

pub record ManifestEntry : Type 0 where
  pub id : Text
  pub entry_digest : Text

-- `IndexReader`: what the read side of the store returns. A read of the chunks that raises is `none`.
pub record Store : Type 0 where
  pub pipeline_signature : Text
  pub generation_id : Option Text
  pub store_format : Option ℕ
  pub parity_problems : List Text
  pub active_chunks : Option (List ActiveChunkDescriptor)
  pub manifest_path : Option Text
  pub stored_semantic : Option Text
  pub ledger_entry_digests : List (Text × Option Text)
  pub has_failed_records : Bool

-- The reason that one entry of the manifest gives.
abbrev pub entry_reasons : List (Text × Option Text) → ManifestEntry → List StaleReason
entry_reasons ledger entry = elim (get ledger entry.id) [
  | none ↦ record_added ∷ []
  | some none ↦ record_changed ∷ []
  | some (some digest) ↦ if digest == entry.entry_digest then [] else record_changed ∷ []
]

-- The reason that one record of the ledger gives.
abbrev pub removed_reasons : List Text → Text → List StaleReason
removed_reasons manifest_ids record_id =
    if contains manifest_ids record_id then [] else record_removed ∷ []

unfoldable pub drift_reasons : Store → List ManifestEntry → List StaleReason
drift_reasons store entries =
    concat_map (entry_reasons store.ledger_entry_digests) entries
    ++ (concat_map (removed_reasons (map (λ entry. entry.id) entries))
          (keys store.ledger_entry_digests)
        ++ (if store.has_failed_records then failed_ingest ∷ [] else []))

-- `set(reasons)`
abbrev pub listed_reason : List StaleReason → StaleReason → Bool
listed_reason [] r = false
listed_reason (q ∷ qs) r = reason_value q == reason_value r || listed_reason qs r

abbrev pub distinct_reasons : List StaleReason → List StaleReason
distinct_reasons [] = []
distinct_reasons (r ∷ rs) =
    let rest = distinct_reasons rs in if listed_reason rs r then rest else r ∷ rest

-- `sorted(set(reasons), key=lambda reason: reason.value)`
unfoldable pub unique_reasons : List StaleReason → List StaleReason
unique_reasons reasons = sort_on reason_value text_lt (distinct_reasons reasons)

module _ (semantic_digest : List ManifestEntry → Text) where
  unfoldable pub manifest_freshness :
      Store
      → Option Text
      → Option Text
      → Option (List ManifestEntry)
      → FreshnessState × List StaleReason
  manifest_freshness store none stored_semantic manifest = (unknown, manifest_unavailable ∷ [])
  manifest_freshness store (some path) none manifest = (unknown, manifest_unavailable ∷ [])
  manifest_freshness store (some path) (some stored) none = (unknown, manifest_unavailable ∷ [])
  manifest_freshness store (some path) (some stored) (some entries) =
      if semantic_digest entries == stored && not store.has_failed_records
      then (current, [])
      else (drift, unique_reasons (drift_reasons store entries))
