-- ===== src/Freshness/Tests.antt =====
-- A ledger of three records against a manifest that changed, added and removed one, and the theorem.
use decision_memory.Prelude.{
  nat_eq, pair_eq, list_eq, concat_map, In, ◌≡◌, refl, ◌↔◌, false, some, List, [], ◌∷◌,
}
use decision_memory.Text.{Text, codes}
use decision_memory.Sorting.{sort_by}
use decision_memory.Freshness.{
  drift_reasons, unique_reasons, manifest_freshness, FreshnessState, current, drift, StaleReason,
  record_added, record_changed, record_removed, ManifestEntry, Store,
}
use decision_memory.Freshness.Reasons.{Caused}
use decision_memory.Freshness.Exact.{manifest_freshness-exact}

abbrev drifted : Store
drifted = record {
  pipeline_signature = codes "sig";
  generation_id = some (codes "g");
  store_format = some 2;
  parity_problems = [];
  active_chunks = some [];
  manifest_path = some (codes "m");
  stored_semantic = some (codes "old");
  ledger_entry_digests = (codes "a", some (codes "1")) ∷ (codes "b", some (codes "2")) ∷ [];
  has_failed_records = false;
}

abbrev entry_of : Text → Text → ManifestEntry
entry_of id digest = record { id = id; entry_digest = digest }

abbrev entries : List ManifestEntry
entries = entry_of (codes "c") (codes "3") ∷ entry_of (codes "a") (codes "9") ∷ []

-- The digest of the entries: their digests in a row.
abbrev joined_digest : List ManifestEntry → Text
joined_digest = concat_map (λ entry. entry.entry_digest)

drift_of_three :
    manifest_freshness joined_digest drifted (some (codes "m")) (some (codes "old")) (some entries)
    ≡ (drift, record_added ∷ record_changed ∷ record_removed ∷ [])
unfolding manifest_freshness unique_reasons drift_reasons sort_by
drift_of_three = refl

abbrev seen_freshness : FreshnessState × List StaleReason
seen_freshness =
    manifest_freshness joined_digest drifted (some (codes "m")) (some (codes "old")) (some entries)

manifest_freshness-exact_example :
    ((seen_freshness.0 ≡ current)
      ↔ ((joined_digest entries ≡ codes "old") × (drifted.has_failed_records ≡ false)))
    × (seen_freshness.0 ≡ drift
        → (r : StaleReason) → In r seen_freshness.1 ↔ Caused drifted entries r)
manifest_freshness-exact_example =
    manifest_freshness-exact joined_digest drifted (codes "m") (codes "old") entries
