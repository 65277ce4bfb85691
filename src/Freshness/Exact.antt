-- ===== src/Freshness/Exact.antt =====
-- The freshness decision: current exactly on equal digests, and otherwise the exact set of reasons.
use decision_memory.Prelude.{
  Bool-cases, &&-true, ◌==◌, nat_eq, pair_eq, list_eq, In-append_left, In-append_right, concat_map,
  In→concat_map, In, here, keys, get, ◌≡◌, refl, ap, ◌≢◌, ◌↔◌, inl, inr, Bool, true, false, not,
  ◌&&◌, Option, none, some, List, map, arith,
}
use decision_memory.Text.{Text}
use decision_memory.Freshness.{
  entry_reasons, removed_reasons, drift_reasons, manifest_freshness, current, drift, StaleReason,
  record_added, record_changed, record_removed, manifest_unavailable, manifest_changed_during_query,
  failed_ingest, ManifestEntry, Store,
}
use decision_memory.Freshness.Reasons.{Caused, In-unique_reasons, drift_reasons→Caused}

module _ (store : Store) (entries : List ManifestEntry) where
  changed_reason :
      (entry : ManifestEntry) (stored : Option Text)
      → get store.ledger_entry_digests entry.id ≡ some stored
      → stored ≢ some entry.entry_digest
      → In record_changed (entry_reasons store.ledger_entry_digests entry)
  changed_reason entry none found differs = rw (entry_reasons, found) (here refl)
  changed_reason entry (some digest) found differs =
      elim (Bool-cases (digest == entry.entry_digest)) [
        | inl same ↦ absurd (differs (ap some ((list_eq.beq_iff digest entry.entry_digest).0 same)))
        | inr other ↦ rw (entry_reasons, found, other) (here refl)
      ]

  abbrev of_entries : List StaleReason
  of_entries = concat_map (entry_reasons store.ledger_entry_digests) entries

  abbrev of_ledger : List StaleReason
  of_ledger =
      concat_map (removed_reasons (map (λ entry. entry.id) entries))
        (keys store.ledger_entry_digests)

  Caused→drift_reasons :
      (r : StaleReason) → Caused store entries r → In r (drift_reasons store entries)
  unfolding drift_reasons
  Caused→drift_reasons record_added (entry, n, absent) = In-append_left _ (
      In→concat_map (entry_reasons store.ledger_entry_digests) entries n
        (rw (entry_reasons, absent) (here refl)))
  Caused→drift_reasons record_changed (entry, stored, n, found, differs) = In-append_left _ (
      In→concat_map (entry_reasons store.ledger_entry_digests) entries n
        (changed_reason entry stored found differs))
  Caused→drift_reasons record_removed (id, n, gone) = In-append_right of_entries (
      In-append_left _ (
        In→concat_map (removed_reasons (map (λ entry. entry.id) entries))
          (keys store.ledger_entry_digests) n (rw (removed_reasons, gone) (here refl))))
  Caused→drift_reasons failed_ingest failed =
      In-append_right of_entries (In-append_right of_ledger (rw failed (here refl)))
  Caused→drift_reasons manifest_unavailable h = elim h [ ]
  Caused→drift_reasons manifest_changed_during_query h = elim h [ ]

clash : {a b : Bool} → a ≡ true → b ≡ false → (a && not b) ≡ false → ⊥
clash {a} {b} h k l = ground arith

module _ (semantic_digest : List ManifestEntry → Text) where
  -- With a manifest that loads and the path and digest of a build, the index is current exactly when
  -- the digests agree and no record failed; where it drifts, its reasons are exactly those that hold.
  pub manifest_freshness-exact :
      (store : Store) (path stored : Text) (entries : List ManifestEntry)
      → let (state, reasons) =
          manifest_freshness semantic_digest store (some path) (some stored) (some entries) in
        ((state ≡ current)
          ↔ ((semantic_digest entries ≡ stored) × (store.has_failed_records ≡ false)))
        × (state ≡ drift → (r : StaleReason) → In r reasons ↔ Caused store entries r)
  unfolding manifest_freshness
  manifest_freshness-exact store path stored entries =
      elim (Bool-cases (semantic_digest entries == stored && not store.has_failed_records)) [
        | inl fresh ↦
            let (same, healthy) =
              &&-true (semantic_digest entries == stored) (not store.has_failed_records) fresh in
            rw fresh (
              (
                λ h. ((list_eq.beq_iff (semantic_digest entries) stored).0 same, ground arith),
                λ h. refl,
              ),
              λ h. cc,
            )
        | inr stale ↦ rw stale (
          (
            λ h. cc,
            λ (same, healthy).
                absurd
                  (clash ((list_eq.beq_iff (semantic_digest entries) stored).1 same) healthy stale),
          ),
          λ h r. (
            λ m.
                drift_reasons→Caused store entries r
                  ((In-unique_reasons (drift_reasons store entries) r).0 m),
            λ k.
                (In-unique_reasons (drift_reasons store entries) r).1
                  (Caused→drift_reasons store entries r k),
          ),
        )
      ]
