-- ===== src/Freshness/Reasons.antt =====
-- Which reasons a drifted index has, and when it is current.

use mathlib.Core.List.Permᴰ
use decision_memory.Prelude.{
  if◌then◌else◌, Bool-cases, Option-cases, some_inj, ◌==◌, nat_eq, pair_eq, list_eq, contains,
  In-append, In-if, In-singleton, concat_map, In-concat_map, In, here, there, keys, get, ◌≡◌, refl,
  sym, ap, ◌∙◌, subst, ◌≢◌, ◌↔◌, inl, inr, true, false, Option, none, some, List, [], ◌∷◌, map,
}
use decision_memory.Text.{Text, codes, text_lt}
use decision_memory.Sorting.{sort_by-perm}
use decision_memory.Sorting.Perms.{Permᴰ-In}
use decision_memory.Sorting.Keys.{}
use decision_memory.Freshness.{
  reason_value, entry_reasons, removed_reasons, drift_reasons, listed_reason, distinct_reasons,
  unique_reasons, StaleReason, record_added, record_changed, record_removed, manifest_unavailable,
  manifest_changed_during_query, failed_ingest, ManifestEntry, Store,
}

-- What each reason says of the store and the entries of the manifest.
abbrev pub Caused : Store → List ManifestEntry → StaleReason → Type 0
Caused store entries record_added =
    (entry : ManifestEntry) × In entry entries × (get store.ledger_entry_digests entry.id ≡ none)
Caused store entries record_changed =
    (entry : ManifestEntry) × (stored : Option Text) × In entry entries
    × (get store.ledger_entry_digests entry.id ≡ some stored)
    × (stored ≢ some entry.entry_digest)
Caused store entries record_removed =
    (id : Text) × In id (keys store.ledger_entry_digests)
    × (contains (map (λ entry. entry.id) entries) id ≡ false)
Caused store entries failed_ingest = store.has_failed_records ≡ true
Caused store entries manifest_unavailable = ⊥
Caused store entries manifest_changed_during_query = ⊥

abbrev decode : Text → StaleReason
decode t =
    if t == codes "record_added"
    then record_added
    else if t == codes "record_changed"
    then record_changed
    else if t == codes "record_removed"
    then record_removed
    else if t == codes "manifest_unavailable"
    then manifest_unavailable
    else if t == codes "manifest_changed_during_query"
    then manifest_changed_during_query
    else failed_ingest

decode-reason_value : (r : StaleReason) → decode (reason_value r) ≡ r
decode-reason_value record_added = refl
decode-reason_value record_changed = refl
decode-reason_value record_removed = refl
decode-reason_value manifest_unavailable = refl
decode-reason_value manifest_changed_during_query = refl
decode-reason_value failed_ingest = refl

reason_value-inj : (q r : StaleReason) → reason_value q ≡ reason_value r → q ≡ r
reason_value-inj q r e = sym (decode-reason_value q) ∙ ap decode e ∙ decode-reason_value r

listed_reason→In : (rs : List StaleReason) (r : StaleReason) → listed_reason rs r ≡ true → In r rs
listed_reason→In [] r h = cc
listed_reason→In (q ∷ rs) r h = elim (Bool-cases (reason_value q == reason_value r)) [
  | inl same ↦
      here (reason_value-inj q r ((list_eq.beq_iff (reason_value q) (reason_value r)).0 same))
  | inr other ↦ there (listed_reason→In rs r (rw other at h))
]

distinct_reasons-In :
    (rs : List StaleReason) (r : StaleReason) → In r (distinct_reasons rs) → In r rs
distinct_reasons-In [] r m = m
distinct_reasons-In (q ∷ rs) r m = elim (Bool-cases (listed_reason rs q)) [
  | inl again ↦ there (distinct_reasons-In rs r (rw again at m))
  | inr fresh ↦ elim (In-append (q ∷ []) (distinct_reasons rs) (rw fresh at m)) [
    | inl first ↦ here (In-singleton first)
    | inr later ↦ there (distinct_reasons-In rs r later)
  ]
]

In→distinct_reasons :
    (rs : List StaleReason) (r : StaleReason) → In r rs → In r (distinct_reasons rs)
In→distinct_reasons [] r m = m
In→distinct_reasons (q ∷ rs) r (here e) = elim (Bool-cases (listed_reason rs q)) [
  | inl again ↦
      rw again (In→distinct_reasons rs r (subst (λ t. In t rs) e (listed_reason→In rs q again)))
  | inr fresh ↦ rw fresh (here e)
]
In→distinct_reasons (q ∷ rs) r (there m) = elim (Bool-cases (listed_reason rs q)) [
  | inl again ↦ rw again (In→distinct_reasons rs r m)
  | inr fresh ↦ rw fresh (there (In→distinct_reasons rs r m))
]

pub In-unique_reasons :
    (rs : List StaleReason) (r : StaleReason) → In r (unique_reasons rs) ↔ In r rs
unfolding unique_reasons
In-unique_reasons rs r = (
  λ m. distinct_reasons-In rs r (
      Permᴰ-In
        (sort_by-perm (λ a b. text_lt (reason_value a) (reason_value b)) (distinct_reasons rs)) m),
  λ m.
      Permᴰ-In
        (Permᴰ.symm
          (sort_by-perm (λ a b. text_lt (reason_value a) (reason_value b)) (distinct_reasons rs)))
        (In→distinct_reasons rs r m),
)

differ : (a b : Text) → (a == b) ≡ false → some a ≢ some b
differ a b h e = let same : (a == b) ≡ true = (list_eq.beq_iff a b).1 (some_inj e) in (cc)

module _ (store : Store) (entries : List ManifestEntry) where
  entry_reasons-Caused :
      (entry : ManifestEntry) (r : StaleReason)
      → In entry entries
      → In r (entry_reasons store.ledger_entry_digests entry)
      → Caused store entries r
  entry_reasons-Caused entry r n m = elim (Option-cases (get store.ledger_entry_digests entry.id)) [
    | inl absent ↦
        subst (Caused store entries) (In-singleton (rw (entry_reasons, absent) at m))
          (entry, n, absent)
    | inr (none, found) ↦
        subst (Caused store entries) (In-singleton (rw (entry_reasons, found) at m))
          (entry, none, n, found, λ e. cc)
    | inr (some digest, found) ↦ elim (Bool-cases (digest == entry.entry_digest)) [
      | inl same ↦
          let impossible : In r [] = rw (entry_reasons, found, same) at m in elim impossible [ ]
      | inr differs ↦
          subst (Caused store entries) (In-singleton (rw (entry_reasons, found, differs) at m))
            (entry, some digest, n, found, differ digest entry.entry_digest differs)
    ]
  ]

  removed_reasons-Caused :
      (id : Text) (r : StaleReason)
      → In id (keys store.ledger_entry_digests)
      → In r (removed_reasons (map (λ entry. entry.id) entries) id)
      → Caused store entries r
  removed_reasons-Caused id r n m =
      elim (Bool-cases (contains (map (λ entry. entry.id) entries) id)) [
        | inl kept ↦
            let impossible : In r [] = rw (removed_reasons, kept) at m in elim impossible [ ]
        | inr gone ↦
            subst (Caused store entries) (In-singleton (rw (removed_reasons, gone) at m))
              (id, n, gone)
      ]

  pub drift_reasons→Caused :
      (r : StaleReason) → In r (drift_reasons store entries) → Caused store entries r
  unfolding drift_reasons
  drift_reasons→Caused r m =
      elim (In-append (concat_map (entry_reasons store.ledger_entry_digests) entries) _ m) [
        | inl of_entry ↦
            let (entry, n, k) =
              In-concat_map (entry_reasons store.ledger_entry_digests) entries of_entry in
            entry_reasons-Caused entry r n k
        | inr rest ↦
            elim (In-append
              (concat_map (removed_reasons (map (λ entry. entry.id) entries))
                (keys store.ledger_entry_digests))
              _ rest) [
                | inl of_ledger ↦
                    let (id, n, k) =
                      In-concat_map (removed_reasons (map (λ entry. entry.id) entries))
                        (keys store.ledger_entry_digests) of_ledger in
                    removed_reasons-Caused id r n k
                | inr last ↦
                    let (failed, k) = In-if store.has_failed_records (failed_ingest ∷ []) last in
                    subst (Caused store entries) (In-singleton k) failed
              ]
      ]
