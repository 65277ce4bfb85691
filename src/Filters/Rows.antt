-- ===== src/Filters/Rows.antt =====
-- The decision on each chunk of a snapshot.
use decision_memory.Prelude.{
  if◌then◌else◌, some_inj, nat_eq, pair_eq, list_eq, any, any→In, contains, contains→In,
  In→contains, In→any, In, ◌≡◌, refl, sym, subst, ◌↔◌, ◌⊎◌, inl, inr, Bool, true, false, not, ◌&&◌,
  Option, none, some, List, [], ◌∷◌, ◌++◌, arith,
}
use decision_memory.Text.{Text, is_empty}
use decision_memory.Dto.{
  accepted, excluded, FilterExclusionReason, QueryFilters, ActiveChunkDescriptor,
}
use decision_memory.Filters.{
  matches_value_path, fails_record_id, status_listed, fails_status, fails_tag, fails_value_path,
  reason_if, exclusion_reasons, filter_row,
}

-- What it takes to pass all constraints: within one field some value fits, and an empty field is
-- no constraint.
pub record Passes (f : QueryFilters) (chunk : ActiveChunkDescriptor) : Type 0 where
  pub by_record_id : (f.record_ids ≡ []) ⊎ In chunk.record_id f.record_ids
  pub by_status :
      (f.statuses ≡ []) ⊎ ((s : Text) × (chunk.record_status ≡ some s) × In s f.statuses)
  pub by_tag : (f.tags ≡ []) ⊎ ((t : Text) × In t chunk.record_tags × In t f.tags)
  pub by_value_path :
      (f.value_paths ≡ [])
      ⊎ ((s : Text) × In s f.value_paths × (matches_value_path s chunk.value_path ≡ true))

-- A constraint fails exactly when it is there and its test does not pass.
constraint_iff :
    {A : Type 0} (values : List Text) (test : Bool)
    → ((test ≡ true) ↔ A)
    → ((not (is_empty values) && not test) ≡ false) ↔ ((values ≡ []) ⊎ A)
constraint_iff [] test iff = (λ _. inl refl, λ _. refl)
constraint_iff {A} (v ∷ values) test iff = (holds, passes)
  where
    holds : not test ≡ false → (v ∷ values ≡ []) ⊎ A
    holds h = inr (iff.0 (ground arith))

    passes : (v ∷ values ≡ []) ⊎ A → not test ≡ false
    passes (inl e) = cc
    passes (inr a) = ground (arith, iff.1 a)

contains_iff : (xs : List Text) (a : Text) → (contains xs a ≡ true) ↔ In a xs
contains_iff xs a = (contains→In xs a, In→contains xs a)

status_iff :
    (statuses : List Text) (status : Option Text)
    → (status_listed statuses status ≡ true) ↔ ((s : Text) × (status ≡ some s) × In s statuses)
status_iff statuses none = (λ h. (cc), λ (s, e, m). (cc))
status_iff statuses (some t) = (
  λ h. (t, refl, contains→In statuses t h),
  λ (s, e, m). In→contains statuses t (subst (λ y. In y statuses) (sym (some_inj e)) m),
)

any_iff :
    (p : Text → Bool) (xs : List Text) → (any p xs ≡ true) ↔ ((x : Text) × In x xs × (p x ≡ true))
any_iff p xs = (any→In p xs, λ (x, m, h). In→any p xs m h)

tag_iff :
    (wanted tags : List Text)
    → (any (contains wanted) tags ≡ true) ↔ ((t : Text) × In t tags × In t wanted)
tag_iff wanted tags = (
  λ h. let (t, m, k) = any→In (contains wanted) tags h in (t, m, contains→In wanted t k),
  λ (t, m, k). In→any (contains wanted) tags m (In→contains wanted t k),
)

-- The state from the four tests.
four_tests :
    (f : QueryFilters) (chunk : ActiveChunkDescriptor)
    → ((filter_row f chunk).state ≡ accepted) ↔ (
        (fails_record_id f chunk ≡ false)
        × (fails_status f chunk ≡ false)
        × (fails_tag f chunk ≡ false)
        × (fails_value_path f chunk ≡ false))
unfolding filter_row exclusion_reasons
four_tests f chunk =
    from_tests (fails_record_id f chunk) (fails_status f chunk) (fails_tag f chunk)
      (fails_value_path f chunk)
  where
    from_tests :
        (a b c d : Bool)
        → ((if is_empty (
                reason_if a FilterExclusionReason.record_id
                ++ (reason_if b FilterExclusionReason.status
                    ++ (reason_if c FilterExclusionReason.tag
                        ++ reason_if d FilterExclusionReason.value_path)))
              then accepted
              else excluded)
            ≡ accepted)
          ↔ ((a ≡ false) × (b ≡ false) × (c ≡ false) × (d ≡ false))
    from_tests a b c d = ground arith

-- The four constraints of one chunk.
module _ (f : QueryFilters) (chunk : ActiveChunkDescriptor) where
  record_id_iff :
      (fails_record_id f chunk ≡ false) ↔ ((f.record_ids ≡ []) ⊎ In chunk.record_id f.record_ids)
  record_id_iff = constraint_iff f.record_ids _ (contains_iff f.record_ids chunk.record_id)

  record_status_iff :
      (fails_status f chunk ≡ false)
      ↔ ((f.statuses ≡ []) ⊎ ((s : Text) × (chunk.record_status ≡ some s) × In s f.statuses))
  record_status_iff = constraint_iff f.statuses _ (status_iff f.statuses chunk.record_status)

  record_tag_iff :
      (fails_tag f chunk ≡ false)
      ↔ ((f.tags ≡ []) ⊎ ((t : Text) × In t chunk.record_tags × In t f.tags))
  record_tag_iff = constraint_iff f.tags _ (tag_iff f.tags chunk.record_tags)

  value_path_iff : (fails_value_path f chunk ≡ false) ↔ (
      (f.value_paths ≡ [])
      ⊎ ((s : Text) × In s f.value_paths × (matches_value_path s chunk.value_path ≡ true)))
  value_path_iff =
      constraint_iff f.value_paths _
        (any_iff (λ s. matches_value_path s chunk.value_path) f.value_paths)

  -- A chunk is accepted exactly when it passes every constraint.
  pub filter_row-Passes : ((filter_row f chunk).state ≡ accepted) ↔ Passes f chunk
  filter_row-Passes = (
    λ h.
        let (a, b, c, d) = (four_tests f chunk).0 h in
        record {
          by_record_id = record_id_iff.0 a;
          by_status = record_status_iff.0 b;
          by_tag = record_tag_iff.0 c;
          by_value_path = value_path_iff.0 d;
        },
    λ p. (four_tests f chunk).1 (
      record_id_iff.1 p.by_record_id,
      record_status_iff.1 p.by_status,
      record_tag_iff.1 p.by_tag,
      value_path_iff.1 p.by_value_path,
    ),
  )

  -- The test that a reason reports.
  abbrev pub fails : FilterExclusionReason → Bool
  fails FilterExclusionReason.record_id = fails_record_id f chunk
  fails FilterExclusionReason.status = fails_status f chunk
  fails FilterExclusionReason.tag = fails_tag f chunk
  fails FilterExclusionReason.value_path = fails_value_path f chunk
