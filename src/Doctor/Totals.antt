-- ===== src/Doctor/Totals.antt =====
-- The groups of a survey count every document once, whatever the number of samples.
use decision_memory.Prelude.{
  Bool-cases, nat_eq, ◌==◌, pair_eq, list_eq, length, length-append, map-map, ℕ, suc, ◌+◌, ◌≡◌,
  refl, sym, ap, ◌∙◌, inl, inr, Bool, List, [], ◌∷◌, map, arith,
}
use decision_memory.Text.{Text}
use decision_memory.Sorting.{insert, sort_by}
use decision_memory.Sorting.Defs.{}
use decision_memory.Sorting.Keys.{map-sort_on}
use decision_memory.Ingest.{sum}
use decision_memory.Doctor.{
  append_to, heading_set, group_documents, group_of, group_key, group_lt, heading_set_groups,
  SurveyedDocument, HeadingSetGroup,
}

-- The number of documents in all the groups.
total : List (List Text × List Text) → ℕ
total by_set = sum (map (λ g. length g.1) by_set)

total-append_to :
    (by_set : List (List Text × List Text)) (key : List Text) (path : Text)
    → total (append_to by_set key path) ≡ suc (total by_set)
unfolding total
total-append_to [] key path = omega arith
total-append_to ((k, vs) ∷ by_set) key path = elim (Bool-cases (k == key)) [
  | inl same ↦ rw same (omega (arith, length-append vs (path ∷ [])))
  | inr other ↦ rw other (omega (arith, total-append_to by_set key path))
]

total-group_documents :
    (by_set : List (List Text × List Text)) (documents : List SurveyedDocument)
    → total (group_documents by_set documents) ≡ total by_set + length documents
total-group_documents by_set [] = omega arith
total-group_documents by_set (d ∷ documents) = omega (
  arith,
  total-group_documents (append_to by_set (heading_set d) d.relative_path) documents,
  total-append_to by_set (heading_set d) d.relative_path,
)

-- Sorting keeps the sum of a measure.
module _ {ℓ} {A : Type ℓ} (lt : A → A → Bool) (measure : A → ℕ) where
  sum-insert :
      (x : A) (xs : List A) → sum (map measure (insert lt x xs)) ≡ measure x + sum (map measure xs)
  sum-insert x [] = refl
  sum-insert x (y ∷ ys) = elim (Bool-cases (lt y x)) [
    | inl smaller ↦ rw smaller (omega (arith, sum-insert x ys))
    | inr first ↦ rw first refl
  ]

  sum-sort_by : (xs : List A) → sum (map measure (sort_by lt xs)) ≡ sum (map measure xs)
  unfolding sort_by
  sum-sort_by [] = refl
  sum-sort_by (x ∷ xs) = omega (arith, sum-insert x (sort_by lt xs), sum-sort_by xs)

-- The files of the groups are as many as the documents, and the number of samples changes neither the
-- counts nor the headings nor the order of the groups.
pub heading_set_groups-total :
    (documents : List SurveyedDocument) (samples samples' : ℕ)
    → (sum (map (λ g. g.file_count) (heading_set_groups documents samples)) ≡ length documents)
      × (map group_key (heading_set_groups documents samples)
          ≡ map group_key (heading_set_groups documents samples'))
unfolding heading_set_groups total
heading_set_groups-total documents samples samples' = (
  sum-sort_by (λ a b. group_lt (group_key a) (group_key b)) (λ g. g.file_count)
        (map (group_of samples) (group_documents [] documents))
      ∙ counted,
  map-sort_on group_key group_lt (map (group_of samples) (group_documents [] documents))
      ∙ ap (sort_by group_lt) same_keys
      ∙ sym
          (map-sort_on group_key group_lt (map (group_of samples') (group_documents [] documents))),
)
  where
    counted :
        sum (map (λ g. g.file_count) (map (group_of samples) (group_documents [] documents)))
        ≡ length documents
    counted =
        ap sum (
          map-map (λ (g : HeadingSetGroup). g.file_count) (group_of samples)
            (group_documents [] documents))
        ∙ (total-group_documents [] documents ∙ omega arith)

    same_keys :
        map group_key (map (group_of samples) (group_documents [] documents))
        ≡ map group_key (map (group_of samples') (group_documents [] documents))
    same_keys =
        map-map group_key (group_of samples) (group_documents [] documents)
        ∙ sym (map-map group_key (group_of samples') (group_documents [] documents))
