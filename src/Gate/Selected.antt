-- ===== src/Gate/Selected.antt =====
-- What the filter stage finds: whether some chunk passes the filters, and that each of its rows has
-- a chunk to be sorted by, so that no `KeyError` is raised.
use decision_memory.Prelude.{
  Bool-cases, Option-cases, ◌==◌, nat_eq, pair_eq, list_eq, All, All-of_In, In, here, there, In-map,
  is_some, map_option, get, put, get-put_same, get-put_other, ◌≡◌, ◌≢◌, refl, ap, ◌∙◌, subst, ◌⊎◌,
  inl, inr, true, false, Option, none, some, option_map, List, [], ◌∷◌, map,
}
use decision_memory.Text.{Text, is_empty}
use decision_memory.Dto.{accepted, excluded, FilterState, QueryFilters, ActiveChunkDescriptor}
use decision_memory.Filters.{filter_row, filter_descriptors}
use decision_memory.Filters.Rows.{filter_row-Passes, Passes}
use decision_memory.Retrieval.Ranking.{key_lt, keyed, sort_rows}
use decision_memory.Sorting.Keys.{sort_on}
use decision_memory.Gate.{by_chunk_id, accepted_chunk_ids}

state-cases : (s : FilterState) → (s ≡ accepted) ⊎ (s ≡ excluded)
state-cases accepted = inl refl
state-cases excluded = inr refl

-- Some chunk of the snapshot passes the filters.
abbrev pub HasSelection : QueryFilters → List ActiveChunkDescriptor → Type 0
HasSelection f active = (chunk : ActiveChunkDescriptor) × In chunk active × Passes f chunk

pub accepted_chunk_ids-cases :
    (f : QueryFilters) (active : List ActiveChunkDescriptor)
    → ((is_empty (accepted_chunk_ids (filter_descriptors active f)) ≡ true)
        × All (λ chunk. ¬ Passes f chunk) active)
      ⊎ ((is_empty (accepted_chunk_ids (filter_descriptors active f)) ≡ false)
          × HasSelection f active)
unfolding filter_descriptors
accepted_chunk_ids-cases f [] = inl (refl, tt)
accepted_chunk_ids-cases f (chunk ∷ active) = elim (state-cases (filter_row f chunk).state) [
  | inl kept ↦ inr (rw kept refl, (chunk, here refl, (filter_row-Passes f chunk).0 kept))
  | inr dropped ↦ elim (accepted_chunk_ids-cases f active) [
    | inl (nothing, fail) ↦ inl (
      rw dropped nothing,
      ((λ passes. let kept = (filter_row-Passes f chunk).1 passes in (cc)), fail),
    )
    | inr (something, (c, m, passes)) ↦ inr (rw dropped something, (c, there m, passes))
  ]
]

by_chunk_id-kept :
    (table : List (Text × ActiveChunkDescriptor)) (chunks : List ActiveChunkDescriptor) (id : Text)
    → is_some (get table id) ≡ true
    → is_some (get (by_chunk_id table chunks) id) ≡ true
by_chunk_id-kept table [] id h = h
by_chunk_id-kept table (c ∷ chunks) id h =
    by_chunk_id-kept (put table c.chunk_id c) chunks id (elim (Bool-cases (c.chunk_id == id)) [
      | inl same ↦
          let e : c.chunk_id ≡ id = (list_eq.beq_iff c.chunk_id id).0 same in
          subst (λ key. is_some (get (put table c.chunk_id c) key) ≡ true) e
            (ap is_some (get-put_same table c.chunk_id c))
      | inr other ↦ ap is_some (get-put_other table c.chunk_id id c other) ∙ h
    ])

by_chunk_id-In :
    (table : List (Text × ActiveChunkDescriptor)) (chunks : List ActiveChunkDescriptor)
    (chunk : ActiveChunkDescriptor)
    → In chunk chunks
    → is_some (get (by_chunk_id table chunks) chunk.chunk_id) ≡ true
by_chunk_id-In table [] chunk m = elim m [ ]
by_chunk_id-In table (c ∷ chunks) chunk (here e) =
    subst (λ d. is_some (get (by_chunk_id table (c ∷ chunks)) d.chunk_id) ≡ true) e
      (by_chunk_id-kept (put table c.chunk_id c) chunks c.chunk_id
        (ap is_some (get-put_same table c.chunk_id c)))
by_chunk_id-In table (c ∷ chunks) chunk (there m) =
    by_chunk_id-In (put table c.chunk_id c) chunks chunk m

map_option-is_some {ℓ κ} :
    {A : Type ℓ} {B : Type κ} (f : A → Option B) (xs : List A)
    → All (λ x. is_some (f x) ≡ true) xs
    → is_some (map_option f xs) ≡ true
map_option-is_some f [] h = refl
map_option-is_some f (x ∷ xs) (h, rest) = elim (Option-cases (f x)) [
  | inl missing ↦ let wrong : false ≡ true = rw missing at h in (cc)
  | inr (y, e) ↦ elim (Option-cases (map_option f xs)) [
    | inl stuck ↦ let wrong : false ≡ true = rw stuck at (map_option-is_some f xs rest) in (cc)
    | inr (ys, e') ↦ rw (map_option, e, e') refl
  ]
]

is_some-option_map {ℓ κ} :
    {A : Type ℓ} {B : Type κ} (f : A → B) (o : Option A)
    → is_some o ≡ true
    → is_some (option_map f o) ≡ true
is_some-option_map f none h = h
is_some-option_map f (some a) h = refl

-- The rows of the snapshot are always sorted.
pub sort_rows-filtered :
    (active : List ActiveChunkDescriptor) (f : QueryFilters)
    → sort_rows (λ row. row.chunk_id) (by_chunk_id [] active) (filter_descriptors active f) ≢ none
unfolding sort_rows filter_descriptors filter_row
sort_rows-filtered active f h =
    let table = by_chunk_id [] active in
    let rows = filter_descriptors active f in
    let found : All (λ row. is_some (keyed (λ row. row.chunk_id) table row) ≡ true) rows =
      All-of_In rows (λ row m.
        let (chunk, n, e) = In-map (filter_row f) active m in
        subst (λ row. is_some (keyed (λ row. row.chunk_id) table row) ≡ true) e
          (is_some-option_map _ (get table chunk.chunk_id) (by_chunk_id-In [] active chunk n))) in
    let all_found = map_option-is_some (keyed (λ row. row.chunk_id) table) rows found in
    elim (Option-cases (map_option (keyed (λ row. row.chunk_id) table) rows)) [
      | inl stuck ↦ let wrong : false ≡ true = rw stuck at all_found in (cc)
      | inr (ys, e) ↦
          let wrong : some (map (λ p. p.1) (sort_on (λ p. p.0) key_lt ys)) ≡ none = rw e at h in
          (cc)
    ]
