-- ===== src/Filters/Build.antt =====
-- What normalized filters hold.
use mathlib.Core.List.Permᴰ
use decision_memory.Prelude.{
  Option-cases, >>=-eq-some, some_inj, nat_eq, pair_eq, list_eq, distinct, distinct-NoRepeat,
  NoRepeat, In-append, In-singleton, In-distinct, In, here, there, ◌≡◌, refl, sym, ap, ◌∙◌, subst,
  ◌↔◌, inl, inr, Option, none, some, List, [], ◌∷◌, arith,
}
use decision_memory.Text.{Text, text_lt}
use decision_memory.Text.Affixes.{}
use decision_memory.Sorting.Perms.{Permᴰ-In, Permᴰ-NoRepeat}
use decision_memory.Sorting.{sort_by-IsSorted, sort_by-perm, IsSorted}
use decision_memory.Sorting.Keys.{text_lt-IsStrictOrder}
use decision_memory.Dto.{QueryFilters}
use decision_memory.Filters.{
  clean_each, clean_scalar, clean_value_path, sorted_set, clean_status, build_query_filters,
}

In-sorted_set : (values : List Text) (v : Text) → In v (sorted_set values) ↔ In v values
unfolding sorted_set
In-sorted_set values v = (
  λ m. (In-distinct values v).0 (Permᴰ-In (sort_by-perm text_lt (distinct values)) m),
  λ m. Permᴰ-In (Permᴰ.symm (sort_by-perm text_lt (distinct values))) ((In-distinct values v).1 m),
)

sorted_set-NoRepeat : (values : List Text) → NoRepeat (sorted_set values)
unfolding sorted_set
sorted_set-NoRepeat values =
    Permᴰ-NoRepeat (Permᴰ.symm (sort_by-perm text_lt (distinct values))) (distinct-NoRepeat values)

sorted_set-IsSorted : (values : List Text) → IsSorted text_lt (sorted_set values)
unfolding sorted_set
sorted_set-IsSorted values = sort_by-IsSorted text_lt-IsStrictOrder (distinct values)

clean_each-cons :
    (clean : Text → Option Text) (x : Text) (xs cleaned : List Text)
    → clean_each clean (x ∷ xs) ≡ some cleaned
    → (w : Text) × (rest : List Text) × (clean x ≡ some w)
      × (clean_each clean xs ≡ some rest)
      × (cleaned ≡ w ∷ rest)
clean_each-cons clean x xs cleaned h = elim (Option-cases (clean x)) [
  | inl refused ↦ let impossible : none ≡ some cleaned = rw (refused, clean_each) at h in (cc)
  | inr (w, found) ↦ elim (Option-cases (clean_each clean xs)) [
    | inl refused ↦
        let impossible : none ≡ some cleaned = rw (found, refused, clean_each) at h in (cc)
    | inr (rest, more) ↦ (w, rest, found, more, ground arith)
  ]
]

-- The members of a cleaned list are the cleaned members.
abbrev CleanedBy : (Text → Option Text) → List Text → Text → Type 0
CleanedBy clean values v = (raw : Text) × In raw values × (clean raw ≡ some v)

clean_each_sound :
    (clean : Text → Option Text) (values cleaned : List Text)
    → clean_each clean values ≡ some cleaned
    → (v : Text) → In v cleaned
    → CleanedBy clean values v
clean_each_sound clean [] cleaned h v m = elim (subst (In v) (sym (some_inj h)) m) [ ]
clean_each_sound clean (x ∷ xs) cleaned h v m =
    let (w, rest, found, more, e) = clean_each-cons clean x xs cleaned h in
    elim (In-append (w ∷ []) rest (subst (In v) e m)) [
      | inl first ↦ (x, here refl, found ∙ ap some (In-singleton first))
      | inr later ↦
          let (raw, k, c) = clean_each_sound clean xs rest more v later in (raw, there k, c)
    ]

clean_each_complete :
    (clean : Text → Option Text) (values cleaned : List Text)
    → clean_each clean values ≡ some cleaned
    → (v raw : Text) → In raw values
    → clean raw ≡ some v
    → In v cleaned
clean_each_complete clean [] cleaned h v raw m c = elim m [ ]
clean_each_complete clean (x ∷ xs) cleaned h v raw (here same) c =
    let (w, rest, found, more, e) = clean_each-cons clean x xs cleaned h in
    let fits : w ≡ v = some_inj (sym found ∙ ap clean same ∙ c) in subst (In v) (sym e) (here fits)
clean_each_complete clean (x ∷ xs) cleaned h v raw (there m) c =
    let (w, rest, found, more, e) = clean_each-cons clean x xs cleaned h in
    subst (In v) (sym e) (there (clean_each_complete clean xs rest more v raw m c))

-- A field holds exactly the cleaned values, in ascending order and without repetition.
pub record IsNormalized (clean : Text → Option Text) (values field : List Text) : Type 0 where
  pub members : (v : Text) → In v field ↔ CleanedBy clean values v
  pub ascending : IsSorted text_lt field
  pub unrepeated : NoRepeat field

sorted_set-IsNormalized :
    (clean : Text → Option Text) (values cleaned : List Text)
    → clean_each clean values ≡ some cleaned
    → IsNormalized clean values (sorted_set cleaned)
sorted_set-IsNormalized clean values cleaned h = record {
  members = λ v. (
    λ m. clean_each_sound clean values cleaned h v ((In-sorted_set cleaned v).0 m),
    λ (raw, m, c).
        (In-sorted_set cleaned v).1 (clean_each_complete clean values cleaned h v raw m c),
  );
  ascending = sorted_set-IsSorted cleaned;
  unrepeated = sorted_set-NoRepeat cleaned;
}

module _ (lower : Text → Text) where
  pub record AreNormalized (ids statuses tags paths : List Text) (f : QueryFilters) : Type 0 where
    pub ids_normalized : IsNormalized clean_scalar ids f.record_ids
    pub statuses_normalized : IsNormalized (clean_status lower) statuses f.statuses
    pub tags_normalized : IsNormalized clean_scalar tags f.tags
    pub paths_normalized : IsNormalized clean_value_path paths f.value_paths

  -- Filters that are built hold, in each field, exactly the cleaned raw values, in ascending
  -- order and each once.
  pub build_query_filters-AreNormalized :
      (ids statuses tags paths : List Text) (f : QueryFilters)
      → build_query_filters lower ids statuses tags paths ≡ some f
      → AreNormalized ids statuses tags paths f
  unfolding build_query_filters
  build_query_filters-AreNormalized ids statuses tags paths f h =
      let (a, ha, h₁) = >>=-eq-some (clean_each clean_scalar ids) _ h in
      let (b, hb, h₂) = >>=-eq-some (clean_each clean_scalar tags) _ h₁ in
      let (c, hc, h₃) = >>=-eq-some (clean_each (clean_status lower) statuses) _ h₂ in
      let (d, hd, h₄) = >>=-eq-some (clean_each clean_value_path paths) _ h₃ in
      subst (AreNormalized ids statuses tags paths) (some_inj h₄) (record {
        ids_normalized = sorted_set-IsNormalized clean_scalar ids a ha;
        statuses_normalized = sorted_set-IsNormalized (clean_status lower) statuses c hc;
        tags_normalized = sorted_set-IsNormalized clean_scalar tags b hb;
        paths_normalized = sorted_set-IsNormalized clean_value_path paths d hd;
      })
