-- ===== src/Chunking/Units/Sourced.antt =====
-- The units of a record have valid paths and texts, and which of them lack a source.
use decision_memory.Prelude.{
  if◌then◌else◌, Bool-cases, nat_eq, pair_eq, list_eq, All, concat_map, All-append, All-concat_map,
  append-nil_split, enumerate, ℕ, ◌≡◌, refl, ◌≢◌, ◌↔◌, ◌⊎◌, inl, inr, true, not, ◌&&◌, Option, none,
  some, List, [], ◌∷◌, ◌++◌, map,
}
use decision_memory.Text.{Text, codes, is_empty, strip_by}
use decision_memory.Text.Segments.{decimal}
use decision_memory.Text.Numerals.{decimal-Digits, decimal-some}
use decision_memory.ValuePath.{is_valid_value_path}
use decision_memory.ValuePath.Indexed.{is_valid_value_path-indexed}
use decision_memory.Dto.{SourceReference}
use decision_memory.Records.{Context, Decision, Consequences, CanonicalDecisionRecord}
use decision_memory.Records.Fields.{member_field}
use decision_memory.Chunking.Sentences.{is_blank_char}
use decision_memory.Chunking.Units.{
  FieldSources, sources_of, or_empty, alternative_text, alternative_sources, split_body_units,
  body_unit_text, add_from, add, add_item, add_alternative, context_units, decision_units,
  consequence_units, chunkable_units, unsourced, lacks_source, missing_provenance, ChunkUnit,
}

-- A unit with a path of the grammar and a text that is not blank.
abbrev pub IsUnit : ChunkUnit → Type 0
IsUnit u = (is_valid_value_path u.value_path ≡ true) × (strip_by is_blank_char u.text ≢ [])

indexed_valid :
    (name : Text) (n : ℕ)
    → is_valid_value_path name ≡ true
    → is_valid_value_path (member_field name n []) ≡ true
indexed_valid name n h =
    is_valid_value_path-indexed name (decimal n) h (decimal-Digits n) (decimal-some n)

module _ (field_sources : FieldSources) where
  add_from-Units :
      (sources : List SourceReference) (value_path : Text) (text : Option Text)
      → is_valid_value_path value_path ≡ true
      → All IsUnit (add_from field_sources sources value_path text)
  add_from-Units sources value_path none h = tt
  add_from-Units sources value_path (some text) h =
      elim (Bool-cases (is_empty (strip_by is_blank_char text))) [
        | inl blank ↦ rw blank tt
        | inr there_is ↦ rw there_is (
          (h, λ e. let k : is_empty (strip_by is_blank_char text) ≡ true = rw e refl in (cc)),
          tt,
        )
      ]

  items-Units :
      (name : Text) (items : List Text)
      → is_valid_value_path name ≡ true
      → All IsUnit (concat_map (add_item field_sources name) (enumerate 0 items))
  items-Units name items h =
      All-concat_map IsUnit (add_item field_sources name) (enumerate 0 items)
        (λ (n, item). add_from-Units _ _ (some item) (indexed_valid name n h))

  context-Units : (o : Option Context) → All IsUnit (context_units field_sources o)
  unfolding is_valid_value_path
  context-Units none = tt
  context-Units (some c) =
      All-append IsUnit (add field_sources (codes "context.problem") c.problem) _
        (add_from-Units _ _ c.problem refl) (add_from-Units _ _ c.triggering_change refl)

  decision-Units : (o : Option Decision) → All IsUnit (decision_units field_sources o)
  unfolding is_valid_value_path
  decision-Units none = tt
  decision-Units (some d) =
      All-append IsUnit (add field_sources (codes "decision.chosen") d.chosen) _
        (add_from-Units _ _ d.chosen refl)
        (All-concat_map IsUnit (add_alternative field_sources) (enumerate 0 d.alternatives)
          (λ (n, a).
            add_from-Units (alternative_sources n field_sources) _ (some (alternative_text a))
              (indexed_valid (codes "decision.alternatives") n refl)))

  consequence-Units : (o : Option Consequences) → All IsUnit (consequence_units field_sources o)
  unfolding is_valid_value_path
  consequence-Units none = tt
  consequence-Units (some k) =
      All-append IsUnit
        (concat_map (add_item field_sources (codes "consequences.positive"))
          (enumerate 0 k.positive))
        _ (items-Units (codes "consequences.positive") k.positive refl)
        (items-Units (codes "consequences.negative") k.negative refl)

  -- Every unit of a record has a value path of the grammar and a text that is not blank.
  pub chunkable_units-Units :
      (r : CanonicalDecisionRecord) → All IsUnit (chunkable_units field_sources r)
  unfolding chunkable_units is_valid_value_path
  chunkable_units-Units r =
      All-append IsUnit (context_units field_sources r.context) _ (context-Units r.context) (
        All-append IsUnit (decision_units field_sources r.decision) _ (decision-Units r.decision) (
          All-append IsUnit (concat_map (add_item field_sources (codes "why")) (enumerate 0 r.why))
            _ (items-Units (codes "why") r.why refl)
            (All-append IsUnit (add field_sources (codes "rationale_summary") r.rationale_summary) _
              (add_from-Units _ _ r.rationale_summary refl)
              (All-append IsUnit (consequence_units field_sources r.consequences) _
                (consequence-Units r.consequences)
                (items-Units (codes "body")
                  (map body_unit_text (split_body_units (or_empty r.body))) refl)))))

  -- A check that lists a name exactly where something is wrong.
  lacks_source-Sourced :
      (field : Text) (text : Option Text)
      → (lacks_source field_sources field text ≡ [])
        ↔ ((or_empty text ≡ []) ⊎ (sources_of field_sources field ≢ []))
  lacks_source-Sourced field text = by_values (or_empty text) (sources_of field_sources field)
    where
      by_values :
          (t : Text) (refs : List SourceReference)
          → ((if not (is_empty t) && is_empty refs then field ∷ [] else []) ≡ [])
            ↔ ((t ≡ []) ⊎ (refs ≢ []))
      by_values [] refs = (λ h. inl refl, λ h. refl)
      by_values (c ∷ t) [] =
          (λ h. absurd (cc), λ h. elim h [ inl e ↦ absurd (cc) | inr k ↦ absurd (k refl) ])
      by_values (c ∷ t) (s ∷ refs) = (λ h. inr (λ e. cc), λ h. refl)

  unsourced-Sourced :
      (us : List ChunkUnit)
      → (concat_map (unsourced field_sources) us ≡ []) ↔ All (λ (u : ChunkUnit). u.sources ≢ []) us
  unsourced-Sourced [] = (λ h. tt, λ h. refl)
  unsourced-Sourced (u ∷ us) = by_sources (unsourced-Sourced us) u.sources
    where
      by_sources :
          ((concat_map (unsourced field_sources) us ≡ [])
            ↔ All (λ (v : ChunkUnit). v.sources ≢ []) us)
          → (refs : List SourceReference)
          → (((if is_empty refs then u.value_path ∷ [] else [])
                ++ concat_map (unsourced field_sources) us)
              ≡ [])
            ↔ ((refs ≢ []) × All (λ (v : ChunkUnit). v.sources ≢ []) us)
      by_sources rest [] = (λ h. absurd (cc), λ p. absurd (p.0 refl))
      by_sources rest (s ∷ refs) = (λ h. ((λ e. cc), rest.0 h), λ p. rest.1 p.1)

  -- No provenance is missing exactly when every unit has a source, and so have a title and a
  -- superseded id that are not empty.
  pub missing_provenance-Sourced :
      (r : CanonicalDecisionRecord)
      → (missing_provenance field_sources r ≡ []) ↔ (
          All (λ (u : ChunkUnit). u.sources ≢ []) (chunkable_units field_sources r)
          × ((or_empty r.title ≡ []) ⊎ (sources_of field_sources (codes "title") ≢ []))
          × ((or_empty r.supersedes ≡ []) ⊎ (sources_of field_sources (codes "supersedes") ≢ [])))
  unfolding missing_provenance
  missing_provenance-Sourced r =
      let outer =
        append-nil_split (concat_map (unsourced field_sources) (chunkable_units field_sources r)) (
          lacks_source field_sources (codes "title") r.title
          ++ lacks_source field_sources (codes "supersedes") r.supersedes) in
      let inner =
        append-nil_split (lacks_source field_sources (codes "title") r.title)
          (lacks_source field_sources (codes "supersedes") r.supersedes) in
      let units = unsourced-Sourced (chunkable_units field_sources r) in
      let title = lacks_source-Sourced (codes "title") r.title in
      let supersedes = lacks_source-Sourced (codes "supersedes") r.supersedes in
      (
        λ h.
            let (a, rest) = outer.0 h in
            let (b, d) = inner.0 rest in (units.0 a, title.0 b, supersedes.0 d),
        λ p. let (a, b, d) = p in outer.1 (units.1 a, inner.1 (title.1 b, supersedes.1 d)),
      )
