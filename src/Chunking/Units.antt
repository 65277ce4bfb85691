-- ===== src/Chunking/Units.antt =====
-- The chunkable values of a record in src/decision_memory/application/chunking.py:
-- `_split_body_units`, `_chunkable_units` and `missing_provenance`.
pub mod Sourced
use decision_memory.Prelude.{
  nat_beq, if◌then◌else◌, nat_eq, pair_eq, list_eq, distinct, concat_map, enumerate, get, ℕ, not,
  ◌&&◌, Option, none, some, List, [], ◌∷◌, ◌++◌, map,
}
use decision_memory.Text.{Text, codes, is_empty, text_lt, is_space, strip_by, strip, join}
use decision_memory.Text.Segments.{split_on}
use decision_memory.Sorting.{sort_by}
use decision_memory.Sorting.Keys.{pair_lt}
use decision_memory.Dto.{SourceReference}
use decision_memory.Verification.{replace_crlf, replace_cr}
use decision_memory.Records.{Context, Alternative, Decision, Consequences, CanonicalDecisionRecord}
use decision_memory.Records.Fields.{member_field}
use decision_memory.Chunking.Sentences.{is_blank_char}

pub record ChunkUnit : Type 0 where
  pub value_path : Text
  pub text : Text
  pub sources : List SourceReference

abbrev pub FieldSources : Type 0
FieldSources = List (Text × List SourceReference)

-- `field_sources.get(path, [])`
abbrev pub sources_of : FieldSources → Text → List SourceReference
sources_of field_sources path = elim (get field_sources path) [ none ↦ [] | some refs ↦ refs ]

-- `f"{value}"` of an optional text, and the truth of one.
abbrev pub shown : Option Text → Text
shown none = codes "None"
shown (some t) = t

abbrev pub or_empty : Option Text → Text
or_empty none = []
or_empty (some t) = t

unfoldable pub alternative_text : Alternative → Text
alternative_text a =
    let text = codes "Alternative: " ++ shown a.title in
    if is_empty (or_empty a.rejection_reason)
    then text
    else text ++ (10 ∷ (codes "Rejected because: " ++ or_empty a.rejection_reason))

-- Sources are equal when their paths and sections are.
abbrev pub source_key : SourceReference → Text × Text
source_key s = (s.path, s.section)

abbrev pub of_key : Text × Text → SourceReference
of_key (path, section) = record { path = path; section = section }

unfoldable pub alternative_sources : ℕ → FieldSources → List SourceReference
alternative_sources index field_sources = map of_key (
    sort_by (pair_lt text_lt text_lt) (
      distinct (
        map source_key (
          sources_of field_sources
            (member_field (codes "decision.alternatives") index (codes ".title"))
          ++ sources_of field_sources
              (member_field (codes "decision.alternatives") index (codes ".rejection_reason"))))))

-- `_H2_RE.match`: the heading behind the white space.
abbrev pub heading_of : Text → Option Text
heading_of (c ∷ d ∷ e ∷ s) =
    if nat_beq c b'#' && (nat_beq d b'#' && is_space e) then some (strip s) else none
heading_of _ = none

abbrev pub body_unit : Option Text → List Text → Text × Text
body_unit heading lines = (or_empty heading, strip_by (λ c. nat_beq c 10) (join (10 ∷ []) lines))

abbrev pub close_body : Option Text → List Text → List (Text × Text)
close_body none [] = []
close_body none (line ∷ lines) = body_unit none (line ∷ lines) ∷ []
close_body (some heading) lines = body_unit (some heading) lines ∷ []

abbrev pub body_lines : Option Text → List Text → List Text → List (Text × Text)
body_lines heading current [] = close_body heading current
body_lines heading current (line ∷ lines) = elim (heading_of line) [
  | some next ↦ close_body heading current ++ body_lines (some next) [] lines
  | none ↦ body_lines heading (current ++ line ∷ []) lines
]

unfoldable pub split_body_units : Text → List (Text × Text)
split_body_units body = body_lines none [] (split_on 10 (replace_cr (replace_crlf body)))

abbrev pub body_unit_text : Text × Text → Text
body_unit_text (heading, section_text) =
    if is_empty heading then section_text else codes "## " ++ (heading ++ (10 ∷ 10 ∷ section_text))

module _ (field_sources : FieldSources) where
  -- `add`: a value that is there and not blank.
  abbrev pub add_from : List SourceReference → Text → Option Text → List ChunkUnit
  add_from sources value_path none = []
  add_from sources value_path (some text) =
      if is_empty (strip_by is_blank_char text)
      then []
      else record { value_path = value_path; text = text; sources = sources } ∷ []

  abbrev pub add : Text → Option Text → List ChunkUnit
  add value_path text = add_from (sources_of field_sources value_path) value_path text

  abbrev pub add_item : Text → ℕ × Text → List ChunkUnit
  add_item name (index, item) = add (member_field name index []) (some item)

  abbrev pub add_alternative : ℕ × Alternative → List ChunkUnit
  add_alternative (index, alternative) =
      add_from (alternative_sources index field_sources)
        (member_field (codes "decision.alternatives") index [])
        (some (alternative_text alternative))

  abbrev pub context_units : Option Context → List ChunkUnit
  context_units none = []
  context_units (some context) =
      add (codes "context.problem") context.problem
      ++ add (codes "context.triggering_change") context.triggering_change

  abbrev pub decision_units : Option Decision → List ChunkUnit
  decision_units none = []
  decision_units (some decision) =
      add (codes "decision.chosen") decision.chosen
      ++ concat_map add_alternative (enumerate 0 decision.alternatives)

  abbrev pub consequence_units : Option Consequences → List ChunkUnit
  consequence_units none = []
  consequence_units (some consequences) =
      concat_map (add_item (codes "consequences.positive")) (enumerate 0 consequences.positive)
      ++ concat_map (add_item (codes "consequences.negative")) (enumerate 0 consequences.negative)

  unfoldable pub chunkable_units : CanonicalDecisionRecord → List ChunkUnit
  chunkable_units r =
      context_units r.context
      ++ (decision_units r.decision
          ++ (concat_map (add_item (codes "why")) (enumerate 0 r.why)
              ++ (add (codes "rationale_summary") r.rationale_summary
                  ++ (consequence_units r.consequences
                      ++ concat_map (add_item (codes "body")) (
                          enumerate 0 (map body_unit_text (split_body_units (or_empty r.body))))))))

  abbrev pub unsourced : ChunkUnit → List Text
  unsourced u = if is_empty u.sources then u.value_path ∷ [] else []

  -- A field with a text and no source.
  abbrev pub lacks_source : Text → Option Text → List Text
  lacks_source field text =
      if not (is_empty (or_empty text)) && is_empty (sources_of field_sources field)
      then field ∷ []
      else []

  unfoldable pub missing_provenance : CanonicalDecisionRecord → List Text
  missing_provenance r =
      concat_map unsourced (chunkable_units r)
      ++ (lacks_source (codes "title") r.title ++ lacks_source (codes "supersedes") r.supersedes)
