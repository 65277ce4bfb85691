-- ===== src/Validation/WellFormed.antt =====
-- What the schema asks of a record, stated without the checks.
use decision_memory.Prelude.{
  nat_eq, pair_eq, list_eq, All, In, ℕ, ◌≡◌, ◌≢◌, ◌⊎◌, Bool, true, false, Option, none, some, List,
  [], ◌∷◌, ◌++◌,
}
use decision_memory.Text.{Text, codes, starts_with, ends_with, strip}
use decision_memory.Text.Segments.{split_on}
use decision_memory.Records.{
  EvidenceKind, spec, file, commit, Alternative, Decision, Evidence, CanonicalDecisionRecord,
  ValidationContext,
}
use decision_memory.Records.Fields.{alphanumeric, id_char}
use decision_memory.Records.Sources.{normalize_target, under_specs_dir}
use decision_memory.Validation.{date_pattern}

-- A text that is there and not blank.
abbrev pub Populated : Option Text → Type 0
Populated none = ⊥
Populated (some t) = strip t ≢ []

-- Ids: a letter or digit, characters of an id, and at most one line feed behind them.
abbrev pub IsId : Text → Type 0
IsId t =
    (c : ℕ) × (s : Text) × (e : Text) × (t ≡ c ∷ (s ++ e))
    × (alphanumeric c ≡ true)
    × All (λ d. id_char d ≡ true) s
    × ((e ≡ []) ⊎ (e ≡ 10 ∷ []))

abbrev pub HasId : Option Text → Type 0
HasId none = ⊥
HasId (some t) = (strip t ≢ []) × IsId t

abbrev pub HasChoice : Option Decision → Type 0
HasChoice none = ⊥
HasChoice (some d) =
    Populated d.chosen × All (λ (a : Alternative). Populated a.title) d.alternatives

-- Exactly one known commit begins with the target.
abbrev pub NamesOne : List Text → Text → Type 0
NamesOne commits target =
    (k : Text) × In k commits
    × (starts_with k target ≡ true)
    × ((other : Text) → In other commits → starts_with other target ≡ true → other ≡ k)

-- A relative path without an upward segment that exists once it is normalized.
abbrev pub IsCited : ValidationContext → Text → Type 0
IsCited c target =
    (starts_with target (codes "/") ≡ false)
    × (¬ In (codes "..") (split_on b'/' target))
    × (ends_with target (codes "/") ≡ false)
    × In (normalize_target target) c.existing_paths

abbrev pub IsBackedBy : ValidationContext → EvidenceKind → Text → Type 0
IsBackedBy c commit target = (c.git_available ≡ false) ⊎ NamesOne c.known_commits target
IsBackedBy c spec target = (under_specs_dir (normalize_target target) ≡ true) × IsCited c target
IsBackedBy c file target = IsCited c target

abbrev pub IsSource : ValidationContext → Option EvidenceKind → Option Text → Type 0
IsSource c none target = ⊥
IsSource c (some kind) none = ⊥
IsSource c (some kind) (some target) = (strip target ≢ []) × IsBackedBy c kind (strip target)

abbrev pub HasSources : ValidationContext → Option (List Evidence) → Type 0
HasSources c none = ⊥
HasSources c (some es) = (es ≢ []) × All (λ (e : Evidence). IsSource c e.kind e.target) es

module _ (is_decimal : ℕ → Bool) (is_calendar_date : Text → Bool) where
  abbrev pub IsDate : Option Text → Type 0
  IsDate none = Unit
  IsDate (some t) =
      (strip t ≡ []) ⊎ ((date_pattern is_decimal t ≡ true) × (is_calendar_date t ≡ true))

  pub record IsWellFormed (r : CanonicalDecisionRecord) (c : ValidationContext) : Type 0 where
    pub id : HasId r.id
    pub title : Populated r.title
    pub status : r.status ≢ none
    pub date : IsDate r.date
    pub choice : HasChoice r.decision
    pub rationale : ((w : Text) × In w r.why × (strip w ≢ [])) ⊎ Populated r.rationale_summary
    pub sources : HasSources c r.evidence
    pub supersedes : ¬ ((t : Text) × (r.supersedes ≡ some t) × (r.id ≡ some t))
