-- ===== src/Validation/Tests.antt =====
-- Runs of the validation of records on concrete inputs, and its theorems there.
use decision_memory.Prelude.{
  leb, nat_eq, ◌==◌, pair_eq, list_eq, All, ℕ, ◌≡◌, refl, ◌↔◌, Bool, true, false, ◌&&◌, Option,
  none, some, List, [], ◌∷◌, ◌++◌, map,
}
use decision_memory.Text.{Text, codes, is_space, strip, join}
use decision_memory.Text.Segments.{decimal}
use decision_memory.Sorting.{sort_by}
use decision_memory.Records.{
  status_value, accepted, EvidenceKind, spec, commit, Violation, Evidence, CanonicalDecisionRecord,
  ValidationContext, ParseResult,
}
use decision_memory.Records.Fields.{has_errors, is_missing_str, is_missing_list, id_pattern}
use decision_memory.Records.Sources.{target_is_not_normalized, normalize_target, under_specs_dir}
use decision_memory.Validation.{date_pattern, validate}
use decision_memory.Validation.WellFormed.{IsWellFormed}
use decision_memory.Validation.Exact.{validate-IsWellFormed}
use decision_memory.Validation.Paths.{IsSegment, normalize_target-Segments}
use decision_memory.Validation.Service.{
  resolve_project_root, context_of, validate_file, validate_file-IsWellFormed, GitRun, ended,
}

decimal_120 : decimal 120 ≡ codes "120"
unfolding decimal
decimal_120 = refl

-- An id that ends in a line feed passes the check of its form.
id_newline : id_pattern (codes "rec-1" ++ 10 ∷ []) ≡ true
unfolding id_pattern
id_newline = refl

abbrev ascii_digit : ℕ → Bool
ascii_digit c = leb b'0' c && leb c b'9'

abbrev any_date : Text → Bool
any_date date = true

abbrev plain_repr : Text → Text
plain_repr t = t

abbrev cites : EvidenceKind → Text → Evidence
cites kind target = record { kind = some kind; target = some target; note = none }

abbrev sample : Option Text → CanonicalDecisionRecord
sample supersedes = record {
  id = some (codes "r1");
  title = some (codes "Use SQLite");
  status = some accepted;
  date = some (codes "2025-01-02");
  body = none;
  context = none;
  decision = some (record { chosen = some (codes "SQLite"); alternatives = [] });
  why = codes "It is small." ∷ [];
  rationale_summary = none;
  consequences = none;
  evidence = some (cites spec (codes "docs/specs/a.md") ∷ cites commit (codes "ab") ∷ []);
  tags = [];
  supersedes = supersedes;
}

abbrev surroundings : List Text → ValidationContext
surroundings commits = record {
  attempted_fields = codes "body" ∷ [];
  unknown_fields = [];
  existing_paths = codes "docs/specs/a.md" ∷ [];
  known_commits = commits;
  git_available = true;
  unresolved_mention_count = 0;
}

abbrev rules : List Violation → List Text
rules = map (λ v. v.rule)

accepted_record :
    rules (validate ascii_digit any_date plain_repr (sample none) (surroundings (codes "abc" ∷ [])))
    ≡ codes "field.attempted_unfilled" ∷ []
unfolding validate is_missing_str is_missing_list status_value id_pattern date_pattern
    normalize_target target_is_not_normalized under_specs_dir decimal sort_by is_space
accepted_record = refl

refused_record :
    rules (
      validate ascii_digit any_date plain_repr
        (sample (some (codes "r1")))
        (surroundings (codes "abc" ∷ codes "abd" ∷ [])))
    ≡ codes "supersedes.self_reference"
      ∷ codes "evidence.commit_ambiguous"
      ∷ codes "field.attempted_unfilled"
      ∷ []
unfolding validate is_missing_str is_missing_list status_value id_pattern date_pattern
    normalize_target target_is_not_normalized under_specs_dir decimal sort_by is_space
refused_record = refl

validate-IsWellFormed_example :
    (has_errors
        (validate ascii_digit any_date plain_repr (sample none) (surroundings (codes "abc" ∷ [])))
      ≡ false)
    ↔ IsWellFormed ascii_digit any_date (sample none) (surroundings (codes "abc" ∷ []))
validate-IsWellFormed_example =
    validate-IsWellFormed ascii_digit any_date plain_repr (sample none)
      (surroundings (codes "abc" ∷ [])) (refl, tt)

normalize_target-Segments_example :
    (parts : List Text) × (normalize_target (strip (codes " ./docs//a.md"))
      ≡ join (codes "/") parts)
    × All IsSegment parts
unfolding target_is_not_normalized is_space
normalize_target-Segments_example = normalize_target-Segments (codes " ./docs//a.md") refl

-- A file in a directory, its directories from the inside as texts.
abbrev repository : Text → Bool
repository directory = directory == codes "/r"

abbrev one_commit : Text → GitRun
one_commit root = ended 0 (codes "abc" ∷ [] ∷ [])

abbrev one_target : CanonicalDecisionRecord → Text → List Text
one_target r root = codes "docs/specs/a.md" ∷ []

abbrev parsed_file : ParseResult
parsed_file = record { parsed = some (sample none); violations = []; unknown_fields = [] }

validate_file-IsWellFormed_example :
    ((validate_file
        (λ path. path)
        repository
        ascii_digit
        any_date
        plain_repr
        one_commit
        one_target
        parsed_file
        none
        (codes "/r/d" ∷ codes "/r" ∷ [])
        (codes "/r/d")).exit_code
      ≡ 0)
    ↔ ((r : CanonicalDecisionRecord) × (parsed_file.parsed ≡ some r)
        × (has_errors parsed_file.violations ≡ false)
        × IsWellFormed ascii_digit any_date r (
            context_of
              (λ path. path)
              repository
              ascii_digit
              any_date
              plain_repr
              one_commit
              one_target
              parsed_file
              r
              (resolve_project_root
                (λ path. path)
                repository
                none
                (codes "/r/d" ∷ codes "/r" ∷ [])
                (codes "/r/d"))))
validate_file-IsWellFormed_example =
    validate_file-IsWellFormed (λ path. path) repository ascii_digit any_date plain_repr one_commit
      one_target parsed_file none (codes "/r/d" ∷ codes "/r" ∷ []) (codes "/r/d")
