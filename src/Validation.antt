-- ===== src/Validation.antt =====
-- `validate` of src/decision_memory/domain/validation.py: the checks in the order of its calls. The
-- decimal digits of a regular expression, `date.fromisoformat` and `repr` are parameters.
pub mod Accepts
pub mod WellFormed
pub mod Sound
pub mod Cited
pub mod Paths
pub mod Exact
pub mod Service
mod Tests
use decision_memory.Prelude.{
  ltb, nat_beq, if◌then◌else◌, nat_eq, ◌==◌, pair_eq, list_eq, any, concat_map, enumerate, ℕ, zero,
  suc, Bool, false, not, ◌&&◌, Option, none, some, List, [], ◌∷◌, ◌++◌, map,
}
use decision_memory.Text.{Text, codes, is_empty, text_lt, strip}
use decision_memory.Text.Segments.{decimal}
use decision_memory.Sorting.{sort_by}
use decision_memory.Records.{
  commit, error, warning, Violation, Alternative, Decision, Evidence, CanonicalDecisionRecord,
  ValidationContext,
}
use decision_memory.Records.Fields.{
  is_commit, report, violation, is_missing_str, listed_members, alternatives_of, member_field,
  check_required, ends_here, check_id_format,
}
use decision_memory.Records.Sources.{check_evidence}

abbrev pub is_populated : Text → Bool
is_populated item = not (is_empty (strip item))

abbrev pub check_rationale : List Text → Option Text → List Violation
check_rationale why rationale_summary =
    report (not (any is_populated why) && is_missing_str rationale_summary) (
      violation [] error (codes "rationale.missing")
        (codes "at least one of why or rationale_summary must be populated"))

abbrev pub missing_rejection : ℕ × Alternative → List Violation
missing_rejection (index, alternative) = report (is_missing_str alternative.rejection_reason) (
    violation (member_field (codes "decision.alternatives") index (codes ".rejection_reason"))
      warning (codes "alternative.missing_rejection_reason")
      (codes "alternative has no rejection reason"))

abbrev pub check_alternatives : Option Decision → List Violation
check_alternatives decision = concat_map missing_rejection (enumerate 0 (alternatives_of decision))

abbrev pub supersedes_itself : Option Text → Option Text → Bool
supersedes_itself (some supersedes) (some id) = supersedes == id
supersedes_itself _ _ = false

abbrev pub check_supersedes : Option Text → Option Text → List Violation
check_supersedes supersedes id = report (supersedes_itself supersedes id) (
    violation (codes "supersedes") error (codes "supersedes.self_reference")
      (codes "supersedes must not equal this record's own id"))

abbrev pub check_attempted_fields : List Text → List Violation
check_attempted_fields fields =
    map
      (λ field.
        violation field warning (codes "field.attempted_unfilled")
          (codes "field " ++ (field ++ codes " was attempted but not populated")))
      (sort_by text_lt fields)

abbrev pub check_unknown_fields : List Text → List Violation
check_unknown_fields fields =
    map (λ field. violation field warning (codes "field.unknown") (codes "unknown field " ++ field))
      (sort_by text_lt fields)

abbrev pub check_mentions_unresolved : ℕ → List Violation
check_mentions_unresolved count = report (ltb 0 count) (
    violation (codes "evidence") warning (codes "evidence.mentions_unresolved")
      (decimal count ++ codes " code path mentions did not resolve"))

abbrev pub check_git_unavailable : Bool → List Evidence → List Violation
check_git_unavailable git_available evidence =
    report (not git_available && any (λ item. is_commit item.kind) evidence) (
      violation [] warning (codes "context.git_unavailable")
        (codes "git history is unavailable, commit evidence resolution was skipped"))

module _ (is_decimal : ℕ → Bool) where
  -- `_DATE_PATTERN.match`
  abbrev pub digits_then : ℕ → (Text → Bool) → Text → Bool
  digits_then zero rest s = rest s
  digits_then (suc n) rest [] = false
  digits_then (suc n) rest (c ∷ s) = is_decimal c && digits_then n rest s

  abbrev pub dash_then : (Text → Bool) → Text → Bool
  dash_then rest [] = false
  dash_then rest (c ∷ s) = nat_beq c b'-' && rest s

  unfoldable pub date_pattern : Text → Bool
  date_pattern = digits_then 4 (dash_then (digits_then 2 (dash_then (digits_then 2 ends_here))))

module _ (is_decimal : ℕ → Bool) (is_calendar_date : Text → Bool) (repr : Text → Text) where
  abbrev pub check_date_format : Option Text → List Violation
  check_date_format none = []
  check_date_format (some date) =
      if is_empty (strip date)
      then []
      else if not (date_pattern is_decimal date)
      then malformed (codes " is not a valid YYYY-MM-DD date")
      else report (not (is_calendar_date date))
          (malformed_date (codes " is not a real calendar date"))
    where
      malformed_date : Text → Violation
      malformed_date what =
          violation (codes "date") error (codes "date.malformed")
            (codes "date " ++ (repr date ++ what))

      malformed : Text → List Violation
      malformed what = malformed_date what ∷ []

  unfoldable pub validate : CanonicalDecisionRecord → ValidationContext → List Violation
  validate r c =
      check_required r
      ++ (check_id_format repr r.id
          ++ (check_date_format r.date
              ++ (check_rationale r.why r.rationale_summary
                  ++ (check_alternatives r.decision
                      ++ (check_supersedes r.supersedes r.id
                          ++ (check_evidence repr c r.evidence
                              ++ (check_attempted_fields c.attempted_fields
                                  ++ (check_unknown_fields c.unknown_fields
                                      ++ (check_mentions_unresolved c.unresolved_mention_count
                                          ++ check_git_unavailable c.git_available
                                              (listed_members r.evidence))))))))))
