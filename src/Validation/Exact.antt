-- ===== src/Validation/Exact.antt =====
-- `validate` accepts exactly the well-formed records.
use decision_memory.Prelude.{
  nat_eq, pair_eq, list_eq, NoRepeat, concat_map, In, enumerate, ℕ, ◌≡◌, ◌≢◌, ◌↔◌, ◌⊎◌, Bool, false,
  Option, none, some, option_map, [], ◌++◌,
}
use decision_memory.Text.{Text, codes, text_lt, strip}
use decision_memory.Sorting.{sort_by}
use decision_memory.Records.{
  status_value, Status, error, Alternative, Decision, CanonicalDecisionRecord, ValidationContext,
}
use decision_memory.Records.Fields.{
  has_errors, report, violation, is_missing_str, is_missing_list, listed_members, alternatives_of,
  chosen_of, required, missing_kind, missing_title, check_required, check_id_format,
}
use decision_memory.Records.Sources.{check_evidence}
use decision_memory.Validation.{
  missing_rejection, check_alternatives, check_attempted_fields, check_unknown_fields,
  check_mentions_unresolved, check_git_unavailable, validate,
}
use decision_memory.Validation.Accepts.{
  Clean, Clean-append, Clean-report_error, Clean-report_warning, Clean-warnings, Clean-each,
  Clean-each_total, Clean-both, Clean-after, itself, ↔_trans,
}
use decision_memory.Validation.WellFormed.{Populated, HasChoice, IsDate, IsWellFormed}
use decision_memory.Validation.Sound.{
  is_missing_str-Populated, status_missing, check_id-HasId, check_date_format-IsDate,
  check_rationale-Reason, check_supersedes-Other,
}
use decision_memory.Validation.Cited.{evidence-HasSources}

title_present : (n : ℕ) (a : Alternative) → Clean (missing_title (n, a)) ↔ Populated a.title
title_present n a =
    let k = Clean-report_error (is_missing_str a.title) _ _ _ in
    let p = is_missing_str-Populated a.title in (λ h. p.0 (k.0 h), λ h. k.1 (p.1 h))

choice-HasChoice :
    (field rule reason : Text) (o : Option Decision)
    → (Clean (report (is_missing_str (chosen_of o)) (violation field error rule reason))
        × Clean (concat_map missing_title (enumerate 0 (alternatives_of o))))
      ↔ HasChoice o
unfolding has_errors is_missing_str
choice-HasChoice field rule reason none = (λ h. absurd (let k = h.0 in (cc)), λ h. absurd h)
choice-HasChoice field rule reason (some d) =
    let chosen = Clean-report_error (is_missing_str d.chosen) field rule reason in
    let given = is_missing_str-Populated d.chosen in
    let titles = Clean-each missing_title (λ a. Populated a.title) title_present 0 d.alternatives in
    (λ h. (given.0 (chosen.0 h.0), titles.0 h.1), λ p. (chosen.1 (given.1 p.0), titles.1 p.1))

alternatives-Clean : (o : Option Decision) → Clean (check_alternatives o)
alternatives-Clean o =
    Clean-each_total missing_rejection (λ a. Unit)
      (λ n a. Clean-report_warning (is_missing_str a.rejection_reason) _ _ _) 0 (alternatives_of o)

-- A required text, reported where it is missing.
text_required :
    (o : Option Text) (field name : Text)
    → Clean (report (is_missing_str o) (required field name)) ↔ Populated o
text_required o field name =
    ↔_trans (Clean-report_error (is_missing_str o) _ _ _) (is_missing_str-Populated o)

status_required :
    (o : Option Status) (field name : Text)
    → Clean (report (is_missing_str (option_map status_value o)) (required field name)) ↔ (o ≢ none)
status_required o field name =
    ↔_trans (Clean-report_error (is_missing_str (option_map status_value o)) _ _ _)
      (status_missing o)

module _ (is_decimal : ℕ → Bool) (is_calendar_date : Text → Bool) (repr : Text → Text) where
  -- When the known commits are listed once each, `validate` returns no error exactly for a
  -- well-formed record: an id of the allowed form (a line feed may end it), a title, a status, a
  -- chosen decision whose alternatives have titles, a date that is blank or real, a reason,
  -- evidence each item of which has a kind and a target that exists (a commit by exactly one known
  -- commit when git is available, a path relative, without an upward segment and, for a spec,
  -- under docs/specs/), and an own id that it does not supersede.
  pub validate-IsWellFormed :
      (r : CanonicalDecisionRecord) (c : ValidationContext)
      → NoRepeat c.known_commits
      → (has_errors (validate is_decimal is_calendar_date repr r c) ≡ false)
        ↔ IsWellFormed is_decimal is_calendar_date r c
  unfolding validate
  validate-IsWellFormed r c once = ↔_trans checks (
    λ p.
        let (required_parts, (id, (date, (reason, (other, cited))))) = p in
        let (no_id, (title, (status, (no_choice, (no_evidence, (kinds, titles)))))) =
          required_parts in
        record {
          id = (check_id-HasId repr _ _ _ r.id).0 (no_id, id);
          title = title;
          status = status;
          date = date;
          choice = (choice-HasChoice _ _ _ r.decision).0 (no_choice, titles);
          rationale = reason;
          sources =
              (evidence-HasSources repr c once _ _ _ r.evidence).0 (no_evidence, kinds, cited);
          supersedes = other;
        },
    λ w.
        let (no_id, id) = (check_id-HasId repr _ _ _ r.id).1 w.id in
        let (no_choice, titles) = (choice-HasChoice _ _ _ r.decision).1 w.choice in
        let (no_evidence, kinds, cited) =
          (evidence-HasSources repr c once _ _ _ r.evidence).1 w.sources in
        (
          (no_id, (w.title, (w.status, (no_choice, (no_evidence, (kinds, titles)))))),
          (id, (w.date, (w.rationale, (w.supersedes, cited)))),
        ),
  )
    where
      warnings : Clean (
          check_attempted_fields c.attempted_fields
          ++ (check_unknown_fields c.unknown_fields
              ++ (check_mentions_unresolved c.unresolved_mention_count
                  ++ check_git_unavailable c.git_available (listed_members r.evidence))))
      warnings = (Clean-append (check_attempted_fields c.attempted_fields) _).1 (
        Clean-warnings _ _ _ (sort_by text_lt c.attempted_fields),
        (Clean-append (check_unknown_fields c.unknown_fields) _).1 (
          Clean-warnings _ _ _ (sort_by text_lt c.unknown_fields),
          (Clean-append (check_mentions_unresolved c.unresolved_mention_count) _).1
              (Clean-report_warning _ _ _ _, Clean-report_warning _ _ _ _),
        ),
      )

      checks : Clean (validate is_decimal is_calendar_date repr r c) ↔ (
          (Clean (report (is_missing_str r.id) (required (codes "id") (codes "id")))
            × (Populated r.title
                × ((r.status ≢ none)
                    × (Clean (
                          report
                            (is_missing_str (chosen_of r.decision))
                            (required (codes "decision.chosen") (codes "decision.chosen")))
                        × (Clean (
                              report
                                (is_missing_list r.evidence)
                                (required (codes "evidence") (codes "evidence")))
                            × (Clean (
                                  concat_map missing_kind (enumerate 0 (listed_members r.evidence)))
                                × Clean (
                                    concat_map missing_title
                                      (enumerate 0 (alternatives_of r.decision)))))))))
          × (Clean (check_id_format repr r.id)
              × (IsDate is_decimal is_calendar_date r.date
                  × ((((w : Text) × In w r.why × (strip w ≢ [])) ⊎ Populated r.rationale_summary)
                      × ((¬ ((t : Text) × (r.supersedes ≡ some t) × (r.id ≡ some t)))
                          × Clean (check_evidence repr c r.evidence))))))
      checks =
          Clean-both (check_required r) _
            (Clean-both (report (is_missing_str r.id) (required (codes "id") (codes "id"))) _ itself
              (Clean-both _ _ (text_required r.title (codes "title") (codes "title")) (
                Clean-both _ _ (status_required r.status (codes "status") (codes "status")) (
                  Clean-both
                    (report (is_missing_str (chosen_of r.decision))
                      (required (codes "decision.chosen") (codes "decision.chosen")))
                    _ itself
                    (Clean-both
                      (report (is_missing_list r.evidence)
                        (required (codes "evidence") (codes "evidence")))
                      _ itself
                      (Clean-both
                        (concat_map missing_kind (enumerate 0 (listed_members r.evidence)))
                        (concat_map missing_title (enumerate 0 (alternatives_of r.decision))) itself
                        itself))))))
            (Clean-both (check_id_format repr r.id) _ itself (
              Clean-both _ _ (check_date_format-IsDate is_decimal is_calendar_date repr r.date) (
                Clean-both _ _ (check_rationale-Reason r.why r.rationale_summary) (
                  Clean-after _ _ (alternatives-Clean r.decision) (
                    Clean-both _ _ (check_supersedes-Other r.supersedes r.id) (
                      λ h. ((Clean-append (check_evidence repr c r.evidence) _).0 h).0,
                      λ h. (Clean-append (check_evidence repr c r.evidence) _).1 (h, warnings),
                    ))))))
