-- ===== src/Validation/Service.antt =====
-- `validate_file` of src/decision_memory/application/validation_service.py. The reader of the file,
-- the resolver of its targets, the directories above it and the answer of git are parameters.
use decision_memory.Prelude.{
  nat_beq, if◌then◌else◌, Bool-cases, some_inj, nat_eq, pair_eq, list_eq, keep, distinct, NoRepeat,
  distinct-NoRepeat, ℕ, ◌≡◌, refl, sym, subst, ◌↔◌, inl, inr, Bool, true, false, not, Option, none,
  some, List, [], ◌∷◌, ◌++◌, map, arith,
}
use decision_memory.Text.{Text, is_empty, strip}
use decision_memory.Records.{Violation, CanonicalDecisionRecord, ValidationContext, ParseResult}
use decision_memory.Records.Fields.{has_errors}
use decision_memory.Validation.{validate}
use decision_memory.Validation.Accepts.{Clean-append}
use decision_memory.Validation.WellFormed.{IsWellFormed}
use decision_memory.Validation.Exact.{validate-IsWellFormed}

abbrev pub exit_unparseable : ℕ
exit_unparseable = 3

pub record ValidationOutcome : Type 0 where
  pub violations : List Violation
  pub exit_code : ℕ

-- `git rev-list --all`: it could not be run, or it ended with a code and lines of output.
pub data GitRun : Type 0 where
  not_run : GitRun
  ended : ℕ → List Text → GitRun

-- The lines that are not blank, as a set.
abbrev pub commits_of : List Text → List Text
commits_of lines = distinct (map strip (keep (λ line. not (is_empty (strip line))) lines))

abbrev pub known_commits_of : GitRun → List Text × Bool
known_commits_of not_run = ([], false)
known_commits_of (ended code lines) =
    if nat_beq code 0 then (commits_of lines, true) else ([], false)

-- The commits of a directory with git, and whether git is available.
abbrev pub query_known_commits : Bool → GitRun → List Text × Bool
query_known_commits has_git git_run = if has_git then known_commits_of git_run else ([], false)

exit_zero : (t : Bool) → (if◌then◌else◌ {A = ℕ} t 1 0 ≡ 0) ↔ (t ≡ false)
exit_zero true = (λ h. absurd (omega arith), λ h. absurd (cc))
exit_zero false = (λ h. refl, λ h. refl)

module _ {Path_ : Type 0} (resolve : Path_ → Path_) (has_git : Path_ → Bool) where
  abbrev pub nearest : List Path_ → Path_ → Path_
  nearest [] parent = parent
  nearest (directory ∷ directories) parent =
      if has_git directory then directory else nearest directories parent

  abbrev pub resolve_project_root : Option Path_ → List Path_ → Path_ → Path_
  resolve_project_root (some override) above parent = resolve override
  resolve_project_root none above parent = nearest above parent

  module _ (is_decimal : ℕ → Bool) (is_calendar_date : Text → Bool) (repr : Text → Text)
      (git : Path_ → GitRun) (resolver : CanonicalDecisionRecord → Path_ → List Text) where
    abbrev pub context_of : ParseResult → CanonicalDecisionRecord → Path_ → ValidationContext
    context_of result r root = record {
      attempted_fields = [];
      unknown_fields = result.unknown_fields;
      existing_paths = resolver r root;
      known_commits = (query_known_commits (has_git root) (git root)).0;
      git_available = (query_known_commits (has_git root) (git root)).1;
      unresolved_mention_count = 0;
    }

    abbrev pub validate_parsed :
        ParseResult → Option CanonicalDecisionRecord → Path_ → ValidationOutcome
    validate_parsed result none root = record {
      violations = result.violations;
      exit_code = exit_unparseable;
    }
    validate_parsed result (some r) root =
        let violations =
          result.violations
          ++ validate is_decimal is_calendar_date repr r (context_of result r root) in
        record { violations = violations; exit_code = if has_errors violations then 1 else 0 }

    -- The file and the directories above it are `above`, and `parent` the one that it stands in.
    unfoldable pub validate_file :
        ParseResult → Option Path_ → List Path_ → Path_ → ValidationOutcome
    validate_file result override above parent =
        validate_parsed result result.parsed (resolve_project_root override above parent)

    known_commits_once :
        (is_there : Bool) (run : GitRun) → NoRepeat (query_known_commits is_there run).0
    known_commits_once false run = tt
    known_commits_once true not_run = tt
    known_commits_once true (ended code lines) = elim (Bool-cases (nat_beq code 0)) [
      | inl good ↦
          rw good (distinct-NoRepeat (map strip (keep (λ line. not (is_empty (strip line))) lines)))
      | inr bad ↦ rw bad tt
    ]

    -- The command exits with zero exactly when the file has a record, the reader found no error, and
    -- the record is well formed for the root, its commits and the targets that exist there.
    pub validate_file-IsWellFormed :
        (result : ParseResult) (override : Option Path_) (above : List Path_) (parent : Path_)
        → ((validate_file result override above parent).exit_code ≡ 0) ↔ (
            (r : CanonicalDecisionRecord) × (result.parsed ≡ some r)
            × (has_errors result.violations ≡ false)
            × IsWellFormed is_decimal is_calendar_date r
                (context_of result r (resolve_project_root override above parent)))
    unfolding validate_file
    validate_file-IsWellFormed result override above parent = by_record result.parsed
      where
        root : Path_
        root = resolve_project_root override above parent

        by_record :
            (o : Option CanonicalDecisionRecord)
            → ((validate_parsed result o root).exit_code ≡ 0) ↔ (
                (r : CanonicalDecisionRecord) × (o ≡ some r)
                × (has_errors result.violations ≡ false)
                × IsWellFormed is_decimal is_calendar_date r (context_of result r root))
        by_record none = (λ h. absurd (omega arith), λ p. absurd (let e = p.1 in (cc)))
        by_record (some r) =
            let found = validate is_decimal is_calendar_date repr r (context_of result r root) in
            let both = Clean-append result.violations found in
            let once = known_commits_once (has_git root) (git root) in
            let exact =
              validate-IsWellFormed is_decimal is_calendar_date repr r (context_of result r root)
                once in
            let zero_exit = exit_zero (has_errors (result.violations ++ found)) in
            (
              λ h. let (a, b) = both.0 (zero_exit.0 h) in (r, refl, a, exact.0 b),
              λ p.
                  let (r', e, a, w) = p in
                  let same : r ≡ r' = some_inj e in
                  let w' =
                    subst
                      (λ x. IsWellFormed is_decimal is_calendar_date x (context_of result x root))
                      (sym same) w in
                  zero_exit.1 (both.1 (a, exact.1 w')),
            )
