-- ===== src/Records/Sources.antt =====
-- The targets of evidence in src/decision_memory/domain/validation.py: `normalize_target` and
-- `_check_evidence`.
use decision_memory.Prelude.{
  if◌then◌else◌, nat_eq, ◌==◌, pair_eq, list_eq, drop, any, keep, contains, concat_map, enumerate,
  ℕ, Bool, true, false, not, ◌&&◌, ◌||◌, Option, none, some, List, [], ◌∷◌, ◌++◌,
}
use decision_memory.Text.{Text, codes, is_empty, starts_with, ends_with, strip, join}
use decision_memory.Text.Segments.{split_on}
use decision_memory.Records.{
  EvidenceKind, spec, file, commit, error, Violation, Evidence, ValidationContext,
}
use decision_memory.Records.Fields.{violation, listed_members, member_field}

unfoldable pub target_is_not_normalized : Text → Bool
target_is_not_normalized target =
    starts_with target (codes "/")
    || (any (λ part. part == codes "..") (split_on b'/' target) || ends_with target (codes "/"))

-- The parts that are not empty.
abbrev pub nonempty : List Text → List Text
nonempty = keep (λ part. not (is_empty part))

abbrev pub without_dot : Text → Text
without_dot stripped = if starts_with stripped (codes "./") then drop 2 stripped else stripped

unfoldable pub normalize_target : Text → Text
normalize_target target = join (codes "/") (nonempty (split_on b'/' (without_dot (strip target))))

unfoldable pub under_specs_dir : Text → Bool
under_specs_dir normalized = starts_with normalized (codes "docs/specs/")

abbrev pub unresolved : Text → Text → Text → Violation
unresolved field rule reason = violation field error rule reason

-- The cases of the number of commits that begin with a target.
abbrev pub check_matches : Text → Text → List Text → List Violation
check_matches field shown [] =
    unresolved field (codes "evidence.commit_unresolved")
      (codes "commit prefix " ++ (shown ++ codes " matches no known commit"))
    ∷ []
check_matches field shown (match ∷ []) = []
check_matches field shown (match ∷ other ∷ matches) =
    unresolved field (codes "evidence.commit_ambiguous")
      (codes "commit prefix " ++ (shown ++ codes " matches more than one known commit"))
    ∷ []

abbrev pub is_spec : EvidenceKind → Bool
is_spec spec = true
is_spec _ = false

module _ (repr : Text → Text) (c : ValidationContext) where
  abbrev pub check_commit : Text → Text → List Violation
  check_commit field target =
      if c.git_available
      then check_matches field (repr target) (keep (λ k. starts_with k target) c.known_commits)
      else []

  abbrev pub check_path : Text → EvidenceKind → Text → List Violation
  check_path field kind target =
      if target_is_not_normalized target
      then unresolved field (codes "evidence.target_not_normalized")
          (codes "evidence target must be a relative normalized path")
        ∷ []
      else if is_spec kind && not (under_specs_dir (normalize_target target))
      then unresolved field (codes "evidence.spec_outside_specs_dir")
          (codes "spec evidence must resolve under docs/specs/")
        ∷ []
      else if contains c.existing_paths (normalize_target target)
      then []
      else unresolved field (codes "evidence.path_unresolved") (
          codes "evidence target "
          ++ (repr (normalize_target target) ++ codes " is not an existing path"))
        ∷ []

  -- The check of a target that is not blank, by its kind.
  abbrev pub check_target : Text → Option EvidenceKind → Text → List Violation
  check_target field none target = []
  check_target field (some commit) target = check_commit field target
  check_target field (some spec) target = check_path field spec target
  check_target field (some file) target = check_path field file target

  abbrev empty_target : Text → List Violation
  empty_target field =
      unresolved field (codes "evidence.empty_target") (codes "evidence target is empty") ∷ []

  abbrev pub check_source : Text → Option EvidenceKind → Option Text → List Violation
  check_source field kind none = empty_target field
  check_source field kind (some target) =
      if is_empty (strip target) then empty_target field else check_target field kind (strip target)

  abbrev pub check_evidence_item : ℕ × Evidence → List Violation
  check_evidence_item (index, evidence) =
      check_source (member_field (codes "evidence") index (codes ".target")) evidence.kind
        evidence.target

  abbrev pub check_evidence : Option (List Evidence) → List Violation
  check_evidence evidence = concat_map check_evidence_item (enumerate 0 (listed_members evidence))
