-- ===== src/Records/Fields.antt =====
-- What the checks of src/decision_memory/domain/validation.py share, and those of the required
-- fields and of the form of the id. A check returns the violations that it appends.
use decision_memory.Prelude.{
  leb, nat_beq, if◌then◌else◌, nat_eq, pair_eq, list_eq, any, concat_map, is_some, enumerate, ℕ,
  Bool, true, false, not, ◌&&◌, ◌||◌, Option, none, some, option_map, List, [], ◌∷◌, ◌++◌,
}
use decision_memory.Text.{Text, codes, is_empty, strip}
use decision_memory.Text.Segments.{decimal}
use decision_memory.Records.{
  status_value, EvidenceKind, commit, Severity, error, warning, Violation, Alternative, Decision,
  Evidence, CanonicalDecisionRecord,
}

-- Equality with a kind, and with a severity.
abbrev pub is_commit : Option EvidenceKind → Bool
is_commit (some commit) = true
is_commit _ = false

abbrev pub is_error : Violation → Bool
is_error v = elim v.severity [ error ↦ true | warning ↦ false ]

unfoldable pub has_errors : List Violation → Bool
has_errors = any is_error

-- One violation where the test holds.
abbrev pub report : Bool → Violation → List Violation
report t v = if t then v ∷ [] else []

abbrev pub violation : Text → Severity → Text → Text → Violation
violation field severity rule reason = record {
  field = field;
  severity = severity;
  rule = rule;
  reason = reason;
}

unfoldable pub is_missing_str : Option Text → Bool
is_missing_str none = true
is_missing_str (some value) = is_empty (strip value)

unfoldable pub is_missing_list {ℓ} : {A : Type ℓ} → Option (List A) → Bool
is_missing_list none = true
is_missing_list (some value) = is_empty value

-- The members of an optional list, and of the alternatives of an optional decision.
abbrev pub listed_members {ℓ} : {A : Type ℓ} → Option (List A) → List A
listed_members none = []
listed_members (some xs) = xs

abbrev pub alternatives_of : Option Decision → List Alternative
alternatives_of none = []
alternatives_of (some d) = d.alternatives

abbrev pub chosen_of : Option Decision → Option Text
chosen_of none = none
chosen_of (some d) = d.chosen

-- `f"{before}[{index}]{after}"`
abbrev pub member_field : Text → ℕ → Text → Text
member_field before index after = before ++ (codes "[" ++ (decimal index ++ (codes "]" ++ after)))

abbrev pub required : Text → Text → Violation
required field name =
    violation field error (codes "required.missing") (name ++ codes " is required")

abbrev pub missing_kind : ℕ × Evidence → List Violation
missing_kind (index, evidence) =
    report (not (is_some evidence.kind))
      (required (member_field (codes "evidence") index (codes ".kind")) (codes "evidence kind"))

abbrev pub missing_title : ℕ × Alternative → List Violation
missing_title (index, alternative) = report (is_missing_str alternative.title) (
    required (member_field (codes "decision.alternatives") index (codes ".title"))
      (codes "alternative title"))

abbrev pub check_required : CanonicalDecisionRecord → List Violation
check_required r =
    report (is_missing_str r.id) (required (codes "id") (codes "id"))
    ++ (report (is_missing_str r.title) (required (codes "title") (codes "title"))
        ++ (report (is_missing_str (option_map status_value r.status))
              (required (codes "status") (codes "status"))
            ++ (report (is_missing_str (chosen_of r.decision))
                  (required (codes "decision.chosen") (codes "decision.chosen"))
                ++ (report (is_missing_list r.evidence)
                      (required (codes "evidence") (codes "evidence"))
                    ++ (concat_map missing_kind (enumerate 0 (listed_members r.evidence))
                        ++ concat_map missing_title (enumerate 0 (alternatives_of r.decision)))))))

-- `_ID_PATTERN.match`: `$` also stands before a line feed that ends the text.
abbrev pub alphanumeric : ℕ → Bool
alphanumeric c = leb b'A' c && leb c b'Z' || (leb b'a' c && leb c b'z' || leb b'0' c && leb c b'9')

abbrev pub id_char : ℕ → Bool
id_char c = alphanumeric c || (nat_beq c b'.' || (nat_beq c b'_' || nat_beq c b'-'))

abbrev pub ends_here : Text → Bool
ends_here [] = true
ends_here (c ∷ s) = nat_beq c 10 && is_empty s

abbrev pub id_tail : Text → Bool
id_tail [] = true
id_tail (c ∷ s) = let rest = id_tail s in if id_char c then rest else ends_here (c ∷ s)

unfoldable pub id_pattern : Text → Bool
id_pattern [] = false
id_pattern (c ∷ s) = alphanumeric c && id_tail s

abbrev pub check_id_format : (Text → Text) → Option Text → List Violation
check_id_format repr none = []
check_id_format repr (some id) = report (not (is_missing_str (some id)) && not (id_pattern id)) (
    violation (codes "id") error (codes "id.malformed")
      (codes "id " ++ (repr id ++ codes " does not match the required format")))
