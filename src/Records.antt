-- ===== src/Records.antt =====
-- The record types of src/decision_memory/domain/records.py. An absent value is `none`, a frozenset
-- is the list of its members.
pub mod Fields
pub mod Sources
use decision_memory.Prelude.{nat_eq, pair_eq, list_eq, ℕ, Bool, Option, List}
use decision_memory.Text.{Text, codes}

-- `Status` and its values, `EvidenceKind` and `Severity`.
pub data Status : Type 0 where
  proposed accepted superseded rejected : Status

unfoldable pub status_value : Status → Text
status_value proposed = codes "proposed"
status_value accepted = codes "accepted"
status_value superseded = codes "superseded"
status_value rejected = codes "rejected"

pub data EvidenceKind : Type 0 where
  spec file commit : EvidenceKind

pub data Severity : Type 0 where
  error warning : Severity

pub record Violation : Type 0 where
  pub field : Text
  pub severity : Severity
  pub rule : Text
  pub reason : Text

pub record Context : Type 0 where
  pub problem : Option Text
  pub triggering_change : Option Text

pub record Alternative : Type 0 where
  pub title : Option Text
  pub rejection_reason : Option Text

pub record Decision : Type 0 where
  pub chosen : Option Text
  pub alternatives : List Alternative

pub record Consequences : Type 0 where
  pub positive : List Text
  pub negative : List Text

pub record Evidence : Type 0 where
  pub kind : Option EvidenceKind
  pub target : Option Text
  pub note : Option Text

pub record CanonicalDecisionRecord : Type 0 where
  pub id : Option Text
  pub title : Option Text
  pub status : Option Status
  pub date : Option Text
  pub body : Option Text
  pub context : Option Context
  pub decision : Option Decision
  pub why : List Text
  pub rationale_summary : Option Text
  pub consequences : Option Consequences
  pub evidence : Option (List Evidence)
  pub tags : List Text
  pub supersedes : Option Text

pub record ValidationContext : Type 0 where
  pub attempted_fields : List Text
  pub unknown_fields : List Text
  pub existing_paths : List Text
  pub known_commits : List Text
  pub git_available : Bool
  pub unresolved_mention_count : ℕ

-- What reading a record file gives.
pub record ParseResult : Type 0 where
  pub parsed : Option CanonicalDecisionRecord
  pub violations : List Violation
  pub unknown_fields : List Text
