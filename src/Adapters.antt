-- ===== src/Adapters.antt =====
-- src/decision_memory/application/adapter.py and corpus_validation.py: what an adapter answers, and
-- what both commands make of it. An operation that raises gives the name of the exception's type and
-- its message; a path is the text of it. `path.relative_to(root)` is a parameter; it raises for a file
-- that is not under the root, which an adapter is to name no file of, and that is left out.
pub mod Adapt
pub mod Corpus
pub mod Rerun
pub mod Agreement
mod Tests
use decision_memory.Prelude.{if◌then◌else◌, nat_eq, pair_eq, list_eq, not, Option, none, List, []}
use decision_memory.Text.{Text, codes, is_empty}
use decision_memory.Records.{CanonicalDecisionRecord, Violation}
use decision_memory.Records.Fields.{has_errors}
use decision_memory.Chunking.Units.{FieldSources}

pub record DiscoveredSpec : Type 0 where
  pub id : Text
  pub corpus_root : Text
  pub contributing_files : List Text

pub record SkippedSource : Type 0 where
  pub path : Text
  pub reason : Text

pub record Collision : Type 0 where
  pub id : Text
  pub paths : List Text
  pub used : Text

pub record DiscoveryResult : Type 0 where
  pub specs : List DiscoveredSpec
  pub skipped : List SkippedSource
  pub collisions : List Collision
  pub corpus_error : Option Text

pub record AdaptationResult : Type 0 where
  pub adapted : Option CanonicalDecisionRecord
  pub violations : List Violation
  pub field_sources : FieldSources

pub record AdapterFailure : Type 0 where
  pub operation : Text
  pub exception_type : Text
  pub message : Text

-- What a call gives: the type and the message of an exception, or a value.
pub data Attempt (A : Type 0) : Type 0 where
  raised : Text → Text → Attempt A
  returned : A → Attempt A

abbrev pub exception_message : Text → Text → Text
exception_message exception_type message = if is_empty message then exception_type else message

abbrev pub failure_of : Text → Text → Text → AdapterFailure
failure_of operation exception_type message = record {
  operation = operation;
  exception_type = exception_type;
  message = exception_message exception_type message;
}

-- `SourceAdapter`
pub record SourceAdapter : Type 0 where
  pub adapter_id : Text
  pub adapter_version : Text
  pub discover : Attempt DiscoveryResult
  pub fingerprint : DiscoveredSpec → Attempt Text
  pub parse : DiscoveredSpec → Attempt AdaptationResult

abbrev pub nothing_discovered : DiscoveryResult
nothing_discovered = record { specs = []; skipped = []; collisions = []; corpus_error = none }

abbrev pub not_a_directory : Text
not_a_directory = codes "corpus path does not exist or is not a directory"
