-- ===== src/Dto.antt =====
-- src/decision_memory/application/dto.py and the source reference of canonical.py: the records that
-- the query and ingest paths pass on. Every `str` is a `Text`, a tuple is a list, and an optional
-- field is an `Option`. A `float` is of the type `F`.

use decision_memory.Prelude.{nat_eq, pair_eq, list_eq, ℕ, Option, List}
use decision_memory.Text.{Text}

pub record SourceReference : Type 0 where
  pub path : Text
  pub section : Text

pub data FilterState : Type 0 where
  accepted excluded : FilterState

pub data FilterExclusionReason : Type 0 where
  record_id status tag value_path : FilterExclusionReason

pub record QueryFilters : Type 0 where
  pub record_ids : List Text
  pub statuses : List Text
  pub tags : List Text
  pub value_paths : List Text

pub record ActiveChunkDescriptor : Type 0 where
  pub chunk_id : Text
  pub record_id : Text
  pub record_title : Text
  pub record_status : Option Text
  pub record_tags : List Text
  pub value_path : Text
  pub fingerprint : Text
  pub ordinal : ℕ
  pub text : Text
  pub provenance : List SourceReference

pub record FilterRow : Type 0 where
  pub chunk_id : Text
  pub record_id : Text
  pub record_status : Option Text
  pub record_tags : List Text
  pub value_path : Text
  pub state : FilterState
  pub exclusion_reasons : List FilterExclusionReason

pub data LexicalDisposition : Type 0 where
  no_term_match nonpositive_score ranked outside_top_24 : LexicalDisposition

pub data SemanticDisposition : Type 0 where
  ranked outside_top_24 : SemanticDisposition

pub data BreadthDisposition : Type 0 where
  accepted record_cap accepted_limit_reached : BreadthDisposition

pub data SelectionPass : Type 0 where
  breadth fill : SelectionPass

pub data FinalDisposition : Type 0 where
  accepted outside_top_8 : FinalDisposition

pub record LexicalRow (F : Type 0) : Type 0 where
  pub chunk_id : Text
  pub score : F
  pub rank : Option ℕ
  pub disposition : LexicalDisposition

pub record SemanticRow (F : Type 0) : Type 0 where
  pub chunk_id : Text
  pub rank : ℕ
  pub distance : F
  pub similarity : F
  pub disposition : SemanticDisposition

pub record FusedCandidate (F : Type 0) : Type 0 where
  pub chunk_id : Text
  pub record_id : Text
  pub value_path : Text
  pub fingerprint : Text
  pub ordinal : ℕ
  pub text : Text
  pub provenance : List SourceReference
  pub lexical_rank : Option ℕ
  pub semantic_rank : Option ℕ
  pub fused_score : F
  pub fused_rank : ℕ
  pub breadth_disposition : BreadthDisposition
  pub selection_pass : Option SelectionPass
  pub final_rank : Option ℕ
  pub final_disposition : FinalDisposition

-- One planned chunk of one record.
pub record ChunkPlan : Type 0 where
  pub chunk_id : Text
  pub record_id : Text
  pub fingerprint : Text
  pub value_path : Text
  pub ordinal : ℕ
  pub text : Text
  pub evidence_token_count : ℕ
  pub embedding_input_token_count : ℕ
  pub sources : List SourceReference
