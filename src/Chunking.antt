-- ===== src/Chunking.antt =====
-- src/decision_memory/application/chunking.py: `chunk_record`, over the units of a record, the packing
-- of their paragraphs and the overlap. The token counter, `int(n * 0.15)`, `sha256_hex` and
-- `canonical_json` are parameters.
pub mod Sentences
pub mod Packing
pub mod Overlap
pub mod Units
pub mod Plans
mod Tests
use decision_memory.Prelude.{
  ltb, nat_eq, pair_eq, list_eq, enumerate, ℕ, true, false, none, some, List, [], ◌∷◌, ◌++◌,
}
use decision_memory.Text.{Text, codes, split, join}
use decision_memory.Dto.{ChunkPlan}
use decision_memory.Gate.{model_token_limit}
use decision_memory.Records.{CanonicalDecisionRecord}
use decision_memory.Chunking.Sentences.{paragraphs}
use decision_memory.Chunking.Packing.{pack_paragraphs}
use decision_memory.Chunking.Overlap.{apply_overlap}
use decision_memory.Chunking.Units.{FieldSources, or_empty, chunkable_units, ChunkUnit}

-- The members of the list that a chunk id is the digest of.
pub data Payload : Type 0 where
  text_item : Text → Payload
  number_item : ℕ → Payload

-- The title with single spaces, the value path, and the text of the chunk.
unfoldable pub embedding_input : Text → Text → Text → Text
embedding_input title value_path chunk_text =
    codes "Record title: "
    ++ (join (codes " ") (split title)
        ++ (10 ∷ (codes "Value path: " ++ (value_path ++ (10 ∷ 10 ∷ chunk_text)))))

pub data ChunkingError : Type 0 where
  no_id : ChunkingError
  oversize_input : Text → ℕ → ℕ → ChunkingError

pub data Chunked : Type 0 where
  refused : ChunkingError → Chunked
  planned : List ChunkPlan → Chunked

-- `plans.append(plan)` before the rest of the loop, and the plans of a unit before those of the rest.
abbrev pub prepend : List ChunkPlan → Chunked → Chunked
prepend plans (refused e) = refused e
prepend plans (planned more) = planned (plans ++ more)

abbrev pub and_then : Chunked → Chunked → Chunked
and_then (refused e) rest = refused e
and_then (planned plans) rest = prepend plans rest

module _ (count_tokens : Text → ℕ) (share : ℕ → ℕ) (target : ℕ) (sha256_hex : Text → Text)
    (canonical_json : List Payload → Text) where
  abbrev pub chunk_id : Text → Text → Text → Text → ℕ → Text
  chunk_id generation_id record_id fingerprint value_path ordinal =
      codes "ch_"
      ++ sha256_hex (
          canonical_json (
            text_item (codes "chunk-v1")
            ∷ text_item generation_id
            ∷ text_item record_id
            ∷ text_item fingerprint
            ∷ text_item value_path
            ∷ number_item ordinal
            ∷ []))

  abbrev pub pieces_of : ChunkUnit → List Text
  pieces_of u =
      apply_overlap count_tokens share (pack_paragraphs count_tokens target (paragraphs u.text))

  module _ (title generation_id fingerprint record_id : Text) where
    abbrev pub plan_of : ChunkUnit → ℕ × Text → ChunkPlan
    plan_of u (ordinal, chunk_text) = record {
      chunk_id = chunk_id generation_id record_id fingerprint u.value_path ordinal;
      record_id = record_id;
      fingerprint = fingerprint;
      value_path = u.value_path;
      ordinal = ordinal;
      text = chunk_text;
      evidence_token_count = count_tokens chunk_text;
      embedding_input_token_count = count_tokens (embedding_input title u.value_path chunk_text);
      sources = u.sources;
    }

    abbrev pub plan_pieces : ChunkUnit → List (ℕ × Text) → Chunked
    plan_pieces u [] = planned []
    plan_pieces u ((ordinal, chunk_text) ∷ pieces) =
        elim (ltb model_token_limit
          (count_tokens (embedding_input title u.value_path chunk_text))) [
            | true ↦ refused (
                oversize_input u.value_path ordinal
                  (count_tokens (embedding_input title u.value_path chunk_text)))
            | false ↦ prepend (plan_of u (ordinal, chunk_text) ∷ []) (plan_pieces u pieces)
          ]

    abbrev pub plan_units : List ChunkUnit → Chunked
    plan_units [] = planned []
    plan_units (u ∷ us) = and_then (plan_pieces u (enumerate 0 (pieces_of u))) (plan_units us)

  unfoldable pub chunk_record : CanonicalDecisionRecord → FieldSources → Text → Text → Chunked
  chunk_record r field_sources generation_id fingerprint = elim r.id [
    | none ↦ refused no_id
    | some id ↦
        plan_units (or_empty r.title) generation_id fingerprint id (chunkable_units field_sources r)
  ]
