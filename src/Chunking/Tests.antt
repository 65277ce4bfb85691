-- ===== src/Chunking/Tests.antt =====
-- Runs of the chunking on concrete inputs, and its theorems there.
use Prim.Native.Nat.{max}
use decision_memory.Prelude.{
  nat_eq, pair_eq, list_eq, length, All, concat_map, ℕ, ◌*◌, ◌/◌, ◌≡◌, refl, ◌≢◌, ◌↔◌, ◌⊎◌, none,
  some, List, [], ◌∷◌, ◌++◌, map,
}
use decision_memory.Text.{Text, codes, is_space}
use decision_memory.Text.Segments.{decimal}
use decision_memory.Dto.{ChunkPlan}
use decision_memory.Records.{accepted, CanonicalDecisionRecord}
use decision_memory.Chunking.Sentences.{paragraphs, is_closing, split_sentences}
use decision_memory.Chunking.Sentences.Cuts.{cut_before, stripped_pieces, split_sentences-pieces}
use decision_memory.Chunking.Packing.{pack_oversize_paragraph, pack_paragraphs}
use decision_memory.Chunking.Packing.Greedy.{pack_paragraphs-Packs, Packs}
use decision_memory.Chunking.Overlap.{overlap_text}
use decision_memory.Chunking.Overlap.Largest.{IsLargest, overlap_text-IsLargest}
use decision_memory.Chunking.Units.{
  FieldSources, sources_of, or_empty, split_body_units, chunkable_units, missing_provenance,
  ChunkUnit,
}
use decision_memory.Chunking.Units.Sourced.{
  IsUnit, chunkable_units-Units, missing_provenance-Sourced,
}
use decision_memory.Chunking.Plans.{IsWithin, all_plans, chunk_record-planned}
use decision_memory.Chunking.{planned, chunk_record, Payload}

abbrev two : Text
two = codes "One. Two."

-- The cut falls in front of the full stop.
two_sentences : split_sentences two ≡ codes "One" ∷ codes ". Two" ∷ codes "." ∷ []
unfolding split_sentences is_closing is_space
two_sentences = refl

two_paragraphs :
    paragraphs (codes "a" ++ (10 ∷ 32 ∷ 10 ∷ 10 ∷ codes "b")) ≡ codes "a" ∷ codes "b" ∷ []
unfolding paragraphs
two_paragraphs = refl

abbrev parts : List Text
parts = codes "aa" ∷ codes "bb" ∷ codes "ccccccccc" ∷ codes "dd" ∷ []

packed_parts :
    pack_paragraphs length 6 parts
    ≡ (codes "aa" ++ (10 ∷ 10 ∷ codes "bb")) ∷ codes "ccccccccc" ∷ codes "dd" ∷ []
unfolding pack_paragraphs pack_oversize_paragraph split_sentences is_closing is_space
packed_parts = refl

abbrev sources : FieldSources
sources = (codes "why[0]", record { path = codes "a.md"; section = codes "Why" } ∷ []) ∷ []

abbrev chunked : CanonicalDecisionRecord
chunked = record {
  id = some (codes "r1");
  title = some (codes "Use  SQLite");
  status = some accepted;
  date = none;
  body = some (codes "## Plan" ++ (10 ∷ codes "Go."));
  context = none;
  decision = none;
  why = codes "It is small." ∷ [];
  rationale_summary = none;
  consequences = none;
  evidence = none;
  tags = [];
  supersedes = none;
}

unit_paths :
    map (λ (u : ChunkUnit). u.value_path) (chunkable_units sources chunked)
    ≡ codes "why[0]" ∷ codes "body[0]" ∷ []
unfolding chunkable_units split_body_units decimal is_space
unit_paths = refl

unsourced_paths : missing_provenance sources chunked ≡ codes "body[0]" ∷ codes "title" ∷ []
unfolding missing_provenance chunkable_units split_body_units decimal is_space
unsourced_paths = refl

abbrev share_of : ℕ → ℕ
share_of n = n * 15 / 100

-- A digest that is the text itself, and a list as its first text.
abbrev plain_digest : Text → Text
plain_digest t = t

abbrev first_text : List Payload → Text
first_text payload = codes "p"

split_sentences-pieces_example :
    (concat_map (λ piece. piece) (cut_before [] two) ≡ two)
    × (split_sentences two ≡ stripped_pieces (cut_before [] two))
split_sentences-pieces_example = split_sentences-pieces two

pack_paragraphs-Packs_example :
    Packs length 6
      (10 ∷ 10 ∷ [])
      (pack_oversize_paragraph length 6)
      parts
      (pack_paragraphs length 6 parts)
pack_paragraphs-Packs_example = pack_paragraphs-Packs length 6 parts

overlap_text-IsLargest_example :
    IsLargest length
      (max 1 (share_of (length two)))
      (split_sentences two)
      (overlap_text length share_of two)
overlap_text-IsLargest_example = overlap_text-IsLargest length share_of two

chunkable_units-Units_example : All IsUnit (chunkable_units sources chunked)
chunkable_units-Units_example = chunkable_units-Units sources chunked

missing_provenance-Sourced_example : (missing_provenance sources chunked ≡ []) ↔ (
    All (λ (u : ChunkUnit). u.sources ≢ []) (chunkable_units sources chunked)
    × ((or_empty chunked.title ≡ []) ⊎ (sources_of sources (codes "title") ≢ []))
    × ((or_empty chunked.supersedes ≡ []) ⊎ (sources_of sources (codes "supersedes") ≢ [])))
missing_provenance-Sourced_example = missing_provenance-Sourced sources chunked

abbrev plans : List ChunkPlan
plans =
    all_plans length share_of 20 plain_digest first_text (codes "Use  SQLite") (codes "g")
      (codes "f") (codes "r1") (chunkable_units sources chunked)

chunk_record-planned_example :
    (chunk_record length share_of 20 plain_digest first_text chunked sources (codes "g") (codes "f")
      ≡ planned plans)
    ↔ ((id : Text) × (chunked.id ≡ some id)
        × (plans
            ≡ all_plans length share_of 20 plain_digest first_text
                (or_empty chunked.title)
                (codes "g")
                (codes "f")
                id
                (chunkable_units sources chunked))
        × All IsWithin plans)
chunk_record-planned_example =
    chunk_record-planned length share_of 20 plain_digest first_text chunked sources (codes "g")
      (codes "f") plans
