-- ===== src/Retrieval/Diversity.antt =====
-- `_diversity_stage` of src/decision_memory/application/query.py: the two pass selection over the
-- fused candidates, at most eight of them. The dictionary of counts is a function from record ids. A
-- deferred index stands for the entry at that place: the deferred entries are those that met the
-- record cap. A `KeyError` of the final lookup is `none`.
pub mod Breadth
pub mod Fill
pub mod Ranks
mod Tests
use decision_memory.Prelude.{
  ltb, leb, if◌then◌else◌, ◌>>=◌, ◌==◌, nat_eq, pair_eq, list_eq, is_some, map_option, ℕ, suc, ◌+◌,
  Bool, true, false, ◌&&◌, Option, none, some, List, [], ◌∷◌, map,
}
use decision_memory.Text.{Text, text_lt}
use decision_memory.Sorting.{sort_by}
use decision_memory.Sorting.Keys.{pair_lt}
use decision_memory.Dto.{
  accepted, ActiveChunkDescriptor, BreadthDisposition, record_cap, accepted_limit_reached,
  SelectionPass, breadth, fill, FinalDisposition, outside_top_8, FusedCandidate,
}

abbrev pub accepted_limit : ℕ
accepted_limit = 8

abbrev pub diversity_cap : ℕ
diversity_cap = 2

-- One entry of `states`.
pub record Decision (F : Type 0) : Type 0 where
  pub candidate : FusedCandidate F
  pub disposition : BreadthDisposition
  pub pass : Option SelectionPass
  pub final : Option ℕ

abbrev pub bump : (Text → ℕ) → Text → Text → ℕ
bump counts key other = if other == key then counts key + 1 else counts other

abbrev pub is_record_cap : BreadthDisposition → Bool
is_record_cap record_cap = true
is_record_cap _ = false

module _ {F : Type 0} where
  abbrev pub decide :
      FusedCandidate F → BreadthDisposition → Option SelectionPass → Option ℕ → Decision F
  decide c d p r = record { candidate = c; disposition = d; pass = p; final = r }

  -- The breadth pass, from the number accepted and the counts per record.
  pub breadth_pass : ℕ → (Text → ℕ) → List (FusedCandidate F) → List (Decision F)
  breadth_pass count counts [] = []
  breadth_pass count counts (c ∷ cs) =
      let limited = decide c accepted_limit_reached none none ∷ breadth_pass count counts cs in
      let capped = decide c record_cap none none ∷ breadth_pass count counts cs in
      let taken =
        decide c BreadthDisposition.accepted (some breadth) (some (count + 1))
        ∷ breadth_pass (count + 1) (bump counts c.record_id) cs in
      if leb accepted_limit count
      then limited
      else if leb diversity_cap (counts c.record_id)
      then capped
      else taken

  -- `accepted_count` when the breadth pass has ended.
  abbrev pub count_final : List (Decision F) → ℕ
  count_final [] = 0
  count_final (d ∷ ds) = if is_some d.final then suc (count_final ds) else count_final ds

  -- The fill pass over the deferred entries, in order.
  pub fill_pass : ℕ → List (Decision F) → List (Decision F)
  fill_pass count [] = []
  fill_pass count (d ∷ ds) =
      let skipped = d ∷ fill_pass count ds in
      let filled =
        decide d.candidate d.disposition (some fill) (some (count + 1))
        ∷ fill_pass (count + 1) ds in
      if is_record_cap d.disposition && ltb count accepted_limit then filled else skipped

  -- The final candidate of an entry.
  finalize : Decision F → FusedCandidate F
  finalize d = record (d.candidate) {
    breadth_disposition = d.disposition;
    selection_pass = d.pass;
    final_rank = d.final;
    final_disposition =
        if is_some d.final then FinalDisposition.accepted else FinalDisposition.outside_top_8;
  }

  -- `(final_rank, chunk_id)` of the accepted entries.
  pub accepted_pairs : List (Decision F) → List (ℕ × Text)
  accepted_pairs [] = []
  accepted_pairs (d ∷ ds) = elim (d.final) [
    | none ↦ accepted_pairs ds
    | some rank ↦ (rank, d.candidate.chunk_id) ∷ accepted_pairs ds
  ]

  pub diversity_decisions : List (FusedCandidate F) → List (Decision F)
  diversity_decisions candidates =
      let states = breadth_pass 0 (λ key. 0) candidates in fill_pass (count_final states) states

  pub accepted_ids : List (Decision F) → List Text
  accepted_ids states = map (λ p. p.1) (sort_by (pair_lt ltb text_lt) (accepted_pairs states))

  pub diversity_stage :
      List (FusedCandidate F)
      → (Text → Option ActiveChunkDescriptor)
      → Option (List (FusedCandidate F) × List ActiveChunkDescriptor)
  diversity_stage candidates accepted_by_id = do
    let states = diversity_decisions candidates
    accepted_chunks ← map_option accepted_by_id (accepted_ids states)
    some (map finalize states, accepted_chunks)
