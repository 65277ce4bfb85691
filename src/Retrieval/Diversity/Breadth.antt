-- ===== src/Retrieval/Diversity/Breadth.antt =====
-- The breadth pass: at most eight accepted, at most two of them of one record.
use decision_memory.Prelude.{
  leb, if◌then◌else◌, Bool-cases, ◌==◌, nat_eq, pair_eq, list_eq, length, All, is_some, ℕ, suc, ◌+◌,
  ◌≤◌, ◌<◌, ◌≡◌, refl, ap, inl, inr, Bool, true, false, ◌&&◌, Option, some, List, [], ◌∷◌, map,
  arith,
}
use decision_memory.Text.{Text}
use decision_memory.Dto.{SelectionPass, breadth, FusedCandidate}
use decision_memory.Retrieval.Diversity.{
  accepted_limit, diversity_cap, bump, is_record_cap, breadth_pass, count_final, Decision,
}

abbrev pub is_breadth : Option SelectionPass → Bool
is_breadth (some breadth) = true
is_breadth _ = false

module _ {F : Type 0} where
  -- The entries that the breadth pass accepted for one record.
  abbrev pub breadth_count : Text → List (Decision F) → ℕ
  breadth_count r [] = 0
  breadth_count r (d ∷ ds) =
      if is_breadth d.pass && r == d.candidate.record_id
      then suc (breadth_count r ds)
      else breadth_count r ds

  abbrev pub cap_count : List (Decision F) → ℕ
  cap_count [] = 0
  cap_count (d ∷ ds) = if is_record_cap d.disposition then suc (cap_count ds) else cap_count ds

  pub breadth_pass-candidates :
      (count : ℕ) (counts : Text → ℕ) (cs : List (FusedCandidate F))
      → map (λ d. d.candidate) (breadth_pass count counts cs) ≡ cs
  unfolding breadth_pass
  breadth_pass-candidates count counts [] = refl
  breadth_pass-candidates count counts (c ∷ cs) = ground (
    arith,
    breadth_pass-candidates count counts cs,
    breadth_pass-candidates (count + 1) (bump counts c.record_id) cs,
  )

  pub breadth_pass-le_limit :
      (count : ℕ) (counts : Text → ℕ) (cs : List (FusedCandidate F))
      → count ≤ accepted_limit
      → count + count_final (breadth_pass count counts cs) ≤ accepted_limit
  unfolding breadth_pass
  breadth_pass-le_limit count counts [] h = omega arith
  breadth_pass-le_limit count counts (c ∷ cs) h = ground (
    arith,
    breadth_pass-le_limit count counts cs,
    breadth_pass-le_limit (count + 1) (bump counts c.record_id) cs,
  )

  pub breadth_pass-le_cap :
      (r : Text) (count : ℕ) (counts : Text → ℕ) (cs : List (FusedCandidate F))
      → counts r ≤ diversity_cap
      → counts r + breadth_count r (breadth_pass count counts cs) ≤ diversity_cap
  unfolding breadth_pass
  breadth_pass-le_cap r count counts [] h = omega arith
  breadth_pass-le_cap r count counts (c ∷ cs) h = elim (Bool-cases (r == c.record_id)) [
    | inl same ↦ ground (
      arith,
      ap counts ((list_eq.beq_iff r c.record_id).0 same),
      breadth_pass-le_cap r count counts cs,
      breadth_pass-le_cap r (count + 1) (bump counts c.record_id) cs,
    )
    | inr other ↦ ground (
      arith,
      breadth_pass-le_cap r count counts cs,
      breadth_pass-le_cap r (count + 1) (bump counts c.record_id) cs,
    )
  ]

  -- Below the limit every candidate is accepted or deferred.
  pub breadth_pass-below_limit :
      (count : ℕ) (counts : Text → ℕ) (cs : List (FusedCandidate F))
      → count + count_final (breadth_pass count counts cs) < accepted_limit
      → count_final (breadth_pass count counts cs) + cap_count (breadth_pass count counts cs)
        ≡ length cs
  unfolding breadth_pass
  breadth_pass-below_limit count counts [] h = refl
  breadth_pass-below_limit count counts (c ∷ cs) h = ground (
    arith,
    breadth_pass-below_limit count counts cs,
    breadth_pass-below_limit (count + 1) (bump counts c.record_id) cs,
  )

  pub count_final-le :
      (count : ℕ) (counts : Text → ℕ) (cs : List (FusedCandidate F))
      → count_final (breadth_pass count counts cs) ≤ length cs
  unfolding breadth_pass
  count_final-le count counts [] = omega arith
  count_final-le count counts (c ∷ cs) = ground (
    arith,
    count_final-le count counts cs,
    count_final-le (count + 1) (bump counts c.record_id) cs,
  )

  -- What the fill pass relies on: an entry at the record cap has no final rank yet.
  abbrev pub IsOpen : Decision F → Type 0
  IsOpen d = (is_record_cap d.disposition && is_some d.final) ≡ false

  pub breadth_pass-IsOpen :
      (count : ℕ) (counts : Text → ℕ) (cs : List (FusedCandidate F))
      → All IsOpen (breadth_pass count counts cs)
  unfolding breadth_pass
  breadth_pass-IsOpen count counts [] = tt
  breadth_pass-IsOpen count counts (c ∷ cs) = elim (Bool-cases (leb accepted_limit count)) [
    | inl full ↦ rw full (refl, breadth_pass-IsOpen count counts cs)
    | inr room ↦ elim (Bool-cases (leb diversity_cap (counts c.record_id))) [
      | inl capped ↦ rw (room, capped) (refl, breadth_pass-IsOpen count counts cs)
      | inr free ↦
          rw (room, free) (refl, breadth_pass-IsOpen (count + 1) (bump counts c.record_id) cs)
    ]
  ]
