-- ===== src/Claims/Tests.antt =====
-- Two draft sentences against one chunk, and the theorems at them.
use decision_memory.Prelude.{
  if◌then◌else◌, nat_eq, ◌==◌, pair_eq, list_eq, ℕ, ◌≡◌, refl, Bool, true, false, Option, none,
  some, List, [], ◌∷◌,
}
use decision_memory.Text.{Text, codes, is_space, split}
use decision_memory.Verification.{normalize_for_containment, deterministic_containment}
use decision_memory.Citations.{DraftSentence}
use decision_memory.Claims.{
  done, emitted, dropped, Evidence, evidence_of, verify_sentence, Answer, no_available_citations,
}
use decision_memory.Claims.Supported.{Backed, verify_sentence-Backed}
use decision_memory.Claims.Draft.{
  empty_trace, verify_draft, IsBalanced, verify_draft-IsBalanced, ClaimTrace,
}

abbrev no_fold : Text → Text
no_fold text = text

-- The provider repeats a sentence as its only claim, and finds nothing entailed.
abbrev repeats : Text → Evidence → ℕ → Option (List Text)
repeats text evidence attempt = some (text ∷ [])

abbrev finds : Bool → Text → Evidence → Option (Bool × Text)
finds holds text evidence = some (holds, [])

abbrev chunk_text : Text → Option Text
chunk_text id = if id == codes "ch_1" then some (codes "the store is locked") else none

abbrev draft_of : Text → List Text → DraftSentence
draft_of text chunk_ids = record { sentence_id = codes "s1"; text = text; chunk_ids = chunk_ids }

abbrev locked : DraftSentence
locked = draft_of (codes "store is locked") (codes "ch_1" ∷ codes "gone" ∷ codes "ch_1" ∷ [])

abbrev shared : DraftSentence
shared = draft_of (codes "readers share it") (codes "ch_1" ∷ [])

-- A contained sentence keeps its available citation only, once.
contained_sentence :
    verify_sentence no_fold repeats (finds false) chunk_text locked
    ≡ done (emitted (record locked { chunk_ids = codes "ch_1" ∷ [] }) true [])
unfolding verify_sentence deterministic_containment normalize_for_containment split is_space
contained_sentence = refl

no_citation :
    verify_sentence no_fold repeats
      (finds false)
      chunk_text
      (draft_of (codes "x") (codes "gone" ∷ []))
    ≡ done (dropped no_available_citations none [])
unfolding verify_sentence deterministic_containment normalize_for_containment split is_space
no_citation = refl

verify_sentence-Backed_example :
    Backed no_fold repeats
      (finds true)
      shared
      (codes "ch_1" ∷ [])
      (evidence_of chunk_text (codes "ch_1" ∷ []))
      (verify_sentence no_fold repeats (finds true) chunk_text shared)
verify_sentence-Backed_example =
    verify_sentence-Backed no_fold repeats (finds true) chunk_text shared

abbrev drafted : Answer ClaimTrace
drafted = verify_draft no_fold repeats (finds false) chunk_text empty_trace (locked ∷ shared ∷ [])

verify_draft-IsBalanced_example :
    IsBalanced no_fold repeats (finds false) chunk_text (locked ∷ shared ∷ []) drafted
verify_draft-IsBalanced_example =
    verify_draft-IsBalanced no_fold repeats (finds false) chunk_text (locked ∷ shared ∷ [])
