-- ===== src/Doctor/Tests.antt =====
-- A survey of three documents, and the theorem there.
use decision_memory.Prelude.{
  nat_eq, pair_eq, list_eq, distinct, ℕ, ◌≡◌, refl, true, some, List, [], ◌∷◌, map,
}
use decision_memory.Text.{Text, codes}
use decision_memory.Sorting.{sort_by}
use decision_memory.Ingest.{sum}
use decision_memory.Doctor.{
  group_key, heading_set_groups, skip_summaries, heading_frequencies, run_doctor, hidden_directory,
  SurveyedDocument, SkippedPath, HeadingFrequency, HeadingSetGroup, SkipSummary, ScanResult,
}
use decision_memory.Doctor.Totals.{heading_set_groups-total}

abbrev document : Text → List Text → SurveyedDocument
document path headings = record { relative_path = path; h2_headings = headings }

abbrev three : List SurveyedDocument
three =
    document (codes "c.md") (codes "Why" ∷ codes "Plan" ∷ [])
    ∷ document (codes "b.md") []
    ∷ document (codes "a.md") (codes "Plan" ∷ codes "Why" ∷ [])
    ∷ []

abbrev hidden : SkippedPath
hidden = record { relative_path = codes ".git"; reason = hidden_directory; unseen_contents = true }

abbrev scan_three : ℕ → ScanResult
scan_three root = record { documents = three; ignored_non_markdown = 1; skipped = hidden ∷ [] }

two_groups :
    map (λ (g : HeadingSetGroup). g.sample_paths) (heading_set_groups three 1)
    ≡ (codes "a.md" ∷ []) ∷ (codes "b.md" ∷ []) ∷ []
unfolding heading_set_groups sort_by distinct
two_groups = refl

two_headings :
    map {B = Text × ℕ}
      (λ (f : HeadingFrequency). (f.heading, f.file_count))
      (heading_frequencies (λ n a. n) three)
    ≡ (codes "Plan", 2) ∷ (codes "Why", 2) ∷ []
unfolding heading_frequencies sort_by
two_headings = refl

one_skip :
    map {B = ℕ × ℕ}
      (λ (s : SkipSummary). (s.count, s.unseen_subtrees))
      (run_doctor (λ n a. n) 3 scan_three (some 0)).skips
    ≡ (1, 1) ∷ []
unfolding run_doctor skip_summaries
one_skip = refl

heading_set_groups-total_example :
    (sum (map (λ (g : HeadingSetGroup). g.file_count) (heading_set_groups three 1)) ≡ 3)
    × (map group_key (heading_set_groups three 1) ≡ map group_key (heading_set_groups three 2))
heading_set_groups-total_example = heading_set_groups-total three 1 2
