-- ===== src/Doctor.antt =====
-- src/decision_memory/domain/doctor.py and application/doctor_service.py: the survey of a corpus. The
-- headings of a document are listed once each, in any order; the rounded percentage, which is decimal
-- arithmetic, is a parameter. The number of samples is a natural number: the command line refuses a
-- negative one.
pub mod Totals
mod Tests
use decision_memory.Prelude.{
  ltb, nat_beq, if◌then◌else◌, nat_eq, ◌==◌, pair_eq, list_eq, Eq, length, take, keep, distinct,
  concat_map, get, put, ℕ, ◌+◌, Bool, true, false, ◌&&◌, Option, none, some, List, [], ◌∷◌, ◌++◌,
  map,
}
use decision_memory.Text.{Text, codes, is_empty, text_lt}
use decision_memory.Sorting.{sort_by}
use decision_memory.Sorting.Keys.{sort_on, pair_lt}

pub data SkipReason : Type 0 where
  disappeared descendant_symbolic_link hidden_directory : SkipReason
  unreadable_directory unreadable_markdown unsupported_entry : SkipReason

-- The order in which the reasons are reported, and the text that a reason is.
abbrev pub skip_reasons : List SkipReason
skip_reasons =
    disappeared ∷ descendant_symbolic_link ∷ hidden_directory ∷ unreadable_directory
    ∷ unreadable_markdown ∷ unsupported_entry ∷ []

abbrev pub skip_value : SkipReason → Text
skip_value disappeared = codes "disappeared"
skip_value descendant_symbolic_link = codes "descendant symbolic link"
skip_value hidden_directory = codes "hidden directory"
skip_value unreadable_directory = codes "unreadable directory"
skip_value unreadable_markdown = codes "unreadable Markdown file"
skip_value unsupported_entry = codes "unsupported entry"

pub record SurveyedDocument : Type 0 where
  pub relative_path : Text
  pub h2_headings : List Text

pub record SkippedPath : Type 0 where
  pub relative_path : Text
  pub reason : SkipReason
  pub unseen_contents : Bool

pub record HeadingFrequency : Type 0 where
  pub heading : Text
  pub file_count : ℕ
  pub percentage : ℕ

pub record HeadingSetGroup : Type 0 where
  pub headings : List Text
  pub file_count : ℕ
  pub sample_paths : List Text

pub record SkipSummary : Type 0 where
  pub reason : SkipReason
  pub count : ℕ
  pub unseen_subtrees : ℕ
  pub sample_paths : List Text

-- `counts[heading] = counts.get(heading, 0) + 1`
abbrev pub count_heading : List (Text × ℕ) → Text → List (Text × ℕ)
count_heading counts heading =
    put counts heading (elim (get counts heading) [ none ↦ 1 | some n ↦ n + 1 ])

abbrev pub count_headings : List (Text × ℕ) → List Text → List (Text × ℕ)
count_headings counts [] = counts
count_headings counts (heading ∷ headings) = count_headings (count_heading counts heading) headings

-- `d.setdefault(key, []).append(value)`
abbrev pub append_to {ℓ κ} :
    {K : Type ℓ} {V : Type κ} ⦃e : Eq K⦄ → List (K × List V) → K → V → List (K × List V)
append_to [] key value = (key, value ∷ []) ∷ []
append_to ((k, vs) ∷ d) key value =
    if k == key then (k, vs ++ value ∷ []) ∷ d else (k, vs) ∷ append_to d key value

-- A set of texts as the sorted list of its members.
abbrev pub heading_set : SurveyedDocument → List Text
heading_set d = sort_by text_lt (distinct d.h2_headings)

abbrev pub group_documents :
    List (List Text × List Text) → List SurveyedDocument → List (List Text × List Text)
group_documents by_set [] = by_set
group_documents by_set (d ∷ documents) =
    group_documents (append_to by_set (heading_set d) d.relative_path) documents

-- A list of texts is smaller at the first text that is, and a proper prefix is smaller.
abbrev pub texts_lt : List Text → List Text → Bool
texts_lt [] [] = false
texts_lt [] (t ∷ ts) = true
texts_lt (s ∷ ss) [] = false
texts_lt (s ∷ ss) (t ∷ ts) = if text_lt s t then true else s == t && texts_lt ss ts

abbrev pub group_of : ℕ → List Text × List Text → HeadingSetGroup
group_of samples (headings, paths) = record {
  headings = headings;
  file_count = length paths;
  sample_paths = take samples (sort_by text_lt paths);
}

abbrev pub group_key : HeadingSetGroup → ℕ × List Text
group_key g = (g.file_count, g.headings)

-- More files first, then by the headings.
abbrev pub group_lt : ℕ × List Text → ℕ × List Text → Bool
group_lt = pair_lt (λ m n. ltb n m) texts_lt

unfoldable pub heading_set_groups : List SurveyedDocument → ℕ → List HeadingSetGroup
heading_set_groups documents samples =
    sort_on group_key group_lt (map (group_of samples) (group_documents [] documents))

abbrev pub group_skips :
    List (Text × List SkippedPath) → List SkippedPath → List (Text × List SkippedPath)
group_skips by_reason [] = by_reason
group_skips by_reason (s ∷ skipped) =
    group_skips (append_to by_reason (skip_value s.reason) s) skipped

abbrev pub summary_of : ℕ → SkipReason → Option (List SkippedPath) → List SkipSummary
summary_of samples reason none = []
summary_of samples reason (some items) =
    if is_empty items
    then []
    else record {
      reason = reason;
      count = length items;
      unseen_subtrees = length (keep (λ (s : SkippedPath). s.unseen_contents) items);
      sample_paths =
          take samples (sort_by text_lt (map (λ (s : SkippedPath). s.relative_path) items));
    }
      ∷ []

unfoldable pub skip_summaries : List SkippedPath → ℕ → List SkipSummary
skip_summaries skipped samples =
    concat_map
      (λ reason. summary_of samples reason (get (group_skips [] skipped) (skip_value reason)))
      skip_reasons

pub record ScanResult : Type 0 where
  pub documents : List SurveyedDocument
  pub ignored_non_markdown : ℕ
  pub skipped : List SkippedPath

pub record DoctorOutcome : Type 0 where
  pub exit_code : ℕ
  pub markdown_analyzed : ℕ
  pub non_markdown_ignored : ℕ
  pub headings : List HeadingFrequency
  pub heading_groups : List HeadingSetGroup
  pub skips : List SkipSummary

module _ (percentage_of : ℕ → ℕ → ℕ) where
  abbrev pub frequency_key : HeadingFrequency → ℕ × Text
  frequency_key f = (f.file_count, f.heading)

  -- `_percentage`: zero when no files, in tenths.
  abbrev pub percentage : ℕ → ℕ → ℕ
  percentage file_count analyzed =
      if nat_beq analyzed 0 then 0 else percentage_of file_count analyzed

  unfoldable pub heading_frequencies : List SurveyedDocument → List HeadingFrequency
  heading_frequencies documents = sort_on frequency_key (pair_lt (λ m n. ltb n m) text_lt) (
      map
        (λ c. record {
          heading = c.0;
          file_count = c.1;
          percentage = percentage c.1 (length documents);
        })
        (count_headings [] (concat_map (λ (d : SurveyedDocument). d.h2_headings) documents)))

  -- The root is `none` where it does not resolve to a directory.
  unfoldable pub run_doctor {κ} :
      {Root : Type κ} → ℕ → (Root → ScanResult) → Option Root → DoctorOutcome
  run_doctor samples scanner none = record {
    exit_code = 3;
    markdown_analyzed = 0;
    non_markdown_ignored = 0;
    headings = [];
    heading_groups = [];
    skips = [];
  }
  run_doctor samples scanner (some root) =
      let scan = scanner root in
      record {
        exit_code = 0;
        markdown_analyzed = length scan.documents;
        non_markdown_ignored = scan.ignored_non_markdown;
        headings = heading_frequencies scan.documents;
        heading_groups = heading_set_groups scan.documents samples;
        skips = skip_summaries scan.skipped samples;
      }
