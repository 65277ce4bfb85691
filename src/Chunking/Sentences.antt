-- ===== src/Chunking/Sentences.antt =====
-- `_paragraphs` and `_split_sentences` of src/decision_memory/application/chunking.py.
pub mod Cuts
use decision_memory.Prelude.{
  ltb, nat_beq, if◌then◌else◌, nat_eq, pair_eq, list_eq, take, drop, all, keep, contains, ℕ, suc,
  ◌+◌, ◌-◌, Bool, true, false, not, ◌&&◌, ◌||◌, List, [], ◌∷◌, ◌++◌,
}
use decision_memory.Text.{Text, is_empty, is_space, lstrip_by, strip_by, strip, join}
use decision_memory.Text.Segments.{split_on}
use decision_memory.Verification.{replace_crlf, replace_cr}

-- The characters of `strip(" \t\n")`, and those of a blank line.
abbrev pub is_blank_char : ℕ → Bool
is_blank_char c = nat_beq c b' ' || (nat_beq c 9 || nat_beq c 10)

abbrev is_blank_line : Text → Bool
is_blank_line = all (λ c. nat_beq c b' ' || nat_beq c 9)

-- The text begins and ends with a line that is not blank, so the separator `\n[ \t]*\n(?:[ \t]*\n)*`
-- stands exactly where blank lines do, and takes a run of them as one.
abbrev finish_lines : List Text → List Text → List Text
finish_lines [] parts = parts
finish_lines (line ∷ lines) parts = join (10 ∷ []) (line ∷ lines) ∷ parts

abbrev group_lines : List Text → List Text → List Text
group_lines current [] = finish_lines current []
group_lines current (line ∷ lines) = elim (is_blank_line line) [
  | true ↦ finish_lines current (group_lines [] lines)
  | false ↦ group_lines (current ++ line ∷ []) lines
]

unfoldable pub paragraphs : Text → List Text
paragraphs text =
    let stripped = strip_by is_blank_char (replace_cr (replace_crlf text)) in
    if is_empty stripped
    then []
    else keep (λ part. not (is_empty (strip_by is_blank_char part)))
        (group_lines [] (split_on 10 stripped))

-- `[.!?]` and the closing characters.
abbrev pub is_terminator : ℕ → Bool
is_terminator c = nat_beq c b'.' || (nat_beq c b'!' || nat_beq c b'?')

abbrev closing_chars : List ℕ
closing_chars = 0x27 ∷ 0x22 ∷ 0x2019 ∷ 0x201D ∷ 0x29 ∷ 0x7D ∷ 0x5D ∷ []

unfoldable pub is_closing : ℕ → Bool
is_closing = contains closing_chars

-- `(\s+|$)`
abbrev pub at_gap : Text → Bool
at_gap [] = true
at_gap (c ∷ s) = is_space c

-- Whether `_SENTENCE_END_RE` matches where the text begins.
abbrev pub is_boundary : Text → Bool
is_boundary [] = false
is_boundary (c ∷ s) = is_terminator c && at_gap (lstrip_by is_closing s)

-- `_SENTENCE_END_RE.finditer`: the start of each match, and whether its group has white space. A
-- match has no terminator behind its first character, so no two of them overlap.
abbrev pub sentence_ends : ℕ → Text → List (ℕ × Bool)
sentence_ends i [] = []
sentence_ends i (c ∷ s) =
    let rest = sentence_ends (i + 1) s in
    if is_boundary (c ∷ s) then (i, not (is_empty (lstrip_by is_closing s))) ∷ rest else rest

-- How far a `while` loop goes whose test holds for the first characters.
abbrev pub run : (ℕ → Bool) → Text → ℕ
run p [] = 0
run p (c ∷ s) = let n = run p s in if p c then suc n else 0

-- `text[position:sentence_end].strip()`, appended where it is not empty.
abbrev pub append_sentence : List Text → Text → List Text
append_sentence sentences piece =
    if is_empty (strip piece) then sentences else sentences ++ strip piece ∷ []

-- The two `while` loops from the terminator on.
abbrev pub sentence_end : Text → ℕ → Bool → ℕ
sentence_end text terminator spaced =
    let closed = terminator + run is_closing (drop terminator text) in
    if spaced then closed + run is_space (drop closed text) else closed

-- The loop over the matches, on the position and the sentences so far, and the remainder.
abbrev pub cut_matches : Text → ℕ → List Text → List (ℕ × Bool) → List Text
cut_matches text position sentences [] = append_sentence sentences (drop position text)
cut_matches text position sentences ((terminator, spaced) ∷ matches) =
    elim (ltb terminator position) [
      | true ↦ cut_matches text position sentences matches
      | false ↦
          cut_matches text (sentence_end text terminator spaced)
            (append_sentence sentences
              (take (sentence_end text terminator spaced - position) (drop position text)))
            matches
    ]

unfoldable pub split_sentences : Text → List Text
split_sentences text = cut_matches text 0 [] (sentence_ends 0 text)
