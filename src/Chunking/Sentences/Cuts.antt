-- ===== src/Chunking/Sentences/Cuts.antt =====
-- The sentences are the text cut in front of each boundary.
use decision_memory.Prelude.{
  ltb, nat_beq, if◌then◌else◌, nat_beq_iff, Bool-cases, &&-true, ||-true, nat_eq, pair_eq, list_eq,
  length, take, drop, keep, length-append, take-append, drop-append, concat_map, ℕ, ◌+◌, ◌-◌, ◌≡◌,
  refl, sym, ap, ◌∙◌, inl, inr, Bool, true, false, not, List, [], ◌∷◌, ◌++◌, map, append-nil,
  append_assoc, arith,
}
use decision_memory.Text.{Text, is_empty, is_space, lstrip_by, strip}
use decision_memory.Chunking.Sentences.{
  is_terminator, is_closing, is_boundary, sentence_ends, append_sentence, sentence_end, cut_matches,
  split_sentences,
}

-- The text cut in front of each boundary, behind the characters since the last cut.
abbrev pub cut_before : Text → Text → List Text
cut_before current [] = current ∷ []
cut_before current (c ∷ s) =
    let after_cut = cut_before (c ∷ []) s in
    let longer = cut_before (current ++ c ∷ []) s in
    if is_boundary (c ∷ s) then current ∷ after_cut else longer

abbrev pub stripped_pieces : List Text → List Text
stripped_pieces pieces = keep (λ piece. not (is_empty piece)) (map strip pieces)

terminator_plain : (c : ℕ) → is_terminator c ≡ true → (is_closing c ≡ false) × (is_space c ≡ false)
unfolding is_closing is_space
terminator_plain c h = elim (||-true (nat_beq c b'.') _ h) [
  | inl dot ↦ rw ((nat_beq_iff c b'.').0 dot) (refl, refl)
  | inr rest ↦ elim (||-true (nat_beq c b'!') _ rest) [
    | inl bang ↦ rw ((nat_beq_iff c b'!').0 bang) (refl, refl)
    | inr ask ↦ rw ((nat_beq_iff c b'?').0 ask) (refl, refl)
  ]
]

stripped_pieces-cons :
    (sentences : List Text) (piece : Text) (pieces : List Text)
    → append_sentence sentences piece ++ stripped_pieces pieces
      ≡ sentences ++ stripped_pieces (piece ∷ pieces)
stripped_pieces-cons sentences piece pieces = elim (Bool-cases (is_empty (strip piece))) [
  | inl blank ↦ rw blank refl
  | inr there_is ↦ rw there_is (append_assoc sentences (strip piece ∷ []) (stripped_pieces pieces))
]

-- The end of the sentence is where the terminator stands: it is neither closing nor white space.
sentence_end-terminator :
    (text before : Text) (c : ℕ) (s : Text) (spaced : Bool)
    → text ≡ before ++ c ∷ s
    → is_terminator c ≡ true
    → sentence_end text (length before) spaced ≡ length before
sentence_end-terminator text before c s spaced same h =
    let (open_char, dark) = terminator_plain c h in
    let e : drop (length before) text ≡ c ∷ s = rw same (drop-append before (c ∷ s)) in
    let k : length before + 0 ≡ length before = omega arith in
    rw (e, open_char, k, e, dark, k) (same_either spaced)
  where
    same_either : (t : Bool) → (if t then length before else length before) ≡ length before
    same_either true = refl
    same_either false = refl

-- One match that the loop does not skip.
cut_matches-step :
    (text : Text) (position terminator stop : ℕ) (spaced : Bool) (sentences : List Text)
    (piece : Text) (matches : List (ℕ × Bool))
    → ltb terminator position ≡ false
    → sentence_end text terminator spaced ≡ stop
    → take (stop - position) (drop position text) ≡ piece
    → cut_matches text position sentences ((terminator, spaced) ∷ matches)
      ≡ cut_matches text stop (append_sentence sentences piece) matches
cut_matches-step text position terminator stop spaced sentences piece matches later ends cut =
    rw (cut_matches, later, ends, cut) refl

cut_matches-pieces :
    (text before current s : Text) (sentences : List Text)
    → text ≡ before ++ (current ++ s)
    → cut_matches text (length before) sentences (sentence_ends (length (before ++ current)) s)
      ≡ sentences ++ stripped_pieces (cut_before current s)
cut_matches-pieces text before current [] sentences same =
    let e : drop (length before) text ≡ current =
      rw (same, drop-append before (current ++ []), append-nil current) refl in
    rw e (
      sym (append-nil (append_sentence sentences current))
      ∙ stripped_pieces-cons sentences current [])
cut_matches-pieces text before current (c ∷ s) sentences same =
    elim (Bool-cases (is_boundary (c ∷ s))) [
      | inr inside ↦
          let next : length (before ++ current) + 1 ≡ length (before ++ (current ++ c ∷ [])) =
            omega (
              arith,
              length-append before current,
              length-append before (current ++ c ∷ []),
              length-append current (c ∷ []),
            ) in
          let same' : text ≡ before ++ ((current ++ c ∷ []) ++ s) =
            same ∙ ap (λ t. before ++ t) (sym (append_assoc current (c ∷ []) s)) in
          rw (inside, next) (cut_matches-pieces text before (current ++ c ∷ []) s sentences same')
      | inl cut ↦
          let (ends, _) = &&-true (is_terminator c) _ cut in
          let whole : text ≡ (before ++ current) ++ c ∷ s =
            same ∙ sym (append_assoc before current (c ∷ s)) in
          let next : length (before ++ current) + 1 ≡ length ((before ++ current) ++ c ∷ []) =
            sym (length-append (before ++ current) (c ∷ [])) in
          let later : ltb (length (before ++ current)) (length before) ≡ false =
            let k = length-append before current in ground arith in
          let size : length (before ++ current) - length before ≡ length current =
            omega (arith, length-append before current) in
          let piece : take (length current) (drop (length before) text) ≡ current =
            rw (same, drop-append before (current ++ c ∷ s)) (take-append current (c ∷ s)) in
          let stop =
            sentence_end-terminator text (before ++ current) c s
              (not (is_empty (lstrip_by is_closing s))) whole ends in
          let one =
            cut_matches-step text (length before) (length (before ++ current))
              (length (before ++ current)) (not (is_empty (lstrip_by is_closing s))) sentences
              current (sentence_ends (length (before ++ current) + 1) s) later stop
              (rw size piece) in
          rw (cut, one, next)
            (cut_matches-pieces text (before ++ current) (c ∷ []) s
                (append_sentence sentences current) (whole ∙ refl)
              ∙ stripped_pieces-cons sentences current (cut_before (c ∷ []) s))
    ]

-- The pieces are the whole text.
concat_cut_before :
    (current s : Text) → concat_map (λ piece. piece) (cut_before current s) ≡ current ++ s
concat_cut_before current [] = refl
concat_cut_before current (c ∷ s) = elim (Bool-cases (is_boundary (c ∷ s))) [
  | inl cut ↦ rw cut (ap (λ t. current ++ t) (concat_cut_before (c ∷ []) s))
  | inr inside ↦
      rw inside (concat_cut_before (current ++ c ∷ []) s ∙ append_assoc current (c ∷ []) s)
]

-- The sentences are the text cut in front of each boundary, stripped and without the empty pieces,
-- and the pieces are the whole text; a boundary is a terminator that closing characters and then
-- white space or the end of the text follow.
pub split_sentences-pieces :
    (text : Text)
    → (concat_map (λ piece. piece) (cut_before [] text) ≡ text)
      × (split_sentences text ≡ stripped_pieces (cut_before [] text))
unfolding split_sentences
split_sentences-pieces text =
    (concat_cut_before [] text, cut_matches-pieces text [] [] text [] refl)
