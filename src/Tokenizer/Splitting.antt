-- ===== src/Tokenizer/Splitting.antt =====
-- A separator cuts the scan in two, so a text of plain words comes back as its words.
use decision_memory.Prelude.{
  if◌then◌else◌, Bool-cases, &&-true, nat_eq, pair_eq, list_eq, all, keep, All, ℕ, ◌≡◌, refl, ap,
  ◌∙◌, inl, inr, Bool, true, false, ◌&&◌, List, [], ◌∷◌, ◌++◌, append-nil, append_assoc,
}
use decision_memory.Text.{Text, is_empty, join}
use decision_memory.Tokenizer.{
  is_stopword, is_apostrophe, emit, is_letter_or_digit, next_ok, scan, tokenize,
}
use decision_memory.Tokenizer.Scan.{}

module _ (is_letter is_mark : ℕ → Bool) where
  -- A character that is no letter, digit, mark or apostrophe.
  abbrev pub IsSeparator : ℕ → Type 0
  IsSeparator c =
      (is_letter_or_digit is_letter c ≡ false) × (is_mark c ≡ false) × (is_apostrophe c ≡ false)

  emit-append :
      (current : Text) (xs ys : List Text) → emit current (xs ++ ys) ≡ emit current xs ++ ys
  emit-append [] xs ys = refl
  emit-append (c ∷ current) xs ys = refl

  next_ok-append :
      (s : Text) (c : ℕ) (t : Text)
      → IsSeparator c
      → next_ok is_letter (s ++ c ∷ t) ≡ next_ok is_letter s
  next_ok-append [] c t (h, k, l) = h
  next_ok-append (d ∷ s) c t h = refl

  -- A separator ends the token before it and the scan starts afresh behind it.
  pub scan-separator :
      (ok : Bool) (current s : Text) (c : ℕ) (t : Text)
      → IsSeparator c
      → scan is_letter is_mark ok current (s ++ c ∷ t)
        ≡ scan is_letter is_mark ok current s ++ scan is_letter is_mark false [] t
  unfolding scan
  scan-separator ok current [] c t (h, k, l) =
      rw (h, k, l) (emit-append current [] (scan is_letter is_mark false [] t))
  scan-separator ok current (d ∷ s) c t h = elim (Bool-cases (is_letter_or_digit is_letter d)) [
    | inl letter ↦ rw letter (scan-separator true (current ++ d ∷ []) s c t h)
    | inr other ↦ elim (Bool-cases (is_mark d)) [
      | inl mark ↦ elim (Bool-cases (is_empty current)) [
        | inl none_yet ↦ rw (other, mark, none_yet) (scan-separator false current s c t h)
        | inr some_yet ↦
            rw (other, mark, some_yet) (scan-separator false (current ++ d ∷ []) s c t h)
      ]
      | inr no_mark ↦ elim (Bool-cases (is_apostrophe d && (ok && next_ok is_letter s))) [
        | inl inner ↦
            rw (other, no_mark, next_ok-append s c t h, inner)
              (scan-separator false (current ++ d ∷ []) s c t h)
        | inr ends ↦
            rw (other, no_mark, next_ok-append s c t h, ends, scan-separator false [] s c t h)
              (emit-append current (scan is_letter is_mark false [] s)
                (scan is_letter is_mark false [] t))
      ]
    ]
  ]

  -- A plain word: letters and digits, and at least one of them.
  abbrev pub IsPlainWord : Text → Type 0
  IsPlainWord word = (is_empty word ≡ false) × (all (is_letter_or_digit is_letter) word ≡ true)

  scan-letters :
      (ok : Bool) (current s : Text)
      → all (is_letter_or_digit is_letter) s ≡ true
      → scan is_letter is_mark ok current s ≡ emit (current ++ s) []
  unfolding scan
  scan-letters ok current [] h = rw (append-nil current) refl
  scan-letters ok current (c ∷ s) h =
      let (letter, rest) =
        &&-true (is_letter_or_digit is_letter c) (all (is_letter_or_digit is_letter) s) h in
      rw letter (
        scan-letters true (current ++ c ∷ []) s rest
        ∙ ap (λ t. emit t []) (append_assoc current (c ∷ []) s))

  emit-word : (word : Text) → is_empty word ≡ false → emit word [] ≡ word ∷ []
  emit-word [] h = cc
  emit-word (c ∷ word) h = refl

  scan-word : (word : Text) → IsPlainWord word → scan is_letter is_mark false [] word ≡ word ∷ []
  scan-word word (some_char, letters) =
      scan-letters false [] word letters ∙ emit-word word some_char

  -- Plain words joined by a separator are the tokens of the joined text.
  pub scan-join :
      (c : ℕ) (words : List Text)
      → IsSeparator c
      → All IsPlainWord words
      → scan is_letter is_mark false [] (join (c ∷ []) words) ≡ words
  scan-join c [] h plain = scan-letters false [] [] refl
  scan-join c (word ∷ []) h (plain, rest) = scan-word word plain
  scan-join c (word ∷ next ∷ words) h (plain, rest) =
      scan-separator false [] word c (join (c ∷ []) (next ∷ words)) h
      ∙ (λ i. scan-word word plain i ++ scan-join c (next ∷ words) h rest i)

-- The words of a text that the tokenizer returns.
module _ (lower : Text → Text) (is_letter is_mark : ℕ → Bool) where
  keep-All :
      (words : List Text)
      → All (λ word. is_stopword word ≡ false) words
      → keep (λ token. if is_stopword token then false else true) words ≡ words
  keep-All [] h = refl
  keep-All (word ∷ words) (h, rest) = rw h (ap (λ t. word ∷ t) (keep-All words rest))

  -- Plain words that are no stopwords, joined by a separator into a text that lower casing leaves
  -- alone, are its tokens.
  pub tokenize-join :
      (c : ℕ) (words : List Text)
      → IsSeparator is_letter is_mark c
      → All (IsPlainWord is_letter is_mark) words
      → All (λ word. is_stopword word ≡ false) words
      → lower (join (c ∷ []) words) ≡ join (c ∷ []) words
      → tokenize lower is_letter is_mark (join (c ∷ []) words) ≡ words
  unfolding tokenize
  tokenize-join c words h plain searched same =
      rw (same, scan-join is_letter is_mark c words h plain) (keep-All words searched)
