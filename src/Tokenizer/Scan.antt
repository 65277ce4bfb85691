-- ===== src/Tokenizer/Scan.antt =====
-- What the characters and the tokens of a scan are.
use decision_memory.Prelude.{
  if◌then◌else◌, Bool-cases, nat_eq, pair_eq, list_eq, all, keep, All, ℕ, ◌≡◌, refl, inl, inr, Bool,
  true, false, ◌&&◌, ◌||◌, List, [], ◌∷◌, ◌++◌, arith,
}
use decision_memory.Text.{Text, is_empty}
use decision_memory.Tokenizer.{
  is_stopword, is_ascii_digit, is_apostrophe, emit, is_letter_or_digit, next_ok, scan, tokenize,
}

-- A token: not empty, and of letters, digits, marks and apostrophes only.
module _ (is_letter is_mark : ℕ → Bool) where
  abbrev pub is_token_char : ℕ → Bool
  is_token_char c = (is_letter c || is_ascii_digit c) || (is_mark c || is_apostrophe c)

  abbrev pub IsToken : Text → Type 0
  IsToken token = (is_empty token ≡ false) × (all (is_token_char) token ≡ true)

module _ (is_letter is_mark : ℕ → Bool) where
  emit-IsToken :
      (current : Text) (tokens : List Text)
      → all (is_token_char is_letter is_mark) current ≡ true
      → All (IsToken is_letter is_mark) tokens
      → All (IsToken is_letter is_mark) (emit current tokens)
  emit-IsToken [] tokens h k = k
  emit-IsToken (c ∷ current) tokens h k = ((refl, h), k)

  all-append :
      (p : ℕ → Bool) (s : Text) (c : ℕ) → all p s ≡ true → p c ≡ true → all p (s ++ c ∷ []) ≡ true
  all-append p [] c h k = ground arith
  all-append p (d ∷ s) c h k = ground (arith, all-append p s c)

  -- Every token of the scan is one, whatever has been collected before.
  pub scan-IsToken :
      (ok : Bool) (current s : Text)
      → all (is_token_char is_letter is_mark) current ≡ true
      → All (IsToken is_letter is_mark) (scan is_letter is_mark ok current s)
  unfolding scan
  scan-IsToken ok current [] h = emit-IsToken current [] h tt
  scan-IsToken ok current (c ∷ rest) h = elim (Bool-cases (is_letter_or_digit is_letter c)) [
    | inl letter ↦ rw letter (
        scan-IsToken true (current ++ c ∷ []) rest
          (all-append (is_token_char is_letter is_mark) current c h (ground arith)))
    | inr other ↦ elim (Bool-cases (is_mark c)) [
      | inl mark ↦ elim (Bool-cases (is_empty current)) [
        | inl none_yet ↦ rw (other, mark, none_yet) (scan-IsToken false current rest h)
        | inr some_yet ↦
            rw (other, mark, some_yet)
              (scan-IsToken false (current ++ c ∷ []) rest
                (all-append (is_token_char is_letter is_mark) current c h (ground arith)))
      ]
      | inr no_mark ↦ elim (Bool-cases (is_apostrophe c && (ok && next_ok is_letter rest))) [
        | inl inner ↦
            rw (other, no_mark, inner)
              (scan-IsToken false (current ++ c ∷ []) rest
                (all-append (is_token_char is_letter is_mark) current c h (ground arith)))
        | inr ends ↦
            rw (other, no_mark, ends)
              (emit-IsToken current (scan is_letter is_mark false [] rest) h
                (scan-IsToken false [] rest refl))
      ]
    ]
  ]

  keep-IsToken :
      (words : List Text)
      → All (IsToken is_letter is_mark) words
      → All
          (λ word. IsToken is_letter is_mark word × (is_stopword word ≡ false))
          (keep (λ token. if is_stopword token then false else true) words)
  keep-IsToken [] h = tt
  keep-IsToken (word ∷ words) (h, rest) = elim (Bool-cases (is_stopword word)) [
    | inl stop ↦ rw stop (keep-IsToken words rest)
    | inr searched ↦ rw searched ((h, searched), keep-IsToken words rest)
  ]

  -- What the tokenizer returns: tokens of letters, digits, marks and apostrophes, none empty and none
  -- a stopword.
  pub tokenize-IsToken :
      (lower : Text → Text) (text : Text)
      → All
          (λ token. IsToken is_letter is_mark token × (is_stopword token ≡ false))
          (tokenize lower is_letter is_mark text)
  unfolding tokenize
  tokenize-IsToken lower text =
      keep-IsToken (scan is_letter is_mark false [] (lower text))
        (scan-IsToken false [] (lower text) refl)
