-- ===== src/Tokenizer.antt =====
-- src/decision_memory/application/lexical.py: the lexical tokenizer and its stopwords.
-- NFC normalization followed by `str.lower` is the parameter `lower`; the letter and
-- combining mark tests on `unicodedata.category` are `is_letter` and `is_mark`.
pub mod Scan
pub mod Splitting
mod Tests
use decision_memory.Prelude.{
  leb, if◌then◌else◌, ◌==◌, nat_eq, pair_eq, list_eq, keep, contains, ℕ, Bool, true, false, ◌&&◌,
  ◌||◌, List, [], ◌∷◌, ◌++◌,
}
use decision_memory.Text.{Text, codes, is_empty}

abbrev stopwords : List Text
stopwords =
    codes "a"
    ∷ codes "about"
    ∷ codes "above"
    ∷ codes "after"
    ∷ codes "again"
    ∷ codes "against"
    ∷ codes "all"
    ∷ codes "am"
    ∷ codes "an"
    ∷ codes "and"
    ∷ codes "any"
    ∷ codes "are"
    ∷ codes "aren't"
    ∷ codes "as"
    ∷ codes "at"
    ∷ codes "be"
    ∷ codes "because"
    ∷ codes "been"
    ∷ codes "before"
    ∷ codes "being"
    ∷ codes "below"
    ∷ codes "between"
    ∷ codes "both"
    ∷ codes "but"
    ∷ codes "by"
    ∷ codes "can't"
    ∷ codes "cannot"
    ∷ codes "could"
    ∷ codes "couldn't"
    ∷ codes "did"
    ∷ codes "didn't"
    ∷ codes "do"
    ∷ codes "does"
    ∷ codes "doesn't"
    ∷ codes "doing"
    ∷ codes "don't"
    ∷ codes "down"
    ∷ codes "during"
    ∷ codes "each"
    ∷ codes "few"
    ∷ codes "for"
    ∷ codes "from"
    ∷ codes "further"
    ∷ codes "had"
    ∷ codes "hadn't"
    ∷ codes "has"
    ∷ codes "hasn't"
    ∷ codes "have"
    ∷ codes "haven't"
    ∷ codes "having"
    ∷ codes "he"
    ∷ codes "he'd"
    ∷ codes "he'll"
    ∷ codes "he's"
    ∷ codes "her"
    ∷ codes "here"
    ∷ codes "here's"
    ∷ codes "hers"
    ∷ codes "herself"
    ∷ codes "him"
    ∷ codes "himself"
    ∷ codes "his"
    ∷ codes "how"
    ∷ codes "how's"
    ∷ codes "i"
    ∷ codes "i'd"
    ∷ codes "i'll"
    ∷ codes "i'm"
    ∷ codes "i've"
    ∷ codes "if"
    ∷ codes "in"
    ∷ codes "into"
    ∷ codes "is"
    ∷ codes "isn't"
    ∷ codes "it"
    ∷ codes "it's"
    ∷ codes "its"
    ∷ codes "itself"
    ∷ codes "let's"
    ∷ codes "me"
    ∷ codes "more"
    ∷ codes "most"
    ∷ codes "mustn't"
    ∷ codes "my"
    ∷ codes "myself"
    ∷ codes "of"
    ∷ codes "off"
    ∷ codes "on"
    ∷ codes "once"
    ∷ codes "only"
    ∷ codes "or"
    ∷ codes "other"
    ∷ codes "ought"
    ∷ codes "our"
    ∷ codes "ours"
    ∷ codes "ourselves"
    ∷ codes "out"
    ∷ codes "over"
    ∷ codes "own"
    ∷ codes "same"
    ∷ codes "shan't"
    ∷ codes "she"
    ∷ codes "she'd"
    ∷ codes "she'll"
    ∷ codes "she's"
    ∷ codes "should"
    ∷ codes "shouldn't"
    ∷ codes "so"
    ∷ codes "some"
    ∷ codes "such"
    ∷ codes "than"
    ∷ codes "that"
    ∷ codes "that's"
    ∷ codes "the"
    ∷ codes "their"
    ∷ codes "theirs"
    ∷ codes "them"
    ∷ codes "themselves"
    ∷ codes "then"
    ∷ codes "there"
    ∷ codes "there's"
    ∷ codes "these"
    ∷ codes "they"
    ∷ codes "they'd"
    ∷ codes "they'll"
    ∷ codes "they're"
    ∷ codes "they've"
    ∷ codes "this"
    ∷ codes "those"
    ∷ codes "through"
    ∷ codes "to"
    ∷ codes "too"
    ∷ codes "under"
    ∷ codes "until"
    ∷ codes "up"
    ∷ codes "very"
    ∷ codes "was"
    ∷ codes "wasn't"
    ∷ codes "we"
    ∷ codes "we'd"
    ∷ codes "we'll"
    ∷ codes "we're"
    ∷ codes "we've"
    ∷ codes "were"
    ∷ codes "weren't"
    ∷ codes "what"
    ∷ codes "what's"
    ∷ codes "when"
    ∷ codes "when's"
    ∷ codes "where"
    ∷ codes "where's"
    ∷ codes "which"
    ∷ codes "while"
    ∷ codes "who"
    ∷ codes "who's"
    ∷ codes "whom"
    ∷ codes "why"
    ∷ codes "why's"
    ∷ codes "with"
    ∷ codes "won't"
    ∷ codes "would"
    ∷ codes "wouldn't"
    ∷ codes "you"
    ∷ codes "you'd"
    ∷ codes "you'll"
    ∷ codes "you're"
    ∷ codes "you've"
    ∷ codes "your"
    ∷ codes "yours"
    ∷ codes "yourself"
    ∷ codes "yourselves"
    ∷ []

-- `token in STOPWORDS`
unfoldable pub is_stopword : Text → Bool
is_stopword token = contains stopwords token

abbrev pub is_ascii_digit : ℕ → Bool
is_ascii_digit c = leb 48 c && leb c 57

abbrev pub is_apostrophe : ℕ → Bool
is_apostrophe c = c == 39 || c == 0x2019

-- `if current: tokens.append(...)`, in front of the tokens that follow.
abbrev pub emit : Text → List Text → List Text
emit [] tokens = tokens
emit (c ∷ current) tokens = (c ∷ current) ∷ tokens

module _ (is_letter : ℕ → Bool) where
  abbrev pub is_letter_or_digit : ℕ → Bool
  is_letter_or_digit c = is_letter c || is_ascii_digit c

  -- Whether the scanned text goes on with a letter or a digit.
  abbrev pub next_ok : Text → Bool
  next_ok [] = false
  next_ok (c ∷ rest) = is_letter_or_digit c

module _ (is_letter is_mark : ℕ → Bool) where
  -- The scan: whether the character before is a letter or a digit, and the token so far.
  unfoldable pub scan : Bool → Text → Text → List Text
  scan previous_ok current [] = emit current []
  scan previous_ok current (c ∷ rest) =
      let letter = is_letter_or_digit is_letter c in
      let extended = scan letter (current ++ c ∷ []) rest in
      let unchanged = scan letter current rest in
      let ended = emit current (scan letter [] rest) in
      if letter
      then extended
      else if is_mark c
      then if is_empty current then unchanged else extended
      else if is_apostrophe c && (previous_ok && next_ok is_letter rest)
      then extended
      else ended

module _ (lower : Text → Text) (is_letter is_mark : ℕ → Bool) where
  unfoldable pub tokenize : Text → List Text
  tokenize text =
      keep (λ token. if is_stopword token then false else true)
        (scan is_letter is_mark false [] (lower text))
