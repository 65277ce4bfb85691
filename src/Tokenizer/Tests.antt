-- ===== src/Tokenizer/Tests.antt =====
-- The tokenizer on English text, with the letters and the lower case of ASCII.
use decision_memory.Prelude.{
  leb, if◌then◌else◌, nat_eq, pair_eq, list_eq, All, ℕ, ◌+◌, ◌≡◌, refl, Bool, false, ◌&&◌, ◌||◌,
  List, [], ◌∷◌, map,
}
use decision_memory.Text.{Text, codes, join}
use decision_memory.Tokenizer.{is_stopword, scan, tokenize}
use decision_memory.Tokenizer.Scan.{IsToken, tokenize-IsToken}
use decision_memory.Tokenizer.Splitting.{IsPlainWord, tokenize-join}

abbrev ascii_lower : Text → Text
ascii_lower = map (λ c. if leb 65 c && leb c 90 then c + 32 else c)

abbrev ascii_letter : ℕ → Bool
ascii_letter c = leb 97 c && leb c 122 || leb 65 c && leb c 90

abbrev no_mark : ℕ → Bool
no_mark c = false

abbrev tokens : Text → List Text
tokens = tokenize ascii_lower ascii_letter no_mark

-- An apostrophe stays inside a word, and stopwords go.
apostrophe_inside :
    tokens (codes "The store's 'lock' isn't free")
    ≡ codes "store's" ∷ codes "lock" ∷ codes "free" ∷ []
unfolding tokenize scan is_stopword
apostrophe_inside = refl

tokenize-IsToken_example :
    All
      (λ token. IsToken ascii_letter no_mark token × (is_stopword token ≡ false))
      (tokens (codes "The store's 'lock' isn't free"))
tokenize-IsToken_example =
    tokenize-IsToken ascii_letter no_mark ascii_lower (codes "The store's 'lock' isn't free")

abbrev words : List Text
words = codes "store" ∷ codes "lock" ∷ codes "v2" ∷ []

plain : All (IsPlainWord ascii_letter no_mark) words
plain = ((refl, refl), ((refl, refl), ((refl, refl), tt)))

searched : All (λ word. is_stopword word ≡ false) words
unfolding is_stopword
searched = (refl, (refl, (refl, tt)))

tokenize-join_example : tokens (join (32 ∷ []) words) ≡ words
tokenize-join_example =
    tokenize-join ascii_lower ascii_letter no_mark 32 words (refl, refl, refl) plain searched refl
