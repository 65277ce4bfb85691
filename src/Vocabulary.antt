-- ===== src/Vocabulary.antt =====
-- src/decision_memory/application/verification.py: the two closed word sets. A frozenset is the list
-- of its members in source order; the code only tests membership.
mod Tests
use decision_memory.Prelude.{
  nat_eq, pair_eq, list_eq, contains, contains→In, In→contains, In-append_left, ◌≡◌, Bool, true,
  List, [], ◌∷◌, ◌++◌,
}
use decision_memory.Text.{Text, codes}

abbrev function_words : List Text
function_words =
    codes "a"
    ∷ codes "an"
    ∷ codes "the"
    ∷ codes "and"
    ∷ codes "that"
    ∷ codes "which"
    ∷ codes "is"
    ∷ codes "are"
    ∷ codes "was"
    ∷ codes "were"
    ∷ codes "be"
    ∷ codes "been"
    ∷ codes "being"
    ∷ codes "has"
    ∷ codes "have"
    ∷ codes "had"
    ∷ codes "do"
    ∷ codes "does"
    ∷ codes "did"
    ∷ codes "can"
    ∷ codes "could"
    ∷ codes "will"
    ∷ codes "would"
    ∷ codes "shall"
    ∷ codes "should"
    ∷ codes "may"
    ∷ codes "might"
    ∷ codes "must"
    ∷ codes "to"
    ∷ codes "of"
    ∷ codes "for"
    ∷ codes "with"
    ∷ codes "by"
    ∷ codes "as"
    ∷ codes "at"
    ∷ codes "on"
    ∷ codes "in"
    ∷ codes "from"
    ∷ codes "about"
    ∷ codes "so"
    ∷ codes "but"
    ∷ codes "or"
    ∷ codes "if"
    ∷ codes "because"
    ∷ codes "when"
    ∷ codes "then"
    ∷ codes "there"
    ∷ codes "it"
    ∷ codes "this"
    ∷ codes "these"
    ∷ codes "those"
    ∷ codes "their"
    ∷ codes "not"
    ∷ codes "no"
    ∷ codes "never"
    ∷ codes "nor"
    ∷ []

abbrev clause_connectives : List Text
clause_connectives =
    codes "yet"
    ∷ codes "albeit"
    ∷ codes "although"
    ∷ codes "lest"
    ∷ codes "though"
    ∷ codes "unless"
    ∷ codes "whereas"
    ∷ codes "whether"
    ∷ codes "while"
    ∷ codes "whilst"
    ∷ codes "accordingly"
    ∷ codes "additionally"
    ∷ codes "also"
    ∷ codes "anyway"
    ∷ codes "consequently"
    ∷ codes "conversely"
    ∷ codes "furthermore"
    ∷ codes "hence"
    ∷ codes "however"
    ∷ codes "indeed"
    ∷ codes "instead"
    ∷ codes "likewise"
    ∷ codes "meanwhile"
    ∷ codes "moreover"
    ∷ codes "namely"
    ∷ codes "nevertheless"
    ∷ codes "nonetheless"
    ∷ codes "otherwise"
    ∷ codes "rather"
    ∷ codes "regardless"
    ∷ codes "subsequently"
    ∷ codes "therefore"
    ∷ codes "thereby"
    ∷ codes "thus"
    ∷ codes "how"
    ∷ codes "whatever"
    ∷ codes "whenever"
    ∷ codes "where"
    ∷ codes "whereby"
    ∷ codes "wherein"
    ∷ codes "whereupon"
    ∷ codes "wherever"
    ∷ codes "whichever"
    ∷ codes "who"
    ∷ codes "whoever"
    ∷ codes "whom"
    ∷ codes "whose"
    ∷ codes "why"
    ∷ []

-- `token in FUNCTION_WORDS`
unfoldable pub is_function_word : Text → Bool
is_function_word = contains function_words

-- `token in COMPLETENESS_EXEMPT`, the union of the two sets.
unfoldable pub is_exempt : Text → Bool
is_exempt token = contains (function_words ++ clause_connectives) token

-- What the guard on added words exempts, the guard on omitted words exempts too.
pub is_function_word→is_exempt : (t : Text) → is_function_word t ≡ true → is_exempt t ≡ true
unfolding is_function_word is_exempt
is_function_word→is_exempt t h =
    In→contains (function_words ++ clause_connectives) t
      (In-append_left clause_connectives (contains→In function_words t h))
