-- ===== src/Morphology.antt =====
-- src/decision_memory/application/morphology.py: the rule family for inflected words. A Python
-- frozenset of bases is the list of its members in the order in which they are added; the code only
-- tests membership and disjointness.
pub mod Rules
pub mod Exact
pub mod Match
mod Tests
use decision_memory.Prelude.{
  ℕ, ◌≡◌, Bool, true, false, ◌&&◌, ◌||◌, List, [], ◌∷◌, ◌++◌, ltb, leb, if◌then◌else◌, ◌==◌, Eq,
  nat_eq, list_eq, length, any, contains, concat_map,
}
use decision_memory.Text.{Text, codes, drop_last, last_char, second_last_char, ends_with}

abbrev pub inflection_suffixes : List Text
inflection_suffixes = codes "s" ∷ codes "es" ∷ codes "ed" ∷ codes "ing" ∷ []

abbrev pub min_stem_length : ℕ
min_stem_length = 3

abbrev pub tail_suffixes : List Text
tail_suffixes = codes "ed" ∷ codes "ing" ∷ []

-- The suffixes of the rule from a final `y` to `i`, a literal of the source.
abbrev pub y_suffixes : List Text
y_suffixes = codes "es" ∷ codes "ed" ∷ []

-- The tests of `_stem_match` for one suffix, once its two tokens are ordered by length.
abbrev plain_test : Text → Text → Text → Bool
plain_test shorter longer suffix = longer == shorter ++ suffix

abbrev tail_test : Text → Text → Text → Bool
tail_test shorter longer suffix =
    ends_with shorter (codes "e") && longer == drop_last 1 shorter ++ suffix
    || longer == shorter ++ (last_char shorter ++ suffix)

abbrev y_test : Text → Text → Text → Bool
y_test shorter longer suffix =
    ends_with shorter (codes "y") && longer == drop_last 1 shorter ++ (codes "i" ++ suffix)

stem_match_ordered : Text → Text → Bool
stem_match_ordered shorter longer =
    if ltb (length shorter) min_stem_length
    then false
    else any (plain_test shorter longer) inflection_suffixes
      || (any (tail_test shorter longer) tail_suffixes || any (y_test shorter longer) y_suffixes)

pub stem_match : Text → Text → Bool
stem_match a b =
    if a == b
    then true
    else if ltb (length a) (length b)
    then stem_match_ordered a b
    else stem_match_ordered b a

-- `_add`
abbrev add_base : Text → List Text
add_base candidate = if leb min_stem_length (length candidate) then candidate ∷ [] else []

-- Whether the token carries the suffix behind at least one other character.
abbrev carries : Text → Text → Bool
carries token suffix = ends_with token suffix && ltb (length suffix) (length token)

plain_bases : Text → Text → List Text
plain_bases token suffix =
    if carries token suffix then add_base (drop_last (length suffix) token) else []

-- The bases from a token without its tail suffix: the final `e`, and the doubled character.
abbrev doubled_bases : Text → List Text
doubled_bases trimmed =
    if leb 2 (length trimmed) && last_char trimmed == second_last_char trimmed
    then add_base (drop_last 1 trimmed)
    else []

tail_bases : Text → Text → List Text
tail_bases token suffix =
    let trimmed = drop_last (length suffix) token in
    if carries token suffix then add_base (trimmed ++ codes "e") ++ doubled_bases trimmed else []

y_bases : Text → Text → List Text
y_bases token suffix =
    let trimmed = drop_last (length suffix) token in
    if carries token suffix && ends_with trimmed (codes "i")
    then add_base (drop_last 1 trimmed ++ codes "y")
    else []

pub base_set : Text → List Text
unfolding plain_bases tail_bases y_bases
base_set token =
    token
    ∷ (concat_map (plain_bases token) inflection_suffixes
        ++ (concat_map (tail_bases token) tail_suffixes ++ concat_map (y_bases token) y_suffixes))

-- `not base_set(a).isdisjoint(base_set(b))`
unfoldable pub base_sets_intersect : Text → Text → Bool
unfolding base_set
base_sets_intersect a b = any (contains (base_set b)) (base_set a)
