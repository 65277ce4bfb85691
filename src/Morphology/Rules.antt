-- ===== src/Morphology/Rules.antt =====
-- The five rules of the family's description, as a relation between a token and an inflection of it.
use decision_memory.Prelude.{ℕ, ◌≤◌, ◌≡◌, ◌⊎◌, [], ◌∷◌, ◌++◌, In, length}
use decision_memory.Text.{Text, codes}
use decision_memory.Morphology.{inflection_suffixes, min_stem_length, tail_suffixes, y_suffixes}

-- `longer` comes from `shorter` by one of the four inflection rules.
pub data Inflects (shorter longer : Text) : Type 0 where
  plain :
      (suffix : Text)
      → In suffix inflection_suffixes
      → min_stem_length ≤ length shorter
      → longer ≡ shorter ++ suffix
      → Inflects shorter longer
  final_e :
      (stem suffix : Text)
      → In suffix tail_suffixes
      → min_stem_length ≤ length shorter
      → shorter ≡ stem ++ codes "e"
      → longer ≡ stem ++ suffix
      → Inflects shorter longer
  doubled :
      (stem : Text) (c : ℕ) (suffix : Text)
      → In suffix tail_suffixes
      → min_stem_length ≤ length shorter
      → shorter ≡ stem ++ c ∷ []
      → longer ≡ shorter ++ (c ∷ suffix)
      → Inflects shorter longer
  final_y :
      (stem suffix : Text)
      → In suffix y_suffixes
      → min_stem_length ≤ length shorter
      → shorter ≡ stem ++ codes "y"
      → longer ≡ stem ++ (codes "i" ++ suffix)
      → Inflects shorter longer

-- With the rule of exact equality.
abbrev pub IsBase : Text → Text → Type 0
IsBase base token = (base ≡ token) ⊎ Inflects base token
