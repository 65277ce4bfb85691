-- ===== src/Text/Segments.antt =====
-- `s.split(sep)` at one character, and decimal numerals.
use decision_memory.Prelude.{
  nat_beq, if◌then◌else◌, nat_eq, pair_eq, list_eq, ℕ, zero, suc, List, [], ◌∷◌,
}
use decision_memory.Text.{Text}

-- `str.split` gives at least one part: the first grows by a character.
abbrev pub push : ℕ → List Text → List Text
push c [] = (c ∷ []) ∷ []
push c (part ∷ parts) = (c ∷ part) ∷ parts

abbrev pub split_on : ℕ → Text → List Text
split_on sep [] = [] ∷ []
split_on sep (c ∷ s) = let rest = split_on sep s in if nat_beq c sep then [] ∷ rest else push c rest

-- `str(n)`: the digits of the next number, the lowest first.
abbrev pub increment : Text → Text
increment [] = b'1' ∷ []
increment (c ∷ s) = if nat_beq c b'9' then b'0' ∷ increment s else suc c ∷ s

abbrev pub little : ℕ → Text
little zero = b'0' ∷ []
little (suc n) = increment (little n)

abbrev pub backwards : Text → Text → Text
backwards seen [] = seen
backwards seen (c ∷ s) = backwards (c ∷ seen) s

unfoldable pub decimal : ℕ → Text
decimal n = backwards [] (little n)
