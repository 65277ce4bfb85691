-- ===== src/Text.antt =====
-- Python's `str` as the list of its code points, and the methods that the program calls on it:
-- equality, order, `startswith`, `endswith`, slices from the end, `strip`, `split`, `join` and `in`.
pub mod Affixes
pub mod Segments
pub mod Numerals
use Prim.Native.Char.{code}
use decision_memory.Prelude.{
  ℕ, zero, suc, ◌+◌, ◌-◌, String, Bool, true, false, ◌&&◌, ◌||◌, List, [], ◌∷◌, ◌++◌, ltb, leb,
  nat_beq, if◌then◌else◌, ◌==◌, nat_eq, list_eq, length, take, drop, contains,
}

abbrev pub Text : Type 0
Text = List ℕ

-- A text literal.
abbrev pub codes : String → Text
codes String.[] = []
codes (String.◌∷◌ c s) = code c ∷ codes s

abbrev pub is_empty {ℓ} : {A : Type ℓ} → List A → Bool
is_empty [] = true
is_empty (x ∷ xs) = false

-- `s < t`: code points from the left, and a proper prefix is smaller.
abbrev pub text_lt : Text → Text → Bool
text_lt [] [] = false
text_lt [] (d ∷ t) = true
text_lt (c ∷ s) [] = false
text_lt (c ∷ s) (d ∷ t) = if ltb c d then true else nat_beq c d && text_lt s t

-- `s[:-n]` for `0 < n`, `s[-1]` as the text of one character, and `s[-2]`.
abbrev pub drop_last : ℕ → Text → Text
drop_last n s = take (length s - n) s

abbrev pub last_char : Text → Text
last_char s = drop (length s - 1) s

abbrev pub second_last_char : Text → Text
second_last_char s = last_char (drop_last 1 s)

-- `s.startswith(t)`, `s.endswith(t)` and `t in s`.
abbrev pub starts_with : Text → Text → Bool
starts_with s [] = true
starts_with [] (d ∷ t) = false
starts_with (c ∷ s) (d ∷ t) = nat_beq c d && starts_with s t

abbrev pub ends_with : Text → Text → Bool
ends_with s t = leb (length t) (length s) && drop (length s - length t) s == t

abbrev pub is_substring : Text → Text → Bool
is_substring t [] = is_empty t
is_substring t (c ∷ s) = starts_with (c ∷ s) t || is_substring t s

-- `str.isspace` of one character, which `strip` and `split` go by.
abbrev spaces : List ℕ
spaces = 0x20 ∷ 0x85 ∷ 0xA0 ∷ 0x1680 ∷ 0x2028 ∷ 0x2029 ∷ 0x202F ∷ 0x205F ∷ 0x3000 ∷ []

unfoldable pub is_space : ℕ → Bool
is_space c =
    leb 9 c && leb c 13
    || leb 0x1C c && leb c 0x1F
    || leb 0x2000 c && leb c 0x200A
    || contains spaces c

module _ (drops : ℕ → Bool) where
  abbrev pub lstrip_by : Text → Text
  lstrip_by [] = []
  lstrip_by (c ∷ s) = let rest = lstrip_by s in if drops c then rest else c ∷ s

  abbrev pub rstrip_by : Text → Text
  rstrip_by [] = []
  rstrip_by (c ∷ s) = let rest = rstrip_by s in if drops c && is_empty rest then [] else c ∷ rest

  -- `s.strip(chars)`
  abbrev pub strip_by : Text → Text
  strip_by s = rstrip_by (lstrip_by s)

-- `s.strip()`
abbrev pub strip : Text → Text
strip = strip_by is_space

-- `s.split()`: the maximal runs without white space.
abbrev pub flush : Text → List Text → List Text
flush [] words = words
flush (c ∷ s) words = (c ∷ s) ∷ words

abbrev pub split_from : Text → Text → List Text
split_from current [] = flush current []
split_from current (c ∷ s) =
    let ended = flush current (split_from [] s) in
    let longer = split_from (current ++ (c ∷ [])) s in if is_space c then ended else longer

unfoldable pub split : Text → List Text
unfolding is_space
split = split_from []

-- `sep.join(parts)`
abbrev pub join : Text → List Text → Text
join sep [] = []
join sep (part ∷ []) = part
join sep (part ∷ next ∷ parts) = part ++ (sep ++ join sep (next ∷ parts))
