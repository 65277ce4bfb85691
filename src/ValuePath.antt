-- ===== src/ValuePath.antt =====
-- `is_valid_value_path` of src/decision_memory/application/chunking.py: the grammar
-- name((.name)|([digits]))*, as a scan over the code points.
pub mod Indexed
mod Tests
use decision_memory.Prelude.{
  leb, nat_beq, if◌then◌else◌, nat_eq, pair_eq, list_eq, ℕ, Bool, true, false, ◌&&◌, ◌||◌, Option,
  none, some, [], ◌∷◌,
}
use decision_memory.Text.{Text}

abbrev digit : ℕ → Bool
digit c = leb b'0' c && leb c b'9'

abbrev name_start : ℕ → Bool
name_start c = leb b'A' c && leb c b'Z' || (leb b'a' c && leb c b'z' || nat_beq c b'_')

abbrev name_char : ℕ → Bool
name_char c = name_start c || digit c

-- Where the scan stands: at the first character of a name, inside a name, before or inside the
-- digits of an index, or behind the bracket that closes one.
pub data Place : Type 0 where
  at_name in_name at_index in_index closed : Place

-- The next place, or `none` where the character does not fit.
next_part : ℕ → Option Place
next_part c =
    if nat_beq c b'.' then some at_name else if nat_beq c b'[' then some at_index else none

step : Place → ℕ → Option Place
step at_name c = if name_start c then some in_name else none
step in_name c = if name_char c then some in_name else next_part c
step at_index c = if digit c then some in_index else none
step in_index c = if digit c then some in_index else if nat_beq c b']' then some closed else none
step closed c = next_part c

-- Where a text may end.
abbrev may_end : Place → Bool
may_end in_name = true
may_end closed = true
may_end _ = false

scan : Place → Text → Bool
scan place [] = may_end place
scan place (c ∷ s) = elim (step place c) [ none ↦ false | some place' ↦ scan place' s ]

unfoldable pub is_valid_value_path : Text → Bool
unfolding scan step next_part
is_valid_value_path = scan at_name
