-- ===== src/ValuePath/Indexed.antt =====
-- A valid path stays valid with an index in brackets behind it.
use decision_memory.Prelude.{
  Option-cases, nat_eq, pair_eq, list_eq, All, ℕ, ◌≡◌, refl, sym, ◌∙◌, ◌≢◌, inl, inr, true, false,
  none, some, [], ◌∷◌, ◌++◌,
}
use decision_memory.Text.{Text}
use decision_memory.Text.Numerals.{is_numeral}
use decision_memory.ValuePath.{
  next_part, step, scan, is_valid_value_path, Place, at_name, in_name, at_index, in_index, closed,
}

scan_digits :
    (ds : Text) → All (λ c. is_numeral c ≡ true) ds → scan in_index (ds ++ b']' ∷ []) ≡ true
unfolding scan step next_part
scan_digits [] h = refl
scan_digits (c ∷ ds) (h, rest) = rw (scan, h) (scan_digits ds rest)

scan_index :
    (ds : Text)
    → All (λ c. is_numeral c ≡ true) ds
    → ds ≢ []
    → scan at_index (ds ++ b']' ∷ []) ≡ true
unfolding scan step next_part
scan_index [] h some_digit = absurd (some_digit refl)
scan_index (c ∷ ds) (h, rest) some_digit = rw (scan, h) (scan_digits ds rest)

scan_next :
    (place place' : Place) (c : ℕ) (s : Text)
    → step place c ≡ some place'
    → scan place (c ∷ s) ≡ scan place' s
unfolding scan
scan_next place place' c s h = rw (scan, h) refl

scan_stuck : (place : Place) (c : ℕ) (s : Text) → step place c ≡ none → scan place (c ∷ s) ≡ false
unfolding scan
scan_stuck place c s h = rw (scan, h) refl

scan_bracket :
    (place : Place) (name t : Text)
    → scan place name ≡ true
    → scan place (name ++ b'[' ∷ t) ≡ scan at_index t
unfolding scan step next_part
scan_bracket in_name [] t h = refl
scan_bracket closed [] t h = refl
scan_bracket at_name [] t h = absurd (cc)
scan_bracket at_index [] t h = absurd (cc)
scan_bracket in_index [] t h = absurd (cc)
scan_bracket place (c ∷ name) t h = elim (Option-cases (step place c)) [
  | inl stuck ↦ let k = scan_stuck place c name stuck in absurd (cc)
  | inr (next, e) ↦
      scan_next place next c (name ++ b'[' ∷ t) e
      ∙ scan_bracket next name t (sym (scan_next place next c name e) ∙ h)
]

pub is_valid_value_path-indexed :
    (name ds : Text)
    → is_valid_value_path name ≡ true
    → All (λ c. is_numeral c ≡ true) ds
    → ds ≢ []
    → is_valid_value_path (name ++ b'[' ∷ (ds ++ b']' ∷ [])) ≡ true
unfolding is_valid_value_path
is_valid_value_path-indexed name ds h k some_digit =
    scan_bracket at_name name (ds ++ b']' ∷ []) h ∙ scan_index ds k some_digit
