-- ===== src/Text/Numerals.antt =====
-- A decimal numeral consists of digits.
use decision_memory.Prelude.{
  leb, nat_beq, Bool-cases, nat_eq, pair_eq, list_eq, All, ℕ, zero, suc, ◌≡◌, refl, ◌≢◌, inl, inr,
  Bool, true, ◌&&◌, [], ◌∷◌, arith,
}
use decision_memory.Text.{Text}
use decision_memory.Text.Segments.{increment, little, backwards, decimal}

abbrev pub is_numeral : ℕ → Bool
is_numeral c = leb b'0' c && leb c b'9'

increment-Digits :
    (s : Text) → All (λ c. is_numeral c ≡ true) s → All (λ c. is_numeral c ≡ true) (increment s)
increment-Digits [] h = (refl, tt)
increment-Digits (c ∷ s) (h, rest) = elim (Bool-cases (nat_beq c b'9')) [
  | inl nine ↦ rw nine (refl, increment-Digits s rest)
  | inr less ↦ let k : is_numeral (suc c) ≡ true = ground arith in rw less (k, rest)
]

little-Digits : (n : ℕ) → All (λ c. is_numeral c ≡ true) (little n)
little-Digits zero = (refl, tt)
little-Digits (suc n) = increment-Digits (little n) (little-Digits n)

backwards-Digits :
    (seen s : Text)
    → All (λ c. is_numeral c ≡ true) seen
    → All (λ c. is_numeral c ≡ true) s
    → All (λ c. is_numeral c ≡ true) (backwards seen s)
backwards-Digits seen [] h k = h
backwards-Digits seen (c ∷ s) h (k, rest) = backwards-Digits (c ∷ seen) s (k, h) rest

pub decimal-Digits : (n : ℕ) → All (λ c. is_numeral c ≡ true) (decimal n)
unfolding decimal
decimal-Digits n = backwards-Digits [] (little n) tt (little-Digits n)

backwards-some : (c : ℕ) (seen s : Text) → backwards (c ∷ seen) s ≢ []
backwards-some c seen [] e = cc
backwards-some c seen (d ∷ s) e = backwards-some d (c ∷ seen) s e

little-some : (n : ℕ) → little n ≢ []
little-some zero e = cc
little-some (suc n) e = increment-some (little n) e
  where
    increment-some : (s : Text) → increment s ≢ []
    increment-some [] k = cc
    increment-some (c ∷ s) k = elim (Bool-cases (nat_beq c b'9')) [
      | inl nine ↦ absurd (let w : b'0' ∷ increment s ≡ [] = rw nine at k in (cc))
      | inr less ↦ absurd (let w : suc c ∷ s ≡ [] = rw less at k in (cc))
    ]

pub decimal-some : (n : ℕ) → decimal n ≢ []
unfolding decimal
decimal-some n = by_digits (little n) (little-some n)
  where
    by_digits : (s : Text) → s ≢ [] → backwards [] s ≢ []
    by_digits [] h = absurd (h refl)
    by_digits (c ∷ s) h = backwards-some c [] s
