-- ===== src/Text/Affixes.antt =====
-- What `startswith`, `endswith`, `in` and the slices from the end say of a text.
use decision_memory.Prelude.{
  ℕ, ◌+◌, ◌-◌, ◌≤◌, ◌≡◌, refl, sym, ap, ◌∙◌, true, [], ◌∷◌, ◌++◌, arith, le→leb, nat_beq,
  nat_beq_iff, nat_eq, list_eq, ==_refl, length, length-append, take-append-drop, take-append,
  drop-append, Bool-cases, &&-true, inl, inr,
}
use decision_memory.Text.{Text, drop_last, last_char, starts_with, ends_with, is_substring}

pub drop_last-append : (p s : Text) → drop_last (length s) (p ++ s) ≡ p
drop_last-append p s =
    rw (length-append p s)
      (let e : length p + length s - length s ≡ length p = omega arith in rw e (take-append p s))

pub last_char-append : (p : Text) (c : ℕ) → last_char (p ++ c ∷ []) ≡ c ∷ []
last_char-append p c =
    rw (length-append p (c ∷ []))
      (let e : length p + 1 - 1 ≡ length p = omega arith in rw e (drop-append p (c ∷ [])))

pub ends_with-append : (p s : Text) → ends_with (p ++ s) s ≡ true
ends_with-append p s =
    let e : length p + length s - length s ≡ length p = omega arith in
    rw
      (length-append p s, le→leb (length s) (length p + length s) (omega arith), e, drop-append p s)
      (==_refl s)

pub ends_with→append : (t s : Text) → ends_with t s ≡ true → drop_last (length s) t ++ s ≡ t
ends_with→append t s h =
    let (_, same) = &&-true _ _ h in
    ap (λ r. drop_last (length s) t ++ r) (sym ((list_eq.beq_iff _ _).0 same))
    ∙ take-append-drop (length t - length s) t

-- A text that is not empty is its beginning and its last character.
pub append-last : (t : Text) → 1 ≤ length t → (p : Text) × (c : ℕ) × (t ≡ p ++ c ∷ [])
append-last [] h = absurd (omega arith)
append-last (c ∷ []) h = ([], c, refl)
append-last (c ∷ d ∷ t) h =
    let (p, e, same) = append-last (d ∷ t) (omega arith) in (c ∷ p, e, ap (λ r. c ∷ r) same)

pub starts_with-append : (p s : Text) → starts_with (p ++ s) p ≡ true
starts_with-append [] [] = refl
starts_with-append [] (d ∷ s) = refl
starts_with-append (c ∷ p) s = ground (arith, starts_with-append p s)

pub starts_with→append : (s p : Text) → starts_with s p ≡ true → (r : Text) × (s ≡ p ++ r)
starts_with→append s [] h = (s, refl)
starts_with→append [] (d ∷ p) h = cc
starts_with→append (c ∷ s) (d ∷ p) h =
    let (first, rest) = &&-true (nat_beq c d) (starts_with s p) h in
    let (r, same) = starts_with→append s p rest in (r, λ i. (nat_beq_iff c d).0 first i ∷ same i)

-- `t in s` exactly when `s` is `t` with some text on each side.
pub is_substring→append :
    (t s : Text) → is_substring t s ≡ true → (p : Text) × (r : Text) × (s ≡ p ++ (t ++ r))
is_substring→append [] [] h = ([], [], refl)
is_substring→append (d ∷ t) [] h = cc
is_substring→append t (c ∷ s) h = elim (Bool-cases (starts_with (c ∷ s) t)) [
  | inl now ↦ let (r, same) = starts_with→append (c ∷ s) t now in ([], r, same)
  | inr later ↦
      let (p, r, same) = is_substring→append t s (ground arith) in (c ∷ p, r, ap (λ u. c ∷ u) same)
]

pub is_substring-append : (p t r : Text) → is_substring t (p ++ (t ++ r)) ≡ true
is_substring-append [] [] [] = refl
is_substring-append [] [] (c ∷ r) = refl
is_substring-append [] (d ∷ t) r = rw (starts_with-append (d ∷ t) r)
is_substring-append (c ∷ p) t r = rw (is_substring-append p t r) (ground arith)
