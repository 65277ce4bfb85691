-- ===== src/Filters/Selectors.antt =====
-- What a value path selector selects.
use decision_memory.Prelude.{
  Bool-cases, nat_beq, nat_beq_iff, &&-true, ◌==◌, nat_eq, pair_eq, list_eq, ==_refl, length, drop,
  drop-append, all, All, ℕ, ◌≤◌, ◌≡◌, refl, sym, subst, ◌≢◌, ◌↔◌, inl, inr, true, [], ◌∷◌, ◌++◌,
  append_assoc, arith,
}
use decision_memory.Text.{Text, codes, drop_last, starts_with, ends_with}
use decision_memory.Text.Affixes.{
  drop_last-append, ends_with-append, ends_with→append, starts_with-append,
}
use decision_memory.Filters.{star, is_digit, is_index, matches_star, matches_value_path}

-- `prefix[i]` for an index `i`.
abbrev pub indexed : Text → Text → Text
indexed prefix i = prefix ++ (codes "[" ++ (i ++ codes "]"))

starts_with-indexed : (p i : Text) → starts_with (indexed p i) (p ++ codes "[") ≡ true
starts_with-indexed p i =
    rw (← append_assoc p (codes "[") (i ++ codes "]"))
      (starts_with-append (p ++ codes "[") (i ++ codes "]"))

matches_star_sound :
    (p path : Text)
    → matches_star p path ≡ true
    → (i : Text) × (is_index i ≡ true) × (path ≡ indexed p i)
unfolding matches_star
matches_star_sound p path h =
    let i = drop_last 1 (drop 1 (drop (length p) path)) in
    let index : is_index i ≡ true = ground arith in
    let same : (path == indexed p i) ≡ true = ground arith in
    (i, index, (list_eq.beq_iff path (indexed p i)).0 same)

matches_star_complete : (p i : Text) → is_index i ≡ true → matches_star p (indexed p i) ≡ true
unfolding matches_star
matches_star_complete p i index =
    rw
      (
        starts_with-indexed p i,
        drop-append p (codes "[" ++ (i ++ codes "]")),
        ends_with-append (codes "[" ++ i) (codes "]"),
        drop_last-append i (codes "]"),
        index,
      )
      (==_refl (indexed p i))

-- `0`, or a first digit from one to nine and digits behind it.
pub data IsDecimal : Text → Type 0 where
  nought : IsDecimal (codes "0")
  digits :
      {c : ℕ} {s : Text}
      → b'1' ≤ c
      → c ≤ b'9'
      → All (λ d. (b'0' ≤ d) × (d ≤ b'9')) s
      → IsDecimal (c ∷ s)

-- What a selector selects: `prefix[*]` the paths `prefix[i]` of the decimal numerals `i`, and any
-- other selector itself.
pub data Selects : Text → Text → Type 0 where
  each_index :
      {selector path : Text} (prefix i : Text)
      → selector ≡ prefix ++ codes "[*]"
      → path ≡ prefix ++ (codes "[" ++ (i ++ codes "]"))
      → IsDecimal i
      → Selects selector path
  itself :
      {selector path : Text}
      → ((prefix : Text) → selector ≢ prefix ++ codes "[*]")
      → path ≡ selector
      → Selects selector path

all-digits : (s : Text) → all is_digit s ≡ true → All (λ d. (b'0' ≤ d) × (d ≤ b'9')) s
all-digits [] h = tt
all-digits (d ∷ s) h =
    let (digit, rest) = &&-true (is_digit d) (all is_digit s) h in
    ((ground arith, ground arith), all-digits s rest)

digits-all : (s : Text) → All (λ d. (b'0' ≤ d) × (d ≤ b'9')) s → all is_digit s ≡ true
digits-all [] h = refl
digits-all (d ∷ s) ((low, high), rest) = ground (arith, digits-all s rest)

is_index-IsDecimal : (i : Text) → is_index i ≡ true → IsDecimal i
unfolding is_index
is_index-IsDecimal [] h = absurd (cc)
is_index-IsDecimal (c ∷ []) h = elim (Bool-cases (nat_beq c b'0')) [
  | inl zero_digit ↦
      subst (λ d. IsDecimal (d ∷ [])) (sym ((nat_beq_iff c b'0').0 zero_digit)) nought
  | inr other ↦ digits (ground arith) (ground arith) tt
]
is_index-IsDecimal (c ∷ d ∷ s) h =
    let rest : all is_digit (d ∷ s) ≡ true = ground arith in
    digits (ground arith) (ground arith) (all-digits (d ∷ s) rest)

IsDecimal-is_index : (i : Text) → IsDecimal i → is_index i ≡ true
unfolding is_index
IsDecimal-is_index _ nought = refl
IsDecimal-is_index _ (digits {c} {s} low high rest) = ground (arith, digits-all s rest)

matches_value_path-star :
    (prefix path : Text)
    → (matches_value_path (prefix ++ star) path ≡ true)
      ↔ ((i : Text) × (is_index i ≡ true) × (path ≡ indexed prefix i))
unfolding matches_value_path
matches_value_path-star prefix path =
    rw (ends_with-append prefix star, drop_last-append prefix star)
      (matches_star_sound prefix path, λ (i, index, e). rw e (matches_star_complete prefix i index))

matches_value_path_sound :
    (selector path : Text) → matches_value_path selector path ≡ true → Selects selector path
unfolding matches_value_path
matches_value_path_sound selector path h = elim (Bool-cases (ends_with selector star)) [
  | inl starred ↦
      let whole = ends_with→append selector star starred in
      let prefix = drop_last (length star) selector in
      let k : matches_star prefix path ≡ true = rw starred at h in
      let (i, index, e) = matches_star_sound prefix path k in
      each_index prefix i (sym whole) e (is_index-IsDecimal i index)
  | inr plain_text ↦
      let k : (path == selector) ≡ true = rw plain_text at h in
      itself
        (λ prefix e.
          let starred : ends_with selector star ≡ true = rw e (ends_with-append prefix star) in
          (cc))
        ((list_eq.beq_iff path selector).0 k)
]

matches_value_path_complete :
    (selector path : Text) → Selects selector path → matches_value_path selector path ≡ true
unfolding matches_value_path
matches_value_path_complete selector path (each_index prefix i whole e decimal) =
    rw whole ((matches_value_path-star prefix path).1 (i, IsDecimal-is_index i decimal, e))
matches_value_path_complete selector path (itself other e) =
    elim (Bool-cases (ends_with selector star)) [
      | inl starred ↦
          absurd (
            other (drop_last (length star) selector) (sym (ends_with→append selector star starred)))
      | inr plain_text ↦ rw plain_text ((list_eq.beq_iff path selector).1 e)
    ]

-- A selector matches exactly the paths that it selects: one that ends in `[*]` the paths that have a
-- decimal index without leading zeros, in brackets, in its place, and any other selector itself.
pub matches_value_path-Selects :
    (selector path : Text) → (matches_value_path selector path ≡ true) ↔ Selects selector path
matches_value_path-Selects selector path =
    (matches_value_path_sound selector path, matches_value_path_complete selector path)
