-- ===== src/Morphology/Match.antt =====
-- The two matchers of morphology.py, and how they compare.
use decision_memory.Prelude.{
  ltb, Bool-cases, &&-true, ||-true, ||-left, ||-right, Bool-ext, ◌==◌, nat_eq, pair_eq, list_eq,
  length, any, length-append, any→In, contains, contains→In, In→contains, In→any, All→In, In, ◌≤◌,
  ◌<◌, ◌≡◌, refl, sym, ap, ◌∙◌, ◌↔◌, ◌⊎◌, inl, inr, true, false, ◌&&◌, ◌||◌, [], ◌∷◌, ◌++◌, arith,
}
use decision_memory.Text.{Text, codes, drop_last, last_char, ends_with}
use decision_memory.Text.Affixes.{
  drop_last-append, last_char-append, ends_with-append, ends_with→append, append-last,
}
use decision_memory.Morphology.{
  inflection_suffixes, min_stem_length, tail_suffixes, y_suffixes, plain_test, tail_test, y_test,
  stem_match_ordered, stem_match, base_set, base_sets_intersect,
}
use decision_memory.Morphology.Rules.{IsBase, Inflects, plain, final_e, doubled, final_y}
use decision_memory.Morphology.Exact.{base_set-exact}

text_eq : (s t : Text) → (s == t) ≡ true → s ≡ t
text_eq s t = (list_eq.beq_iff s t).0

eq_text : (s t : Text) → s ≡ t → (s == t) ≡ true
eq_text s t = (list_eq.beq_iff s t).1

module _ (s l : Text) (long : min_stem_length ≤ length s) where
  plain_test→Inflects :
      (suffix : Text) → In suffix inflection_suffixes → plain_test s l suffix ≡ true → Inflects s l
  plain_test→Inflects suffix listed h = plain suffix listed long (text_eq _ _ h)

  tail_test→Inflects :
      (suffix : Text) → In suffix tail_suffixes → tail_test s l suffix ≡ true → Inflects s l
  tail_test→Inflects suffix listed h =
      elim (||-true (ends_with s (codes "e") && l == drop_last 1 s ++ suffix) _ h) [
        | inl t ↦
            let (ends, same) = &&-true (ends_with s (codes "e")) _ t in
            final_e (drop_last 1 s) suffix listed long (sym (ends_with→append s (codes "e") ends))
              (text_eq _ _ same)
        | inr t ↦
            let (p, c, e) = append-last s (omega arith) in
            let last : last_char s ≡ c ∷ [] = ap last_char e ∙ last_char-append p c in
            doubled p c suffix listed long e (text_eq l _ t ∙ ap (λ u. s ++ (u ++ suffix)) last)
      ]

  y_test→Inflects : (suffix : Text) → In suffix y_suffixes → y_test s l suffix ≡ true → Inflects s l
  y_test→Inflects suffix listed h =
      let (ends, same) = &&-true (ends_with s (codes "y")) _ h in
      final_y (drop_last 1 s) suffix listed long (sym (ends_with→append s (codes "y") ends))
        (text_eq _ _ same)

  tests→Inflects :
      (any (plain_test s l) inflection_suffixes
          || (any (tail_test s l) tail_suffixes || any (y_test s l) y_suffixes))
        ≡ true
      → Inflects s l
  tests→Inflects h = elim (||-true (any (plain_test s l) inflection_suffixes) _ h) [
    | inl t ↦
        let (x, listed, test) = any→In (plain_test s l) inflection_suffixes t in
        plain_test→Inflects x listed test
    | inr t ↦ elim (||-true (any (tail_test s l) tail_suffixes) _ t) [
      | inl u ↦
          let (x, listed, test) = any→In (tail_test s l) tail_suffixes u in
          tail_test→Inflects x listed test
      | inr u ↦
          let (x, listed, test) = any→In (y_test s l) y_suffixes u in y_test→Inflects x listed test
    ]
  ]

stem_match_ordered→Inflects : (s l : Text) → stem_match_ordered s l ≡ true → Inflects s l
unfolding stem_match_ordered
stem_match_ordered→Inflects s l h = elim (Bool-cases (ltb (length s) min_stem_length)) [
  | inl short ↦ let impossible : false ≡ true = rw short at h in (cc)
  | inr other ↦ tests→Inflects s l (ground arith) (rw other at h)
]

Inflects→stem_match_ordered : (s l : Text) → Inflects s l → stem_match_ordered s l ≡ true
unfolding stem_match_ordered
Inflects→stem_match_ordered s l (plain suffix listed long e) =
    let test : plain_test s l suffix ≡ true = eq_text _ _ e in
    ground (arith, In→any (plain_test s l) inflection_suffixes listed test)
Inflects→stem_match_ordered s l (final_e p suffix listed long e f) =
    let test : tail_test s l suffix ≡ true =
      rw (e, f, ends_with-append p (codes "e"), drop_last-append p (codes "e"))
        (||-left _ (eq_text (p ++ suffix) _ refl)) in
    ground (arith, In→any (tail_test s l) tail_suffixes listed test)
Inflects→stem_match_ordered s l (doubled p c suffix listed long e f) =
    let last : last_char s ≡ c ∷ [] = ap last_char e ∙ last_char-append p c in
    let test : tail_test s l suffix ≡ true =
      ||-right _ (eq_text l _ (f ∙ ap (λ u. s ++ (u ++ suffix)) (sym last))) in
    ground (arith, In→any (tail_test s l) tail_suffixes listed test)
Inflects→stem_match_ordered s l (final_y p suffix listed long e f) =
    let test : y_test s l suffix ≡ true =
      rw (e, f, ends_with-append p (codes "y"), drop_last-append p (codes "y"))
        (eq_text (p ++ (codes "i" ++ suffix)) _ refl) in
    ground (arith, In→any (y_test s l) y_suffixes listed test)

-- An inflection is longer than what it comes from.
suffix_length : {x : Text} → In x inflection_suffixes → 1 ≤ length x
suffix_length m = All→In (λ x. 1 ≤ length x) (omega arith) m

tail_length : {x : Text} → In x tail_suffixes → 2 ≤ length x
tail_length m = All→In (λ x. 2 ≤ length x) (omega arith) m

y_length : {x : Text} → In x y_suffixes → 2 ≤ length x
y_length m = All→In (λ x. 2 ≤ length x) (omega arith) m

Inflects-length-lt : (s l : Text) → Inflects s l → length s < length l
Inflects-length-lt s l (plain x listed long e) =
    omega (arith, ap length e, length-append s x, suffix_length listed)
Inflects-length-lt s l (final_e p x listed long e f) = omega (
  arith,
  ap length e,
  ap length f,
  length-append p (codes "e"),
  length-append p x,
  tail_length listed,
)
Inflects-length-lt s l (doubled p c x listed long e f) =
    omega (arith, ap length f, length-append s (c ∷ x))
Inflects-length-lt s l (final_y p x listed long e f) = omega (
  arith,
  ap length e,
  ap length f,
  length-append p (codes "y"),
  length-append p (codes "i" ++ x),
  y_length listed,
)

stem_match→rules : (a b : Text) → stem_match a b ≡ true → IsBase a b ⊎ Inflects b a
unfolding stem_match
stem_match→rules a b h = elim (Bool-cases (a == b)) [
  | inl same ↦ inl (inl (text_eq a b same))
  | inr differ ↦ elim (Bool-cases (ltb (length a) (length b))) [
    | inl shorter ↦ inl (inr (stem_match_ordered→Inflects a b (ground arith)))
    | inr longer ↦ inr (stem_match_ordered→Inflects b a (ground arith))
  ]
]

rules→stem_match : (a b : Text) → IsBase a b ⊎ Inflects b a → stem_match a b ≡ true
unfolding stem_match
rules→stem_match a b (inl (inl same)) = ground (arith, eq_text a b same)
rules→stem_match a b (inl (inr rule)) =
    ground (arith, Inflects→stem_match_ordered a b rule, Inflects-length-lt a b rule)
rules→stem_match a b (inr rule) =
    ground (arith, Inflects→stem_match_ordered b a rule, Inflects-length-lt b a rule)

-- The directional matcher accepts two tokens exactly when they are equal, or one of them comes
-- from the other by one of the four inflection rules.
pub stem_match-exact : (a b : Text) → (stem_match a b ≡ true) ↔ (IsBase a b ⊎ Inflects b a)
stem_match-exact a b = (stem_match→rules a b, rules→stem_match a b)

-- Two tokens share a base exactly when some text is a base of both by the rules.
base_sets_intersect-exact :
    (a b : Text) → (base_sets_intersect a b ≡ true) ↔ ((c : Text) × IsBase c a × IsBase c b)
unfolding base_sets_intersect
base_sets_intersect-exact a b = (there_is, found)
  where
    there_is : base_sets_intersect a b ≡ true → (c : Text) × IsBase c a × IsBase c b
    there_is h =
        let (c, m, k) = any→In (contains (base_set b)) (base_set a) h in
        (c, (base_set-exact c a).0 m, (base_set-exact c b).0 (contains→In (base_set b) c k))

    found : (c : Text) × IsBase c a × IsBase c b → base_sets_intersect a b ≡ true
    found (c, p, q) =
        In→any (contains (base_set b)) (base_set a) ((base_set-exact c a).1 p)
          (In→contains (base_set b) c ((base_set-exact c b).1 q))

-- Sharing a base does not depend on the order of the tokens.
pub base_sets_intersect_comm : (a b : Text) → base_sets_intersect a b ≡ base_sets_intersect b a
base_sets_intersect_comm a b = Bool-ext (swapped a b) (swapped b a)
  where
    swapped : (x y : Text) → base_sets_intersect x y ≡ true → base_sets_intersect y x ≡ true
    swapped x y h =
        let (c, p, q) = (base_sets_intersect-exact x y).0 h in
        (base_sets_intersect-exact y x).1 (c, q, p)

-- Every pair that the directional matcher accepts shares a base.
pub stem_match→base_sets_intersect :
    (a b : Text) → stem_match a b ≡ true → base_sets_intersect a b ≡ true
stem_match→base_sets_intersect a b h = elim ((stem_match-exact a b).0 h) [
  | inl base ↦ (base_sets_intersect-exact a b).1 (a, inl refl, base)
  | inr rule ↦ (base_sets_intersect-exact a b).1 (b, inr rule, inl refl)
]
