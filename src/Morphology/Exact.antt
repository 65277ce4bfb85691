-- ===== src/Morphology/Exact.antt =====
-- The functions of morphology.py compute exactly what the rules say.
use decision_memory.Prelude.{
  leb, lt→ltb, leb→le, le→leb, &&-true, ◌==◌, nat_eq, pair_eq, list_eq, ==_refl, length,
  length-append, In-append_left, In-append_right, In-append, In-if, In-singleton, In-concat_map,
  In→concat_map, In, here, there, ℕ, ◌≤◌, ◌≡◌, refl, sym, ap, ◌∙◌, subst, ◌↔◌, inl, inr, true, ◌&&◌,
  [], ◌∷◌, ◌++◌, append_assoc, arith,
}
use decision_memory.Text.{Text, codes, drop_last, last_char, second_last_char, ends_with}
use decision_memory.Text.Affixes.{
  drop_last-append, last_char-append, ends_with-append, ends_with→append, append-last,
}
use decision_memory.Morphology.{
  inflection_suffixes, min_stem_length, tail_suffixes, y_suffixes, add_base, carries, plain_bases,
  doubled_bases, tail_bases, y_bases, base_set,
}
use decision_memory.Morphology.Rules.{IsBase, Inflects, plain, final_e, doubled, final_y}

In-add_base : {b : Text} (c : Text) → In b (add_base c) → (c ≡ b) × (min_stem_length ≤ length b)
In-add_base c m =
    let (long, only) = In-if (leb min_stem_length (length c)) (c ∷ []) m in
    let e = In-singleton only in (e, subst (λ t. min_stem_length ≤ length t) e (leb→le _ _ long))

add_base-In : (c : Text) → min_stem_length ≤ length c → In c (add_base c)
add_base-In c long = rw (le→leb _ _ long) (here refl)

carries→append :
    (token suffix : Text)
    → carries token suffix ≡ true
    → drop_last (length suffix) token ++ suffix ≡ token
carries→append token suffix h = ends_with→append token suffix (&&-true _ _ h).0

carries-append : (p s : Text) → 1 ≤ length p → carries (p ++ s) s ≡ true
carries-append p s h = rw (ends_with-append p s) (lt→ltb _ _ (rw (length-append p s) (omega arith)))

In-plain_bases :
    {b : Text} (token suffix : Text)
    → In suffix inflection_suffixes
    → In b (plain_bases token suffix)
    → Inflects b token
unfolding plain_bases
In-plain_bases {b} token suffix listed m =
    let (t, added) = In-if (carries token suffix) _ m in
    let (e, long) = In-add_base _ added in
    plain suffix listed long
      (subst (λ s. token ≡ s ++ suffix) e (sym (carries→append token suffix t)))

plain_bases-In :
    (b suffix : Text) → min_stem_length ≤ length b → In b (plain_bases (b ++ suffix) suffix)
unfolding plain_bases
plain_bases-In b suffix long =
    rw (carries-append b suffix (omega arith), drop_last-append b suffix) (add_base-In b long)

-- A text whose last two characters are the same one.
doubled-append :
    (t : Text)
    → 2 ≤ length t
    → last_char t ≡ second_last_char t
    → (p : Text) × (c : ℕ) × (t ≡ (p ++ c ∷ []) ++ c ∷ []) × (drop_last 1 t ≡ p ++ c ∷ [])
doubled-append t long same =
    let (q, d, e) = append-last t (omega arith) in
    let q_long : 1 ≤ length q = omega (arith, ap length e ∙ length-append q (d ∷ [])) in
    let (p, c, f) = append-last q q_long in
    let shorter : drop_last 1 t ≡ q = ap (drop_last 1) e ∙ drop_last-append q (d ∷ []) in
    let twice : d ∷ [] ≡ c ∷ [] =
      sym (last_char-append q d)
      ∙ sym (ap last_char e)
      ∙ same
      ∙ ap last_char shorter
      ∙ ap last_char f
      ∙ last_char-append p c in
    (p, c, e ∙ (λ i. f i ++ twice i), shorter ∙ f)

In-doubled_bases :
    {b : Text} (trimmed suffix : Text)
    → In suffix tail_suffixes
    → In b (doubled_bases trimmed)
    → Inflects b (trimmed ++ suffix)
In-doubled_bases {b} trimmed suffix listed m =
    let (t, added) =
      In-if (leb 2 (length trimmed) && last_char trimmed == second_last_char trimmed) _ m in
    let (two, same) = &&-true _ _ t in
    let (e, long) = In-add_base _ added in
    let (p, c, whole, part) =
      doubled-append trimmed (leb→le _ _ two) ((list_eq.beq_iff _ _).0 same) in
    let b_is : b ≡ p ++ c ∷ [] = sym e ∙ part in
    doubled p c suffix listed long b_is (
      ap (λ s. s ++ suffix) (whole ∙ ap (λ s. s ++ c ∷ []) (sym b_is))
      ∙ append_assoc b (c ∷ []) suffix)

doubled_bases-In :
    (p : Text) (c : ℕ)
    → min_stem_length ≤ length (p ++ c ∷ [])
    → In (p ++ c ∷ []) (doubled_bases ((p ++ c ∷ []) ++ c ∷ []))
doubled_bases-In p c long =
    let q = p ++ c ∷ [] in
    let two : leb 2 (length (q ++ c ∷ [])) ≡ true =
      le→leb _ _ (rw (length-append q (c ∷ [])) (omega arith)) in
    let same : (last_char (q ++ c ∷ []) == second_last_char (q ++ c ∷ [])) ≡ true =
      rw (last_char-append q c, drop_last-append q (c ∷ []), last_char-append p c)
        (==_refl (c ∷ [])) in
    rw (two, same, drop_last-append q (c ∷ [])) (add_base-In q long)

In-tail_bases :
    {b : Text} (token suffix : Text)
    → In suffix tail_suffixes
    → In b (tail_bases token suffix)
    → Inflects b token
unfolding tail_bases
In-tail_bases {b} token suffix listed m =
    let trimmed = drop_last (length suffix) token in
    let (t, either) = In-if (carries token suffix) _ m in
    elim (In-append (add_base (trimmed ++ codes "e")) (doubled_bases trimmed) either) [
      | inl added ↦
          let (e, long) = In-add_base _ added in
          final_e trimmed suffix listed long (sym e) (sym (carries→append token suffix t))
      | inr twice ↦
          subst (Inflects b) (carries→append token suffix t)
            (In-doubled_bases trimmed suffix listed twice)
    ]

tail_bases-In_final_e :
    (p suffix : Text)
    → min_stem_length ≤ length (p ++ codes "e")
    → In (p ++ codes "e") (tail_bases (p ++ suffix) suffix)
unfolding tail_bases
tail_bases-In_final_e p suffix long =
    let short : 1 ≤ length p = omega (arith, long, length-append p (codes "e")) in
    rw (carries-append p suffix short, drop_last-append p suffix)
      (In-append_left _ (add_base-In (p ++ codes "e") long))

tail_bases-In_doubled :
    (p : Text) (c : ℕ) (suffix : Text)
    → min_stem_length ≤ length (p ++ c ∷ [])
    → In (p ++ c ∷ []) (tail_bases (((p ++ c ∷ []) ++ c ∷ []) ++ suffix) suffix)
unfolding tail_bases
tail_bases-In_doubled p c suffix long =
    let q = p ++ c ∷ [] in
    let short : 1 ≤ length (q ++ c ∷ []) = rw (length-append q (c ∷ [])) (omega arith) in
    rw (carries-append (q ++ c ∷ []) suffix short, drop_last-append (q ++ c ∷ []) suffix)
      (In-append_right (add_base ((q ++ c ∷ []) ++ codes "e")) (doubled_bases-In p c long))

In-y_bases :
    {b : Text} (token suffix : Text)
    → In suffix y_suffixes
    → In b (y_bases token suffix)
    → Inflects b token
unfolding y_bases
In-y_bases {b} token suffix listed m =
    let trimmed = drop_last (length suffix) token in
    let (t, added) = In-if (carries token suffix && ends_with trimmed (codes "i")) _ m in
    let (ends, with_i) = &&-true _ _ t in
    let (e, long) = In-add_base _ added in
    final_y (drop_last 1 trimmed) suffix listed long (sym e) (
      sym (carries→append token suffix ends)
      ∙ ap (λ s. s ++ suffix) (sym (ends_with→append trimmed (codes "i") with_i))
      ∙ append_assoc (drop_last 1 trimmed) (codes "i") suffix)

y_bases-In :
    (p suffix : Text)
    → min_stem_length ≤ length (p ++ codes "y")
    → In (p ++ codes "y") (y_bases ((p ++ codes "i") ++ suffix) suffix)
unfolding y_bases
y_bases-In p suffix long =
    let short : 1 ≤ length (p ++ codes "i") = rw (length-append p (codes "i")) (omega arith) in
    rw
      (
        carries-append (p ++ codes "i") suffix short,
        drop_last-append (p ++ codes "i") suffix,
        ends_with-append p (codes "i"),
        drop_last-append p (codes "i"),
      )
      (add_base-In (p ++ codes "y") long)

base_set_sound : (b token : Text) → In b (base_set token) → IsBase b token
unfolding base_set
base_set_sound b token (here e) = inl (sym e)
base_set_sound b token (there m) = elim (In-append _ _ m) [
  | inl m₁ ↦
      let (s, listed, k) = In-concat_map (plain_bases token) inflection_suffixes m₁ in
      inr (In-plain_bases token s listed k)
  | inr m₂ ↦ elim (In-append _ _ m₂) [
    | inl m₃ ↦
        let (s, listed, k) = In-concat_map (tail_bases token) tail_suffixes m₃ in
        inr (In-tail_bases token s listed k)
    | inr m₄ ↦
        let (s, listed, k) = In-concat_map (y_bases token) y_suffixes m₄ in
        inr (In-y_bases token s listed k)
  ]
]

Inflects→In-base_set : (b token : Text) → Inflects b token → In b (base_set token)
unfolding base_set
Inflects→In-base_set b token (plain suffix listed long e) = rw e (
    there (
      In-append_left _ (
        In→concat_map (plain_bases (b ++ suffix)) inflection_suffixes listed
          (plain_bases-In b suffix long))))
Inflects→In-base_set b token (final_e p suffix listed long e f) =
    rw (e, f)
      (there (
        In-append_right _ (
          In-append_left _ (
            In→concat_map (tail_bases (p ++ suffix)) tail_suffixes listed
              (tail_bases-In_final_e p suffix (subst (λ s. min_stem_length ≤ length s) e long))))))
Inflects→In-base_set b token (doubled p c suffix listed long e f) =
    let q = p ++ c ∷ [] in
    let whole : token ≡ (q ++ c ∷ []) ++ suffix =
      f ∙ ap (λ s. s ++ (c ∷ suffix)) e ∙ sym (append_assoc q (c ∷ []) suffix) in
    rw (e, whole)
      (there (
        In-append_right _ (
          In-append_left _ (
            In→concat_map (tail_bases ((q ++ c ∷ []) ++ suffix)) tail_suffixes listed (
              tail_bases-In_doubled p c suffix (subst (λ s. min_stem_length ≤ length s) e long))))))
Inflects→In-base_set b token (final_y p suffix listed long e f) =
    let whole : token ≡ (p ++ codes "i") ++ suffix = f ∙ sym (append_assoc p (codes "i") suffix) in
    rw (e, whole)
      (there (
        In-append_right _ (
          In-append_right _ (
            In→concat_map (y_bases ((p ++ codes "i") ++ suffix)) y_suffixes listed
              (y_bases-In p suffix (subst (λ s. min_stem_length ≤ length s) e long))))))

-- The base set of a token holds the token, and what it is an inflection of by one of the rules,
-- and nothing else.
pub base_set-exact : (b token : Text) → In b (base_set token) ↔ IsBase b token
unfolding base_set
base_set-exact b token = (base_set_sound b token, other)
  where
    other : IsBase b token → In b (base_set token)
    other (inl e) = here (sym e)
    other (inr rule) = Inflects→In-base_set b token rule
