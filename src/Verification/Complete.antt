-- ===== src/Verification/Complete.antt =====
-- The completeness half: which parent tokens a response keeps.
use decision_memory.Prelude.{
  Bool-cases, some_inj, nat_eq, pair_eq, list_eq, any, All, All-of_In, any→In, In→any, In, ◌≡◌,
  refl, sym, ap, ◌∙◌, ◌⊎◌, inl, inr, true, false, none, some, List, [], ◌∷◌, ◌++◌, arith,
}
use decision_memory.Text.{Text}
use decision_memory.Vocabulary.{is_exempt}
use decision_memory.Verification.{tokens_match, first_omitted}
use decision_memory.Verification.Matching.{tokens_match_refl}

-- The parent token needs no match, or some token of the response matches it.
abbrev pub Kept : List Text → Text → Type 0
Kept response parent =
    (is_exempt parent ≡ true) ⊎ ((t : Text) × In t response × (tokens_match parent t ≡ true))

-- `token` is the first parent token that the response does not keep.
pub record IsFirstOmitted (response parents : List Text) (token : Text) : Type 0 where
  pub before : List Text
  pub after : List Text
  pub split : parents ≡ before ++ token ∷ after
  pub kept_before : All (Kept response) before
  pub demanded : is_exempt token ≡ false
  pub unmatched : any (tokens_match token) response ≡ false

module _ (response : List Text) where
  Kept-or_omitted :
      (parent : Text)
      → Kept response parent
        ⊎ ((is_exempt parent ≡ false) × (any (tokens_match parent) response ≡ false))
  Kept-or_omitted parent = elim (Bool-cases (is_exempt parent)) [
    | inl exempt ↦ inl (inl exempt)
    | inr demanded ↦ elim (Bool-cases (any (tokens_match parent) response)) [
      | inl matched ↦ inl (inr (any→In (tokens_match parent) response matched))
      | inr unmatched ↦ inr (demanded, unmatched)
    ]
  ]

  first_omitted-Kept :
      (parent : Text) (parents : List Text)
      → Kept response parent
      → first_omitted response (parent ∷ parents) ≡ first_omitted response parents
  unfolding first_omitted
  first_omitted-Kept parent parents (inl exempt) = rw exempt
  first_omitted-Kept parent parents (inr (t, m, same)) =
      rw (In→any (tokens_match parent) response m same) (ground arith)

  first_omitted-omitted :
      (parent : Text) (parents : List Text)
      → is_exempt parent ≡ false
      → any (tokens_match parent) response ≡ false
      → first_omitted response (parent ∷ parents) ≡ some parent
  unfolding first_omitted
  first_omitted-omitted parent parents demanded unmatched = rw (demanded, unmatched)

  pub first_omitted-none :
      (parents : List Text) → first_omitted response parents ≡ none → All (Kept response) parents
  first_omitted-none [] h = tt
  first_omitted-none (parent ∷ parents) h = elim (Kept-or_omitted parent) [
    | inl kept ↦
        (kept, first_omitted-none parents (sym (first_omitted-Kept parent parents kept) ∙ h))
    | inr (demanded, unmatched) ↦
        let impossible : some parent ≡ none =
          sym (first_omitted-omitted parent parents demanded unmatched) ∙ h in
        (cc)
  ]

  pub All-Kept→first_omitted :
      (parents : List Text) → All (Kept response) parents → first_omitted response parents ≡ none
  unfolding first_omitted
  All-Kept→first_omitted [] all_kept = refl
  All-Kept→first_omitted (parent ∷ parents) (kept, rest) =
      first_omitted-Kept parent parents kept ∙ All-Kept→first_omitted parents rest

  pub first_omitted-some :
      (parents : List Text) (token : Text)
      → first_omitted response parents ≡ some token
      → IsFirstOmitted response parents token
  unfolding first_omitted
  first_omitted-some [] token h = cc
  first_omitted-some (parent ∷ parents) token h = elim (Kept-or_omitted parent) [
    | inl kept ↦
        let later =
          first_omitted-some parents token (sym (first_omitted-Kept parent parents kept) ∙ h) in
        record {
          before = parent ∷ later.before;
          after = later.after;
          split = ap (λ l. parent ∷ l) later.split;
          kept_before = (kept, later.kept_before);
          demanded = later.demanded;
          unmatched = later.unmatched;
        }
    | inr (demanded, unmatched) ↦
        let same : parent ≡ token =
          some_inj (sym (first_omitted-omitted parent parents demanded unmatched) ∙ h) in
        record {
          before = [];
          after = parents;
          split = ap (λ t. t ∷ parents) same;
          kept_before = tt;
          demanded = rw (← same) demanded;
          unmatched = rw (← same) unmatched;
        }
  ]

-- Every token of the parent that the response repeats is kept.
pub All-Kept_self : (parents : List Text) → All (Kept parents) parents
All-Kept_self parents = All-of_In parents (λ t m. inr (t, m, tokens_match_refl t))
