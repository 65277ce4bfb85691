-- ===== src/Validation/Sound.antt =====
-- Each check reports no error exactly when its part of the schema holds.
use decision_memory.Prelude.{
  Bool-cases, some_inj, &&-true, &&-intro, nat_eq, ◌==◌, pair_eq, list_eq, any, All, any→In, In→any,
  In, ℕ, ◌≡◌, refl, sym, ap, ◌∙◌, ◌≢◌, ◌↔◌, ◌⊎◌, inl, inr, Bool, true, false, Option, none, some,
  option_map, List, [], ◌∷◌, ◌++◌, arith,
}
use decision_memory.Text.{Text, is_empty, is_space, strip}
use decision_memory.Text.Segments.{}
use decision_memory.Records.{status_value, Status, proposed, accepted, superseded, rejected, error}
use decision_memory.Records.Fields.{
  has_errors, report, violation, is_missing_str, alphanumeric, id_char, ends_here, id_tail,
  id_pattern, check_id_format,
}
use decision_memory.Records.Sources.{}
use decision_memory.Validation.{
  is_populated, check_rationale, check_supersedes, date_pattern, check_date_format,
}
use decision_memory.Validation.Accepts.{Clean, Clean-report_error}
use decision_memory.Validation.WellFormed.{Populated, IsId, HasId, IsDate}

pub is_empty_iff {ℓ} : {A : Type ℓ} (xs : List A) → (is_empty xs ≡ false) ↔ (xs ≢ [])
is_empty_iff [] = (λ h. cc, λ h. absurd (h refl))
is_empty_iff (x ∷ xs) = (λ h e. cc, λ h. refl)

pub is_missing_str-Populated : (o : Option Text) → (is_missing_str o ≡ false) ↔ Populated o
unfolding is_missing_str
is_missing_str-Populated none = (λ h. cc, λ h. absurd h)
is_missing_str-Populated (some t) = is_empty_iff (strip t)

pub status_missing :
    (o : Option Status) → (is_missing_str (option_map status_value o) ≡ false) ↔ (o ≢ none)
unfolding is_missing_str status_value is_space
status_missing none = (λ h. cc, λ h. absurd (h refl))
status_missing (some proposed) = (λ h e. cc, λ h. refl)
status_missing (some accepted) = (λ h e. cc, λ h. refl)
status_missing (some superseded) = (λ h e. cc, λ h. refl)
status_missing (some rejected) = (λ h e. cc, λ h. refl)

ends_here-Ending : (s : Text) → (ends_here s ≡ true) ↔ ((s ≡ []) ⊎ (s ≡ 10 ∷ []))
ends_here-Ending [] = (λ h. inl refl, λ h. refl)
ends_here-Ending (c ∷ []) = (
  λ h. inr (let e : c ≡ 10 = ground arith in λ i. e i ∷ []),
  λ p. elim p [ inl e ↦ absurd (cc) | inr e ↦ let k : c ≡ 10 = cc in ground arith ],
)
ends_here-Ending (c ∷ d ∷ s) =
    (λ h. absurd (ground arith), λ p. elim p [ inl e ↦ absurd (cc) | inr e ↦ absurd (cc) ])

-- Ids.
id_tail-split :
    (s : Text)
    → id_tail s ≡ true
    → (b : Text) × (e : Text) × (s ≡ b ++ e)
      × All (λ d. id_char d ≡ true) b
      × ((e ≡ []) ⊎ (e ≡ 10 ∷ []))
id_tail-split [] h = ([], [], refl, tt, inl refl)
id_tail-split (c ∷ s) h = elim (Bool-cases (id_char c)) [
  | inl fits ↦
      let (b, e, same, chars, ending) = id_tail-split s (rw fits at h) in
      (c ∷ b, e, ap (λ t. c ∷ t) same, (fits, chars), ending)
  | inr ends ↦ ([], c ∷ s, refl, tt, (ends_here-Ending (c ∷ s)).0 (rw ends at h))
]

id_tail-append :
    (b e : Text)
    → All (λ d. id_char d ≡ true) b
    → (e ≡ []) ⊎ (e ≡ 10 ∷ [])
    → id_tail (b ++ e) ≡ true
id_tail-append [] e chars (inl end) = rw end refl
id_tail-append [] e chars (inr end) = rw end refl
id_tail-append (c ∷ b) e (now, chars) ending = rw now (id_tail-append b e chars ending)

pub id_pattern-IsId : (t : Text) → (id_pattern t ≡ true) ↔ IsId t
unfolding id_pattern
id_pattern-IsId [] = (λ h. absurd (cc), λ p. absurd (let e = p.3 in (cc)))
id_pattern-IsId (c ∷ s) = (
  λ h.
      let (first, rest) = &&-true (alphanumeric c) (id_tail s) h in
      let (b, e, same, chars, ending) = id_tail-split s rest in
      (c, b, e, ap (λ t. c ∷ t) same, first, chars, ending),
  λ p.
      let (d, b, e, same, first, chars, ending) = p in
      let head : c ≡ d = cc in
      let tail : s ≡ b ++ e = cc in
      &&-intro {a = alphanumeric c} (rw head first) (rw tail (id_tail-append b e chars ending)),
)

pub check_id-HasId :
    (repr : Text → Text) (field rule reason : Text) (o : Option Text)
    → (Clean (report (is_missing_str o) (violation field error rule reason))
        × Clean (check_id_format repr o))
      ↔ HasId o
unfolding is_missing_str
check_id-HasId repr field rule reason none =
    (λ h. let t = (Clean-report_error true field rule reason).0 h.0 in absurd (cc), λ h. absurd h)
check_id-HasId repr field rule reason (some t) = (
  λ h.
      let there_is = (Clean-report_error _ field rule reason).0 h.0 in
      let matches = (Clean-report_error _ _ _ _).0 h.1 in
      ((is_missing_str-Populated (some t)).0 there_is, (id_pattern-IsId t).0 (ground arith)),
  λ p.
      let there_is = (is_missing_str-Populated (some t)).1 p.0 in
      let matches = (id_pattern-IsId t).1 p.1 in
      (
        (Clean-report_error _ field rule reason).1 there_is,
        (Clean-report_error _ _ _ _).1 (ground arith),
      ),
)

pub is_empty→nil {ℓ} : {A : Type ℓ} (xs : List A) → is_empty xs ≡ true → xs ≡ []
is_empty→nil [] h = refl
is_empty→nil (x ∷ xs) h = cc

-- Dates.
module _ (is_decimal : ℕ → Bool) (is_calendar_date : Text → Bool) (repr : Text → Text) where
  pub check_date_format-IsDate :
      (o : Option Text)
      → Clean (check_date_format is_decimal is_calendar_date repr o)
        ↔ IsDate is_decimal is_calendar_date o
  unfolding has_errors
  check_date_format-IsDate none = (λ h. tt, λ h. refl)
  check_date_format-IsDate (some t) = elim (Bool-cases (is_empty (strip t))) [
    | inl blank ↦ rw blank (λ h. inl (is_empty→nil (strip t) blank), λ h. refl)
    | inr there_is ↦ elim (Bool-cases (date_pattern is_decimal t)) [
      | inr misshapen ↦
          rw (there_is, misshapen)
            (
              λ h. absurd (cc),
              λ p. elim p [
                | inl nil ↦ absurd ((is_empty_iff (strip t)).0 there_is nil)
                | inr (wrong, _) ↦ absurd (cc)
              ],
            )
      | inl shaped ↦ elim (Bool-cases (is_calendar_date t)) [
        | inl real ↦ rw (there_is, shaped, real) (λ h. inr (refl, refl), λ h. refl)
        | inr unreal ↦
            rw (there_is, shaped, unreal)
              (
                λ h. absurd (cc),
                λ p. elim p [
                  | inl nil ↦ absurd ((is_empty_iff (strip t)).0 there_is nil)
                  | inr (_, wrong) ↦ absurd (cc)
                ],
              )
      ]
    ]
  ]

-- At least one reason.
pub check_rationale-Reason :
    (why : List Text) (o : Option Text)
    → Clean (check_rationale why o) ↔ (((w : Text) × In w why × (strip w ≢ [])) ⊎ Populated o)
check_rationale-Reason why o = (
  λ h.
      let both = (Clean-report_error _ _ _ _).0 h in
      elim (Bool-cases (any is_populated why)) [
        | inl some_why ↦
            let (w, m, e) = any→In is_populated why some_why in
            inl (w, m, (is_empty_iff (strip w)).0 (ground arith))
        | inr no_why ↦ inr ((is_missing_str-Populated o).0 (ground arith))
      ],
  λ p. (Clean-report_error _ _ _ _).1 (elim p [
    | inl (w, m, e) ↦
        let given =
          In→any is_populated why m (let k = (is_empty_iff (strip w)).1 e in ground arith) in
        ground arith
    | inr given ↦ let k = (is_missing_str-Populated o).1 given in ground arith
  ]),
)

pub check_supersedes-Other :
    (supersedes id : Option Text)
    → Clean (check_supersedes supersedes id)
      ↔ (¬ ((t : Text) × (supersedes ≡ some t) × (id ≡ some t)))
unfolding has_errors
check_supersedes-Other none id = (λ h p. let (t, e, _) = p in (cc), λ h. refl)
check_supersedes-Other (some s) none = (λ h p. let (t, _, e) = p in (cc), λ h. refl)
check_supersedes-Other (some s) (some i) = (
  λ h p.
      let (t, e, k) = p in
      let same : s ≡ i = some_inj e ∙ sym (some_inj k) in
      let found : (s == i) ≡ true = (list_eq.beq_iff s i).1 same in
      let not_found = (Clean-report_error (s == i) _ _ _).0 h in (cc),
  λ h. (Clean-report_error (s == i) _ _ _).1 (elim (Bool-cases (s == i)) [
    | inr differs ↦ differs
    | inl same ↦ absurd (h (s, refl, ap some (sym ((list_eq.beq_iff s i).0 same))))
  ]),
)
