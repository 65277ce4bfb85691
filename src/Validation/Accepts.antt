-- ===== src/Validation/Accepts.antt =====
-- When a validated record has no violation that is an error.
use decision_memory.Prelude.{
  if◌then◌else◌, nat_eq, pair_eq, list_eq, All, concat_map, enumerate, ℕ, ◌+◌, ◌≡◌, refl, ◌↔◌, ◌⊎◌,
  inl, inr, Bool, true, false, List, [], ◌∷◌, ◌++◌, map, arith,
}
use decision_memory.Text.{Text}
use decision_memory.Text.Segments.{}
use decision_memory.Records.{error, warning, Violation}
use decision_memory.Records.Fields.{has_errors, report, violation}

-- No violation of the list is an error.
abbrev pub Clean : List Violation → Type 0
Clean vs = has_errors vs ≡ false

pub Clean-append : (xs ys : List Violation) → Clean (xs ++ ys) ↔ (Clean xs × Clean ys)
unfolding has_errors
Clean-append [] ys = (λ h. (refl, h), λ p. p.1)
Clean-append (x ∷ xs) ys = ground (arith, Clean-append xs ys)

pub Clean-report_error :
    (t : Bool) (field rule reason : Text)
    → Clean (report t (violation field error rule reason)) ↔ (t ≡ false)
unfolding has_errors
Clean-report_error true field rule reason = (λ h. h, λ h. h)
Clean-report_error false field rule reason = (λ h. refl, λ h. refl)

pub Clean-report_warning :
    (t : Bool) (field rule reason : Text) → Clean (report t (violation field warning rule reason))
unfolding has_errors
Clean-report_warning true field rule reason = refl
Clean-report_warning false field rule reason = refl

-- A list of warnings, one for each member.
pub Clean-warnings :
    (field rule reason : Text → Text) (xs : List Text)
    → Clean (map (λ x. violation (field x) warning (rule x) (reason x)) xs)
unfolding has_errors
Clean-warnings field rule reason [] = refl
Clean-warnings field rule reason (x ∷ xs) = Clean-warnings field rule reason xs

-- A check of each numbered member.
module _ {ℓ} {A : Type ℓ} (check : ℕ × A → List Violation) (P : A → Type 0) where
  pub Clean-each :
      ((n : ℕ) (a : A) → Clean (check (n, a)) ↔ P a)
      → (start : ℕ) (xs : List A) → Clean (concat_map check (enumerate start xs)) ↔ All P xs
  unfolding has_errors
  Clean-each h start [] = (λ k. tt, λ k. refl)
  Clean-each h start (x ∷ xs) =
      let both = Clean-append (check (start, x)) (concat_map check (enumerate (start + 1) xs)) in
      let rest = Clean-each h (start + 1) xs in
      (
        λ k. let (now, later) = both.0 k in ((h start x).0 now, rest.0 later),
        λ p. both.1 ((h start x).1 p.0, rest.1 p.1),
      )

  pub Clean-each_total :
      ((n : ℕ) (a : A) → Clean (check (n, a)))
      → (start : ℕ) (xs : List A) → Clean (concat_map check (enumerate start xs))
  unfolding has_errors
  Clean-each_total h start [] = refl
  Clean-each_total h start (x ∷ xs) =
      (Clean-append (check (start, x)) (concat_map check (enumerate (start + 1) xs))).1
        (h start x, Clean-each_total h (start + 1) xs)

-- The shapes of the conditional checks.
pub Clean-if :
    (g : Bool) (xs : List Violation) → Clean (if g then xs else []) ↔ ((g ≡ false) ⊎ Clean xs)
unfolding has_errors
Clean-if true xs = (λ h. inr h, λ h. elim h [ inl e ↦ absurd (cc) | inr k ↦ k ])
Clean-if false xs = (λ h. inl refl, λ h. refl)

pub Clean-guard :
    (g : Bool) (field rule reason : Text) (rest : List Violation)
    → Clean (if g then violation field error rule reason ∷ [] else rest)
      ↔ ((g ≡ false) × Clean rest)
unfolding has_errors
Clean-guard true field rule reason rest = (λ h. absurd (cc), λ p. absurd (cc))
Clean-guard false field rule reason rest = (λ h. (refl, h), λ p. p.1)

pub Clean-known :
    (g : Bool) (field rule reason : Text)
    → Clean (if g then [] else violation field error rule reason ∷ []) ↔ (g ≡ true)
unfolding has_errors
Clean-known true field rule reason = (λ h. refl, λ h. refl)
Clean-known false field rule reason = (λ h. absurd (cc), λ h. absurd (cc))

-- Two lists of which each says its part, and warnings before a list.
pub Clean-both :
    {P Q : Type 0} (xs ys : List Violation)
    → Clean xs ↔ P
    → Clean ys ↔ Q
    → Clean (xs ++ ys) ↔ (P × Q)
Clean-both xs ys f g =
    let h = Clean-append xs ys in
    (λ k. let (a, b) = h.0 k in (f.0 a, g.0 b), λ p. h.1 (f.1 p.0, g.1 p.1))

pub Clean-after :
    {Q : Type 0} (xs ys : List Violation) → Clean xs → Clean ys ↔ Q → Clean (xs ++ ys) ↔ Q
Clean-after xs ys f g = let h = Clean-append xs ys in (λ k. g.0 (h.0 k).1, λ q. h.1 (f, g.1 q))

pub itself : {P : Type 0} → P ↔ P
itself = (λ p. p, λ p. p)

pub ↔_trans : {P Q R : Type 0} → P ↔ Q → Q ↔ R → P ↔ R
↔_trans f g = (λ p. g.0 (f.0 p), λ r. f.1 (g.1 r))
