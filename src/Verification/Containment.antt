-- ===== src/Verification/Containment.antt =====
-- The shortcut by containment in a cited chunk.
use decision_memory.Prelude.{
  if◌then◌else◌, Bool-cases, nat_eq, pair_eq, list_eq, any, any→In, In→any, In, ◌≡◌, refl, ◌≢◌, ◌↔◌,
  inl, inr, Bool, true, false, List, [], ◌∷◌, ◌++◌,
}
use decision_memory.Text.{Text, is_empty, is_substring}
use decision_memory.Text.Affixes.{is_substring→append, is_substring-append}
use decision_memory.Verification.{normalize_for_containment, deterministic_containment}

pub is_empty→nil : (t : Text) → is_empty t ≡ true → t ≡ []
is_empty→nil [] h = refl
is_empty→nil (c ∷ t) h = cc

nil→is_empty : (t : Text) → t ≢ [] → is_empty t ≡ false
nil→is_empty [] h = absurd (h refl)
nil→is_empty (c ∷ t) h = refl

module _ (fold : Text → Text) where
  -- The chunk holds the whole normalized sentence between two texts.
  abbrev pub Encloses : Text → Text → Type 0
  Encloses chunk sentence =
      (before : Text) × (after : Text) × (normalize_for_containment fold chunk
        ≡ before ++ (normalize_for_containment fold sentence ++ after))

  -- A sentence is contained exactly when it is not empty once normalized and one of the cited
  -- chunks encloses it.
  pub deterministic_containment-exact :
      (sentence : Text) (chunk_texts : List Text)
      → (deterministic_containment fold sentence chunk_texts ≡ true) ↔ (
          (normalize_for_containment fold sentence ≢ [])
          × ((chunk : Text) × In chunk chunk_texts × Encloses chunk sentence))
  unfolding deterministic_containment
  deterministic_containment-exact sentence chunk_texts = (sound, complete)
    where
      target : Text
      target = normalize_for_containment fold sentence

      holds : Text → Bool
      holds chunk = is_substring target (normalize_for_containment fold chunk)

      sound :
          (if is_empty target then false else any holds chunk_texts) ≡ true
          → (target ≢ []) × ((chunk : Text) × In chunk chunk_texts × Encloses chunk sentence)
      sound h = elim (Bool-cases (is_empty target)) [
        | inl empty ↦ let impossible : false ≡ true = rw empty at h in (cc)
        | inr filled ↦
            let (chunk, cited, inside) = any→In holds chunk_texts (rw filled at h) in
            (
              (λ e. let impossible : true ≡ false = rw e at filled in (cc)),
              (chunk, cited, is_substring→append target _ inside),
            )
      ]

      complete :
          (target ≢ []) × ((chunk : Text) × In chunk chunk_texts × Encloses chunk sentence)
          → (if is_empty target then false else any holds chunk_texts) ≡ true
      complete (filled, (chunk, cited, (p, r, e))) =
          rw (nil→is_empty target filled)
            (In→any holds chunk_texts cited (rw e (is_substring-append p target r)))
