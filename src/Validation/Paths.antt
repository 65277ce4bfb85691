-- ===== src/Validation/Paths.antt =====
-- The targets that the check of the evidence accepts are relative paths of proper segments.
use decision_memory.Prelude.{
  nat_beq, Bool-cases, ||-false, nat_eq, ◌==◌, pair_eq, list_eq, drop, any, All, All-of_In,
  contains, In→any, All→In, In, there, keep-In, ℕ, ◌≡◌, refl, ap, ◌∙◌, ◌≢◌, inl, inr, Bool, true,
  false, not, ◌&&◌, List, [], ◌∷◌, arith,
}
use decision_memory.Text.{
  Text, codes, is_empty, starts_with, is_space, lstrip_by, rstrip_by, strip_by, strip, join,
}
use decision_memory.Text.Affixes.{starts_with→append}
use decision_memory.Text.Segments.{push, split_on}
use decision_memory.Records.Sources.{
  target_is_not_normalized, nonempty, without_dot, normalize_target,
}

module _ (drops : ℕ → Bool) where
  rstrip_by_idem : (s : Text) → rstrip_by drops (rstrip_by drops s) ≡ rstrip_by drops s
  rstrip_by_idem [] = refl
  rstrip_by_idem (c ∷ s) = elim (Bool-cases (drops c && is_empty (rstrip_by drops s))) [
    | inl ends ↦ rw (ends) refl
    | inr stays ↦ rw (stays, rstrip_by_idem s, stays) refl
  ]

  -- Nothing is stripped from the left of a text that begins with another character.
  lstrip_by_kept :
      (s : Text)
      → lstrip_by drops (rstrip_by drops (lstrip_by drops s)) ≡ rstrip_by drops (lstrip_by drops s)
  lstrip_by_kept [] = refl
  lstrip_by_kept (c ∷ s) = elim (Bool-cases (drops c)) [
    | inl dropped ↦ rw dropped (lstrip_by_kept s)
    | inr stays ↦
        let e : (drops c && is_empty (rstrip_by drops s)) ≡ false = ground arith in
        rw (stays, e, stays) refl
  ]

  strip_by_idem : (s : Text) → strip_by drops (strip_by drops s) ≡ strip_by drops s
  strip_by_idem s =
      ap (λ t. rstrip_by drops t) (lstrip_by_kept s) ∙ rstrip_by_idem (lstrip_by drops s)

-- The parts of a split contain no separator.
push-Plain :
    (sep c : ℕ) (parts : List Text)
    → nat_beq c sep ≡ false
    → All (λ p. contains p sep ≡ false) parts
    → All (λ p. contains p sep ≡ false) (push c parts)
push-Plain sep c [] h k = (ground arith, tt)
push-Plain sep c (part ∷ parts) h (k, rest) = (ground arith, rest)

split_on-Plain : (sep : ℕ) (s : Text) → All (λ p. contains p sep ≡ false) (split_on sep s)
split_on-Plain sep [] = (refl, tt)
split_on-Plain sep (c ∷ s) = elim (Bool-cases (nat_beq c sep)) [
  | inl cut ↦ rw cut (refl, split_on-Plain sep s)
  | inr same ↦ rw same (push-Plain sep c (split_on sep s) same (split_on-Plain sep s))
]

-- What is left of a text behind `./` has only parts of the text.
without_dot-In :
    (s : Text) {p : Text} → In p (split_on b'/' (without_dot s)) → In p (split_on b'/' s)
without_dot-In s {p} m = elim (Bool-cases (starts_with s (codes "./"))) [
  | inr no_dot ↦ rw no_dot at m
  | inl dot ↦
      let (u, e) = starts_with→append s (codes "./") dot in
      let n : In p (split_on b'/' (drop 2 s)) = rw dot at m in rw e (there (rw e at n))
]

-- A segment of a relative path that does not lead upwards.
abbrev pub IsSegment : Text → Type 0
IsSegment p = (p ≢ []) × (contains p b'/' ≡ false) × (p ≢ codes "..")

-- A target that is not refused as unnormalized normalizes to segments joined by slashes, none of
-- them empty, none with a slash and none of them `..`.
pub normalize_target-Segments :
    (given : Text)
    → target_is_not_normalized (strip given) ≡ false
    → (parts : List Text) × (normalize_target (strip given) ≡ join (codes "/") parts)
      × All IsSegment parts
unfolding normalize_target target_is_not_normalized
normalize_target-Segments given h = (
  nonempty (split_on b'/' (without_dot (strip given))),
  ap (λ t. join (codes "/") (nonempty (split_on b'/' (without_dot t))))
      (strip_by_idem is_space given),
  All-of_In _ (λ p m.
      let (n, there_is) = keep-In (λ part. not (is_empty part)) _ m in
      (
        λ e.
            let k : not (is_empty p) ≡ false = rw e refl in
            let t : not (is_empty p) ≡ true = there_is in (cc),
        All→In (λ q. contains q b'/' ≡ false) (split_on-Plain b'/' (without_dot (strip given))) n,
        λ e.
            let up =
              In→any (λ part. part == codes "..") (split_on b'/' (strip given))
                (without_dot-In (strip given) n) ((list_eq.beq_iff p (codes "..")).1 e) in
            let (_, rest) = ||-false _ _ h in
            let (none_up, _) = ||-false _ _ rest in
            let yes_up : any (λ part. part == codes "..") (split_on b'/' (strip given)) ≡ true =
              up in
            let no_up : any (λ part. part == codes "..") (split_on b'/' (strip given)) ≡ false =
              none_up in
            (cc),
      )),
)
