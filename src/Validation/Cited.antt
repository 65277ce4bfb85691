-- ===== src/Validation/Cited.antt =====
-- The check of the evidence reports no error exactly when every source is there.
use decision_memory.Prelude.{
  Bool-cases, ||-false, nat_eq, ◌==◌, pair_eq, list_eq, ==_refl, any, keep, All, any→In, contains,
  NoRepeat, contains→In, In→contains, In-singleton, In→any, concat_map, In, here, keep-In, In→keep,
  keep-NoRepeat, only_member, is_some, enumerate, ℕ, ◌+◌, ◌≡◌, refl, sym, subst, ◌↔◌, inl, inr,
  Bool, true, false, not, ◌&&◌, Option, none, some, List, [], ◌∷◌, arith,
}
use decision_memory.Text.{Text, codes, is_empty, starts_with, ends_with, strip}
use decision_memory.Text.Segments.{split_on}
use decision_memory.Records.{EvidenceKind, spec, file, commit, error, Evidence, ValidationContext}
use decision_memory.Records.Fields.{
  has_errors, report, violation, is_missing_list, listed_members, member_field, missing_kind,
}
use decision_memory.Records.Sources.{
  target_is_not_normalized, normalize_target, under_specs_dir, check_matches, is_spec, check_path,
  check_target, check_source, check_evidence_item, check_evidence,
}
use decision_memory.Validation.Accepts.{
  Clean, Clean-append, Clean-report_error, Clean-if, Clean-guard, Clean-known,
}
use decision_memory.Validation.WellFormed.{NamesOne, IsCited, IsBackedBy, IsSource, HasSources}
use decision_memory.Validation.Sound.{is_empty_iff}

Clean-check_matches :
    (field shown : Text) (xs : List Text)
    → Clean (check_matches field shown xs) ↔ ((k : Text) × (xs ≡ k ∷ []))
unfolding has_errors
Clean-check_matches field shown [] = (λ h. absurd (cc), λ p. let (k, e) = p in absurd (cc))
Clean-check_matches field shown (x ∷ []) = (λ h. (x, refl), λ p. refl)
Clean-check_matches field shown (x ∷ y ∷ xs) =
    (λ h. absurd (cc), λ p. let (k, e) = p in absurd (cc))

keep-NamesOne :
    (commits : List Text) (target : Text)
    → NoRepeat commits
    → ((k : Text) × (keep (λ k. starts_with k target) commits ≡ k ∷ [])) ↔ NamesOne commits target
keep-NamesOne commits target once = (
  λ p.
      let (k, e) = p in
      let (m, h) = keep-In (λ k. starts_with k target) commits (rw e (here refl)) in
      (
        k,
        m,
        h,
        λ other n begins.
            let found = In→keep (λ k. starts_with k target) commits n begins in
            sym (In-singleton (rw e at found)),
      ),
  λ p.
      let (k, m, h, only) = p in
      (
        k,
        only_member _ k (keep-NoRepeat (λ k. starts_with k target) commits once)
            (In→keep (λ k. starts_with k target) commits m h)
            (λ x n. let (n', b) = keep-In (λ k. starts_with k target) commits n in only x n' b),
      ),
)

not_normalized-Relative :
    (target : Text)
    → (target_is_not_normalized target ≡ false) ↔ (
        (starts_with target (codes "/") ≡ false)
        × (¬ In (codes "..") (split_on b'/' target))
        × (ends_with target (codes "/") ≡ false))
unfolding target_is_not_normalized
not_normalized-Relative target = (
  λ h.
      let (a, rest) = ||-false _ _ h in
      let (b, d) = ||-false _ _ rest in
      (
        a,
        (λ m. let k = In→any up (split_on b'/' target) m (==_refl (codes "..")) in absurd (cc)),
        d,
      ),
  λ p.
      let (a, b, d) = p in
      let none_up : any up (split_on b'/' target) ≡ false =
        elim (Bool-cases (any up (split_on b'/' target))) [
          | inr k ↦ k
          | inl k ↦
              let (x, m, e) = any→In up (split_on b'/' target) k in
              absurd (
                b (
                  subst (λ y. In y (split_on b'/' target)) ((list_eq.beq_iff x (codes "..")).0 e)
                    m))
        ] in
      ground arith,
)
  where
    up : Text → Bool
    up part = part == codes ".."

module _ (repr : Text → Text) (c : ValidationContext) where
  check_path-Cited :
      (field target : Text) (kind : EvidenceKind)
      → Clean (check_path repr c field kind target) ↔ (
          (is_spec kind && not (under_specs_dir (normalize_target target)) ≡ false)
          × IsCited c target)
  check_path-Cited field target kind =
      let outer = Clean-guard (target_is_not_normalized target) field _ _ _ in
      let inner =
        Clean-guard (is_spec kind && not (under_specs_dir (normalize_target target))) field _ _ _ in
      let known = Clean-known (contains c.existing_paths (normalize_target target)) field _ _ in
      let relative = not_normalized-Relative target in
      (
        λ h.
            let (plain, rest) = outer.0 h in
            let (inside, last) = inner.0 rest in
            let (a, b, d) = relative.0 plain in
            (
              inside,
              (a, b, d, contains→In c.existing_paths (normalize_target target) (known.0 last)),
            ),
        λ p.
            let (inside, cited) = p in
            let (a, b, d, m) = cited in
            outer.1 (
              relative.1 (a, b, d),
              inner.1 (inside, known.1 (In→contains c.existing_paths (normalize_target target) m)),
            ),
      )

  module _ (once : NoRepeat c.known_commits) where
    check_target-Backed :
        (field target : Text) (kind : EvidenceKind)
        → Clean (check_target repr c field (some kind) target) ↔ IsBackedBy c kind target
    check_target-Backed field target commit =
        let asked =
          Clean-if c.git_available (
            check_matches field (repr target) (keep (λ k. starts_with k target) c.known_commits)) in
        let found =
          Clean-check_matches field (repr target)
            (keep (λ k. starts_with k target) c.known_commits) in
        let named = keep-NamesOne c.known_commits target once in
        (
          λ h. elim (asked.0 h) [ inl e ↦ inl e | inr k ↦ inr (named.0 (found.0 k)) ],
          λ h. asked.1 (elim h [ inl e ↦ inl e | inr k ↦ inr (found.1 (named.1 k)) ]),
        )
    check_target-Backed field target spec =
        let path = check_path-Cited field target spec in
        (
          λ h. let (inside, cited) = path.0 h in (ground arith, cited),
          λ p. let (inside, cited) = p in path.1 (ground arith, cited),
        )
    check_target-Backed field target file =
        let path = check_path-Cited field target file in
        (λ h. (path.0 h).1, λ cited. path.1 (refl, cited))

    -- The check of one source, and that it has a kind.
    check_source-Source :
        (field : Text) (kind : Option EvidenceKind) (target : Option Text)
        → ((is_some kind ≡ true) × Clean (check_source repr c field kind target))
          ↔ IsSource c kind target
    unfolding has_errors
    check_source-Source field none target = (λ h. absurd (cc), λ h. absurd h)
    check_source-Source field (some kind) none = (λ h. absurd (cc), λ h. absurd h)
    check_source-Source field (some kind) (some target) =
        let there_is =
          Clean-guard (is_empty (strip target)) field (codes "evidence.empty_target")
            (codes "evidence target is empty")
            (check_target repr c field (some kind) (strip target)) in
        let some_text = is_empty_iff (strip target) in
        let backed = check_target-Backed field (strip target) kind in
        (
          λ h. let (a, b) = there_is.0 h.1 in (some_text.0 a, backed.0 b),
          λ p. (refl, there_is.1 (some_text.1 p.0, backed.1 p.1)),
        )

    has_kind : (n : ℕ) (e : Evidence) → Clean (missing_kind (n, e)) ↔ (is_some e.kind ≡ true)
    has_kind n e =
        let k = Clean-report_error (not (is_some e.kind)) _ _ _ in
        (λ h. let t = k.0 h in ground arith, λ h. k.1 (ground arith))

    -- The kinds that are asked for and the sources that are checked, over all the evidence.
    sources-All :
        (start : ℕ) (es : List Evidence)
        → (Clean (concat_map missing_kind (enumerate start es))
            × Clean (concat_map (check_evidence_item repr c) (enumerate start es)))
          ↔ All (λ (e : Evidence). IsSource c e.kind e.target) es
    unfolding has_errors
    sources-All start [] = (λ h. tt, λ h. (refl, refl))
    sources-All start (e ∷ es) =
        let kinds = Clean-append (missing_kind (start, e)) _ in
        let targets = Clean-append (check_evidence_item repr c (start, e)) _ in
        let rest = sources-All (start + 1) es in
        let one =
          check_source-Source (member_field (codes "evidence") start (codes ".target")) e.kind
            e.target in
        (
          λ h.
              let (k, ks) = kinds.0 h.0 in
              let (t, ts) = targets.0 h.1 in (one.0 ((has_kind start e).0 k, t), rest.0 (ks, ts)),
          λ p.
              let (k, t) = one.1 p.0 in
              let (ks, ts) = rest.1 p.1 in
              (kinds.1 ((has_kind start e).1 k, ks), targets.1 (t, ts)),
        )

    -- The evidence of a record: there is some, and each source is there.
    pub evidence-HasSources :
        (field rule reason : Text) (o : Option (List Evidence))
        → (Clean (report (is_missing_list o) (violation field error rule reason))
            × Clean (concat_map missing_kind (enumerate 0 (listed_members o)))
            × Clean (check_evidence repr c o))
          ↔ HasSources c o
    unfolding is_missing_list has_errors
    evidence-HasSources field rule reason none = (λ h. absurd (let k = h.0 in (cc)), λ h. absurd h)
    evidence-HasSources field rule reason (some es) =
        let listed = Clean-report_error (is_empty es) field rule reason in
        let each = sources-All 0 es in
        (
          λ h. let (a, b, d) = h in ((is_empty_iff es).0 (listed.0 a), each.0 (b, d)),
          λ p. let (b, d) = each.1 p.1 in (listed.1 ((is_empty_iff es).1 p.0), b, d),
        )
