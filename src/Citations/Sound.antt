-- ===== src/Citations/Sound.antt =====
-- The invariant of the allocation: the ids are `1`, `2`, … without a gap, a location is cited once, and
-- every id of a sentence is one of them.

use decision_memory.Prelude.{
  All-map, All-snoc, Bool-cases, Option-cases, some_inj, nat_eq, ◌==◌, pair_eq, list_eq, length,
  All, length-append, NoRepeat, In, here, there, map-snoc, count_up, keys, get, put, ℕ, zero, suc,
  ◌+◌, ◌≤◌, ◌<◌, ◌≡◌, refl, sym, ap, ◌∙◌, subst, inl, inr, none, some, List, [], ◌∷◌, ◌++◌, map,
  arith,
}
use decision_memory.Text.{Text}
use decision_memory.Sorting.{}
use decision_memory.Sorting.Perms.{}
use decision_memory.Dto.{SourceReference, ActiveChunkDescriptor}
use decision_memory.Citations.{
  Location, location, new_citation, cite_source, ResolutionState, Citation, Allocation,
}
use decision_memory.Citations.Locations.{
  location_of, seen_of, count_up-snoc, get-none→put, get-none→contains, NoRepeat-snoc,
}

abbrev pub Within : ℕ → ℕ → Type 0
Within n i = (0 < i) × (i ≤ n)

abbrev pub Resolve : ℕ → List (Text × List ℕ) → Type 0
Resolve n sentence_ids = All (λ p. All (Within n) p.1) sentence_ids

pub record IsSound (a : Allocation) : Type 0 where
  pub numbered : map (λ c. c.citation_id) a.citations ≡ count_up 1 (length a.citations)
  pub mirrored : a.seen ≡ seen_of a.citations
  pub unrepeated : NoRepeat (keys a.seen)
  pub listed : Resolve (length a.citations) a.sentence_ids
  pub resolves : All (Within (length a.citations)) a.ids

Within-mono : (n i : ℕ) → Within n i → Within (n + 1) i
Within-mono n i (h, k) = (h, omega arith)

Resolve-mono : (n : ℕ) (d : List (Text × List ℕ)) → Resolve n d → Resolve (n + 1) d
Resolve-mono n d = All-map d (λ p. All-map p.1 (Within-mono n))

pub Resolve-put :
    (n : ℕ) (d : List (Text × List ℕ)) (key : Text) (ids : List ℕ)
    → Resolve n d
    → All (Within n) ids
    → Resolve n (put d key ids)
Resolve-put n [] key ids h k = (k, tt)
Resolve-put n ((name, old) ∷ d) key ids (h, rest) k = elim (Bool-cases (name == key)) [
  | inl same ↦ rw same (k, rest)
  | inr differs ↦ rw differs (h, Resolve-put n d key ids rest k)
]

-- An id of the table is the id of a citation.
seen-In :
    (cs : List Citation) (l : Location) (i : ℕ)
    → get (seen_of cs) l ≡ some i
    → In i (map (λ c. c.citation_id) cs)
seen-In [] l i k = cc
seen-In (c ∷ cs) l i k = elim (Bool-cases (location_of c == l)) [
  | inl same ↦ here (some_inj (rw same at k))
  | inr differs ↦ there (seen-In cs l i (rw differs at k))
]

count_up-In : (start n i : ℕ) → In i (count_up start n) → (start ≤ i) × (i < start + n)
count_up-In start zero i m = elim m [ ]
count_up-In start (suc n) i (here e) = (omega arith, omega arith)
count_up-In start (suc n) i (there m) =
    let (low, high) = count_up-In (start + 1) n i m in (omega arith, omega arith)

seen-Within :
    (a : Allocation) (l : Location) (i : ℕ)
    → IsSound a
    → get a.seen l ≡ some i
    → Within (length a.citations) i
seen-Within a l i h found =
    let mirrored : get (seen_of a.citations) l ≡ some i = rw h.mirrored at found in
    let member = subst (In i) h.numbered (seen-In a.citations l i mirrored) in
    let (low, high) = count_up-In 1 (length a.citations) i member in (omega arith, omega arith)

length-snoc {ℓ} : {A : Type ℓ} (xs : List A) (x : A) → length (xs ++ x ∷ []) ≡ length xs + 1
length-snoc xs x = length-append xs (x ∷ [])

keys-snoc {ℓ κ} :
    {K : Type ℓ} {V : Type κ} (d : List (K × V)) (k : K) (v : V)
    → keys (d ++ (k, v) ∷ []) ≡ keys d ++ k ∷ []
keys-snoc d k v = map-snoc (λ p. p.0) d (k, v)

-- Citations that are numbered from one on stay so with a citation of the next number.
pub numbered-snoc :
    (cs : List Citation) (c : Citation)
    → map (λ c. c.citation_id) cs ≡ count_up 1 (length cs)
    → c.citation_id ≡ length cs + 1
    → map (λ c. c.citation_id) (cs ++ c ∷ []) ≡ count_up 1 (length (cs ++ c ∷ []))
numbered-snoc cs c numbered next =
    let n = length cs in
    let one_more : n + 1 ≡ 1 + n = omega arith in
    let up : n + 1 ≡ suc n = omega arith in
    map-snoc (λ c. c.citation_id) cs c
    ∙ (λ i. numbered i ++ (next ∙ one_more) i ∷ [])
    ∙ count_up-snoc 1 n
    ∙ ap (count_up 1) (sym (length-snoc cs c ∙ up))

-- A new citation with the next id, at a location that was not cited.
cite_new-IsSound :
    (a : Allocation) (c : Citation)
    → IsSound a
    → get a.seen (location_of c) ≡ none
    → c.citation_id ≡ length a.citations + 1
    → IsSound (record a {
      citations = a.citations ++ c ∷ [];
      seen = put a.seen (location_of c) (length a.citations + 1);
      ids = a.ids ++ (length a.citations + 1) ∷ [];
    })
cite_new-IsSound a c h fresh next =
    let n = length a.citations in
    let longer : length (a.citations ++ c ∷ []) ≡ n + 1 = length-snoc a.citations c in
    let extended = get-none→put a.seen (location_of c) (n + 1) fresh in
    record {
      numbered = numbered-snoc a.citations c h.numbered next;
      mirrored =
          extended
          ∙ (λ i. h.mirrored i ++ (location_of c, sym next i) ∷ [])
          ∙ sym (map-snoc (λ c. (location_of c, c.citation_id)) a.citations c);
      unrepeated =
          subst NoRepeat (sym (ap keys extended ∙ keys-snoc a.seen (location_of c) (n + 1))) (
            NoRepeat-snoc (keys a.seen) (location_of c) h.unrepeated
              (get-none→contains a.seen (location_of c) fresh));
      listed =
          subst (λ m. Resolve m a.sentence_ids) (sym longer)
            (Resolve-mono n a.sentence_ids h.listed);
      resolves =
          subst (λ m. All (Within m) (a.ids ++ (n + 1) ∷ [])) (sym longer)
            (All-snoc (Within (n + 1)) a.ids (n + 1) (All-map a.ids (Within-mono n) h.resolves)
              (omega arith, omega arith));
    }

module _ (stale_record_ids : List Text) (resolve_source : Text → ResolutionState) where
  pub cite_source-IsSound :
      (chunk_id : Text) (c : ActiveChunkDescriptor) (a : Allocation) (source : SourceReference)
      → IsSound a
      → IsSound (cite_source stale_record_ids resolve_source chunk_id c a source)
  unfolding cite_source
  cite_source-IsSound chunk_id c a source h =
      elim (Option-cases (get a.seen (location chunk_id source))) [
        | inr (i, found) ↦
            rw (cite_source, found)
              (record {
                numbered = h.numbered;
                mirrored = h.mirrored;
                unrepeated = h.unrepeated;
                listed = h.listed;
                resolves =
                    All-snoc (Within (length a.citations)) a.ids i h.resolves
                      (seen-Within a (location chunk_id source) i h found);
              })
        | inl fresh ↦
            rw (cite_source, fresh)
              (cite_new-IsSound a
                (new_citation stale_record_ids resolve_source (length a.citations + 1) chunk_id c
                  source)
                h fresh refl)
      ]
