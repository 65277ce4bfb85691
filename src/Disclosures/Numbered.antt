-- ===== src/Disclosures/Numbered.antt =====
-- The citations of the disclosures carry on the numbers of the citations of the answer, and each
-- sentence cites its own.
use decision_memory.Prelude.{
  if◌then◌else◌, nat_eq, pair_eq, list_eq, length, length-append, contains, map-snoc, count_up, ℕ,
  ◌+◌, ◌≡◌, refl, sym, ap, ◌∙◌, subst, List, [], ◌∷◌, ◌++◌, append-nil, append_assoc, map, Option,
}
use decision_memory.Text.{Text}
use decision_memory.Sorting.{sort_by}
use decision_memory.Dto.{ActiveChunkDescriptor}
use decision_memory.Ingest.Entries.{IngestEntry}
use decision_memory.Citations.{
  CitationFreshness, current, stale_version, allocate_citations, ResolutionState, Citation,
  DraftSentence,
}
use decision_memory.Citations.Sound.{numbered-snoc}
use decision_memory.Citations.Loops.{allocate_citations-Resolve}
use decision_memory.Disclosures.{
  sorted_notices, manifest_by_id, disclosure_citation, disclose_notice, disclose,
  render_disclosures, SupersessionNotice, Disclosed,
}

-- The numbers of the citations, from one on.
abbrev pub AreNumbered : List Citation → Type 0
AreNumbered cs = map (λ c. c.citation_id) cs ≡ count_up 1 (length cs)

-- What a citation says of a record: its id, the evidence, and whether the record is stale.
abbrev pub cited_record : Citation → Text × (Text × CitationFreshness)
cited_record c = (c.record_id, (c.evidence_id, c.freshness))

abbrev pub noticed_record : List Text → SupersessionNotice → Text × (Text × CitationFreshness)
noticed_record stale_record_ids n = (
  n.successor_id,
  (
    n.metadata_evidence_id,
    if contains stale_record_ids n.successor_id then stale_version else current,
  ),
)

-- What holds behind the loop over `notices`, with the citations `prior` before it.
pub record IsDisclosed (prior : List Citation) (stale_record_ids : List Text)
    (notices : List SupersessionNotice) (d : Disclosed) : Type 0 where
  pub numbered : AreNumbered (prior ++ d.citations)
  pub own : map (λ s. s.citation_ids) d.sentences ≡ map (λ c. c.citation_id ∷ []) d.citations
  pub noticed : map cited_record d.citations ≡ map (noticed_record stale_record_ids) notices

module _ (resolve_source : Text → ResolutionState) (stale_record_ids : List Text)
    (table : List (Text × IngestEntry)) (prior : List Citation) where
  disclose_notice-IsDisclosed :
      (index : ℕ) (d : Disclosed) (done : List SupersessionNotice) (n : SupersessionNotice)
      → IsDisclosed prior stale_record_ids done d
      → IsDisclosed prior stale_record_ids
          (done ++ n ∷ [])
          (disclose_notice resolve_source stale_record_ids table (length prior) index d n)
  disclose_notice-IsDisclosed index d done n h =
      let next = length prior + length d.citations + 1 in
      let c = disclosure_citation resolve_source stale_record_ids table (length prior) next n in
      record {
        numbered = subst AreNumbered (append_assoc prior d.citations (c ∷ [])) (
            numbered-snoc (prior ++ d.citations) c h.numbered
              (ap (λ k. k + 1) (sym (length-append prior d.citations))));
        own =
            map-snoc (λ s. s.citation_ids) d.sentences _
            ∙ (λ i. h.own i ++ (next ∷ []) ∷ [])
            ∙ sym (map-snoc (λ c. c.citation_id ∷ []) d.citations c);
        noticed =
            map-snoc cited_record d.citations c
            ∙ (λ i. h.noticed i ++ cited_record c ∷ [])
            ∙ sym (map-snoc (noticed_record stale_record_ids) done n);
      }

  disclose-IsDisclosed :
      (index : ℕ) (d : Disclosed) (done notices : List SupersessionNotice)
      → IsDisclosed prior stale_record_ids done d
      → IsDisclosed prior stale_record_ids
          (done ++ notices)
          (disclose resolve_source stale_record_ids table (length prior) index d notices)
  disclose-IsDisclosed index d done [] h =
      subst (λ ns. IsDisclosed prior stale_record_ids ns d) (sym (append-nil done)) h
  disclose-IsDisclosed index d done (n ∷ ns) h =
      let d' = disclose_notice resolve_source stale_record_ids table (length prior) index d n in
      let k =
        disclose-IsDisclosed (index + 1) d' (done ++ n ∷ []) ns
          (disclose_notice-IsDisclosed index d done n h) in
      subst
        (λ ns'.
          IsDisclosed prior stale_record_ids ns'
            (disclose resolve_source stale_record_ids table (length prior) (index + 1) d' ns))
        (append_assoc done (n ∷ []) ns) k

module _ (stale_record_ids : List Text) (resolve_source : Text → ResolutionState) where
  render_disclosures-IsDisclosed :
      (manifest : Option (List IngestEntry)) (notices : List SupersessionNotice)
      (prior : List Citation)
      → AreNumbered prior
      → IsDisclosed prior stale_record_ids
          (sorted_notices notices)
          (render_disclosures manifest notices resolve_source stale_record_ids (length prior))
  unfolding render_disclosures sort_by
  render_disclosures-IsDisclosed manifest [] prior h = record {
    numbered = subst AreNumbered (sym (append-nil prior)) h;
    own = refl;
    noticed = refl;
  }
  render_disclosures-IsDisclosed manifest (n ∷ ns) prior h =
      disclose-IsDisclosed resolve_source stale_record_ids (manifest_by_id manifest) prior 1
        (record { sentences = []; citations = [] }) [] (sorted_notices (n ∷ ns))
        (record {
          numbered = subst AreNumbered (sym (append-nil prior)) h;
          own = refl;
          noticed = refl;
        })

  -- The citations of the answer and the disclosures behind them are numbered from one on without a
  -- gap, each disclosure sentence cites its own citation and no other, and the disclosures cite the
  -- successor, its stored evidence and whether the successor is stale, once for every notice, in
  -- the order of the sorted notices.
  pub render_disclosures-numbered :
      (sentences : List DraftSentence) (chunk_by_id : Text → Option ActiveChunkDescriptor)
      (manifest : Option (List IngestEntry)) (notices : List SupersessionNotice)
      → let prior = (allocate_citations stale_record_ids resolve_source sentences chunk_by_id).0 in
        let d =
          render_disclosures manifest notices resolve_source stale_record_ids (length prior) in
        (map (λ c. c.citation_id) (prior ++ d.citations)
          ≡ count_up 1 (length (prior ++ d.citations)))
        × (map (λ s. s.citation_ids) d.sentences ≡ map (λ c. c.citation_id ∷ []) d.citations)
        × (map cited_record d.citations
            ≡ map (noticed_record stale_record_ids) (sorted_notices notices))
  render_disclosures-numbered sentences chunk_by_id manifest notices =
      let resolved =
        allocate_citations-Resolve stale_record_ids resolve_source sentences chunk_by_id in
      let h =
        render_disclosures-IsDisclosed manifest notices
          (allocate_citations stale_record_ids resolve_source sentences chunk_by_id).0 resolved.0 in
      (h.numbered, h.own, h.noticed)
