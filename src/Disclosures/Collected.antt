-- ===== src/Disclosures/Collected.antt =====
-- The loop of `_collect_notices` keeps the first notice of each pair of a predecessor and a
-- successor, over the notices of all retrieved records.
use mathlib.Core.List.Permᴰ
use decision_memory.Prelude.{
  Bool-cases, nat_eq, pair_eq, list_eq, contains, contains→In, All, All-of_In, All→In, All-map,
  All-snoc, NoRepeat, In, here, In-append_left, In-append_right, In-concat_map, In→concat_map,
  In→map, In-map, In-distinct, concat_map, distinct, Bool, ◌↔◌, map-snoc, ◌≡◌, refl, sym, ◌∙◌,
  subst, inl, inr, List, [], ◌∷◌, ◌++◌, append-nil, append_assoc, map,
}
use decision_memory.Text.{Text, text_lt}
use decision_memory.Sorting.{sort_by, sort_by-perm}
use decision_memory.Sorting.Perms.{Permᴰ-In, Permᴰ-map, Permᴰ-NoRepeat}
use decision_memory.Sorting.Keys.{pair_lt}
use decision_memory.Citations.Locations.{NoRepeat-snoc}
use decision_memory.Dto.{ActiveChunkDescriptor}
use decision_memory.Disclosures.{
  notice_key, add_notice, add_notices, add_records, retrieved_ids, collect_notices,
  SupersessionNotice, Collection,
}

-- What holds behind the loop over the notices `done`.
pub record IsCollected (done : List SupersessionNotice) (c : Collection) : Type 0 where
  pub mirrored : c.seen ≡ map notice_key c.collected
  pub unrepeated : NoRepeat c.seen
  pub sound : All (λ n. In n done) c.collected
  pub complete : All (λ n. In (notice_key n) c.seen) done

add_notice-IsCollected :
    (done : List SupersessionNotice) (c : Collection) (n : SupersessionNotice)
    → IsCollected done c
    → IsCollected (done ++ n ∷ []) (add_notice c n)
add_notice-IsCollected done c n h =
    let sound = All-map c.collected (λ m. In-append_left (n ∷ [])) h.sound in
    elim (Bool-cases (contains c.seen (notice_key n))) [
      | inl again ↦ rw again (record {
        mirrored = h.mirrored;
        unrepeated = h.unrepeated;
        sound = sound;
        complete =
            All-snoc (λ n. In (notice_key n) c.seen) done n h.complete
              (contains→In c.seen (notice_key n) again);
      })
      | inr fresh ↦ rw fresh (record {
        mirrored =
            (λ i. h.mirrored i ++ notice_key n ∷ []) ∙ sym (map-snoc notice_key c.collected n);
        unrepeated = NoRepeat-snoc c.seen (notice_key n) h.unrepeated fresh;
        sound =
            All-snoc (λ m. In m (done ++ n ∷ [])) c.collected n sound
              (In-append_right done (here refl));
        complete =
            All-snoc (λ m. In (notice_key m) (c.seen ++ notice_key n ∷ [])) done n
              (All-map done (λ m. In-append_left (notice_key n ∷ [])) h.complete)
              (In-append_right c.seen (here refl));
      })
    ]

add_notices-IsCollected :
    (done : List SupersessionNotice) (c : Collection) (ns : List SupersessionNotice)
    → IsCollected done c
    → IsCollected (done ++ ns) (add_notices c ns)
add_notices-IsCollected done c [] h = subst (λ ns. IsCollected ns c) (sym (append-nil done)) h
add_notices-IsCollected done c (n ∷ ns) h =
    subst (λ all. IsCollected all (add_notices (add_notice c n) ns)) (append_assoc done (n ∷ []) ns)
      (add_notices-IsCollected (done ++ n ∷ []) (add_notice c n) ns
        (add_notice-IsCollected done c n h))

abbrev notice_lt : SupersessionNotice → SupersessionNotice → Bool
notice_lt a b =
    pair_lt text_lt text_lt (a.successor_id, a.predecessor_id) (b.successor_id, b.predecessor_id)

module _ (supersession_notices : Text → List SupersessionNotice) where
  add_records-IsCollected :
      (done : List SupersessionNotice) (c : Collection) (ids : List Text)
      → IsCollected done c
      → IsCollected
          (done ++ concat_map supersession_notices ids)
          (add_records supersession_notices c ids)
  add_records-IsCollected done c [] h = subst (λ ns. IsCollected ns c) (sym (append-nil done)) h
  add_records-IsCollected done c (id ∷ ids) h =
      let here_ = supersession_notices id in
      subst (λ all. IsCollected all (add_records supersession_notices (add_notices c here_) ids))
        (append_assoc done here_ (concat_map supersession_notices ids))
        (add_records-IsCollected (done ++ here_) (add_notices c here_) ids
          (add_notices-IsCollected done c here_ h))

  retrieved_ids-In :
      (accepted : List ActiveChunkDescriptor) {id : Text}
      → In id (retrieved_ids supersession_notices accepted)
        ↔ In id (map (λ chunk. chunk.record_id) accepted)
  retrieved_ids-In accepted {id} =
      let ids = map (λ chunk. chunk.record_id) accepted in
      let p = sort_by-perm text_lt (distinct ids) in
      (
        λ m. (In-distinct ids id).0 (Permᴰ-In p m),
        λ m. Permᴰ-In (Permᴰ.symm p) ((In-distinct ids id).1 m),
      )

  -- The store gives the notice for the record of an accepted chunk.
  abbrev pub Given : List ActiveChunkDescriptor → SupersessionNotice → Type 0
  Given accepted n =
      (chunk : ActiveChunkDescriptor) × In chunk accepted
      × In n (supersession_notices chunk.record_id)

  -- The collected notices are those that the store gives for the records of accepted chunks: every
  -- one comes from the record of an accepted chunk, for every notice of such a record one with the
  -- same predecessor and successor is there, and no two have the same predecessor and successor.
  pub collect_notices-exact :
      (accepted : List ActiveChunkDescriptor)
      → let notices = collect_notices supersession_notices accepted in
        All (λ n. Given accepted n) notices
        × All
            (λ chunk.
              All
                (λ n. In (notice_key n) (map notice_key notices))
                (supersession_notices chunk.record_id))
            accepted
        × NoRepeat (map notice_key notices)
  unfolding collect_notices sort_by
  collect_notices-exact accepted =
      let ids = retrieved_ids supersession_notices accepted in
      let c = add_records supersession_notices (record { collected = []; seen = [] }) ids in
      let h =
        add_records-IsCollected [] (record { collected = []; seen = [] }) ids
          (record { mirrored = refl; unrepeated = tt; sound = tt; complete = tt }) in
      let p = sort_by-perm notice_lt c.collected in
      let keys = Permᴰ-map notice_key (Permᴰ.symm p) in
      (
        All-of_In _ (λ n m.
            let (id, k, l) =
              In-concat_map supersession_notices ids
                (All→In (λ n. In n (concat_map supersession_notices ids)) h.sound (Permᴰ-In p m)) in
            let (chunk, k', e) =
              In-map (λ chunk. chunk.record_id) accepted ((retrieved_ids-In accepted).0 k) in
            (chunk, k', subst (λ id. In n (supersession_notices id)) (sym e) l)),
        All-of_In accepted (λ chunk k. All-of_In (supersession_notices chunk.record_id) (λ n l.
            let m =
              In→concat_map supersession_notices ids
                ((retrieved_ids-In accepted).1 (In→map (λ chunk. chunk.record_id) k)) l in
            Permᴰ-In keys (
              subst (In (notice_key n)) h.mirrored
                (All→In (λ n. In (notice_key n) c.seen) h.complete m)))),
        Permᴰ-NoRepeat keys (subst NoRepeat h.mirrored h.unrepeated),
      )
