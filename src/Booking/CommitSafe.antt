-- ===== src/Booking/CommitSafe.antt =====
-- commitReservationBatch keeps the schedule consistent.
use allocube.Prelude.{
  ℕ, ◌+◌, ◌≡◌, refl, sym, ap, subst, inl, inr, Bool, true, false, not, Option, none, List, [], ◌∷◌,
  ◌++◌, map, flat_map, any-false→All, All, All-mono, All-append, AllPairs, length, ltb, leb, arith,
  Bool-cases,
}
use allocube.Store.{Db, Env, current_minute}
use allocube.Store.Error.{
  ok, guard, ok_inj, end_not_after_start, no_available_segments, too_many_segments,
  preview_unavailable, >>=-eq-ok, guard-eq-ok, traverse, traverse-All,
}
use allocube.Schedule.{IsConsistent}
use allocube.Schedule.Keep.{bump-IsConsistent, batches-IsConsistent}
use allocube.Booking.Segment.{Segment, RawSegment, to_raw, parse_segment, normalize_segment_start}
use allocube.Booking.Preview.{
  PreviewItem, preview_segment, preview_segments, preview_available_segment,
  preview_available_segments, preview_unless_passed, unavailable_item,
}
use allocube.Booking.Overlap.{
  validate_no_internal_overlap, validate_single_reservation_scope, usable_segments,
  available_segments,
}
use allocube.Booking.Access.{assert_user_can_submit_reservations, assert_user_can_access_segments}
use allocube.Booking.Usable.{Usable, ProperRows}
use allocube.Booking.Admit.{
  NoCollide, no_internal_overlap-NoCollide, preview_segment-available, preview_segment-Usable,
  not-true,
}
use allocube.Booking.Insert.{insert_segments-IsConsistent, Usable-frame}
use allocube.Booking.Commit.{
  Created, Committed, size_ok, some_unavailable, normalize_all, choose_segments, admit_segments,
  insert_reservation_batch, overlap_input, validate_unless, commit_reservation_batch, batch_info,
}

-- Segments that may be written together.
not-false : (b : Bool) → not b ≡ false → b ≡ true
not-false true h = refl
not-false false h = sym h

pub record Writable (db : Db) (exclude : List ℕ) (segments : List Segment) : Type 0 where
  pub usable : All (Usable db exclude) segments
  pub apart : AllPairs (NoCollide db.catalog) segments

All-flat_map :
    {A B : Type 0} (P : B → Type 0) (f : A → List B) (xs : List A)
    → All (λ x. All P (f x)) xs
    → All P (flat_map f xs)
All-flat_map P f [] h = tt
All-flat_map P f (x ∷ xs) h = All-append P (f x) (flat_map f xs) h.0 (All-flat_map P f xs h.1)

module _ (db : Db) (proper : ProperRows db) (exclude : List ℕ) (minute : ℕ) where
  preview_unless_passed-Usable :
      (parsed input : Segment) (item : PreviewItem)
      → preview_unless_passed db exclude minute parsed input ≡ ok item
      → All (Usable db exclude) (usable_segments item)
  unfolding preview_unless_passed
  preview_unless_passed-Usable parsed input item e =
      elim (Bool-cases (leb input.end_at input.start_at)) [
        | inl passed ↦
            subst (λ k. All (Usable db exclude) (usable_segments k)) (ok_inj (rw passed at e))
              (unfold unavailable_item in tt)
        | inr open' ↦
            preview_segment-Usable db proper exclude minute (to_raw input) item (rw open' at e)
      ]

  preview_available-Usable :
      (raw : RawSegment) (item : PreviewItem)
      → preview_available_segment db exclude minute raw ≡ ok item
      → All (Usable db exclude) (usable_segments item)
  unfolding preview_available_segment
  preview_available-Usable raw item e =
      let (parsed, _, e1) = >>=-eq-ok (parse_segment raw) _ e in
      let (_, _, e2) =
        >>=-eq-ok (guard (ltb parsed.start_at parsed.end_at) end_not_after_start) _ e1 in
      preview_unless_passed-Usable parsed (normalize_segment_start parsed minute) item e2

  -- What autoAdjust leaves of a request may be written.
  pub available_segments-Writable :
      (raws : List RawSegment) (items : List PreviewItem) (segments : List Segment)
      → preview_available_segments db exclude minute raws ≡ ok items
      → available_segments db.catalog items ≡ ok segments
      → Writable db exclude segments
  unfolding preview_available_segments available_segments
  available_segments-Writable raws items segments e a =
      let offered = flat_map usable_segments items in
      let (_, _, e1) = >>=-eq-ok (guard (ltb 0 (length offered)) no_available_segments) _ a in
      let (_, _, e2) = >>=-eq-ok (guard (leb (length offered) 100) too_many_segments) _ e1 in
      let (u, apart, e3) = >>=-eq-ok (validate_no_internal_overlap db.catalog offered) _ e2 in
      subst (Writable db exclude) (ok_inj e3) (record {
        usable = All-flat_map (Usable db exclude) usable_segments items (
            traverse-All (λ item. All (Usable db exclude) (usable_segments item))
              (preview_available_segment db exclude minute) raws items preview_available-Usable e);
        apart = no_internal_overlap-NoCollide db.catalog offered u apart;
      })

  -- A request that the preview finds available, segment by segment.
  pub All-available :
      (segments : List Segment) (items : List PreviewItem)
      → preview_segments db exclude minute (map to_raw (normalize_all minute segments)) ≡ ok items
      → some_unavailable items ≡ false
      → All (Usable db exclude) (normalize_all minute segments)
  unfolding preview_segments traverse
  All-available [] items e a = tt
  All-available (s ∷ rest) items e a =
      let (item, first, e1) =
        >>=-eq-ok (preview_segment db exclude minute (to_raw (normalize_segment_start s minute))) _
          e in
      let (more, later, e2) =
        >>=-eq-ok (preview_segments db exclude minute (map to_raw (normalize_all minute rest))) _
          e1 in
      let parts =
        any-false→All (λ (i : PreviewItem). not i.available) (item ∷ more)
          (subst (λ k. some_unavailable k ≡ false) (sym (ok_inj e2)) a) in
      (
        preview_segment-available db proper exclude minute s item first (not-false _ parts.0),
        All-available rest more later
            (any_tail item more (subst (λ k. some_unavailable k ≡ false) (sym (ok_inj e2)) a)),
      )
    where
      any_tail :
          (i : PreviewItem) (is : List PreviewItem)
          → some_unavailable (i ∷ is) ≡ false
          → some_unavailable is ≡ false
      any_tail i is h = ground (arith, h)

choose_segments-Writable :
    (db : Db) (minute : ℕ) (parsed segments : List Segment) (auto : Bool) (u : Unit {0})
    → ProperRows db
    → validate_no_internal_overlap db.catalog (overlap_input auto minute parsed) ≡ ok u
    → choose_segments db minute parsed auto ≡ ok segments
    → Writable db [] segments
unfolding choose_segments
choose_segments-Writable db minute parsed segments true u proper o e =
    let raws = map to_raw parsed in
    let (items, previewed, e1) = >>=-eq-ok (preview_available_segments db [] minute raws) _ e in
    available_segments-Writable db proper [] minute raws items segments previewed e1
choose_segments-Writable db minute parsed segments false u proper o e =
    let raws = map to_raw (normalize_all minute parsed) in
    let (items, previewed, e1) = >>=-eq-ok (preview_segments db [] minute raws) _ e in
    let (free, e2) =
      guard-eq-ok (not (some_unavailable items)) preview_unavailable
        (ok (normalize_all minute parsed)) e1 in
    subst (Writable db []) (ok_inj e2) (record {
      usable = All-available db proper [] minute parsed items previewed (not-true _ free);
      apart = no_internal_overlap-NoCollide db.catalog (normalize_all minute parsed) u o;
    })

-- The segments that pass all checks may be written.
pub admit_segments-Writable :
    (env : Env) (db : Db) (user_id : ℕ) (parsed segments : List Segment) (auto : Bool)
    → ProperRows db
    → admit_segments env db user_id parsed auto ≡ ok segments
    → Writable db [] segments
unfolding admit_segments
admit_segments-Writable env db user_id parsed segments auto proper e =
    let minute = current_minute (env.clock 0) in
    let (_, _, e1) = >>=-eq-ok (assert_user_can_submit_reservations db user_id) _ e in
    let (_, _, e2) =
      >>=-eq-ok (validate_unless auto db minute (normalize_all minute parsed)) _ e1 in
    let (u, apart, e3) =
      >>=-eq-ok (validate_no_internal_overlap db.catalog (overlap_input auto minute parsed)) _ e2 in
    let (_, _, e4) =
      >>=-eq-ok
        (assert_user_can_access_segments db user_id (λ i. env.clock (1 + i))
          (map to_raw (normalize_all minute parsed)))
        _ e3 in
    choose_segments-Writable db minute parsed segments auto u proper apart e4

-- A batch of writable segments keeps the schedule consistent.
pub insert_reservation_batch-IsConsistent :
    (env : Env) (site user_id : ℕ) (segments : List Segment) (parent : Option ℕ) (db : Db)
    (r : List Created × Db)
    → IsConsistent db
    → Writable db [] segments
    → insert_reservation_batch env site user_id segments parent db ≡ ok r
    → IsConsistent r.1
unfolding insert_reservation_batch
insert_reservation_batch-IsConsistent env site user_id segments parent db r v w e =
    insert_segments-IsConsistent (batch_info env site user_id parent) env.uuid 1 segments
      (record db { batches = db.batches ++ _ ∷ [] }) r (batches-IsConsistent db v _)
      (All-mono _ _ segments (λ s u. Usable-frame db _ s refl refl refl u) w.usable) w.apart e

-- A commit that returns leaves a consistent schedule consistent: no two confirmed reservations of
-- one group, or of one machine where one of them takes the whole machine, overlap, and none lies
-- in an active maintenance window of its target.
pub commit_reservation_batch-IsConsistent :
    (env : Env) (user_id : ℕ) (raws : List RawSegment) (auto_adjust : Bool) (db : Db)
    (r : Committed × Db)
    → IsConsistent db
    → commit_reservation_batch env user_id raws auto_adjust db ≡ ok r
    → IsConsistent r.1
unfolding commit_reservation_batch
commit_reservation_batch-IsConsistent env user_id raws auto_adjust db r v e =
    let (_, _, e1) = >>=-eq-ok (guard (size_ok raws) too_many_segments) _ e in
    let (parsed, _, e2) = >>=-eq-ok (traverse parse_segment raws) _ e1 in
    let (_, _, e3) = >>=-eq-ok (validate_single_reservation_scope parsed) _ e2 in
    let (segments, admitted, e4) =
      >>=-eq-ok (admit_segments env db user_id parsed auto_adjust) _ e3 in
    let (written, inserted, e5) =
      >>=-eq-ok (insert_reservation_batch env 101 user_id segments none db) _ e4 in
    let w =
      admit_segments-Writable env db user_id parsed segments auto_adjust
        (v.proper, v.windows_proper) admitted in
    subst IsConsistent (ap (λ (k : Committed × Db). k.1) (ok_inj e5)) (
      bump-IsConsistent written.1 (
        insert_reservation_batch-IsConsistent env 101 user_id segments none db written v w
          inserted))
