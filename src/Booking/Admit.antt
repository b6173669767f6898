-- ===== src/Booking/Admit.antt =====
-- What the checks of a request establish before anything is written.
use allocube.Prelude.{
  ℕ, ◌<◌, ◌≡◌, refl, sym, ◌∙◌, ap, subst, inl, inr, Bool, true, false, not, some, List, [], ◌∷◌,
  All, AllPairs, arith, Bool-cases, Option-cases,
}
use mathlib.Core.Bool.{false≢true}
use allocube.Store.{Db, Catalog}
use allocube.Store.Error.{
  Result, ok, ok_inj, guard-eq-ok, guard-true, >>=-eq-ok, check_all-All, check_all,
}
use allocube.Store.Rows.{GroupRow, get_group}
use allocube.Booking.Segment.{
  Segment, RawSegment, to_raw, parse_segment, normalize_segment_start, validate_segment_times,
}
use allocube.Booking.Preview.{
  Conflict, PreviewItem, get_busy_intervals, bookable, busy_item, unavailable_item, group_item,
  preview_in_group, preview_normalized, preview_segment,
}
use allocube.Booking.Overlap.{collide, check_pair, validate_no_internal_overlap, usable_segments}
use allocube.Booking.Usable.{
  Usable, ProperRows, Usable-of_no_busy, validate-positive, preview_normalized-Usable,
}

-- Two segments of a request do not collide.
abbrev pub NoCollide : Catalog → Segment → Segment → Type 0
NoCollide c a b =
    (g h : GroupRow)
    → get_group c a.resource_group_id ≡ some g
    → get_group c b.resource_group_id ≡ some h
    → collide a g b h ≡ false

pub not-true : (b : Bool) → not b ≡ true → b ≡ false
not-true true h = absurd (false≢true h)
not-true false h = refl

check_pair-NoCollide :
    (c : Catalog) (a b : Segment) (u : Unit {0})
    → check_pair a (get_group c a.resource_group_id) b (get_group c b.resource_group_id) ≡ ok u
    → NoCollide c a b
unfolding check_pair
check_pair-NoCollide c a b u e g h eg eh =
    not-true (collide a g b h) (guard-true _ _ (rw (eg, eh) at e))

abbrev pair_check : Catalog → Segment → Segment → Result (Unit {0})
pair_check c a b =
    check_pair a (get_group c a.resource_group_id) b (get_group c b.resource_group_id)

pub no_internal_overlap-NoCollide :
    (c : Catalog) (segments : List Segment) (u : Unit {0})
    → validate_no_internal_overlap c segments ≡ ok u
    → AllPairs (NoCollide c) segments
unfolding validate_no_internal_overlap
no_internal_overlap-NoCollide c [] u e = tt
no_internal_overlap-NoCollide c (a ∷ rest) u e =
    let (v, head, more) = >>=-eq-ok (check_all (pair_check c a) rest) _ e in
    (
      check_all-All (NoCollide c a) (pair_check c a) rest v
          (λ b w k. check_pair-NoCollide c a b w k) head,
      no_internal_overlap-NoCollide c rest u more,
    )

-- A segment that is handed to the schema again, and accepted, comes back as it was.
pub parse-to_raw : (s s' : Segment) → parse_segment (to_raw s) ≡ ok s' → s ≡ s'
unfolding parse_segment to_raw
parse-to_raw s s' e = ok_inj (guard-eq-ok _ _ (ok s) e).1

-- Normalising the start of a segment twice at one minute gives what normalising it once gives.
normalize_idem :
    (s : Segment) (minute : ℕ)
    → normalize_segment_start (normalize_segment_start s minute) minute
      ≡ normalize_segment_start s minute
unfolding normalize_segment_start
normalize_idem s minute = ground arith

module _ (db : Db) (proper : ProperRows db) (exclude : List ℕ) (minute : ℕ) where
  available_busy_item :
      (s s' : Segment) (g : GroupRow) (busy : List Conflict)
      → get_group db.catalog s.resource_group_id ≡ some g
      → s.start_at < s.end_at
      → get_busy_intervals db g s.scope s.start_at s.end_at exclude ≡ busy
      → (busy_item s' busy minute).available ≡ true
      → Usable db exclude s
  unfolding busy_item
  available_busy_item s s' g [] found h e a =
      Usable-of_no_busy db proper g exclude minute s found h e
  available_busy_item s s' g (c ∷ cs) found h e a = absurd (false≢true a)

  available_group_item :
      (s : Segment) (g : GroupRow)
      → get_group db.catalog s.resource_group_id ≡ some g
      → s.start_at < s.end_at
      → (group_item db exclude minute s g).available ≡ true
      → Usable db exclude s
  unfolding group_item
  available_group_item s g found h a = elim (Bool-cases (bookable db.catalog s.scope g)) [
    | inl b ↦
        available_busy_item s (record s { machine_id = some g.machine_id }) g _ found h refl
          (rw b at a)
    | inr b ↦ absurd (false≢true (unfold unavailable_item in (rw b at a)))
  ]

  -- A segment that the preview calls available is usable as it stands.
  pub preview_normalized-available :
      (s : Segment) (item : PreviewItem)
      → preview_normalized db exclude minute s ≡ ok item
      → item.available ≡ true
      → Usable db exclude s
  unfolding preview_normalized preview_in_group
  preview_normalized-available s item e a =
      let (u, valid, rest) = >>=-eq-ok (validate_segment_times db.settings s minute) _ e in
      let positive = (validate-positive db s minute u valid).0 in
      elim (Option-cases (get_group db.catalog s.resource_group_id)) [
        | inl gone ↦
            let same = ok_inj (rw gone at rest) in
            absurd (false≢true (unfold unavailable_item in ap (λ i. i.available) same ∙ a))
        | inr (g, found) ↦
            let same =
              ok_inj
                (guard-eq-ok _ _ (ok (group_item db exclude minute s g)) (rw found at rest)).1 in
            available_group_item s g found positive (ap (λ i. i.available) same ∙ a)
      ]

  -- Only a segment whose group is there is available.
  pub preview_normalized-found :
      (s : Segment) (item : PreviewItem)
      → preview_normalized db exclude minute s ≡ ok item
      → item.available ≡ true
      → (g : GroupRow) × (get_group db.catalog s.resource_group_id ≡ some g)
  unfolding preview_normalized
  preview_normalized-found s item e a =
      let (u, valid, rest) = >>=-eq-ok (validate_segment_times db.settings s minute) _ e in
      elim (Option-cases (get_group db.catalog s.resource_group_id)) [
        | inl gone ↦
            let same = ok_inj (rw gone at rest) in
            absurd (false≢true (unfold unavailable_item in ap (λ i. i.available) same ∙ a))
        | inr found ↦ found
      ]

  pub preview_segment-available :
      (s : Segment) (item : PreviewItem)
      → preview_segment db exclude minute (to_raw (normalize_segment_start s minute)) ≡ ok item
      → item.available ≡ true
      → Usable db exclude (normalize_segment_start s minute)
  unfolding preview_segment
  preview_segment-available s item e a =
      let n = normalize_segment_start s minute in
      let (s', parsed, rest) = >>=-eq-ok (parse_segment (to_raw n)) _ e in
      subst (Usable db exclude) (normalize_idem s minute) (
        subst (λ k. Usable db exclude (normalize_segment_start k minute))
          (sym (parse-to_raw n s' parsed))
          (preview_normalized-available (normalize_segment_start s' minute) item rest a))

  pub preview_segment-Usable :
      (raw : RawSegment) (item : PreviewItem)
      → preview_segment db exclude minute raw ≡ ok item
      → All (Usable db exclude) (usable_segments item)
  unfolding preview_segment
  preview_segment-Usable raw item e =
      let (s, parsed, rest) = >>=-eq-ok (parse_segment raw) _ e in
      preview_normalized-Usable db exclude minute (normalize_segment_start s minute) item proper
        rest
