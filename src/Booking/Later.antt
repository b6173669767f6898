-- ===== src/Booking/Later.antt =====
-- No segment that a preview offers begins before the minute of the request.
use allocube.Prelude.{
  ℕ, ◌≤◌, ◌≡◌, inl, inr, subst, some, List, [], ◌∷◌, arith, leb, ltb, map, All, All-mono, All-map,
  All-append, Bool-cases, Option-cases, flat_map, length,
}
use allocube.Store.{Db}
use allocube.Store.Error.{
  ok, ok_inj, guard, >>=-eq-ok, guard-eq-ok, traverse-All, end_not_after_start,
  no_available_segments, too_many_segments,
}
use allocube.Store.Rows.{GroupRow, get_group}
use allocube.Interval.{free_in}
use allocube.Interval.Shape.{free_in-Within}
use allocube.Booking.Segment.{
  Segment, RawSegment, to_raw, parse_segment, normalize_segment_start, validate_segment_times,
}
use allocube.Booking.Preview.{
  Conflict, PreviewItem, unavailable_item, busy_item, group_item, split_by_busy, piece,
  preview_in_group, preview_normalized, preview_segment, preview_unless_passed,
  preview_available_segment, preview_available_segments, span_of, bookable, get_busy_intervals,
}
use allocube.Booking.Overlap.{usable_segments, available_segments, validate_no_internal_overlap}
use allocube.Booking.Commit.{normalize_all}
use allocube.Booking.Usable.{validate-positive}

abbrev pub Begins : ℕ → Segment → Type 0
Begins minute s = minute ≤ s.start_at

pub normalize-Begins : (minute : ℕ) (s : Segment) → Begins minute (normalize_segment_start s minute)
unfolding normalize_segment_start
normalize-Begins minute s = ground arith

pub normalize_all-Begins :
    (minute : ℕ) (segments : List Segment) → All (Begins minute) (normalize_all minute segments)
normalize_all-Begins minute [] = tt
normalize_all-Begins minute (s ∷ rest) =
    (normalize-Begins minute s, normalize_all-Begins minute rest)

module _ (db : Db) (exclude : List ℕ) (minute : ℕ) where
  busy_item-Begins :
      (s : Segment) (busy : List Conflict)
      → Begins minute s
      → All (Begins minute) (usable_segments (busy_item s busy minute))
  unfolding busy_item split_by_busy piece
  busy_item-Begins s [] h = (h, tt)
  busy_item-Begins s (c ∷ cs) h =
      All-map (Begins minute) (piece s minute) (free_in s.start_at s.end_at (map span_of (c ∷ cs)))
        (All-mono _ _ _ (λ f w. omega (arith, w.0))
          (free_in-Within s.start_at s.end_at (map span_of (c ∷ cs))))

  group_item-Begins :
      (s : Segment) (g : GroupRow)
      → Begins minute s
      → All (Begins minute) (usable_segments (group_item db exclude minute s g))
  unfolding group_item
  group_item-Begins s g h = elim (Bool-cases (bookable db.catalog s.scope g)) [
    | inl b ↦ rw b (
        busy_item-Begins (record s { machine_id = some g.machine_id })
          (get_busy_intervals db g s.scope s.start_at s.end_at exclude) h)
    | inr b ↦ rw b (unfold unavailable_item in tt)
  ]

  preview_normalized-Begins :
      (s : Segment) (item : PreviewItem)
      → preview_normalized db exclude minute s ≡ ok item
      → All (Begins minute) (usable_segments item)
  unfolding preview_normalized preview_in_group
  preview_normalized-Begins s item e =
      let (u, valid, rest) = >>=-eq-ok (validate_segment_times db.settings s minute) _ e in
      let later = (validate-positive db s minute u valid).1 in
      elim (Option-cases (get_group db.catalog s.resource_group_id)) [
        | inl gone ↦
            subst (λ i. All (Begins minute) (usable_segments i)) (ok_inj (rw gone at rest))
              (unfold unavailable_item in tt)
        | inr (g, found) ↦
            subst (λ i. All (Begins minute) (usable_segments i))
              (ok_inj
                (guard-eq-ok _ _ (ok (group_item db exclude minute s g)) (rw found at rest)).1)
              (group_item-Begins s g later)
      ]

  preview_unless_passed-Begins :
      (parsed input : Segment) (item : PreviewItem)
      → preview_unless_passed db exclude minute parsed input ≡ ok item
      → All (Begins minute) (usable_segments item)
  unfolding preview_unless_passed preview_segment
  preview_unless_passed-Begins parsed input item e =
      elim (Bool-cases (leb input.end_at input.start_at)) [
        | inl passed ↦
            subst (λ k. All (Begins minute) (usable_segments k)) (ok_inj (rw passed at e))
              (unfold unavailable_item in tt)
        | inr open' ↦
            let (s, _, rest) = >>=-eq-ok (parse_segment (to_raw input)) _ (rw open' at e) in
            preview_normalized-Begins (normalize_segment_start s minute) item rest
      ]

  preview_available-Begins :
      (raw : RawSegment) (item : PreviewItem)
      → preview_available_segment db exclude minute raw ≡ ok item
      → All (Begins minute) (usable_segments item)
  unfolding preview_available_segment
  preview_available-Begins raw item e =
      let (parsed, _, e1) = >>=-eq-ok (parse_segment raw) _ e in
      let (_, _, e2) =
        >>=-eq-ok (guard (ltb parsed.start_at parsed.end_at) end_not_after_start) _ e1 in
      preview_unless_passed-Begins parsed (normalize_segment_start parsed minute) item e2

  flat_map-Begins :
      (items : List PreviewItem)
      → All (λ i. All (Begins minute) (usable_segments i)) items
      → All (Begins minute) (flat_map usable_segments items)
  flat_map-Begins [] a = tt
  flat_map-Begins (i ∷ items) a =
      All-append (Begins minute) (usable_segments i) (flat_map usable_segments items) a.0
        (flat_map-Begins items a.1)

  -- What autoAdjust leaves of a request begins at the minute or later.
  pub available_segments-Begins :
      (raws : List RawSegment) (items : List PreviewItem) (segments : List Segment)
      → preview_available_segments db exclude minute raws ≡ ok items
      → available_segments db.catalog items ≡ ok segments
      → All (Begins minute) segments
  unfolding preview_available_segments available_segments
  available_segments-Begins raws items segments e a =
      let offered = flat_map usable_segments items in
      let (_, _, e1) = >>=-eq-ok (guard (ltb 0 (length offered)) no_available_segments) _ a in
      let (_, _, e2) = >>=-eq-ok (guard (leb (length offered) 100) too_many_segments) _ e1 in
      let (_, _, e3) = >>=-eq-ok (validate_no_internal_overlap db.catalog offered) _ e2 in
      subst (All (Begins minute)) (ok_inj e3) (
        flat_map-Begins items (
          traverse-All (λ item. All (Begins minute) (usable_segments item))
            (preview_available_segment db exclude minute) raws items preview_available-Begins e))
