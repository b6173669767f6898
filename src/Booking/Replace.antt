-- ===== src/Booking/Replace.antt =====
-- Replacing reservations by a new batch: prepareMultipleReplacement, previewMultipleReplacement and
-- replaceMultipleReservations of server/scheduling.ts.
use allocube.Prelude.{
  ℕ, suc, ◌+◌, Bool, true, false, not, ◌&&◌, Option, none, some, List, [], ◌∷◌, map, ltb, leb, elem,
  length, if◌then◌else◌,
}
use allocube.Store.{
  Text, Db, Env, Reservation, user_replaced, current_minute, add_audit, bump_schedule_revision,
  reservation_replace,
}
use allocube.Store.Error.{
  Result, ok, guard, traverse, ◌>>=◌, ◌>>◌, invalid_input, replacement_changed, original_kept,
}
use allocube.Store.Rows.{update_reservation}
use allocube.Booking.Segment.{
  Segment, RawSegment, to_raw, parse_segment, normalize_segment_start, validate_segment_times,
}
use allocube.Booking.Access.{assert_user_can_submit_reservations, assert_user_can_access_segments}
use allocube.Booking.Preview.{PreviewItem, preview_segments, preview_available_segments}
use allocube.Booking.Overlap.{validate_no_internal_overlap, available_segments, segments_adjusted}
use allocube.Booking.Commit.{
  Created, insert_reservation_batch, size_ok, some_unavailable, normalize_all, validate_unless,
  overlap_input,
}
use allocube.Booking.Manage.{
  get_owned_confirmed_reservation, assert_reservation_state, mark_cancelled,
}

pub record Selected : Type 0 where
  pub id : ℕ
  pub state_token : ℕ

abbrev pub selected_ids : List Selected → List ℕ
selected_ids = map (λ i. i.id)

abbrev pub distinct : List ℕ → Bool
distinct [] = true
distinct (x ∷ xs) = not (elem x xs) && distinct xs

-- replacementSelectionSchema, after the formats of its fields.
unfoldable pub selection_ok : List Selected → Bool
selection_ok items = ltb 0 (length items) && leb (length items) 100 && distinct (selected_ids items)

-- The rows that are to be replaced; `clock` gives the reading for each row's access check.
unfoldable pub select_original : Env → ℕ → ℕ → Db → ℕ → Selected → Result Reservation
unfolding get_owned_confirmed_reservation assert_reservation_state
select_original env user_id now db access_at item = do
  r ← get_owned_confirmed_reservation db item.id user_id access_at
  assert_reservation_state env r (some item.state_token)
  guard (ltb now r.end_at) replacement_changed
  ok r

unfoldable pub select_originals : Env → ℕ → ℕ → Db → ℕ → List Selected → Result (List Reservation)
unfolding select_original
select_originals env user_id now db i [] = ok []
select_originals env user_id now db i (item ∷ items) =
    select_original env user_id now db (env.clock i) item >>= λ r.
    select_originals env user_id now db (suc i) items >>= λ rs. ok (r ∷ rs)

pub record Prepared : Type 0 where
  pub originals : List Reservation
  pub segments : List Segment
  pub parsed : List Segment
  pub items : List PreviewItem
  pub now : ℕ
  pub minute : ℕ

abbrev pub preview_either : Bool → Db → List ℕ → ℕ → List Segment → Result (List PreviewItem)
preview_either true db exclude minute parsed =
    preview_available_segments db exclude minute (map to_raw parsed)
preview_either false db exclude minute parsed =
    preview_segments db exclude minute (map to_raw (normalize_all minute parsed))

-- The checks of prepareMultipleReplacement after parsing.
unfoldable pub prepare_parsed : Env → ℕ → List Selected → List Segment → Bool → Db → Result Prepared
unfolding current_minute select_originals normalize_segment_start validate_segment_times
    validate_no_internal_overlap assert_user_can_access_segments preview_segments
    preview_available_segments
prepare_parsed env user_id selection parsed auto_adjust db = do
  let now = env.clock 0
  let minute = current_minute now
  originals ← select_originals env user_id now db 200 selection
  validate_unless auto_adjust db minute (normalize_all minute parsed)
  validate_no_internal_overlap db.catalog (overlap_input auto_adjust minute parsed)
  assert_user_can_access_segments db user_id (λ i. env.clock (1 + i))
      (map to_raw (normalize_all minute parsed))
  items ← preview_either auto_adjust db (selected_ids selection) minute parsed
  ok (record {
    originals = originals;
    segments = normalize_all minute parsed;
    parsed = parsed;
    items = items;
    now = now;
    minute = minute;
  })

-- prepareMultipleReplacement; previewMultipleReplacement yields its items.
unfoldable pub prepare_multiple_replacement :
    Env → ℕ → List Selected → List RawSegment → Bool → Db → Result Prepared
unfolding selection_ok traverse parse_segment prepare_parsed
prepare_multiple_replacement env user_id selection raws auto_adjust db = do
  guard (selection_ok selection) invalid_input
  guard (size_ok raws) invalid_input
  parsed ← traverse parse_segment raws
  prepare_parsed env user_id selection parsed auto_adjust db

unfoldable pub choose_replacements : Db → Prepared → Bool → Result (List Segment)
unfolding available_segments
choose_replacements db p true = available_segments db.catalog p.items
choose_replacements db p false = do
  guard (not (some_unavailable p.items)) original_kept
  ok p.segments

-- 用户编辑占用
abbrev pub edited_by_user : Text
edited_by_user = 29992 ∷ 25143 ∷ 32534 ∷ 36753 ∷ 21344 ∷ 29992 ∷ []

unfoldable pub cut_short : ℕ → ℕ → Reservation → Reservation
cut_short minute now r = record r {
  end_at = minute;
  adjustment_type = some user_replaced;
  adjustment_reason = edited_by_user;
  updated_at = now;
}

-- One round over the originals: what has begun before this minute ends with it, any other is
-- cancelled.
unfoldable pub retire : ℕ → ℕ → ℕ → Reservation → Db → Db
unfolding update_reservation cut_short mark_cancelled
retire minute now user_id r db =
    if ltb r.start_at minute
    then update_reservation r.id (cut_short minute now) db
    else update_reservation r.id (mark_cancelled now user_id edited_by_user) db

unfoldable pub retire_all : ℕ → ℕ → ℕ → List Reservation → Db → Db
unfolding retire
retire_all minute now user_id [] db = db
retire_all minute now user_id (r ∷ rs) db =
    retire_all minute now user_id rs (retire minute now user_id r db)

-- `originals.length === 1 ? String(originals[0].id) : undefined`
abbrev pub only_parent : List Reservation → Option ℕ
only_parent [] = none
only_parent (r ∷ []) = some r.id
only_parent (r ∷ s ∷ rs) = none

unfoldable pub audit_replaced : ℕ → List Reservation → Db → Db
unfolding add_audit
audit_replaced actor [] db = db
audit_replaced actor (r ∷ rs) db =
    audit_replaced actor rs (add_audit actor reservation_replace r.id db)

pub record Replaced : Type 0 where
  pub batch_id : ℕ
  pub reservations : List Created
  pub replaced_ids : List ℕ
  pub revision : ℕ
  pub adjusted : Bool

-- replaceMultipleReservations
unfoldable pub replace_multiple_reservations :
    Env → ℕ → List Selected → List RawSegment → Bool → Db → Result (Replaced × Db)
unfolding assert_user_can_submit_reservations prepare_multiple_replacement choose_replacements
    retire_all insert_reservation_batch audit_replaced bump_schedule_revision segments_adjusted
replace_multiple_reservations env user_id selection raws auto_adjust db = do
  assert_user_can_submit_reservations db user_id
  p ← prepare_multiple_replacement env user_id selection raws auto_adjust db
  segments ← choose_replacements db p auto_adjust
  let db1 = retire_all p.minute p.now user_id p.originals db
  written ← insert_reservation_batch env 300 user_id segments (only_parent p.originals) db1
  let done = bump_schedule_revision (audit_replaced user_id p.originals written.1)
  ok (
    record {
      batch_id = env.uuid 0;
      reservations = written.0;
      replaced_ids = map (λ r. r.id) p.originals;
      revision = done.revision;
      adjusted = auto_adjust && segments_adjusted p.parsed segments;
    },
    done,
  )
