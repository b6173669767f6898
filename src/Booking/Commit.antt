-- ===== src/Booking/Commit.antt =====
-- Writing reservations: insertReservationBatch, commitReservationBatch and previewReservationBatch
-- of server/scheduling.ts. The function runs inside withImmediateTransaction (server/db.ts): an
-- error leaves the database as it was, which is why an error carries none.
use allocube.Prelude.{
  ℕ, suc, ◌+◌, Bool, true, false, not, ◌&&◌, Option, none, List, [], ◌∷◌, ◌++◌, map, ltb, leb, any,
  length,
}
use allocube.Store.{
  Db, Env, Reservation, confirmed, current_minute, add_audit, bump_schedule_revision,
  reservation_create,
}
use allocube.Store.Error.{
  Result, ok, guard, or_fail, check_all, traverse, ◌>>=◌, ◌>>◌, too_many_segments,
  preview_unavailable, no_such_group,
}
use allocube.Store.Rows.{GroupRow, get_group, insert_reservation}
use allocube.Booking.Segment.{
  Segment, RawSegment, to_raw, parse_segment, normalize_segment_start, validate_segment_times,
}
use allocube.Booking.Access.{assert_user_can_submit_reservations, assert_user_can_access_segments}
use allocube.Booking.Preview.{PreviewItem, preview_segments, preview_available_segments}
use allocube.Booking.Overlap.{
  validate_no_internal_overlap, validate_single_reservation_scope, available_segments,
  segments_adjusted,
}

pub record Created : Type 0 where
  pub id : ℕ
  pub segment : Segment
  pub machine_id : ℕ

-- What the rows of one batch share.
pub record BatchInfo : Type 0 where
  pub batch_id : ℕ
  pub user_id : ℕ
  pub created_at : ℕ
  pub parent : Option ℕ

unfoldable pub new_row : BatchInfo → ℕ → Segment → GroupRow → Reservation
new_row b id s g = record {
  id = id;
  batch_id = b.batch_id;
  scope = s.scope;
  resource_group_id = g.id;
  machine_id = g.machine_id;
  user_id = b.user_id;
  start_at = s.start_at;
  end_at = s.end_at;
  initial_start_at = s.start_at;
  initial_end_at = s.end_at;
  parent_reservation_id = b.parent;
  adjusted_by_unavailability_id = none;
  adjustment_type = none;
  adjustment_reason = [];
  title = s.title;
  purpose = s.purpose;
  note = s.note;
  status = confirmed;
  snapshot_group_name = g.name;
  snapshot_resource_config = g.allocations;
  snapshot_group_version = g.version;
  cancelled_at = none;
  cancelled_by = none;
  cancellation_reason = [];
  created_at = b.created_at;
  updated_at = b.created_at;
}

-- One round of `segments.map(...)`: a group that is gone is the read of a field of undefined.
unfoldable pub insert_segment : BatchInfo → ℕ → Segment → Db → Result (Created × Db)
unfolding get_group new_row insert_reservation add_audit
insert_segment b id s db = do
  g ← or_fail (get_group db.catalog s.resource_group_id) no_such_group
  db' ← insert_reservation (new_row b id s g) db
  ok (
    record { id = id; segment = s; machine_id = g.machine_id },
    add_audit b.user_id reservation_create id db',
  )

unfoldable pub insert_segments :
    BatchInfo → (ℕ → ℕ) → ℕ → List Segment → Db → Result (List Created × Db)
unfolding insert_segment
insert_segments b uuid i [] db = ok ([], db)
insert_segments b uuid i (s ∷ rest) db = insert_segment b (uuid i) s db >>= λ one.
    insert_segments b uuid (suc i) rest one.1 >>= λ more. ok (one.0 ∷ more.0, more.1)

unfoldable pub batch_info : Env → ℕ → ℕ → Option ℕ → BatchInfo
batch_info env site user_id parent = record {
  batch_id = env.uuid 0;
  user_id = user_id;
  created_at = env.clock site;
  parent = parent;
}

-- insertReservationBatch; `site` is the place of its reading of the clock in the calling function.
unfoldable pub insert_reservation_batch :
    Env → ℕ → ℕ → List Segment → Option ℕ → Db → Result (List Created × Db)
unfolding insert_segments batch_info
insert_reservation_batch env site user_id segments parent db =
    insert_segments (batch_info env site user_id parent) env.uuid 1 segments (record db {
      batches =
          db.batches
          ++ record { id = env.uuid 0; user_id = user_id; created_at = env.clock site } ∷ [];
    })

abbrev pub size_ok : List RawSegment → Bool
size_ok raws = ltb 0 (length raws) && leb (length raws) 100

abbrev pub some_unavailable : List PreviewItem → Bool
some_unavailable = any (λ item. not item.available)

pub record Committed : Type 0 where
  pub batch_id : ℕ
  pub reservations : List Created
  pub revision : ℕ
  pub adjusted : Bool

abbrev pub normalize_all : ℕ → List Segment → List Segment
normalize_all server_minute = map (λ s. normalize_segment_start s server_minute)

-- The segments that are written: the request, or what autoAdjust leaves of it.
unfoldable pub choose_segments : Db → ℕ → List Segment → Bool → Result (List Segment)
unfolding preview_segments preview_available_segments available_segments
choose_segments db server_minute parsed true = do
  preview ← preview_available_segments db [] server_minute (map to_raw parsed)
  available_segments db.catalog preview
choose_segments db server_minute parsed false = do
  preview ← preview_segments db [] server_minute (map to_raw (normalize_all server_minute parsed))
  guard (not (some_unavailable preview)) preview_unavailable
  ok (normalize_all server_minute parsed)

abbrev pub validate_all : Db → ℕ → List Segment → Result (Unit {0})
validate_all db server_minute = check_all (λ s. validate_segment_times db.settings s server_minute)

abbrev pub validate_unless : Bool → Db → ℕ → List Segment → Result (Unit {0})
validate_unless true db server_minute segments = ok tt
validate_unless false db server_minute segments = validate_all db server_minute segments

abbrev pub overlap_input : Bool → ℕ → List Segment → List Segment
overlap_input true server_minute parsed = parsed
overlap_input false server_minute parsed = normalize_all server_minute parsed

-- The checks before anything is written.
unfoldable pub admit_segments : Env → Db → ℕ → List Segment → Bool → Result (List Segment)
unfolding assert_user_can_submit_reservations current_minute normalize_segment_start
    validate_segment_times check_all validate_no_internal_overlap assert_user_can_access_segments
    choose_segments
admit_segments env db user_id parsed auto_adjust = do
  assert_user_can_submit_reservations db user_id
  let server_minute = current_minute (env.clock 0)
  validate_unless auto_adjust db server_minute (normalize_all server_minute parsed)
  validate_no_internal_overlap db.catalog (overlap_input auto_adjust server_minute parsed)
  assert_user_can_access_segments db user_id (λ i. env.clock (1 + i))
      (map to_raw (normalize_all server_minute parsed))
  choose_segments db server_minute parsed auto_adjust

-- commitReservationBatch
unfoldable pub commit_reservation_batch :
    Env → ℕ → List RawSegment → Bool → Db → Result (Committed × Db)
unfolding traverse parse_segment validate_single_reservation_scope admit_segments
    insert_reservation_batch bump_schedule_revision segments_adjusted
commit_reservation_batch env user_id raws auto_adjust db = do
  guard (size_ok raws) too_many_segments
  parsed ← traverse parse_segment raws
  validate_single_reservation_scope parsed
  segments ← admit_segments env db user_id parsed auto_adjust
  written ← insert_reservation_batch env 101 user_id segments none db
  ok (
    record {
      batch_id = env.uuid 0;
      reservations = written.0;
      revision = (bump_schedule_revision written.1).revision;
      adjusted = auto_adjust && segments_adjusted parsed segments;
    },
    bump_schedule_revision written.1,
  )
