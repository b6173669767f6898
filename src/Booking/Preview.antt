-- ===== src/Booking/Preview.antt =====
-- What stands in the way of a segment, and what is left of it: getBusyIntervals, splitByBusy,
-- previewSegments and previewAvailableSegments of server/scheduling.ts.
use allocube.Prelude.{
  ℕ, Bool, true, false, not, ◌&&◌, ◌||◌, Option, none, some, List, [], ◌∷◌, ◌++◌, map, ltb, leb,
  ◌==◌, filter, any, elem, if◌then◌else◌,
}
use allocube.Store.{
  Db, Catalog, Scope, Reservation, Window, immediate, scheduled, is_machine, is_active,
  is_confirmed, is_window_active,
}
use allocube.Store.Error.{
  Result, ok, guard, traverse, ◌>>=◌, ◌>>◌, end_not_after_start, machine_target_invalid,
}
use allocube.Store.Rows.{GroupRow, get_group}
use allocube.Interval.{Span, span, free_in}
use allocube.Booking.Segment.{
  Segment, RawSegment, to_raw, parse_segment, normalize_segment_start, validate_segment_times,
}

pub data ConflictType : Type 0 where
  by_reservation by_unavailability resource_unavailable : ConflictType

-- BusyInterval and ConflictItem, without the label.
pub record Conflict : Type 0 where
  pub type : ConflictType
  pub start_at : ℕ
  pub end_at : ℕ

pub record PreviewItem : Type 0 where
  pub input : Segment
  pub available : Bool
  pub conflicts : List Conflict
  pub split_segments : List Segment

abbrev pub overlaps : ℕ → ℕ → ℕ → ℕ → Bool
overlaps start end start_at end_at = ltb start_at end && ltb start end_at

-- The WHERE clause over the reservations.
unfoldable pub reservation_blocks : GroupRow → Scope → ℕ → ℕ → List ℕ → Reservation → Bool
reservation_blocks g scope start end exclude r =
    (r.machine_id == g.machine_id)
    && (is_machine scope || (r.resource_group_id == g.id) || is_machine r.scope)
    && is_confirmed r.status
    && overlaps start end r.start_at r.end_at
    && not (elem r.id exclude)

-- `resource_group_id IS NULL OR ? = 'MACHINE' OR resource_group_id = ?`
abbrev pub window_target_fits : Option ℕ → Scope → ℕ → Bool
window_target_fits none scope group_id = true
window_target_fits (some id) scope group_id = is_machine scope || (id == group_id)

-- The WHERE clause over the unavailability windows.
unfoldable pub window_blocks : GroupRow → Scope → ℕ → ℕ → Window → Bool
window_blocks g scope start end w =
    (w.machine_id == g.machine_id)
    && is_window_active w.status
    && window_target_fits w.resource_group_id scope g.id
    && overlaps start end w.start_at w.end_at

abbrev pub of_reservation : Reservation → Conflict
of_reservation r = record { type = by_reservation; start_at = r.start_at; end_at = r.end_at }

abbrev pub of_window : Window → Conflict
of_window w = record { type = by_unavailability; start_at = w.start_at; end_at = w.end_at }

-- `.sort((a, b) => a.startAt.localeCompare(b.startAt))`, stable.
unfoldable pub insert_busy : Conflict → List Conflict → List Conflict
insert_busy x [] = x ∷ []
insert_busy x (y ∷ ys) =
    let rest = insert_busy x ys in if leb x.start_at y.start_at then x ∷ y ∷ ys else y ∷ rest

unfoldable pub sort_busy : List Conflict → List Conflict
unfolding insert_busy
sort_busy [] = []
sort_busy (x ∷ xs) = insert_busy x (sort_busy xs)

-- The rows that block, in the order of the two queries.
unfoldable pub blocking : Db → GroupRow → Scope → ℕ → ℕ → List ℕ → List Conflict
unfolding reservation_blocks window_blocks
blocking db g scope start end exclude =
    map of_reservation (filter (reservation_blocks g scope start end exclude) db.reservations)
    ++ map of_window (filter (window_blocks g scope start end) db.windows)

-- getBusyIntervals
unfoldable pub get_busy_intervals : Db → GroupRow → Scope → ℕ → ℕ → List ℕ → List Conflict
unfolding blocking sort_busy
get_busy_intervals db g scope start end exclude = sort_busy (blocking db g scope start end exclude)

abbrev pub span_of : Conflict → Span
span_of c = span c.start_at c.end_at

unfoldable pub piece : Segment → ℕ → Span → Segment
piece s server_minute free = record s {
  start_mode = if leb free.start server_minute then immediate else scheduled;
  start_at = free.start;
  end_at = free.end;
}

-- splitByBusy
unfoldable pub split_by_busy : Segment → List Conflict → ℕ → List Segment
unfolding free_in piece
split_by_busy s busy server_minute =
    map (piece s server_minute) (free_in s.start_at s.end_at (map span_of busy))

-- `segment.machineId && segment.machineId !== group.machine_id`
abbrev pub other_machine : Option ℕ → ℕ → Bool
other_machine none id = false
other_machine (some m) id = not (m == id)

-- A group of the machine, deleted or not, is not active.
unfoldable pub has_inactive_group : Catalog → ℕ → Bool
has_inactive_group c machine_id =
    any (λ g. g.machine_id == machine_id && not (is_active g.status)) c.groups

unfoldable pub bookable : Catalog → Scope → GroupRow → Bool
unfolding has_inactive_group
bookable c scope g =
    is_active g.status
    && is_active g.machine_status
    && not (is_machine scope && has_inactive_group c g.machine_id)

unfoldable pub unavailable_item : Segment → ℕ → ℕ → PreviewItem
unavailable_item input start end = record {
  input = input;
  available = false;
  conflicts = record { type = resource_unavailable; start_at = start; end_at = end } ∷ [];
  split_segments = [];
}

abbrev is_empty : List Conflict → Bool
is_empty [] = true
is_empty (c ∷ cs) = false

unfoldable pub busy_item : Segment → List Conflict → ℕ → PreviewItem
unfolding split_by_busy
busy_item input busy server_minute = record {
  input = input;
  available = is_empty busy;
  conflicts = busy;
  split_segments = split_by_busy input busy server_minute;
}

-- The item of a segment whose group is there; its machine is that of the group.
unfoldable pub group_item : Db → List ℕ → ℕ → Segment → GroupRow → PreviewItem
unfolding bookable unavailable_item busy_item get_busy_intervals
group_item db exclude server_minute s g =
    let input = record s { machine_id = some g.machine_id } in
    let busy = get_busy_intervals db g s.scope s.start_at s.end_at exclude in
    if bookable db.catalog s.scope g
    then busy_item input busy server_minute
    else unavailable_item input s.start_at s.end_at

unfoldable pub preview_in_group : Db → List ℕ → ℕ → Segment → GroupRow → Result PreviewItem
unfolding group_item
preview_in_group db exclude server_minute s g = do
  guard (not (is_machine s.scope && other_machine s.machine_id g.machine_id)) machine_target_invalid
  ok (group_item db exclude server_minute s g)

unfoldable pub preview_normalized : Db → List ℕ → ℕ → Segment → Result PreviewItem
unfolding validate_segment_times get_group preview_in_group unavailable_item
preview_normalized db exclude server_minute s = do
  validate_segment_times db.settings s server_minute
  elim (get_group db.catalog s.resource_group_id) [
    | none ↦ ok (unavailable_item s s.start_at s.end_at)
    | some g ↦ preview_in_group db exclude server_minute s g
  ]

-- One round of previewSegments.
unfoldable pub preview_segment : Db → List ℕ → ℕ → RawSegment → Result PreviewItem
unfolding parse_segment normalize_segment_start preview_normalized
preview_segment db exclude server_minute raw = do
  s ← parse_segment raw
  preview_normalized db exclude server_minute (normalize_segment_start s server_minute)

unfoldable pub preview_segments : Db → List ℕ → ℕ → List RawSegment → Result (List PreviewItem)
unfolding preview_segment traverse
preview_segments db exclude server_minute = traverse (preview_segment db exclude server_minute)

-- A segment that has passed while the request was made is no error.
unfoldable pub preview_unless_passed : Db → List ℕ → ℕ → Segment → Segment → Result PreviewItem
unfolding preview_segment unavailable_item to_raw
preview_unless_passed db exclude server_minute parsed input =
    if leb input.end_at input.start_at
    then ok (unavailable_item input parsed.start_at parsed.end_at)
    else preview_segment db exclude server_minute (to_raw input)

-- One round of previewAvailableSegments.
unfoldable pub preview_available_segment : Db → List ℕ → ℕ → RawSegment → Result PreviewItem
unfolding parse_segment normalize_segment_start preview_unless_passed
preview_available_segment db exclude server_minute raw = do
  parsed ← parse_segment raw
  guard (ltb parsed.start_at parsed.end_at) end_not_after_start
  preview_unless_passed db exclude server_minute parsed
      (normalize_segment_start parsed server_minute)

unfoldable pub preview_available_segments :
    Db → List ℕ → ℕ → List RawSegment → Result (List PreviewItem)
unfolding preview_available_segment traverse
preview_available_segments db exclude server_minute =
    traverse (preview_available_segment db exclude server_minute)
