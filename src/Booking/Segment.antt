-- ===== src/Booking/Segment.antt =====
-- Segments of a request (server/scheduling.ts): the schema's checks, the start mode, the time rules.
-- zod reads the text of a request; what it yields for each field is a RawSegment.
use allocube.Prelude.{
  ℕ, ◌+◌, ◌*◌, ◌%◌, Bool, true, false, ◌&&◌, ◌||◌, Option, none, some, [], ltb, leb, ◌==◌,
  if◌then◌else◌, length,
}
use allocube.Store.{
  Text, Scope, resource_group, StartMode, immediate, scheduled, Settings, minute_ms, day_ms,
}
use allocube.Store.Error.{
  Result, ok, guard, ◌>>◌, invalid_input, end_not_after_start, start_in_past, beyond_horizon,
}

pub record RawSegment : Type 0 where
  pub scope : Option Scope
  pub machine_id : Option ℕ
  pub resource_group_id : ℕ
  pub start_mode : Option StartMode
  pub start_at : ℕ
  pub end_at : ℕ
  pub title : Option Text
  pub purpose : Option Text
  pub note : Option Text

pub record Segment : Type 0 where
  pub scope : Scope
  pub machine_id : Option ℕ
  pub resource_group_id : ℕ
  pub start_mode : StartMode
  pub start_at : ℕ
  pub end_at : ℕ
  pub title : Text
  pub purpose : Text
  pub note : Text

abbrev pub or_else {ℓ} : {A : Type ℓ} → Option A → A → A
or_else none d = d
or_else (some a) d = a

-- A parsed segment is handed to the schema again by the functions that take raw segments.
unfoldable pub to_raw : Segment → RawSegment
to_raw s = record {
  scope = some s.scope;
  machine_id = s.machine_id;
  resource_group_id = s.resource_group_id;
  start_mode = some s.start_mode;
  start_at = s.start_at;
  end_at = s.end_at;
  title = some s.title;
  purpose = some s.purpose;
  note = some s.note;
}

-- minuteDateTimeSchema
unfoldable pub minute_exact : ℕ → Bool
minute_exact t = (t % minute_ms) == 0

unfoldable pub with_defaults : RawSegment → Segment
with_defaults r = record {
  scope = or_else r.scope resource_group;
  machine_id = r.machine_id;
  resource_group_id = r.resource_group_id;
  start_mode = or_else r.start_mode scheduled;
  start_at = r.start_at;
  end_at = r.end_at;
  title = or_else r.title [];
  purpose = or_else r.purpose [];
  note = or_else r.note [];
}

unfoldable pub texts_fit : Segment → Bool
texts_fit s = leb (length s.title) 120 && leb (length s.purpose) 500 && leb (length s.note) 1000

-- segmentSchema.parse
unfoldable pub parse_segment : RawSegment → Result Segment
unfolding minute_exact with_defaults texts_fit
parse_segment r = do
  guard (minute_exact r.start_at && minute_exact r.end_at && texts_fit (with_defaults r))
      invalid_input
  ok (with_defaults r)

abbrev pub is_immediate : StartMode → Bool
is_immediate immediate = true
is_immediate scheduled = false

-- normalizeSegmentStart
unfoldable pub normalize_segment_start : Segment → ℕ → Segment
normalize_segment_start s server_minute =
    if is_immediate s.start_mode || leb s.start_at server_minute
    then record s { start_mode = immediate; start_at = server_minute }
    else record s { start_mode = scheduled }

-- validateSegmentTimes
unfoldable pub validate_segment_times : Settings → Segment → ℕ → Result (Unit {0})
validate_segment_times settings s server_minute = do
  guard (ltb s.start_at s.end_at) end_not_after_start
  guard (leb server_minute s.start_at) start_in_past
  guard (leb s.end_at (server_minute + settings.advance_days * day_ms)) beyond_horizon
