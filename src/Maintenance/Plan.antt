-- ===== src/Maintenance/Plan.antt =====
-- Planning and cancelling maintenance: normalizePlannedTimes, previewUnavailability,
-- createPlannedUnavailability and cancelUnavailability of server/unavailability.ts. A reason is
-- given as `reason?.trim() ?? ""` leaves it.
use allocube.Prelude.{
  ℕ, max, Bool, true, false, not, ◌&&◌, ◌||◌, Option, none, some, List, ltb, ◌==◌, any,
  if◌then◌else◌,
}
use allocube.Store.{
  Text, Db, Env, Window, WindowKind, planned, window_active, window_cancelled, is_window_active,
  is_planned, is_active, current_minute, add_audit, bump_schedule_revision, unavailability_create,
  unavailability_cancel,
}
use allocube.Store.Error.{
  Result, ok, guard, or_fail, ◌>>=◌, ◌>>◌, window_time_invalid, window_not_minute,
  window_end_not_after_start, preview_stale, target_disabled, window_overlap, window_missing,
  window_already_cancelled, window_not_planned, window_ended,
}
use allocube.Store.Rows.{find_window, update_window, insert_window}
use allocube.Interval.{Span, span}
use allocube.Booking.Segment.{minute_exact}
use allocube.Maintenance.Target.{Target, TargetType, resolve_unavailability_target}
use allocube.Maintenance.Impact.{ReservationImpact, Summary, reservation_impacts, preview_summary}
use allocube.Maintenance.Apply.{apply_reservation_impacts, maintenance_change}

-- normalizePlannedTimes; a text that is no date is `none`.
unfoldable pub normalize_planned_times : Option ℕ → Option ℕ → ℕ → Result Span
unfolding minute_exact current_minute
normalize_planned_times start_at end_at now = do
  start ← or_fail start_at window_time_invalid
  end ← or_fail end_at window_time_invalid
  guard (minute_exact start && minute_exact end) window_not_minute
  guard (ltb (max start (current_minute now)) end) window_end_not_after_start
  ok (span (max start (current_minute now)) end)

pub record UnavailabilityPreview : Type 0 where
  pub target : Target
  pub blocked : Span
  pub revision : ℕ
  pub affected_reservations : List ReservationImpact
  pub summary : Summary

-- previewUnavailability
unfoldable pub preview_unavailability :
    Env → TargetType → ℕ → Option ℕ → Option ℕ → Db → Result UnavailabilityPreview
unfolding normalize_planned_times resolve_unavailability_target reservation_impacts preview_summary
preview_unavailability env type id start_at end_at db = do
  blocked ← normalize_planned_times start_at end_at (env.clock 0)
  target ← resolve_unavailability_target db.catalog type id
  let impacts = reservation_impacts target blocked db.reservations
  ok (record {
    target = target;
    blocked = blocked;
    revision = db.revision;
    affected_reservations = impacts;
    summary = preview_summary impacts;
  })

-- `(? IS NULL AND resource_group_id IS NULL) OR resource_group_id = ?`
abbrev pub same_object : Option ℕ → Option ℕ → Bool
same_object none none = true
same_object none (some b) = false
same_object (some a) none = false
same_object (some a) (some b) = a == b

-- The query for windows of the same object that overlap.
unfoldable pub window_overlaps : Target → Span → Window → Bool
window_overlaps t blocked w =
    (w.machine_id == t.machine_id)
    && is_window_active w.status
    && same_object w.resource_group_id t.resource_group_id
    && ltb w.start_at blocked.end
    && ltb blocked.start w.end_at

unfoldable pub new_window : ℕ → Target → WindowKind → Span → Text → ℕ → ℕ → Window
new_window id t kind blocked reason actor now = record {
  id = id;
  machine_id = t.machine_id;
  resource_group_id = t.resource_group_id;
  kind = kind;
  start_at = blocked.start;
  end_at = blocked.end;
  reason = reason;
  status = window_active;
  created_by = actor;
  cancelled_by = none;
  cancelled_at = none;
  created_at = now;
}

pub record Plan : Type 0 where
  pub type : TargetType
  pub id : ℕ
  pub start_at : Option ℕ
  pub end_at : Option ℕ
  pub reason : Text
  pub expected_revision : ℕ
  pub overwrite : Bool
  pub actor : ℕ

pub record Planned : Type 0 where
  pub id : ℕ
  pub blocked : Span
  pub revision : ℕ
  pub impact : Summary

-- The statements after the checks: the window, the reservations, the audit, the revision.
unfoldable pub write_plan : Env → Plan → Target → Span → Db → Result (Planned × Db)
unfolding new_window insert_window reservation_impacts apply_reservation_impacts add_audit
    bump_schedule_revision preview_summary
write_plan env p t blocked db = do
  db1 ← insert_window (new_window (env.uuid 0) t planned blocked p.reason p.actor (env.clock 1)) db
  let impacts = reservation_impacts t blocked db1.reservations
  db2 ←
      apply_reservation_impacts env 2 impacts p.actor (env.uuid 0) p.reason t.name
        maintenance_change db1
  let done = bump_schedule_revision (add_audit p.actor unavailability_create (env.uuid 0) db2)
  ok (
    record {
      id = env.uuid 0;
      blocked = blocked;
      revision = done.revision;
      impact = preview_summary impacts;
    },
    done,
  )

-- createPlannedUnavailability
unfoldable pub create_planned_unavailability : Env → Plan → Db → Result (Planned × Db)
unfolding normalize_planned_times resolve_unavailability_target window_overlaps write_plan
create_planned_unavailability env p db = do
  blocked ← normalize_planned_times p.start_at p.end_at (env.clock 0)
  guard (p.overwrite || (db.revision == p.expected_revision)) preview_stale
  t ← resolve_unavailability_target db.catalog p.type p.id
  guard (is_active t.status && is_active t.machine_status) target_disabled
  guard (not (any (window_overlaps t blocked) db.windows)) window_overlap
  write_plan env p t blocked db

unfoldable pub mark_window_cancelled : ℕ → ℕ → Window → Window
mark_window_cancelled actor now w =
    if is_window_active w.status
    then record w { status = window_cancelled; cancelled_by = some actor; cancelled_at = some now }
    else w

pub record WindowEnded : Type 0 where
  pub machine_id : ℕ
  pub resource_group_id : Option ℕ
  pub revision : ℕ

-- cancelUnavailability. The row is active, so its UPDATE changes one row.
unfoldable pub cancel_unavailability : Env → ℕ → ℕ → Db → Result (WindowEnded × Db)
unfolding find_window update_window mark_window_cancelled add_audit bump_schedule_revision
cancel_unavailability env id actor db = do
  w ← or_fail (find_window id db.windows) window_missing
  guard (is_window_active w.status) window_already_cancelled
  guard (is_planned w.kind) window_not_planned
  guard (ltb (env.clock 0) w.end_at) window_ended
  let written = update_window id (mark_window_cancelled actor (env.clock 1)) db
  let done = bump_schedule_revision (add_audit actor unavailability_cancel id written)
  ok (
    record {
      machine_id = w.machine_id;
      resource_group_id = w.resource_group_id;
      revision = done.revision;
    },
    done,
  )
