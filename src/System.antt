-- ===== src/System.antt =====
-- All operations that write the schedule, as steps of one database, and what every sequence of
-- them keeps: commitReservationBatch, updateReservation, cancelReservation, endReservationEarly and
-- replaceMultipleReservations of server/scheduling.ts; createPlannedUnavailability,
-- cancelUnavailability, disableLongTerm and enableTarget of server/unavailability.ts;
-- trimMachineAccessReservations and releaseMachineResources of server/machine-access.ts.
use allocube.Prelude.{ℕ, ◌≤◌, ◌≡◌, Bool, Option, List, []}
use allocube.Store.{Db, Env, Text, current_minute}
use allocube.Store.Error.{ok}
use allocube.Schedule.{IsConsistent}
use allocube.Booking.Segment.{RawSegment}
use allocube.Booking.Commit.{Committed, commit_reservation_batch}
use allocube.Booking.CommitSafe.{commit_reservation_batch-IsConsistent}
use allocube.Booking.Manage.{update_own_reservation, cancel_reservation, end_reservation_early}
use allocube.Booking.ManageSafe.{
  cancel_reservation-IsConsistent, end_reservation_early-IsConsistent,
}
use allocube.Booking.UpdateSafe.{update_own_reservation-IsConsistent}
use allocube.Booking.Replace.{Selected, Replaced, replace_multiple_reservations}
use allocube.Booking.ReplaceSafe.{replace_multiple_reservations-IsConsistent}
use allocube.Maintenance.Plan.{
  Plan, Planned, WindowEnded, create_planned_unavailability, cancel_unavailability,
}
use allocube.Maintenance.PlanSafe.{
  create_planned_unavailability-IsConsistent, cancel_unavailability-IsConsistent,
}
use allocube.Maintenance.Disable.{Change, Disabled, disable_long_term, enable_target}
use allocube.Maintenance.DisableSafe.{disable_long_term-IsConsistent}
use allocube.Maintenance.EnableSafe.{enable_target-IsConsistent}
use allocube.Membership.Release.{trim_machine_access_reservations, release_machine_resources}
use allocube.Membership.ReleaseSafe.{
  trim_machine_access_reservations-IsConsistent, release_machine_resources-IsConsistent,
}

-- One transaction. A call that throws leaves the database as it was, and is no step. An update
-- reads the minute twice, and a release reads the time and the minute; no minute begins between.
pub data Step : Db → Db → Type 0 where
  commit_step :
      (env : Env) (user_id : ℕ) (raws : List RawSegment) (auto_adjust : Bool) (db : Db)
      (r : Committed × Db)
      → commit_reservation_batch env user_id raws auto_adjust db ≡ ok r
      → Step db r.1
  update_step :
      (env : Env) (id actor : ℕ) (raw : RawSegment) (expected : Option ℕ) (db : Db)
      (r : (ℕ × ℕ) × Db)
      → current_minute (env.clock 3) ≡ current_minute (env.clock 2)
      → update_own_reservation env id actor raw expected db ≡ ok r
      → Step db r.1
  cancel_step :
      (env : Env) (id actor : ℕ) (can_manage : Bool) (reason : Text) (expected : Option ℕ) (db : Db)
      (r : (Unit {0}) × Db)
      → cancel_reservation env id actor can_manage reason expected db ≡ ok r
      → Step db r.1
  end_step :
      (env : Env) (id actor : ℕ) (can_manage : Bool) (expected : Option ℕ) (db : Db) (r : Bool × Db)
      → end_reservation_early env id actor can_manage expected db ≡ ok r
      → Step db r.1
  replace_step :
      (env : Env) (user_id : ℕ) (selection : List Selected) (raws : List RawSegment)
      (auto_adjust : Bool) (db : Db) (r : Replaced × Db)
      → replace_multiple_reservations env user_id selection raws auto_adjust db ≡ ok r
      → Step db r.1
  plan_step :
      (env : Env) (p : Plan) (db : Db) (r : Planned × Db)
      → create_planned_unavailability env p db ≡ ok r
      → Step db r.1
  drop_step :
      (env : Env) (id actor : ℕ) (db : Db) (r : WindowEnded × Db)
      → cancel_unavailability env id actor db ≡ ok r
      → Step db r.1
  disable_step :
      (env : Env) (c : Change) (db : Db) (r : Disabled × Db)
      → disable_long_term env c db ≡ ok r
      → Step db r.1
  enable_step :
      (env : Env) (c : Change) (db : Db) (r : ℕ × Db) → enable_target env c db ≡ ok r → Step db r.1
  trim_step :
      (env : Env) (machine_id user_id expires_at actor : ℕ) (db : Db)
      → Step db (trim_machine_access_reservations env machine_id user_id expires_at actor db).1
  release_step :
      (env : Env) (machine_id user_id actor : ℕ) (reason : Text) (db : Db)
      → current_minute (env.clock 1) ≤ env.clock 0
      → Step db (release_machine_resources env machine_id user_id actor reason db).1

pub data Reachable (start : Db) : Db → Type 0 where
  at_start : Reachable start start
  after : (db db' : Db) → Reachable start db → Step db db' → Reachable start db'

Step-IsConsistent : (db db' : Db) → Step db db' → IsConsistent db → IsConsistent db'
Step-IsConsistent db db' (commit_step env user_id raws auto_adjust d r e) v =
    commit_reservation_batch-IsConsistent env user_id raws auto_adjust d r v e
Step-IsConsistent db db' (update_step env id actor raw expected d r same e) v =
    update_own_reservation-IsConsistent env id actor raw expected d r v same e
Step-IsConsistent db db' (cancel_step env id actor can_manage reason expected d r e) v =
    cancel_reservation-IsConsistent env id actor can_manage reason expected d r v e
Step-IsConsistent db db' (end_step env id actor can_manage expected d r e) v =
    end_reservation_early-IsConsistent env id actor can_manage expected d r v e
Step-IsConsistent db db' (replace_step env user_id selection raws auto_adjust d r e) v =
    replace_multiple_reservations-IsConsistent env user_id selection raws auto_adjust d r v e
Step-IsConsistent db db' (plan_step env p d r e) v =
    create_planned_unavailability-IsConsistent env p d r v e
Step-IsConsistent db db' (drop_step env id actor d r e) v =
    cancel_unavailability-IsConsistent env id actor d r v e
Step-IsConsistent db db' (disable_step env c d r e) v = disable_long_term-IsConsistent env c d r v e
Step-IsConsistent db db' (enable_step env c d r e) v = enable_target-IsConsistent env c d r v e
Step-IsConsistent db db' (trim_step env machine_id user_id expires_at actor d) v =
    trim_machine_access_reservations-IsConsistent env machine_id user_id expires_at actor d v
Step-IsConsistent db db' (release_step env machine_id user_id actor reason d order) v =
    release_machine_resources-IsConsistent env machine_id user_id actor reason d v order

Reachable-IsConsistent : (start db : Db) → Reachable start db → IsConsistent start → IsConsistent db
Reachable-IsConsistent start db at_start v = v
Reachable-IsConsistent start db (after d d' before step) v =
    Step-IsConsistent d d' step (Reachable-IsConsistent start d before v)

no_rows-IsConsistent : (db : Db) → db.reservations ≡ [] → db.windows ≡ [] → IsConsistent db
no_rows-IsConsistent db r w = record {
  unique = rw r tt;
  proper = rw r tt;
  homed = rw r tt;
  windows_proper = rw w tt;
  apart = rw r tt;
  clear = rw r tt;
}

-- Whatever sequence of operations follows a database without reservations and windows, no two
-- confirmed reservations of one target overlap, and none lies in an active window of its target.
pub Reachable-from_empty-IsConsistent :
    (start db : Db)
    → start.reservations ≡ []
    → start.windows ≡ []
    → Reachable start db
    → IsConsistent db
Reachable-from_empty-IsConsistent start db r w steps =
    Reachable-IsConsistent start db steps (no_rows-IsConsistent start r w)
