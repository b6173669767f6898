-- ===== src/Maintenance/Disable.antt =====
-- Disabling a machine or a resource group for long, and enabling it again: disableLongTerm,
-- stopPlannedMaintenanceForDisable and enableTarget of server/unavailability.ts, with
-- checkEditVersion of server/edit-conflict.ts. The columns disabled_at, disabled_by and
-- disable_reason of a target are not kept.
use allocube.Prelude.{
  ℕ, suc, Bool, true, false, not, ◌&&◌, ◌||◌, Option, none, some, List, [], ◌∷◌, ltb, leb, ◌==◌,
  any, filter, length, if◌then◌else◌,
}
use allocube.Store.{
  Text, Db, Env, Catalog, Machine, Group, Window, TargetStatus, active, disabled, is_active,
  long_term, window_cancelled, is_window_active, is_planned, current_minute, add_audit, AuditAction,
  bump_schedule_revision, unavailability_interrupt_disable, unavailability_cancel_disable,
  resource_disable_window_create, resource_disable_window_end, disable_long_term_audit,
  enable_audit,
}
use allocube.Store.Error.{
  Result, ok, guard, ◌>>=◌, ◌>>◌, preview_stale, edit_conflict, target_status_changed,
  windows_changed, constraint_violation,
}
use allocube.Store.Rows.{update_first, update_where, insert_window}
use allocube.Interval.{span}
use allocube.Maintenance.Target.{
  Target, TargetType, machine_target, group_target, resolve_unavailability_target,
}
use allocube.Maintenance.Impact.{Summary, reservation_impacts, preview_summary}
use allocube.Maintenance.Apply.{apply_reservation_impacts, disable_change}
use allocube.Maintenance.Plan.{
  UnavailabilityPreview, preview_unavailability, new_window, same_object,
}

-- 9999-12-31T23:59:00.000Z
abbrev pub distant_future : ℕ
distant_future = 253402300740000

-- previewLongTermDisable; `clock 1` is the reading of currentMinuteIso, `clock 0` the later one.
unfoldable pub preview_long_term_disable : Env → TargetType → ℕ → Db → Result UnavailabilityPreview
unfolding preview_unavailability current_minute
preview_long_term_disable env type id db =
    preview_unavailability env type id (some (current_minute (env.clock 1))) (some distant_future)
      db

-- checkEditVersion
unfoldable pub check_edit_version : ℕ → ℕ → Bool → Result (Unit {0})
check_edit_version current expected overwrite =
    guard (overwrite || (current == expected)) edit_conflict

abbrev pub same_status : TargetStatus → TargetStatus → Bool
same_status active active = true
same_status active disabled = false
same_status disabled active = false
same_status disabled disabled = true

-- `WHERE id = ? AND status = ... AND version = ?`
abbrev pub machine_fits : ℕ → TargetStatus → ℕ → Machine → Bool
machine_fits id before version m =
    (m.id == id) && same_status m.status before && (m.version == version)

abbrev pub group_fits : ℕ → TargetStatus → ℕ → Group → Bool
group_fits id before version g =
    (g.id == id) && same_status g.status before && (g.version == version)

-- The UPDATE of machines or resource_groups, which must change a row.
unfoldable pub set_target_status :
    TargetType → ℕ → TargetStatus → ℕ → TargetStatus → Catalog → Result Catalog
unfolding update_first
set_target_status machine_target id before version after c = do
  guard (any (machine_fits id before version) c.machines) target_status_changed
  ok (record c {
    machines =
        update_first (machine_fits id before version)
          (λ m. record m { status = after; version = suc m.version }) c.machines;
  })
set_target_status group_target id before version after c = do
  guard (any (group_fits id before version) c.groups) target_status_changed
  ok (record c {
    groups =
        update_first (group_fits id before version)
          (λ g. record g { status = after; version = suc g.version }) c.groups;
  })

-- `? IS NULL OR resource_group_id = ?`
abbrev pub within_target : Option ℕ → Option ℕ → Bool
within_target none o = true
within_target (some g) none = false
within_target (some g) (some h) = h == g

abbrev pub planned_for : Target → ℕ → Window → Bool
planned_for t stopped w =
    (w.machine_id == t.machine_id)
    && within_target t.resource_group_id w.resource_group_id
    && is_planned w.kind
    && is_window_active w.status
    && ltb stopped w.end_at

abbrev pub interrupted_by : Target → ℕ → Window → Bool
interrupted_by t stopped w = planned_for t stopped w && ltb w.start_at stopped

abbrev pub dropped_by : Target → ℕ → Window → Bool
dropped_by t stopped w = planned_for t stopped w && leb stopped w.start_at

abbrev pub end_window : ℕ → Window → Window
end_window at w = record w { end_at = at }

abbrev pub drop_window : ℕ → ℕ → Window → Window
drop_window actor at w = record w {
  status = window_cancelled;
  cancelled_by = some actor;
  cancelled_at = some at;
}

unfoldable pub audit_windows : ℕ → AuditAction → List Window → Db → Db
unfolding add_audit
audit_windows actor action [] db = db
audit_windows actor action (w ∷ ws) db =
    audit_windows actor action ws (add_audit actor action w.id db)

-- stopPlannedMaintenanceForDisable. Each UPDATE has the condition of its SELECT, and the first one
-- changes no row of the second, so both change as many rows as were selected.
unfoldable pub stop_planned_maintenance_for_disable : Target → ℕ → ℕ → Db → Db
unfolding update_where audit_windows
stop_planned_maintenance_for_disable t stopped actor db =
    let interrupted = filter (interrupted_by t stopped) db.windows in
    let future = filter (dropped_by t stopped) db.windows in
    let db1 : Db = record db {
      windows = update_where (interrupted_by t stopped) (end_window stopped) db.windows;
    } in
    let db2 = audit_windows actor unavailability_interrupt_disable interrupted db1 in
    let db3 : Db = record db2 {
      windows = update_where (dropped_by t stopped) (drop_window actor stopped) db2.windows;
    } in
    audit_windows actor unavailability_cancel_disable future db3

pub record Change : Type 0 where
  pub type : TargetType
  pub id : ℕ
  pub expected_version : ℕ
  pub expected_revision : ℕ
  pub overwrite : Bool
  pub actor : ℕ
  pub reason : Text

pub record Disabled : Type 0 where
  pub revision : ℕ
  pub interrupted : ℕ
  pub cancelled : ℕ
  pub impact : Summary

-- The statements of disableLongTerm after its checks.
unfoldable pub write_disable : Env → Change → Target → ℕ → Db → Result (Disabled × Db)
unfolding set_target_status stop_planned_maintenance_for_disable new_window insert_window add_audit
    reservation_impacts apply_reservation_impacts bump_schedule_revision preview_summary
write_disable env c t start db = do
  catalog ← set_target_status c.type c.id active t.version disabled db.catalog
  let db1 = stop_planned_maintenance_for_disable t start c.actor (record db { catalog = catalog })
  db2 ←
      insert_window
        (new_window (env.uuid 0) t long_term (span start distant_future) c.reason c.actor start) db1
  let db3 = add_audit c.actor resource_disable_window_create (env.uuid 0) db2
  let impacts = reservation_impacts t (span start distant_future) db3.reservations
  db4 ←
      apply_reservation_impacts env 1 impacts c.actor (env.uuid 0) c.reason t.name disable_change
        db3
  let done = bump_schedule_revision (add_audit c.actor disable_long_term_audit c.id db4)
  ok (
    record {
      revision = done.revision;
      interrupted = length (filter (interrupted_by t start) db.windows);
      cancelled = length (filter (dropped_by t start) db.windows);
      impact = preview_summary impacts;
    },
    done,
  )

-- disableLongTerm
unfoldable pub disable_long_term : Env → Change → Db → Result (Disabled × Db)
unfolding resolve_unavailability_target check_edit_version current_minute write_disable
disable_long_term env c db = do
  guard (c.overwrite || (db.revision == c.expected_revision)) preview_stale
  t ← resolve_unavailability_target db.catalog c.type c.id
  check_edit_version t.version c.expected_version c.overwrite
  guard (is_active t.status) target_status_changed
  write_disable env c t (current_minute (env.clock 0)) db

-- The long-term windows of the target itself.
abbrev pub open_window : Target → Window → Bool
open_window t w =
    (w.machine_id == t.machine_id)
    && same_object w.resource_group_id t.resource_group_id
    && not (is_planned w.kind)
    && is_window_active w.status

-- ORDER BY start_at
unfoldable pub insert_window_row : Window → List Window → List Window
insert_window_row x [] = x ∷ []
insert_window_row x (y ∷ ys) =
    let rest = insert_window_row x ys in if leb x.start_at y.start_at then x ∷ y ∷ ys else y ∷ rest

unfoldable pub sort_windows : List Window → List Window
unfolding insert_window_row
sort_windows [] = []
sort_windows (x ∷ xs) = insert_window_row x (sort_windows xs)

abbrev pub still_active : ℕ → Window → Bool
still_active id w = (w.id == id) && is_window_active w.status

abbrev pub still_open : ℕ → ℕ → Window → Bool
still_open id minute w = still_active id w && ltb minute w.end_at

-- The UPDATE for one window, which must change a row; CHECK(end_at > start_at) holds of the result.
unfoldable pub change_window : ℕ → ℕ → ℕ → Window → Db → Result Db
unfolding update_where
change_window minute now actor w db =
    if leb minute w.start_at
    then guard (any (still_active w.id) db.windows) windows_changed
      >> ok (record db {
        windows = update_where (still_active w.id) (drop_window actor now) db.windows;
      })
    else guard (any (still_open w.id minute) db.windows) windows_changed
      >> guard (not (any (λ x. still_open w.id minute x && leb minute x.start_at) db.windows))
          constraint_violation
      >> ok (record db {
        windows = update_where (still_open w.id minute) (end_window minute) db.windows;
      })

unfoldable pub end_windows : ℕ → ℕ → ℕ → List Window → Db → Result Db
unfolding change_window add_audit
end_windows minute now actor [] db = ok db
end_windows minute now actor (w ∷ ws) db = change_window minute now actor w db >>= λ db'.
    end_windows minute now actor ws (add_audit actor resource_disable_window_end w.id db')

-- enableTarget: the new revision.
unfoldable pub enable_target : Env → Change → Db → Result (ℕ × Db)
unfolding resolve_unavailability_target check_edit_version set_target_status sort_windows
    end_windows current_minute add_audit bump_schedule_revision
enable_target env c db = do
  t ← resolve_unavailability_target db.catalog c.type c.id
  check_edit_version t.version c.expected_version c.overwrite
  guard (not (is_active t.status)) target_status_changed
  catalog ← set_target_status c.type c.id disabled t.version active db.catalog
  let open_windows = sort_windows (filter (open_window t) db.windows)
  db1 ←
      end_windows (current_minute (env.clock 1)) (env.clock 2) c.actor open_windows
        (record db { catalog = catalog })
  let done = bump_schedule_revision (add_audit c.actor enable_audit c.id db1)
  ok (done.revision, done)
