-- ===== src/Maintenance/Effects.antt =====
-- What planning maintenance writes, and what its summary counts.
use allocube.Prelude.{
  ◌+◌, ◌≡◌, refl, sym, subst, true, not, none, ◌&&◌, ◌||◌, List, [], ◌∷◌, ◌++◌, arith, ◌==◌, any,
  filter, length,
}
use allocube.Store.{
  Db, Env, Window, window_active, planned, is_active, add_audit, bump_schedule_revision,
}
use allocube.Store.Error.{
  ok, ok_inj, guard, guard-true, >>=-eq-ok, preview_stale, target_disabled, window_overlap,
}
use allocube.Store.Rows.{insert_window}
use allocube.Interval.{Span}
use allocube.Schedule.{IsConsistent}
use allocube.Maintenance.Target.{Target, resolve_unavailability_target}
use allocube.Maintenance.Impact.{
  ReservationImpact, ImpactAction, impact_cancel, impact_trim_start, impact_trim_end, impact_split,
  preview_summary, reservation_impacts, is_cancel, is_trim, is_split,
}
use allocube.Maintenance.Apply.{apply_reservation_impacts, maintenance_change}
use allocube.Maintenance.Plan.{
  Plan, Planned, new_window, window_overlaps, write_plan, normalize_planned_times,
  create_planned_unavailability,
}
use allocube.Maintenance.Settle.{apply_reservation_impacts-windows}
use allocube.Maintenance.PlanSafe.{insert_window-eq-ok}

-- Every impact is counted once.
preview_summary-total :
    (impacts : List ReservationImpact)
    → let s = preview_summary impacts in s.total ≡ s.cancelled + s.trimmed + s.split
unfolding preview_summary
preview_summary-total [] = refl
preview_summary-total (i ∷ impacts) = one i i.action refl (preview_summary-total impacts)
  where
    one :
        (i : ReservationImpact) (a : ImpactAction)
        → i.action ≡ a
        → length impacts
          ≡ length (filter is_cancel impacts)
            + length (filter is_trim impacts)
            + length (filter is_split impacts)
        → length (i ∷ impacts)
          ≡ length (filter is_cancel (i ∷ impacts))
            + length (filter is_trim (i ∷ impacts))
            + length (filter is_split (i ∷ impacts))
    one i impact_cancel h k = rw h (omega (arith, k))
    one i impact_trim_start h k = rw h (omega (arith, k))
    one i impact_trim_end h k = rw h (omega (arith, k))
    one i impact_split h k = rw h (omega (arith, k))

-- The window that a plan has asked for, of the target that it names, is the only new one.
pub record Written (env : Env) (p : Plan) (db : Db) (r : Planned × Db) : Type 0 where
  pub target : Target
  pub resolved : resolve_unavailability_target db.catalog p.type p.id ≡ ok target
  pub active : (is_active target.status && is_active target.machine_status) ≡ true
  pub windows :
      r.1.windows
      ≡ db.windows
        ++ record {
          id = r.0.id;
          machine_id = target.machine_id;
          resource_group_id = target.resource_group_id;
          kind = planned;
          start_at = r.0.blocked.start;
          end_at = r.0.blocked.end;
          reason = p.reason;
          status = window_active;
          created_by = p.actor;
          cancelled_by = none;
          cancelled_at = none;
          created_at = env.clock 1;
        }
          ∷ []

-- The row of a window that was planned.
abbrev planned_row : Env → Plan → Target → Planned → Window
planned_row env p t done = record {
  id = done.id;
  machine_id = t.machine_id;
  resource_group_id = t.resource_group_id;
  kind = planned;
  start_at = done.blocked.start;
  end_at = done.blocked.end;
  reason = p.reason;
  status = window_active;
  created_by = p.actor;
  cancelled_by = none;
  cancelled_at = none;
  created_at = env.clock 1;
}

write_plan-windows :
    (env : Env) (p : Plan) (t : Target) (b : Span) (db : Db) (r : Planned × Db)
    → IsConsistent db
    → write_plan env p t b db ≡ ok r
    → r.1.windows ≡ db.windows ++ planned_row env p t r.0 ∷ []
unfolding write_plan new_window add_audit bump_schedule_revision
write_plan-windows env p t b db r v e =
    let w = new_window (env.uuid 0) t planned b p.reason p.actor (env.clock 1) in
    let (db1, inserted, e1) = >>=-eq-ok (insert_window w db) _ e in
    let (positive, same) = insert_window-eq-ok w db db1 inserted in
    let (db2, applied, e2) =
      >>=-eq-ok
        (apply_reservation_impacts env 2 (reservation_impacts t b db1.reservations) p.actor
          (env.uuid 0) p.reason t.name maintenance_change db1)
        _ e1 in
    let ws =
      apply_reservation_impacts-windows db v t b w refl refl refl refl positive env 2 p.actor
        (env.uuid 0) p.reason t.name maintenance_change db2
        (subst
          (λ (k : Db).
            apply_reservation_impacts env 2 (reservation_impacts t b k.reservations) p.actor
              (env.uuid 0) p.reason t.name maintenance_change k
            ≡ ok db2)
          (sym same) applied) in
    subst (λ (k : Planned × Db). k.1.windows ≡ db.windows ++ planned_row env p t k.0 ∷ [])
      (ok_inj e2) ws

-- Planning maintenance on a consistent schedule adds one window, with the identifier and over the
-- span of its answer, active and planned, for the target that the plan names, which is active, with
-- the plan's reason and actor; and changes no other window.
pub create_planned_unavailability-Written :
    (env : Env) (p : Plan) (db : Db) (r : Planned × Db)
    → IsConsistent db
    → create_planned_unavailability env p db ≡ ok r
    → Written env p db r
unfolding create_planned_unavailability
create_planned_unavailability-Written env p db r v e =
    let (b, _, e1) = >>=-eq-ok (normalize_planned_times p.start_at p.end_at (env.clock 0)) _ e in
    let (_, _, e2) =
      >>=-eq-ok (guard (p.overwrite || (db.revision == p.expected_revision)) preview_stale) _ e1 in
    let (t, resolved, e3) = >>=-eq-ok (resolve_unavailability_target db.catalog p.type p.id) _ e2 in
    let (_, act, e4) =
      >>=-eq-ok (guard (is_active t.status && is_active t.machine_status) target_disabled) _ e3 in
    let (_, _, e5) =
      >>=-eq-ok (guard (not (any (window_overlaps t b) db.windows)) window_overlap) _ e4 in
    record {
      target = t;
      resolved = resolved;
      active = guard-true _ _ act;
      windows = write_plan-windows env p t b db r v e5;
    }
