-- ===== src/Maintenance/PlanSafe.antt =====
-- Planning and cancelling maintenance keep the schedule consistent.
use allocube.Prelude.{
  ℕ, ◌≤◌, ◌<◌, ◌≡◌, ◌∙◌, inl, inr, refl, sym, subst, ap, not, ◌&&◌, ◌||◌, some, [], ◌∷◌, ◌++◌,
  arith, ltb, ◌==◌, any, All-mono, Bool-cases,
}
use allocube.Store.{
  Db, Env, Reservation, Window, planned, window_active, is_active, is_planned, is_window_active,
  unavailability_create, unavailability_cancel,
}
use allocube.Store.Error.{
  ok, ok_inj, guard, >>=-eq-ok, or_fail-eq-ok, preview_stale, target_disabled, window_overlap,
  window_missing, window_already_cancelled, window_not_planned, window_ended,
}
use allocube.Store.Rows.{insert_window, find_window, update_window}
use allocube.Interval.{Span}
use allocube.Schedule.{IsConsistent, Clear, WindowFits}
use allocube.Schedule.Update.{All-find, All-update_first}
use allocube.Schedule.Keep.{add_audit-IsConsistent, bump-IsConsistent}
use allocube.Maintenance.Target.{Target, resolve_unavailability_target}
use allocube.Maintenance.Impact.{reservation_impacts}
use allocube.Maintenance.Apply.{apply_reservation_impacts, maintenance_change}
use allocube.Maintenance.Plan.{
  Plan, Planned, WindowEnded, new_window, window_overlaps, write_plan, normalize_planned_times,
  create_planned_unavailability, mark_window_cancelled, cancel_unavailability,
}
use allocube.Maintenance.Settle.{apply_reservation_impacts-IsConsistent}

-- A window that is inserted has a positive length, and stands at the end.
pub insert_window-eq-ok :
    (w : Window) (db db' : Db)
    → insert_window w db ≡ ok db'
    → (w.start_at < w.end_at) × (record db { windows = db.windows ++ w ∷ [] } ≡ db')
unfolding insert_window
insert_window-eq-ok w db db' e =
    elim (Bool-cases (any (λ x. x.id == w.id) db.windows || not (ltb w.start_at w.end_at))) [
      | inl bad ↦ absurd (cc (rw bad at e))
      | inr good ↦ (ground (arith, good), ok_inj (rw good at e))
    ]

write_plan-IsConsistent :
    (env : Env) (p : Plan) (t : Target) (b : Span) (db : Db) (r : Planned × Db)
    → IsConsistent db
    → write_plan env p t b db ≡ ok r
    → IsConsistent r.1
unfolding write_plan new_window
write_plan-IsConsistent env p t b db r v e =
    let w = new_window (env.uuid 0) t planned b p.reason p.actor (env.clock 1) in
    let (db1, inserted, e1) = >>=-eq-ok (insert_window w db) _ e in
    let (positive, same) = insert_window-eq-ok w db db1 inserted in
    let (db2, applied, e2) =
      >>=-eq-ok
        (apply_reservation_impacts env 2 (reservation_impacts t b db1.reservations) p.actor
          (env.uuid 0) p.reason t.name maintenance_change db1)
        _ e1 in
    let v2 =
      apply_reservation_impacts-IsConsistent db v t b w refl refl refl refl positive env 2 p.actor
        (env.uuid 0) p.reason t.name maintenance_change db2
        (subst
          (λ (k : Db).
            apply_reservation_impacts env 2 (reservation_impacts t b k.reservations) p.actor
              (env.uuid 0) p.reason t.name maintenance_change k
            ≡ ok db2)
          (sym same) applied) in
    subst IsConsistent (ap (λ (k : Planned × Db). k.1) (ok_inj e2)) (
      bump-IsConsistent _
        (add_audit-IsConsistent db2 v2 p.actor unavailability_create (env.uuid 0)))

-- Planning maintenance leaves a consistent schedule consistent: every reservation of the target
-- gives up the time of the new window, and every part that stays keeps apart from all others.
pub create_planned_unavailability-IsConsistent :
    (env : Env) (p : Plan) (db : Db) (r : Planned × Db)
    → IsConsistent db
    → create_planned_unavailability env p db ≡ ok r
    → IsConsistent r.1
unfolding create_planned_unavailability
create_planned_unavailability-IsConsistent env p db r v e =
    let (b, _, e1) = >>=-eq-ok (normalize_planned_times p.start_at p.end_at (env.clock 0)) _ e in
    let (_, _, e2) =
      >>=-eq-ok (guard (p.overwrite || (db.revision == p.expected_revision)) preview_stale) _ e1 in
    let (t, _, e3) = >>=-eq-ok (resolve_unavailability_target db.catalog p.type p.id) _ e2 in
    let (_, _, e4) =
      >>=-eq-ok (guard (is_active t.status && is_active t.machine_status) target_disabled) _ e3 in
    let (_, _, e5) =
      >>=-eq-ok (guard (not (any (window_overlaps t b) db.windows)) window_overlap) _ e4 in
    write_plan-IsConsistent env p t b db r v e5

-- A window that ends earlier, or no longer counts, is clear of what it was clear of.
pub record Shrunk (new old : Window) : Type 0 where
  pub same_machine : new.machine_id ≡ old.machine_id
  pub same_group : new.resource_group_id ≡ old.resource_group_id
  pub was_active : new.status ≡ window_active → old.status ≡ window_active
  pub same_start : new.start_at ≡ old.start_at
  pub ends_earlier : new.end_at ≤ old.end_at

pub Clear-Shrunk : (new old : Window) (r : Reservation) → Shrunk new old → Clear r old → Clear r new
Clear-Shrunk new old r n h p q m f =
    elim (h p (n.was_active q) (sym n.same_machine ∙ m)
      (subst (λ o. WindowFits o r) n.same_group f)) [
        | inl e ↦ inl (omega (arith, n.same_start))
        | inr e ↦ inr (omega (arith, n.ends_earlier))
      ]

pub update_window-IsConsistent :
    (db : Db) (id : ℕ) (f : Window → Window) (w : Window)
    → IsConsistent db
    → find_window id db.windows ≡ some w
    → Shrunk (f w) w
    → (f w).start_at < (f w).end_at
    → IsConsistent (update_window id f db)
unfolding update_window find_window
update_window-IsConsistent db id f w v found n p = record {
  unique = v.unique;
  proper = v.proper;
  homed = v.homed;
  windows_proper =
      All-update_first (λ x. x.start_at < x.end_at) (λ x. x.id == id) f db.windows w found (λ _. p)
        v.windows_proper;
  apart = v.apart;
  clear =
      All-mono _ _ db.reservations
        (λ r h.
          All-update_first (Clear r) (λ x. x.id == id) f db.windows w found
            (Clear-Shrunk (f w) w r n) h)
        v.clear;
}

mark_window_cancelled-Shrunk :
    (actor now : ℕ) (w : Window) → Shrunk (mark_window_cancelled actor now w) w
unfolding mark_window_cancelled
mark_window_cancelled-Shrunk actor now w = elim (Bool-cases (is_window_active w.status)) [
  | inl e ↦ rw e (record {
    same_machine = refl;
    same_group = refl;
    was_active = λ h. absurd (cc h);
    same_start = refl;
    ends_earlier = omega arith;
  })
  | inr e ↦ rw e (record {
    same_machine = refl;
    same_group = refl;
    was_active = λ h. h;
    same_start = refl;
    ends_earlier = omega arith;
  })
]

mark_window_cancelled-times :
    (actor now : ℕ) (w : Window)
    → w.start_at < w.end_at
    → (mark_window_cancelled actor now w).start_at < (mark_window_cancelled actor now w).end_at
unfolding mark_window_cancelled
mark_window_cancelled-times actor now w h = elim (Bool-cases (is_window_active w.status)) [
  | inl e ↦ rw e h
  | inr e ↦ rw e h
]

-- Cancelling a maintenance window leaves a consistent schedule consistent.
pub cancel_unavailability-IsConsistent :
    (env : Env) (id actor : ℕ) (db : Db) (r : WindowEnded × Db)
    → IsConsistent db
    → cancel_unavailability env id actor db ≡ ok r
    → IsConsistent r.1
unfolding cancel_unavailability find_window
cancel_unavailability-IsConsistent env id actor db r v e =
    let (w, found, e1) = or_fail-eq-ok (find_window id db.windows) window_missing _ e in
    let (_, _, e2) = >>=-eq-ok (guard (is_window_active w.status) window_already_cancelled) _ e1 in
    let (_, _, e3) = >>=-eq-ok (guard (is_planned w.kind) window_not_planned) _ e2 in
    let (_, _, e4) = >>=-eq-ok (guard (ltb (env.clock 0) w.end_at) window_ended) _ e3 in
    let mark = mark_window_cancelled actor (env.clock 1) in
    let proper =
      All-find (λ (x : Window). x.start_at < x.end_at) (λ x. x.id == id) db.windows w found
        v.windows_proper in
    subst IsConsistent (ap (λ (k : WindowEnded × Db). k.1) (ok_inj e4)) (
      bump-IsConsistent _ (
        add_audit-IsConsistent (update_window id mark db)
          (update_window-IsConsistent db id mark w v found
            (mark_window_cancelled-Shrunk actor (env.clock 1) w)
            (mark_window_cancelled-times actor (env.clock 1) w proper))
          actor unavailability_cancel id))
