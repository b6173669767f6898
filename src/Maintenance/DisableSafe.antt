-- ===== src/Maintenance/DisableSafe.antt =====
-- Disabling a target keeps the schedule consistent.
use allocube.Prelude.{
  ℕ, ◌≤◌, ◌<◌, ◌≡◌, refl, sym, subst, ap, Bool, true, ◌||◌, List, [], ◌∷◌, ◌++◌, arith, ◌==◌,
  filter, All, All-mono, All-zip2,
}
use allocube.Store.{
  Db, Env, Catalog, Reservation, Window, AuditAction, active, disabled, is_active, long_term,
  current_minute, add_audit, unavailability_interrupt_disable, unavailability_cancel_disable,
  resource_disable_window_create, disable_long_term_audit,
}
use allocube.Store.Error.{ok, ok_inj, guard, >>=-eq-ok, preview_stale, target_status_changed}
use allocube.Store.Rows.{update_where, insert_window}
use allocube.Interval.{span}
use allocube.Schedule.{IsConsistent, Homed, Clear}
use allocube.Schedule.Update.{All-update_where}
use allocube.Schedule.Keep.{add_audit-IsConsistent, bump-IsConsistent}
use allocube.Maintenance.Target.{Target, resolve_unavailability_target}
use allocube.Maintenance.Impact.{reservation_impacts}
use allocube.Maintenance.Apply.{apply_reservation_impacts, disable_change}
use allocube.Maintenance.Plan.{new_window}
use allocube.Maintenance.PlanSafe.{Shrunk, Clear-Shrunk, insert_window-eq-ok}
use allocube.Maintenance.Settle.{apply_reservation_impacts-IsConsistent}
use allocube.Maintenance.Homes.{set_target_status-Homed}
use allocube.Maintenance.Disable.{
  Change, Disabled, distant_future, check_edit_version, set_target_status, interrupted_by,
  dropped_by, end_window, drop_window, audit_windows, stop_planned_maintenance_for_disable,
  write_disable, disable_long_term,
}

pub drop_window-Shrunk : (actor at : ℕ) (w : Window) → Shrunk (drop_window actor at w) w
drop_window-Shrunk actor at w = record {
  same_machine = refl;
  same_group = refl;
  was_active = λ h. absurd (cc h);
  same_start = refl;
  ends_earlier = omega arith;
}

pub end_window-Shrunk : (at : ℕ) (w : Window) → at ≤ w.end_at → Shrunk (end_window at w) w
end_window-Shrunk at w h = record {
  same_machine = refl;
  same_group = refl;
  was_active = λ k. k;
  same_start = refl;
  ends_earlier = h;
}

-- The windows that fit shrink, and keep a positive length.
pub windows_where-IsConsistent :
    (db : Db) (p : Window → Bool) (f : Window → Window)
    → IsConsistent db
    → All (λ w. p w ≡ true → (f w).start_at < (f w).end_at) db.windows
    → ((w : Window) → p w ≡ true → Shrunk (f w) w)
    → IsConsistent (record db { windows = update_where p f db.windows })
windows_where-IsConsistent db p f v positive shrinks = record {
  unique = v.unique;
  proper = v.proper;
  homed = v.homed;
  windows_proper =
      All-update_where (λ w. (p w ≡ true → (f w).start_at < (f w).end_at) × (w.start_at < w.end_at))
        (λ w. w.start_at < w.end_at) p f db.windows (λ w e k. k.0 e) (λ w e k. k.1)
        (All-zip2 (λ w a b. (a, b)) db.windows positive v.windows_proper);
  apart = v.apart;
  clear =
      All-mono _ _ db.reservations
        (λ r h.
          All-update_where (Clear r) (Clear r) p f db.windows
            (λ w e k. Clear-Shrunk (f w) w r (shrinks w e) k) (λ w e k. k) h)
        v.clear;
}

pub catalog-IsConsistent :
    (db : Db) (c : Catalog)
    → IsConsistent db
    → ((r : Reservation) → Homed db.catalog r → Homed c r)
    → IsConsistent (record db { catalog = c })
catalog-IsConsistent db c v h = record {
  unique = v.unique;
  proper = v.proper;
  homed = All-mono (Homed db.catalog) (Homed c) db.reservations h v.homed;
  windows_proper = v.windows_proper;
  apart = v.apart;
  clear = v.clear;
}

audit_windows-IsConsistent :
    (actor : ℕ) (action : AuditAction) (ws : List Window) (db : Db)
    → IsConsistent db
    → IsConsistent (audit_windows actor action ws db)
unfolding audit_windows
audit_windows-IsConsistent actor action [] db v = v
audit_windows-IsConsistent actor action (w ∷ ws) db v =
    audit_windows-IsConsistent actor action ws (add_audit actor action w.id db)
      (add_audit-IsConsistent db v actor action w.id)

interrupted-end :
    (t : Target) (at : ℕ) (w : Window)
    → interrupted_by t at w ≡ true
    → (w.start_at < at) × (at ≤ w.end_at)
interrupted-end t at w h = ground (arith, h)

pub dropped_positive :
    (p : Window → Bool) (actor at : ℕ) (ws : List Window)
    → All (λ w. w.start_at < w.end_at) ws
    → All (λ w. p w ≡ true → (drop_window actor at w).start_at < (drop_window actor at w).end_at) ws
dropped_positive p actor at ws a = All-mono _ _ ws (λ w k _. k) a

interrupted_positive :
    (t : Target) (at : ℕ) (ws : List Window)
    → All (λ w. interrupted_by t at w ≡ true → w.start_at < at) ws
interrupted_positive t at [] = tt
interrupted_positive t at (w ∷ ws) =
    ((λ e. (interrupted-end t at w e).0), interrupted_positive t at ws)

stop_planned-IsConsistent :
    (t : Target) (at actor : ℕ) (db : Db)
    → IsConsistent db
    → IsConsistent (stop_planned_maintenance_for_disable t at actor db)
unfolding stop_planned_maintenance_for_disable
stop_planned-IsConsistent t at actor db v =
    let v1 =
      windows_where-IsConsistent db (interrupted_by t at) (end_window at) v
        (interrupted_positive t at db.windows)
        (λ w e. end_window-Shrunk at w (interrupted-end t at w e).1) in
    let v2 =
      audit_windows-IsConsistent actor unavailability_interrupt_disable
        (filter (interrupted_by t at) db.windows) _ v1 in
    let v3 =
      windows_where-IsConsistent _ (dropped_by t at) (drop_window actor at) v2
        (dropped_positive (dropped_by t at) actor at _ v2.windows_proper)
        (λ w e. drop_window-Shrunk actor at w) in
    audit_windows-IsConsistent actor unavailability_cancel_disable
      (filter (dropped_by t at) db.windows) _ v3

disable_settles :
    (env : Env) (c : Change) (t : Target) (start : ℕ) (db1 db2 db4 : Db)
    → IsConsistent (add_audit c.actor resource_disable_window_create (env.uuid 0) db1)
    → start < distant_future
    → record db1 {
      windows =
          db1.windows
          ++ new_window (env.uuid 0) t long_term (span start distant_future) c.reason c.actor start
            ∷ [];
    }
      ≡ db2
    → apply_reservation_impacts env 1
        (reservation_impacts t
          (span start distant_future)
          (add_audit c.actor resource_disable_window_create (env.uuid 0) db2).reservations)
        c.actor
        (env.uuid 0)
        c.reason
        t.name
        disable_change
        (add_audit c.actor resource_disable_window_create (env.uuid 0) db2)
      ≡ ok db4
    → IsConsistent db4
unfolding add_audit new_window
disable_settles env c t start db1 db2 db4 v positive same applied =
    let audited : Db → Db = add_audit c.actor resource_disable_window_create (env.uuid 0) in
    let b = span start distant_future in
    apply_reservation_impacts-IsConsistent (audited db1) v t b
      (new_window (env.uuid 0) t long_term b c.reason c.actor start) refl refl refl refl positive
      env 1 c.actor (env.uuid 0) c.reason t.name disable_change db4
      (subst
        (λ (k : Db).
          apply_reservation_impacts env 1 (reservation_impacts t b (audited k).reservations) c.actor
            (env.uuid 0) c.reason t.name disable_change (audited k)
          ≡ ok db4)
        (sym same) applied)

write_disable-IsConsistent :
    (env : Env) (c : Change) (t : Target) (start : ℕ) (db : Db) (r : Disabled × Db)
    → IsConsistent db
    → write_disable env c t start db ≡ ok r
    → IsConsistent r.1
unfolding write_disable new_window
write_disable-IsConsistent env c t start db r v e =
    let b = span start distant_future in
    let w = new_window (env.uuid 0) t long_term b c.reason c.actor start in
    let (catalog, set, e1) =
      >>=-eq-ok (set_target_status c.type c.id active t.version disabled db.catalog) _ e in
    let db1 =
      stop_planned_maintenance_for_disable t start c.actor (record db { catalog = catalog }) in
    let v1 : IsConsistent db1 =
      stop_planned-IsConsistent t start c.actor (record db { catalog = catalog })
        (catalog-IsConsistent db catalog v
          (set_target_status-Homed c.type c.id active t.version disabled db.catalog catalog set)) in
    let (db2, inserted, e2) = >>=-eq-ok (insert_window w db1) _ e1 in
    let (positive, same) = insert_window-eq-ok w db1 db2 inserted in
    let audited : Db → Db = add_audit c.actor resource_disable_window_create (env.uuid 0) in
    let (db4, applied, e3) =
      >>=-eq-ok
        (apply_reservation_impacts env 1 (reservation_impacts t b (audited db2).reservations)
          c.actor (env.uuid 0) c.reason t.name disable_change (audited db2))
        _ e2 in
    let v1' : IsConsistent (audited db1) =
      add_audit-IsConsistent db1 v1 c.actor resource_disable_window_create (env.uuid 0) in
    let v4 = disable_settles env c t start db1 db2 db4 v1' positive same applied in
    subst IsConsistent (ap (λ (k : Disabled × Db). k.1) (ok_inj e3))
      (bump-IsConsistent _ (add_audit-IsConsistent db4 v4 c.actor disable_long_term_audit c.id))

-- Disabling a target for long leaves a consistent schedule consistent: its reservations end before
-- the open window that begins, and its planned maintenance ends or is dropped.
pub disable_long_term-IsConsistent :
    (env : Env) (c : Change) (db : Db) (r : Disabled × Db)
    → IsConsistent db
    → disable_long_term env c db ≡ ok r
    → IsConsistent r.1
unfolding disable_long_term
disable_long_term-IsConsistent env c db r v e =
    let (_, _, e1) =
      >>=-eq-ok (guard (c.overwrite || (db.revision == c.expected_revision)) preview_stale) _ e in
    let (t, _, e2) = >>=-eq-ok (resolve_unavailability_target db.catalog c.type c.id) _ e1 in
    let (_, _, e3) = >>=-eq-ok (check_edit_version t.version c.expected_version c.overwrite) _ e2 in
    let (_, _, e4) = >>=-eq-ok (guard (is_active t.status) target_status_changed) _ e3 in
    write_disable-IsConsistent env c t (current_minute (env.clock 0)) db r v e4
