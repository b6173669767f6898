-- ===== src/Maintenance/EnableSafe.antt =====
-- Enabling a target keeps the schedule consistent.
use allocube.Prelude.{
  ℕ, ◌≤◌, ◌<◌, ◌≡◌, inl, inr, subst, ap, true, false, not, ◌&&◌, List, [], ◌∷◌, arith, leb, any,
  filter, All, All-mono, Bool-cases, any-false→All,
}
use allocube.Store.{
  Db, Env, Window, active, disabled, is_active, current_minute, add_audit,
  resource_disable_window_end, enable_audit,
}
use allocube.Store.Error.{
  ok, ok_inj, ◌>>◌, guard, guard-true, >>=-eq-ok, target_status_changed, windows_changed,
  constraint_violation,
}
use allocube.Schedule.{IsConsistent}
use allocube.Schedule.Keep.{add_audit-IsConsistent, bump-IsConsistent}
use allocube.Booking.Admit.{not-true}
use allocube.Maintenance.Target.{resolve_unavailability_target}
use allocube.Maintenance.Homes.{set_target_status-Homed}
use allocube.Maintenance.Disable.{
  Change, check_edit_version, set_target_status, end_window, drop_window, open_window, sort_windows,
  still_active, still_open, change_window, end_windows, enable_target,
}
use allocube.Maintenance.DisableSafe.{
  drop_window-Shrunk, end_window-Shrunk, windows_where-IsConsistent, catalog-IsConsistent,
  dropped_positive,
}

open_positive :
    (id minute : ℕ) (ws : List Window)
    → any (λ x. still_open id minute x && leb minute x.start_at) ws ≡ false
    → All (λ w. still_open id minute w ≡ true → w.start_at < minute) ws
open_positive id minute ws h =
    All-mono _ _ ws (λ w k o. ground (arith, k, o))
      (any-false→All (λ x. still_open id minute x && leb minute x.start_at) ws h)

open_ends_later : (id minute : ℕ) (w : Window) → still_open id minute w ≡ true → minute ≤ w.end_at
open_ends_later id minute w h = ground (arith, h)

change_window-IsConsistent :
    (minute now actor : ℕ) (w : Window) (db db' : Db)
    → IsConsistent db
    → change_window minute now actor w db ≡ ok db'
    → IsConsistent db'
unfolding change_window
change_window-IsConsistent minute now actor w db db' v e =
    elim (Bool-cases (leb minute w.start_at)) [
      | inl later ↦
          let (_, _, e1) =
            >>=-eq-ok (guard (any (still_active w.id) db.windows) windows_changed) _
              (rw later at e) in
          subst IsConsistent (ok_inj e1) (
            windows_where-IsConsistent db (still_active w.id) (drop_window actor now) v
              (dropped_positive (still_active w.id) actor now db.windows v.windows_proper)
              (λ x _. drop_window-Shrunk actor now x))
      | inr begun ↦
          let bad = any (λ x. still_open w.id minute x && leb minute x.start_at) db.windows in
          let (_, checked, e1) =
            >>=-eq-ok
              (guard (any (still_open w.id minute) db.windows) windows_changed
                >> guard (not bad) constraint_violation)
              _ (rw begun at e) in
          let (_, _, check) =
            >>=-eq-ok (guard (any (still_open w.id minute) db.windows) windows_changed) _ checked in
          subst IsConsistent (ok_inj e1) (
            windows_where-IsConsistent db (still_open w.id minute) (end_window minute) v
              (open_positive w.id minute db.windows (not-true bad (guard-true (not bad) _ check)))
              (λ x o. end_window-Shrunk minute x (open_ends_later w.id minute x o)))
    ]

end_windows-IsConsistent :
    (minute now actor : ℕ) (ws : List Window) (db db' : Db)
    → IsConsistent db
    → end_windows minute now actor ws db ≡ ok db'
    → IsConsistent db'
unfolding end_windows
end_windows-IsConsistent minute now actor [] db db' v e = subst IsConsistent (ok_inj e) v
end_windows-IsConsistent minute now actor (w ∷ ws) db db' v e =
    let (db1, changed, e1) = >>=-eq-ok (change_window minute now actor w db) _ e in
    end_windows-IsConsistent minute now actor ws
      (add_audit actor resource_disable_window_end w.id db1) db'
      (add_audit-IsConsistent db1 (change_window-IsConsistent minute now actor w db db1 v changed)
        actor resource_disable_window_end w.id)
      e1

-- Enabling a target leaves a consistent schedule consistent.
pub enable_target-IsConsistent :
    (env : Env) (c : Change) (db : Db) (r : ℕ × Db)
    → IsConsistent db
    → enable_target env c db ≡ ok r
    → IsConsistent r.1
unfolding enable_target
enable_target-IsConsistent env c db r v e =
    let (t, _, e1) = >>=-eq-ok (resolve_unavailability_target db.catalog c.type c.id) _ e in
    let (_, _, e2) = >>=-eq-ok (check_edit_version t.version c.expected_version c.overwrite) _ e1 in
    let (_, _, e3) = >>=-eq-ok (guard (not (is_active t.status)) target_status_changed) _ e2 in
    let (catalog, set, e4) =
      >>=-eq-ok (set_target_status c.type c.id disabled t.version active db.catalog) _ e3 in
    let (db1, ended, e5) =
      >>=-eq-ok
        (end_windows (current_minute (env.clock 1)) (env.clock 2) c.actor
          (sort_windows (filter (open_window t) db.windows)) (record db { catalog = catalog }))
        _ e4 in
    let v1 =
      catalog-IsConsistent db catalog v
        (set_target_status-Homed c.type c.id disabled t.version active db.catalog catalog set) in
    let v2 =
      end_windows-IsConsistent (current_minute (env.clock 1)) (env.clock 2) c.actor
        (sort_windows (filter (open_window t) db.windows)) (record db { catalog = catalog }) db1 v1
        ended in
    subst IsConsistent (ap (λ (k : ℕ × Db). k.1) (ok_inj e5))
      (bump-IsConsistent _ (add_audit-IsConsistent db1 v2 c.actor enable_audit c.id))
