-- ===== src/Maintenance/CancelWindow.antt =====
-- When cancelUnavailability (server/unavailability.ts) goes through, and what it writes.
use allocube.Prelude.{
  ℕ, ◌<◌, ◌≡◌, ◌≢◌, ◌↔◌, ◌∙◌, refl, sym, ap, subst, arith, true, ltb, some, ◌==◌, lt→ltb,
  Bool-cases, inl, inr,
}
use allocube.Store.{
  Db, Env, Window, WindowKind, WindowStatus, planned, long_term, window_active, window_cancelled,
  is_planned, is_window_active, add_audit, bump_schedule_revision,
}
use allocube.Store.Error.{
  ok, ok_inj, returned, guard-eq-ok, or_fail-eq-ok, window_missing, window_already_cancelled,
  window_not_planned, window_ended,
}
use allocube.Store.Rows.{find_window, update_window, update_first}
use allocube.Schedule.Find.{find-update_first, find-updated}
use allocube.Maintenance.Plan.{WindowEnded, mark_window_cancelled, cancel_unavailability}

-- What a cancellation asks of the window.
pub record MayEnd (env : Env) (id : ℕ) (db : Db) : Type 0 where
  pub row : Window
  pub found : find_window id db.windows ≡ some row
  pub active : row.status ≡ window_active
  pub is_planned : row.kind ≡ planned
  pub before_end : env.clock 0 < row.end_at

active-status : (s : WindowStatus) → is_window_active s ≡ true → s ≡ window_active
active-status window_active h = refl
active-status window_cancelled h = absurd (cc h)

planned-kind : (k : WindowKind) → is_planned k ≡ true → k ≡ planned
planned-kind planned h = refl
planned-kind long_term h = absurd (cc h)

ends-MayEnd :
    (env : Env) (id actor : ℕ) (db : Db) (r : WindowEnded × Db)
    → cancel_unavailability env id actor db ≡ ok r
    → MayEnd env id db
unfolding cancel_unavailability
ends-MayEnd env id actor db r e =
    let (w, found, e1) = or_fail-eq-ok (find_window id db.windows) window_missing _ e in
    let (a, e2) = guard-eq-ok (is_window_active w.status) window_already_cancelled _ e1 in
    let (p, e3) = guard-eq-ok (is_planned w.kind) window_not_planned _ e2 in
    let (t, e4) = guard-eq-ok (ltb (env.clock 0) w.end_at) window_ended _ e3 in
    record {
      row = w;
      found = found;
      active = active-status w.status a;
      is_planned = planned-kind w.kind p;
      before_end = ground (arith, t);
    }

-- Cancelling a window returns exactly when the window is there, active, planned and has not ended.
pub cancel_unavailability_iff :
    (env : Env) (id actor : ℕ) (db : Db)
    → ((r : WindowEnded × Db) × (cancel_unavailability env id actor db ≡ ok r)) ↔ MayEnd env id db
unfolding cancel_unavailability
cancel_unavailability_iff env id actor db = (
  (λ h. ends-MayEnd env id actor db h.0 h.1),
  (λ m.
      returned (cancel_unavailability env id actor db)
        (rw (m.found, m.active, m.is_planned, lt→ltb _ _ m.before_end) tt)),
)

mark-id : (actor now : ℕ) (w : Window) → (mark_window_cancelled actor now w).id ≡ w.id
unfolding mark_window_cancelled
mark-id actor now w = elim (Bool-cases (is_window_active w.status)) [
  | inl e ↦ rw e refl
  | inr e ↦ rw e refl
]

mark-active :
    (actor now : ℕ) (w : Window)
    → w.status ≡ window_active
    → mark_window_cancelled actor now w
      ≡ record w { status = window_cancelled; cancelled_by = some actor; cancelled_at = some now }
unfolding mark_window_cancelled
mark-active actor now w e = rw e refl

-- A cancellation of a window that returns gives the window the status cancelled, the actor and the
-- time, changes nothing else of it, leaves the window of every other identifier and all
-- reservations, and answers with the machine and the group of the window.
pub cancel_unavailability-effect :
    (env : Env) (id actor other : ℕ) (db : Db) (r : WindowEnded × Db)
    → other ≢ id
    → cancel_unavailability env id actor db ≡ ok r
    → ((w : Window) × (find_window id db.windows ≡ some w)
        × (find_window id r.1.windows
            ≡ some (record w {
              status = window_cancelled;
              cancelled_by = some actor;
              cancelled_at = some (env.clock 1);
            }))
        × (r.0.machine_id ≡ w.machine_id)
        × (r.0.resource_group_id ≡ w.resource_group_id))
      × (find_window other r.1.windows ≡ find_window other db.windows)
      × (r.1.reservations ≡ db.reservations)
unfolding cancel_unavailability add_audit bump_schedule_revision update_window find_window
cancel_unavailability-effect env id actor other db r ne e =
    let (w, found, e1) = or_fail-eq-ok (find_window id db.windows) window_missing _ e in
    let (a, e2) = guard-eq-ok (is_window_active w.status) window_already_cancelled _ e1 in
    let (p, e3) = guard-eq-ok (is_planned w.kind) window_not_planned _ e2 in
    let (t, e4) = guard-eq-ok (ltb (env.clock 0) w.end_at) window_ended _ e3 in
    let mark = mark_window_cancelled actor (env.clock 1) in
    let rows : update_first (λ x. x.id == id) mark db.windows ≡ r.1.windows =
      ap (λ (k : WindowEnded × Db). k.1.windows) (ok_inj e4) in
    (
      (
        w,
        found,
        subst (λ k. find_window id k ≡ some (mark w)) rows
              (find-updated (λ x. x.id == id) mark db.windows w
                (λ x. ap (λ k. k == id) (mark-id actor (env.clock 1) x)) found)
            ∙ ap some (mark-active actor (env.clock 1) w (active-status w.status a)),
        ap (λ (k : WindowEnded × Db). k.0.machine_id) (sym (ok_inj e4)),
        ap (λ (k : WindowEnded × Db). k.0.resource_group_id) (sym (ok_inj e4)),
      ),
      subst (λ k. find_window other k ≡ find_window other db.windows) rows
          (find-update_first (λ x. x.id == other) (λ x. x.id == id) mark db.windows
            (λ x f. (ground (arith, f, ne), ground (arith, f, ne, mark-id actor (env.clock 1) x)))),
      ap (λ (k : WindowEnded × Db). k.1.reservations) (sym (ok_inj e4)),
    )
