-- ===== src/Booking/ManageSafe.antt =====
-- Updating, cancelling and ending a reservation keep the schedule consistent.
use allocube.Prelude.{
  ℕ, ◌-◌, ◌≤◌, ◌<◌, ◌≡◌, refl, ap, subst, inl, inr, Bool, true, false, ◌||◌, Option, some, arith,
  ltb, ◌==◌, any, Bool-cases, Option-cases, if◌then◌else◌,
}
use allocube.Store.{
  Text, Db, Env, Reservation, confirmed, current_minute, minute_ms, add_audit, create_notification,
  NoticeKind, reservation_cancel, reservation_withdraw_first_minute, reservation_end_early,
  reservation_cancelled, reservation_released_by_manager,
}
use allocube.Store.Error.{ok, guard, ok_inj, >>=-eq-ok, cancel_forbidden, release_forbidden}
use allocube.Store.Rows.{find_reservation, update_reservation, delete_reservation}
use allocube.Schedule.{IsConsistent}
use allocube.Schedule.Narrow.{Narrow}
use allocube.Schedule.Keep.{
  add_audit-IsConsistent, create_notification-IsConsistent, bump-IsConsistent, batches-IsConsistent,
  update-IsConsistent, delete-IsConsistent,
}
use allocube.Booking.Manage.{
  find_confirmed, assert_reservation_state, check_cancel, check_end, mark_cancelled,
  cancel_reservation, end_at_minute, drop_empty_batch, release, end_reservation_early,
}

-- The row that find_confirmed returns is the confirmed row of that identifier.
pub find_confirmed-found :
    (id : ℕ) (db : Db) (r : Reservation)
    → find_confirmed id db ≡ ok r
    → (find_reservation id db.reservations ≡ some r) × (r.status ≡ confirmed)
unfolding find_confirmed
find_confirmed-found id db r e = elim (Option-cases (find_reservation id db.reservations)) [
  | inl gone ↦ absurd (cc (rw gone at e))
  | inr (x, found) ↦ ground (arith, found)
]

pub mark_cancelled-Narrow :
    (now actor : ℕ) (reason : Text) (r : Reservation) → Narrow (mark_cancelled now actor reason r) r
unfolding mark_cancelled
mark_cancelled-Narrow now actor reason r = record {
  same_id = refl;
  same_machine = refl;
  same_group = refl;
  same_scope = refl;
  was_confirmed = λ h. absurd (cc h);
  starts_later = λ h. absurd (cc h);
  ends_earlier = λ h. absurd (cc h);
}

told-IsConsistent :
    (db : Db) (own : Bool) (to : ℕ) (kind : NoticeKind)
    → IsConsistent db
    → IsConsistent (if own then db else create_notification to kind db)
told-IsConsistent db true to kind v = v
told-IsConsistent db false to kind v = create_notification-IsConsistent db v to kind

-- Cancelling a reservation keeps a consistent schedule consistent.
pub cancel_reservation-IsConsistent :
    (env : Env) (id actor : ℕ) (can_manage : Bool) (reason : Text) (expected : Option ℕ) (db : Db)
    (r : (Unit {0}) × Db)
    → IsConsistent db
    → cancel_reservation env id actor can_manage reason expected db ≡ ok r
    → IsConsistent r.1
unfolding cancel_reservation
cancel_reservation-IsConsistent env id actor can_manage reason expected db r v e =
    let (x, found, e1) = >>=-eq-ok (find_confirmed id db) _ e in
    let (_, _, e2) = >>=-eq-ok (guard ((x.user_id == actor) || can_manage) cancel_forbidden) _ e1 in
    let (_, _, e3) = >>=-eq-ok (assert_reservation_state env x expected) _ e2 in
    let (_, _, e4) = >>=-eq-ok (check_cancel x (env.clock 0)) _ e3 in
    let mark = mark_cancelled (env.clock 0) actor reason in
    let written = update_reservation id mark db in
    let v1 : IsConsistent written =
      update-IsConsistent db v id mark x (find_confirmed-found id db x found).0
        (mark_cancelled-Narrow (env.clock 0) actor reason x)
        (unfold mark_cancelled in λ h. absurd (cc h)) in
    let told =
      if x.user_id == actor
      then written
      else create_notification x.user_id reservation_cancelled written in
    let v2 : IsConsistent told =
      told-IsConsistent written (x.user_id == actor) x.user_id reservation_cancelled v1 in
    subst IsConsistent (ap (λ (k : (Unit {0}) × Db). k.1) (ok_inj e4))
      (bump-IsConsistent _ (add_audit-IsConsistent told v2 actor reservation_cancel id))

pub drop_empty_batch-IsConsistent :
    (db : Db) (batch_id : ℕ) → IsConsistent db → IsConsistent (drop_empty_batch batch_id db)
unfolding drop_empty_batch
drop_empty_batch-IsConsistent db batch_id v =
    elim (Bool-cases (any (λ r. r.batch_id == batch_id) db.reservations)) [
      | inl used ↦ rw used v
      | inr empty ↦ rw empty (batches-IsConsistent db v _)
    ]

-- The minute of an instant that lies a minute or more behind a start lies behind the start.
minute_after_start :
    (now start : ℕ) → start ≤ now → ltb (now - start) minute_ms ≡ false → start < current_minute now
unfolding current_minute
minute_after_start now start h e = ground arith

pub current_minute-le : (now : ℕ) → current_minute now ≤ now
unfolding current_minute
current_minute-le now = omega arith

end_at_minute-Narrow : (now : ℕ) (r : Reservation) → now < r.end_at → Narrow (end_at_minute now r) r
unfolding end_at_minute
end_at_minute-Narrow now r h = record {
  same_id = refl;
  same_machine = refl;
  same_group = refl;
  same_scope = refl;
  was_confirmed = λ c. c;
  starts_later = λ _. omega arith;
  ends_earlier = λ _. omega arith;
}

release-IsConsistent :
    (db : Db) (id actor now : ℕ) (r : Reservation)
    → IsConsistent db
    → find_reservation id db.reservations ≡ some r
    → r.start_at ≤ now
    → now < r.end_at
    → IsConsistent (release id actor r now db)
unfolding release
release-IsConsistent db id actor now r v found begun running =
    elim (Bool-cases (ltb (now - r.start_at) minute_ms)) [
      | inl short ↦
          let audited = add_audit actor reservation_withdraw_first_minute id db in
          rw short (
            drop_empty_batch-IsConsistent (delete_reservation id audited) r.batch_id (
              delete-IsConsistent audited
                (add_audit-IsConsistent db v actor reservation_withdraw_first_minute id) id))
      | inr long ↦ rw long (
          add_audit-IsConsistent (update_reservation id (end_at_minute now) db)
            (update-IsConsistent db v id (end_at_minute now) r found
              (end_at_minute-Narrow now r running)
              (unfold end_at_minute in λ _. minute_after_start now r.start_at begun long))
            actor reservation_end_early id)
    ]

check_end-times :
    (r : Reservation) (now : ℕ) (u : Unit {0})
    → check_end r now ≡ ok u
    → (r.start_at ≤ now) × (now < r.end_at)
unfolding check_end
check_end-times r now u e = ground arith

-- Ending a running reservation early keeps a consistent schedule consistent.
pub end_reservation_early-IsConsistent :
    (env : Env) (id actor : ℕ) (can_manage : Bool) (expected : Option ℕ) (db : Db) (r : Bool × Db)
    → IsConsistent db
    → end_reservation_early env id actor can_manage expected db ≡ ok r
    → IsConsistent r.1
unfolding end_reservation_early
end_reservation_early-IsConsistent env id actor can_manage expected db r v e =
    let (x, found, e1) = >>=-eq-ok (find_confirmed id db) _ e in
    let (_, _, e2) =
      >>=-eq-ok (guard ((x.user_id == actor) || can_manage) release_forbidden) _ e1 in
    let (_, _, e3) = >>=-eq-ok (assert_reservation_state env x expected) _ e2 in
    let (u, runs, e4) = >>=-eq-ok (check_end x (env.clock 0)) _ e3 in
    let times = check_end-times x (env.clock 0) u runs in
    let released = release id actor x (env.clock 0) db in
    let v1 : IsConsistent released =
      release-IsConsistent db id actor (env.clock 0) x v (find_confirmed-found id db x found).0
        times.0 times.1 in
    subst IsConsistent (ap (λ (k : Bool × Db). k.1) (ok_inj e4)) (
      bump-IsConsistent _ (
        told-IsConsistent released (x.user_id == actor) x.user_id reservation_released_by_manager
          v1))
