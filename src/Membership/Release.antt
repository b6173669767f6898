-- ===== src/Membership/Release.antt =====
-- trimMachineAccessReservations and releaseMachineResources of server/machine-access.ts.
use allocube.Prelude.{
  ℕ, Bool, ◌&&◌, some, List, [], ◌∷◌, ltb, leb, ◌==◌, filter, length, if◌then◌else◌,
}
use allocube.Store.{
  Text, Db, Env, Reservation, trim_end, is_confirmed, current_minute, add_audit,
  reservation_access_expiry, reservation_withdraw_first_minute,
}
use allocube.Store.Rows.{update_reservation, update_where, delete_reservation}
use allocube.Booking.Manage.{mark_cancelled, drop_empty_batch}

-- 机器授权期限缩短
abbrev pub access_shortened : Text
access_shortened = 26426 ∷ 22120 ∷ 25480 ∷ 26435 ∷ 26399 ∷ 38480 ∷ 32553 ∷ 30701 ∷ []

abbrev pub held_by : ℕ → ℕ → Reservation → Bool
held_by machine_id user_id r =
    (r.machine_id == machine_id) && (r.user_id == user_id) && is_confirmed r.status

unfoldable pub runs_past : ℕ → ℕ → ℕ → Reservation → Bool
runs_past machine_id user_id expires_at r = held_by machine_id user_id r && ltb expires_at r.end_at

unfoldable pub cut_at : ℕ → ℕ → Reservation → Reservation
cut_at expires_at now r = record r {
  end_at = expires_at;
  adjustment_type = some trim_end;
  adjustment_reason = access_shortened;
  updated_at = now;
}

-- One round: what begins after the expiry is cancelled, what runs past it is cut.
unfoldable pub trim_one : ℕ → ℕ → ℕ → Reservation → Db → Db
unfolding update_reservation mark_cancelled cut_at add_audit
trim_one expires_at now actor r db =
    if leb expires_at r.start_at
    then add_audit actor reservation_access_expiry r.id
        (update_reservation r.id (mark_cancelled now actor access_shortened) db)
    else add_audit actor reservation_access_expiry r.id
        (update_reservation r.id (cut_at expires_at now) db)

unfoldable pub trim_all : ℕ → ℕ → ℕ → List Reservation → Db → Db
unfolding trim_one
trim_all expires_at now actor [] db = db
trim_all expires_at now actor (r ∷ rs) db =
    trim_all expires_at now actor rs (trim_one expires_at now actor r db)

pub record Trimmed : Type 0 where
  pub cancelled : ℕ
  pub truncated : ℕ

-- trimMachineAccessReservations
unfoldable pub trim_machine_access_reservations : Env → ℕ → ℕ → ℕ → ℕ → Db → Trimmed × Db
unfolding trim_all runs_past
trim_machine_access_reservations env machine_id user_id expires_at actor db =
    let rows = filter (runs_past machine_id user_id expires_at) db.reservations in
    (
      record {
        cancelled = length (filter (λ r. leb expires_at r.start_at) rows);
        truncated = length (filter (λ r. ltb r.start_at expires_at) rows);
      },
      trim_all expires_at (env.clock 0) actor rows db,
    )

abbrev pub running_at : ℕ → Reservation → Bool
running_at now r = leb r.start_at now && ltb now r.end_at

-- Withdrawing what began in this minute.
unfoldable pub withdraw_all : ℕ → List Reservation → Db → Db
unfolding add_audit delete_reservation drop_empty_batch
withdraw_all actor [] db = db
withdraw_all actor (r ∷ rs) db = withdraw_all actor rs (
    drop_empty_batch r.batch_id
      (delete_reservation r.id (add_audit actor reservation_withdraw_first_minute r.id db)))

unfoldable pub ended_at : ℕ → ℕ → Reservation → Reservation
ended_at minute now r = record r { end_at = minute; updated_at = now }

-- The condition under which a running reservation ends with the minute.
abbrev pub ends_now : ℕ → ℕ → ℕ → ℕ → Reservation → Bool
ends_now machine_id user_id minute now r =
    held_by machine_id user_id r && ltb r.start_at minute && ltb now r.end_at

abbrev pub to_come : ℕ → ℕ → ℕ → Reservation → Bool
to_come machine_id user_id now r = held_by machine_id user_id r && ltb now r.start_at

pub record Released : Type 0 where
  pub active_reservations : ℕ
  pub future_reservations : ℕ

-- releaseMachineResources
unfoldable pub release_machine_resources : Env → ℕ → ℕ → ℕ → Text → Db → Released × Db
unfolding current_minute withdraw_all update_where ended_at mark_cancelled
release_machine_resources env machine_id user_id actor reason db =
    let now = env.clock 0 in
    let minute = current_minute (env.clock 1) in
    let mine = held_by machine_id user_id in
    let just_started =
      filter (λ r. mine r && leb minute r.start_at && running_at now r) db.reservations in
    let db1 = withdraw_all actor just_started db in
    let db2 : Db = record db1 {
      reservations =
          update_where (ends_now machine_id user_id minute now) (ended_at minute now)
            db1.reservations;
    } in
    let db3 : Db = record db2 {
      reservations =
          update_where (to_come machine_id user_id now) (mark_cancelled now actor reason)
            db2.reservations;
    } in
    (
      record {
        active_reservations = length (filter (λ r. mine r && running_at now r) db.reservations);
        future_reservations = length (filter (to_come machine_id user_id now) db.reservations);
      },
      db3,
    )
