-- ===== src/Membership/ReleaseSafe.antt =====
-- Shortening or ending a member's access keeps the schedule consistent.
use allocube.Prelude.{
  ℕ, ◌≤◌, ◌<◌, ◌≡◌, ◌≢◌, ◌∙◌, inl, inr, refl, sym, subst, Bool, true, ◌&&◌, List, [], ◌∷◌, arith,
  leb, filter, All, All-mono, All-filter, Bool-cases, leb→lt, some,
}
use allocube.Store.{
  Text, Db, Env, Reservation, current_minute, add_audit, reservation_access_expiry,
  reservation_withdraw_first_minute,
}
use allocube.Store.Rows.{get_group, update_where, delete_reservation}
use allocube.Schedule.{IsConsistent, Apart, Clear, Proper, Homed}
use allocube.Schedule.Narrow.{Narrow, Apart-narrow_left, Apart-narrow_right, All-Clear-narrow}
use allocube.Schedule.Update.{All-update_where, AllPairs-update_where}
use allocube.Schedule.Find.{AllPairs-filter, filter-All}
use allocube.Schedule.Keep.{add_audit-IsConsistent, delete-IsConsistent}
use allocube.Schedule.Pending.{Pending, update-Pending, add_audit-Pending, rows-found}
use allocube.Booking.Manage.{mark_cancelled, drop_empty_batch}
use allocube.Booking.ManageSafe.{mark_cancelled-Narrow, drop_empty_batch-IsConsistent}
use allocube.Membership.Release.{
  held_by, runs_past, cut_at, trim_one, trim_all, trim_machine_access_reservations, withdraw_all,
  ended_at, ends_now, to_come, access_shortened, running_at, release_machine_resources,
}

cut_at-Narrow :
    (expires_at now : ℕ) (r : Reservation)
    → expires_at ≤ r.end_at
    → Narrow (cut_at expires_at now r) r
unfolding cut_at
cut_at-Narrow expires_at now r h = record {
  same_id = refl;
  same_machine = refl;
  same_group = refl;
  same_scope = refl;
  was_confirmed = λ c. c;
  starts_later = λ _. omega arith;
  ends_earlier = λ _. h;
}

cancelled-Proper :
    (now actor : ℕ) (reason : Text) (r : Reservation) → Proper (mark_cancelled now actor reason r)
unfolding mark_cancelled
cancelled-Proper now actor reason r h = absurd (cc h)

trim_one-Pending :
    (expires_at now actor : ℕ) (r : Reservation) (todo : List Reservation) (db : Db)
    → expires_at ≤ r.end_at
    → Pending (r ∷ todo) db
    → Pending todo (trim_one expires_at now actor r db)
unfolding trim_one
trim_one-Pending expires_at now actor r todo db h a =
    elim (Bool-cases (leb expires_at r.start_at)) [
      | inl later ↦ rw later (
          add_audit-Pending todo _ actor reservation_access_expiry r.id (
            update-Pending r todo db (mark_cancelled now actor access_shortened) a
              (unfold mark_cancelled in λ x. refl)
              (mark_cancelled-Narrow now actor access_shortened r)
              (cancelled-Proper now actor access_shortened r)))
      | inr begun ↦ rw begun (
          add_audit-Pending todo _ actor reservation_access_expiry r.id (
            update-Pending r todo db (cut_at expires_at now) a (unfold cut_at in λ x. refl)
              (cut_at-Narrow expires_at now r h) (unfold cut_at in λ _. leb→lt _ _ begun)))
    ]

trim_all-IsConsistent :
    (expires_at now actor : ℕ) (todo : List Reservation) (db : Db)
    → All (λ r. expires_at ≤ r.end_at) todo
    → Pending todo db
    → IsConsistent (trim_all expires_at now actor todo db)
unfolding trim_all
trim_all-IsConsistent expires_at now actor [] db h a = a.consistent
trim_all-IsConsistent expires_at now actor (r ∷ todo) db h a =
    trim_all-IsConsistent expires_at now actor todo (trim_one expires_at now actor r db) h.1
      (trim_one-Pending expires_at now actor r todo db h.0 a)

runs_past-le :
    (machine_id user_id expires_at : ℕ) (r : Reservation)
    → runs_past machine_id user_id expires_at r ≡ true
    → expires_at ≤ r.end_at
unfolding runs_past
runs_past-le machine_id user_id expires_at r h = ground (arith, h)

-- Shortening a member's access leaves a consistent schedule consistent.
pub trim_machine_access_reservations-IsConsistent :
    (env : Env) (machine_id user_id expires_at actor : ℕ) (db : Db)
    → IsConsistent db
    → IsConsistent (trim_machine_access_reservations env machine_id user_id expires_at actor db).1
unfolding trim_machine_access_reservations
trim_machine_access_reservations-IsConsistent env machine_id user_id expires_at actor db v =
    let hit = runs_past machine_id user_id expires_at in
    trim_all-IsConsistent expires_at (env.clock 0) actor (filter hit db.reservations) db
      (All-mono _ _ (filter hit db.reservations) (runs_past-le machine_id user_id expires_at)
        (filter-All hit db.reservations))
      (record {
        consistent = v;
        found = All-filter _ hit db.reservations (rows-found db v);
        unique = AllPairs-filter _ hit db.reservations v.unique;
      })

-- Rows that give time back, all that meet a condition at once.
rows_where-IsConsistent :
    (db : Db) (p : Reservation → Bool) (f : Reservation → Reservation)
    → IsConsistent db
    → ((r : Reservation) → p r ≡ true → Narrow (f r) r)
    → ((r : Reservation) → p r ≡ true → Proper (f r))
    → IsConsistent (record db { reservations = update_where p f db.reservations })
rows_where-IsConsistent db p f v narrow proper = record {
  unique =
      AllPairs-update_where (λ a b. a.id ≢ b.id) p f db.reservations
        (λ x y e h k. h (sym (narrow x e).same_id ∙ k)) (λ x y e h k. h (k ∙ (narrow y e).same_id))
        v.unique;
  proper =
      All-update_where Proper Proper p f db.reservations (λ r e _. proper r e) (λ _ _ h. h)
        v.proper;
  homed =
      All-update_where (Homed db.catalog) (Homed db.catalog) p f db.reservations
        (λ r e h g k.
          h g (subst (λ i. get_group db.catalog i ≡ some g) (narrow r e).same_group k)
          ∙ sym (narrow r e).same_machine)
        (λ _ _ h. h) v.homed;
  windows_proper = v.windows_proper;
  apart =
      AllPairs-update_where Apart p f db.reservations
        (λ x y e h. Apart-narrow_left (narrow x e) y h)
        (λ x y e h. Apart-narrow_right (narrow y e) x h) v.apart;
  clear =
      All-update_where (λ r. All (Clear r) db.windows) (λ r. All (Clear r) db.windows) p f
        db.reservations (λ r e h. All-Clear-narrow (narrow r e) db.windows h) (λ _ _ h. h) v.clear;
}

withdraw_all-IsConsistent :
    (actor : ℕ) (rows : List Reservation) (db : Db)
    → IsConsistent db
    → IsConsistent (withdraw_all actor rows db)
unfolding withdraw_all
withdraw_all-IsConsistent actor [] db v = v
withdraw_all-IsConsistent actor (r ∷ rows) db v =
    let audited = add_audit actor reservation_withdraw_first_minute r.id db in
    withdraw_all-IsConsistent actor rows
      (drop_empty_batch r.batch_id (delete_reservation r.id audited))
      (drop_empty_batch-IsConsistent (delete_reservation r.id audited) r.batch_id (
        delete-IsConsistent audited
          (add_audit-IsConsistent db v actor reservation_withdraw_first_minute r.id) r.id))

ended_at-Narrow :
    (machine_id user_id minute now : ℕ) (r : Reservation)
    → minute ≤ now
    → ends_now machine_id user_id minute now r ≡ true
    → Narrow (ended_at minute now r) r
unfolding ended_at
ended_at-Narrow machine_id user_id minute now r m h =
    let later : now < r.end_at = ground (arith, h) in
    record {
      same_id = refl;
      same_machine = refl;
      same_group = refl;
      same_scope = refl;
      was_confirmed = λ c. c;
      starts_later = λ _. omega arith;
      ends_earlier = λ _. omega arith;
    }

ended_at-Proper :
    (machine_id user_id minute now : ℕ) (r : Reservation)
    → ends_now machine_id user_id minute now r ≡ true
    → Proper (ended_at minute now r)
unfolding ended_at
ended_at-Proper machine_id user_id minute now r h c = ground (arith, h)

-- Releasing what a member holds on a machine leaves a consistent schedule consistent, if the
-- minute that is read has begun at the time that was read before.
pub release_machine_resources-IsConsistent :
    (env : Env) (machine_id user_id actor : ℕ) (reason : Text) (db : Db)
    → IsConsistent db
    → current_minute (env.clock 1) ≤ env.clock 0
    → IsConsistent (release_machine_resources env machine_id user_id actor reason db).1
unfolding release_machine_resources
release_machine_resources-IsConsistent env machine_id user_id actor reason db v order =
    let now = env.clock 0 in
    let minute = current_minute (env.clock 1) in
    let v1 =
      withdraw_all-IsConsistent actor
        (filter (λ r. held_by machine_id user_id r && leb minute r.start_at && running_at now r)
          db.reservations)
        db v in
    let v2 =
      rows_where-IsConsistent _ (ends_now machine_id user_id minute now) (ended_at minute now) v1
        (λ r e. ended_at-Narrow machine_id user_id minute now r order e)
        (λ r e. ended_at-Proper machine_id user_id minute now r e) in
    rows_where-IsConsistent _ (to_come machine_id user_id now) (mark_cancelled now actor reason) v2
      (λ r _. mark_cancelled-Narrow now actor reason r) (λ r _. cancelled-Proper now actor reason r)
