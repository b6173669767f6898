-- ===== src/Tests/Book.antt =====
-- The operations of a reservation's life on a small database.
use allocube.Prelude.{ℕ, ◌<◌, ◌≡◌, arith, refl, true, false, Bool, none, some, [], ◌∷◌, ◌↔◌, inr}
use allocube.Store.{Db, Reservation, cancelled, current_minute}
use allocube.Store.Rows.{find_reservation}
use allocube.Store.Error.{ok, err, preview_unavailable, state_changed}
use allocube.Schedule.{IsConsistent}
use allocube.Booking.Commit.{Committed, commit_reservation_batch}
use allocube.Booking.CommitSafe.{commit_reservation_batch-IsConsistent}
use allocube.Booking.Manage.{update_own_reservation, cancel_reservation, end_reservation_early}
use allocube.Booking.ManageSafe.{end_reservation_early-IsConsistent}
use allocube.Booking.Effects.{
  Appended, commit_reservation_batch-Appended, cancel_reservation-effect,
}
use allocube.Booking.Succeed.{MayCancel, cancel_reservation_iff}
use allocube.Booking.UpdateSafe.{update_own_reservation-IsConsistent}
use allocube.Tests.Data.{booked, small_db, small_db-IsConsistent, env_at, request, value_or}

-- A request across the reservation and the window, cut to what is free.
abbrev committed : Committed × Db
unfolding commit_reservation_batch
committed =
    value_or (record { batch_id = 0; reservations = []; revision = 0; adjusted = false }, small_db)
      (commit_reservation_batch (env_at 650000) 7 (request 10 15 90 ∷ []) true small_db)

commits :
    commit_reservation_batch (env_at 650000) 7 (request 10 15 90 ∷ []) true small_db ≡ ok committed
unfolding commit_reservation_batch
commits = refl

commit_reservation_batch-IsConsistent_example : IsConsistent committed.1
commit_reservation_batch-IsConsistent_example =
    commit_reservation_batch-IsConsistent (env_at 650000) 7 (request 10 15 90 ∷ []) true small_db
      committed small_db-IsConsistent commits

commit_reservation_batch-Appended_example : Appended 7 small_db committed.1 committed.0.reservations
commit_reservation_batch-Appended_example =
    commit_reservation_batch-Appended (env_at 650000) 7 (request 10 15 90 ∷ []) true small_db
      committed commits

commit_counts : committed.1.revision ≡ 6
unfolding committed
commit_counts = refl

refused_commit :
    commit_reservation_batch (env_at 650000) 7 (request 10 15 90 ∷ []) false small_db
    ≡ err preview_unavailable
unfolding commit_reservation_batch
refused_commit = refl

abbrev updated : (ℕ × ℕ) × Db
unfolding update_own_reservation
updated =
    value_or ((0, 0), small_db)
      (update_own_reservation (env_at 650000) 100 7 (request 10 30 60) (some 100) small_db)

updates :
    update_own_reservation (env_at 650000) 100 7 (request 10 30 60) (some 100) small_db ≡ ok updated
unfolding update_own_reservation current_minute
updates = refl

update_own_reservation-IsConsistent_example : IsConsistent updated.1
update_own_reservation-IsConsistent_example =
    update_own_reservation-IsConsistent (env_at 650000) 100 7 (request 10 30 60) (some 100) small_db
      updated small_db-IsConsistent refl updates

update_counts : updated.0 ≡ (100, 6)
unfolding updated current_minute
update_counts = refl

abbrev cancelled_db : (Unit {0}) × Db
unfolding cancel_reservation
cancelled_db =
    value_or (tt, small_db) (cancel_reservation (env_at 650000) 100 7 false [] none small_db)

cancels : cancel_reservation (env_at 650000) 100 7 false [] none small_db ≡ ok cancelled_db
unfolding cancel_reservation
cancels = refl

cancel_reservation-effect_example :
    ((x : Reservation) × (find_reservation 100 small_db.reservations ≡ some x)
      × (650000 < x.start_at)
      × (find_reservation 100 cancelled_db.1.reservations
          ≡ some (record x {
            status = cancelled;
            cancelled_at = some 650000;
            cancelled_by = some 7;
            cancellation_reason = [];
            updated_at = 650000;
          })))
    × (find_reservation 101 cancelled_db.1.reservations
        ≡ find_reservation 101 small_db.reservations)
cancel_reservation-effect_example =
    cancel_reservation-effect (env_at 650000) 100 7 101 false [] none small_db cancelled_db
      (λ e. omega (arith, e)) cancels

cancel_reservation_iff_example :
    ((r : (Unit {0}) × Db) × (cancel_reservation (env_at 650000) 100 1 true [] (some 100) small_db
        ≡ ok r))
    ↔ MayCancel (env_at 650000) 100 1 true (some 100) small_db
cancel_reservation_iff_example =
    cancel_reservation_iff (env_at 650000) 100 1 true [] (some 100) small_db

-- The manager may, with the state token of the row.
manager_may : MayCancel (env_at 650000) 100 1 true (some 100) small_db
unfolding find_reservation
manager_may = record {
  row = booked;
  found = refl;
  is_confirmed = refl;
  allowed = inr refl;
  state = inr refl;
  before_start = omega arith;
  before_end = omega arith;
}

stale_token :
    cancel_reservation (env_at 650000) 100 1 true [] (some 99) small_db ≡ err state_changed
unfolding cancel_reservation
stale_token = refl

abbrev ended : Bool × Db
unfolding end_reservation_early
ended = value_or (true, small_db) (end_reservation_early (env_at 1850000) 100 1 true none small_db)

ends : end_reservation_early (env_at 1850000) 100 1 true none small_db ≡ ok ended
unfolding end_reservation_early
ends = refl

end_reservation_early-IsConsistent_example : IsConsistent ended.1
end_reservation_early-IsConsistent_example =
    end_reservation_early-IsConsistent (env_at 1850000) 100 1 true none small_db ended
      small_db-IsConsistent ends
