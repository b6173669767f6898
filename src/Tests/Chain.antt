-- ===== src/Tests/Chain.antt =====
-- A short history from an empty database: a commit, then the cancellation of what it wrote.
use allocube.Prelude.{◌≡◌, refl, false, none, [], ◌∷◌}
use allocube.Store.{Db}
use allocube.Store.Error.{ok}
use allocube.Schedule.{IsConsistent}
use allocube.Booking.Commit.{Committed, commit_reservation_batch}
use allocube.Booking.Manage.{cancel_reservation}
use allocube.System.{
  Reachable, at_start, after, commit_step, cancel_step, Reachable-from_empty-IsConsistent,
}
use allocube.Tests.Data.{small_db, env_at, request, value_or}

abbrev empty_db : Db
empty_db = record small_db { reservations = []; windows = []; batches = [] }

abbrev first : Committed × Db
unfolding commit_reservation_batch
first =
    value_or (record { batch_id = 0; reservations = []; revision = 0; adjusted = false }, empty_db)
      (commit_reservation_batch (env_at 650000) 7 (request 10 15 90 ∷ request 11 20 30 ∷ []) false
        empty_db)

first_commits :
    commit_reservation_batch
      (env_at 650000)
      7
      (request 10 15 90 ∷ request 11 20 30 ∷ [])
      false
      empty_db
    ≡ ok first
unfolding commit_reservation_batch
first_commits = refl

abbrev second : (Unit {0}) × Db
unfolding cancel_reservation first
second = value_or (tt, empty_db) (cancel_reservation (env_at 650000) 1 7 false [] none first.1)

second_cancels : cancel_reservation (env_at 650000) 1 7 false [] none first.1 ≡ ok second
unfolding cancel_reservation first
second_cancels = refl

history : Reachable empty_db second.1
history =
    after first.1 second.1
      (after empty_db first.1 at_start (
        commit_step (env_at 650000) 7 (request 10 15 90 ∷ request 11 20 30 ∷ []) false empty_db
          first first_commits))
      (cancel_step (env_at 650000) 1 7 false [] none first.1 second second_cancels)

Reachable-from_empty-IsConsistent_example : IsConsistent second.1
Reachable-from_empty-IsConsistent_example =
    Reachable-from_empty-IsConsistent empty_db second.1 refl refl history
