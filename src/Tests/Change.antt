-- ===== src/Tests/Change.antt =====
-- Replacements, and the loss of access, on a small database.
use allocube.Prelude.{◌≡◌, refl, arith, false, List, [], ◌∷◌}
use allocube.Store.{Db, current_minute}
use allocube.Store.Error.{ok}
use allocube.Schedule.{IsConsistent}
use allocube.Booking.Replace.{Selected, Replaced, replace_multiple_reservations}
use allocube.Booking.ReplaceSafe.{replace_multiple_reservations-IsConsistent}
use allocube.Membership.Release.{trim_machine_access_reservations, release_machine_resources}
use allocube.Membership.ReleaseSafe.{
  trim_machine_access_reservations-IsConsistent, release_machine_resources-IsConsistent,
}
use allocube.Interval.{span}
use allocube.Tests.Data.{at, small_db, small_db-IsConsistent, env_at, times_of, request, value_or}

abbrev the_booked : List Selected
the_booked = record { id = 100; state_token = 100 } ∷ []

-- The running reservation of 20 to 40 becomes one of 30 to 50.
abbrev replaced_db : Replaced × Db
unfolding replace_multiple_reservations
replaced_db =
    value_or
      (
        record {
          batch_id = 0;
          reservations = [];
          replaced_ids = [];
          revision = 0;
          adjusted = false;
        },
        small_db,
      )
      (replace_multiple_reservations (env_at 1850000) 7 the_booked (request 10 25 50 ∷ []) false
        small_db)

replaces :
    replace_multiple_reservations
      (env_at 1850000)
      7
      the_booked
      (request 10 25 50 ∷ [])
      false
      small_db
    ≡ ok replaced_db
unfolding replace_multiple_reservations
replaces = refl

replaced_times : times_of replaced_db.1 ≡ span (at 20) (at 30) ∷ span (at 30) (at 50) ∷ []
unfolding replaced_db
replaced_times = refl

replace_multiple_reservations-IsConsistent_example : IsConsistent replaced_db.1
replace_multiple_reservations-IsConsistent_example =
    replace_multiple_reservations-IsConsistent (env_at 1850000) 7 the_booked (request 10 25 50 ∷ [])
      false small_db replaced_db small_db-IsConsistent replaces

trim_times :
    times_of (trim_machine_access_reservations (env_at 650000) 1 7 (at 35) 1 small_db).1
    ≡ span (at 20) (at 35) ∷ []
unfolding trim_machine_access_reservations
trim_times = refl

trim_machine_access_reservations-IsConsistent_example :
    IsConsistent (trim_machine_access_reservations (env_at 650000) 1 7 (at 35) 1 small_db).1
trim_machine_access_reservations-IsConsistent_example =
    trim_machine_access_reservations-IsConsistent (env_at 650000) 1 7 (at 35) 1 small_db
      small_db-IsConsistent

release_machine_resources-IsConsistent_example :
    IsConsistent (release_machine_resources (env_at 1850000) 1 7 1 [] small_db).1
unfolding current_minute
release_machine_resources-IsConsistent_example =
    release_machine_resources-IsConsistent (env_at 1850000) 1 7 1 [] small_db small_db-IsConsistent
      (omega arith)
