-- ===== src/Tests/Project.antt =====
-- The unavailable time that the calendar draws for a few windows.
use allocube.Prelude.{◌≡◌, ◌||◌, refl, any, List, [], ◌∷◌, ℕ}
use allocube.Interval.{span, covered}
use allocube.Store.{planned, long_term, window_active, window_cancelled}
use allocube.Drafts.{moment, no_date}
use allocube.Projection.{UnavailabilityWindow, merge_projected_windows}
use allocube.Projection.Moments.{drawn, holds, covered-merge_projected_windows}

abbrev planned_from : ℕ → ℕ → ℕ → UnavailabilityWindow
planned_from id a b = record {
  id = id;
  kind = planned;
  start_at = moment a;
  end_at = moment b;
  status = window_active;
}

abbrev of_machine : List UnavailabilityWindow
of_machine =
    planned_from 1 40 60
    ∷ record (planned_from 2 0 100) { status = window_cancelled }
    ∷ record (planned_from 3 0 100) { start_at = no_date 0 }
    ∷ record (planned_from 4 0 100) { kind = long_term }
    ∷ []

abbrev of_group : List UnavailabilityWindow
of_group = planned_from 5 50 80 ∷ planned_from 6 10 20 ∷ []

draws : drawn (merge_projected_windows of_machine of_group planned) ≡ span 10 20 ∷ span 40 80 ∷ []
unfolding merge_projected_windows
draws = refl

covered-merge_projected_windows_example :
    covered 55 (drawn (merge_projected_windows of_machine of_group planned))
    ≡ (any (holds planned 55) of_machine || any (holds planned 55) of_group)
covered-merge_projected_windows_example =
    covered-merge_projected_windows 55 of_machine of_group planned
