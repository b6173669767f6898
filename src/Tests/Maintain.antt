-- ===== src/Tests/Maintain.antt =====
-- Maintenance, disabling and enabling on a small database.
use allocube.Prelude.{
  ℕ, ◌≡◌, ◌↔◌, ◌&&◌, ◌==◌, any, true, not, refl, arith, false, none, some, List, [], ◌∷◌, map,
}
use allocube.Store.{Db, Window, window_cancelled, is_window_active}
use allocube.Store.Error.{ok, err, window_overlap}
use allocube.Schedule.{IsConsistent}
use allocube.Interval.{span, inside, covered}
use allocube.Maintenance.Target.{machine_target, group_target}
use allocube.Maintenance.Impact.{
  ReservationImpact, Summary, classify_impact, impact_of, preview_summary,
}
use allocube.Maintenance.Classify.{covered-classify_impact}
use allocube.Maintenance.Plan.{
  Plan, Planned, WindowEnded, create_planned_unavailability, cancel_unavailability,
}
use allocube.Maintenance.PlanSafe.{create_planned_unavailability-IsConsistent}
use allocube.Maintenance.CancelWindow.{
  MayEnd, cancel_unavailability-effect, cancel_unavailability_iff,
}
use allocube.Store.Rows.{find_window}
use allocube.Maintenance.Effects.{Written, create_planned_unavailability-Written}
use allocube.Maintenance.Disable.{Change, Disabled, disable_long_term, enable_target}
use allocube.Maintenance.DisableSafe.{disable_long_term-IsConsistent}
use allocube.Maintenance.EnableSafe.{enable_target-IsConsistent}
use allocube.Tests.Data.{at, booked, small_db, small_db-IsConsistent, env_at, times_of, value_or}

-- The middle of the reservation of 20 to 40.
abbrev middle : Plan
middle = record {
  type = group_target;
  id = 10;
  start_at = some (at 25);
  end_at = some (at 30);
  reason = [];
  expected_revision = 5;
  overwrite = false;
  actor = 1;
}

abbrev no_impact : Summary
no_impact = record { total = 0; cancelled = 0; trimmed = 0; split = 0 }

abbrev plan_fails : Planned × Db
plan_fails = (record { id = 0; blocked = span 0 0; revision = 0; impact = no_impact }, small_db)

abbrev planned_db : Planned × Db
unfolding create_planned_unavailability
planned_db = value_or plan_fails (create_planned_unavailability (env_at 650000) middle small_db)

plans : create_planned_unavailability (env_at 650000) middle small_db ≡ ok planned_db
unfolding create_planned_unavailability
plans = refl

splits : times_of planned_db.1 ≡ span (at 20) (at 25) ∷ span (at 30) (at 40) ∷ []
unfolding planned_db
splits = refl

create_planned_unavailability-IsConsistent_example : IsConsistent planned_db.1
create_planned_unavailability-IsConsistent_example =
    create_planned_unavailability-IsConsistent (env_at 650000) middle small_db planned_db
      small_db-IsConsistent plans

create_planned_unavailability-Written_example : Written (env_at 650000) middle small_db planned_db
create_planned_unavailability-Written_example =
    create_planned_unavailability-Written (env_at 650000) middle small_db planned_db
      small_db-IsConsistent plans

-- The new window blocks: it is active.
plans_active :
    any (λ (w : Window). is_window_active w.status && (w.start_at == at 25)) planned_db.1.windows
    ≡ true
unfolding planned_db
plans_active = refl

-- One impact of each kind.
abbrev four_impacts : List ReservationImpact
unfolding impact_of
four_impacts =
    map (λ b. impact_of b booked)
      (span (at 10) (at 50)
        ∷ span (at 10) (at 30)
        ∷ span (at 30) (at 50)
        ∷ span (at 25) (at 30)
        ∷ [])

four_impacts_counted :
    preview_summary four_impacts ≡ record { total = 4; cancelled = 1; trimmed = 2; split = 1 }
unfolding preview_summary four_impacts
four_impacts_counted = refl

overlaps_window :
    create_planned_unavailability
      (env_at 650000)
      (record middle {
        type = machine_target;
        id = 1;
        start_at = some (at 65);
        end_at = some (at 80);
      })
      small_db
    ≡ err window_overlap
unfolding create_planned_unavailability
overlaps_window = refl

covered-classify_impact_example :
    covered 22 (classify_impact 20 40 (span 25 30)).1
    ≡ (inside 22 (span 20 40) && not (inside 22 (span 25 30)))
covered-classify_impact_example =
    covered-classify_impact 22 20 40 (span 25 30)
      (omega arith, omega arith, omega arith, omega arith)

abbrev window_ended : WindowEnded × Db
unfolding cancel_unavailability
window_ended =
    value_or (record { machine_id = 0; resource_group_id = none; revision = 0 }, small_db)
      (cancel_unavailability (env_at 650000) 200 1 small_db)

cancels_window : cancel_unavailability (env_at 650000) 200 1 small_db ≡ ok window_ended
unfolding cancel_unavailability
cancels_window = refl

cancel_unavailability-effect_example :
    ((w : Window) × (find_window 200 small_db.windows ≡ some w)
      × (find_window 200 window_ended.1.windows
          ≡ some (record w {
            status = window_cancelled;
            cancelled_by = some 1;
            cancelled_at = some 650000;
          }))
      × (window_ended.0.machine_id ≡ w.machine_id)
      × (window_ended.0.resource_group_id ≡ w.resource_group_id))
    × (find_window 201 window_ended.1.windows ≡ find_window 201 small_db.windows)
    × (window_ended.1.reservations ≡ small_db.reservations)
cancel_unavailability-effect_example =
    cancel_unavailability-effect (env_at 650000) 200 1 201 small_db window_ended
      (λ e. omega (arith, e)) cancels_window

cancel_unavailability_iff_example :
    ((r : WindowEnded × Db) × (cancel_unavailability (env_at 650000) 200 1 small_db ≡ ok r))
    ↔ MayEnd (env_at 650000) 200 small_db
cancel_unavailability_iff_example = cancel_unavailability_iff (env_at 650000) 200 1 small_db

abbrev machine_off : Change
machine_off = record {
  type = machine_target;
  id = 1;
  expected_version = 3;
  expected_revision = 5;
  overwrite = false;
  actor = 1;
  reason = [];
}

-- At minute 30 the reservation is running.
abbrev disabled_db : Disabled × Db
unfolding disable_long_term
disabled_db =
    value_or (record { revision = 0; interrupted = 0; cancelled = 0; impact = no_impact }, small_db)
      (disable_long_term (env_at 1850000) machine_off small_db)

disables : disable_long_term (env_at 1850000) machine_off small_db ≡ ok disabled_db
unfolding disable_long_term
disables = refl

trims : times_of disabled_db.1 ≡ span (at 20) (at 30) ∷ []
unfolding disabled_db
trims = refl

disable_long_term-IsConsistent_example : IsConsistent disabled_db.1
disable_long_term-IsConsistent_example =
    disable_long_term-IsConsistent (env_at 1850000) machine_off small_db disabled_db
      small_db-IsConsistent disables

abbrev machine_on : Change
machine_on = record machine_off { expected_version = 4 }

abbrev enabled_db : ℕ × Db
unfolding enable_target disabled_db
enabled_db = value_or (0, small_db) (enable_target (env_at 2450000) machine_on disabled_db.1)

enables : enable_target (env_at 2450000) machine_on disabled_db.1 ≡ ok enabled_db
unfolding enable_target disabled_db
enables = refl

enable_target-IsConsistent_example : IsConsistent enabled_db.1
enable_target-IsConsistent_example =
    enable_target-IsConsistent (env_at 2450000) machine_on disabled_db.1 enabled_db
      disable_long_term-IsConsistent_example enables
