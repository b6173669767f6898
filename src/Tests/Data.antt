-- ===== src/Tests/Data.antt =====
-- A machine with two resource groups, one reservation and one maintenance window.
use allocube.Prelude.{ℕ, ◌*◌, sym, ap, inl, true, false, none, some_inj, List, [], ◌∷◌, arith, map}
use allocube.Store.{
  Db, Env, Catalog, Machine, Group, Reservation, Window, active, confirmed, resource_group,
  window_active, planned, user_active, user,
}
use allocube.Store.Error.{Result, ok, err}
use allocube.Store.Rows.{GroupRow, get_group}
use allocube.Schedule.{IsConsistent, Homed}
use allocube.Interval.{Span, span}
use allocube.Booking.Segment.{RawSegment}

abbrev pub at : ℕ → ℕ
at m = m * 60000

abbrev pub machine_1 : Machine
machine_1 = record { id = 1; name = []; status = active; version = 3; deleted = false }

abbrev pub group_row : ℕ → Group
group_row id = record {
  id = id;
  machine_id = 1;
  name = [];
  status = active;
  version = 2;
  deleted = false;
  allocations = [];
}

abbrev pub catalog : Catalog
catalog = record { machines = machine_1 ∷ []; groups = group_row 10 ∷ group_row 11 ∷ [] }

abbrev pub booked : Reservation
booked = record {
  id = 100;
  batch_id = 90;
  scope = resource_group;
  resource_group_id = 10;
  machine_id = 1;
  user_id = 7;
  start_at = at 20;
  end_at = at 40;
  initial_start_at = at 20;
  initial_end_at = at 40;
  parent_reservation_id = none;
  adjusted_by_unavailability_id = none;
  adjustment_type = none;
  adjustment_reason = [];
  title = [];
  purpose = [];
  note = [];
  status = confirmed;
  snapshot_group_name = [];
  snapshot_resource_config = [];
  snapshot_group_version = 2;
  cancelled_at = none;
  cancelled_by = none;
  cancellation_reason = [];
  created_at = 0;
  updated_at = 0;
}

abbrev pub maintenance : Window
maintenance = record {
  id = 200;
  machine_id = 1;
  resource_group_id = none;
  kind = planned;
  start_at = at 60;
  end_at = at 70;
  reason = [];
  status = window_active;
  created_by = 1;
  cancelled_by = none;
  cancelled_at = none;
  created_at = 0;
}

abbrev pub small_db : Db
small_db = record {
  catalog = catalog;
  users = record { id = 7; role = user; status = user_active } ∷ [];
  memberships = record { machine_id = 1; user_id = 7; expires_at = none } ∷ [];
  settings = record { advance_days = 30; block_admin_bookings = true };
  batches = record { id = 90; user_id = 7; created_at = 0 } ∷ [];
  reservations = booked ∷ [];
  windows = maintenance ∷ [];
  revision = 5;
  audits = [];
  notices = [];
}

-- The clock stands still within a call, and random identifiers are 0, 1, 2, ….
abbrev pub env_at : ℕ → Env
env_at now = record { clock = λ _. now; uuid = λ i. i; state_token = λ r. r.id }

-- The times of the reservations.
abbrev pub times_of : Db → List Span
times_of db = map (λ (r : Reservation). span r.start_at r.end_at) db.reservations

-- A request for a group, in minutes.
abbrev pub request : ℕ → ℕ → ℕ → RawSegment
request group_id from to = record {
  scope = none;
  machine_id = none;
  resource_group_id = group_id;
  start_mode = none;
  start_at = at from;
  end_at = at to;
  title = none;
  purpose = none;
  note = none;
}

abbrev pub value_or {ℓ} : {A : Type ℓ} → A → Result A → A
value_or d (ok a) = a
value_or d (err e) = d

small-Homed : Homed catalog booked
unfolding get_group
small-Homed g e = ap (λ (x : GroupRow). x.machine_id) (sym (some_inj e))

pub small_db-IsConsistent : IsConsistent small_db
small_db-IsConsistent = record {
  unique = (tt, tt);
  proper = ((λ _. omega arith), tt);
  homed = (small-Homed, tt);
  windows_proper = (omega arith, tt);
  apart = (tt, tt);
  clear = (((λ _ _ _ _. inl (omega arith)), tt), tt);
}
