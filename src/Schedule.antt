-- ===== src/Schedule.antt =====
-- What makes a schedule consistent: the rows of server/schema.ts's reservations and
-- resource_unavailability tables, seen together.
pub mod Narrow
pub mod Update
pub mod Find
pub mod Keep
pub mod Pending
use allocube.Prelude.{ℕ, ◌≤◌, ◌<◌, ◌≡◌, ◌≢◌, ◌⊎◌, Option, none, some, All, AllPairs}
use allocube.Store.{Db, Catalog, Reservation, Window, machine, confirmed, window_active}
use allocube.Store.Rows.{GroupRow, get_group}

-- Two reservations compete for the same resources.
abbrev pub SameTarget : Reservation → Reservation → Type 0
SameTarget a b =
    (a.machine_id ≡ b.machine_id)
    × ((a.resource_group_id ≡ b.resource_group_id) ⊎ ((a.scope ≡ machine) ⊎ (b.scope ≡ machine)))

-- Confirmed reservations that compete do not overlap.
abbrev pub Apart : Reservation → Reservation → Type 0
Apart a b =
    a.status ≡ confirmed
    → b.status ≡ confirmed
    → SameTarget a b
    → (a.end_at ≤ b.start_at) ⊎ (b.end_at ≤ a.start_at)

abbrev pub Proper : Reservation → Type 0
Proper r = r.status ≡ confirmed → r.start_at < r.end_at

-- A reservation stands on the machine of its group.
abbrev pub Homed : Catalog → Reservation → Type 0
Homed c r = (g : GroupRow) → get_group c r.resource_group_id ≡ some g → g.machine_id ≡ r.machine_id

-- A window blocks its machine, or a group of it and the whole-machine reservations.
abbrev pub WindowFits : Option ℕ → Reservation → Type 0
WindowFits none r = Unit {0}
WindowFits (some id) r = (r.scope ≡ machine) ⊎ (id ≡ r.resource_group_id)

abbrev pub Clear : Reservation → Window → Type 0
Clear r w =
    r.status ≡ confirmed
    → w.status ≡ window_active
    → w.machine_id ≡ r.machine_id
    → WindowFits w.resource_group_id r
    → (r.end_at ≤ w.start_at) ⊎ (w.end_at ≤ r.start_at)

pub record IsConsistent (db : Db) : Type 0 where
  pub unique : AllPairs (λ a b. a.id ≢ b.id) db.reservations
  pub proper : All Proper db.reservations
  pub homed : All (Homed db.catalog) db.reservations
  pub windows_proper : All (λ w. w.start_at < w.end_at) db.windows
  pub apart : AllPairs Apart db.reservations
  pub clear : All (λ r. All (Clear r) db.windows) db.reservations
