-- ===== src/Store/Rows.antt =====
-- Reading and writing rows by a key. A key is unique, so a statement `WHERE id = ?` meets one row.
use allocube.Prelude.{
  ℕ, Bool, false, not, ◌&&◌, ◌||◌, Option, none, some, List, [], ◌∷◌, ◌++◌, any, ◌==◌, ltb,
  if◌then◌else◌,
}
use allocube.Store.{Reservation, Window, Db, Catalog, Machine, Group, TargetStatus, Text}
use allocube.Store.Error.{Result, ok, err, constraint_violation}

module _ {ℓ} {A : Type ℓ} where
  -- `.get(...)`: the first row that fits.
  unfoldable pub find : (A → Bool) → List A → Option A
  find p [] = none
  find p (x ∷ xs) = let rest = find p xs in if p x then some x else rest

  -- `UPDATE ... WHERE key = ?`
  unfoldable pub update_first : (A → Bool) → (A → A) → List A → List A
  update_first p f [] = []
  update_first p f (x ∷ xs) = let rest = update_first p f xs in if p x then f x ∷ xs else x ∷ rest

  -- `DELETE ... WHERE key = ?`
  unfoldable pub delete_first : (A → Bool) → List A → List A
  delete_first p [] = []
  delete_first p (x ∷ xs) = let rest = delete_first p xs in if p x then xs else x ∷ rest

  -- `UPDATE ... WHERE` a condition that many rows meet.
  unfoldable pub update_where : (A → Bool) → (A → A) → List A → List A
  update_where p f [] = []
  update_where p f (x ∷ xs) = (if p x then f x else x) ∷ update_where p f xs

-- SELECT * FROM reservations WHERE id = ?
unfoldable pub find_reservation : ℕ → List Reservation → Option Reservation
unfolding find
find_reservation id rows = find (λ r. r.id == id) rows

unfoldable pub update_reservation : ℕ → (Reservation → Reservation) → Db → Db
unfolding update_first
update_reservation id f db = record db {
  reservations = update_first (λ r. r.id == id) f db.reservations;
}

abbrev pub is_parent : ℕ → Option ℕ → Bool
is_parent id none = false
is_parent id (some p) = p == id

abbrev pub orphan : Reservation → Reservation
orphan r = record r { parent_reservation_id = none }

-- DELETE FROM reservations WHERE id = ?, and `ON DELETE SET NULL` for the rows it is the parent of.
unfoldable pub delete_reservation : ℕ → Db → Db
unfolding delete_first update_where
delete_reservation id db = record db {
  reservations =
      update_where (λ r. is_parent id r.parent_reservation_id) orphan
        (delete_first (λ r. r.id == id) db.reservations);
}

-- INSERT INTO reservations: the primary key refuses an identifier that is there.
unfoldable pub insert_reservation : Reservation → Db → Result Db
insert_reservation row db =
    if any (λ r. r.id == row.id) db.reservations
    then err constraint_violation
    else ok (record db { reservations = db.reservations ++ row ∷ [] })

unfoldable pub find_window : ℕ → List Window → Option Window
unfolding find
find_window id rows = find (λ w. w.id == id) rows

unfoldable pub update_window : ℕ → (Window → Window) → Db → Db
unfolding update_first
update_window id f db = record db { windows = update_first (λ w. w.id == id) f db.windows }

-- INSERT INTO resource_unavailability: the primary key, and CHECK(end_at > start_at).
unfoldable pub insert_window : Window → Db → Result Db
insert_window w db =
    if any (λ x. x.id == w.id) db.windows || not (ltb w.start_at w.end_at)
    then err constraint_violation
    else ok (record db { windows = db.windows ++ w ∷ [] })

-- A resource group with the machine that it belongs to.
pub record GroupRow : Type 0 where
  pub id : ℕ
  pub machine_id : ℕ
  pub name : Text
  pub version : ℕ
  pub status : TargetStatus
  pub machine_status : TargetStatus
  pub allocations : Text

unfoldable pub find_machine : Catalog → ℕ → Option Machine
unfolding find
find_machine c id = find (λ m. m.id == id && not m.deleted) c.machines

-- The join of a group with its machine, neither of them deleted.
unfoldable pub join_machine : Group → Option Machine → Option GroupRow
join_machine g none = none
join_machine g (some m) = some (record {
  id = g.id;
  machine_id = m.id;
  name = g.name;
  version = g.version;
  status = g.status;
  machine_status = m.status;
  allocations = g.allocations;
})

unfoldable pub find_group : Catalog → ℕ → Option Group
unfolding find
find_group c id = find (λ g. g.id == id && not g.deleted) c.groups

unfoldable pub join_group : Catalog → Option Group → Option GroupRow
unfolding join_machine find_machine
join_group c none = none
join_group c (some g) = join_machine g (find_machine c g.machine_id)

-- getGroup
unfoldable pub get_group : Catalog → ℕ → Option GroupRow
unfolding find_group join_group
get_group c id = join_group c (find_group c id)
