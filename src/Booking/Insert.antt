-- ===== src/Booking/Insert.antt =====
-- Writing usable segments that do not collide keeps the schedule consistent.
use allocube.Prelude.{
  ℕ, suc, ◌≤◌, ◌≡◌, refl, sym, ◌∙◌, ap, subst, ◌⊎◌, inl, inr, true, false, not, ◌&&◌, Option, none,
  some, some_inj, List, [], ◌∷◌, ◌++◌, All, All-mono, All-zip2, All-append, AllPairs, arith, ◌==◌,
  any, Bool-cases, Option-cases,
}
use allocube.Store.{Db, Catalog, Machine, Group, Reservation, Window, add_audit, reservation_create}
use allocube.Store.Error.{ok, ok_inj, >>=-eq-ok, or_fail-eq-ok}
use allocube.Store.Rows.{
  GroupRow, get_group, find_group, join_group, join_machine, insert_reservation,
}
use allocube.Schedule.{IsConsistent, Apart, Clear, Homed, WindowFits}
use allocube.Schedule.Update.{find-fits}
use allocube.Schedule.Keep.{insert-IsConsistent, add_audit-IsConsistent}
use allocube.Booking.Segment.{Segment}
use allocube.Booking.Overlap.{collide, same_target}
use allocube.Booking.Slots.{RowClear, WindowClear, RowFits, SlotFits}
use allocube.Booking.Usable.{Usable}
use allocube.Booking.Admit.{NoCollide}
use allocube.Booking.Commit.{Created, BatchInfo, new_row, insert_segment, insert_segments}

join_machine-id :
    (g : Group) (m : Option Machine) (row : GroupRow) → join_machine g m ≡ some row → row.id ≡ g.id
unfolding join_machine
join_machine-id g none row e = absurd (cc e)
join_machine-id g (some m) row e = sym (ap (λ r. r.id) (some_inj e))

-- The group that getGroup returns is the one that was asked for.
pub get_group-id : (c : Catalog) (id : ℕ) (row : GroupRow) → get_group c id ≡ some row → row.id ≡ id
unfolding get_group join_group find_group
get_group-id c id row e = elim (Option-cases (find_group c id)) [
  | inl gone ↦ absurd (cc (rw gone at e))
  | inr (g, found) ↦
      join_machine-id g _ row (rw found at e)
      ∙ ground (arith, find-fits (λ (x : Group). x.id == id && not x.deleted) c.groups g found)
]

module _ (b : BatchInfo) (id : ℕ) (s : Segment) (g : GroupRow) where
  abbrev row : Reservation
  row = new_row b id s g

  row-Apart : (r : Reservation) → RowClear g s.scope [] s.start_at s.end_at r → Apart r row
  unfolding new_row
  row-Apart r c p q (m, t) = elim t [
    | inl k ↦ c refl p m (inr (inl k))
    | inr (inl k) ↦ c refl p m (inr (inr k))
    | inr (inr k) ↦ c refl p m (inl k)
  ]

  window-SlotFits : (o : Option ℕ) → WindowFits o row → SlotFits o g s.scope
  unfolding new_row
  window-SlotFits none h = tt
  window-SlotFits (some k) h = h

  row-WindowClear : (w : Window) → WindowClear g s.scope s.start_at s.end_at w → Clear row w
  unfolding new_row
  row-WindowClear w c p q m f = elim (c q m (window-SlotFits w.resource_group_id f)) [
    | inl e ↦ inr e
    | inr e ↦ inl e
  ]

  row-Homed : (c : Catalog) → get_group c s.resource_group_id ≡ some g → Homed c row
  unfolding new_row
  row-Homed c found g' found' =
      let same : g.id ≡ s.resource_group_id = get_group-id c s.resource_group_id g found in
      ap (λ k. k.machine_id)
        (some_inj (sym (subst (λ k. get_group c k ≡ some g') same found') ∙ found))

  not_collide :
      (t : Segment) (h : GroupRow)
      → same_target s g t h ≡ true
      → collide s g t h ≡ false
      → (s.end_at ≤ t.start_at) ⊎ (t.end_at ≤ s.start_at)
  unfolding collide
  not_collide t h e c = ground (arith, e, c)

  target_fits :
      (t : Segment) (h : GroupRow)
      → g.id ≡ s.resource_group_id
      → h.id ≡ t.resource_group_id
      → g.machine_id ≡ h.machine_id
      → RowFits h t.scope row
      → same_target s g t h ≡ true
  unfolding same_target new_row
  target_fits t h p q m (inl k) = ground arith
  target_fits t h p q m (inr (inl k)) = ground arith
  target_fits t h p q m (inr (inr k)) = ground arith

  -- The new row leaves the slots of the later segments of the request free.
  RowClear-for :
      (c : Catalog) (t : Segment) (h : GroupRow)
      → get_group c s.resource_group_id ≡ some g
      → get_group c t.resource_group_id ≡ some h
      → collide s g t h ≡ false
      → RowClear h t.scope [] t.start_at t.end_at row
  unfolding new_row
  RowClear-for c t h found found' e _ _ m f =
      not_collide t h
        (target_fits t h (get_group-id c s.resource_group_id g found)
          (get_group-id c t.resource_group_id h found') m f)
        e

  -- One segment written.
  insert_row-IsConsistent :
      (db db' : Db)
      → IsConsistent db
      → Usable db [] s
      → get_group db.catalog s.resource_group_id ≡ some g
      → insert_reservation row db ≡ ok db'
      → IsConsistent db'
  unfolding new_row
  insert_row-IsConsistent db db' v u found e =
      let slot = u.clear g found in
      insert-IsConsistent db v row e (λ _. u.some_time) (row-Homed db.catalog found)
        (All-mono _ (λ r. Apart r row) db.reservations row-Apart slot.rows)
        (All-mono _ (Clear row) db.windows row-WindowClear slot.windows)

-- What an insertion leaves of the database.
pub record Inserted (db db' : Db) (row : Reservation) : Type 0 where
  pub catalog : db'.catalog ≡ db.catalog
  pub windows : db'.windows ≡ db.windows
  pub reservations : db'.reservations ≡ db.reservations ++ row ∷ []

insert_reservation-Inserted :
    (row : Reservation) (db db' : Db) → insert_reservation row db ≡ ok db' → Inserted db db' row
unfolding insert_reservation
insert_reservation-Inserted row db db' e =
    elim (Bool-cases (any (λ r. r.id == row.id) db.reservations)) [
      | inl taken ↦ absurd (cc (rw taken at e))
      | inr free ↦
          subst (λ d. Inserted db d row) (ok_inj (rw free at e))
            (record { catalog = refl; windows = refl; reservations = refl })
    ]

-- A later segment stays usable.
Usable-later :
    (b : BatchInfo) (id : ℕ) (s t : Segment) (g : GroupRow) (db db' : Db)
    → get_group db.catalog s.resource_group_id ≡ some g
    → Inserted db db' (new_row b id s g)
    → NoCollide db.catalog s t
    → Usable db [] t
    → Usable db' [] t
Usable-later b id s t g db db' found w apart u = record {
  some_time = u.some_time;
  clear = λ h found'.
      let old : get_group db.catalog t.resource_group_id ≡ some h =
        subst (λ c. get_group c t.resource_group_id ≡ some h) w.catalog found' in
      let slot = u.clear h old in
      record {
        rows = subst (All (RowClear h t.scope [] t.start_at t.end_at)) (sym w.reservations) (
            All-append _ db.reservations _ slot.rows
              (RowClear-for b id s g db.catalog t h found old (apart g h found old), tt));
        windows =
            subst (All (WindowClear h t.scope t.start_at t.end_at)) (sym w.windows) slot.windows;
      };
}

-- The rest of the request is as it was before one segment was written.
pub record Written (db db' : Db) (c : Catalog) (rest : List Segment) : Type 0 where
  pub consistent : IsConsistent db'
  pub usable : All (Usable db' []) rest
  pub catalog : db'.catalog ≡ db.catalog

pub Usable-frame :
    (db db' : Db) (t : Segment)
    → db'.catalog ≡ db.catalog
    → db'.reservations ≡ db.reservations
    → db'.windows ≡ db.windows
    → Usable db [] t
    → Usable db' [] t
Usable-frame db db' t c r w u = record {
  some_time = u.some_time;
  clear = λ h found.
      let slot = u.clear h (subst (λ k. get_group k t.resource_group_id ≡ some h) c found) in
      record {
        rows = subst (All (RowClear h t.scope [] t.start_at t.end_at)) (sym r) slot.rows;
        windows = subst (All (WindowClear h t.scope t.start_at t.end_at)) (sym w) slot.windows;
      };
}

insert_segment-Written :
    (b : BatchInfo) (id : ℕ) (s : Segment) (rest : List Segment) (db : Db) (one : Created × Db)
    → IsConsistent db
    → Usable db [] s
    → All (NoCollide db.catalog s) rest
    → All (Usable db []) rest
    → insert_segment b id s db ≡ ok one
    → Written db one.1 db.catalog rest
unfolding insert_segment add_audit
insert_segment-Written b id s rest db one v u apart us e =
    let (g, found, e1) = or_fail-eq-ok (get_group db.catalog s.resource_group_id) _ _ e in
    let (db1, inserted, e2) = >>=-eq-ok (insert_reservation (new_row b id s g) db) _ e1 in
    let w = insert_reservation-Inserted (new_row b id s g) db db1 inserted in
    let v1 = insert_row-IsConsistent b id s g db db1 v u found inserted in
    let audited : Db = add_audit b.user_id reservation_create id db1 in
    let done : audited ≡ one.1 = ap (λ (k : Created × Db). k.1) (ok_inj e2) in
    subst (λ d. Written db d db.catalog rest) done
      (record {
        consistent = add_audit-IsConsistent db1 v1 b.user_id reservation_create id;
        usable =
            All-zip2
              (λ t nc ut.
                Usable-frame db1 audited t refl refl refl
                  (Usable-later b id s t g db db1 found w nc ut))
              rest apart us;
        catalog = w.catalog;
      })

-- Writing a list of usable segments, no two of which collide.
pub insert_segments-IsConsistent :
    (b : BatchInfo) (uuid : ℕ → ℕ) (i : ℕ) (segments : List Segment) (db : Db)
    (r : List Created × Db)
    → IsConsistent db
    → All (Usable db []) segments
    → AllPairs (NoCollide db.catalog) segments
    → insert_segments b uuid i segments db ≡ ok r
    → IsConsistent r.1
unfolding insert_segments
insert_segments-IsConsistent b uuid i [] db r v us apart e =
    subst IsConsistent (ap (λ (k : List Created × Db). k.1) (ok_inj e)) v
insert_segments-IsConsistent b uuid i (s ∷ rest) db r v us apart e =
    let (one, first, e1) = >>=-eq-ok (insert_segment b (uuid i) s db) _ e in
    let (more, later, e2) = >>=-eq-ok (insert_segments b uuid (suc i) rest one.1) _ e1 in
    let w = insert_segment-Written b (uuid i) s rest db one v us.0 apart.0 us.1 first in
    subst IsConsistent (ap (λ (k : List Created × Db). k.1) (ok_inj e2)) (
      insert_segments-IsConsistent b uuid (suc i) rest one.1 more w.consistent w.usable
        (subst (λ c. AllPairs (NoCollide c) rest) (sym w.catalog) apart.1) later)
