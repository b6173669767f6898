-- ===== src/Booking/UpdateSafe.antt =====
-- Moving a reservation keeps the schedule consistent, if no minute passes between the two checks
-- of its new times.
use allocube.Prelude.{
  ℕ, ◌≡◌, refl, sym, ◌∙◌, ap, subst, inl, inr, false, Option, none, some, [], ◌∷◌, All-mono, arith,
  leb, leb→le, ◌==◌, Bool-cases,
}
use allocube.Store.{Db, Env, Reservation, Window, current_minute, reservation_update}
use allocube.Store.Error.{ok, guard, ok_inj, >>=-eq-ok, not_owner, no_machine_access}
use allocube.Store.Rows.{get_group, find_reservation, update_reservation}
use allocube.Schedule.{IsConsistent, Proper, Homed, Apart, Clear, WindowFits}
use allocube.Schedule.Narrow.{Narrow}
use allocube.Schedule.Update.{All-find}
use allocube.Schedule.Keep.{
  add_audit-IsConsistent, bump-IsConsistent, update-IsConsistent, move-IsConsistent,
}
use allocube.Booking.Segment.{Segment, RawSegment, parse_segment}
use allocube.Booking.Access.{
  assert_user_can_submit_reservations, assert_machine_access_end, user_can_access_machine,
}
use allocube.Booking.Slots.{RowClear, WindowClear, SlotFits}
use allocube.Booking.Insert.{get_group-id}
use allocube.Booking.Manage.{
  find_confirmed, assert_reservation_state, check_change, check_slot_unless, with_segment,
  admit_update, update_own_reservation,
}
use allocube.Booking.ManageSafe.{find_confirmed-found}
use allocube.Booking.NewSlot.{Changed, check_change-Changed, FreeFor, check_new_slot-FreeFor}

-- The moved row has the machine and the group of the row before.
module _ (db : Db) (id now : ℕ) (s : Segment) (r : Reservation) (v : IsConsistent db)
    (found : find_reservation id db.reservations ≡ some r)
    (group : s.resource_group_id ≡ r.resource_group_id) (scope : s.scope ≡ r.scope)
    (free : FreeFor db id s) where
  home : free.group.machine_id ≡ r.machine_id
  unfolding find_reservation
  home =
      All-find (Homed db.catalog) (λ x. x.id == id) db.reservations r found v.homed free.group
        (subst (λ k. get_group db.catalog k ≡ some free.group) group free.found)

  same_group : free.group.id ≡ r.resource_group_id
  same_group = get_group-id db.catalog s.resource_group_id free.group free.found ∙ group

  moved-Apart :
      (x : Reservation)
      → RowClear free.group s.scope (id ∷ []) s.start_at s.end_at x
      → (x.id == id) ≡ false
      → Apart x (with_segment s now r)
  unfolding with_segment
  moved-Apart x c other p q (m, t) = c (ground (arith, other)) p (m ∙ sym home) (elim t [
    | inl k ↦ inr (inl (k ∙ sym same_group))
    | inr (inl k) ↦ inr (inr k)
    | inr (inr k) ↦ inl (scope ∙ k)
  ])

  moved_fits : (o : Option ℕ) → WindowFits o (with_segment s now r) → SlotFits o free.group s.scope
  unfolding with_segment
  moved_fits none f = tt
  moved_fits (some k) (inl e) = inl (scope ∙ e)
  moved_fits (some k) (inr e) = inr (e ∙ sym same_group)

  moved-Clear :
      (w : Window)
      → WindowClear free.group s.scope s.start_at s.end_at w
      → Clear (with_segment s now r) w
  unfolding with_segment
  moved-Clear w c p q m f = elim (c q (m ∙ sym home) (moved_fits w.resource_group_id f)) [
    | inl e ↦ inr e
    | inr e ↦ inl e
  ]

  pub moved-IsConsistent : IsConsistent (update_reservation id (with_segment s now) db)
  unfolding with_segment find_reservation
  moved-IsConsistent =
      move-IsConsistent db id (with_segment s now) r v found refl (λ _. free.positive)
        (All-find (Homed db.catalog) (λ x. x.id == id) db.reservations r found v.homed)
        (All-mono _ _ db.reservations moved-Apart free.slot.rows)
        (All-mono _ _ db.windows moved-Clear free.slot.windows)

-- What has begun keeps its times.
with_segment-Narrow :
    (s : Segment) (now : ℕ) (r : Reservation)
    → s.start_at ≡ r.start_at
    → s.end_at ≡ r.end_at
    → Narrow (with_segment s now r) r
unfolding with_segment
with_segment-Narrow s now r a b = record {
  same_id = refl;
  same_machine = refl;
  same_group = refl;
  same_scope = refl;
  was_confirmed = λ h. h;
  starts_later = λ _. omega arith;
  ends_earlier = λ _. omega arith;
}

Changed-IsConsistent :
    (env : Env) (db : Db) (id : ℕ) (s : Segment) (r : Reservation) (u : Unit {0})
    → IsConsistent db
    → current_minute (env.clock 3) ≡ current_minute (env.clock 2)
    → find_reservation id db.reservations ≡ some r
    → Changed s r (env.clock 1)
    → check_slot_unless (leb r.start_at (env.clock 1)) db id (env.clock 2) (env.clock 3) s ≡ ok u
    → IsConsistent (update_reservation id (with_segment s (env.clock 4)) db)
unfolding find_reservation
Changed-IsConsistent env db id s r u v same found c e =
    elim (Bool-cases (leb r.start_at (env.clock 1))) [
      | inl begun ↦
          let (a, b) = c.begun (leb→le _ _ begun) in
          update-IsConsistent db v id (with_segment s (env.clock 4)) r found
            (with_segment-Narrow s (env.clock 4) r a b)
            (unfold with_segment in
              λ k.
                let old = All-find Proper (λ x. x.id == id) db.reservations r found v.proper k in
                omega arith)
      | inr later ↦ moved-IsConsistent db id (env.clock 4) s r v found c.group c.scope (
          check_new_slot-FreeFor db (v.proper, v.windows_proper) id (env.clock 2) (env.clock 3) s u
            same (rw later at e))
    ]

-- An update that returns keeps a consistent schedule consistent, if its two checks of the new
-- times read the clock within one minute.
pub update_own_reservation-IsConsistent :
    (env : Env) (id actor : ℕ) (raw : RawSegment) (expected : Option ℕ) (db : Db) (r : (ℕ × ℕ) × Db)
    → IsConsistent db
    → current_minute (env.clock 3) ≡ current_minute (env.clock 2)
    → update_own_reservation env id actor raw expected db ≡ ok r
    → IsConsistent r.1
unfolding update_own_reservation admit_update
update_own_reservation-IsConsistent env id actor raw expected db r v same e =
    let (s, _, e0) = >>=-eq-ok (parse_segment raw) _ e in
    let (x, admitted, e9) = >>=-eq-ok (admit_update env id actor s expected db) _ e0 in
    let (_, _, e1) = >>=-eq-ok (assert_user_can_submit_reservations db actor) _ admitted in
    let (y, found, e2) = >>=-eq-ok (find_confirmed id db) _ e1 in
    let (_, _, e3) = >>=-eq-ok (guard (y.user_id == actor) not_owner) _ e2 in
    let (_, _, e4) = >>=-eq-ok (assert_reservation_state env y expected) _ e3 in
    let (_, _, e5) = >>=-eq-ok (assert_machine_access_end db actor y.machine_id s.end_at) _ e4 in
    let (_, _, e6) =
      >>=-eq-ok
        (guard (user_can_access_machine db actor y.machine_id (env.clock 0)) no_machine_access) _
        e5 in
    let (u1, change, e7) = >>=-eq-ok (check_change s y (env.clock 1)) _ e6 in
    let (u2, slot, e8) =
      >>=-eq-ok
        (check_slot_unless (leb y.start_at (env.clock 1)) db id (env.clock 2) (env.clock 3) s) _
        e7 in
    let written = update_reservation id (with_segment s (env.clock 4)) db in
    let v1 =
      Changed-IsConsistent env db id s y u2 v same (find_confirmed-found id db y found).0
        (check_change-Changed s y (env.clock 1) u1 change) slot in
    subst IsConsistent (ap (λ (k : (ℕ × ℕ) × Db). k.1) (ok_inj e9))
      (bump-IsConsistent _ (add_audit-IsConsistent written v1 actor reservation_update id))
