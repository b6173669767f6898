-- ===== src/Booking/Retire.antt =====
-- Retiring the originals of a replacement: what the new segments were checked against without
-- them, they meet no more.
use allocube.Prelude.{
  ℕ, suc, ◌≤◌, ◌<◌, ◌≡◌, ◌≢◌, ◌∙◌, inl, inr, refl, sym, subst, true, false, some, List, [], ◌∷◌,
  arith, ltb, ◌==◌, elem, map, All, AllPairs, All-zip2, Bool-cases, ltb→lt, ==_iff,
}
use allocube.Store.{Db, Env, Reservation, Scope, confirmed}
use allocube.Store.Error.{
  ok, ok_inj, guard, guard-true, >>=-eq-ok, replacement_changed, not_owner, no_machine_access,
}
use allocube.Store.Rows.{GroupRow, find_reservation, update_reservation}
use allocube.Schedule.{IsConsistent, Proper}
use allocube.Schedule.Narrow.{Narrow}
use allocube.Schedule.Update.{All-replace, find-fits}
use allocube.Schedule.Keep.{unique-separates}
use allocube.Schedule.Pending.{Pending, update-Pending}
use allocube.Booking.Segment.{Segment}
use allocube.Booking.Access.{user_can_access_machine}
use allocube.Booking.Slots.{RowClear, SlotClear}
use allocube.Booking.Usable.{Usable}
use allocube.Booking.Later.{Begins}
use allocube.Booking.Manage.{
  find_confirmed, get_owned_confirmed_reservation, assert_reservation_state, mark_cancelled,
}
use allocube.Booking.ManageSafe.{find_confirmed-found, mark_cancelled-Narrow}
use allocube.Booking.Replace.{
  Selected, selected_ids, distinct, select_original, select_originals, cut_short, retire,
  retire_all, edited_by_user,
}

abbrev pub ids : List Reservation → List ℕ
ids = map (λ r. r.id)

-- The originals still to retire, and the segments that wait for it.
pub record Retiring (minute : ℕ) (segments : List Segment) (todo : List Reservation) (db : Db)
    : Type 0 where
  pub pending : Pending todo db
  pub usable : All (Usable db (ids todo)) segments
  pub begins : All (Begins minute) segments
  pub running : All (λ r. minute ≤ r.end_at) todo

not_listed :
    (x r : ℕ) (xs : List ℕ) → (x == r) ≡ false → elem x xs ≡ false → elem x (r ∷ xs) ≡ false
not_listed x r xs h k = ground (arith, h, k)

-- A slot that was free without a row is free once the row has left it.
slot_after :
    (db : Db) (f : Reservation → Reservation) (r : Reservation) (rest : List ℕ) (g : GroupRow)
    (scope : Scope) (lo hi : ℕ)
    → IsConsistent db
    → find_reservation r.id db.reservations ≡ some r
    → RowClear g scope rest lo hi (f r)
    → SlotClear db g scope (r.id ∷ rest) lo hi
    → SlotClear (update_reservation r.id f db) g scope rest lo hi
unfolding update_reservation find_reservation
slot_after db f r rest g scope lo hi v found left slot = record {
  rows =
      All-replace (RowClear g scope (r.id ∷ rest) lo hi) (RowClear g scope rest lo hi)
        (λ x. x.id == r.id) f db.reservations r found
        (unique-separates r.id db.reservations v.unique)
        (λ x other k e. k (not_listed x.id r.id rest other e)) left slot.rows;
  windows = slot.windows;
}

-- A changed row that is not confirmed, or ends by the minute, has left every slot from then on.
Usable-after :
    (db : Db) (f : Reservation → Reservation) (r : Reservation) (rest : List ℕ) (minute : ℕ)
    (s : Segment)
    → IsConsistent db
    → find_reservation r.id db.reservations ≡ some r
    → ((f r).status ≡ confirmed → (f r).end_at ≤ minute)
    → Begins minute s
    → Usable db (r.id ∷ rest) s
    → Usable (update_reservation r.id f db) rest s
unfolding update_reservation
Usable-after db f r rest minute s v found left b u = record {
  some_time = u.some_time;
  clear = λ g there.
      slot_after db f r rest g s.scope s.start_at s.end_at v found
        (λ e c m k. let gone = left c in inl (omega arith)) (u.clear g there);
}

retire_with :
    (minute : ℕ) (segments : List Segment) (r : Reservation) (todo : List Reservation) (db : Db)
    (f : Reservation → Reservation)
    → ((x : Reservation) → (f x).id ≡ x.id)
    → Narrow (f r) r
    → Proper (f r)
    → ((f r).status ≡ confirmed → (f r).end_at ≤ minute)
    → Retiring minute segments (r ∷ todo) db
    → Retiring minute segments todo (update_reservation r.id f db)
retire_with minute segments r todo db f keeps n p left a = record {
  pending = update-Pending r todo db f a.pending keeps n p;
  usable =
      All-zip2
        (λ s b u.
          Usable-after db f r (ids todo) minute s a.pending.consistent a.pending.found.0 left b u)
        segments a.begins a.usable;
  begins = a.begins;
  running = a.running.1;
}

cut_short-Narrow :
    (minute now : ℕ) (r : Reservation) → minute ≤ r.end_at → Narrow (cut_short minute now r) r
unfolding cut_short
cut_short-Narrow minute now r h = record {
  same_id = refl;
  same_machine = refl;
  same_group = refl;
  same_scope = refl;
  was_confirmed = λ c. c;
  starts_later = λ _. omega arith;
  ends_earlier = λ _. h;
}

retire-Retiring :
    (minute now user_id : ℕ) (segments : List Segment) (r : Reservation) (todo : List Reservation)
    (db : Db)
    → Retiring minute segments (r ∷ todo) db
    → Retiring minute segments todo (retire minute now user_id r db)
unfolding retire
retire-Retiring minute now user_id segments r todo db a =
    elim (Bool-cases (ltb r.start_at minute)) [
      | inl begun ↦ rw begun (
          retire_with minute segments r todo db (cut_short minute now)
            (unfold cut_short in λ x. refl) (cut_short-Narrow minute now r a.running.0)
            (unfold cut_short in λ _. ltb→lt _ _ begun) (unfold cut_short in λ _. omega arith) a)
      | inr later ↦ rw later (
          retire_with minute segments r todo db (mark_cancelled now user_id edited_by_user)
            (unfold mark_cancelled in λ x. refl)
            (mark_cancelled-Narrow now user_id edited_by_user r)
            (unfold mark_cancelled in λ h. absurd (cc h))
            (unfold mark_cancelled in λ h. absurd (cc h)) a)
    ]

pub retire_all-Retiring :
    (minute now user_id : ℕ) (segments : List Segment) (todo : List Reservation) (db : Db)
    → Retiring minute segments todo db
    → Retiring minute segments [] (retire_all minute now user_id todo db)
unfolding retire_all
retire_all-Retiring minute now user_id segments [] db a = a
retire_all-Retiring minute now user_id segments (r ∷ todo) db a =
    retire_all-Retiring minute now user_id segments todo (retire minute now user_id r db)
      (retire-Retiring minute now user_id segments r todo db a)

-- The row of a selection, as it stands in the table.
select_original-found :
    (env : Env) (user_id now : ℕ) (db : Db) (at : ℕ) (item : Selected) (r : Reservation)
    → select_original env user_id now db at item ≡ ok r
    → (find_reservation r.id db.reservations ≡ some r) × (now < r.end_at) × (r.id ≡ item.id)
unfolding select_original get_owned_confirmed_reservation find_reservation
select_original-found env user_id now db at item r e =
    let (x, owned, e1) = >>=-eq-ok (get_owned_confirmed_reservation db item.id user_id at) _ e in
    let (_, _, e2) = >>=-eq-ok (assert_reservation_state env x (some item.state_token)) _ e1 in
    let (_, running, e3) = >>=-eq-ok (guard (ltb now x.end_at) replacement_changed) _ e2 in
    let (y, found, e4) = >>=-eq-ok (find_confirmed item.id db) _ owned in
    let (_, _, e5) = >>=-eq-ok (guard (y.user_id == user_id) not_owner) _ e4 in
    let (_, _, e6) =
      >>=-eq-ok (guard (user_can_access_machine db user_id y.machine_id at) no_machine_access) _
        e5 in
    let same : y ≡ r = ok_inj e6 ∙ ok_inj e3 in
    let row =
      subst (λ k. find_reservation item.id db.reservations ≡ some k) same
        (find_confirmed-found item.id db y found).0 in
    let key : r.id ≡ item.id =
      (==_iff r.id item.id).0 (find-fits (λ k. k.id == item.id) db.reservations r row) in
    (
      subst (λ k. find_reservation k db.reservations ≡ some r) (sym key) row,
      subst (λ k. now < k.end_at) (ok_inj e3) (ltb→lt _ _ (guard-true _ _ running)),
      key,
    )

-- The rows of the selections, in their order.
pub record Selection (db : Db) (now : ℕ) (items : List Selected) (rows : List Reservation)
    : Type 0 where
  pub found : All (λ r. find_reservation r.id db.reservations ≡ some r) rows
  pub running : All (λ r. now < r.end_at) rows
  pub keys : ids rows ≡ selected_ids items

pub select_originals-Selection :
    (env : Env) (user_id now : ℕ) (db : Db) (i : ℕ) (items : List Selected)
    (rows : List Reservation)
    → select_originals env user_id now db i items ≡ ok rows
    → Selection db now items rows
unfolding select_originals
select_originals-Selection env user_id now db i [] rows e =
    subst (Selection db now []) (ok_inj e) (record { found = tt; running = tt; keys = refl })
select_originals-Selection env user_id now db i (item ∷ items) rows e =
    let (r, one, e1) = >>=-eq-ok (select_original env user_id now db (env.clock i) item) _ e in
    let (rs, more, e2) = >>=-eq-ok (select_originals env user_id now db (suc i) items) _ e1 in
    let (found, running, key) = select_original-found env user_id now db (env.clock i) item r one in
    let rest = select_originals-Selection env user_id now db (suc i) items rs more in
    subst (Selection db now (item ∷ items)) (ok_inj e2) (record {
      found = (found, rest.found);
      running = (running, rest.running);
      keys = cc (key, rest.keys);
    })

not_elem : (x : ℕ) (rows : List Reservation) → elem x (ids rows) ≡ false → All (λ r. x ≢ r.id) rows
not_elem x [] h = tt
not_elem x (r ∷ rows) h = ((λ same. ground (arith, h, same)), not_elem x rows (ground (arith, h)))

pub distinct_unique :
    (rows : List Reservation) → distinct (ids rows) ≡ true → AllPairs (λ x y. x.id ≢ y.id) rows
distinct_unique [] h = tt
distinct_unique (r ∷ rows) h =
    (not_elem r.id rows (ground (arith, h)), distinct_unique rows (ground (arith, h)))
