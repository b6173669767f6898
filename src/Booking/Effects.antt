-- ===== src/Booking/Effects.antt =====
-- What a commit and a cancellation change, and what they leave.
use allocube.Prelude.{
  ℕ, suc, ◌<◌, ◌≡◌, ◌≢◌, ◌∙◌, inl, inr, refl, sym, subst, ap, Bool, true, false, ◌||◌, Option, none,
  some, List, [], ◌∷◌, ◌++◌, arith, ◌==◌, any, Bool-cases, if◌then◌else◌,
}
use allocube.Store.{
  Text, Db, Env, Reservation, confirmed, cancelled, add_audit, bump_schedule_revision,
  create_notification, reservation_cancelled,
}
use allocube.Store.Error.{
  ok, ok_inj, guard, traverse, >>=-eq-ok, or_fail-eq-ok, too_many_segments, cancel_forbidden,
}
use allocube.Store.Rows.{
  update_first, find_reservation, update_reservation, insert_reservation, get_group,
}
use allocube.Schedule.Find.{find-update_first, find-updated}
use allocube.Booking.Segment.{Segment, RawSegment, parse_segment}
use allocube.Booking.Overlap.{validate_single_reservation_scope}
use allocube.Booking.Commit.{
  Created, BatchInfo, Committed, new_row, insert_segment, insert_segments, batch_info,
  insert_reservation_batch, admit_segments, commit_reservation_batch, size_ok,
}
use allocube.Booking.Manage.{
  find_confirmed, assert_reservation_state, check_cancel, mark_cancelled, cancel_reservation,
}
use allocube.Booking.ManageSafe.{find_confirmed-found}

-- The rows tell what the answer of a commit tells, in the same order.
abbrev pub Describes : ℕ → List Reservation → List Created → Type 0
Describes user_id [] [] = Unit {0}
Describes user_id [] (c ∷ cs) = ⊥
Describes user_id (r ∷ rs) [] = ⊥
Describes user_id (r ∷ rs) (c ∷ cs) =
    ((r.id ≡ c.id)
      × (r.user_id ≡ user_id)
      × (r.status ≡ confirmed)
      × (r.machine_id ≡ c.machine_id)
      × (r.scope ≡ c.segment.scope)
      × (r.start_at ≡ c.segment.start_at)
      × (r.end_at ≡ c.segment.end_at))
    × Describes user_id rs cs

pub record Appended (user_id : ℕ) (db db' : Db) (created : List Created) : Type 0 where
  pub rows : List Reservation
  pub reservations : db'.reservations ≡ db.reservations ++ rows
  pub windows : db'.windows ≡ db.windows
  pub describes : Describes user_id rows created

append_assoc {ℓ} :
    {A : Type ℓ} (xs : List A) (y : A) (ys : List A) → (xs ++ y ∷ []) ++ ys ≡ xs ++ y ∷ ys
append_assoc [] y ys = refl
append_assoc (x ∷ xs) y ys = ap (λ k. x ∷ k) (append_assoc xs y ys)

append_nil {ℓ} : {A : Type ℓ} (xs : List A) → xs ≡ xs ++ []
append_nil [] = refl
append_nil (x ∷ xs) = ap (λ k. x ∷ k) (append_nil xs)

inserted-eq :
    (row : Reservation) (db db' : Db)
    → insert_reservation row db ≡ ok db'
    → record db { reservations = db.reservations ++ row ∷ [] } ≡ db'
unfolding insert_reservation
inserted-eq row db db' e = elim (Bool-cases (any (λ r. r.id == row.id) db.reservations)) [
  | inl taken ↦ absurd (cc (rw taken at e))
  | inr free ↦ ok_inj (rw free at e)
]

one_row :
    (b : BatchInfo) (id : ℕ) (s : Segment) (db : Db) (one : Created × Db)
    → insert_segment b id s db ≡ ok one
    → Appended b.user_id db one.1 (one.0 ∷ [])
unfolding insert_segment add_audit new_row
one_row b id s db one e =
    let (g, _, e1) = or_fail-eq-ok (get_group db.catalog s.resource_group_id) _ _ e in
    let (db1, inserted, e2) = >>=-eq-ok (insert_reservation (new_row b id s g) db) _ e1 in
    let same = inserted-eq (new_row b id s g) db db1 inserted in
    subst (λ (k : Created × Db). Appended b.user_id db k.1 (k.0 ∷ [])) (ok_inj e2)
      (record {
        rows = new_row b id s g ∷ [];
        reservations = ap (λ (k : Db). k.reservations) (sym same);
        windows = ap (λ (k : Db). k.windows) (sym same);
        describes = ((refl, refl, refl, refl, refl, refl, refl), tt);
      })

Describes-cons :
    (user_id : ℕ) (xs ys : List Reservation) (c : Created) (cs : List Created)
    → Describes user_id xs (c ∷ [])
    → Describes user_id ys cs
    → Describes user_id (xs ++ ys) (c ∷ cs)
Describes-cons user_id [] ys c cs h k = absurd h
Describes-cons user_id (x ∷ []) ys c cs h k = (h.0, k)
Describes-cons user_id (x ∷ y ∷ xs) ys c cs h k = absurd h.1

insert_segments-Appended :
    (b : BatchInfo) (uuid : ℕ → ℕ) (i : ℕ) (segments : List Segment) (db : Db)
    (r : List Created × Db)
    → insert_segments b uuid i segments db ≡ ok r
    → Appended b.user_id db r.1 r.0
unfolding insert_segments
insert_segments-Appended b uuid i [] db r e =
    subst (λ (k : List Created × Db). Appended b.user_id db k.1 k.0) (ok_inj e)
      (record {
        rows = [];
        reservations = append_nil db.reservations;
        windows = refl;
        describes = tt;
      })
insert_segments-Appended b uuid i (s ∷ rest) db r e =
    let (one, first, e1) = >>=-eq-ok (insert_segment b (uuid i) s db) _ e in
    let (more, later, e2) = >>=-eq-ok (insert_segments b uuid (suc i) rest one.1) _ e1 in
    let a = one_row b (uuid i) s db one first in
    let m = insert_segments-Appended b uuid (suc i) rest one.1 more later in
    subst (λ (k : List Created × Db). Appended b.user_id db k.1 k.0) (ok_inj e2)
      (record {
        rows = a.rows ++ m.rows;
        reservations =
            m.reservations
            ∙ ap (λ k. k ++ m.rows) a.reservations
            ∙ assoc db.reservations a.rows m.rows;
        windows = m.windows ∙ a.windows;
        describes = Describes-cons b.user_id a.rows m.rows one.0 more.0 a.describes m.describes;
      })
  where
    assoc : (xs ys zs : List Reservation) → (xs ++ ys) ++ zs ≡ xs ++ (ys ++ zs)
    assoc [] ys zs = refl
    assoc (x ∷ xs) ys zs = ap (λ k. x ∷ k) (assoc xs ys zs)

-- A commit that returns appends one confirmed row of the user for each reservation of its answer,
-- with the identifier, machine, scope and times that the answer gives, and changes no other row.
pub commit_reservation_batch-Appended :
    (env : Env) (user_id : ℕ) (raws : List RawSegment) (auto_adjust : Bool) (db : Db)
    (r : Committed × Db)
    → commit_reservation_batch env user_id raws auto_adjust db ≡ ok r
    → Appended user_id db r.1 r.0.reservations
unfolding commit_reservation_batch insert_reservation_batch batch_info bump_schedule_revision
commit_reservation_batch-Appended env user_id raws auto_adjust db r e =
    let (_, _, e1) = >>=-eq-ok (guard (size_ok raws) too_many_segments) _ e in
    let (parsed, _, e2) = >>=-eq-ok (traverse parse_segment raws) _ e1 in
    let (_, _, e3) = >>=-eq-ok (validate_single_reservation_scope parsed) _ e2 in
    let (segments, _, e4) = >>=-eq-ok (admit_segments env db user_id parsed auto_adjust) _ e3 in
    let (written, inserted, e5) =
      >>=-eq-ok (insert_reservation_batch env 101 user_id segments none db) _ e4 in
    let a =
      insert_segments-Appended (batch_info env 101 user_id none) env.uuid 1 segments _ written
        inserted in
    subst (λ (k : Committed × Db). Appended user_id db k.1 k.0.reservations) (ok_inj e5)
      (record {
        rows = a.rows;
        reservations = a.reservations;
        windows = a.windows;
        describes = a.describes;
      })

-- The rows of other identifiers stay.
find-other :
    (id other : ℕ) (f : Reservation → Reservation) (rows : List Reservation)
    → ((x : Reservation) → (f x).id ≡ x.id)
    → other ≢ id
    → find_reservation other (update_first (λ x. x.id == id) f rows) ≡ find_reservation other rows
unfolding find_reservation
find-other id other f rows keeps ne =
    find-update_first (λ x. x.id == other) (λ x. x.id == id) f rows
      (λ x e. (ground (arith, e, ne), ground (arith, e, ne, keeps x)))

find-same :
    (id : ℕ) (f : Reservation → Reservation) (rows : List Reservation) (r : Reservation)
    → ((x : Reservation) → (f x).id ≡ x.id)
    → find_reservation id rows ≡ some r
    → find_reservation id (update_first (λ x. x.id == id) f rows) ≡ some (f r)
unfolding find_reservation
find-same id f rows r keeps h =
    find-updated (λ x. x.id == id) f rows r (λ x. ap (λ k. k == id) (keeps x)) h

told-rows :
    (own : Bool) (db : Db) (to : ℕ)
    → (if own then db else create_notification to reservation_cancelled db).reservations
      ≡ db.reservations
unfolding create_notification
told-rows true db to = refl
told-rows false db to = refl

check_cancel-before :
    (x : Reservation) (now : ℕ) (u : Unit {0}) → check_cancel x now ≡ ok u → now < x.start_at
unfolding check_cancel
check_cancel-before x now u h = ground arith

-- A cancellation that returns gives the row that it names, which had not begun, the status
-- cancelled, the present time as that of the cancellation and of the last change, the actor and the
-- reason, changes nothing else of that row, and leaves the row of every other identifier.
pub cancel_reservation-effect :
    (env : Env) (id actor other : ℕ) (can_manage : Bool) (reason : Text) (expected : Option ℕ)
    (db : Db) (r : (Unit {0}) × Db)
    → other ≢ id
    → cancel_reservation env id actor can_manage reason expected db ≡ ok r
    → ((x : Reservation) × (find_reservation id db.reservations ≡ some x)
        × (env.clock 0 < x.start_at)
        × (find_reservation id r.1.reservations
            ≡ some (record x {
              status = cancelled;
              cancelled_at = some (env.clock 0);
              cancelled_by = some actor;
              cancellation_reason = reason;
              updated_at = env.clock 0;
            })))
      × (find_reservation other r.1.reservations ≡ find_reservation other db.reservations)
unfolding cancel_reservation add_audit bump_schedule_revision update_reservation
cancel_reservation-effect env id actor other can_manage reason expected db r ne e =
    let (x, found, e1) = >>=-eq-ok (find_confirmed id db) _ e in
    let (_, _, e2) = >>=-eq-ok (guard ((x.user_id == actor) || can_manage) cancel_forbidden) _ e1 in
    let (_, _, e3) = >>=-eq-ok (assert_reservation_state env x expected) _ e2 in
    let (u, checked, e4) = >>=-eq-ok (check_cancel x (env.clock 0)) _ e3 in
    let mark = mark_cancelled (env.clock 0) actor reason in
    let keeps : (y : Reservation) → (mark y).id ≡ y.id = unfold mark_cancelled in λ y. refl in
    let written = update_reservation id mark db in
    let rows : written.reservations ≡ r.1.reservations =
      sym (told-rows (x.user_id == actor) written x.user_id)
      ∙ ap (λ (k : (Unit {0}) × Db). k.1.reservations) (ok_inj e4) in
    let there = (find_confirmed-found id db x found).0 in
    (
      (
        x,
        there,
        check_cancel-before x (env.clock 0) u checked,
        subst (λ k. find_reservation id k ≡ some (mark x)) rows
              (find-same id mark db.reservations x keeps there)
            ∙ ap some (unfold mark_cancelled in refl),
      ),
      subst (λ k. find_reservation other k ≡ find_reservation other db.reservations) rows
          (find-other id other mark db.reservations keeps ne),
    )
