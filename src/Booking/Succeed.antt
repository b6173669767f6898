-- ===== src/Booking/Succeed.antt =====
-- When a cancellation of server/scheduling.ts goes through.
use allocube.Prelude.{
  ℕ, ◌<◌, ◌≡◌, ◌⊎◌, ◌↔◌, refl, sym, ap, Bool, true, ◌||◌, Option, none, some, ◌==◌, ==_iff, ==_refl,
  Bool-cases, inl, inr, lt→ltb, arith,
}
use allocube.Store.{Text, Db, Env, Reservation, confirmed}
use allocube.Store.Error.{ok, returned, >>=-eq-ok, guard-eq-ok, guard-true, cancel_forbidden}
use allocube.Store.Rows.{find_reservation}
use allocube.Booking.Manage.{
  find_confirmed, assert_reservation_state, check_cancel, cancel_reservation,
}
use allocube.Booking.ManageSafe.{find_confirmed-found}

found-confirmed :
    (id : ℕ) (db : Db) (x : Reservation)
    → find_reservation id db.reservations ≡ some x
    → x.status ≡ confirmed
    → find_confirmed id db ≡ ok x
unfolding find_confirmed
found-confirmed id db x found c = rw (found, c) refl

cancel_passes :
    (x : Reservation) (now : ℕ) → now < x.start_at → now < x.end_at → check_cancel x now ≡ ok tt
unfolding check_cancel
cancel_passes x now s e = rw (lt→ltb _ _ s, lt→ltb _ _ e) refl

-- The state that the caller expects, where it names one, is the present one.
abbrev pub ExpectedState : Env → Reservation → Option ℕ → Type 0
ExpectedState env x expected = (expected ≡ none) ⊎ (expected ≡ some (env.state_token x))

state-ExpectedState :
    (env : Env) (x : Reservation) (expected : Option ℕ) (u : Unit {0})
    → assert_reservation_state env x expected ≡ ok u
    → ExpectedState env x expected
unfolding assert_reservation_state
state-ExpectedState env x none u h = inl refl
state-ExpectedState env x (some token) u h =
    inr (ap some (sym ((==_iff (env.state_token x) token).0 (guard-true _ _ h))))

ExpectedState-state :
    (env : Env) (x : Reservation) (expected : Option ℕ)
    → ExpectedState env x expected
    → assert_reservation_state env x expected ≡ ok tt
unfolding assert_reservation_state
ExpectedState-state env x expected (inl e) = rw e refl
ExpectedState-state env x expected (inr e) = rw (e, ==_refl (env.state_token x)) refl

-- What a cancellation asks of the reservation.
pub record MayCancel (env : Env) (id actor : ℕ) (can_manage : Bool) (expected : Option ℕ) (db : Db)
    : Type 0 where
  pub row : Reservation
  pub found : find_reservation id db.reservations ≡ some row
  pub is_confirmed : row.status ≡ confirmed
  pub allowed : (row.user_id ≡ actor) ⊎ (can_manage ≡ true)
  pub state : ExpectedState env row expected
  pub before_start : env.clock 0 < row.start_at
  pub before_end : env.clock 0 < row.end_at

allowed_iff :
    (user actor : ℕ) (can_manage : Bool)
    → (((user == actor) || can_manage) ≡ true) ↔ ((user ≡ actor) ⊎ (can_manage ≡ true))
allowed_iff user actor can_manage = (
  (λ h. elim (Bool-cases (user == actor)) [
    | inl e ↦ inl ((==_iff user actor).0 e)
    | inr e ↦ inr (rw e at h)
  ]),
  (λ h. elim h [ inl e ↦ rw ((==_iff user actor).1 e) refl | inr e ↦ rw e (ground arith) ]),
)

passes-times :
    (x : Reservation) (now : ℕ) (u : Unit {0})
    → check_cancel x now ≡ ok u
    → (now < x.start_at) × (now < x.end_at)
unfolding check_cancel
passes-times x now u h = (ground arith, ground arith)

-- A cancellation returns exactly when the reservation is there and confirmed, belongs to the actor
-- or to a machine that the actor manages, is in the state that the caller expects, where it names
-- one, and has neither begun nor ended.
pub cancel_reservation_iff :
    (env : Env) (id actor : ℕ) (can_manage : Bool) (reason : Text) (expected : Option ℕ) (db : Db)
    → ((r : (Unit {0}) × Db) × (cancel_reservation env id actor can_manage reason expected db
          ≡ ok r))
      ↔ MayCancel env id actor can_manage expected db
unfolding cancel_reservation
cancel_reservation_iff env id actor can_manage reason expected db = (
  (λ h.
      let (r, e) = h in
      let (x, found, e1) = >>=-eq-ok (find_confirmed id db) _ e in
      let (may, e2) = guard-eq-ok ((x.user_id == actor) || can_manage) cancel_forbidden _ e1 in
      let (u, state, e3) = >>=-eq-ok (assert_reservation_state env x expected) _ e2 in
      let (v, checked, e4) = >>=-eq-ok (check_cancel x (env.clock 0)) _ e3 in
      let (there, c) = find_confirmed-found id db x found in
      let times = passes-times x (env.clock 0) v checked in
      record {
        row = x;
        found = there;
        is_confirmed = c;
        allowed = (allowed_iff x.user_id actor can_manage).0 may;
        state = state-ExpectedState env x expected u state;
        before_start = times.0;
        before_end = times.1;
      }),
  (λ m. returned (cancel_reservation env id actor can_manage reason expected db) (
      rw
        (
          found-confirmed id db m.row m.found m.is_confirmed,
          (allowed_iff m.row.user_id actor can_manage).1 m.allowed,
          ExpectedState-state env m.row expected m.state,
          cancel_passes m.row (env.clock 0) m.before_start m.before_end,
        )
        tt)),
)
