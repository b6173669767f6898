-- ===== src/Booking/Access.antt =====
-- Who may book a machine, and until when: server/machine-access.ts (canAccessMachine,
-- userCanAccessMachine, assertMachineAccessEnd), server/reservation-policy.ts and
-- assertUserCanAccessSegments of server/scheduling.ts.
use allocube.Prelude.{
  ℕ, suc, Bool, true, false, not, ◌&&◌, ◌||◌, Option, none, some, List, [], ◌∷◌, ltb, leb, ◌==◌,
  elem,
}
use allocube.Store.{Db, Membership, User, is_user_active, is_system_admin}
use allocube.Store.Error.{
  Result, ok, guard, ◌>>=◌, ◌>>◌, no_machine_access, access_expiry_exceeded, admin_booking_disabled,
}
use allocube.Store.Rows.{find, find_machine, get_group}
use allocube.Booking.Segment.{RawSegment, parse_segment}

abbrev pub is_some {ℓ} : {A : Type ℓ} → Option A → Bool
is_some none = false
is_some (some a) = true

unfoldable pub find_user : Db → ℕ → Option User
unfolding find
find_user db id = find (λ u. u.id == id) db.users

unfoldable pub find_membership : Db → ℕ → ℕ → Option Membership
unfolding find
find_membership db user_id machine_id =
    find (λ m. m.machine_id == machine_id && m.user_id == user_id) db.memberships

-- `expires_at IS NULL OR expires_at > now`
abbrev pub not_expired : Option ℕ → ℕ → Bool
not_expired none now = true
not_expired (some e) now = ltb now e

abbrev pub membership_live : Option Membership → ℕ → Bool
membership_live none now = false
membership_live (some m) now = not_expired m.expires_at now

unfoldable pub can_access_machine : Db → User → ℕ → ℕ → Bool
unfolding find_machine find_membership
can_access_machine db u machine_id now =
    is_some (find_machine db.catalog machine_id)
    && (is_system_admin u.role || membership_live (find_membership db u.id machine_id) now)

abbrev access_of : Db → Option User → ℕ → ℕ → Bool
access_of db none machine_id now = false
access_of db (some u) machine_id now =
    is_user_active u.status && can_access_machine db u machine_id now

unfoldable pub user_can_access_machine : Db → ℕ → ℕ → ℕ → Bool
unfolding can_access_machine find_user
user_can_access_machine db user_id machine_id now =
    access_of db (find_user db user_id) machine_id now

-- `membership?.expires_at && Date.parse(endAt) > Date.parse(membership.expires_at)`
abbrev ends_within : Option Membership → ℕ → Bool
ends_within none end_at = true
ends_within (some m) end_at = elim m.expires_at [ none ↦ true | some e ↦ leb end_at e ]

unfoldable pub assert_machine_access_end : Db → ℕ → ℕ → ℕ → Result (Unit {0})
unfolding find_membership
assert_machine_access_end db user_id machine_id end_at =
    guard (ends_within (find_membership db user_id machine_id) end_at) access_expiry_exceeded

abbrev blocked_role : Option User → Bool
blocked_role none = false
blocked_role (some u) = is_system_admin u.role

unfoldable pub assert_user_can_submit_reservations : Db → ℕ → Result (Unit {0})
unfolding find_user
assert_user_can_submit_reservations db user_id =
    guard (not (db.settings.block_admin_bookings && blocked_role (find_user db user_id)))
      admin_booking_disabled

-- The loop over the segments. `checked` is `checkedMachines`, and `clock i` the time that the
-- check of the `i`-th segment reads.
unfoldable pub access_loop : Db → ℕ → (ℕ → ℕ) → ℕ → List ℕ → List RawSegment → Result (Unit {0})
unfolding parse_segment get_group assert_machine_access_end user_can_access_machine
access_loop db user_id clock i checked [] = ok tt
access_loop db user_id clock i checked (raw ∷ raws) = do
  s ← parse_segment raw
  elim (get_group db.catalog s.resource_group_id) [
    | none ↦ access_loop db user_id clock (suc i) checked raws
    | some g ↦ (do
      assert_machine_access_end db user_id g.machine_id s.end_at
      elim (elem g.machine_id checked) [
        | true ↦ access_loop db user_id clock (suc i) checked raws
        | false ↦
            guard (user_can_access_machine db user_id g.machine_id (clock i)) no_machine_access
            >> access_loop db user_id clock (suc i) (g.machine_id ∷ checked) raws
      ])
  ]

-- assertUserCanAccessSegments
unfoldable pub assert_user_can_access_segments :
    Db → ℕ → (ℕ → ℕ) → List RawSegment → Result (Unit {0})
unfolding access_loop
assert_user_can_access_segments db user_id clock raws = access_loop db user_id clock 0 [] raws
