-- ===== src/Booking/Manage.antt =====
-- One reservation at a time: updateReservation, cancelReservation, endReservationEarly and their
-- previews in server/scheduling.ts; assertReservationState of server/reservation-state.ts.
use allocube.Prelude.{
  ℕ, ◌-◌, Bool, true, false, not, ◌&&◌, ◌||◌, Option, none, some, [], ◌∷◌, ltb, leb, ◌==◌, any,
  if◌then◌else◌,
}
use allocube.Store.{
  Text, Db, Env, Reservation, cancelled, is_confirmed, current_minute, minute_ms, add_audit,
  create_notification, bump_schedule_revision, reservation_update, reservation_cancel,
  reservation_withdraw_first_minute, reservation_end_early, reservation_cancelled,
  reservation_released_by_manager,
}
use allocube.Store.Error.{
  Result, ok, guard, or_fail, ◌>>=◌, ◌>>◌, reservation_missing, not_owner, state_changed,
  no_machine_access, group_change_refused, scope_change_refused, already_ended, already_started,
  new_slot_unavailable, cancel_forbidden, in_progress, release_forbidden, not_in_progress,
}
use allocube.Store.Rows.{find_reservation, update_reservation, delete_reservation, delete_first}
use allocube.Booking.Segment.{Segment, RawSegment, to_raw, parse_segment, validate_segment_times}
use allocube.Booking.Access.{
  assert_user_can_submit_reservations, assert_machine_access_end, user_can_access_machine,
}
use allocube.Booking.Preview.{PreviewItem, preview_segment}
use allocube.Booking.Overlap.{same_scope}

abbrev if_confirmed : Option Reservation → Option Reservation
if_confirmed none = none
if_confirmed (some r) = if is_confirmed r.status then some r else none

-- `!existing || existing.status !== "CONFIRMED"`
unfoldable pub find_confirmed : ℕ → Db → Result Reservation
unfolding find_reservation
find_confirmed id db =
    or_fail (if_confirmed (find_reservation id db.reservations)) reservation_missing

abbrev token_matches : Env → Reservation → Option ℕ → Bool
token_matches env r none = true
token_matches env r (some expected) = env.state_token r == expected

-- assertReservationState
unfoldable pub assert_reservation_state : Env → Reservation → Option ℕ → Result (Unit {0})
assert_reservation_state env r expected = guard (token_matches env r expected) state_changed

-- getOwnedConfirmedReservation; getReplaceableReservation makes the same checks.
unfoldable pub get_owned_confirmed_reservation : Db → ℕ → ℕ → ℕ → Result Reservation
unfolding find_confirmed user_can_access_machine
get_owned_confirmed_reservation db id user_id now = do
  r ← find_confirmed id db
  guard (r.user_id == user_id) not_owner
  guard (user_can_access_machine db user_id r.machine_id now) no_machine_access
  ok r

abbrev pub time_changed : Segment → Reservation → Bool
time_changed s r = not (s.start_at == r.start_at) || not (s.end_at == r.end_at)

-- The target of a reservation stays, and what has begun keeps its times.
unfoldable pub check_change : Segment → Reservation → ℕ → Result (Unit {0})
check_change s r current = do
  guard (s.resource_group_id == r.resource_group_id) group_change_refused
  guard (same_scope s.scope r.scope) scope_change_refused
  guard (ltb current r.end_at) already_ended
  guard (not (leb r.start_at current && time_changed s r)) already_started

-- The check of the new slot, for a reservation that has not begun.
unfoldable pub check_new_slot : Db → ℕ → ℕ → ℕ → Segment → Result (Unit {0})
unfolding validate_segment_times preview_segment to_raw
check_new_slot db id validated_at previewed_at s = do
  validate_segment_times db.settings s (current_minute validated_at)
  item ← preview_segment db (id ∷ []) (current_minute previewed_at) (to_raw s)
  guard item.available new_slot_unavailable

abbrev pub check_slot_unless : Bool → Db → ℕ → ℕ → ℕ → Segment → Result (Unit {0})
check_slot_unless true db id v p s = ok tt
check_slot_unless false db id v p s = check_new_slot db id v p s

unfoldable pub with_segment : Segment → ℕ → Reservation → Reservation
with_segment s now r = record r {
  start_at = s.start_at;
  end_at = s.end_at;
  title = s.title;
  purpose = s.purpose;
  note = s.note;
  updated_at = now;
}

-- The checks of updateReservation, which yield the row as it was.
unfoldable pub admit_update : Env → ℕ → ℕ → Segment → Option ℕ → Db → Result Reservation
unfolding assert_user_can_submit_reservations find_confirmed assert_reservation_state
    assert_machine_access_end user_can_access_machine check_change check_new_slot
admit_update env id actor s expected db = do
  assert_user_can_submit_reservations db actor
  r ← find_confirmed id db
  guard (r.user_id == actor) not_owner
  assert_reservation_state env r expected
  assert_machine_access_end db actor r.machine_id s.end_at
  guard (user_can_access_machine db actor r.machine_id (env.clock 0)) no_machine_access
  check_change s r (env.clock 1)
  check_slot_unless (leb r.start_at (env.clock 1)) db id (env.clock 2) (env.clock 3) s
  ok r

-- updateReservation: the identifier and the new revision.
unfoldable pub update_own_reservation :
    Env → ℕ → ℕ → RawSegment → Option ℕ → Db → Result ((ℕ × ℕ) × Db)
unfolding parse_segment admit_update update_reservation with_segment add_audit
    bump_schedule_revision
update_own_reservation env id actor raw expected db = do
  s ← parse_segment raw
  r ← admit_update env id actor s expected db
  let written = update_reservation id (with_segment s (env.clock 4)) db
  let done = bump_schedule_revision (add_audit actor reservation_update id written)
  ok ((id, done.revision), done)

-- previewReservationUpdate, as far as it decides: the row, and the item for a future reservation.
unfoldable pub preview_reservation_update :
    Env → ℕ → ℕ → RawSegment → Db → Result (Reservation × Option PreviewItem)
unfolding assert_user_can_submit_reservations parse_segment get_owned_confirmed_reservation
    assert_machine_access_end check_change preview_segment
preview_reservation_update env user_id id raw db = do
  assert_user_can_submit_reservations db user_id
  s ← parse_segment raw
  r ← get_owned_confirmed_reservation db id user_id (env.clock 0)
  assert_machine_access_end db user_id r.machine_id s.end_at
  check_change s r (env.clock 1)
  if leb r.start_at (env.clock 1)
      then ok (r, none)
      else preview_segment db (id ∷ []) (current_minute (env.clock 2)) (to_raw s) >>= λ item.
          ok (r, some item)

pub data OwnAction : Type 0 where
  cancel_action end_action : OwnAction

-- The times at which a reservation may be cancelled, or ended early.
unfoldable pub check_cancel : Reservation → ℕ → Result (Unit {0})
check_cancel r now = do
  guard (ltb now r.end_at) already_ended
  guard (ltb now r.start_at) in_progress

unfoldable pub check_end : Reservation → ℕ → Result (Unit {0})
check_end r now = guard (leb r.start_at now && ltb now r.end_at) not_in_progress

abbrev check_action : OwnAction → Reservation → ℕ → Result (Unit {0})
check_action cancel_action r now = check_cancel r now
check_action end_action r now = check_end r now

-- previewOwnReservationAction
unfoldable pub preview_own_reservation_action : Env → ℕ → ℕ → OwnAction → Db → Result Reservation
unfolding get_owned_confirmed_reservation check_cancel check_end
preview_own_reservation_action env user_id id action db = do
  r ← get_owned_confirmed_reservation db id user_id (env.clock 0)
  check_action action r (env.clock 1)
  ok r

unfoldable pub mark_cancelled : ℕ → ℕ → Text → Reservation → Reservation
mark_cancelled now actor reason r = record r {
  status = cancelled;
  cancelled_at = some now;
  cancelled_by = some actor;
  cancellation_reason = reason;
  updated_at = now;
}

-- cancelReservation
unfoldable pub cancel_reservation :
    Env → ℕ → ℕ → Bool → Text → Option ℕ → Db → Result ((Unit {0}) × Db)
unfolding find_confirmed assert_reservation_state check_cancel update_reservation mark_cancelled
    create_notification add_audit bump_schedule_revision
cancel_reservation env id actor can_manage reason expected db = do
  r ← find_confirmed id db
  guard ((r.user_id == actor) || can_manage) cancel_forbidden
  assert_reservation_state env r expected
  check_cancel r (env.clock 0)
  let written = update_reservation id (mark_cancelled (env.clock 0) actor reason) db
  let told =
      if r.user_id == actor
      then written
      else create_notification r.user_id reservation_cancelled written
  ok (tt, bump_schedule_revision (add_audit actor reservation_cancel id told))

unfoldable pub end_at_minute : ℕ → Reservation → Reservation
unfolding current_minute
end_at_minute now r = record r { end_at = current_minute now; updated_at = now }

-- DELETE FROM reservation_batches ... AND NOT EXISTS (a reservation of the batch)
unfoldable pub drop_empty_batch : ℕ → Db → Db
unfolding delete_first
drop_empty_batch batch_id db =
    if any (λ r. r.batch_id == batch_id) db.reservations
    then db
    else record db { batches = delete_first (λ b. b.id == batch_id) db.batches }

-- A reservation that has run for less than a minute is withdrawn, any other ends with this minute.
unfoldable pub release : ℕ → ℕ → Reservation → ℕ → Db → Db
unfolding add_audit delete_reservation drop_empty_batch update_reservation end_at_minute
release id actor r now db =
    if ltb (now - r.start_at) minute_ms
    then drop_empty_batch r.batch_id
        (delete_reservation id (add_audit actor reservation_withdraw_first_minute id db))
    else add_audit actor reservation_end_early id (update_reservation id (end_at_minute now) db)

-- endReservationEarly: whether the reservation was removed.
unfoldable pub end_reservation_early : Env → ℕ → ℕ → Bool → Option ℕ → Db → Result (Bool × Db)
unfolding find_confirmed assert_reservation_state check_end release create_notification
    bump_schedule_revision
end_reservation_early env id actor can_manage expected db = do
  r ← find_confirmed id db
  guard ((r.user_id == actor) || can_manage) release_forbidden
  assert_reservation_state env r expected
  check_end r (env.clock 0)
  let released = release id actor r (env.clock 0) db
  let told =
      if r.user_id == actor
      then released
      else create_notification r.user_id reservation_released_by_manager released
  ok (ltb (env.clock 0 - r.start_at) minute_ms, bump_schedule_revision told)
