-- ===== src/Maintenance/Apply.antt =====
-- Changing the reservations that a blocked span meets: applyReservationImpacts of
-- server/unavailability.ts.
use allocube.Prelude.{ℕ, suc, none, some, List, [], ◌∷◌, ◌++◌, elem, if◌then◌else◌}
use allocube.Store.{
  Text, Db, Env, Reservation, Adjustment, adjusted_cancel, trim_start, trim_end, split, confirmed,
  cancelled_unavailability, is_confirmed, add_audit, create_notification,
  reservation_split_unavailability, reservation_adjust_unavailability, resource_unavailability,
}
use allocube.Store.Error.{
  Result, ok, err, guard, or_fail, ◌>>=◌, ◌>>◌, reservations_changed, no_such_segment,
}
use allocube.Store.Rows.{find_reservation, update_reservation, insert_reservation}
use allocube.Interval.{Span}
use allocube.Maintenance.Impact.{
  ReservationImpact, ImpactAction, impact_cancel, impact_trim_start, impact_trim_end, impact_split,
}

-- What one application writes into every row.
pub record Source : Type 0 where
  pub now : ℕ
  pub actor : ℕ
  pub source_id : ℕ
  pub reason_text : Text

-- `WHERE id = ? AND status = 'CONFIRMED'`: another row of that id stays.
abbrev pub when_confirmed : (Reservation → Reservation) → Reservation → Reservation
when_confirmed f r = if is_confirmed r.status then f r else r

unfoldable pub cancelled_by_source : Source → Reservation → Reservation
cancelled_by_source s r = record r {
  status = cancelled_unavailability;
  cancelled_at = some s.now;
  cancelled_by = some s.actor;
  cancellation_reason = s.reason_text;
  adjusted_by_unavailability_id = some s.source_id;
  adjustment_type = some adjusted_cancel;
  adjustment_reason = s.reason_text;
  updated_at = s.now;
}

unfoldable pub trimmed_by_source : Source → Adjustment → Span → Reservation → Reservation
trimmed_by_source s how part r = record r {
  start_at = part.start;
  end_at = part.end;
  adjusted_by_unavailability_id = some s.source_id;
  adjustment_type = some how;
  adjustment_reason = s.reason_text;
  updated_at = s.now;
}

-- The row for the second part of a split reservation.
unfoldable pub split_child : Source → ℕ → Span → Reservation → Reservation
split_child s child_id part r = record r {
  id = child_id;
  start_at = part.start;
  end_at = part.end;
  parent_reservation_id = some r.id;
  adjusted_by_unavailability_id = some s.source_id;
  adjustment_type = some split;
  adjustment_reason = s.reason_text;
  status = confirmed;
  cancelled_at = none;
  cancelled_by = none;
  cancellation_reason = [];
  created_at = s.now;
  updated_at = s.now;
}

abbrev pub trim_row : Source → Adjustment → Span → Reservation → Db → Db
trim_row s how part r db =
    update_reservation r.id (when_confirmed (trimmed_by_source s how part)) db

-- The statements that one impact runs on its row, by its action and its segments.
unfoldable pub change_row : Source → ℕ → Reservation → ImpactAction → List Span → Db → Result Db
unfolding update_reservation cancelled_by_source trimmed_by_source split_child insert_reservation
    add_audit
change_row s child_id r impact_cancel parts db =
    ok (update_reservation r.id (when_confirmed (cancelled_by_source s)) db)
change_row s child_id r impact_trim_start (first ∷ rest) db = ok (trim_row s trim_start first r db)
change_row s child_id r impact_trim_end (first ∷ rest) db = ok (trim_row s trim_end first r db)
change_row s child_id r impact_split (first ∷ second ∷ rest) db = do
  db' ← insert_reservation (split_child s child_id second r) (trim_row s split first r db)
  ok (add_audit s.actor reservation_split_unavailability child_id db')
change_row s child_id r impact_trim_start [] db = err no_such_segment
change_row s child_id r impact_trim_end [] db = err no_such_segment
change_row s child_id r impact_split [] db = err no_such_segment
change_row s child_id r impact_split (first ∷ []) db = err no_such_segment

-- One round of the loop over the impacts.
unfoldable pub apply_impact : Source → ℕ → ReservationImpact → Db → Result Db
unfolding find_reservation change_row add_audit
apply_impact s child_id i db = do
  r ← or_fail (find_reservation i.id db.reservations) reservations_changed
  guard (is_confirmed r.status) reservations_changed
  db' ← change_row s child_id r i.action i.resulting_segments db
  ok (add_audit s.actor reservation_adjust_unavailability i.id db')

unfoldable pub apply_impacts : Source → (ℕ → ℕ) → ℕ → List ReservationImpact → Db → Result Db
unfolding apply_impact
apply_impacts s uuid k [] db = ok db
apply_impacts s uuid k (i ∷ rest) db =
    apply_impact s (uuid k) i db >>= λ db'. apply_impacts s uuid (suc k) rest db'

-- The keys of the Map `users`, in the order of their first impact.
unfoldable pub add_user : ℕ → List ℕ → List ℕ
add_user id users = if elem id users then users else users ++ id ∷ []

unfoldable pub told_users : List ℕ → List ReservationImpact → List ℕ
unfolding add_user
told_users users [] = users
told_users users (i ∷ rest) = told_users (add_user i.user_id users) rest

unfoldable pub notify_users : List ℕ → Db → Db
unfolding create_notification
notify_users [] db = db
notify_users (id ∷ rest) db = notify_users rest (create_notification id resource_unavailability db)

pub data ChangeType : Type 0 where
  maintenance_change disable_change : ChangeType

-- 维护 and 停用
unfoldable pub change_label : ChangeType → Text
change_label maintenance_change = 32500 ∷ 25252 ∷ []
change_label disable_change = 20572 ∷ 29992 ∷ []

-- `reason || (targetName + label)`
unfoldable pub reason_or_label : Text → Text → ChangeType → Text
unfolding change_label
reason_or_label [] name how = name ++ change_label how
reason_or_label (c ∷ cs) name how = c ∷ cs

-- applyReservationImpacts; `site` is the place of its reading of the clock in the caller, and the
-- k-th impact draws the k-th identifier if it needs one.
unfoldable pub apply_reservation_impacts :
    Env → ℕ → List ReservationImpact → ℕ → ℕ → Text → Text → ChangeType → Db → Result Db
unfolding apply_impacts reason_or_label told_users notify_users
apply_reservation_impacts env site impacts actor source_id reason name how db = do
  let source : Source = record {
    now = env.clock site;
    actor = actor;
    source_id = source_id;
    reason_text = reason_or_label reason name how;
  }
  db' ← apply_impacts source env.uuid 1 impacts db
  ok (notify_users (told_users [] impacts) db')
