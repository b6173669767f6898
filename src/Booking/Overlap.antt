-- ===== src/Booking/Overlap.antt =====
-- Checks within one request: validateNoInternalOverlap, validateSingleReservationScope,
-- availableSegments and segmentsAdjusted of server/scheduling.ts.
use allocube.Prelude.{
  Bool, false, not, ◌&&◌, ◌||◌, Option, none, some, List, [], ◌∷◌, ltb, leb, ◌==◌, any, flat_map,
  length, if◌then◌else◌,
}
use allocube.Store.{Catalog, Scope, machine, resource_group, is_machine}
use allocube.Store.Error.{
  Error, Result, ok, guard, check_all, ◌>>◌, internal_overlap_group, internal_overlap, mixed_scopes,
  too_many_segments, no_available_segments,
}
use allocube.Store.Rows.{GroupRow, get_group}
use allocube.Booking.Segment.{Segment}
use allocube.Booking.Preview.{PreviewItem}

unfoldable pub same_target : Segment → GroupRow → Segment → GroupRow → Bool
same_target a g b h =
    (a.resource_group_id == b.resource_group_id)
    || ((g.machine_id == h.machine_id) && (is_machine a.scope || is_machine b.scope))

unfoldable pub collide : Segment → GroupRow → Segment → GroupRow → Bool
unfolding same_target
collide a g b h = same_target a g b h && ltb a.start_at b.end_at && ltb b.start_at a.end_at

unfoldable pub overlap_error : Segment → Segment → Error
overlap_error a b =
    if not (is_machine a.scope)
      && not (is_machine b.scope)
      && (a.resource_group_id == b.resource_group_id)
    then internal_overlap_group
    else internal_overlap

-- `if (!first.group || !second.group) continue`
unfoldable pub check_pair :
    Segment → Option GroupRow → Segment → Option GroupRow → Result (Unit {0})
unfolding collide overlap_error
check_pair a (some g) b (some h) = guard (not (collide a g b h)) (overlap_error a b)
check_pair a none b h = ok tt
check_pair a (some g) b none = ok tt

-- validateNoInternalOverlap: each segment against those behind it.
unfoldable pub validate_no_internal_overlap : Catalog → List Segment → Result (Unit {0})
unfolding check_pair get_group check_all
validate_no_internal_overlap c [] = ok tt
validate_no_internal_overlap c (a ∷ rest) = do
  check_all
      (λ b. check_pair a (get_group c a.resource_group_id) b (get_group c b.resource_group_id)) rest
  validate_no_internal_overlap c rest

abbrev pub same_scope : Scope → Scope → Bool
same_scope machine t = is_machine t
same_scope resource_group t = not (is_machine t)

-- `new Set(scopes).size > 1`
unfoldable pub mixed : List Segment → Bool
mixed [] = false
mixed (a ∷ rest) = any (λ b. not (same_scope a.scope b.scope)) rest

unfoldable pub validate_single_reservation_scope : List Segment → Result (Unit {0})
unfolding mixed
validate_single_reservation_scope segments = guard (not (mixed segments)) mixed_scopes

abbrev pub usable_segments : PreviewItem → List Segment
usable_segments item = if item.available then item.input ∷ [] else item.split_segments

-- availableSegments
unfoldable pub available_segments : Catalog → List PreviewItem → Result (List Segment)
unfolding validate_no_internal_overlap
available_segments c items = do
  let segments = flat_map usable_segments items
  guard (ltb 0 (length segments)) no_available_segments
  guard (leb (length segments) 100) too_many_segments
  validate_no_internal_overlap c segments
  ok segments

abbrev pub differs : Segment → Segment → Bool
differs a b =
    not (a.start_at == b.start_at)
    || not (a.end_at == b.end_at)
    || not (a.resource_group_id == b.resource_group_id)

unfoldable pub any_differs : List Segment → List Segment → Bool
any_differs (a ∷ as') (b ∷ bs) = let rest = any_differs as' bs in differs a b || rest
any_differs _ _ = false

-- segmentsAdjusted
unfoldable pub segments_adjusted : List Segment → List Segment → Bool
unfolding any_differs
segments_adjusted before after = not (length before == length after) || any_differs before after
