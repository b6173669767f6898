-- ===== src/Maintenance/Impact.antt =====
-- What a blocked span does to the reservations of its target: classifyImpact, reservationImpacts
-- and previewSummary of server/unavailability.ts.
use allocube.Prelude.{
  ℕ, Bool, true, false, ◌&&◌, ◌||◌, Option, none, some, List, [], ◌∷◌, map, ltb, leb, ◌==◌, filter,
  length, if◌then◌else◌,
}
use allocube.Store.{Reservation, is_machine, is_confirmed}
use allocube.Interval.{Span, span}
use allocube.Maintenance.Target.{Target}

pub data ImpactAction : Type 0 where
  impact_cancel impact_trim_start impact_trim_end impact_split : ImpactAction

-- ReservationImpact, without the names that are shown.
pub record ReservationImpact : Type 0 where
  pub id : ℕ
  pub user_id : ℕ
  pub resource_group_id : ℕ
  pub start_at : ℕ
  pub end_at : ℕ
  pub action : ImpactAction
  pub resulting_segments : List Span

-- classifyImpact: the action, and what stays of [start, end) outside the blocked span.
unfoldable pub classify_impact : ℕ → ℕ → Span → ImpactAction × List Span
classify_impact start end blocked =
    if leb blocked.start start && leb end blocked.end
    then (impact_cancel, [])
    else if leb blocked.start start
    then (impact_trim_start, span blocked.end end ∷ [])
    else if leb end blocked.end
    then (impact_trim_end, span start blocked.start ∷ [])
    else (impact_split, span start blocked.start ∷ span blocked.end end ∷ [])

-- `? IS NULL OR r.resource_group_id = ? OR r.scope = 'MACHINE'`
abbrev pub target_takes : Option ℕ → Reservation → Bool
target_takes none r = true
target_takes (some g) r = (r.resource_group_id == g) || is_machine r.scope

-- The WHERE clause. Its joins drop no row, since user_id and resource_group_id are foreign keys.
unfoldable pub affected : Target → Span → Reservation → Bool
affected t blocked r =
    (r.machine_id == t.machine_id)
    && target_takes t.resource_group_id r
    && is_confirmed r.status
    && ltb r.start_at blocked.end
    && ltb blocked.start r.end_at

-- ORDER BY r.start_at, r.id
abbrev pub comes_first : Reservation → Reservation → Bool
comes_first a b = ltb a.start_at b.start_at || ((a.start_at == b.start_at) && leb a.id b.id)

unfoldable pub insert_row : Reservation → List Reservation → List Reservation
insert_row x [] = x ∷ []
insert_row x (y ∷ ys) =
    let rest = insert_row x ys in if comes_first x y then x ∷ y ∷ ys else y ∷ rest

unfoldable pub sort_rows : List Reservation → List Reservation
unfolding insert_row
sort_rows [] = []
sort_rows (x ∷ xs) = insert_row x (sort_rows xs)

unfoldable pub impact_of : Span → Reservation → ReservationImpact
unfolding classify_impact
impact_of blocked r =
    let c = classify_impact r.start_at r.end_at blocked in
    record {
      id = r.id;
      user_id = r.user_id;
      resource_group_id = r.resource_group_id;
      start_at = r.start_at;
      end_at = r.end_at;
      action = c.0;
      resulting_segments = c.1;
    }

unfoldable pub affected_rows : Target → Span → List Reservation → List Reservation
unfolding affected sort_rows
affected_rows t blocked rows = sort_rows (filter (affected t blocked) rows)

-- reservationImpacts
unfoldable pub reservation_impacts : Target → Span → List Reservation → List ReservationImpact
unfolding affected_rows impact_of
reservation_impacts t blocked rows = map (impact_of blocked) (affected_rows t blocked rows)

pub record Summary : Type 0 where
  pub total : ℕ
  pub cancelled : ℕ
  pub trimmed : ℕ
  pub split : ℕ

abbrev pub is_cancel : ReservationImpact → Bool
is_cancel i = elim i.action [ impact_cancel ↦ true | _ ↦ false ]

abbrev pub is_trim : ReservationImpact → Bool
is_trim i = elim i.action [ impact_trim_start ↦ true | impact_trim_end ↦ true | _ ↦ false ]

abbrev pub is_split : ReservationImpact → Bool
is_split i = elim i.action [ impact_split ↦ true | _ ↦ false ]

-- previewSummary
unfoldable pub preview_summary : List ReservationImpact → Summary
preview_summary impacts = record {
  total = length impacts;
  cancelled = length (filter is_cancel impacts);
  trimmed = length (filter is_trim impacts);
  split = length (filter is_split impacts);
}
