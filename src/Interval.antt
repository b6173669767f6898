-- ===== src/Interval.antt =====
-- Half-open time spans [start, end) in milliseconds, and the sweep that the program writes out
-- three times: server/scheduling.ts (splitByBusy), src/calendar-state.ts (subtractBusyTimeRanges,
-- mergeTimeRanges); and the intersection of src/calendar-interval.ts.
pub mod Cover
pub mod Shape
pub mod Tests
use allocube.Prelude.{
  ℕ, ◌≤◌, ◌<◌, min, max, Bool, true, false, ◌&&◌, Option, none, some, List, [], ◌∷◌, map, ltb, leb,
  filter, any, if◌then◌else◌,
}

pub record Span : Type 0 where
  pub start : ℕ
  pub end : ℕ

abbrev pub span : ℕ → ℕ → Span
span a b = record { start = a; end = b }

-- `t` lies in the span; it lies in one of the spans.
abbrev pub inside : ℕ → Span → Bool
inside t s = leb s.start t && ltb t s.end

abbrev pub covered : ℕ → List Span → Bool
covered t = any (inside t)

abbrev pub nonempty : Span → Bool
nonempty s = ltb s.start s.end

-- The part of a busy span that lies in the request.
unfoldable pub clip : ℕ → ℕ → Span → Span
clip lo hi s = span (max lo s.start) (min hi s.end)

-- `sort((a, b) => a.start - b.start)` is stable: an earlier entry stays before an equal one.
unfoldable pub insert_by_start : Span → List Span → List Span
insert_by_start x [] = x ∷ []
insert_by_start x (y ∷ ys) =
    let rest = insert_by_start x ys in if leb x.start y.start then x ∷ y ∷ ys else y ∷ rest

unfoldable pub sort_by_start : List Span → List Span
unfolding insert_by_start
sort_by_start [] = []
sort_by_start (x ∷ xs) = insert_by_start x (sort_by_start xs)

-- The loop over the sorted spans; `last` is the last entry of `merged`, which may still grow.
unfoldable pub merge_loop : Span → List Span → List Span
merge_loop last [] = last ∷ []
merge_loop last (x ∷ xs) = elim (leb x.start last.end) [
  | true ↦ merge_loop (span last.start (max last.end x.end)) xs
  | false ↦ last ∷ merge_loop x xs
]

unfoldable pub merge_sorted : List Span → List Span
unfolding merge_loop
merge_sorted [] = []
merge_sorted (x ∷ xs) = merge_loop x xs

-- The busy time inside the request: clipped, without empty spans, sorted and merged.
unfoldable pub busy_in : ℕ → ℕ → List Span → List Span
unfolding clip sort_by_start merge_sorted
busy_in lo hi busy = merge_sorted (sort_by_start (filter nonempty (map (clip lo hi) busy)))

-- The loop that walks `cursor` over the merged busy spans.
unfoldable pub free_loop : ℕ → ℕ → List Span → List Span
free_loop cursor hi [] = if ltb cursor hi then span cursor hi ∷ [] else []
free_loop cursor hi (b ∷ bs) =
    let rest = free_loop (max cursor b.end) hi bs in
    if ltb cursor b.start then span cursor b.start ∷ rest else rest

-- The free time of the request.
unfoldable pub free_in : ℕ → ℕ → List Span → List Span
unfolding busy_in free_loop
free_in lo hi busy = free_loop lo hi (busy_in lo hi busy)

-- subtractBusyTimeRanges: an empty request has no free time.
unfoldable pub subtract_busy_time_ranges : Span → List Span → List Span
unfolding free_in
subtract_busy_time_ranges requested busy =
    if leb requested.end requested.start then [] else free_in requested.start requested.end busy

-- mergeTimeRanges
unfoldable pub merge_time_ranges : List Span → List Span
unfolding sort_by_start merge_sorted
merge_time_ranges ranges = merge_sorted (sort_by_start (filter nonempty ranges))

-- intersectCalendarInterval
unfoldable pub intersect_calendar_interval : Span → Span → Option Span
intersect_calendar_interval interval range =
    if leb interval.end interval.start
    then none
    else if leb range.end range.start
    then none
    else let clipped : Span = span (max interval.start range.start) (min interval.end range.end) in
      if nonempty clipped then some clipped else none
