-- ===== src/Projection.antt =====
-- The unavailable time that the calendar draws (src/calendar-unavailability.ts): the windows of a
-- machine and of a group, merged, each merged interval with the windows that it comes from.
pub mod Moments
use allocube.Prelude.{
  ℕ, ◌≡◌, max, Bool, true, false, not, ◌&&◌, ◌||◌, Option, none, some, List, [], ◌∷◌, ◌++◌, map,
  any, ltb, leb, ◌==◌, if◌then◌else◌,
}
use allocube.Interval.{Span, span, nonempty}
use allocube.Store.{
  Scope, resource_group, machine, WindowKind, planned, long_term, WindowStatus, window_active,
  window_cancelled, is_planned,
}
use allocube.Booking.Overlap.{same_scope}
use allocube.Drafts.{Instant, times_of}

-- What is read of an UnavailabilityWindow.
pub record UnavailabilityWindow : Type 0 where
  pub id : ℕ
  pub kind : WindowKind
  pub start_at : Instant
  pub end_at : Instant
  pub status : WindowStatus

-- ProjectedUnavailabilitySource
pub record Source : Type 0 where
  pub scope : Scope
  pub window : UnavailabilityWindow

-- A source whose times are dates, with them.
pub record Dated : Type 0 where
  pub source : Source
  pub times : Span

-- ProjectedUnavailability; its times are those of windows whose times are dates.
pub record ProjectedUnavailability : Type 0 where
  pub times : Span
  pub sources : List Source

abbrev pub same_kind : WindowKind → WindowKind → Bool
same_kind planned k = is_planned k
same_kind long_term k = not (is_planned k)

abbrev pub window_is_active : WindowStatus → Bool
window_is_active window_active = true
window_is_active window_cancelled = false

-- The condition of the filter on the kind and the status.
unfoldable pub wanted : WindowKind → UnavailabilityWindow → Bool
wanted kind w = same_kind w.kind kind && window_is_active w.status

-- `filter`: sources of the kind that are active, with dates that are apart and in order.
unfoldable pub keep_dated : Source → Option Span → List Dated → List Dated
keep_dated s none rest = rest
keep_dated s (some t) rest = if nonempty t then record { source = s; times = t } ∷ rest else rest

unfoldable pub dated : WindowKind → List Source → List Dated
unfolding wanted keep_dated
dated kind [] = []
dated kind (s ∷ more) =
    let rest = dated kind more in
    if wanted kind s.window
    then keep_dated s (times_of s.window.start_at s.window.end_at) rest
    else rest

-- `sort`: by start, then by end; an earlier entry stays before an equal one.
abbrev pub at_most : Span → Span → Bool
at_most a b = if a.start == b.start then leb a.end b.end else leb a.start b.start

unfoldable pub insert_source : Dated → List Dated → List Dated
insert_source x [] = x ∷ []
insert_source x (y ∷ ys) =
    let rest = insert_source x ys in if at_most x.times y.times then x ∷ y ∷ ys else y ∷ rest

unfoldable pub sort_sources : List Dated → List Dated
unfolding insert_source
sort_sources [] = []
sort_sources (x ∷ xs) = insert_source x (sort_sources xs)

abbrev pub same_source : Source → Source → Bool
same_source s existing = same_scope existing.scope s.scope && existing.window.id == s.window.id

abbrev pub alone : Dated → ProjectedUnavailability
alone x = record { times = x.times; sources = x.source ∷ [] }

-- The source joins the interval before it.
unfoldable pub joined : ProjectedUnavailability → Dated → ProjectedUnavailability
joined previous x = record {
  times = span previous.times.start (max previous.times.end x.times.end);
  sources =
      if any (same_source x.source) previous.sources
      then previous.sources
      else previous.sources ++ x.source ∷ [];
}

-- The loop over the sorted sources; `previous` is the last entry of `merged`.
unfoldable pub project_loop : ProjectedUnavailability → List Dated → List ProjectedUnavailability
unfolding joined
project_loop previous [] = previous ∷ []
project_loop previous (x ∷ xs) = elim (leb x.times.start previous.times.end) [
  | true ↦ project_loop (joined previous x) xs
  | false ↦ previous ∷ project_loop (alone x) xs
]

unfoldable pub project_sorted : List Dated → List ProjectedUnavailability
unfolding project_loop
project_sorted [] = []
project_sorted (x ∷ xs) = project_loop (alone x) xs

abbrev pub source_of : Scope → UnavailabilityWindow → Source
source_of scope w = record { scope = scope; window = w }

abbrev pub sources_of : List UnavailabilityWindow → List UnavailabilityWindow → List Source
sources_of machine_windows group_windows =
    map (source_of machine) machine_windows ++ map (source_of resource_group) group_windows

unfoldable pub merge_projected_windows :
    List UnavailabilityWindow
    → List UnavailabilityWindow
    → WindowKind
    → List ProjectedUnavailability
unfolding dated sort_sources project_sorted
merge_projected_windows machine_windows group_windows kind =
    project_sorted (sort_sources (dated kind (sources_of machine_windows group_windows)))

unfoldable pub merge_projected_unavailability :
    List UnavailabilityWindow → List UnavailabilityWindow → List ProjectedUnavailability
unfolding merge_projected_windows
merge_projected_unavailability machine_windows group_windows =
    merge_projected_windows machine_windows group_windows planned

unfoldable pub merge_projected_disable_history :
    List UnavailabilityWindow → List UnavailabilityWindow → List ProjectedUnavailability
unfolding merge_projected_windows
merge_projected_disable_history machine_windows group_windows =
    merge_projected_windows machine_windows group_windows long_term
