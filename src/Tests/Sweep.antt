-- ===== src/Tests/Sweep.antt =====
-- The sweep over spans, at concrete spans.
use allocube.Prelude.{◌≡◌, ◌&&◌, not, List, [], ◌∷◌, refl, any, map, All, true, none}
use allocube.Store.{resource_group, scheduled}
use allocube.Store.Error.{ok}
use allocube.Booking.Segment.{Segment}
use allocube.Booking.Preview.{
  Conflict, PreviewItem, by_reservation, by_unavailability, span_of, split_by_busy,
  preview_normalized,
}
use allocube.Booking.Overlap.{usable_segments}
use allocube.Booking.Split.{during, covered-split_by_busy}
use allocube.Booking.Usable.{Usable, preview_normalized-Usable}
use allocube.Tests.Data.{at, value_or, small_db, small_db-IsConsistent}
use allocube.Interval.{Span, span, inside, covered, free_in, merge_time_ranges}
use allocube.Interval.Cover.{covered-free_in}
use allocube.Interval.Shape.{Separated, EndBy, free_in-shape, merge_time_ranges-Separated}

abbrev busy : List Span
busy = span 40 50 ∷ span 10 20 ∷ span 15 25 ∷ span 90 200 ∷ []

covered-free_in_example :
    covered 30 (free_in 12 100 busy) ≡ (inside 30 (span 12 100) && not (covered 30 busy))
covered-free_in_example = covered-free_in 30 12 100 busy

merge_time_ranges-Separated_example : Separated 0 (merge_time_ranges busy)
merge_time_ranges-Separated_example = merge_time_ranges-Separated busy

free_in-shape_example : Separated 12 (free_in 12 100 busy) × EndBy 100 (free_in 12 100 busy)
free_in-shape_example = free_in-shape 12 100 busy

-- A request of 12 to 100, in milliseconds.
abbrev asked : Segment
asked = record {
  scope = resource_group;
  machine_id = none;
  resource_group_id = 10;
  start_mode = scheduled;
  start_at = 12;
  end_at = 100;
  title = [];
  purpose = [];
  note = [];
}

abbrev conflicts : List Conflict
conflicts =
    record { type = by_reservation; start_at = 40; end_at = 50 }
    ∷ record { type = by_unavailability; start_at = 10; end_at = 20 }
    ∷ []

covered-split_by_busy_example :
    any (during 30) (split_by_busy asked conflicts 0)
    ≡ (during 30 asked && not (covered 30 (map span_of conflicts)))
covered-split_by_busy_example = covered-split_by_busy 30 asked conflicts 0

-- The request of minutes 15 to 90, cut by the reservation and the window.
abbrev wide : Segment
wide = record asked { start_at = at 15; end_at = at 90 }

abbrev wide_item : PreviewItem
unfolding preview_normalized
wide_item =
    value_or (record { input = wide; available = true; conflicts = []; split_segments = [] })
      (preview_normalized small_db [] 600000 wide)

wide_previews : preview_normalized small_db [] 600000 wide ≡ ok wide_item
unfolding preview_normalized
wide_previews = refl

preview_normalized-Usable_example : All (Usable small_db []) (usable_segments wide_item)
preview_normalized-Usable_example =
    preview_normalized-Usable small_db [] 600000 wide wide_item
      (small_db-IsConsistent.proper, small_db-IsConsistent.windows_proper) wide_previews
