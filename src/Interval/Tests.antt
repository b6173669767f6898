-- ===== src/Interval/Tests.antt =====
-- Runs of the sweep on small spans.
use allocube.Prelude.{◌≡◌, refl, List, [], ◌∷◌}
use allocube.Interval.{Span, span, subtract_busy_time_ranges, merge_time_ranges}

abbrev busy : List Span
busy = span 40 50 ∷ span 10 20 ∷ span 15 25 ∷ span 70 70 ∷ span 90 200 ∷ []

subtract_runs : subtract_busy_time_ranges (span 12 100) busy ≡ span 25 40 ∷ span 50 90 ∷ []
unfolding subtract_busy_time_ranges
subtract_runs = refl

merge_runs : merge_time_ranges busy ≡ span 10 25 ∷ span 40 50 ∷ span 90 200 ∷ []
unfolding merge_time_ranges
merge_runs = refl
