-- ===== src/Booking/Split.antt =====
-- The pieces that splitByBusy of server/scheduling.ts leaves, moment by moment.
use allocube.Prelude.{
  ℕ, ◌≡◌, ◌∙◌, refl, Bool, true, not, ◌&&◌, List, [], ◌∷◌, ltb, leb, any, map, if◌then◌else◌, ap,
}
use allocube.Interval.{Span, inside, covered, free_in}
use allocube.Interval.Cover.{covered-free_in}
use allocube.Booking.Segment.{Segment}
use allocube.Booking.Preview.{Conflict, span_of, piece, split_by_busy}

-- The moment lies in the time of a segment.
abbrev pub during : ℕ → Segment → Bool
during t s = leb s.start_at t && ltb t s.end_at

during-piece :
    (t minute : ℕ) (s : Segment) (xs : List Span)
    → any (during t) (map (piece s minute) xs) ≡ covered t xs
unfolding piece
during-piece t minute s [] = refl
during-piece t minute s (x ∷ xs) =
    ap (λ b. if inside t x then true else b) (during-piece t minute s xs)

-- The pieces hold exactly the moments of the segment in which nothing is busy.
pub covered-split_by_busy :
    (t : ℕ) (s : Segment) (busy : List Conflict) (minute : ℕ)
    → any (during t) (split_by_busy s busy minute)
      ≡ (during t s && not (covered t (map span_of busy)))
unfolding split_by_busy
covered-split_by_busy t s busy minute =
    during-piece t minute s (free_in s.start_at s.end_at (map span_of busy))
    ∙ covered-free_in t s.start_at s.end_at (map span_of busy)
