-- ===== src/Maintenance/Classify.antt =====
-- What classifyImpact leaves of a reservation, and the rows that applyReservationImpacts writes.
use allocube.Prelude.{
  ℕ, ◌<◌, ◌≡◌, inl, inr, not, ◌&&◌, List, [], ◌∷◌, arith, leb, Bool-cases, leb→lt,
}
use allocube.Interval.{Span, span, inside, covered}
use allocube.Maintenance.Impact.{
  ImpactAction, impact_cancel, impact_trim_start, impact_trim_end, impact_split, classify_impact,
}

-- The span and what blocks it, which overlap.
abbrev pub Meets : ℕ → ℕ → Span → Type 0
Meets start end b = (start < end) × (b.start < b.end) × (start < b.end) × (b.start < end)

-- The four cases, with the bounds that each has.
pub data Classified (start end : ℕ) (b : Span) : ImpactAction → List Span → Type 0 where
  as_cancel : Classified start end b impact_cancel []
  as_trim_start : b.end < end → Classified start end b impact_trim_start (span b.end end ∷ [])
  as_trim_end : start < b.start → Classified start end b impact_trim_end (span start b.start ∷ [])
  as_split :
      start < b.start
      → b.end < end
      → Classified start end b impact_split (span start b.start ∷ span b.end end ∷ [])

pub classify_impact-Classified :
    (start end : ℕ) (b : Span)
    → let c = classify_impact start end b in Classified start end b c.0 c.1
unfolding classify_impact
classify_impact-Classified start end b = elim (Bool-cases (leb b.start start)) [
  | inl before ↦ elim (Bool-cases (leb end b.end)) [
    | inl after ↦ rw (before, after) as_cancel
    | inr after ↦ rw (before, after) (as_trim_start (leb→lt _ _ after))
  ]
  | inr before ↦ elim (Bool-cases (leb end b.end)) [
    | inl after ↦ rw (before, after) (as_trim_end (leb→lt _ _ before))
    | inr after ↦ rw (before, after) (as_split (leb→lt _ _ before) (leb→lt _ _ after))
  ]
]

-- What stays of a reservation that meets a blocked span are exactly its moments outside that span.
pub covered-classify_impact :
    (t start end : ℕ) (b : Span)
    → Meets start end b
    → covered t (classify_impact start end b).1 ≡ (inside t (span start end) && not (inside t b))
unfolding classify_impact
covered-classify_impact t start end b m = ground arith
