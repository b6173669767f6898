-- ===== src/Interval/Cover.antt =====
-- Which moments the sweep of Interval keeps: the instants of the result, one by one.
use allocube.Prelude.{
  ℕ, ◌≤◌, ◌<◌, ◌≡◌, refl, ◌∙◌, ap, max, Bool, true, false, not, ◌&&◌, ◌||◌, List, [], ◌∷◌, map,
  arith, ltb, leb, filter, if◌then◌else◌, inl, inr, Bool-cases, ltb→lt, ltb→le,
}
use allocube.Interval.Shape.{
  Ascending, EndBy, filter-nonempty, sort-Ascending, Ascending-weaken, busy_in-Ascending,
  busy_in-EndBy,
}
use allocube.Interval.{
  Span, span, inside, covered, nonempty, clip, insert_by_start, sort_by_start, merge_loop,
  merge_sorted, busy_in, free_loop, free_in, merge_time_ranges,
}

covered-insert :
    (t : ℕ) (x : Span) (ys : List Span)
    → covered t (insert_by_start x ys) ≡ (inside t x || covered t ys)
unfolding insert_by_start
covered-insert t x [] = ground arith
covered-insert t x (y ∷ ys) = ground (arith, covered-insert t x ys)

covered-sort : (t : ℕ) (xs : List Span) → covered t (sort_by_start xs) ≡ covered t xs
unfolding sort_by_start
covered-sort t [] = refl
covered-sort t (x ∷ xs) = ground (arith, covered-insert t x (sort_by_start xs), covered-sort t xs)

covered-filter : (t : ℕ) (xs : List Span) → covered t (filter nonempty xs) ≡ covered t xs
covered-filter t [] = refl
covered-filter t (x ∷ xs) = ground (arith, covered-filter t xs)

covered-clip :
    (t lo hi : ℕ) (xs : List Span)
    → covered t (map (clip lo hi) xs) ≡ (inside t (span lo hi) && covered t xs)
unfolding clip
covered-clip t lo hi [] = ground arith
covered-clip t lo hi (x ∷ xs) = ground (arith, covered-clip t lo hi xs)

covered-merge_loop :
    (t : ℕ) (last : Span) (xs : List Span)
    → last.start < last.end
    → Ascending last.start xs
    → covered t (merge_loop last xs) ≡ (inside t last || covered t xs)
unfolding merge_loop
covered-merge_loop t last [] h a = ground arith
covered-merge_loop t last (x ∷ xs) h a = elim (Bool-cases (leb x.start last.end)) [
  | inl e ↦
      let grown : Span = span last.start (max last.end x.end) in
      let ih : covered t (merge_loop grown xs) ≡ (inside t grown || covered t xs) =
        covered-merge_loop t grown xs (omega arith) (Ascending-weaken xs a.0 a.2) in
      rw (e, merge_loop) (ih ∙ ground arith)
  | inr e ↦ rw (e, merge_loop) (ground (arith, covered-merge_loop t x xs a.1 a.2))
]

pub covered-merge_sorted :
    (t : ℕ) (xs : List Span) → Ascending 0 xs → covered t (merge_sorted xs) ≡ covered t xs
unfolding merge_sorted
covered-merge_sorted t [] a = refl
covered-merge_sorted t (x ∷ xs) a = covered-merge_loop t x xs a.1 a.2 ∙ ground arith

-- Merging time ranges keeps exactly the moments of the ranges.
pub covered-merge_time_ranges :
    (t : ℕ) (ranges : List Span) → covered t (merge_time_ranges ranges) ≡ covered t ranges
unfolding merge_time_ranges
covered-merge_time_ranges t ranges =
    covered-merge_sorted t _ (sort-Ascending _ (filter-nonempty ranges))
    ∙ covered-sort t _
    ∙ covered-filter t ranges

pub covered-busy_in :
    (t lo hi : ℕ) (busy : List Span)
    → covered t (busy_in lo hi busy) ≡ (inside t (span lo hi) && covered t busy)
unfolding busy_in
covered-busy_in t lo hi busy =
    covered-merge_sorted t _ (sort-Ascending _ (filter-nonempty (map (clip lo hi) busy)))
    ∙ covered-sort t _
    ∙ covered-filter t _
    ∙ covered-clip t lo hi busy

covered_below : (t lo : ℕ) (bs : List Span) → Ascending lo bs → t < lo → covered t bs ≡ false
covered_below t lo [] a h = refl
covered_below t lo (b ∷ bs) a h = ground (arith, covered_below t b.start bs a.2)

-- One round of the sweep, at one moment: `c` says whether the later spans hold it.
sweep_gap :
    (t cursor hi s e : ℕ) (c : Bool)
    → cursor < s
    → s < e
    → e ≤ hi
    → (t < s → c ≡ false)
    → (inside t (span cursor s) || (inside t (span (max cursor e) hi) && not c))
      ≡ (inside t (span cursor hi) && not (inside t (span s e) || c))
sweep_gap t cursor hi s e true g h k later = ground (arith, later)
sweep_gap t cursor hi s e false g h k later = ground arith

sweep_no_gap :
    (t cursor hi s e : ℕ) (c : Bool)
    → s ≤ cursor
    → s < e
    → e ≤ hi
    → (inside t (span (max cursor e) hi) && not c)
      ≡ (inside t (span cursor hi) && not (inside t (span s e) || c))
sweep_no_gap t cursor hi s e true g h k = ground arith
sweep_no_gap t cursor hi s e false g h k = ground arith

any_or : (b : Bool) (c : Bool) → (if b then true else c) ≡ (b || c)
any_or true c = refl
any_or false c = refl

covered-free_loop :
    (t cursor hi lo : ℕ) (bs : List Span)
    → Ascending lo bs
    → EndBy hi bs
    → covered t (free_loop cursor hi bs) ≡ (inside t (span cursor hi) && not (covered t bs))
unfolding free_loop
covered-free_loop t cursor hi lo [] a h = ground arith
covered-free_loop t cursor hi lo (b ∷ bs) a h =
    let ih : covered t (free_loop (max cursor b.end) hi bs)
        ≡ (inside t (span (max cursor b.end) hi) && not (covered t bs)) =
      covered-free_loop t (max cursor b.end) hi b.start bs a.2 h.1 in
    elim (Bool-cases (ltb cursor b.start)) [
      | inl e ↦
          rw (e, any_or (inside t (span cursor b.start)) _, any_or (inside t b) _, ih)
            (sweep_gap t cursor hi b.start b.end (covered t bs) (ltb→lt _ _ e) a.1 h.0
              (covered_below t b.start bs a.2))
      | inr e ↦
          rw (e, any_or (inside t b) _, ih)
            (sweep_no_gap t cursor hi b.start b.end (covered t bs) (ltb→le _ _ e) a.1 h.0)
    ]

-- The sweep keeps exactly the moments of the request that no busy span holds.
pub covered-free_in :
    (t lo hi : ℕ) (busy : List Span)
    → covered t (free_in lo hi busy) ≡ (inside t (span lo hi) && not (covered t busy))
unfolding free_in
covered-free_in t lo hi busy =
    covered-free_loop t lo hi 0 (busy_in lo hi busy) (busy_in-Ascending lo hi busy)
      (busy_in-EndBy lo hi busy)
    ∙ ap (λ c. inside t (span lo hi) && not c) (covered-busy_in t lo hi busy)
    ∙ and_not_and (inside t (span lo hi)) (covered t busy)
  where
    and_not_and : (b c : Bool) → (b && not (b && c)) ≡ (b && not c)
    and_not_and true c = refl
    and_not_and false c = refl
