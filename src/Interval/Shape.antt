-- ===== src/Interval/Shape.antt =====
-- The shape of the lists of the sweep of Interval: order, gaps and bounds.
use allocube.Prelude.{
  ℕ, suc, ◌≤◌, ◌<◌, ◌≡◌, max, true, List, [], ◌∷◌, map, arith, ltb, leb, filter, All, All-filter,
  inl, inr, Bool-cases, ltb→lt, leb→lt,
}
use allocube.Interval.{
  Span, span, nonempty, clip, insert_by_start, sort_by_start, merge_loop, merge_sorted, busy_in,
  free_loop, free_in, merge_time_ranges,
}

-- Sorted by start, from `lo` on, with no empty span and no end behind `hi`.
abbrev pub Ascending : ℕ → List Span → Type 0
Ascending lo [] = Unit {0}
Ascending lo (x ∷ xs) = (lo ≤ x.start) × (x.start < x.end) × Ascending x.start xs

pub insert-Ascending :
    (lo : ℕ) (x : Span) (ys : List Span)
    → lo ≤ x.start
    → x.start < x.end
    → Ascending lo ys
    → Ascending lo (insert_by_start x ys)
unfolding insert_by_start
insert-Ascending lo x [] h k a = (h, k, tt)
insert-Ascending lo x (y ∷ ys) h k a = elim (Bool-cases (leb x.start y.start)) [
  | inl e ↦ rw e (h, k, (ground arith, a.1, a.2))
  | inr e ↦ rw e (a.0, a.1, insert-Ascending y.start x ys (ground arith) k a.2)
]

pub sort-Ascending :
    (xs : List Span) → All (λ s. nonempty s ≡ true) xs → Ascending 0 (sort_by_start xs)
unfolding sort_by_start
sort-Ascending [] h = tt
sort-Ascending (x ∷ xs) h =
    insert-Ascending 0 x (sort_by_start xs) (omega arith) (ground (arith, h.0))
      (sort-Ascending xs h.1)

pub filter-nonempty : (xs : List Span) → All (λ s. nonempty s ≡ true) (filter nonempty xs)
filter-nonempty [] = tt
filter-nonempty (x ∷ xs) = elim (Bool-cases (nonempty x)) [
  | inl e ↦ rw e (e, filter-nonempty xs)
  | inr e ↦ rw e (filter-nonempty xs)
]

pub Ascending-weaken : {lo lo' : ℕ} (xs : List Span) → lo' ≤ lo → Ascending lo xs → Ascending lo' xs
Ascending-weaken [] h a = tt
Ascending-weaken (x ∷ xs) h a = (omega arith, a.1, a.2)

-- Every span ends at `hi` or before.
abbrev pub EndBy : ℕ → List Span → Type 0
EndBy hi = All (λ s. s.end ≤ hi)

insert-All :
    (P : Span → Type 0) (x : Span) (ys : List Span) → P x → All P ys → All P (insert_by_start x ys)
unfolding insert_by_start
insert-All P x [] h a = (h, tt)
insert-All P x (y ∷ ys) h a = elim (Bool-cases (leb x.start y.start)) [
  | inl e ↦ rw e (h, a)
  | inr e ↦ rw e (a.0, insert-All P x ys h a.1)
]

sort-All : (P : Span → Type 0) (xs : List Span) → All P xs → All P (sort_by_start xs)
unfolding sort_by_start
sort-All P [] a = tt
sort-All P (x ∷ xs) a = insert-All P x (sort_by_start xs) a.0 (sort-All P xs a.1)

clip-EndBy : (lo hi : ℕ) (xs : List Span) → EndBy hi (map (clip lo hi) xs)
unfolding clip
clip-EndBy lo hi [] = tt
clip-EndBy lo hi (x ∷ xs) = (omega arith, clip-EndBy lo hi xs)

merge_loop-EndBy :
    (hi : ℕ) (last : Span) (xs : List Span)
    → last.end ≤ hi
    → EndBy hi xs
    → EndBy hi (merge_loop last xs)
unfolding merge_loop
merge_loop-EndBy hi last [] h a = (h, tt)
merge_loop-EndBy hi last (x ∷ xs) h a = elim (Bool-cases (leb x.start last.end)) [
  | inl e ↦
      rw (e, merge_loop)
        (merge_loop-EndBy hi (span last.start (max last.end x.end)) xs (omega arith) a.1)
  | inr e ↦ rw (e, merge_loop) (h, merge_loop-EndBy hi x xs a.0 a.1)
]

merge_sorted-EndBy : (hi : ℕ) (xs : List Span) → EndBy hi xs → EndBy hi (merge_sorted xs)
unfolding merge_sorted
merge_sorted-EndBy hi [] a = tt
merge_sorted-EndBy hi (x ∷ xs) a = merge_loop-EndBy hi x xs a.0 a.1

pub busy_in-EndBy : (lo hi : ℕ) (busy : List Span) → EndBy hi (busy_in lo hi busy)
unfolding busy_in
busy_in-EndBy lo hi busy =
    merge_sorted-EndBy hi _ (
      sort-All (λ s. s.end ≤ hi) _
        (All-filter (λ s. s.end ≤ hi) nonempty _ (clip-EndBy lo hi busy)))

-- No empty span, and a gap of some length between any two neighbours.
abbrev pub Separated : ℕ → List Span → Type 0
Separated lo [] = Unit {0}
Separated lo (x ∷ xs) = (lo ≤ x.start) × (x.start < x.end) × Separated (suc x.end) xs

pub Separated-weaken : {lo lo' : ℕ} (xs : List Span) → lo' ≤ lo → Separated lo xs → Separated lo' xs
Separated-weaken [] h a = tt
Separated-weaken (x ∷ xs) h a = (omega arith, a.1, a.2)

Separated→Ascending : (lo : ℕ) (xs : List Span) → Separated lo xs → Ascending lo xs
Separated→Ascending lo [] a = tt
Separated→Ascending lo (x ∷ xs) a = (
  a.0,
  a.1,
  Separated→Ascending x.start xs (Separated-weaken {lo = suc x.end} xs (omega arith) a.2),
)

merge_loop-Separated :
    (lo : ℕ) (last : Span) (xs : List Span)
    → lo ≤ last.start
    → last.start < last.end
    → Ascending last.start xs
    → Separated lo (merge_loop last xs)
unfolding merge_loop
merge_loop-Separated lo last [] l h a = (l, h, tt)
merge_loop-Separated lo last (x ∷ xs) l h a = elim (Bool-cases (leb x.start last.end)) [
  | inl e ↦
      rw (e, merge_loop)
        (merge_loop-Separated lo (span last.start (max last.end x.end)) xs l (omega arith)
          (Ascending-weaken xs a.0 a.2))
  | inr e ↦
      rw (e, merge_loop) (l, h, merge_loop-Separated (suc last.end) x xs (leb→lt _ _ e) a.1 a.2)
]

merge_sorted-Separated : (xs : List Span) → Ascending 0 xs → Separated 0 (merge_sorted xs)
unfolding merge_sorted
merge_sorted-Separated [] a = tt
merge_sorted-Separated (x ∷ xs) a = merge_loop-Separated 0 x xs a.0 a.1 a.2

-- Merged time ranges are nonempty, ascending, and never touch one another.
pub merge_time_ranges-Separated : (ranges : List Span) → Separated 0 (merge_time_ranges ranges)
unfolding merge_time_ranges
merge_time_ranges-Separated ranges =
    merge_sorted-Separated _ (sort-Ascending _ (filter-nonempty ranges))

pub busy_in-Separated : (lo hi : ℕ) (busy : List Span) → Separated 0 (busy_in lo hi busy)
unfolding busy_in
busy_in-Separated lo hi busy =
    merge_sorted-Separated _ (sort-Ascending _ (filter-nonempty (map (clip lo hi) busy)))

pub busy_in-Ascending : (lo hi : ℕ) (busy : List Span) → Ascending 0 (busy_in lo hi busy)
busy_in-Ascending lo hi busy = Separated→Ascending 0 _ (busy_in-Separated lo hi busy)

free_loop-shape :
    (cursor hi lo : ℕ) (bs : List Span)
    → Ascending lo bs
    → EndBy hi bs
    → Separated cursor (free_loop cursor hi bs) × EndBy hi (free_loop cursor hi bs)
unfolding free_loop
free_loop-shape cursor hi lo [] a h = elim (Bool-cases (ltb cursor hi)) [
  | inl e ↦ rw e ((omega arith, ltb→lt _ _ e, tt), (omega arith, tt))
  | inr e ↦ rw e (tt, tt)
]
free_loop-shape cursor hi lo (b ∷ bs) a h =
    let later = free_loop-shape (max cursor b.end) hi b.start bs a.2 h.1 in
    elim (Bool-cases (ltb cursor b.start)) [
      | inl e ↦ rw e (
        (
          omega arith,
          ltb→lt _ _ e,
          Separated-weaken {lo = max cursor b.end} _ (omega arith) later.0,
        ),
        (omega arith, later.1),
      )
      | inr e ↦ rw e (Separated-weaken {lo = max cursor b.end} _ (omega arith) later.0, later.1)
    ]

-- The free spans are nonempty, ascending and apart, and stay inside the request.
pub free_in-shape :
    (lo hi : ℕ) (busy : List Span)
    → Separated lo (free_in lo hi busy) × EndBy hi (free_in lo hi busy)
unfolding free_in
free_in-shape lo hi busy =
    free_loop-shape lo hi 0 (busy_in lo hi busy) (busy_in-Ascending lo hi busy)
      (busy_in-EndBy lo hi busy)

-- A span of positive length between two bounds.
abbrev pub Within : ℕ → ℕ → Span → Type 0
Within lo hi s = (lo ≤ s.start) × (s.start < s.end) × (s.end ≤ hi)

Separated-Within :
    (lo lo' hi : ℕ) (xs : List Span)
    → lo' ≤ lo
    → Separated lo xs
    → EndBy hi xs
    → All (Within lo' hi) xs
Separated-Within lo lo' hi [] l a h = tt
Separated-Within lo lo' hi (x ∷ xs) l a h =
    ((omega arith, a.1, h.0), Separated-Within (suc x.end) lo' hi xs (omega arith) a.2 h.1)

-- Every free span is a nonempty part of the request.
pub free_in-Within : (lo hi : ℕ) (busy : List Span) → All (Within lo hi) (free_in lo hi busy)
free_in-Within lo hi busy =
    let shape = free_in-shape lo hi busy in
    Separated-Within lo lo hi (free_in lo hi busy) (omega arith) shape.0 shape.1
