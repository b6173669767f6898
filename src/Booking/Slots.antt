-- ===== src/Booking/Slots.antt =====
-- A slot of a group that no reservation and no window touches, and how getBusyIntervals shows it.
use allocube.Prelude.{
  ℕ, ◌≤◌, ◌<◌, max, ◌≡◌, refl, sym, ◌∙◌, ◌⊎◌, inl, inr, Bool, true, false, ◌||◌, Option, none, some,
  List, [], ◌∷◌, ◌++◌, map, All, filter, elem, arith, Bool-cases,
}
use mathlib.Core.Bool.{false≢true}
use allocube.Store.{Db, Scope, machine, Reservation, Window, confirmed, window_active}
use allocube.Store.Rows.{GroupRow}
use allocube.Interval.{Span, span, inside, covered}
use allocube.Booking.Preview.{
  Conflict, reservation_blocks, window_blocks, of_reservation, of_window, span_of, insert_busy,
  sort_busy, blocking, get_busy_intervals,
}

abbrev pub RowFits : GroupRow → Scope → Reservation → Type 0
RowFits g scope r = (scope ≡ machine) ⊎ ((r.resource_group_id ≡ g.id) ⊎ (r.scope ≡ machine))

abbrev pub SlotFits : Option ℕ → GroupRow → Scope → Type 0
SlotFits none g scope = Unit {0}
SlotFits (some id) g scope = (scope ≡ machine) ⊎ (id ≡ g.id)

-- The reservation, if it is not one of those to be replaced, leaves the slot free.
abbrev pub RowClear : GroupRow → Scope → List ℕ → ℕ → ℕ → Reservation → Type 0
RowClear g scope exclude lo hi r =
    elem r.id exclude ≡ false
    → r.status ≡ confirmed
    → r.machine_id ≡ g.machine_id
    → RowFits g scope r
    → (r.end_at ≤ lo) ⊎ (hi ≤ r.start_at)

abbrev pub WindowClear : GroupRow → Scope → ℕ → ℕ → Window → Type 0
WindowClear g scope lo hi w =
    w.status ≡ window_active
    → w.machine_id ≡ g.machine_id
    → SlotFits w.resource_group_id g scope
    → (w.end_at ≤ lo) ⊎ (hi ≤ w.start_at)

pub record SlotClear (db : Db) (g : GroupRow) (scope : Scope) (exclude : List ℕ) (lo hi : ℕ)
    : Type 0 where
  pub rows : All (RowClear g scope exclude lo hi) db.reservations
  pub windows : All (WindowClear g scope lo hi) db.windows

abbrev pub spans : List Conflict → List Span
spans = map span_of

covered-append :
    (t : ℕ) (xs ys : List Conflict)
    → covered t (spans (xs ++ ys)) ≡ (covered t (spans xs) || covered t (spans ys))
covered-append t [] ys = refl
covered-append t (x ∷ xs) ys = ground (arith, covered-append t xs ys)

covered-insert_busy :
    (t : ℕ) (x : Conflict) (ys : List Conflict)
    → covered t (spans (insert_busy x ys)) ≡ (inside t (span_of x) || covered t (spans ys))
unfolding insert_busy
covered-insert_busy t x [] = ground arith
covered-insert_busy t x (y ∷ ys) = ground (arith, covered-insert_busy t x ys)

covered-sort_busy :
    (t : ℕ) (xs : List Conflict) → covered t (spans (sort_busy xs)) ≡ covered t (spans xs)
unfolding sort_busy
covered-sort_busy t [] = refl
covered-sort_busy t (x ∷ xs) =
    ground (arith, covered-insert_busy t x (sort_busy xs), covered-sort_busy t xs)

-- Sorting does not change which moments are busy.
pub covered-get_busy_intervals :
    (t : ℕ) (db : Db) (g : GroupRow) (scope : Scope) (lo hi : ℕ) (exclude : List ℕ)
    → covered t (spans (get_busy_intervals db g scope lo hi exclude))
      ≡ covered t (spans (blocking db g scope lo hi exclude))
unfolding get_busy_intervals
covered-get_busy_intervals t db g scope lo hi exclude = covered-sort_busy t _

-- No moment of [lo, hi) is in one of the spans.
abbrev pub Untouched : ℕ → ℕ → List Span → Type 0
Untouched lo hi xs = (t : ℕ) → inside t (span lo hi) ≡ true → covered t xs ≡ false

or_false_left : (a b : Bool) → (a || b) ≡ false → a ≡ false
or_false_left true b h = h
or_false_left false b h = refl

or_false_right : (a b : Bool) → (a || b) ≡ false → b ≡ false
or_false_right true b h = absurd (false≢true (sym h))
or_false_right false b h = h

-- What the filter keeps is untouched, row by row.
module _ {A : Type 0} (p : A → Bool) (of : A → Conflict) (lo hi : ℕ) where
  kept-Untouched :
      (xs : List A)
      → Untouched lo hi (spans (map of (filter p xs)))
      → All
          (λ x.
            p x ≡ true → (t : ℕ) → inside t (span lo hi) ≡ true → inside t (span_of (of x)) ≡ false)
          xs
  kept-Untouched [] h = tt
  kept-Untouched (x ∷ xs) h = elim (Bool-cases (p x)) [
    | inl e ↦
        let h' : Untouched lo hi (span_of (of x) ∷ spans (map of (filter p xs))) = rw e at h in
        ((λ _ t k. ground (arith, h' t k)), kept-Untouched xs (λ t k. ground (arith, h' t k)))
    | inr e ↦ ((λ e'. absurd (false≢true (sym e ∙ e'))), kept-Untouched xs (rw e at h))
  ]

-- Two spans of positive length that share no moment lie one behind the other.
pub apart_of_untouched :
    (lo hi a b : ℕ)
    → lo < hi
    → a < b
    → ((t : ℕ) → inside t (span lo hi) ≡ true → inside t (span a b) ≡ false)
    → (b ≤ lo) ⊎ (hi ≤ a)
apart_of_untouched lo hi a b h k u = ground (arith, u (max lo a))

module _ (db : Db) (g : GroupRow) (scope : Scope) (start end lo hi : ℕ) (exclude : List ℕ)
    (u : Untouched lo hi (spans (blocking db g scope start end exclude))) where
  pub untouched_rows :
      All
        (λ r.
          reservation_blocks g scope start end exclude r ≡ true
          → (t : ℕ) → inside t (span lo hi) ≡ true
          → inside t (span_of (of_reservation r)) ≡ false)
        db.reservations
  unfolding blocking
  untouched_rows =
      kept-Untouched (reservation_blocks g scope start end exclude) of_reservation lo hi
        db.reservations λ t k. or_false_left _ _ (sym (covered-append t _ _) ∙ u t k)

  pub untouched_windows :
      All
        (λ w.
          window_blocks g scope start end w ≡ true
          → (t : ℕ) → inside t (span lo hi) ≡ true
          → inside t (span_of (of_window w)) ≡ false)
        db.windows
  unfolding blocking
  untouched_windows =
      kept-Untouched (window_blocks g scope start end) of_window lo hi db.windows λ t k.
        or_false_right
          (covered t (
            spans (
              map of_reservation
                (filter (reservation_blocks g scope start end exclude) db.reservations))))
          _
          (sym (
              covered-append t
                (map of_reservation
                  (filter (reservation_blocks g scope start end exclude) db.reservations))
                (map of_window (filter (window_blocks g scope start end) db.windows)))
            ∙ u t k)
