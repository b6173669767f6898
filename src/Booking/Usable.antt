-- ===== src/Booking/Usable.antt =====
-- What a preview promises: every segment that it offers is a free slot.
use allocube.Prelude.{
  ℕ, ◌+◌, ◌*◌, ◌≤◌, ◌<◌, ◌≡◌, refl, sym, ◌∙◌, subst, inl, inr, Bool, true, false, not, ◌&&◌, Option,
  none, some, List, [], ◌∷◌, All, All-mono, All-zip2, elem, arith, leb, Bool-cases, Option-cases,
  leb→le, leb→lt, some_inj, All-map,
}
use allocube.Store.{Db, day_ms, Scope, Reservation, Window, confirmed, window_active}
use allocube.Store.Error.{ok, ok_inj, guard-eq-ok, >>=-eq-ok}
use allocube.Store.Rows.{GroupRow, get_group}
use allocube.Interval.{Span, span, inside, covered, free_in}
use allocube.Interval.Shape.{Within, free_in-Within}
use allocube.Interval.Cover.{covered-free_in}
use allocube.Schedule.{Proper}
use allocube.Booking.Segment.{Segment, validate_segment_times}
use allocube.Booking.Slots.{
  RowFits, SlotFits, RowClear, WindowClear, SlotClear, Untouched, spans, apart_of_untouched,
  covered-get_busy_intervals, untouched_rows, untouched_windows,
}
use allocube.Booking.Preview.{
  Conflict, PreviewItem, reservation_blocks, window_blocks, of_reservation, of_window, span_of,
  blocking, get_busy_intervals, piece, split_by_busy, bookable, busy_item, unavailable_item,
  group_item, preview_in_group, preview_normalized,
}
use allocube.Booking.Overlap.{usable_segments}

-- The rows of a database, as far as this file reads them.
abbrev pub ProperRows : Db → Type 0
ProperRows db = All Proper db.reservations × All (λ w. w.start_at < w.end_at) db.windows

module _ (db : Db) (proper : ProperRows db) (g : GroupRow) (scope : Scope) (exclude : List ℕ)
    (start end lo hi : ℕ) (later : start ≤ lo) (some_time : lo < hi) (sooner : hi ≤ end) where
  row_blocks :
      (r : Reservation)
      → elem r.id exclude ≡ false
      → r.status ≡ confirmed
      → r.machine_id ≡ g.machine_id
      → RowFits g scope r
      → r.start_at < hi
      → lo < r.end_at
      → reservation_blocks g scope start end exclude r ≡ true
  unfolding reservation_blocks
  row_blocks r x c m (inl e) a b = ground arith
  row_blocks r x c m (inr (inl e)) a b = ground arith
  row_blocks r x c m (inr (inr e)) a b = ground arith

  row_clear :
      (r : Reservation)
      → Proper r
      → (reservation_blocks g scope start end exclude r ≡ true
          → (t : ℕ) → inside t (span lo hi) ≡ true
          → inside t (span_of (of_reservation r)) ≡ false)
      → RowClear g scope exclude lo hi r
  row_clear r p u x c m f = elim (Bool-cases (leb hi r.start_at)) [
    | inl e ↦ inr (leb→le _ _ e)
    | inr e ↦ elim (Bool-cases (leb r.end_at lo)) [
      | inl e' ↦ inl (leb→le _ _ e')
      | inr e' ↦
          apart_of_untouched lo hi r.start_at r.end_at some_time (p c)
            (u (row_blocks r x c m f (leb→lt _ _ e) (leb→lt _ _ e')))
    ]
  ]

  window_blocks_slot :
      (w : Window) (o : Option ℕ)
      → w.resource_group_id ≡ o
      → w.status ≡ window_active
      → w.machine_id ≡ g.machine_id
      → SlotFits o g scope
      → w.start_at < hi
      → lo < w.end_at
      → window_blocks g scope start end w ≡ true
  unfolding window_blocks
  window_blocks_slot w none o c m f a b = ground arith
  window_blocks_slot w (some id) o c m (inl e) a b = ground arith
  window_blocks_slot w (some id) o c m (inr e) a b = ground arith

  window_clear :
      (w : Window)
      → w.start_at < w.end_at
      → (window_blocks g scope start end w ≡ true
          → (t : ℕ) → inside t (span lo hi) ≡ true
          → inside t (span_of (of_window w)) ≡ false)
      → WindowClear g scope lo hi w
  window_clear w p u c m f = elim (Bool-cases (leb hi w.start_at)) [
    | inl e ↦ inr (leb→le _ _ e)
    | inr e ↦ elim (Bool-cases (leb w.end_at lo)) [
      | inl e' ↦ inl (leb→le _ _ e')
      | inr e' ↦
          apart_of_untouched lo hi w.start_at w.end_at some_time p
            (u (window_blocks_slot w w.resource_group_id refl c m f (leb→lt _ _ e) (leb→lt _ _ e')))
    ]
  ]

  -- A part of the request that no busy interval touches is a free slot.
  pub SlotClear-of_Untouched :
      Untouched lo hi (spans (get_busy_intervals db g scope start end exclude))
      → SlotClear db g scope exclude lo hi
  SlotClear-of_Untouched u = record {
    rows =
        All-zip2 row_clear db.reservations proper.0
          (untouched_rows db g scope start end lo hi exclude raw);
    windows =
        All-zip2 window_clear db.windows proper.1
          (untouched_windows db g scope start end lo hi exclude raw);
  }
    where
      raw : Untouched lo hi (spans (blocking db g scope start end exclude))
      raw t k = sym (covered-get_busy_intervals t db g scope start end exclude) ∙ u t k

-- A segment that may be written: it takes time, and if its group is there, its slot is free.
pub record Usable (db : Db) (exclude : List ℕ) (s : Segment) : Type 0 where
  pub some_time : s.start_at < s.end_at
  pub clear :
      (g : GroupRow)
      → get_group db.catalog s.resource_group_id ≡ some g
      → SlotClear db g s.scope exclude s.start_at s.end_at

-- Each span of a list is covered by the list.
self-covered : (xs : List Span) → All (λ x. (t : ℕ) → inside t x ≡ true → covered t xs ≡ true) xs
self-covered [] = tt
self-covered (x ∷ xs) =
    ((λ t h. rw h), All-mono _ _ xs (λ y k t h. ground (arith, k t h)) (self-covered xs))

and_true-not : (a b c : Bool) → c ≡ (a && not b) → c ≡ true → b ≡ false
and_true-not true true c e h = sym h ∙ e
and_true-not false true c e h = sym h ∙ e
and_true-not a false c e h = refl

module _ (db : Db) (proper : ProperRows db) (g : GroupRow) (exclude : List ℕ) (minute : ℕ) where
  abbrev busy_of : Segment → List Conflict
  busy_of s = get_busy_intervals db g s.scope s.start_at s.end_at exclude

  pub Usable-of_no_busy :
      (s : Segment)
      → get_group db.catalog s.resource_group_id ≡ some g
      → s.start_at < s.end_at
      → busy_of s ≡ []
      → Usable db exclude s
  Usable-of_no_busy s found h e = record {
    some_time = h;
    clear = λ g' found'.
        subst (λ k. SlotClear db k s.scope exclude s.start_at s.end_at)
          (some_inj (sym found ∙ found'))
          (SlotClear-of_Untouched db proper g s.scope exclude s.start_at s.end_at s.start_at
            s.end_at (omega arith) h (omega arith) (λ t k. rw e refl));
  }

  -- Every piece that splitByBusy leaves is usable.
  Usable-pieces :
      (s : Segment)
      → get_group db.catalog s.resource_group_id ≡ some g
      → All (Usable db exclude) (split_by_busy s (busy_of s) minute)
  unfolding split_by_busy piece
  Usable-pieces s found = All-map (Usable db exclude) (piece s minute) free (
      All-zip2 one free (free_in-Within s.start_at s.end_at (spans (busy_of s)))
        (self-covered free))
    where
      free : List Span
      free = free_in s.start_at s.end_at (spans (busy_of s))

      one :
          (f : Span)
          → Within s.start_at s.end_at f
          → ((t : ℕ) → inside t f ≡ true → covered t free ≡ true)
          → Usable db exclude (piece s minute f)
      one f w c = record {
        some_time = w.1;
        clear = λ g' found'.
            subst (λ k. SlotClear db k s.scope exclude f.start f.end)
              (some_inj (sym found ∙ found'))
              (SlotClear-of_Untouched db proper g s.scope exclude s.start_at s.end_at f.start f.end
                w.0 w.1 w.2
                λ t k.
                  and_true-not _ (covered t (spans (busy_of s))) _
                    (covered-free_in t s.start_at s.end_at (spans (busy_of s))) (c t k));
      }

  Usable-busy_item :
      (s : Segment)
      → get_group db.catalog s.resource_group_id ≡ some g
      → s.start_at < s.end_at
      → (busy : List Conflict) → busy_of s ≡ busy
      → All (Usable db exclude) (usable_segments (busy_item s busy minute))
  unfolding busy_item
  Usable-busy_item s found h [] e = (Usable-of_no_busy s found h e, tt)
  Usable-busy_item s found h (c ∷ cs) e =
      subst (λ b. All (Usable db exclude) (split_by_busy s b minute)) e (Usable-pieces s found)

  Usable-group_item :
      (s : Segment)
      → get_group db.catalog s.resource_group_id ≡ some g
      → s.start_at < s.end_at
      → All (Usable db exclude) (usable_segments (group_item db exclude minute s g))
  unfolding group_item
  Usable-group_item s found h = elim (Bool-cases (bookable db.catalog s.scope g)) [
    | inl b ↦
        rw b
          (Usable-busy_item (record s { machine_id = some g.machine_id }) found h (busy_of s) refl)
    | inr b ↦ rw b (unfold unavailable_item in tt)
  ]

  Usable-in_group :
      (s : Segment) (item : PreviewItem)
      → get_group db.catalog s.resource_group_id ≡ some g
      → s.start_at < s.end_at
      → preview_in_group db exclude minute s g ≡ ok item
      → All (Usable db exclude) (usable_segments item)
  unfolding preview_in_group
  Usable-in_group s item found h e =
      subst (λ i. All (Usable db exclude) (usable_segments i))
        (ok_inj (guard-eq-ok _ _ (ok (group_item db exclude minute s g)) e).1)
        (Usable-group_item s found h)

pub validate-positive :
    (db : Db) (s : Segment) (minute : ℕ) (u : Unit {0})
    → validate_segment_times db.settings s minute ≡ ok u
    → (s.start_at < s.end_at)
      × (minute ≤ s.start_at)
      × (s.end_at ≤ minute + db.settings.advance_days * day_ms)
unfolding validate_segment_times
validate-positive db s minute u e = ground arith

-- Where all rows have a positive length, every segment that a preview offers, whole or in parts,
-- has a positive length and meets no confirmed reservation, other than the
-- excluded ones, and no active window of its target.
pub preview_normalized-Usable :
    (db : Db) (exclude : List ℕ) (minute : ℕ) (s : Segment) (item : PreviewItem)
    → ProperRows db
    → preview_normalized db exclude minute s ≡ ok item
    → All (Usable db exclude) (usable_segments item)
unfolding preview_normalized
preview_normalized-Usable db exclude minute s item proper e =
    let (u, valid, rest) = >>=-eq-ok (validate_segment_times db.settings s minute) _ e in
    let positive = (validate-positive db s minute u valid).0 in
    elim (Option-cases (get_group db.catalog s.resource_group_id)) [
      | inl gone ↦
          subst (λ i. All (Usable db exclude) (usable_segments i)) (ok_inj (rw gone at rest))
            (unfold unavailable_item in tt)
      | inr (g, found) ↦
          Usable-in_group db proper g exclude minute s item found positive (rw found at rest)
    ]
