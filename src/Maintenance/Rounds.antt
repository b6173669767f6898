-- ===== src/Maintenance/Rounds.antt =====
-- The rounds of applyReservationImpacts keep the loop's invariant, whatever the action of each.
use allocube.Prelude.{
  ℕ, suc, ◌≤◌, ◌≡◌, inl, inr, refl, sym, subst, false, Option, none, some, List, [], ◌∷◌, arith,
  ◌==◌, map, All, All-mono,
}
use allocube.Store.{
  Db, Reservation, Window, Adjustment, trim_start, trim_end, split, confirmed, add_audit,
  is_confirmed, reservation_split_unavailability, reservation_adjust_unavailability,
}
use allocube.Store.Error.{
  ok, ◌>>=◌, ◌>>◌, or_fail, ok_inj, >>=-eq-ok, guard, guard-true, reservations_changed,
}
use allocube.Store.Rows.{find_reservation, update_reservation, insert_reservation}
use allocube.Interval.{Span, span}
use allocube.Schedule.{Apart, Clear, Proper, Homed, WindowFits}
use allocube.Schedule.Narrow.{Narrow, Apart-narrow_right, All-Clear-narrow}
use allocube.Schedule.Update.{All-find, All-replace}
use allocube.Schedule.Find.{AllPairs-find}
use allocube.Schedule.Keep.{unique-separates, Apart-sym}
use allocube.Maintenance.Impact.{ImpactAction, impact_of}
use allocube.Maintenance.Apply.{
  Source, when_confirmed, cancelled_by_source, trimmed_by_source, split_child, trim_row, change_row,
  apply_impact, apply_impacts,
}
use allocube.Maintenance.Classify.{
  Classified, as_cancel, as_trim_start, as_trim_end, as_split, classify_impact-Classified,
}
use allocube.Maintenance.Adjust.{
  Kept, Adjusting, when_confirmed-eq, when_confirmed-id, cancelled-Narrow, trimmed-Narrow,
  child-Narrow, part-Clear, add_audit-Adjusting, update-Adjusting, insert-Adjusting,
}

-- The identifier of a row does not matter to the windows.
child_fits :
    (s : Source) (id id' : ℕ) (part : Span) (r : Reservation) (o : Option ℕ)
    → WindowFits o (split_child s id' part r)
    → WindowFits o (split_child s id part r)
unfolding split_child
child_fits s id id' part r none f = tt
child_fits s id id' part r (some g) f = f

child-Clear :
    (s : Source) (id id' : ℕ) (part : Span) (r : Reservation) (ws : List Window)
    → All (Clear (split_child s id part r)) ws
    → All (Clear (split_child s id' part r)) ws
unfolding split_child
child-Clear s id id' part r ws =
    All-mono _ _ ws (λ w h p q m f. h p q m (child_fits s id id' part r w.resource_group_id f))

module _ (ws : List Window) (w : Window) (b : Span) (ws_start : w.start_at ≡ b.start)
    (ws_end : w.end_at ≡ b.end) where
  cancel-Adjusting :
      (s : Source) (r : Reservation) (todo : List Reservation) (db : Db)
      → r.status ≡ confirmed
      → Adjusting ws w b (r ∷ todo) db
      → Adjusting ws w b todo (update_reservation r.id (when_confirmed (cancelled_by_source s)) db)
  unfolding cancelled_by_source
  cancel-Adjusting s r todo db c a =
      let f = cancelled_by_source s in
      let same = sym (when_confirmed-eq f r c) in
      update-Adjusting ws w b ws_start ws_end r todo db (when_confirmed f) a
        (λ x. when_confirmed-id f x refl) (subst (λ k. Narrow k r) same (cancelled-Narrow s r))
        (subst Proper same (λ h. absurd (cc h))) (subst (λ k. Clear k w) same (λ h. absurd (cc h)))

  trim-Adjusting :
      (s : Source) (how : Adjustment) (part : Span) (r : Reservation) (todo : List Reservation)
      (db : Db)
      → r.status ≡ confirmed
      → Kept b r part
      → Adjusting ws w b (r ∷ todo) db
      → Adjusting ws w b todo (trim_row s how part r db)
  unfolding trimmed_by_source
  trim-Adjusting s how part r todo db c k a =
      let f = trimmed_by_source s how part in
      let same = sym (when_confirmed-eq f r c) in
      update-Adjusting ws w b ws_start ws_end r todo db (when_confirmed f) a
        (λ x. when_confirmed-id f x refl)
        (subst (λ k. Narrow k r) same (trimmed-Narrow s how b r part k))
        (subst Proper same (λ _. k.positive))
        (subst (λ k. Clear k w) same (part-Clear ws w b ws_start ws_end r (f r) part k refl refl))

  -- The second part of a row fits where the row was.
  child-Apart :
      (s : Source) (how : Adjustment) (child_id : ℕ) (first second : Span) (r : Reservation)
      (todo : List Reservation) (db : Db)
      → r.status ≡ confirmed
      → Kept b r second
      → first.end ≤ second.start
      → Adjusting ws w b (r ∷ todo) db
      → All
          (λ x. Apart x (split_child s child_id second r))
          (trim_row s how first r db).reservations
  unfolding trimmed_by_source split_child update_reservation find_reservation
  child-Apart s how child_id first second r todo db c k order a =
      let f = trimmed_by_source s how first in
      All-replace (λ x. (x.id == r.id) ≡ false → Apart x r)
        (λ x. Apart x (split_child s child_id second r)) (λ x. x.id == r.id) (when_confirmed f)
        db.reservations r a.found.0 (unique-separates r.id db.reservations a.consistent.unique)
        (λ x other h. Apart-narrow_right (child-Narrow s b r second c k) x (h other))
        (subst (λ k. Apart k (split_child s child_id second r)) (sym (when_confirmed-eq f r c))
          (λ _ _ _. inl order))
        (AllPairs-find Apart (λ x. x.id == r.id) db.reservations r Apart-sym a.found.0
          a.consistent.apart)

  split-Adjusting :
      (s : Source) (child_id : ℕ) (first second : Span) (r : Reservation) (todo : List Reservation)
      (db db' : Db)
      → r.status ≡ confirmed
      → Kept b r first
      → Kept b r second
      → first.end ≤ second.start
      → Adjusting ws w b (r ∷ todo) db
      → insert_reservation (split_child s child_id second r) (trim_row s split first r db) ≡ ok db'
      → Adjusting ws w b todo db'
  unfolding split_child find_reservation update_reservation
  split-Adjusting s child_id first second r todo db db' c k1 k2 order a e =
      let child = split_child s child_id second r in
      let n = child-Narrow s b r second c k2 in
      insert-Adjusting ws w b ws_start ws_end child todo (trim_row s split first r db) db'
        (trim-Adjusting s split first r todo db c k1 a) e (λ _. k2.positive)
        (All-find (Homed db.catalog) (λ x. x.id == r.id) db.reservations r a.found.0
          a.consistent.homed)
        (child-Apart s split child_id first second r todo db c k2 order a)
        (child-Clear s r.id child_id second r ws (
          All-Clear-narrow n ws (
            All-find (λ x. All (Clear x) ws) (λ x. x.id == r.id) db.reservations r a.found.0
              a.consistent.clear)))
        (part-Clear ws w b ws_start ws_end r child second k2 refl refl)

  change_row-Adjusting :
      (s : Source) (child_id : ℕ) (r : Reservation) (action : ImpactAction) (parts : List Span)
      (todo : List Reservation) (db db' : Db)
      → r.status ≡ confirmed
      → Classified r.start_at r.end_at b action parts
      → Adjusting ws w b (r ∷ todo) db
      → change_row s child_id r action parts db ≡ ok db'
      → Adjusting ws w b todo db'
  unfolding change_row
  change_row-Adjusting s child_id r action parts todo db db' c as_cancel a e =
      subst (Adjusting ws w b todo) (ok_inj e) (cancel-Adjusting s r todo db c a)
  change_row-Adjusting s child_id r action parts todo db db' c (as_trim_start h) a e =
      let m = a.meets.0 in
      let k : Kept b r (span b.end r.end_at) = record {
        lower = omega arith;
        positive = h;
        upper = omega arith;
        outside = inr (omega arith);
      } in
      subst (Adjusting ws w b todo) (ok_inj e) (trim-Adjusting s trim_start _ r todo db c k a)
  change_row-Adjusting s child_id r action parts todo db db' c (as_trim_end h) a e =
      let m = a.meets.0 in
      let k : Kept b r (span r.start_at b.start) = record {
        lower = omega arith;
        positive = h;
        upper = omega arith;
        outside = inl (omega arith);
      } in
      subst (Adjusting ws w b todo) (ok_inj e) (trim-Adjusting s trim_end _ r todo db c k a)
  change_row-Adjusting s child_id r action parts todo db db' c (as_split h1 h2) a e =
      let m = a.meets.0 in
      let k1 : Kept b r (span r.start_at b.start) = record {
        lower = omega arith;
        positive = h1;
        upper = omega arith;
        outside = inl (omega arith);
      } in
      let k2 : Kept b r (span b.end r.end_at) = record {
        lower = omega arith;
        positive = h2;
        upper = omega arith;
        outside = inr (omega arith);
      } in
      let first = span r.start_at b.start in
      let second = span b.end r.end_at in
      let (db2, inserted, e1) =
        >>=-eq-ok
          (insert_reservation (split_child s child_id second r) (trim_row s split first r db)) _
          e in
      subst (Adjusting ws w b todo) (ok_inj e1) (
        add_audit-Adjusting ws w b ws_start ws_end todo db2 s.actor reservation_split_unavailability
          child_id
          (split-Adjusting s child_id first second r todo db db2 c k1 k2 (omega arith) a inserted))

  apply_impact-Adjusting :
      (s : Source) (child_id : ℕ) (r : Reservation) (todo : List Reservation) (db db' : Db)
      → Adjusting ws w b (r ∷ todo) db
      → apply_impact s child_id (impact_of b r) db ≡ ok db'
      → Adjusting ws w b todo db'
  unfolding apply_impact impact_of
  apply_impact-Adjusting s child_id r todo db db' a e =
      let i = impact_of b r in
      let e0 =
        subst
          (λ o.
            (or_fail o reservations_changed >>= λ x. (do
              guard (is_confirmed x.status) reservations_changed
              db2 ← change_row s child_id x i.action i.resulting_segments db
              ok (add_audit s.actor reservation_adjust_unavailability i.id db2)))
            ≡ ok db')
          a.found.0 e in
      let (_, conf, e1) = >>=-eq-ok (guard (is_confirmed r.status) reservations_changed) _ e0 in
      let (db2, changed, e2) =
        >>=-eq-ok (change_row s child_id r i.action i.resulting_segments db) _ e1 in
      subst (Adjusting ws w b todo) (ok_inj e2) (
        add_audit-Adjusting ws w b ws_start ws_end todo db2 s.actor
          reservation_adjust_unavailability r.id
          (change_row-Adjusting s child_id r i.action i.resulting_segments todo db db2
            (ground (arith, guard-true _ _ conf)) (classify_impact-Classified r.start_at r.end_at b)
            a changed))

  pub apply_impacts-Adjusting :
      (s : Source) (uuid : ℕ → ℕ) (k : ℕ) (todo : List Reservation) (db db' : Db)
      → Adjusting ws w b todo db
      → apply_impacts s uuid k (map (impact_of b) todo) db ≡ ok db'
      → Adjusting ws w b [] db'
  unfolding apply_impacts
  apply_impacts-Adjusting s uuid k [] db db' a e = subst (Adjusting ws w b []) (ok_inj e) a
  apply_impacts-Adjusting s uuid k (r ∷ todo) db db' a e =
      let (db1, one, more) = >>=-eq-ok (apply_impact s (uuid k) (impact_of b r) db) _ e in
      apply_impacts-Adjusting s uuid (suc k) todo db1 db'
        (apply_impact-Adjusting s (uuid k) r todo db db1 a one) more
