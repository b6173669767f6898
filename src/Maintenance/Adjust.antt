-- ===== src/Maintenance/Adjust.antt =====
-- The loop of applyReservationImpacts: a row after another gives up what the new window blocks.
use allocube.Prelude.{
  ℕ, ◌≤◌, ◌<◌, ◌≡◌, ◌≢◌, ◌∙◌, ◌⊎◌, inl, inr, refl, sym, subst, true, false, some, List, [], ◌∷◌,
  ◌++◌, arith, ◌==◌, any, All, AllPairs, All-mono, All-zip2, All-append, Bool-cases,
}
use allocube.Store.{Db, Reservation, Window, AuditAction, Adjustment, confirmed, add_audit}
use allocube.Store.Error.{ok, ok_inj}
use allocube.Store.Rows.{find_reservation, update_reservation, insert_reservation}
use allocube.Interval.{Span}
use allocube.Schedule.{IsConsistent, Apart, Clear, Proper, Homed}
use allocube.Schedule.Narrow.{Narrow}
use allocube.Schedule.Update.{All-replace}
use allocube.Schedule.Find.{find-update_first, find-append}
use allocube.Schedule.Keep.{update-IsConsistent, insert-IsConsistent, unique-separates}
use allocube.Maintenance.Apply.{
  Source, when_confirmed, cancelled_by_source, trimmed_by_source, split_child,
}
use allocube.Maintenance.Classify.{Meets}
use allocube.Maintenance.Affected.{listed}

-- A part of a row that lies outside the blocked span.
pub record Kept (b : Span) (r : Reservation) (part : Span) : Type 0 where
  pub lower : r.start_at ≤ part.start
  pub positive : part.start < part.end
  pub upper : part.end ≤ r.end_at
  pub outside : (part.end ≤ b.start) ⊎ (b.end ≤ part.start)

-- The window before which the rows stand, the windows that were there, and the rows still to do.
pub record Adjusting (ws : List Window) (w : Window) (b : Span) (todo : List Reservation) (db : Db)
    : Type 0 where
  pub consistent : IsConsistent (record db { windows = ws })
  pub windows : db.windows ≡ ws ++ w ∷ []
  pub found : All (λ r. find_reservation r.id db.reservations ≡ some r) todo
  pub unique : AllPairs (λ x y. x.id ≢ y.id) todo
  pub meets : All (λ r. Meets r.start_at r.end_at b) todo
  pub clear : All (λ r. Clear r w ⊎ (listed r.id todo ≡ true)) db.reservations

pub when_confirmed-eq :
    (f : Reservation → Reservation) (r : Reservation)
    → r.status ≡ confirmed
    → when_confirmed f r ≡ f r
when_confirmed-eq f r h = rw h refl

pub when_confirmed-id :
    (f : Reservation → Reservation) (r : Reservation)
    → (f r).id ≡ r.id
    → (when_confirmed f r).id ≡ r.id
when_confirmed-id f r h = ground (arith, h)

other_id : (x y : ℕ) (r : ℕ) → (x == r) ≡ true → r ≢ y → (x == y) ≡ false
other_id x y r e ne = ground (arith, ne)

pub cancelled-Narrow : (s : Source) (r : Reservation) → Narrow (cancelled_by_source s r) r
unfolding cancelled_by_source
cancelled-Narrow s r = record {
  same_id = refl;
  same_machine = refl;
  same_group = refl;
  same_scope = refl;
  was_confirmed = λ h. absurd (cc h);
  starts_later = λ h. absurd (cc h);
  ends_earlier = λ h. absurd (cc h);
}

pub trimmed-Narrow :
    (s : Source) (how : Adjustment) (b : Span) (r : Reservation) (part : Span)
    → Kept b r part
    → Narrow (trimmed_by_source s how part r) r
unfolding trimmed_by_source
trimmed-Narrow s how b r part k = record {
  same_id = refl;
  same_machine = refl;
  same_group = refl;
  same_scope = refl;
  was_confirmed = λ h. h;
  starts_later = λ _. k.lower;
  ends_earlier = λ _. k.upper;
}

pub child-Narrow :
    (s : Source) (b : Span) (r : Reservation) (part : Span)
    → r.status ≡ confirmed
    → Kept b r part
    → Narrow (split_child s r.id part r) r
unfolding split_child
child-Narrow s b r part c k = record {
  same_id = refl;
  same_machine = refl;
  same_group = refl;
  same_scope = refl;
  was_confirmed = λ _. c;
  starts_later = λ _. k.lower;
  ends_earlier = λ _. k.upper;
}

module _ (ws : List Window) (w : Window) (b : Span) (ws_start : w.start_at ≡ b.start)
    (ws_end : w.end_at ≡ b.end) where
  pub part-Clear :
      (r r' : Reservation) (part : Span)
      → Kept b r part
      → r'.start_at ≡ part.start
      → r'.end_at ≡ part.end
      → Clear r' w
  part-Clear r r' part k s e p q m f = elim k.outside [
    | inl h ↦ inl (omega arith)
    | inr h ↦ inr (omega arith)
  ]

  pub add_audit-Adjusting :
      (todo : List Reservation) (db : Db) (actor : ℕ) (action : AuditAction) (entity : ℕ)
      → Adjusting ws w b todo db
      → Adjusting ws w b todo (add_audit actor action entity db)
  unfolding add_audit
  add_audit-Adjusting todo db actor action entity a = record {
    consistent = record {
      unique = a.consistent.unique;
      proper = a.consistent.proper;
      homed = a.consistent.homed;
      windows_proper = a.consistent.windows_proper;
      apart = a.consistent.apart;
      clear = a.consistent.clear;
    };
    windows = a.windows;
    found = a.found;
    unique = a.unique;
    meets = a.meets;
    clear = a.clear;
  }

  -- The next row changes, and is clear of the window from then on.
  pub update-Adjusting :
      (r : Reservation) (todo : List Reservation) (db : Db) (f : Reservation → Reservation)
      → Adjusting ws w b (r ∷ todo) db
      → ((x : Reservation) → (f x).id ≡ x.id)
      → Narrow (f r) r
      → Proper (f r)
      → Clear (f r) w
      → Adjusting ws w b todo (update_reservation r.id f db)
  unfolding update_reservation find_reservation
  update-Adjusting r todo db f a keeps n p c = record {
    consistent =
        update-IsConsistent (record db { windows = ws }) a.consistent r.id f r a.found.0 n p;
    windows = a.windows;
    found =
        All-zip2
          (λ x ne e.
            find-update_first (λ y. y.id == x.id) (λ y. y.id == r.id) f db.reservations
              (λ y h. (
                other_id y.id x.id r.id h ne,
                other_id (f y).id x.id r.id (subst (λ k. (k == r.id) ≡ true) (sym (keeps y)) h) ne,
              ))
            ∙ e)
          todo a.unique.0 a.found.1;
    unique = a.unique.1;
    meets = a.meets.1;
    clear =
        All-replace (λ x. Clear x w ⊎ (listed x.id (r ∷ todo) ≡ true))
          (λ x. Clear x w ⊎ (listed x.id todo ≡ true)) (λ x. x.id == r.id) f db.reservations r
          a.found.0 (unique-separates r.id db.reservations a.consistent.unique) still (inl c)
          a.clear;
  }
    where
      still :
          (x : Reservation)
          → (x.id == r.id) ≡ false
          → Clear x w ⊎ (listed x.id (r ∷ todo) ≡ true)
          → Clear x w ⊎ (listed x.id todo ≡ true)
      still x other (inl k) = inl k
      still x other (inr k) = inr (ground (arith, k))

  -- The window's own row comes after the rest of the loop.
  pub insert-Adjusting :
      (row : Reservation) (todo : List Reservation) (db db' : Db)
      → Adjusting ws w b todo db
      → insert_reservation row db ≡ ok db'
      → Proper row
      → Homed db.catalog row
      → All (λ x. Apart x row) db.reservations
      → All (Clear row) ws
      → Clear row w
      → Adjusting ws w b todo db'
  unfolding insert_reservation find_reservation
  insert-Adjusting row todo db db' a e p h apart cs c =
      elim (Bool-cases (any (λ r. r.id == row.id) db.reservations)) [
        | inl taken ↦ absurd (cc (rw taken at e))
        | inr free ↦ subst (Adjusting ws w b todo) (ok_inj (rw free at e)) (record {
          consistent =
              insert-IsConsistent (record db { windows = ws }) a.consistent row (rw free refl) p h
                apart cs;
          windows = a.windows;
          found =
              All-mono _ _ todo
                (λ x k. find-append (λ y. y.id == x.id) db.reservations (row ∷ []) x k) a.found;
          unique = a.unique;
          meets = a.meets;
          clear = All-append _ db.reservations (row ∷ []) a.clear (inl c, tt);
        })
      ]
