-- ===== src/Schedule/Pending.antt =====
-- A loop that changes one listed row after another, each as it was when the list was made.
use allocube.Prelude.{
  ℕ, ◌≡◌, ◌≢◌, ◌∙◌, sym, subst, true, false, some, List, [], ◌∷◌, arith, ◌==◌, All, AllPairs,
  All-mono, All-zip2,
}
use allocube.Store.{Db, Reservation, AuditAction, add_audit}
use allocube.Store.Rows.{find_reservation, update_reservation}
use allocube.Schedule.{IsConsistent, Proper}
use allocube.Schedule.Narrow.{Narrow}
use allocube.Schedule.Find.{find-update_first, All-find_self}
use allocube.Schedule.Keep.{update-IsConsistent, add_audit-IsConsistent}

pub record Pending (todo : List Reservation) (db : Db) : Type 0 where
  pub consistent : IsConsistent db
  pub found : All (λ r. find_reservation r.id db.reservations ≡ some r) todo
  pub unique : AllPairs (λ x y. x.id ≢ y.id) todo

other_key : (x y r : ℕ) → (x == r) ≡ true → r ≢ y → (x == y) ≡ false
other_key x y r e ne = ground (arith, ne)

pub update-Pending :
    (r : Reservation) (todo : List Reservation) (db : Db) (f : Reservation → Reservation)
    → Pending (r ∷ todo) db
    → ((x : Reservation) → (f x).id ≡ x.id)
    → Narrow (f r) r
    → Proper (f r)
    → Pending todo (update_reservation r.id f db)
unfolding update_reservation find_reservation
update-Pending r todo db f a keeps n p = record {
  consistent = update-IsConsistent db a.consistent r.id f r a.found.0 n p;
  found =
      All-zip2
        (λ x ne e.
          find-update_first (λ y. y.id == x.id) (λ y. y.id == r.id) f db.reservations
            (λ y h. (
              other_key y.id x.id r.id h ne,
              other_key (f y).id x.id r.id (subst (λ k. (k == r.id) ≡ true) (sym (keeps y)) h) ne,
            ))
          ∙ e)
        todo a.unique.0 a.found.1;
  unique = a.unique.1;
}

pub add_audit-Pending :
    (todo : List Reservation) (db : Db) (actor : ℕ) (action : AuditAction) (entity : ℕ)
    → Pending todo db
    → Pending todo (add_audit actor action entity db)
unfolding add_audit
add_audit-Pending todo db actor action entity a = record {
  consistent = add_audit-IsConsistent db a.consistent actor action entity;
  found = a.found;
  unique = a.unique;
}

-- Every row of a consistent schedule is found under its identifier.
pub rows-found :
    (db : Db)
    → IsConsistent db
    → All (λ r. find_reservation r.id db.reservations ≡ some r) db.reservations
unfolding find_reservation
rows-found db v =
    All-find_self (λ r x. x.id == r.id) db.reservations (λ x. ground arith)
      (pairs db.reservations v.unique)
  where
    pairs :
        (xs : List Reservation)
        → AllPairs (λ x y. x.id ≢ y.id) xs
        → AllPairs (λ x y. (x.id == y.id) ≡ false) xs
    pairs [] a = tt
    pairs (x ∷ xs) a = (All-mono _ _ xs (λ y ne. ground (arith, ne)) a.0, pairs xs a.1)
