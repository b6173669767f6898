-- ===== src/Maintenance/Affected.antt =====
-- The rows that reservationImpacts finds are those that the new window is not clear of.
use allocube.Prelude.{
  subst, ℕ, ◌<◌, ◌≡◌, ◌≢◌, ◌∙◌, inl, inr, refl, sym, ap, Bool, true, false, ◌||◌, Option, none,
  some, List, [], ◌∷◌, arith, ◌==◌, any, filter, All, AllPairs, All-mono, Bool-cases,
}
use allocube.Store.{Reservation, Window, confirmed}
use allocube.Interval.{Span}
use allocube.Schedule.{Clear, WindowFits}
use allocube.Schedule.Find.{filter-All, AllPairs-filter}
use allocube.Maintenance.Target.{Target}
use allocube.Maintenance.Impact.{
  affected, target_takes, comes_first, insert_row, sort_rows, affected_rows,
}

insert_row-All {κ} :
    (P : Reservation → Type κ) (x : Reservation) (xs : List Reservation)
    → P x
    → All P xs
    → All P (insert_row x xs)
unfolding insert_row
insert_row-All P x [] p a = (p, tt)
insert_row-All P x (y ∷ ys) p a = elim (Bool-cases (comes_first x y)) [
  | inl e ↦ rw e (p, a)
  | inr e ↦ rw e (a.0, insert_row-All P x ys p a.1)
]

pub sort_rows-All {κ} :
    (P : Reservation → Type κ) (xs : List Reservation) → All P xs → All P (sort_rows xs)
unfolding sort_rows
sort_rows-All P [] a = tt
sort_rows-All P (x ∷ xs) a = insert_row-All P x (sort_rows xs) a.0 (sort_rows-All P xs a.1)

insert_row-AllPairs :
    (R : Reservation → Reservation → Type 0) (x : Reservation) (xs : List Reservation)
    → ((a b : Reservation) → R a b → R b a)
    → All (R x) xs
    → AllPairs R xs
    → AllPairs R (insert_row x xs)
unfolding insert_row
insert_row-AllPairs R x [] s p a = (tt, tt)
insert_row-AllPairs R x (y ∷ ys) s p a = elim (Bool-cases (comes_first x y)) [
  | inl e ↦ rw e (p, a)
  | inr e ↦ rw e (insert_row-All (R y) x ys (s x y p.0) a.0, insert_row-AllPairs R x ys s p.1 a.1)
]

pub sort_rows-AllPairs :
    (R : Reservation → Reservation → Type 0) (xs : List Reservation)
    → ((a b : Reservation) → R a b → R b a)
    → AllPairs R xs
    → AllPairs R (sort_rows xs)
unfolding sort_rows
sort_rows-AllPairs R [] s a = tt
sort_rows-AllPairs R (x ∷ xs) s a =
    insert_row-AllPairs R x (sort_rows xs) s (sort_rows-All (R x) xs a.0)
      (sort_rows-AllPairs R xs s a.1)

any-insert_row :
    (p : Reservation → Bool) (x : Reservation) (xs : List Reservation)
    → any p (insert_row x xs) ≡ (p x || any p xs)
unfolding insert_row
any-insert_row p x [] = ground arith
any-insert_row p x (y ∷ ys) = elim (Bool-cases (comes_first x y)) [
  | inl e ↦ rw e (ground arith)
  | inr e ↦ rw (e, any-insert_row p x ys) (ground arith)
]

pub any-sort_rows :
    (p : Reservation → Bool) (xs : List Reservation) → any p (sort_rows xs) ≡ any p xs
unfolding sort_rows
any-sort_rows p [] = refl
any-sort_rows p (x ∷ xs) =
    any-insert_row p x (sort_rows xs) ∙ ap (λ b. p x || b) (any-sort_rows p xs) ∙ ground arith

-- A list of rows has one with this identifier.
abbrev pub listed : ℕ → List Reservation → Bool
listed id = any (λ r. r.id == id)

listed_here :
    (p : Reservation → Bool) (x : Reservation) (xs : List Reservation)
    → p x ≡ true
    → listed x.id (filter p (x ∷ xs)) ≡ true
listed_here p x xs e = rw e (ground arith)

listed_there :
    (p : Reservation → Bool) (id : ℕ) (x : Reservation) (xs : List Reservation)
    → listed id (filter p xs) ≡ true
    → listed id (filter p (x ∷ xs)) ≡ true
listed_there p id x xs h = elim (Bool-cases (p x)) [
  | inl e ↦ rw e (ground (arith, h))
  | inr e ↦ rw e h
]

listed-filter :
    (p : Reservation → Bool) (rows : List Reservation)
    → All (λ r. p r ≡ true → listed r.id (filter p rows) ≡ true) rows
listed-filter p [] = tt
listed-filter p (x ∷ xs) = (
  listed_here p x xs,
  All-mono _ _ xs (λ r k h. listed_there p r.id x xs (k h)) (listed-filter p xs),
)

pub affected_rows-listed :
    (t : Target) (b : Span) (rows : List Reservation)
    → All (λ r. affected t b r ≡ true → listed r.id (affected_rows t b rows) ≡ true) rows
unfolding affected_rows
affected_rows-listed t b rows =
    All-mono _ _ rows
      (λ r k h. any-sort_rows (λ x. x.id == r.id) (filter (affected t b) rows) ∙ k h)
      (listed-filter (affected t b) rows)

pub affected_rows-All {κ} :
    (P : Reservation → Type κ) (t : Target) (b : Span) (rows : List Reservation)
    → All P (filter (affected t b) rows)
    → All P (affected_rows t b rows)
unfolding affected_rows
affected_rows-All P t b rows a = sort_rows-All P (filter (affected t b) rows) a

pub affected_rows-affected :
    (t : Target) (b : Span) (rows : List Reservation)
    → All (λ r. affected t b r ≡ true) (affected_rows t b rows)
affected_rows-affected t b rows =
    affected_rows-All (λ r. affected t b r ≡ true) t b rows (filter-All (affected t b) rows)

pub affected_rows_unique :
    (t : Target) (b : Span) (rows : List Reservation)
    → AllPairs (λ x y. x.id ≢ y.id) rows
    → AllPairs (λ x y. x.id ≢ y.id) (affected_rows t b rows)
unfolding affected_rows
affected_rows_unique t b rows a =
    sort_rows-AllPairs _ (filter (affected t b) rows) (λ x y k e. k (sym e))
      (AllPairs-filter _ (affected t b) rows a)

-- What an affected row is like.
pub record IsAffected (b : Span) (r : Reservation) : Type 0 where
  pub status : r.status ≡ confirmed
  pub before : r.start_at < b.end
  pub after : b.start < r.end_at

pub affected-IsAffected :
    (t : Target) (b : Span) (r : Reservation) → affected t b r ≡ true → IsAffected b r
unfolding affected
affected-IsAffected t b r h = record {
  status = ground arith;
  before = ground arith;
  after = ground arith;
}

takes_fits : (o : Option ℕ) (r : Reservation) → WindowFits o r → target_takes o r ≡ true
takes_fits none r f = refl
takes_fits (some g) r (inl e) = ground (arith, e)
takes_fits (some g) r (inr e) = ground (arith, e)

-- A row that is not affected is clear of the window.
pub not_affected-Clear :
    (t : Target) (b : Span) (r : Reservation) (w : Window)
    → w.machine_id ≡ t.machine_id
    → w.resource_group_id ≡ t.resource_group_id
    → w.start_at ≡ b.start
    → w.end_at ≡ b.end
    → affected t b r ≡ false
    → Clear r w
unfolding affected
not_affected-Clear t b r w same_m same_g s e clear p q m f =
    let takes = takes_fits t.resource_group_id r (subst (λ o. WindowFits o r) same_g f) in
    ground (arith, takes, m)
