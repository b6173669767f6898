-- ===== src/Maintenance/Settle.antt =====
-- A new window, and the rounds over the reservations that it meets, leave a consistent schedule.
use allocube.Prelude.{
  ℕ, ◌<◌, ◌≡◌, ◌≢◌, ◌∙◌, ◌⊎◌, inl, inr, refl, sym, subst, ap, true, false, some, List, [], ◌∷◌,
  ◌++◌, arith, ◌==◌, filter, All, AllPairs, All-mono, All-append, All-zip2, All-filter, Bool-cases,
}
use mathlib.Core.Bool.{false≢true}
use allocube.Store.{
  Text, Db, Env, Reservation, Window, create_notification, resource_unavailability,
}
use allocube.Store.Error.{ok, ok_inj, >>=-eq-ok}
use allocube.Store.Rows.{find_reservation}
use allocube.Interval.{Span}
use allocube.Schedule.{IsConsistent, Clear, Proper}
use allocube.Schedule.Find.{All-find_self}
use allocube.Schedule.Keep.{create_notification-IsConsistent}
use allocube.Maintenance.Target.{Target}
use allocube.Maintenance.Impact.{affected, affected_rows, reservation_impacts}
use allocube.Maintenance.Apply.{
  Source, ChangeType, apply_impacts, apply_reservation_impacts, reason_or_label, notify_users,
  told_users,
}
use allocube.Maintenance.Classify.{Meets}
use allocube.Maintenance.Affected.{
  affected_rows-listed, affected_rows-All, affected_rows_unique, affected-IsAffected,
  not_affected-Clear,
}
use allocube.Maintenance.Adjust.{Adjusting}
use allocube.Maintenance.Rounds.{apply_impacts-Adjusting}

-- A consistent schedule, and a new window of a target over a span.
module _ (db : Db) (v : IsConsistent db) (t : Target) (b : Span) (w : Window)
    (same_machine : w.machine_id ≡ t.machine_id)
    (same_group : w.resource_group_id ≡ t.resource_group_id) (ws_start : w.start_at ≡ b.start)
    (ws_end : w.end_at ≡ b.end) (positive : b.start < b.end) where
  abbrev todo : List Reservation
  todo = affected_rows t b db.reservations

  affected-Meets : All (λ r. Meets r.start_at r.end_at b) todo
  affected-Meets =
      affected_rows-All (λ r. Meets r.start_at r.end_at b) t b db.reservations
        (meets_of db.reservations v.proper)
    where
      meets_of :
          (xs : List Reservation)
          → All Proper xs
          → All (λ r. Meets r.start_at r.end_at b) (filter (affected t b) xs)
      meets_of [] p = tt
      meets_of (x ∷ xs) p = elim (Bool-cases (affected t b x)) [
        | inl e ↦
            let i = affected-IsAffected t b x e in
            rw e ((p.0 i.status, positive, i.before, i.after), meets_of xs p.1)
        | inr e ↦ rw e (meets_of xs p.1)
      ]

  -- The state before the first round.
  start-Adjusting : Adjusting db.windows w b todo (record db { windows = db.windows ++ w ∷ [] })
  unfolding find_reservation
  start-Adjusting = record {
    consistent = v;
    windows = refl;
    found =
        affected_rows-All (λ r. find_reservation r.id db.reservations ≡ some r) t b db.reservations
          (All-filter _ (affected t b) db.reservations (
            All-find_self (λ r x. x.id == r.id) db.reservations (λ x. ground arith)
              (pairs db.reservations v.unique)));
    unique = affected_rows_unique t b db.reservations v.unique;
    meets = affected-Meets;
    clear =
        All-mono _ _ db.reservations
          (λ r h. elim (Bool-cases (affected t b r)) [
            | inl e ↦ inr (h e)
            | inr e ↦ inl (not_affected-Clear t b r w same_machine same_group ws_start ws_end e)
          ])
          (affected_rows-listed t b db.reservations);
  }
    where
      pairs :
          (xs : List Reservation)
          → AllPairs (λ x y. x.id ≢ y.id) xs
          → AllPairs (λ x y. (x.id == y.id) ≡ false) xs
      pairs [] a = tt
      pairs (x ∷ xs) a = (All-mono _ _ xs (λ y ne. ground (arith, ne)) a.0, pairs xs a.1)

  -- After the last round every row is clear of the new window too.
  end-IsConsistent : (db' : Db) → Adjusting db.windows w b [] db' → IsConsistent db'
  end-IsConsistent db' a = record {
    unique = a.consistent.unique;
    proper = a.consistent.proper;
    homed = a.consistent.homed;
    windows_proper =
        subst (All (λ x. x.start_at < x.end_at)) (sym a.windows)
          (All-append _ db.windows (w ∷ []) v.windows_proper (omega arith, tt));
    apart = a.consistent.apart;
    clear =
        All-zip2
          (λ r old new.
            subst (All (Clear r)) (sym a.windows)
              (All-append (Clear r) db.windows (w ∷ []) old (done r new, tt)))
          db'.reservations a.consistent.clear a.clear;
  }
    where
      done : (r : Reservation) → Clear r w ⊎ (false ≡ true) → Clear r w
      done r (inl k) = k
      done r (inr k) = absurd (false≢true k)

  pub apply_impacts-IsConsistent :
      (s : Source) (uuid : ℕ → ℕ) (k : ℕ) (db' : Db)
      → apply_impacts s uuid k
          (reservation_impacts t b db.reservations)
          (record db { windows = db.windows ++ w ∷ [] })
        ≡ ok db'
      → IsConsistent db'
  unfolding reservation_impacts
  apply_impacts-IsConsistent s uuid k db' e = end-IsConsistent db' (
      apply_impacts-Adjusting db.windows w b ws_start ws_end s uuid k todo
        (record db { windows = db.windows ++ w ∷ [] }) db' start-Adjusting e)

  notify_users-IsConsistent :
      (users : List ℕ) (db' : Db) → IsConsistent db' → IsConsistent (notify_users users db')
  unfolding notify_users
  notify_users-IsConsistent [] db' c = c
  notify_users-IsConsistent (u ∷ us) db' c =
      notify_users-IsConsistent us (create_notification u resource_unavailability db')
        (create_notification-IsConsistent db' c u resource_unavailability)

  pub apply_reservation_impacts-IsConsistent :
      (env : Env) (site actor source_id : ℕ) (reason name : Text) (how : ChangeType) (db' : Db)
      → apply_reservation_impacts env site
          (reservation_impacts t b db.reservations)
          actor
          source_id
          reason
          name
          how
          (record db { windows = db.windows ++ w ∷ [] })
        ≡ ok db'
      → IsConsistent db'
  unfolding apply_reservation_impacts
  apply_reservation_impacts-IsConsistent env site actor source_id reason name how db' e =
      let impacts = reservation_impacts t b db.reservations in
      let source : Source = record {
        now = env.clock site;
        actor = actor;
        source_id = source_id;
        reason_text = reason_or_label reason name how;
      } in
      let (db1, applied, e1) =
        >>=-eq-ok
          (apply_impacts source env.uuid 1 impacts (record db { windows = db.windows ++ w ∷ [] })) _
          e in
      subst IsConsistent (ok_inj e1) (
        notify_users-IsConsistent (told_users [] impacts) db1
          (apply_impacts-IsConsistent source env.uuid 1 db1 applied))

  notify_users-windows :
      (users : List ℕ) (db' : Db) → (notify_users users db').windows ≡ db'.windows
  unfolding notify_users create_notification
  notify_users-windows [] db' = refl
  notify_users-windows (u ∷ us) db' =
      notify_users-windows us (create_notification u resource_unavailability db')

  -- The rounds change no window.
  pub apply_reservation_impacts-windows :
      (env : Env) (site actor source_id : ℕ) (reason name : Text) (how : ChangeType) (db' : Db)
      → apply_reservation_impacts env site
          (reservation_impacts t b db.reservations)
          actor
          source_id
          reason
          name
          how
          (record db { windows = db.windows ++ w ∷ [] })
        ≡ ok db'
      → db'.windows ≡ db.windows ++ w ∷ []
  unfolding apply_reservation_impacts reservation_impacts
  apply_reservation_impacts-windows env site actor source_id reason name how db' e =
      let impacts = reservation_impacts t b db.reservations in
      let source : Source = record {
        now = env.clock site;
        actor = actor;
        source_id = source_id;
        reason_text = reason_or_label reason name how;
      } in
      let start = record db { windows = db.windows ++ w ∷ [] } in
      let (db1, applied, e1) = >>=-eq-ok (apply_impacts source env.uuid 1 impacts start) _ e in
      let done =
        apply_impacts-Adjusting db.windows w b ws_start ws_end source env.uuid 1 todo start db1
          start-Adjusting applied in
      ap (λ (k : Db). k.windows) (sym (ok_inj e1))
      ∙ notify_users-windows (told_users [] impacts) db1
      ∙ done.windows
