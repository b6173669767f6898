-- ===== src/Schedule/Keep.antt =====
-- Steps that keep a schedule consistent: rows that give time back, are deleted, or are added.
use mathlib.Core.Bool.{false≢true}
use allocube.Prelude.{
  ℕ, ◌≡◌, ◌≢◌, ◌∙◌, refl, sym, subst, Bool, true, false, inl, inr, some, List, [], ◌∷◌, All,
  AllPairs, All-append, All-mono, any, any-false→All, AllPairs-snoc, arith, ◌==◌, ==_iff,
  Bool-cases,
}
use allocube.Store.{
  Db, Batch, Reservation, AuditAction, NoticeKind, add_audit, create_notification,
  bump_schedule_revision,
}
use allocube.Store.Error.{ok, ok_inj}
use allocube.Store.Rows.{
  find_reservation, update_reservation, delete_reservation, insert_reservation, get_group,
  delete_first, is_parent, orphan,
}
use allocube.Schedule.{IsConsistent, Apart, Clear, Proper, Homed}
use allocube.Schedule.Narrow.{Narrow, Apart-narrow_left, Apart-narrow_right, All-Clear-narrow}
use allocube.Schedule.Update.{
  All-update_first, AllPairs-update_first, All-delete_first, AllPairs-delete_first,
  AllPairs-replace, All-update_where, AllPairs-update_where,
}

orphan-Narrow : (r : Reservation) → Narrow (orphan r) r
orphan-Narrow r = record {
  same_id = refl;
  same_machine = refl;
  same_group = refl;
  same_scope = refl;
  was_confirmed = λ h. h;
  starts_later = λ _. omega arith;
  ends_earlier = λ _. omega arith;
}

module _ (db : Db) (v : IsConsistent db) where
  pub add_audit-IsConsistent :
      (actor : ℕ) (action : AuditAction) (entity : ℕ)
      → IsConsistent (add_audit actor action entity db)
  unfolding add_audit
  add_audit-IsConsistent actor action entity = record {
    unique = v.unique;
    proper = v.proper;
    homed = v.homed;
    windows_proper = v.windows_proper;
    apart = v.apart;
    clear = v.clear;
  }

  pub create_notification-IsConsistent :
      (to : ℕ) (kind : NoticeKind) → IsConsistent (create_notification to kind db)
  unfolding create_notification
  create_notification-IsConsistent to kind = record {
    unique = v.unique;
    proper = v.proper;
    homed = v.homed;
    windows_proper = v.windows_proper;
    apart = v.apart;
    clear = v.clear;
  }

  pub bump-IsConsistent : IsConsistent (bump_schedule_revision db)
  unfolding bump_schedule_revision
  bump-IsConsistent = record {
    unique = v.unique;
    proper = v.proper;
    homed = v.homed;
    windows_proper = v.windows_proper;
    apart = v.apart;
    clear = v.clear;
  }

  pub batches-IsConsistent : (bs : List Batch) → IsConsistent (record db { batches = bs })
  batches-IsConsistent bs = record {
    unique = v.unique;
    proper = v.proper;
    homed = v.homed;
    windows_proper = v.windows_proper;
    apart = v.apart;
    clear = v.clear;
  }

  -- A row that gives time back.
  pub update-IsConsistent :
      (id : ℕ) (f : Reservation → Reservation) (r : Reservation)
      → find_reservation id db.reservations ≡ some r
      → Narrow (f r) r
      → Proper (f r)
      → IsConsistent (update_reservation id f db)
  unfolding update_reservation find_reservation
  update-IsConsistent id f r found n ok' = record {
    unique =
        AllPairs-update_first (λ a b. a.id ≢ b.id) hit f rows r found
          (λ x h e. h (sym n.same_id ∙ e)) (λ x h e. h (e ∙ n.same_id)) v.unique;
    proper = All-update_first Proper hit f rows r found (λ _. ok') v.proper;
    homed = All-update_first (Homed db.catalog) hit f rows r found still_homed v.homed;
    windows_proper = v.windows_proper;
    apart =
        AllPairs-update_first Apart hit f rows r found (Apart-narrow_left n) (Apart-narrow_right n)
          v.apart;
    clear =
        All-update_first (λ x. All (Clear x) db.windows) hit f rows r found
          (All-Clear-narrow n db.windows) v.clear;
  }
    where
      rows : List Reservation
      rows = db.reservations

      hit : Reservation → Bool
      hit x = x.id == id

      still_homed : Homed db.catalog r → Homed db.catalog (f r)
      still_homed h g e =
          h g (subst (λ k. get_group db.catalog k ≡ some g) n.same_group e) ∙ sym n.same_machine

  pub delete-IsConsistent : (id : ℕ) → IsConsistent (delete_reservation id db)
  unfolding delete_reservation
  delete-IsConsistent id = record {
    unique =
        AllPairs-update_where _ child orphan left (λ _ _ _ h. h) (λ _ _ _ h. h)
          (AllPairs-delete_first _ hit db.reservations v.unique);
    proper =
        All-update_where Proper Proper child orphan left (λ _ _ h. h) (λ _ _ h. h)
          (All-delete_first Proper hit db.reservations v.proper);
    homed =
        All-update_where home home child orphan left (λ _ _ h. h) (λ _ _ h. h)
          (All-delete_first home hit db.reservations v.homed);
    windows_proper = v.windows_proper;
    apart =
        AllPairs-update_where Apart child orphan left (λ _ _ _ h. h) (λ _ _ _ h. h)
          (AllPairs-delete_first Apart hit db.reservations v.apart);
    clear =
        All-update_where clear_of clear_of child orphan left (λ x _ h. orphan-clear x h)
          (λ _ _ h. h) (All-delete_first clear_of hit db.reservations v.clear);
  }
    where
      hit : Reservation → Bool
      hit x = x.id == id

      child : Reservation → Bool
      child x = is_parent id x.parent_reservation_id

      left : List Reservation
      left = delete_first hit db.reservations

      home : Reservation → Type 0
      home = Homed db.catalog

      clear_of : Reservation → Type 0
      clear_of x = All (Clear x) db.windows

      orphan-clear : (x : Reservation) → clear_of x → clear_of (orphan x)
      orphan-clear x h = All-Clear-narrow (orphan-Narrow x) db.windows h

  -- A new row that is apart from all others and clear of all windows.
  pub insert-IsConsistent :
      (row : Reservation) {db' : Db}
      → insert_reservation row db ≡ ok db'
      → Proper row
      → Homed db.catalog row
      → All (λ r. Apart r row) db.reservations
      → All (Clear row) db.windows
      → IsConsistent db'
  unfolding insert_reservation
  insert-IsConsistent row e p h a c =
      elim (Bool-cases (any (λ r. r.id == row.id) db.reservations)) [
        | inl taken ↦ absurd (cc (rw taken at e))
        | inr free ↦ subst IsConsistent (ok_inj (rw free at e)) (record {
          unique = AllPairs-snoc _ db.reservations row v.unique (
              All-mono _ (λ r. r.id ≢ row.id) db.reservations
                (λ r ne same. false≢true (sym ne ∙ (==_iff r.id row.id).1 same))
                (any-false→All (λ r. r.id == row.id) db.reservations free));
          proper = All-append Proper db.reservations _ v.proper (p, tt);
          homed = All-append (Homed db.catalog) db.reservations _ v.homed (h, tt);
          windows_proper = v.windows_proper;
          apart = AllPairs-snoc Apart db.reservations row v.apart a;
          clear = All-append _ db.reservations _ v.clear (c, tt);
        })
      ]

-- Of two rows with different keys, at most one has the key that is asked for.
pub unique-separates :
    (id : ℕ) (rows : List Reservation)
    → AllPairs (λ a b. a.id ≢ b.id) rows
    → AllPairs (λ a b. (a.id == id) ≡ true → (b.id == id) ≡ false) rows
unique-separates id [] a = tt
unique-separates id (x ∷ xs) a =
    (All-mono _ _ xs (λ y ne e. ground (arith, ne)) a.0, unique-separates id xs a.1)

pub Apart-sym : (a b : Reservation) → Apart a b → Apart b a
Apart-sym a b h p q (m, t) =
    elim (h q p (
      sym m,
      elim t [ inl g ↦ inl (sym g) | inr (inl s) ↦ inr (inr s) | inr (inr s) ↦ inr (inl s) ],
    )) [ inl e ↦ inr e | inr e ↦ inl e ]

-- A row that moves to a slot which all others leave free.
pub move-IsConsistent :
    (db : Db) (id : ℕ) (f : Reservation → Reservation) (r : Reservation)
    → IsConsistent db
    → find_reservation id db.reservations ≡ some r
    → (f r).id ≡ r.id
    → Proper (f r)
    → Homed db.catalog (f r)
    → All (λ x. (x.id == id) ≡ false → Apart x (f r)) db.reservations
    → All (Clear (f r)) db.windows
    → IsConsistent (update_reservation id f db)
unfolding update_reservation find_reservation
move-IsConsistent db id f r v found same p h apart c =
    let sep = unique-separates id db.reservations v.unique in
    record {
      unique =
          AllPairs-update_first (λ a b. a.id ≢ b.id) (λ x. x.id == id) f db.reservations r found
            (λ x ne e. ne (sym same ∙ e)) (λ x ne e. ne (e ∙ same)) v.unique;
      proper =
          All-update_first Proper (λ x. x.id == id) f db.reservations r found (λ _. p) v.proper;
      homed =
          All-update_first (Homed db.catalog) (λ x. x.id == id) f db.reservations r found (λ _. h)
            v.homed;
      windows_proper = v.windows_proper;
      apart =
          AllPairs-replace Apart (λ x. x.id == id) f db.reservations r found sep
            (All-mono _ _ db.reservations (λ x k e. (Apart-sym x (f r) (k e), k e)) apart) v.apart;
      clear =
          All-update_first (λ x. All (Clear x) db.windows) (λ x. x.id == id) f db.reservations r
            found (λ _. c) v.clear;
    }
