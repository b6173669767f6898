-- ===== src/Booking/ReplaceSafe.antt =====
-- Replacing reservations keeps the schedule consistent.
use allocube.Prelude.{
  ℕ, ◌+◌, ◌≤◌, ◌≡◌, ◌∙◌, inl, inr, refl, sym, subst, ap, Bool, true, false, not, List, [], ◌∷◌, map,
  arith, ltb, All, AllPairs, All-mono, Bool-cases,
}
use allocube.Store.{Db, Env, Reservation, current_minute, add_audit, reservation_replace}
use allocube.Store.Error.{
  ok, ok_inj, guard, guard-true, guard-eq-ok, >>=-eq-ok, traverse, invalid_input, original_kept,
}
use allocube.Store.Rows.{update_reservation}
use allocube.Schedule.{IsConsistent}
use allocube.Schedule.Keep.{add_audit-IsConsistent, bump-IsConsistent}
use allocube.Booking.Segment.{Segment, RawSegment, to_raw, parse_segment}
use allocube.Booking.Access.{assert_user_can_submit_reservations, assert_user_can_access_segments}
use allocube.Booking.Preview.{PreviewItem}
use allocube.Booking.Overlap.{validate_no_internal_overlap}
use allocube.Booking.Usable.{ProperRows, Usable}
use allocube.Booking.Admit.{NoCollide, no_internal_overlap-NoCollide, not-true}
use allocube.Booking.Commit.{
  insert_reservation_batch, size_ok, some_unavailable, normalize_all, validate_unless,
  overlap_input,
}
use allocube.Booking.CommitSafe.{
  Writable, available_segments-Writable, All-available, insert_reservation_batch-IsConsistent,
}
use allocube.Booking.ManageSafe.{current_minute-le}
use allocube.Booking.Later.{Begins, normalize_all-Begins, available_segments-Begins}
use allocube.Booking.Replace.{
  Selected, selected_ids, distinct, selection_ok, select_originals, Prepared, preview_either,
  prepare_parsed, prepare_multiple_replacement, choose_replacements, retire, retire_all,
  only_parent, audit_replaced, Replaced, replace_multiple_reservations,
}
use allocube.Booking.Retire.{
  retire_all-Retiring, Selection, select_originals-Selection, distinct_unique,
}

-- What the checks establish of the request and of the originals.
pub record Checked (db : Db) (selection : List Selected) (auto : Bool) (p : Prepared) : Type 0 where
  pub originals : Selection db p.now selection p.originals
  pub minute : p.minute ≤ p.now
  pub choice :
      (segments : List Segment)
      → choose_replacements db p auto ≡ ok segments
      → Writable db (selected_ids selection) segments × All (Begins p.minute) segments

choice_of :
    (db : Db) (exclude : List ℕ) (minute now : ℕ) (originals : List Reservation)
    (parsed : List Segment) (items : List PreviewItem) (auto : Bool) (u : Unit {0})
    → ProperRows db
    → validate_no_internal_overlap db.catalog (overlap_input auto minute parsed) ≡ ok u
    → preview_either auto db exclude minute parsed ≡ ok items
    → (segments : List Segment)
    → choose_replacements db
        (record {
          originals = originals;
          segments = normalize_all minute parsed;
          parsed = parsed;
          items = items;
          now = now;
          minute = minute;
        })
        auto
      ≡ ok segments
    → Writable db exclude segments × All (Begins minute) segments
unfolding choose_replacements
choice_of db exclude minute now originals parsed items true u proper o previewed segments e = (
  available_segments-Writable db proper exclude minute (map to_raw parsed) items segments previewed
      e,
  available_segments-Begins db exclude minute (map to_raw parsed) items segments previewed e,
)
choice_of db exclude minute now originals parsed items false u proper o previewed segments e =
    let (free, e1) =
      guard-eq-ok (not (some_unavailable items)) original_kept (ok (normalize_all minute parsed))
        e in
    subst (λ k. Writable db exclude k × All (Begins minute) k) (ok_inj e1)
      (
        record {
          usable = All-available db proper exclude minute parsed items previewed (not-true _ free);
          apart = no_internal_overlap-NoCollide db.catalog (normalize_all minute parsed) u o;
        },
        normalize_all-Begins minute parsed,
      )

prepare_parsed-Checked :
    (env : Env) (user_id : ℕ) (selection : List Selected) (parsed : List Segment) (auto : Bool)
    (db : Db) (p : Prepared)
    → ProperRows db
    → prepare_parsed env user_id selection parsed auto db ≡ ok p
    → Checked db selection auto p
unfolding prepare_parsed
prepare_parsed-Checked env user_id selection parsed auto db p proper e =
    let now = env.clock 0 in
    let minute = current_minute now in
    let (originals, selected, e1) =
      >>=-eq-ok (select_originals env user_id now db 200 selection) _ e in
    let (_, _, e2) =
      >>=-eq-ok (validate_unless auto db minute (normalize_all minute parsed)) _ e1 in
    let (u, apart, e3) =
      >>=-eq-ok (validate_no_internal_overlap db.catalog (overlap_input auto minute parsed)) _ e2 in
    let (_, _, e4) =
      >>=-eq-ok
        (assert_user_can_access_segments db user_id (λ i. env.clock (1 + i))
          (map to_raw (normalize_all minute parsed)))
        _ e3 in
    let (items, previewed, e5) =
      >>=-eq-ok (preview_either auto db (selected_ids selection) minute parsed) _ e4 in
    subst (Checked db selection auto) (ok_inj e5) (record {
      originals = select_originals-Selection env user_id now db 200 selection originals selected;
      minute = current_minute-le now;
      choice =
          choice_of db (selected_ids selection) minute now originals parsed items auto u proper
            apart previewed;
    })

retire_all-catalog :
    (minute now user_id : ℕ) (rows : List Reservation) (db : Db)
    → (retire_all minute now user_id rows db).catalog ≡ db.catalog
unfolding retire_all retire update_reservation
retire_all-catalog minute now user_id [] db = refl
retire_all-catalog minute now user_id (r ∷ rows) db =
    retire_all-catalog minute now user_id rows (retire minute now user_id r db)
    ∙ elim (Bool-cases (ltb r.start_at minute)) [ inl e ↦ rw e refl | inr e ↦ rw e refl ]

audit_replaced-IsConsistent :
    (actor : ℕ) (rows : List Reservation) (db : Db)
    → IsConsistent db
    → IsConsistent (audit_replaced actor rows db)
unfolding audit_replaced
audit_replaced-IsConsistent actor [] db v = v
audit_replaced-IsConsistent actor (r ∷ rows) db v =
    audit_replaced-IsConsistent actor rows (add_audit actor reservation_replace r.id db)
      (add_audit-IsConsistent db v actor reservation_replace r.id)

-- Once the originals are retired, the chosen segments may be written.
retired-Writable :
    (env : Env) (user_id : ℕ) (selection : List Selected) (auto : Bool) (db : Db) (p : Prepared)
    (segments : List Segment)
    → IsConsistent db
    → selection_ok selection ≡ true
    → Checked db selection auto p
    → choose_replacements db p auto ≡ ok segments
    → let db1 = retire_all p.minute p.now user_id p.originals db in
      IsConsistent db1 × Writable db1 [] segments
unfolding selection_ok
retired-Writable env user_id selection auto db p segments v valid c chosen =
    let (w, b) = c.choice segments chosen in
    let keys = c.originals.keys in
    let unique =
      distinct_unique p.originals
        (subst (λ k. distinct k ≡ true) (sym keys) (ground (arith, valid))) in
    let done = retire_all-Retiring p.minute p.now user_id segments p.originals db (record {
      pending = record { consistent = v; found = c.originals.found; unique = unique };
      usable = subst (λ k. All (Usable db k) segments) (sym keys) w.usable;
      begins = b;
      running = All-mono _ _ p.originals (λ r h. omega (arith, h, c.minute)) c.originals.running;
    }) in
    (
      done.pending.consistent,
      record {
        usable = done.usable;
        apart =
            subst (λ k. AllPairs (NoCollide k) segments)
              (sym (retire_all-catalog p.minute p.now user_id p.originals db)) w.apart;
      },
    )

-- Replacing reservations by a new batch leaves a consistent schedule consistent: the originals keep
-- only the time before this minute, and the new ones take free time.
pub replace_multiple_reservations-IsConsistent :
    (env : Env) (user_id : ℕ) (selection : List Selected) (raws : List RawSegment)
    (auto_adjust : Bool) (db : Db) (r : Replaced × Db)
    → IsConsistent db
    → replace_multiple_reservations env user_id selection raws auto_adjust db ≡ ok r
    → IsConsistent r.1
unfolding replace_multiple_reservations prepare_multiple_replacement
replace_multiple_reservations-IsConsistent env user_id selection raws auto_adjust db r v e =
    let (_, _, e1) = >>=-eq-ok (assert_user_can_submit_reservations db user_id) _ e in
    let (p, prepared, e2) =
      >>=-eq-ok (prepare_multiple_replacement env user_id selection raws auto_adjust db) _ e1 in
    let (segments, chosen, e3) = >>=-eq-ok (choose_replacements db p auto_adjust) _ e2 in
    let db1 = retire_all p.minute p.now user_id p.originals db in
    let (written, inserted, e4) =
      >>=-eq-ok (insert_reservation_batch env 300 user_id segments (only_parent p.originals) db1) _
        e3 in
    let (_, valid, f1) = >>=-eq-ok (guard (selection_ok selection) invalid_input) _ prepared in
    let (_, _, f2) = >>=-eq-ok (guard (size_ok raws) invalid_input) _ f1 in
    let (parsed, _, f3) = >>=-eq-ok (traverse parse_segment raws) _ f2 in
    let c =
      prepare_parsed-Checked env user_id selection parsed auto_adjust db p
        (v.proper, v.windows_proper) f3 in
    let (v1, w1) =
      retired-Writable env user_id selection auto_adjust db p segments v (guard-true _ _ valid) c
        chosen in
    let v2 =
      insert_reservation_batch-IsConsistent env 300 user_id segments (only_parent p.originals) db1
        written v1 w1 inserted in
    subst IsConsistent (ap (λ (k : Replaced × Db). k.1) (ok_inj e4))
      (bump-IsConsistent _ (audit_replaced-IsConsistent user_id p.originals written.1 v2))
