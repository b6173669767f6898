-- ===== src/Drafts/Admissible.antt =====
-- The calendar (src/calendar-state.ts) and the server (server/scheduling.ts, validateSegmentTimes)
-- accept the same times.
use allocube.Prelude.{
  ℕ, ◌≤◌, ◌<◌, ◌||◌, lt→ltb, le→leb, Bool-cases, inl, inr, ◌≡◌, ◌+◌, ◌*◌, ◌/◌, ◌%◌, ◌↔◌, refl, sym,
  ap, subst, ◌∙◌, arith, Bool, true, false, not, none, some, leb, ltb, ==_iff, if◌then◌else◌,
}
use allocube.Store.{Settings, day_ms, minute_ms, current_minute}
use allocube.Store.Error.{Error, Result, ok, guard, ◌>>◌, beyond_horizon}
use allocube.Booking.Segment.{
  Segment, minute_exact, validate_segment_times, normalize_segment_start, is_immediate,
}
use allocube.Drafts.{moment, Draft}
use allocube.Drafts.Issues.{
  FieldIssues, issue_if, start_in_past, end_beyond_horizon, end_not_after_start, span_issues,
  calendar_draft_field_issues,
}

abbrev pub no_issues : FieldIssues
no_issues = record { start_at = none; end_at = none }

-- A whole minute is within a span of days of the present when it is so of the present minute.
whole_minute_horizon :
    (now days e : ℕ)
    → e % 60000 ≡ 0
    → ltb (now + days * 86400000) e ≡ not (leb e ((now / 60000) * 60000 + days * 86400000))
whole_minute_horizon now days e h = ground (arith, h)

abbrev checks : Bool → Bool → Bool → Result (Unit {0})
checks x y z =
    guard x Error.end_not_after_start >> (guard y Error.start_in_past >> guard z beyond_horizon)

-- Three tests, reported one way or the other.
three_tests :
    (x y z : Bool)
    → ((if x then record { start_at = none; end_at = some end_not_after_start } else record {
      start_at = issue_if y start_in_past;
      end_at = issue_if z end_beyond_horizon;
    })
        ≡ no_issues)
      ↔ (checks (not x) (not y) (not z) ≡ ok tt)
three_tests true y z = ((λ h. absurd (cc h)), (λ h. absurd (cc h)))
three_tests false true z = ((λ h. absurd (cc h)), (λ h. absurd (cc h)))
three_tests false false true = ((λ h. absurd (cc h)), (λ h. absurd (cc h)))
three_tests false false false = ((λ h. refl), (λ h. refl))

-- The calendar and validateSegmentTimes, on the same times.
same_times_iff :
    (settings : Settings) (s : Segment) (d : Draft) (now : ℕ)
    → d.input.start_at ≡ moment s.start_at
    → d.input.end_at ≡ moment s.end_at
    → minute_exact s.end_at ≡ true
    → (calendar_draft_field_issues d settings.advance_days now ≡ no_issues)
      ↔ (validate_segment_times settings s (current_minute now) ≡ ok tt)
unfolding calendar_draft_field_issues span_issues validate_segment_times current_minute minute_exact
same_times_iff settings s d now from to exact =
    let whole : s.end_at % 60000 ≡ 0 = (==_iff (s.end_at % 60000) 0).0 exact in
    let horizon = whole_minute_horizon now settings.advance_days s.end_at whole in
    let minute = (now / minute_ms) * minute_ms in
    let late = ltb (now + settings.advance_days * day_ms) s.end_at in
    let ordered : ltb s.start_at s.end_at ≡ not (leb s.end_at s.start_at) = ground arith in
    let begun : leb minute s.start_at ≡ not (ltb s.start_at minute) = ground arith in
    let near : leb s.end_at (minute + settings.advance_days * day_ms) ≡ not late =
      ground (arith, horizon) in
    rw (from, to)
      (subst
        (λ r.
          (span_issues settings.advance_days now (moment s.start_at) (moment s.end_at) ≡ no_issues)
          ↔ (r ≡ ok tt))
        (sym (
          ap
            (λ x.
              checks x (leb minute s.start_at)
                (leb s.end_at (minute + settings.advance_days * day_ms)))
            ordered
          ∙ ap
              (λ y.
                checks (not (leb s.end_at s.start_at)) y
                  (leb s.end_at (minute + settings.advance_days * day_ms)))
              begun
          ∙ ap (checks (not (leb s.end_at s.start_at)) (not (ltb s.start_at minute))) near))
        (three_tests (leb s.end_at s.start_at) (ltb s.start_at minute) late))

-- validateSegmentTimes, as its three conditions.
validate_iff :
    (settings : Settings) (s : Segment) (minute : ℕ)
    → (validate_segment_times settings s minute ≡ ok tt) ↔ (
        (s.start_at < s.end_at)
        × (minute ≤ s.start_at)
        × (s.end_at ≤ minute + settings.advance_days * day_ms))
unfolding validate_segment_times
validate_iff settings s minute = (
  (λ h. (ground (arith, h), ground (arith, h), ground (arith, h))),
  (λ h. rw (lt→ltb _ _ h.0, le→leb _ _ h.1, le→leb _ _ h.2) refl),
)

-- The server never moves a start that lies ahead to a later time, nor before the present minute.
normalized_times :
    (s : Segment) (minute : ℕ)
    → minute ≤ s.start_at
    → let n = normalize_segment_start s minute in
      (n.start_at ≤ s.start_at) × (minute ≤ n.start_at) × (n.end_at ≡ s.end_at)
unfolding normalize_segment_start
normalized_times s minute h =
    elim (Bool-cases (is_immediate s.start_mode || leb s.start_at minute)) [
      | inl e ↦ rw e (h, omega arith, refl)
      | inr e ↦ rw e (omega arith, h, refl)
    ]

-- The server passes the times of a segment, in the minute of `now`.
abbrev pub Passes : Settings → Segment → ℕ → Type 0
Passes settings s now =
    validate_segment_times settings (normalize_segment_start s (current_minute now))
      (current_minute now)
    ≡ ok tt

-- The draft with the start that the server gives the segment.
abbrev pub restarted : Draft → Segment → ℕ → Draft
restarted d s now = record d {
  input = record d.input {
    start_at = moment (normalize_segment_start s (current_minute now)).start_at;
  };
}

normalize-end_at : (s : Segment) (minute : ℕ) → (normalize_segment_start s minute).end_at ≡ s.end_at
unfolding normalize_segment_start
normalize-end_at s minute = elim (Bool-cases (is_immediate s.start_mode || leb s.start_at minute)) [
  | inl e ↦ rw e refl
  | inr e ↦ rw e refl
]

-- For a draft with the times of a segment, on whole minutes and within one minute: the calendar
-- finds no issue with the draft, once its start is the one that the server gives the segment,
-- exactly when the server passes the segment; and with the draft as it stands exactly when also its
-- start is not before the present minute, and before its end.
pub calendar_draft_field_issues_iff :
    (settings : Settings) (s : Segment) (d : Draft) (now : ℕ)
    → d.input.start_at ≡ moment s.start_at
    → d.input.end_at ≡ moment s.end_at
    → minute_exact s.end_at ≡ true
    → ((calendar_draft_field_issues (restarted d s now) settings.advance_days now ≡ no_issues)
        ↔ Passes settings s now)
      × ((calendar_draft_field_issues d settings.advance_days now ≡ no_issues)
          ↔ ((current_minute now ≤ s.start_at) × (s.start_at < s.end_at) × Passes settings s now))
calendar_draft_field_issues_iff settings s d now from to exact =
    let minute = current_minute now in
    let n = normalize_segment_start s minute in
    let ends : n.end_at ≡ s.end_at = normalize-end_at s minute in
    let plain = same_times_iff settings s d now from to exact in
    let own = validate_iff settings s minute in
    let new = validate_iff settings n minute in
    (
      same_times_iff settings n (restarted d s now) now refl (to ∙ ap moment (sym ends))
          (ap minute_exact ends ∙ exact),
      (
        (λ h.
            let (ordered, ahead, near) = own.0 (plain.0 h) in
            let (earlier, kept, same) = normalized_times s minute ahead in
            (
              ahead,
              ordered,
              new.1 (omega (arith, ordered, earlier, same), kept, omega (arith, near, same)),
            )),
        (λ h.
            let (later, kept, near) = new.0 h.2 in
            plain.1 (own.1 (h.1, h.0, omega (arith, near, ends)))),
      ),
    )
