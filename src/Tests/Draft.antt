-- ===== src/Tests/Draft.antt =====
-- Drafts of two groups: erasing, merging, advancing, adjusting and checking them.
use allocube.Prelude.{
  ℕ, ◌≡◌, ◌≤◌, ◌<◌, ◌+◌, ◌↔◌, refl, arith, Bool, true, false, not, ◌&&◌, ◌||◌, none, some, [], ◌∷◌,
  List, ltb, leb, any,
}
use allocube.Interval.{span, inside}
use allocube.Store.{Settings, resource_group, immediate, scheduled, current_minute}
use allocube.Store.Error.{ok, err, mismatched_preview}
use allocube.Booking.Segment.{
  Segment, minute_exact, validate_segment_times, normalize_segment_start,
}
use allocube.Tests.Data.{value_or}
use allocube.Drafts.{
  Instant, moment, SegmentInput, Draft, group_key, same_key, reservation_target_key,
  erase_calendar_draft_range, merge_calendar_drafts, Erased,
}
use allocube.Drafts.Keys.{held, requested}
use allocube.Drafts.Erase.{held-erase_calendar_draft_range}
use allocube.Drafts.Merge.{held-merge_calendar_drafts}
use allocube.Drafts.Advance.{advance_calendar_drafts, advance_calendar_drafts_idem}
use allocube.Drafts.Adjust.{PreviewItem, Adjusted, adjust_drafts_to_availability}
use allocube.Drafts.Offer.{offers, held-adjust_drafts_to_availability}
use allocube.Drafts.Ids.{WellNumbered, erase_calendar_draft_range-WellNumbered}
use allocube.Drafts.Issues.{
  start_in_past, calendar_draft_field_issues, calendar_draft_issues, mixed_drafts,
}
use allocube.Drafts.Admissible.{no_issues, restarted, Passes, calendar_draft_field_issues_iff}
use allocube.Drafts.Accepted.{IsAccepted, calendar_draft_issues-IsAccepted}

abbrev input : ℕ → ℕ → ℕ → SegmentInput
input group a b = record {
  scope = some resource_group;
  machine_id = some 1;
  resource_group_id = group;
  start_mode = some scheduled;
  start_at = moment a;
  end_at = moment b;
  title = none;
  purpose = none;
  note = none;
}

abbrev draft : ℕ → ℕ → ℕ → ℕ → Draft
draft id group a b = record { id = id; input = input group a b }

-- Two drafts of group 5 and one of group 6.
abbrev drafts : List Draft
drafts = draft 1 5 60000 300000 ∷ draft 2 6 60000 120000 ∷ draft 3 5 420000 480000 ∷ []

abbrev fresh : ℕ → ℕ
fresh call = 100 + call

fresh_injective : (a b : ℕ) → fresh a ≡ fresh b → a ≡ b
fresh_injective a b h = omega (arith, h)

abbrev erased : Erased
erased =
    erase_calendar_draft_range fresh drafts (input 5 0 0) (moment 120000) (moment 180000) none 0

-- The first draft falls into two parts.
erased_run : erased ≡ record {
  calls = 1;
  drafts =
      draft 1 5 60000 120000
      ∷ draft 100 5 180000 300000
      ∷ draft 2 6 60000 120000
      ∷ draft 3 5 420000 480000
      ∷ [];
  changed = true;
}
unfolding erase_calendar_draft_range
erased_run = refl

held-erase_calendar_draft_range_example : held (group_key 5) 150000 erased.drafts ≡ (
    held (group_key 5) 150000 drafts
    && not (
        same_key (group_key 5) (reservation_target_key (input 5 0 0))
        && inside 150000 (span 120000 180000)))
held-erase_calendar_draft_range_example =
    held-erase_calendar_draft_range fresh drafts (input 5 0 0) 120000 180000 none 0 (group_key 5)
      150000

drafts-WellNumbered : WellNumbered fresh 0 drafts
drafts-WellNumbered = (
  (
    ((λ e. omega (arith, e)), ((λ e. omega (arith, e)), tt)),
    (((λ e. omega (arith, e)), tt), (tt, tt)),
  ),
  (
    (λ call l e. omega (arith, e)),
    ((λ call l e. omega (arith, e)), ((λ call l e. omega (arith, e)), tt)),
  ),
)

erase_calendar_draft_range-WellNumbered_example : WellNumbered fresh erased.calls erased.drafts
erase_calendar_draft_range-WellNumbered_example =
    erase_calendar_draft_range-WellNumbered fresh drafts (input 5 0 0) (moment 120000)
      (moment 180000) none 0 fresh_injective drafts-WellNumbered

-- The added span joins both drafts of group 5.
merge_run :
    merge_calendar_drafts fresh drafts (input 5 240000 420000 ∷ []) none 0
    ≡ (0, draft 1 5 60000 480000 ∷ draft 2 6 60000 120000 ∷ [])
unfolding merge_calendar_drafts
merge_run = refl

held-merge_calendar_drafts_example :
    held
      (group_key 5)
      350000
      (merge_calendar_drafts fresh drafts (input 5 240000 420000 ∷ []) none 0).1
    ≡ (held (group_key 5) 350000 drafts
        || requested (group_key 5) 350000 (input 5 240000 420000 ∷ []))
held-merge_calendar_drafts_example =
    held-merge_calendar_drafts fresh drafts (input 5 240000 420000 ∷ []) none 0 (group_key 5) 350000

-- At 120000 the draft of group 6 is over, and the first one runs.
advance_run :
    (advance_calendar_drafts (moment 120000) drafts).drafts
    ≡ record { id = 1; input = record (input 5 120000 300000) { start_mode = some immediate } }
      ∷ draft 3 5 420000 480000
      ∷ []
unfolding advance_calendar_drafts
advance_run = refl

advance_calendar_drafts_idem_example :
    advance_calendar_drafts (moment 120000) (advance_calendar_drafts (moment 120000) drafts).drafts
    ≡ record { drafts = (advance_calendar_drafts (moment 120000) drafts).drafts; changed = false }
advance_calendar_drafts_idem_example = advance_calendar_drafts_idem (moment 120000) drafts

-- The server offers the first draft in two parts.
abbrev answer : List PreviewItem
answer =
    record {
      input = input 5 60000 300000;
      available = false;
      split_segments = input 5 60000 120000 ∷ input 5 240000 300000 ∷ [];
    }
    ∷ record { input = input 6 60000 120000; available = true; split_segments = [] }
    ∷ record { input = input 5 420000 480000; available = true; split_segments = [] }
    ∷ []

abbrev adjusted : Adjusted
unfolding adjust_drafts_to_availability
adjusted =
    value_or (record { calls = 0; drafts = []; changed = false })
      (adjust_drafts_to_availability fresh drafts answer 0)

adjusts : adjust_drafts_to_availability fresh drafts answer 0 ≡ ok adjusted
unfolding adjust_drafts_to_availability
adjusts = refl

held-adjust_drafts_to_availability_example :
    held (group_key 5) 150000 adjusted.drafts ≡ any (offers (group_key 5) 150000) answer
unfolding reservation_target_key
held-adjust_drafts_to_availability_example =
    held-adjust_drafts_to_availability fresh drafts answer 0 adjusted (group_key 5) 150000
      (((refl, refl), ((refl, refl), tt)), ((refl, refl), ((refl, refl), tt))) adjusts

-- The answer to other drafts is refused.
other_answer :
    adjust_drafts_to_availability fresh
      (draft 1 6 60000 300000 ∷ [])
      (record { input = input 5 60000 300000; available = true; split_segments = [] } ∷ [])
      0
    ≡ err mismatched_preview
unfolding adjust_drafts_to_availability
other_answer = refl

abbrev week : Settings
week = record { advance_days = 7; block_admin_bookings = false }

abbrev segment : Segment
segment = record {
  scope = resource_group;
  machine_id = some 1;
  resource_group_id = 5;
  start_mode = scheduled;
  start_at = 60000;
  end_at = 300000;
  title = [];
  purpose = [];
  note = [];
}

-- A segment whose start has passed, and the draft of its times.
abbrev begun : Segment
begun = record segment { start_at = 60000 }

calendar_draft_field_issues_iff_example :
    ((calendar_draft_field_issues (restarted (draft 1 5 60000 300000) begun 130000) 7 130000
        ≡ no_issues)
      ↔ Passes week begun 130000)
    × ((calendar_draft_field_issues (draft 1 5 60000 300000) 7 130000 ≡ no_issues)
        ↔ ((current_minute 130000 ≤ 60000) × (60000 < 300000) × Passes week begun 130000))
unfolding minute_exact
calendar_draft_field_issues_iff_example =
    calendar_draft_field_issues_iff week begun (draft 1 5 60000 300000) 130000 refl refl refl

-- The server takes it from the present minute on; the calendar reports it.
begun_accepted : Passes week begun 130000
unfolding validate_segment_times normalize_segment_start current_minute
begun_accepted = refl

begun_reported :
    calendar_draft_field_issues (draft 1 5 60000 300000) 7 130000
    ≡ record { start_at = some start_in_past; end_at = none }
unfolding calendar_draft_field_issues
begun_reported = refl

-- The order of texts of times before the year 10000.
abbrev before : Instant → Instant → Bool
before (moment a) (moment b) = ltb a b
before _ _ = false

abbrev not_after : Instant → Instant → Bool
not_after (moment a) (moment b) = leb a b
not_after _ _ = true

quiet : calendar_draft_issues before not_after drafts 7 61000 false ≡ []
unfolding calendar_draft_issues
quiet = refl

calendar_draft_issues-IsAccepted_example :
    IsAccepted 7 61000 drafts × ((not false && mixed_drafts drafts) ≡ false)
calendar_draft_issues-IsAccepted_example =
    calendar_draft_issues-IsAccepted before not_after drafts 7 61000 false (λ a b. refl)
      (λ a b. refl) quiet
