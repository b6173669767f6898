-- ===== src/Drafts/Issues.antt =====
-- What the calendar says of drafts before they are sent (src/calendar-state.ts):
-- calendarDraftFieldIssues and calendarDraftIssues. `before` and `not_after` are the orders of the
-- texts of times, `<` and localeCompare.
use allocube.Prelude.{
  ℕ, ◌+◌, ◌*◌, ◌/◌, Bool, true, false, not, ◌&&◌, ◌||◌, Option, none, some, List, [], ◌∷◌, ◌++◌,
  map, filter, any, flat_map, ltb, leb, length, if◌then◌else◌,
}
use allocube.Store.{Scope, resource_group, day_ms, minute_ms}
use allocube.Booking.Segment.{or_else}
use allocube.Booking.Overlap.{same_scope}
use allocube.Drafts.{
  Instant, moment, no_date, TargetKey, same_key, reservation_target_key, Draft, distinct_keys,
}

pub data Issue : Type 0 where
  too_many_drafts mixed_scopes start_invalid end_not_after_start : Issue
  start_in_past end_beyond_horizon drafts_overlap : Issue

pub record FieldIssues : Type 0 where
  pub start_at : Option Issue
  pub end_at : Option Issue

abbrev pub issue_if : Bool → Issue → Option Issue
issue_if true issue = some issue
issue_if false issue = none

unfoldable pub span_issues : ℕ → ℕ → Instant → Instant → FieldIssues
span_issues advance_days now (no_date a) b = record { start_at = some start_invalid; end_at = none }
span_issues advance_days now (moment a) (no_date b) = record {
  start_at = none;
  end_at = some end_not_after_start;
}
span_issues advance_days now (moment a) (moment b) =
    if leb b a then record { start_at = none; end_at = some end_not_after_start } else record {
      start_at = issue_if (ltb a ((now / minute_ms) * minute_ms)) start_in_past;
      end_at = issue_if (ltb (now + advance_days * day_ms) b) end_beyond_horizon;
    }

unfoldable pub calendar_draft_field_issues : Draft → ℕ → ℕ → FieldIssues
unfolding span_issues
calendar_draft_field_issues d advance_days now =
    span_issues advance_days now d.input.start_at d.input.end_at

abbrev pub issue_list : FieldIssues → List Issue
issue_list fields = present fields.start_at ++ present fields.end_at
  where
    present : Option Issue → List Issue
    present none = []
    present (some issue) = issue ∷ []

abbrev pub draft_scope : Draft → Scope
draft_scope d = or_else d.input.scope resource_group

-- `new Set(scopes).size > 1`
unfoldable pub mixed_drafts : List Draft → Bool
mixed_drafts [] = false
mixed_drafts (d ∷ ds) = any (λ e. not (same_scope (draft_scope d) (draft_scope e))) ds

abbrev pub same_issue : Issue → Issue → Bool
same_issue too_many_drafts too_many_drafts = true
same_issue mixed_scopes mixed_scopes = true
same_issue start_invalid start_invalid = true
same_issue end_not_after_start end_not_after_start = true
same_issue start_in_past start_in_past = true
same_issue end_beyond_horizon end_beyond_horizon = true
same_issue drafts_overlap drafts_overlap = true
same_issue _ _ = false

-- `Array.from(new Set(issues))`
unfoldable pub distinct_issues : List Issue → List Issue → List Issue
distinct_issues seen [] = []
distinct_issues seen (i ∷ is) =
    let skipped = distinct_issues seen is in
    let kept = distinct_issues (i ∷ seen) is in
    if any (same_issue i) seen then skipped else i ∷ kept

unfoldable pub bucket : TargetKey → List Draft → List Draft
unfolding same_key reservation_target_key
bucket key = filter (λ d. same_key (reservation_target_key d.input) key)

abbrev pub push_if : Bool → Issue → List Issue
push_if true issue = issue ∷ []
push_if false issue = []

module _ (before not_after : Instant → Instant → Bool) where
  unfoldable pub insert_draft : Draft → List Draft → List Draft
  insert_draft d [] = d ∷ []
  insert_draft d (e ∷ es) =
      let rest = insert_draft d es in
      if not_after d.input.start_at e.input.start_at then d ∷ e ∷ es else e ∷ rest

  -- `[...bucket].sort((a, b) => a.startAt.localeCompare(b.startAt))`
  unfoldable pub sort_drafts : List Draft → List Draft
  unfolding insert_draft
  sort_drafts [] = []
  sort_drafts (d ∷ ds) = insert_draft d (sort_drafts ds)

  -- A draft that starts before its predecessor ends.
  unfoldable pub overlap_after : Draft → List Draft → Bool
  overlap_after d [] = false
  overlap_after d (e ∷ es) = before e.input.start_at d.input.end_at || overlap_after e es

  unfoldable pub bucket_overlaps : List Draft → Bool
  unfolding overlap_after
  bucket_overlaps [] = false
  bucket_overlaps (d ∷ ds) = overlap_after d ds

  unfoldable pub calendar_draft_issues : List Draft → ℕ → ℕ → Bool → List Issue
  unfolding mixed_drafts distinct_issues calendar_draft_field_issues sort_drafts overlap_after
      bucket_overlaps distinct_keys bucket reservation_target_key same_key
  calendar_draft_issues drafts advance_days now allow_mixed_scopes = distinct_issues [] (
      push_if (ltb 100 (length drafts)) too_many_drafts
      ++ push_if (not allow_mixed_scopes && mixed_drafts drafts) mixed_scopes
      ++ flat_map (λ d. issue_list (calendar_draft_field_issues d advance_days now)) drafts
      ++ flat_map
          (λ key. push_if (bucket_overlaps (sort_drafts (bucket key drafts))) drafts_overlap)
          (distinct_keys [] (map (λ d. reservation_target_key d.input) drafts)))
