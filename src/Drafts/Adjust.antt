-- ===== src/Drafts/Adjust.antt =====
-- What an answer of the server does to the drafts (src/calendar-state.ts): previewsByDraftId,
-- splitDrafts and adjustDraftsToAvailability.
use allocube.Prelude.{
  ℕ, Bool, false, not, ◌&&◌, ◌||◌, Option, none, some, List, [], ◌∷◌, ◌++◌, ◌==◌, length,
  if◌then◌else◌,
}
use allocube.Store.Error.{Result, ok, guard, ◌>>◌, ◌>>=◌, incomplete_preview, mismatched_preview}
use allocube.Resources.{put}
use allocube.Drafts.{Instant, moment, no_date, SegmentInput, Draft, assign, flat_map_counted}

-- ReservationPreviewItem, without its conflicts, which are shown only.
pub record PreviewItem : Type 0 where
  pub input : SegmentInput
  pub available : Bool
  pub split_segments : List SegmentInput

-- previewsByDraftId: the items by the identifier of the draft at their place.
unfoldable pub previews_by_draft_id :
    List Draft → List PreviewItem → (ℕ → Option PreviewItem) → ℕ → Option PreviewItem
previews_by_draft_id [] items found = found
previews_by_draft_id (d ∷ ds) [] found = found
previews_by_draft_id (d ∷ ds) (item ∷ items) found =
    previews_by_draft_id ds items (put d.id (some item) found)

-- One draft under its item, where there is one.
unfoldable pub split_draft : (ℕ → ℕ) → ℕ → Draft → Option PreviewItem → ℕ × List Draft
unfolding assign
split_draft create_id n d none = (n, d ∷ [])
split_draft create_id n d (some item) =
    if item.available
    then (n, d ∷ [])
    else assign create_id (λ id segment. record { id = id; input = segment }) [] n
        item.split_segments

unfoldable pub split_drafts : (ℕ → ℕ) → List Draft → (ℕ → Option PreviewItem) → ℕ → ℕ × List Draft
unfolding split_draft flat_map_counted
split_drafts create_id drafts previews n =
    flat_map_counted (λ m d. split_draft create_id m d (previews d.id)) n drafts

abbrev pub same_instant : Instant → Instant → Bool
same_instant (moment a) (moment b) = a == b
same_instant (no_date a) (no_date b) = a == b
same_instant _ _ = false

-- `{ ...draft, ...segment }`: a field that the segment has replaces the draft's.
abbrev pub over {ℓ} : {A : Type ℓ} → Option A → Option A → Option A
over none old = old
over (some new) old = some new

abbrev pub overlaid : SegmentInput → SegmentInput → SegmentInput
overlaid i segment = record {
  scope = over segment.scope i.scope;
  machine_id = over segment.machine_id i.machine_id;
  resource_group_id = segment.resource_group_id;
  start_mode = over segment.start_mode i.start_mode;
  start_at = segment.start_at;
  end_at = segment.end_at;
  title = over segment.title i.title;
  purpose = over segment.purpose i.purpose;
  note = over segment.note i.note;
}

abbrev pub offered : PreviewItem → List SegmentInput
offered item = if item.available then item.input ∷ [] else item.split_segments

-- `ranges.length === 1`, with the times of the draft.
abbrev pub unchanged : SegmentInput → List SegmentInput → Bool
unchanged i (s ∷ []) = same_instant s.start_at i.start_at && same_instant s.end_at i.end_at
unchanged i _ = false

abbrev pub fits_draft : PreviewItem → Draft → Bool
fits_draft item d =
    (item.input.resource_group_id == d.input.resource_group_id)
    && same_instant item.input.end_at d.input.end_at

pub record Adjusted : Type 0 where
  pub calls : ℕ
  pub drafts : List Draft
  pub changed : Bool

-- One draft under the segments that are offered for it.
unfoldable pub adjust_draft : (ℕ → ℕ) → Draft → List SegmentInput → ℕ → ℕ × List Draft
unfolding assign
adjust_draft create_id d segments n =
    if unchanged d.input segments
    then (n, d ∷ [])
    else assign create_id (λ id segment. record { id = id; input = overlaid d.input segment })
        (d.id ∷ []) n segments

unfoldable pub adjust_all : (ℕ → ℕ) → List Draft → List PreviewItem → ℕ → Result Adjusted
unfolding adjust_draft
adjust_all create_id (d ∷ ds) (item ∷ items) n =
    guard (fits_draft item d) mismatched_preview
    >> (let own = adjust_draft create_id d (offered item) n in
        adjust_all create_id ds items own.0 >>= λ rest. ok (record {
          calls = rest.calls;
          drafts = own.1 ++ rest.drafts;
          changed = not (unchanged d.input (offered item)) || rest.changed;
        }))
adjust_all create_id _ _ n = ok (record { calls = n; drafts = []; changed = false })

unfoldable pub adjust_drafts_to_availability :
    (ℕ → ℕ) → List Draft → List PreviewItem → ℕ → Result Adjusted
unfolding adjust_all
adjust_drafts_to_availability create_id drafts items n =
    guard (length items == length drafts) incomplete_preview
    >> (adjust_all create_id drafts items n >>= λ next.
        ok (record next { drafts = if next.changed then next.drafts else drafts }))
