-- ===== src/Drafts.antt =====
-- The drafts of the calendar before they are sent (src/calendar-state.ts): erasing a span, merging
-- in new spans, and the passing of time. A time is a text that is a date, given by its milliseconds,
-- or another text; `create_id` is the callback createId, whose n-th call gives `create_id n`, and `n` counts
-- the calls made.
pub mod Keys
pub mod Assign
pub mod Erase
pub mod Merge
pub mod Advance
pub mod Adjust
pub mod Offer
pub mod Ids
pub mod Issues
pub mod Admissible
pub mod Bucket
pub mod Accepted
use allocube.Prelude.{
  ℕ, suc, Bool, true, false, not, ◌&&◌, ◌||◌, Option, none, some, List, [], ◌∷◌, ◌++◌, map, ltb,
  leb, ◌==◌, if◌then◌else◌, filter, any, flat_map, min, max,
}
use allocube.Interval.{Span, span, inside, nonempty, merge_time_ranges}
use allocube.Store.{Scope, resource_group, machine, StartMode, immediate, scheduled, Text}
use allocube.Booking.Segment.{or_else}

pub data Instant : Type 0 where
  moment no_date : ℕ → Instant

-- ReservationSegmentInput
pub record SegmentInput : Type 0 where
  pub scope : Option Scope
  pub machine_id : Option ℕ
  pub resource_group_id : ℕ
  pub start_mode : Option StartMode
  pub start_at : Instant
  pub end_at : Instant
  pub title : Option Text
  pub purpose : Option Text
  pub note : Option Text

-- CalendarDraft
pub record Draft : Type 0 where
  pub id : ℕ
  pub input : SegmentInput

-- The texts "MACHINE:…" and "GROUP:…".
pub data TargetKey : Type 0 where
  machine_key group_key : ℕ → TargetKey

unfoldable pub reservation_target_key : SegmentInput → TargetKey
reservation_target_key i = elim i.scope [
  | some machine ↦ machine_key (or_else i.machine_id i.resource_group_id)
  | _ ↦ group_key i.resource_group_id
]

unfoldable pub same_key : TargetKey → TargetKey → Bool
same_key (machine_key a) (machine_key b) = a == b
same_key (group_key a) (group_key b) = a == b
same_key _ _ = false

-- The span of an input whose times are both dates.
abbrev pub times_of : Instant → Instant → Option Span
times_of (moment a) (moment b) = some (span a b)
times_of _ _ = none

abbrev pub times : SegmentInput → Option Span
times i = times_of i.start_at i.end_at

-- The start mode that a boundary sets, where one is given and is a date.
abbrev pub mode_at : Option ℕ → ℕ → Option StartMode → Option StartMode
mode_at none start old = old
mode_at (some boundary) start old = some (if leb start boundary then immediate else scheduled)

-- `{ ...input, ...range, startMode }`
abbrev pub placed : Option ℕ → SegmentInput → Span → SegmentInput
placed boundary i s = record i {
  start_at = moment s.start;
  end_at = moment s.end;
  start_mode = mode_at boundary s.start i.start_mode;
}

module _ (create_id : ℕ → ℕ) where
  -- `xs.map((x, index) => make(ids[index] ?? createId(), x))`
  unfoldable pub assign {ℓ} : {A : Type ℓ} → (ℕ → A → Draft) → List ℕ → ℕ → List A → ℕ × List Draft
  assign make ids n [] = (n, [])
  assign make [] n (x ∷ xs) =
      let rest = assign make [] (suc n) xs in (rest.0, make (create_id n) x ∷ rest.1)
  assign make (id ∷ ids) n (x ∷ xs) =
      let rest = assign make ids n xs in (rest.0, make id x ∷ rest.1)

-- `xs.flatMap(f)`, where f may call createId.
unfoldable pub flat_map_counted {ℓ} :
    {A : Type ℓ} → (ℕ → A → ℕ × List Draft) → ℕ → List A → ℕ × List Draft
flat_map_counted f n [] = (n, [])
flat_map_counted f n (x ∷ xs) =
    let own = f n x in let rest = flat_map_counted f own.0 xs in (rest.0, own.1 ++ rest.1)

-- A draft of the target that meets the erased span.
abbrev pub meets : Span → Option Span → Bool
meets erased none = false
meets erased (some s) = not (leb erased.end s.start || leb s.end erased.start)

abbrev pub touched : TargetKey → Span → Draft → Bool
touched key erased d = same_key (reservation_target_key d.input) key && meets erased (times d.input)

-- What is left before and after the erased span.
unfoldable pub remaining : Span → Span → List Span
remaining erased s =
    filter nonempty
      (span s.start (min s.end erased.start) ∷ span (max s.start erased.end) s.end ∷ [])

unfoldable pub pieces_of : Span → Option Span → List Span
unfolding remaining
pieces_of erased none = []
pieces_of erased (some s) = remaining erased s

unfoldable pub erase_draft : (ℕ → ℕ) → TargetKey → Span → Option ℕ → ℕ → Draft → ℕ × List Draft
unfolding assign reservation_target_key same_key pieces_of
erase_draft create_id key erased boundary n d =
    if touched key erased d
    then assign create_id (λ id s. record { id = id; input = placed boundary d.input s })
        (d.id ∷ []) n (pieces_of erased (times d.input))
    else (n, d ∷ [])

pub record Erased : Type 0 where
  pub calls : ℕ
  pub drafts : List Draft
  pub changed : Bool

unfoldable pub erase_calendar_draft_range :
    (ℕ → ℕ) → List Draft → SegmentInput → Instant → Instant → Option ℕ → ℕ → Erased
unfolding erase_draft flat_map_counted reservation_target_key same_key
erase_calendar_draft_range create_id drafts target erased_start erased_end boundary n =
    elim (times_of erased_start erased_end) [
      | none ↦ record { calls = n; drafts = drafts; changed = false }
      | some erased ↦
          if leb erased.end erased.start
          then record { calls = n; drafts = drafts; changed = false }
          else let key = reservation_target_key target in
            let next = flat_map_counted (erase_draft create_id key erased boundary) n drafts in
            record { calls = next.0; drafts = next.1; changed = any (touched key erased) drafts }
    ]

-- `Array.from(new Set(keys))`: each key where it stands first.
unfoldable pub distinct_keys : List TargetKey → List TargetKey → List TargetKey
unfolding same_key
distinct_keys seen [] = []
distinct_keys seen (k ∷ ks) =
    let skipped = distinct_keys seen ks in
    let kept = distinct_keys (k ∷ seen) ks in if any (same_key k) seen then skipped else k ∷ kept

abbrev pub valid_span : Option Span → Bool
valid_span none = false
valid_span (some s) = nonempty s

abbrev pub to_list {ℓ} : {A : Type ℓ} → Option A → List A
to_list none = []
to_list (some a) = a ∷ []

-- mergeTimeRanges on inputs: those without times are passed over.
abbrev pub spans_of : List SegmentInput → List Span
spans_of = flat_map (λ i. to_list (times i))

abbrev pub first_of {ℓ} : {A : Type ℓ} → List A → List A → List A → Option A
first_of (x ∷ xs) ys zs = some x
first_of [] (y ∷ ys) zs = some y
first_of [] [] (z ∷ zs) = some z
first_of [] [] [] = none

abbrev pub of_key : TargetKey → List SegmentInput → List SegmentInput
unfolding same_key reservation_target_key
of_key key = filter (λ i. same_key (reservation_target_key i) key)

-- The merged drafts of a target, which copy one input of it, and the drafts without a span.
unfoldable pub merged_of :
    (ℕ → ℕ)
    → Option ℕ
    → List Draft
    → List Draft
    → List Span
    → ℕ
    → Option SegmentInput
    → ℕ × List Draft
unfolding assign
merged_of create_id boundary valid invalid ranges n none = (n, invalid)
merged_of create_id boundary valid invalid ranges n (some target) =
    let made =
      assign create_id (λ id s. record { id = id; input = placed boundary target s })
        (map (λ d. d.id) valid) n ranges in
    (made.0, made.1 ++ invalid)

unfoldable pub merge_target :
    (ℕ → ℕ) → List Draft → List SegmentInput → Option ℕ → ℕ → TargetKey → ℕ × List Draft
unfolding merged_of merge_time_ranges reservation_target_key same_key
merge_target create_id drafts additions boundary n key =
    let existing = filter (λ d. same_key (reservation_target_key d.input) key) drafts in
    let new = of_key key additions in
    let valid = filter (λ d. valid_span (times d.input)) existing in
    let invalid = filter (λ d. not (valid_span (times d.input))) existing in
    let ranges = merge_time_ranges (spans_of (map (λ d. d.input) valid ++ new)) in
    merged_of create_id boundary valid invalid ranges n
      (first_of (map (λ d. d.input) valid) new (map (λ d. d.input) existing))

unfoldable pub merge_calendar_drafts :
    (ℕ → ℕ) → List Draft → List SegmentInput → Option ℕ → ℕ → ℕ × List Draft
unfolding merge_target flat_map_counted distinct_keys reservation_target_key
merge_calendar_drafts create_id drafts additions boundary n =
    flat_map_counted (merge_target create_id drafts additions boundary) n (
      distinct_keys []
        (map (λ d. reservation_target_key d.input) drafts ++ map reservation_target_key additions))
