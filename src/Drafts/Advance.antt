-- ===== src/Drafts/Advance.antt =====
-- The passing of time over the drafts (src/calendar-state.ts, advanceCalendarDrafts).
use allocube.Prelude.{
  ℕ, ◌≡◌, ◌≤◌, ◌<◌, ◌⊎◌, refl, ◌∙◌, arith, Bool, true, false, not, ◌||◌, Option, none, some, List,
  [], ◌∷◌, ◌++◌, any-append, leb, ◌==◌, ==_refl, All, All-append, if◌then◌else◌, Bool-cases, inl,
  inr,
}
use allocube.Store.{StartMode, immediate, scheduled}
use allocube.Interval.{Span}
use allocube.Drafts.{
  Instant, moment, no_date, TargetKey, reservation_target_key, SegmentInput, Draft, times,
}
use allocube.Drafts.Keys.{asks, held}

abbrev pub is_immediate : Option StartMode → Bool
is_immediate (some immediate) = true
is_immediate _ = false

abbrev pub is_scheduled : Option StartMode → Bool
is_scheduled (some scheduled) = true
is_scheduled _ = false

pub record Step : Type 0 where
  pub drafts : List Draft
  pub changed : Bool

abbrev step : List Draft → Bool → Step
step drafts changed = record { drafts = drafts; changed = changed }

-- One draft, whose times are both dates.
unfoldable pub advance_span : ℕ → Draft → Span → Step
advance_span boundary d s =
    if not (is_immediate d.input.start_mode || leb s.start boundary)
    then if is_scheduled d.input.start_mode
      then step (d ∷ []) false
      else step (record { id = d.id; input = record d.input { start_mode = some scheduled } } ∷ [])
          true
    else if leb s.end boundary
    then step [] true
    else if not (s.start == boundary) || not (is_immediate d.input.start_mode)
    then step
        (record {
          id = d.id;
          input = record d.input { start_mode = some immediate; start_at = moment boundary };
        }
          ∷ [])
        true
    else step (d ∷ []) false

unfoldable pub advance_draft : ℕ → Draft → Step
unfolding advance_span
advance_draft boundary d = elim (times d.input) [
  | none ↦ step (d ∷ []) false
  | some s ↦ advance_span boundary d s
]

-- The drafts, one after another.
unfoldable pub advance_all : ℕ → List Draft → Step
unfolding advance_draft
advance_all boundary [] = step [] false
advance_all boundary (d ∷ ds) =
    let own = advance_draft boundary d in
    let rest = advance_all boundary ds in
    step (own.drafts ++ rest.drafts) (own.changed || rest.changed)

unfoldable pub advance_calendar_drafts : Instant → List Draft → Step
unfolding advance_all
advance_calendar_drafts (no_date text) drafts = step drafts false
advance_calendar_drafts (moment boundary) drafts = advance_all boundary drafts

-- A draft that time has reached runs from the boundary; another is scheduled after it.
abbrev pub AdvancedSpan : ℕ → Option StartMode → Option Span → Type 0
AdvancedSpan boundary mode none = Unit {0}
AdvancedSpan boundary mode (some s) =
    ((mode ≡ some immediate) × (s.start ≡ boundary) × (boundary < s.end))
    ⊎ ((mode ≡ some scheduled) × (boundary < s.start))

abbrev pub IsAdvanced : ℕ → Draft → Type 0
IsAdvanced boundary d = AdvancedSpan boundary d.input.start_mode (times d.input)

is_immediate-true : (m : Option StartMode) → is_immediate m ≡ true → m ≡ some immediate
is_immediate-true (some immediate) h = refl
is_immediate-true (some scheduled) h = absurd (cc h)
is_immediate-true none h = absurd (cc h)

is_scheduled-true : (m : Option StartMode) → is_scheduled m ≡ true → m ≡ some scheduled
is_scheduled-true (some scheduled) h = refl
is_scheduled-true (some immediate) h = absurd (cc h)
is_scheduled-true none h = absurd (cc h)

-- The draft of an identifier, with its fields.
draft : ℕ → SegmentInput → Instant → Instant → Draft
draft id i a b = record { id = id; input = record i { start_at = a; end_at = b } }

advance_draft-IsAdvanced :
    (boundary id : ℕ) (i : SegmentInput) (a b : Instant)
    → All (IsAdvanced boundary) (advance_draft boundary (draft id i a b)).drafts
unfolding advance_draft draft advance_span
advance_draft-IsAdvanced boundary id i (no_date a) b = (tt, tt)
advance_draft-IsAdvanced boundary id i (moment a) (no_date b) = (tt, tt)
advance_draft-IsAdvanced boundary id i (moment a) (moment b) =
    elim (Bool-cases (is_immediate i.start_mode || leb a boundary)) [
      | inl e ↦ elim (Bool-cases (leb b boundary)) [
        | inl f ↦ rw (e, f) tt
        | inr f ↦ elim (Bool-cases (not (a == boundary) || not (is_immediate i.start_mode))) [
          | inl g ↦ rw (e, f, g) (inl (refl, refl, ground (arith, f)), tt)
          | inr g ↦
              rw (e, f, g)
                (
                  inl (
                    is_immediate-true i.start_mode (ground (arith, g)),
                    ground (arith, g),
                    ground (arith, f),
                  ),
                  tt,
                )
        ]
      ]
      | inr e ↦ elim (Bool-cases (is_scheduled i.start_mode)) [
        | inl f ↦ rw (e, f) (inr (is_scheduled-true i.start_mode f, ground (arith, e)), tt)
        | inr f ↦ rw (e, f) (inr (refl, ground (arith, e)), tt)
      ]
    ]

advance_all-IsAdvanced :
    (boundary : ℕ) (ds : List Draft) → All (IsAdvanced boundary) (advance_all boundary ds).drafts
unfolding advance_all draft
advance_all-IsAdvanced boundary [] = tt
advance_all-IsAdvanced boundary (d ∷ ds) =
    All-append (IsAdvanced boundary) _ _
      (advance_draft-IsAdvanced boundary d.id d.input d.input.start_at d.input.end_at)
      (advance_all-IsAdvanced boundary ds)

advance_draft_fixed :
    (boundary id : ℕ) (i : SegmentInput) (a b : Instant)
    → IsAdvanced boundary (draft id i a b)
    → advance_draft boundary (draft id i a b) ≡ step (draft id i a b ∷ []) false
unfolding advance_draft draft advance_span
advance_draft_fixed boundary id i (no_date a) b h = refl
advance_draft_fixed boundary id i (moment a) (no_date b) h = refl
advance_draft_fixed boundary id i (moment a) (moment b) h = elim h [
  | inl (mode, start, later) ↦
      let ends : leb b boundary ≡ false = ground (arith, later) in
      rw (mode, start, ends, ==_refl boundary) refl
  | inr (mode, later) ↦
      let starts : leb a boundary ≡ false = ground (arith, later) in rw (mode, starts) refl
]

advance_fixed :
    (boundary : ℕ) (ds : List Draft)
    → All (IsAdvanced boundary) ds
    → advance_all boundary ds ≡ step ds false
unfolding advance_all draft
advance_fixed boundary [] h = refl
advance_fixed boundary (d ∷ ds) h =
    rw
      (
        advance_draft_fixed boundary d.id d.input d.input.start_at d.input.end_at h.0,
        advance_fixed boundary ds h.1,
      )
      refl

advance_all_idem :
    (boundary : ℕ) (ds : List Draft)
    → advance_all boundary (advance_all boundary ds).drafts
      ≡ record { drafts = (advance_all boundary ds).drafts; changed = false }
advance_all_idem boundary ds =
    advance_fixed boundary (advance_all boundary ds).drafts (advance_all-IsAdvanced boundary ds)

-- What one draft holds from the boundary on stays.
advance_draft-held :
    (boundary : ℕ) (key : TargetKey) (t id : ℕ) (i : SegmentInput) (a b : Instant)
    → leb boundary t ≡ true
    → asks key t (draft id i a b).input ≡ true
    → held key t (advance_draft boundary (draft id i a b)).drafts ≡ true
unfolding advance_draft draft advance_span reservation_target_key
advance_draft-held boundary key t id i (no_date a) b l h = (ground arith)
advance_draft-held boundary key t id i (moment a) (no_date b) l h = (ground arith)
advance_draft-held boundary key t id i (moment a) (moment b) l h =
    elim (Bool-cases (is_immediate i.start_mode || leb a boundary)) [
      | inl e ↦ elim (Bool-cases (leb b boundary)) [
        | inl f ↦ rw (e, f) (ground arith)
        | inr f ↦ elim (Bool-cases (not (a == boundary) || not (is_immediate i.start_mode))) [
          | inl g ↦ rw (e, f, g) (ground arith)
          | inr g ↦ rw (e, f, g) (ground arith)
        ]
      ]
      | inr e ↦ elim (Bool-cases (is_scheduled i.start_mode)) [
        | inl f ↦ rw (e, f) (ground arith)
        | inr f ↦ rw (e, f) (ground arith)
      ]
    ]

held-advance_all :
    (boundary : ℕ) (key : TargetKey) (t : ℕ) (ds : List Draft)
    → boundary ≤ t
    → held key t ds ≡ true
    → held key t (advance_all boundary ds).drafts ≡ true
unfolding advance_all draft
held-advance_all boundary key t [] l h = h
held-advance_all boundary key t (d ∷ ds) l h =
    let own =
      advance_draft-held boundary key t d.id d.input d.input.start_at d.input.end_at
        (ground (arith, l)) in
    let both =
      any-append (λ x. asks key t x.input) (advance_draft boundary d).drafts
        (advance_all boundary ds).drafts in
    elim (Bool-cases (asks key t d.input)) [
      | inl e ↦ both ∙ rw (own e) refl
      | inr e ↦ both ∙ rw (held-advance_all boundary key t ds l (rw e at h)) (ground arith)
    ]

-- After a pass, every draft that has times is immediate, starts at the boundary and ends later, or
-- is scheduled after the boundary.
pub advance_calendar_drafts-IsAdvanced :
    (boundary : ℕ) (drafts : List Draft)
    → All (IsAdvanced boundary) (advance_calendar_drafts (moment boundary) drafts).drafts
unfolding advance_calendar_drafts
advance_calendar_drafts-IsAdvanced = advance_all-IsAdvanced

-- Advancing the drafts twice to one boundary changes nothing the second time, and says so.
pub advance_calendar_drafts_idem :
    (boundary : Instant) (drafts : List Draft)
    → advance_calendar_drafts boundary (advance_calendar_drafts boundary drafts).drafts
      ≡ record { drafts = (advance_calendar_drafts boundary drafts).drafts; changed = false }
unfolding advance_calendar_drafts
advance_calendar_drafts_idem (no_date text) drafts = refl
advance_calendar_drafts_idem (moment boundary) drafts = advance_all_idem boundary drafts

-- Advancing loses no moment from the boundary on that the drafts held.
pub held-advance_calendar_drafts :
    (boundary : ℕ) (key : TargetKey) (t : ℕ) (drafts : List Draft)
    → boundary ≤ t
    → held key t drafts ≡ true
    → held key t (advance_calendar_drafts (moment boundary) drafts).drafts ≡ true
unfolding advance_calendar_drafts
held-advance_calendar_drafts = held-advance_all
