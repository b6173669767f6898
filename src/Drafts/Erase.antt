-- ===== src/Drafts/Erase.antt =====
-- Erasing a span of one target (src/calendar-state.ts) takes exactly the moments of the span.
use allocube.Prelude.{
  ℕ, ◌≡◌, ◌<◌, refl, sym, subst, ◌∙◌, arith, true, false, not, ◌&&◌, Option, none, some, List, [],
  ◌∷◌, any, any-and, leb, leb→lt, Bool-cases, inl, inr,
}
use allocube.Interval.{Span, span, inside, covered}
use allocube.Drafts.{
  Instant, moment, no_date, TargetKey, same_key, reservation_target_key, SegmentInput, Draft, times,
  meets, touched, remaining, pieces_of, erase_draft, flat_map_counted, erase_calendar_draft_range,
}
use allocube.Drafts.Keys.{asks, held, in_times, same_key→≡, same_key_sym}
use allocube.Drafts.Assign.{held-assign, held-flat_map_counted}

covered-remaining :
    (t : ℕ) (erased s : Span)
    → erased.start < erased.end
    → covered t (remaining erased s) ≡ (inside t s && not (inside t erased))
unfolding remaining
covered-remaining t erased s h = ground (arith, h)

covered-pieces_of :
    (t : ℕ) (erased : Span) (o : Option Span)
    → erased.start < erased.end
    → covered t (pieces_of erased o) ≡ (in_times t o && not (inside t erased))
unfolding pieces_of
covered-pieces_of t erased none h = refl
covered-pieces_of t erased (some s) h = covered-remaining t erased s h

-- A span that does not meet the erased one keeps its moments.
meets-false :
    (t : ℕ) (erased : Span) (o : Option Span)
    → meets erased o ≡ false
    → in_times t o ≡ (in_times t o && not (inside t erased))
meets-false t erased none h = refl
meets-false t erased (some s) h = ground (arith, h)

-- A draft of the erased target is one of `key` where `key` is the erased target; one of another
-- target is not one of `key` then.
same_target :
    (r target key : TargetKey) → same_key r target ≡ true → same_key r key ≡ same_key key target
same_target r target key h =
    subst (λ k. same_key k key ≡ same_key key target) (sym (same_key→≡ r target h))
      (same_key_sym target key)

other_target :
    (r target key : TargetKey)
    → same_key r target ≡ false
    → same_key r key ≡ true
    → same_key key target ≡ false
other_target r target key h e = subst (λ k. same_key k target ≡ false) (same_key→≡ r key e) h

module _ (create_id : ℕ → ℕ) (target key : TargetKey) (erased : Span) (boundary : Option ℕ)
    (t : ℕ) where
  held-erase_draft :
      erased.start < erased.end
      → (n : ℕ) (d : Draft)
      → held key t (erase_draft create_id target erased boundary n d).1
        ≡ (asks key t d.input && not (same_key key target && inside t erased))
  unfolding erase_draft
  held-erase_draft h n d = elim (Bool-cases (same_key (reservation_target_key d.input) target)) [
    | inl e ↦ elim (Bool-cases (meets erased (times d.input))) [
      | inl m ↦
          rw (e, m)
            (held-assign create_id boundary d.input key t (d.id ∷ []) n
                (pieces_of erased (times d.input))
              ∙ ground (
                arith,
                same_target (reservation_target_key d.input) target key e,
                covered-pieces_of t erased (times d.input) h,
              ))
      | inr m ↦
          rw (e, m)
            (ground (
              arith,
              same_target (reservation_target_key d.input) target key e,
              meets-false t erased (times d.input) m,
            ))
    ]
    | inr e ↦ rw e (ground (arith, other_target (reservation_target_key d.input) target key e))
  ]

-- Erasing a span of a target leaves, of the moments that the drafts hold, exactly those of other
-- targets and those outside the span.
pub held-erase_calendar_draft_range :
    (create_id : ℕ → ℕ) (drafts : List Draft) (target : SegmentInput) (erased_start erased_end : ℕ)
    (boundary : Option ℕ) (n : ℕ) (key : TargetKey) (t : ℕ)
    → held key t
        (erase_calendar_draft_range create_id drafts target
          (moment erased_start)
          (moment erased_end)
          boundary
          n).drafts
      ≡ (held key t drafts
          && not (
              same_key key (reservation_target_key target)
              && inside t (span erased_start erased_end)))
unfolding erase_calendar_draft_range
held-erase_calendar_draft_range create_id drafts target a b boundary n key t =
    elim (Bool-cases (leb b a)) [
      | inl e ↦ rw e (ground (arith, e))
      | inr e ↦ rw e (
          held-flat_map_counted _ key t _
            (held-erase_draft create_id (reservation_target_key target) key (span a b) boundary t
              (leb→lt b a e))
            n drafts
          ∙ any-and (λ d. asks key t d.input) _ drafts)
    ]

erase_untouched :
    (create_id : ℕ → ℕ) (key : TargetKey) (erased : Span) (boundary : Option ℕ) (n : ℕ)
    (drafts : List Draft)
    → any (touched key erased) drafts ≡ false
    → flat_map_counted (erase_draft create_id key erased boundary) n drafts ≡ (n, drafts)
unfolding flat_map_counted erase_draft
erase_untouched create_id key erased boundary n [] h = refl
erase_untouched create_id key erased boundary n (d ∷ ds) h =
    elim (Bool-cases (touched key erased d)) [
      | inl e ↦ absurd (cc (rw e at h))
      | inr e ↦ rw (e, erase_untouched create_id key erased boundary n ds (rw e at h)) refl
    ]

-- Where erasing reports no change, it leaves every draft and calls for no identifier.
pub erase_calendar_draft_range_unchanged :
    (create_id : ℕ → ℕ) (drafts : List Draft) (target : SegmentInput)
    (erased_start erased_end : Instant) (boundary : Option ℕ) (n : ℕ)
    → (erase_calendar_draft_range create_id drafts target erased_start erased_end boundary
        n).changed
      ≡ false
    → (erase_calendar_draft_range create_id drafts target erased_start erased_end boundary n)
      ≡ record { calls = n; drafts = drafts; changed = false }
unfolding erase_calendar_draft_range
erase_calendar_draft_range_unchanged create_id drafts target (no_date a) b boundary n h = refl
erase_calendar_draft_range_unchanged create_id drafts target (moment a) (no_date b) boundary n h =
    refl
erase_calendar_draft_range_unchanged create_id drafts target (moment a) (moment b) boundary n h =
    elim (Bool-cases (leb b a)) [
      | inl e ↦ rw e refl
      | inr e ↦
          let none_touched = rw e at h in
          rw
            (
              e,
              erase_untouched create_id (reservation_target_key target) (span a b) boundary n drafts
                  none_touched,
              none_touched,
            )
            refl
    ]
