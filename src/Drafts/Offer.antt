-- ===== src/Drafts/Offer.antt =====
-- What the drafts hold after an answer of the server (src/calendar-state.ts,
-- adjustDraftsToAvailability).
use allocube.Prelude.{
  ℕ, suc, ◌≡◌, refl, sym, ap, subst, ◌∙◌, arith, true, false, not, ◌&&◌, any, ◌||◌, Bool,
  if◌then◌else◌, List, [], ◌∷◌, ◌++◌, any-append, ◌==◌, ==_iff, length, All, Bool-cases, inl, inr,
  flat_map,
}
use allocube.Store.Error.{
  ok, >>=-eq-ok, guard-eq-ok, ok_inj, incomplete_preview, mismatched_preview,
}
use allocube.Drafts.{
  Instant, moment, no_date, TargetKey, reservation_target_key, SegmentInput, Draft, assign,
}
use allocube.Drafts.Keys.{asks, held, requested}
use allocube.Drafts.Adjust.{
  PreviewItem, same_instant, overlaid, offered, unchanged, fits_draft, Adjusted, adjust_draft,
  adjust_all, adjust_drafts_to_availability,
}

-- A segment has the target of the draft that it answers, alone and laid over the draft.
abbrev pub AnswersFor : SegmentInput → SegmentInput → Type 0
AnswersFor i segment =
    (reservation_target_key segment ≡ reservation_target_key i)
    × (reservation_target_key (overlaid i segment) ≡ reservation_target_key i)

-- Each item answers for its draft: by its own segment where it is available, else by its parts.
abbrev pub AnswersBy : Bool → SegmentInput → PreviewItem → Type 0
AnswersBy true i item = AnswersFor i item.input
AnswersBy false i item = All (AnswersFor i) item.split_segments

abbrev pub Answers : List Draft → List PreviewItem → Type 0
Answers (d ∷ ds) (item ∷ items) = AnswersBy item.available d.input item × Answers ds items
Answers _ _ = Unit {0}

-- An item offers the moment of a target: an available one by its own segment, another by one of
-- its parts.
abbrev pub offers : TargetKey → ℕ → PreviewItem → Bool
offers key t item =
    (item.available && asks key t item.input)
    || (not item.available && any (asks key t) item.split_segments)

AnswersBy-offered :
    (i : SegmentInput) (item : PreviewItem)
    → AnswersBy item.available i item
    → All (AnswersFor i) (offered item)
AnswersBy-offered i item a =
    let Goal : Bool → Type 0 =
      λ b. All (AnswersFor i) (if b then item.input ∷ [] else item.split_segments) in
    elim (Bool-cases item.available) [
      | inl e ↦ subst Goal (sym e) (subst (λ b. AnswersBy b i item) e a, tt)
      | inr e ↦ subst Goal (sym e) (subst (λ b. AnswersBy b i item) e a)
    ]

requested-offered :
    (key : TargetKey) (t : ℕ) (item : PreviewItem)
    → requested key t (offered item) ≡ offers key t item
requested-offered key t item = elim (Bool-cases item.available) [
  | inl e ↦ rw e (ground arith)
  | inr e ↦ rw e (ground arith)
]

requested-flat_map :
    (key : TargetKey) (t : ℕ) (items : List PreviewItem)
    → requested key t (flat_map offered items) ≡ any (offers key t) items
requested-flat_map key t [] = refl
requested-flat_map key t (item ∷ items) =
    any-append _ (offered item) (flat_map offered items)
    ∙ rw (requested-offered key t item, requested-flat_map key t items) (ground arith)

same_instant→≡ : (a b : Instant) → same_instant a b ≡ true → a ≡ b
same_instant→≡ (moment a) (moment b) h = ap moment ((==_iff a b).0 h)
same_instant→≡ (no_date a) (no_date b) h = ap no_date ((==_iff a b).0 h)
same_instant→≡ (moment a) (no_date b) h = absurd (cc h)
same_instant→≡ (no_date a) (moment b) h = absurd (cc h)

module _ (create_id : ℕ → ℕ) (key : TargetKey) (t : ℕ) where
  held-assign-overlaid :
      (i : SegmentInput) (ids : List ℕ) (n : ℕ) (segments : List SegmentInput)
      → All (AnswersFor i) segments
      → held key t
          (assign create_id (λ id s. record { id = id; input = overlaid i s }) ids n segments).1
        ≡ requested key t segments
  unfolding assign
  held-assign-overlaid i ids n [] a = refl
  held-assign-overlaid i [] n (s ∷ ss) a =
      rw (held-assign-overlaid i [] (suc n) ss a.1, a.0.0, a.0.1) refl
  held-assign-overlaid i (id ∷ ids) n (s ∷ ss) a =
      rw (held-assign-overlaid i ids n ss a.1, a.0.0, a.0.1) refl

  -- A draft that stays asks what its only segment asks.
  asks-unchanged :
      (i s : SegmentInput)
      → unchanged i (s ∷ []) ≡ true
      → AnswersFor i s
      → asks key t i ≡ asks key t s
  asks-unchanged i s h a =
      let same : (same_instant s.start_at i.start_at ≡ true)
          × (same_instant s.end_at i.end_at ≡ true) =
        (ground (arith, h), ground (arith, h)) in
      rw (a.0, same_instant→≡ s.start_at i.start_at same.0, same_instant→≡ s.end_at i.end_at same.1)
        refl

  held-adjust_draft :
      (d : Draft) (segments : List SegmentInput) (n : ℕ)
      → All (AnswersFor d.input) segments
      → held key t (adjust_draft create_id d segments n).1 ≡ requested key t segments
  unfolding adjust_draft
  held-adjust_draft d [] n a = held-assign-overlaid d.input (d.id ∷ []) n [] a
  held-adjust_draft d (s ∷ []) n a = elim (Bool-cases (unchanged d.input (s ∷ []))) [
    | inl e ↦ rw (e, asks-unchanged d.input s e a.0) refl
    | inr e ↦ rw e (held-assign-overlaid d.input (d.id ∷ []) n (s ∷ []) a)
  ]
  held-adjust_draft d (s ∷ r ∷ rs) n a = held-assign-overlaid d.input (d.id ∷ []) n (s ∷ r ∷ rs) a

  held-adjust_all :
      (ds : List Draft) (items : List PreviewItem) (n : ℕ) (out : Adjusted)
      → Answers ds items
      → length items ≡ length ds
      → adjust_all create_id ds items n ≡ ok out
      → held key t out.drafts ≡ requested key t (flat_map offered items)
  unfolding adjust_all
  held-adjust_all [] [] n out a l h = subst (λ o. held key t o.drafts ≡ false) (ok_inj h) refl
  held-adjust_all [] (item ∷ items) n out a l h = absurd (omega (arith, l))
  held-adjust_all (d ∷ ds) [] n out a l h = absurd (omega (arith, l))
  held-adjust_all (d ∷ ds) (item ∷ items) n out a l h =
      let (fits, h1) = guard-eq-ok (fits_draft item d) mismatched_preview _ h in
      let own = adjust_draft create_id d (offered item) n in
      let (rest, more, h2) = >>=-eq-ok (adjust_all create_id ds items own.0) _ h1 in
      let ih = held-adjust_all ds items own.0 rest a.1 (omega (arith, l)) more in
      subst (λ o. held key t o.drafts ≡ requested key t (offered item ++ flat_map offered items))
        (ok_inj h2)
        (any-append _ own.1 rest.drafts
          ∙ rw (held-adjust_draft d (offered item) n (AnswersBy-offered d.input item a.0), ih)
              (sym (any-append _ (offered item) (flat_map offered items))))

-- An adjustment that reports no change changed nothing.
adjust_all_unchanged :
    (create_id : ℕ → ℕ) (ds : List Draft) (items : List PreviewItem) (n : ℕ) (out : Adjusted)
    → length items ≡ length ds
    → adjust_all create_id ds items n ≡ ok out
    → out.changed ≡ false
    → out.drafts ≡ ds
unfolding adjust_all adjust_draft
adjust_all_unchanged create_id [] [] n out l h c = sym (ap (λ o. o.drafts) (ok_inj h))
adjust_all_unchanged create_id [] (item ∷ items) n out l h c = absurd (omega (arith, l))
adjust_all_unchanged create_id (d ∷ ds) [] n out l h c = absurd (omega (arith, l))
adjust_all_unchanged create_id (d ∷ ds) (item ∷ items) n out l h c =
    let (fits, h1) = guard-eq-ok (fits_draft item d) mismatched_preview _ h in
    let own = adjust_draft create_id d (offered item) n in
    let (rest, more, h2) = >>=-eq-ok (adjust_all create_id ds items own.0) _ h1 in
    let quiet : (not (unchanged d.input (offered item)) || rest.changed) ≡ false =
      ap (λ o. o.changed) (ok_inj h2) ∙ c in
    let kept : unchanged d.input (offered item) ≡ true = ground (arith, quiet) in
    let ih =
      adjust_all_unchanged create_id ds items own.0 rest (omega (arith, l)) more
        (ground (arith, quiet)) in
    let alone : own.1 ≡ d ∷ [] = rw kept refl in
    sym (ap (λ o. o.drafts) (ok_inj h2)) ∙ rw (alone, ih) refl

-- An adjustment that returns leaves drafts that hold, for each target, exactly the moments that
-- the answer offers: for an available item those of its own segment, for another those of its
-- parts; if what each item offers has the target of its draft.
pub held-adjust_drafts_to_availability :
    (create_id : ℕ → ℕ) (drafts : List Draft) (items : List PreviewItem) (n : ℕ) (out : Adjusted)
    (key : TargetKey) (t : ℕ)
    → Answers drafts items
    → adjust_drafts_to_availability create_id drafts items n ≡ ok out
    → held key t out.drafts ≡ any (offers key t) items
unfolding adjust_drafts_to_availability
held-adjust_drafts_to_availability create_id drafts items n out key t a h =
    let (whole, h1) = guard-eq-ok (length items == length drafts) incomplete_preview _ h in
    let (next, ran, h2) = >>=-eq-ok (adjust_all create_id drafts items n) _ h1 in
    let same : length items ≡ length drafts = (==_iff (length items) (length drafts)).0 whole in
    let held_next =
      held-adjust_all create_id key t drafts items n next a same ran
      ∙ requested-flat_map key t items in
    subst (λ o. held key t o.drafts ≡ any (offers key t) items) (ok_inj h2)
      (elim (Bool-cases next.changed) [
        | inl e ↦ rw e held_next
        | inr e ↦
            rw (e, sym (adjust_all_unchanged create_id drafts items n next same ran e)) held_next
      ])
