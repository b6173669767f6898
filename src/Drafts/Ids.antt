-- ===== src/Drafts/Ids.antt =====
-- The identifiers of the drafts (src/calendar-state.ts) stay distinct, if createId gives new ones.
use allocube.Prelude.{
  ℕ, suc, ◌≡◌, ◌≢◌, ◌≤◌, ◌<◌, ◌⊎◌, refl, sym, subst, ◌∙◌, arith, Option, none, some, List, [], ◌∷◌,
  ◌++◌, leb, All, AllPairs, All-append, AllPairs-append, All-mono, Bool-cases, inl, inr,
}
use allocube.Interval.{Span, span}
use allocube.Drafts.{
  Instant, moment, no_date, TargetKey, SegmentInput, Draft, times, touched, pieces_of, placed,
  assign, flat_map_counted, erase_draft, reservation_target_key, erase_calendar_draft_range,
}
use allocube.Drafts.Adjust.{PreviewItem, split_draft, split_drafts}

-- An identifier of one of the drafts.
OneOf : List Draft → ℕ → Type 0
OneOf [] a = ⊥
OneOf (d ∷ ds) a = (a ≡ d.id) ⊎ OneOf ds a

OneOf-All : (P : ℕ → Type 0) (ds : List Draft) (a : ℕ) → All (λ d. P d.id) ds → OneOf ds a → P a
unfolding OneOf
OneOf-All P [] a h o = absurd o
OneOf-All P (d ∷ ds) a h o = elim o [ inl e ↦ subst P (sym e) h.0 | inr r ↦ OneOf-All P ds a h.1 r ]

module _ (create_id : ℕ → ℕ) where
  -- An identifier that a call of createId gave.
  Created : ℕ → ℕ → ℕ → Type 0
  Created n m id = (call : ℕ) × (n ≤ call) × (call < m) × (id ≡ create_id call)

  abbrev pub DistinctIds : List Draft → Type 0
  DistinctIds = AllPairs (λ a b. a.id ≢ b.id)

  -- No two drafts have one identifier, and createId will give none of theirs.
  abbrev pub WellNumbered : ℕ → List Draft → Type 0
  WellNumbered n ds = DistinctIds ds × All (λ d. (call : ℕ) → n ≤ call → d.id ≢ create_id call) ds

  -- What a step makes of one draft: identifiers of its own, or created since.
  Numbered : ℕ → ℕ → (ℕ → Type 0) → List Draft → Type 0
  Numbered n m own ds = (n ≤ m) × DistinctIds ds × All (λ d. own d.id ⊎ Created n m d.id) ds

  Created-later : (n m k l id : ℕ) → n ≤ m → k ≤ l → Created m k id → Created n l id
  unfolding Created
  Created-later n m k l id h g (call, a, b, e) = (call, omega (arith, h, a), omega (arith, g, b), e)

  module _ (injective : (a b : ℕ) → create_id a ≡ create_id b → a ≡ b) where
    -- Two groups of drafts, one made after the other.
    Numbered-append :
        (n k m : ℕ) (first second : ℕ → Type 0) (xs ys : List Draft)
        → ((a b : ℕ) → first a → second b → a ≢ b)
        → ((a call : ℕ) → first a → k ≤ call → a ≢ create_id call)
        → ((b call : ℕ) → second b → n ≤ call → b ≢ create_id call)
        → Numbered n k first xs
        → Numbered k m second ys
        → Numbered n m (λ id. first id ⊎ second id) (xs ++ ys)
    unfolding Numbered Created
    Numbered-append n k m first second xs ys apart new_first new_second h g =
        let cross : All (λ x. All (λ y. x.id ≢ y.id) ys) xs =
          All-mono _ _ xs
            (λ x p.
              All-mono _ _ ys
                (λ y q e. elim p [
                  | inl a ↦ elim q [
                    | inl b ↦ apart x.id y.id a b e
                    | inr (call, lo, hi, made) ↦ new_first x.id call a lo (e ∙ made)
                  ]
                  | inr (call, lo, hi, made) ↦ elim q [
                    | inl b ↦ new_second y.id call b lo (sym e ∙ made)
                    | inr (other, low, high, later) ↦
                        let same : call ≡ other = injective call other (sym made ∙ e ∙ later) in
                        absurd (omega (arith, same, hi, low))
                  ]
                ])
                g.2)
            h.2 in
        (
          omega (arith, h.0, g.0),
          AllPairs-append (λ a b. a.id ≢ b.id) xs ys h.1 g.1 cross,
          All-append _ xs ys
              (All-mono _ _ xs
                (λ x p. elim p [
                  | inl a ↦ inl (inl a)
                  | inr (call, lo, hi, made) ↦ inr (call, lo, omega (arith, hi, g.0), made)
                ])
                h.2)
              (All-mono _ _ ys
                (λ y p. elim p [
                  | inl a ↦ inl (inr a)
                  | inr (call, lo, hi, made) ↦ inr (call, omega (arith, lo, h.0), hi, made)
                ])
                g.2),
        )

    Numbered-mono :
        (n m : ℕ) (own other : ℕ → Type 0) (ds : List Draft)
        → ((a : ℕ) → own a → other a)
        → Numbered n m own ds
        → Numbered n m other ds
    unfolding Numbered
    Numbered-mono n m own other ds f h =
        (h.0, h.1, All-mono _ _ ds (λ d p. elim p [ inl a ↦ inl (f d.id a) | inr c ↦ inr c ]) h.2)

    assign-Numbered_none :
        {A : Type 0} (make : ℕ → A → Draft) (keeps : (id : ℕ) (x : A) → (make id x).id ≡ id) (n : ℕ)
        (xs : List A)
        → Numbered n (assign create_id make [] n xs).0 (λ id. ⊥) (assign create_id make [] n xs).1
    unfolding assign Numbered Created
    assign-Numbered_none make keeps n [] = (omega arith, tt, tt)
    assign-Numbered_none make keeps n (x ∷ xs) =
        Numbered-mono n _ (λ id. ⊥ ⊎ ⊥) (λ id. ⊥)
          (make (create_id n) x ∷ (assign create_id make [] (suc n) xs).1)
          (λ a o. elim o [ inl e ↦ e | inr e ↦ e ])
          (Numbered-append n (suc n) _ (λ id. ⊥) (λ id. ⊥) (make (create_id n) x ∷ []) _
            (λ a b e. absurd e) (λ a call e. absurd e) (λ b call e. absurd e)
            (omega arith, (tt, tt), (inr (n, omega arith, omega arith, keeps (create_id n) x), tt))
            (assign-Numbered_none make keeps (suc n) xs))

    assign-Numbered :
        {A : Type 0} (make : ℕ → A → Draft) (keeps : (id : ℕ) (x : A) → (make id x).id ≡ id)
        (id n : ℕ) (xs : List A)
        → ((call : ℕ) → n ≤ call → id ≢ create_id call)
        → Numbered n
            (assign create_id make (id ∷ []) n xs).0
            (λ a. a ≡ id)
            (assign create_id make (id ∷ []) n xs).1
    unfolding assign Numbered
    assign-Numbered make keeps id n [] fresh = (omega arith, tt, tt)
    assign-Numbered make keeps id n (x ∷ xs) fresh =
        Numbered-mono n _ (λ a. (a ≡ id) ⊎ ⊥) (λ a. a ≡ id)
          (make id x ∷ (assign create_id make [] n xs).1)
          (λ a o. elim o [ inl e ↦ e | inr e ↦ absurd e ])
          (Numbered-append n n _ (λ a. a ≡ id) (λ a. ⊥) (make id x ∷ []) _ (λ a b e f. absurd f)
            (λ a call e l f. fresh call l (sym e ∙ f)) (λ b call e. absurd e)
            (omega arith, (tt, tt), (inl (keeps id x), tt)) (assign-Numbered_none make keeps n xs))

    module _ (f : ℕ → Draft → ℕ × List Draft)
        (each : (n : ℕ) (d : Draft)
          → ((call : ℕ) → n ≤ call → d.id ≢ create_id call)
          → Numbered n (f n d).0 (λ a. a ≡ d.id) (f n d).1) where
      flat_map_counted-Numbered :
          (n : ℕ) (ds : List Draft)
          → WellNumbered n ds
          → Numbered n (flat_map_counted f n ds).0 (OneOf ds) (flat_map_counted f n ds).1
      unfolding flat_map_counted Numbered OneOf
      flat_map_counted-Numbered n [] h = (omega arith, tt, tt)
      flat_map_counted-Numbered n (d ∷ ds) h =
          let own = each n d h.1.0 in
          let later : All (λ x. (call : ℕ) → (f n d).0 ≤ call → x.id ≢ create_id call) ds =
            All-mono _ _ ds (λ x p call l. p call (omega (arith, own.0, l))) h.1.1 in
          Numbered-append n (f n d).0 _ (λ a. a ≡ d.id) (OneOf ds) (f n d).1 _
            (λ a b e o g. OneOf-All (λ i. d.id ≢ i) ds b h.0.0 o (sym e ∙ g))
            (λ a call e l g. h.1.0 call (omega (arith, own.0, l)) (sym e ∙ g))
            (λ b call o l. OneOf-All (λ i. (c : ℕ) → n ≤ c → i ≢ create_id c) ds b h.1.1 o call l)
            own (flat_map_counted-Numbered (f n d).0 ds (h.0.1, later))

      flat_map_counted-WellNumbered :
          (n : ℕ) (ds : List Draft)
          → WellNumbered n ds
          → WellNumbered (flat_map_counted f n ds).0 (flat_map_counted f n ds).1
      unfolding Numbered Created
      flat_map_counted-WellNumbered n ds h =
          let (later, apart, all) = flat_map_counted-Numbered n ds h in
          (
            apart,
            All-mono _ _ (flat_map_counted f n ds).1
                (λ d p call l e. elim p [
                  | inl o ↦
                      OneOf-All (λ i. (c : ℕ) → n ≤ c → i ≢ create_id c) ds d.id h.1 o call
                        (omega (arith, later, l)) e
                  | inr (other, lo, hi, made) ↦
                      let same : other ≡ call = injective other call (sym made ∙ e) in
                      absurd (omega (arith, same, hi, l))
                ])
                all,
          )

    erase_draft-Numbered :
        (key : TargetKey) (erased : Span) (boundary : Option ℕ) (n : ℕ) (d : Draft)
        → ((call : ℕ) → n ≤ call → d.id ≢ create_id call)
        → Numbered n
            (erase_draft create_id key erased boundary n d).0
            (λ a. a ≡ d.id)
            (erase_draft create_id key erased boundary n d).1
    unfolding erase_draft Numbered
    erase_draft-Numbered key erased boundary n d fresh = elim (Bool-cases (touched key erased d)) [
      | inl e ↦ rw e (
          assign-Numbered (λ id s. record { id = id; input = placed boundary d.input s })
            (λ id s. refl) d.id n (pieces_of erased (times d.input)) fresh)
      | inr e ↦ rw e (omega arith, (tt, tt), (inl refl, tt))
    ]

    split_draft-Numbered :
        (n : ℕ) (d : Draft) (o : Option PreviewItem)
        → ((call : ℕ) → n ≤ call → d.id ≢ create_id call)
        → Numbered n (split_draft create_id n d o).0 (λ a. a ≡ d.id) (split_draft create_id n d o).1
    unfolding split_draft Numbered
    split_draft-Numbered n d none fresh = (omega arith, (tt, tt), (inl refl, tt))
    split_draft-Numbered n d (some item) fresh = elim (Bool-cases item.available) [
      | inl a ↦ rw a (omega arith, (tt, tt), (inl refl, tt))
      | inr a ↦ rw a (
          Numbered-mono n
            (assign create_id (λ id s. record { id = id; input = s }) [] n item.split_segments).0
            (λ id. ⊥) (λ id. id ≡ d.id)
            (assign create_id (λ id s. record { id = id; input = s }) [] n item.split_segments).1
            (λ i o. absurd o)
            (assign-Numbered_none (λ id s. record { id = id; input = s }) (λ id s. refl) n
              item.split_segments))
    ]

-- Erasing keeps the identifiers of the drafts distinct, and distinct from all that createId will
-- still give, if createId never gives one identifier twice.
pub erase_calendar_draft_range-WellNumbered :
    (create_id : ℕ → ℕ) (drafts : List Draft) (target : SegmentInput)
    (erased_start erased_end : Instant) (boundary : Option ℕ) (n : ℕ)
    → ((a b : ℕ) → create_id a ≡ create_id b → a ≡ b)
    → WellNumbered create_id n drafts
    → WellNumbered create_id
        (erase_calendar_draft_range create_id drafts target erased_start erased_end boundary
          n).calls
        (erase_calendar_draft_range create_id drafts target erased_start erased_end boundary
          n).drafts
unfolding erase_calendar_draft_range
erase_calendar_draft_range-WellNumbered create_id drafts target (no_date a) b boundary n injective
      h =
    h
erase_calendar_draft_range-WellNumbered create_id drafts target (moment a) (no_date b) boundary n
      injective h =
    h
erase_calendar_draft_range-WellNumbered create_id drafts target (moment a) (moment b) boundary n
      injective h =
    elim (Bool-cases (leb b a)) [
      | inl e ↦ rw e h
      | inr e ↦ rw e (
          flat_map_counted-WellNumbered create_id injective
            (erase_draft create_id (reservation_target_key target) (span a b) boundary)
            (erase_draft-Numbered create_id injective (reservation_target_key target) (span a b)
              boundary)
            n drafts h)
    ]

-- Splitting keeps the identifiers of the drafts distinct, and distinct from all that createId will
-- still give, if createId never gives one identifier twice.
pub split_drafts-WellNumbered :
    (create_id : ℕ → ℕ) (drafts : List Draft) (previews : ℕ → Option PreviewItem) (n : ℕ)
    → ((a b : ℕ) → create_id a ≡ create_id b → a ≡ b)
    → WellNumbered create_id n drafts
    → WellNumbered create_id
        (split_drafts create_id drafts previews n).0
        (split_drafts create_id drafts previews n).1
unfolding split_drafts
split_drafts-WellNumbered create_id drafts previews n injective h =
    flat_map_counted-WellNumbered create_id injective
      (λ m d. split_draft create_id m d (previews d.id))
      (λ m d. split_draft-Numbered create_id injective m d (previews d.id)) n drafts h
