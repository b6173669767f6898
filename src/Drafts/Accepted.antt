-- ===== src/Drafts/Accepted.antt =====
-- Drafts in which the calendar (src/calendar-state.ts, calendarDraftIssues) finds no issue.
use allocube.Prelude.{
  ℕ, ◌+◌, ◌*◌, ◌/◌, ◌≡◌, ◌≢◌, ◌≤◌, ◌<◌, ◌⊎◌, refl, sym, subst, arith, Bool, true, false, not, ◌&&◌,
  List, [], ◌∷◌, ◌++◌, map, any, any-map, flat_map, ltb, leb, leb→lt, ltb→le, length, if◌then◌else◌,
  All, AllPairs, All-mono, All-filter, Bool-cases, inl, inr,
}
use allocube.Store.{minute_ms, day_ms}
use allocube.Drafts.{
  Instant, moment, no_date, TargetKey, same_key, reservation_target_key, Draft, distinct_keys,
}
use allocube.Drafts.Keys.{same_key→≡, same_key_refl}
use allocube.Drafts.Merge.{any-distinct_keys}
use allocube.Drafts.Issues.{
  Issue, too_many_drafts, mixed_scopes, drafts_overlap, issue_list, calendar_draft_field_issues,
  span_issues, mixed_drafts, distinct_issues, bucket_overlaps, bucket, push_if, sort_drafts,
  calendar_draft_issues,
}
use allocube.Drafts.Bucket.{HasSpan, Apart, bucket-Apart}

nil-append : {A : Type 0} (xs ys : List A) → xs ++ ys ≡ [] → (xs ≡ []) × (ys ≡ [])
nil-append [] ys h = (refl, h)
nil-append (x ∷ xs) ys h = absurd (cc h)

nil-flat_map :
    {A B : Type 0} (f : A → List B) (xs : List A) → flat_map f xs ≡ [] → All (λ x. f x ≡ []) xs
nil-flat_map f [] h = tt
nil-flat_map f (x ∷ xs) h =
    let (own, rest) = nil-append (f x) (flat_map f xs) h in (own, nil-flat_map f xs rest)

nil-distinct_issues : (is : List Issue) → distinct_issues [] is ≡ [] → is ≡ []
unfolding distinct_issues
nil-distinct_issues [] h = refl
nil-distinct_issues (i ∷ is) h = absurd (cc h)

nil-push_if : (b : Bool) (issue : Issue) → push_if b issue ≡ [] → b ≡ false
nil-push_if true issue h = absurd (cc h)
nil-push_if false issue h = refl

-- The drafts of each key do not overlap: drafts of one key do not.
buckets-Apart :
    (ds : List Draft)
    → ((key : TargetKey) → AllPairs Apart (bucket key ds))
    → AllPairs
        (λ d e. (reservation_target_key d.input ≢ reservation_target_key e.input) ⊎ Apart d e)
        ds
unfolding bucket
buckets-Apart [] h = tt
buckets-Apart (d ∷ ds) h =
    let own = reservation_target_key d.input in
    let first : AllPairs Apart (d ∷ bucket own ds) =
      subst (λ b. AllPairs Apart (if b then d ∷ bucket own ds else bucket own ds))
        (same_key_refl own) (h own) in
    (from_bucket own ds first.0, buckets-Apart ds (λ key. tail key (h key)))
  where
    from_bucket :
        (key : TargetKey) (es : List Draft)
        → All (Apart d) (bucket key es)
        → All (λ e. (key ≢ reservation_target_key e.input) ⊎ Apart d e) es
    from_bucket key [] a = tt
    from_bucket key (e ∷ es) a = elim (Bool-cases (same_key (reservation_target_key e.input) key)) [
      | inl c ↦ let b = rw c at a in (inr b.0, from_bucket key es b.1)
      | inr c ↦ (
        inl (λ same.
            absurd (cc (subst (λ k. same_key k key ≡ false) (sym same) c, same_key_refl key))),
        from_bucket key es (rw c at a),
      )
    ]

    tail : (key : TargetKey) → AllPairs Apart (bucket key (d ∷ ds)) → AllPairs Apart (bucket key ds)
    tail key a = elim (Bool-cases (same_key (reservation_target_key d.input) key)) [
      | inl c ↦ (rw c at a).1
      | inr c ↦ rw c at a
    ]

-- What holds of each key that is listed once holds of each key that is listed.
All-any_key :
    (P : TargetKey → Type 0) (key : TargetKey) (keys : List TargetKey)
    → All P keys
    → any (λ k. same_key k key) keys ≡ true
    → P key
All-any_key P key [] h a = absurd (cc a)
All-any_key P key (k ∷ ks) h a = elim (Bool-cases (same_key k key)) [
  | inl e ↦ subst P (same_key→≡ k key e) h.0
  | inr e ↦ All-any_key P key ks h.1 (rw e at a)
]

empty_bucket :
    (key : TargetKey) (ds : List Draft)
    → any (λ d. same_key (reservation_target_key d.input) key) ds ≡ false
    → bucket key ds ≡ []
unfolding bucket
empty_bucket key [] h = refl
empty_bucket key (d ∷ ds) h = elim (Bool-cases (same_key (reservation_target_key d.input) key)) [
  | inl e ↦ absurd (cc (rw e at h))
  | inr e ↦ rw e (empty_bucket key ds (rw e at h))
]

All-bucket :
    (P : Draft → Type 0) (key : TargetKey) (ds : List Draft) → All P ds → All P (bucket key ds)
unfolding bucket
All-bucket P key ds h = All-filter P (λ d. same_key (reservation_target_key d.input) key) ds h

-- A draft without issues of its own has a span that begins in the present minute or later and ends
-- within the days that may be booked.
abbrev pub Bookable : ℕ → ℕ → Draft → Type 0
Bookable advance_days now d =
    (a : ℕ) × (b : ℕ) × (d.input.start_at ≡ moment a)
    × (d.input.end_at ≡ moment b)
    × (a < b)
    × ((now / minute_ms) * minute_ms ≤ a)
    × (b ≤ now + advance_days * day_ms)

span_issues-Bookable :
    (advance_days now : ℕ) (a b : Instant)
    → issue_list (span_issues advance_days now a b) ≡ []
    → (x : ℕ) × (y : ℕ) × (a ≡ moment x)
      × (b ≡ moment y)
      × (x < y)
      × ((now / minute_ms) * minute_ms ≤ x)
      × (y ≤ now + advance_days * day_ms)
unfolding span_issues
span_issues-Bookable days now (no_date a) b h = absurd (cc h)
span_issues-Bookable days now (moment a) (no_date b) h = absurd (cc h)
span_issues-Bookable days now (moment a) (moment b) h = elim (Bool-cases (leb b a)) [
  | inl e ↦ absurd (cc (rw e at h))
  | inr e ↦ elim (Bool-cases (ltb a ((now / minute_ms) * minute_ms))) [
    | inl f ↦ absurd (cc (rw (e, f) at h))
    | inr f ↦ elim (Bool-cases (ltb (now + days * day_ms) b)) [
      | inl g ↦ absurd (cc (rw (e, f, g) at h))
      | inr g ↦ (a, b, refl, refl, leb→lt b a e, ltb→le a _ f, ltb→le _ b g)
    ]
  ]
]

-- What a list of drafts without issues is.
pub record IsAccepted (advance_days now : ℕ) (drafts : List Draft) : Type 0 where
  pub few : length drafts ≤ 100
  pub bookable : All (Bookable advance_days now) drafts
  pub apart :
      AllPairs
        (λ d e. (reservation_target_key d.input ≢ reservation_target_key e.input) ⊎ Apart d e)
        drafts

-- Drafts in which the calendar finds no issue are at most a hundred, each begins in the present
-- minute or later, ends after its start and within the days that may be booked, and no two of one
-- target overlap; where scopes must not be mixed, they are not. The texts of times must be ordered
-- as the times are.
pub calendar_draft_issues-IsAccepted :
    (before not_after : Instant → Instant → Bool) (drafts : List Draft) (advance_days now : ℕ)
    (allow_mixed_scopes : Bool)
    → ((a b : ℕ) → before (moment a) (moment b) ≡ ltb a b)
    → ((a b : ℕ) → not_after (moment a) (moment b) ≡ leb a b)
    → calendar_draft_issues before not_after drafts advance_days now allow_mixed_scopes ≡ []
    → IsAccepted advance_days now drafts × ((not allow_mixed_scopes && mixed_drafts drafts) ≡ false)
unfolding calendar_draft_issues calendar_draft_field_issues
calendar_draft_issues-IsAccepted before not_after drafts days now allowed before_moments
      not_after_moments h =
    let keys = map (λ d. reservation_target_key d.input) drafts in
    let overlaps : TargetKey → Bool =
      λ key. bucket_overlaps before not_after (sort_drafts before not_after (bucket key drafts)) in
    let of_count = push_if (ltb 100 (length drafts)) too_many_drafts in
    let of_scopes = push_if (not allowed && mixed_drafts drafts) mixed_scopes in
    let of_fields = flat_map (λ d. issue_list (calendar_draft_field_issues d days now)) drafts in
    let of_keys = flat_map (λ key. push_if (overlaps key) drafts_overlap) (distinct_keys [] keys) in
    let none_left = nil-distinct_issues (of_count ++ of_scopes ++ of_fields ++ of_keys) h in
    let (h1, buckets) = nil-append (of_count ++ of_scopes ++ of_fields) of_keys none_left in
    let (h2, fields) = nil-append (of_count ++ of_scopes) of_fields h1 in
    let (count, scopes) = nil-append of_count of_scopes h2 in
    let bookable : All (Bookable days now) drafts =
      All-mono _ _ drafts (λ d e. span_issues-Bookable days now d.input.start_at d.input.end_at e)
        (nil-flat_map (λ d. issue_list (calendar_draft_field_issues d days now)) drafts fields) in
    let quiet : All (λ key. overlaps key ≡ false) (distinct_keys [] keys) =
      All-mono _ _ (distinct_keys [] keys) (λ key e. nil-push_if (overlaps key) drafts_overlap e)
        (nil-flat_map (λ key. push_if (overlaps key) drafts_overlap) (distinct_keys [] keys)
          buckets) in
    let spans : (key : TargetKey) → All HasSpan (bucket key drafts) = λ key.
      All-bucket HasSpan key drafts (
        All-mono _ _ drafts (λ d (a, b, from, to, long, begun, near). (a, b, from, to, long))
          bookable) in
    (
      record {
        few = ltb→le 100 (length drafts) (nil-push_if _ too_many_drafts count);
        bookable = bookable;
        apart = buckets-Apart drafts (λ key.
            elim (Bool-cases (any (λ d. same_key (reservation_target_key d.input) key) drafts)) [
              | inl e ↦
                  let listed : any (λ k. same_key k key) (distinct_keys [] keys) ≡ true = ground (
                    arith,
                    any-distinct_keys key [] keys,
                    any-map (λ k. same_key k key) (λ d. reservation_target_key d.input) drafts,
                    e,
                  ) in
                  bucket-Apart before not_after before_moments not_after_moments (bucket key drafts)
                    (spans key)
                    (All-any_key (λ k. overlaps k ≡ false) key (distinct_keys [] keys) quiet listed)
              | inr e ↦ subst (AllPairs Apart) (sym (empty_bucket key drafts e)) tt
            ]);
      },
      nil-push_if _ mixed_scopes scopes,
    )
