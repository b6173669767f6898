-- ===== src/Drafts/Merge.antt =====
-- Merging spans into the drafts (src/calendar-state.ts) keeps exactly the moments of both.
use allocube.Prelude.{
  ℕ, ◌≡◌, refl, sym, ap, subst, ◌∙◌, arith, Bool, true, false, not, ◌&&◌, ◌||◌, Option, none, some,
  List, [], ◌∷◌, ◌++◌, map, filter, any, any-and, any-filter, any-map, any-ext, any-append, All,
  All-filter, All-map, some_inj, if◌then◌else◌, Bool-cases, inl, inr,
}
use allocube.Interval.{Span, inside, covered, merge_time_ranges}
use allocube.Interval.Cover.{covered-merge_time_ranges}
use allocube.Schedule.Find.{filter-All}
use allocube.Drafts.{
  TargetKey, same_key, reservation_target_key, SegmentInput, Draft, times, assign, placed,
  distinct_keys, valid_span, to_list, spans_of, first_of, of_key, merge_target,
  merge_calendar_drafts, merged_of,
}
use allocube.Drafts.Keys.{held, requested, in_times, same_key→≡, same_key_sym}
use allocube.Drafts.Assign.{held-assign, held-flat_map_counted}

covered-spans_of :
    (t : ℕ) (is : List SegmentInput) → covered t (spans_of is) ≡ any (λ i. in_times t (times i)) is
covered-spans_of t [] = refl
covered-spans_of t (i ∷ is) =
    any-append (inside t) (to_list (times i)) (spans_of is)
    ∙ ap (λ b. any (inside t) (to_list (times i)) || b) (covered-spans_of t is)
    ∙ one (times i) _
  where
    one :
        (o : Option Span) (b : Bool)
        → (any (inside t) (to_list o) || b) ≡ (if in_times t o then true else b)
    one none b = refl
    one (some s) b = ground arith

-- A draft whose times are no span asks for nothing.
invalid_empty : (t : ℕ) (o : Option Span) → not (valid_span o) ≡ true → in_times t o ≡ false
invalid_empty t none h = refl
invalid_empty t (some s) h = ground (arith, h)

held_invalid :
    (key : TargetKey) (t : ℕ) (ds : List Draft)
    → held key t (filter (λ d. not (valid_span (times d.input))) ds) ≡ false
held_invalid key t [] = refl
held_invalid key t (d ∷ ds) = elim (Bool-cases (not (valid_span (times d.input)))) [
  | inl e ↦ rw (e, invalid_empty t (times d.input) e) (ground (arith, held_invalid key t ds))
  | inr e ↦ rw e (held_invalid key t ds)
]

-- The drafts whose times are a span hold all that a list of drafts asks.
valid_full :
    (t : ℕ) (ds : List Draft)
    → any
        (λ i. in_times t (times i))
        (map (λ d. d.input) (filter (λ d. valid_span (times d.input)) ds))
      ≡ any (λ d. in_times t (times d.input)) ds
valid_full t ds =
    any-map (λ i. in_times t (times i)) (λ d. d.input) (filter (λ d. valid_span (times d.input)) ds)
    ∙ any-filter _ (λ d. valid_span (times d.input)) ds
    ∙ any-ext _ _ (λ d. full (times d.input)) ds
  where
    full : (o : Option Span) → (valid_span o && in_times t o) ≡ in_times t o
    full none = refl
    full (some s) = ground arith

first_of-All :
    {A : Type 0} (P : A → Type 0) (xs ys zs : List A) (a : A)
    → All P xs
    → All P ys
    → All P zs
    → first_of xs ys zs ≡ some a
    → P a
first_of-All P (x ∷ xs) ys zs a p q r h = subst P (some_inj h) p.0
first_of-All P [] (y ∷ ys) zs a p q r h = subst P (some_inj h) q.0
first_of-All P [] [] (z ∷ zs) a p q r h = subst P (some_inj h) r.0
first_of-All P [] [] [] a p q r h = absurd (cc h)

first_of-none : {A : Type 0} (xs ys zs : List A) → first_of xs ys zs ≡ none → (ys ≡ []) × (zs ≡ [])
first_of-none (x ∷ xs) ys zs h = absurd (cc h)
first_of-none [] (y ∷ ys) zs h = absurd (cc h)
first_of-none [] [] (z ∷ zs) h = absurd (cc h)
first_of-none [] [] [] h = (refl, refl)

module _ (create_id : ℕ → ℕ) (drafts : List Draft) (additions : List SegmentInput)
    (boundary : Option ℕ) (t : ℕ) where
  -- What both lists ask of one target.
  abbrev both : TargetKey → Bool
  both k = held k t drafts || requested k t additions

  existing_of : TargetKey → List Draft
  existing_of k = filter (λ d. same_key (reservation_target_key d.input) k) drafts

  held-existing_of :
      (k : TargetKey) → any (λ d. in_times t (times d.input)) (existing_of k) ≡ held k t drafts
  unfolding existing_of
  held-existing_of k = any-filter _ (λ d. same_key (reservation_target_key d.input) k) drafts

  requested-of_key :
      (k : TargetKey)
      → any (λ i. in_times t (times i)) (of_key k additions) ≡ requested k t additions
  unfolding of_key
  requested-of_key k = any-filter _ (λ i. same_key (reservation_target_key i) k) additions

  -- The input that the drafts of a target copy is one of that target.
  keyed :
      (k : TargetKey) (i : SegmentInput)
      → first_of
          (map (λ d. d.input) (filter (λ d. valid_span (times d.input)) (existing_of k)))
          (of_key k additions)
          (map (λ d. d.input) (existing_of k))
        ≡ some i
      → reservation_target_key i ≡ k
  unfolding existing_of of_key
  keyed k i h =
      let Keyed : SegmentInput → Type 0 = λ j. same_key (reservation_target_key j) k ≡ true in
      let old : All (λ d. Keyed d.input) (existing_of k) =
        filter-All (λ d. same_key (reservation_target_key d.input) k) drafts in
      same_key→≡ (reservation_target_key i) k (
        first_of-All Keyed _ _ _ i
          (All-map Keyed (λ d. d.input) _
            (All-filter (λ d. Keyed d.input) (λ d. valid_span (times d.input)) (existing_of k) old))
          (filter-All (λ j. same_key (reservation_target_key j) k) additions)
          (All-map Keyed (λ d. d.input) (existing_of k) old) h)

  empty :
      (k : TargetKey)
      → first_of
          (map (λ d. d.input) (filter (λ d. valid_span (times d.input)) (existing_of k)))
          (of_key k additions)
          (map (λ d. d.input) (existing_of k))
        ≡ none
      → both k ≡ false
  empty k h =
      let (no_new, no_old) =
        first_of-none _ (of_key k additions) (map (λ d. d.input) (existing_of k)) h in
      let old : held k t drafts ≡ false =
        sym (held-existing_of k)
        ∙ sym (any-map (λ i. in_times t (times i)) (λ d. d.input) (existing_of k))
        ∙ ap (any (λ i. in_times t (times i))) no_old in
      let new : requested k t additions ≡ false =
        sym (requested-of_key k) ∙ ap (any (λ i. in_times t (times i))) no_new in
      rw (old, new) refl

  held-merged_of :
      (key : TargetKey) (n : ℕ) (k : TargetKey) (valid invalid : List Draft) (ranges : List Span)
      (target : Option SegmentInput)
      → held key t invalid ≡ false
      → covered t ranges ≡ both k
      → ((i : SegmentInput) → target ≡ some i → reservation_target_key i ≡ k)
      → (target ≡ none → both k ≡ false)
      → held key t (merged_of create_id boundary valid invalid ranges n target).1
        ≡ (same_key k key && both k)
  unfolding merged_of
  held-merged_of key n k valid invalid ranges none none_held all keyed empty =
      ground (arith, none_held, empty refl)
  held-merged_of key n k valid invalid ranges (some i) none_held all keyed empty =
      any-append _
        (assign create_id (λ id s. record { id = id; input = placed boundary i s })
          (map (λ d. d.id) valid) n ranges).1
        invalid
      ∙ rw
          (
            held-assign create_id boundary i key t (map (λ d. d.id) valid) n ranges,
            none_held,
            all,
            keyed i refl,
          )
          (ground arith)

  held-merge_target :
      (key : TargetKey) (n : ℕ) (k : TargetKey)
      → held key t (merge_target create_id drafts additions boundary n k).1
        ≡ (same_key k key && both k)
  unfolding merge_target existing_of of_key
  held-merge_target key n k =
      let existing = existing_of k in
      let new = of_key k additions in
      let valid = filter (λ d. valid_span (times d.input)) existing in
      let invalid = filter (λ d. not (valid_span (times d.input))) existing in
      let inputs = map (λ d. d.input) valid in
      let all : covered t (merge_time_ranges (spans_of (inputs ++ new))) ≡ both k =
        covered-merge_time_ranges t (spans_of (inputs ++ new))
        ∙ covered-spans_of t (inputs ++ new)
        ∙ any-append _ inputs new
        ∙ rw (valid_full t existing, held-existing_of k, requested-of_key k) refl in
      held-merged_of key n k valid invalid (merge_time_ranges (spans_of (inputs ++ new)))
        (first_of inputs new (map (λ d. d.input) existing)) (held_invalid key t existing) all
        (keyed k) (empty k)

seen_key :
    (k key : TargetKey) (seen : List TargetKey)
    → any (same_key k) seen ≡ true
    → same_key k key ≡ true
    → any (same_key key) seen ≡ true
seen_key k key seen h e = subst (λ j. any (same_key j) seen ≡ true) (same_key→≡ k key e) h

-- The keys, each once, are the keys.
pub any-distinct_keys :
    (key : TargetKey) (seen ks : List TargetKey)
    → (any (λ k. same_key k key) (distinct_keys seen ks) || any (same_key key) seen)
      ≡ (any (λ k. same_key k key) ks || any (same_key key) seen)
unfolding distinct_keys
any-distinct_keys key seen [] = refl
any-distinct_keys key seen (k ∷ ks) = elim (Bool-cases (any (same_key k) seen)) [
  | inl e ↦ rw e (any-distinct_keys key seen ks ∙ ground (arith, seen_key k key seen e))
  | inr e ↦ rw e (ground (arith, any-distinct_keys key (k ∷ seen) ks, same_key_sym k key))
]

-- Something that every key says of itself holds where the key is listed.
any-absorb :
    {A : Type 0} (p q : A → Bool) (xs : List A)
    → (any p xs && any (λ x. p x && q x) xs) ≡ any (λ x. p x && q x) xs
any-absorb p q [] = refl
any-absorb p q (x ∷ xs) = ground (arith, any-absorb p q xs)

at_key :
    (b : TargetKey → Bool) (key k : TargetKey) → (same_key k key && b k) ≡ (same_key k key && b key)
at_key b key k = elim (Bool-cases (same_key k key)) [
  | inl e ↦ rw e (ap b (same_key→≡ k key e))
  | inr e ↦ rw e refl
]

-- The drafts after a merge hold, for each target, the moments that the drafts held before and
-- those of the additions, and no others.
pub held-merge_calendar_drafts :
    (create_id : ℕ → ℕ) (drafts : List Draft) (additions : List SegmentInput) (boundary : Option ℕ)
    (n : ℕ) (key : TargetKey) (t : ℕ)
    → held key t (merge_calendar_drafts create_id drafts additions boundary n).1
      ≡ (held key t drafts || requested key t additions)
unfolding merge_calendar_drafts
held-merge_calendar_drafts create_id drafts additions boundary n key t =
    let keys =
      map (λ d. reservation_target_key d.input) drafts ++ map reservation_target_key additions in
    held-flat_map_counted _ key t _ (held-merge_target create_id drafts additions boundary t key) n
      (distinct_keys [] keys)
    ∙ any-ext _ _ (at_key (both create_id drafts additions boundary t) key) (distinct_keys [] keys)
    ∙ any-and (λ k. same_key k key) _ (distinct_keys [] keys)
    ∙ ground (
      arith,
      any-distinct_keys key [] keys,
      any-append (λ k. same_key k key) (map (λ d. reservation_target_key d.input) drafts)
          (map reservation_target_key additions),
      any-map (λ k. same_key k key) (λ d. reservation_target_key d.input) drafts,
      any-map (λ k. same_key k key) reservation_target_key additions,
      any-absorb (λ d. same_key (reservation_target_key d.input) key)
          (λ d. in_times t (times d.input)) drafts,
      any-absorb (λ i. same_key (reservation_target_key i) key) (λ i. in_times t (times i))
          additions,
    )
