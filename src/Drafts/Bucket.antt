-- ===== src/Drafts/Bucket.antt =====
-- Drafts without issues (src/calendar-state.ts, calendarDraftIssues) do not overlap.
use allocube.Prelude.{
  ℕ, ◌≡◌, ◌≤◌, ◌<◌, ◌⊎◌, ap, ◌∙◌, arith, Bool, false, List, [], ◌∷◌, ltb, leb, leb→le, leb→lt, All,
  AllPairs, All-mono, Bool-cases, inl, inr,
}
use allocube.Drafts.{Instant, moment, Draft}
use allocube.Drafts.Issues.{insert_draft, sort_drafts, overlap_after, bucket_overlaps}

-- The times of a draft are a span of positive length.
abbrev pub HasSpan : Draft → Type 0
HasSpan d =
    (a : ℕ) × (b : ℕ) × (d.input.start_at ≡ moment a) × (d.input.end_at ≡ moment b) × (a < b)

abbrev pub EndsBefore : Draft → Draft → Type 0
EndsBefore d e =
    (x : ℕ) × (y : ℕ) × (d.input.end_at ≡ moment x) × (e.input.start_at ≡ moment y) × (x ≤ y)

abbrev pub Apart : Draft → Draft → Type 0
Apart d e = EndsBefore d e ⊎ EndsBefore e d

Apart-sym : (d e : Draft) → Apart d e → Apart e d
Apart-sym d e h = elim h [ inl a ↦ inr a | inr a ↦ inl a ]

module _ (before not_after : Instant → Instant → Bool)
    (before_moments : (a b : ℕ) → before (moment a) (moment b) ≡ ltb a b)
    (not_after_moments : (a b : ℕ) → not_after (moment a) (moment b) ≡ leb a b) where
  -- The starts ascend, from one that is not before `lo`.
  Sorted : ℕ → List Draft → Type 0
  Sorted lo [] = Unit {0}
  Sorted lo (d ∷ ds) = (a : ℕ) × (d.input.start_at ≡ moment a) × (lo ≤ a) × Sorted a ds

  Sorted-weaken : (lo hi : ℕ) (ds : List Draft) → lo ≤ hi → Sorted hi ds → Sorted lo ds
  unfolding Sorted
  Sorted-weaken lo hi [] h s = tt
  Sorted-weaken lo hi (d ∷ ds) h s = (s.0, s.1, omega (arith, h, s.2), s.3)

  insert-Sorted :
      (lo a : ℕ) (d : Draft) (ds : List Draft)
      → d.input.start_at ≡ moment a
      → lo ≤ a
      → Sorted lo ds
      → Sorted lo (insert_draft before not_after d ds)
  unfolding insert_draft Sorted
  insert-Sorted lo a d [] from h s = (a, from, h, tt)
  insert-Sorted lo a d (e ∷ es) from h (b, begins, low, rest) =
      let test : not_after d.input.start_at e.input.start_at ≡ leb a b =
        ap (λ x. not_after x e.input.start_at) from
        ∙ ap (not_after (moment a)) begins
        ∙ not_after_moments a b in
      elim (Bool-cases (leb a b)) [
        | inl c ↦ rw (test, c) (a, from, h, (b, begins, leb→le a b c, rest))
        | inr c ↦
            let below = leb→lt a b c in
            rw (test, c) (b, begins, low, insert-Sorted b a d es from (omega (arith, below)) rest)
      ]

  sort-Sorted : (ds : List Draft) → All HasSpan ds → Sorted 0 (sort_drafts before not_after ds)
  unfolding sort_drafts Sorted
  sort-Sorted [] h = tt
  sort-Sorted (d ∷ ds) h =
      insert-Sorted 0 h.0.0 d (sort_drafts before not_after ds) h.0.2 (omega arith)
        (sort-Sorted ds h.1)

  module _ {κ} (P : Draft → Type κ) where
    All-insert :
        (d : Draft) (ds : List Draft) → P d → All P ds → All P (insert_draft before not_after d ds)
    unfolding insert_draft
    All-insert d [] p h = (p, tt)
    All-insert d (e ∷ es) p h = elim (Bool-cases (not_after d.input.start_at e.input.start_at)) [
      | inl c ↦ rw c (p, h)
      | inr c ↦ rw c (h.0, All-insert d es p h.1)
    ]

    All-sort : (ds : List Draft) → All P ds → All P (sort_drafts before not_after ds)
    unfolding sort_drafts
    All-sort [] h = tt
    All-sort (d ∷ ds) h = All-insert d _ h.0 (All-sort ds h.1)

    insert-All :
        (d : Draft) (ds : List Draft) → All P (insert_draft before not_after d ds) → P d × All P ds
    unfolding insert_draft
    insert-All d [] h = h
    insert-All d (e ∷ es) h = elim (Bool-cases (not_after d.input.start_at e.input.start_at)) [
      | inl c ↦ rw c at h
      | inr c ↦ let k = rw c at h in let (p, q) = insert-All d es k.1 in (p, (k.0, q))
    ]

    sort-All : (ds : List Draft) → All P (sort_drafts before not_after ds) → All P ds
    unfolding sort_drafts
    sort-All [] h = tt
    sort-All (d ∷ ds) h =
        let (p, q) = insert-All d (sort_drafts before not_after ds) h in (p, sort-All ds q)

  insert-AllPairs :
      (d : Draft) (ds : List Draft)
      → AllPairs Apart (insert_draft before not_after d ds)
      → All (Apart d) ds × AllPairs Apart ds
  unfolding insert_draft
  insert-AllPairs d [] h = (tt, tt)
  insert-AllPairs d (e ∷ es) h = elim (Bool-cases (not_after d.input.start_at e.input.start_at)) [
    | inl c ↦ rw c at h
    | inr c ↦
        let k = rw c at h in
        let (ed, ee) = insert-All (Apart e) d es k.0 in
        let (dd, pairs) = insert-AllPairs d es k.1 in ((Apart-sym e d ed, dd), (ee, pairs))
  ]

  sort-AllPairs :
      (ds : List Draft) → AllPairs Apart (sort_drafts before not_after ds) → AllPairs Apart ds
  unfolding sort_drafts
  sort-AllPairs [] h = tt
  sort-AllPairs (d ∷ ds) h =
      let (p, q) = insert-AllPairs d (sort_drafts before not_after ds) h in
      (sort-All (Apart d) ds p, sort-AllPairs ds q)

  Sorted-All :
      (lo : ℕ) (ds : List Draft)
      → Sorted lo ds
      → All (λ d. (a : ℕ) × (d.input.start_at ≡ moment a) × (lo ≤ a)) ds
  unfolding Sorted
  Sorted-All lo [] s = tt
  Sorted-All lo (d ∷ ds) (a, from, low, rest) =
      ((a, from, low), Sorted-All lo ds (Sorted-weaken lo a ds low rest))

  chain-Apart :
      (lo : ℕ) (d : Draft) (ds : List Draft)
      → HasSpan d
      → All HasSpan ds
      → Sorted lo ds
      → overlap_after before not_after d ds ≡ false
      → AllPairs Apart (d ∷ ds)
  unfolding overlap_after Sorted
  chain-Apart lo d [] p h s o = (tt, tt)
  chain-Apart lo d (e ∷ es) (a, x, from, to, long) h (y, begins, low, rest) o =
      let test : before e.input.start_at d.input.end_at ≡ ltb y x =
        ap (λ u. before u d.input.end_at) begins ∙ ap (before (moment y)) to ∙ before_moments y x in
      let late : x ≤ y = ground (arith, o, test) in
      (
        (
          inl (x, y, to, begins, late),
          All-mono _ _ es (λ f (z, starts, low). inl (x, z, to, starts, omega (arith, late, low)))
              (Sorted-All y es rest),
        ),
        chain-Apart y e es h.0 h.1 rest (ground (arith, o)),
      )

  bucket_overlaps-Apart :
      (ds : List Draft)
      → All HasSpan ds
      → Sorted 0 ds
      → bucket_overlaps before not_after ds ≡ false
      → AllPairs Apart ds
  unfolding bucket_overlaps Sorted
  bucket_overlaps-Apart [] h s o = tt
  bucket_overlaps-Apart (d ∷ ds) h s o = chain-Apart s.0 d ds h.0 h.1 s.3 o

  pub bucket-Apart :
      (ds : List Draft)
      → All HasSpan ds
      → bucket_overlaps before not_after (sort_drafts before not_after ds) ≡ false
      → AllPairs Apart ds
  bucket-Apart ds h o = sort-AllPairs ds (
      bucket_overlaps-Apart (sort_drafts before not_after ds) (All-sort HasSpan ds h)
        (sort-Sorted ds h) o)
