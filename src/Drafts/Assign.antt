-- ===== src/Drafts/Assign.antt =====
-- The drafts that src/calendar-state.ts makes of spans, and what they hold together.
use allocube.Prelude.{
  ℕ, suc, ◌≡◌, refl, ◌∙◌, arith, Bool, ◌&&◌, Option, List, [], ◌∷◌, any, any-append,
}
use allocube.Interval.{Span, covered}
use allocube.Drafts.{
  TargetKey, same_key, reservation_target_key, SegmentInput, Draft, placed, assign,
  flat_map_counted,
}
use allocube.Drafts.Keys.{held}

module _ (create_id : ℕ → ℕ) (boundary : Option ℕ) (i : SegmentInput) (key : TargetKey)
    (t : ℕ) where
  pub held-assign :
      (ids : List ℕ) (n : ℕ) (ss : List Span)
      → held key t
          (assign create_id (λ id s. record { id = id; input = placed boundary i s }) ids n ss).1
        ≡ (same_key (reservation_target_key i) key && covered t ss)
  unfolding assign reservation_target_key
  held-assign ids n [] = ground arith
  held-assign [] n (s ∷ ss) = ground (arith, held-assign [] (suc n) ss)
  held-assign (id ∷ ids) n (s ∷ ss) = ground (arith, held-assign ids n ss)

-- What the drafts of a list hold, when each of them is replaced by several.
pub held-flat_map_counted {ℓ} :
    {A : Type ℓ} (f : ℕ → A → ℕ × List Draft) (key : TargetKey) (t : ℕ) (g : A → Bool)
    → ((n : ℕ) (x : A) → held key t (f n x).1 ≡ g x)
    → (n : ℕ) (xs : List A) → held key t (flat_map_counted f n xs).1 ≡ any g xs
unfolding flat_map_counted
held-flat_map_counted f key t g each n [] = refl
held-flat_map_counted f key t g each n (x ∷ xs) =
    any-append _ (f n x).1 _
    ∙ rw (each n x, held-flat_map_counted f key t g each (f n x).0 xs) (ground arith)
