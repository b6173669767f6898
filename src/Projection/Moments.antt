-- ===== src/Projection/Moments.antt =====
-- Which moments mergeProjectedWindows (src/calendar-unavailability.ts) draws as unavailable.
use allocube.Prelude.{
  ℕ, ◌≡◌, ◌≤◌, ◌<◌, refl, ◌∙◌, ap, arith, Bool, true, false, ◌&&◌, ◌||◌, Option, none, some, List,
  [], ◌∷◌, map, any, All, any-append, leb, inl, inr, Bool-cases,
}
use allocube.Interval.{Span, inside, covered, nonempty, merge_loop, merge_sorted}
use allocube.Interval.Shape.{Ascending}
use allocube.Interval.Cover.{covered-merge_sorted}
use allocube.Store.{Scope, machine, resource_group, WindowKind}
use allocube.Drafts.{times_of}
use allocube.Projection.{
  UnavailabilityWindow, Source, Dated, ProjectedUnavailability, wanted, keep_dated, dated, at_most,
  insert_source, sort_sources, alone, joined, project_loop, project_sorted, sources_of, source_of,
  merge_projected_windows,
}

abbrev spans : List Dated → List Span
spans = map (λ x. x.times)

abbrev pub drawn : List ProjectedUnavailability → List Span
drawn = map (λ p. p.times)

-- The moment lies in the window, whose times are dates.
abbrev pub within : ℕ → Option Span → Bool
within t none = false
within t (some s) = inside t s

-- An active window of the kind holds the moment.
abbrev pub holds : WindowKind → ℕ → UnavailabilityWindow → Bool
holds kind t w = wanted kind w && within t (times_of w.start_at w.end_at)

covered-keep_dated :
    (t : ℕ) (s : Source) (o : Option Span) (rest : List Dated)
    → covered t (spans (keep_dated s o rest)) ≡ (within t o || covered t (spans rest))
unfolding keep_dated
covered-keep_dated t s none rest = refl
covered-keep_dated t s (some o) rest = elim (Bool-cases (nonempty o)) [
  | inl e ↦ rw e (ground arith)
  | inr e ↦ rw e (ground (arith, e))
]

covered-dated :
    (t : ℕ) (kind : WindowKind) (xs : List Source)
    → covered t (spans (dated kind xs)) ≡ any (λ s. holds kind t s.window) xs
unfolding dated
covered-dated t kind [] = refl
covered-dated t kind (s ∷ xs) = elim (Bool-cases (wanted kind s.window)) [
  | inl e ↦ rw e (
      covered-keep_dated t s (times_of s.window.start_at s.window.end_at) (dated kind xs)
      ∙ ground (arith, covered-dated t kind xs))
  | inr e ↦ rw e (covered-dated t kind xs)
]

covered-insert_source :
    (t : ℕ) (x : Dated) (ys : List Dated)
    → covered t (spans (insert_source x ys)) ≡ (inside t x.times || covered t (spans ys))
unfolding insert_source
covered-insert_source t x [] = ground arith
covered-insert_source t x (y ∷ ys) = elim (Bool-cases (at_most x.times y.times)) [
  | inl e ↦ rw e (ground arith)
  | inr e ↦ rw e (ground (arith, covered-insert_source t x ys))
]

covered-sort_sources :
    (t : ℕ) (xs : List Dated) → covered t (spans (sort_sources xs)) ≡ covered t (spans xs)
unfolding sort_sources
covered-sort_sources t [] = refl
covered-sort_sources t (x ∷ xs) =
    covered-insert_source t x (sort_sources xs) ∙ ground (arith, covered-sort_sources t xs)

insert_source-Ascending :
    (lo : ℕ) (x : Dated) (ys : List Dated)
    → lo ≤ x.times.start
    → x.times.start < x.times.end
    → Ascending lo (spans ys)
    → Ascending lo (spans (insert_source x ys))
unfolding insert_source
insert_source-Ascending lo x [] h k a = (h, k, tt)
insert_source-Ascending lo x (y ∷ ys) h k a = elim (Bool-cases (at_most x.times y.times)) [
  | inl e ↦ rw e (h, k, (ground arith, a.1, a.2))
  | inr e ↦ rw e (a.0, a.1, insert_source-Ascending y.times.start x ys (ground arith) k a.2)
]

-- Sources whose times are in order.
abbrev InOrder : List Dated → Type 0
InOrder = All (λ x. nonempty x.times ≡ true)

keep_dated-InOrder :
    (s : Source) (o : Option Span) (rest : List Dated)
    → InOrder rest
    → InOrder (keep_dated s o rest)
unfolding keep_dated
keep_dated-InOrder s none rest a = a
keep_dated-InOrder s (some o) rest a = elim (Bool-cases (nonempty o)) [
  | inl e ↦ rw e (e, a)
  | inr e ↦ rw e a
]

dated-InOrder : (kind : WindowKind) (xs : List Source) → InOrder (dated kind xs)
unfolding dated
dated-InOrder kind [] = tt
dated-InOrder kind (s ∷ xs) = elim (Bool-cases (wanted kind s.window)) [
  | inl e ↦ rw e (
      keep_dated-InOrder s (times_of s.window.start_at s.window.end_at) (dated kind xs)
        (dated-InOrder kind xs))
  | inr e ↦ rw e (dated-InOrder kind xs)
]

sort_sources-Ascending : (xs : List Dated) → InOrder xs → Ascending 0 (spans (sort_sources xs))
unfolding sort_sources
sort_sources-Ascending [] a = tt
sort_sources-Ascending (x ∷ xs) a =
    insert_source-Ascending 0 x (sort_sources xs) (omega arith) (ground (arith, a.0))
      (sort_sources-Ascending xs a.1)

-- The loop merges as mergeTimeRanges does.
drawn-project_loop :
    (previous : ProjectedUnavailability) (xs : List Dated)
    → drawn (project_loop previous xs) ≡ merge_loop previous.times (spans xs)
unfolding project_loop merge_loop joined
drawn-project_loop previous [] = refl
drawn-project_loop previous (x ∷ xs) = elim (Bool-cases (leb x.times.start previous.times.end)) [
  | inl e ↦ rw (e, merge_loop, project_loop) (drawn-project_loop (joined previous x) xs)
  | inr e ↦
      rw (e, merge_loop, project_loop)
        (ap (λ r. previous.times ∷ r) (drawn-project_loop (alone x) xs))
]

drawn-project_sorted : (xs : List Dated) → drawn (project_sorted xs) ≡ merge_sorted (spans xs)
unfolding project_sorted merge_sorted
drawn-project_sorted [] = refl
drawn-project_sorted (x ∷ xs) = drawn-project_loop (alone x) xs

any-source_of :
    (t : ℕ) (kind : WindowKind) (scope : Scope) (ws : List UnavailabilityWindow)
    → any (λ s. holds kind t s.window) (map (source_of scope) ws) ≡ any (holds kind t) ws
any-source_of t kind scope [] = refl
any-source_of t kind scope (w ∷ ws) = rw (any-source_of t kind scope ws) refl

-- A moment lies in an interval that the calendar draws for a kind exactly where an active window
-- of the kind, of the machine or of the group, whose times are dates, holds it.
pub covered-merge_projected_windows :
    (t : ℕ) (machine_windows group_windows : List UnavailabilityWindow) (kind : WindowKind)
    → covered t (drawn (merge_projected_windows machine_windows group_windows kind))
      ≡ (any (holds kind t) machine_windows || any (holds kind t) group_windows)
unfolding merge_projected_windows
covered-merge_projected_windows t machine_windows group_windows kind =
    let xs = sources_of machine_windows group_windows in
    ap (covered t) (drawn-project_sorted (sort_sources (dated kind xs)))
    ∙ covered-merge_sorted t _ (sort_sources-Ascending _ (dated-InOrder kind xs))
    ∙ covered-sort_sources t (dated kind xs)
    ∙ covered-dated t kind xs
    ∙ any-append (λ s. holds kind t s.window) (map (source_of machine) machine_windows) _
    ∙ rw
        (
          any-source_of t kind machine machine_windows,
          any-source_of t kind resource_group group_windows,
        )
        refl
