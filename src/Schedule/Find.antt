-- ===== src/Schedule/Find.antt =====
-- The row that a lookup finds, before and after other rows change.
use mathlib.Core.Bool.{false≢true}
use allocube.Prelude.{
  ◌≡◌, ◌∙◌, ap, refl, sym, subst, Bool, true, false, inl, inr, some, some_inj, List, [], ◌∷◌, ◌++◌,
  All, AllPairs, All-mono, All-zip2, All-filter, filter, Bool-cases,
}
use allocube.Store.Rows.{find, update_first}
use allocube.Schedule.Update.{All-find, find-cons_true, find-cons_false}

module _ {ℓ} {A : Type ℓ} where
  -- A row keeps its place when another row changes.
  pub find-update_first :
      (p q : A → Bool) (f : A → A) (xs : List A)
      → ((x : A) → q x ≡ true → (p x ≡ false) × (p (f x) ≡ false))
      → find p (update_first q f xs) ≡ find p xs
  unfolding find update_first
  find-update_first p q f [] h = refl
  find-update_first p q f (x ∷ xs) h = elim (Bool-cases (q x)) [
    | inl e ↦ rw (e, (h x e).0, (h x e).1)
    | inr e ↦ rw (e, find-update_first p q f xs h)
  ]

  pub find-append :
      (p : A → Bool) (xs ys : List A) (r : A) → find p xs ≡ some r → find p (xs ++ ys) ≡ some r
  unfolding find
  find-append p [] ys r h = absurd (cc h)
  find-append p (x ∷ xs) ys r h = elim (Bool-cases (p x)) [
    | inl e ↦ rw e (rw e at h)
    | inr e ↦ rw e (find-append p xs ys r (rw e at h))
  ]

  -- What is related to every other row is related to the row that is found.
  pub AllPairs-find :
      (R : A → A → Type 0) (p : A → Bool) (xs : List A) (r : A)
      → ((x y : A) → R x y → R y x)
      → find p xs ≡ some r
      → AllPairs R xs
      → All (λ x. p x ≡ false → R x r) xs
  unfolding find
  AllPairs-find R p [] r s h a = tt
  AllPairs-find R p (x ∷ xs) r s h a = elim (Bool-cases (p x)) [
    | inl e ↦
        let same = some_inj (rw e at h) in
        (
          (λ no. absurd (false≢true (sym no ∙ e))),
          All-mono (R x) (λ y. p y ≡ false → R y r) xs (λ y k _. subst (R y) same (s x y k)) a.0,
        )
    | inr e ↦
        let found = rw e at h in
        ((λ _. All-find (R x) p xs r found a.0), AllPairs-find R p xs r s found a.1)
  ]

  -- The entry that is found under each entry's own test, where no two entries pass one test.
  pub All-find_self :
      (p : A → A → Bool) (xs : List A)
      → ((x : A) → p x x ≡ true)
      → AllPairs (λ a b. p b a ≡ false) xs
      → All (λ r. find (p r) xs ≡ some r) xs
  unfolding find
  All-find_self p [] s a = tt
  All-find_self p (x ∷ xs) s a = (
    find-cons_true (p x) x xs (s x),
    All-zip2 (λ r other found. find-cons_false (p r) x xs other ∙ found) xs a.0
        (All-find_self p xs s a.1),
  )

  pub AllPairs-filter :
      (R : A → A → Type 0) (p : A → Bool) (xs : List A) → AllPairs R xs → AllPairs R (filter p xs)
  AllPairs-filter R p [] a = tt
  AllPairs-filter R p (x ∷ xs) a = elim (Bool-cases (p x)) [
    | inl e ↦ rw e (All-filter (R x) p xs a.0, AllPairs-filter R p xs a.1)
    | inr e ↦ rw e (AllPairs-filter R p xs a.1)
  ]

  pub filter-All : (p : A → Bool) (xs : List A) → All (λ x. p x ≡ true) (filter p xs)
  filter-All p [] = tt
  filter-All p (x ∷ xs) = elim (Bool-cases (p x)) [
    | inl e ↦ rw e (e, filter-All p xs)
    | inr e ↦ rw e (filter-All p xs)
  ]

  -- The changed row is found where the row was.
  pub find-updated :
      (p : A → Bool) (f : A → A) (xs : List A) (r : A)
      → ((x : A) → p (f x) ≡ p x)
      → find p xs ≡ some r
      → find p (update_first p f xs) ≡ some (f r)
  unfolding find update_first
  find-updated p f [] r keeps h = absurd (cc h)
  find-updated p f (x ∷ xs) r keeps h = elim (Bool-cases (p x)) [
    | inl e ↦ rw (e, keeps x, e) (ap (λ k. some (f k)) (some_inj (rw e at h)))
    | inr e ↦ rw (e, e) (find-updated p f xs r keeps (rw e at h))
  ]
