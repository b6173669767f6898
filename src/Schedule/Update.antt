-- ===== src/Schedule/Update.antt =====
-- Statements that change rows, and what they keep of a table.
use allocube.Prelude.{
  ◌≡◌, sym, subst, Bool, true, false, inl, inr, some, some_inj, List, [], ◌∷◌, All, AllPairs,
  All-mono, All-zip2, Bool-cases,
}
use allocube.Store.Rows.{find, update_first, delete_first, update_where}

module _ {ℓ} {A : Type ℓ} where
  -- The first row that fits, split off.
  pub find-cons_true : (p : A → Bool) (x : A) (xs : List A) → p x ≡ true → find p (x ∷ xs) ≡ some x
  unfolding find
  find-cons_true p x xs e = rw e

  pub find-cons_false :
      (p : A → Bool) (x : A) (xs : List A) → p x ≡ false → find p (x ∷ xs) ≡ find p xs
  unfolding find
  find-cons_false p x xs e = rw e

  pub All-find {κ} :
      (P : A → Type κ) (p : A → Bool) (xs : List A) (r : A) → find p xs ≡ some r → All P xs → P r
  unfolding find
  All-find P p [] r h a = absurd (cc h)
  All-find P p (x ∷ xs) r h a = elim (Bool-cases (p x)) [
    | inl e ↦ subst P (some_inj (rw e at h)) a.0
    | inr e ↦ All-find P p xs r (rw e at h) a.1
  ]

  pub find-fits : (p : A → Bool) (xs : List A) (r : A) → find p xs ≡ some r → p r ≡ true
  unfolding find
  find-fits p [] r h = absurd (cc h)
  find-fits p (x ∷ xs) r h = elim (Bool-cases (p x)) [
    | inl e ↦ subst (λ y. p y ≡ true) (some_inj (rw e at h)) e
    | inr e ↦ find-fits p xs r (rw e at h)
  ]

  pub All-update_first {κ} :
      (P : A → Type κ) (p : A → Bool) (f : A → A) (xs : List A) (r : A)
      → find p xs ≡ some r
      → (P r → P (f r))
      → All P xs
      → All P (update_first p f xs)
  unfolding find update_first
  All-update_first P p f [] r h k a = tt
  All-update_first P p f (x ∷ xs) r h k a = elim (Bool-cases (p x)) [
    | inl e ↦
        let same : x ≡ r = some_inj (rw e at h) in
        rw e (subst (λ y. P (f y)) (sym same) (k (subst P same a.0)), a.1)
    | inr e ↦ rw e (a.0, All-update_first P p f xs r (rw e at h) k a.1)
  ]

  pub AllPairs-update_first :
      (R : A → A → Type 0) (p : A → Bool) (f : A → A) (xs : List A) (r : A)
      → find p xs ≡ some r
      → ((x : A) → R r x → R (f r) x)
      → ((x : A) → R x r → R x (f r))
      → AllPairs R xs
      → AllPairs R (update_first p f xs)
  unfolding find update_first
  AllPairs-update_first R p f [] r h kl kr a = tt
  AllPairs-update_first R p f (x ∷ xs) r h kl kr a = elim (Bool-cases (p x)) [
    | inl e ↦
        let same : x ≡ r = some_inj (rw e at h) in
        rw (e, same) (All-mono (R r) (R (f r)) xs kl (subst (λ y. All (R y) xs) same a.0), a.1)
    | inr e ↦ rw e (
      All-update_first (R x) p f xs r (rw e at h) (kr x) a.0,
      AllPairs-update_first R p f xs r (rw e at h) kl kr a.1,
    )
  ]

  -- One row replaced by another that gets on with all rows but the one that it replaces.
  pub AllPairs-replace :
      (R : A → A → Type 0) (p : A → Bool) (f : A → A) (xs : List A) (r : A)
      → find p xs ≡ some r
      → AllPairs (λ a b. p a ≡ true → p b ≡ false) xs
      → All (λ x. p x ≡ false → R (f r) x × R x (f r)) xs
      → AllPairs R xs
      → AllPairs R (update_first p f xs)
  unfolding find update_first
  AllPairs-replace R p f [] r h sep fresh a = tt
  AllPairs-replace R p f (x ∷ xs) r h sep fresh a = elim (Bool-cases (p x)) [
    | inl e ↦
        let same : x ≡ r = some_inj (rw e at h) in
        rw (e, same) (All-zip2 (λ y s k. (k (s e)).0) xs sep.0 fresh.1, a.1)
    | inr e ↦ rw e (
      All-update_first (R x) p f xs r (rw e at h) (λ _. (fresh.0 e).1) a.0,
      AllPairs-replace R p f xs r (rw e at h) sep.1 fresh.1 a.1,
    )
  ]

  -- What holds of all rows but the one that is replaced, and of the row that replaces it.
  pub All-replace {κ μ} :
      (P : A → Type κ) (Q : A → Type μ) (p : A → Bool) (f : A → A) (xs : List A) (r : A)
      → find p xs ≡ some r
      → AllPairs (λ a b. p a ≡ true → p b ≡ false) xs
      → ((x : A) → p x ≡ false → P x → Q x)
      → Q (f r)
      → All P xs
      → All Q (update_first p f xs)
  unfolding find update_first
  All-replace P Q p f [] r h sep k q a = tt
  All-replace P Q p f (x ∷ xs) r h sep k q a = elim (Bool-cases (p x)) [
    | inl e ↦
        let same : x ≡ r = some_inj (rw e at h) in
        rw (e, same) (q, All-zip2 (λ y s b. k y (s e) b) xs sep.0 a.1)
    | inr e ↦ rw e (k x e a.0, All-replace P Q p f xs r (rw e at h) sep.1 k q a.1)
  ]

  pub All-delete_first {κ} :
      (P : A → Type κ) (p : A → Bool) (xs : List A) → All P xs → All P (delete_first p xs)
  unfolding delete_first
  All-delete_first P p [] a = tt
  All-delete_first P p (x ∷ xs) a = elim (Bool-cases (p x)) [
    | inl e ↦ rw e a.1
    | inr e ↦ rw e (a.0, All-delete_first P p xs a.1)
  ]

  pub AllPairs-delete_first :
      (R : A → A → Type 0) (p : A → Bool) (xs : List A)
      → AllPairs R xs
      → AllPairs R (delete_first p xs)
  unfolding delete_first
  AllPairs-delete_first R p [] a = tt
  AllPairs-delete_first R p (x ∷ xs) a = elim (Bool-cases (p x)) [
    | inl e ↦ rw e a.1
    | inr e ↦ rw e (All-delete_first (R x) p xs a.0, AllPairs-delete_first R p xs a.1)
  ]

  pub All-update_where {κ μ} :
      (P : A → Type κ) (Q : A → Type μ) (p : A → Bool) (f : A → A) (xs : List A)
      → ((x : A) → p x ≡ true → P x → Q (f x))
      → ((x : A) → p x ≡ false → P x → Q x)
      → All P xs
      → All Q (update_where p f xs)
  unfolding update_where
  All-update_where P Q p f [] k l a = tt
  All-update_where P Q p f (x ∷ xs) k l a = elim (Bool-cases (p x)) [
    | inl e ↦ rw e (k x e a.0, All-update_where P Q p f xs k l a.1)
    | inr e ↦ rw e (l x e a.0, All-update_where P Q p f xs k l a.1)
  ]

  -- Where the change of any row keeps its relations to all others, a sweep of changes does.
  pub AllPairs-update_where :
      (R : A → A → Type 0) (p : A → Bool) (f : A → A) (xs : List A)
      → ((x y : A) → p x ≡ true → R x y → R (f x) y)
      → ((x y : A) → p y ≡ true → R x y → R x (f y))
      → AllPairs R xs
      → AllPairs R (update_where p f xs)
  unfolding update_where
  AllPairs-update_where R p f [] kl kr a = tt
  AllPairs-update_where R p f (x ∷ xs) kl kr a =
      let later = AllPairs-update_where R p f xs kl kr a.1 in
      elim (Bool-cases (p x)) [
        | inl e ↦ rw e (
          All-update_where (R x) (R (f x)) p f xs (λ y ey h. kr (f x) y ey (kl x y e h))
              (λ y _ h. kl x y e h) a.0,
          later,
        )
        | inr e ↦
            rw e
              (All-update_where (R x) (R x) p f xs (λ y ey h. kr x y ey h) (λ y _ h. h) a.0, later)
      ]
