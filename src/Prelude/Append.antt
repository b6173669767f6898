-- ===== src/Prelude/Append.antt =====
-- Lists joined, and what runs over them.
use mathlib.Core.Path.{◌≡◌, refl, sym, ap, ◌∙◌}
use mathlib.Core.Bool.{Bool, ◌&&◌, ◌||◌}
use mathlib.Core.List.{List, [], ◌∷◌, ◌++◌, map}
use native.Mathlib.Omega.{arith}
use allocube.Prelude.Lists.{any, filter, flat_map, All, AllPairs, All-append}

module _ {ℓ} {A : Type ℓ} where
  pub append-cons : (xs : List A) (y : A) (ys : List A) → (xs ++ y ∷ []) ++ ys ≡ xs ++ y ∷ ys
  append-cons [] y ys = refl
  append-cons (x ∷ xs) y ys = ap (◌∷◌ x) (append-cons xs y ys)

  pub append-nil : (xs : List A) → xs ++ [] ≡ xs
  append-nil [] = refl
  append-nil (x ∷ xs) = ap (◌∷◌ x) (append-nil xs)

  pub append-append : (xs ys zs : List A) → (xs ++ ys) ++ zs ≡ xs ++ (ys ++ zs)
  append-append [] ys zs = refl
  append-append (x ∷ xs) ys zs = ap (◌∷◌ x) (append-append xs ys zs)

  pub any-append : (f : A → Bool) (xs ys : List A) → any f (xs ++ ys) ≡ (any f xs || any f ys)
  any-append f [] ys = refl
  any-append f (x ∷ xs) ys = ground (arith, any-append f xs ys)

module _ {ℓ} {A : Type ℓ} (p : A → Bool) where
  pub any-and : (b : Bool) (xs : List A) → any (λ x. p x && b) xs ≡ (any p xs && b)
  any-and b [] = refl
  any-and b (x ∷ xs) = ground (arith, any-and b xs)

  pub any-or : (q : A → Bool) (xs : List A) → any (λ x. p x || q x) xs ≡ (any p xs || any q xs)
  any-or q [] = refl
  any-or q (x ∷ xs) = ground (arith, any-or q xs)

  -- Only what the filter keeps counts.
  pub any-filter : (q : A → Bool) (xs : List A) → any p (filter q xs) ≡ any (λ x. q x && p x) xs
  any-filter q [] = refl
  any-filter q (x ∷ xs) = ground (arith, any-filter q xs)

  pub any-map {κ} :
      {B : Type κ} (f : B → A) (xs : List B) → any p (map f xs) ≡ any (λ x. p (f x)) xs
  any-map f [] = refl
  any-map f (x ∷ xs) = ground (arith, any-map f xs)

  pub any-ext : (q : A → Bool) → ((x : A) → p x ≡ q x) → (xs : List A) → any p xs ≡ any q xs
  any-ext q same [] = refl
  any-ext q same (x ∷ xs) = rw (same x, any-ext q same xs) refl

pub AllPairs-append {ℓ} :
    {A : Type ℓ} (R : A → A → Type 0) (xs ys : List A)
    → AllPairs R xs
    → AllPairs R ys
    → All (λ x. All (R x) ys) xs
    → AllPairs R (xs ++ ys)
AllPairs-append R [] ys h k c = k
AllPairs-append R (x ∷ xs) ys h k c =
    (All-append (R x) xs ys h.0 c.0, AllPairs-append R xs ys h.1 k c.1)

-- The parts of a joined list.
module _ {ℓ} {A : Type ℓ} where
  pub All-split {κ} : (P : A → Type κ) (xs ys : List A) → All P (xs ++ ys) → All P xs × All P ys
  All-split P [] ys h = (tt, h)
  All-split P (x ∷ xs) ys h = let (a, b) = All-split P xs ys h.1 in ((h.0, a), b)

  pub AllPairs-split :
      (R : A → A → Type 0) (xs ys : List A)
      → AllPairs R (xs ++ ys)
      → AllPairs R xs × AllPairs R ys × All (λ x. All (R x) ys) xs
  AllPairs-split R [] ys h = (tt, h, tt)
  AllPairs-split R (x ∷ xs) ys h =
      let (own, cross) = All-split (R x) xs ys h.0 in
      let (a, b, c) = AllPairs-split R xs ys h.1 in ((own, a), b, (cross, c))

pub flat_map-append {ℓ κ} :
    {A : Type ℓ} {B : Type κ} (f : A → List B) (xs ys : List A)
    → flat_map f (xs ++ ys) ≡ flat_map f xs ++ flat_map f ys
flat_map-append f [] ys = refl
flat_map-append f (x ∷ xs) ys =
    ap (λ l. f x ++ l) (flat_map-append f xs ys)
    ∙ sym (append-append (f x) (flat_map f xs) (flat_map f ys))
