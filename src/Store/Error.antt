-- ===== src/Store/Error.antt =====
-- BusinessError (server/business-error.ts): a constructor for each error that the schedule throws.
-- The details that some errors carry (the previews) are not kept.
use allocube.Prelude.{◌≡◌, refl, subst, All, Bool, true, false, Option, none, some, List, [], ◌∷◌}

pub data Error : Type 0 where
  -- what zod, the database and the runtime throw
  invalid_input constraint_violation no_such_group no_such_segment : Error
  -- server/scheduling.ts
  too_many_segments end_not_after_start start_in_past beyond_horizon : Error
  machine_target_invalid mixed_scopes internal_overlap_group internal_overlap : Error
  no_available_segments preview_unavailable original_kept new_slot_unavailable : Error
  reservation_missing not_owner state_changed group_change_refused scope_change_refused : Error
  already_ended already_started cancel_forbidden in_progress release_forbidden : Error
  not_in_progress replacement_changed : Error
  -- server/machine-access.ts and server/reservation-policy.ts
  no_machine_access access_expiry_exceeded admin_booking_disabled : Error
  -- server/unavailability.ts and server/edit-conflict.ts
  window_time_invalid window_not_minute window_end_not_after_start preview_stale target_missing
        target_disabled :
      Error
  window_overlap window_missing window_already_cancelled window_not_planned window_ended : Error
  reservations_changed windows_changed target_status_changed edit_conflict : Error
  -- src/calendar-state.ts
  incomplete_preview mismatched_preview : Error
  -- server/resources.ts
  duplicate_pool duplicate_pool_name pool_end_before_start duplicate_item duplicate_item_key : Error
  duplicate_group duplicate_group_name pool_repeated no_such_pool allocation_kind_wrong : Error
  range_end_before_start range_outside_pool ranges_overlap range_claimed : Error
  item_repeated no_such_item item_claimed capacity_exceeded : Error

pub data Result {ℓ} (A : Type ℓ) : Type ℓ where
  ok : A → Result A
  err : Error → Result A

-- `if (!b) throw e`
abbrev pub guard : Bool → Error → Result (Unit {0})
guard passes thrown = elim passes [ true ↦ ok tt | false ↦ err thrown ]

-- `if (!row) throw e`
abbrev pub or_fail {ℓ} : {A : Type ℓ} → Option A → Error → Result A
or_fail none e = err e
or_fail (some a) e = ok a

module _ {ℓ κ} {A : Type ℓ} {B : Type κ} where
  infixl 5 ◌>>=◌
  -- What follows a statement, unless it throws.
  abbrev pub ◌>>=◌ : Result A → (A → Result B) → Result B
  m >>= next = elim m [ ok a ↦ next a | err thrown ↦ err thrown ]

infixl 5 ◌>>◌
abbrev pub ◌>>◌ {ℓ} : {B : Type ℓ} → Result (Unit {0}) → Result B → Result B
check >> rest = elim check [ ok u ↦ rest | err thrown ↦ err thrown ]

-- `xs.forEach(check)`, stopped by the first throw.
unfoldable pub check_all {ℓ} : {A : Type ℓ} → (A → Result (Unit {0})) → List A → Result (Unit {0})
check_all f [] = ok tt
check_all f (x ∷ xs) = f x >>= λ _. check_all f xs

-- `xs.map(f)`, stopped by the first throw.
unfoldable pub traverse {ℓ κ} :
    {A : Type ℓ} {B : Type κ} → (A → Result B) → List A → Result (List B)
traverse f [] = ok []
traverse f (x ∷ xs) = f x >>= λ y. traverse f xs >>= λ ys. ok (y ∷ ys)

module _ {ℓ κ} {A : Type ℓ} {B : Type κ} where
  -- Where the whole returned, the first statement did, and then the rest.
  pub >>=-eq-ok :
      (first : Result A) (next : A → Result B) {out : B}
      → (first >>= next) ≡ ok out
      → (got : A) × (first ≡ ok got) × (next got ≡ ok out)
  >>=-eq-ok (err thrown) next returned = absurd (cc returned)
  >>=-eq-ok (ok got) next returned = (got, refl, returned)

-- A guard that passed, and what followed it.
pub guard-eq-ok {ℓ} :
    {B : Type ℓ} (t : Bool) (e : Error) (k : Result B) {b : B}
    → (guard t e >> k) ≡ ok b
    → (t ≡ true) × (k ≡ ok b)
guard-eq-ok true e k h = (refl, h)
guard-eq-ok false e k h = absurd (cc h)

pub guard-true : (t : Bool) (e : Error) {u : Unit {0}} → guard t e ≡ ok u → t ≡ true
guard-true true e h = refl
guard-true false e h = absurd (cc h)

pub or_fail-eq-ok {ℓ κ} :
    {A : Type ℓ} {B : Type κ} (o : Option A) (e : Error) (k : A → Result B) {b : B}
    → (or_fail o e >>= k) ≡ ok b
    → (a : A) × (o ≡ some a) × (k a ≡ ok b)
or_fail-eq-ok none e k h = absurd (cc h)
or_fail-eq-ok (some a) e k h = (a, refl, h)

pub ok_inj {ℓ} : {A : Type ℓ} {a b : A} → ok a ≡ ok b → a ≡ b
ok_inj h = cc

-- What holds of each value that the mapped function returns holds of all of them.
pub traverse-All {ℓ κ μ} :
    {A : Type ℓ} {B : Type κ} (P : B → Type μ) (f : A → Result B) (xs : List A) (ys : List B)
    → ((x : A) (y : B) → f x ≡ ok y → P y)
    → traverse f xs ≡ ok ys
    → All P ys
unfolding traverse
traverse-All P f [] ys h e = subst (All P) (ok_inj e) tt
traverse-All P f (x ∷ xs) ys h e =
    let (y, fy, more) = >>=-eq-ok (f x) _ e in
    let (zs, rest, last) = >>=-eq-ok (traverse f xs) _ more in
    subst (All P) (ok_inj last) (h x y fy, traverse-All P f xs zs h rest)

-- A check that passed on a list passed on each entry.
pub check_all-All {ℓ κ} :
    {A : Type ℓ} (P : A → Type κ) (f : A → Result (Unit {0})) (xs : List A) (u : Unit {0})
    → ((x : A) (v : Unit {0}) → f x ≡ ok v → P x)
    → check_all f xs ≡ ok u
    → All P xs
unfolding check_all
check_all-All P f [] u h e = tt
check_all-All P f (x ∷ xs) u h e =
    let (v, fx, more) = >>=-eq-ok (f x) _ e in (h x v fx, check_all-All P f xs u h more)

-- The operation returned, and threw nothing.
abbrev pub Returned {ℓ} : {A : Type ℓ} → Result A → Type 0
Returned (ok a) = Unit {0}
Returned (err e) = ⊥

pub returned {ℓ} : {A : Type ℓ} (m : Result A) → Returned m → (a : A) × (m ≡ ok a)
returned (ok a) h = (a, refl)
returned (err e) h = absurd h
