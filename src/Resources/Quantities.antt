-- ===== src/Resources/Quantities.antt =====
-- What an accepted configuration (server/resources.ts) gives out of one capacity.
use allocube.Prelude.{
  ℕ, ◌≡◌, ◌≤◌, ◌+◌, ◌∙◌, refl, ap, subst, arith, false, some, List, [], ◌∷◌, ◌++◌, ◌==◌, ==_refl,
  leb→le, if◌then◌else◌, flat_map, append-nil, flat_map-append,
}
use allocube.Store.Error.{ok}
use allocube.Resources.Loop.{granted, Made, by_quantity, by_shared, Made-other, validate-keeps_pool}
use allocube.Resources.{
  exclusive, capacity, Configuration, Resolved, get_pool, Pool, Share, index_ranges, items, amount,
  ResourceAllocation, Claims, validate_resource_configuration,
}

abbrev pub sum : List ℕ → ℕ
sum [] = 0
sum (n ∷ ns) = n + sum ns

-- The quantities that allocations give out of a pool.
abbrev pub amounts_in : Share → List ℕ
amounts_in (index_ranges rs) = []
amounts_in (items chosen) = []
amounts_in (amount q) = q ∷ []

abbrev pub amounts_of : ℕ → List ResourceAllocation → List ℕ
amounts_of pool_id = flat_map (λ a. if a.pool_id == pool_id then amounts_in a.share else [])

pub sum-append : (xs ys : List ℕ) → sum (xs ++ ys) ≡ sum xs + sum ys
sum-append [] ys = omega arith
sum-append (x ∷ xs) ys = omega (arith, sum-append xs ys)

-- Numbers added to a first one, from left to right.
abbrev pub added : (ℕ → ℕ → ℕ) → ℕ → List ℕ → ℕ
added plus from [] = from
added plus from (n ∷ ns) = added plus (plus from n) ns

added-append :
    (plus : ℕ → ℕ → ℕ) (from : ℕ) (xs ys : List ℕ)
    → added plus from (xs ++ ys) ≡ added plus (added plus from xs) ys
added-append plus from [] ys = refl
added-append plus from (x ∷ xs) ys = added-append plus (plus from x) xs ys

-- What a configuration gives of a pool, added from zero in the order of the answer.
abbrev pub total_of : (ℕ → ℕ → ℕ) → ℕ → List ResourceAllocation → ℕ
total_of plus id made = added plus 0 (amounts_of id made)

total_of-snoc :
    (plus : ℕ → ℕ → ℕ) (id : ℕ) (made : List ResourceAllocation) (one : ResourceAllocation)
    → total_of plus id (made ++ one ∷ [])
      ≡ added plus (total_of plus id made) (if one.pool_id == id then amounts_in one.share else [])
total_of-snoc plus id made one =
    ap (added plus 0)
      (flat_map-append (λ a. if a.pool_id == id then amounts_in a.share else []) made (one ∷ []))
    ∙ added-append plus 0 (amounts_of id made) _
    ∙ ap (added plus (total_of plus id made))
        (append-nil (if one.pool_id == id then amounts_in one.share else []))

-- The running total is what was given, and not above the capacity.
Totalled : (ℕ → ℕ → ℕ) → Pool → ℕ → List ResourceAllocation → Claims → Type 0
Totalled plus pool total made claims =
    (claims.totals pool.id ≡ total_of plus pool.id made) × (total_of plus pool.id made ≤ total)

module _ (plus : ℕ → ℕ → ℕ) (pool : Pool) (total : ℕ) where
  Totalled-same :
      (made : List ResourceAllocation) (one : ResourceAllocation) (claims after : Claims)
      → (one.pool_id == pool.id) ≡ false
      → after.totals pool.id ≡ claims.totals pool.id
      → Totalled plus pool total made claims
      → Totalled plus pool total (made ++ one ∷ []) after
  unfolding Totalled
  Totalled-same made one claims after e kept j =
      let same : total_of plus pool.id (made ++ one ∷ []) ≡ total_of plus pool.id made =
        total_of-snoc plus pool.id made one ∙ rw e refl in
      rw (same, kept) j

  Totalled-Made :
      (g : ℕ) (made : List ResourceAllocation) (one : ResourceAllocation) (claims after : Claims)
      → pool.sharing_mode ≡ exclusive
      → Made plus pool g claims (capacity total) after one
      → Totalled plus pool total made claims
      → Totalled plus pool total (made ++ one ∷ []) after
  unfolding Totalled
  Totalled-Made g made one claims after alone (by_shared e) j = absurd (cc (alone, e))
  Totalled-Made g made one claims after alone (by_quantity asked e fits) j =
      let grown : total_of plus pool.id (made ++ one ∷ [])
          ≡ plus (total_of plus pool.id made) asked =
        total_of-snoc plus pool.id made one ∙ rw (==_refl pool.id) refl in
      let counted = ap (λ n. plus n asked) j.0 in
      let below = leb→le (plus (claims.totals pool.id) asked) total fits in
      rw (==_refl pool.id, grown) (counted, subst (λ n. n ≤ total) counted below)

-- The quantities that an accepted configuration gives out of an exclusive capacity, added from zero
-- in the order of the answer as doubles are added, are together no more than the capacity.
pub validate_resource_configuration_amounts :
    (lower_case : ℕ → ℕ) (plus : ℕ → ℕ → ℕ) (input : Configuration) (out : List Resolved)
    (pool : Pool) (total : ℕ)
    → validate_resource_configuration lower_case plus input ≡ ok out
    → get_pool input.pools pool.id ≡ some pool
    → pool.sharing_mode ≡ exclusive
    → pool.kind ≡ capacity total
    → total_of plus pool.id (granted out) ≤ total
unfolding Totalled
validate_resource_configuration_amounts lower plus input out pool total h found alone kind =
    let (after, totalled) =
      validate-keeps_pool lower plus input out pool (Totalled plus pool total)
        (λ g made one claims next how j.
          Totalled-Made plus pool total g made one claims next alone
            (subst (λ k. Made plus pool g claims k next one) kind how) j)
        (λ other g made one claims next how e j.
          let (elsewhere, ranges, totals) =
            Made-other plus other g claims next other.kind one pool.id how e in
          Totalled-same plus pool total made one claims next elsewhere totals j)
        (refl, omega arith) h found in
    totalled.1
