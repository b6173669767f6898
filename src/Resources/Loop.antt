-- ===== src/Resources/Loop.antt =====
-- What one allocation keeps, a whole configuration keeps.
use allocube.Prelude.{
  ℕ, ◌≡◌, ◌⊎◌, inl, inr, true, ◌∙◌, refl, sym, subst, Option, none, some, List, [], ◌∷◌, ◌++◌,
  flat_map, append-nil, append-cons, append-append, leb, ◌==◌, false, arith, Bool-cases, some_inj,
  not, elem,
}
use allocube.Store.Rows.{find}
use allocube.Schedule.Update.{find-fits}
use allocube.Store.Error.{
  ok, duplicate_group, duplicate_group_name, >>=-eq-ok, guard-eq-ok, or_fail-eq-ok, ok_inj,
}
use allocube.Resources.{
  SharingMode, exclusive, shared, amount, Configuration, Pool, GroupInput, AllocationInput,
  ResourceAllocation, Resolved, Claims, allocate, Range, RangeClaim, PoolItem, PoolKind, Choice,
  index_range, item_list, capacity, ranges, picked_items, quantity, index_ranges, items, put,
  share_of, claim_ranges, sort_ranges, claim_items, claim_quantity, allocate_all, get_pool,
  resolve_groups, check_pools, validate_resource_configuration, no_claims,
}

-- All allocations of the answer, in the order in which they were made.
abbrev pub granted : List Resolved → List ResourceAllocation
granted = flat_map (λ g. g.allocations)

-- `J made claims`: what the allocations made so far and the claims say of one another.
module _ (plus : ℕ → ℕ → ℕ) (pools : List Pool) (J : List ResourceAllocation → Claims → Type 0)
    (keeps : (pool : Pool) (group_name : ℕ) (a : AllocationInput) (claims after : Claims)
        (one : ResourceAllocation) (made : List ResourceAllocation)
      → get_pool pools a.pool_id ≡ some pool
      → allocate plus pool group_name pool.kind a.choice claims ≡ ok (after, one)
      → J made claims
      → J (made ++ one ∷ []) after) where
  allocate_all-keeps :
      (group_name : ℕ) (seen : List ℕ) (as_ : List AllocationInput) (claims after : Claims)
      (out made : List ResourceAllocation)
      → allocate_all plus pools group_name seen as_ claims ≡ ok (after, out)
      → J made claims
      → J (made ++ out) after
  unfolding allocate_all
  allocate_all-keeps g seen [] claims after out made h j =
      let e = ok_inj h in
      subst (λ p. J (made ++ p.1) p.0) e (subst (λ l. J l claims) (sym (append-nil made)) j)
  allocate_all-keeps g seen (a ∷ more) claims after out made h j =
      let (fresh, h1) = guard-eq-ok _ _ _ h in
      let (pool, found, h2) = or_fail-eq-ok (get_pool pools a.pool_id) _ _ h1 in
      let (one, made_one, h3) = >>=-eq-ok (allocate plus pool g pool.kind a.choice claims) _ h2 in
      let (others, made_others, h4) =
        >>=-eq-ok (allocate_all plus pools g (a.pool_id ∷ seen) more one.0) _ h3 in
      let step = keeps pool g a claims one.0 one.1 made found made_one j in
      let all =
        allocate_all-keeps g (a.pool_id ∷ seen) more one.0 others.0 others.1 (made ++ one.1 ∷ [])
          made_others step in
      subst (λ p. J (made ++ p.1) p.0) (ok_inj h4)
        (subst (λ l. J l others.0) (append-cons made one.1 others.1) all)

  resolve_groups-keeps :
      (lower_case : ℕ → ℕ) (ids names : List ℕ) (gs : List GroupInput) (claims after : Claims)
      (out : List Resolved) (made : List ResourceAllocation)
      → resolve_groups lower_case plus pools ids names gs claims ≡ ok (after, out)
      → J made claims
      → J (made ++ granted out) after
  unfolding resolve_groups
  resolve_groups-keeps lower ids names [] claims after out made h j =
      subst (λ p. J (made ++ granted p.1) p.0) (ok_inj h)
        (subst (λ l. J l claims) (sym (append-nil made)) j)
  resolve_groups-keeps lower ids names (g ∷ gs) claims after out made h j =
      let (fresh, h1) = guard-eq-ok (not (elem g.id ids)) duplicate_group _ h in
      let (named, h2) = guard-eq-ok (not (elem (lower g.name) names)) duplicate_group_name _ h1 in
      let (own, made_own, h3) =
        >>=-eq-ok (allocate_all plus pools g.name [] g.allocations claims) _ h2 in
      let (rest, made_rest, h4) =
        >>=-eq-ok (resolve_groups lower plus pools (g.id ∷ ids) (lower g.name ∷ names) gs own.0) _
          h3 in
      let all =
        resolve_groups-keeps lower (g.id ∷ ids) (lower g.name ∷ names) gs own.0 rest.0 rest.1
          (made ++ own.1) made_rest
          (allocate_all-keeps g.name [] g.allocations claims own.0 own.1 made made_own j) in
      subst (λ p. J (made ++ granted p.1) p.0) (ok_inj h4)
        (subst (λ l. J l rest.0) (append-append made own.1 (granted rest.1)) all)

pub validate-keeps :
    (lower_case : ℕ → ℕ) (plus : ℕ → ℕ → ℕ) (input : Configuration) (out : List Resolved)
    (J : List ResourceAllocation → Claims → Type 0)
    → ((pool : Pool) (group_name : ℕ) (a : AllocationInput) (claims after : Claims)
          (one : ResourceAllocation) (made : List ResourceAllocation)
        → get_pool input.pools a.pool_id ≡ some pool
        → allocate plus pool group_name pool.kind a.choice claims ≡ ok (after, one)
        → J made claims
        → J (made ++ one ∷ []) after)
    → J [] no_claims
    → validate_resource_configuration lower_case plus input ≡ ok out
    → (after : Claims) × J (granted out) after
unfolding validate_resource_configuration
validate-keeps lower plus input out J keeps start h =
    let (u, checked, h1) = >>=-eq-ok (check_pools lower [] [] [] input.pools) _ h in
    let (done, resolved, h2) =
      >>=-eq-ok (resolve_groups lower plus input.pools [] [] input.groups no_claims) _ h1 in
    (
      done.0,
      subst (λ l. J (granted l) done.0) (ok_inj h2)
          (resolve_groups-keeps plus input.pools J keeps lower [] [] input.groups no_claims done.0
            done.1 [] resolved start),
    )

-- The three ways in which an allocation of a pool of some kind succeeds.
pub data Made (plus : ℕ → ℕ → ℕ) (pool : Pool) (group_name : ℕ) (claims : Claims)
    : PoolKind → Claims → ResourceAllocation → Type 0 where
  by_ranges :
      {lo hi : ℕ} (asked : List Range) (claimed : List RangeClaim)
      → claim_ranges pool.sharing_mode lo hi group_name none
          (sort_ranges asked)
          (claims.ranges pool.id)
        ≡ ok claimed
      → Made plus pool group_name claims
          (index_range lo hi)
          (record claims { ranges = put pool.id claimed claims.ranges })
          (share_of pool (index_ranges (sort_ranges asked)))
  by_items :
      {known : List PoolItem} (asked : List ℕ) (chosen : List PoolItem) (claimed : ℕ → Option ℕ)
      → claim_items pool.sharing_mode known group_name asked claims.items ≡ ok (chosen, claimed)
      → Made plus pool group_name claims
          (item_list known)
          (record claims { items = claimed })
          (share_of pool (items chosen))
  by_shared :
      {total : ℕ}
      → pool.sharing_mode ≡ shared
      → Made plus pool group_name claims (capacity total) claims (share_of pool (amount total))
  by_quantity :
      {total : ℕ} (asked : ℕ)
      → pool.sharing_mode ≡ exclusive
      → leb (plus (claims.totals pool.id) asked) total ≡ true
      → Made plus pool group_name claims
          (capacity total)
          (record claims {
            totals = put pool.id (plus (claims.totals pool.id) asked) claims.totals;
          })
          (share_of pool (amount asked))

claim_quantity-Made :
    (plus : ℕ → ℕ → ℕ) (mode : SharingMode) (pool : Pool) (group_name total asked : ℕ)
    (claims after : Claims) (one : ResourceAllocation)
    → pool.sharing_mode ≡ mode
    → claim_quantity plus mode pool total asked claims ≡ ok (after, one)
    → Made plus pool group_name claims (capacity total) after one
unfolding claim_quantity
claim_quantity-Made plus exclusive pool g total asked claims after one e h =
    let (fits, h1) = guard-eq-ok _ _ _ h in
    subst (λ p. Made plus pool g claims (capacity total) p.0 p.1) (ok_inj h1)
      (by_quantity asked e fits)
claim_quantity-Made plus shared pool g total asked claims after one e h =
    subst (λ p. Made plus pool g claims (capacity total) p.0 p.1) (ok_inj h) (by_shared e)

pub allocate-Made :
    (plus : ℕ → ℕ → ℕ) (pool : Pool) (group_name : ℕ) (kind : PoolKind) (choice : Choice)
    (claims after : Claims) (one : ResourceAllocation)
    → allocate plus pool group_name kind choice claims ≡ ok (after, one)
    → Made plus pool group_name claims kind after one
unfolding allocate
allocate-Made plus pool g (index_range lo hi) (ranges asked) claims after one h =
    let (claimed, e, h1) =
      >>=-eq-ok
        (claim_ranges pool.sharing_mode lo hi g none (sort_ranges asked) (claims.ranges pool.id)) _
        h in
    subst (λ p. Made plus pool g claims (index_range lo hi) p.0 p.1) (ok_inj h1)
      (by_ranges asked claimed e)
allocate-Made plus pool g (item_list known) (picked_items asked) claims after one h =
    let (fresh, h1) = guard-eq-ok _ _ _ h in
    let (claimed, e, h2) =
      >>=-eq-ok (claim_items pool.sharing_mode known g asked claims.items) _ h1 in
    subst (λ p. Made plus pool g claims (item_list known) p.0 p.1) (ok_inj h2)
      (by_items asked claimed.0 claimed.1 e)
allocate-Made plus pool g (capacity total) (quantity asked) claims after one h =
    claim_quantity-Made plus pool.sharing_mode pool g total asked claims after one refl h
allocate-Made plus pool g (index_range lo hi) (picked_items asked) claims after one h =
    absurd (cc h)
allocate-Made plus pool g (index_range lo hi) (quantity asked) claims after one h = absurd (cc h)
allocate-Made plus pool g (item_list known) (ranges asked) claims after one h = absurd (cc h)
allocate-Made plus pool g (item_list known) (quantity asked) claims after one h = absurd (cc h)
allocate-Made plus pool g (capacity total) (ranges asked) claims after one h = absurd (cc h)
allocate-Made plus pool g (capacity total) (picked_items asked) claims after one h = absurd (cc h)

-- An allocation belongs to the pool that is looked at, or to one with another identifier.
pub get_pool_other :
    (pools : List Pool) (id : ℕ) (pool other : Pool)
    → get_pool pools pool.id ≡ some pool
    → get_pool pools id ≡ some other
    → (other ≡ pool) ⊎ ((other.id == pool.id) ≡ false)
unfolding get_pool
get_pool_other pools id pool other found met =
    let named : id ≡ other.id = ground (arith, find-fits (λ p. p.id == id) pools other met) in
    elim (Bool-cases (other.id == pool.id)) [
      | inl e ↦
          let same : id ≡ pool.id = ground (arith, e, named) in
          inl (
            some_inj (sym (subst (λ k. find (λ p. p.id == k) pools ≡ some other) same met) ∙ found))
      | inr e ↦ inr e
    ]

swapped : (a b : ℕ) → (b == a) ≡ false → (a == b) ≡ false
swapped a b h = ground (arith, h)

-- What the allocation of another pool leaves.
pub Made-other :
    (plus : ℕ → ℕ → ℕ) (pool : Pool) (group_name : ℕ) (claims after : Claims) (kind : PoolKind)
    (one : ResourceAllocation) (id : ℕ)
    → Made plus pool group_name claims kind after one
    → (pool.id == id) ≡ false
    → ((one.pool_id == id) ≡ false)
      × (after.ranges id ≡ claims.ranges id)
      × (after.totals id ≡ claims.totals id)
Made-other plus pool g claims after kind one id (by_ranges asked claimed h) e =
    (e, rw (swapped id pool.id e) refl, refl)
Made-other plus pool g claims after kind one id (by_items asked chosen claimed h) e =
    (e, refl, refl)
Made-other plus pool g claims after kind one id (by_shared h) e = (e, refl, refl)
Made-other plus pool g claims after kind one id (by_quantity asked h fits) e =
    (e, refl, rw (swapped id pool.id e) refl)

-- What each allocation of one pool keeps, and each allocation of the others leaves.
pub validate-keeps_pool :
    (lower_case : ℕ → ℕ) (plus : ℕ → ℕ → ℕ) (input : Configuration) (out : List Resolved)
    (pool : Pool) (J : List ResourceAllocation → Claims → Type 0)
    → ((group_name : ℕ) (made : List ResourceAllocation) (one : ResourceAllocation)
          (claims after : Claims)
        → Made plus pool group_name claims pool.kind after one
        → J made claims
        → J (made ++ one ∷ []) after)
    → ((other : Pool) (group_name : ℕ) (made : List ResourceAllocation) (one : ResourceAllocation)
          (claims after : Claims)
        → Made plus other group_name claims other.kind after one
        → (other.id == pool.id) ≡ false
        → J made claims
        → J (made ++ one ∷ []) after)
    → J [] no_claims
    → validate_resource_configuration lower_case plus input ≡ ok out
    → get_pool input.pools pool.id ≡ some pool
    → (after : Claims) × J (granted out) after
validate-keeps_pool lower plus input out pool J own elsewhere start h found =
    validate-keeps lower plus input out J
      (λ other g a claims after one made met ran j.
        let how = allocate-Made plus other g other.kind a.choice claims after one ran in
        elim (get_pool_other input.pools a.pool_id pool other found met) [
          | inl e ↦
              own g made one claims after (subst (λ q. Made plus q g claims q.kind after one) e how)
                j
          | inr e ↦ elsewhere other g made one claims after how e j
        ])
      start h
