-- ===== src/Resources/Answer.antt =====
-- What an accepted configuration (server/resources.ts) is, and what is answered to it.
use allocube.Prelude.{
  ℕ, ◌≡◌, ◌≢◌, ◌∙◌, refl, subst, arith, not, some, List, [], ◌∷◌, map, ◌==◌, elem, flat_map, All,
  AllPairs, All-mono,
}
use allocube.Schedule.Update.{find-fits}
use allocube.Store.Error.{
  ok, >>=-eq-ok, guard-eq-ok, or_fail-eq-ok, ok_inj, duplicate_group, duplicate_group_name,
  pool_repeated, no_such_pool,
}
use allocube.Resources.Loop.{Made, by_ranges, by_items, by_shared, by_quantity, allocate-Made}
use allocube.Resources.Names.{
  Once, Once-nil, Once-cons, not-elem-Fresh, pool_items, ProperKind, check_pools-Once,
}
use allocube.Resources.{
  Pool, PoolKind, Choice, index_range, item_list, capacity, ranges, picked_items, quantity,
  GroupInput, AllocationInput, Configuration, Resolved, ResourceAllocation, Claims, get_pool,
  allocate, allocate_all, resolve_groups, check_pools, no_claims, validate_resource_configuration,
}

-- An allocation asks in the way in which its pool is divided.
abbrev pub SameKind : PoolKind → Choice → Type 0
SameKind (index_range lo hi) (ranges asked) = Unit {0}
SameKind (item_list known) (picked_items asked) = Unit {0}
SameKind (capacity total) (quantity asked) = Unit {0}
SameKind kind choice = ⊥

abbrev pub HasPool : List Pool → AllocationInput → Type 0
HasPool pools a =
    (pool : Pool) × (get_pool pools a.pool_id ≡ some pool) × SameKind pool.kind a.choice

allocate-SameKind :
    (plus : ℕ → ℕ → ℕ) (pool : Pool) (g : ℕ) (kind : PoolKind) (choice : Choice) (claims : Claims)
    (out : Claims × ResourceAllocation)
    → allocate plus pool g kind choice claims ≡ ok out
    → SameKind kind choice
unfolding allocate
allocate-SameKind plus pool g (index_range lo hi) (ranges asked) claims out h = tt
allocate-SameKind plus pool g (item_list known) (picked_items asked) claims out h = tt
allocate-SameKind plus pool g (capacity total) (quantity asked) claims out h = tt
allocate-SameKind plus pool g (index_range lo hi) (picked_items asked) claims out h = absurd (cc h)
allocate-SameKind plus pool g (index_range lo hi) (quantity asked) claims out h = absurd (cc h)
allocate-SameKind plus pool g (item_list known) (ranges asked) claims out h = absurd (cc h)
allocate-SameKind plus pool g (item_list known) (quantity asked) claims out h = absurd (cc h)
allocate-SameKind plus pool g (capacity total) (ranges asked) claims out h = absurd (cc h)
allocate-SameKind plus pool g (capacity total) (picked_items asked) claims out h = absurd (cc h)

Made-pool_id :
    (plus : ℕ → ℕ → ℕ) (pool : Pool) (g : ℕ) (claims after : Claims) (kind : PoolKind)
    (one : ResourceAllocation)
    → Made plus pool g claims kind after one
    → one.pool_id ≡ pool.id
Made-pool_id plus pool g claims after kind one (by_ranges asked claimed h) = refl
Made-pool_id plus pool g claims after kind one (by_items asked chosen claimed h) = refl
Made-pool_id plus pool g claims after kind one (by_shared h) = refl
Made-pool_id plus pool g claims after kind one (by_quantity asked h fits) = refl

-- The pools that a group's answer and its input name.
abbrev pub answered : Resolved → ℕ × List ℕ
answered r = (r.group_id, map (λ a. a.pool_id) r.allocations)

abbrev pub asked : GroupInput → ℕ × List ℕ
asked g = (g.id, map (λ a. a.pool_id) g.allocations)

-- What a group asks of the pools.
abbrev pub WellAsked : List Pool → GroupInput → Type 0
WellAsked pools g =
    AllPairs (λ a b. a.pool_id ≢ b.pool_id) g.allocations × All (HasPool pools) g.allocations

module _ (plus : ℕ → ℕ → ℕ) (pools : List Pool) where
  allocate_all-Once :
      (g : ℕ) (seen : List ℕ) (asked : List AllocationInput) (claims : Claims)
      (out : Claims × List ResourceAllocation)
      → allocate_all plus pools g seen asked claims ≡ ok out
      → Once (λ a. a.pool_id) seen asked
        × All (HasPool pools) asked
        × (map (λ a. a.pool_id) out.1 ≡ map (λ a. a.pool_id) asked)
  unfolding allocate_all get_pool
  allocate_all-Once g seen [] claims out h = (
    Once-nil (λ a. a.pool_id) seen,
    tt,
    subst (λ p. map (λ a. a.pool_id) p.1 ≡ []) (ok_inj h) refl,
  )
  allocate_all-Once g seen (a ∷ more) claims out h =
      let (fresh, h1) = guard-eq-ok (not (elem a.pool_id seen)) pool_repeated _ h in
      let (pool, found, h2) = or_fail-eq-ok (get_pool pools a.pool_id) no_such_pool _ h1 in
      let (one, ran, h3) = >>=-eq-ok (allocate plus pool g pool.kind a.choice claims) _ h2 in
      let (others, rest, h4) =
        >>=-eq-ok (allocate_all plus pools g (a.pool_id ∷ seen) more one.0) _ h3 in
      let (x, y, z) = allocate_all-Once g (a.pool_id ∷ seen) more one.0 others rest in
      let named : one.1.pool_id ≡ a.pool_id =
        Made-pool_id plus pool g claims one.0 pool.kind one.1
          (allocate-Made plus pool g pool.kind a.choice claims one.0 one.1 ran)
        ∙ ground (arith, find-fits (λ p. p.id == a.pool_id) pools pool found) in
      (
        Once-cons (λ b. b.pool_id) seen a more (not-elem-Fresh a.pool_id seen fresh) x,
        ((pool, found, allocate-SameKind plus pool g pool.kind a.choice claims one ran), y),
        subst (λ p. map (λ b. b.pool_id) p.1 ≡ map (λ b. b.pool_id) (a ∷ more)) (ok_inj h4)
            (cc (named, z)),
      )

  resolve_groups-Once :
      (lower_case : ℕ → ℕ) (ids names : List ℕ) (gs : List GroupInput) (claims : Claims)
      (out : Claims × List Resolved)
      → resolve_groups lower_case plus pools ids names gs claims ≡ ok out
      → Once (λ g. g.id) ids gs
        × Once (λ g. lower_case g.name) names gs
        × All (WellAsked pools) gs
        × (map answered out.1 ≡ map asked gs)
  unfolding resolve_groups Once
  resolve_groups-Once lower ids names [] claims out h = (
    Once-nil (λ (g : GroupInput). g.id) ids,
    Once-nil (λ (g : GroupInput). lower g.name) names,
    tt,
    subst (λ p. map answered p.1 ≡ []) (ok_inj h) refl,
  )
  resolve_groups-Once lower ids names (g ∷ gs) claims out h =
      let (fresh, h1) = guard-eq-ok (not (elem g.id ids)) duplicate_group _ h in
      let (named, h2) = guard-eq-ok (not (elem (lower g.name) names)) duplicate_group_name _ h1 in
      let (own, ran, h3) =
        >>=-eq-ok (allocate_all plus pools g.name [] g.allocations claims) _ h2 in
      let (rest, more, h4) =
        >>=-eq-ok (resolve_groups lower plus pools (g.id ∷ ids) (lower g.name ∷ names) gs own.0) _
          h3 in
      let (a, b, c, d) =
        resolve_groups-Once lower (g.id ∷ ids) (lower g.name ∷ names) gs own.0 rest more in
      let (x, y, z) = allocate_all-Once g.name [] g.allocations claims own ran in
      (
        Once-cons (λ k. k.id) ids g gs (not-elem-Fresh g.id ids fresh) a,
        Once-cons (λ k. lower k.name) names g gs (not-elem-Fresh (lower g.name) names named) b,
        ((x.1, y), c),
        subst (λ p. map answered p.1 ≡ map asked (g ∷ gs)) (ok_inj h4) (cc (z, d)),
      )

-- Identifiers, names and items that a configuration must not repeat.
pub record IsWellNamed (lower_case : ℕ → ℕ) (input : Configuration) : Type 0 where
  pub pool_ids : AllPairs (λ a b. a.id ≢ b.id) input.pools
  pub pool_names : AllPairs (λ a b. lower_case a.name ≢ lower_case b.name) input.pools
  pub item_ids : AllPairs (λ a b. a.id ≢ b.id) (flat_map pool_items input.pools)
  pub item_keys :
      All (λ p. AllPairs (λ a b. lower_case a.key ≢ lower_case b.key) (pool_items p)) input.pools
  pub proper : All (λ p. ProperKind p.kind) input.pools
  pub group_ids : AllPairs (λ a b. a.id ≢ b.id) input.groups
  pub group_names : AllPairs (λ a b. lower_case a.name ≢ lower_case b.name) input.groups
  pub well_asked : All (WellAsked input.pools) input.groups

-- An accepted configuration repeats no identifier of a pool, an item or a group, no name of a
-- pool or a group and no key within a pool, in lower case; each group asks each pool at most
-- once, and asks pools that are there in the way in which they are divided; and the answer has
-- the groups of the configuration, each with an allocation for each pool that it asks.
pub validate_resource_configuration-IsWellNamed :
    (lower_case : ℕ → ℕ) (plus : ℕ → ℕ → ℕ) (input : Configuration) (out : List Resolved)
    → validate_resource_configuration lower_case plus input ≡ ok out
    → IsWellNamed lower_case input × (map answered out ≡ map asked input.groups)
unfolding validate_resource_configuration Once
validate_resource_configuration-IsWellNamed lower plus input out h =
    let (u, checked, h1) = >>=-eq-ok (check_pools lower [] [] [] input.pools) _ h in
    let (done, resolved, h2) =
      >>=-eq-ok (resolve_groups lower plus input.pools [] [] input.groups no_claims) _ h1 in
    let (ids, names, items, kinds) = check_pools-Once lower [] [] [] input.pools u checked in
    let (group_ids, group_names, well, answer) =
      resolve_groups-Once plus input.pools lower [] [] input.groups no_claims done resolved in
    (
      record {
        pool_ids = ids.1;
        pool_names = names.1;
        item_ids = items.1;
        item_keys = All-mono _ _ input.pools (λ p k. k.0.1) kinds;
        proper = All-mono _ _ input.pools (λ p k. k.1) kinds;
        group_ids = group_ids.1;
        group_names = group_names.1;
        well_asked = well;
      },
      subst (λ l. map answered l ≡ map asked input.groups) (ok_inj h2) answer,
    )
