-- ===== src/Resources/GroupLoop.antt =====
-- The loop of validateAndResolveGroupAllocations (server/resources.ts) over the allocations: at most
-- one of them is of a given pool.
use allocube.Prelude.{
  ℕ, ◌+◌, ◌≡◌, ◌∙◌, refl, sym, ap, subst, arith, true, false, not, ◌&&◌, ◌||◌, none, some, List, [],
  ◌∷◌, map, filter, any, flat_map, leb, ◌==◌, ==_iff, elem, length, All, append-nil, some_inj,
  Bool-cases, inl, inr,
}
use allocube.Schedule.Update.{find-fits}
use allocube.Store.Error.{
  ok, >>=-eq-ok, guard-eq-ok, or_fail-eq-ok, ok_inj, no_such_pool, item_repeated, no_such_item,
  item_claimed, capacity_exceeded,
}
use allocube.Resources.{
  exclusive, PoolKind, index_range, item_list, capacity, Pool, Choice, ranges, picked_items,
  quantity, AllocationInput, Share, ResourceAllocation, is_exclusive, sort_ranges, all_different,
}
use allocube.Resources.Ranges.{ranges_in}
use allocube.Resources.Items.{items_in}
use allocube.Resources.Quantities.{amounts_in, sum}
use allocube.Resources.Group.{
  PoolRow, AllocationRow, given_by, check_ranges, item_listed, resolve_one, find_pool, resolve_all,
}
use allocube.Resources.Beside.{
  shares, Beside, BesideShare, BesideAll, KindNamed, resolve_one-Beside,
}

find_pool-id :
    (pools : List PoolRow) (id : ℕ) (p : PoolRow) → find_pool pools id ≡ some p → p.pool.id ≡ id
unfolding find_pool
find_pool-id pools id p found =
    (==_iff p.pool.id id).0 (find-fits (λ q. q.pool.id == id) pools p found)

resolve_one-pool_id :
    (pool : Pool) (others : List AllocationRow) (kind : PoolKind) (choice : Choice)
    (one : ResourceAllocation)
    → resolve_one pool others kind choice ≡ ok one
    → one.pool_id ≡ pool.id
unfolding resolve_one
resolve_one-pool_id pool others (index_range lo hi) (ranges asked) one h =
    let (u, ran, h1) =
      >>=-eq-ok
        (check_ranges pool.sharing_mode lo hi (given_by ranges_in pool.id others) none
          (sort_ranges asked))
        _ h in
    sym (ap (λ o. o.pool_id) (ok_inj h1))
resolve_one-pool_id pool others (item_list known) (picked_items asked) one h =
    let (different, h1) = guard-eq-ok (all_different asked) item_repeated _ h in
    let (there, h2) =
      guard-eq-ok (length (filter (item_listed asked) known) == length asked) no_such_item _ h1 in
    let (free, h3) =
      guard-eq-ok
        (not (
          is_exclusive pool.sharing_mode
          && any (item_listed asked) (flat_map (λ r. items_in r.allocation.share) others)))
        item_claimed _ h2 in
    sym (ap (λ o. o.pool_id) (ok_inj h3))
resolve_one-pool_id pool others (capacity total) (quantity asked) one h =
    let (fits, h1) =
      guard-eq-ok
        (not (is_exclusive pool.sharing_mode)
          || leb (sum (given_by amounts_in pool.id others) + asked) total)
        capacity_exceeded _ h in
    sym (ap (λ o. o.pool_id) (ok_inj h1))
resolve_one-pool_id pool others (index_range lo hi) (picked_items asked) one h = absurd (cc h)
resolve_one-pool_id pool others (index_range lo hi) (quantity asked) one h = absurd (cc h)
resolve_one-pool_id pool others (item_list known) (ranges asked) one h = absurd (cc h)
resolve_one-pool_id pool others (item_list known) (quantity asked) one h = absurd (cc h)
resolve_one-pool_id pool others (capacity total) (ranges asked) one h = absurd (cc h)
resolve_one-pool_id pool others (capacity total) (picked_items asked) one h = absurd (cc h)

-- One round of the loop over the allocations.
resolve_all-cons :
    (pools : List PoolRow) (machine_id : ℕ) (others : List AllocationRow) (a : AllocationInput)
    (more : List AllocationInput) (out : List ResourceAllocation)
    → resolve_all pools machine_id others (a ∷ more) ≡ ok out
    → (p : PoolRow) × (one : ResourceAllocation) × (rest : List ResourceAllocation) × (find_pool
          pools a.pool_id
        ≡ some p)
      × (resolve_one p.pool others p.pool.kind a.choice ≡ ok one)
      × (resolve_all pools machine_id others more ≡ ok rest)
      × (out ≡ one ∷ rest)
      × (one.pool_id ≡ a.pool_id)
unfolding resolve_all
resolve_all-cons pools machine_id others a more out h =
    let (p, found, h1) = or_fail-eq-ok (find_pool pools a.pool_id) no_such_pool _ h in
    let (here, h2) = guard-eq-ok (p.machine_id == machine_id) no_such_pool _ h1 in
    let (one, ran, h3) = >>=-eq-ok (resolve_one p.pool others p.pool.kind a.choice) _ h2 in
    let (rest, ran_rest, h4) = >>=-eq-ok (resolve_all pools machine_id others more) _ h3 in
    (
      p,
      one,
      rest,
      found,
      ran,
      ran_rest,
      sym (ok_inj h4),
      resolve_one-pool_id p.pool others p.pool.kind a.choice one ran
          ∙ find_pool-id pools a.pool_id p found,
    )

-- Where no allocation asks a pool, none of it is given.
resolve_all-none :
    (pools : List PoolRow) (machine_id : ℕ) (others : List AllocationRow) (id : ℕ)
    (asked : List AllocationInput) (out : List ResourceAllocation)
    → All (λ a. (a.pool_id == id) ≡ false) asked
    → resolve_all pools machine_id others asked ≡ ok out
    → All (λ one. (one.pool_id == id) ≡ false) out
unfolding resolve_all
resolve_all-none pools machine_id others id [] out n h =
    subst (All (λ one. (one.pool_id == id) ≡ false)) (ok_inj h) tt
resolve_all-none pools machine_id others id (a ∷ more) out n h =
    let (p, one, rest, found, ran, ran_rest, whole, named) =
      resolve_all-cons pools machine_id others a more out h in
    subst (All (λ o. (o.pool_id == id) ≡ false)) (sym whole)
      (rw named n.0, resolve_all-none pools machine_id others id more rest n.1 ran_rest)

shares_none :
    {A : Type 0} (look : Share → List A) (id : ℕ) (out : List ResourceAllocation)
    → All (λ one. (one.pool_id == id) ≡ false) out
    → shares look id out ≡ []
shares_none look id [] h = refl
shares_none look id (one ∷ out) h = rw h.0 (shares_none look id out h.1)

-- The shares of the only allocation of a pool.
shares_only :
    {A : Type 0} (look : Share → List A) (id : ℕ) (one : ResourceAllocation)
    (out : List ResourceAllocation)
    → (one.pool_id == id) ≡ true
    → All (λ o. (o.pool_id == id) ≡ false) out
    → shares look id (one ∷ out) ≡ look one.share
shares_only look id one out e h = rw (e, shares_none look id out h) (append-nil (look one.share))

different_rest :
    (id x : ℕ) (asked : List AllocationInput)
    → (x == id) ≡ true
    → elem x (map (λ a. a.pool_id) asked) ≡ false
    → All (λ a. (a.pool_id == id) ≡ false) asked
different_rest id x [] e h = tt
different_rest id x (a ∷ asked) e h =
    (ground (arith, e, h), different_rest id x asked e (ground (arith, h)))

module _ (pools : List PoolRow) (machine_id : ℕ) (others : List AllocationRow) (p : PoolRow) where
  pub resolve_all-Beside :
      (asked : List AllocationInput) (out : List ResourceAllocation)
      → find_pool pools p.pool.id ≡ some p
      → p.pool.sharing_mode ≡ exclusive
      → KindNamed p.pool.kind
      → Beside p.pool.kind p.pool.id others [] [] []
      → all_different (map (λ a. a.pool_id) asked) ≡ true
      → resolve_all pools machine_id others asked ≡ ok out
      → BesideAll p.pool.kind p.pool.id others out
  unfolding resolve_all all_different
  resolve_all-Beside [] out found alone named base d h =
      subst (BesideAll p.pool.kind p.pool.id others) (ok_inj h) base
  resolve_all-Beside (a ∷ more) out found alone named base d h =
      let (q, one, rest, met, ran, ran_rest, whole, id_of) =
        resolve_all-cons pools machine_id others a more out h in
      let id = p.pool.id in
      subst (BesideAll p.pool.kind id others) (sym whole) (elim (Bool-cases (one.pool_id == id)) [
        | inl e ↦
            let none_more =
              resolve_all-none pools machine_id others id more rest
                (different_rest id a.pool_id more (rw⁻¹ id_of e) (ground (arith, d))) ran_rest in
            let same : q ≡ p =
              let here : a.pool_id ≡ id = (==_iff a.pool_id id).0 (rw⁻¹ id_of e) in
              some_inj (sym (subst (λ k. find_pool pools k ≡ some q) here met) ∙ found) in
            let own : BesideShare p.pool.kind id others one.share =
              resolve_one-Beside p.pool others p.pool.kind a.choice one alone named
                (subst (λ k. resolve_one k.pool others k.pool.kind a.choice ≡ ok one) same ran) in
            rw
              (
                shares_only ranges_in id one rest e none_more,
                shares_only items_in id one rest e none_more,
                shares_only amounts_in id one rest e none_more,
              )
              own
        | inr e ↦
            rw e (resolve_all-Beside more rest found alone named base (ground (arith, d)) ran_rest)
      ])
