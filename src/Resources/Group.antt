-- ===== src/Resources/Group.antt =====
-- One resource group against the rows of the others (server/resources.ts):
-- validateAndResolveGroupAllocations and replaceGroupAllocations. A quantity or a capacity is its
-- number of thousandths here, `Math.round(quantity * 1000)`, in which the code counts and which the
-- rows hold; the schema lets no more than three decimals pass, so that nothing is lost.
use allocube.Prelude.{
  ℕ, ◌+◌, Bool, not, ◌&&◌, ◌||◌, Option, none, some, List, [], ◌∷◌, ◌++◌, map, filter, any,
  flat_map, leb, ◌==◌, elem, length, if◌then◌else◌,
}
use allocube.Store.Error.{
  Result, ok, err, guard, or_fail, ◌>>=◌, ◌>>◌, pool_repeated, no_such_pool, allocation_kind_wrong,
  range_end_before_start, range_outside_pool, ranges_overlap, range_claimed, item_repeated,
  no_such_item, item_claimed, capacity_exceeded,
}
use allocube.Store.Rows.{find}
use allocube.Resources.{
  SharingMode, PoolItem, Range, PoolKind, index_range, item_list, capacity, Pool, Choice, ranges,
  picked_items, quantity, AllocationInput, Share, index_ranges, items, amount, ResourceAllocation,
  is_exclusive, sort_ranges, touches_previous, all_different, share_of,
}
use allocube.Resources.Ranges.{ranges_in}
use allocube.Resources.Items.{items_in}
use allocube.Resources.Quantities.{amounts_in, sum}

-- A row of resource_pools.
pub record PoolRow : Type 0 where
  pub machine_id : ℕ
  pub pool : Pool

-- A row of resource_group_allocations, with its ranges and items.
pub record AllocationRow : Type 0 where
  pub group_id : ℕ
  pub allocation : ResourceAllocation

-- What the rows give out of a pool, by one way of looking at a share.
abbrev pub given_by : {A : Type 0} → (Share → List A) → ℕ → List AllocationRow → List A
given_by look pool_id =
    flat_map (λ r. if r.allocation.pool_id == pool_id then look r.allocation.share else [])

-- `(? IS NULL OR g.id != ?)`
unfoldable pub other_rows : Option ℕ → List AllocationRow → List AllocationRow
other_rows none rows = rows
other_rows (some id) rows = filter (λ r. not (r.group_id == id)) rows

-- `r.range_start <= ? AND r.range_end >= ?`
abbrev pub overlaps : Range → Range → Bool
overlaps r other = leb other.start r.end && leb r.start other.end

-- The loop over the sorted ranges; `taken` are those of other groups.
unfoldable pub check_ranges :
    SharingMode → ℕ → ℕ → List Range → Option Range → List Range → Result (Unit {0})
check_ranges mode lo hi taken previous [] = ok tt
check_ranges mode lo hi taken previous (r ∷ rs) =
    guard (leb r.start r.end) range_end_before_start
    >> (guard (leb lo r.start && leb r.end hi) range_outside_pool
        >> (guard (not (touches_previous previous r)) ranges_overlap
            >> (guard (not (is_exclusive mode && any (overlaps r) taken)) range_claimed
                >> check_ranges mode lo hi taken (some r) rs)))

abbrev pub item_listed : List ℕ → PoolItem → Bool
item_listed ids item = elem item.id ids

-- One allocation, whose pool is known, against the rows of other groups.
unfoldable pub resolve_one :
    Pool → List AllocationRow → PoolKind → Choice → Result ResourceAllocation
unfolding sort_ranges check_ranges all_different
resolve_one pool others (index_range lo hi) (ranges asked) =
    check_ranges pool.sharing_mode lo hi (given_by ranges_in pool.id others) none
      (sort_ranges asked)
    >> ok (share_of pool (index_ranges (sort_ranges asked)))
resolve_one pool others (item_list known) (picked_items asked) =
    guard (all_different asked) item_repeated
    >> (guard (length (filter (item_listed asked) known) == length asked) no_such_item
        >> (guard
              (not (
                is_exclusive pool.sharing_mode
                && any (item_listed asked) (flat_map (λ r. items_in r.allocation.share) others)))
              item_claimed
            >> ok (share_of pool (items (filter (item_listed asked) known)))))
resolve_one pool others (capacity total) (quantity asked) =
    guard
      (not (is_exclusive pool.sharing_mode)
        || leb (sum (given_by amounts_in pool.id others) + asked) total)
      capacity_exceeded
    >> ok (share_of pool (amount (if is_exclusive pool.sharing_mode then asked else total)))
resolve_one pool others kind choice = err allocation_kind_wrong

-- getResourcePool
unfoldable pub find_pool : List PoolRow → ℕ → Option PoolRow
unfolding find
find_pool pools id = find (λ p. p.pool.id == id) pools

unfoldable pub resolve_all :
    List PoolRow → ℕ → List AllocationRow → List AllocationInput → Result (List ResourceAllocation)
unfolding resolve_one find_pool
resolve_all pools machine_id others [] = ok []
resolve_all pools machine_id others (a ∷ more) =
    or_fail (find_pool pools a.pool_id) no_such_pool >>= λ p.
    guard (p.machine_id == machine_id) no_such_pool
    >> (resolve_one p.pool others p.pool.kind a.choice >>= λ one.
        resolve_all pools machine_id others more >>= λ rest. ok (one ∷ rest))

unfoldable pub validate_and_resolve_group_allocations :
    List PoolRow
    → ℕ
    → List AllocationInput
    → Option ℕ
    → List AllocationRow
    → Result (List ResourceAllocation)
unfolding resolve_all other_rows all_different
validate_and_resolve_group_allocations pools machine_id asked exclude rows =
    guard (all_different (map (λ a. a.pool_id) asked)) pool_repeated
    >> resolve_all pools machine_id (other_rows exclude rows) asked

-- replaceGroupAllocations: the rows of the group are deleted, and the new ones inserted.
unfoldable pub replace_group_allocations :
    ℕ → List ResourceAllocation → List AllocationRow → List AllocationRow
replace_group_allocations group_id allocations rows =
    filter (λ r. not (r.group_id == group_id)) rows
    ++ map (λ a. record { group_id = group_id; allocation = a }) allocations
