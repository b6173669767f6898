-- ===== src/Resources.antt =====
-- The resources of a machine and how its groups share them (server/resources.ts): the check of a
-- whole configuration before it is written. A Map of the code is a function of its keys, a Set a
-- list. A quantity is a double that is not negative, given by its place in their order, zero first
-- (the bits of the double read as a number); `plus` is the addition of doubles, which rounds.
pub mod Loop
pub mod Ranges
pub mod Items
pub mod Quantities
pub mod Names
pub mod Answer
pub mod Group
pub mod Beside
pub mod GroupLoop
pub mod GroupSafe
use allocube.Prelude.{
  ℕ, suc, ◌+◌, Bool, true, false, not, ◌&&◌, ◌||◌, Option, none, some, List, [], ◌∷◌, ◌++◌, map,
  ltb, leb, ◌==◌, if◌then◌else◌, any, elem,
}
use allocube.Store.Error.{
  Result, ok, err, guard, or_fail, ◌>>=◌, ◌>>◌, duplicate_pool, duplicate_pool_name,
  pool_end_before_start, duplicate_item, duplicate_item_key, duplicate_group, duplicate_group_name,
  pool_repeated, no_such_pool, allocation_kind_wrong, range_end_before_start, range_outside_pool,
  ranges_overlap, range_claimed, item_repeated, no_such_item, item_claimed, capacity_exceeded,
}
use allocube.Store.Rows.{find}

pub data SharingMode : Type 0 where
  exclusive shared : SharingMode

pub record PoolItem : Type 0 where
  pub id : ℕ
  pub key : ℕ
  pub label : ℕ

pub record Range : Type 0 where
  pub start : ℕ
  pub end : ℕ
  pub label : ℕ

pub data PoolKind : Type 0 where
  index_range : (range_start range_end : ℕ) → PoolKind
  item_list : List PoolItem → PoolKind
  capacity : ℕ → PoolKind

pub record Pool : Type 0 where
  pub id : ℕ
  pub name : ℕ
  pub sharing_mode : SharingMode
  pub unit : ℕ
  pub kind : PoolKind

-- What a group asks of a pool.
pub data Choice : Type 0 where
  ranges : List Range → Choice
  picked_items : List ℕ → Choice
  quantity : ℕ → Choice

pub record AllocationInput : Type 0 where
  pub pool_id : ℕ
  pub choice : Choice

pub record GroupInput : Type 0 where
  pub id : ℕ
  pub name : ℕ
  pub allocations : List AllocationInput

pub record Configuration : Type 0 where
  pub pools : List Pool
  pub groups : List GroupInput

-- What a group gets of a pool.
pub data Share : Type 0 where
  index_ranges : List Range → Share
  items : List PoolItem → Share
  amount : ℕ → Share

pub record ResourceAllocation : Type 0 where
  pub pool_id : ℕ
  pub pool_name : ℕ
  pub sharing_mode : SharingMode
  pub unit : ℕ
  pub share : Share

pub record Resolved : Type 0 where
  pub group_id : ℕ
  pub allocations : List ResourceAllocation

pub record RangeClaim : Type 0 where
  pub start : ℕ
  pub end : ℕ
  pub group_name : ℕ

-- rangeClaims, itemClaims, capacityClaims
pub record Claims : Type 0 where
  pub ranges : ℕ → List RangeClaim
  pub items : ℕ → Option ℕ
  pub totals : ℕ → ℕ

-- `map.set(key, value)`
abbrev pub put {ℓ} : {A : Type ℓ} → ℕ → A → (ℕ → A) → ℕ → A
put key value held k = if k == key then value else held k

abbrev pub is_exclusive : SharingMode → Bool
is_exclusive exclusive = true
is_exclusive shared = false

-- `sort((left, right) => left.start - right.start || left.end - right.end)`
abbrev pub range_before : Range → Range → Bool
range_before a b = ltb a.start b.start || (a.start == b.start && leb a.end b.end)

unfoldable pub insert_range : Range → List Range → List Range
insert_range r [] = r ∷ []
insert_range r (x ∷ xs) =
    let rest = insert_range r xs in if range_before r x then r ∷ x ∷ xs else x ∷ rest

unfoldable pub sort_ranges : List Range → List Range
unfolding insert_range
sort_ranges [] = []
sort_ranges (r ∷ rs) = insert_range r (sort_ranges rs)

-- `index > 0 && ranges[index - 1].end >= range.start`
abbrev pub touches_previous : Option Range → Range → Bool
touches_previous none r = false
touches_previous (some previous) r = leb r.start previous.end

abbrev pub claim_overlaps : Range → RangeClaim → Bool
claim_overlaps r claim = leb claim.start r.end && leb r.start claim.end

abbrev pub claim_range : ℕ → Range → RangeClaim
claim_range group_name r = record { start = r.start; end = r.end; group_name = group_name }

-- The loop over the sorted ranges of one allocation; `claims` are those of its pool.
unfoldable pub claim_ranges :
    SharingMode → ℕ → ℕ → ℕ → Option Range → List Range → List RangeClaim → Result (List RangeClaim)
claim_ranges mode lo hi group_name previous [] claims = ok claims
claim_ranges mode lo hi group_name previous (r ∷ rs) claims =
    guard (leb r.start r.end) range_end_before_start
    >> (guard (leb lo r.start && leb r.end hi) range_outside_pool
        >> (guard (not (touches_previous previous r)) ranges_overlap
            >> (guard (not (is_exclusive mode && any (claim_overlaps r) claims)) range_claimed
                >> claim_ranges mode lo hi group_name (some r) rs
                    (claims ++ claim_range group_name r ∷ []))))

-- `new Set(ids).size === ids.length`
unfoldable pub all_different : List ℕ → Bool
all_different [] = true
all_different (x ∷ xs) = not (elem x xs) && all_different xs

abbrev pub is_claimed : Option ℕ → Bool
is_claimed none = false
is_claimed (some group_name) = true

-- The loop over the items of one allocation.
unfoldable pub claim_items :
    SharingMode
    → List PoolItem
    → ℕ
    → List ℕ
    → (ℕ → Option ℕ)
    → Result (List PoolItem × (ℕ → Option ℕ))
claim_items mode known group_name [] claims = ok ([], claims)
claim_items mode known group_name (id ∷ ids) claims =
    or_fail (find (λ candidate. candidate.id == id) known) no_such_item >>= λ item.
    guard (not (is_exclusive mode && is_claimed (claims id))) item_claimed
    >> (claim_items mode known group_name ids
          (if is_exclusive mode then put id (some group_name) claims else claims)
        >>= λ rest. ok (item ∷ rest.0, rest.1))

abbrev pub share_of : Pool → Share → ResourceAllocation
share_of pool share = record {
  pool_id = pool.id;
  pool_name = pool.name;
  sharing_mode = pool.sharing_mode;
  unit = pool.unit;
  share = share;
}

-- The capacity that a group takes: all of a shared pool.
unfoldable pub claim_quantity :
    (ℕ → ℕ → ℕ) → SharingMode → Pool → ℕ → ℕ → Claims → Result (Claims × ResourceAllocation)
claim_quantity plus shared pool total asked claims = ok (claims, share_of pool (amount total))
claim_quantity plus exclusive pool total asked claims =
    guard (leb (plus (claims.totals pool.id) asked) total) capacity_exceeded
    >> ok (
      record claims { totals = put pool.id (plus (claims.totals pool.id) asked) claims.totals },
      share_of pool (amount asked),
    )

-- One allocation, whose pool is known, by the kinds of both.
unfoldable pub allocate :
    (ℕ → ℕ → ℕ) → Pool → ℕ → PoolKind → Choice → Claims → Result (Claims × ResourceAllocation)
unfolding sort_ranges claim_ranges all_different claim_items claim_quantity
allocate plus pool group_name (index_range lo hi) (ranges asked) claims =
    claim_ranges pool.sharing_mode lo hi group_name none (sort_ranges asked) (claims.ranges pool.id)
    >>= λ claimed. ok (
      record claims { ranges = put pool.id claimed claims.ranges },
      share_of pool (index_ranges (sort_ranges asked)),
    )
allocate plus pool group_name (item_list known) (picked_items asked) claims =
    guard (all_different asked) item_repeated
    >> (claim_items pool.sharing_mode known group_name asked claims.items >>= λ claimed.
        ok (record claims { items = claimed.1 }, share_of pool (items claimed.0)))
allocate plus pool group_name (capacity total) (quantity asked) claims =
    claim_quantity plus pool.sharing_mode pool total asked claims
allocate plus pool group_name kind choice claims = err allocation_kind_wrong

unfoldable pub get_pool : List Pool → ℕ → Option Pool
unfolding find
get_pool pools id = find (λ pool. pool.id == id) pools

-- The loop over the allocations of a group; `seen` are the pools it met.
unfoldable pub allocate_all :
    (ℕ → ℕ → ℕ)
    → List Pool
    → ℕ
    → List ℕ
    → List AllocationInput
    → Claims
    → Result (Claims × List ResourceAllocation)
unfolding allocate get_pool
allocate_all plus pools group_name seen [] claims = ok (claims, [])
allocate_all plus pools group_name seen (a ∷ rest) claims =
    guard (not (elem a.pool_id seen)) pool_repeated
    >> (or_fail (get_pool pools a.pool_id) no_such_pool >>= λ pool.
        allocate plus pool group_name pool.kind a.choice claims >>= λ one.
        allocate_all plus pools group_name (a.pool_id ∷ seen) rest one.0 >>= λ others.
        ok (others.0, one.1 ∷ others.1))

abbrev pub no_claims : Claims
no_claims = record { ranges = λ pool. []; items = λ item. none; totals = λ pool. 0 }

-- The texts of a configuration are compared in lower case (`toLocaleLowerCase`).
module _ (lower_case : ℕ → ℕ) where
  -- The items of one pool; `keys` are those it met, `item_ids` those of all pools.
  unfoldable pub check_items : List ℕ → List ℕ → List PoolItem → Result (List ℕ)
  check_items item_ids keys [] = ok item_ids
  check_items item_ids keys (item ∷ rest) =
      guard (not (elem item.id item_ids)) duplicate_item
      >> (guard (not (elem (lower_case item.key) keys)) duplicate_item_key
          >> check_items (item.id ∷ item_ids) (lower_case item.key ∷ keys) rest)

  unfoldable pub check_kind : List ℕ → PoolKind → Result (List ℕ)
  unfolding check_items
  check_kind item_ids (index_range lo hi) = guard (leb lo hi) pool_end_before_start >> ok item_ids
  check_kind item_ids (item_list known) = check_items item_ids [] known
  check_kind item_ids (capacity total) = ok item_ids

  -- The pools, with the identifiers, names and items met before.
  unfoldable pub check_pools : List ℕ → List ℕ → List ℕ → List Pool → Result (Unit {0})
  unfolding check_kind
  check_pools ids names item_ids [] = ok tt
  check_pools ids names item_ids (pool ∷ pools) =
      guard (not (elem pool.id ids)) duplicate_pool
      >> (guard (not (elem (lower_case pool.name) names)) duplicate_pool_name
          >> (check_kind item_ids pool.kind >>= λ met.
              check_pools (pool.id ∷ ids) (lower_case pool.name ∷ names) met pools))

module _ (lower_case : ℕ → ℕ) (plus : ℕ → ℕ → ℕ) where
  -- The groups, with the identifiers and names met before.
  unfoldable pub resolve_groups :
      List Pool → List ℕ → List ℕ → List GroupInput → Claims → Result (Claims × List Resolved)
  unfolding allocate_all
  resolve_groups pools ids names [] claims = ok (claims, [])
  resolve_groups pools ids names (g ∷ gs) claims =
      guard (not (elem g.id ids)) duplicate_group
      >> (guard (not (elem (lower_case g.name) names)) duplicate_group_name
          >> (allocate_all plus pools g.name [] g.allocations claims >>= λ own.
              resolve_groups pools (g.id ∷ ids) (lower_case g.name ∷ names) gs own.0 >>= λ rest.
              ok (rest.0, record { group_id = g.id; allocations = own.1 } ∷ rest.1)))

  unfoldable pub validate_resource_configuration : Configuration → Result (List Resolved)
  unfolding check_pools resolve_groups
  validate_resource_configuration input =
      check_pools lower_case [] [] [] input.pools
      >> (resolve_groups input.pools [] [] input.groups no_claims >>= λ done. ok done.1)
