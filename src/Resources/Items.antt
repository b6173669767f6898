-- ===== src/Resources/Items.antt =====
-- The items that an accepted configuration (server/resources.ts) gives out of one pool.
use mathlib.Core.Bool.{false≢true}
use allocube.Prelude.{
  ℕ, ==_refl, ◌≡◌, ◌≢◌, ◌∙◌, refl, sym, ap, subst, arith, true, false, not, ◌&&◌, Option, some,
  List, [], ◌∷◌, ◌++◌, ◌==◌, if◌then◌else◌, flat_map, append-nil, append-cons, flat_map-append, All,
  AllPairs, All-append, AllPairs-snoc, All-mono, inl, inr, Bool-cases,
}
use allocube.Store.Error.{
  ok, >>=-eq-ok, guard-eq-ok, or_fail-eq-ok, ok_inj, item_claimed, no_such_item,
}
use allocube.Store.Rows.{find}
use allocube.Schedule.Update.{find-fits}
use allocube.Resources.Loop.{
  granted, Made, by_ranges, by_items, by_quantity, by_shared, Made-other, validate-keeps_pool,
}
use allocube.Resources.{
  SharingMode, exclusive, shared, PoolKind, item_list, Configuration, Resolved, get_pool, put,
  PoolItem, Pool, Share, index_ranges, items, amount, ResourceAllocation, Claims, is_exclusive,
  is_claimed, claim_items, validate_resource_configuration,
}

-- The items that allocations give out of a pool.
abbrev pub items_in : Share → List PoolItem
items_in (index_ranges rs) = []
items_in (items chosen) = chosen
items_in (amount q) = []

abbrev pub items_of : ℕ → List ResourceAllocation → List PoolItem
items_of pool_id = flat_map (λ a. if a.pool_id == pool_id then items_in a.share else [])

abbrev pub Known : List PoolItem → PoolItem → Type 0
Known known item = find (λ candidate. candidate.id == item.id) known ≡ some item

abbrev pub OtherItem : PoolItem → PoolItem → Type 0
OtherItem a b = a.id ≢ b.id

abbrev Claimed : (ℕ → Option ℕ) → ℕ → Type 0
Claimed claims id = is_claimed (claims id) ≡ true

-- One round of the loop over the items.
claim_items-cons :
    (mode : SharingMode) (known : List PoolItem) (g id : ℕ) (ids : List ℕ)
    (claims after : ℕ → Option ℕ) (chosen : List PoolItem)
    → claim_items mode known g (id ∷ ids) claims ≡ ok (chosen, after)
    → (item : PoolItem) × (rest : List PoolItem) × (find (λ candidate. candidate.id == id) known
        ≡ some item)
      × ((is_exclusive mode && is_claimed (claims id)) ≡ false)
      × (claim_items mode known g ids (if is_exclusive mode then put id (some g) claims else claims)
          ≡ ok (rest, after))
      × (chosen ≡ item ∷ rest)
unfolding claim_items
claim_items-cons mode known g id ids claims after chosen h =
    let (item, found, h1) =
      or_fail-eq-ok (find (λ candidate. candidate.id == id) known) no_such_item _ h in
    let (free, h2) =
      guard-eq-ok (not (is_exclusive mode && is_claimed (claims id))) item_claimed _ h1 in
    let (rest, e, h3) =
      >>=-eq-ok
        (claim_items mode known g ids
          (if is_exclusive mode then put id (some g) claims else claims))
        _ h2 in
    let same = ok_inj h3 in
    (
      item,
      rest.0,
      found,
      ground (arith, free),
      e ∙ ap (λ p. ok (rest.0, p.1)) same,
      sym (ap (λ p. p.0) same),
    )

-- What is claimed stays claimed.
put-Claimed :
    (mode : SharingMode) (g id k : ℕ) (claims : ℕ → Option ℕ)
    → Claimed claims k
    → Claimed (if is_exclusive mode then put id (some g) claims else claims) k
put-Claimed exclusive g id k claims c = elim (Bool-cases (k == id)) [
  | inl e ↦ rw e refl
  | inr e ↦ rw e c
]
put-Claimed shared g id k claims c = c

claim_items-Claimed :
    (mode : SharingMode) (known : List PoolItem) (g : ℕ) (ids : List ℕ)
    (claims after : ℕ → Option ℕ) (chosen : List PoolItem)
    → claim_items mode known g ids claims ≡ ok (chosen, after)
    → (k : ℕ) → Claimed claims k
    → Claimed after k
unfolding claim_items
claim_items-Claimed mode known g [] claims after chosen h k c =
    subst (λ f. Claimed f k) (ap (λ p. p.1) (ok_inj h)) c
claim_items-Claimed mode known g (id ∷ ids) claims after chosen h k c =
    let (item, rest, found, free, more, whole) =
      claim_items-cons mode known g id ids claims after chosen h in
    claim_items-Claimed mode known g ids _ after rest more k (put-Claimed mode g id k claims c)

-- What is given of one pool, whose known items are `known`.
Given : List PoolItem → (ℕ → Option ℕ) → List PoolItem → Type 0
Given known claims given =
    All (λ item. Claimed claims item.id) given × AllPairs OtherItem given × All (Known known) given

Given-later :
    (known : List PoolItem) (claims after : ℕ → Option ℕ) (given : List PoolItem)
    → ((k : ℕ) → Claimed claims k → Claimed after k)
    → Given known claims given
    → Given known after given
unfolding Given
Given-later known claims after given later j =
    (All-mono _ _ given (λ item. later item.id) j.0, j.1, j.2)

-- One more item, which nobody had.
Given-snoc :
    (known : List PoolItem) (g id : ℕ) (claims : ℕ → Option ℕ) (given : List PoolItem)
    (item : PoolItem)
    → find (λ candidate. candidate.id == id) known ≡ some item
    → is_claimed (claims id) ≡ false
    → Given known claims given
    → Given known (put id (some g) claims) (given ++ item ∷ [])
unfolding Given
Given-snoc known g id claims given item found free j =
    let named : item.id ≡ id = ground (arith, find-fits (λ c. c.id == id) known item found) in
    let later = put-Claimed exclusive g id in
    (
      All-append _ given (item ∷ []) (All-mono _ _ given (λ x. later x.id claims) j.0)
          (rw (named, ==_refl id) refl, tt),
      AllPairs-snoc OtherItem given item j.1 (
          All-mono _ _ given
            (λ x c e. absurd (false≢true (sym free ∙ subst (Claimed claims) (e ∙ named) c))) j.0),
      All-append _ given (item ∷ []) j.2
          (subst (λ k. find (λ c. c.id == k) known ≡ some item) (sym named) found, tt),
    )

claim_items-Given :
    (known : List PoolItem) (g : ℕ) (ids : List ℕ) (claims after : ℕ → Option ℕ)
    (chosen given : List PoolItem)
    → claim_items exclusive known g ids claims ≡ ok (chosen, after)
    → Given known claims given
    → Given known after (given ++ chosen)
unfolding claim_items
claim_items-Given known g [] claims after chosen given h j =
    subst (λ p. Given known p.1 (given ++ p.0)) (ok_inj h)
      (subst (Given known claims) (sym (append-nil given)) j)
claim_items-Given known g (id ∷ ids) claims after chosen given h j =
    let (item, rest, found, free, more, whole) =
      claim_items-cons exclusive known g id ids claims after chosen h in
    subst (λ l. Given known after (given ++ l)) (sym whole)
      (subst (Given known after) (append-cons given item rest) (
        claim_items-Given known g ids (put id (some g) claims) after rest (given ++ item ∷ []) more
          (Given-snoc known g id claims given item found free j)))

items_of-snoc :
    (id : ℕ) (made : List ResourceAllocation) (one : ResourceAllocation)
    → items_of id (made ++ one ∷ [])
      ≡ items_of id made ++ (if one.pool_id == id then items_in one.share else [])
items_of-snoc id made one =
    flat_map-append (λ a. if a.pool_id == id then items_in a.share else []) made (one ∷ [])
    ∙ ap (λ l. items_of id made ++ l) (append-nil _)

-- No allocation gives an item back.
Made-Claimed :
    (plus : ℕ → ℕ → ℕ) (pool : Pool) (g : ℕ) (claims after : Claims) (kind : PoolKind)
    (one : ResourceAllocation)
    → Made plus pool g claims kind after one
    → (k : ℕ) → Claimed claims.items k
    → Claimed after.items k
Made-Claimed plus pool g claims after kind one (by_ranges asked claimed h) k c = c
Made-Claimed plus pool g claims after (item_list known) one (by_items asked chosen claimed h) k c =
    claim_items-Claimed pool.sharing_mode known g asked claims.items claimed chosen h k c
Made-Claimed plus pool g claims after kind one (by_shared h) k c = c
Made-Claimed plus pool g claims after kind one (by_quantity asked h fits) k c = c

module _ (pool : Pool) (known : List PoolItem) where
  Given-same :
      (made : List ResourceAllocation) (one : ResourceAllocation) (claims after : ℕ → Option ℕ)
      → (one.pool_id == pool.id) ≡ false
      → ((k : ℕ) → Claimed claims k → Claimed after k)
      → Given known claims (items_of pool.id made)
      → Given known after (items_of pool.id (made ++ one ∷ []))
  Given-same made one claims after e later j =
      let list : items_of pool.id (made ++ one ∷ []) ≡ items_of pool.id made =
        items_of-snoc pool.id made one ∙ rw e (append-nil _) in
      rw list (Given-later known claims after (items_of pool.id made) later j)

  Given-Made :
      (plus : ℕ → ℕ → ℕ) (g : ℕ) (made : List ResourceAllocation) (one : ResourceAllocation)
      (claims after : Claims)
      → pool.sharing_mode ≡ exclusive
      → Made plus pool g claims (item_list known) after one
      → Given known claims.items (items_of pool.id made)
      → Given known after.items (items_of pool.id (made ++ one ∷ []))
  Given-Made plus g made one claims after alone (by_items asked chosen claimed h) j =
      let own =
        subst (λ m. claim_items m known g asked claims.items ≡ ok (chosen, claimed)) alone h in
      let list : items_of pool.id (made ++ one ∷ []) ≡ items_of pool.id made ++ chosen =
        items_of-snoc pool.id made one ∙ rw (==_refl pool.id) refl in
      rw list
        (claim_items-Given known g asked claims.items claimed chosen (items_of pool.id made) own j)

-- In an exclusive pool of items, an accepted configuration gives items of the pool, and none to
-- two groups or twice to one.
pub validate_resource_configuration_items :
    (lower_case : ℕ → ℕ) (plus : ℕ → ℕ → ℕ) (input : Configuration) (out : List Resolved)
    (pool : Pool) (known : List PoolItem)
    → validate_resource_configuration lower_case plus input ≡ ok out
    → get_pool input.pools pool.id ≡ some pool
    → pool.sharing_mode ≡ exclusive
    → pool.kind ≡ item_list known
    → All (Known known) (items_of pool.id (granted out))
      × AllPairs OtherItem (items_of pool.id (granted out))
unfolding Given
validate_resource_configuration_items lower plus input out pool known h found alone kind =
    let (after, given) =
      validate-keeps_pool lower plus input out pool
        (λ made claims. Given known claims.items (items_of pool.id made))
        (λ g made one claims next how j.
          Given-Made pool known plus g made one claims next alone
            (subst (λ k. Made plus pool g claims k next one) kind how) j)
        (λ other g made one claims next how e j.
          let (elsewhere, ranges, totals) =
            Made-other plus other g claims next other.kind one pool.id how e in
          Given-same pool known made one claims.items next.items elsewhere
            (Made-Claimed plus other g claims next other.kind one how) j)
        (tt, tt, tt) h found in
    (given.2, given.1)
