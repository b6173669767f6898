-- ===== src/Resources/Names.antt =====
-- The identifiers and names of an accepted configuration (server/resources.ts).
use allocube.Prelude.{
  ℕ, ◌≡◌, ◌≢◌, ◌≤◌, leb→le, sym, subst, arith, true, false, not, List, [], ◌∷◌, ◌++◌, elem,
  flat_map, All, AllPairs, All-mono,
}
use allocube.Store.Error.{
  ok, >>=-eq-ok, guard-eq-ok, ok_inj, duplicate_pool, duplicate_pool_name, duplicate_item,
  duplicate_item_key,
}
use allocube.Resources.{
  PoolItem, Pool, PoolKind, index_range, item_list, capacity, check_items, check_kind, check_pools,
}

-- `x` is not in `xs`, seen from a list that grows at its head.
abbrev pub Fresh : List ℕ → ℕ → Type 0
Fresh seen x = elem x seen ≡ false

Fresh-cons : (y : ℕ) (seen : List ℕ) (x : ℕ) → Fresh (y ∷ seen) x → (y ≢ x) × Fresh seen x
Fresh-cons y seen x h = ((λ e. ground (arith, h, e)), ground (arith, h))

-- A loop that refuses the keys it has met meets each key once.
module _ {A : Type 0} (key : A → ℕ) where
  unfoldable pub Once : List ℕ → List A → Type 0
  Once seen xs = All (λ x. Fresh seen (key x)) xs × AllPairs (λ a b. key a ≢ key b) xs

  pub Once-cons :
      (seen : List ℕ) (x : A) (xs : List A)
      → Fresh seen (key x)
      → Once (key x ∷ seen) xs
      → Once seen (x ∷ xs)
  unfolding Once
  Once-cons seen x xs f h =
      let split =
        All-mono (λ y. Fresh (key x ∷ seen) (key y)) (λ y. (key x ≢ key y) × Fresh seen (key y)) xs
          (λ y. Fresh-cons (key x) seen (key y)) h.0 in
      ((f, All-mono _ _ xs (λ y p. p.1) split), (All-mono _ _ xs (λ y p. p.0) split, h.1))

  pub Once-nil : (seen : List ℕ) → Once seen []
  unfolding Once
  Once-nil seen = (tt, tt)

pub not-elem-Fresh : (x : ℕ) (seen : List ℕ) → not (elem x seen) ≡ true → Fresh seen x
not-elem-Fresh x seen h = ground (arith, h)

-- The items of a pool.
abbrev pub items_in_kind : PoolKind → List PoolItem
items_in_kind (index_range lo hi) = []
items_in_kind (item_list known) = known
items_in_kind (capacity total) = []

abbrev pub pool_items : Pool → List PoolItem
pool_items pool = items_in_kind pool.kind

abbrev pub ProperKind : PoolKind → Type 0
ProperKind (index_range lo hi) = lo ≤ hi
ProperKind (item_list known) = Unit {0}
ProperKind (capacity total) = Unit {0}

module _ (lower_case : ℕ → ℕ) where
  check_items-Once :
      (ids keys : List ℕ) (known : List PoolItem) (met : List ℕ) (more : List PoolItem)
      → check_items lower_case ids keys known ≡ ok met
      → Once (λ i. i.id) met more
      → Once (λ i. i.id) ids (known ++ more) × Once (λ i. lower_case i.key) keys known
  unfolding check_items
  check_items-Once ids keys [] met more h o = (
    subst (λ l. Once (λ i. i.id) l more) (sym (ok_inj h)) o,
    Once-nil (λ i. lower_case i.key) keys,
  )
  check_items-Once ids keys (item ∷ rest) met more h o =
      let (fresh, h1) = guard-eq-ok (not (elem item.id ids)) duplicate_item _ h in
      let (named, h2) =
        guard-eq-ok (not (elem (lower_case item.key) keys)) duplicate_item_key _ h1 in
      let (a, b) =
        check_items-Once (item.id ∷ ids) (lower_case item.key ∷ keys) rest met more h2 o in
      (
        Once-cons (λ i. i.id) ids item (rest ++ more) (not-elem-Fresh item.id ids fresh) a,
        Once-cons (λ i. lower_case i.key) keys item rest
            (not-elem-Fresh (lower_case item.key) keys named) b,
      )

  check_kind-Once :
      (ids : List ℕ) (kind : PoolKind) (met : List ℕ) (more : List PoolItem)
      → check_kind lower_case ids kind ≡ ok met
      → Once (λ i. i.id) met more
      → Once (λ i. i.id) ids (items_in_kind kind ++ more)
        × Once (λ i. lower_case i.key) [] (items_in_kind kind)
        × ProperKind kind
  unfolding check_kind
  check_kind-Once ids (index_range lo hi) met more h o =
      let (ordered, h1) = guard-eq-ok _ _ _ h in
      (
        subst (λ l. Once (λ i. i.id) l more) (sym (ok_inj h1)) o,
        Once-nil (λ i. lower_case i.key) [],
        leb→le lo hi ordered,
      )
  check_kind-Once ids (item_list known) met more h o =
      let (a, b) = check_items-Once ids [] known met more h o in (a, b, tt)
  check_kind-Once ids (capacity total) met more h o = (
    subst (λ l. Once (λ i. i.id) l more) (sym (ok_inj h)) o,
    Once-nil (λ i. lower_case i.key) [],
    tt,
  )

  pub check_pools-Once :
      (ids names item_ids : List ℕ) (pools : List Pool) (u : Unit {0})
      → check_pools lower_case ids names item_ids pools ≡ ok u
      → Once (λ p. p.id) ids pools
        × Once (λ p. lower_case p.name) names pools
        × Once (λ i. i.id) item_ids (flat_map pool_items pools)
        × All (λ p. Once (λ i. lower_case i.key) [] (pool_items p) × ProperKind p.kind) pools
  unfolding check_pools
  check_pools-Once ids names item_ids [] u h = (
    Once-nil (λ p. p.id) ids,
    Once-nil (λ p. lower_case p.name) names,
    Once-nil (λ i. i.id) item_ids,
    tt,
  )
  check_pools-Once ids names item_ids (pool ∷ pools) u h =
      let (fresh, h1) = guard-eq-ok (not (elem pool.id ids)) duplicate_pool _ h in
      let (named, h2) =
        guard-eq-ok (not (elem (lower_case pool.name) names)) duplicate_pool_name _ h1 in
      let (met, kind, h3) = >>=-eq-ok (check_kind lower_case item_ids pool.kind) _ h2 in
      let (a, b, c, d) =
        check_pools-Once (pool.id ∷ ids) (lower_case pool.name ∷ names) met pools u h3 in
      let (x, y, z) = check_kind-Once item_ids pool.kind met (flat_map pool_items pools) kind c in
      (
        Once-cons (λ p. p.id) ids pool pools (not-elem-Fresh pool.id ids fresh) a,
        Once-cons (λ p. lower_case p.name) names pool pools
            (not-elem-Fresh (lower_case pool.name) names named) b,
        x,
        ((y, z), d),
      )
