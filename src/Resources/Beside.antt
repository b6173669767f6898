-- ===== src/Resources/Beside.antt =====
-- What validateAndResolveGroupAllocations (server/resources.ts) gives a group of one pool, beside
-- what the other groups have.
use allocube.Prelude.{
  ℕ, ◌+◌, ◌≤◌, ◌<◌, ◌≡◌, ap, subst, arith, true, false, not, ◌&&◌, ◌||◌, Option, none, some, List,
  [], ◌∷◌, filter, any, flat_map, leb, leb→le, ◌==◌, elem, length, if◌then◌else◌, All, AllPairs,
  All-append, All-mono, All-split, any-false→All, Bool-cases, inl, inr,
}
use allocube.Schedule.Find.{AllPairs-filter, filter-All}
use allocube.Store.Error.{
  ok, >>=-eq-ok, guard-eq-ok, ok_inj, range_end_before_start, range_outside_pool, ranges_overlap,
  range_claimed, item_repeated, no_such_item, item_claimed, capacity_exceeded,
}
use allocube.Resources.{
  exclusive, PoolItem, Range, PoolKind, index_range, item_list, capacity, Pool, Choice, ranges,
  picked_items, quantity, Share, ResourceAllocation, is_exclusive, sort_ranges, touches_previous,
  all_different,
}
use allocube.Resources.Ranges.{ranges_in, Disjoint}
use allocube.Resources.Items.{items_in, OtherItem}
use allocube.Resources.Quantities.{amounts_in, sum}
use allocube.Resources.Group.{
  AllocationRow, given_by, overlaps, check_ranges, item_listed, resolve_one,
}

-- The range begins behind the one before it.
abbrev Behind : Option Range → Range → Type 0
Behind none r = Unit {0}
Behind (some previous) r = previous.end < r.start

untouched :
    (previous : Option Range) (r : Range) → touches_previous previous r ≡ false → Behind previous r
untouched none r h = tt
untouched (some q) r h = ground (arith, h)

Behind-next :
    (previous : Option Range) (r x : Range)
    → Behind previous r
    → r.start ≤ r.end
    → r.end < x.start
    → Behind previous x
Behind-next none r x h k l = tt
Behind-next (some q) r x h k l = omega (arith, h, k, l)

abbrev pub Free : List Range → Range → Type 0
Free taken r = All (λ x. Disjoint x r) taken

no_overlap-Free : (r : Range) (taken : List Range) → any (overlaps r) taken ≡ false → Free taken r
no_overlap-Free r taken h =
    All-mono _ _ taken (λ x e. apart x e) (any-false→All (overlaps r) taken h)
  where
    apart : (x : Range) → overlaps r x ≡ false → Disjoint x r
    apart x e = ground arith

check_ranges-Free :
    (lo hi : ℕ) (taken : List Range) (previous : Option Range) (rs : List Range) (u : Unit {0})
    → check_ranges exclusive lo hi taken previous rs ≡ ok u
    → All (Behind previous) rs × AllPairs Disjoint rs × All (Free taken) rs
unfolding check_ranges
check_ranges-Free lo hi taken previous [] u h = (tt, tt, tt)
check_ranges-Free lo hi taken previous (r ∷ rs) u h =
    let (ordered, h1) = guard-eq-ok (leb r.start r.end) range_end_before_start _ h in
    let (inner, h2) = guard-eq-ok (leb lo r.start && leb r.end hi) range_outside_pool _ h1 in
    let (apart, h3) = guard-eq-ok (not (touches_previous previous r)) ranges_overlap _ h2 in
    let (free, h4) = guard-eq-ok (not (true && any (overlaps r) taken)) range_claimed _ h3 in
    let (behind, pairs, clear) = check_ranges-Free lo hi taken (some r) rs u h4 in
    let first = untouched previous r (ground (arith, apart)) in
    (
      (
        first,
        All-mono _ _ rs (λ x l. Behind-next previous r x first (leb→le r.start r.end ordered) l)
            behind,
      ),
      (All-mono _ _ rs (λ x l. inl l) behind, pairs),
      (no_overlap-Free r taken (ground (arith, free)), clear),
    )

-- What one way of looking at the shares finds for a pool.
abbrev pub shares : {A : Type 0} → (Share → List A) → ℕ → List ResourceAllocation → List A
shares look id = flat_map (λ a. if a.pool_id == id then look a.share else [])

-- New shares of an exclusive pool that fit beside those of the other groups.
abbrev pub Beside : PoolKind → ℕ → List AllocationRow → List Range → List PoolItem → List ℕ → Type 0
Beside (index_range lo hi) id others rs cs ns =
    AllPairs Disjoint rs × All (Free (given_by ranges_in id others)) rs
Beside (item_list known) id others rs cs ns =
    AllPairs OtherItem cs × All (λ c. All (λ x. OtherItem x c) (given_by items_in id others)) cs
Beside (capacity total) id others rs cs ns = sum (given_by amounts_in id others) + sum ns ≤ total

-- The shares of one allocation, and those of a list of them, beside the other groups.
abbrev pub BesideShare : PoolKind → ℕ → List AllocationRow → Share → Type 0
BesideShare kind id others s = Beside kind id others (ranges_in s) (items_in s) (amounts_in s)

abbrev pub BesideAll : PoolKind → ℕ → List AllocationRow → List ResourceAllocation → Type 0
BesideAll kind id others out =
    Beside kind id others (shares ranges_in id out) (shares items_in id out)
      (shares amounts_in id out)

-- The items of a pool are named once.
abbrev pub KindNamed : PoolKind → Type 0
KindNamed (index_range lo hi) = Unit {0}
KindNamed (item_list known) = AllPairs OtherItem known
KindNamed (capacity total) = Unit {0}

-- What holds of the items of all pools holds of those of one.
of_one_pool :
    (P : PoolItem → Type 0) (id : ℕ) (rows : List AllocationRow)
    → All P (flat_map (λ r. items_in r.allocation.share) rows)
    → All P (given_by items_in id rows)
of_one_pool P id [] a = tt
of_one_pool P id (r ∷ rows) a =
    let (own, rest) = All-split P (items_in r.allocation.share) _ a in
    elim (Bool-cases (r.allocation.pool_id == id)) [
      | inl e ↦ rw e (All-append P (items_in r.allocation.share) _ own (of_one_pool P id rows rest))
      | inr e ↦ rw e (of_one_pool P id rows rest)
    ]

pub resolve_one-Beside :
    (pool : Pool) (others : List AllocationRow) (kind : PoolKind) (choice : Choice)
    (one : ResourceAllocation)
    → pool.sharing_mode ≡ exclusive
    → KindNamed kind
    → resolve_one pool others kind choice ≡ ok one
    → BesideShare kind pool.id others one.share
unfolding resolve_one
resolve_one-Beside pool others (index_range lo hi) (ranges asked) one alone named h =
    let (u, ran, h1) =
      >>=-eq-ok
        (check_ranges pool.sharing_mode lo hi (given_by ranges_in pool.id others) none
          (sort_ranges asked))
        _ h in
    let own =
      subst
        (λ m.
          check_ranges m lo hi (given_by ranges_in pool.id others) none (sort_ranges asked) ≡ ok u)
        alone ran in
    let (behind, pairs, clear) =
      check_ranges-Free lo hi (given_by ranges_in pool.id others) none (sort_ranges asked) u own in
    subst (λ o. BesideShare (index_range lo hi) pool.id others o.share) (ok_inj h1) (pairs, clear)
resolve_one-Beside pool others (item_list known) (picked_items asked) one alone named h =
    let taken = flat_map (λ r. items_in r.allocation.share) others in
    let (different, h1) = guard-eq-ok (all_different asked) item_repeated _ h in
    let (there, h2) =
      guard-eq-ok (length (filter (item_listed asked) known) == length asked) no_such_item _ h1 in
    let (free, h3) =
      guard-eq-ok (not (is_exclusive pool.sharing_mode && any (item_listed asked) taken))
        item_claimed _ h2 in
    let open_ : any (item_listed asked) taken ≡ false = ground (
      arith,
      subst (λ m. not (is_exclusive m && any (item_listed asked) taken) ≡ true) alone free,
    ) in
    let chosen = filter-All (item_listed asked) known in
    let clear : All (λ x. item_listed asked x ≡ false) (given_by items_in pool.id others) =
      of_one_pool _ pool.id others (any-false→All (item_listed asked) taken open_) in
    subst (λ o. BesideShare (item_list known) pool.id others o.share) (ok_inj h3)
      (
        AllPairs-filter OtherItem (item_listed asked) known named,
        All-mono _ _ (filter (item_listed asked) known)
            (λ c e.
              All-mono _ _ (given_by items_in pool.id others)
                (λ x f same. absurd (cc (f, e, ap (λ i. elem i asked) same))) clear)
            chosen,
      )
resolve_one-Beside pool others (capacity total) (quantity asked) one alone named h =
    let taken = sum (given_by amounts_in pool.id others) in
    let (fits, h1) =
      guard-eq-ok (not (is_exclusive pool.sharing_mode) || leb (taken + asked) total)
        capacity_exceeded _ h in
    let below : leb (taken + asked) total ≡ true =
      ground (
        arith,
        subst (λ m. (not (is_exclusive m) || leb (taken + asked) total) ≡ true) alone fits,
      ) in
    let got : asked + 0 ≡ sum (amounts_in one.share) =
      subst (λ m. (if is_exclusive m then asked else total) + 0 ≡ sum (amounts_in one.share)) alone
        (ap (λ o. sum (amounts_in o.share)) (ok_inj h1)) in
    omega (arith, got, leb→le (taken + asked) total below)
resolve_one-Beside pool others (index_range lo hi) (picked_items asked) one alone named h =
    absurd (cc h)
resolve_one-Beside pool others (index_range lo hi) (quantity asked) one alone named h =
    absurd (cc h)
resolve_one-Beside pool others (item_list known) (ranges asked) one alone named h = absurd (cc h)
resolve_one-Beside pool others (item_list known) (quantity asked) one alone named h = absurd (cc h)
resolve_one-Beside pool others (capacity total) (ranges asked) one alone named h = absurd (cc h)
resolve_one-Beside pool others (capacity total) (picked_items asked) one alone named h =
    absurd (cc h)
