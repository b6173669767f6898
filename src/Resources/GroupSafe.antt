-- ===== src/Resources/GroupSafe.antt =====
-- Changing the allocations of one group (server/resources.ts) gives nothing out twice.
use allocube.Prelude.{
  ℕ, ◌≤◌, ◌≡◌, ◌⊎◌, ◌∙◌, refl, sym, ap, subst, arith, Bool, not, Option, none, some, List, [], ◌∷◌,
  ◌++◌, map, filter, flat_map, ◌==◌, if◌then◌else◌, All, AllPairs, All-append, All-mono,
  AllPairs-append, AllPairs-split, All-split, flat_map-append, Bool-cases, inl, inr,
}
use allocube.Store.Error.{ok, guard-eq-ok, pool_repeated}
use allocube.Resources.{
  exclusive, PoolItem, Range, PoolKind, index_range, item_list, capacity, AllocationInput, Share,
  ResourceAllocation, all_different,
}
use allocube.Resources.Ranges.{ranges_in, Disjoint}
use allocube.Resources.Items.{items_in, OtherItem}
use allocube.Resources.Quantities.{amounts_in, sum, sum-append}
use allocube.Resources.Group.{
  PoolRow, AllocationRow, given_by, other_rows, find_pool, validate_and_resolve_group_allocations,
  replace_group_allocations,
}
use allocube.Resources.Beside.{shares, Beside, BesideAll, KindNamed}
use allocube.Resources.GroupLoop.{resolve_all-Beside}

-- What the rows of an exclusive pool are, by its kind.
abbrev pub FitsKind : PoolKind → ℕ → List AllocationRow → Type 0
FitsKind (index_range lo hi) id rows = AllPairs Disjoint (given_by ranges_in id rows)
FitsKind (item_list known) id rows = AllPairs OtherItem (given_by items_in id rows)
FitsKind (capacity total) id rows = sum (given_by amounts_in id rows) ≤ total

-- Parts of a list that is joined from many.
module _ {A B : Type 0} (h : A → List B) (q : A → Bool) where
  All-flat_filter :
      (P : B → Type 0) (xs : List A) → All P (flat_map h xs) → All P (flat_map h (filter q xs))
  All-flat_filter P [] a = tt
  All-flat_filter P (x ∷ xs) a =
      let (own, rest) = All-split P (h x) (flat_map h xs) a in
      elim (Bool-cases (q x)) [
        | inl e ↦
            rw e (All-append P (h x) (flat_map h (filter q xs)) own (All-flat_filter P xs rest))
        | inr e ↦ rw e (All-flat_filter P xs rest)
      ]

  AllPairs-flat_filter :
      (R : B → B → Type 0) (xs : List A)
      → AllPairs R (flat_map h xs)
      → AllPairs R (flat_map h (filter q xs))
  AllPairs-flat_filter R [] a = tt
  AllPairs-flat_filter R (x ∷ xs) a =
      let (own, rest, cross) = AllPairs-split R (h x) (flat_map h xs) a in
      elim (Bool-cases (q x)) [
        | inl e ↦ rw e (
            AllPairs-append R (h x) (flat_map h (filter q xs)) own (AllPairs-flat_filter R xs rest)
              (All-mono _ _ (h x) (λ b c. All-flat_filter (R b) xs c) cross))
        | inr e ↦ rw e (AllPairs-flat_filter R xs rest)
      ]

sum-flat_filter :
    (h : AllocationRow → List ℕ) (q : AllocationRow → Bool) (xs : List AllocationRow)
    → sum (flat_map h (filter q xs)) ≤ sum (flat_map h xs)
sum-flat_filter h q [] = omega arith
sum-flat_filter h q (x ∷ xs) =
    let whole = sum-append (h x) (flat_map h xs) in
    let part = sum-append (h x) (flat_map h (filter q xs)) in
    let ih = sum-flat_filter h q xs in
    elim (Bool-cases (q x)) [
      | inl e ↦ rw e (omega (arith, whole, part, ih))
      | inr e ↦ rw e (omega (arith, whole, ih))
    ]

swap_All :
    {A B : Type 0} (R : A → B → Type 0) (xs : List A) (ys : List B)
    → All (λ y. All (λ x. R x y) xs) ys
    → All (λ x. All (R x) ys) xs
swap_All R [] ys h = tt
swap_All R (x ∷ xs) ys h =
    (All-mono _ _ ys (λ y a. a.0) h, swap_All R xs ys (All-mono _ _ ys (λ y a. a.1) h))

module _ {A : Type 0} (look : Share → List A) (id group_id : ℕ) where
  given_by-stored :
      (out : List ResourceAllocation)
      → given_by look id (map (λ a. record { group_id = group_id; allocation = a }) out)
        ≡ shares look id out
  given_by-stored [] = refl
  given_by-stored (one ∷ out) =
      ap (λ l. (if one.pool_id == id then look one.share else []) ++ l) (given_by-stored out)

  given_by-replaced :
      (out : List ResourceAllocation) (rows : List AllocationRow)
      → given_by look id (replace_group_allocations group_id out rows)
        ≡ given_by look id (filter (λ r. not (r.group_id == group_id)) rows) ++ shares look id out
  unfolding replace_group_allocations
  given_by-replaced out rows =
      flat_map-append _ (filter (λ r. not (r.group_id == group_id)) rows) _
      ∙ ap (λ l. given_by look id (filter (λ r. not (r.group_id == group_id)) rows) ++ l)
          (given_by-stored out)

-- The check left out the rows of the group, or nothing where the group is new.
abbrev pub Excludes : Option ℕ → ℕ → Type 0
Excludes exclude group_id = (exclude ≡ none) ⊎ (exclude ≡ some group_id)

-- What holds beside the rows that were looked at holds beside the rows that stay.
Beside-kept :
    (kind : PoolKind) (id group_id : ℕ) (exclude : Option ℕ) (rows : List AllocationRow)
    (rs : List Range) (cs : List PoolItem) (ns : List ℕ)
    → Excludes exclude group_id
    → Beside kind id (other_rows exclude rows) rs cs ns
    → Beside kind id (filter (λ r. not (r.group_id == group_id)) rows) rs cs ns
unfolding other_rows
Beside-kept kind id g exclude rows rs cs ns (inr e) b =
    subst (λ x. Beside kind id (other_rows x rows) rs cs ns) e b
Beside-kept (index_range lo hi) id g exclude rows rs cs ns (inl e) b =
    let old = subst (λ x. Beside (index_range lo hi) id (other_rows x rows) rs cs ns) e b in
    (old.0, All-mono _ _ rs (λ r a. All-flat_filter _ _ (λ x. Disjoint x r) rows a) old.1)
Beside-kept (item_list known) id g exclude rows rs cs ns (inl e) b =
    let old = subst (λ x. Beside (item_list known) id (other_rows x rows) rs cs ns) e b in
    (old.0, All-mono _ _ cs (λ c a. All-flat_filter _ _ (λ x. OtherItem x c) rows a) old.1)
Beside-kept (capacity total) id g exclude rows rs cs ns (inl e) b =
    let old = subst (λ x. Beside (capacity total) id (other_rows x rows) rs cs ns) e b in
    let less =
      sum-flat_filter
        (λ r. if r.allocation.pool_id == id then amounts_in r.allocation.share else [])
        (λ r. not (r.group_id == g)) rows in
    omega (arith, old, less)

-- Nothing new fits beside rows that fit.
Beside-nothing :
    (kind : PoolKind) (id : ℕ) (exclude : Option ℕ) (rows : List AllocationRow)
    → FitsKind kind id rows
    → Beside kind id (other_rows exclude rows) [] [] []
unfolding other_rows
Beside-nothing (index_range lo hi) id exclude rows f = (tt, tt)
Beside-nothing (item_list known) id exclude rows f = (tt, tt)
Beside-nothing (capacity total) id none rows f = omega (arith, f)
Beside-nothing (capacity total) id (some g) rows f =
    let less =
      sum-flat_filter
        (λ r. if r.allocation.pool_id == id then amounts_in r.allocation.share else [])
        (λ r. not (r.group_id == g)) rows in
    omega (arith, f, less)

replaced-FitsKind :
    (kind : PoolKind) (id group_id : ℕ) (rows : List AllocationRow) (out : List ResourceAllocation)
    → FitsKind kind id rows
    → BesideAll kind id (filter (λ r. not (r.group_id == group_id)) rows) out
    → FitsKind kind id (replace_group_allocations group_id out rows)
replaced-FitsKind (index_range lo hi) id g rows out f b =
    subst (AllPairs Disjoint) (sym (given_by-replaced ranges_in id g out rows)) (
      AllPairs-append Disjoint _ (shares ranges_in id out)
        (AllPairs-flat_filter _ (λ r. not (r.group_id == g)) Disjoint rows f) b.0
        (swap_All Disjoint _ (shares ranges_in id out) b.1))
replaced-FitsKind (item_list known) id g rows out f b =
    subst (AllPairs OtherItem) (sym (given_by-replaced items_in id g out rows)) (
      AllPairs-append OtherItem _ (shares items_in id out)
        (AllPairs-flat_filter _ (λ r. not (r.group_id == g)) OtherItem rows f) b.0
        (swap_All OtherItem _ (shares items_in id out) b.1))
replaced-FitsKind (capacity total) id g rows out f b =
    let whole =
      ap sum (given_by-replaced amounts_in id g out rows)
      ∙ sum-append _ (shares amounts_in id out) in
    omega (arith, whole, b)

-- Changing the allocations of one group, after the check of them returned, leaves every exclusive
-- pool such that no number and no item of it is given out twice, and no more of a capacity than
-- there is, if this was so before and the items of the pool have distinct identifiers.
pub replace_group_allocations-FitsKind :
    (pools : List PoolRow) (machine_id group_id : ℕ) (asked : List AllocationInput)
    (exclude : Option ℕ) (rows : List AllocationRow) (out : List ResourceAllocation) (p : PoolRow)
    → Excludes exclude group_id
    → find_pool pools p.pool.id ≡ some p
    → p.pool.sharing_mode ≡ exclusive
    → KindNamed p.pool.kind
    → FitsKind p.pool.kind p.pool.id rows
    → validate_and_resolve_group_allocations pools machine_id asked exclude rows ≡ ok out
    → FitsKind p.pool.kind p.pool.id (replace_group_allocations group_id out rows)
unfolding validate_and_resolve_group_allocations
replace_group_allocations-FitsKind pools machine_id g asked exclude rows out p ex found alone named
      fits h =
    let (different, ran) =
      guard-eq-ok (all_different (map (λ a. a.pool_id) asked)) pool_repeated _ h in
    let beside =
      resolve_all-Beside pools machine_id (other_rows exclude rows) p asked out found alone named
        (Beside-nothing p.pool.kind p.pool.id exclude rows fits) different ran in
    replaced-FitsKind p.pool.kind p.pool.id g rows out fits
      (Beside-kept p.pool.kind p.pool.id g exclude rows _ _ _ ex beside)
