-- ===== src/Resources/Ranges.antt =====
-- The ranges that an accepted configuration (server/resources.ts) gives out of one pool.
use allocube.Prelude.{
  ℕ, ◌≤◌, ◌<◌, ◌≡◌, ◌∙◌, ◌⊎◌, refl, sym, ap, subst, arith, Bool, true, false, not, ◌&&◌, ◌||◌,
  Option, none, some, List, [], ◌∷◌, ◌++◌, leb, ◌==◌, ==_refl, if◌then◌else◌, any, flat_map,
  append-nil, append-cons, any-append, flat_map-append, All, AllPairs, All-append, AllPairs-snoc,
  any-false→All, All-mono,
}
use allocube.Store.Error.{
  ok, guard-eq-ok, ok_inj, range_end_before_start, range_outside_pool, ranges_overlap,
  range_claimed,
}
use allocube.Resources.Loop.{granted, Made, by_ranges, Made-other, validate-keeps_pool}
use allocube.Resources.{
  SharingMode, exclusive, index_range, Configuration, Resolved, get_pool, sort_ranges, Range,
  RangeClaim, Pool, Share, index_ranges, items, amount, ResourceAllocation,
  validate_resource_configuration, Claims, is_exclusive, touches_previous, claim_ranges,
  claim_range, claim_overlaps,
}

-- The ranges that allocations give out of a pool.
abbrev pub ranges_in : Share → List Range
ranges_in (index_ranges rs) = rs
ranges_in (items chosen) = []
ranges_in (amount q) = []

abbrev pub ranges_of : ℕ → List ResourceAllocation → List Range
ranges_of pool_id = flat_map (λ a. if a.pool_id == pool_id then ranges_in a.share else [])

abbrev pub Disjoint : Range → Range → Type 0
Disjoint a b = (a.end < b.start) ⊎ (b.end < a.start)

abbrev pub Within : ℕ → ℕ → Range → Type 0
Within lo hi r = (lo ≤ r.start) × (r.start ≤ r.end) × (r.end ≤ hi)

abbrev overlaps : Range → Range → Bool
overlaps r other = leb other.start r.end && leb r.start other.end

-- The claims of a pool stand for the ranges that it gave.
abbrev Stand : List RangeClaim → List Range → Type 0
Stand claims given = (r : Range) → any (claim_overlaps r) claims ≡ any (overlaps r) given

Stand-snoc :
    (g : ℕ) (r : Range) (claims : List RangeClaim) (given : List Range)
    → Stand claims given
    → Stand (claims ++ claim_range g r ∷ []) (given ++ r ∷ [])
Stand-snoc g r claims given s q =
    any-append (claim_overlaps q) claims (claim_range g r ∷ [])
    ∙ ap (λ b. b || (if claim_overlaps q (claim_range g r) then true else false)) (s q)
    ∙ sym (any-append (overlaps q) given (r ∷ []))

no_overlap-Disjoint : (r x : Range) → overlaps r x ≡ false → Disjoint x r
no_overlap-Disjoint r x h = ground arith

-- What a round of the loop checks, and what it leaves.
claim_ranges-cons :
    (mode : SharingMode) (lo hi g : ℕ) (previous : Option Range) (r : Range) (rs : List Range)
    (claims after : List RangeClaim)
    → claim_ranges mode lo hi g previous (r ∷ rs) claims ≡ ok after
    → Within lo hi r
      × ((is_exclusive mode && any (claim_overlaps r) claims) ≡ false)
      × (claim_ranges mode lo hi g (some r) rs (claims ++ claim_range g r ∷ []) ≡ ok after)
unfolding claim_ranges
claim_ranges-cons mode lo hi g previous r rs claims after h =
    let (ordered, h1) = guard-eq-ok (leb r.start r.end) range_end_before_start _ h in
    let (inner, h2) = guard-eq-ok (leb lo r.start && leb r.end hi) range_outside_pool _ h1 in
    let (apart, h3) = guard-eq-ok (not (touches_previous previous r)) ranges_overlap _ h2 in
    let (free, h4) =
      guard-eq-ok (not (is_exclusive mode && any (claim_overlaps r) claims)) range_claimed _ h3 in
    (ground arith, ground (arith, free), h4)

claim_ranges-Within :
    (mode : SharingMode) (lo hi g : ℕ) (previous : Option Range) (rs : List Range)
    (claims after : List RangeClaim)
    → claim_ranges mode lo hi g previous rs claims ≡ ok after
    → All (Within lo hi) rs
claim_ranges-Within mode lo hi g previous [] claims after h = tt
claim_ranges-Within mode lo hi g previous (r ∷ rs) claims after h =
    let (inner, free, rest) = claim_ranges-cons mode lo hi g previous r rs claims after h in
    (inner, claim_ranges-Within mode lo hi g (some r) rs _ after rest)

claim_ranges-Disjoint :
    (lo hi g : ℕ) (previous : Option Range) (rs : List Range) (claims after : List RangeClaim)
    (given : List Range)
    → claim_ranges exclusive lo hi g previous rs claims ≡ ok after
    → Stand claims given
    → AllPairs Disjoint given
    → Stand after (given ++ rs) × AllPairs Disjoint (given ++ rs)
unfolding claim_ranges
claim_ranges-Disjoint lo hi g previous [] claims after given h s d =
    rw append-nil (subst (λ c. Stand c given) (ok_inj h) s, d)
claim_ranges-Disjoint lo hi g previous (r ∷ rs) claims after given h s d =
    let (inner, free, rest) = claim_ranges-cons exclusive lo hi g previous r rs claims after h in
    let apart : All (λ x. Disjoint x r) given =
      All-mono _ _ given (no_overlap-Disjoint r)
        (any-false→All (overlaps r) given (sym (s r) ∙ free)) in
    subst (λ l. Stand after l × AllPairs Disjoint l) (append-cons given r rs)
      (claim_ranges-Disjoint lo hi g (some r) rs (claims ++ claim_range g r ∷ []) after
        (given ++ r ∷ []) rest (Stand-snoc g r claims given s)
        (AllPairs-snoc Disjoint given r d apart))

ranges_of-snoc :
    (id : ℕ) (made : List ResourceAllocation) (one : ResourceAllocation)
    → ranges_of id (made ++ one ∷ [])
      ≡ ranges_of id made ++ (if one.pool_id == id then ranges_in one.share else [])
ranges_of-snoc id made one =
    flat_map-append (λ a. if a.pool_id == id then ranges_in a.share else []) made (one ∷ [])
    ∙ ap (λ l. ranges_of id made ++ l) (append-nil _)

-- What is given of one pool is inside it, and no number twice.
Parted : Pool → ℕ → ℕ → List ResourceAllocation → Claims → Type 0
Parted pool lo hi made claims =
    Stand (claims.ranges pool.id) (ranges_of pool.id made)
    × AllPairs Disjoint (ranges_of pool.id made)
    × All (Within lo hi) (ranges_of pool.id made)

module _ (pool : Pool) (lo hi : ℕ) where
  Parted-same :
      (made : List ResourceAllocation) (one : ResourceAllocation) (claims after : Claims)
      → (one.pool_id == pool.id) ≡ false
      → after.ranges pool.id ≡ claims.ranges pool.id
      → Parted pool lo hi made claims
      → Parted pool lo hi (made ++ one ∷ []) after
  unfolding Parted
  Parted-same made one claims after e kept j =
      let list : ranges_of pool.id (made ++ one ∷ []) ≡ ranges_of pool.id made =
        ranges_of-snoc pool.id made one ∙ rw e (append-nil _) in
      rw (list, kept) j

  Parted-Made :
      (plus : ℕ → ℕ → ℕ) (g : ℕ) (made : List ResourceAllocation) (one : ResourceAllocation)
      (claims after : Claims)
      → pool.sharing_mode ≡ exclusive
      → Made plus pool g claims (index_range lo hi) after one
      → Parted pool lo hi made claims
      → Parted pool lo hi (made ++ one ∷ []) after
  unfolding Parted
  Parted-Made plus g made one claims after alone (by_ranges asked claimed h) j =
      let own =
        subst
          (λ m.
            claim_ranges m lo hi g none (sort_ranges asked) (claims.ranges pool.id) ≡ ok claimed)
          alone h in
      let (stand, apart) =
        claim_ranges-Disjoint lo hi g none (sort_ranges asked) (claims.ranges pool.id) claimed
          (ranges_of pool.id made) own j.0 j.1 in
      let list : ranges_of pool.id (made ++ one ∷ [])
          ≡ ranges_of pool.id made ++ sort_ranges asked =
        ranges_of-snoc pool.id made one ∙ rw (==_refl pool.id) refl in
      let within =
        claim_ranges-Within exclusive lo hi g none (sort_ranges asked) (claims.ranges pool.id)
          claimed own in
      rw (==_refl pool.id, list)
        (
          stand,
          apart,
          All-append (Within lo hi) (ranges_of pool.id made) (sort_ranges asked) j.2 within,
        )

-- In an exclusive pool of numbers, an accepted configuration gives ranges of the pool, none of
-- them empty, and no number to two of them, whichever groups have them.
pub validate_resource_configuration_ranges :
    (lower_case : ℕ → ℕ) (plus : ℕ → ℕ → ℕ) (input : Configuration) (out : List Resolved)
    (pool : Pool) (lo hi : ℕ)
    → validate_resource_configuration lower_case plus input ≡ ok out
    → get_pool input.pools pool.id ≡ some pool
    → pool.sharing_mode ≡ exclusive
    → pool.kind ≡ index_range lo hi
    → All (Within lo hi) (ranges_of pool.id (granted out))
      × AllPairs Disjoint (ranges_of pool.id (granted out))
unfolding Parted
validate_resource_configuration_ranges lower plus input out pool lo hi h found alone kind =
    let (after, parted) =
      validate-keeps_pool lower plus input out pool (Parted pool lo hi)
        (λ g made one claims next how j.
          Parted-Made pool lo hi plus g made one claims next alone
            (subst (λ k. Made plus pool g claims k next one) kind how) j)
        (λ other g made one claims next how e j.
          let (elsewhere, ranges, totals) =
            Made-other plus other g claims next other.kind one pool.id how e in
          Parted-same pool lo hi made one claims next elsewhere ranges j)
        ((λ r. refl), tt, tt) h found in
    (parted.2, parted.1)
