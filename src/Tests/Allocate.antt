-- ===== src/Tests/Allocate.antt =====
-- A machine with eight numbered cards, two cameras and 64 units of memory, shared by two groups.
use allocube.Prelude.{
  arith, inl, inr, ℕ, ◌+◌, ◌≡◌, ◌≤◌, refl, some, [], ◌∷◌, List, map, All, AllPairs, ◌%◌,
}
use allocube.Store.Error.{ok, err, range_claimed, item_claimed, capacity_exceeded}
use allocube.Tests.Data.{value_or}
use allocube.Resources.{
  Configuration, Resolved, Pool, PoolItem, exclusive, index_range, item_list, capacity, ranges,
  picked_items, quantity, GroupInput, index_ranges, ResourceAllocation, AllocationInput, get_pool,
  validate_resource_configuration,
}
use allocube.Resources.Loop.{granted}
use allocube.Resources.Ranges.{ranges_of, Within, Disjoint, validate_resource_configuration_ranges}
use allocube.Resources.Items.{items_of, Known, OtherItem, validate_resource_configuration_items}
use allocube.Resources.Quantities.{total_of, validate_resource_configuration_amounts}
use allocube.Resources.Answer.{
  IsWellNamed, answered, asked, validate_resource_configuration-IsWellNamed,
}
use allocube.Resources.Group.{
  PoolRow, AllocationRow, find_pool, validate_and_resolve_group_allocations,
  replace_group_allocations,
}
use allocube.Resources.GroupSafe.{FitsKind, replace_group_allocations-FitsKind}

abbrev lower : ℕ → ℕ
lower name = name % 100

abbrev camera : ℕ → ℕ → PoolItem
camera id key = record { id = id; key = key; label = key }

abbrev cards : Pool
cards = record { id = 1; name = 101; sharing_mode = exclusive; unit = 7; kind = index_range 0 7 }

abbrev cameras : Pool
cameras = record {
  id = 2;
  name = 102;
  sharing_mode = exclusive;
  unit = 7;
  kind = item_list (camera 21 1 ∷ camera 22 2 ∷ []);
}

abbrev memory : Pool
memory = record { id = 3; name = 103; sharing_mode = exclusive; unit = 8; kind = capacity 64 }

abbrev cards_from : ℕ → ℕ → AllocationInput
cards_from a b = record {
  pool_id = 1;
  choice = ranges (record { start = a; end = b; label = 0 } ∷ []);
}

abbrev first_group : GroupInput
first_group = record {
  id = 11;
  name = 201;
  allocations =
      record {
        pool_id = 1;
        choice = ranges (
            record { start = 4; end = 5; label = 0 }
            ∷ record { start = 0; end = 1; label = 0 }
            ∷ []);
      }
      ∷ record { pool_id = 2; choice = picked_items (22 ∷ []) }
      ∷ record { pool_id = 3; choice = quantity 40 }
      ∷ [];
}

abbrev second_group : AllocationInput → GroupInput
second_group more = record {
  id = 12;
  name = 202;
  allocations = more ∷ record { pool_id = 3; choice = quantity 24 } ∷ [];
}

abbrev configuration : AllocationInput → Configuration
configuration more = record {
  pools = cards ∷ cameras ∷ memory ∷ [];
  groups = first_group ∷ second_group more ∷ [];
}

abbrev accepted : List Resolved
unfolding validate_resource_configuration
accepted = value_or [] (validate_resource_configuration lower ◌+◌ (configuration (cards_from 2 3)))

accepts : validate_resource_configuration lower ◌+◌ (configuration (cards_from 2 3)) ≡ ok accepted
unfolding validate_resource_configuration
accepts = refl

cards_found : get_pool (cards ∷ cameras ∷ memory ∷ []) 1 ≡ some cards
unfolding get_pool
cards_found = refl

cameras_found : get_pool (cards ∷ cameras ∷ memory ∷ []) 2 ≡ some cameras
unfolding get_pool
cameras_found = refl

memory_found : get_pool (cards ∷ cameras ∷ memory ∷ []) 3 ≡ some memory
unfolding get_pool
memory_found = refl

validate_resource_configuration_ranges_example :
    All (Within 0 7) (ranges_of 1 (granted accepted))
    × AllPairs Disjoint (ranges_of 1 (granted accepted))
validate_resource_configuration_ranges_example =
    validate_resource_configuration_ranges lower ◌+◌ (configuration (cards_from 2 3)) accepted cards
      0 7 accepts cards_found refl refl

validate_resource_configuration_items_example :
    All (Known (camera 21 1 ∷ camera 22 2 ∷ [])) (items_of 2 (granted accepted))
    × AllPairs OtherItem (items_of 2 (granted accepted))
validate_resource_configuration_items_example =
    validate_resource_configuration_items lower ◌+◌ (configuration (cards_from 2 3)) accepted
      cameras (camera 21 1 ∷ camera 22 2 ∷ []) accepts cameras_found refl refl

validate_resource_configuration_amounts_example : total_of ◌+◌ 3 (granted accepted) ≤ 64
validate_resource_configuration_amounts_example =
    validate_resource_configuration_amounts lower ◌+◌ (configuration (cards_from 2 3)) accepted
      memory 64 accepts memory_found refl refl

validate_resource_configuration-IsWellNamed_example :
    IsWellNamed lower (configuration (cards_from 2 3))
    × (map answered accepted ≡ map asked (first_group ∷ second_group (cards_from 2 3) ∷ []))
validate_resource_configuration-IsWellNamed_example =
    validate_resource_configuration-IsWellNamed lower ◌+◌ (configuration (cards_from 2 3)) accepted
      accepts

abbrev pool_rows : List PoolRow
pool_rows = map (λ p. record { machine_id = 1; pool = p }) (cards ∷ cameras ∷ memory ∷ [])

abbrev cards_row : PoolRow
cards_row = record { machine_id = 1; pool = cards }

abbrev card_share : ℕ → ℕ → ℕ → AllocationRow
card_share group a b = record {
  group_id = group;
  allocation = record {
    pool_id = 1;
    pool_name = 101;
    sharing_mode = exclusive;
    unit = 7;
    share = index_ranges (record { start = a; end = b; label = 0 } ∷ []);
  };
}

-- The first group has cards 0 to 3, the second 6 and 7.
abbrev share_rows : List AllocationRow
share_rows = card_share 11 0 3 ∷ card_share 12 6 7 ∷ []

abbrev moved : List ResourceAllocation
unfolding validate_and_resolve_group_allocations
moved =
    value_or [] (
      validate_and_resolve_group_allocations pool_rows 1 (cards_from 2 5 ∷ []) (some 11) share_rows)

moves :
    validate_and_resolve_group_allocations pool_rows 1 (cards_from 2 5 ∷ []) (some 11) share_rows
    ≡ ok moved
unfolding validate_and_resolve_group_allocations
moves = refl

cards_row_found : find_pool pool_rows 1 ≡ some cards_row
unfolding find_pool
cards_row_found = refl

replace_group_allocations-FitsKind_example :
    FitsKind (index_range 0 7) 1 (replace_group_allocations 11 moved share_rows)
replace_group_allocations-FitsKind_example =
    replace_group_allocations-FitsKind pool_rows 1 11 (cards_from 2 5 ∷ []) (some 11) share_rows
      moved cards_row (inr refl) cards_row_found refl tt ((inl (omega arith), tt), (tt, tt)) moves

-- A card that the second group has.
card_of_other :
    validate_and_resolve_group_allocations pool_rows 1 (cards_from 2 6 ∷ []) (some 11) share_rows
    ≡ err range_claimed
unfolding validate_and_resolve_group_allocations
card_of_other = refl

-- A card that the first group has.
card_taken :
    validate_resource_configuration lower ◌+◌ (configuration (cards_from 3 4)) ≡ err range_claimed
unfolding validate_resource_configuration
card_taken = refl

camera_taken :
    validate_resource_configuration lower ◌+◌
      (configuration (record { pool_id = 2; choice = picked_items (21 ∷ 22 ∷ []) }))
    ≡ err item_claimed
unfolding validate_resource_configuration
camera_taken = refl

-- An addition that rounds up refuses quantities that fit.
rounded_up :
    validate_resource_configuration lower (λ a b. a + b + 1) (configuration (cards_from 2 3))
    ≡ err capacity_exceeded
unfolding validate_resource_configuration
rounded_up = refl
