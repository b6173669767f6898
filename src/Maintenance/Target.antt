-- ===== src/Maintenance/Target.antt =====
-- The machine or the resource group that a window is about: resolveUnavailabilityTarget of
-- server/unavailability.ts.
use allocube.Prelude.{ℕ, Option, none, some}
use allocube.Store.{Text, Catalog, Machine, Group, TargetStatus}
use allocube.Store.Error.{Result, ok, or_fail, ◌>>=◌, target_missing}
use allocube.Store.Rows.{find_machine, find_group}

pub data TargetType : Type 0 where
  machine_target group_target : TargetType

pub record Target : Type 0 where
  pub type : TargetType
  pub id : ℕ
  pub machine_id : ℕ
  pub resource_group_id : Option ℕ
  pub name : Text
  pub machine_name : Text
  pub status : TargetStatus
  pub machine_status : TargetStatus
  pub version : ℕ

unfoldable pub machine_as_target : Machine → Target
machine_as_target m = record {
  type = machine_target;
  id = m.id;
  machine_id = m.id;
  resource_group_id = none;
  name = m.name;
  machine_name = m.name;
  status = m.status;
  machine_status = m.status;
  version = m.version;
}

unfoldable pub group_as_target : Group → Machine → Target
group_as_target g m = record {
  type = group_target;
  id = g.id;
  machine_id = g.machine_id;
  resource_group_id = some g.id;
  name = g.name;
  machine_name = m.name;
  status = g.status;
  machine_status = m.status;
  version = g.version;
}

-- resolveUnavailabilityTarget; what is deleted is not found.
unfoldable pub resolve_unavailability_target : Catalog → TargetType → ℕ → Result Target
unfolding find_machine find_group machine_as_target group_as_target
resolve_unavailability_target c machine_target id = do
  m ← or_fail (find_machine c id) target_missing
  ok (machine_as_target m)
resolve_unavailability_target c group_target id = do
  g ← or_fail (find_group c id) target_missing
  m ← or_fail (find_machine c g.machine_id) target_missing
  ok (group_as_target g m)
