-- ===== src/Maintenance/Homes.antt =====
-- A change of a target's status moves no resource group to another machine.
use allocube.Prelude.{
  ℕ, suc, ◌≡◌, ◌∙◌, ◌⊎◌, inl, inr, refl, sym, subst, ap, Bool, not, ◌&&◌, some, some_inj, List, [],
  ◌∷◌, ◌==◌, any, Bool-cases, Option-cases,
}
use allocube.Store.{Catalog, Machine, Group, TargetStatus, Reservation}
use allocube.Store.Error.{ok, guard, >>=-eq-ok, ok_inj, target_status_changed}
use allocube.Store.Rows.{
  find, update_first, GroupRow, find_group, find_machine, join_group, join_machine, get_group,
}
use allocube.Schedule.{Homed}
use allocube.Maintenance.Target.{TargetType, machine_target, group_target}
use allocube.Maintenance.Disable.{set_target_status, machine_fits, group_fits}

-- A lookup by what a change keeps finds the row that was there, changed or not.
find-changed {ℓ} :
    {A : Type ℓ} (p q : A → Bool) (f : A → A) (xs : List A) (y : A)
    → ((x : A) → p (f x) ≡ p x)
    → find p (update_first q f xs) ≡ some y
    → (x : A) × (find p xs ≡ some x) × ((y ≡ x) ⊎ (y ≡ f x))
unfolding find update_first
find-changed p q f [] y k h = absurd (cc h)
find-changed p q f (x ∷ xs) y k h = elim (Bool-cases (q x)) [
  | inl e ↦ elim (Bool-cases (p x)) [
    | inl hit ↦ rw hit (x, refl, inr (sym (some_inj (rw (e, k x, hit) at h))))
    | inr miss ↦ rw miss (y, (rw (e, k x, miss) at h), inl refl)
  ]
  | inr e ↦ elim (Bool-cases (p x)) [
    | inl hit ↦ rw hit (x, refl, inl (sym (some_inj (rw (e, hit) at h))))
    | inr miss ↦ rw miss (find-changed p q f xs y k (rw (e, miss) at h))
  ]
]

-- The group and the machine of a row.
pub record Parts (c : Catalog) (id : ℕ) (machine_id : ℕ) : Type 0 where
  pub group : Group
  pub host : Machine
  pub found : find_group c id ≡ some group
  pub hosted : find_machine c group.machine_id ≡ some host
  pub same : machine_id ≡ host.id

get_group-Parts :
    (c : Catalog) (id : ℕ) (row : GroupRow) → get_group c id ≡ some row → Parts c id row.machine_id
unfolding get_group join_group join_machine
get_group-Parts c id row e = elim (Option-cases (find_group c id)) [
  | inl gone ↦ absurd (cc (rw gone at e))
  | inr (g, found) ↦
      let e1 : join_machine g (find_machine c g.machine_id) ≡ some row =
        ap (join_group c) (sym found) ∙ e in
      elim (Option-cases (find_machine c g.machine_id)) [
        | inl gone ↦ absurd (cc (ap (join_machine g) (sym gone) ∙ e1))
        | inr (m, hosted) ↦ record {
          group = g;
          host = m;
          found = found;
          hosted = hosted;
          same =
              ap (λ (x : GroupRow). x.machine_id)
                (sym (some_inj (ap (join_machine g) (sym hosted) ∙ e1)));
        }
      ]
]

Parts-get_group :
    (c : Catalog) (id machine_id : ℕ)
    → Parts c id machine_id
    → (row : GroupRow) × (get_group c id ≡ some row) × (row.machine_id ≡ machine_id)
unfolding get_group join_group join_machine
Parts-get_group c id machine_id p =
    (_, ap (join_group c) p.found ∙ ap (join_machine p.group) p.hosted, sym p.same)

machine_changed-Parts :
    (c : Catalog) (q : Machine → Bool) (after : TargetStatus) (id machine_id : ℕ)
    → Parts
        (record c {
          machines =
              update_first q (λ m. record m { status = after; version = suc m.version }) c.machines;
        })
        id
        machine_id
    → Parts c id machine_id
unfolding find_group find_machine
machine_changed-Parts c q after id machine_id p =
    let f : Machine → Machine = λ m. record m { status = after; version = suc m.version } in
    let (m, hosted, either) =
      find-changed (λ m. m.id == p.group.machine_id && not m.deleted) q f c.machines p.host
        (λ _. refl) p.hosted in
    record {
      group = p.group;
      host = m;
      found = p.found;
      hosted = hosted;
      same = p.same ∙ elim either [
        | inl e ↦ ap (λ (x : Machine). x.id) e
        | inr e ↦ ap (λ (x : Machine). x.id) e
      ];
    }

group_changed-Parts :
    (c : Catalog) (q : Group → Bool) (after : TargetStatus) (id machine_id : ℕ)
    → Parts
        (record c {
          groups =
              update_first q (λ g. record g { status = after; version = suc g.version }) c.groups;
        })
        id
        machine_id
    → Parts c id machine_id
unfolding find_group find_machine
group_changed-Parts c q after id machine_id p =
    let f : Group → Group = λ g. record g { status = after; version = suc g.version } in
    let (g, found, either) =
      find-changed (λ g. g.id == id && not g.deleted) q f c.groups p.group (λ _. refl) p.found in
    let same : p.group.machine_id ≡ g.machine_id = elim either [
      | inl e ↦ ap (λ (x : Group). x.machine_id) e
      | inr e ↦ ap (λ (x : Group). x.machine_id) e
    ] in
    record {
      group = g;
      host = p.host;
      found = found;
      hosted = subst (λ k. find_machine c k ≡ some p.host) same p.hosted;
      same = p.same;
    }

pub set_target_status-Homed :
    (type : TargetType) (id : ℕ) (before : TargetStatus) (version : ℕ) (after : TargetStatus)
    (c c' : Catalog)
    → set_target_status type id before version after c ≡ ok c'
    → (r : Reservation) → Homed c r
    → Homed c' r
unfolding set_target_status
set_target_status-Homed machine_target id before version after c c' e r h row found =
    let (_, _, e1) =
      >>=-eq-ok (guard (any (machine_fits id before version) c.machines) target_status_changed) _
        e in
    let parts =
      machine_changed-Parts c (machine_fits id before version) after r.resource_group_id
        row.machine_id
        (get_group-Parts _ r.resource_group_id row
          (subst (λ k. get_group k r.resource_group_id ≡ some row) (sym (ok_inj e1)) found)) in
    let (row', found', same) = Parts-get_group c r.resource_group_id row.machine_id parts in
    sym same ∙ h row' found'
set_target_status-Homed group_target id before version after c c' e r h row found =
    let (_, _, e1) =
      >>=-eq-ok (guard (any (group_fits id before version) c.groups) target_status_changed) _ e in
    let parts =
      group_changed-Parts c (group_fits id before version) after r.resource_group_id row.machine_id
        (get_group-Parts _ r.resource_group_id row
          (subst (λ k. get_group k r.resource_group_id ≡ some row) (sym (ok_inj e1)) found)) in
    let (row', found', same) = Parts-get_group c r.resource_group_id row.machine_id parts in
    sym same ∙ h row' found'
