-- ===== src/Booking/NewSlot.antt =====
-- What the checks of updateReservation establish of the new times.
use allocube.Prelude.{
  ℕ, ◌≤◌, ◌<◌, ◌≡◌, refl, sym, subst, inl, inr, true, some, List, [], ◌∷◌, All-mono, arith,
}
use mathlib.Core.Bool.{false≢true}
use allocube.Store.{Db, Reservation, Window, Scope, machine, resource_group, current_minute}
use allocube.Store.Error.{ok, >>=-eq-ok, guard-true}
use allocube.Store.Rows.{GroupRow, get_group}
use allocube.Booking.Segment.{
  Segment, to_raw, parse_segment, normalize_segment_start, validate_segment_times,
}
use allocube.Booking.Overlap.{same_scope}
use allocube.Booking.Preview.{PreviewItem, preview_segment, preview_normalized}
use allocube.Booking.Slots.{RowClear, WindowClear, SlotClear}
use allocube.Booking.Usable.{Usable, ProperRows, validate-positive}
use allocube.Booking.Admit.{parse-to_raw, preview_normalized-available, preview_normalized-found}
use allocube.Booking.Manage.{check_change, check_new_slot}

-- A change that is let through keeps the target, and the times of what has begun.
pub record Changed (s : Segment) (r : Reservation) (current : ℕ) : Type 0 where
  pub group : s.resource_group_id ≡ r.resource_group_id
  pub scope : s.scope ≡ r.scope
  pub running : current < r.end_at
  pub begun : r.start_at ≤ current → (s.start_at ≡ r.start_at) × (s.end_at ≡ r.end_at)

same_scope→eq : (a b : Scope) → same_scope a b ≡ true → a ≡ b
same_scope→eq machine machine h = refl
same_scope→eq machine resource_group h = absurd (false≢true h)
same_scope→eq resource_group machine h = absurd (false≢true h)
same_scope→eq resource_group resource_group h = refl

pub check_change-Changed :
    (s : Segment) (r : Reservation) (current : ℕ) (u : Unit {0})
    → check_change s r current ≡ ok u
    → Changed s r current
unfolding check_change
check_change-Changed s r current u e = record {
  group = ground arith;
  scope = same_scope→eq s.scope r.scope (ground arith);
  running = ground arith;
  begun = λ h. ground arith;
}

-- The start that the preview uses lies at the new start or before.
normalize-bounds :
    (s : Segment) (minute : ℕ)
    → minute ≤ s.start_at
    → let n = normalize_segment_start s minute in
      (n.start_at ≤ s.start_at)
      × (n.end_at ≡ s.end_at)
      × (n.scope ≡ s.scope)
      × (n.resource_group_id ≡ s.resource_group_id)
unfolding normalize_segment_start
normalize-bounds s minute h = ground arith

RowClear-narrow :
    (g : GroupRow) (scope : Scope) (exclude : List ℕ) (lo hi lo' hi' : ℕ) (r : Reservation)
    → lo ≤ lo'
    → hi' ≤ hi
    → RowClear g scope exclude lo hi r
    → RowClear g scope exclude lo' hi' r
RowClear-narrow g scope exclude lo hi lo' hi' r p q c x k m f = elim (c x k m f) [
  | inl e ↦ inl (omega arith)
  | inr e ↦ inr (omega arith)
]

WindowClear-narrow :
    (g : GroupRow) (scope : Scope) (lo hi lo' hi' : ℕ) (w : Window)
    → lo ≤ lo'
    → hi' ≤ hi
    → WindowClear g scope lo hi w
    → WindowClear g scope lo' hi' w
WindowClear-narrow g scope lo hi lo' hi' w p q c k m f = elim (c k m f) [
  | inl e ↦ inl (omega arith)
  | inr e ↦ inr (omega arith)
]

-- A slot with its group: what the check of a new slot establishes.
pub record FreeFor (db : Db) (id : ℕ) (s : Segment) : Type 0 where
  pub positive : s.start_at < s.end_at
  pub group : GroupRow
  pub found : get_group db.catalog s.resource_group_id ≡ some group
  pub slot : SlotClear db group s.scope (id ∷ []) s.start_at s.end_at

normalized-FreeFor :
    (db : Db) (id minute : ℕ) (s : Segment) (g : GroupRow)
    → s.start_at < s.end_at
    → minute ≤ s.start_at
    → let n = normalize_segment_start s minute in
      get_group db.catalog n.resource_group_id ≡ some g → Usable db (id ∷ []) n → FreeFor db id s
normalized-FreeFor db id minute s g h m found u =
    let n = normalize_segment_start s minute in
    let same = normalize-bounds s minute m in
    let slot =
      subst (λ k. SlotClear db g k (id ∷ []) n.start_at n.end_at) same.2 (u.clear g found) in
    record {
      positive = h;
      group = g;
      found = subst (λ k. get_group db.catalog k ≡ some g) same.3 found;
      slot = record {
        rows =
            All-mono _ _ db.reservations
              (λ r.
                RowClear-narrow g s.scope (id ∷ []) n.start_at n.end_at s.start_at s.end_at r same.0
                  (omega (arith, same.1)))
              slot.rows;
        windows =
            All-mono _ _ db.windows
              (λ w.
                WindowClear-narrow g s.scope n.start_at n.end_at s.start_at s.end_at w same.0
                  (omega (arith, same.1)))
              slot.windows;
      };
    }

previewed_available :
    (db : Db) (proper : ProperRows db) (id minute : ℕ) (s : Segment) (item : PreviewItem)
    → preview_segment db (id ∷ []) minute (to_raw s) ≡ ok item
    → item.available ≡ true
    → ((g : GroupRow) × (get_group db.catalog (normalize_segment_start s minute).resource_group_id
          ≡ some g))
      × Usable db (id ∷ []) (normalize_segment_start s minute)
unfolding preview_segment
previewed_available db proper id minute s item e a =
    let (s', parsed, rest) = >>=-eq-ok (parse_segment (to_raw s)) _ e in
    let rest' =
      subst
        (λ k. preview_normalized db (id ∷ []) minute (normalize_segment_start k minute) ≡ ok item)
        (sym (parse-to_raw s s' parsed)) rest in
    (
      preview_normalized-found db proper (id ∷ []) minute (normalize_segment_start s minute) item
          rest' a,
      preview_normalized-available db proper (id ∷ []) minute (normalize_segment_start s minute)
          item rest' a,
    )

-- Both checks at one minute leave the new slot free.
pub check_new_slot-FreeFor :
    (db : Db) (proper : ProperRows db) (id validated_at previewed_at : ℕ) (s : Segment)
    (u : Unit {0})
    → current_minute previewed_at ≡ current_minute validated_at
    → check_new_slot db id validated_at previewed_at s ≡ ok u
    → FreeFor db id s
unfolding check_new_slot
check_new_slot-FreeFor db proper id validated_at previewed_at s u same e =
    let minute = current_minute previewed_at in
    let (u1, valid, e1) =
      >>=-eq-ok (validate_segment_times db.settings s (current_minute validated_at)) _ e in
    let (item, previewed, e2) = >>=-eq-ok (preview_segment db (id ∷ []) minute (to_raw s)) _ e1 in
    let bounds = validate-positive db s (current_minute validated_at) u1 valid in
    let (n, k) = previewed_available db proper id minute s item previewed (guard-true _ _ e2) in
    normalized-FreeFor db id minute s n.0 bounds.0 (subst (λ m. m ≤ s.start_at) (sym same) bounds.1)
      n.1 k
