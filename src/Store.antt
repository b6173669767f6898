-- ===== src/Store.antt =====
-- The tables of the database that the schedule reads and writes (server/schema.ts), the errors
-- that its operations throw, and the primitives of server/db.ts. An identifier is a number, a text
-- a list of UTF-16 code units, an instant a number of milliseconds.
pub mod Error
pub mod Rows
use allocube.Prelude.{
  ℕ, suc, ◌+◌, ◌*◌, ◌/◌, Bool, true, false, Option, none, some, List, [], ◌∷◌, ◌++◌, leb, ◌==◌,
  if◌then◌else◌, ◌&&◌,
}

abbrev pub Text : Type 0
Text = List ℕ

pub data Scope : Type 0 where
  resource_group machine : Scope

pub data StartMode : Type 0 where
  immediate scheduled : StartMode

pub data TargetStatus : Type 0 where
  active disabled : TargetStatus

pub data ReservationStatus : Type 0 where
  confirmed cancelled cancelled_unavailability : ReservationStatus

pub data WindowStatus : Type 0 where
  window_active window_cancelled : WindowStatus

pub data WindowKind : Type 0 where
  planned long_term : WindowKind

pub data Role : Type 0 where
  system_admin user : Role

pub data UserStatus : Type 0 where
  pending_approval changes_requested user_active user_disabled : UserStatus

pub data Adjustment : Type 0 where
  user_replaced adjusted_cancel trim_start trim_end split : Adjustment

abbrev pub is_machine : Scope → Bool
is_machine machine = true
is_machine resource_group = false

abbrev pub is_active : TargetStatus → Bool
is_active active = true
is_active disabled = false

abbrev pub is_confirmed : ReservationStatus → Bool
is_confirmed confirmed = true
is_confirmed cancelled = false
is_confirmed cancelled_unavailability = false

abbrev pub is_window_active : WindowStatus → Bool
is_window_active window_active = true
is_window_active window_cancelled = false

abbrev pub is_planned : WindowKind → Bool
is_planned planned = true
is_planned long_term = false

abbrev pub is_user_active : UserStatus → Bool
is_user_active user_active = true
is_user_active user_disabled = false
is_user_active pending_approval = false
is_user_active changes_requested = false

abbrev pub is_system_admin : Role → Bool
is_system_admin system_admin = true
is_system_admin user = false

-- `deleted` says that the tombstone table has a row for it.
pub record Machine : Type 0 where
  pub id : ℕ
  pub name : Text
  pub status : TargetStatus
  pub version : ℕ
  pub deleted : Bool

-- `allocations` is the text that JSON.stringify(loadGroupAllocations(id)) gives.
pub record Group : Type 0 where
  pub id : ℕ
  pub machine_id : ℕ
  pub name : Text
  pub status : TargetStatus
  pub version : ℕ
  pub deleted : Bool
  pub allocations : Text

pub record Reservation : Type 0 where
  pub id : ℕ
  pub batch_id : ℕ
  pub scope : Scope
  pub resource_group_id : ℕ
  pub machine_id : ℕ
  pub user_id : ℕ
  pub start_at : ℕ
  pub end_at : ℕ
  pub initial_start_at : ℕ
  pub initial_end_at : ℕ
  pub parent_reservation_id : Option ℕ
  pub adjusted_by_unavailability_id : Option ℕ
  pub adjustment_type : Option Adjustment
  pub adjustment_reason : Text
  pub title : Text
  pub purpose : Text
  pub note : Text
  pub status : ReservationStatus
  pub snapshot_group_name : Text
  pub snapshot_resource_config : Text
  pub snapshot_group_version : ℕ
  pub cancelled_at : Option ℕ
  pub cancelled_by : Option ℕ
  pub cancellation_reason : Text
  pub created_at : ℕ
  pub updated_at : ℕ

pub record Batch : Type 0 where
  pub id : ℕ
  pub user_id : ℕ
  pub created_at : ℕ

pub record Window : Type 0 where
  pub id : ℕ
  pub machine_id : ℕ
  pub resource_group_id : Option ℕ
  pub kind : WindowKind
  pub start_at : ℕ
  pub end_at : ℕ
  pub reason : Text
  pub status : WindowStatus
  pub created_by : ℕ
  pub cancelled_by : Option ℕ
  pub cancelled_at : Option ℕ
  pub created_at : ℕ

pub record User : Type 0 where
  pub id : ℕ
  pub role : Role
  pub status : UserStatus

pub record Membership : Type 0 where
  pub machine_id : ℕ
  pub user_id : ℕ
  pub expires_at : Option ℕ

-- What addAudit and createNotification are told, without texts and times.
pub data AuditAction : Type 0 where
  reservation_create reservation_update reservation_cancel reservation_end_early : AuditAction
  reservation_withdraw_first_minute reservation_replace reservation_access_expiry : AuditAction
  reservation_split_unavailability reservation_adjust_unavailability : AuditAction
  unavailability_create unavailability_cancel unavailability_interrupt_disable : AuditAction
  unavailability_cancel_disable resource_disable_window_create : AuditAction
  resource_disable_window_end disable_long_term_audit enable_audit : AuditAction

pub record Audit : Type 0 where
  pub actor : ℕ
  pub action : AuditAction
  pub entity_id : ℕ

pub data NoticeKind : Type 0 where
  reservation_cancelled reservation_released_by_manager resource_unavailability : NoticeKind

pub record Notice : Type 0 where
  pub user_id : ℕ
  pub kind : NoticeKind

pub record Settings : Type 0 where
  pub advance_days : ℕ
  pub block_admin_bookings : Bool

-- The machines and their resource groups.
pub record Catalog : Type 0 where
  pub machines : List Machine
  pub groups : List Group

pub record Db : Type 0 where
  pub catalog : Catalog
  pub users : List User
  pub memberships : List Membership
  pub settings : Settings
  pub batches : List Batch
  pub reservations : List Reservation
  pub windows : List Window
  pub revision : ℕ
  pub audits : List Audit
  pub notices : List Notice

-- What one call meets outside: `clock i` is the time that its `i`-th place which reads the clock
-- sees, `uuid i` its `i`-th random identifier, and `state_token` the digest of a row (node:crypto).
pub record Env : Type 0 where
  pub clock : ℕ → ℕ
  pub uuid : ℕ → ℕ
  pub state_token : Reservation → ℕ

abbrev pub minute_ms : ℕ
minute_ms = 60000

abbrev pub day_ms : ℕ
day_ms = 86400000

-- currentMinuteIso(now)
unfoldable pub current_minute : ℕ → ℕ
current_minute now = now / minute_ms * minute_ms

-- addAudit, without the time and the identifier of the audit row.
unfoldable pub add_audit : ℕ → AuditAction → ℕ → Db → Db
add_audit actor action entity db = record db {
  audits = db.audits ++ record { actor = actor; action = action; entity_id = entity } ∷ [];
}

-- createNotification, of which server/mailer.ts decides what is sent.
unfoldable pub create_notification : ℕ → NoticeKind → Db → Db
create_notification to kind db = record db {
  notices = db.notices ++ record { user_id = to; kind = kind } ∷ [];
}

-- bumpScheduleRevision
unfoldable pub bump_schedule_revision : Db → Db
bump_schedule_revision db = record db { revision = suc db.revision }
