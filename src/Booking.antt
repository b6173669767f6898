-- ===== src/Booking.antt =====
-- Reservations: server/scheduling.ts, with the reads of server/machine-access.ts and
-- server/reservation-policy.ts that guard them.
pub mod Access
pub mod Segment
pub mod Preview
pub mod Overlap
pub mod Commit
pub mod Slots
pub mod Usable
pub mod Admit
pub mod Insert
pub mod CommitSafe
pub mod Manage
pub mod ManageSafe
pub mod NewSlot
pub mod UpdateSafe
pub mod Replace
pub mod Later
pub mod Effects
pub mod Split
pub mod Succeed
pub mod Retire
pub mod ReplaceSafe
