-- ===== src/Maintenance.antt =====
-- Planned maintenance and long-term disabling of a machine or a resource group, and what they do
-- to the reservations: server/unavailability.ts.
pub mod Target
pub mod Impact
pub mod Apply
pub mod Plan
pub mod Classify
pub mod Affected
pub mod Adjust
pub mod Rounds
pub mod Settle
pub mod PlanSafe
pub mod Effects
pub mod CancelWindow
pub mod Disable
pub mod Homes
pub mod DisableSafe
pub mod EnableSafe
