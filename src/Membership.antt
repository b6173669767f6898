-- ===== src/Membership.antt =====
-- What the loss or the shortening of a member's access to a machine does to the reservations:
-- trimMachineAccessReservations and releaseMachineResources of server/machine-access.ts.
pub mod Release
pub mod ReleaseSafe
