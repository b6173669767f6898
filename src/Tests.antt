-- ===== src/Tests.antt =====
-- Runs of the operations on a small database, and the theorems applied there.
mod Data
mod Sweep
mod Book
mod Maintain
mod Change
mod Chain
mod Allocate
mod Draft
mod Project
mod Refresh
mod Limit
