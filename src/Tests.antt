-- ===== src/Tests.antt =====
-- Runs of the services of app/modules on a small shop, and the theorems applied to them.
mod Fixtures
mod Policy
mod Movements
mod Transfers
mod Approvals
mod Sales
mod Returns
mod Catalog
mod Queries
mod System
mod Accounts
mod Http
