-- ===== src/Inventory.antt =====
-- The inventory service (app/modules/inventory/service.py).
pub mod Statements
pub mod Ledger
pub mod Movement
pub mod Transfer
pub mod UseCases
pub mod Queries
