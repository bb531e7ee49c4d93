-- ===== src/Sales.antt =====
-- The sales service (app/modules/sales/service.py) and the returns service
-- (app/modules/sales/returns_service.py).
pub mod Commands
pub mod Pricing
pub mod Approval
pub mod Checkout
pub mod Returns
pub mod RoundTrip
pub mod UseCases
pub mod Queries
