-- ===== src/Tests/Policy.antt =====
-- Roles and permissions (app/core/authorization.py).
use dpg_business_app_starter.Base.{◌≡◌, ◌↔◌, ◌⊎◌}
use dpg_business_app_starter.Database.{ok, inventory_transfer}
use dpg_business_app_starter.Authorization.{require_permission}
use dpg_business_app_starter.Authorization.Policy.{ForManager, ForSales, permission_granted_iff}
use dpg_business_app_starter.Tests.Fixtures.{current}

permission_granted_iff_example :
    (require_permission (current "warehouse_manager") inventory_transfer ≡ ok tt) ↔ (
      ((current "warehouse_manager").role ≡ "admin")
      ⊎ (((current "warehouse_manager").role ≡ "warehouse_manager") × ForManager inventory_transfer)
      ⊎ (((current "warehouse_manager").role ≡ "salesperson") × ForSales inventory_transfer))
permission_granted_iff_example =
    permission_granted_iff (current "warehouse_manager") inventory_transfer
