-- ===== src/Tests/System.antt =====
-- A run of the whole program from the empty tables: an organization is bootstrapped, gets a product
-- and a warehouse, and receives stock.
use dpg_business_app_starter.Database.{holds_texts}
use dpg_business_app_starter.Database.{holds_text}
use dpg_business_app_starter.Base.{◌+◌, ◌≡◌, refl, arith, none, some, List, sum_by, is_blank}
use dpg_business_app_starter.Database.{
  Db, available, damaged, receipt, credited, set_balance, same_key,
}
use dpg_business_app_starter.Authorization.{CurrentMembership, require_permission}
use dpg_business_app_starter.Inventory.Movement.{record_stock_movement}
use dpg_business_app_starter.Inventory.UseCases.{
  RecordManualMovementCommand, record_manual_stock_movement,
}
use dpg_business_app_starter.Inventory.Queries.{
  StockPosition, MovementHistoryItem, get_stock_position,
}
use dpg_business_app_starter.Inventory.Queries.Histories.{received_in, issued_in, read_movements}
use dpg_business_app_starter.Catalog.Products.{create_product}
use dpg_business_app_starter.Catalog.Warehouses.{create_warehouse}
use dpg_business_app_starter.Accounts.Organizations.{
  is_bootstrap_valid, bootstrap_transaction, bootstrap_organization,
}
use dpg_business_app_starter.System.{
  Run, idle, movement, new_product, new_warehouse, bootstrap, empty_db, IsSound,
}
use dpg_business_app_starter.System.Reachable.{Run-IsSound, reachable_position_explained}
use dpg_business_app_starter.Tests.Fixtures.{env, call_at}

abbrev founded : Db
founded = (bootstrap_organization env (call_at 100) "shop" "ann@shop" "a long password" empty_db).1

abbrev ann : CurrentMembership
ann = record { organization_id = 100; user_id = 101; role = "admin" }

abbrev with_product : Db
with_product = (create_product env (call_at 200) ann "P" "Product" 2000000 5000000 founded).1

abbrev with_warehouse : Db
with_warehouse = (create_warehouse env (call_at 300) ann "W" "Warehouse" with_product).1

abbrev delivery : RecordManualMovementCommand
delivery = record {
  organization_id = 100;
  product_id = 200;
  warehouse_id = 300;
  movement_type = receipt;
  quantity = 10;
  reason = "delivery";
  idempotency_key = "d";
  reference = none;
}

abbrev delivered : Db
delivered = (record_manual_stock_movement env (call_at 400) ann delivery with_warehouse).1

opened_run : Run env empty_db with_warehouse
unfolding bootstrap_organization bootstrap_transaction is_bootstrap_valid holds_text
opened_run = new_warehouse (call_at 300) ann "W" "Warehouse" (
    new_product (call_at 200) ann "P" "Product" 2000000 5000000 refl
      (bootstrap (call_at 100) "shop" "ann@shop" "a long password" idle))

delivered_run : Run env empty_db delivered
delivered_run = movement (call_at 400) ann delivery opened_run opened_run

Run-IsSound_example : IsSound delivered
Run-IsSound_example = Run-IsSound env delivered delivered_run

abbrev on_shelf : StockPosition
on_shelf = record { product_id = 200; warehouse_id = 300; quantity = 10; damaged_quantity = 0 }

reachable_position_explained_example :
    (items : List MovementHistoryItem) × (read_movements ann 200 300 1 delivered ≡ some items)
    × (sum_by (received_in available) items ≡ sum_by (issued_in available) items + 10)
    × (sum_by (received_in damaged) items ≡ sum_by (issued_in damaged) items + 0)
unfolding bootstrap_organization bootstrap_transaction create_product create_warehouse
    record_manual_stock_movement record_stock_movement require_permission get_stock_position
    credited set_balance same_key is_blank holds_text holds_texts
reachable_position_explained_example =
    reachable_position_explained env delivered ann 200 300 1 on_shelf delivered_run (refl, tt)
      (omega arith) refl
