-- ===== src/Tests/Catalog.antt =====
-- Products and warehouses (app/modules/products, app/modules/warehouses).
use dpg_business_app_starter.Base.{◌≡◌, refl, arith, none, some, false}
use dpg_business_app_starter.Database.{on_hand, set_balance, same_key}
use dpg_business_app_starter.Authorization.{require_permission}
use dpg_business_app_starter.Inventory.Statements.{available_key, damaged_key}
use dpg_business_app_starter.Catalog.Products.{ProductItem, stock_of_product, update_product}
use dpg_business_app_starter.Catalog.Products.Safety.{IsCatalog, archived_product_has_no_stock}
use dpg_business_app_starter.Catalog.Warehouses.{WarehouseItem}
use dpg_business_app_starter.Tests.Fixtures.{env, call, shop, product, warehouse, current}
use dpg_business_app_starter.Tests.Movements.{stocked}

-- Product 8 has no stock in the stocked shop, and warehouse 5 is empty.
abbrev archived : ProductItem
archived = record {
  id = 8;
  sku = "P8";
  name = "P8";
  cost = 2000000;
  sale_price = 5000000;
  active = false;
  created_at = 0;
  updated_at = 100;
}

archived_product_has_no_stock_example :
    let after =
      (update_product env call
        (current "admin")
        8
        none
        (some false)
        none
        none
        stocked).1.balances in
    (on_hand (available_key 1 8 4) after ≡ 0) × (on_hand (damaged_key 1 8 4) after ≡ 0)
unfolding update_product stock_of_product require_permission set_balance same_key
archived_product_has_no_stock_example =
    archived_product_has_no_stock env call (current "admin") 8 4 none (some false) none none stocked
      (product 8 "P8") (warehouse 4 "W4") archived refl refl refl refl refl

abbrev closed : WarehouseItem
closed = record {
  id = 5;
  code = "W5";
  name = "W5";
  active = false;
  created_at = 0;
  updated_at = 100;
}

shop-IsCatalog : IsCatalog shop.products
shop-IsCatalog = record { keyed = (refl, (refl, tt)); covered = (omega arith, (omega arith, tt)) }
