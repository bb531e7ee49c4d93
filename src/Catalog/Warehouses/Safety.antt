-- ===== src/Catalog/Warehouses/Safety.antt =====
-- When a warehouse can be archived (app/modules/warehouses/use_cases.py).
use dpg_business_app_starter.Base.{
  ℕ, ◌≡◌, ◌≤◌, arith, inl, inr, String, Option, some, Bool, true, false, List, [], ◌∷◌, ◌==◌, ◌&&◌,
  find, sum_by, if◌then◌else◌,
}
use dpg_business_app_starter.Database.{
  Db, ok, Environment, Call, Product, Warehouse, on_hand, catalog_manage,
}
use dpg_business_app_starter.Database.Laws.{Result-cases}
use dpg_business_app_starter.Authorization.{CurrentMembership, require_permission}
use dpg_business_app_starter.Inventory.Statements.{
  available_key, damaged_key, product_row, warehouse_row,
}
use dpg_business_app_starter.Catalog.Products.{stock_at}
use dpg_business_app_starter.Catalog.Warehouses.{WarehouseItem, update_warehouse}

-- A row of the sum is at most the sum.
stock_of_warehouse-bound :
    (organization product warehouse : ℕ) (db : Db) (ps : List Product) (p : Product)
    → find (λ p. p.organization_id == organization && p.id == product) ps ≡ some p
    → stock_at organization product warehouse db
      ≤ sum_by
          (λ p.
            if p.organization_id == organization
            then stock_at organization p.id warehouse db
            else 0)
          ps
stock_of_warehouse-bound organization product warehouse db [] p h = cc
stock_of_warehouse-bound organization product warehouse db (q ∷ ps) p h =
    ground (arith, stock_of_warehouse-bound organization product warehouse db ps p)

module _ (env : Environment) (call : Call) (m : CurrentMembership) where
  -- A warehouse that an update archives holds no stock, available or damaged, of any product of the
  -- organization.
  archived_warehouse_is_empty :
      (id product : ℕ) (name : Option String) (active : Option Bool) (db : Db) (w : Warehouse)
      (p : Product) (item : WarehouseItem)
      → warehouse_row m.organization_id id db ≡ some w
      → w.active ≡ true
      → product_row m.organization_id product db ≡ some p
      → (update_warehouse env call m id name active db).0 ≡ ok item
      → item.active ≡ false
      → (on_hand
            (available_key m.organization_id product id)
            (update_warehouse env call m id name active db).1.balances
          ≡ 0)
        × (on_hand
              (damaged_key m.organization_id product id)
              (update_warehouse env call m id name active db).1.balances
            ≡ 0)
  unfolding update_warehouse
  archived_warehouse_is_empty id product name active db w p item f a g h n =
      elim (Result-cases (require_permission m catalog_manage)) [
        | inr (e, r) ↦ absurd (ground arith)
        | inl (u, r) ↦
            ground (arith, stock_of_warehouse-bound m.organization_id product id db db.products p g)
      ]
