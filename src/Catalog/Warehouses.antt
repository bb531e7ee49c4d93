-- ===== src/Catalog/Warehouses.antt =====
-- `create_warehouse` and `update_warehouse` of app/modules/warehouses/use_cases.py.
pub mod Safety
pub mod Queries
use dpg_business_app_starter.Base.{
  ℕ, ◌+◌, String, Option, none, some, Bool, true, ◌&&◌, ◌==◌, ◌∷◌, str_eq, ltb, any, sum_by,
  update_where, get_or, strip, if◌then◌else◌,
}
use dpg_business_app_starter.Database.{
  Db, Tx, Result, ok, err, Environment, Call, Warehouse, catalog_manage, integrity_error,
  uq_warehouses_organization_code, warehouse_code_conflict, warehouse_not_found,
  warehouse_has_stock, gets, modify, require, raise_if, pure, ◌>>=◌, ◌>>◌, begin,
}
use dpg_business_app_starter.Authorization.{CurrentMembership}
use dpg_business_app_starter.Inventory.Statements.{warehouse_row}
use dpg_business_app_starter.Inventory.UseCases.{permitted}
use dpg_business_app_starter.Catalog.Products.{stock_at, is_false}

pub record WarehouseItem : Type 0 where
  pub id : ℕ
  pub code : String
  pub name : String
  pub active : Bool
  pub created_at : ℕ
  pub updated_at : ℕ

abbrev pub warehouse_item : Warehouse → WarehouseItem
warehouse_item w = record {
  id = w.id;
  code = w.code;
  name = w.name;
  active = w.active;
  created_at = w.created_at;
  updated_at = w.updated_at;
}

-- The insert of a warehouse, with the constraint that it can violate.
unfoldable insert_warehouse : Warehouse → Tx (Unit {0})
insert_warehouse w = do
  taken ← gets (λ db.
      any (λ v. v.organization_id == w.organization_id && str_eq v.code w.code) db.warehouses)
  raise_if taken (integrity_error uq_warehouses_organization_code)
  modify (λ db. record db { warehouses = w ∷ db.warehouses })

module _ {A : Type 0} where
  -- `except IntegrityError`, for the constraint of the code.
  abbrev code_conflict : Result A × Db → Result A × Db
  code_conflict (err (integrity_error uq_warehouses_organization_code), db) =
      (err warehouse_code_conflict, db)
  code_conflict out = out

-- The sum over the stock rows of a warehouse: each of them refers to a product of its organization.
unfoldable stock_of_warehouse : ℕ → ℕ → Db → ℕ
stock_of_warehouse organization warehouse db =
    sum_by
      (λ p.
        if p.organization_id == organization then stock_at organization p.id warehouse db else 0)
      db.products

module _ (env : Environment) (call : Call) (m : CurrentMembership) where
  abbrev new_warehouse : String → String → Warehouse
  new_warehouse code name = record {
    id = call.uuid4 0;
    organization_id = m.organization_id;
    code = env.upper (strip code);
    name = strip name;
    active = true;
    created_at = call.now;
    updated_at = call.now;
  }

  unfoldable pub create_warehouse : (code name : String) → Db → Result WarehouseItem × Db
  unfolding permitted begin insert_warehouse
  create_warehouse code name = permitted m catalog_manage (λ db. code_conflict (
      begin
        (do
          insert_warehouse (new_warehouse code name)
          pure (warehouse_item (new_warehouse code name)))
        db))

  -- The values that an update sets.
  abbrev changed_warehouse : Option String → Option Bool → Warehouse → Warehouse
  changed_warehouse name active w = record w {
    name = elim name [ none ↦ w.name | some text ↦ strip text ];
    active = get_or active w.active;
    updated_at = call.now;
  }

  unfoldable pub update_warehouse :
      (warehouse_id : ℕ) (name : Option String) (active : Option Bool)
      → Db
      → Result WarehouseItem × Db
  unfolding permitted begin stock_of_warehouse
  update_warehouse warehouse_id name active = permitted m catalog_manage (
      begin do
        current ← gets (warehouse_row m.organization_id warehouse_id)
        w ← require current warehouse_not_found
        quantity ← gets (stock_of_warehouse m.organization_id warehouse_id)
        raise_if (is_false active && w.active && ltb 0 quantity) warehouse_has_stock
        modify (λ db. record db {
          warehouses =
              update_where (λ v. v.organization_id == m.organization_id && v.id == warehouse_id)
                (changed_warehouse name active) db.warehouses;
        })
        pure (warehouse_item (changed_warehouse name active w)))
