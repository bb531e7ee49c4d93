-- ===== src/Catalog/Warehouses/Queries.antt =====
-- The queries of app/modules/warehouses/use_cases.py.
use dpg_business_app_starter.Base.{
  ℕ, suc, ◌<◌, ◌≡◌, arith, String, Bool, true, ◌&&◌, ◌||◌, ◌==◌, str_eq, search_pattern, Option,
  none, some, keep, length,
}
use dpg_business_app_starter.Database.{
  Db, Result, ok, err, Environment, Warehouse, inventory_read, invalid_warehouse_cursor,
  warehouse_not_found,
}
use dpg_business_app_starter.Database.Pages.{Page, fetch, oldest_first}
use dpg_business_app_starter.Database.Pages.Order.{HasIds, oldest_first-IsListing}
use dpg_business_app_starter.Database.Pages.Walk.{read_pages}
use dpg_business_app_starter.Database.Pages.Complete.{ReadsAll, keep_unjoined, reads_all}
use dpg_business_app_starter.Authorization.{CurrentMembership, require_permission, allowed}
use dpg_business_app_starter.Inventory.Statements.{warehouse_row}
use dpg_business_app_starter.Catalog.Warehouses.{WarehouseItem, warehouse_item}

-- `if search:` and the two patterns.
unfoldable pub matches_search : Environment → Option String → Warehouse → Bool
unfolding search_pattern
matches_search env none row = true
matches_search env (some search) row =
    str_eq search ""
    || env.ilike row.code (search_pattern search)
    || env.ilike row.name (search_pattern search)

abbrev oldest_warehouse : Warehouse → Warehouse → Bool
oldest_warehouse = oldest_first (λ p. p.created_at) (λ p. p.id)

module _ (env : Environment) (m : CurrentMembership) where
  abbrev warehouse_filters : (include_inactive : Bool) (search : Option String) → Warehouse → Bool
  warehouse_filters include_inactive search row =
      row.organization_id == m.organization_id
      && (include_inactive || row.active)
      && matches_search env search row

  unfoldable list_warehouses :
      (limit : ℕ) (cursor : Option ℕ) (include_inactive : Bool) (search : Option String)
      → Db
      → Result (Page WarehouseItem)
  unfolding allowed fetch matches_search
  list_warehouses limit cursor include_inactive search db = allowed m inventory_read (
      fetch (λ p. p.id) oldest_warehouse warehouse_item (warehouse_filters include_inactive search)
        (λ p. true) invalid_warehouse_cursor limit cursor db.warehouses)

  -- A member with the permission to read the inventory, who follows the cursors with pages of a
  -- positive size, reads every warehouse of their organization that passes the filters exactly once, the
  -- oldest first, if the ids of the warehouses are different.
  warehouse_list_complete :
      (limit : ℕ) (include_inactive : Bool) (search : Option String) (db : Db)
      → require_permission m inventory_read ≡ ok tt
      → 0 < limit
      → HasIds (λ p. p.id) db.warehouses
      → ReadsAll
          (λ p. p.id)
          oldest_warehouse
          warehouse_item
          (read_pages
            (suc (length (keep (warehouse_filters include_inactive search) db.warehouses)))
            (λ cursor. list_warehouses limit cursor include_inactive search db)
            none)
          (keep (warehouse_filters include_inactive search) db.warehouses)
  unfolding list_warehouses
  warehouse_list_complete limit include_inactive search db p pos unique =
      reads_all (λ p. p.id) oldest_warehouse warehouse_item
        (warehouse_filters include_inactive search) (λ p. true) invalid_warehouse_cursor limit
        db.warehouses (keep (warehouse_filters include_inactive search) db.warehouses)
        (λ cursor. list_warehouses limit cursor include_inactive search db)
        (oldest_first-IsListing (λ p. p.created_at) (λ p. p.id)) unique pos
        (keep_unjoined (λ p. p.id) oldest_warehouse (warehouse_filters include_inactive search)
          db.warehouses)
        (λ cursor. ground arith)

unfoldable get_warehouse : CurrentMembership → (warehouse_id : ℕ) → Db → Result WarehouseItem
unfolding allowed
get_warehouse m warehouse_id db =
    allowed m inventory_read (elim (warehouse_row m.organization_id warehouse_id db) [
      | none ↦ err warehouse_not_found
      | some row ↦ ok (warehouse_item row)
    ])
