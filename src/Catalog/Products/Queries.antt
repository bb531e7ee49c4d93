-- ===== src/Catalog/Products/Queries.antt =====
-- The queries of app/modules/products/use_cases.py.
use dpg_business_app_starter.Base.{
  ℕ, suc, ◌<◌, ◌≡◌, arith, String, Bool, true, ◌&&◌, ◌||◌, ◌==◌, str_eq, search_pattern, Option,
  none, some, keep, length,
}
use dpg_business_app_starter.Database.{
  Db, Result, ok, err, Environment, Product, inventory_read, invalid_product_cursor,
  product_not_found,
}
use dpg_business_app_starter.Database.Pages.{Page, fetch, oldest_first}
use dpg_business_app_starter.Database.Pages.Order.{HasIds, oldest_first-IsListing}
use dpg_business_app_starter.Database.Pages.Walk.{read_pages}
use dpg_business_app_starter.Database.Pages.Complete.{ReadsAll, keep_unjoined, reads_all}
use dpg_business_app_starter.Authorization.{CurrentMembership, require_permission, allowed}
use dpg_business_app_starter.Inventory.Statements.{product_row}
use dpg_business_app_starter.Catalog.Products.{ProductItem, product_item}

-- `if search:` and the two patterns.
unfoldable pub matches_search : Environment → Option String → Product → Bool
unfolding search_pattern
matches_search env none row = true
matches_search env (some search) row =
    str_eq search ""
    || env.ilike row.sku (search_pattern search)
    || env.ilike row.name (search_pattern search)

abbrev pub oldest_product : Product → Product → Bool
oldest_product = oldest_first (λ p. p.created_at) (λ p. p.id)

module _ (env : Environment) (m : CurrentMembership) where
  abbrev product_filters : (include_inactive : Bool) (search : Option String) → Product → Bool
  product_filters include_inactive search row =
      row.organization_id == m.organization_id
      && (include_inactive || row.active)
      && matches_search env search row

  unfoldable pub list_products :
      (limit : ℕ) (cursor : Option ℕ) (include_inactive : Bool) (search : Option String)
      → Db
      → Result (Page ProductItem)
  unfolding allowed fetch matches_search
  list_products limit cursor include_inactive search db = allowed m inventory_read (
      fetch (λ p. p.id) oldest_product product_item (product_filters include_inactive search)
        (λ p. true) invalid_product_cursor limit cursor db.products)

  -- A member with the permission to read the inventory, who follows the cursors with pages of a
  -- positive size, reads every product of their organization that passes the filters exactly once, the
  -- oldest first, if the ids of the products are different.
  pub product_list_complete :
      (limit : ℕ) (include_inactive : Bool) (search : Option String) (db : Db)
      → require_permission m inventory_read ≡ ok tt
      → 0 < limit
      → HasIds (λ p. p.id) db.products
      → ReadsAll
          (λ p. p.id)
          oldest_product
          product_item
          (read_pages
            (suc (length (keep (product_filters include_inactive search) db.products)))
            (λ cursor. list_products limit cursor include_inactive search db)
            none)
          (keep (product_filters include_inactive search) db.products)
  unfolding list_products
  product_list_complete limit include_inactive search db p pos unique =
      reads_all (λ p. p.id) oldest_product product_item (product_filters include_inactive search)
        (λ p. true) invalid_product_cursor limit db.products
        (keep (product_filters include_inactive search) db.products)
        (λ cursor. list_products limit cursor include_inactive search db)
        (oldest_first-IsListing (λ p. p.created_at) (λ p. p.id)) unique pos
        (keep_unjoined (λ p. p.id) oldest_product (product_filters include_inactive search)
          db.products)
        (λ cursor. ground arith)

unfoldable pub get_product : CurrentMembership → (product_id : ℕ) → Db → Result ProductItem
unfolding allowed
get_product m product_id db =
    allowed m inventory_read (elim (product_row m.organization_id product_id db) [
      | none ↦ err product_not_found
      | some row ↦ ok (product_item row)
    ])
