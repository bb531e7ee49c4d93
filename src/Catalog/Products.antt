-- ===== src/Catalog/Products.antt =====
-- `create_product` and `update_product` of app/modules/products/use_cases.py.
pub mod Safety
pub mod Queries
pub mod RoundTrip
use dpg_business_app_starter.Base.{
  ℕ, ◌+◌, String, Option, none, some, Bool, true, false, not, ◌&&◌, ◌==◌, List, ◌∷◌, str_eq, ltb,
  any, sum_by, update_where, get_or, strip, if◌then◌else◌,
}
use dpg_business_app_starter.Database.{
  Db, Tx, Result, ok, err, Error, Environment, Call, Product, Warehouse, on_hand, catalog_manage,
  integrity_error, uq_products_organization_sku, ck_products_price_not_below_cost,
  product_sku_conflict, product_not_found, product_has_stock, product_price_below_cost, gets,
  modify, require, raise_if, pure, ◌>>=◌, ◌>>◌, begin,
}
use dpg_business_app_starter.Authorization.{CurrentMembership}
use dpg_business_app_starter.Inventory.Statements.{available_key, damaged_key, product_row}
use dpg_business_app_starter.Inventory.UseCases.{permitted}

pub record ProductItem : Type 0 where
  pub id : ℕ
  pub sku : String
  pub name : String
  pub cost : ℕ
  pub sale_price : ℕ
  pub active : Bool
  pub created_at : ℕ
  pub updated_at : ℕ

abbrev pub product_item : Product → ProductItem
product_item p = record {
  id = p.id;
  sku = p.sku;
  name = p.name;
  cost = p.cost;
  sale_price = p.sale_price;
  active = p.active;
  created_at = p.created_at;
  updated_at = p.updated_at;
}

-- The insert of a product, with the constraints that it can violate.
unfoldable pub insert_product : Product → Tx (Unit {0})
insert_product p = do
  raise_if (ltb p.sale_price p.cost) (integrity_error ck_products_price_not_below_cost)
  taken ←
      gets
        (λ db. any (λ q. q.organization_id == p.organization_id && str_eq q.sku p.sku) db.products)
  raise_if taken (integrity_error uq_products_organization_sku)
  modify (λ db. record db { products = p ∷ db.products })

module _ {A : Type 0} where
  -- `except IntegrityError`, for the constraint of the SKU.
  abbrev sku_conflict : Result A × Db → Result A × Db
  sku_conflict (err (integrity_error uq_products_organization_sku), db) =
      (err product_sku_conflict, db)
  sku_conflict out = out

-- The sum over the stock rows at a key's product and warehouse.
abbrev pub stock_at : ℕ → ℕ → ℕ → Db → ℕ
stock_at organization product warehouse db =
    on_hand (available_key organization product warehouse) db.balances
    + on_hand (damaged_key organization product warehouse) db.balances

-- The sum over the stock rows of a product: each of them refers to a warehouse of its organization.
unfoldable pub stock_of_product : ℕ → ℕ → Db → ℕ
stock_of_product organization product db =
    sum_by
      (λ w. if w.organization_id == organization then stock_at organization product w.id db else 0)
      db.warehouses

-- `active is False`
abbrev pub is_false : Option Bool → Bool
is_false none = false
is_false (some active) = not active

module _ (env : Environment) (call : Call) (m : CurrentMembership) where
  abbrev pub new_product : String → String → ℕ → ℕ → Product
  new_product sku name cost sale_price = record {
    id = call.uuid4 0;
    organization_id = m.organization_id;
    sku = env.upper (strip sku);
    name = strip name;
    cost = cost;
    sale_price = sale_price;
    active = true;
    created_at = call.now;
    updated_at = call.now;
  }

  unfoldable pub create_product :
      (sku name : String) (cost sale_price : ℕ) → Db → Result ProductItem × Db
  unfolding permitted begin insert_product
  create_product sku name cost sale_price = permitted m catalog_manage (λ db. sku_conflict (
      begin
        (do
          insert_product (new_product sku name cost sale_price)
          pure (product_item (new_product sku name cost sale_price)))
        db))

  -- The values that an update sets.
  abbrev pub changed_product : Option String → Option Bool → Option ℕ → Option ℕ → Product → Product
  changed_product name active cost sale_price p = record p {
    name = elim name [ none ↦ p.name | some text ↦ strip text ];
    active = get_or active p.active;
    cost = get_or cost p.cost;
    sale_price = get_or sale_price p.sale_price;
    updated_at = call.now;
  }

  unfoldable pub update_product :
      (product_id : ℕ) (name : Option String) (active : Option Bool) (cost sale_price : Option ℕ)
      → Db
      → Result ProductItem × Db
  unfolding permitted begin stock_of_product
  update_product product_id name active cost sale_price = permitted m catalog_manage (
      begin do
        current ← gets (product_row m.organization_id product_id)
        p ← require current product_not_found
        quantity ← gets (stock_of_product m.organization_id product_id)
        raise_if (is_false active && p.active && ltb 0 quantity) product_has_stock
        raise_if (ltb (get_or sale_price p.sale_price) (get_or cost p.cost))
            product_price_below_cost
        modify (λ db. record db {
          products =
              update_where (λ q. q.organization_id == m.organization_id && q.id == product_id)
                (changed_product name active cost sale_price) db.products;
        })
        pure (product_item (changed_product name active cost sale_price p)))
