-- ===== src/Inventory/Queries.antt =====
-- The queries of app/modules/inventory/use_cases.py: the stock position of a product in a warehouse
-- and the histories of its movements and transfers.
pub mod Histories
use dpg_business_app_starter.Base.{
  ℕ, String, Bool, Option, some, none, true, not, ◌&&◌, ◌||◌, ◌==◌, List, any, find, is_some,
  get_or, if◌then◌else◌,
}
use dpg_business_app_starter.Database.{
  Db, Result, ok, err, Product, Warehouse, User, StockMovement, StockTransfer, StockCondition,
  MovementType, inventory_read, inventory_context_not_found, invalid_movement_cursor, on_hand,
}
use dpg_business_app_starter.Database.Pages.{Page, fetch, newest_first}
use dpg_business_app_starter.Authorization.{CurrentMembership, allowed}
use dpg_business_app_starter.Inventory.Statements.{available_key, damaged_key, warehouse_row}

pub record StockPosition : Type 0 where
  pub product_id : ℕ
  pub warehouse_id : ℕ
  pub quantity : ℕ
  pub damaged_quantity : ℕ

pub record MovementHistoryItem : Type 0 where
  pub id : ℕ
  pub performed_by_id : ℕ
  pub movement_type : MovementType
  pub quantity : ℕ
  pub balance_after : ℕ
  pub reason : String
  pub reference : Option String
  pub stock_condition : StockCondition
  pub created_at : ℕ

pub record TransferHistoryItem : Type 0 where
  pub id : ℕ
  pub product_id : ℕ
  pub source_warehouse_id : ℕ
  pub source_warehouse_name : String
  pub destination_warehouse_id : ℕ
  pub destination_warehouse_name : String
  pub performed_by_id : ℕ
  pub performed_by_email : String
  pub quantity : ℕ
  pub source_balance_after : ℕ
  pub destination_balance_after : ℕ
  pub reason : String
  pub reference : Option String
  pub created_at : ℕ

-- The two `exists` queries: whether the organization has the product and the warehouse.
unfoldable pub has_inventory_context : ℕ → ℕ → ℕ → Db → Bool
has_inventory_context organization product warehouse db =
    any (λ p. p.organization_id == organization && p.id == product) db.products
    && any (λ w. w.organization_id == organization && w.id == warehouse) db.warehouses

module _ {A : Type 0} where
  -- `_require_inventory_context` in front of a query.
  unfoldable in_inventory_context : ℕ → ℕ → ℕ → Db → Result A → Result A
  unfolding has_inventory_context
  in_inventory_context organization product warehouse db result =
      if not (has_inventory_context organization product warehouse db)
      then err inventory_context_not_found
      else result

abbrev pub movement_item : StockMovement → MovementHistoryItem
movement_item m = record {
  id = m.id;
  performed_by_id = m.performed_by_id;
  movement_type = m.movement_type;
  quantity = m.quantity;
  balance_after = m.balance_after;
  reason = m.reason;
  reference = m.reference;
  stock_condition = m.stock_condition;
  created_at = m.created_at;
}

abbrev user_row : ℕ → Db → Option User
user_row user db = find (λ u. u.id == user) db.users

-- What the inner joins of a transfer with its warehouses and its performer keep.
abbrev pub transfer_joined : Db → StockTransfer → Bool
transfer_joined db t =
    is_some (warehouse_row t.organization_id t.source_warehouse_id db)
    && is_some (warehouse_row t.organization_id t.destination_warehouse_id db)
    && is_some (user_row t.performed_by_id db)

abbrev warehouse_name : Option Warehouse → String
warehouse_name none = ""
warehouse_name (some w) = w.name

abbrev user_email : Option User → String
user_email none = ""
user_email (some u) = u.email

-- The columns of a joined row; each of the joins finds a row.
abbrev pub transfer_item : Db → StockTransfer → TransferHistoryItem
transfer_item db t = record {
  id = t.id;
  product_id = t.product_id;
  source_warehouse_id = t.source_warehouse_id;
  source_warehouse_name = warehouse_name (warehouse_row t.organization_id t.source_warehouse_id db);
  destination_warehouse_id = t.destination_warehouse_id;
  destination_warehouse_name =
      warehouse_name (warehouse_row t.organization_id t.destination_warehouse_id db);
  performed_by_id = t.performed_by_id;
  performed_by_email = user_email (user_row t.performed_by_id db);
  quantity = t.quantity;
  source_balance_after = t.source_balance_after;
  destination_balance_after = t.destination_balance_after;
  reason = t.reason;
  reference = t.reference;
  created_at = t.created_at;
}

module _ (m : CurrentMembership) where
  unfoldable pub get_stock_position : (product_id warehouse_id : ℕ) → Db → Result StockPosition
  unfolding allowed in_inventory_context
  get_stock_position product_id warehouse_id db = allowed m inventory_read (
      in_inventory_context m.organization_id product_id warehouse_id db (
        ok (record {
          product_id = product_id;
          warehouse_id = warehouse_id;
          quantity = on_hand (available_key m.organization_id product_id warehouse_id) db.balances;
          damaged_quantity =
              on_hand (damaged_key m.organization_id product_id warehouse_id) db.balances;
        })))

  abbrev pub movement_filters : (product_id warehouse_id : ℕ) → StockMovement → Bool
  movement_filters product_id warehouse_id s =
      s.organization_id == m.organization_id
      && s.product_id == product_id
      && s.warehouse_id == warehouse_id

  abbrev pub newest_movement : StockMovement → StockMovement → Bool
  newest_movement = newest_first (λ s. s.created_at) (λ s. s.id)

  unfoldable pub list_stock_movements :
      (product_id warehouse_id limit : ℕ) (cursor : Option ℕ)
      → Db
      → Result (Page MovementHistoryItem)
  unfolding allowed in_inventory_context fetch
  list_stock_movements product_id warehouse_id limit cursor db = allowed m inventory_read (
      in_inventory_context m.organization_id product_id warehouse_id db (
        fetch (λ s. s.id) newest_movement movement_item (movement_filters product_id warehouse_id)
          (λ s. true) invalid_movement_cursor limit cursor db.movements))

  abbrev pub transfer_filters : (product_id warehouse_id : ℕ) → StockTransfer → Bool
  transfer_filters product_id warehouse_id t =
      t.organization_id == m.organization_id
      && t.product_id == product_id
      && (t.source_warehouse_id == warehouse_id || t.destination_warehouse_id == warehouse_id)

  abbrev pub newest_transfer : StockTransfer → StockTransfer → Bool
  newest_transfer = newest_first (λ t. t.created_at) (λ t. t.id)

  unfoldable pub list_stock_transfers :
      (product_id warehouse_id limit : ℕ) (cursor : Option ℕ)
      → Db
      → Result (Page TransferHistoryItem)
  unfolding allowed in_inventory_context fetch
  list_stock_transfers product_id warehouse_id limit cursor db = allowed m inventory_read (
      in_inventory_context m.organization_id product_id warehouse_id db (
        fetch (λ t. t.id) newest_transfer (transfer_item db)
          (transfer_filters product_id warehouse_id) (transfer_joined db) invalid_movement_cursor
          limit cursor db.transfers))
