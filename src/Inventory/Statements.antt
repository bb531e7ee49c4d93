-- ===== src/Inventory/Statements.antt =====
-- The statements on `stock_balances` and `stock_movements` that the services of
-- app/modules/inventory and app/modules/sales share.
use dpg_business_app_starter.Base.{
  ℕ, String, none, some, not, any, ◌==◌, ◌&&◌, str_eq, ◌∷◌, Option, Bool, find,
}
use dpg_business_app_starter.Database.{
  Db, Tx, ok, err, Error, numeric_overflow, text_data_error, holds_texts, integrity_error, raise_if,
  gets, modify, ◌>>=◌, ◌>>◌, BalanceKey, credited, debited, set_balance, ensure_balance,
  StockMovement, is_member, uq_stock_movements_organization_idempotency_key,
  fk_stock_movements_performer_membership, Product, Warehouse, available, damaged,
}

-- The key of the sellable stock of a product in a warehouse.
abbrev pub available_key : ℕ → ℕ → ℕ → BalanceKey
available_key organization product warehouse = record {
  organization_id = organization;
  product_id = product;
  warehouse_id = warehouse;
  condition = available;
}

-- The key of the damaged stock of a product in a warehouse.
abbrev pub damaged_key : ℕ → ℕ → ℕ → BalanceKey
damaged_key organization product warehouse = record {
  organization_id = organization;
  product_id = product;
  warehouse_id = warehouse;
  condition = damaged;
}

-- The active flag of the organization's product, if there is one.
abbrev pub product_row : ℕ → ℕ → Db → Option Product
product_row organization product db =
    find (λ p. p.organization_id == organization && p.id == product) db.products

abbrev pub warehouse_row : ℕ → ℕ → Db → Option Warehouse
warehouse_row organization warehouse db =
    find (λ w. w.organization_id == organization && w.id == warehouse) db.warehouses

-- The upsert that adds to a balance and returns the new one.
unfoldable pub credit : BalanceKey → ℕ → Tx ℕ
credit k quantity db = elim (credited k quantity db.balances) [
  | none ↦ err numeric_overflow
  | some total ↦ ok (total, record db { balances = set_balance k total db.balances })
]

-- The conditional update that takes from a balance, and the error where it updates no row.
unfoldable pub debit : BalanceKey → ℕ → Error → Tx ℕ
debit k quantity short db = elim (debited k quantity db.balances) [
  | none ↦ err short
  | some left ↦ ok (left, record db { balances = set_balance k left db.balances })
]

-- The insert of a zero balance that does nothing on a conflict.
unfoldable pub open_balance : BalanceKey → Tx (Unit {0})
open_balance k = modify (λ db. record db { balances = ensure_balance k db.balances })

abbrev pub has_movement_key : ℕ → String → StockMovement → Bool
has_movement_key organization key m =
    m.organization_id == organization && str_eq m.idempotency_key key

-- The insert of a movement, with the constraints that it can violate. The columns of text refuse a
-- key, a reason or a reference that they do not hold.
unfoldable pub insert_movement : StockMovement → Tx (Unit {0})
insert_movement m = do
  raise_if (not (holds_texts m.idempotency_key m.reason m.reference)) text_data_error
  taken ← gets (λ db. any (has_movement_key m.organization_id m.idempotency_key) db.movements)
  raise_if taken (integrity_error uq_stock_movements_organization_idempotency_key)
  member ← gets (is_member m.organization_id m.performed_by_id)
  raise_if (not member) (integrity_error fk_stock_movements_performer_membership)
  modify (λ db. record db { movements = m ∷ db.movements })
