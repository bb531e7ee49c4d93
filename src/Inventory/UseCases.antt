-- ===== src/Inventory/UseCases.antt =====
-- The commands of app/modules/inventory/use_cases.py: the membership and the permission in front of
-- the inventory service.
pub mod Isolation
use dpg_business_app_starter.Base.{ℕ, String, Option, not, ◌==◌, if◌then◌else◌}
use dpg_business_app_starter.Database.{
  Db, Result, ok, err, Environment, Call, MovementType, receipt, issue, Permission,
  inventory_receive, inventory_issue, inventory_transfer, organization_not_found,
}
use dpg_business_app_starter.Authorization.{CurrentMembership, require_permission}
use dpg_business_app_starter.Inventory.Movement.{
  RecordMovementCommand, MovementResult, record_stock_movement,
}
use dpg_business_app_starter.Inventory.Transfer.{
  TransferStockCommand, TransferResult, transfer_stock,
}

pub record RecordManualMovementCommand : Type 0 where
  pub organization_id : ℕ
  pub product_id : ℕ
  pub warehouse_id : ℕ
  pub movement_type : MovementType
  pub quantity : ℕ
  pub reason : String
  pub idempotency_key : String
  pub reference : Option String

pub record TransferInventoryCommand : Type 0 where
  pub organization_id : ℕ
  pub product_id : ℕ
  pub source_warehouse_id : ℕ
  pub destination_warehouse_id : ℕ
  pub quantity : ℕ
  pub reason : String
  pub idempotency_key : String
  pub reference : Option String

-- `MOVEMENT_PERMISSIONS`
abbrev pub movement_permission : MovementType → Permission
movement_permission receipt = inventory_receive
movement_permission issue = inventory_issue

abbrev pub movement_command :
    CurrentMembership → RecordManualMovementCommand → RecordMovementCommand
movement_command m c = record {
  organization_id = c.organization_id;
  product_id = c.product_id;
  warehouse_id = c.warehouse_id;
  performed_by_id = m.user_id;
  movement_type = c.movement_type;
  quantity = c.quantity;
  reason = c.reason;
  idempotency_key = c.idempotency_key;
  reference = c.reference;
}

abbrev pub transfer_command : CurrentMembership → TransferInventoryCommand → TransferStockCommand
transfer_command m c = record {
  organization_id = c.organization_id;
  product_id = c.product_id;
  source_warehouse_id = c.source_warehouse_id;
  destination_warehouse_id = c.destination_warehouse_id;
  performed_by_id = m.user_id;
  quantity = c.quantity;
  reason = c.reason;
  idempotency_key = c.idempotency_key;
  reference = c.reference;
}

module _ {A : Type 0} where
  -- What runs behind a permission: nothing is read or written without it.
  unfoldable pub permitted :
      CurrentMembership → Permission → (Db → Result A × Db) → Db → Result A × Db
  permitted m p run db = elim (require_permission m p) [ ok _ ↦ run db | err e ↦ (err e, db) ]

module _ (env : Environment) (call : Call) (m : CurrentMembership) where
  unfoldable pub record_manual_stock_movement :
      RecordManualMovementCommand → Db → Result MovementResult × Db
  unfolding permitted
  record_manual_stock_movement c db =
      if not (m.organization_id == c.organization_id)
      then (err organization_not_found, db)
      else permitted m (movement_permission c.movement_type)
          (record_stock_movement env call (movement_command m c)) db

  unfoldable pub transfer_inventory : TransferInventoryCommand → Db → Result TransferResult × Db
  unfolding permitted
  transfer_inventory c db =
      if not (m.organization_id == c.organization_id)
      then (err organization_not_found, db)
      else permitted m inventory_transfer (transfer_stock env call (transfer_command m c)) db
