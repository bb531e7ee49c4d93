-- ===== src/Http/Inventory.antt =====
-- The routes that write of app/modules/inventory/router.py, with the requests that
-- app/modules/inventory/schemas.py lets through.
pub mod Unhandled
pub mod Answers
use dpg_business_app_starter.Base.{
  ℕ, String, Bool, not, ◌&&◌, ◌||◌, ◌==◌, ltb, leb, Option, text_length, if◌then◌else◌,
}
use dpg_business_app_starter.Database.{
  Db, Result, ok, err, Error, Constraint, Environment, Call, MovementType, numeric_limit,
  inventory_context_not_found, inactive_inventory_context, insufficient_stock, idempotency_conflict,
  same_warehouse_transfer, integrity_error, fk_stock_movements_performer_membership,
  fk_stock_transfers_performer_membership,
}
use dpg_business_app_starter.Authorization.{CurrentMembership, get_current_membership}
use dpg_business_app_starter.Inventory.Movement.{MovementResult}
use dpg_business_app_starter.Inventory.Transfer.{TransferResult}
use dpg_business_app_starter.Inventory.UseCases.{
  RecordManualMovementCommand, TransferInventoryCommand, record_manual_stock_movement,
  transfer_inventory,
}
use dpg_business_app_starter.Http.{
  Response, reply, failure, application_handler, validation_error, fits,
}

pub record RecordMovementRequest : Type 0 where
  pub product_id : ℕ
  pub warehouse_id : ℕ
  pub movement_type : MovementType
  pub quantity : ℕ
  pub reason : String
  pub reference : Option String

pub record TransferStockRequest : Type 0 where
  pub product_id : ℕ
  pub source_warehouse_id : ℕ
  pub destination_warehouse_id : ℕ
  pub quantity : ℕ
  pub reason : String
  pub reference : Option String

-- The fields that both requests share: a positive quantity of at most twenty digits, a reason and a
-- reference of bounded length, and the header with the key, which is not empty.
unfoldable pub is_stock_request :
    (quantity : ℕ) (reason : String) (reference : Option String) (idempotency_key : String) → Bool
unfolding text_length fits
is_stock_request quantity reason reference idempotency_key =
    ltb 0 quantity
    && ltb quantity numeric_limit
    && ltb 0 (text_length reason)
    && leb (text_length reason) 240
    && fits 120 reference
    && ltb 0 (text_length idempotency_key)

unfoldable pub movement_error : Error → Response MovementResult
unfolding application_handler
movement_error inventory_context_not_found = failure 404 "INVENTORY_CONTEXT_NOT_FOUND"
movement_error inactive_inventory_context = failure 409 "INVENTORY_CONTEXT_INACTIVE"
movement_error insufficient_stock = failure 409 "INSUFFICIENT_STOCK"
movement_error idempotency_conflict = failure 409 "IDEMPOTENCY_KEY_REUSED"
movement_error (integrity_error fk_stock_movements_performer_membership) =
    failure 403 "ACTOR_NOT_MEMBER"
movement_error (integrity_error constraint) = failure 404 "INVENTORY_CONTEXT_NOT_FOUND"
movement_error e = application_handler e

unfoldable pub transfer_error : Error → Response TransferResult
unfolding application_handler
transfer_error inventory_context_not_found = failure 404 "INVENTORY_CONTEXT_NOT_FOUND"
transfer_error inactive_inventory_context = failure 409 "INVENTORY_CONTEXT_INACTIVE"
transfer_error insufficient_stock = failure 409 "INSUFFICIENT_STOCK"
transfer_error same_warehouse_transfer = failure 409 "SAME_WAREHOUSE_TRANSFER"
transfer_error idempotency_conflict = failure 409 "IDEMPOTENCY_KEY_REUSED"
transfer_error (integrity_error fk_stock_transfers_performer_membership) =
    failure 403 "ACTOR_NOT_MEMBER"
transfer_error (integrity_error constraint) = failure 404 "INVENTORY_CONTEXT_NOT_FOUND"
transfer_error e = application_handler e

-- 201 for a new result, 200 for a replayed one.
unfoldable pub movement_response : Result MovementResult × Db → Response MovementResult × Db
unfolding movement_error
movement_response (ok r, db) = (reply (if r.replayed then 200 else 201) r, db)
movement_response (err e, db) = (movement_error e, db)

unfoldable pub transfer_response : Result TransferResult × Db → Response TransferResult × Db
unfolding transfer_error
transfer_response (ok r, db) = (reply (if r.replayed then 200 else 201) r, db)
transfer_response (err e, db) = (transfer_error e, db)

abbrev pub manual_movement : ℕ → RecordMovementRequest → String → RecordManualMovementCommand
manual_movement organization_id payload idempotency_key = record {
  organization_id = organization_id;
  product_id = payload.product_id;
  warehouse_id = payload.warehouse_id;
  movement_type = payload.movement_type;
  quantity = payload.quantity;
  reason = payload.reason;
  reference = payload.reference;
  idempotency_key = idempotency_key;
}

abbrev pub inventory_transfer_of : ℕ → TransferStockRequest → String → TransferInventoryCommand
inventory_transfer_of organization_id payload idempotency_key = record {
  organization_id = organization_id;
  product_id = payload.product_id;
  source_warehouse_id = payload.source_warehouse_id;
  destination_warehouse_id = payload.destination_warehouse_id;
  quantity = payload.quantity;
  reason = payload.reason;
  reference = payload.reference;
  idempotency_key = idempotency_key;
}

module _ (env : Environment) (call : Call) (user organization_id : ℕ) where
  -- The dependencies come first: the membership of the current user in the organization of the
  -- path, then the validated request.
  unfoldable pub create_movement :
      RecordMovementRequest → (idempotency_key : String) → Db → Response MovementResult × Db
  unfolding is_stock_request movement_response application_handler get_current_membership
  create_movement payload idempotency_key db =
      elim (get_current_membership organization_id user db) [
        | err e ↦ (application_handler e, db)
        | ok m ↦
            if not
              (is_stock_request payload.quantity payload.reason payload.reference idempotency_key)
            then (validation_error, db)
            else movement_response (
                record_manual_stock_movement env call m
                  (manual_movement organization_id payload idempotency_key) db)
      ]

  unfoldable pub create_transfer :
      TransferStockRequest → (idempotency_key : String) → Db → Response TransferResult × Db
  unfolding is_stock_request transfer_response application_handler get_current_membership
  create_transfer payload idempotency_key db =
      elim (get_current_membership organization_id user db) [
        | err e ↦ (application_handler e, db)
        | ok m ↦
            if not
                (is_stock_request payload.quantity payload.reason payload.reference idempotency_key)
              || payload.source_warehouse_id == payload.destination_warehouse_id
            then (validation_error, db)
            else transfer_response (
                transfer_inventory env call m
                  (inventory_transfer_of organization_id payload idempotency_key) db)
      ]
