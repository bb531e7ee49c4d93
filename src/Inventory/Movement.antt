-- ===== src/Inventory/Movement.antt =====
-- `record_stock_movement` of app/modules/inventory/service.py.
pub mod Effects
pub mod Replay
pub mod Races
pub mod Failures
use dpg_business_app_starter.Base.{
  ℕ, String, Option, none, some, Bool, true, false, not, ◌||◌, str_eq, leb, is_blank, find,
  if◌then◌else◌,
}
use dpg_business_app_starter.Database.{
  Db, Tx, Result, ok, err, Environment, Call, StockMovement, MovementType, receipt, issue,
  movement_payload, available, invalid_movement_quantity, value_error, idempotency_conflict,
  inventory_context_not_found, inactive_inventory_context, insufficient_stock,
  uq_stock_movements_organization_idempotency_key, gets, require, raise_if, pure, ◌>>=◌, ◌>>◌,
  run_once,
}
use dpg_business_app_starter.Inventory.Statements.{
  available_key, product_row, warehouse_row, credit, debit, insert_movement, has_movement_key,
}

pub record RecordMovementCommand : Type 0 where
  pub organization_id : ℕ
  pub product_id : ℕ
  pub warehouse_id : ℕ
  pub performed_by_id : ℕ
  pub movement_type : MovementType
  pub quantity : ℕ
  pub reason : String
  pub idempotency_key : String
  pub reference : Option String

pub record MovementResult : Type 0 where
  pub movement_id : ℕ
  pub balance : ℕ
  pub replayed : Bool

module _ (env : Environment) where
  unfoldable pub request_fingerprint : RecordMovementCommand → String
  request_fingerprint c = env.sha256 (
      movement_payload c.organization_id c.product_id c.warehouse_id c.performed_by_id
        c.movement_type c.quantity c.reason c.reference)

  pub movement_replay : RecordMovementCommand → Db → Result (Option MovementResult)
  unfolding request_fingerprint
  movement_replay c db =
      elim (find (has_movement_key c.organization_id c.idempotency_key) db.movements) [
        | none ↦ ok none
        | some m ↦
            if str_eq m.request_fingerprint (request_fingerprint c)
            then ok
                (some (record { movement_id = m.id; balance = m.balance_after; replayed = true }))
            else err idempotency_conflict
      ]

  -- The change of the balance, by the type of the movement.
  unfoldable move_stock : RecordMovementCommand → Tx ℕ
  unfolding credit debit
  move_stock c = elim c.movement_type [
    | receipt ↦ credit (available_key c.organization_id c.product_id c.warehouse_id) c.quantity
    | issue ↦
        debit (available_key c.organization_id c.product_id c.warehouse_id) c.quantity
          insufficient_stock
  ]

  module _ (call : Call) where
    -- The row that the transaction inserts.
    abbrev pub movement_row : RecordMovementCommand → ℕ → StockMovement
    movement_row c balance = record {
      id = call.uuid4 0;
      organization_id = c.organization_id;
      product_id = c.product_id;
      warehouse_id = c.warehouse_id;
      performed_by_id = c.performed_by_id;
      transfer_id = none;
      sale_id = none;
      sale_return_id = none;
      stock_condition = available;
      movement_type = c.movement_type;
      quantity = c.quantity;
      balance_after = balance;
      reason = c.reason;
      reference = c.reference;
      idempotency_key = c.idempotency_key;
      request_fingerprint = request_fingerprint c;
      created_at = call.now;
    }

    -- The statements after the lookup of the idempotency key.
    pub movement_transaction : RecordMovementCommand → Tx MovementResult
    unfolding move_stock insert_movement
    movement_transaction c = do
      product ← gets (product_row c.organization_id c.product_id)
      warehouse ← gets (warehouse_row c.organization_id c.warehouse_id)
      p ← require product inventory_context_not_found
      w ← require warehouse inventory_context_not_found
      raise_if (not p.active || not w.active) inactive_inventory_context
      balance ← move_stock c
      insert_movement (movement_row c balance)
      pure (record { movement_id = call.uuid4 0; balance = balance; replayed = false })

    unfoldable pub record_stock_movement : RecordMovementCommand → Db → Result MovementResult × Db
    unfolding run_once movement_replay movement_transaction
    record_stock_movement c db =
        if leb c.quantity 0
        then (err invalid_movement_quantity, db)
        else if is_blank c.idempotency_key
        then (err value_error, db)
        else run_once (movement_replay c) uq_stock_movements_organization_idempotency_key
            call.concurrent (movement_transaction c) db
