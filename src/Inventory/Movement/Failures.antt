-- ===== src/Inventory/Movement/Failures.antt =====
-- Every error that `record_stock_movement` of app/modules/inventory/service.py can raise.
use dpg_business_app_starter.Base.{◌≡◌, refl, arith, Bool, true, false, leb, is_blank}
use dpg_business_app_starter.Database.{
  Db, err, Error, Environment, Call, inventory_context_not_found, inactive_inventory_context,
  insufficient_stock, idempotency_conflict, integrity_error, numeric_overflow, text_data_error,
  holds_texts, uq_stock_movements_organization_idempotency_key,
}
use dpg_business_app_starter.Database.Laws.{run_once-raises}
use dpg_business_app_starter.Inventory.Statements.{credit, debit, insert_movement}
use dpg_business_app_starter.Inventory.Movement.{
  RecordMovementCommand, movement_replay, move_stock, movement_transaction, record_stock_movement,
}

-- The errors of the statements and of the lookup of the key.
unfoldable pub movement_can_raise : Error → Bool
movement_can_raise inventory_context_not_found = true
movement_can_raise inactive_inventory_context = true
movement_can_raise insufficient_stock = true
movement_can_raise idempotency_conflict = true
movement_can_raise (integrity_error constraint) = true
movement_can_raise numeric_overflow = true
movement_can_raise text_data_error = true
movement_can_raise e = false

module _ (env : Environment) (call : Call) (c : RecordMovementCommand) where
  transaction_raises :
      (db : Db) (e : Error)
      → movement_transaction env call c db ≡ err e
      → movement_can_raise e ≡ true
  unfolding movement_transaction move_stock credit debit insert_movement movement_can_raise
  transaction_raises db e h = ground arith

  replay_raises :
      (db : Db) (e : Error) → movement_replay env c db ≡ err e → movement_can_raise e ≡ true
  unfolding movement_replay movement_can_raise
  replay_raises db e h = ground arith

  -- With a positive quantity and a key that is not blank, a movement raises only errors of its
  -- statements and of its key.
  pub record_stock_movement_raises :
      (db : Db) (e : Error)
      → leb c.quantity 0 ≡ false
      → is_blank c.idempotency_key ≡ false
      → (record_stock_movement env call c db).0 ≡ err e
      → movement_can_raise e ≡ true
  unfolding record_stock_movement
  record_stock_movement_raises db e positive keyed h =
      run_once-raises (movement_replay env c) (λ x. movement_can_raise x ≡ true)
        uq_stock_movements_organization_idempotency_key call.concurrent
        (movement_transaction env call c) db e replay_raises transaction_raises (ground arith)

  refused_texts :
      (db : Db) (e : Error)
      → movement_transaction env call c db ≡ err e
      → e ≡ text_data_error
      → holds_texts c.idempotency_key c.reason c.reference ≡ false
  unfolding movement_transaction move_stock credit debit insert_movement
  refused_texts db e h t = ground arith

  found_texts :
      (db : Db) (e : Error)
      → movement_replay env c db ≡ err e
      → e ≡ text_data_error
      → holds_texts c.idempotency_key c.reason c.reference ≡ false
  unfolding movement_replay
  found_texts db e h t = ground arith

  -- A movement is refused for its texts only if the columns do not hold them.
  pub record_stock_movement_texts :
      (db : Db)
      → (record_stock_movement env call c db).0 ≡ err text_data_error
      → holds_texts c.idempotency_key c.reason c.reference ≡ false
  unfolding record_stock_movement
  record_stock_movement_texts db h =
      run_once-raises (movement_replay env c)
        (λ x. x ≡ text_data_error → holds_texts c.idempotency_key c.reason c.reference ≡ false)
        uq_stock_movements_organization_idempotency_key call.concurrent
        (movement_transaction env call c) db text_data_error found_texts refused_texts
        (ground arith) refl
