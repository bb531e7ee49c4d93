-- ===== src/Inventory/Transfer/Failures.antt =====
-- Every error that `transfer_stock` of app/modules/inventory/service.py can raise.
use dpg_business_app_starter.Base.{◌≡◌, arith, true, false, leb, ◌==◌, is_blank}
use dpg_business_app_starter.Database.{
  Db, err, Error, Environment, Call, uq_stock_transfers_organization_idempotency_key,
}
use dpg_business_app_starter.Database.Laws.{run_once-raises}
use dpg_business_app_starter.Inventory.Statements.{open_balance, credit, debit, insert_movement}
use dpg_business_app_starter.Inventory.Movement.Failures.{movement_can_raise}
use dpg_business_app_starter.Inventory.Transfer.{
  TransferStockCommand, insert_transfer, transfer_replay, write_transfer, transfer_transaction,
  transfer_stock,
}

module _ (env : Environment) (call : Call) (c : TransferStockCommand) where
  transaction_raises :
      (db : Db) (e : Error)
      → transfer_transaction env call c db ≡ err e
      → movement_can_raise e ≡ true
  unfolding transfer_transaction write_transfer open_balance credit debit insert_movement
      insert_transfer movement_can_raise
  transaction_raises db e h = ground arith

  replay_raises :
      (db : Db) (e : Error) → transfer_replay env c db ≡ err e → movement_can_raise e ≡ true
  unfolding transfer_replay movement_can_raise
  replay_raises db e h = ground arith

  -- With a positive quantity, two different warehouses and a key that is not blank, a transfer raises
  -- only errors of its statements and of its key.
  pub transfer_stock_raises :
      (db : Db) (e : Error)
      → leb c.quantity 0 ≡ false
      → (c.source_warehouse_id == c.destination_warehouse_id) ≡ false
      → is_blank c.idempotency_key ≡ false
      → (transfer_stock env call c db).0 ≡ err e
      → movement_can_raise e ≡ true
  unfolding transfer_stock
  transfer_stock_raises db e positive distinct keyed h =
      run_once-raises (transfer_replay env c) (λ x. movement_can_raise x ≡ true)
        uq_stock_transfers_organization_idempotency_key call.concurrent
        (transfer_transaction env call c) db e replay_raises transaction_raises (ground arith)
