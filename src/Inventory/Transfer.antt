-- ===== src/Inventory/Transfer.antt =====
-- `transfer_stock` of app/modules/inventory/service.py.
pub mod Effects
pub mod Failures
pub mod Replay
use dpg_business_app_starter.Base.{
  ℕ, String, str_append, Option, none, some, Bool, true, false, not, ◌==◌, ◌&&◌, ◌||◌, str_eq, leb,
  is_blank, find, all, keep, length, if◌then◌else◌, ◌∷◌, any, List,
}
use dpg_business_app_starter.Database.{
  Db, Tx, Result, ok, err, Environment, Call, StockMovement, StockTransfer, Warehouse, MovementType,
  receipt, issue, transfer_payload, transfer_prefix, available, invalid_movement_quantity,
  same_warehouse_transfer, value_error, idempotency_conflict, inventory_context_not_found,
  inactive_inventory_context, insufficient_stock, text_data_error, holds_texts, integrity_error,
  is_member, uq_stock_transfers_organization_idempotency_key,
  fk_stock_transfers_performer_membership, gets, modify, require, raise_if, pure, ◌>>=◌, ◌>>◌,
  run_once,
}
use dpg_business_app_starter.Inventory.Statements.{
  available_key, product_row, credit, debit, open_balance, insert_movement,
}

pub record TransferStockCommand : Type 0 where
  pub organization_id : ℕ
  pub product_id : ℕ
  pub source_warehouse_id : ℕ
  pub destination_warehouse_id : ℕ
  pub performed_by_id : ℕ
  pub quantity : ℕ
  pub reason : String
  pub idempotency_key : String
  pub reference : Option String

pub record TransferResult : Type 0 where
  pub transfer_id : ℕ
  pub source_balance : ℕ
  pub destination_balance : ℕ
  pub replayed : Bool

abbrev pub has_transfer_key : ℕ → String → StockTransfer → Bool
has_transfer_key organization key t =
    t.organization_id == organization && str_eq t.idempotency_key key

-- The insert of a transfer, with the constraints that it can violate.
unfoldable insert_transfer : StockTransfer → Tx (Unit {0})
insert_transfer t = do
  raise_if (not (holds_texts t.idempotency_key t.reason t.reference)) text_data_error
  taken ← gets (λ db. any (has_transfer_key t.organization_id t.idempotency_key) db.transfers)
  raise_if taken (integrity_error uq_stock_transfers_organization_idempotency_key)
  member ← gets (is_member t.organization_id t.performed_by_id)
  raise_if (not member) (integrity_error fk_stock_transfers_performer_membership)
  modify (λ db. record db { transfers = t ∷ db.transfers })

-- The rows of the two warehouses.
unfoldable pub warehouse_rows : TransferStockCommand → Db → List Warehouse
warehouse_rows c db =
    keep
      (λ w.
        w.organization_id == c.organization_id
        && (w.id == c.source_warehouse_id || w.id == c.destination_warehouse_id))
      db.warehouses

module _ (env : Environment) where
  unfoldable pub transfer_fingerprint : TransferStockCommand → String
  transfer_fingerprint c = env.sha256 (
      transfer_payload c.organization_id c.product_id c.source_warehouse_id
        c.destination_warehouse_id c.performed_by_id c.quantity c.reason c.reference)

  abbrev pub movement_key_prefix : TransferStockCommand → String
  movement_key_prefix c = env.sha256 (transfer_prefix c.organization_id c.idempotency_key)

  unfoldable pub transfer_replay : TransferStockCommand → Db → Result (Option TransferResult)
  transfer_replay c db =
      elim (find (has_transfer_key c.organization_id c.idempotency_key) db.transfers) [
        | none ↦ ok none
        | some t ↦
            if str_eq t.request_fingerprint (transfer_fingerprint c)
            then ok (
                some (record {
                  transfer_id = t.id;
                  source_balance = t.source_balance_after;
                  destination_balance = t.destination_balance_after;
                  replayed = true;
                }))
            else err idempotency_conflict
      ]

  module _ (call : Call) where
    abbrev pub transfer_row : TransferStockCommand → ℕ → ℕ → StockTransfer
    transfer_row c source destination = record {
      id = call.uuid4 0;
      organization_id = c.organization_id;
      product_id = c.product_id;
      source_warehouse_id = c.source_warehouse_id;
      destination_warehouse_id = c.destination_warehouse_id;
      performed_by_id = c.performed_by_id;
      quantity = c.quantity;
      source_balance_after = source;
      destination_balance_after = destination;
      reason = c.reason;
      reference = c.reference;
      idempotency_key = c.idempotency_key;
      request_fingerprint = transfer_fingerprint c;
      created_at = call.now;
    }

    -- The movements of the two warehouses: the issue out of one and the receipt into the other.
    abbrev pub movement_out : TransferStockCommand → ℕ → StockMovement
    movement_out c balance = record {
      id = call.uuid4 1;
      organization_id = c.organization_id;
      product_id = c.product_id;
      warehouse_id = c.source_warehouse_id;
      performed_by_id = c.performed_by_id;
      transfer_id = some (call.uuid4 0);
      sale_id = none;
      sale_return_id = none;
      stock_condition = available;
      movement_type = issue;
      quantity = c.quantity;
      balance_after = balance;
      reason = c.reason;
      reference = c.reference;
      idempotency_key = str_append (movement_key_prefix c) ":out";
      request_fingerprint = transfer_fingerprint c;
      created_at = call.now;
    }

    abbrev pub movement_in : TransferStockCommand → ℕ → StockMovement
    movement_in c balance = record {
      id = call.uuid4 2;
      organization_id = c.organization_id;
      product_id = c.product_id;
      warehouse_id = c.destination_warehouse_id;
      performed_by_id = c.performed_by_id;
      transfer_id = some (call.uuid4 0);
      sale_id = none;
      sale_return_id = none;
      stock_condition = available;
      movement_type = receipt;
      quantity = c.quantity;
      balance_after = balance;
      reason = c.reason;
      reference = c.reference;
      idempotency_key = str_append (movement_key_prefix c) ":in";
      request_fingerprint = transfer_fingerprint c;
      created_at = call.now;
    }

    -- The statements that write, once the context has been checked.
    unfoldable pub write_transfer : TransferStockCommand → Tx TransferResult
    unfolding open_balance debit credit insert_transfer insert_movement
    write_transfer c = do
      open_balance (available_key c.organization_id c.product_id c.source_warehouse_id)
      open_balance (available_key c.organization_id c.product_id c.destination_warehouse_id)
      source ←
          debit (available_key c.organization_id c.product_id c.source_warehouse_id) c.quantity
            insufficient_stock
      destination ←
          credit (available_key c.organization_id c.product_id c.destination_warehouse_id)
            c.quantity
      insert_transfer (transfer_row c source destination)
      insert_movement (movement_out c source)
      insert_movement (movement_in c destination)
      pure (record {
        transfer_id = call.uuid4 0;
        source_balance = source;
        destination_balance = destination;
        replayed = false;
      })

    unfoldable pub transfer_transaction : TransferStockCommand → Tx TransferResult
    transfer_transaction c = do
      product ← gets (product_row c.organization_id c.product_id)
      rows ← gets (warehouse_rows c)
      p ← require product inventory_context_not_found
      raise_if (not (length rows == 2)) inventory_context_not_found
      raise_if (not p.active || not (all (λ w. w.active) rows)) inactive_inventory_context
      write_transfer c

    unfoldable pub transfer_stock : TransferStockCommand → Db → Result TransferResult × Db
    unfolding run_once
    transfer_stock c db =
        if leb c.quantity 0
        then (err invalid_movement_quantity, db)
        else if c.source_warehouse_id == c.destination_warehouse_id
        then (err same_warehouse_transfer, db)
        else if is_blank c.idempotency_key
        then (err value_error, db)
        else run_once (transfer_replay c) uq_stock_transfers_organization_idempotency_key
            call.concurrent (transfer_transaction c) db
