-- ===== src/Sales/Returns.antt =====
-- `process_sale_return` of app/modules/sales/returns_service.py. The money of a result is in units
-- of 10^-12, the columns hold millionths.
pub mod Posting
pub mod Safety
pub mod Quantities
pub mod Limits
pub mod Contract
pub mod Replay
mod Lines
unfoldable pub use Lines.*
use dpg_business_app_starter.Base.{
  ℕ, suc, ◌+◌, ◌*◌, ◌-◌, String, str_append, Option, none, some, Bool, true, false, not, ◌&&◌, ◌||◌,
  ◌==◌, List, [], ◌∷◌, str_eq, ltb, leb, find, any, keep, length, map, sum_by, sort_by, is_blank,
  strip, if◌then◌else◌,
}
use dpg_business_app_starter.Database.{
  Db, Tx, Result, ok, err, Error, Environment, Call, StockMovement, SaleLine, Sale, SaleReturn,
  SaleReturnLine, BalanceKey, ReturnKind, return, void, ReturnDisposition, restock, damage,
  RefundResolution, refunded_now, no_refund, StockCondition, available, damaged, receipt,
  ReturnLinePayload, return_payload, return_prefix, numeric_limit, numeric_overflow, value_error,
  return_sale_not_found, sale_already_adjusted, return_idempotency_conflict,
  return_quantity_exceeded, integrity_error, is_member,
  uq_sale_returns_organization_idempotency_key, fk_sale_returns_processor_membership,
  sale_returns_pkey, ck_sale_return_lines_positive_quantity, gets, modify, require, raise_if, lift,
  pure, raise, ◌>>=◌, ◌>>◌, run_once,
}
use dpg_business_app_starter.Inventory.Statements.{credit, insert_movement}
use dpg_business_app_starter.Sales.Commands.{exact}

module _ (env : Environment) where
  unfoldable pub return_fingerprint : ProcessSaleReturnCommand → String
  unfolding sort_by
  return_fingerprint c = env.sha256 (
      return_payload c.organization_id c.sale_id c.processed_by_id c.kind c.refund_resolution
        c.reason
        (sort_by (λ l. l.product_id)
          (map
            (λ l. record {
              product_id = l.product_id;
              quantity = l.quantity;
              disposition = l.disposition;
            })
            c.lines)))

  unfoldable pub return_replay : ProcessSaleReturnCommand → Db → Result (Option SaleReturnResult)
  return_replay c db =
      elim (find (has_return_key c.organization_id c.idempotency_key) db.sale_returns) [
        | none ↦ ok none
        | some r ↦
            if str_eq r.request_fingerprint (return_fingerprint c)
            then ok (
                some (record {
                  sale_return_id = r.id;
                  sale_id = r.sale_id;
                  kind = r.kind;
                  refund_resolution = r.refund_resolution;
                  return_value = exact r.return_value;
                  refunded_amount = exact r.refunded_amount;
                  replayed = true;
                }))
            else err return_idempotency_conflict
      ]

  module _ (call : Call) where
    abbrev pub return_row : ProcessSaleReturnCommand → ℕ → SaleReturn
    return_row c value = record {
      id = call.uuid4 0;
      organization_id = c.organization_id;
      sale_id = c.sale_id;
      processed_by_id = c.processed_by_id;
      kind = c.kind;
      refund_resolution = c.refund_resolution;
      return_value = env.stored value;
      refunded_amount = env.stored (refunded c.refund_resolution value);
      reason = strip c.reason;
      idempotency_key = c.idempotency_key;
      request_fingerprint = return_fingerprint c;
      created_at = call.now;
    }

    abbrev pub return_line_row :
        ProcessSaleReturnCommand → List SaleLine → ReturnLineCommand → SaleReturnLine
    return_line_row c sold l = record {
      sale_return_id = call.uuid4 0;
      product_id = l.product_id;
      organization_id = c.organization_id;
      sale_id = c.sale_id;
      quantity = l.quantity;
      disposition = l.disposition;
      return_value = env.stored (price_of l.product_id sold * l.quantity);
    }

    abbrev pub return_key : ProcessSaleReturnCommand → ℕ → ReturnLineCommand → BalanceKey
    return_key c warehouse l = record {
      organization_id = c.organization_id;
      product_id = l.product_id;
      warehouse_id = warehouse;
      condition = condition_of l.disposition;
    }

    abbrev pub return_movement :
        ProcessSaleReturnCommand → ℕ → ℕ → ReturnLineCommand → ℕ → StockMovement
    return_movement c warehouse n l balance = record {
      id = call.uuid4 n;
      organization_id = c.organization_id;
      product_id = l.product_id;
      warehouse_id = warehouse;
      performed_by_id = c.processed_by_id;
      transfer_id = none;
      sale_id = some c.sale_id;
      sale_return_id = some (call.uuid4 0);
      stock_condition = condition_of l.disposition;
      movement_type = receipt;
      quantity = l.quantity;
      balance_after = balance;
      reason = if is_void c.kind then "Sale void" else "Customer return";
      reference = some (env.uuid_str (call.uuid4 0));
      idempotency_key =
          str_append (env.sha256 (return_prefix (call.uuid4 0)))
            (str_append ":" (env.uuid_str l.product_id));
      request_fingerprint = return_fingerprint c;
      created_at = call.now;
    }

    -- One round of the posting loop.
    unfoldable pub post_return_line :
        ProcessSaleReturnCommand → ℕ → List SaleLine → ℕ → ReturnLineCommand → Tx (Unit {0})
    unfolding credit insert_return_line insert_movement
    post_return_line c warehouse sold n l = do
      balance ← credit (return_key c warehouse l) l.quantity
      insert_return_line (return_line_row c sold l)
      insert_movement (return_movement c warehouse n l balance)

    unfoldable pub post_return_lines :
        ProcessSaleReturnCommand → ℕ → List SaleLine → ℕ → List ReturnLineCommand → Tx (Unit {0})
    post_return_lines c warehouse sold n [] = pure tt
    post_return_lines c warehouse sold n (l ∷ ls) =
        post_return_line c warehouse sold n l >> post_return_lines c warehouse sold (suc n) ls

    abbrev pub return_result : ProcessSaleReturnCommand → ℕ → SaleReturnResult
    return_result c value = record {
      sale_return_id = call.uuid4 0;
      sale_id = c.sale_id;
      kind = c.kind;
      refund_resolution = c.refund_resolution;
      return_value = value;
      refunded_amount = refunded c.refund_resolution value;
      replayed = false;
    }

    -- The writes of a return into the warehouse of its sale.
    unfoldable pub write_return : ProcessSaleReturnCommand → Sale → Tx SaleReturnResult
    write_return c sale = do
      sold ← gets (lines_of_sale c.organization_id c.sale_id)
      returned ← gets (λ db product. returned_quantity c.organization_id c.sale_id product db)
      effective ← gets (effective_lines c)
      lines ← lift effective
      value ← lift (value_lines returned sold lines)
      insert_return (return_row c value)
      post_return_lines c sale.warehouse_id sold 1 lines
      pure (return_result c value)

    abbrev pub sale_of : ProcessSaleReturnCommand → Db → Option Sale
    sale_of c db = find (λ s. s.organization_id == c.organization_id && s.id == c.sale_id) db.sales

    -- The statements from the lock of the sale on, with the second lookup of the key.
    unfoldable pub return_transaction : ProcessSaleReturnCommand → Tx SaleReturnResult
    return_transaction c = do
      found ← gets (sale_of c)
      sale ← require found return_sale_not_found
      lookup ← gets (return_replay c)
      replayed ← lift lookup
      elim replayed [ some r ↦ pure r | none ↦ write_return c sale ]

    unfoldable pub process_sale_return :
        ProcessSaleReturnCommand → Db → Result SaleReturnResult × Db
    unfolding run_once
    process_sale_return c db =
        if not (is_valid c)
        then (err value_error, db)
        else run_once (return_replay c) uq_sale_returns_organization_idempotency_key call.concurrent
            (return_transaction c) db
