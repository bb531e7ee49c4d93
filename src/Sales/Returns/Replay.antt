-- ===== src/Sales/Returns/Replay.antt =====
-- Retries and races of a return.
use dpg_business_app_starter.Base.{
  ℕ, ◌≡◌, none, some, true, false, List, ◌∷◌, arith, ap, find, str_eq_iff, ◌∙◌,
}
use dpg_business_app_starter.Database.{Db, ok, Environment, Call, Sale, SaleReturn}
use dpg_business_app_starter.Sales.Commands.{exact}
use dpg_business_app_starter.Sales.Returns.{
  ProcessSaleReturnCommand, SaleReturnResult, is_valid, has_return_key, return_fingerprint,
  return_replay, return_row, return_transaction, sale_of, process_sale_return,
}
use dpg_business_app_starter.Sales.Returns.Contract.{new_return-IsReturned}

module _ (env : Environment) where
  -- A result as its row holds it: both amounts rounded to the column.
  abbrev pub as_stored : SaleReturnResult → SaleReturnResult
  as_stored r = record r {
    return_value = exact (env.stored r.return_value);
    refunded_amount = exact (env.stored r.refunded_amount);
    replayed = true;
  }

  -- What a row says.
  abbrev pub row_result : SaleReturn → SaleReturnResult
  row_result r = record {
    sale_return_id = r.id;
    sale_id = r.sale_id;
    kind = r.kind;
    refund_resolution = r.refund_resolution;
    return_value = exact r.return_value;
    refunded_amount = exact r.refunded_amount;
    replayed = true;
  }

  module _ (call : Call) (c : ProcessSaleReturnCommand) where
    return_replay_returned :
        (db : Db) (r : SaleReturnResult)
        → is_valid c ≡ true
        → return_replay env c db ≡ ok (some r)
        → process_sale_return env call c db ≡ (ok r, db)
    unfolding process_sale_return
    return_replay_returned db r v h = ground arith

    result_valid :
        (db : Db) (r : SaleReturnResult)
        → (process_sale_return env call c db).0 ≡ ok r
        → is_valid c ≡ true
    unfolding process_sale_return
    result_valid db r h = ground arith

    row_is_replay :
        (value : ℕ) (rest : List SaleReturn) (db : Db)
        → db.sale_returns ≡ return_row env call c value ∷ rest
        → return_replay env c db ≡ ok (some (row_result (return_row env call c value)))
    unfolding return_replay
    row_is_replay value rest db e = ground (
      arith,
      str_eq_iff c.idempotency_key c.idempotency_key,
      str_eq_iff (return_fingerprint env c) (return_fingerprint env c),
    )

    -- A valid return whose own copy other clients commit after its first lookup of the key, for a
    -- sale of the organization, answers with the stored return and writes nothing: the key is
    -- looked up again under the lock of the sale, before any quantity is checked.
    late_return :
        (db : Db) (sale : Sale) (row : SaleReturn)
        → is_valid c ≡ true
        → find (has_return_key c.organization_id c.idempotency_key) db.sale_returns ≡ none
        → find
            (has_return_key c.organization_id c.idempotency_key)
            (call.concurrent db).sale_returns
          ≡ some row
        → row.request_fingerprint ≡ return_fingerprint env c
        → sale_of env call c (call.concurrent db) ≡ some sale
        → process_sale_return env call c db ≡ (ok (row_result row), call.concurrent db)
    unfolding process_sale_return return_transaction return_replay
    late_return db sale row v f f' fp s =
        ground (arith, str_eq_iff row.request_fingerprint (return_fingerprint env c))

-- A retry of a new return, by a later call, writes nothing and returns the same return, with both
-- amounts as the columns hold them, rounded to millionths.
pub return_retry_replays :
    (env : Environment) (call later : Call) (c : ProcessSaleReturnCommand) (db : Db)
    (r : SaleReturnResult)
    → (process_sale_return env call c db).0 ≡ ok r
    → r.replayed ≡ false
    → process_sale_return env later c (process_sale_return env call c db).1
      ≡ (ok (as_stored env r), (process_sale_return env call c db).1)
return_retry_replays env call later c db r h n =
    let s = new_return-IsReturned env call c db r h n in
    let found =
      row_is_replay env call c r.return_value (call.concurrent db).sale_returns
        (process_sale_return env call c db).1 s.stored in
    let same : row_result env (return_row env call c r.return_value) ≡ as_stored env r =
      ground (arith, s.header, s.refund) in
    return_replay_returned env later c (process_sale_return env call c db).1 (as_stored env r)
      (result_valid env call c db r h) (found ∙ ap (λ (a : SaleReturnResult). ok (some a)) same)
