-- ===== src/Sales/Checkout/Replay.antt =====
-- Retries of a sale.
use dpg_business_app_starter.Base.{
  ap₂, sym, ℕ, ◌-◌, ◌≡◌, ◌≢◌, Option, some, true, false, not, ◌||◌, List, ◌∷◌, arith, ap, find,
  str_eq_iff, ◌∙◌,
}
use dpg_business_app_starter.Database.{
  Db, ok, err, Environment, Call, sale_idempotency_conflict, Sale,
}
use dpg_business_app_starter.Sales.Commands.{
  CreateSaleCommand, SaleResult, completed, exact, unique_products, sale_replay, sale_fingerprint,
  has_sale_key,
}
use dpg_business_app_starter.Sales.Pricing.{PricedLine, subtotal_of, total_of, cost_total_of}
use dpg_business_app_starter.Sales.Checkout.{create_sale, has_lines, sale_row}
use dpg_business_app_starter.Sales.Checkout.Contract.{new_sale-IsSold}

module _ (env : Environment) where
  -- A result as its row holds it: every amount rounded to the column.
  abbrev pub as_stored : SaleResult → SaleResult
  as_stored r = record r {
    subtotal = exact (env.stored r.subtotal);
    discount_total = exact (env.stored r.discount_total);
    total = exact (env.stored r.total);
    cost_total = exact (env.stored r.cost_total);
    replayed = true;
  }

  module _ (call : Call) (c : CreateSaleCommand) where
    -- If the lookup finds a sale, a call returns it and changes nothing.
    sale_replay_returned :
        (db : Db) (r : SaleResult)
        → (not (has_lines c) || not (unique_products c.lines)) ≡ false
        → sale_replay env c db ≡ ok (some (completed r))
        → create_sale env call c db ≡ (ok r, db)
    unfolding create_sale
    sale_replay_returned db r w h = ground arith

    -- Only a command with lines of different products has a result.
    result_lines :
        (db : Db) (r : SaleResult)
        → (create_sale env call c db).0 ≡ ok r
        → (not (has_lines c) || not (unique_products c.lines)) ≡ false
    unfolding create_sale
    result_lines db r h = ground arith

    -- What the row of a sale says.
    abbrev row_result : Option ℕ → List PricedLine → SaleResult
    row_result user ls = record {
      sale_id = call.uuid4 0;
      subtotal = exact (env.stored (subtotal_of ls));
      discount_total = exact (env.stored (subtotal_of ls - total_of ls));
      total = exact (env.stored (total_of ls));
      cost_total = exact (env.stored (cost_total_of ls));
      approved_by_id = user;
      replayed = true;
    }

    -- The row of a sale is found under its key.
    row_is_replay :
        (user : Option ℕ) (ls : List PricedLine) (rest : List Sale) (db : Db)
        → db.sales ≡ sale_row env call c user ls ∷ rest
        → sale_replay env c db ≡ ok (some (completed (row_result user ls)))
    unfolding sale_replay
    row_is_replay user ls rest db e = ground (
      arith,
      str_eq_iff c.idempotency_key c.idempotency_key,
      str_eq_iff (sale_fingerprint env c) (sale_fingerprint env c),
    )

    -- The key of another sale is refused.
    used_sale_key_conflicts :
        (db : Db) (s : Sale)
        → (not (has_lines c) || not (unique_products c.lines)) ≡ false
        → find (has_sale_key c.organization_id c.idempotency_key) db.sales ≡ some s
        → s.request_fingerprint ≢ sale_fingerprint env c
        → create_sale env call c db ≡ (err sale_idempotency_conflict, db)
    unfolding create_sale sale_replay
    used_sale_key_conflicts db s w f ne =
        ground (arith, str_eq_iff s.request_fingerprint (sale_fingerprint env c))

    -- The row that a new sale leaves in front is found under its key.
    row_found :
        (user : Option ℕ) (ls : List PricedLine) (rest : List Sale) (db : Db)
        → db.sales ≡ sale_row env call c user ls ∷ rest
        → find (has_sale_key c.organization_id c.idempotency_key) db.sales
          ≡ some (sale_row env call c user ls)
    row_found user ls rest db e = ground (arith, str_eq_iff c.idempotency_key c.idempotency_key)

-- A retry of a new sale, by a later call, writes nothing and returns the same sale, with every
-- amount as the columns hold it, rounded to millionths.
pub sale_retry_replays :
    (env : Environment) (call later : Call) (c : CreateSaleCommand) (db : Db) (r : SaleResult)
    → (create_sale env call c db).0 ≡ ok r
    → r.replayed ≡ false
    → create_sale env later c (create_sale env call c db).1
      ≡ (ok (as_stored env r), (create_sale env call c db).1)
sale_retry_replays env call later c db r h n =
    let s = new_sale-IsSold env call c db r h n in
    let found =
      row_is_replay env call c r.approved_by_id s.priced_lines (call.concurrent db).sales
        (create_sale env call c db).1 s.sales in
    let exact_row : row_result env call c r.approved_by_id s.priced_lines ≡ as_stored env r =
      ground (arith, s.sale_id, s.subtotal, s.total, s.cost_total, s.discount_total) in
    sale_replay_returned env later c (create_sale env call c db).1 (as_stored env r)
      (result_lines env call c db r h)
      (found ∙ ap (λ (a : SaleResult). ok (some (completed a))) exact_row)

-- After a new sale, a later call of the same organization under the same key, with lines of
-- different products and another fingerprint, is refused and changes nothing.
reused_sale_key_conflicts :
    (env : Environment) (call later : Call) (c other : CreateSaleCommand) (db : Db) (r : SaleResult)
    → (create_sale env call c db).0 ≡ ok r
    → r.replayed ≡ false
    → other.organization_id ≡ c.organization_id
    → other.idempotency_key ≡ c.idempotency_key
    → (not (has_lines other) || not (unique_products other.lines)) ≡ false
    → sale_fingerprint env other ≢ sale_fingerprint env c
    → create_sale env later other (create_sale env call c db).1
      ≡ (err sale_idempotency_conflict, (create_sale env call c db).1)
reused_sale_key_conflicts env call later c other db r h n same_organization same_key lines differs =
    let after = (create_sale env call c db).1 in
    let s = new_sale-IsSold env call c db r h n in
    let found =
      row_found env call c r.approved_by_id s.priced_lines (call.concurrent db).sales after
        s.sales in
    used_sale_key_conflicts env later other after
      (sale_row env call c r.approved_by_id s.priced_lines) lines
      (ap₂ (λ o k. find (has_sale_key o k) after.sales) same_organization same_key ∙ found)
      (λ e. differs (sym e))
