-- ===== src/Sales/Checkout.antt =====
-- `create_sale` of app/modules/sales/service.py: the checks, the approval, and the rows of the sale.
pub mod Posting
pub mod Committed
pub mod Safety
pub mod Contract
pub mod Replay
use dpg_business_app_starter.Base.{
  ℕ, suc, ◌+◌, ◌*◌, ◌-◌, String, str_append, Option, none, some, Bool, true, false, not, ◌&&◌, ◌||◌,
  ◌==◌, List, [], ◌∷◌, str_eq, ltb, leb, find, any, all, keep, length, map, is_some, if◌then◌else◌,
}
use dpg_business_app_starter.Database.{
  Db, Tx, Result, ok, err, Error, Environment, Call, StockMovement, Sale, SaleLine, Organization,
  Product, Warehouse, BalanceKey, issue, available, sale_prefix, numeric_limit, numeric_overflow,
  text_data_error, holds_key, holds_optional, value_error, sale_context_not_found,
  inactive_sale_context, discount_reason_required, sale_insufficient_stock, integrity_error,
  is_member, uq_sales_organization_idempotency_key, fk_sales_seller_membership,
  fk_sales_approver_membership, ck_sales_total_not_above_subtotal, ck_sale_lines_positive_quantity,
  gets, modify, require, raise_if, lift, pure, raise, ◌>>=◌, ◌>>◌, run_once,
}
use dpg_business_app_starter.Inventory.Statements.{
  available_key, warehouse_row, debit, open_balance, insert_movement,
}
use dpg_business_app_starter.Sales.Commands.{
  SaleLineCommand, CreateSaleCommand, SaleResult, SaleOutcome, completed, refused, unique_products,
  has_sale_key, sale_fingerprint, sale_replay,
}
use dpg_business_app_starter.Sales.Pricing.{
  PricedLine, Pricing, price_lines, subtotal_of, total_of, cost_total_of,
}
use dpg_business_app_starter.Sales.Approval.{Approved, granted, denied, approve}

abbrev pub product_keys : CreateSaleCommand → List BalanceKey
product_keys c = map (λ l. available_key c.organization_id l.product_id c.warehouse_id) c.lines

-- The insert of the zero balances of all products.
unfoldable pub open_balances : List BalanceKey → Tx (Unit {0})
unfolding open_balance
open_balances [] = pure tt
open_balances (k ∷ ks) = open_balance k >> open_balances ks

-- The insert of a sale, with what can refuse it.
unfoldable pub insert_sale : Sale → Tx (Unit {0})
insert_sale s = do
  raise_if
      (not (
        ltb s.subtotal numeric_limit
        && ltb s.discount_total numeric_limit
        && ltb s.total numeric_limit
        && ltb s.cost_total numeric_limit))
      numeric_overflow
  raise_if (not (holds_key s.idempotency_key && holds_optional 240 s.approval_reason))
      text_data_error
  raise_if (ltb s.subtotal s.total) (integrity_error ck_sales_total_not_above_subtotal)
  taken ← gets (λ db. any (has_sale_key s.organization_id s.idempotency_key) db.sales)
  raise_if taken (integrity_error uq_sales_organization_idempotency_key)
  seller ← gets (is_member s.organization_id s.sold_by_id)
  raise_if (not seller) (integrity_error fk_sales_seller_membership)
  approver ← gets (λ db. elim s.approved_by_id [
    | none ↦ true
    | some user ↦ is_member s.organization_id user db
  ])
  raise_if (not approver) (integrity_error fk_sales_approver_membership)
  modify (λ db. record db { sales = s ∷ db.sales })

-- The insert of a line. Its prices are ordered by the pricing, so of its checks the positive
-- quantity and the width of the column are left.
unfoldable insert_sale_line : SaleLine → Tx (Unit {0})
insert_sale_line l = do
  raise_if (not (ltb l.line_total numeric_limit)) numeric_overflow
  raise_if (l.quantity == 0) (integrity_error ck_sale_lines_positive_quantity)
  modify (λ db. record db { sale_lines = l ∷ db.sale_lines })

-- The products of the command, in the organization.
abbrev pub product_rows : CreateSaleCommand → Db → List Product
product_rows c db =
    keep (λ p. p.organization_id == c.organization_id && any (λ l. l.product_id == p.id) c.lines)
      db.products

abbrev pub active_organization : CreateSaleCommand → Db → Option Organization
active_organization c db = find (λ o. o.id == c.organization_id && o.active) db.organizations

-- `not command.discount_reason`
abbrev pub lacks_reason : Option String → Bool
lacks_reason none = true
lacks_reason (some reason) = str_eq reason ""

-- `if pin_error is not None: raise pin_error`
abbrev pub raise_refusal : Result SaleOutcome × Db → Result SaleResult × Db
raise_refusal (ok (completed r), db) = (ok r, db)
raise_refusal (ok (refused e), db) = (err e, db)
raise_refusal (err e, db) = (err e, db)

abbrev pub has_lines : CreateSaleCommand → Bool
has_lines c = elim c.lines [ [] ↦ false | _ ∷ _ ↦ true ]

module _ (env : Environment) (call : Call) where
  abbrev pub sale_row : CreateSaleCommand → Option ℕ → List PricedLine → Sale
  sale_row c approved_by ls = record {
    id = call.uuid4 0;
    organization_id = c.organization_id;
    warehouse_id = c.warehouse_id;
    sold_by_id = c.sold_by_id;
    approved_by_id = approved_by;
    subtotal = env.stored (subtotal_of ls);
    discount_total = env.stored (subtotal_of ls - total_of ls);
    total = env.stored (total_of ls);
    cost_total = env.stored (cost_total_of ls);
    approval_reason = c.discount_reason;
    idempotency_key = c.idempotency_key;
    request_fingerprint = sale_fingerprint env c;
    created_at = call.now;
  }

  abbrev pub sale_line_row : CreateSaleCommand → PricedLine → SaleLine
  sale_line_row c l = record {
    sale_id = call.uuid4 0;
    product_id = l.line.product_id;
    organization_id = c.organization_id;
    quantity = l.line.quantity;
    product_sku = l.product.sku;
    product_name = l.product.name;
    list_unit_price = l.product.sale_price;
    unit_price = l.unit_price;
    unit_cost = l.product.cost;
    line_total = env.stored (l.unit_price * l.line.quantity);
  }

  -- The movement of the line whose UUID is the `n`-th that the call draws.
  abbrev pub sale_movement : CreateSaleCommand → ℕ → PricedLine → ℕ → StockMovement
  sale_movement c n l balance = record {
    id = call.uuid4 n;
    organization_id = c.organization_id;
    product_id = l.line.product_id;
    warehouse_id = c.warehouse_id;
    performed_by_id = c.sold_by_id;
    transfer_id = none;
    sale_id = some (call.uuid4 0);
    sale_return_id = none;
    stock_condition = available;
    movement_type = issue;
    quantity = l.line.quantity;
    balance_after = balance;
    reason = "Sale";
    reference = some (env.uuid_str (call.uuid4 0));
    idempotency_key =
        str_append (env.sha256 (sale_prefix (call.uuid4 0)))
          (str_append ":" (env.uuid_str l.line.product_id));
    request_fingerprint = sale_fingerprint env c;
    created_at = call.now;
  }

  abbrev pub line_key : CreateSaleCommand → PricedLine → BalanceKey
  line_key c l = available_key c.organization_id l.line.product_id c.warehouse_id

  -- One round of the posting loop.
  unfoldable pub post_line : CreateSaleCommand → ℕ → PricedLine → Tx (Unit {0})
  unfolding debit insert_sale_line insert_movement
  post_line c n l = do
    balance ← debit (line_key c l) l.line.quantity (sale_insufficient_stock l.line.product_id)
    insert_sale_line (sale_line_row c l)
    insert_movement (sale_movement c n l balance)

  unfoldable pub post_lines : CreateSaleCommand → ℕ → List PricedLine → Tx (Unit {0})
  post_lines c n [] = pure tt
  post_lines c n (l ∷ ls) = post_line c n l >> post_lines c (suc n) ls

  abbrev pub sale_result : Option ℕ → List PricedLine → SaleResult
  sale_result approved_by ls = record {
    sale_id = call.uuid4 0;
    subtotal = subtotal_of ls;
    discount_total = subtotal_of ls - total_of ls;
    total = total_of ls;
    cost_total = cost_total_of ls;
    approved_by_id = approved_by;
    replayed = false;
  }

  -- The writes of the sale, or the refusal of the PIN.
  unfoldable pub write_sale : CreateSaleCommand → List PricedLine → Approved → Tx SaleOutcome
  write_sale c ls (denied e) = pure (refused e)
  write_sale c ls (granted approved_by) = do
    open_balances (product_keys c)
    insert_sale (sale_row c approved_by ls)
    post_lines c 1 ls
    pure (completed (sale_result approved_by ls))

  -- The statements after the lookup of the idempotency key.
  unfoldable pub sale_transaction : CreateSaleCommand → Tx SaleOutcome
  sale_transaction c = do
    organization ← gets (active_organization c)
    warehouse ← gets (warehouse_row c.organization_id c.warehouse_id)
    products ← gets (product_rows c)
    o ← require organization sale_context_not_found
    w ← require warehouse sale_context_not_found
    raise_if (not (length products == length c.lines)) sale_context_not_found
    raise_if (not w.active || not (all (λ p. p.active) products)) inactive_sale_context
    pricing ← lift (price_lines o.salesperson_max_discount_rate products c.lines)
    raise_if (pricing.has_discount && lacks_reason c.discount_reason) discount_reason_required
    approved ← approve env call c pricing.requires_approval
    write_sale c pricing.priced_lines approved

  unfoldable pub create_sale : CreateSaleCommand → Db → Result SaleResult × Db
  unfolding run_once
  create_sale c db =
      if not (has_lines c) || not (unique_products c.lines)
      then (err value_error, db)
      else raise_refusal (
          run_once (sale_replay env c) uq_sales_organization_idempotency_key call.concurrent
            (sale_transaction c) db)
