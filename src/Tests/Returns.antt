-- ===== src/Tests/Returns.antt =====
-- Returns and voids of a sale (app/modules/sales).
use dpg_business_app_starter.Database.{holds_key, holds_optional, holds_text, holds_texts}
use dpg_business_app_starter.Base.{strip}
use dpg_business_app_starter.Base.{◌≡◌, refl, arith, ◌+◌, [], ◌∷◌, some, false, is_blank, sort_by}
use dpg_business_app_starter.Database.{
  Db, Call, SaleLine, ok, err, on_hand, set_balance, ensure_balance, same_key, credited, debited,
  return, void, restock, damage, refunded_now, return_quantity_exceeded,
}
use dpg_business_app_starter.Sales.Commands.{sale_replay}
use dpg_business_app_starter.Sales.Commands.{unique_products as different_products}
use dpg_business_app_starter.Sales.Pricing.{price_lines}
use dpg_business_app_starter.Sales.Approval.{approve}
use dpg_business_app_starter.Sales.Checkout.{
  open_balances, insert_sale, post_line, post_lines, write_sale, sale_transaction, create_sale,
  sale_row,
}
use dpg_business_app_starter.Sales.Returns.{
  ProcessSaleReturnCommand, SaleReturnResult, unique_products, value_lines, effective_lines,
  insert_return, is_valid, return_replay, return_row, post_return_line, post_return_lines,
  write_return, return_transaction, process_sale_return, returned_quantity,
}
use dpg_business_app_starter.Sales.Returns.Limits.{IsWithinSold}
use dpg_business_app_starter.Sales.Returns.Replay.{as_stored, return_retry_replays}
use dpg_business_app_starter.Sales.RoundTrip.{void_restores_stock}
use dpg_business_app_starter.Sales.UseCases.{SubmitSaleReturnCommand}
use dpg_business_app_starter.Tests.Fixtures.{env, later, call_at}
use dpg_business_app_starter.Tests.Movements.{stocked}
use dpg_business_app_starter.Tests.Approvals.{discounted}
use dpg_business_app_starter.Tests.Sales.{sold, sold_key, sold_once}

abbrev seven_sold : SaleLine
seven_sold = record {
  sale_id = 200;
  product_id = 7;
  organization_id = 1;
  quantity = 3;
  product_sku = "P7";
  product_name = "P7";
  list_unit_price = 5000000;
  unit_price = 3000000;
  unit_cost = 2000000;
  line_total = 9000000;
}

-- The shop with one sale of three pieces, and stock of its own.
abbrev pub shop_with_sale : Db
shop_with_sale = record stocked {
  sales = sale_row env later discounted (some 1) [] ∷ [];
  sale_lines = seven_sold ∷ [];
}

abbrev pub last_call : Call
last_call = call_at 300

abbrev two_back : ProcessSaleReturnCommand
two_back = record {
  organization_id = 1;
  sale_id = 200;
  processed_by_id = 1;
  kind = return;
  refund_resolution = refunded_now;
  reason = " too big ";
  idempotency_key = "r1";
  lines = record { product_id = 7; quantity = 2; disposition = damage } ∷ [];
}

abbrev returned : SaleReturnResult
returned = record {
  sale_return_id = 300;
  sale_id = 200;
  kind = return;
  refund_resolution = refunded_now;
  return_value = 6000000;
  refunded_amount = 6000000;
  replayed = false;
}

returned_once : (process_sale_return env last_call two_back shop_with_sale).0 ≡ ok returned
unfolding process_sale_return is_valid is_blank unique_products return_replay return_transaction
    write_return effective_lines value_lines returned_quantity insert_return post_return_line
    post_return_lines credited set_balance same_key holds_key holds_text strip holds_texts
returned_once = refl

abbrev four_back : ProcessSaleReturnCommand
four_back = record two_back {
  lines = record { product_id = 7; quantity = 4; disposition = restock } ∷ [];
}

returned_too_much :
    (process_sale_return env last_call four_back shop_with_sale).0
    ≡ err (return_quantity_exceeded 7)
unfolding process_sale_return is_valid is_blank unique_products return_replay return_transaction
    write_return effective_lines value_lines returned_quantity
returned_too_much = refl

shop-IsWithinSold : IsWithinSold shop_with_sale
unfolding returned_quantity
shop-IsWithinSold = record { within = λ organization sale product. omega arith }

return_retry_replays_example :
    let after = (process_sale_return env last_call two_back shop_with_sale).1 in
    process_sale_return env last_call two_back after ≡ (ok (as_stored env returned), after)
return_retry_replays_example =
    return_retry_replays env last_call last_call two_back shop_with_sale returned returned_once refl

-- The row of the return, as another client commits it.
abbrev with_return : Db
with_return = record shop_with_sale {
  sale_returns = return_row env last_call two_back 6000000 ∷ [];
}

abbrev racing : Call
racing = record {
  now = 400;
  uuid4 = λ i. 400 + i;
  token_urlsafe = "token";
  concurrent = λ db. with_return;
}

abbrev voiding : ProcessSaleReturnCommand
voiding = record two_back { kind = void; idempotency_key = "v"; lines = [] }

abbrev voided : SaleReturnResult
voided = record {
  sale_return_id = 300;
  sale_id = 200;
  kind = void;
  refund_resolution = refunded_now;
  return_value = 9000000;
  refunded_amount = 9000000;
  replayed = false;
}

voided_once :
    (process_sale_return env last_call voiding (create_sale env later discounted stocked).1).0
    ≡ ok voided
unfolding create_sale different_products sale_replay sale_transaction price_lines approve write_sale
    open_balances insert_sale post_line post_lines debited set_balance ensure_balance same_key
    process_sale_return is_valid is_blank return_replay return_transaction write_return
    effective_lines value_lines returned_quantity insert_return post_return_line post_return_lines
    credited sort_by holds_key holds_optional holds_texts strip
voided_once = refl

void_restores_stock_example :
    on_hand sold_key
      (process_sale_return env last_call voiding
        (create_sale env later discounted stocked).1).1.balances
    ≡ on_hand sold_key stocked.balances
void_restores_stock_example =
    void_restores_stock env later last_call discounted voiding stocked sold voided sold_key
      (record { kind = refl; organization = refl; sale = refl }) refl sold_once refl refl
      voided_once refl

abbrev submitted : SubmitSaleReturnCommand
submitted = record {
  sale_id = 200;
  lines = two_back.lines;
  refund_resolution = refunded_now;
  reason = " too big ";
  idempotency_key = "r1";
}
