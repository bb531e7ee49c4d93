-- ===== src/Tests/Http.antt =====
-- Requests to the shop over its routes (app/modules/inventory/router.py and
-- app/modules/sales/router.py).
use dpg_business_app_starter.Base.{false}
use dpg_business_app_starter.Database.{holds_key, holds_optional}
use dpg_business_app_starter.Database.{holds_texts}
use dpg_business_app_starter.Base.{◌≡◌, refl, none, true, is_blank}
use dpg_business_app_starter.Database.{receipt, credited, numeric_overflow, set_balance, same_key}
use dpg_business_app_starter.Authorization.{require_permission}
use dpg_business_app_starter.Inventory.UseCases.{record_manual_stock_movement}
use dpg_business_app_starter.Inventory.Movement.{record_stock_movement}
use dpg_business_app_starter.Inventory.Movement.Effects.{confirmed}
use dpg_business_app_starter.Http.{reply}
use dpg_business_app_starter.Http.Inventory.{RecordMovementRequest, create_movement}
use dpg_business_app_starter.Database.{text_data_error, value_error}
use dpg_business_app_starter.Http.Inventory.Unhandled.{is_clean}
use dpg_business_app_starter.Http.Inventory.Answers.{
  movement_is_answered, repeated_movement_is_replayed,
}
use dpg_business_app_starter.Http.Inventory.{TransferStockRequest, create_transfer}
use dpg_business_app_starter.Base.{ℕ, String, Bool, ◌⊎◌, ◌∷◌, [], some, str_eq, strip, ◌&&◌}
use dpg_business_app_starter.Database.{restock, refunded_now, debited, ensure_balance}
use dpg_business_app_starter.Sales.Commands.{unique_products, sale_replay}
use dpg_business_app_starter.Sales.Pricing.{price_lines}
use dpg_business_app_starter.Sales.Approval.{approve}
use dpg_business_app_starter.Sales.Checkout.{
  has_lines, create_sale, sale_transaction, write_sale, open_balances, insert_sale, post_lines,
  post_line,
}
use dpg_business_app_starter.Sales.Checkout.Replay.{as_stored}
use dpg_business_app_starter.Sales.Returns.{
  is_valid, process_sale_return, return_replay, return_transaction, write_return, effective_lines,
  value_lines, returned_quantity,
}
use dpg_business_app_starter.Sales.UseCases.{
  submit_sale, submit_sale_return, sale_command, return_command, void_command,
}
use dpg_business_app_starter.Http.Sales.{
  CreateSaleRequest, CreateSaleReturnRequest, VoidSaleRequest, is_reason, is_sale_request,
  is_return_request, submitted_sale, submitted_return, create_sale_endpoint,
  create_sale_return_endpoint, void_sale_endpoint, update_sales_policy_endpoint,
  set_approval_pin_endpoint,
}
use dpg_business_app_starter.Http.Sales.Answers.{
  refused_sale_writes_no_stock, repeated_sale_is_replayed,
}
use dpg_business_app_starter.Http.Sales.Refusals.{refused_return_writes_nothing}
use dpg_business_app_starter.Http.Sales.Validation.{services_accept_valid_requests}
use dpg_business_app_starter.Http.Strangers.{NotFound, stranger_is_refused}
use dpg_business_app_starter.Tests.Sales.{sold_at_list}
use dpg_business_app_starter.Tests.Returns.{shop_with_sale}
use dpg_business_app_starter.Tests.Fixtures.{current, env, call, later, shop, movement_of}
use dpg_business_app_starter.Tests.Movements.{stocked}

abbrev delivery : RecordMovementRequest
delivery = record {
  product_id = 7;
  warehouse_id = 4;
  movement_type = receipt;
  quantity = 10;
  reason = "count";
  reference = none;
}

abbrev moved : TransferStockRequest
moved = record {
  product_id = 7;
  source_warehouse_id = 4;
  destination_warehouse_id = 5;
  quantity = 4;
  reason = "count";
  reference = none;
}

-- A key of 129 characters, which the header may hold and the column does not.
abbrev long_key : String
long_key =
    "kkkkkkkkkkkkkkkkkkkkkkkkkkkkkkkkkkkkkkkkkkkkkkkkkkkkkkkkkkkkkkkkkkkkkkkkkkkkkkkkkkkkkkkkkkkkkkkkkkkkkkkkkkkkkkkkkkkkkkkkkkkkkkkkk"

movement_is_answered_example :
    (text_data_error ≡ numeric_overflow)
    ⊎ ((text_data_error ≡ text_data_error) × (is_clean long_key "count" none ≡ false))
    ⊎ ((text_data_error ≡ value_error) × (is_blank long_key ≡ true))
unfolding create_movement is_blank record_manual_stock_movement require_permission
    record_stock_movement credited set_balance same_key holds_texts
movement_is_answered_example =
    movement_is_answered env later 3 1 delivery long_key stocked text_data_error refl

repeated_movement_is_replayed_example :
    create_movement env later 3 1 delivery "a" (create_movement env call 3 1 delivery "a" shop).1
    ≡ (
      reply 200 (record (confirmed env call (movement_of receipt 10 "a") 10) { replayed = true }),
      (create_movement env call 3 1 delivery "a" shop).1,
    )
unfolding create_movement is_blank record_manual_stock_movement require_permission
    record_stock_movement credited holds_texts
repeated_movement_is_replayed_example =
    repeated_movement_is_replayed env call 3 1 later delivery "a" shop 201
      (confirmed env call (movement_of receipt 10 "a") 10) refl refl

abbrev digits : String → Bool
digits pin = str_eq pin "123456"

abbrev order : CreateSaleRequest
order = record {
  warehouse_id = 4;
  lines = record { product_id = 7; quantity = 3; unit_price = none } ∷ [];
  discount_reason = some " ";
  approval = none;
}

-- More than the shop has.
abbrev wholesale : CreateSaleRequest
wholesale = record order {
  lines = record { product_id = 7; quantity = 11; unit_price = none } ∷ [];
}

abbrev brought_back : CreateSaleReturnRequest
brought_back = record {
  lines = record { product_id = 7; quantity = 4; disposition = restock } ∷ [];
  refund_resolution = refunded_now;
  reason = " too big ";
}

abbrev cancelled : VoidSaleRequest
cancelled = record { refund_resolution = refunded_now; reason = "mistake" }

repeated_sale_is_replayed_example :
    create_sale_endpoint env call digits 2 1 order "e"
      (create_sale_endpoint env later digits 2 1 order "e" stocked).1
    ≡ (
      reply 200 (as_stored env sold_at_list),
      (create_sale_endpoint env later digits 2 1 order "e" stocked).1,
    )
unfolding create_sale_endpoint submit_sale require_permission create_sale sale_replay
    sale_transaction price_lines approve write_sale open_balances insert_sale post_lines post_line
    debited ensure_balance set_balance same_key holds_key holds_optional strip holds_texts
repeated_sale_is_replayed_example =
    repeated_sale_is_replayed env later digits 2 1 call order "e" stocked sold_at_list refl refl

refused_sale_writes_no_stock_example :
    let after = (create_sale_endpoint env later digits 2 1 wholesale "e" stocked).1 in
    (after ≡ stocked) ⊎ (after ≡ record stocked { memberships = after.memberships })
unfolding create_sale_endpoint submit_sale require_permission create_sale sale_replay
    sale_transaction price_lines approve write_sale open_balances insert_sale post_lines post_line
    debited ensure_balance set_balance same_key holds_key holds_optional strip
refused_sale_writes_no_stock_example =
    refused_sale_writes_no_stock env later digits 2 1 wholesale "e" stocked refl

refused_return_writes_nothing_example :
    let after =
      (create_sale_return_endpoint env later digits 1 1 200 brought_back "r1" shop_with_sale).1 in
    (after ≡ shop_with_sale) ⊎ (after ≡ shop_with_sale)
unfolding create_sale_return_endpoint submit_sale_return require_permission process_sale_return
    is_valid return_replay return_transaction write_return effective_lines value_lines
    returned_quantity
refused_return_writes_nothing_example =
    refused_return_writes_nothing env later digits 1 1 200 brought_back "r1" shop_with_sale refl

services_accept_valid_requests_example :
    ((has_lines (sale_command (current "salesperson") (submitted_sale 1 order "e"))
        && unique_products
            (sale_command (current "salesperson") (submitted_sale 1 order "e")).lines)
      ≡ true)
    × (is_valid (return_command (current "admin") (submitted_return 200 brought_back "r1")) ≡ true)
    × (is_valid (void_command (current "admin") 200 refunded_now (strip "mistake") "r1") ≡ true)
unfolding is_sale_request is_return_request is_reason
services_accept_valid_requests_example =
    services_accept_valid_requests digits (current "admin") 1 200 "r1" order brought_back cancelled
      refl refl refl

abbrev stranger : ℕ
stranger = 9

stranger_is_refused_example :
    (NotFound (create_movement env call stranger 1 delivery "a" shop) shop
      × NotFound (create_transfer env call stranger 1 moved "a" shop) shop)
    × (NotFound (create_sale_endpoint env call digits stranger 1 order "a" shop) shop
        × NotFound
            (create_sale_return_endpoint env call digits stranger 1 200 brought_back "a" shop)
            shop
        × NotFound (void_sale_endpoint env call digits stranger 1 200 cancelled "a" shop) shop)
    × NotFound (update_sales_policy_endpoint env call digits stranger 1 10000 shop) shop
    × NotFound (set_approval_pin_endpoint env call digits stranger 1 "123456" shop) shop
stranger_is_refused_example =
    stranger_is_refused env call stranger 1 shop digits delivery moved order 200 brought_back
      cancelled 10000 "123456" "a" refl
