-- ===== src/Tests/Queries.antt =====
-- Lists, histories and receipts, read on the shop (app/modules/*/use_cases.py).
use dpg_business_app_starter.Database.{holds_key, holds_optional, holds_text, holds_texts}
use dpg_business_app_starter.Base.{
  ◌≡◌, refl, arith, none, some, true, false, [], is_blank, sort_by, ◌∷◌, map, strip,
}
use mathlib.Core.List.{Perm}
use dpg_business_app_starter.Database.{
  ok, refunded_now, void, credited, set_balance, ensure_balance, same_key, debited,
}
use dpg_business_app_starter.Database.Pages.Walk.{read_pages}
use dpg_business_app_starter.Database.Pages.Complete.{ReadsAll}
use dpg_business_app_starter.Authorization.{require_permission}
use dpg_business_app_starter.Inventory.Queries.{
  has_inventory_context, movement_item, newest_movement,
}
use dpg_business_app_starter.Inventory.Queries.Histories.{
  movements_listed, read_movements, movement_history_complete,
}
use dpg_business_app_starter.Catalog.Products.{
  ProductItem, product_item, update_product, stock_of_product,
}
use dpg_business_app_starter.Catalog.Products.Queries.{
  matches_search, oldest_product, list_products, get_product, product_list_complete,
}
use dpg_business_app_starter.Catalog.Products.RoundTrip.{updated_product_read}
use dpg_business_app_starter.Sales.Queries.{
  SaleReceipt, newest_sale, sale_summary, list_sales, get_sale_receipt, voided, confirmed,
}
use dpg_business_app_starter.Sales.Queries.Receipts.{sales_list_complete, voided_sale_receipt}
use dpg_business_app_starter.Sales.Queries.NewSale.{bought, new_sale_receipt}
use dpg_business_app_starter.Sales.Commands.{unique_products, sale_replay}
use dpg_business_app_starter.Sales.Pricing.{price_lines}
use dpg_business_app_starter.Sales.Approval.{approve}
use dpg_business_app_starter.Sales.Checkout.{
  sale_row, open_balances, insert_sale, post_line, post_lines, write_sale, sale_transaction,
  create_sale,
}
use dpg_business_app_starter.Sales.Returns.{
  SaleReturnResult, is_valid, return_replay, effective_lines, value_lines, returned_quantity,
  insert_return, post_return_line, post_return_lines, write_return, return_transaction,
  process_sale_return,
}
use dpg_business_app_starter.Sales.UseCases.{submit_sale, void_sale}
use dpg_business_app_starter.Tests.Fixtures.{
  env, call, later, shop, organization, product, warehouse, current,
}
use dpg_business_app_starter.Tests.Approvals.{discounted}
use dpg_business_app_starter.Tests.Movements.{stocked}
use dpg_business_app_starter.Tests.Sales.{submitted, sold_at_list}
use dpg_business_app_starter.Tests.Returns.{shop_with_sale, last_call}

movement_history_complete_example :
    ReadsAll
      (λ s. s.id)
      (newest_movement (current "admin"))
      movement_item
      (read_movements (current "admin") 7 4 1 stocked)
      (movements_listed (current "admin") 7 4 1 stocked)
unfolding require_permission has_inventory_context
movement_history_complete_example =
    movement_history_complete (current "admin") 7 4 1 stocked refl refl (omega arith) (refl, tt)

product_list_complete_example :
    ReadsAll
      (λ p. p.id)
      oldest_product
      product_item
      (read_pages 3 (λ cursor. list_products env (current "admin") 1 cursor true none shop) none)
      (product 7 "P7" ∷ product 8 "P8" ∷ [])
unfolding require_permission matches_search
product_list_complete_example =
    product_list_complete env (current "admin") 1 true none shop refl (omega arith)
      (refl, (refl, tt))

sales_list_complete_example :
    ReadsAll
      (λ s. s.id)
      (newest_sale (current "admin"))
      sale_summary
      (read_pages 2 (λ cursor. list_sales (current "admin") 1 cursor shop_with_sale) none)
      shop_with_sale.sales
unfolding require_permission
sales_list_complete_example =
    sales_list_complete (current "admin") 1 shop_with_sale refl (omega arith) (refl, tt)

new_sale_receipt_example :
    (receipt : SaleReceipt) × (get_sale_receipt env
        (current "salesperson")
        200
        (submit_sale env later (current "salesperson") submitted stocked).1
      ≡ ok receipt)
    × (receipt.status ≡ confirmed)
    × (receipt.sold_by_id ≡ 1)
    × (receipt.approved_by_id ≡ none)
    × (receipt.subtotal ≡ 15000000)
    × (receipt.discount_total ≡ 0)
    × (receipt.total ≡ 15000000)
    × (receipt.cost_total ≡ 6000000)
    × Perm (map (bought env later (current "salesperson") submitted) receipt.lines) ((7, 3) ∷ [])
unfolding submit_sale require_permission create_sale unique_products sale_replay sale_transaction
    price_lines approve write_sale open_balances insert_sale post_lines debited post_line
    set_balance ensure_balance same_key holds_key holds_optional holds_texts
new_sale_receipt_example =
    new_sale_receipt env later (current "salesperson") submitted stocked sold_at_list organization
      (warehouse 4 "W4") refl refl (record { lines = refl; returns = refl; return_lines = refl })
      refl refl

-- The voiding of the one sale of the shop.
abbrev all_back : SaleReturnResult
all_back = record {
  sale_return_id = 300;
  sale_id = 200;
  kind = void;
  refund_resolution = refunded_now;
  return_value = 9000000;
  refunded_amount = 9000000;
  replayed = false;
}

voided_sale_receipt_example :
    let after =
      (void_sale env last_call (current "admin") 200 refunded_now "mistake" "v" shop_with_sale).1 in
    (receipt : SaleReceipt) × (get_sale_receipt env (current "admin") 200 after ≡ ok receipt)
    × (receipt.status ≡ voided)
    × (receipt.total ≡ 0)
unfolding void_sale require_permission process_sale_return is_valid is_blank return_replay
    return_transaction write_return effective_lines value_lines returned_quantity insert_return
    post_return_line post_return_lines credited set_balance same_key sort_by holds_key holds_text
    strip holds_texts
voided_sale_receipt_example =
    voided_sale_receipt env last_call (current "admin") 200 refunded_now "mistake" "v"
      shop_with_sale all_back (sale_row env later discounted (some 1) []) organization
      (warehouse 4 "W4") refl refl refl refl refl

-- Product 8 under a new name.
abbrev renamed : ProductItem
renamed = record {
  id = 8;
  sku = "P8";
  name = "Eight";
  cost = 2000000;
  sale_price = 5000000;
  active = true;
  created_at = 0;
  updated_at = 100;
}

updated_product_read_example :
    get_product
      (current "admin")
      8
      (update_product env call (current "admin") 8 (some " Eight ") none none none shop).1
    ≡ ok renamed
unfolding update_product stock_of_product require_permission strip
updated_product_read_example =
    updated_product_read env call (current "admin") 8 (some " Eight ") none none none shop renamed
      refl
