-- ===== src/Tests/Sales.antt =====
-- Sales (app/modules/sales).
use dpg_business_app_starter.Database.{holds_key, holds_optional, holds_texts}
use dpg_business_app_starter.Base.{
  get_or, ◌≡◌, refl, ◌+◌, List, [], ◌∷◌, map, none, some, false, ◌&&◌, ◌==◌, any, All, find, ltb,
}
use dpg_business_app_starter.Database.{
  Organization, BalanceKey, ok, err, on_hand, set_balance, ensure_balance, same_key, debited,
  invalid_approval_pin,
}
use dpg_business_app_starter.Inventory.Statements.{available_key}
use dpg_business_app_starter.Sales.Commands.{
  CreateSaleCommand, SaleResult, unique_products, sale_replay,
}
use dpg_business_app_starter.Sales.Pricing.{PricedLine, price_lines, exceeds_policy}
use dpg_business_app_starter.Sales.Approval.{approve}
use dpg_business_app_starter.Sales.Approval.Lockout.{GrantedTo}
use dpg_business_app_starter.Sales.Checkout.{
  open_balances, insert_sale, post_line, post_lines, write_sale, sale_transaction, create_sale,
  active_organization, product_rows, lacks_reason,
}
use dpg_business_app_starter.Sales.Checkout.Contract.{
  ordered_at, new_sale_stock, IsSold, new_sale-IsSold, new_sale_approval,
}
use dpg_business_app_starter.Sales.UseCases.{SubmitSaleCommand}
use dpg_business_app_starter.Tests.Fixtures.{env, later}
use dpg_business_app_starter.Tests.Movements.{stocked}
use dpg_business_app_starter.Tests.Approvals.{discounted}

-- Three pieces at the cost of three instead of five, approved by the administrator.
abbrev pub sold : SaleResult
sold = record {
  sale_id = 200;
  subtotal = 15000000;
  discount_total = 6000000;
  total = 9000000;
  cost_total = 6000000;
  approved_by_id = some 1;
  replayed = false;
}

pub sold_once : (create_sale env later discounted stocked).0 ≡ ok sold
unfolding create_sale unique_products sale_replay sale_transaction price_lines approve write_sale
    open_balances insert_sale post_lines debited post_line set_balance ensure_balance same_key
    holds_key holds_optional holds_texts
sold_once = refl

abbrev mistyped : CreateSaleCommand
mistyped = record discounted { approval = some (record { approver_user_id = 1; pin = "0000" }) }

sold_to_nobody : (create_sale env later mistyped stocked).0 ≡ err invalid_approval_pin
unfolding create_sale unique_products sale_replay sale_transaction price_lines approve write_sale
    open_balances insert_sale post_lines debited post_line set_balance ensure_balance same_key
sold_to_nobody = refl

abbrev pub sold_key : BalanceKey
sold_key = available_key 1 7 4

new_sale_stock_example :
    on_hand sold_key stocked.balances
    ≡ on_hand sold_key (create_sale env later discounted stocked).1.balances
      + ordered_at env later discounted sold_key discounted.lines
new_sale_stock_example = new_sale_stock env later discounted stocked sold sold_key sold_once refl

new_sale-IsSold_example :
    IsSold env later discounted stocked sold (create_sale env later discounted stocked).1
new_sale-IsSold_example = new_sale-IsSold env later discounted stocked sold sold_once refl

new_sale_approval_example :
    (o : Organization) × (ls : List PricedLine) × (active_organization discounted stocked ≡ some o)
    × (map (λ l. l.line) ls ≡ discounted.lines)
    × All
        (λ l.
          find (λ p. p.id == l.line.product_id) (product_rows discounted stocked) ≡ some l.product)
        ls
    × All (λ l. l.unit_price ≡ get_or l.line.unit_price l.product.sale_price) ls
    × ((any (λ l. ltb l.unit_price l.product.sale_price) ls
          && lacks_reason discounted.discount_reason)
        ≡ false)
    × GrantedTo env later discounted
        (any (λ l. exceeds_policy o.salesperson_max_discount_rate l.product l.unit_price) ls)
        stocked
        (some 1)
new_sale_approval_example = new_sale_approval env later discounted stocked sold sold_once refl

-- Another sale under the same key, which the digest of the fixtures tells apart by its seller.
abbrev other_sale : CreateSaleCommand
other_sale = record discounted { sold_by_id = 1 }

abbrev pub submitted : SubmitSaleCommand
submitted = record {
  organization_id = 1;
  warehouse_id = 4;
  lines = record { product_id = 7; quantity = 3; unit_price = none } ∷ [];
  discount_reason = none;
  approval = none;
  idempotency_key = "e";
}

abbrev pub sold_at_list : SaleResult
sold_at_list = record {
  sale_id = 200;
  subtotal = 15000000;
  discount_total = 0;
  total = 15000000;
  cost_total = 6000000;
  approved_by_id = none;
  replayed = false;
}
