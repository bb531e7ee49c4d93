-- ===== src/Sales/Pricing.antt =====
-- The pricing loop of `create_sale` in app/modules/sales/service.py: the price of each line, and
-- whether the discounts need a reason or an approval.
pub mod Bounds
use dpg_business_app_starter.Base.{
  ℕ, ◌+◌, ◌*◌, ◌-◌, Option, none, some, get_or, Bool, true, false, ◌||◌, List, [], ◌∷◌, ◌==◌, ltb,
  find, sum_by, if◌then◌else◌,
}
use dpg_business_app_starter.Database.{
  Product, Result, ok, err, key_error, sale_price_below_cost, sale_price_above_list,
}
use dpg_business_app_starter.Sales.Commands.{SaleLineCommand}

pub record PricedLine : Type 0 where
  pub line : SaleLineCommand
  pub product : Product
  pub unit_price : ℕ

pub record Pricing : Type 0 where
  pub priced_lines : List PricedLine
  pub requires_approval : Bool
  pub has_discount : Bool

-- `discount_rate > policy`, for a policy in ten-thousandths. The source divides with 28 digits; the
-- quotient of two amounts below 10^20 lies further than that from a policy that it does not equal,
-- so the products compare alike.
abbrev pub exceeds_policy : ℕ → Product → ℕ → Bool
exceeds_policy policy product unit_price =
    if ltb 0 product.sale_price
    then ltb (policy * product.sale_price) ((product.sale_price - unit_price) * 10000)
    else false

-- One round of the loop, in front of the rounds that follow it.
unfoldable price_line : ℕ → SaleLineCommand → Product → Result Pricing → Result Pricing
price_line policy line product rest =
    let unit_price = get_or line.unit_price product.sale_price in
    if ltb unit_price product.cost
    then err sale_price_below_cost
    else if ltb product.sale_price unit_price
    then err sale_price_above_list
    else elim rest [
      | err e ↦ err e
      | ok pricing ↦ ok (record {
        priced_lines =
            record { line = line; product = product; unit_price = unit_price }
            ∷ pricing.priced_lines;
        requires_approval = exceeds_policy policy product unit_price || pricing.requires_approval;
        has_discount = ltb unit_price product.sale_price || pricing.has_discount;
      })
    ]

unfoldable pub price_lines : ℕ → List Product → List SaleLineCommand → Result Pricing
unfolding price_line
price_lines policy products [] =
    ok (record { priced_lines = []; requires_approval = false; has_discount = false })
price_lines policy products (line ∷ lines) = elim (find (λ p. p.id == line.product_id) products) [
  | none ↦ err (key_error line.product_id)
  | some product ↦ price_line policy line product (price_lines policy products lines)
]

-- The sums over the priced lines, in units of 10^-12.
abbrev pub subtotal_of : List PricedLine → ℕ
subtotal_of = sum_by (λ l. l.product.sale_price * l.line.quantity)

abbrev pub total_of : List PricedLine → ℕ
total_of = sum_by (λ l. l.unit_price * l.line.quantity)

abbrev pub cost_total_of : List PricedLine → ℕ
cost_total_of = sum_by (λ l. l.product.cost * l.line.quantity)
