-- ===== src/Sales/Pricing/Bounds.antt =====
-- What the priced lines of a sale satisfy.
use dpg_business_app_starter.Base.{
  ℕ, ◌≤◌, ◌≡◌, All, some, get_or, List, [], ◌∷◌, ◌==◌, ltb, find, any, map, arith, Option-cases,
  inl, inr,
}
use dpg_business_app_starter.Database.{Product, ok}
use dpg_business_app_starter.Database.Laws.{Result-cases}
use dpg_business_app_starter.Sales.Commands.{SaleLineCommand}
use dpg_business_app_starter.Sales.Pricing.{
  PricedLine, Pricing, exceeds_policy, price_lines, subtotal_of, total_of, cost_total_of,
}

-- The price lies between the cost and the list price.
abbrev pub IsPriced : PricedLine → Type 0
IsPriced l = (l.product.cost ≤ l.unit_price) × (l.unit_price ≤ l.product.sale_price)

-- What a successful pricing says of its lines, its two flags and the command.
pub record IsPricing (policy : ℕ) (products : List Product) (lines : List SaleLineCommand)
    (p : Pricing) : Type 0 where
  pub priced : All IsPriced p.priced_lines
  pub chosen :
      All (λ l. l.unit_price ≡ get_or l.line.unit_price l.product.sale_price) p.priced_lines
  pub catalogued :
      All (λ l. find (λ p. p.id == l.line.product_id) products ≡ some l.product) p.priced_lines
  pub same_lines : map (λ l. l.line) p.priced_lines ≡ lines
  pub approval_iff :
      p.requires_approval ≡ any (λ l. exceeds_policy policy l.product l.unit_price) p.priced_lines
  pub discount_iff :
      p.has_discount ≡ any (λ l. ltb l.unit_price l.product.sale_price) p.priced_lines

pub price_lines-IsPricing :
    (policy : ℕ) (products : List Product) (lines : List SaleLineCommand) (p : Pricing)
    → price_lines policy products lines ≡ ok p
    → IsPricing policy products lines p
unfolding price_lines
price_lines-IsPricing policy products [] p h = record {
  priced = ground arith;
  chosen = ground arith;
  catalogued = ground arith;
  same_lines = ground arith;
  approval_iff = ground arith;
  discount_iff = ground arith;
}
price_lines-IsPricing policy products (line ∷ lines) p h =
    elim (Option-cases (find (λ p. p.id == line.product_id) products)) [
      | inl none_e ↦ absurd (ground arith)
      | inr (product, product_e) ↦ elim (Result-cases (price_lines policy products lines)) [
        | inr (e, f) ↦ absurd (ground arith)
        | inl (rest, f) ↦
            let ih = price_lines-IsPricing policy products lines rest f in
            record {
              priced = ground (arith, ih.priced);
              chosen = ground (arith, ih.chosen);
              catalogued = ground (arith, ih.catalogued);
              same_lines = ground (arith, ih.same_lines);
              approval_iff = ground (arith, ih.approval_iff);
              discount_iff = ground (arith, ih.discount_iff);
            }
      ]
    ]

-- The totals of priced lines are ordered: cost, total, subtotal.
pub totals_ordered :
    (ls : List PricedLine)
    → All IsPriced ls
    → (cost_total_of ls ≤ total_of ls) × (total_of ls ≤ subtotal_of ls)
totals_ordered [] h = (omega arith, omega arith)
totals_ordered (l ∷ ls) h =
    let ih = totals_ordered ls h.1 in (grind (arith, ih.0, h.0.0), grind (arith, ih.1, h.0.1))
