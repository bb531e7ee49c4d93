-- ===== src/Sales/Checkout/Contract.antt =====
-- What a new sale promises: its prices, its totals, its approval, and what it takes from the stock.
use dpg_business_app_starter.Base.{
  ℕ, ◌+◌, ◌≡◌, ◌≤◌, ◌<◌, refl, Option, some, Bool, false, List, [], ◌∷◌, ◌++◌, map, arith, subst,
  sym, All, ap, any, find, get_or, ◌==◌, sum_by, if◌then◌else◌, ltb, ◌&&◌,
}
use mathlib.Core.List.{reverse}
use dpg_business_app_starter.Database.{
  Db, ok, Environment, Call, Organization, BalanceKey, on_hand, same_key,
}
use dpg_business_app_starter.Inventory.Statements.{available_key}
use dpg_business_app_starter.Sales.Commands.{SaleLineCommand, CreateSaleCommand, SaleResult}
use dpg_business_app_starter.Sales.Pricing.{
  PricedLine, exceeds_policy, subtotal_of, total_of, cost_total_of,
}
use dpg_business_app_starter.Sales.Pricing.Bounds.{IsPriced, price_lines-IsPricing, totals_ordered}
use dpg_business_app_starter.Sales.Approval.Lockout.{GrantedTo, approve-GrantedTo}
use dpg_business_app_starter.Sales.Approval.{granted}
use dpg_business_app_starter.Sales.Checkout.{
  create_sale, active_organization, product_rows, sale_row, sale_line_row, lacks_reason,
}
use dpg_business_app_starter.Sales.Checkout.Posting.{sold_at}
use dpg_business_app_starter.Sales.Checkout.Committed.{approve-writes}
use dpg_business_app_starter.Sales.Checkout.Safety.{CommittedSale, new_sale-CommittedSale}

module _ (env : Environment) (call : Call) (c : CreateSaleCommand) where
  -- What the command orders at a key.
  abbrev pub ordered_at : BalanceKey → List SaleLineCommand → ℕ
  ordered_at k = sum_by (λ l.
      if same_key (available_key c.organization_id l.product_id c.warehouse_id) k
      then l.quantity
      else 0)

  sold-eq-ordered :
      (k : BalanceKey) (ls : List PricedLine)
      → sold_at env call c k ls ≡ ordered_at k (map (λ l. l.line) ls)
  sold-eq-ordered k [] = refl
  sold-eq-ordered k (l ∷ ls) = ground (arith, sold-eq-ordered k ls)

  -- A new sale takes from every key exactly what the command orders there, which was in stock.
  pub new_sale_stock :
      (db : Db) (r : SaleResult) (k : BalanceKey)
      → (create_sale env call c db).0 ≡ ok r
      → r.replayed ≡ false
      → on_hand k (call.concurrent db).balances
        ≡ on_hand k (create_sale env call c db).1.balances + ordered_at k c.lines
  unfolding CommittedSale
  new_sale_stock db r k h n =
      let d = call.concurrent db in
      let (user, mid, p, w) = new_sale-CommittedSale env call c db r h n in
      let ls = p.pricing.priced_lines in
      let priced =
        price_lines-IsPricing p.organization.salesperson_max_discount_rate (product_rows c d)
          c.lines p.pricing p.priced in
      ground (
        arith,
        w.stock k,
        sold-eq-ordered k ls,
        ap (ordered_at k) priced.same_lines,
        approve-writes env call c p.pricing.requires_approval d (granted user) mid p.approved,
      )

  -- The lines of a sale, its result and the rows that it adds.
  pub record IsSold (db : Db) (r : SaleResult) (db' : Db) : Type 0 where
    pub sale_id : r.sale_id ≡ call.uuid4 0
    pub priced_lines : List PricedLine
    pub same_lines : map (λ l. l.line) priced_lines ≡ c.lines
    pub catalogued :
        All
          (λ l. find (λ p. p.id == l.line.product_id) (product_rows c db) ≡ some l.product)
          priced_lines
    pub chosen :
        All (λ l. l.unit_price ≡ get_or l.line.unit_price l.product.sale_price) priced_lines
    pub prices : All IsPriced priced_lines
    pub quantities : All (λ l. 0 < l.line.quantity) priced_lines
    pub subtotal : r.subtotal ≡ subtotal_of priced_lines
    pub total : r.total ≡ total_of priced_lines
    pub cost_total : r.cost_total ≡ cost_total_of priced_lines
    pub discount_total : r.discount_total + r.total ≡ r.subtotal
    pub margin : r.cost_total ≤ r.total
    pub sales : db'.sales ≡ sale_row env call c r.approved_by_id priced_lines ∷ db.sales
    pub sale_lines :
        db'.sale_lines ≡ reverse (map (sale_line_row env call c) priced_lines) ++ db.sale_lines

  -- A new sale has the lines of the command, each with the product of the catalog, at the price
  -- that it asks for or else the list price; that price lies between the cost and the list price,
  -- and every quantity is positive. The result has the exact totals of these lines, the discount is
  -- what lies between subtotal and total, and the total covers the cost. The rows of the sale and of
  -- its lines are added, and no other row of these tables changes.
  pub new_sale-IsSold :
      (db : Db) (r : SaleResult)
      → (create_sale env call c db).0 ≡ ok r
      → r.replayed ≡ false
      → IsSold (call.concurrent db) r (create_sale env call c db).1
  unfolding CommittedSale
  new_sale-IsSold db r h n =
      let d = call.concurrent db in
      let (user, mid, p, w) = new_sale-CommittedSale env call c db r h n in
      let ls = p.pricing.priced_lines in
      let priced =
        price_lines-IsPricing p.organization.salesperson_max_discount_rate (product_rows c d)
          c.lines p.pricing p.priced in
      let (cost_le, total_le) = totals_ordered ls priced.priced in
      let same_mid =
        approve-writes env call c p.pricing.requires_approval d (granted user) mid p.approved in
      record {
        sale_id = ground (arith, w.result);
        priced_lines = ls;
        same_lines = priced.same_lines;
        catalogued = priced.catalogued;
        chosen = priced.chosen;
        prices = priced.priced;
        quantities = w.quantities;
        subtotal = ground (arith, w.result);
        total = ground (arith, w.result);
        cost_total = ground (arith, w.result);
        discount_total = ground (arith, w.result, total_le);
        margin = ground (arith, w.result, cost_le);
        sales = ground (arith, w.result, w.sales, same_mid);
        sale_lines = ground (arith, w.sale_lines, same_mid);
      }

  -- The discounts of a new sale, under the policy of the active organization. Each line of the
  -- command is sold at the price that it asks for or else the list price of its product; no line is
  -- below its list price without a reason; and either no line exceeds the policy and nobody approved,
  -- or an administrator sold it, or an administrator who is not locked approved it with a verified
  -- PIN.
  pub new_sale_approval :
      (db : Db) (r : SaleResult)
      → (create_sale env call c db).0 ≡ ok r
      → r.replayed ≡ false
      → (o : Organization) × (ls : List PricedLine) × (active_organization c (call.concurrent db)
          ≡ some o)
        × (map (λ l. l.line) ls ≡ c.lines)
        × All
            (λ l.
              find (λ p. p.id == l.line.product_id) (product_rows c (call.concurrent db))
              ≡ some l.product)
            ls
        × All (λ l. l.unit_price ≡ get_or l.line.unit_price l.product.sale_price) ls
        × ((any (λ l. ltb l.unit_price l.product.sale_price) ls && lacks_reason c.discount_reason)
            ≡ false)
        × GrantedTo env call c
            (any (λ l. exceeds_policy o.salesperson_max_discount_rate l.product l.unit_price) ls)
            (call.concurrent db)
            r.approved_by_id
  unfolding CommittedSale
  new_sale_approval db r h n =
      let d = call.concurrent db in
      let (user, mid, p, w) = new_sale-CommittedSale env call c db r h n in
      let priced =
        price_lines-IsPricing p.organization.salesperson_max_discount_rate (product_rows c d)
          c.lines p.pricing p.priced in
      let approver : r.approved_by_id ≡ user = ground (arith, w.result) in
      (
        p.organization,
        p.pricing.priced_lines,
        p.organization_found,
        priced.same_lines,
        priced.catalogued,
        priced.chosen,
        ground (arith, p.reasoned, priced.discount_iff),
        subst (λ (b : Bool). GrantedTo env call c b d r.approved_by_id) priced.approval_iff
            (subst (λ (u : Option ℕ). GrantedTo env call c p.pricing.requires_approval d u)
              (sym approver)
              (approve-GrantedTo env call c p.pricing.requires_approval d user mid p.approved)),
      )
