-- ===== src/Sales/RoundTrip.antt =====
-- A sale and its void together: `create_sale` of app/modules/sales/service.py and
-- `process_sale_return` of app/modules/sales/returns_service.py.
use mathlib.Core.List.{reverse}
use dpg_business_app_starter.Base.{
  ℕ, ◌+◌, ◌≡◌, refl, Bool, true, false, List, [], ◌∷◌, ◌++◌, map, arith, subst, ap, ap₂, any, keep,
  ◌==◌, ◌&&◌, if◌then◌else◌, sum_by, sum_by-reverse, sum_by-keep, sum_by_absent, sum_by-sort_by,
  sort_by, ◌∙◌,
}
use dpg_business_app_starter.Database.{
  Db, ok, Environment, Call, SaleLine, BalanceKey, on_hand, same_key, void,
}
use dpg_business_app_starter.Inventory.Statements.{available_key}
use dpg_business_app_starter.Sales.Commands.{CreateSaleCommand, SaleResult, SaleLineCommand}
use dpg_business_app_starter.Sales.Pricing.{PricedLine}
use dpg_business_app_starter.Sales.Checkout.{create_sale, sale_line_row}
use dpg_business_app_starter.Sales.Checkout.Contract.{
  ordered_at, new_sale_stock, new_sale-IsSold, IsSold,
}
use dpg_business_app_starter.Sales.Returns.{
  ProcessSaleReturnCommand, ReturnLineCommand, SaleReturnResult, lines_of_sale, void_lines,
  effective_lines, process_sale_return,
}
use dpg_business_app_starter.Sales.Returns.Posting.{returned_at}
use dpg_business_app_starter.Sales.Returns.Contract.{new_return-IsReturned, IsReturned}

module _ (env : Environment) (sale_call void_call : Call) (c : CreateSaleCommand)
    (v : ProcessSaleReturnCommand) where
  -- The void of the sale that the first call writes.
  pub record IsVoidOf : Type 0 where
    pub kind : v.kind ≡ void
    pub organization : v.organization_id ≡ c.organization_id
    pub sale : v.sale_id ≡ sale_call.uuid4 0

  -- What a line of the sale is worth at a key.
  abbrev line_at : BalanceKey → SaleLine → ℕ
  line_at k l =
      if same_key (available_key c.organization_id l.product_id c.warehouse_id) k
      then l.quantity
      else 0

  abbrev in_sale : SaleLine → Bool
  in_sale l = l.organization_id == c.organization_id && l.sale_id == sale_call.uuid4 0

  rows-ordered :
      (k : BalanceKey) (ls : List PricedLine)
      → sum_by
          (λ l. elim (in_sale l) [ true ↦ line_at k l | false ↦ 0 ])
          (map (sale_line_row env sale_call c) ls)
        ≡ ordered_at env sale_call c k (map (λ l. l.line) ls)
  rows-ordered k [] = refl
  rows-ordered k (l ∷ ls) = ground (arith, rows-ordered k ls)

  -- The lines of the sale are those that it has written, if its UUID was fresh.
  lines_of_sale-ordered :
      (k : BalanceKey) (ls : List PricedLine) (old : List SaleLine)
      → any in_sale old ≡ false
      → sum_by (line_at k) (keep in_sale (reverse (map (sale_line_row env sale_call c) ls) ++ old))
        ≡ ordered_at env sale_call c k (map (λ l. l.line) ls)
  lines_of_sale-ordered k ls old fresh =
      let rows = map (sale_line_row env sale_call c) ls in
      let f : SaleLine → ℕ = λ l. elim (in_sale l) [ true ↦ line_at k l | false ↦ 0 ] in
      omega (
        arith,
        sum_by-keep (line_at k) in_sale (reverse rows ++ old),
        sum_by-reverse f rows old,
        rows-ordered k ls,
        sum_by_absent (line_at k) in_sale old fresh,
      )

  void_lines-returned :
      (k : BalanceKey) (sold ls : List SaleLine)
      → v.organization_id ≡ c.organization_id
      → returned_at env void_call v c.warehouse_id sold k (void_lines ls) ≡ sum_by (line_at k) ls
  void_lines-returned k sold [] e = refl
  void_lines-returned k sold (l ∷ ls) e = ground (arith, void_lines-returned k sold ls e)

  -- The effective lines of a void, from the sale that is found.
  void_effective :
      (db : Db) (lines : List ReturnLineCommand)
      → v.kind ≡ void
      → effective_lines v db ≡ ok lines
      → lines
        ≡ void_lines (sort_by (λ l. l.product_id) (lines_of_sale v.organization_id v.sale_id db))
  unfolding effective_lines
  void_effective db lines e h = ground arith

  -- What the void of a written sale puts back.
  void_puts_back :
      (d mid : Db) (s : SaleResult) (r : SaleReturnResult) (out : Db) (k : BalanceKey)
      → IsVoidOf
      → any in_sale d.sale_lines ≡ false
      → IsSold env sale_call c d s mid
      → IsReturned env void_call v mid r out
      → on_hand k out.balances ≡ on_hand k mid.balances + ordered_at env sale_call c k c.lines
  void_puts_back d mid s r out k i fresh sold w =
      let found = lines_of_sale v.organization_id v.sale_id mid in
      let warehouse : w.sale.warehouse_id ≡ c.warehouse_id =
        ground (arith, sold.sales, w.sale_found, i.organization, i.sale) in
      let same_lines : found
          ≡ keep in_sale
              (reverse (map (sale_line_row env sale_call c) sold.priced_lines) ++ d.sale_lines) =
        ap₂ (λ o l. lines_of_sale o l mid) i.organization i.sale
        ∙ ap (λ (ls : List SaleLine). keep in_sale ls) sold.sale_lines in
      let returned : returned_at env void_call v w.sale.warehouse_id found k w.lines
          ≡ ordered_at env sale_call c k c.lines =
        ap₂ (λ (wh : ℕ) (ls : List ReturnLineCommand). returned_at env void_call v wh found k ls)
          warehouse (void_effective mid w.lines i.kind w.effective)
        ∙ void_lines-returned k found (sort_by (λ l. l.product_id) found) i.organization
        ∙ sum_by-sort_by (line_at k) (λ l. l.product_id) found
        ∙ ap (λ (ls : List SaleLine). sum_by (line_at k) ls) same_lines
        ∙ lines_of_sale-ordered k sold.priced_lines d.sale_lines fresh
        ∙ ap (λ (ls : List SaleLineCommand). ordered_at env sale_call c k ls) sold.same_lines in
      omega (arith, w.stock k, returned)

  -- A new sale that is voided at once leaves the stock at every key as it was before the sale: the
  -- void puts back what the sale took. The UUID of the sale must be fresh, and no other client may
  -- commit in between.
  pub void_restores_stock :
      (db : Db) (s : SaleResult) (r : SaleReturnResult) (k : BalanceKey)
      → IsVoidOf
      → any in_sale (sale_call.concurrent db).sale_lines ≡ false
      → (create_sale env sale_call c db).0 ≡ ok s
      → s.replayed ≡ false
      → void_call.concurrent (create_sale env sale_call c db).1 ≡ (create_sale env sale_call c db).1
      → (process_sale_return env void_call v (create_sale env sale_call c db).1).0 ≡ ok r
      → r.replayed ≡ false
      → on_hand k
          (process_sale_return env void_call v (create_sale env sale_call c db).1).1.balances
        ≡ on_hand k (sale_call.concurrent db).balances
  void_restores_stock db s r k i fresh h n quiet h' n' =
      let mid = (create_sale env sale_call c db).1 in
      let out = (process_sale_return env void_call v mid).1 in
      let sold = new_sale-IsSold env sale_call c db s h n in
      let returned : IsReturned env void_call v mid r out =
        subst (λ (d : Db). IsReturned env void_call v d r out) quiet
          (new_return-IsReturned env void_call v mid r h' n') in
      omega (
        arith,
        void_puts_back (sale_call.concurrent db) mid s r out k i fresh sold returned,
        new_sale_stock env sale_call c db s k h n,
      )
