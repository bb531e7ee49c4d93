-- ===== src/Sales/Returns/Contract.antt =====
-- What a new return promises: the lines that it takes back, its value, its refund and the stock.
use dpg_business_app_starter.Base.{
  ℕ, ◌+◌, ◌*◌, ◌≡◌, ◌≤◌, some, false, List, [], ◌∷◌, arith, Option-cases, inl, inr, find, ◌==◌,
  sum_by,
}
use dpg_business_app_starter.Database.{
  Db, ok, Environment, Call, Sale, SaleLine, BalanceKey, on_hand,
}
use dpg_business_app_starter.Database.Laws.{Result-cases}
use dpg_business_app_starter.Sales.Returns.{
  ReturnLineCommand, ProcessSaleReturnCommand, SaleReturnResult, lines_of_sale, value_lines,
  effective_lines, price_of, refunded, return_row, sale_of, process_sale_return, returned_quantity,
}
use dpg_business_app_starter.Sales.Returns.Posting.{returned_at}
use dpg_business_app_starter.Sales.Returns.Safety.{new_return-Returned}

-- The value of a return: each line at the price of the sale.
abbrev value_at : List SaleLine → List ReturnLineCommand → ℕ
value_at sold = sum_by (λ l. price_of l.product_id sold * l.quantity)

value_lines-value :
    (returned : ℕ → ℕ) (sold : List SaleLine) (ls : List ReturnLineCommand) (value : ℕ)
    → value_lines returned sold ls ≡ ok value
    → value ≡ value_at sold ls
unfolding value_lines
value_lines-value returned sold [] value h = ground arith
value_lines-value returned sold (l ∷ ls) value h =
    elim (Option-cases (find (λ s. s.product_id == l.product_id) sold)) [
      | inl none_e ↦ absurd (ground arith)
      | inr (s, s_e) ↦ elim (Result-cases (value_lines returned sold ls)) [
        | inr (e, f) ↦ absurd (ground arith)
        | inl (rest, f) ↦ ground (arith, value_lines-value returned sold ls rest f)
      ]
    ]

module _ (env : Environment) (call : Call) (c : ProcessSaleReturnCommand) where
  -- A new return, of the effective lines of the command, into the warehouse of the sale.
  pub record IsReturned (db : Db) (r : SaleReturnResult) (db' : Db) : Type 0 where
    pub header :
        (r.sale_return_id ≡ call.uuid4 0)
        × (r.sale_id ≡ c.sale_id)
        × (r.kind ≡ c.kind)
        × (r.refund_resolution ≡ c.refund_resolution)
    pub sale : Sale
    pub sale_found : sale_of env call c db ≡ some sale
    pub lines : List ReturnLineCommand
    pub effective : effective_lines c db ≡ ok lines
    pub value : r.return_value ≡ value_at (lines_of_sale c.organization_id c.sale_id db) lines
    pub refund : r.refunded_amount ≡ refunded c.refund_resolution r.return_value
    pub refund_bound : r.refunded_amount ≤ r.return_value
    pub stored : db'.sale_returns ≡ return_row env call c r.return_value ∷ db.sale_returns
    pub stock :
        (k : BalanceKey)
        → on_hand k db'.balances
          ≡ on_hand k db.balances
            + returned_at env call c sale.warehouse_id
                (lines_of_sale c.organization_id c.sale_id db)
                k
                lines
    pub sale_lines : db'.sale_lines ≡ db.sale_lines
    pub sales : db'.sales ≡ db.sales

  pub new_return-IsReturned :
      (db : Db) (r : SaleReturnResult)
      → (process_sale_return env call c db).0 ≡ ok r
      → r.replayed ≡ false
      → IsReturned (call.concurrent db) r (process_sale_return env call c db).1
  new_return-IsReturned db r h n =
      let d = call.concurrent db in
      let w = new_return-Returned env call c db r h n in
      let v =
        value_lines-value (λ product. returned_quantity c.organization_id c.sale_id product d)
          (lines_of_sale c.organization_id c.sale_id d) w.lines w.value w.valued in
      record {
        header = ground (arith, w.result);
        sale = w.sale;
        sale_found = w.sale_found;
        lines = w.lines;
        effective = w.effective;
        value = ground (arith, w.result, v);
        refund = ground (arith, w.result);
        refund_bound = ground (arith, w.result);
        stored = ground (arith, w.result, w.sale_returns);
        stock = w.stock;
        sale_lines = ground (arith, w.others);
        sales = ground (arith, w.others);
      }
