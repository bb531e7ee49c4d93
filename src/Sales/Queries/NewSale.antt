-- ===== src/Sales/Queries/NewSale.antt =====
-- The receipt of a new sale (app/modules/sales/use_cases.py).
use dpg_business_app_starter.Base.{
  ◌-◌, ℕ, ◌≡◌, refl, sym, subst, ap, ap₂, ◌∙◌, arith, false, ◌&&◌, ◌==◌, some, List, [], ◌∷◌, ◌++◌,
  map, any, find, keep, keep-reverse, sum_by, inl, inr, Perm-map, if◌then◌else◌,
}
use mathlib.Core.List.{reverse, Perm, reverse_perm, append-nil}
use mathlib.Core.List.Perm
use dpg_business_app_starter.Database.{
  Db, ok, Environment, Call, Organization, Warehouse, Sale, SaleLine, SaleReturn, SaleReturnLine,
  sales_read, sales_create,
}
use dpg_business_app_starter.Database.Laws.{Result-cases}
use dpg_business_app_starter.Database.Pages.{ordered}
use dpg_business_app_starter.Database.Pages.Complete.{Perm-ordered}
use dpg_business_app_starter.Authorization.{CurrentMembership, require_permission}
use dpg_business_app_starter.Authorization.Policy.{permission_granted_iff}
use dpg_business_app_starter.Inventory.Statements.{warehouse_row}
use dpg_business_app_starter.Sales.Commands.{SaleLineCommand, SaleResult}
use dpg_business_app_starter.Sales.Pricing.{subtotal_of, total_of, PricedLine}
use dpg_business_app_starter.Sales.Checkout.{create_sale, sale_row, sale_line_row}
use dpg_business_app_starter.Sales.Checkout.Safety.{CommittedSale, new_sale-CommittedSale}
use dpg_business_app_starter.Sales.Checkout.Committed.{approve-writes}
use dpg_business_app_starter.Sales.Checkout.Contract.{new_sale-IsSold}
use dpg_business_app_starter.Sales.Returns.{of_sale, lines_of_sale}
use dpg_business_app_starter.Sales.UseCases.{SubmitSaleCommand, sale_command, submit_sale}
use dpg_business_app_starter.Sales.UseCases.Permissions.{may_sell}
use dpg_business_app_starter.Sales.Queries.{
  SaleReceipt, ReceiptLine, receipt_line, confirmed, sale_status, all_returned, receipt_of,
  get_sale_receipt, line_before,
}
use dpg_business_app_starter.Sales.Queries.Receipts.{receipt_read}

-- No row of a sale that is still to be written is there yet: a fresh UUID.
pub record IsUnsold (sale : ℕ) (db : Db) : Type 0 where
  pub lines : any (λ l. l.sale_id == sale) db.sale_lines ≡ false
  pub returns : any (λ r. r.sale_id == sale) db.sale_returns ≡ false
  pub return_lines : any (λ l. l.sale_id == sale) db.sale_return_lines ≡ false

-- Whoever may sell may read the sales.
seller_reads :
    (m : CurrentMembership)
    → require_permission m sales_create ≡ ok tt
    → require_permission m sales_read ≡ ok tt
seller_reads m h = elim (may_sell m h) [
  | inl admin ↦ (permission_granted_iff m sales_read).1 (inl admin)
  | inr sales ↦ (permission_granted_iff m sales_read).1 (inr (inr (sales, tt)))
]

lines_absent :
    (organization sale : ℕ) (ls : List SaleLine)
    → any (λ l. l.sale_id == sale) ls ≡ false
    → keep (λ l. l.organization_id == organization && l.sale_id == sale) ls ≡ []
lines_absent organization sale [] h = refl
lines_absent organization sale (l ∷ ls) h = ground (arith, lines_absent organization sale ls)

returns_absent :
    (organization sale : ℕ) (rs : List SaleReturn)
    → any (λ r. r.sale_id == sale) rs ≡ false
    → keep (of_sale organization sale) rs ≡ []
returns_absent organization sale [] h = refl
returns_absent organization sale (r ∷ rs) h = ground (arith, returns_absent organization sale rs)

return_lines_absent :
    (organization sale : ℕ) (ls : List SaleReturnLine)
    → any (λ l. l.sale_id == sale) ls ≡ false
    → sum_by
        (λ l. if l.organization_id == organization && l.sale_id == sale then l.quantity else 0)
        ls
      ≡ 0
return_lines_absent organization sale [] h = refl
return_lines_absent organization sale (l ∷ ls) h =
    ground (arith, return_lines_absent organization sale ls)

module _ (env : Environment) (call : Call) (m : CurrentMembership) (c : SubmitSaleCommand) where
  -- The rows of the new sale are the lines of its receipt.
  lines_new :
      (ls : List PricedLine)
      → keep
          (λ l. l.organization_id == m.organization_id && l.sale_id == call.uuid4 0)
          (map (sale_line_row env call (sale_command m c)) ls)
        ≡ map (sale_line_row env call (sale_command m c)) ls
  lines_new [] = refl
  lines_new (l ∷ ls) = ground (arith, lines_new ls)

  new_lines_of_sale :
      (ls : List PricedLine) (db db' : Db)
      → db'.sale_lines
        ≡ reverse (map (sale_line_row env call (sale_command m c)) ls) ++ db.sale_lines
      → any (λ l. l.sale_id == call.uuid4 0) db.sale_lines ≡ false
      → lines_of_sale m.organization_id (call.uuid4 0) db'
        ≡ reverse (map (sale_line_row env call (sale_command m c)) ls)
  new_lines_of_sale ls db db' e h =
      let own =
        λ (l : SaleLine). l.organization_id == m.organization_id && l.sale_id == call.uuid4 0 in
      let rows = map (sale_line_row env call (sale_command m c)) ls in
      ap (keep own) e
      ∙ keep-reverse own rows db.sale_lines
      ∙ ap₂ (λ (a b : List SaleLine). reverse a ++ b) (lines_new ls)
          (lines_absent m.organization_id (call.uuid4 0) db.sale_lines h)
      ∙ append-nil (reverse rows)

  -- The product and the quantity of a line.
  abbrev pub bought : ReceiptLine → ℕ × ℕ
  bought l = (l.product_id, l.quantity)

  abbrev ordered_line : SaleLineCommand → ℕ × ℕ
  ordered_line l = (l.product_id, l.quantity)

  lines-bought :
      (ls : List PricedLine)
      → map bought (map receipt_line (map (sale_line_row env call (sale_command m c)) ls))
        ≡ map ordered_line (map (λ l. l.line) ls)
  lines-bought [] = refl
  lines-bought (l ∷ ls) = ap (◌∷◌ (l.line.product_id, l.line.quantity)) (lines-bought ls)

  receipt-lines :
      (ls : List PricedLine) (db db' : Db) (s : Sale) (o : Organization) (w : Warehouse)
      → db'.sale_lines
        ≡ reverse (map (sale_line_row env call (sale_command m c)) ls) ++ db.sale_lines
      → any (λ l. l.sale_id == call.uuid4 0) db.sale_lines ≡ false
      → s.id ≡ call.uuid4 0
      → Perm
          (map bought (receipt_of env m db' s o w).lines)
          (map ordered_line (map (λ l. l.line) ls))
  unfolding receipt_of
  receipt-lines ls db db' s o w e h i =
      let rows = map (sale_line_row env call (sale_command m c)) ls in
      let stored : lines_of_sale m.organization_id s.id db' ≡ reverse rows =
        ap (λ (n : ℕ). lines_of_sale m.organization_id n db') i ∙ new_lines_of_sale ls db db' e h in
      subst (λ (l : List (ℕ × ℕ)). Perm (map bought (receipt_of env m db' s o w).lines) l)
        (lines-bought ls)
        (Perm-map bought (
          Perm-map receipt_line (
            Perm.trans
              (Perm-ordered (λ l. l.product_id) (line_before env m)
                (lines_of_sale m.organization_id s.id db'))
              (subst (λ (l : List SaleLine). Perm l rows) (sym stored) (reverse_perm rows)))))

  sale_is_permitted :
      (db : Db) (r : SaleResult)
      → (submit_sale env call m c db).0 ≡ ok r
      → (require_permission m sales_create ≡ ok tt)
        × (submit_sale env call m c db ≡ create_sale env call (sale_command m c) db)
  unfolding submit_sale
  sale_is_permitted db r h = elim (Result-cases (require_permission m sales_create)) [
    | inr (e, f) ↦ absurd (ground arith)
    | inl (tt, f) ↦ (f, ground arith)
  ]

  receipt_confirmed :
      (db : Db) (s : Sale) (o : Organization) (w : Warehouse)
      → any (λ r. r.sale_id == s.id) db.sale_returns ≡ false
      → any (λ l. l.sale_id == s.id) db.sale_return_lines ≡ false
      → (receipt_of env m db s o w).status ≡ confirmed
  unfolding receipt_of sale_status all_returned ordered
  receipt_confirmed db s o w h k = ground (
    arith,
    returns_absent m.organization_id s.id db.sale_returns h,
    return_lines_absent m.organization_id s.id db.sale_return_lines k,
  )

  -- After a new sale, whose organization and warehouse are there and whose UUID is fresh, the seller
  -- gets its receipt. The receipt says CONFIRMED, names the seller and the approver, shows the
  -- subtotal, the discount, the total and the cost of the result as the columns hold them, and its lines are the products and quantities
  -- that were ordered, in some order.
  pub new_sale_receipt :
      (db : Db) (r : SaleResult) (o : Organization) (w : Warehouse)
      → (submit_sale env call m c db).0 ≡ ok r
      → r.replayed ≡ false
      → IsUnsold (call.uuid4 0) (call.concurrent db)
      → find (λ o. o.id == m.organization_id) (call.concurrent db).organizations ≡ some o
      → warehouse_row m.organization_id c.warehouse_id (call.concurrent db) ≡ some w
      → (receipt : SaleReceipt) × (get_sale_receipt env m r.sale_id (submit_sale env call m c db).1
          ≡ ok receipt)
        × (receipt.status ≡ confirmed)
        × (receipt.sold_by_id ≡ m.user_id)
        × (receipt.approved_by_id ≡ r.approved_by_id)
        × (receipt.subtotal ≡ env.stored r.subtotal)
        × (receipt.discount_total ≡ env.stored r.discount_total)
        × (receipt.total ≡ env.stored r.total)
        × (receipt.cost_total ≡ env.stored r.cost_total)
        × Perm (map bought receipt.lines) (map ordered_line c.lines)
  unfolding CommittedSale receipt_of
  new_sale_receipt db r o w h n fresh o_e w_e =
      let (may, same) = sale_is_permitted db r h in
      let command = sale_command m c in
      let created : (create_sale env call command db).0 ≡ ok r = ground arith in
      let sold = new_sale-IsSold env call command db r created n in
      let (user, mid, p, written) = new_sale-CommittedSale env call command db r created n in
      let d = call.concurrent db in
      let after = (submit_sale env call m c db).1 in
      let prepared =
        approve-writes env call command p.pricing.requires_approval d _ mid p.approved in
      let s = sale_row env call command r.approved_by_id sold.priced_lines in
      let others = written.others in
      let discount : subtotal_of sold.priced_lines - total_of sold.priced_lines ≡ r.discount_total =
        omega (arith, sold.discount_total, sold.subtotal, sold.total) in
      (
        receipt_of env m after s o w,
        receipt_read env m r.sale_id after s o w (seller_reads m may)
            (ground (arith, same, sold.sales, sold.sale_id))
            (ground (arith, same, others, prepared)) (ground (arith, same, others, prepared)),
        receipt_confirmed after s o w (ground (arith, same, others, prepared, fresh.returns))
            (ground (arith, same, others, prepared, fresh.return_lines)),
        refl,
        refl,
        ap env.stored (sym sold.subtotal),
        ap env.stored discount,
        ap env.stored (sym sold.total),
        ap env.stored (sym sold.cost_total),
        subst
            (λ (ls : List SaleLineCommand).
              Perm (map bought (receipt_of env m after s o w).lines) (map ordered_line ls))
            sold.same_lines
            (receipt-lines sold.priced_lines d after s o w (ground (arith, same, sold.sale_lines))
              fresh.lines refl),
      )
