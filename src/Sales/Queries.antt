-- ===== src/Sales/Queries.antt =====
-- The queries of app/modules/sales/use_cases.py: the discount policy, the list of the sales and the
-- receipt of a sale.
pub mod Receipts
pub mod NewSale
use dpg_business_app_starter.Base.{
  ℕ, String, Bool, true, ◌&&◌, ◌||◌, ◌==◌, ltb, not, Option, none, some, List, [], ◌∷◌, map, any,
  find, keep, sum_by, if◌then◌else◌,
}
use dpg_business_app_starter.Database.{
  Db, Result, ok, err, Environment, Organization, Warehouse, Sale, SaleLine, SaleReturn, ReturnKind,
  RefundResolution, sales_create, sales_read, invalid_sale_cursor, sale_not_found,
}
use dpg_business_app_starter.Database.Pages.{Page, fetch, newest_first, oldest_first, ordered}
use dpg_business_app_starter.Authorization.{CurrentMembership, allowed}
use dpg_business_app_starter.Inventory.Statements.{warehouse_row}
use dpg_business_app_starter.Sales.Returns.{lines_of_sale, of_sale, is_void}

pub record SaleSummary : Type 0 where
  pub id : ℕ
  pub warehouse_id : ℕ
  pub sold_by_id : ℕ
  pub approved_by_id : Option ℕ
  pub subtotal : ℕ
  pub discount_total : ℕ
  pub total : ℕ
  pub cost_total : ℕ
  pub created_at : ℕ

pub record ReceiptLine : Type 0 where
  pub product_id : ℕ
  pub sku : String
  pub name : String
  pub quantity : ℕ
  pub list_unit_price : ℕ
  pub unit_price : ℕ
  pub unit_cost : ℕ
  pub line_total : ℕ

pub record SaleAdjustment : Type 0 where
  pub id : ℕ
  pub kind : ReturnKind
  pub processed_by_id : ℕ
  pub refund_resolution : RefundResolution
  pub return_value : ℕ
  pub refunded_amount : ℕ
  pub reason : String
  pub created_at : ℕ

-- "VOIDED", "CONFIRMED", "RETURNED" and "PARTIALLY_RETURNED"
pub data SaleStatus : Type 0 where
  voided confirmed fully_returned partially_returned : SaleStatus

pub record SaleReceipt : Type 0 where
  pub sale_id : ℕ
  pub organization_name : String
  pub warehouse_id : ℕ
  pub warehouse_code : String
  pub warehouse_name : String
  pub sold_by_id : ℕ
  pub approved_by_id : Option ℕ
  pub approval_reason : Option String
  pub subtotal : ℕ
  pub discount_total : ℕ
  pub total : ℕ
  pub cost_total : ℕ
  pub created_at : ℕ
  pub status : SaleStatus
  pub lines : List ReceiptLine
  pub adjustments : List SaleAdjustment

abbrev pub sale_summary : Sale → SaleSummary
sale_summary s = record {
  id = s.id;
  warehouse_id = s.warehouse_id;
  sold_by_id = s.sold_by_id;
  approved_by_id = s.approved_by_id;
  subtotal = s.subtotal;
  discount_total = s.discount_total;
  total = s.total;
  cost_total = s.cost_total;
  created_at = s.created_at;
}

abbrev pub receipt_line : SaleLine → ReceiptLine
receipt_line l = record {
  product_id = l.product_id;
  sku = l.product_sku;
  name = l.product_name;
  quantity = l.quantity;
  list_unit_price = l.list_unit_price;
  unit_price = l.unit_price;
  unit_cost = l.unit_cost;
  line_total = l.line_total;
}

abbrev sale_adjustment : SaleReturn → SaleAdjustment
sale_adjustment r = record {
  id = r.id;
  kind = r.kind;
  processed_by_id = r.processed_by_id;
  refund_resolution = r.refund_resolution;
  return_value = r.return_value;
  refunded_amount = r.refunded_amount;
  reason = r.reason;
  created_at = r.created_at;
}

-- All pieces of the return lines of a sale.
unfoldable pub all_returned : ℕ → ℕ → Db → ℕ
all_returned organization sale db =
    sum_by (λ l. if l.organization_id == organization && l.sale_id == sale then l.quantity else 0)
      db.sale_return_lines

unfoldable pub sale_status : List SaleReturn → (returned sold : ℕ) → SaleStatus
sale_status adjustments returned sold =
    if any (λ r. is_void r.kind) adjustments
    then voided
    else if returned == 0
    then confirmed
    else if returned == sold
    then fully_returned
    else partially_returned

module _ (env : Environment) (m : CurrentMembership) where
  -- `order_by(SaleLine.product_sku, SaleLine.product_id)`
  abbrev pub line_before : SaleLine → SaleLine → Bool
  line_before k l =
      env.collates k.product_sku l.product_sku
      || (not (env.collates l.product_sku k.product_sku) && ltb k.product_id l.product_id)

  -- The answer with the joined organization and warehouse.
  unfoldable pub receipt_of : Db → Sale → Organization → Warehouse → SaleReceipt
  unfolding sale_status all_returned ordered
  receipt_of db s o w =
      let lines =
        ordered (λ l. l.product_id) line_before (lines_of_sale m.organization_id s.id db) in
      let adjustments =
        ordered (λ r. r.id) (oldest_first (λ r. r.created_at) (λ r. r.id))
          (keep (of_sale m.organization_id s.id) db.sale_returns) in
      record {
        sale_id = s.id;
        organization_name = o.name;
        warehouse_id = s.warehouse_id;
        warehouse_code = w.code;
        warehouse_name = w.name;
        sold_by_id = s.sold_by_id;
        approved_by_id = s.approved_by_id;
        approval_reason = s.approval_reason;
        subtotal = s.subtotal;
        discount_total = s.discount_total;
        total = s.total;
        cost_total = s.cost_total;
        created_at = s.created_at;
        status =
            sale_status adjustments (all_returned m.organization_id s.id db)
              (sum_by (λ l. l.quantity) lines);
        lines = map receipt_line lines;
        adjustments = map sale_adjustment adjustments;
      }

  unfoldable pub get_sale_receipt : (sale_id : ℕ) → Db → Result SaleReceipt
  unfolding allowed receipt_of
  get_sale_receipt sale_id db =
      allowed m sales_read
        (elim (find (λ s. s.organization_id == m.organization_id && s.id == sale_id) db.sales) [
          | none ↦ err sale_not_found
          | some s ↦ elim (find (λ o. o.id == s.organization_id) db.organizations) [
            | none ↦ err sale_not_found
            | some o ↦ elim (warehouse_row s.organization_id s.warehouse_id db) [
              | none ↦ err sale_not_found
              | some w ↦ ok (receipt_of db s o w)
            ]
          ]
        ])

module _ (m : CurrentMembership) where
  -- The rate of the organization; `None` where it is missing.
  unfoldable get_sales_policy : Db → Result (Option ℕ)
  unfolding allowed
  get_sales_policy db = allowed m sales_create (
      ok (elim (find (λ o. o.id == m.organization_id) db.organizations) [
        | none ↦ none
        | some o ↦ some o.salesperson_max_discount_rate
      ]))

  abbrev pub own_sale : Sale → Bool
  own_sale s = s.organization_id == m.organization_id

  abbrev pub newest_sale : Sale → Sale → Bool
  newest_sale = newest_first (λ s. s.created_at) (λ s. s.id)

  unfoldable pub list_sales : (limit : ℕ) (cursor : Option ℕ) → Db → Result (Page SaleSummary)
  unfolding allowed fetch
  list_sales limit cursor db = allowed m sales_read (
      fetch (λ s. s.id) newest_sale sale_summary own_sale (λ s. true) invalid_sale_cursor limit
        cursor db.sales)
