-- ===== src/Sales/Queries/Receipts.antt =====
-- The list of the sales and the receipts after a sale and after a void
-- (app/modules/sales/use_cases.py).
use dpg_business_app_starter.Base.{
  ℕ, String, suc, ◌<◌, ◌≡◌, refl, arith, true, false, ◌&&◌, ◌==◌, none, some, List, [], ◌∷◌, any,
  find, find_sound, keep, length, inl, inr,
}
use dpg_business_app_starter.Database.{
  Db, ok, Environment, Call, Organization, Warehouse, Sale, SaleReturn, RefundResolution,
  sales_read, sales_return, invalid_sale_cursor,
}
use dpg_business_app_starter.Database.Laws.{Result-cases}
use dpg_business_app_starter.Database.Pages.{oldest_first}
use dpg_business_app_starter.Database.Pages.Order.{HasIds, newest_first-IsListing, any-ordered}
use dpg_business_app_starter.Database.Pages.Walk.{read_pages}
use dpg_business_app_starter.Database.Pages.Complete.{ReadsAll, keep_unjoined, reads_all}
use dpg_business_app_starter.Authorization.{CurrentMembership, require_permission}
use dpg_business_app_starter.Authorization.Policy.{permission_granted_iff}
use dpg_business_app_starter.Inventory.Statements.{warehouse_row}
use dpg_business_app_starter.Sales.Returns.{SaleReturnResult, process_sale_return, of_sale, is_void}
use dpg_business_app_starter.Sales.Returns.Safety.{new_return-Returned}
use dpg_business_app_starter.Sales.UseCases.{void_command, void_sale}
use dpg_business_app_starter.Sales.UseCases.Permissions.{may_return}
use dpg_business_app_starter.Sales.Queries.{
  SaleReceipt, voided, sale_summary, sale_status, own_sale, newest_sale, receipt_of,
  get_sale_receipt, list_sales,
}

-- A member with the permission to read the sales, who follows the cursors with pages of a positive
-- size, reads every sale of their organization exactly once, the newest first, if the ids of the
-- sales are different.
pub sales_list_complete :
    (m : CurrentMembership) (limit : ℕ) (db : Db)
    → require_permission m sales_read ≡ ok tt
    → 0 < limit
    → HasIds (λ s. s.id) db.sales
    → ReadsAll
        (λ s. s.id)
        (newest_sale m)
        sale_summary
        (read_pages
          (suc (length (keep (own_sale m) db.sales)))
          (λ cursor. list_sales m limit cursor db)
          none)
        (keep (own_sale m) db.sales)
unfolding list_sales
sales_list_complete m limit db p pos unique =
    reads_all (λ s. s.id) (newest_sale m) sale_summary (own_sale m) (λ s. true) invalid_sale_cursor
      limit db.sales (keep (own_sale m) db.sales) (λ cursor. list_sales m limit cursor db)
      (newest_first-IsListing (λ s. s.created_at) (λ s. s.id)) unique pos
      (keep_unjoined (λ s. s.id) (newest_sale m) (own_sale m) db.sales) (λ cursor. ground arith)

-- An administrator may also read the sales.
admin_reads : (m : CurrentMembership) → m.role ≡ "admin" → require_permission m sales_read ≡ ok tt
admin_reads m admin = (permission_granted_iff m sales_read).1 (inl admin)

-- A void among the adjustments decides the status, in whatever order they stand.
void_is_kept :
    (organization sale : ℕ) (rs : List SaleReturn)
    → any (λ r. is_void r.kind) (keep (of_sale organization sale) rs)
      ≡ any (λ r. of_sale organization sale r && is_void r.kind) rs
void_is_kept organization sale [] = refl
void_is_kept organization sale (r ∷ rs) = ground (arith, void_is_kept organization sale rs)

receipt_voided :
    (env : Environment) (m : CurrentMembership) (db : Db) (s : Sale) (o : Organization)
    (w : Warehouse)
    → any (λ r. of_sale m.organization_id s.id r && is_void r.kind) db.sale_returns ≡ true
    → (receipt_of env m db s o w).status ≡ voided
unfolding receipt_of sale_status
receipt_voided env m db s o w h = ground (
  arith,
  any-ordered (λ r. r.id) (oldest_first (λ r. r.created_at) (λ r. r.id)) (λ r. is_void r.kind)
      (keep (of_sale m.organization_id s.id) db.sale_returns),
  void_is_kept m.organization_id s.id db.sale_returns,
)

pub receipt_read :
    (env : Environment) (m : CurrentMembership) (sale : ℕ) (db : Db) (s : Sale) (o : Organization)
    (w : Warehouse)
    → require_permission m sales_read ≡ ok tt
    → find (λ s. s.organization_id == m.organization_id && s.id == sale) db.sales ≡ some s
    → find (λ o. o.id == s.organization_id) db.organizations ≡ some o
    → warehouse_row s.organization_id s.warehouse_id db ≡ some w
    → get_sale_receipt env m sale db ≡ ok (receipt_of env m db s o w)
unfolding get_sale_receipt
receipt_read env m sale db s o w p f g h = ground arith

module _ (env : Environment) (call : Call) (m : CurrentMembership) where
  void_is_permitted :
      (sale : ℕ) (resolution : RefundResolution) (reason key : String) (db : Db)
      (r : SaleReturnResult)
      → (void_sale env call m sale resolution reason key db).0 ≡ ok r
      → (require_permission m sales_return ≡ ok tt)
        × (void_sale env call m sale resolution reason key db
            ≡ process_sale_return env call (void_command m sale resolution reason key) db)
  unfolding void_sale
  void_is_permitted sale resolution reason key db r h =
      elim (Result-cases (require_permission m sales_return)) [
        | inr (e, f) ↦ absurd (ground arith)
        | inl (tt, f) ↦ (f, ground arith)
      ]

  -- After a new void of a sale, whose organization and warehouse are there, the one who voided it
  -- gets a receipt of that sale that says VOIDED and shows the total of the sale unchanged.
  pub voided_sale_receipt :
      (sale : ℕ) (resolution : RefundResolution) (reason key : String) (db : Db)
      (r : SaleReturnResult) (s : Sale) (o : Organization) (w : Warehouse)
      → (void_sale env call m sale resolution reason key db).0 ≡ ok r
      → r.replayed ≡ false
      → find
          (λ s. s.organization_id == m.organization_id && s.id == sale)
          (call.concurrent db).sales
        ≡ some s
      → find (λ o. o.id == s.organization_id) (call.concurrent db).organizations ≡ some o
      → warehouse_row s.organization_id s.warehouse_id (call.concurrent db) ≡ some w
      → (receipt : SaleReceipt) × (get_sale_receipt env m sale
            (void_sale env call m sale resolution reason key db).1
          ≡ ok receipt)
        × (receipt.status ≡ voided)
        × (receipt.total ≡ s.total)
  unfolding receipt_of
  voided_sale_receipt sale resolution reason key db r s o w h n s_e o_e w_e =
      let c = void_command m sale resolution reason key in
      let d = call.concurrent db in
      let (may, same) = void_is_permitted sale resolution reason key db r h in
      let t = new_return-Returned env call c db r (ground arith) n in
      let after = (void_sale env call m sale resolution reason key db).1 in
      let id_e : s.id ≡ sale = ground (
        arith,
        find_sound (λ s. s.organization_id == m.organization_id && s.id == sale) d.sales s s_e,
      ) in
      (
        receipt_of env m after s o w,
        receipt_read env m sale after s o w (admin_reads m (may_return m may))
            (ground (arith, same, t.others, s_e)) (ground (arith, same, t.others, o_e))
            (ground (arith, same, t.others, w_e)),
        receipt_voided env m after s o w (ground (arith, same, t.sale_returns)),
        refl,
      )
