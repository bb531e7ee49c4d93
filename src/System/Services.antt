-- ===== src/System/Services.antt =====
-- Every service keeps the books in order.
use mathlib.Core.List.{reverse}
use dpg_business_app_starter.Base.{
  ℕ, ◌≡◌, refl, sym, subst, ◌∙◌, arith, String, Bool, false, not, ◌==◌, Option, map, any,
  Bool-cases, inl, inr,
}
use dpg_business_app_starter.Database.{
  Db, Result, Environment, Call, Permission, inventory_transfer, sales_create, sales_return,
  RefundResolution,
}
use dpg_business_app_starter.Database.Laws.{Result-cases, Outcome-keeps}
use dpg_business_app_starter.Authorization.{CurrentMembership, require_permission}
use dpg_business_app_starter.Inventory.Movement.{
  RecordMovementCommand, movement_replay, movement_transaction, record_stock_movement,
}
use dpg_business_app_starter.Inventory.Movement.Effects.{
  movement_transaction-writes, record_stock_movement-Outcome, record_stock_movement-IsConsistent,
}
use dpg_business_app_starter.Inventory.Transfer.{
  TransferStockCommand, transfer_replay, transfer_transaction, transfer_stock,
}
use dpg_business_app_starter.Inventory.Transfer.Effects.{
  transfer_transaction-writes, transfer_stock-Outcome, transfer_stock-IsConsistent,
}
use dpg_business_app_starter.Inventory.UseCases.{
  RecordManualMovementCommand, TransferInventoryCommand, movement_permission, movement_command,
  transfer_command, permitted, record_manual_stock_movement, transfer_inventory,
}
use dpg_business_app_starter.Sales.Commands.{CreateSaleCommand, SaleResult}
use dpg_business_app_starter.Sales.Approval.{granted}
use dpg_business_app_starter.Sales.Checkout.{create_sale, sale_line_row}
use dpg_business_app_starter.Sales.Checkout.Committed.{approve-writes}
use dpg_business_app_starter.Sales.Checkout.Safety.{
  CommittedSale, create_sale_outcome, completed-CommittedSale, refused-writes,
  create_sale-IsConsistent,
}
use dpg_business_app_starter.Sales.Returns.{
  ProcessSaleReturnCommand, return_replay, return_transaction, process_sale_return,
}
use dpg_business_app_starter.Sales.Returns.Safety.{
  return_transaction-cases, process_sale_return-Outcome, process_sale_return-IsConsistent,
}
use dpg_business_app_starter.Sales.Returns.Limits.{IsWithinSold, process_sale_return-IsWithinSold}
use dpg_business_app_starter.Sales.Returns.Quantities.{IsFreshId}
use dpg_business_app_starter.Sales.UseCases.{
  SubmitSaleCommand, SubmitSaleReturnCommand, sale_command, return_command, void_command,
  submit_sale, submit_sale_return, void_sale,
}
use dpg_business_app_starter.Catalog.Products.{create_product, update_product}
use dpg_business_app_starter.Catalog.Products.Safety.{
  IsCatalog, has_key, create_product-writes, create_product-IsCatalog, update_product-writes,
  update_product-IsCatalog,
}
use dpg_business_app_starter.System.{IsSound}
use dpg_business_app_starter.System.Frames.{SameSales, same-IsWithinSold, sold-IsWithinSold}

-- What is to be shown next to the agreement of the stock and its history.
abbrev Kept : Db → Type 0
Kept db = IsWithinSold db × IsCatalog db.products

same-Kept : (d e : Db) → SameSales d e → e.products ≡ d.products → Kept d → Kept e
same-Kept d e s p (within, catalog) =
    (same-IsWithinSold d e s within, subst IsCatalog (sym p) catalog)

kept : (db : Db) → IsSound db → Kept db
kept db h = (h.within, h.catalog)

module _ {A : Type 0} where
  -- A permission or its absence.
  permitted-IsSound :
      (m : CurrentMembership) (p : Permission) (run : Db → Result A × Db) (db : Db)
      → IsSound db
      → IsSound (run db).1
      → IsSound (permitted m p run db).1
  unfolding permitted
  permitted-IsSound m p run db h k = elim (Result-cases (require_permission m p)) [
    | inr (e, f) ↦ subst IsSound (sym (ground arith)) h
    | inl (u, f) ↦ subst IsSound (sym (ground arith)) k
  ]

module _ (env : Environment) (call : Call) (db : Db) (h : IsSound db)
    (hc : IsSound (call.concurrent db)) where
  record_stock_movement-IsSound :
      (c : RecordMovementCommand) → IsSound (record_stock_movement env call c db).1
  record_stock_movement-IsSound c =
      let (within, catalog) =
        Outcome-keeps (movement_replay env c) call.concurrent (movement_transaction env call c) db
          Kept (kept db h) (kept (call.concurrent db) hc)
          (λ r db' e.
            let w = movement_transaction-writes env call c (call.concurrent db) r db' e in
            same-Kept (call.concurrent db) db' (ground (arith, w.0)) (ground (arith, w.0))
              (kept (call.concurrent db) hc))
          (record_stock_movement env call c db) (record_stock_movement-Outcome env call c db) in
      record {
        consistent = record_stock_movement-IsConsistent env call c db h.consistent hc.consistent;
        within = within;
        catalog = catalog;
      }

  transfer_stock-IsSound : (c : TransferStockCommand) → IsSound (transfer_stock env call c db).1
  transfer_stock-IsSound c =
      let (within, catalog) =
        Outcome-keeps (transfer_replay env c) call.concurrent (transfer_transaction env call c) db
          Kept (kept db h) (kept (call.concurrent db) hc)
          (λ r db' e.
            let w = transfer_transaction-writes env call c (call.concurrent db) r db' e in
            same-Kept (call.concurrent db) db' (ground (arith, w.0)) (ground (arith, w.0))
              (kept (call.concurrent db) hc))
          (transfer_stock env call c db) (transfer_stock-Outcome env call c db) in
      record {
        consistent = transfer_stock-IsConsistent env call c db h.consistent hc.consistent;
        within = within;
        catalog = catalog;
      }

  process_sale_return-IsSound :
      (c : ProcessSaleReturnCommand)
      → IsFreshId (call.uuid4 0) (call.concurrent db)
      → IsSound (process_sale_return env call c db).1
  process_sale_return-IsSound c fresh = record {
    consistent = process_sale_return-IsConsistent env call c db h.consistent hc.consistent;
    within = process_sale_return-IsWithinSold env call c db h.within hc.within fresh;
    catalog =
        Outcome-keeps (return_replay env c) call.concurrent (return_transaction env call c) db
          (λ d. IsCatalog d.products) h.catalog hc.catalog
          (λ r db' e. elim (return_transaction-cases env call c (call.concurrent db) r db' e) [
            | inl (same, _) ↦ subst (λ (d : Db). IsCatalog d.products) (sym same) hc.catalog
            | inr w ↦ subst (λ (d : Db). IsCatalog d.products) (sym w.others) hc.catalog
          ])
          (process_sale_return env call c db) (process_sale_return-Outcome env call c db);
  }

  sold-Kept :
      (c : CreateSaleCommand) (r : SaleResult) (db' : Db)
      → CommittedSale env call c (call.concurrent db) r db'
      → Kept db'
  unfolding CommittedSale
  sold-Kept c r db' (user, mid, p, w) =
      let d = call.concurrent db in
      let same_mid =
        approve-writes env call c p.pricing.requires_approval d (granted user) mid p.approved in
      (
        sold-IsWithinSold d db' (reverse (map (sale_line_row env call c) p.pricing.priced_lines))
            (ground (arith, w.sale_lines, same_mid)) (ground (arith, w.others, same_mid))
            (ground (arith, w.others, same_mid)) hc.within,
        subst IsCatalog (sym (ground (arith, w.others, same_mid))) hc.catalog,
      )

  refused-Kept :
      (c : CreateSaleCommand) (db' : Db)
      → db' ≡ record (call.concurrent db) { memberships = db'.memberships }
      → Kept db'
  refused-Kept c db' e =
      same-Kept (call.concurrent db) db' (ground (arith, e)) (ground (arith, e))
        (kept (call.concurrent db) hc)

  create_sale-IsSound : (c : CreateSaleCommand) → IsSound (create_sale env call c db).1
  create_sale-IsSound c =
      let out = create_sale env call c db in
      let (within, catalog) : Kept out.1 = elim (create_sale_outcome env call c db) [
        | inl (e, _) ↦ subst Kept (sym e) (kept db h)
        | inr (inl (e, _)) ↦ subst Kept (sym e) (kept (call.concurrent db) hc)
        | inr (inr (inl (r, db', e, f))) ↦
            subst (λ (o : Result SaleResult × Db). Kept o.1) (sym f)
              (sold-Kept c r db' (completed-CommittedSale env call c (call.concurrent db) r db' e))
        | inr (inr (inr (x, db', e, f))) ↦
            subst (λ (o : Result SaleResult × Db). Kept o.1) (sym f)
              (refused-Kept c db' (refused-writes env call c (call.concurrent db) x db' e))
      ] in
      record {
        consistent = create_sale-IsConsistent env call c db h.consistent hc.consistent;
        within = within;
        catalog = catalog;
      }

  module _ (m : CurrentMembership) where
    pub record_manual_stock_movement-IsSound :
        (c : RecordManualMovementCommand) → IsSound (record_manual_stock_movement env call m c db).1
    unfolding record_manual_stock_movement
    record_manual_stock_movement-IsSound c =
        elim (Bool-cases (not (m.organization_id == c.organization_id))) [
          | inl e ↦ rw e h
          | inr e ↦ rw e (
              permitted-IsSound m (movement_permission c.movement_type)
                (record_stock_movement env call (movement_command m c)) db h
                (record_stock_movement-IsSound (movement_command m c)))
        ]

    pub transfer_inventory-IsSound :
        (c : TransferInventoryCommand) → IsSound (transfer_inventory env call m c db).1
    unfolding transfer_inventory
    transfer_inventory-IsSound c =
        elim (Bool-cases (not (m.organization_id == c.organization_id))) [
          | inl e ↦ rw e h
          | inr e ↦ rw e (
              permitted-IsSound m inventory_transfer
                (transfer_stock env call (transfer_command m c)) db h
                (transfer_stock-IsSound (transfer_command m c)))
        ]

    pub submit_sale-IsSound : (c : SubmitSaleCommand) → IsSound (submit_sale env call m c db).1
    unfolding submit_sale
    submit_sale-IsSound c =
        permitted-IsSound m sales_create (create_sale env call (sale_command m c)) db h
          (create_sale-IsSound (sale_command m c))

    pub submit_sale_return-IsSound :
        (c : SubmitSaleReturnCommand)
        → IsFreshId (call.uuid4 0) (call.concurrent db)
        → IsSound (submit_sale_return env call m c db).1
    unfolding submit_sale_return
    submit_sale_return-IsSound c fresh =
        permitted-IsSound m sales_return (process_sale_return env call (return_command m c)) db h
          (process_sale_return-IsSound (return_command m c) fresh)

    pub void_sale-IsSound :
        (sale : ℕ) (resolution : RefundResolution) (reason key : String)
        → IsFreshId (call.uuid4 0) (call.concurrent db)
        → IsSound (void_sale env call m sale resolution reason key db).1
    unfolding void_sale
    void_sale-IsSound sale resolution reason key fresh =
        permitted-IsSound m sales_return
          (process_sale_return env call (void_command m sale resolution reason key)) db h
          (process_sale_return-IsSound (void_command m sale resolution reason key) fresh)

module _ (env : Environment) (call : Call) (m : CurrentMembership) (db : Db) (h : IsSound db) where
  with_products :
      (d : Db) → d ≡ record db { products = d.products } → IsCatalog d.products → IsSound d
  with_products d e catalog = subst IsSound (sym e) (record {
    consistent = h.consistent;
    within = same-IsWithinSold db (record db { products = d.products }) (refl, refl, refl) h.within;
    catalog = catalog;
  })

  pub create_product-IsSound :
      (sku name : String) (cost sale_price : ℕ)
      → any (has_key m.organization_id (call.uuid4 0)) db.products ≡ false
      → IsSound (create_product env call m sku name cost sale_price db).1
  create_product-IsSound sku name cost sale_price fresh =
      with_products (create_product env call m sku name cost sale_price db).1
        (elim (create_product-writes env call m sku name cost sale_price db) [
          | inl same ↦ same ∙ ground (arith, same)
          | inr (_, written) ↦ ground (arith, written)
        ])
        (create_product-IsCatalog env call m sku name cost sale_price db h.catalog fresh)

  pub update_product-IsSound :
      (id : ℕ) (name : Option String) (active : Option Bool) (cost sale_price : Option ℕ)
      → IsSound (update_product env call m id name active cost sale_price db).1
  update_product-IsSound id name active cost sale_price =
      with_products (update_product env call m id name active cost sale_price db).1
        (elim (update_product-writes env call m id name active cost sale_price db) [
          | inl same ↦ same ∙ ground (arith, same)
          | inr (_, _, _, written) ↦ ground (arith, written)
        ])
        (update_product-IsCatalog env call m id name active cost sale_price db h.catalog)
