-- ===== src/Catalog/Products/RoundTrip.antt =====
-- What is read of a product after it was written (app/modules/products/use_cases.py).
use dpg_business_app_starter.Base.{
  ℕ, ◌≡◌, arith, String, Bool, ◌&&◌, ◌==◌, Option, some, find-update_where, Option-cases, inl, inr,
}
use dpg_business_app_starter.Database.{
  Db, ok, Environment, Call, Product, catalog_manage, inventory_read,
}
use dpg_business_app_starter.Database.Laws.{Result-cases}
use dpg_business_app_starter.Authorization.{CurrentMembership, require_permission}
use dpg_business_app_starter.Authorization.Policy.{permission_granted_iff}
use dpg_business_app_starter.Inventory.Statements.{product_row}
use dpg_business_app_starter.Catalog.Products.{
  ProductItem, product_item, insert_product, changed_product, create_product, update_product,
}
use dpg_business_app_starter.Catalog.Products.Queries.{get_product}

-- Whoever may change the catalog may read it.
manager_reads :
    (m : CurrentMembership)
    → require_permission m catalog_manage ≡ ok tt
    → require_permission m inventory_read ≡ ok tt
manager_reads m h = elim ((permission_granted_iff m catalog_manage).0 h) [
  | inl admin ↦ (permission_granted_iff m inventory_read).1 (inl admin)
  | inr (inl (_, refuted)) ↦ absurd refuted
  | inr (inr (_, refuted)) ↦ absurd refuted
]

product_read :
    (m : CurrentMembership) (id : ℕ) (db : Db) (p : Product)
    → require_permission m inventory_read ≡ ok tt
    → product_row m.organization_id id db ≡ some p
    → get_product m id db ≡ ok (product_item p)
unfolding get_product
product_read m id db p h f = ground arith

module _ (env : Environment) (call : Call) (m : CurrentMembership) where
  -- A product that was created is read back by its creator as the answer of the creation says.
  created_product_read :
      (sku name : String) (cost sale_price : ℕ) (db : Db) (item : ProductItem)
      → (create_product env call m sku name cost sale_price db).0 ≡ ok item
      → get_product m item.id (create_product env call m sku name cost sale_price db).1 ≡ ok item
  unfolding create_product insert_product get_product
  created_product_read sku name cost sale_price db item h =
      elim (Result-cases (require_permission m catalog_manage)) [
        | inr (e, r) ↦ absurd (ground arith)
        | inl (tt, r) ↦ ground (arith, manager_reads m r)
      ]

  -- A product that was updated is read back by its manager as the answer of the update says.
  pub updated_product_read :
      (id : ℕ) (name : Option String) (active : Option Bool) (cost sale_price : Option ℕ) (db : Db)
      (item : ProductItem)
      → (update_product env call m id name active cost sale_price db).0 ≡ ok item
      → get_product m id (update_product env call m id name active cost sale_price db).1 ≡ ok item
  unfolding update_product get_product
  updated_product_read id name active cost sale_price db item h =
      elim (Result-cases (require_permission m catalog_manage)) [
        | inr (e, r) ↦ absurd (ground arith)
        | inl (tt, r) ↦ elim (Option-cases (product_row m.organization_id id db)) [
          | inl none_e ↦ absurd (ground arith)
          | inr (p, p_e) ↦
              let found =
                find-update_where (λ q. q.organization_id == m.organization_id && q.id == id)
                  (changed_product env call m name active cost sale_price) db.products p (λ q k. k)
                  p_e in
              ground (arith, manager_reads m r)
        ]
      ]
