-- ===== src/Catalog/Products/Safety.antt =====
-- What the commands on products keep, and when a product can be archived.
use dpg_business_app_starter.Base.{
  ℕ, inl, inr, subst, sym, refl, any, Bool-cases, str_eq, strip, Option-cases, ◌⊎◌,
  update_where_absent, ◌≡◌, ◌≤◌, arith, String, Option, some, Bool, true, false, List, [], ◌∷◌,
  ◌==◌, ◌&&◌, All, find, ltb, sum_by, update_where, get_or, if◌then◌else◌,
}
use dpg_business_app_starter.Database.{
  Db, ok, Environment, Call, Product, Warehouse, on_hand, catalog_manage,
}
use dpg_business_app_starter.Database.Laws.{Result-cases}
use dpg_business_app_starter.Authorization.{CurrentMembership, require_permission}
use dpg_business_app_starter.Inventory.Statements.{
  available_key, damaged_key, product_row, warehouse_row,
}
use dpg_business_app_starter.Catalog.Products.{
  ProductItem, is_false, new_product, stock_at, stock_of_product, changed_product, create_product,
  update_product,
}

-- Whether a product has the key of the table.
abbrev pub has_key : ℕ → ℕ → Product → Bool
has_key organization id p = p.organization_id == organization && p.id == id

abbrev HasKeys : List Product → Type 0
HasKeys [] = Unit {0}
HasKeys (p ∷ ps) = (any (has_key p.organization_id p.id) ps ≡ false) × HasKeys ps

-- No two products of an organization share an id, and none sells below its cost.
pub record IsCatalog (products : List Product) : Type 0 where
  pub keyed : HasKeys products
  pub covered : All (λ p. p.cost ≤ p.sale_price) products

-- A row of the sum is at most the sum.
stock_of_product-bound :
    (organization product warehouse : ℕ) (db : Db) (ws : List Warehouse) (w : Warehouse)
    → find (λ w. w.organization_id == organization && w.id == warehouse) ws ≡ some w
    → stock_at organization product warehouse db
      ≤ sum_by
          (λ w.
            if w.organization_id == organization then stock_at organization product w.id db else 0)
          ws
stock_of_product-bound organization product warehouse db [] w h = cc
stock_of_product-bound organization product warehouse db (v ∷ ws) w h =
    ground (arith, stock_of_product-bound organization product warehouse db ws w)

module _ (env : Environment) (call : Call) (m : CurrentMembership) where
  -- A product that an update archives has no stock, available or damaged, in any warehouse of the
  -- organization.
  pub archived_product_has_no_stock :
      (id warehouse : ℕ) (name : Option String) (active : Option Bool) (cost sale_price : Option ℕ)
      (db : Db) (p : Product) (w : Warehouse) (item : ProductItem)
      → product_row m.organization_id id db ≡ some p
      → p.active ≡ true
      → warehouse_row m.organization_id warehouse db ≡ some w
      → (update_product env call m id name active cost sale_price db).0 ≡ ok item
      → item.active ≡ false
      → (on_hand
            (available_key m.organization_id id warehouse)
            (update_product env call m id name active cost sale_price db).1.balances
          ≡ 0)
        × (on_hand
              (damaged_key m.organization_id id warehouse)
              (update_product env call m id name active cost sale_price db).1.balances
            ≡ 0)
  unfolding update_product
  archived_product_has_no_stock id warehouse name active cost sale_price db p w item f a g h n =
      elim (Result-cases (require_permission m catalog_manage)) [
        | inr (e, r) ↦ absurd (ground arith)
        | inl (u, r) ↦
            ground
              (arith, stock_of_product-bound m.organization_id id warehouse db db.warehouses w g)
      ]

  module _ (id : ℕ) (name : Option String) (active : Option Bool) (cost sale_price : Option ℕ) where
    abbrev updated : List Product → List Product
    updated =
        update_where (has_key m.organization_id id)
          (changed_product env call m name active cost sale_price)

    updated-keys :
        (organization product : ℕ) (ps : List Product)
        → any (has_key organization product) (updated ps) ≡ any (has_key organization product) ps
    updated-keys organization product [] = refl
    updated-keys organization product (q ∷ ps) =
        ground (arith, updated-keys organization product ps)

    updated_hit :
        (q : Product) (ps : List Product)
        → has_key m.organization_id id q ≡ true
        → updated (q ∷ ps) ≡ changed_product env call m name active cost sale_price q ∷ updated ps
    updated_hit q ps e = ground arith

    updated_miss :
        (q : Product) (ps : List Product)
        → has_key m.organization_id id q ≡ false
        → updated (q ∷ ps) ≡ q ∷ updated ps
    updated_miss q ps e = ground arith

    updated-HasKeys : (ps : List Product) → HasKeys ps → HasKeys (updated ps)
    updated-HasKeys [] h = tt
    updated-HasKeys (q ∷ ps) h = elim (Bool-cases (has_key m.organization_id id q)) [
      | inl e ↦
          subst HasKeys (sym (updated_hit q ps e))
            (ground (arith, updated-keys q.organization_id q.id ps), updated-HasKeys ps h.1)
      | inr e ↦
          subst HasKeys (sym (updated_miss q ps e))
            (ground (arith, updated-keys q.organization_id q.id ps), updated-HasKeys ps h.1)
    ]

    updated-covered :
        (p : Product) (ps : List Product)
        → HasKeys ps
        → All (λ q. q.cost ≤ q.sale_price) ps
        → find (has_key m.organization_id id) ps ≡ some p
        → get_or cost p.cost ≤ get_or sale_price p.sale_price
        → All (λ q. q.cost ≤ q.sale_price) (updated ps)
    updated-covered p [] k h f le = tt
    updated-covered p (q ∷ ps) k h f le =
        let Covered : List Product → Type 0 = All (λ q. q.cost ≤ q.sale_price) in
        elim (Bool-cases (has_key m.organization_id id q)) [
          | inr e ↦
              subst Covered (sym (updated_miss q ps e))
                (h.0, updated-covered p ps k.1 h.1 (ground arith) le)
          | inl e ↦
              let absent : any (has_key m.organization_id id) ps ≡ false = ground (arith, k.0) in
              let same =
                update_where_absent (has_key m.organization_id id)
                  (changed_product env call m name active cost sale_price) ps absent in
              subst Covered (sym (updated_hit q ps e)) (ground arith, subst Covered (sym same) h.1)
        ]

    -- An update changes nothing, or the row of one product whose new price covers its new cost.
    pub update_product-writes :
        (db : Db)
        → ((update_product env call m id name active cost sale_price db).1 ≡ db)
          ⊎ ((p : Product) × (product_row m.organization_id id db ≡ some p)
              × (get_or cost p.cost ≤ get_or sale_price p.sale_price)
              × ((update_product env call m id name active cost sale_price db).1
                  ≡ record db { products = updated db.products }))
    unfolding update_product
    update_product-writes db = elim (Result-cases (require_permission m catalog_manage)) [
      | inr (e, r) ↦ inl (ground arith)
      | inl (u, r) ↦ elim (Option-cases (product_row m.organization_id id db)) [
        | inl f ↦ inl (ground arith)
        | inr (p, f) ↦
            elim (Bool-cases
              (is_false active && p.active && ltb 0 (stock_of_product m.organization_id id db))) [
                | inl stocked ↦ inl (ground arith)
                | inr free ↦
                    elim (Bool-cases (ltb (get_or sale_price p.sale_price) (get_or cost p.cost))) [
                      | inl below ↦ inl (ground arith)
                      | inr above ↦ inr (p, f, ground arith, ground arith)
                    ]
              ]
      ]
    ]

    pub update_product-IsCatalog :
        (db : Db)
        → IsCatalog db.products
        → IsCatalog (update_product env call m id name active cost sale_price db).1.products
    update_product-IsCatalog db h = elim (update_product-writes db) [
      | inl same ↦ subst (λ (d : Db). IsCatalog d.products) (sym same) h
      | inr (p, f, le, written) ↦
          subst (λ (d : Db). IsCatalog d.products) (sym written)
            (record {
              keyed = updated-HasKeys db.products h.keyed;
              covered = updated-covered p db.products h.keyed h.covered f le;
            })
    ]

  -- A creation changes nothing, or adds a product whose price covers its cost.
  pub create_product-writes :
      (sku text : String) (cost sale_price : ℕ) (db : Db)
      → ((create_product env call m sku text cost sale_price db).1 ≡ db)
        ⊎ ((cost ≤ sale_price)
            × ((create_product env call m sku text cost sale_price db).1 ≡ record db {
              products = new_product env call m sku text cost sale_price ∷ db.products;
            }))
  unfolding create_product
  create_product-writes sku text cost sale_price db =
      elim (Result-cases (require_permission m catalog_manage)) [
        | inr (e, r) ↦ inl (ground arith)
        | inl (u, r) ↦ elim (Bool-cases (ltb sale_price cost)) [
          | inl below ↦ inl (ground arith)
          | inr above ↦
              elim (Bool-cases (
                any
                  (λ q.
                    q.organization_id == m.organization_id && str_eq q.sku (env.upper (strip sku)))
                  db.products)) [
                    | inl taken ↦ inl (ground arith)
                    | inr free ↦ inr (ground arith, ground arith)
                  ]
        ]
      ]

  pub create_product-IsCatalog :
      (sku text : String) (cost sale_price : ℕ) (db : Db)
      → IsCatalog db.products
      → any (has_key m.organization_id (call.uuid4 0)) db.products ≡ false
      → IsCatalog (create_product env call m sku text cost sale_price db).1.products
  create_product-IsCatalog sku text cost sale_price db h fresh =
      elim (create_product-writes sku text cost sale_price db) [
        | inl same ↦ subst (λ (d : Db). IsCatalog d.products) (sym same) h
        | inr (le, written) ↦
            subst (λ (d : Db). IsCatalog d.products) (sym written)
              (record { keyed = (fresh, h.keyed); covered = (le, h.covered) })
      ]

  -- If no two products of an organization share an id and none sells below its cost, that holds
  -- after the creation of a product and after an update too, however they end. The UUID that a
  -- creation draws must be new.
  products-IsCatalog :
      (db : Db) (sku text : String) (new_cost new_price : ℕ) (id : ℕ) (name : Option String)
      (active : Option Bool) (cost sale_price : Option ℕ)
      → IsCatalog db.products
      → any (has_key m.organization_id (call.uuid4 0)) db.products ≡ false
      → IsCatalog (create_product env call m sku text new_cost new_price db).1.products
        × IsCatalog (update_product env call m id name active cost sale_price db).1.products
  products-IsCatalog db sku text new_cost new_price id name active cost sale_price h fresh = (
    create_product-IsCatalog sku text new_cost new_price db h fresh,
    update_product-IsCatalog id name active cost sale_price db h,
  )
