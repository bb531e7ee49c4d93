-- ===== src/Sales/Checkout/Committed.antt =====
-- What a committed sale transaction consists of, step by step.
use dpg_business_app_starter.Base.{
  ℕ, ◌+◌, ◌≡◌, ◌<◌, refl, Option, some, Bool, false, ◌&&◌, List, ◌∷◌, ◌++◌, map, arith,
  Option-cases, inl, inr, subst, sym, All,
}
use dpg_business_app_starter.Database.{
  Db, ok, Error, Environment, Call, Organization, BalanceKey, on_hand,
}
use dpg_business_app_starter.Database.Laws.{Result-cases}
use dpg_business_app_starter.Inventory.Ledger.{IsConsistent}
use dpg_business_app_starter.Sales.Commands.{
  CreateSaleCommand, SaleResult, SaleOutcome, completed, refused,
}
use dpg_business_app_starter.Sales.Pricing.{PricedLine, Pricing, price_lines}
use dpg_business_app_starter.Sales.Approval.{Approved, granted, denied, approve}
use dpg_business_app_starter.Sales.Checkout.{
  open_balances, insert_sale, product_keys, sale_row, sale_line_row, post_lines, sale_result,
  write_sale, product_rows, active_organization, lacks_reason, sale_transaction,
}
use dpg_business_app_starter.Sales.Checkout.Posting.{
  open_balances-writes, open_balances-on_hand, open_balances-IsConsistent, sold_at,
  post_lines-on_hand, post_lines-IsConsistent, post_lines-rows,
}
use mathlib.Core.List.{reverse}

module _ (env : Environment) (call : Call) (c : CreateSaleCommand) where
  -- The approval changes the memberships alone.
  pub approve-writes :
      (b : Bool) (db : Db) (a : Approved) (db' : Db)
      → approve env call c b db ≡ ok (a, db')
      → db' ≡ record db { memberships = db'.memberships }
  unfolding approve
  approve-writes b db a db' h = ground arith

  -- The steps before the writes.
  pub record Prepared (db : Db) (a : Approved) (mid : Db) : Type 0 where
    pub organization : Organization
    pub organization_found : active_organization c db ≡ some organization
    pub pricing : Pricing
    pub priced :
        price_lines organization.salesperson_max_discount_rate (product_rows c db) c.lines
        ≡ ok pricing
    pub reasoned : (pricing.has_discount && lacks_reason c.discount_reason) ≡ false
    pub approved : approve env call c pricing.requires_approval db ≡ ok (a, mid)

  pub sale_transaction-Prepared :
      (db : Db) (o : SaleOutcome) (db' : Db)
      → sale_transaction env call c db ≡ ok (o, db')
      → (a : Approved) × (mid : Db) × (p : Prepared db a mid) × (write_sale env call c
            p.pricing.priced_lines a mid
          ≡ ok (o, db'))
  unfolding sale_transaction
  sale_transaction-Prepared db o db' h = elim (Option-cases (active_organization c db)) [
    | inl none_e ↦ absurd (ground arith)
    | inr (org, org_e) ↦
        elim (Result-cases
          (price_lines org.salesperson_max_discount_rate (product_rows c db) c.lines)) [
            | inr (e, f) ↦ absurd (ground arith)
            | inl (pricing, price_e) ↦
                elim (Result-cases (approve env call c pricing.requires_approval db)) [
                  | inr (e, f) ↦ absurd (ground arith)
                  | inl ((a, mid), approve_e) ↦ (
                    a,
                    mid,
                    record {
                      organization = org;
                      organization_found = org_e;
                      pricing = pricing;
                      priced = price_e;
                      reasoned = ground arith;
                      approved = approve_e;
                    },
                    ground arith,
                  )
                ]
          ]
  ]

  -- What a completed sale has written.
  pub record Written (approved_by : Option ℕ) (ls : List PricedLine) (db : Db) (r : SaleResult)
      (db' : Db) : Type 0 where
    pub result : r ≡ sale_result env call approved_by ls
    pub sales : db'.sales ≡ sale_row env call c approved_by ls ∷ db.sales
    pub sale_lines : db'.sale_lines ≡ reverse (map (sale_line_row env call c) ls) ++ db.sale_lines
    pub quantities : All (λ l. 0 < l.line.quantity) ls
    pub stock :
        (k : BalanceKey) → on_hand k db.balances ≡ on_hand k db'.balances + sold_at env call c k ls
    pub ledger : IsConsistent db → IsConsistent db'
    pub others : db' ≡ record db {
      balances = db'.balances;
      sales = db'.sales;
      sale_lines = db'.sale_lines;
      movements = db'.movements;
    }

  insert_sale-writes :
      (approved_by : Option ℕ) (ls : List PricedLine) (db : Db) (u : Unit {0}) (db' : Db)
      → insert_sale (sale_row env call c approved_by ls) db ≡ ok (u, db')
      → db' ≡ record db { sales = sale_row env call c approved_by ls ∷ db.sales }
  unfolding insert_sale
  insert_sale-writes approved_by ls db u db' h = ground arith

  pub write_sale-Written :
      (approved_by : Option ℕ) (ls : List PricedLine) (db : Db) (r : SaleResult) (db' : Db)
      → write_sale env call c ls (granted approved_by) db ≡ ok (completed r, db')
      → Written approved_by ls db r db'
  unfolding write_sale
  write_sale-Written approved_by ls db r db' h =
      elim (Result-cases (open_balances (product_keys c) db)) [
        | inr (e, f) ↦ absurd (ground arith)
        | inl ((u, opened), f) ↦
            elim (Result-cases (insert_sale (sale_row env call c approved_by ls) opened)) [
              | inr (e, g) ↦ absurd (ground arith)
              | inl ((v, sold), g) ↦ elim (Result-cases (post_lines env call c 1 ls sold)) [
                | inr (e, p) ↦ absurd (ground arith)
                | inl ((w, posted), p) ↦
                    let opened_e = open_balances-writes (product_keys c) db u opened f in
                    let sold_e = insert_sale-writes approved_by ls opened v sold g in
                    let rows = post_lines-rows env call c 1 ls sold w posted p in
                    let last : posted ≡ db' = ground arith in
                    record {
                      result = ground arith;
                      sales = ground (arith, opened_e, sold_e, rows.2, last);
                      sale_lines = ground (arith, opened_e, sold_e, rows.0, last);
                      quantities = rows.1;
                      stock = λ k. ground (
                        arith,
                        open_balances-on_hand (product_keys c) db u opened k f,
                        post_lines-on_hand env call c k 1 ls sold w posted p,
                        sold_e,
                        last,
                      );
                      ledger = λ consistent. subst IsConsistent last (
                          post_lines-IsConsistent env call c 1 ls sold w posted p (
                            subst IsConsistent (sym sold_e) (
                              open_balances-IsConsistent (product_keys c) db u opened consistent
                                f)));
                      others = ground (arith, opened_e, sold_e, rows.2, last);
                    }
              ]
            ]
      ]

  -- A refusal writes nothing after the approval.
  pub write_sale-refused :
      (a : Approved) (ls : List PricedLine) (db : Db) (x : Error) (db' : Db)
      → write_sale env call c ls a db ≡ ok (refused x, db')
      → db ≡ db'
  unfolding write_sale
  write_sale-refused (denied e) ls db x db' h = ground arith
  write_sale-refused (granted user) ls db x db' h = absurd (ground arith)

  -- Only a granted approval completes a sale.
  pub write_sale-granted :
      (a : Approved) (ls : List PricedLine) (db : Db) (r : SaleResult) (db' : Db)
      → write_sale env call c ls a db ≡ ok (completed r, db')
      → (user : Option ℕ) × (a ≡ granted user)
  unfolding write_sale
  write_sale-granted (denied e) ls db r db' h = absurd (ground arith)
  write_sale-granted (granted user) ls db r db' h = (user, refl)
