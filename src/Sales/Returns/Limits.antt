-- ===== src/Sales/Returns/Limits.antt =====
-- No more is ever returned than was sold, and a void is the only adjustment of its sale.
use dpg_business_app_starter.Base.{
  ℕ, ◌+◌, ◌≡◌, ◌≤◌, refl, none, some, true, false, ◌&&◌, ◌||◌, List, [], ◌∷◌, arith, Bool-cases,
  inl, inr, ◌⊎◌, ap, ◌∙◌, any, find, ◌==◌, if◌then◌else◌, sum_by-sort_by, sort_by,
}
use dpg_business_app_starter.Database.{
  Db, ok, err, Environment, Call, Sale, SaleReturn, ReturnKind, return, void, sale_already_adjusted,
}
use dpg_business_app_starter.Sales.Returns.{
  ReturnLineCommand, ProcessSaleReturnCommand, SaleReturnResult, lines_of_sale, of_sale, is_void,
  returned_quantity, effective_lines, void_lines, unique_products, is_valid, process_sale_return,
  has_return_key, sale_of, return_transaction, write_return, return_replay,
}
use dpg_business_app_starter.Sales.Returns.Safety.{Returned, process_sale_return_states}
use dpg_business_app_starter.Sales.Returns.Quantities.{
  sold_in, adjusted, IsFreshId, value_lines-fits, void_lines-adjusted, unadjusted-returned,
  quantity_after_return,
}

-- At every sale and product, what has been returned is at most what was sold.
pub record IsWithinSold (db : Db) : Type 0 where
  pub within :
      (organization sale product : ℕ)
      → returned_quantity organization sale product db
        ≤ sold_in product (lines_of_sale organization sale db)

module _ (env : Environment) (call : Call) (c : ProcessSaleReturnCommand) where
  kind-cases : (k : ReturnKind) → (k ≡ return) ⊎ (k ≡ void)
  kind-cases return = inl refl
  kind-cases void = inr refl

  -- The effective lines are those of the command, of different products, or those of the sale.
  effective_lines-cases :
      (db : Db) (lines : List ReturnLineCommand)
      → is_valid c ≡ true
      → effective_lines c db ≡ ok lines
      → ((lines ≡ c.lines) × (unique_products lines ≡ true))
        ⊎ ((any (of_sale c.organization_id c.sale_id) db.sale_returns ≡ false)
            × (lines
                ≡ void_lines
                    (sort_by (λ l. l.product_id) (lines_of_sale c.organization_id c.sale_id db))))
  unfolding effective_lines is_valid
  effective_lines-cases db lines v h = elim (kind-cases c.kind) [
    | inl k ↦ inl (ground arith, ground arith)
    | inr k ↦ inr (ground arith, ground arith)
  ]

  -- The lines of a new return fit what is left of the sale.
  lines_fit :
      (db : Db) (r : SaleReturnResult) (db' : Db) (product : ℕ)
      → is_valid c ≡ true
      → IsWithinSold db
      → (w : Returned env call c db r db')
      → adjusted product w.lines + returned_quantity c.organization_id c.sale_id product db
        ≤ sold_in product (lines_of_sale c.organization_id c.sale_id db)
  unfolding returned_quantity
  lines_fit db r db' product v h w =
      let sold = lines_of_sale c.organization_id c.sale_id db in
      elim (effective_lines-cases db w.lines v w.effective) [
        | inl (_, u) ↦
            value_lines-fits (λ p. returned_quantity c.organization_id c.sale_id p db) sold w.lines
              w.value product (h.within c.organization_id c.sale_id product) u w.valued
        | inr (none_before, e) ↦
            let all_sold : adjusted product w.lines ≡ sold_in product sold =
              ap (adjusted product) e
              ∙ void_lines-adjusted product (sort_by (λ l. l.product_id) sold)
              ∙ sum_by-sort_by (λ l. if l.product_id == product then l.quantity else 0)
                  (λ l. l.product_id) sold in
            omega (
              arith,
              all_sold,
              unadjusted-returned c.organization_id c.sale_id product db.sale_returns
                  db.sale_return_lines none_before,
            )
      ]

  return_step-IsWithinSold :
      (db : Db) (r : SaleReturnResult) (db' : Db)
      → is_valid c ≡ true
      → IsFreshId (call.uuid4 0) db
      → IsWithinSold db
      → Returned env call c db r db'
      → IsWithinSold db'
  return_step-IsWithinSold db r db' v fresh h w = record {
    within = λ organization sale product. ground (
      arith,
      quantity_after_return organization sale product env call c db r db' fresh w,
      lines_fit db r db' product v h w,
      h.within organization sale product,
      w.others,
    );
  }

  -- If at every sale and product no more has been returned than was sold, that holds after a return
  -- or a void too, however it ends, if other clients keep it and the UUID that is drawn is fresh.
  pub process_sale_return-IsWithinSold :
      (db : Db)
      → IsWithinSold db
      → IsWithinSold (call.concurrent db)
      → IsFreshId (call.uuid4 0) (call.concurrent db)
      → IsWithinSold (process_sale_return env call c db).1
  unfolding process_sale_return
  process_sale_return-IsWithinSold db h hc fresh = elim (Bool-cases (is_valid c)) [
    | inr e ↦ rw e h
    | inl e ↦
        process_sale_return_states env call c IsWithinSold db h hc
          (λ r db' w. return_step-IsWithinSold (call.concurrent db) r db' e fresh hc w)
  ]

  any_refused :
      (rs : List SaleReturn)
      → (c.kind ≡ void
          → any
              (λ r. of_sale c.organization_id c.sale_id r && (is_void c.kind || is_void r.kind))
              rs
            ≡ any (of_sale c.organization_id c.sale_id) rs)
        × (c.kind ≡ return
            → any
                (λ r. of_sale c.organization_id c.sale_id r && (is_void c.kind || is_void r.kind))
                rs
              ≡ any (λ r. of_sale c.organization_id c.sale_id r && is_void r.kind) rs)
  any_refused [] = (λ k. refl, λ k. refl)
  any_refused (r ∷ rs) =
      (λ k. ground (arith, (any_refused rs).0 k), λ k. ground (arith, (any_refused rs).1 k))

  -- A valid command for a sale of the organization, under a key that is new, is refused and writes
  -- nothing if the sale has been voided, or if the command is a void and the sale has been adjusted
  -- at all.
  adjusted_sale_refused :
      (db : Db) (sale : Sale)
      → is_valid c ≡ true
      → find (has_return_key c.organization_id c.idempotency_key) db.sale_returns ≡ none
      → find (has_return_key c.organization_id c.idempotency_key) (call.concurrent db).sale_returns
        ≡ none
      → sale_of env call c (call.concurrent db) ≡ some sale
      → any
          (λ r. of_sale c.organization_id c.sale_id r && (is_void c.kind || is_void r.kind))
          (call.concurrent db).sale_returns
        ≡ true
      → process_sale_return env call c db ≡ (err sale_already_adjusted, call.concurrent db)
  unfolding process_sale_return return_transaction write_return return_replay effective_lines
  adjusted_sale_refused db sale v f f' s a = elim (kind-cases c.kind) [
    | inl k ↦ ground (arith, (any_refused (call.concurrent db).sale_returns).1 k)
    | inr k ↦ ground (arith, (any_refused (call.concurrent db).sale_returns).0 k)
  ]
