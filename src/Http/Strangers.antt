-- ===== src/Http/Strangers.antt =====
-- Users who are not members of the organization of the path, at the routes that write.
use dpg_business_app_starter.Base.{ℕ, ◌≡◌, arith, String, Bool, false, ◌&&◌, ◌==◌, find_absent}
use dpg_business_app_starter.Database.{
  Db, err, Environment, Call, organization_not_found, is_member,
}
use dpg_business_app_starter.Authorization.{get_current_membership}
use dpg_business_app_starter.Http.{Response, failure, application_handler}
use dpg_business_app_starter.Http.Inventory.{
  RecordMovementRequest, TransferStockRequest, create_movement, create_transfer,
}
use dpg_business_app_starter.Http.Sales.{
  as_member, CreateSaleRequest, CreateSaleReturnRequest, VoidSaleRequest, create_sale_endpoint,
  create_sale_return_endpoint, void_sale_endpoint, update_sales_policy_endpoint,
  set_approval_pin_endpoint,
}

membership_missing :
    (organization user : ℕ) (db : Db)
    → is_member organization user db ≡ false
    → get_current_membership organization user db ≡ err organization_not_found
unfolding get_current_membership
membership_missing organization user db h =
    let absent =
      find_absent (λ m. m.organization_id == organization && m.user_id == user) db.memberships h in
    ground (arith, absent)

-- There is no such organization, and nothing is written.
abbrev pub NotFound : {A : Type 0} → Response A × Db → Db → Type 0
NotFound out db = out ≡ (failure 404 "ORGANIZATION_NOT_FOUND", db)

module _ (env : Environment) (call : Call) (user organization : ℕ) (db : Db) where
  -- Whatever a user sends to an organization in which they are not a member, valid or not, the two
  -- routes that move stock answer that there is no such organization, and write nothing.
  stranger_moves_no_stock :
      (movement : RecordMovementRequest) (transfer : TransferStockRequest) (key : String)
      → is_member organization user db ≡ false
      → NotFound (create_movement env call user organization movement key db) db
        × NotFound (create_transfer env call user organization transfer key db) db
  unfolding create_movement create_transfer application_handler
  stranger_moves_no_stock movement transfer key h =
      let e = membership_missing organization user db h in (ground (arith, e), ground (arith, e))

  -- The same for the routes of the sales.
  stranger_sells_nothing :
      (is_pin : String → Bool) (sale : CreateSaleRequest) (sale_id : ℕ)
      (returned : CreateSaleReturnRequest) (voided : VoidSaleRequest) (key : String)
      → is_member organization user db ≡ false
      → NotFound (create_sale_endpoint env call is_pin user organization sale key db) db
        × NotFound
            (create_sale_return_endpoint env call is_pin user organization sale_id returned key db)
            db
        × NotFound (void_sale_endpoint env call is_pin user organization sale_id voided key db) db
  unfolding create_sale_endpoint create_sale_return_endpoint void_sale_endpoint as_member
      application_handler
  stranger_sells_nothing is_pin sale sale_id returned voided key h =
      let e = membership_missing organization user db h in
      (ground (arith, e), ground (arith, e), ground (arith, e))

  -- A user who is not a member of an organization is answered by each of the seven routes under it
  -- that move stock, sell, take back, void, set the policy or set a PIN, that there is no such
  -- organization, whatever they send, valid or not, and nothing is written.
  pub stranger_is_refused :
      (is_pin : String → Bool) (movement : RecordMovementRequest) (transfer : TransferStockRequest)
      (sale : CreateSaleRequest) (sale_id : ℕ) (returned : CreateSaleReturnRequest)
      (voided : VoidSaleRequest) (rate : ℕ) (pin key : String)
      → is_member organization user db ≡ false
      → (NotFound (create_movement env call user organization movement key db) db
          × NotFound (create_transfer env call user organization transfer key db) db)
        × (NotFound (create_sale_endpoint env call is_pin user organization sale key db) db
            × NotFound
                (create_sale_return_endpoint env call is_pin user organization sale_id returned key
                  db)
                db
            × NotFound
                (void_sale_endpoint env call is_pin user organization sale_id voided key db)
                db)
        × NotFound (update_sales_policy_endpoint env call is_pin user organization rate db) db
        × NotFound (set_approval_pin_endpoint env call is_pin user organization pin db) db
  unfolding update_sales_policy_endpoint set_approval_pin_endpoint as_member application_handler
  stranger_is_refused is_pin movement transfer sale sale_id returned voided rate pin key h =
      let e = membership_missing organization user db h in
      (
        stranger_moves_no_stock movement transfer key h,
        stranger_sells_nothing is_pin sale sale_id returned voided key h,
        ground (arith, e),
        ground (arith, e),
      )
