-- ===== src/Http/Sales/Refusals.antt =====
-- The returns and voids that the routes of app/modules/sales/router.py refuse.
use dpg_business_app_starter.Base.{
  ℕ, ◌≡◌, ◌⊎◌, inl, inr, refl, arith, String, Bool, false, ◌&&◌, ltb, strip, text_length,
}
use dpg_business_app_starter.Database.{Db, Result, ok, err, Environment, Call, sales_return}
use dpg_business_app_starter.Database.Laws.{Result-cases, Outcome-atomic}
use dpg_business_app_starter.Authorization.{CurrentMembership, require_permission}
use dpg_business_app_starter.Inventory.UseCases.{permitted}
use dpg_business_app_starter.Sales.Returns.{
  ProcessSaleReturnCommand, SaleReturnResult, return_replay, return_transaction,
  process_sale_return,
}
use dpg_business_app_starter.Sales.Returns.Safety.{process_sale_return-Outcome}
use dpg_business_app_starter.Sales.UseCases.{
  submit_sale_return, void_sale, return_command, void_command,
}
use dpg_business_app_starter.Http.{is_reply}
use dpg_business_app_starter.Http.Sales.{
  CreateSaleReturnRequest, VoidSaleRequest, is_reason, is_return_request, submitted_return,
  return_response, create_sale_return_endpoint, void_sale_endpoint,
}
use dpg_business_app_starter.Http.Sales.Answers.{as_member-cases}

return_response_db : (out : Result SaleReturnResult × Db) → (return_response out).1 ≡ out.1
return_response_db (ok r, db) = refl
return_response_db (err e, db) = refl

module _ (env : Environment) (call : Call) (m : CurrentMembership) where
  -- A return that is not answered with a result is rolled back.
  refused_in_service :
      (c : ProcessSaleReturnCommand) (db : Db)
      → is_reply (return_response (permitted m sales_return (process_sale_return env call c) db)).0
        ≡ false
      → ((return_response (permitted m sales_return (process_sale_return env call c) db)).1 ≡ db)
        ⊎ ((return_response (permitted m sales_return (process_sale_return env call c) db)).1
            ≡ call.concurrent db)
  unfolding permitted
  refused_in_service c db h =
      let out = process_sale_return env call c db in
      elim (Result-cases (require_permission m sales_return)) [
        | inr (x, g) ↦ inl (ground arith)
        | inl (t, g) ↦ elim (Result-cases out.0) [
          | inl (r, k) ↦ absurd (ground arith)
          | inr (x, k) ↦
              let rolled =
                Outcome-atomic (return_replay env c) call.concurrent (return_transaction env call c)
                  db out x (process_sale_return-Outcome env call c db) k in
              let same = return_response_db out in ground (arith, rolled, same)
        ]
      ]

module _ (env : Environment) (call : Call) (is_pin : String → Bool) (user organization : ℕ) where
  -- A request for a return that is answered with anything but a result writes nothing: the database
  -- is as it was, or as other clients have committed it.
  pub refused_return_writes_nothing :
      (sale_id : ℕ) (payload : CreateSaleReturnRequest) (key : String) (db : Db)
      → is_reply
          (create_sale_return_endpoint env call is_pin user organization sale_id payload key db).0
        ≡ false
      → ((create_sale_return_endpoint env call is_pin user organization sale_id payload key db).1
          ≡ db)
        ⊎ ((create_sale_return_endpoint env call is_pin user organization sale_id payload key db).1
            ≡ call.concurrent db)
  unfolding create_sale_return_endpoint submit_sale_return
  refused_return_writes_nothing sale_id payload key db h =
      let s = submitted_return sale_id payload key in
      elim (as_member-cases user organization (is_return_request payload key)
        (λ m d. return_response (submit_sale_return env call m s d)) db) [
          | inl (e, _) ↦ inl e
          | inr (m, f, v, e) ↦
              let refused =
                refused_in_service env call m (return_command m s) db (ground (arith, e)) in
              ground (arith, e, refused)
        ]

  -- The same for a void.
  refused_void_writes_nothing :
      (sale_id : ℕ) (payload : VoidSaleRequest) (key : String) (db : Db)
      → is_reply (void_sale_endpoint env call is_pin user organization sale_id payload key db).0
        ≡ false
      → ((void_sale_endpoint env call is_pin user organization sale_id payload key db).1 ≡ db)
        ⊎ ((void_sale_endpoint env call is_pin user organization sale_id payload key db).1
            ≡ call.concurrent db)
  unfolding void_sale_endpoint void_sale
  refused_void_writes_nothing sale_id payload key db h =
      let c = λ (m : CurrentMembership).
        void_command m sale_id payload.refund_resolution (strip payload.reason) key in
      elim (as_member-cases user organization (is_reason payload.reason && ltb 0 (text_length key))
        (λ m d.
          return_response
            (void_sale env call m sale_id payload.refund_resolution (strip payload.reason) key d))
        db) [
          | inl (e, _) ↦ inl e
          | inr (m, f, v, e) ↦
              let refused = refused_in_service env call m (c m) db (ground (arith, e)) in
              ground (arith, e, refused)
        ]
