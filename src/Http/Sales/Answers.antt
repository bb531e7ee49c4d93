-- ===== src/Http/Sales/Answers.antt =====
-- How the routes of app/modules/sales/router.py answer.
use dpg_business_app_starter.Base.{
  ℕ, ◌≡◌, ◌⊎◌, inl, inr, refl, sym, subst, ◌∙◌, ap, ap₂, arith, String, Bool, true, false,
  Bool-cases,
}
use dpg_business_app_starter.Database.{Db, Result, ok, err, Error, Environment, Call, sales_create}
use dpg_business_app_starter.Database.Laws.{Result-cases}
use dpg_business_app_starter.Authorization.{
  CurrentMembership, require_permission, get_current_membership,
}
use dpg_business_app_starter.Inventory.UseCases.{permitted}
use dpg_business_app_starter.Sales.Commands.{SaleResult}
use dpg_business_app_starter.Sales.Checkout.{create_sale}
use dpg_business_app_starter.Sales.Checkout.Safety.{failed_sale_writes_no_stock}
use dpg_business_app_starter.Sales.Checkout.Replay.{as_stored, sale_retry_replays}
use dpg_business_app_starter.Sales.UseCases.{submit_sale, sale_command}
use dpg_business_app_starter.Http.{Response, reply, is_reply, application_handler}
use dpg_business_app_starter.Http.Sales.{
  CreateSaleRequest, is_sale_request, submitted_sale, sale_error, return_error, sale_response,
  as_member, create_sale_endpoint,
}

-- An error is never answered with a result.
sale_error-is_reply : (e : Error) → is_reply (sale_error e) ≡ false
unfolding application_handler
sale_error-is_reply e = ground arith

return_error-is_reply : (e : Error) → is_reply (return_error e) ≡ false
unfolding application_handler
return_error-is_reply e = ground arith

-- A route ends before the service, with the database as it was, or in the service.
pub as_member-cases :
    {A : Type 0} (user organization : ℕ) (valid : Bool)
    (route : CurrentMembership → Db → Response A × Db) (db : Db)
    → ((as_member organization user valid route db).1 ≡ db)
        × (is_reply (as_member organization user valid route db).0 ≡ false)
      ⊎ ((m : CurrentMembership) × (get_current_membership organization user db ≡ ok m)
          × (valid ≡ true)
          × (as_member organization user valid route db ≡ route m db))
unfolding as_member application_handler
as_member-cases user organization valid route db =
    elim (Result-cases (get_current_membership organization user db)) [
      | inr (e, f) ↦ inl (ground arith, ground arith)
      | inl (m, f) ↦ elim (Bool-cases valid) [
        | inr v ↦ inl (ground arith, ground arith)
        | inl v ↦ inr (m, f, v, ground arith)
      ]
    ]

sale_response_db : (out : Result SaleResult × Db) → (sale_response out).1 ≡ out.1
sale_response_db (ok r, db) = refl
sale_response_db (err e, db) = refl

module _ (env : Environment) (call : Call) (is_pin : String → Bool) (user organization : ℕ) where
  -- A request for a sale is refused in front of the service, or answered from it.
  sale-cases :
      (payload : CreateSaleRequest) (key : String) (db : Db)
      → ((create_sale_endpoint env call is_pin user organization payload key db).1 ≡ db)
          × (is_reply (create_sale_endpoint env call is_pin user organization payload key db).0
              ≡ false)
        ⊎ ((m : CurrentMembership) × (get_current_membership organization user db ≡ ok m)
            × (is_sale_request is_pin payload key ≡ true)
            × (require_permission m sales_create ≡ ok tt)
            × (create_sale_endpoint env call is_pin user organization payload key db
                ≡ sale_response (
                    create_sale env call
                      (sale_command m (submitted_sale organization payload key))
                      db)))
  unfolding create_sale_endpoint submit_sale permitted application_handler
  sale-cases payload key db =
      let s = submitted_sale organization payload key in
      let valid = is_sale_request is_pin payload key in
      elim (as_member-cases user organization valid
        (λ m d. sale_response (submit_sale env call m s d)) db) [
          | inl e ↦ inl e
          | inr (m, f, v, e) ↦ elim (Result-cases (require_permission m sales_create)) [
            | inr (x, g) ↦ inl (ground arith, ground (arith, sale_error-is_reply x))
            | inl (t, g) ↦ inr (m, f, v, g, e ∙ ground arith)
          ]
        ]

  sale_passes :
      (payload : CreateSaleRequest) (key : String) (db : Db) (m : CurrentMembership)
      → get_current_membership organization user db ≡ ok m
      → is_sale_request is_pin payload key ≡ true
      → require_permission m sales_create ≡ ok tt
      → create_sale_endpoint env call is_pin user organization payload key db
        ≡ sale_response
            (create_sale env call (sale_command m (submitted_sale organization payload key)) db)
  unfolding create_sale_endpoint as_member submit_sale permitted
  sale_passes payload key db m f v g = ground arith

  -- A request for a sale that is answered with anything but a result writes no stock, sale, line or
  -- movement: it changes at most the memberships, up to what other clients committed.
  pub refused_sale_writes_no_stock :
      (payload : CreateSaleRequest) (key : String) (db : Db)
      → is_reply (create_sale_endpoint env call is_pin user organization payload key db).0 ≡ false
      → ((create_sale_endpoint env call is_pin user organization payload key db).1 ≡ db)
        ⊎ ((create_sale_endpoint env call is_pin user organization payload key db).1
            ≡ record (call.concurrent db) {
              memberships =
                  (create_sale_endpoint env call is_pin user organization payload key
                    db).1.memberships;
            })
  refused_sale_writes_no_stock payload key db h = elim (sale-cases payload key db) [
    | inl (e, _) ↦ inl e
    | inr (m, f, v, g, e) ↦
        let c = sale_command m (submitted_sale organization payload key) in
        elim (Result-cases (create_sale env call c db).0) [
          | inl (r, k) ↦ absurd (ground arith)
          | inr (x, k) ↦
              subst
                (λ (d : Db).
                  (d ≡ db) ⊎ (d ≡ record (call.concurrent db) { memberships = d.memberships }))
                (sym (
                  ap (λ (o : Response SaleResult × Db). o.1) e
                  ∙ sale_response_db (create_sale env call c db)))
                (failed_sale_writes_no_stock env call c db x k)
        ]
  ]

module _ (env : Environment) (call : Call) (is_pin : String → Bool) (user organization : ℕ) where
  -- A client whose sale has been answered with the status 201 and who sends the same request again,
  -- at whatever time, is answered with the status 200 and the same sale, with every amount as the
  -- columns hold it, and nothing is written, if the user is still the member that they were.
  pub repeated_sale_is_replayed :
      (later : Call) (payload : CreateSaleRequest) (key : String) (db : Db) (r : SaleResult)
      → (create_sale_endpoint env call is_pin user organization payload key db).0 ≡ reply 201 r
      → get_current_membership organization user
          (create_sale_endpoint env call is_pin user organization payload key db).1
        ≡ get_current_membership organization user db
      → create_sale_endpoint env later is_pin user organization payload key
          (create_sale_endpoint env call is_pin user organization payload key db).1
        ≡ (
          reply 200 (as_stored env r),
          (create_sale_endpoint env call is_pin user organization payload key db).1,
        )
  repeated_sale_is_replayed later payload key db r h member =
      elim (sale-cases env call is_pin user organization payload key db) [
        | inl (_, e) ↦ absurd (ground arith)
        | inr (m, f, v, g, e) ↦
            let c = sale_command m (submitted_sale organization payload key) in
            elim (Result-cases (create_sale env call c db).0) [
              | inr (x, k) ↦ absurd (ground (arith, sale_error-is_reply x))
              | inl (r', k) ↦
                  let out = create_sale env call c db in
                  let after =
                    (create_sale_endpoint env call is_pin user organization payload key db).1 in
                  let back : after ≡ out.1 =
                    ap (λ (o : Response SaleResult × Db). o.1) e ∙ sale_response_db out in
                  let fresh : r'.replayed ≡ false = ground (arith, e) in
                  let same : r' ≡ r = ground (arith, e) in
                  sale_passes env later is_pin user organization payload key after m (member ∙ f) v
                    g
                  ∙ ap sale_response (
                      ap (λ (d : Db). create_sale env later c d) back
                      ∙ sale_retry_replays env call later c db r' k fresh)
                  ∙ ap₂ (λ (x : SaleResult) (d : Db). (reply 200 (as_stored env x), d)) same
                      (sym back)
            ]
      ]
