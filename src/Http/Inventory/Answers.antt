-- ===== src/Http/Inventory/Answers.antt =====
-- How the routes of app/modules/inventory/router.py answer.
use dpg_business_app_starter.Base.{
  ℕ, ◌≡◌, ◌⊎◌, inl, inr, refl, sym, ◌∙◌, ap, ap₂, arith, String, true, false, not, ◌&&◌, ◌||◌, ◌==◌,
  find, Option-cases, Bool-cases, is_blank,
}
use dpg_business_app_starter.Database.{
  Db, Result, ok, err, Error, Environment, Call, organization_not_found, numeric_overflow,
  inventory_transfer,
}
use dpg_business_app_starter.Database.Laws.{Result-cases}
use dpg_business_app_starter.Authorization.{
  CurrentMembership, require_permission, get_current_membership,
}
use dpg_business_app_starter.Inventory.Movement.{MovementResult, record_stock_movement}
use dpg_business_app_starter.Inventory.Movement.Failures.{record_stock_movement_raises}
use dpg_business_app_starter.Inventory.Movement.Replay.{retry_replays}
use dpg_business_app_starter.Inventory.Transfer.Failures.{transfer_stock_raises}
use dpg_business_app_starter.Inventory.UseCases.{
  movement_permission, movement_command, transfer_command, record_manual_stock_movement,
  transfer_inventory,
}
use dpg_business_app_starter.Database.{text_data_error, value_error}
use dpg_business_app_starter.Inventory.Movement.Failures.{record_stock_movement_texts}
use dpg_business_app_starter.Http.Inventory.Unhandled.{
  is_clean, Unanswered, held_texts, raised_is_answered, transfer_raised_is_answered,
}
use dpg_business_app_starter.Http.{Response, reply, unhandled, application_handler}
use dpg_business_app_starter.Http.Inventory.{
  RecordMovementRequest, TransferStockRequest, is_stock_request, movement_error, transfer_error,
  movement_response, transfer_response, manual_movement, inventory_transfer_of, create_movement,
  create_transfer,
}

-- The membership is that of the user in the organization of the path, or it is not found.
membership-cases :
    (organization user : ℕ) (db : Db)
    → (get_current_membership organization user db ≡ err organization_not_found)
      ⊎ ((m : CurrentMembership) × (get_current_membership organization user db ≡ ok m)
          × (m.organization_id ≡ organization)
          × (m.user_id ≡ user))
unfolding get_current_membership
membership-cases organization user db =
    elim (Option-cases
      (find (λ m. m.organization_id == organization && m.user_id == user) db.memberships)) [
        | inl e ↦ inl (ground arith)
        | inr (m, e) ↦ inr (
          record { organization_id = organization; user_id = user; role = m.role },
          ground arith,
          refl,
          refl,
        )
      ]

movement_response_db : (out : Result MovementResult × Db) → (movement_response out).1 ≡ out.1
unfolding movement_response
movement_response_db (ok r, db) = refl
movement_response_db (err e, db) = refl

-- What the route does with a request that is let through.
movement_passes :
    (env : Environment) (call : Call) (user organization : ℕ) (payload : RecordMovementRequest)
    (key : String) (db : Db) (m : CurrentMembership)
    → get_current_membership organization user db ≡ ok m
    → is_stock_request payload.quantity payload.reason payload.reference key ≡ true
    → create_movement env call user organization payload key db
      ≡ movement_response
          (record_manual_stock_movement env call m (manual_movement organization payload key) db)
unfolding create_movement
movement_passes env call user organization payload key db m e v = ground arith

module _ (env : Environment) (call : Call) (user organization : ℕ) where
  manual_movement_raises :
      (m : CurrentMembership) (payload : RecordMovementRequest) (key : String) (db : Db)
      (e x : Error)
      → m.organization_id ≡ organization
      → is_stock_request payload.quantity payload.reason payload.reference key ≡ true
      → (record_manual_stock_movement env call m (manual_movement organization payload key) db).0
        ≡ err e
      → movement_error e ≡ unhandled x
      → Unanswered key payload.reason payload.reference x
  unfolding record_manual_stock_movement is_stock_request movement_error application_handler
      require_permission record_stock_movement
  manual_movement_raises m payload key db e x same valid h u =
      let c = manual_movement organization payload key in
      elim (Result-cases (require_permission m (movement_permission payload.movement_type))) [
        | inr (d, f) ↦ absurd (ground arith)
        | inl (t, f) ↦ elim (Bool-cases (is_blank key)) [
          | inl blank ↦ inr (inr (ground arith, blank))
          | inr keyed ↦
              let raised : (record_stock_movement env call (movement_command m c) db).0 ≡ err e =
                ground arith in
              let (same_error, kinds) =
                raised_is_answered e x
                  (record_stock_movement_raises env call (movement_command m c) db e (ground arith)
                    keyed raised)
                  u in
              elim kinds [
                | inl overflow ↦ inl overflow
                | inr text ↦ inr (
                    inl (
                      text,
                      held_texts payload.quantity payload.reason payload.reference key valid (
                          record_stock_movement_texts env call (movement_command m c) db
                            (raised ∙ ap err (sym same_error ∙ text))),
                    ))
              ]
        ]
      ]

  -- A request for a movement whose fields have their types is answered by the application, with a
  -- result or an error of its own, but for three cases, which are left to the server: the overflow
  -- of a balance; a text that its column does not hold, which is a key of more than 128 characters
  -- or a NUL character in the reason or the reference; and a key of white space alone.
  pub movement_is_answered :
      (payload : RecordMovementRequest) (key : String) (db : Db) (x : Error)
      → (create_movement env call user organization payload key db).0 ≡ unhandled x
      → (x ≡ numeric_overflow)
        ⊎ ((x ≡ text_data_error) × (is_clean key payload.reason payload.reference ≡ false))
        ⊎ ((x ≡ value_error) × (is_blank key ≡ true))
  unfolding create_movement movement_response application_handler
  movement_is_answered payload key db x h = elim (membership-cases organization user db) [
    | inl e ↦ absurd (ground arith)
    | inr (m, e, same, _) ↦
        elim (Bool-cases (is_stock_request payload.quantity payload.reason payload.reference key)) [
          | inr v ↦ absurd (ground arith)
          | inl v ↦
              elim (Result-cases
                (record_manual_stock_movement env call m (manual_movement organization payload key)
                  db).0) [
                    | inl (r, f) ↦ absurd (ground arith)
                    | inr (c, f) ↦
                        manual_movement_raises m payload key db c x same v f (ground arith)
                  ]
        ]
  ]

  transfer_raises :
      (m : CurrentMembership) (payload : TransferStockRequest) (key : String) (db : Db)
      (e x : Error)
      → m.organization_id ≡ organization
      → is_stock_request payload.quantity payload.reason payload.reference key ≡ true
      → (payload.source_warehouse_id == payload.destination_warehouse_id) ≡ false
      → is_blank key ≡ false
      → (transfer_inventory env call m (inventory_transfer_of organization payload key) db).0
        ≡ err e
      → transfer_error e ≡ unhandled x
      → (x ≡ numeric_overflow) ⊎ (x ≡ text_data_error)
  unfolding transfer_inventory is_stock_request transfer_error application_handler
      require_permission
  transfer_raises m payload key db e x same valid distinct keyed h u =
      let c = inventory_transfer_of organization payload key in
      elim (Result-cases (require_permission m inventory_transfer)) [
        | inr (d, f) ↦ absurd (ground arith)
        | inl (t, f) ↦
            (transfer_raised_is_answered e x
              (transfer_stock_raises env call (transfer_command m c) db e (ground arith) distinct
                keyed (ground arith))
              u).1
      ]

  -- A request for a transfer, whose key does not consist of white space alone, is left to the
  -- server only for the overflow of a balance or a text that its column does not hold.
  transfer_is_answered :
      (payload : TransferStockRequest) (key : String) (db : Db) (x : Error)
      → is_blank key ≡ false
      → (create_transfer env call user organization payload key db).0 ≡ unhandled x
      → (x ≡ numeric_overflow) ⊎ (x ≡ text_data_error)
  unfolding create_transfer transfer_response application_handler
  transfer_is_answered payload key db x keyed h = elim (membership-cases organization user db) [
    | inl e ↦ absurd (ground arith)
    | inr (m, e, same, _) ↦
        elim (Bool-cases (
          not (is_stock_request payload.quantity payload.reason payload.reference key)
          || payload.source_warehouse_id == payload.destination_warehouse_id)) [
            | inl v ↦ absurd (ground arith)
            | inr v ↦
                elim (Result-cases
                  (transfer_inventory env call m (inventory_transfer_of organization payload key)
                    db).0) [
                      | inl (r, f) ↦ absurd (ground arith)
                      | inr (c, f) ↦
                          transfer_raises m payload key db c x same (ground arith) (ground arith)
                            keyed f (ground arith)
                    ]
          ]
  ]

  manual_retry_replays :
      (later : Call) (m : CurrentMembership) (payload : RecordMovementRequest) (key : String)
      (db : Db) (r : MovementResult)
      → (record_manual_stock_movement env call m (manual_movement organization payload key) db).0
        ≡ ok r
      → record_manual_stock_movement env later m
          (manual_movement organization payload key)
          (record_manual_stock_movement env call m (manual_movement organization payload key) db).1
        ≡ (
          ok (record r { replayed = true }),
          (record_manual_stock_movement env call m (manual_movement organization payload key) db).1,
        )
  unfolding record_manual_stock_movement
  manual_retry_replays later m payload key db r h =
      elim (Result-cases (require_permission m (movement_permission payload.movement_type))) [
        | inr (d, f) ↦ absurd (ground arith)
        | inl (t, f) ↦
            let c = movement_command m (manual_movement organization payload key) in
            let once : (record_stock_movement env call c db).0 ≡ ok r = ground arith in
            ground (arith, retry_replays env call later c db r once)
      ]

  replayed_after :
      (later : Call) (payload : RecordMovementRequest) (key : String) (db : Db) (status : ℕ)
      (r : MovementResult) (m : CurrentMembership) (r' : MovementResult)
      → (create_movement env call user organization payload key db).0 ≡ reply status r
      → get_current_membership organization user db ≡ ok m
      → is_stock_request payload.quantity payload.reason payload.reference key ≡ true
      → (record_manual_stock_movement env call m (manual_movement organization payload key) db).0
        ≡ ok r'
      → get_current_membership organization user
          (create_movement env call user organization payload key db).1
        ≡ ok m
      → create_movement env later user organization payload key
          (create_movement env call user organization payload key db).1
        ≡ (
          reply 200 (record r { replayed = true }),
          (create_movement env call user organization payload key db).1,
        )
  unfolding movement_response
  replayed_after later payload key db status r m r' h e v f e' =
      let c = manual_movement organization payload key in
      let out = record_manual_stock_movement env call m c db in
      let after = (create_movement env call user organization payload key db).1 in
      let passed = movement_passes env call user organization payload key db m e v in
      let back : after ≡ out.1 =
        ap (λ (o : Response MovementResult × Db). o.1) passed ∙ movement_response_db out in
      let same : record r' { replayed = true } ≡ record r { replayed = true } =
        ground (arith, passed) in
      movement_passes env later user organization payload key after m e' v
      ∙ ap movement_response (
          ap (λ (d : Db). record_manual_stock_movement env later m c d) back
          ∙ manual_retry_replays later m payload key db r' f)
      ∙ ap₂ (λ (x : MovementResult) (d : Db). (reply 200 x, d)) same (sym back)

  -- A client that has been answered with a movement and sends the same request again, at whatever
  -- time, is answered with the status 200 and the same movement, marked as replayed, and nothing is
  -- written, if the user is still the member that they were.
  pub repeated_movement_is_replayed :
      (later : Call) (payload : RecordMovementRequest) (key : String) (db : Db) (status : ℕ)
      (r : MovementResult)
      → (create_movement env call user organization payload key db).0 ≡ reply status r
      → get_current_membership organization user
          (create_movement env call user organization payload key db).1
        ≡ get_current_membership organization user db
      → create_movement env later user organization payload key
          (create_movement env call user organization payload key db).1
        ≡ (
          reply 200 (record r { replayed = true }),
          (create_movement env call user organization payload key db).1,
        )
  unfolding create_movement movement_response movement_error application_handler
  repeated_movement_is_replayed later payload key db status r h member =
      elim (membership-cases organization user db) [
        | inl e ↦ absurd (ground arith)
        | inr (m, e, same, _) ↦
            elim (Bool-cases
              (is_stock_request payload.quantity payload.reason payload.reference key)) [
                | inr v ↦ absurd (ground arith)
                | inl v ↦
                    elim (Result-cases
                      (record_manual_stock_movement env call m
                        (manual_movement organization payload key) db).0) [
                          | inr (c, f) ↦ absurd (ground arith)
                          | inl (r', f) ↦
                              replayed_after later payload key db status r m r' h e v f (member ∙ e)
                        ]
              ]
      ]
