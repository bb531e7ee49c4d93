-- ===== src/Inventory/Movement/Effects.antt =====
-- What recording a movement does to the balances and the history.
use dpg_business_app_starter.Base.{
  ℕ, ◌+◌, ◌-◌, ◌<◌, ◌≡◌, ◌⊎◌, inl, inr, some, none, true, false, ◌∷◌, any, find, is_blank, arith,
  subst, sym, Bool-cases, leb, if◌then◌else◌,
}
use dpg_business_app_starter.Database.{
  holds_texts, Db, ok, err, Error, Environment, Call, receipt, issue, on_hand, set_balance,
  BalanceKey, credited, debited, is_member, numeric_limit, insufficient_stock, Product, Warehouse,
  uq_stock_movements_organization_idempotency_key,
}
use dpg_business_app_starter.Database.Laws.{
  Outcome, run_once-Outcome, Outcome-keeps, Outcome-atomic,
}
use dpg_business_app_starter.Inventory.Statements.{
  available_key, product_row, warehouse_row, has_movement_key,
}
use dpg_business_app_starter.Inventory.Ledger.{IsConsistent, Posts, post-IsLedger}
use dpg_business_app_starter.Inventory.Movement.{
  RecordMovementCommand, MovementResult, movement_replay, movement_row, movement_transaction,
  record_stock_movement,
}

module _ (env : Environment) (call : Call) (c : RecordMovementCommand) where
  -- What a committed transaction has written: one balance and one movement.
  pub movement_transaction-writes :
      (db : Db) (r : MovementResult) (db' : Db)
      → movement_transaction env call c db ≡ ok (r, db')
      → (db' ≡ record db {
        balances =
            set_balance
              (available_key c.organization_id c.product_id c.warehouse_id)
              r.balance
              db.balances;
        movements = movement_row env call c r.balance ∷ db.movements;
      })
        × (r ≡ record { movement_id = call.uuid4 0; balance = r.balance; replayed = false })
        × Posts
            (movement_row env call c r.balance)
            (on_hand (available_key c.organization_id c.product_id c.warehouse_id) db.balances)
  unfolding movement_transaction credited debited
  movement_transaction-writes db r db' h = ground arith

  -- The stock key that the command is about.
  abbrev pub stock_key : BalanceKey
  stock_key = available_key c.organization_id c.product_id c.warehouse_id

  -- A committed transaction keeps the ledger.
  movement_transaction-IsConsistent :
      (db : Db) (r : MovementResult) (db' : Db)
      → IsConsistent db
      → movement_transaction env call c db ≡ ok (r, db')
      → IsConsistent db'
  movement_transaction-IsConsistent db r db' h e =
      let (written, _, posted) = movement_transaction-writes db r db' e in
      subst IsConsistent (sym written)
        (post-IsLedger db.balances db.movements (movement_row env call c r.balance) h posted)

  -- Nothing was written, or the transaction was committed on what other clients left.
  pub record_stock_movement-Outcome :
      (db : Db)
      → Outcome
          (movement_replay env c)
          call.concurrent
          (movement_transaction env call c)
          db
          (record_stock_movement env call c db)
  unfolding record_stock_movement
  record_stock_movement-Outcome db = elim (Bool-cases (leb c.quantity 0)) [
    | inl e ↦ inl (rw e, λ a h. ground arith)
    | inr e ↦ rw e (elim (Bool-cases (is_blank c.idempotency_key)) [
      | inl f ↦ inl (rw f, λ a h. ground arith)
      | inr f ↦ rw f (
          run_once-Outcome (movement_replay env c) uq_stock_movements_organization_idempotency_key
            call.concurrent (movement_transaction env call c) db)
    ])
  ]

  -- If the stock and the history agree, and other clients keep them so, then they agree after the
  -- call too, however it ends: every balance is what was received less what was issued, and each
  -- movement carries the balance that it left.
  pub record_stock_movement-IsConsistent :
      (db : Db)
      → IsConsistent db
      → IsConsistent (call.concurrent db)
      → IsConsistent (record_stock_movement env call c db).1
  record_stock_movement-IsConsistent db h hc =
      Outcome-keeps (movement_replay env c) call.concurrent (movement_transaction env call c) db
        IsConsistent h hc
        (λ r db' e. movement_transaction-IsConsistent (call.concurrent db) r db' hc e)
        (record_stock_movement env call c db) (record_stock_movement-Outcome db)

  -- A call that raises leaves the database as it was, up to what other clients committed.
  record_stock_movement_atomic :
      (db : Db) (e : Error)
      → (record_stock_movement env call c db).0 ≡ err e
      → ((record_stock_movement env call c db).1 ≡ db)
        ⊎ ((record_stock_movement env call c db).1 ≡ call.concurrent db)
  record_stock_movement_atomic db e h =
      Outcome-atomic (movement_replay env c) call.concurrent (movement_transaction env call c) db
        (record_stock_movement env call c db) e (record_stock_movement-Outcome db) h

  -- A positive quantity under a fresh key, of an active product in an active warehouse, by a member.
  pub record IsAccepted (db : Db) : Type 0 where
    pub positive : 0 < c.quantity
    pub keyed : is_blank c.idempotency_key ≡ false
    pub storable : holds_texts c.idempotency_key c.reason c.reference ≡ true
    pub first_use : find (has_movement_key c.organization_id c.idempotency_key) db.movements ≡ none
    pub unused :
        any (has_movement_key c.organization_id c.idempotency_key) (call.concurrent db).movements
        ≡ false
    pub product : Product
    pub product_found :
        product_row c.organization_id c.product_id (call.concurrent db) ≡ some product
    pub product_active : product.active ≡ true
    pub warehouse : Warehouse
    pub warehouse_found :
        warehouse_row c.organization_id c.warehouse_id (call.concurrent db) ≡ some warehouse
    pub warehouse_active : warehouse.active ≡ true
    pub member : is_member c.organization_id c.performed_by_id (call.concurrent db) ≡ true

  -- What the database holds after a movement that leaves a balance.
  abbrev pub posted : ℕ → Db → Db
  posted balance db = record db {
    balances = set_balance stock_key balance db.balances;
    movements = movement_row env call c balance ∷ db.movements;
  }

  abbrev pub confirmed : ℕ → MovementResult
  confirmed balance = record { movement_id = call.uuid4 0; balance = balance; replayed = false }

  -- A receipt of a positive quantity under a fresh key, of an active product into an active
  -- warehouse, by a member, is posted if the column holds the sum: the balance grows by the
  -- quantity, one movement is added, and nothing else changes.
  receipt_posted :
      (db : Db)
      → IsAccepted db
      → c.movement_type ≡ receipt
      → on_hand stock_key (call.concurrent db).balances + c.quantity < numeric_limit
      → record_stock_movement env call c db ≡ (
        ok (confirmed (on_hand stock_key (call.concurrent db).balances + c.quantity)),
        posted (on_hand stock_key (call.concurrent db).balances + c.quantity) (call.concurrent db),
      )
  unfolding record_stock_movement credited
  receipt_posted db a t fits = ground arith

  -- An issue of a positive quantity under a fresh key, of an active product in an active warehouse,
  -- by a member, is posted exactly if the stock covers it: the balance falls by the quantity and
  -- one movement is added. Otherwise it is refused, and only the commits of other clients remain.
  issue_posted :
      (db : Db)
      → IsAccepted db
      → c.movement_type ≡ issue
      → record_stock_movement env call c db ≡ (
          if leb c.quantity (on_hand stock_key (call.concurrent db).balances)
          then (
            ok (confirmed (on_hand stock_key (call.concurrent db).balances - c.quantity)),
            posted
                (on_hand stock_key (call.concurrent db).balances - c.quantity)
                (call.concurrent db),
          )
          else (err insufficient_stock, call.concurrent db))
  unfolding record_stock_movement debited
  issue_posted db a t = ground arith
