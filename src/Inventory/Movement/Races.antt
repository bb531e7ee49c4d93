-- ===== src/Inventory/Movement/Races.antt =====
-- Two copies of one request that overlap: the other copy commits after this one has looked for the
-- idempotency key and before it takes its first lock.
use dpg_business_app_starter.Base.{
  ◌+◌, ◌<◌, ◌≡◌, ◌≢◌, ◌⊎◌, inl, inr, some, none, true, false, any, find, is_blank, str_eq_iff,
  arith, leb, if◌then◌else◌, any-find,
}
use dpg_business_app_starter.Database.{
  Db, ok, err, Environment, Call, receipt, issue, on_hand, StockMovement, credited, debited,
  numeric_limit, holds_texts, insufficient_stock, Product, Warehouse,
}
use dpg_business_app_starter.Database.Laws.{Outcome}
use dpg_business_app_starter.Inventory.Statements.{product_row, warehouse_row, has_movement_key}
use dpg_business_app_starter.Inventory.Movement.{
  RecordMovementCommand, MovementResult, movement_replay, movement_transaction,
  record_stock_movement, request_fingerprint,
}
use dpg_business_app_starter.Inventory.Movement.Effects.{stock_key, record_stock_movement-Outcome}

module _ (env : Environment) (call : Call) (c : RecordMovementCommand) where
  -- The other copy of the request has been committed, as the movement `m`, the columns hold its
  -- texts, and the product and the warehouse are active.
  pub record IsLate (db : Db) (m : StockMovement) : Type 0 where
    pub positive : 0 < c.quantity
    pub keyed : is_blank c.idempotency_key ≡ false
    pub storable : holds_texts c.idempotency_key c.reason c.reference ≡ true
    pub not_before : find (has_movement_key c.organization_id c.idempotency_key) db.movements ≡ none
    pub committed :
        find (has_movement_key c.organization_id c.idempotency_key) (call.concurrent db).movements
        ≡ some m
    pub same_request : m.request_fingerprint ≡ request_fingerprint env c
    pub product : Product
    pub product_found :
        product_row c.organization_id c.product_id (call.concurrent db) ≡ some product
    pub product_active : product.active ≡ true
    pub warehouse : Warehouse
    pub warehouse_found :
        warehouse_row c.organization_id c.warehouse_id (call.concurrent db) ≡ some warehouse
    pub warehouse_active : warehouse.active ≡ true

  -- With the key taken the transaction cannot be committed.
  movement_transaction-taken :
      (db : Db) (r : MovementResult) (db' : Db)
      → any (has_movement_key c.organization_id c.idempotency_key) db.movements ≡ true
      → movement_transaction env call c db ≢ ok (r, db')
  unfolding movement_transaction credited debited
  movement_transaction-taken db r db' h e = ground arith

  -- A request whose key other clients have taken by the time of its first lock writes nothing: it
  -- is never posted a second time.
  pub taken_key_posts_nothing :
      (db : Db)
      → any (has_movement_key c.organization_id c.idempotency_key) (call.concurrent db).movements
        ≡ true
      → ((record_stock_movement env call c db).1 ≡ db)
        ⊎ ((record_stock_movement env call c db).1 ≡ call.concurrent db)
  taken_key_posts_nothing db h = go (record_stock_movement-Outcome env call c db)
    where
      go :
          Outcome
            (movement_replay env c)
            call.concurrent
            (movement_transaction env call c)
            db
            (record_stock_movement env call c db)
          → ((record_stock_movement env call c db).1 ≡ db)
            ⊎ ((record_stock_movement env call c db).1 ≡ call.concurrent db)
      go (inl (e, _)) = inl e
      go (inr (inl (e, _))) = inr e
      go (inr (inr (r, db', e, _))) =
          absurd (movement_transaction-taken (call.concurrent db) r db' h e)

  -- An issue whose own copy other clients commit after its lookup of the key and before its first
  -- lock, with the product and the warehouse active: it returns the stored result if the remaining
  -- stock would cover it once more, and is refused for insufficient stock otherwise, though its own
  -- copy was posted. It writes nothing.
  pub late_issue :
      (db : Db) (m : StockMovement)
      → IsLate db m
      → c.movement_type ≡ issue
      → record_stock_movement env call c db ≡ (
        if leb c.quantity (on_hand (stock_key env call c) (call.concurrent db).balances)
            then ok (record { movement_id = m.id; balance = m.balance_after; replayed = true })
            else err insufficient_stock,
        call.concurrent db,
      )
  unfolding record_stock_movement debited
  late_issue db m l t = ground (
    arith,
    any-find (has_movement_key c.organization_id c.idempotency_key) (call.concurrent db).movements m
        l.committed,
    str_eq_iff m.request_fingerprint (request_fingerprint env c),
  )

  -- A receipt whose own copy other clients commit after its lookup of the key and before its first
  -- lock, with the product and the warehouse active, returns the stored result and writes nothing,
  -- if the column could hold the stock with the quantity added once more.
  late_receipt :
      (db : Db) (m : StockMovement)
      → IsLate db m
      → c.movement_type ≡ receipt
      → on_hand (stock_key env call c) (call.concurrent db).balances + c.quantity < numeric_limit
      → record_stock_movement env call c db ≡ (
        ok (record { movement_id = m.id; balance = m.balance_after; replayed = true }),
        call.concurrent db,
      )
  unfolding record_stock_movement credited
  late_receipt db m l t fits = ground (
    arith,
    any-find (has_movement_key c.organization_id c.idempotency_key) (call.concurrent db).movements m
        l.committed,
    str_eq_iff m.request_fingerprint (request_fingerprint env c),
  )
