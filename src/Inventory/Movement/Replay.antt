-- ===== src/Inventory/Movement/Replay.antt =====
-- Retries and races of one movement: what the idempotency key promises.
use dpg_business_app_starter.Base.{
  ◌∙◌, ap, ap₂, Option-cases, inl, inr, sym, ◌<◌, ◌≡◌, ◌≢◌, some, true, false, find, is_blank,
  str_eq_iff, arith,
}
use dpg_business_app_starter.Database.{
  Db, ok, err, Environment, Call, StockMovement, idempotency_conflict,
}
use dpg_business_app_starter.Inventory.Statements.{has_movement_key}
use dpg_business_app_starter.Inventory.Movement.{
  RecordMovementCommand, MovementResult, movement_replay, movement_transaction,
  record_stock_movement, request_fingerprint,
}
use dpg_business_app_starter.Inventory.Movement.Effects.{
  movement_transaction-writes, record_stock_movement-Outcome,
}
use dpg_business_app_starter.Database.Laws.{Outcome-stored}

module _ (env : Environment) (call : Call) (c : RecordMovementCommand) where
  -- A committed transaction has stored its result under the key.
  movement_transaction-stores :
      (db : Db) (r : MovementResult) (db' : Db)
      → movement_transaction env call c db ≡ ok (r, db')
      → movement_replay env c db' ≡ ok (some (record r { replayed = true }))
  unfolding movement_replay
  movement_transaction-stores db r db' e =
      let (written, confirmed, _) = movement_transaction-writes env call c db r db' e in
      ground (
        arith,
        written,
        confirmed,
        str_eq_iff c.idempotency_key c.idempotency_key,
        str_eq_iff (request_fingerprint env c) (request_fingerprint env c),
      )

  replay_marked :
      (db : Db) (r : MovementResult)
      → movement_replay env c db ≡ ok (some r)
      → record r { replayed = true } ≡ r
  unfolding movement_replay
  replay_marked db r h = ground arith

  -- A result of a call is stored: the lookup of the key finds it.
  replay_stored :
      (db : Db) (r : MovementResult)
      → (record_stock_movement env call c db).0 ≡ ok r
      → movement_replay env c (record_stock_movement env call c db).1
        ≡ ok (some (record r { replayed = true }))
  replay_stored db r h =
      Outcome-stored (movement_replay env c) call.concurrent (movement_transaction env call c) db
        (λ r. record r { replayed = true }) replay_marked
        (movement_transaction-stores (call.concurrent db)) (record_stock_movement env call c db)
        (record_stock_movement-Outcome env call c db) r h

  -- If the lookup finds a result, a call returns it and changes nothing.
  replay_returned :
      (db : Db) (r : MovementResult)
      → 0 < c.quantity
      → is_blank c.idempotency_key ≡ false
      → movement_replay env c db ≡ ok (some r)
      → record_stock_movement env call c db ≡ (ok r, db)
  unfolding record_stock_movement
  replay_returned db r q k h = ground arith

  -- Only a positive quantity under a key that is not blank has a result.
  accepted_input :
      (db : Db) (r : MovementResult)
      → (record_stock_movement env call c db).0 ≡ ok r
      → (0 < c.quantity) × (is_blank c.idempotency_key ≡ false)
  unfolding record_stock_movement
  accepted_input db r h = (ground arith, ground arith)

  -- The key of another request is refused.
  used_key_conflicts :
      (db : Db) (m : StockMovement)
      → 0 < c.quantity
      → is_blank c.idempotency_key ≡ false
      → find (has_movement_key c.organization_id c.idempotency_key) db.movements ≡ some m
      → m.request_fingerprint ≢ request_fingerprint env c
      → record_stock_movement env call c db ≡ (err idempotency_conflict, db)
  unfolding record_stock_movement
  used_key_conflicts db m q k h ne =
      ground (arith, str_eq_iff m.request_fingerprint (request_fingerprint env c))

  -- The movement behind a stored result.
  replay_row :
      (db : Db) (r : MovementResult)
      → movement_replay env c db ≡ ok (some r)
      → (m : StockMovement) × (find
            (has_movement_key c.organization_id c.idempotency_key)
            db.movements
          ≡ some m)
        × (m.request_fingerprint ≡ request_fingerprint env c)
  unfolding movement_replay
  replay_row db r h =
      elim (Option-cases
        (find (has_movement_key c.organization_id c.idempotency_key) db.movements)) [
          | inl f ↦ absurd (ground arith)
          | inr (m, f) ↦
              (m, f, ground (arith, str_eq_iff m.request_fingerprint (request_fingerprint env c)))
        ]

-- A retry after a result, by a later call, returns the same movement and balance, says that it is a
-- replay, and changes nothing.
pub retry_replays :
    (env : Environment) (call later : Call) (c : RecordMovementCommand) (db : Db)
    (r : MovementResult)
    → (record_stock_movement env call c db).0 ≡ ok r
    → record_stock_movement env later c (record_stock_movement env call c db).1
      ≡ (ok (record r { replayed = true }), (record_stock_movement env call c db).1)
retry_replays env call later c db r h =
    let (positive, keyed) = accepted_input env call c db r h in
    replay_returned env later c (record_stock_movement env call c db).1
      (record r { replayed = true }) positive keyed (replay_stored env call c db r h)

-- After a result, a later call of the same organization with a positive quantity under the same key,
-- whose fingerprint is another, is refused and changes nothing.
reused_key_conflicts :
    (env : Environment) (call later : Call) (c other : RecordMovementCommand) (db : Db)
    (r : MovementResult)
    → (record_stock_movement env call c db).0 ≡ ok r
    → other.organization_id ≡ c.organization_id
    → other.idempotency_key ≡ c.idempotency_key
    → 0 < other.quantity
    → request_fingerprint env other ≢ request_fingerprint env c
    → record_stock_movement env later other (record_stock_movement env call c db).1
      ≡ (err idempotency_conflict, (record_stock_movement env call c db).1)
reused_key_conflicts env call later c other db r h same_organization same_key positive differs =
    let after = (record_stock_movement env call c db).1 in
    let (m, found, stored) =
      replay_row env call c after (record r { replayed = true })
        (replay_stored env call c db r h) in
    let (_, keyed) = accepted_input env call c db r h in
    used_key_conflicts env later other after m positive (ap is_blank same_key ∙ keyed)
      (ap₂ (λ o k. find (has_movement_key o k) after.movements) same_organization same_key ∙ found)
      (λ e. differs (sym e ∙ stored))
