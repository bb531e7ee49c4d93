-- ===== src/Inventory/Transfer/Effects.antt =====
-- What a transfer does to the two balances, to the other balances and to the ledger.
use dpg_business_app_starter.Inventory.Transfer.{
  TransferStockCommand, TransferResult, transfer_replay, transfer_row, movement_out, movement_in,
  write_transfer, transfer_transaction, transfer_stock,
}
use dpg_business_app_starter.Base.{
  ℕ, ◌+◌, ◌≡◌, ◌≢◌, ◌⊎◌, inl, inr, some, true, false, ◌∷◌, is_blank, arith, subst, sym, Bool-cases,
  leb, ◌==◌,
}
use dpg_business_app_starter.Database.{
  Db, ok, err, Error, Environment, Call, on_hand, same_key_iff, set_balance, ensure_balance,
  BalanceKey, Balances, credited, debited, uq_stock_transfers_organization_idempotency_key,
}
use dpg_business_app_starter.Database.Laws.{
  Outcome, run_once-Outcome, Outcome-keeps, Outcome-atomic,
}
use dpg_business_app_starter.Inventory.Statements.{available_key}
use dpg_business_app_starter.Inventory.Ledger.{
  IsLedger, IsConsistent, post-IsLedger, ensure_balance-IsLedger, credit-Posts, debit-Posts,
}

module _ (env : Environment) (call : Call) (c : TransferStockCommand) where
  abbrev pub source_key : BalanceKey
  source_key = available_key c.organization_id c.product_id c.source_warehouse_id

  abbrev pub destination_key : BalanceKey
  destination_key = available_key c.organization_id c.product_id c.destination_warehouse_id

  -- The balances after the two zero rows have been opened.
  abbrev pub opened : Balances → Balances
  opened balances = ensure_balance destination_key (ensure_balance source_key balances)

  -- What a committed transfer holds, from its two balances.
  abbrev pub transferred : ℕ → ℕ → Db → Db
  transferred source destination db = record db {
    balances =
        set_balance destination_key destination
          (set_balance source_key source (opened db.balances));
    transfers = transfer_row env call c source destination ∷ db.transfers;
    movements = movement_in env call c destination ∷ movement_out env call c source ∷ db.movements;
  }

  pub transfer_transaction-writes :
      (db : Db) (r : TransferResult) (db' : Db)
      → transfer_transaction env call c db ≡ ok (r, db')
      → (db' ≡ transferred r.source_balance r.destination_balance db)
        × (r ≡ record r { transfer_id = call.uuid4 0; replayed = false })
        × (debited source_key c.quantity (opened db.balances) ≡ some r.source_balance)
        × (credited destination_key c.quantity
              (set_balance source_key r.source_balance (opened db.balances))
            ≡ some r.destination_balance)
  unfolding transfer_transaction write_transfer
  transfer_transaction-writes db r db' h = ground arith

  -- Opening a zero row leaves the stock on hand as it was, at every key.
  on_hand-opened :
      (k : BalanceKey) (balances : Balances) → on_hand k (opened balances) ≡ on_hand k balances
  unfolding ensure_balance set_balance
  on_hand-opened k balances =
      ground (arith, same_key_iff source_key k, same_key_iff destination_key k)

  -- A committed transfer keeps the ledger.
  transferred-IsConsistent :
      (db : Db) (source destination : ℕ)
      → IsConsistent db
      → debited source_key c.quantity (opened db.balances) ≡ some source
      → credited destination_key c.quantity (set_balance source_key source (opened db.balances))
        ≡ some destination
      → IsConsistent (transferred source destination db)
  transferred-IsConsistent db source destination h e f =
      let out = movement_out env call c source in
      let b = opened db.balances in
      let opened_h : IsLedger b db.movements =
        ensure_balance-IsLedger destination_key (ensure_balance source_key db.balances) db.movements
          (ensure_balance-IsLedger source_key db.balances db.movements h) in
      let issued_h : IsLedger (set_balance source_key source b) (out ∷ db.movements) =
        post-IsLedger b db.movements out opened_h (debit-Posts source_key c.quantity source b e) in
      post-IsLedger (set_balance source_key source b) (out ∷ db.movements)
        (movement_in env call c destination) issued_h
        (credit-Posts destination_key c.quantity destination (set_balance source_key source b) f)

  transfer_transaction-IsConsistent :
      (db : Db) (r : TransferResult) (db' : Db)
      → IsConsistent db
      → transfer_transaction env call c db ≡ ok (r, db')
      → IsConsistent db'
  transfer_transaction-IsConsistent db r db' h e =
      let (written, _, debit_e, credit_e) = transfer_transaction-writes db r db' e in
      subst IsConsistent (sym written)
        (transferred-IsConsistent db r.source_balance r.destination_balance h debit_e credit_e)

  pub transfer_stock-Outcome :
      (db : Db)
      → Outcome
          (transfer_replay env c)
          call.concurrent
          (transfer_transaction env call c)
          db
          (transfer_stock env call c db)
  unfolding transfer_stock
  transfer_stock-Outcome db = elim (Bool-cases (leb c.quantity 0)) [
    | inl e ↦ inl (rw e, λ a h. ground arith)
    | inr e ↦ rw e (elim (Bool-cases (c.source_warehouse_id == c.destination_warehouse_id)) [
      | inl g ↦ inl (rw g, λ a h. ground arith)
      | inr g ↦ rw g (elim (Bool-cases (is_blank c.idempotency_key)) [
        | inl f ↦ inl (rw f, λ a h. ground arith)
        | inr f ↦ rw f (
            run_once-Outcome (transfer_replay env c) uq_stock_transfers_organization_idempotency_key
              call.concurrent (transfer_transaction env call c) db)
      ])
    ])
  ]

  -- If the stock and the history agree, and other clients keep them so, they agree after a transfer
  -- too, however it ends.
  pub transfer_stock-IsConsistent :
      (db : Db)
      → IsConsistent db
      → IsConsistent (call.concurrent db)
      → IsConsistent (transfer_stock env call c db).1
  transfer_stock-IsConsistent db h hc =
      Outcome-keeps (transfer_replay env c) call.concurrent (transfer_transaction env call c) db
        IsConsistent h hc
        (λ r db' e. transfer_transaction-IsConsistent (call.concurrent db) r db' hc e)
        (transfer_stock env call c db) (transfer_stock-Outcome db)

  -- A transfer that raises leaves the database as it was, up to what other clients committed: no
  -- balance is debited without the other being credited.
  transfer_stock_atomic :
      (db : Db) (e : Error)
      → (transfer_stock env call c db).0 ≡ err e
      → ((transfer_stock env call c db).1 ≡ db)
        ⊎ ((transfer_stock env call c db).1 ≡ call.concurrent db)
  transfer_stock_atomic db e h =
      Outcome-atomic (transfer_replay env c) call.concurrent (transfer_transaction env call c) db
        (transfer_stock env call c db) e (transfer_stock-Outcome db) h

  source_ne_destination :
      (db : Db) (r : TransferResult)
      → (transfer_stock env call c db).0 ≡ ok r
      → c.source_warehouse_id ≢ c.destination_warehouse_id
  unfolding transfer_stock
  source_ne_destination db r h e = ground arith

  pub replay_is_marked :
      (db : Db) (r : TransferResult)
      → transfer_replay env c db ≡ ok (some r)
      → record r { replayed = true } ≡ r
  unfolding transfer_replay
  replay_is_marked db r h = ground arith

  -- A new result is that of a committed transaction.
  new_result :
      (db : Db) (r : TransferResult)
      → (transfer_stock env call c db).0 ≡ ok r
      → r.replayed ≡ false
      → (db' : Db) × (transfer_transaction env call c (call.concurrent db) ≡ ok (r, db'))
        × ((transfer_stock env call c db).1 ≡ db')
  new_result db r h n = go (transfer_stock-Outcome db)
    where
      go :
          Outcome
            (transfer_replay env c)
            call.concurrent
            (transfer_transaction env call c)
            db
            (transfer_stock env call c db)
          → (db' : Db) × (transfer_transaction env call c (call.concurrent db) ≡ ok (r, db'))
            × ((transfer_stock env call c db).1 ≡ db')
      go (inl (_, f)) = absurd (ground (arith, replay_is_marked db r (f r h)))
      go (inr (inl (_, f))) =
          absurd (ground (arith, replay_is_marked (call.concurrent db) r (f r h)))
      go (inr (inr (a, db', e, f))) = (db', ground arith, ground arith)

  -- A new transfer takes its quantity from the source, which held at least as much, and adds it to
  -- the destination; the two recorded balances are those that it leaves.
  pub transfer_moves_quantity :
      (db : Db) (r : TransferResult)
      → (transfer_stock env call c db).0 ≡ ok r
      → r.replayed ≡ false
      → (on_hand source_key (call.concurrent db).balances ≡ r.source_balance + c.quantity)
        × (r.destination_balance
            ≡ on_hand destination_key (call.concurrent db).balances + c.quantity)
        × (on_hand source_key (transfer_stock env call c db).1.balances ≡ r.source_balance)
        × (on_hand destination_key (transfer_stock env call c db).1.balances
            ≡ r.destination_balance)
  transfer_moves_quantity db r h n =
      let d = call.concurrent db in
      let (db', e, same) = new_result db r h n in
      let (written, _, debit_e, credit_e) = transfer_transaction-writes d r db' e in
      rw (same, written)
        (unfold set_balance in
          ground (
            arith,
            debit-Posts source_key c.quantity r.source_balance (opened d.balances) debit_e,
            credit-Posts destination_key c.quantity r.destination_balance
                (set_balance source_key r.source_balance (opened d.balances)) credit_e,
            on_hand-opened source_key d.balances,
            on_hand-opened destination_key d.balances,
            source_ne_destination db r h,
            same_key_iff source_key source_key,
            same_key_iff destination_key destination_key,
            same_key_iff source_key destination_key,
            same_key_iff destination_key source_key,
          ))

  -- A new transfer leaves the stock at every other key as it was.
  transfer_leaves_others :
      (db : Db) (r : TransferResult) (k : BalanceKey)
      → (transfer_stock env call c db).0 ≡ ok r
      → r.replayed ≡ false
      → k ≢ source_key
      → k ≢ destination_key
      → on_hand k (transfer_stock env call c db).1.balances
        ≡ on_hand k (call.concurrent db).balances
  transfer_leaves_others db r k h n ns nd =
      let d = call.concurrent db in
      let (db', e, same) = new_result db r h n in
      let (written, _, _, _) = transfer_transaction-writes d r db' e in
      rw (same, written)
        (unfold set_balance in
          ground (
            arith,
            on_hand-opened k d.balances,
            same_key_iff source_key k,
            same_key_iff destination_key k,
          ))
