-- ===== src/Inventory/Transfer/Replay.antt =====
-- Retries of a transfer, and the transfers that are accepted.
use text.Mathlib.TextLemmas.{append_cancel_left}
use mathlib.Core.Bool.{false≢true}
use dpg_business_app_starter.Inventory.Transfer.{
  TransferStockCommand, TransferResult, has_transfer_key, warehouse_rows, transfer_fingerprint,
  movement_key_prefix, transfer_replay, write_transfer, transfer_transaction, transfer_stock,
}
use dpg_business_app_starter.Inventory.Transfer.Effects.{
  source_key, destination_key, transferred, opened, transfer_transaction-writes,
  transfer_stock-Outcome, replay_is_marked,
}
use dpg_business_app_starter.Base.{
  ℕ, String, ◌+◌, ◌-◌, ◌<◌, ◌≡◌, ◌≢◌, inl, inr, some, none, true, false, any, find, is_blank,
  str_eq, str_eq_iff, str_append, arith, Bool-cases, leb, if◌then◌else◌, length, all,
}
use dpg_business_app_starter.Database.{
  holds_texts, Db, ok, err, Environment, Call, on_hand, same_key_iff, set_balance, ensure_balance,
  Balances, credited, debited, is_member, numeric_limit, insufficient_stock, Product, Warehouse,
}
use dpg_business_app_starter.Database.Laws.{Outcome-stored}
use dpg_business_app_starter.Inventory.Statements.{product_row, has_movement_key}

-- A positive quantity, two warehouses and a key that is not blank.
pub record IsWellFormed (c : TransferStockCommand) : Type 0 where
  pub positive : 0 < c.quantity
  pub distinct : c.source_warehouse_id ≢ c.destination_warehouse_id
  pub keyed : is_blank c.idempotency_key ≡ false

-- The two derived keys of one transfer differ.
out_key_ne_in_key : (p : String) → str_eq (str_append p ":out") (str_append p ":in") ≡ false
out_key_ne_in_key p = elim (Bool-cases (str_eq (str_append p ":out") (str_append p ":in"))) [
  | inl e ↦ absurd (
      false≢true
        ((str_eq_iff ":out" ":in").1 (append_cancel_left p ":out" ":in" ((str_eq_iff _ _).0 e))))
  | inr e ↦ e
]

module _ (env : Environment) (call : Call) (c : TransferStockCommand) where
  transfer_transaction-stores :
      (db : Db) (r : TransferResult) (db' : Db)
      → transfer_transaction env call c db ≡ ok (r, db')
      → transfer_replay env c db' ≡ ok (some (record r { replayed = true }))
  unfolding transfer_replay
  transfer_transaction-stores db r db' e =
      let (written, confirmed, _, _) = transfer_transaction-writes env call c db r db' e in
      ground (
        arith,
        written,
        confirmed,
        str_eq_iff c.idempotency_key c.idempotency_key,
        str_eq_iff (transfer_fingerprint env c) (transfer_fingerprint env c),
      )

  transfer_replay_stored :
      (db : Db) (r : TransferResult)
      → (transfer_stock env call c db).0 ≡ ok r
      → transfer_replay env c (transfer_stock env call c db).1
        ≡ ok (some (record r { replayed = true }))
  transfer_replay_stored db r h =
      Outcome-stored (transfer_replay env c) call.concurrent (transfer_transaction env call c) db
        (λ r. record r { replayed = true }) (replay_is_marked env call c)
        (transfer_transaction-stores (call.concurrent db)) (transfer_stock env call c db)
        (transfer_stock-Outcome env call c db) r h

  -- If the lookup finds a result, a call returns it and changes nothing.
  transfer_replay_returned :
      (db : Db) (r : TransferResult)
      → IsWellFormed c
      → transfer_replay env c db ≡ ok (some r)
      → transfer_stock env call c db ≡ (ok r, db)
  unfolding transfer_stock
  transfer_replay_returned db r w h = ground arith

  -- Only a well-formed command has a result.
  result-IsWellFormed :
      (db : Db) (r : TransferResult) → (transfer_stock env call c db).0 ≡ ok r → IsWellFormed c
  unfolding transfer_stock
  result-IsWellFormed db r h = record {
    positive = ground arith;
    distinct = λ e. ground arith;
    keyed = ground arith;
  }

-- A retry after a result, by a later call, returns the same transfer and balances, says that it is a
-- replay, and changes nothing.
pub transfer_retry_replays :
    (env : Environment) (call later : Call) (c : TransferStockCommand) (db : Db)
    (r : TransferResult)
    → (transfer_stock env call c db).0 ≡ ok r
    → transfer_stock env later c (transfer_stock env call c db).1
      ≡ (ok (record r { replayed = true }), (transfer_stock env call c db).1)
transfer_retry_replays env call later c db r h =
    transfer_replay_returned env later c (transfer_stock env call c db).1
      (record r { replayed = true }) (result-IsWellFormed env call c db r h)
      (transfer_replay_stored env call c db r h)

module _ (env : Environment) (call : Call) (c : TransferStockCommand) where
  -- A well-formed transfer of an active product between two active warehouses, by a member, none of
  -- whose keys is in use.
  -- The columns hold the texts of the transfer and of its two movements.
  abbrev IsStorable : Type 0
  IsStorable =
      (holds_texts c.idempotency_key c.reason c.reference ≡ true)
      × (holds_texts (str_append (movement_key_prefix env c) ":out") c.reason c.reference ≡ true)
      × (holds_texts (str_append (movement_key_prefix env c) ":in") c.reason c.reference ≡ true)

  pub record IsAccepted (db : Db) : Type 0 where
    pub well_formed : IsWellFormed c
    pub storable : IsStorable
    pub first_use : find (has_transfer_key c.organization_id c.idempotency_key) db.transfers ≡ none
    pub unused :
        any (has_transfer_key c.organization_id c.idempotency_key) (call.concurrent db).transfers
        ≡ false
    pub out_unused :
        any
          (has_movement_key c.organization_id (str_append (movement_key_prefix env c) ":out"))
          (call.concurrent db).movements
        ≡ false
    pub in_unused :
        any
          (has_movement_key c.organization_id (str_append (movement_key_prefix env c) ":in"))
          (call.concurrent db).movements
        ≡ false
    pub product : Product
    pub product_found :
        product_row c.organization_id c.product_id (call.concurrent db) ≡ some product
    pub product_active : product.active ≡ true
    pub two_warehouses : length (warehouse_rows c (call.concurrent db)) ≡ 2
    pub warehouses_active :
        all (λ (w : Warehouse). w.active) (warehouse_rows c (call.concurrent db)) ≡ true
    pub member : is_member c.organization_id c.performed_by_id (call.concurrent db) ≡ true

  abbrev source_left : Db → ℕ
  source_left db = on_hand (source_key env call c) db.balances - c.quantity

  abbrev destination_left : Db → ℕ
  destination_left db = on_hand (destination_key env call c) db.balances + c.quantity

  abbrev pub posted : Db → TransferResult × Db
  posted db = (
    record {
      transfer_id = call.uuid4 0;
      source_balance = source_left db;
      destination_balance = destination_left db;
      replayed = false;
    },
    transferred env call c (source_left db) (destination_left db) db,
  )

  debited_source :
      (balances : Balances)
      → debited (source_key env call c) c.quantity (opened env call c balances) ≡ (
          if leb c.quantity (on_hand (source_key env call c) balances)
          then some (on_hand (source_key env call c) balances - c.quantity)
          else none)
  unfolding debited ensure_balance set_balance
  debited_source balances = ground (
    arith,
    same_key_iff (source_key env call c) (source_key env call c),
    same_key_iff (destination_key env call c) (source_key env call c),
  )

  credited_destination :
      (balances : Balances) (left : ℕ)
      → c.source_warehouse_id ≢ c.destination_warehouse_id
      → on_hand (destination_key env call c) balances + c.quantity < numeric_limit
      → credited
          (destination_key env call c)
          c.quantity
          (set_balance (source_key env call c) left (opened env call c balances))
        ≡ some (on_hand (destination_key env call c) balances + c.quantity)
  unfolding credited ensure_balance set_balance
  credited_destination balances left ne fits = ground (
    arith,
    same_key_iff (destination_key env call c) (destination_key env call c),
    same_key_iff (source_key env call c) (destination_key env call c),
  )

  -- The writing statements succeed exactly if the source covers the quantity.
  write_transfer_posts :
      (db : Db)
      → IsStorable
      → c.source_warehouse_id ≢ c.destination_warehouse_id
      → any (has_transfer_key c.organization_id c.idempotency_key) db.transfers ≡ false
      → any
          (has_movement_key c.organization_id (str_append (movement_key_prefix env c) ":out"))
          db.movements
        ≡ false
      → any
          (has_movement_key c.organization_id (str_append (movement_key_prefix env c) ":in"))
          db.movements
        ≡ false
      → is_member c.organization_id c.performed_by_id db ≡ true
      → destination_left db < numeric_limit
      → write_transfer env call c db ≡ (
          if leb c.quantity (on_hand (source_key env call c) db.balances)
          then ok (posted db)
          else err insufficient_stock)
  unfolding write_transfer
  write_transfer_posts db storable ne ut uo ui mem fits = ground (
    arith,
    out_key_ne_in_key (movement_key_prefix env c),
    debited_source db.balances,
    credited_destination db.balances (source_left db) ne fits,
  )

  -- A transfer of a positive quantity of an active product between two different active warehouses,
  -- by a member, with fresh keys, into a destination whose column holds the sum, is posted exactly
  -- if the source covers it. Otherwise it is refused, and only the commits of other clients remain.
  transfer_posted :
      (db : Db)
      → IsAccepted db
      → destination_left (call.concurrent db) < numeric_limit
      → transfer_stock env call c db ≡ (
          if leb c.quantity (on_hand (source_key env call c) (call.concurrent db).balances)
          then (ok (posted (call.concurrent db)).0, (posted (call.concurrent db)).1)
          else (err insufficient_stock, call.concurrent db))
  unfolding transfer_stock transfer_replay transfer_transaction
  transfer_posted db a fits =
      let w = a.well_formed in
      let positive : 0 < c.quantity = w.positive in
      let distinct : c.source_warehouse_id ≢ c.destination_warehouse_id = w.distinct in
      let keyed : is_blank c.idempotency_key ≡ false = w.keyed in
      ground (
        arith,
        write_transfer_posts (call.concurrent db) a.storable w.distinct a.unused a.out_unused
            a.in_unused a.member fits,
      )
