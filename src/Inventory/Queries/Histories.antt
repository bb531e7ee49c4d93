-- ===== src/Inventory/Queries/Histories.antt =====
-- What a client learns that reads a whole history (app/modules/inventory/use_cases.py).
use dpg_business_app_starter.Base.{
  ℕ, suc, ◌+◌, ◌<◌, ◌≡◌, refl, ◌∙◌, arith, true, ◌&&◌, Option, none, some, List, [], ◌∷◌, map, keep,
  length, sum_by, sum_by-map, sum_by-Perm, if◌then◌else◌,
}
use dpg_business_app_starter.Database.{
  Db, ok, StockMovement, StockCondition, available, damaged, receipt, issue, BalanceKey, on_hand,
  same_key, same_condition, inventory_read, invalid_movement_cursor,
}
use dpg_business_app_starter.Database.Pages.Order.{HasIds, newest_first-IsListing}
use dpg_business_app_starter.Database.Pages.Walk.{read_pages}
use dpg_business_app_starter.Database.Pages.Complete.{ReadsAll, keep_unjoined, reads_all}
use dpg_business_app_starter.Authorization.{CurrentMembership, require_permission}
use dpg_business_app_starter.Inventory.Ledger.{IsConsistent, receipts, issues, received, issued}
use dpg_business_app_starter.Inventory.Queries.{
  StockPosition, MovementHistoryItem, has_inventory_context, movement_item, movement_filters,
  newest_movement, transfer_filters, transfer_item, transfer_joined, newest_transfer,
  get_stock_position, list_stock_movements, list_stock_transfers,
}

-- What the items of a history add to the stock of a condition, and what they take from it.
abbrev pub received_in : StockCondition → MovementHistoryItem → ℕ
received_in condition i = elim i.movement_type [
  | receipt ↦ if same_condition i.stock_condition condition then i.quantity else 0
  | issue ↦ 0
]

abbrev pub issued_in : StockCondition → MovementHistoryItem → ℕ
issued_in condition i = elim i.movement_type [
  | receipt ↦ 0
  | issue ↦ if same_condition i.stock_condition condition then i.quantity else 0
]

module _ (m : CurrentMembership) (product warehouse : ℕ) where
  abbrev key_at : StockCondition → BalanceKey
  key_at condition = record {
    organization_id = m.organization_id;
    product_id = product;
    warehouse_id = warehouse;
    condition = condition;
  }

  -- The rows of the history are those that change its balances.
  receipts-history :
      (condition : StockCondition) (ms : List StockMovement)
      → receipts (key_at condition) ms
        ≡ sum_by
            (λ s. received_in condition (movement_item s))
            (keep (movement_filters m product warehouse) ms)
  unfolding receipts received same_key
  receipts-history condition [] = refl
  receipts-history condition (s ∷ ms) = ground (arith, receipts-history condition ms)

  issues-history :
      (condition : StockCondition) (ms : List StockMovement)
      → issues (key_at condition) ms
        ≡ sum_by
            (λ s. issued_in condition (movement_item s))
            (keep (movement_filters m product warehouse) ms)
  unfolding issues issued same_key
  issues-history condition [] = refl
  issues-history condition (s ∷ ms) = ground (arith, issues-history condition ms)

  module _ (limit : ℕ) (db : Db) where
    abbrev pub movements_listed : List StockMovement
    movements_listed = keep (movement_filters m product warehouse) db.movements

    -- What a client reads that follows the cursors from the first page on.
    abbrev pub read_movements : Option (List MovementHistoryItem)
    read_movements =
        read_pages (suc (length movements_listed))
          (λ cursor. list_stock_movements m product warehouse limit cursor db) none

    -- A member with the permission to read the inventory, who asks for the movements of a product
    -- in a warehouse that the organization has, page by page of a positive size, reads every
    -- movement recorded there exactly once, the newest first, if the ids of the movements are
    -- different.
    pub movement_history_complete :
        require_permission m inventory_read ≡ ok tt
        → has_inventory_context m.organization_id product warehouse db ≡ true
        → 0 < limit
        → HasIds (λ s. s.id) db.movements
        → ReadsAll (λ s. s.id) (newest_movement m) movement_item read_movements movements_listed
    unfolding list_stock_movements
    movement_history_complete p c pos unique =
        reads_all (λ s. s.id) (newest_movement m) movement_item
          (movement_filters m product warehouse) (λ s. true) invalid_movement_cursor limit
          db.movements movements_listed
          (λ cursor. list_stock_movements m product warehouse limit cursor db)
          (newest_first-IsListing (λ s. s.created_at) (λ s. s.id)) unique pos
          (keep_unjoined (λ s. s.id) (newest_movement m) (movement_filters m product warehouse)
            db.movements)
          (λ cursor. ground arith)

    -- The same for the transfers into and out of the warehouse, of which the joins with the
    -- warehouses and the performer keep those whose rows are there.
    transfer_history_complete :
        require_permission m inventory_read ≡ ok tt
        → has_inventory_context m.organization_id product warehouse db ≡ true
        → 0 < limit
        → HasIds (λ t. t.id) db.transfers
        → ReadsAll
            (λ t. t.id)
            (newest_transfer m)
            (transfer_item db)
            (read_pages
              (suc (
                length (
                  keep
                    (λ t. transfer_filters m product warehouse t && transfer_joined db t)
                    db.transfers)))
              (λ cursor. list_stock_transfers m product warehouse limit cursor db)
              none)
            (keep
              (λ t. transfer_filters m product warehouse t && transfer_joined db t)
              db.transfers)
    unfolding list_stock_transfers
    transfer_history_complete p c pos unique =
        reads_all (λ t. t.id) (newest_transfer m) (transfer_item db)
          (transfer_filters m product warehouse) (transfer_joined db) invalid_movement_cursor limit
          db.transfers
          (keep (λ t. transfer_filters m product warehouse t && transfer_joined db t) db.transfers)
          (λ cursor. list_stock_transfers m product warehouse limit cursor db)
          (newest_first-IsListing (λ t. t.created_at) (λ t. t.id)) unique pos refl
          (λ cursor. ground arith)

    -- The answer of the position.
    position_balance :
        (p : StockPosition)
        → get_stock_position m product warehouse db ≡ ok p
        → (require_permission m inventory_read ≡ ok tt)
          × (has_inventory_context m.organization_id product warehouse db ≡ true)
          × (p.quantity ≡ on_hand (key_at available) db.balances)
          × (p.damaged_quantity ≡ on_hand (key_at damaged) db.balances)
    unfolding get_stock_position
    position_balance p h = ground arith

    -- If every balance is what was received less what was issued, and the ids of the movements are
    -- different, then whoever gets the stock position of a product in a warehouse also reads a
    -- history, page by page of a positive size, that explains it: for the sellable and for the
    -- damaged stock, the receipts in the history are its issues and the quantity of the position.
    pub history_explains_position :
        (p : StockPosition)
        → IsConsistent db
        → HasIds (λ s. s.id) db.movements
        → 0 < limit
        → get_stock_position m product warehouse db ≡ ok p
        → (items : List MovementHistoryItem) × (read_movements ≡ some items)
          × (sum_by (received_in available) items ≡ sum_by (issued_in available) items + p.quantity)
          × (sum_by (received_in damaged) items
              ≡ sum_by (issued_in damaged) items + p.damaged_quantity)
    history_explains_position p h unique pos e =
        let (allowed, context, sellable, broken) = position_balance p e in
        let (listed, read, _, same) = movement_history_complete allowed context pos unique in
        let received_read = λ (condition : StockCondition).
          sum_by-map (received_in condition) movement_item listed
          ∙ sum_by-Perm (λ s. received_in condition (movement_item s)) same in
        let issued_read = λ (condition : StockCondition).
          sum_by-map (issued_in condition) movement_item listed
          ∙ sum_by-Perm (λ s. issued_in condition (movement_item s)) same in
        (
          map movement_item listed,
          read,
          ground (
            arith,
            received_read available,
            issued_read available,
            receipts-history available db.movements,
            issues-history available db.movements,
            h.balanced (key_at available),
          ),
          ground (
            arith,
            received_read damaged,
            issued_read damaged,
            receipts-history damaged db.movements,
            issues-history damaged db.movements,
            h.balanced (key_at damaged),
          ),
        )
