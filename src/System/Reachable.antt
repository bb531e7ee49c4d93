-- ===== src/System/Reachable.antt =====
-- What holds at every moment of the program, whoever has called what.
use dpg_business_app_starter.Base.{ℕ, ◌+◌, ◌<◌, ◌≡◌, refl, arith, inl, inr, some, List, sum_by}
use dpg_business_app_starter.Database.{Db, Environment, ok, available, damaged}
use dpg_business_app_starter.Database.Pages.Order.{HasIds}
use dpg_business_app_starter.Authorization.{CurrentMembership}
use dpg_business_app_starter.Inventory.Ledger.{receipts, issues}
use dpg_business_app_starter.Inventory.Queries.{
  StockPosition, MovementHistoryItem, get_stock_position,
}
use dpg_business_app_starter.Inventory.Queries.Histories.{
  received_in, issued_in, read_movements, history_explains_position,
}
use dpg_business_app_starter.Sales.Returns.{returned_quantity}
use dpg_business_app_starter.System.{
  Run, idle, movement, transfer, sell, give_back, void_all, policy, pin, new_product, edit_product,
  new_warehouse, edit_warehouse, bootstrap, invite, join, empty_db, IsSound,
}
use dpg_business_app_starter.System.Frames.{
  same-IsSound, update_sales_policy-SameBooks, set_approval_pin-SameBooks,
  create_warehouse-SameBooks, update_warehouse-SameBooks, create_invitation-SameBooks,
  bootstrap_organization-SameBooks, accept_invitation-SameBooks,
}
use dpg_business_app_starter.System.Services.{
  record_manual_stock_movement-IsSound, transfer_inventory-IsSound, submit_sale-IsSound,
  submit_sale_return-IsSound, void_sale-IsSound, create_product-IsSound, update_product-IsSound,
}

-- The books stay in order: if they are at the start of a run, of any commands by any clients in any
-- interleaving, they are at its end.
run_keeps_books :
    (env : Environment) (start db : Db) → Run env start db → IsSound start → IsSound db
run_keeps_books env start db idle h = h
run_keeps_books env start db (movement {db = d} call m c before during) h =
    record_manual_stock_movement-IsSound env call d (run_keeps_books env start d before h)
      (run_keeps_books env start (call.concurrent d) during h) m c
run_keeps_books env start db (transfer {db = d} call m c before during) h =
    transfer_inventory-IsSound env call d (run_keeps_books env start d before h)
      (run_keeps_books env start (call.concurrent d) during h) m c
run_keeps_books env start db (sell {db = d} call m c before during) h =
    submit_sale-IsSound env call d (run_keeps_books env start d before h)
      (run_keeps_books env start (call.concurrent d) during h) m c
run_keeps_books env start db (give_back {db = d} call m c fresh before during) h =
    submit_sale_return-IsSound env call d (run_keeps_books env start d before h)
      (run_keeps_books env start (call.concurrent d) during h) m c fresh
run_keeps_books env start db
      (void_all {db = d} call m sale resolution reason key fresh before during) h =
    void_sale-IsSound env call d (run_keeps_books env start d before h)
      (run_keeps_books env start (call.concurrent d) during h) m sale resolution reason key fresh
run_keeps_books env start db (policy {db = d} call m rate before) h =
    same-IsSound d db (update_sales_policy-SameBooks env call m d rate)
      (run_keeps_books env start d before h)
run_keeps_books env start db (pin {db = d} call m text before) h =
    same-IsSound d db (set_approval_pin-SameBooks env call m d text)
      (run_keeps_books env start d before h)
run_keeps_books env start db (new_product {db = d} call m sku name cost sale_price fresh before) h =
    create_product-IsSound env call m d (run_keeps_books env start d before h) sku name cost
      sale_price fresh
run_keeps_books env start db (edit_product {db = d} call m id name active cost sale_price before)
      h =
    update_product-IsSound env call m d (run_keeps_books env start d before h) id name active cost
      sale_price
run_keeps_books env start db (new_warehouse {db = d} call m code name before) h =
    same-IsSound d db (create_warehouse-SameBooks env call m d code name)
      (run_keeps_books env start d before h)
run_keeps_books env start db (edit_warehouse {db = d} call m id name active before) h =
    same-IsSound d db (update_warehouse-SameBooks env call m d id name active)
      (run_keeps_books env start d before h)
run_keeps_books env start db (bootstrap {db = d} call name email password before) h =
    same-IsSound d db (bootstrap_organization-SameBooks env call d name email password)
      (run_keeps_books env start d before h)
run_keeps_books env start db (invite {db = d} call m email role before) h =
    same-IsSound d db (create_invitation-SameBooks env call m d email role)
      (run_keeps_books env start d before h)
run_keeps_books env start db (join {db = d} call token password user before during) h =
    elim (accept_invitation-SameBooks env call d token password user) [
      | inl same ↦ same-IsSound d db same (run_keeps_books env start d before h)
      | inr same ↦
          same-IsSound (call.concurrent d) db same
            (run_keeps_books env start (call.concurrent d) during h)
    ]

empty-IsSound : IsSound empty_db
unfolding receipts issues returned_quantity
empty-IsSound = record {
  consistent = record { balanced = λ k. refl; trail = tt };
  within = record { within = λ organization sale product. omega arith };
  catalog = record { keyed = tt; covered = tt };
}

-- Whatever the clients have done since the tables were created, the stock of every key is what the
-- movements received less what they issued, no more of a product has come back than was sold, and
-- the products have different ids and prices that cover their costs.
pub Run-IsSound : (env : Environment) (db : Db) → Run env empty_db db → IsSound db
Run-IsSound env db run = run_keeps_books env empty_db db run empty-IsSound

-- Whatever the clients have done since the tables were created, whoever gets the stock position of a
-- product in a warehouse also reads a history, page by page of a positive size, that explains it:
-- for the sellable and for the damaged stock, the receipts in the history are its issues and the
-- quantity of the position. The ids of the movements are taken to be different.
pub reachable_position_explained :
    (env : Environment) (db : Db) (m : CurrentMembership) (product warehouse limit : ℕ)
    (p : StockPosition)
    → Run env empty_db db
    → HasIds (λ s. s.id) db.movements
    → 0 < limit
    → get_stock_position m product warehouse db ≡ ok p
    → (items : List MovementHistoryItem) × (read_movements m product warehouse limit db
        ≡ some items)
      × (sum_by (received_in available) items ≡ sum_by (issued_in available) items + p.quantity)
      × (sum_by (received_in damaged) items ≡ sum_by (issued_in damaged) items + p.damaged_quantity)
reachable_position_explained env db m product warehouse limit p run unique pos e =
    let sound = Run-IsSound env db run in
    history_explains_position m product warehouse limit db p sound.consistent unique pos e
