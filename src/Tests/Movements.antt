-- ===== src/Tests/Movements.antt =====
-- Manual movements (app/modules/inventory).
use dpg_business_app_starter.Database.{holds_texts}
use dpg_business_app_starter.Base.{◌≡◌, ◌⊎◌, refl, arith, ◌∷◌, none, true, [], is_blank}
use dpg_business_app_starter.Database.{
  Db, Call, BalanceKey, ok, err, receipt, issue, set_balance, credited, same_key,
  insufficient_stock, available,
}
use dpg_business_app_starter.Inventory.Ledger.{IsConsistent, receipts, issues, post-IsLedger}
use dpg_business_app_starter.Inventory.Movement.{
  RecordMovementCommand, movement_row, record_stock_movement,
}
use dpg_business_app_starter.Inventory.Movement.Effects.{IsAccepted, posted, confirmed, stock_key}
use dpg_business_app_starter.Inventory.Movement.Replay.{retry_replays}
use dpg_business_app_starter.Inventory.Movement.Races.{IsLate, taken_key_posts_nothing, late_issue}
use dpg_business_app_starter.Inventory.UseCases.{
  RecordManualMovementCommand, record_manual_stock_movement,
}
use dpg_business_app_starter.Inventory.UseCases.Isolation.{manual_movement_isolated}
use dpg_business_app_starter.Tests.Fixtures.{env, call, later, shop, current, movement_of}

abbrev bought : RecordMovementCommand
bought = movement_of receipt 10 "a"

abbrev taken : RecordMovementCommand
taken = movement_of issue 4 "b"

-- The shop after the receipt.
abbrev pub stocked : Db
stocked = record shop {
  balances = set_balance (stock_key env call bought) 10 shop.balances;
  movements = movement_row env call bought 10 ∷ [];
}

shop-IsConsistent : IsConsistent shop
unfolding receipts issues
shop-IsConsistent = record { balanced = λ k. refl; trail = tt }

bought_once :
    record_stock_movement env call bought shop ≡ (ok (confirmed env call bought 10), stocked)
unfolding record_stock_movement credited is_blank holds_texts
bought_once = refl

stocked-IsConsistent : IsConsistent stocked
stocked-IsConsistent =
    post-IsLedger shop.balances [] (movement_row env call bought 10) shop-IsConsistent refl

bought-IsAccepted : IsAccepted env call bought shop
unfolding is_blank holds_texts
bought-IsAccepted = record {
  positive = omega arith;
  keyed = refl;
  storable = refl;
  first_use = refl;
  unused = refl;
  product = _;
  product_found = refl;
  product_active = refl;
  warehouse = _;
  warehouse_found = refl;
  warehouse_active = refl;
  member = refl;
}

taken-IsAccepted : IsAccepted env later taken stocked
unfolding is_blank holds_texts
taken-IsAccepted = record {
  positive = omega arith;
  keyed = refl;
  storable = refl;
  first_use = refl;
  unused = refl;
  product = _;
  product_found = refl;
  product_active = refl;
  warehouse = _;
  warehouse_found = refl;
  warehouse_active = refl;
  member = refl;
}

retry_replays_example :
    record_stock_movement env later bought (record_stock_movement env call bought shop).1 ≡ (
      ok (record { movement_id = 100; balance = 10; replayed = true }),
      (record_stock_movement env call bought shop).1,
    )
unfolding record_stock_movement credited is_blank holds_texts
retry_replays_example = retry_replays env call later bought shop (confirmed env call bought 10) refl

-- A copy of the issue of six that the shop posts while the call runs.
abbrev six : RecordMovementCommand
six = movement_of issue 6 "c"

abbrev raced : Db
raced = posted env call six 4 stocked

abbrev racing : Call
racing = record { now = 300; uuid4 = λ i. i; token_urlsafe = "token"; concurrent = λ db. raced }

taken_key_posts_nothing_example :
    ((record_stock_movement env racing six stocked).1 ≡ stocked)
    ⊎ ((record_stock_movement env racing six stocked).1 ≡ raced)
taken_key_posts_nothing_example = taken_key_posts_nothing env racing six stocked refl

six-IsLate : IsLate env racing six stocked (movement_row env call six 4)
unfolding is_blank holds_texts
six-IsLate = record {
  positive = omega arith;
  keyed = refl;
  storable = refl;
  not_before = refl;
  committed = refl;
  same_request = refl;
  product = _;
  product_found = refl;
  product_active = refl;
  warehouse = _;
  warehouse_found = refl;
  warehouse_active = refl;
}

late_issue_example : record_stock_movement env racing six stocked ≡ (err insufficient_stock, raced)
unfolding set_balance same_key
late_issue_example = late_issue env racing six stocked (movement_row env call six 4) six-IsLate refl

-- A copy of the receipt that the shop posts while the call runs.
abbrev restocking : Call
restocking = record {
  now = 300;
  uuid4 = λ i. i;
  token_urlsafe = "token";
  concurrent = λ db. stocked;
}

bought-IsLate : IsLate env restocking bought shop (movement_row env call bought 10)
unfolding is_blank holds_texts
bought-IsLate = record {
  positive = omega arith;
  keyed = refl;
  storable = refl;
  not_before = refl;
  committed = refl;
  same_request = refl;
  product = _;
  product_found = refl;
  product_active = refl;
  warehouse = _;
  warehouse_found = refl;
  warehouse_active = refl;
}

abbrev manual : RecordManualMovementCommand
manual = record {
  organization_id = 1;
  product_id = 7;
  warehouse_id = 4;
  movement_type = receipt;
  quantity = 10;
  reason = "count";
  idempotency_key = "a";
  reference = none;
}

-- The stock of the second organization.
abbrev elsewhere : BalanceKey
elsewhere = record { organization_id = 2; product_id = 7; warehouse_id = 4; condition = available }

manual_movement_isolated_example :
    let after =
      (record_manual_stock_movement env call (current "warehouse_manager") manual shop).1 in
    (after.balances elsewhere ≡ none) ⊎ (after.balances elsewhere ≡ none)
manual_movement_isolated_example =
    manual_movement_isolated env call (current "warehouse_manager") manual shop elsewhere
      (omega arith)
