-- ===== src/Tests/Transfers.antt =====
-- Transfers between two warehouses (app/modules/inventory).
use dpg_business_app_starter.Database.{holds_texts}
use dpg_business_app_starter.Base.{◌≡◌, refl, arith, ◌+◌, none, true, false, is_blank}
use dpg_business_app_starter.Database.{
  BalanceKey, ok, err, on_hand, set_balance, ensure_balance, same_key, credited, debited,
  insufficient_stock, damaged,
}
use dpg_business_app_starter.Inventory.Transfer.{
  TransferStockCommand, TransferResult, transfer_stock, transfer_transaction, write_transfer,
  transfer_replay, warehouse_rows,
}
use dpg_business_app_starter.Inventory.Transfer.Effects.{
  source_key, destination_key, transfer_moves_quantity,
}
use dpg_business_app_starter.Inventory.Transfer.Replay.{
  IsWellFormed, IsAccepted, transfer_retry_replays,
}
use dpg_business_app_starter.Tests.Fixtures.{env, later, shop}
use dpg_business_app_starter.Tests.Movements.{stocked}

abbrev moving : TransferStockCommand
moving = record {
  organization_id = 1;
  product_id = 7;
  source_warehouse_id = 4;
  destination_warehouse_id = 5;
  performed_by_id = 3;
  quantity = 4;
  reason = "move";
  idempotency_key = "t1";
  reference = none;
}

-- The result of moving four of the ten pieces.
abbrev moved : TransferResult
moved = record { transfer_id = 200; source_balance = 6; destination_balance = 4; replayed = false }

moving_once : (transfer_stock env later moving stocked).0 ≡ ok moved
unfolding transfer_stock transfer_transaction write_transfer transfer_replay warehouse_rows is_blank
    credited debited set_balance ensure_balance same_key holds_texts
moving_once = refl

moving_nothing : (transfer_stock env later moving shop).0 ≡ err insufficient_stock
unfolding transfer_stock transfer_transaction write_transfer transfer_replay warehouse_rows is_blank
    credited debited set_balance ensure_balance same_key
moving_nothing = refl

transfer_moves_quantity_example :
    (on_hand (source_key env later moving) stocked.balances ≡ 10)
    × (4 ≡ on_hand (destination_key env later moving) stocked.balances + 4)
    × (on_hand (source_key env later moving) (transfer_stock env later moving stocked).1.balances
        ≡ 6)
    × (on_hand
          (destination_key env later moving)
          (transfer_stock env later moving stocked).1.balances
        ≡ 4)
transfer_moves_quantity_example =
    transfer_moves_quantity env later moving stocked moved moving_once refl

-- The damaged stock of the product in the first warehouse.
abbrev broken : BalanceKey
broken = record { organization_id = 1; product_id = 7; warehouse_id = 4; condition = damaged }

transfer_retry_replays_example :
    transfer_stock env later moving (transfer_stock env later moving stocked).1
    ≡ (ok (record moved { replayed = true }), (transfer_stock env later moving stocked).1)
transfer_retry_replays_example =
    transfer_retry_replays env later later moving stocked moved moving_once

moving-IsWellFormed : IsWellFormed moving
unfolding is_blank
moving-IsWellFormed = record { positive = omega arith; distinct = omega arith; keyed = refl }

moving-IsAccepted : IsAccepted env later moving stocked
unfolding warehouse_rows holds_texts
moving-IsAccepted = record {
  well_formed = moving-IsWellFormed;
  storable = (refl, refl, refl);
  first_use = refl;
  unused = refl;
  out_unused = refl;
  in_unused = refl;
  product = _;
  product_found = refl;
  product_active = refl;
  two_warehouses = refl;
  warehouses_active = refl;
  member = refl;
}
