-- ===== src/Tests/Approvals.antt =====
-- The approval of a discount by PIN (app/modules/sales/service.py).
use dpg_business_app_starter.Base.{◌≡◌, refl, arith, List, [], ◌∷◌, ◌++◌, some, String}
use dpg_business_app_starter.Database.{Db, Call, Membership, ok, approval_pin_locked}
use dpg_business_app_starter.Sales.Commands.{CreateSaleCommand, SaleApproval}
use dpg_business_app_starter.Sales.Approval.{granted, denied, check_pin}
use dpg_business_app_starter.Sales.Approval.Lockout.{
  locked_pin_refused, fifth_wrong_pin_locks, after_pins,
}
use dpg_business_app_starter.Sales.UseCases.{set_approval_pin}
use dpg_business_app_starter.Sales.UseCases.Permissions.{new_pin_approves}
use dpg_business_app_starter.Tests.Fixtures.{current, env, call, call_at, shop, member}

abbrev pub discounted : CreateSaleCommand
discounted = record {
  organization_id = 1;
  warehouse_id = 4;
  sold_by_id = 2;
  seller_role = "salesperson";
  lines = record { product_id = 7; quantity = 3; unit_price = some 3000000 } ∷ [];
  discount_reason = some "regular";
  approval = some (record { approver_user_id = 1; pin = "1234" });
  idempotency_key = "d";
}

abbrev pin : String → SaleApproval
pin text = record { approver_user_id = 1; pin = text }

abbrev locked : Membership
locked = record (member 1 "admin") {
  approval_pin_failures = 5;
  approval_pin_locked_until = some 1000;
}

abbrev locked_shop : Db
locked_shop = record shop { memberships = locked ∷ [] }

locked_pin_refused_example :
    check_pin env call discounted (pin "1234") locked_shop
    ≡ ok (denied approval_pin_locked, locked_shop)
locked_pin_refused_example =
    locked_pin_refused env call discounted locked_shop (pin "1234") locked refl refl

new_pin_approves_example :
    (db' : Db) × (check_pin env call discounted
        (pin "9999")
        (set_approval_pin env call (current "admin") "9999" locked_shop).1
      ≡ ok (granted (some 1), db'))
new_pin_approves_example =
    new_pin_approves env call (current "admin") locked_shop discounted "9999" locked refl refl refl
      refl refl

abbrev wrong_pins : List (Call × String)
wrong_pins = (call_at 1, "1") ∷ (call_at 2, "2") ∷ (call_at 3, "3") ∷ (call_at 4, "4") ∷ []

fifth_wrong_pin_locks_example :
    let db' = after_pins env discounted 1 (wrong_pins ++ (call_at 5, "5") ∷ []) shop in
    check_pin env (call_at 6) discounted (pin "1234") db' ≡ ok (denied approval_pin_locked, db')
fifth_wrong_pin_locks_example =
    fifth_wrong_pin_locks env discounted 1 wrong_pins (call_at 5) (call_at 6) "5" "1234" shop
      (member 1 "admin") refl refl refl refl (refl, (refl, (refl, (refl, tt)))) refl (omega arith)
