-- ===== src/Tests/Fixtures.antt =====
-- A shop of one organization with two products in two warehouses, its three members, and the
-- parameters that stand for the outside of app/modules.
use dpg_business_app_starter.Base.{
  ℕ, ◌+◌, ◌*◌, ◌^◌, ◌&&◌, String, true, none, some, [], ◌∷◌, ◌==◌, str_eq, if◌then◌else◌,
}
use dpg_business_app_starter.Database.{
  Db, Environment, Call, Payload, movement_payload, transfer_payload, transfer_prefix, sale_payload,
  sale_prefix, return_payload, return_prefix, Organization, Membership, Product, Warehouse,
  MovementType, receipt, issue,
}
use dpg_business_app_starter.Inventory.Movement.{RecordMovementCommand}
use dpg_business_app_starter.Authorization.{CurrentMembership}

abbrev digest : Payload → String
digest (movement_payload _ _ _ _ receipt _ _ _) = "receipt"
digest (movement_payload _ _ _ _ issue _ _ _) = "issue"
digest (transfer_payload _ _ _ _ _ _ _ _) = "transfer"
digest (transfer_prefix _ _) = "t"
digest (sale_payload _ _ seller _ _ _) = if seller == 1 then "first seller" else "sale"
digest (sale_prefix _) = "s"
digest (return_payload _ _ _ _ _ _ _) = "return"
digest (return_prefix _) = "r"

abbrev pub env : Environment
env = record {
  sha256 = digest;
  uuid_str = λ n. if n == 7 then "seven" else "other";
  uuid_parse = λ text. some 1;
  verify = str_eq;
  hash = λ pin. pin;
  upper = λ text. text;
  lower = λ text. text;
  token_digest = λ token. token;
  collates = λ a b. str_eq a "P7" && str_eq b "P8";
  ilike = λ text pattern. str_eq text pattern;
  stored = λ n. n;
}

-- A call that meets no other client, and whose UUIDs start at a number.
abbrev pub call_at : ℕ → Call
call_at n = record { now = n; uuid4 = λ i. n + i; token_urlsafe = "token"; concurrent = λ db. db }

abbrev pub call : Call
call = call_at 100

abbrev pub later : Call
later = call_at 200

abbrev pub member : ℕ → String → Membership
member user role = record {
  organization_id = 1;
  user_id = user;
  role = role;
  approval_pin_hash = some "1234";
  approval_pin_failures = 0;
  approval_pin_locked_until = none;
}

abbrev pub product : ℕ → String → Product
product n sku = record {
  id = n;
  organization_id = 1;
  sku = sku;
  name = sku;
  cost = 2 * 10 ^ 6;
  sale_price = 5 * 10 ^ 6;
  active = true;
  created_at = 0;
  updated_at = 0;
}

abbrev pub warehouse : ℕ → String → Warehouse
warehouse n code = record {
  id = n;
  organization_id = 1;
  code = code;
  name = code;
  active = true;
  created_at = 0;
  updated_at = 0;
}

abbrev pub organization : Organization
organization = record {
  id = 1;
  name = "shop";
  active = true;
  salesperson_max_discount_rate = 1000;
  created_at = 0;
}

-- The shop before any stock has come in.
abbrev pub shop : Db
shop = record {
  organizations = organization ∷ [];
  memberships = member 1 "admin" ∷ member 2 "salesperson" ∷ member 3 "warehouse_manager" ∷ [];
  users = [];
  invitations = [];
  products = product 7 "P7" ∷ product 8 "P8" ∷ [];
  warehouses = warehouse 4 "W4" ∷ warehouse 5 "W5" ∷ [];
  balances = λ k. none;
  transfers = [];
  movements = [];
  sales = [];
  sale_lines = [];
  sale_returns = [];
  sale_return_lines = [];
}

abbrev pub current : String → CurrentMembership
current role = record { user_id = 1; organization_id = 1; role = role }

abbrev pub movement_of : MovementType → ℕ → String → RecordMovementCommand
movement_of type quantity key = record {
  organization_id = 1;
  product_id = 7;
  warehouse_id = 4;
  performed_by_id = 3;
  movement_type = type;
  quantity = quantity;
  reason = "count";
  idempotency_key = key;
  reference = none;
}
