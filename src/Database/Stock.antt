-- ===== src/Database/Stock.antt =====
-- The table `stock_balances`: at most one quantity for each key, which is the primary key.
use dpg_business_app_starter.Base.{
  ℕ, ◌+◌, ◌-◌, ◌^◌, Bool, true, false, ◌&&◌, Option, none, some, ltb, leb, ◌==◌, if◌then◌else◌,
  get_or, ◌≡◌, ◌↔◌, arith,
}
use dpg_business_app_starter.Database.Rows.{BalanceKey, StockCondition, available, damaged}

abbrev pub Balances : Type 0
Balances = BalanceKey → Option ℕ

abbrev pub same_condition : StockCondition → StockCondition → Bool
same_condition available available = true
same_condition damaged damaged = true
same_condition _ _ = false

unfoldable pub same_key : BalanceKey → BalanceKey → Bool
same_key j k =
    j.organization_id == k.organization_id
    && j.product_id == k.product_id
    && j.warehouse_id == k.warehouse_id
    && same_condition j.condition k.condition

pub same_key_iff : (j k : BalanceKey) → (same_key j k ≡ true) ↔ (j ≡ k)
unfolding same_key
same_key_iff j k = ground arith

unfoldable pub set_balance : BalanceKey → ℕ → Balances → Balances
set_balance k quantity balances j = if same_key k j then some quantity else balances j

-- The stock on hand at a key: a missing row stands for none.
abbrev pub on_hand : BalanceKey → Balances → ℕ
on_hand k balances = get_or (balances k) 0

-- The first value in millionths that a `Numeric(20, 6)` column cannot hold.
abbrev pub numeric_limit : ℕ
numeric_limit = 10 ^ 20

-- `insert ... on_conflict_do_nothing` of a row with the quantity zero.
unfoldable pub ensure_balance : BalanceKey → Balances → Balances
ensure_balance k balances = set_balance k (on_hand k balances) balances

-- `insert ... on_conflict_do_update` that adds a quantity; `none` is a numeric overflow.
unfoldable pub credited : BalanceKey → ℕ → Balances → Option ℕ
credited k quantity balances =
    let total = on_hand k balances + quantity in
    if ltb total numeric_limit then some total else none

-- `update ... where quantity >= q returning quantity`; `none` is that no row was updated.
unfoldable pub debited : BalanceKey → ℕ → Balances → Option ℕ
debited k quantity balances = elim (balances k) [
  | none ↦ none
  | some held ↦ if leb quantity held then some (held - quantity) else none
]
