-- ===== src/Inventory/Ledger.antt =====
-- The ledger that app/modules/inventory/models.py keeps in two tables: the balances, and the
-- movements that explain them.
use dpg_business_app_starter.Base.{ℕ, ◌+◌, ◌≡◌, List, [], ◌∷◌, some, if◌then◌else◌, arith}
use dpg_business_app_starter.Database.{
  Db, Balances, BalanceKey, StockMovement, receipt, issue, on_hand, same_key, same_key_iff,
  set_balance, ensure_balance, credited, debited,
}

-- The balance that a movement changes.
abbrev movement_key : StockMovement → BalanceKey
movement_key m = record {
  organization_id = m.organization_id;
  product_id = m.product_id;
  warehouse_id = m.warehouse_id;
  condition = m.stock_condition;
}

-- What a movement adds to a key's stock, and what it takes from it.
unfoldable pub received : BalanceKey → StockMovement → ℕ
received k m = elim m.movement_type [
  | receipt ↦ if same_key (movement_key m) k then m.quantity else 0
  | issue ↦ 0
]

unfoldable pub issued : BalanceKey → StockMovement → ℕ
issued k m = elim m.movement_type [
  | receipt ↦ 0
  | issue ↦ if same_key (movement_key m) k then m.quantity else 0
]

unfoldable pub receipts : BalanceKey → List StockMovement → ℕ
unfolding received
receipts k [] = 0
receipts k (m ∷ ms) = received k m + receipts k ms

unfoldable pub issues : BalanceKey → List StockMovement → ℕ
unfolding issued
issues k [] = 0
issues k (m ∷ ms) = issued k m + issues k ms

-- Every movement recorded the stock that all movements up to it leave at its key.
abbrev HasTrail : List StockMovement → Type 0
HasTrail [] = Unit {0}
HasTrail (m ∷ ms) =
    (receipts (movement_key m) (m ∷ ms) ≡ issues (movement_key m) (m ∷ ms) + m.balance_after)
    × HasTrail ms

-- The stock on hand at every key is what was received less what was issued, and each movement
-- recorded the stock that it left.
pub record IsLedger (balances : Balances) (movements : List StockMovement) : Type 0 where
  pub balanced : (k : BalanceKey) → receipts k movements ≡ issues k movements + on_hand k balances
  pub trail : HasTrail movements

abbrev pub IsConsistent : Db → Type 0
IsConsistent db = IsLedger db.balances db.movements

-- How a movement relates the stock before it to the stock after it.
abbrev pub Posts : StockMovement → ℕ → Type 0
Posts m before = elim m.movement_type [
  | receipt ↦ m.balance_after ≡ before + m.quantity
  | issue ↦ before ≡ m.balance_after + m.quantity
]

-- A movement posted together with its new balance keeps the ledger.
pub post-IsLedger :
    (balances : Balances) (movements : List StockMovement) (m : StockMovement)
    → IsLedger balances movements
    → Posts m (on_hand (movement_key m) balances)
    → IsLedger (set_balance (movement_key m) m.balance_after balances) (m ∷ movements)
unfolding receipts issues set_balance
post-IsLedger balances movements m h p = record {
  balanced = λ k. ground (arith, h.balanced k, same_key_iff (movement_key m) k);
  trail = (
    ground (arith, h.balanced (movement_key m), same_key_iff (movement_key m) (movement_key m)),
    h.trail,
  );
}

-- Opening a zero balance keeps it.
pub ensure_balance-IsLedger :
    (k : BalanceKey) (balances : Balances) (movements : List StockMovement)
    → IsLedger balances movements
    → IsLedger (ensure_balance k balances) movements
unfolding ensure_balance set_balance
ensure_balance-IsLedger k balances movements h = record {
  balanced = λ j. ground (arith, h.balanced j, same_key_iff k j);
  trail = h.trail;
}

-- A credit, and the movement that records it.
pub credit-Posts :
    (k : BalanceKey) (quantity total : ℕ) (balances : Balances)
    → credited k quantity balances ≡ some total
    → total ≡ on_hand k balances + quantity
unfolding credited
credit-Posts k quantity total balances h = ground arith

-- A debit never takes more than there is.
pub debit-Posts :
    (k : BalanceKey) (quantity left : ℕ) (balances : Balances)
    → debited k quantity balances ≡ some left
    → on_hand k balances ≡ left + quantity
unfolding debited
debit-Posts k quantity left balances h = ground arith
