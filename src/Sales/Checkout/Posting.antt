-- ===== src/Sales/Checkout/Posting.antt =====
-- The posting loop of a sale: what it does to the stock and to the ledger.
use mathlib.Core.List.{reverse}
use dpg_business_app_starter.Base.{
  ℕ, suc, ◌+◌, ◌≡◌, refl, some, List, [], ◌∷◌, ◌++◌, map, if◌then◌else◌, arith, sum_by,
  Option-cases, inl, inr, subst, sym, ◌∙◌, ◌<◌, All, reverse_onto,
}
use dpg_business_app_starter.Database.{
  Db, ok, Environment, Call, BalanceKey, set_balance, ensure_balance, on_hand, same_key,
  same_key_iff, debited,
}
use dpg_business_app_starter.Database.Laws.{Result-cases}
use dpg_business_app_starter.Inventory.Ledger.{
  IsConsistent, post-IsLedger, ensure_balance-IsLedger, debit-Posts,
}
use dpg_business_app_starter.Sales.Commands.{CreateSaleCommand}
use dpg_business_app_starter.Sales.Pricing.{PricedLine}
use dpg_business_app_starter.Sales.Checkout.{
  open_balances, sale_line_row, sale_movement, line_key, post_line, post_lines,
}

-- Opening zero balances changes the balances alone, and not the stock on hand.
pub open_balances-writes :
    (ks : List BalanceKey) (db : Db) (u : Unit {0}) (db' : Db)
    → open_balances ks db ≡ ok (u, db')
    → db' ≡ record db { balances = db'.balances }
unfolding open_balances
open_balances-writes [] db u db' h = ground arith
open_balances-writes (k ∷ ks) db u db' h =
    ground
      (arith, open_balances-writes ks (record db { balances = ensure_balance k db.balances }) u db')

pub open_balances-on_hand :
    (ks : List BalanceKey) (db : Db) (u : Unit {0}) (db' : Db) (k : BalanceKey)
    → open_balances ks db ≡ ok (u, db')
    → on_hand k db'.balances ≡ on_hand k db.balances
unfolding open_balances ensure_balance set_balance
open_balances-on_hand [] db u db' k h = ground arith
open_balances-on_hand (j ∷ ks) db u db' k h = ground (
  arith,
  same_key_iff j k,
  open_balances-on_hand ks (record db { balances = ensure_balance j db.balances }) u db' k,
)

pub open_balances-IsConsistent :
    (ks : List BalanceKey) (db : Db) (u : Unit {0}) (db' : Db)
    → IsConsistent db
    → open_balances ks db ≡ ok (u, db')
    → IsConsistent db'
unfolding open_balances
open_balances-IsConsistent [] db u db' h e =
    let same : db ≡ db' = ground arith in subst IsConsistent same h
open_balances-IsConsistent (k ∷ ks) db u db' h e =
    open_balances-IsConsistent ks (record db { balances = ensure_balance k db.balances }) u db'
      (ensure_balance-IsLedger k db.balances db.movements h) e

module _ (env : Environment) (call : Call) (c : CreateSaleCommand) where
  -- What a posted line has written.
  abbrev line_posted : ℕ → PricedLine → ℕ → Db → Db
  line_posted n l left db = record db {
    balances = set_balance (line_key env call c l) left db.balances;
    sale_lines = sale_line_row env call c l ∷ db.sale_lines;
    movements = sale_movement env call c n l left ∷ db.movements;
  }

  post_line-writes :
      (n : ℕ) (l : PricedLine) (db : Db) (u : Unit {0}) (db' : Db)
      → post_line env call c n l db ≡ ok (u, db')
      → (left : ℕ) × (debited (line_key env call c l) l.line.quantity db.balances ≡ some left)
        × (db' ≡ line_posted n l left db)
        × (0 < l.line.quantity)
  unfolding post_line
  post_line-writes n l db u db' h =
      elim (Option-cases (debited (line_key env call c l) l.line.quantity db.balances)) [
        | inl e ↦ absurd (ground arith)
        | inr (left, e) ↦ (left, e, ground arith, ground arith)
      ]

  -- What the lines take from the stock at a key.
  abbrev pub sold_at : BalanceKey → List PricedLine → ℕ
  sold_at k = sum_by (λ l. if same_key (line_key env call c l) k then l.line.quantity else 0)

  -- A postcondition of the loop, by one rule for a round.
  post_lines_induction :
      (P : List PricedLine → Db → Db → Type 0)
      → ((db : Db) → P [] db db)
      → ((n : ℕ) (l : PricedLine) (ls : List PricedLine) (left : ℕ) (db db' : Db)
          → debited (line_key env call c l) l.line.quantity db.balances ≡ some left
          → 0 < l.line.quantity
          → P ls (line_posted n l left db) db'
          → P (l ∷ ls) db db')
      → (n : ℕ) (ls : List PricedLine) (db : Db) (u : Unit {0}) (db' : Db)
      → post_lines env call c n ls db ≡ ok (u, db')
      → P ls db db'
  unfolding post_lines
  post_lines_induction P base round n [] db u db' h = subst (P [] db) (ground arith) (base db)
  post_lines_induction P base round n (l ∷ ls) db u db' h =
      elim (Result-cases (post_line env call c n l db)) [
        | inr (e, f) ↦ absurd (ground arith)
        | inl ((v, mid), f) ↦
            let (left, d, written, q) = post_line-writes n l db v mid f in
            round n l ls left db db' d q (
              subst (λ (m : Db). P ls m db') written
                (post_lines_induction P base round (suc n) ls mid u db' (ground arith)))
      ]

  -- The loop takes from every key exactly what its lines sell there.
  pub post_lines-on_hand :
      (k : BalanceKey) (n : ℕ) (ls : List PricedLine) (db : Db) (u : Unit {0}) (db' : Db)
      → post_lines env call c n ls db ≡ ok (u, db')
      → on_hand k db.balances ≡ on_hand k db'.balances + sold_at k ls
  post_lines-on_hand k =
      post_lines_induction
        (λ ls db db'. on_hand k db.balances ≡ on_hand k db'.balances + sold_at k ls)
        (λ db. omega arith)
        (λ n l ls left db db' d q ih.
          unfold set_balance in
          ground (
            arith,
            debit-Posts (line_key env call c l) l.line.quantity left db.balances d,
            same_key_iff (line_key env call c l) k,
            ih,
          ))

  -- The loop keeps the ledger.
  pub post_lines-IsConsistent :
      (n : ℕ) (ls : List PricedLine) (db : Db) (u : Unit {0}) (db' : Db)
      → post_lines env call c n ls db ≡ ok (u, db')
      → IsConsistent db
      → IsConsistent db'
  post_lines-IsConsistent =
      post_lines_induction (λ ls db db'. IsConsistent db → IsConsistent db') (λ db h. h)
        (λ n l ls left db db' d q ih h. ih (
          post-IsLedger db.balances db.movements (sale_movement env call c n l left) h
            (debit-Posts (line_key env call c l) l.line.quantity left db.balances d)))

  -- The loop adds the row of each line, and only lines of a positive quantity are posted. It leaves
  -- the sales, the returns and the memberships alone.
  pub post_lines-rows :
      (n : ℕ) (ls : List PricedLine) (db : Db) (u : Unit {0}) (db' : Db)
      → post_lines env call c n ls db ≡ ok (u, db')
      → (db'.sale_lines ≡ reverse (map (sale_line_row env call c) ls) ++ db.sale_lines)
        × All (λ l. 0 < l.line.quantity) ls
        × (db' ≡ record db {
          balances = db'.balances;
          sale_lines = db'.sale_lines;
          movements = db'.movements;
        })
  post_lines-rows =
      post_lines_induction
        (λ ls db db'.
          (db'.sale_lines ≡ reverse (map (sale_line_row env call c) ls) ++ db.sale_lines)
          × All (λ l. 0 < l.line.quantity) ls
          × (db' ≡ record db {
            balances = db'.balances;
            sale_lines = db'.sale_lines;
            movements = db'.movements;
          }))
        (λ db. (refl, tt, refl))
        (λ n l ls left db db' d q ih. (
          ih.0
              ∙ sym (
                  reverse_onto (sale_line_row env call c l) (map (sale_line_row env call c) ls)
                    db.sale_lines),
          (q, ih.1),
          ground (arith, ih.2),
        ))
