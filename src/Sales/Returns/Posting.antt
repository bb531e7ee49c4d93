-- ===== src/Sales/Returns/Posting.antt =====
-- The posting loop of a return: what it does to the stock, to the ledger and to the rows.
use mathlib.Core.List.{reverse}
use dpg_business_app_starter.Base.{
  ℕ, suc, ◌+◌, ◌≡◌, refl, some, List, [], ◌∷◌, ◌++◌, map, if◌then◌else◌, arith, sum_by,
  Option-cases, inl, inr, subst, sym, ◌∙◌, ◌<◌, reverse_onto,
}
use dpg_business_app_starter.Database.{
  Db, ok, Environment, Call, SaleLine, BalanceKey, set_balance, on_hand, same_key, same_key_iff,
  credited,
}
use dpg_business_app_starter.Database.Laws.{Result-cases}
use dpg_business_app_starter.Inventory.Ledger.{IsConsistent, post-IsLedger, credit-Posts}
use dpg_business_app_starter.Sales.Returns.{
  ReturnLineCommand, ProcessSaleReturnCommand, return_line_row, return_key, return_movement,
  post_return_line, post_return_lines,
}

module _ (env : Environment) (call : Call) (c : ProcessSaleReturnCommand) (warehouse : ℕ)
    (sold : List SaleLine) where
  -- What a posted line has written.
  abbrev return_posted : ℕ → ReturnLineCommand → ℕ → Db → Db
  return_posted n l total db = record db {
    balances = set_balance (return_key env call c warehouse l) total db.balances;
    sale_return_lines = return_line_row env call c sold l ∷ db.sale_return_lines;
    movements = return_movement env call c warehouse n l total ∷ db.movements;
  }

  post_return_line-writes :
      (n : ℕ) (l : ReturnLineCommand) (db : Db) (u : Unit {0}) (db' : Db)
      → post_return_line env call c warehouse sold n l db ≡ ok (u, db')
      → (total : ℕ) × (credited (return_key env call c warehouse l) l.quantity db.balances
          ≡ some total)
        × (db' ≡ return_posted n l total db)
        × (0 < l.quantity)
  unfolding post_return_line
  post_return_line-writes n l db u db' h =
      elim (Option-cases (credited (return_key env call c warehouse l) l.quantity db.balances)) [
        | inl e ↦ absurd (ground arith)
        | inr (total, e) ↦ (total, e, ground arith, ground arith)
      ]

  -- What the lines put back at a key.
  abbrev pub returned_at : BalanceKey → List ReturnLineCommand → ℕ
  returned_at k =
      sum_by (λ l. if same_key (return_key env call c warehouse l) k then l.quantity else 0)

  -- A postcondition of the loop, by one rule for a round.
  post_return_lines_induction :
      (P : List ReturnLineCommand → Db → Db → Type 0)
      → ((db : Db) → P [] db db)
      → ((n : ℕ) (l : ReturnLineCommand) (ls : List ReturnLineCommand) (total : ℕ) (db db' : Db)
          → credited (return_key env call c warehouse l) l.quantity db.balances ≡ some total
          → 0 < l.quantity
          → P ls (return_posted n l total db) db'
          → P (l ∷ ls) db db')
      → (n : ℕ) (ls : List ReturnLineCommand) (db : Db) (u : Unit {0}) (db' : Db)
      → post_return_lines env call c warehouse sold n ls db ≡ ok (u, db')
      → P ls db db'
  unfolding post_return_lines
  post_return_lines_induction P base round n [] db u db' h =
      subst (P [] db) (ground arith) (base db)
  post_return_lines_induction P base round n (l ∷ ls) db u db' h =
      elim (Result-cases (post_return_line env call c warehouse sold n l db)) [
        | inr (e, f) ↦ absurd (ground arith)
        | inl ((v, mid), f) ↦
            let (total, d, written, q) = post_return_line-writes n l db v mid f in
            round n l ls total db db' d q (
              subst (λ (m : Db). P ls m db') written
                (post_return_lines_induction P base round (suc n) ls mid u db' (ground arith)))
      ]

  -- The loop adds to every key exactly what its lines put back there.
  pub post_return_lines-on_hand :
      (k : BalanceKey) (n : ℕ) (ls : List ReturnLineCommand) (db : Db) (u : Unit {0}) (db' : Db)
      → post_return_lines env call c warehouse sold n ls db ≡ ok (u, db')
      → on_hand k db'.balances ≡ on_hand k db.balances + returned_at k ls
  post_return_lines-on_hand k =
      post_return_lines_induction
        (λ ls db db'. on_hand k db'.balances ≡ on_hand k db.balances + returned_at k ls)
        (λ db. omega arith)
        (λ n l ls total db db' d q ih.
          unfold set_balance in
          ground (
            arith,
            credit-Posts (return_key env call c warehouse l) l.quantity total db.balances d,
            same_key_iff (return_key env call c warehouse l) k,
            ih,
          ))

  -- The loop keeps the ledger.
  pub post_return_lines-IsConsistent :
      (n : ℕ) (ls : List ReturnLineCommand) (db : Db) (u : Unit {0}) (db' : Db)
      → post_return_lines env call c warehouse sold n ls db ≡ ok (u, db')
      → IsConsistent db
      → IsConsistent db'
  post_return_lines-IsConsistent =
      post_return_lines_induction (λ ls db db'. IsConsistent db → IsConsistent db') (λ db h. h)
        (λ n l ls total db db' d q ih h. ih (
          post-IsLedger db.balances db.movements (return_movement env call c warehouse n l total) h
            (credit-Posts (return_key env call c warehouse l) l.quantity total db.balances d)))

  -- The loop adds the row of each line and leaves the sales and the returns alone.
  pub post_return_lines-rows :
      (n : ℕ) (ls : List ReturnLineCommand) (db : Db) (u : Unit {0}) (db' : Db)
      → post_return_lines env call c warehouse sold n ls db ≡ ok (u, db')
      → (db'.sale_return_lines
          ≡ reverse (map (return_line_row env call c sold) ls) ++ db.sale_return_lines)
        × (db' ≡ record db {
          balances = db'.balances;
          sale_return_lines = db'.sale_return_lines;
          movements = db'.movements;
        })
  post_return_lines-rows =
      post_return_lines_induction
        (λ ls db db'.
          (db'.sale_return_lines
            ≡ reverse (map (return_line_row env call c sold) ls) ++ db.sale_return_lines)
          × (db' ≡ record db {
            balances = db'.balances;
            sale_return_lines = db'.sale_return_lines;
            movements = db'.movements;
          }))
        (λ db. (refl, refl))
        (λ n l ls total db db' d q ih. (
          ih.0
              ∙ sym (
                  reverse_onto (return_line_row env call c sold l)
                    (map (return_line_row env call c sold) ls) db.sale_return_lines),
          ground (arith, ih.1),
        ))
