-- ===== src/Sales/Returns/Safety.antt =====
-- What `process_sale_return` guarantees: the ledger, its errors, its value and the stock.
use mathlib.Core.List.{reverse}
use dpg_business_app_starter.Base.{
  ℕ, ◌+◌, ◌≡◌, none, some, true, false, not, List, ◌∷◌, ◌++◌, map, arith, Option-cases, Bool-cases,
  inl, inr, ◌⊎◌, subst, sym, any, ◌==◌,
}
use dpg_business_app_starter.Database.{
  Db, Result, ok, err, Error, Environment, Call, Sale, BalanceKey, on_hand,
  uq_sale_returns_organization_idempotency_key,
}
use dpg_business_app_starter.Database.Laws.{
  Result-cases, Outcome, run_once-Outcome, Outcome-keeps, Outcome-atomic,
}
use dpg_business_app_starter.Inventory.Ledger.{IsConsistent}
use dpg_business_app_starter.Sales.Returns.{
  ReturnLineCommand, ProcessSaleReturnCommand, SaleReturnResult, lines_of_sale, returned_quantity,
  value_lines, effective_lines, insert_return, is_valid, return_replay, return_row, return_line_row,
  post_return_lines, return_result, write_return, sale_of, return_transaction, process_sale_return,
}
use dpg_business_app_starter.Sales.Returns.Posting.{
  returned_at, post_return_lines-on_hand, post_return_lines-IsConsistent, post_return_lines-rows,
}

module _ (env : Environment) (call : Call) (c : ProcessSaleReturnCommand) where
  -- What a committed return has checked and written.
  pub record Returned (db : Db) (r : SaleReturnResult) (db' : Db) : Type 0 where
    pub sale : Sale
    pub sale_found : sale_of env call c db ≡ some sale
    pub lines : List ReturnLineCommand
    pub effective : effective_lines c db ≡ ok lines
    pub value : ℕ
    pub valued :
        value_lines
          (λ product. returned_quantity c.organization_id c.sale_id product db)
          (lines_of_sale c.organization_id c.sale_id db)
          lines
        ≡ ok value
    pub fresh : any (λ o. o.id == call.uuid4 0) db.sale_returns ≡ false
    pub result : r ≡ return_result env call c value
    pub sale_returns : db'.sale_returns ≡ return_row env call c value ∷ db.sale_returns
    pub sale_return_lines :
        db'.sale_return_lines
        ≡ reverse
            (map (return_line_row env call c (lines_of_sale c.organization_id c.sale_id db)) lines)
          ++ db.sale_return_lines
    pub stock :
        (k : BalanceKey)
        → on_hand k db'.balances
          ≡ on_hand k db.balances
            + returned_at env call c sale.warehouse_id
                (lines_of_sale c.organization_id c.sale_id db)
                k
                lines
    pub ledger : IsConsistent db → IsConsistent db'
    pub others : db' ≡ record db {
      balances = db'.balances;
      movements = db'.movements;
      sale_returns = db'.sale_returns;
      sale_return_lines = db'.sale_return_lines;
    }

  insert_return-writes :
      (value : ℕ) (db : Db) (u : Unit {0}) (db' : Db)
      → insert_return (return_row env call c value) db ≡ ok (u, db')
      → (any (λ o. o.id == call.uuid4 0) db.sale_returns ≡ false)
        × (db' ≡ record db { sale_returns = return_row env call c value ∷ db.sale_returns })
  unfolding insert_return
  insert_return-writes value db u db' h = ground arith

  write_return-Returned :
      (sale : Sale) (db : Db) (r : SaleReturnResult) (db' : Db)
      → sale_of env call c db ≡ some sale
      → write_return env call c sale db ≡ ok (r, db')
      → Returned db r db'
  unfolding write_return
  write_return-Returned sale db r db' found h =
      let sold = lines_of_sale c.organization_id c.sale_id db in
      let returned : ℕ → ℕ = λ product. returned_quantity c.organization_id c.sale_id product db in
      elim (Result-cases (effective_lines c db)) [
        | inr (e, f) ↦ absurd (ground arith)
        | inl (lines, effective_e) ↦ elim (Result-cases (value_lines returned sold lines)) [
          | inr (e, f) ↦ absurd (ground arith)
          | inl (value, value_e) ↦
              elim (Result-cases (insert_return (return_row env call c value) db)) [
                | inr (e, f) ↦ absurd (ground arith)
                | inl ((u, headed), g) ↦
                    elim (Result-cases
                      (post_return_lines env call c sale.warehouse_id sold 1 lines headed)) [
                        | inr (e, p) ↦ absurd (ground arith)
                        | inl ((v, posted), p) ↦
                            let (fresh_e, headed_e) = insert_return-writes value db u headed g in
                            let rows =
                              post_return_lines-rows env call c sale.warehouse_id sold 1 lines
                                headed v posted p in
                            let last : posted ≡ db' = ground arith in
                            record {
                              sale = sale;
                              sale_found = found;
                              lines = lines;
                              effective = effective_e;
                              value = value;
                              valued = value_e;
                              fresh = fresh_e;
                              result = ground arith;
                              sale_returns = ground (arith, headed_e, rows.1, last);
                              sale_return_lines = ground (arith, headed_e, rows.0, last);
                              stock = λ k. ground (
                                arith,
                                headed_e,
                                last,
                                post_return_lines-on_hand env call c sale.warehouse_id sold k 1
                                    lines headed v posted p,
                              );
                              ledger = λ consistent. subst IsConsistent last (
                                  post_return_lines-IsConsistent env call c sale.warehouse_id sold 1
                                    lines headed v posted p
                                    (subst IsConsistent (sym headed_e) consistent));
                              others = ground (arith, headed_e, rows.1, last);
                            }
                      ]
              ]
        ]
      ]

  replay_is_marked :
      (db : Db) (r : SaleReturnResult)
      → return_replay env c db ≡ ok (some r)
      → record r { replayed = true } ≡ r
  unfolding return_replay
  replay_is_marked db r h = ground arith

  -- A committed transaction found the return of another call, or has written one.
  pub return_transaction-cases :
      (db : Db) (r : SaleReturnResult) (db' : Db)
      → return_transaction env call c db ≡ ok (r, db')
      → ((db' ≡ db) × (return_replay env c db ≡ ok (some r))) ⊎ Returned db r db'
  unfolding return_transaction
  return_transaction-cases db r db' h = elim (Option-cases (sale_of env call c db)) [
    | inl none_e ↦ absurd (ground arith)
    | inr (sale, sale_e) ↦ elim (Result-cases (return_replay env c db)) [
      | inr (e, f) ↦ absurd (ground arith)
      | inl (some s, f) ↦ inl (ground arith, ground arith)
      | inl (none, f) ↦ inr (write_return-Returned sale db r db' sale_e (ground arith))
    ]
  ]

  pub process_sale_return-Outcome :
      (db : Db)
      → Outcome
          (return_replay env c)
          call.concurrent
          (return_transaction env call c)
          db
          (process_sale_return env call c db)
  unfolding process_sale_return
  process_sale_return-Outcome db = elim (Bool-cases (not (is_valid c))) [
    | inl e ↦ inl (rw e, λ a h. ground arith)
    | inr e ↦ rw e (
        run_once-Outcome (return_replay env c) uq_sale_returns_organization_idempotency_key
          call.concurrent (return_transaction env call c) db)
  ]

  -- If the stock and the history agree, and other clients keep them so, they agree after a return
  -- too, however it ends.
  pub process_sale_return-IsConsistent :
      (db : Db)
      → IsConsistent db
      → IsConsistent (call.concurrent db)
      → IsConsistent (process_sale_return env call c db).1
  process_sale_return-IsConsistent db h hc =
      Outcome-keeps (return_replay env c) call.concurrent (return_transaction env call c) db
        IsConsistent h hc
        (λ r db' e. elim (return_transaction-cases (call.concurrent db) r db' e) [
          | inl (same, _) ↦ subst IsConsistent (sym same) hc
          | inr written ↦ written.ledger hc
        ])
        (process_sale_return env call c db) (process_sale_return-Outcome db)

  -- A return that raises leaves the database as it was, up to what other clients committed.
  process_sale_return_atomic :
      (db : Db) (e : Error)
      → (process_sale_return env call c db).0 ≡ err e
      → ((process_sale_return env call c db).1 ≡ db)
        ⊎ ((process_sale_return env call c db).1 ≡ call.concurrent db)
  process_sale_return_atomic db e h =
      Outcome-atomic (return_replay env c) call.concurrent (return_transaction env call c) db
        (process_sale_return env call c db) e (process_sale_return-Outcome db) h

  -- A new result is that of a committed return.
  pub new_return-Returned :
      (db : Db) (r : SaleReturnResult)
      → (process_sale_return env call c db).0 ≡ ok r
      → r.replayed ≡ false
      → Returned (call.concurrent db) r (process_sale_return env call c db).1
  new_return-Returned db r h n = elim (process_sale_return-Outcome db) [
    | inl (e, f) ↦ absurd (ground (arith, replay_is_marked db r (f r h)))
    | inr (inl (e, f)) ↦ absurd (ground (arith, replay_is_marked (call.concurrent db) r (f r h)))
    | inr (inr (s, db', e, f)) ↦
        let same : s ≡ r = ground arith in
        elim (return_transaction-cases (call.concurrent db) s db' e) [
          | inl (_, g) ↦ absurd (ground (arith, replay_is_marked (call.concurrent db) s g))
          | inr written ↦
              subst (λ (o : Result SaleReturnResult × Db). Returned (call.concurrent db) r o.1)
                (sym f)
                (subst (λ (t : SaleReturnResult). Returned (call.concurrent db) t db') same written)
        ]
  ]

  -- Whatever a call does, it returns nothing, wrote nothing, or wrote one return.
  pub process_sale_return_states :
      (P : Db → Type 0) (db : Db)
      → P db
      → P (call.concurrent db)
      → ((r : SaleReturnResult) (db' : Db) → Returned (call.concurrent db) r db' → P db')
      → P (process_sale_return env call c db).1
  process_sale_return_states P db h hc hb =
      Outcome-keeps (return_replay env c) call.concurrent (return_transaction env call c) db P h hc
        (λ r db' e. elim (return_transaction-cases (call.concurrent db) r db' e) [
          | inl (same, _) ↦ subst P (sym same) hc
          | inr written ↦ hb r db' written
        ])
        (process_sale_return env call c db) (process_sale_return-Outcome db)
