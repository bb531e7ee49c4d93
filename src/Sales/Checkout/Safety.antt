-- ===== src/Sales/Checkout/Safety.antt =====
-- What `create_sale` guarantees: the ledger, the stock, the prices, the approvals and the errors.
use dpg_business_app_starter.Base.{
  ℕ, ◌≡◌, Option, some, true, false, not, ◌||◌, arith, Bool-cases, inl, inr, ◌⊎◌, subst, sym, ap,
  ◌∙◌,
}
use dpg_business_app_starter.Database.{
  Db, Result, ok, err, Error, Environment, Call, uq_sales_organization_idempotency_key,
}
use dpg_business_app_starter.Database.Laws.{Outcome, run_once-Outcome}
use dpg_business_app_starter.Inventory.Ledger.{IsConsistent}
use dpg_business_app_starter.Sales.Commands.{
  CreateSaleCommand, SaleResult, SaleOutcome, completed, refused, unique_products, sale_replay,
}
use dpg_business_app_starter.Sales.Approval.{Approved, granted}
use dpg_business_app_starter.Sales.Checkout.{
  sale_transaction, create_sale, raise_refusal, has_lines, write_sale,
}
use dpg_business_app_starter.Sales.Checkout.Committed.{
  Prepared, sale_transaction-Prepared, approve-writes, Written, write_sale-Written,
  write_sale-refused, write_sale-granted,
}

module _ (env : Environment) (call : Call) (c : CreateSaleCommand) where
  -- The call wrote nothing onto `d`, and a result of it is a stored one.
  abbrev Quiet : Db → Result SaleResult × Db → Type 0
  Quiet d out =
      (out.1 ≡ d)
      × ((r : SaleResult) → out.0 ≡ ok r → sale_replay env c d ≡ ok (some (completed r)))

  -- The transaction was committed, with a sale or with the refusal of a PIN.
  abbrev Commits : Db → Result SaleResult × Db → Type 0
  Commits d out =
      ((r : SaleResult) × (db' : Db) × (sale_transaction env call c d ≡ ok (completed r, db'))
        × (out ≡ (ok r, db')))
      ⊎ ((e : Error) × (db' : Db) × (sale_transaction env call c d ≡ ok (refused e, db'))
          × (out ≡ (err e, db')))

  raised :
      (db : Db) (out : Result SaleOutcome × Db)
      → Outcome (sale_replay env c) call.concurrent (sale_transaction env call c) db out
      → Quiet db (raise_refusal out)
        ⊎ Quiet (call.concurrent db) (raise_refusal out)
        ⊎ Commits (call.concurrent db) (raise_refusal out)
  raised db out (inl (e, f)) = inl (ground arith, λ r h. f (completed r) (ground arith))
  raised db out (inr (inl (e, f))) = inr (inl (ground arith, λ r h. f (completed r) (ground arith)))
  raised db out (inr (inr (completed r, db', e, f))) =
      inr (inr (inl (r, db', e, ap raise_refusal f)))
  raised db out (inr (inr (refused x, db', e, f))) = inr (inr (inr (x, db', e, ap raise_refusal f)))

  pub create_sale_outcome :
      (db : Db)
      → Quiet db (create_sale env call c db)
        ⊎ Quiet (call.concurrent db) (create_sale env call c db)
        ⊎ Commits (call.concurrent db) (create_sale env call c db)
  unfolding create_sale
  create_sale_outcome db = elim (Bool-cases (not (has_lines c) || not (unique_products c.lines))) [
    | inl e ↦ inl (rw e, λ r h. ground arith)
    | inr e ↦ rw e (
        raised db _ (
          run_once-Outcome (sale_replay env c) uq_sales_organization_idempotency_key call.concurrent
            (sale_transaction env call c) db))
  ]

  -- What the refusal of a PIN commits: at most the failures of the approver.
  pub refused-writes :
      (db : Db) (e : Error) (db' : Db)
      → sale_transaction env call c db ≡ ok (refused e, db')
      → db' ≡ record db { memberships = db'.memberships }
  refused-writes db e db' h =
      let (a, mid, p, w) = sale_transaction-Prepared env call c db (refused e) db' h in
      subst (λ (d : Db). d ≡ record db { memberships = d.memberships })
        (write_sale-refused env call c a p.pricing.priced_lines mid e db' w)
        (approve-writes env call c p.pricing.requires_approval db a mid p.approved)

  -- What a completed sale has prepared and written.
  unfoldable pub CommittedSale : Db → SaleResult → Db → Type 0
  CommittedSale db r db' =
      (user : Option ℕ) × (mid : Db) × (p : Prepared env call c db (granted user) mid) × Written env
        call c user p.pricing.priced_lines mid r db'

  pub completed-CommittedSale :
      (db : Db) (r : SaleResult) (db' : Db)
      → sale_transaction env call c db ≡ ok (completed r, db')
      → CommittedSale db r db'
  unfolding CommittedSale
  completed-CommittedSale db r db' h =
      let (a, mid, p, w) = sale_transaction-Prepared env call c db (completed r) db' h in
      let (user, e) = write_sale-granted env call c a p.pricing.priced_lines mid r db' w in
      (
        user,
        mid,
        record {
          organization = p.organization;
          organization_found = p.organization_found;
          pricing = p.pricing;
          priced = p.priced;
          reasoned = p.reasoned;
          approved = p.approved ∙ ap (λ (b : Approved). ok (b, mid)) e;
        },
        write_sale-Written env call c user p.pricing.priced_lines mid r db' (
            subst
              (λ (b : Approved).
                write_sale env call c p.pricing.priced_lines b mid ≡ ok (completed r, db'))
              e w),
      )

  -- If the stock and the history agree, and other clients keep them so, they agree after a sale too,
  -- however it ends.
  pub create_sale-IsConsistent :
      (db : Db)
      → IsConsistent db
      → IsConsistent (call.concurrent db)
      → IsConsistent (create_sale env call c db).1
  unfolding CommittedSale
  create_sale-IsConsistent db h hc = elim (create_sale_outcome db) [
    | inl (e, _) ↦ subst IsConsistent (sym e) h
    | inr (inl (e, _)) ↦ subst IsConsistent (sym e) hc
    | inr (inr (inl (r, db', e, f))) ↦
        let (user, mid, p, w) = completed-CommittedSale (call.concurrent db) r db' e in
        subst (λ (o : Result SaleResult × Db). IsConsistent o.1) (sym f)
          (w.ledger (
            subst IsConsistent
              (sym (
                approve-writes env call c p.pricing.requires_approval (call.concurrent db)
                  (granted user) mid p.approved))
              hc))
    | inr (inr (inr (x, db', e, f))) ↦
        subst (λ (o : Result SaleResult × Db). IsConsistent o.1) (sym f)
          (subst IsConsistent (sym (refused-writes (call.concurrent db) x db' e)) hc)
  ]

  -- A sale that raises changes at most the memberships, up to what other clients committed: no
  -- stock, sale, line or movement is written.
  pub failed_sale_writes_no_stock :
      (db : Db) (x : Error)
      → (create_sale env call c db).0 ≡ err x
      → ((create_sale env call c db).1 ≡ db)
        ⊎ ((create_sale env call c db).1 ≡ record (call.concurrent db) {
          memberships = (create_sale env call c db).1.memberships;
        })
  failed_sale_writes_no_stock db x h = elim (create_sale_outcome db) [
    | inl (e, _) ↦ inl e
    | inr (inl (e, _)) ↦ inr (e ∙ ground (arith, e))
    | inr (inr (inl (r, db', e, f))) ↦ absurd (ground arith)
    | inr (inr (inr (y, db', e, f))) ↦ inr (
        subst
          (λ (o : Result SaleResult × Db).
            o.1 ≡ record (call.concurrent db) { memberships = o.1.memberships })
          (sym f) (refused-writes (call.concurrent db) y db' e))
  ]

  stored_is_replay :
      (d : Db) (r : SaleResult) → sale_replay env c d ≡ ok (some (completed r)) → r.replayed ≡ true
  unfolding sale_replay
  stored_is_replay d r h = ground arith

  -- A new result is that of a committed sale.
  pub new_sale-CommittedSale :
      (db : Db) (r : SaleResult)
      → (create_sale env call c db).0 ≡ ok r
      → r.replayed ≡ false
      → CommittedSale (call.concurrent db) r (create_sale env call c db).1
  new_sale-CommittedSale db r h n = elim (create_sale_outcome db) [
    | inl (e, f) ↦ absurd (ground (arith, stored_is_replay db r (f r h)))
    | inr (inl (e, f)) ↦ absurd (ground (arith, stored_is_replay (call.concurrent db) r (f r h)))
    | inr (inr (inl (s, db', e, f))) ↦
        let same : s ≡ r = ground arith in
        subst (λ (o : Result SaleResult × Db). CommittedSale (call.concurrent db) r o.1) (sym f)
          (subst (λ (t : SaleResult). CommittedSale (call.concurrent db) t db') same
            (completed-CommittedSale (call.concurrent db) s db' e))
    | inr (inr (inr (x, db', e, f))) ↦ absurd (ground arith)
  ]
