-- ===== src/Database/Transaction.antt =====
-- The database, and its transactions: a body that raises is rolled back.
use dpg_business_app_starter.Base.{ℕ, Bool, true, false, Option, none, some, List, ◌==◌, ◌&&◌, any}
use dpg_business_app_starter.Database.Rows.{
  Organization, User, OrganizationInvitation, Membership, Product, Warehouse, StockTransfer,
  StockMovement, Sale, SaleLine, SaleReturn, SaleReturnLine,
}
use dpg_business_app_starter.Database.Errors.{Constraint, Error, Result, ok, err, violates}
use dpg_business_app_starter.Database.Stock.{Balances}

-- The newest row of a table stands first.
pub record Db : Type 0 where
  pub organizations : List Organization
  pub users : List User
  pub memberships : List Membership
  pub invitations : List OrganizationInvitation
  pub products : List Product
  pub warehouses : List Warehouse
  pub balances : Balances
  pub transfers : List StockTransfer
  pub movements : List StockMovement
  pub sales : List Sale
  pub sale_lines : List SaleLine
  pub sale_returns : List SaleReturn
  pub sale_return_lines : List SaleReturnLine

-- The statements of a transaction. A raise has no database: what was written is rolled back.
abbrev pub Tx : Type 0 → Type 0
Tx A = Db → Result (A × Db)

module _ {A : Type 0} where
  abbrev pub pure : A → Tx A
  pure a db = ok (a, db)

  abbrev pub raise : Error → Tx A
  raise e db = err e

  abbrev pub gets : (Db → A) → Tx A
  gets f db = ok (f db, db)

  -- A computation that may raise and reads nothing.
  abbrev pub lift : Result A → Tx A
  lift (ok a) = pure a
  lift (err e) = raise e

  -- A value that must be there.
  abbrev pub require : Option A → Error → Tx A
  require none e = raise e
  require (some a) e = pure a

infixl 5 ◌>>=◌ ◌>>◌
abbrev pub ◌>>=◌ : {A B : Type 0} → Tx A → (A → Tx B) → Tx B
◌>>=◌ m f db = elim (m db) [ ok (a, db') ↦ f a db' | err e ↦ err e ]

abbrev pub ◌>>◌ : {A B : Type 0} → Tx A → Tx B → Tx B
m >> k = m >>= λ _. k

abbrev pub modify : (Db → Db) → Tx (Unit {0})
modify f db = ok (tt, f db)

abbrev pub raise_if : Bool → Error → Tx (Unit {0})
raise_if true e db = err e
raise_if false e db = ok (tt, db)

-- Whether the user is a member: what the foreign keys to `memberships` ask for.
abbrev pub is_member : ℕ → ℕ → Db → Bool
is_member organization user db =
    any (λ m. m.organization_id == organization && m.user_id == user) db.memberships

module _ {A : Type 0} where
  -- `with engine.begin() as connection`: commit on a return, roll back on a raise.
  unfoldable pub begin : Tx A → Db → Result A × Db
  begin body db = elim (body db) [ ok (a, db') ↦ (ok a, db') | err e ↦ (err e, db) ]

  -- `except IntegrityError`: a violated idempotency key is answered by the stored result.
  unfoldable settle : (Db → Result (Option A)) → Constraint → Result A × Db → Result A × Db
  settle replayed key (ok a, db) = (ok a, db)
  settle replayed key (err e, db) = elim (violates key e) [
    | true ↦ elim (replayed db) [
      | ok (some a) ↦ (ok a, db)
      | ok none ↦ (err e, db)
      | err conflict ↦ (err conflict, db)
    ]
    | false ↦ (err e, db)
  ]

  -- The shape of the four writing services: a replay, or else one transaction. What other clients
  -- commit between the lookup of the key and the first lock is `concurrent`.
  unfoldable pub run_once :
      (Db → Result (Option A)) → Constraint → (Db → Db) → Tx A → Db → Result A × Db
  unfolding begin settle
  run_once replayed key concurrent body db = elim (replayed db) [
    | err conflict ↦ (err conflict, db)
    | ok (some a) ↦ (ok a, db)
    | ok none ↦ settle replayed key (begin body (concurrent db))
  ]
