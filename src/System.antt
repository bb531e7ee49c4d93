-- ===== src/System.antt =====
-- The program as a whole: the commands of all services, by any clients and in any interleaving, on
-- one database.
pub mod Frames
pub mod Services
pub mod Reachable
use dpg_business_app_starter.Base.{ℕ, ◌≡◌, String, Bool, false, Option, none, [], any}
use dpg_business_app_starter.Database.{Db, Environment, Call, RefundResolution}
use dpg_business_app_starter.Authorization.{CurrentMembership}
use dpg_business_app_starter.Inventory.Ledger.{IsConsistent}
use dpg_business_app_starter.Inventory.UseCases.{
  RecordManualMovementCommand, TransferInventoryCommand, record_manual_stock_movement,
  transfer_inventory,
}
use dpg_business_app_starter.Sales.UseCases.{
  SubmitSaleCommand, SubmitSaleReturnCommand, submit_sale, submit_sale_return, void_sale,
  update_sales_policy, set_approval_pin,
}
use dpg_business_app_starter.Sales.Returns.Limits.{IsWithinSold}
use dpg_business_app_starter.Sales.Returns.Quantities.{IsFreshId}
use dpg_business_app_starter.Catalog.Products.{create_product, update_product}
use dpg_business_app_starter.Catalog.Products.Safety.{IsCatalog, has_key}
use dpg_business_app_starter.Catalog.Warehouses.{create_warehouse, update_warehouse}
use dpg_business_app_starter.Accounts.{CurrentUser}
use dpg_business_app_starter.Accounts.Organizations.{bootstrap_organization}
use dpg_business_app_starter.Accounts.Invitations.{create_invitation, accept_invitation}

-- The tables after the migrations, before anything is in them.
abbrev pub empty_db : Db
empty_db = record {
  organizations = [];
  users = [];
  memberships = [];
  invitations = [];
  products = [];
  warehouses = [];
  balances = λ k. none;
  transfers = [];
  movements = [];
  sales = [];
  sale_lines = [];
  sale_returns = [];
  sale_return_lines = [];
}

-- What the clients can make of a database. Every command, with whatever arguments and whether it
-- succeeds or raises, may follow; while it runs, the others make a run of their own between its
-- first reads and its transaction. A UUID under which rows are looked up later is a fresh one.
pub data Run (env : Environment) (start : Db) : Db → Type 0 where
  idle : Run env start start
  movement :
      {db : Db} (call : Call) (m : CurrentMembership) (c : RecordManualMovementCommand)
      → Run env start db
      → Run env start (call.concurrent db)
      → Run env start (record_manual_stock_movement env call m c db).1
  transfer :
      {db : Db} (call : Call) (m : CurrentMembership) (c : TransferInventoryCommand)
      → Run env start db
      → Run env start (call.concurrent db)
      → Run env start (transfer_inventory env call m c db).1
  sell :
      {db : Db} (call : Call) (m : CurrentMembership) (c : SubmitSaleCommand)
      → Run env start db
      → Run env start (call.concurrent db)
      → Run env start (submit_sale env call m c db).1
  give_back :
      {db : Db} (call : Call) (m : CurrentMembership) (c : SubmitSaleReturnCommand)
      → IsFreshId (call.uuid4 0) (call.concurrent db)
      → Run env start db
      → Run env start (call.concurrent db)
      → Run env start (submit_sale_return env call m c db).1
  void_all :
      {db : Db} (call : Call) (m : CurrentMembership) (sale : ℕ) (resolution : RefundResolution)
      (reason key : String)
      → IsFreshId (call.uuid4 0) (call.concurrent db)
      → Run env start db
      → Run env start (call.concurrent db)
      → Run env start (void_sale env call m sale resolution reason key db).1
  policy :
      {db : Db} (call : Call) (m : CurrentMembership) (rate : ℕ)
      → Run env start db
      → Run env start (update_sales_policy env call m rate db).1
  pin :
      {db : Db} (call : Call) (m : CurrentMembership) (text : String)
      → Run env start db
      → Run env start (set_approval_pin env call m text db).1
  new_product :
      {db : Db} (call : Call) (m : CurrentMembership) (sku name : String) (cost sale_price : ℕ)
      → any (has_key m.organization_id (call.uuid4 0)) db.products ≡ false
      → Run env start db
      → Run env start (create_product env call m sku name cost sale_price db).1
  edit_product :
      {db : Db} (call : Call) (m : CurrentMembership) (id : ℕ) (name : Option String)
      (active : Option Bool) (cost sale_price : Option ℕ)
      → Run env start db
      → Run env start (update_product env call m id name active cost sale_price db).1
  new_warehouse :
      {db : Db} (call : Call) (m : CurrentMembership) (code name : String)
      → Run env start db
      → Run env start (create_warehouse env call m code name db).1
  edit_warehouse :
      {db : Db} (call : Call) (m : CurrentMembership) (id : ℕ) (name : Option String)
      (active : Option Bool)
      → Run env start db
      → Run env start (update_warehouse env call m id name active db).1
  bootstrap :
      {db : Db} (call : Call) (name email password : String)
      → Run env start db
      → Run env start (bootstrap_organization env call name email password db).1
  invite :
      {db : Db} (call : Call) (m : CurrentMembership) (email role : String)
      → Run env start db
      → Run env start (create_invitation env call m email role db).1
  join :
      {db : Db} (call : Call) (token : String) (password : Option String)
      (current_user : Option CurrentUser)
      → Run env start db
      → Run env start (call.concurrent db)
      → Run env start (accept_invitation env call token password current_user db).1

-- The books are in order: the stock is explained by the movements, no more has come back than was
-- sold, and the products have different ids and prices that cover their costs.
pub record IsSound (db : Db) : Type 0 where
  pub consistent : IsConsistent db
  pub within : IsWithinSold db
  pub catalog : IsCatalog db.products
