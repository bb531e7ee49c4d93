-- ===== src/System/Frames.antt =====
-- Which tables a command leaves alone.
use dpg_business_app_starter.Base.{
  ℕ, ◌≡◌, ◌≤◌, sym, subst, arith, String, Bool, ◌&&◌, ◌==◌, Option, List, [], ◌∷◌, ◌++◌, keep,
  Bool-cases, inl, inr, ◌⊎◌,
}
use dpg_business_app_starter.Database.{
  Db, ok, Environment, Call, OrganizationInvitation, SaleLine, StockMovement, Balances,
  catalog_manage, members_manage,
}
use dpg_business_app_starter.Database.Laws.{Result-cases}
use dpg_business_app_starter.Authorization.{CurrentMembership, require_permission}
use dpg_business_app_starter.Inventory.Ledger.{IsLedger}
use dpg_business_app_starter.Sales.UseCases.{update_sales_policy, set_approval_pin}
use dpg_business_app_starter.Sales.Returns.{returned_quantity}
use dpg_business_app_starter.Sales.Returns.Limits.{IsWithinSold}
use dpg_business_app_starter.Sales.Returns.Quantities.{sold_in}
use dpg_business_app_starter.Catalog.Products.Safety.{IsCatalog}
use dpg_business_app_starter.Catalog.Warehouses.{create_warehouse, update_warehouse}
use dpg_business_app_starter.Accounts.{CurrentUser, insert_user, insert_membership}
use dpg_business_app_starter.Accounts.Organizations.{
  is_bootstrap_valid, bootstrap_transaction, bootstrap_organization,
}
use dpg_business_app_starter.Accounts.Invitations.{
  InvitationAccepted, Acceptor, existing, fresh, create_invitation, valid_invitation, acceptor_of,
  write_user, write_acceptance, accept_invitation,
}
use dpg_business_app_starter.System.{IsSound}

-- The tables of the sales are the same.
abbrev pub SameSales : Db → Db → Type 0
SameSales d e =
    (e.sale_lines ≡ d.sale_lines)
    × (e.sale_returns ≡ d.sale_returns)
    × (e.sale_return_lines ≡ d.sale_return_lines)

-- So are those of the stock and the products.
abbrev SameBooks : Db → Db → Type 0
SameBooks d e =
    (e.balances ≡ d.balances)
    × (e.movements ≡ d.movements)
    × (e.products ≡ d.products)
    × SameSales d e

pub same-IsWithinSold : (d e : Db) → SameSales d e → IsWithinSold d → IsWithinSold e
unfolding returned_quantity
same-IsWithinSold d e s h = record {
  within = λ organization sale product.
      ground (arith, s.0, s.1, s.2, h.within organization sale product);
}

pub same-IsSound : (d e : Db) → SameBooks d e → IsSound d → IsSound e
same-IsSound d e s h = record {
  consistent =
      subst (λ (b : Balances). IsLedger b e.movements) (sym s.0)
        (subst (λ (ms : List StockMovement). IsLedger d.balances ms) (sym s.1) h.consistent);
  within = same-IsWithinSold d e s.3 h.within;
  catalog = subst IsCatalog (sym s.2) h.catalog;
}

-- New lines of a sale leave more to return.
sold_in-grows :
    (organization sale product : ℕ) (new old : List SaleLine)
    → sold_in product (keep (λ l. l.organization_id == organization && l.sale_id == sale) old)
      ≤ sold_in product
          (keep (λ l. l.organization_id == organization && l.sale_id == sale) (new ++ old))
sold_in-grows organization sale product [] old = omega arith
sold_in-grows organization sale product (l ∷ new) old =
    ground (arith, sold_in-grows organization sale product new old)

pub sold-IsWithinSold :
    (d e : Db) (new : List SaleLine)
    → e.sale_lines ≡ new ++ d.sale_lines
    → e.sale_returns ≡ d.sale_returns
    → e.sale_return_lines ≡ d.sale_return_lines
    → IsWithinSold d
    → IsWithinSold e
unfolding returned_quantity
sold-IsWithinSold d e new l r s h = record {
  within = λ organization sale product. ground (
    arith,
    h.within organization sale product,
    sold_in-grows organization sale product new d.sale_lines,
  );
}

module _ (env : Environment) (call : Call) (m : CurrentMembership) (db : Db) where
  pub update_sales_policy-SameBooks :
      (rate : ℕ) → SameBooks db (update_sales_policy env call m rate db).1
  unfolding update_sales_policy
  update_sales_policy-SameBooks rate =
      ground (arith, Result-cases (require_permission m catalog_manage))

  pub set_approval_pin-SameBooks :
      (pin : String) → SameBooks db (set_approval_pin env call m pin db).1
  unfolding set_approval_pin
  set_approval_pin-SameBooks pin =
      ground (arith, Result-cases (require_permission m catalog_manage))

  pub create_warehouse-SameBooks :
      (code name : String) → SameBooks db (create_warehouse env call m code name db).1
  unfolding create_warehouse
  create_warehouse-SameBooks code name =
      ground (arith, Result-cases (require_permission m catalog_manage))

  pub update_warehouse-SameBooks :
      (id : ℕ) (name : Option String) (active : Option Bool)
      → SameBooks db (update_warehouse env call m id name active db).1
  unfolding update_warehouse
  update_warehouse-SameBooks id name active =
      ground (arith, Result-cases (require_permission m catalog_manage))

  pub create_invitation-SameBooks :
      (email role : String) → SameBooks db (create_invitation env call m email role db).1
  unfolding create_invitation
  create_invitation-SameBooks email role =
      ground (arith, Result-cases (require_permission m members_manage))

module _ (env : Environment) (call : Call) (db : Db) where
  pub bootstrap_organization-SameBooks :
      (name email password : String)
      → SameBooks db (bootstrap_organization env call name email password db).1
  unfolding bootstrap_organization bootstrap_transaction insert_user insert_membership
  bootstrap_organization-SameBooks name email password =
      ground (arith, Bool-cases (is_bootstrap_valid env name email password))

  write_acceptance-SameBooks :
      (i : OrganizationInvitation) (a : Acceptor) (d : Db) (r : InvitationAccepted) (db' : Db)
      → write_acceptance env call i a d ≡ ok (r, db')
      → SameBooks d db'
  unfolding write_acceptance write_user insert_user insert_membership
  write_acceptance-SameBooks i (existing user) d r db' h = ground arith
  write_acceptance-SameBooks i (fresh hash) d r db' h = ground arith

  -- An acceptance keeps the books, as they are before it or as other clients leave them.
  pub accept_invitation-SameBooks :
      (token : String) (password : Option String) (current_user : Option CurrentUser)
      → SameBooks db (accept_invitation env call token password current_user db).1
        ⊎ SameBooks
            (call.concurrent db)
            (accept_invitation env call token password current_user db).1
  unfolding accept_invitation
  accept_invitation-SameBooks token password current_user =
      elim (Result-cases (valid_invitation env call token db)) [
        | inr (e, f) ↦ inl (ground arith)
        | inl (i, f) ↦ elim (Result-cases (acceptor_of env call password current_user i db)) [
          | inr (e, g) ↦ inl (ground arith)
          | inl (a, g) ↦ elim (Result-cases (write_acceptance env call i a (call.concurrent db))) [
            | inr (e, w) ↦ inr (ground arith)
            | inl ((r, db'), w) ↦
                inr (ground (arith, write_acceptance-SameBooks i a (call.concurrent db) r db' w))
          ]
        ]
      ]
