-- ===== src/Sales/UseCases.antt =====
-- The commands of app/modules/sales/use_cases.py: the permission in front of the sales services, the
-- discount policy and the approval PIN.
pub mod Permissions
use dpg_business_app_starter.Base.{
  ℕ, Bool, String, Option, none, some, List, [], ◌∷◌, map, not, ◌==◌, ◌&&◌, str_eq, update_where,
  find, if◌then◌else◌,
}
use dpg_business_app_starter.Database.{
  Db, Result, ok, err, Environment, Call, Organization, Membership, RefundResolution, return, void,
  catalog_manage, sales_create, sales_return, begin, Tx, pure, gets, modify, ◌>>=◌, ◌>>◌,
}
use dpg_business_app_starter.Authorization.{CurrentMembership, require_permission}
use dpg_business_app_starter.Inventory.UseCases.{permitted}
use dpg_business_app_starter.Sales.Commands.{
  SaleLineCommand, SaleApproval, CreateSaleCommand, SaleResult,
}
use dpg_business_app_starter.Sales.Checkout.{create_sale}
use dpg_business_app_starter.Sales.Returns.{
  ReturnLineCommand, ProcessSaleReturnCommand, SaleReturnResult, process_sale_return,
}

-- The lines and the approval of a submitted sale have the fields of those of the service.
pub record SubmitSaleCommand : Type 0 where
  pub organization_id : ℕ
  pub warehouse_id : ℕ
  pub lines : List SaleLineCommand
  pub discount_reason : Option String
  pub approval : Option SaleApproval
  pub idempotency_key : String

pub record SubmitSaleReturnCommand : Type 0 where
  pub sale_id : ℕ
  pub lines : List ReturnLineCommand
  pub refund_resolution : RefundResolution
  pub reason : String
  pub idempotency_key : String

abbrev pub sale_command : CurrentMembership → SubmitSaleCommand → CreateSaleCommand
sale_command m c = record {
  organization_id = m.organization_id;
  warehouse_id = c.warehouse_id;
  sold_by_id = m.user_id;
  seller_role = m.role;
  lines = c.lines;
  discount_reason = c.discount_reason;
  approval = c.approval;
  idempotency_key = c.idempotency_key;
}

abbrev pub return_command : CurrentMembership → SubmitSaleReturnCommand → ProcessSaleReturnCommand
return_command m c = record {
  organization_id = m.organization_id;
  sale_id = c.sale_id;
  processed_by_id = m.user_id;
  kind = return;
  refund_resolution = c.refund_resolution;
  reason = c.reason;
  idempotency_key = c.idempotency_key;
  lines = c.lines;
}

abbrev pub void_command :
    CurrentMembership → ℕ → RefundResolution → String → String → ProcessSaleReturnCommand
void_command m sale resolution reason key = record {
  organization_id = m.organization_id;
  sale_id = sale;
  processed_by_id = m.user_id;
  kind = void;
  refund_resolution = resolution;
  reason = reason;
  idempotency_key = key;
  lines = [];
}

module _ (env : Environment) (call : Call) (m : CurrentMembership) where
  unfoldable pub submit_sale : SubmitSaleCommand → Db → Result SaleResult × Db
  unfolding permitted
  submit_sale c = permitted m sales_create (create_sale env call (sale_command m c))

  unfoldable pub submit_sale_return : SubmitSaleReturnCommand → Db → Result SaleReturnResult × Db
  unfolding permitted
  submit_sale_return c =
      permitted m sales_return (process_sale_return env call (return_command m c))

  unfoldable pub void_sale :
      ℕ → RefundResolution → String → String → Db → Result SaleReturnResult × Db
  unfolding permitted
  void_sale sale resolution reason key =
      permitted m sales_return
        (process_sale_return env call (void_command m sale resolution reason key))

  -- The rate that the update returns; `None` where the organization is missing.
  unfoldable pub update_sales_policy : ℕ → Db → Result (Option ℕ) × Db
  unfolding permitted begin
  update_sales_policy rate = permitted m catalog_manage (
      begin do
        modify (λ db. record db {
          organizations =
              update_where (λ o. o.id == m.organization_id)
                (λ o. record o { salesperson_max_discount_rate = rate }) db.organizations;
        })
        updated ← gets (λ db. find (λ o. o.id == m.organization_id) db.organizations)
        pure (elim updated [ none ↦ none | some o ↦ some o.salesperson_max_discount_rate ]))

  -- The rows of the current user as an administrator.
  abbrev pub own_admin_row : Membership → Bool
  own_admin_row row =
      row.organization_id == m.organization_id
      && row.user_id == m.user_id
      && str_eq row.role "admin"

  abbrev pub with_pin : String → Membership → Membership
  with_pin pin row = record row {
    approval_pin_hash = some (env.hash pin);
    approval_pin_failures = 0;
    approval_pin_locked_until = none;
  }

  unfoldable write_pin : String → Db → Result (Unit {0}) × Db
  write_pin pin db =
      (ok tt, record db { memberships = update_where own_admin_row (with_pin pin) db.memberships })

  unfoldable pub set_approval_pin : String → Db → Result (Unit {0}) × Db
  unfolding permitted write_pin
  set_approval_pin pin =
      if not (str_eq m.role "admin")
      then permitted m catalog_manage (write_pin pin)
      else write_pin pin
