-- ===== src/Database/Errors.antt =====
-- The exceptions of the program, those of the database among them, and the result of a call.
use dpg_business_app_starter.Base.{ℕ, Bool, true, false}

-- `Permission` of app/core/authorization.py.
pub data Permission : Type 0 where
  inventory_read inventory_receive inventory_issue inventory_transfer inventory_adjust : Permission
  catalog_manage members_manage sales_create sales_read sales_return : Permission

-- The constraints of the tables that a write of the modelled services can violate.
pub data Constraint : Type 0 where
  uq_stock_movements_organization_idempotency_key : Constraint
  uq_stock_transfers_organization_idempotency_key : Constraint
  uq_sales_organization_idempotency_key : Constraint
  uq_sale_returns_organization_idempotency_key : Constraint
  fk_stock_movements_performer_membership : Constraint
  fk_stock_transfers_performer_membership : Constraint
  fk_sales_seller_membership : Constraint
  fk_sales_approver_membership : Constraint
  fk_sale_returns_processor_membership sale_returns_pkey : Constraint
  ck_sales_total_not_above_subtotal : Constraint
  ck_sale_lines_positive_quantity : Constraint
  ck_sale_return_lines_positive_quantity : Constraint
  uq_products_organization_sku ck_products_price_not_below_cost : Constraint
  uq_warehouses_organization_code : Constraint
  memberships_pkey users_email_key uq_invitations_token_hash : Constraint
  fk_invitations_inviter_membership : Constraint

pub data Error : Type 0 where
  value_error : Error
  organization_not_found : Error
  permission_denied : Permission → Error
  invalid_movement_quantity insufficient_stock idempotency_conflict : Error
  inventory_context_not_found inactive_inventory_context same_warehouse_transfer : Error
  sale_context_not_found inactive_sale_context sale_price_below_cost sale_price_above_list : Error
  discount_reason_required discount_approval_required : Error
  invalid_approval_pin approval_pin_locked sale_idempotency_conflict : Error
  sale_insufficient_stock : ℕ → Error
  return_sale_not_found sale_already_adjusted return_idempotency_conflict : Error
  return_quantity_exceeded : ℕ → Error
  product_sku_conflict product_not_found product_has_stock product_price_below_cost : Error
  warehouse_code_conflict warehouse_not_found warehouse_has_stock : Error
  invalid_movement_cursor invalid_sale_cursor invalid_product_cursor invalid_warehouse_cursor :
      Error
  sale_not_found index_error : Error
  invalid_invitation existing_user_authentication_required invitation_membership_conflict : Error
  invalid_credentials runtime_error bootstrap_validation_error user_email_conflict : Error
  integrity_error : Constraint → Error
  numeric_overflow text_data_error : Error
  key_error : ℕ → Error

pub data Result {ℓ} (A : Type ℓ) : Type ℓ where
  ok : A → Result A
  err : Error → Result A

-- `error.orig.diag.constraint_name` against the constraint of the idempotency key.
abbrev pub violates : Constraint → Error → Bool
violates uq_stock_movements_organization_idempotency_key
      (integrity_error uq_stock_movements_organization_idempotency_key) =
    true
violates uq_stock_transfers_organization_idempotency_key
      (integrity_error uq_stock_transfers_organization_idempotency_key) =
    true
violates uq_sales_organization_idempotency_key
      (integrity_error uq_sales_organization_idempotency_key) =
    true
violates uq_sale_returns_organization_idempotency_key
      (integrity_error uq_sale_returns_organization_idempotency_key) =
    true
violates _ _ = false
