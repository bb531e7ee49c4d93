-- ===== src/Database/Rows.antt =====
-- The rows of the tables: products, warehouses, organizations, users,
-- memberships, invitations, stock balances, stock
-- movements, stock transfers, sales and returns, as the `models.py` files declare them. A UUID is
-- a number, a time a number of microseconds, a `Numeric(20, 6)` a number of millionths and the
-- `Numeric(5, 4)` of a discount rate a number of ten-thousandths.
use dpg_business_app_starter.Base.{ℕ, String, Bool, Option}

pub data MovementType : Type 0 where
  receipt issue : MovementType

pub data StockCondition : Type 0 where
  available damaged : StockCondition

pub data ReturnKind : Type 0 where
  return void : ReturnKind

pub data ReturnDisposition : Type 0 where
  restock damage : ReturnDisposition

pub data RefundResolution : Type 0 where
  refunded_now no_refund : RefundResolution

pub record Organization : Type 0 where
  pub id : ℕ
  pub name : String
  pub active : Bool
  pub salesperson_max_discount_rate : ℕ
  pub created_at : ℕ

pub record Membership : Type 0 where
  pub organization_id : ℕ
  pub user_id : ℕ
  pub role : String
  pub approval_pin_hash : Option String
  pub approval_pin_failures : ℕ
  pub approval_pin_locked_until : Option ℕ

pub record User : Type 0 where
  pub id : ℕ
  pub email : String
  pub password_hash : String
  pub active : Bool
  pub created_at : ℕ

pub record OrganizationInvitation : Type 0 where
  pub id : ℕ
  pub organization_id : ℕ
  pub email : String
  pub role : String
  pub token_hash : String
  pub invited_by_user_id : ℕ
  pub expires_at : ℕ
  pub accepted_at : Option ℕ
  pub revoked_at : Option ℕ
  pub created_at : ℕ

pub record Product : Type 0 where
  pub id : ℕ
  pub organization_id : ℕ
  pub sku : String
  pub name : String
  pub cost : ℕ
  pub sale_price : ℕ
  pub active : Bool
  pub created_at : ℕ
  pub updated_at : ℕ

pub record Warehouse : Type 0 where
  pub id : ℕ
  pub organization_id : ℕ
  pub code : String
  pub name : String
  pub active : Bool
  pub created_at : ℕ
  pub updated_at : ℕ

-- The primary key of `stock_balances`.
pub record BalanceKey : Type 0 where
  pub organization_id : ℕ
  pub product_id : ℕ
  pub warehouse_id : ℕ
  pub condition : StockCondition

pub record StockTransfer : Type 0 where
  pub id : ℕ
  pub organization_id : ℕ
  pub product_id : ℕ
  pub source_warehouse_id : ℕ
  pub destination_warehouse_id : ℕ
  pub performed_by_id : ℕ
  pub quantity : ℕ
  pub source_balance_after : ℕ
  pub destination_balance_after : ℕ
  pub reason : String
  pub reference : Option String
  pub idempotency_key : String
  pub request_fingerprint : String
  pub created_at : ℕ

pub record StockMovement : Type 0 where
  pub id : ℕ
  pub organization_id : ℕ
  pub product_id : ℕ
  pub warehouse_id : ℕ
  pub performed_by_id : ℕ
  pub transfer_id : Option ℕ
  pub sale_id : Option ℕ
  pub sale_return_id : Option ℕ
  pub stock_condition : StockCondition
  pub movement_type : MovementType
  pub quantity : ℕ
  pub balance_after : ℕ
  pub reason : String
  pub reference : Option String
  pub idempotency_key : String
  pub request_fingerprint : String
  pub created_at : ℕ

pub record Sale : Type 0 where
  pub id : ℕ
  pub organization_id : ℕ
  pub warehouse_id : ℕ
  pub sold_by_id : ℕ
  pub approved_by_id : Option ℕ
  pub subtotal : ℕ
  pub discount_total : ℕ
  pub total : ℕ
  pub cost_total : ℕ
  pub approval_reason : Option String
  pub idempotency_key : String
  pub request_fingerprint : String
  pub created_at : ℕ

pub record SaleLine : Type 0 where
  pub sale_id : ℕ
  pub product_id : ℕ
  pub organization_id : ℕ
  pub quantity : ℕ
  pub product_sku : String
  pub product_name : String
  pub list_unit_price : ℕ
  pub unit_price : ℕ
  pub unit_cost : ℕ
  pub line_total : ℕ

pub record SaleReturn : Type 0 where
  pub id : ℕ
  pub organization_id : ℕ
  pub sale_id : ℕ
  pub processed_by_id : ℕ
  pub kind : ReturnKind
  pub refund_resolution : RefundResolution
  pub return_value : ℕ
  pub refunded_amount : ℕ
  pub reason : String
  pub idempotency_key : String
  pub request_fingerprint : String
  pub created_at : ℕ

pub record SaleReturnLine : Type 0 where
  pub sale_return_id : ℕ
  pub product_id : ℕ
  pub organization_id : ℕ
  pub sale_id : ℕ
  pub quantity : ℕ
  pub disposition : ReturnDisposition
  pub return_value : ℕ
