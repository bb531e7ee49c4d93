-- ===== src/Http/Sales.antt =====
-- The routes that write of app/modules/sales/router.py, with the requests that
-- app/modules/sales/schemas.py lets through.
pub mod Answers
pub mod Refusals
pub mod Validation
use dpg_business_app_starter.Base.{
  ℕ, String, Bool, true, false, not, ◌&&◌, ◌||◌, ◌==◌, ltb, leb, Option, none, some, List, [], ◌∷◌,
  all, length, text_length, strip, str_eq, if◌then◌else◌,
}
use dpg_business_app_starter.Database.{
  Db, Result, ok, err, Error, Environment, Call, RefundResolution, numeric_limit, value_error,
  sale_context_not_found, inactive_sale_context, sale_price_below_cost, sale_price_above_list,
  discount_reason_required, discount_approval_required, invalid_approval_pin, approval_pin_locked,
  sale_insufficient_stock, sale_idempotency_conflict, return_sale_not_found,
  return_quantity_exceeded, sale_already_adjusted, return_idempotency_conflict,
}
use dpg_business_app_starter.Authorization.{CurrentMembership, get_current_membership}
use dpg_business_app_starter.Sales.Commands.{SaleLineCommand, SaleApproval, SaleResult}
use dpg_business_app_starter.Sales.Commands
use dpg_business_app_starter.Sales.Returns.{ReturnLineCommand, SaleReturnResult}
use dpg_business_app_starter.Sales.Returns
use dpg_business_app_starter.Sales.UseCases.{
  SubmitSaleCommand, SubmitSaleReturnCommand, submit_sale, submit_sale_return, void_sale,
  update_sales_policy, set_approval_pin,
}
use dpg_business_app_starter.Http.{
  Response, reply, failure, unhandled, application_handler, validation_error, fits,
}

-- The lines and the approval of a request have the fields of those of a command.
pub record CreateSaleRequest : Type 0 where
  pub warehouse_id : ℕ
  pub lines : List SaleLineCommand
  pub discount_reason : Option String
  pub approval : Option SaleApproval

pub record CreateSaleReturnRequest : Type 0 where
  pub lines : List ReturnLineCommand
  pub refund_resolution : RefundResolution
  pub reason : String

pub record VoidSaleRequest : Type 0 where
  pub refund_resolution : RefundResolution
  pub reason : String

-- The greatest discount rate, in units of the four digits after the point.
abbrev pub whole_rate : ℕ
whole_rate = 10000

abbrev pub is_quantity : ℕ → Bool
is_quantity quantity = ltb 0 quantity && ltb quantity numeric_limit

abbrev pub is_price : Option ℕ → Bool
is_price none = true
is_price (some price) = ltb price numeric_limit

-- `normalize_reason` of a sale: a blank reason is none.
abbrev pub optional_reason : Option String → Option String
optional_reason none = none
optional_reason (some reason) = if str_eq (strip reason) "" then none else some (strip reason)

-- A reason that is bounded and not blank, for a return or a void.
unfoldable pub is_reason : String → Bool
unfolding text_length strip
is_reason reason =
    ltb 0 (text_length reason) && leb (text_length reason) 240 && not (str_eq (strip reason) "")

abbrev pub sale_error : Error → Response SaleResult
sale_error sale_context_not_found = failure 404 "SALE_CONTEXT_NOT_FOUND"
sale_error inactive_sale_context = failure 409 "SALE_CONTEXT_INACTIVE"
sale_error sale_price_below_cost = failure 409 "SALE_PRICE_BELOW_COST"
sale_error sale_price_above_list = failure 409 "SALE_PRICE_ABOVE_LIST"
sale_error discount_reason_required = failure 409 "DISCOUNT_REASON_REQUIRED"
sale_error discount_approval_required = failure 409 "DISCOUNT_APPROVAL_REQUIRED"
sale_error invalid_approval_pin = failure 403 "INVALID_APPROVAL_PIN"
sale_error approval_pin_locked = failure 423 "APPROVAL_PIN_LOCKED"
sale_error (sale_insufficient_stock product) = failure 409 "INSUFFICIENT_STOCK"
sale_error sale_idempotency_conflict = failure 409 "IDEMPOTENCY_KEY_REUSED"
sale_error e = application_handler e

abbrev pub return_error : Error → Response SaleReturnResult
return_error return_sale_not_found = failure 404 "SALE_NOT_FOUND"
return_error (return_quantity_exceeded product) = failure 409 "RETURN_QUANTITY_EXCEEDED"
return_error sale_already_adjusted = failure 409 "SALE_ALREADY_ADJUSTED"
return_error return_idempotency_conflict = failure 409 "IDEMPOTENCY_KEY_REUSED"
return_error e = application_handler e

-- 201 for a new result, 200 for a replayed one.
abbrev pub sale_response : Result SaleResult × Db → Response SaleResult × Db
sale_response (ok r, db) = (reply (if r.replayed then 200 else 201) r, db)
sale_response (err e, db) = (sale_error e, db)

abbrev pub return_response : Result SaleReturnResult × Db → Response SaleReturnResult × Db
return_response (ok r, db) = (reply (if r.replayed then 200 else 201) r, db)
return_response (err e, db) = (return_error e, db)

-- The response with the policy refuses a rate that is `None`.
abbrev pub policy_response : Result (Option ℕ) × Db → Response ℕ × Db
policy_response (ok none, db) = (unhandled value_error, db)
policy_response (ok (some rate), db) = (reply 200 rate, db)
policy_response (err e, db) = (application_handler e, db)

abbrev pub pin_response : Result (Unit {0}) × Db → Response Bool × Db
pin_response (ok _, db) = (reply 200 true, db)
pin_response (err e, db) = (application_handler e, db)

-- `is_pin` is the pattern of a PIN, six digits, which the validation library reads.
module _ (is_pin : String → Bool) where
  abbrev pub is_approval : Option SaleApproval → Bool
  is_approval none = true
  is_approval (some approval) = text_length approval.pin == 6 && is_pin approval.pin

  unfoldable pub is_sale_request : CreateSaleRequest → (idempotency_key : String) → Bool
  unfolding text_length fits dpg_business_app_starter.Sales.Commands.unique_products
  is_sale_request payload idempotency_key =
      leb 1 (length payload.lines)
      && leb (length payload.lines) 100
      && all (λ l. is_quantity l.quantity && is_price l.unit_price) payload.lines
      && fits 240 payload.discount_reason
      && is_approval payload.approval
      && dpg_business_app_starter.Sales.Commands.unique_products payload.lines
      && ltb 0 (text_length idempotency_key)

unfoldable pub is_return_request : CreateSaleReturnRequest → (idempotency_key : String) → Bool
unfolding text_length is_reason dpg_business_app_starter.Sales.Returns.unique_products
is_return_request payload idempotency_key =
    leb 1 (length payload.lines)
    && leb (length payload.lines) 100
    && all (λ l. is_quantity l.quantity) payload.lines
    && is_reason payload.reason
    && dpg_business_app_starter.Sales.Returns.unique_products payload.lines
    && ltb 0 (text_length idempotency_key)

abbrev pub submitted_sale : (organization_id : ℕ) → CreateSaleRequest → String → SubmitSaleCommand
submitted_sale organization_id payload idempotency_key = record {
  organization_id = organization_id;
  warehouse_id = payload.warehouse_id;
  lines = payload.lines;
  discount_reason = optional_reason payload.discount_reason;
  approval = payload.approval;
  idempotency_key = idempotency_key;
}

abbrev pub submitted_return : ℕ → CreateSaleReturnRequest → String → SubmitSaleReturnCommand
submitted_return sale_id payload idempotency_key = record {
  sale_id = sale_id;
  lines = payload.lines;
  refund_resolution = payload.refund_resolution;
  reason = strip payload.reason;
  idempotency_key = idempotency_key;
}

-- The dependencies come first: the membership of the current user in the organization of the
-- path, then the validated request.
unfoldable pub as_member :
    {A : Type 0}
    → (organization_id user : ℕ) → Bool
    → (CurrentMembership → Db → Response A × Db)
    → Db
    → Response A × Db
unfolding get_current_membership application_handler
as_member organization_id user valid route db =
    elim (get_current_membership organization_id user db) [
      | err e ↦ (application_handler e, db)
      | ok m ↦ if valid then route m db else (validation_error, db)
    ]

module _ (env : Environment) (call : Call) (is_pin : String → Bool) (user organization_id : ℕ) where
  unfoldable pub create_sale_endpoint :
      CreateSaleRequest → (idempotency_key : String) → Db → Response SaleResult × Db
  unfolding as_member is_sale_request
  create_sale_endpoint payload idempotency_key =
      as_member organization_id user (is_sale_request is_pin payload idempotency_key) (λ m db.
        sale_response
          (submit_sale env call m (submitted_sale organization_id payload idempotency_key) db))

  unfoldable pub create_sale_return_endpoint :
      (sale_id : ℕ)
      → CreateSaleReturnRequest
      → (idempotency_key : String) → Db
      → Response SaleReturnResult × Db
  unfolding as_member is_return_request
  create_sale_return_endpoint sale_id payload idempotency_key =
      as_member organization_id user (is_return_request payload idempotency_key) (λ m db.
        return_response
          (submit_sale_return env call m (submitted_return sale_id payload idempotency_key) db))

  unfoldable pub void_sale_endpoint :
      (sale_id : ℕ)
      → VoidSaleRequest
      → (idempotency_key : String) → Db
      → Response SaleReturnResult × Db
  unfolding as_member is_reason text_length strip
  void_sale_endpoint sale_id payload idempotency_key =
      as_member organization_id user
        (is_reason payload.reason && ltb 0 (text_length idempotency_key))
        (λ m db. return_response (
          void_sale env call m sale_id payload.refund_resolution (strip payload.reason)
            idempotency_key db))

  unfoldable pub update_sales_policy_endpoint : (rate : ℕ) → Db → Response ℕ × Db
  unfolding as_member
  update_sales_policy_endpoint rate =
      as_member organization_id user (leb rate whole_rate)
        (λ m db. policy_response (update_sales_policy env call m rate db))

  unfoldable pub set_approval_pin_endpoint : (pin : String) → Db → Response Bool × Db
  unfolding as_member text_length
  set_approval_pin_endpoint pin =
      as_member organization_id user (text_length pin == 6 && is_pin pin)
        (λ m db. pin_response (set_approval_pin env call m pin db))
