-- ===== src/Http/Sales/Validation.antt =====
-- What the requests of app/modules/sales/schemas.py are let through with, against what the services
-- check again.
use dpg_business_app_starter.Base.{
  ℕ, ◌≡◌, refl, arith, ap, String, Bool, true, false, ◌&&◌, leb, List, [], ◌∷◌, all, any,
  Bool-cases, inl, inr, is_blank, strip, str_eq, blank_strip,
}
use dpg_business_app_starter.Authorization.{CurrentMembership}
use dpg_business_app_starter.Sales.Commands.{SaleLineCommand}
use dpg_business_app_starter.Sales.Commands
use dpg_business_app_starter.Sales.Checkout.{has_lines}
use dpg_business_app_starter.Sales.Returns.{ReturnLineCommand, is_valid}
use dpg_business_app_starter.Sales.UseCases.{sale_command, return_command, void_command}
use dpg_business_app_starter.Http.Sales.{
  CreateSaleRequest, CreateSaleReturnRequest, VoidSaleRequest, is_quantity, is_reason,
  is_sale_request, is_return_request, submitted_sale, submitted_return,
}

reason_strip : (reason : String) → is_reason reason ≡ true → is_blank (strip reason) ≡ false
unfolding is_reason
reason_strip reason h = elim (Bool-cases (is_blank (strip reason))) [
  | inr e ↦ e
  | inl e ↦
      let empty = ap (λ (s : String). str_eq s "") (blank_strip reason e) in
      absurd (ground (arith, empty))
]

positive_lines :
    (lines : List ReturnLineCommand)
    → all (λ l. is_quantity l.quantity) lines ≡ true
    → any (λ l. leb l.quantity 0) lines ≡ false
positive_lines [] h = refl
positive_lines (l ∷ lines) h = ground (arith, positive_lines lines)

-- A request for a sale, a return or a void that the schemas let through passes the checks that the
-- service makes of its command, so that none of them is answered with the service's ValueError for
-- its lines or its reason.
pub services_accept_valid_requests :
    (is_pin : String → Bool) (m : CurrentMembership) (organization_id sale_id : ℕ) (key : String)
    (sale : CreateSaleRequest) (returned : CreateSaleReturnRequest) (voided : VoidSaleRequest)
    → is_sale_request is_pin sale key ≡ true
    → is_return_request returned key ≡ true
    → is_reason voided.reason ≡ true
    → ((has_lines (sale_command m (submitted_sale organization_id sale key))
          && dpg_business_app_starter.Sales.Commands.unique_products
              (sale_command m (submitted_sale organization_id sale key)).lines)
        ≡ true)
      × (is_valid (return_command m (submitted_return sale_id returned key)) ≡ true)
      × (is_valid (void_command m sale_id voided.refund_resolution (strip voided.reason) key)
          ≡ true)
unfolding is_sale_request is_return_request is_valid
services_accept_valid_requests is_pin m organization_id sale_id key sale returned voided hs hr hv =
    let kept = reason_strip returned.reason in
    let positive = positive_lines returned.lines in
    let kept_void = reason_strip voided.reason hv in
    (ground arith, ground (arith, kept, positive), ground (arith, kept_void))
