-- ===== src/Sales/Returns/Lines.antt =====
-- The command and the lines of `process_sale_return` (app/modules/sales/returns_service.py): its
-- tests, the lines that it returns, their value, and the inserts.
use dpg_business_app_starter.Base.{
  ℕ, ◌+◌, ◌*◌, String, Option, none, some, Bool, true, false, not, ◌&&◌, ◌==◌, List, [], ◌∷◌,
  str_eq, ltb, leb, find, any, keep, length, map, sum_by, sort_by, is_blank, if◌then◌else◌,
}
use dpg_business_app_starter.Database.{
  Db, Tx, Result, ok, err, SaleLine, SaleReturn, SaleReturnLine, ReturnKind, return, void,
  ReturnDisposition, restock, damage, RefundResolution, refunded_now, no_refund, StockCondition,
  available, damaged, numeric_limit, numeric_overflow, text_data_error, holds_key, holds_text,
  sale_already_adjusted, return_quantity_exceeded, integrity_error, is_member,
  uq_sale_returns_organization_idempotency_key, fk_sale_returns_processor_membership,
  sale_returns_pkey, ck_sale_return_lines_positive_quantity, gets, modify, raise_if, ◌>>=◌, ◌>>◌,
}

pub record ReturnLineCommand : Type 0 where
  pub product_id : ℕ
  pub quantity : ℕ
  pub disposition : ReturnDisposition

pub record ProcessSaleReturnCommand : Type 0 where
  pub organization_id : ℕ
  pub sale_id : ℕ
  pub processed_by_id : ℕ
  pub kind : ReturnKind
  pub refund_resolution : RefundResolution
  pub reason : String
  pub idempotency_key : String
  pub lines : List ReturnLineCommand

pub record SaleReturnResult : Type 0 where
  pub sale_return_id : ℕ
  pub sale_id : ℕ
  pub kind : ReturnKind
  pub refund_resolution : RefundResolution
  pub return_value : ℕ
  pub refunded_amount : ℕ
  pub replayed : Bool

abbrev pub is_void : ReturnKind → Bool
is_void return = false
is_void void = true

-- `len({line.product_id for line in lines}) == len(lines)`
unfoldable pub unique_products : List ReturnLineCommand → Bool
unique_products [] = true
unique_products (l ∷ ls) = not (any (λ o. o.product_id == l.product_id) ls) && unique_products ls

abbrev pub has_return_key : ℕ → String → SaleReturn → Bool
has_return_key organization key r =
    r.organization_id == organization && str_eq r.idempotency_key key

abbrev pub of_sale : ℕ → ℕ → SaleReturn → Bool
of_sale organization sale r = r.organization_id == organization && r.sale_id == sale

-- The lines of the sale.
abbrev pub lines_of_sale : ℕ → ℕ → Db → List SaleLine
lines_of_sale organization sale db =
    keep (λ l. l.organization_id == organization && l.sale_id == sale) db.sale_lines

-- The sum over the lines of earlier returns of the sale, joined with their returns.
unfoldable pub returned_quantity : ℕ → ℕ → ℕ → Db → ℕ
returned_quantity organization sale product db =
    sum_by
      (λ l.
        if l.product_id == product
          && any
              (λ r.
                r.organization_id == l.organization_id
                && r.id == l.sale_return_id
                && of_sale organization sale r)
              db.sale_returns
        then l.quantity
        else 0)
      db.sale_return_lines

abbrev sold_line : ℕ → List SaleLine → Option SaleLine
sold_line product lines = find (λ l. l.product_id == product) lines

-- The loop that checks the quantities and sums the value.
unfoldable pub value_lines : (ℕ → ℕ) → List SaleLine → List ReturnLineCommand → Result ℕ
value_lines returned sold [] = ok 0
value_lines returned sold (l ∷ ls) =
    let rest = value_lines returned sold ls in
    elim (sold_line l.product_id sold) [
      | none ↦ err (return_quantity_exceeded l.product_id)
      | some s ↦
          if ltb s.quantity (l.quantity + returned l.product_id)
          then err (return_quantity_exceeded l.product_id)
          else elim rest [ err e ↦ err e | ok value ↦ ok (s.unit_price * l.quantity + value) ]
    ]

abbrev pub condition_of : ReturnDisposition → StockCondition
condition_of restock = available
condition_of damage = damaged

-- The lines of a void: all that was sold, put back.
abbrev pub void_lines : List SaleLine → List ReturnLineCommand
void_lines =
    map (λ l. record { product_id = l.product_id; quantity = l.quantity; disposition = restock })

-- The lines that are returned, if the sale may be adjusted so.
unfoldable pub effective_lines : ProcessSaleReturnCommand → Db → Result (List ReturnLineCommand)
effective_lines c db = elim c.kind [
  | void ↦
      if any (of_sale c.organization_id c.sale_id) db.sale_returns
      then err sale_already_adjusted
      else ok
          (void_lines (sort_by (λ l. l.product_id) (lines_of_sale c.organization_id c.sale_id db)))
  | return ↦
      if any (λ r. of_sale c.organization_id c.sale_id r && is_void r.kind) db.sale_returns
      then err sale_already_adjusted
      else ok c.lines
]

-- The insert of a return, with what can refuse it.
unfoldable pub insert_return : SaleReturn → Tx (Unit {0})
insert_return r = do
  raise_if (not (ltb r.return_value numeric_limit && ltb r.refunded_amount numeric_limit))
      numeric_overflow
  raise_if (not (holds_key r.idempotency_key && holds_text 240 r.reason)) text_data_error
  known ← gets (λ db. any (λ o. o.id == r.id) db.sale_returns)
  raise_if known (integrity_error sale_returns_pkey)
  taken ← gets (λ db. any (has_return_key r.organization_id r.idempotency_key) db.sale_returns)
  raise_if taken (integrity_error uq_sale_returns_organization_idempotency_key)
  member ← gets (is_member r.organization_id r.processed_by_id)
  raise_if (not member) (integrity_error fk_sale_returns_processor_membership)
  modify (λ db. record db { sale_returns = r ∷ db.sale_returns })

unfoldable pub insert_return_line : SaleReturnLine → Tx (Unit {0})
insert_return_line l = do
  raise_if (not (ltb l.return_value numeric_limit)) numeric_overflow
  raise_if (l.quantity == 0) (integrity_error ck_sale_return_lines_positive_quantity)
  modify (λ db. record db { sale_return_lines = l ∷ db.sale_return_lines })

-- The price of a product on the sale; every line that is posted has been found before.
abbrev pub price_of : ℕ → List SaleLine → ℕ
price_of product lines = elim (sold_line product lines) [ none ↦ 0 | some s ↦ s.unit_price ]

abbrev pub refunded : RefundResolution → ℕ → ℕ
refunded refunded_now value = value
refunded no_refund value = 0

-- The tests of the command before the transaction.
unfoldable pub is_valid : ProcessSaleReturnCommand → Bool
is_valid c = not (is_blank c.reason) && (elim c.kind [
  | void ↦ true
  | return ↦
      not (length c.lines == 0)
      && unique_products c.lines
      && not (any (λ l. leb l.quantity 0) c.lines)
])
