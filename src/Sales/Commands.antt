-- ===== src/Sales/Commands.antt =====
-- The commands and the results of app/modules/sales/service.py, and the replay of a sale. The
-- money of a `SaleResult` is in units of 10^-12, since it is a sum of products of two amounts in
-- millionths; the columns of `sales` hold it in millionths.
use dpg_business_app_starter.Base.{
  ℕ, ◌*◌, ◌^◌, String, Option, none, some, Bool, true, List, [], ◌∷◌, ◌==◌, ◌&&◌, str_eq, find, map,
  not, any, sort_by, if◌then◌else◌,
}
use dpg_business_app_starter.Database.{
  Db, Result, ok, err, Error, Environment, SaleLinePayload, sale_payload, Sale,
  sale_idempotency_conflict,
}

pub record SaleLineCommand : Type 0 where
  pub product_id : ℕ
  pub quantity : ℕ
  pub unit_price : Option ℕ

pub record SaleApproval : Type 0 where
  pub approver_user_id : ℕ
  pub pin : String

pub record CreateSaleCommand : Type 0 where
  pub organization_id : ℕ
  pub warehouse_id : ℕ
  pub sold_by_id : ℕ
  pub seller_role : String
  pub lines : List SaleLineCommand
  pub discount_reason : Option String
  pub approval : Option SaleApproval
  pub idempotency_key : String

pub record SaleResult : Type 0 where
  pub sale_id : ℕ
  pub subtotal : ℕ
  pub discount_total : ℕ
  pub total : ℕ
  pub cost_total : ℕ
  pub approved_by_id : Option ℕ
  pub replayed : Bool

-- The committed end of the transaction: a sale, or the refusal of a PIN, which is raised after the
-- commit.
pub data SaleOutcome : Type 0 where
  completed : SaleResult → SaleOutcome
  refused : Error → SaleOutcome

-- `len({line.product_id for line in lines}) == len(lines)`
unfoldable pub unique_products : List SaleLineCommand → Bool
unique_products [] = true
unique_products (l ∷ ls) = not (any (λ o. o.product_id == l.product_id) ls) && unique_products ls

abbrev line_payload : SaleLineCommand → SaleLinePayload
line_payload l = record {
  product_id = l.product_id;
  quantity = l.quantity;
  unit_price = l.unit_price;
}

abbrev pub has_sale_key : ℕ → String → Sale → Bool
has_sale_key organization key s = s.organization_id == organization && str_eq s.idempotency_key key

abbrev approver_of : Option SaleApproval → Option ℕ
approver_of none = none
approver_of (some a) = some a.approver_user_id

-- An amount in millionths, in the units of a result.
abbrev pub exact : ℕ → ℕ
exact amount = amount * 10 ^ 6

module _ (env : Environment) where
  unfoldable pub sale_fingerprint : CreateSaleCommand → String
  unfolding sort_by
  sale_fingerprint c = env.sha256 (
      sale_payload c.organization_id c.warehouse_id c.sold_by_id
        (sort_by (λ l. l.product_id) (map line_payload c.lines)) c.discount_reason
        (approver_of c.approval))

  unfoldable pub sale_replay : CreateSaleCommand → Db → Result (Option SaleOutcome)
  sale_replay c db = elim (find (has_sale_key c.organization_id c.idempotency_key) db.sales) [
    | none ↦ ok none
    | some s ↦
        if str_eq s.request_fingerprint (sale_fingerprint c)
        then ok (
            some (
              completed (record {
                sale_id = s.id;
                subtotal = exact s.subtotal;
                discount_total = exact s.discount_total;
                total = exact s.total;
                cost_total = exact s.cost_total;
                approved_by_id = s.approved_by_id;
                replayed = true;
              })))
        else err sale_idempotency_conflict
  ]
