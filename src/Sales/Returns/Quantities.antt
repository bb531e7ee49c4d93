-- ===== src/Sales/Returns/Quantities.antt =====
-- The quantities of a sale that are sold, being returned and returned before
-- (app/modules/sales/returns_service.py), and how a return changes them.
use dpg_business_app_starter.Base.{
  ℕ, ◌+◌, ◌≡◌, ◌≤◌, refl, some, Bool, true, false, ◌&&◌, List, [], ◌∷◌, map, arith, Option-cases,
  Bool-cases, inl, inr, ap, ◌∙◌, any, find, ◌==◌, if◌then◌else◌, sum_by, sum_by-reverse, All, ap₂,
}
use dpg_business_app_starter.Database.{
  Db, ok, Environment, Call, SaleLine, SaleReturn, SaleReturnLine,
}
use dpg_business_app_starter.Database.Laws.{Result-cases}
use dpg_business_app_starter.Sales.Returns.{
  ReturnLineCommand, ProcessSaleReturnCommand, SaleReturnResult, lines_of_sale, of_sale,
  returned_quantity, value_lines, void_lines, unique_products, return_row, return_line_row,
}
use dpg_business_app_starter.Sales.Returns.Safety.{Returned}

-- The sum over the lines of a product.
abbrev pub adjusted : ℕ → List ReturnLineCommand → ℕ
adjusted product = sum_by (λ l. if l.product_id == product then l.quantity else 0)

abbrev pub sold_in : ℕ → List SaleLine → ℕ
sold_in product = sum_by (λ l. if l.product_id == product then l.quantity else 0)

sold_in-find :
    (product : ℕ) (ls : List SaleLine) (s : SaleLine)
    → find (λ l. l.product_id == product) ls ≡ some s
    → s.quantity ≤ sold_in product ls
sold_in-find product [] s h = cc
sold_in-find product (l ∷ ls) s h = ground (arith, sold_in-find product ls s)

adjusted_absent :
    (product : ℕ) (ls : List ReturnLineCommand)
    → any (λ o. o.product_id == product) ls ≡ false
    → adjusted product ls ≡ 0
adjusted_absent product [] h = refl
adjusted_absent product (l ∷ ls) h = ground (arith, adjusted_absent product ls)

-- Lines of different products that pass the check of the quantities fit what is left.
pub value_lines-fits :
    (returned : ℕ → ℕ) (sold : List SaleLine) (ls : List ReturnLineCommand) (value product : ℕ)
    → returned product ≤ sold_in product sold
    → unique_products ls ≡ true
    → value_lines returned sold ls ≡ ok value
    → adjusted product ls + returned product ≤ sold_in product sold
unfolding value_lines unique_products
value_lines-fits returned sold [] value product b u h = omega arith
value_lines-fits returned sold (l ∷ ls) value product b u h =
    elim (Option-cases (find (λ s. s.product_id == l.product_id) sold)) [
      | inl none_e ↦ absurd (ground arith)
      | inr (s, s_e) ↦ elim (Result-cases (value_lines returned sold ls)) [
        | inr (e, f) ↦ absurd (ground arith)
        | inl (rest, f) ↦ elim (Bool-cases (l.product_id == product)) [
          | inl same ↦
              let same_product : l.product_id ≡ product = ground arith in
              ground (
                arith,
                sold_in-find l.product_id sold s s_e,
                adjusted_absent l.product_id ls,
                ap returned same_product,
                ap (λ (p : ℕ). sold_in p sold) same_product,
                ap (λ (p : ℕ). adjusted p ls) same_product,
              )
          | inr other ↦ ground (arith, value_lines-fits returned sold ls rest product b)
        ]
      ]
    ]

pub void_lines-adjusted :
    (product : ℕ) (ls : List SaleLine) → adjusted product (void_lines ls) ≡ sold_in product ls
void_lines-adjusted product [] = refl
void_lines-adjusted product (l ∷ ls) = ground (arith, void_lines-adjusted product ls)

-- Without an adjustment nothing has been returned.
pub unadjusted-returned :
    (organization sale product : ℕ) (rs : List SaleReturn) (ls : List SaleReturnLine)
    → any (of_sale organization sale) rs ≡ false
    → sum_by
        (λ l.
          if l.product_id == product
            && any
                (λ r.
                  r.organization_id == l.organization_id
                  && r.id == l.sale_return_id
                  && of_sale organization sale r)
                rs
          then l.quantity
          else 0)
        ls
      ≡ 0
unadjusted-returned organization sale product rs [] h = refl
unadjusted-returned organization sale product rs (l ∷ ls) h =
    ground (arith, unadjusted-returned organization sale product rs ls h, no_match rs h)
  where
    no_match :
        (rs : List SaleReturn)
        → any (of_sale organization sale) rs ≡ false
        → any
            (λ r.
              r.organization_id == l.organization_id
              && r.id == l.sale_return_id
              && of_sale organization sale r)
            rs
          ≡ false
    no_match [] h = refl
    no_match (r ∷ rs) h = ground (arith, no_match rs)

-- A return line counts for a sale if one of the returns `rs` is its header.
abbrev pub counts : ℕ → ℕ → List SaleReturn → SaleReturnLine → Bool
counts organization sale rs l =
    any
      (λ r.
        r.organization_id == l.organization_id
        && r.id == l.sale_return_id
        && of_sale organization sale r)
      rs

-- No line of a return that is still to be written is there yet: a fresh UUID.
abbrev pub IsFreshId : ℕ → Db → Type 0
IsFreshId id db = All (λ l. (l.sale_return_id == id) ≡ false) db.sale_return_lines

module _ (organization sale product : ℕ) where
  -- What a row counts for, under the returns `rs`.
  abbrev counted : List SaleReturn → SaleReturnLine → ℕ
  counted rs l = if l.product_id == product && counts organization sale rs l then l.quantity else 0

  -- A new return does not change what the older lines count for.
  counted_old :
      (row : SaleReturn) (rs : List SaleReturn) (ls : List SaleReturnLine)
      → All (λ l. (l.sale_return_id == row.id) ≡ false) ls
      → sum_by (counted (row ∷ rs)) ls ≡ sum_by (counted rs) ls
  counted_old row rs [] h = refl
  counted_old row rs (l ∷ ls) h = ground (arith, counted_old row rs ls h.1, h.0)

  no_header :
      (id organization' : ℕ) (rs : List SaleReturn)
      → any (λ o. o.id == id) rs ≡ false
      → any
          (λ r. r.organization_id == organization' && r.id == id && of_sale organization sale r)
          rs
        ≡ false
  no_header id organization' [] h = refl
  no_header id organization' (r ∷ rs) h = ground (arith, no_header id organization' rs)

  module _ (env : Environment) (call : Call) (c : ProcessSaleReturnCommand) where
    -- The lines of the new return count for its sale alone.
    counted_new :
        (value : ℕ) (rs : List SaleReturn) (sold : List SaleLine) (ls : List ReturnLineCommand)
        → any (λ o. o.id == call.uuid4 0) rs ≡ false
        → sum_by
            (counted (return_row env call c value ∷ rs))
            (map (return_line_row env call c sold) ls)
          ≡ (if c.organization_id == organization && c.sale_id == sale
              then adjusted product ls
              else 0)
    counted_new value rs sold [] h = ground arith
    counted_new value rs sold (l ∷ ls) h =
        ground
          (arith, counted_new value rs sold ls h, no_header (call.uuid4 0) c.organization_id rs h)

    -- What has been returned after a new return.
    pub quantity_after_return :
        (db : Db) (r : SaleReturnResult) (db' : Db)
        → IsFreshId (call.uuid4 0) db
        → (w : Returned env call c db r db')
        → returned_quantity organization sale product db'
          ≡ (if c.organization_id == organization && c.sale_id == sale
              then adjusted product w.lines
              else 0)
            + returned_quantity organization sale product db
    unfolding returned_quantity
    quantity_after_return db r db' fresh w =
        let rows =
          map (return_line_row env call c (lines_of_sale c.organization_id c.sale_id db)) w.lines in
        let row = return_row env call c w.value in
        ap₂ (λ rs ls. sum_by (counted rs) ls) w.sale_returns w.sale_return_lines
        ∙ sum_by-reverse (counted (row ∷ db.sale_returns)) rows db.sale_return_lines
        ∙ ap₂ (λ (a b : ℕ). a + b)
            (counted_new w.value db.sale_returns (lines_of_sale c.organization_id c.sale_id db)
              w.lines w.fresh)
            (counted_old row db.sale_returns db.sale_return_lines fresh)
