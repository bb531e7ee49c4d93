-- ===== src/Database/Pages.antt =====
-- The lists that the queries of app/modules/*/use_cases.py return in pages: the rows in the order of
-- their creation, after the row that the cursor names.
pub mod Order
pub mod Walk
pub mod Complete
use dpg_business_app_starter.Base.{
  ℕ, suc, Bool, true, false, ◌&&◌, ◌||◌, ◌==◌, ltb, Option, none, some, List, [], ◌∷◌, map, find,
  keep, length, take, last, if◌then◌else◌,
}
use dpg_business_app_starter.Database.Errors.{Error, Result, ok, err, index_error}

pub record Page {ℓ} (B : Type ℓ) : Type ℓ where
  pub items : List B
  pub next_cursor : Option ℕ

-- `order_by(created_at.desc(), id.desc())` and `order_by(created_at, id)`: whether a row is listed
-- before another.
abbrev pub newest_first {ℓ} : {A : Type ℓ} → (A → ℕ) → (A → ℕ) → A → A → Bool
newest_first created id x y =
    ltb (created y) (created x) || (created y == created x && ltb (id y) (id x))

abbrev pub oldest_first {ℓ} : {A : Type ℓ} → (A → ℕ) → (A → ℕ) → A → A → Bool
oldest_first created id x y =
    ltb (created x) (created y) || (created x == created y && ltb (id x) (id y))

module _ {ℓ} {A : Type ℓ} (id : A → ℕ) (before : A → A → Bool) where
  -- `order_by`, row by row.
  unfoldable pub insert_row : A → List A → List A
  insert_row x [] = x ∷ []
  insert_row x (y ∷ ys) = elim (before y x) [ true ↦ y ∷ insert_row x ys | false ↦ x ∷ y ∷ ys ]

  unfoldable pub ordered : List A → List A
  unfolding insert_row
  ordered [] = []
  ordered (x ∷ xs) = insert_row x (ordered xs)

  module _ {κ} {B : Type κ} (item : A → B) where
    -- The page of the rows that the query returns, at most one of them too many.
    unfoldable pub page_of : ℕ → List A → Result (Page B)
    unfolding take last
    page_of limit rows =
        if ltb limit (length rows)
        then elim (last (take limit rows)) [
          | none ↦ err index_error
          | some row ↦
              ok (record { items = map item (take limit rows); next_cursor = some (id row) })
        ]
        else ok (record { items = map item (take limit rows); next_cursor = none })

    -- `filtered` are the filters in front of the cursor, `joined` what the joins of the query keep.
    unfoldable pub fetch :
        (filtered joined : A → Bool) → Error → ℕ → Option ℕ → List A → Result (Page B)
    fetch filtered joined bad_cursor limit none rows =
        page_of limit (take (suc limit) (ordered (keep (λ x. filtered x && joined x) rows)))
    fetch filtered joined bad_cursor limit (some cursor) rows =
        elim (find (λ x. filtered x && id x == cursor) rows) [
          | none ↦ err bad_cursor
          | some row ↦
              page_of limit (
                take (suc limit)
                  (ordered (keep (λ x. filtered x && before row x && joined x) rows)))
        ]
