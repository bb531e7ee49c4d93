-- ===== src/Database/Pages/Complete.antt =====
-- What a list promises to a client that reads it to its end, whatever the rows stand like in their
-- table.
use dpg_business_app_starter.Base.{
  ℕ, suc, ◌<◌, ◌≡◌, refl, sym, subst, ap, ap₂, ◌∙◌, fun_ext, arith, Bool, true, false, ◌&&◌, Option,
  none, some, List, [], ◌∷◌, map, keep, length,
}
use dpg_business_app_starter.Database.Errors.{Error, Result}
use dpg_business_app_starter.Database.Pages.{Page, fetch, insert_row, ordered}
use dpg_business_app_starter.Database.Pages.Order.{
  IsListing, HasIds, IsOrdered, keep-HasIds, ordered-IsOrdered,
}
use dpg_business_app_starter.Database.Pages.Walk.{read_pages, read_pages-listing}
use mathlib.Core.List.{Perm}
use mathlib.Core.List.Perm

-- The rows were read, all of them, each once, and in order.
abbrev pub ReadsAll {ℓ κ} :
    {A : Type ℓ} {B : Type κ}
    → (A → ℕ)
    → (A → A → Bool)
    → (A → B)
    → Option (List B)
    → List A
    → Type (ℓ ⊔ κ)
ReadsAll {A = A} id before item read rows =
    (listed : List A) × (read ≡ some (map item listed))
    × IsOrdered id before listed
    × Perm listed rows

module _ {ℓ} {A : Type ℓ} (id : A → ℕ) (before : A → A → Bool) where
  length-insert_row : (x : A) (ys : List A) → length (insert_row id before x ys) ≡ suc (length ys)
  unfolding insert_row
  length-insert_row x [] = refl
  length-insert_row x (y ∷ ys) = ground (arith, length-insert_row x ys)

  length-ordered : (xs : List A) → length (ordered id before xs) ≡ length xs
  unfolding ordered
  length-ordered [] = refl
  length-ordered (x ∷ xs) =
      omega (arith, length-insert_row x (ordered id before xs), length-ordered xs)

  Perm-insert_row : (x : A) (ys : List A) → Perm (insert_row id before x ys) (x ∷ ys)
  unfolding insert_row
  Perm-insert_row x [] = Perm.refl _
  Perm-insert_row x (y ∷ ys) =
      elim (before y x)
        as (λ b.
          Perm (elim b [ true ↦ y ∷ insert_row id before x ys | false ↦ x ∷ y ∷ ys ])
            (x ∷ y ∷ ys)) [
              | true ↦ Perm.trans (Perm.cons y (Perm-insert_row x ys)) (Perm.swap x y ys)
              | false ↦ Perm.refl _
            ]

  pub Perm-ordered : (xs : List A) → Perm (ordered id before xs) xs
  unfolding ordered
  Perm-ordered [] = Perm.refl _
  Perm-ordered (x ∷ xs) =
      Perm.trans (Perm-insert_row x (ordered id before xs)) (Perm.cons x (Perm-ordered xs))

  pub keep_unjoined : (p : A → Bool) (xs : List A) → keep (λ x. p x && true) xs ≡ keep p xs
  keep_unjoined p [] = refl
  keep_unjoined p (x ∷ xs) = ground (arith, keep_unjoined p xs)

  module _ {κ} {B : Type κ} (item : A → B) where
    -- A query that fetches these pages is read completely, if the ids of the table are a key.
    pub reads_all :
        (filtered joined : A → Bool) (bad_cursor : Error) (limit : ℕ) (rows chosen : List A)
        (query : Option ℕ → Result (Page B))
        → IsListing id before
        → HasIds id rows
        → 0 < limit
        → keep (λ x. filtered x && joined x) rows ≡ chosen
        → ((cursor : Option ℕ)
            → query cursor ≡ fetch id before item filtered joined bad_cursor limit cursor rows)
        → ReadsAll id before item (read_pages (suc (length chosen)) query none) chosen
    reads_all filtered joined bad_cursor limit rows chosen query o unique pos e q =
        let all = ordered id before (keep (λ x. filtered x && joined x) rows) in
        let same_ids = keep-HasIds id (λ x. filtered x && joined x) rows unique in
        let count : length all ≡ length chosen =
          length-ordered (keep (λ x. filtered x && joined x) rows) ∙ ap length e in
        (
          all,
          ap₂ (λ (n : ℕ) (f : Option ℕ → Result (Page B)). read_pages (suc n) f none) (sym count)
                (fun_ext q)
              ∙ read_pages-listing id before item limit filtered joined bad_cursor rows o
                  (keep-HasIds id filtered rows unique) pos,
          ordered-IsOrdered id before o (keep (λ x. filtered x && joined x) rows) same_ids,
          subst (λ (l : List A). Perm all l) e
              (Perm-ordered (keep (λ x. filtered x && joined x) rows)),
        )
