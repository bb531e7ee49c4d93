-- ===== src/Database/Pages/Walk.antt =====
-- A client that follows the cursors, page by page.
use dpg_business_app_starter.Base.{
  ℕ, zero, suc, ◌<◌, ◌≤◌, ◌≡◌, refl, sym, subst, ap, ◌∙◌, arith, Bool, ◌&&◌, ltb, Option, none,
  some, List, [], ◌∷◌, ◌++◌, map, find, keep, length, take, drop, last, Bool-cases, inl, inr,
}
use dpg_business_app_starter.Database.Errors.{Error, Result, ok, err}
use dpg_business_app_starter.Database.Pages.{Page, page_of, fetch, ordered}
use dpg_business_app_starter.Database.Pages.Order.{
  IsListing, HasIds, has_id, IsOrdered, keep-HasIds, ordered-HasIds, find-ordered,
  ordered-IsOrdered, keep-ordered, keep_after, find_within, find_kept, find_unfiltered,
}
use mathlib.Core.List.{append_assoc, map-append}

-- What a client reads that asks for pages until there is no cursor, at most so many.
pub read_pages {ℓ} : {B : Type ℓ} → ℕ → (Option ℕ → Result (Page B)) → Option ℕ → Option (List B)
read_pages zero ask cursor = none
read_pages (suc fuel) ask cursor = elim (ask cursor) [
  | err e ↦ none
  | ok page ↦ elim page.next_cursor [
    | none ↦ some page.items
    | some next ↦ elim (read_pages fuel ask (some next)) [
      | none ↦ none
      | some more ↦ some (page.items ++ more)
    ]
  ]
]

module _ {ℓ} {A : Type ℓ} where
  take_all : (n : ℕ) (xs : List A) → length xs ≤ n → take n xs ≡ xs
  unfolding take
  take_all zero [] h = refl
  take_all zero (x ∷ xs) h = absurd (omega arith)
  take_all (suc n) [] h = refl
  take_all (suc n) (x ∷ xs) h = ap (◌∷◌ x) (take_all n xs (omega arith))

  take-take : (n : ℕ) (xs : List A) → take n (take (suc n) xs) ≡ take n xs
  unfolding take
  take-take zero [] = refl
  take-take zero (x ∷ xs) = refl
  take-take (suc n) [] = refl
  take-take (suc n) (x ∷ xs) = ap (◌∷◌ x) (take-take n xs)

  -- A list longer than a positive number: its start ends in a row, and the rest follows.
  split_at :
      (n : ℕ) (xs : List A)
      → n < length xs
      → 0 < n
      → (init : List A) × (row : A) × (take n xs ≡ init ++ row ∷ [])
        × (last (take n xs) ≡ some row)
        × (xs ≡ (init ++ row ∷ []) ++ drop n xs)
        × (length (drop n xs) < length xs)
        × (length (take (suc n) xs) ≡ suc n)
  unfolding take drop last
  split_at zero xs h p = absurd (omega arith)
  split_at (suc n) [] h p = absurd (omega arith)
  split_at (suc zero) (x ∷ []) h p = absurd (omega arith)
  split_at (suc zero) (x ∷ y ∷ ys) h p = ([], x, refl, refl, refl, omega arith, omega arith)
  split_at (suc (suc n)) (x ∷ xs) h p =
      let (init, row, t, l, e, d, k) = split_at (suc n) xs (omega arith) (omega arith) in
      (x ∷ init, row, ap (◌∷◌ x) t, ground arith, ap (◌∷◌ x) e, omega arith, omega arith)

  regroup_row :
      (front init : List A) (row : A) (rest : List A)
      → front ++ ((init ++ row ∷ []) ++ rest) ≡ (front ++ init) ++ row ∷ rest
  regroup_row front init row rest = simp append_assoc

  regroup_end :
      (front init : List A) (row : A) (rest : List A)
      → front ++ ((init ++ row ∷ []) ++ rest) ≡ ((front ++ init) ++ row ∷ []) ++ rest
  regroup_end front init row rest = simp append_assoc

  keep_and : (p q : A → Bool) (xs : List A) → keep (λ x. p x && q x) xs ≡ keep q (keep p xs)
  keep_and p q [] = refl
  keep_and p q (x ∷ xs) = ground (arith, keep_and p q xs)

  keep_past_cursor :
      (p q r : A → Bool) (xs : List A)
      → keep (λ x. p x && q x && r x) xs ≡ keep q (keep (λ x. p x && r x) xs)
  keep_past_cursor p q r [] = refl
  keep_past_cursor p q r (x ∷ xs) = ground (arith, keep_past_cursor p q r xs)

module _ {ℓ κ} {A : Type ℓ} {B : Type κ} (id : A → ℕ) (before : A → A → Bool) (item : A → B)
    (limit : ℕ) where
  -- The page of a list that fits, and of one that does not.
  last_page :
      (rest : List A)
      → length rest ≤ limit
      → page_of id before item limit (take (suc limit) rest)
        ≡ ok (record { items = map item rest; next_cursor = none })
  unfolding page_of
  last_page rest h =
      rw (take_all (suc limit) rest (omega arith), take_all limit rest h) (ground arith)

  full_page :
      (rest : List A) (row : A)
      → length (take (suc limit) rest) ≡ suc limit
      → last (take limit rest) ≡ some row
      → page_of id before item limit (take (suc limit) rest)
        ≡ ok (record { items = map item (take limit rest); next_cursor = some (id row) })
  unfolding page_of
  full_page rest row n l = ground (arith, take-take limit rest)

  module _ (filtered joined : A → Bool) (bad_cursor : Error) (rows : List A) where
    -- All rows that the query lists, in its order.
    abbrev listing : List A
    listing = ordered id before (keep (λ x. filtered x && joined x) rows)

    abbrev pub ask : Option ℕ → Result (Page B)
    ask cursor = fetch id before item filtered joined bad_cursor limit cursor rows

    module _ (o : IsListing id before) (unique : HasIds id (keep filtered rows)) where
      kept-HasIds : HasIds id (keep (λ x. filtered x && joined x) rows)
      kept-HasIds =
          subst (HasIds id) (sym (keep_and filtered joined rows))
            (keep-HasIds id joined (keep filtered rows) unique)

      -- The row of a cursor is found again, and the page continues behind it.
      ask_after :
          (front : List A) (row : A) (rest : List A)
          → listing ≡ front ++ row ∷ rest
          → ask (some (id row)) ≡ page_of id before item limit (take (suc limit) rest)
      unfolding fetch
      ask_after front row rest e =
          let chosen = keep (λ x. filtered x && joined x) rows in
          let ids : HasIds id (front ++ row ∷ rest) =
            subst (HasIds id) e (ordered-HasIds id before chosen kept-HasIds) in
          let order : IsOrdered id before (front ++ row ∷ rest) =
            subst (IsOrdered id before) e (ordered-IsOrdered id before o chosen kept-HasIds) in
          let in_chosen : find (has_id id (id row)) chosen ≡ some row =
            sym (find-ordered id before (id row) chosen kept-HasIds)
            ∙ ap (find (has_id id (id row))) e
            ∙ find_within id front row rest ids in
          let found : find (λ x. filtered x && has_id id (id row) x) rows ≡ some row =
            find_kept id filtered (id row) rows
            ∙ find_unfiltered id joined (id row) (keep filtered rows) row unique (
                ap (find (has_id id (id row))) (sym (keep_and filtered joined rows)) ∙ in_chosen) in
          let behind : ordered id before (keep (λ x. filtered x && before row x && joined x) rows)
              ≡ rest =
            ap (ordered id before) (keep_past_cursor filtered (before row) joined rows)
            ∙ sym (keep-ordered id before o (before row) chosen kept-HasIds)
            ∙ ap (keep (before row)) e
            ∙ keep_after id before o front row rest order in
          ground (
            arith,
            found,
            ap (λ (l : List A). page_of id before item limit (take (suc limit) l)) behind,
          )

      -- From any page on, enough requests read the rest of the listing.
      read_rest :
          (fuel : ℕ) (front rest : List A) (cursor : Option ℕ)
          → 0 < limit
          → length rest < fuel
          → listing ≡ front ++ rest
          → ask cursor ≡ page_of id before item limit (take (suc limit) rest)
          → read_pages fuel ask cursor ≡ some (map item rest)
      unfolding read_pages
      read_rest zero front rest cursor pos few e a = absurd (omega arith)
      read_rest (suc fuel) front rest cursor pos few e a =
          elim (Bool-cases (ltb limit (length rest))) [
            | inr fits ↦ ground (arith, a, last_page rest (ground arith))
            | inl more ↦
                let (init, row, t, l, whole, shorter, n) = split_at limit rest (ground arith) pos in
                let here = e ∙ ap (λ (l : List A). front ++ l) whole in
                let split = here ∙ regroup_row front init row (drop limit rest) in
                let ih =
                  read_rest fuel ((front ++ init) ++ row ∷ []) (drop limit rest) (some (id row)) pos
                    (omega arith) (here ∙ regroup_end front init row (drop limit rest))
                    (ask_after (front ++ init) row (drop limit rest) split) in
                let both : map item (take limit rest) ++ map item (drop limit rest)
                    ≡ map item rest =
                  sym (map-append item (take limit rest) (drop limit rest))
                  ∙ ap (map item) (ap (λ (l : List A). l ++ drop limit rest) t ∙ sym whole) in
                ground (arith, a, full_page rest row n l, ih, both)
          ]

      -- A client that follows the cursors reads the whole listing, every row once and in order, in
      -- at most one request for each row and one more.
      pub read_pages-listing :
          0 < limit → read_pages (suc (length listing)) ask none ≡ some (map item listing)
      unfolding fetch
      read_pages-listing pos =
          read_rest (suc (length listing)) [] listing none pos (omega arith) refl refl
