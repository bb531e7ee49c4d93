-- ===== src/Database/Pages/Order.antt =====
-- The order of a list: rows with different ids stand in one strict order.
use dpg_business_app_starter.Base.{
  ℕ, ◌≡◌, ◌≢◌, refl, sym, subst, arith, Bool, true, false, ◌&&◌, ◌==◌, some, List, [], ◌∷◌, ◌++◌,
  any, any-find, find, keep, All, Bool-cases, inl, inr,
}
use dpg_business_app_starter.Database.Pages.{newest_first, oldest_first, insert_row, ordered}

-- What an order of rows by creation and id gives.
pub record IsListing {ℓ} {A : Type ℓ} (id : A → ℕ) (before : A → A → Bool) : Type ℓ where
  pub total : (x y : A) → id x ≢ id y → before y x ≡ false → before x y ≡ true
  pub trans : (x y z : A) → before x y ≡ true → before y z ≡ true → before x z ≡ true
  pub asym : (x y : A) → before x y ≡ true → before y x ≡ false

pub newest_first-IsListing {ℓ} :
    {A : Type ℓ} (created id : A → ℕ) → IsListing id (newest_first created id)
newest_first-IsListing created id = record {
  total = λ x y ne h. ground arith;
  trans = λ x y z h k. ground arith;
  asym = λ x y h. ground arith;
}

pub oldest_first-IsListing {ℓ} :
    {A : Type ℓ} (created id : A → ℕ) → IsListing id (oldest_first created id)
oldest_first-IsListing created id = record {
  total = λ x y ne h. ground arith;
  trans = λ x y z h k. ground arith;
  asym = λ x y h. ground arith;
}

module _ {ℓ} {A : Type ℓ} (id : A → ℕ) where
  abbrev pub has_id : ℕ → A → Bool
  has_id i x = id x == i

  -- No two rows have the same id: what a primary key gives.
  abbrev pub HasIds : List A → Type 0
  HasIds [] = Unit {0}
  HasIds (x ∷ xs) = (any (has_id (id x)) xs ≡ false) × HasIds xs

  any_kept :
      (i : ℕ) (p : A → Bool) (xs : List A)
      → any (has_id i) xs ≡ false
      → any (has_id i) (keep p xs) ≡ false
  any_kept i p [] h = refl
  any_kept i p (x ∷ xs) h = ground (arith, any_kept i p xs)

  pub keep-HasIds : (p : A → Bool) (xs : List A) → HasIds xs → HasIds (keep p xs)
  keep-HasIds p [] h = tt
  keep-HasIds p (x ∷ xs) h =
      elim (p x) as (λ b. HasIds (elim b [ true ↦ x ∷ keep p xs | false ↦ keep p xs ])) [
        | true ↦ (any_kept (id x) p xs h.0, keep-HasIds p xs h.1)
        | false ↦ keep-HasIds p xs h.1
      ]

  module _ (before : A → A → Bool) where
    -- Every row stands before all that follow it.
    abbrev pub IsOrdered : List A → Type 0
    IsOrdered [] = Unit {0}
    IsOrdered (x ∷ xs) = All (λ y. before x y ≡ true) xs × IsOrdered xs

    any-insert_row :
        (p : A → Bool) (x : A) (ys : List A) → any p (insert_row id before x ys) ≡ any p (x ∷ ys)
    unfolding insert_row
    any-insert_row p x [] = refl
    any-insert_row p x (y ∷ ys) = ground (arith, any-insert_row p x ys)

    pub any-ordered : (p : A → Bool) (xs : List A) → any p (ordered id before xs) ≡ any p xs
    unfolding ordered
    any-ordered p [] = refl
    any-ordered p (x ∷ xs) =
        ground (arith, any-insert_row p x (ordered id before xs), any-ordered p xs)

    insert_row-HasIds :
        (x : A) (ys : List A)
        → any (has_id (id x)) ys ≡ false
        → HasIds ys
        → HasIds (insert_row id before x ys)
    unfolding insert_row
    insert_row-HasIds x [] h k = (refl, tt)
    insert_row-HasIds x (y ∷ ys) h k =
        ground (arith, any-insert_row (has_id (id y)) x ys, insert_row-HasIds x ys)

    pub ordered-HasIds : (xs : List A) → HasIds xs → HasIds (ordered id before xs)
    unfolding ordered
    ordered-HasIds [] h = tt
    ordered-HasIds (x ∷ xs) h =
        insert_row-HasIds x (ordered id before xs) (ground (arith, any-ordered (has_id (id x)) xs))
          (ordered-HasIds xs h.1)

    -- A row is found by its id in any order of the rows.
    find-insert_row :
        (i : ℕ) (x : A) (ys : List A)
        → any (has_id (id x)) ys ≡ false
        → find (has_id i) (insert_row id before x ys) ≡ find (has_id i) (x ∷ ys)
    unfolding insert_row
    find-insert_row i x [] h = refl
    find-insert_row i x (y ∷ ys) h = ground (arith, find-insert_row i x ys)

    pub find-ordered :
        (i : ℕ) (xs : List A)
        → HasIds xs
        → find (has_id i) (ordered id before xs) ≡ find (has_id i) xs
    unfolding ordered
    find-ordered i [] h = refl
    find-ordered i (x ∷ xs) h = ground (
      arith,
      find-insert_row i x (ordered id before xs),
      any-ordered (has_id (id x)) xs,
      find-ordered i xs,
    )

    module _ (o : IsListing id before) where
      All-insert_row :
          (z x : A) (ys : List A)
          → before z x ≡ true
          → All (λ y. before z y ≡ true) ys
          → All (λ y. before z y ≡ true) (insert_row id before x ys)
      unfolding insert_row
      All-insert_row z x [] h k = (h, tt)
      All-insert_row z x (y ∷ ys) h k = ground (arith, All-insert_row z x ys)

      first_before :
          (x y : A) (ys : List A)
          → before x y ≡ true
          → All (λ z. before y z ≡ true) ys
          → All (λ z. before x z ≡ true) ys
      first_before x y [] h k = tt
      first_before x y (z ∷ zs) h k = (o.trans x y z h k.0, first_before x y zs h k.1)

      insert_row_first :
          (x : A) (ys : List A)
          → All (λ y. before x y ≡ true) ys
          → insert_row id before x ys ≡ x ∷ ys
      unfolding insert_row
      insert_row_first x [] h = refl
      insert_row_first x (y ∷ ys) h = ground (arith, o.asym x y)

      insert_row_later :
          (x y : A) (ys : List A)
          → before y x ≡ true
          → insert_row id before x (y ∷ ys) ≡ y ∷ insert_row id before x ys
      unfolding insert_row
      insert_row_later x y ys e = ground arith

      -- A row that does not belong behind the first one stands before all.
      stands_first :
          (x y : A) (ys : List A)
          → any (has_id (id x)) (y ∷ ys) ≡ false
          → IsOrdered (y ∷ ys)
          → before y x ≡ false
          → All (λ z. before x z ≡ true) (y ∷ ys)
      stands_first x y ys u h e =
          let first : before x y ≡ true = o.total x y (λ same. ground arith) e in
          (first, first_before x y ys first h.0)

      insert_row-IsOrdered :
          (x : A) (ys : List A)
          → any (has_id (id x)) ys ≡ false
          → IsOrdered ys
          → IsOrdered (insert_row id before x ys)
      unfolding insert_row
      insert_row-IsOrdered x [] u h = (tt, tt)
      insert_row-IsOrdered x (y ∷ ys) u h = elim (Bool-cases (before y x)) [
        | inl e ↦
            subst IsOrdered (sym (insert_row_later x y ys e))
              (All-insert_row y x ys e h.0, insert_row-IsOrdered x ys (ground arith) h.1)
        | inr e ↦
            let all = stands_first x y ys u h e in
            subst IsOrdered (sym (insert_row_first x (y ∷ ys) all)) (all, h)
      ]

      pub ordered-IsOrdered : (xs : List A) → HasIds xs → IsOrdered (ordered id before xs)
      unfolding ordered
      ordered-IsOrdered [] h = tt
      ordered-IsOrdered (x ∷ xs) h =
          insert_row-IsOrdered x (ordered id before xs)
            (ground (arith, any-ordered (has_id (id x)) xs)) (ordered-IsOrdered xs h.1)

      All-keep :
          (p : A → Bool) (x : A) (ys : List A)
          → All (λ y. before x y ≡ true) ys
          → All (λ y. before x y ≡ true) (keep p ys)
      All-keep p x [] h = tt
      All-keep p x (y ∷ ys) h = ground (arith, All-keep p x ys)

      -- A filter may be taken before or after the ordering.
      keep-insert_row :
          (p : A → Bool) (x : A) (ys : List A)
          → any (has_id (id x)) ys ≡ false
          → IsOrdered ys
          → keep p (insert_row id before x ys)
            ≡ elim (p x) [ true ↦ insert_row id before x (keep p ys) | false ↦ keep p ys ]
      unfolding insert_row
      keep-insert_row p x [] u h = refl
      keep-insert_row p x (y ∷ ys) u h = elim (Bool-cases (before y x)) [
        | inl e ↦ ground (arith, keep-insert_row p x ys, insert_row_later x y ys e)
        | inr e ↦
            let all = stands_first x y ys u h e in
            ground (
              arith,
              insert_row_first x (y ∷ ys) all,
              insert_row_first x (keep p (y ∷ ys)) (All-keep p x (y ∷ ys) all),
            )
      ]

      pub keep-ordered :
          (p : A → Bool) (xs : List A)
          → HasIds xs
          → keep p (ordered id before xs) ≡ ordered id before (keep p xs)
      unfolding ordered
      keep-ordered p [] h = refl
      keep-ordered p (x ∷ xs) h = ground (
        arith,
        keep-insert_row p x (ordered id before xs) (ground (arith, any-ordered (has_id (id x)) xs))
            (ordered-IsOrdered xs h.1),
        keep-ordered p xs,
      )

      first_before_within :
          (x : A) (front : List A) (row : A) (rest : List A)
          → All (λ y. before x y ≡ true) (front ++ row ∷ rest)
          → before x row ≡ true
      first_before_within x [] row rest h = h.0
      first_before_within x (y ∷ ys) row rest h = first_before_within x ys row rest h.1

      keep_later : (x : A) (ys : List A) → All (λ y. before x y ≡ true) ys → keep (before x) ys ≡ ys
      keep_later x [] h = refl
      keep_later x (y ∷ ys) h = ground (arith, keep_later x ys)

      -- What stands behind a row of an ordered list.
      pub keep_after :
          (front : List A) (row : A) (rest : List A)
          → IsOrdered (front ++ row ∷ rest)
          → keep (before row) (front ++ row ∷ rest) ≡ rest
      keep_after [] row rest h = elim (Bool-cases (before row row)) [
        | inl e ↦ absurd (ground (arith, o.asym row row e))
        | inr e ↦ ground (arith, keep_later row rest h.0)
      ]
      keep_after (x ∷ xs) row rest h =
          ground (
            arith,
            keep_after xs row rest h.1,
            o.asym x row (first_before_within x xs row rest h.0),
          )

  any_within :
      (i : ℕ) (front : List A) (row : A) (rest : List A)
      → any (has_id i) (front ++ row ∷ rest) ≡ false
      → has_id i row ≡ false
  any_within i [] row rest h = ground arith
  any_within i (x ∷ xs) row rest h = any_within i xs row rest (ground arith)

  pub find_within :
      (front : List A) (row : A) (rest : List A)
      → HasIds (front ++ row ∷ rest)
      → find (has_id (id row)) (front ++ row ∷ rest) ≡ some row
  find_within [] row rest h = ground arith
  find_within (x ∷ xs) row rest h =
      ground (arith, any_within (id x) xs row rest h.0, find_within xs row rest h.1)

  pub find_kept :
      (p : A → Bool) (i : ℕ) (xs : List A)
      → find (λ x. p x && has_id i x) xs ≡ find (has_id i) (keep p xs)
  find_kept p i [] = refl
  find_kept p i (x ∷ xs) = ground (arith, find_kept p i xs)

  -- A row that a further filter keeps is the one that has its id.
  pub find_unfiltered :
      (p : A → Bool) (i : ℕ) (xs : List A) (row : A)
      → HasIds xs
      → find (has_id i) (keep p xs) ≡ some row
      → find (has_id i) xs ≡ some row
  find_unfiltered p i [] row h e = e
  find_unfiltered p i (x ∷ xs) row h e =
      ground (arith, find_unfiltered p i xs row h.1, any-find (has_id i) xs row)
