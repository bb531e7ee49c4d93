-- ===== src/Base/Lists.antt =====
-- Searches and measures on lists: what a query of one table, a generator expression or a `sum`
-- over rows computes.
use Prim.Native.Nat.{ℕ, suc, ◌+◌, compare, Ordering}
use mathlib.Core.Path.{◌≡◌, refl}
use mathlib.Core.Bool.{Bool, true, false, ◌&&◌, ◌||◌}
use mathlib.Core.Option.{Option, none, some}
use mathlib.Core.List.{List, [], ◌∷◌, ◌++◌, reverse, reverse-append, append_assoc}
use native.Mathlib.Omega.{arith}

module _ {ℓ} {A : Type ℓ} where
  -- The first row that passes a test: `one_or_none` on a key.
  abbrev pub find : (A → Bool) → List A → Option A
  find p [] = none
  find p (x ∷ xs) = elim (p x) [ true ↦ some x | false ↦ find p xs ]

  -- `any(...)`, and SQL's `exists`.
  abbrev pub any : (A → Bool) → List A → Bool
  any p [] = false
  any p (x ∷ xs) = p x || any p xs

  -- `all(...)`.
  abbrev pub all : (A → Bool) → List A → Bool
  all p [] = true
  all p (x ∷ xs) = p x && all p xs

  abbrev pub length : List A → ℕ
  length [] = 0
  length (x ∷ xs) = suc (length xs)

  abbrev pub sum_by : (A → ℕ) → List A → ℕ
  sum_by f [] = 0
  sum_by f (x ∷ xs) = f x + sum_by f xs

  -- `rows[:n]`, and SQL's `limit`.
  unfoldable pub take : ℕ → List A → List A
  take (suc n) (x ∷ xs) = x ∷ take n xs
  take _ _ = []

  unfoldable pub drop : ℕ → List A → List A
  drop (suc n) (x ∷ xs) = drop n xs
  drop _ xs = xs

  -- The last row, if there is one.
  unfoldable pub last : List A → Option A
  last [] = none
  last (x ∷ xs) = elim (last xs) [ none ↦ some x | some y ↦ some y ]

  -- Every row that passes a test.
  abbrev pub keep : (A → Bool) → List A → List A
  keep p [] = []
  keep p (x ∷ xs) = elim (p x) [ true ↦ x ∷ keep p xs | false ↦ keep p xs ]

  -- SQL's `update ... where`.
  abbrev pub update_where : (A → Bool) → (A → A) → List A → List A
  update_where p f [] = []
  update_where p f (x ∷ xs) = elim (p x) [
    | true ↦ f x ∷ update_where p f xs
    | false ↦ x ∷ update_where p f xs
  ]

  -- A predicate at every row, which computes to a product.
  abbrev pub All {κ} : (A → Type κ) → List A → Type κ
  All P [] = Unit
  All P (x ∷ xs) = P x × All P xs

  -- What `find` returns has passed the test.
  pub find_sound : (p : A → Bool) (xs : List A) (x : A) → find p xs ≡ some x → p x ≡ true
  find_sound p [] x h = cc
  find_sound p (y ∷ xs) x h = ground (arith, find_sound p xs x)

  -- What `find` returns shows that there is such a row.
  pub any-find : (p : A → Bool) (xs : List A) (x : A) → find p xs ≡ some x → any p xs ≡ true
  any-find p [] x h = cc
  any-find p (y ∷ xs) x h = ground (arith, any-find p xs x)

  pub find_absent : (p : A → Bool) (xs : List A) → any p xs ≡ false → find p xs ≡ none
  find_absent p [] h = refl
  find_absent p (x ∷ xs) h = ground (arith, find_absent p xs)

  -- The first row that passes is updated in place, if an updated row still passes.
  pub find-update_where :
      (p : A → Bool) (f : A → A) (xs : List A) (x : A)
      → ((y : A) → p y ≡ true → p (f y) ≡ true)
      → find p xs ≡ some x
      → find p (update_where p f xs) ≡ some (f x)
  find-update_where p f [] x keeps h = cc
  find-update_where p f (y ∷ xs) x keeps h =
      ground (arith, keeps y, find-update_where p f xs x keeps)

  -- An update of some of the rows that pass a search, which keeps the search, updates the row found
  -- in place if it is one of them.
  pub find_update_within :
      (p q : A → Bool) (f : A → A) (xs : List A) (x : A)
      → ((y : A) → p y ≡ true → q y ≡ true)
      → ((y : A) → q (f y) ≡ q y)
      → find q xs ≡ some x
      → p x ≡ true
      → find q (update_where p f xs) ≡ some (f x)
  find_update_within p q f [] x within kept h e = cc
  find_update_within p q f (y ∷ xs) x within kept h e =
      ground (arith, within y, kept y, find_update_within p q f xs x within kept)

  -- The row that a search finds is updated in place if it is one of those updated, and found again.
  pub find-update_where_kept :
      (p q : A → Bool) (f : A → A) (xs : List A) (x : A)
      → ((y : A) → q (f y) ≡ q y)
      → find q xs ≡ some x
      → find q (update_where p f xs) ≡ some (elim (p x) [ true ↦ f x | false ↦ x ])
  find-update_where_kept p q f [] x kept h = cc
  find-update_where_kept p q f (y ∷ xs) x kept h =
      ground (arith, kept y, find-update_where_kept p q f xs x kept)

  -- An update that no row passes changes nothing.
  pub update_where_absent :
      (p : A → Bool) (f : A → A) (xs : List A) → any p xs ≡ false → update_where p f xs ≡ xs
  update_where_absent p f [] h = refl
  update_where_absent p f (x ∷ xs) h = ground (arith, update_where_absent p f xs)

  -- `sorted(rows, key=...)`, which keeps the order of equal keys.
  insert_by : (A → ℕ) → A → List A → List A
  insert_by key x [] = x ∷ []
  insert_by key x (y ∷ ys) = elim (compare (key x) (key y)) [
    | Ordering.gt ↦ y ∷ insert_by key x ys
    | _ ↦ x ∷ y ∷ ys
  ]

  unfoldable pub sort_by : (A → ℕ) → List A → List A
  unfolding insert_by
  sort_by key [] = []
  sort_by key (x ∷ xs) = insert_by key x (sort_by key xs)

  pub reverse_onto : (x : A) (xs ys : List A) → reverse (x ∷ xs) ++ ys ≡ reverse xs ++ x ∷ ys
  reverse_onto x xs ys = rw (reverse-append (x ∷ []) xs) (append_assoc (reverse xs) (x ∷ []) ys)

  pub sum_by-reverse :
      (f : A → ℕ) (xs ys : List A) → sum_by f (reverse xs ++ ys) ≡ sum_by f xs + sum_by f ys
  sum_by-reverse f [] ys = omega arith
  sum_by-reverse f (x ∷ xs) ys =
      rw (reverse_onto x xs ys) (omega (arith, sum_by-reverse f xs (x ∷ ys)))

  sum_by-insert_by :
      (f key : A → ℕ) (x : A) (xs : List A) → sum_by f (insert_by key x xs) ≡ f x + sum_by f xs
  unfolding insert_by
  sum_by-insert_by f key x [] = refl
  sum_by-insert_by f key x (y ∷ ys) = ground (arith, sum_by-insert_by f key x ys)

  -- Sorting keeps every sum.
  pub sum_by-sort_by : (f key : A → ℕ) (xs : List A) → sum_by f (sort_by key xs) ≡ sum_by f xs
  unfolding sort_by
  sum_by-sort_by f key [] = refl
  sum_by-sort_by f key (x ∷ xs) =
      omega (arith, sum_by-insert_by f key x (sort_by key xs), sum_by-sort_by f key xs)

  pub sum_by-keep :
      (f : A → ℕ) (p : A → Bool) (xs : List A)
      → sum_by f (keep p xs) ≡ sum_by (λ x. elim (p x) [ true ↦ f x | false ↦ 0 ]) xs
  sum_by-keep f p [] = refl
  sum_by-keep f p (x ∷ xs) = ground (arith, sum_by-keep f p xs)

  -- A sum over rows none of which passes the test.
  pub sum_by_absent :
      (f : A → ℕ) (p : A → Bool) (xs : List A)
      → any p xs ≡ false
      → sum_by (λ x. elim (p x) [ true ↦ f x | false ↦ 0 ]) xs ≡ 0
  sum_by_absent f p [] h = refl
  sum_by_absent f p (x ∷ xs) h = ground (arith, sum_by_absent f p xs)

  pub keep-reverse :
      (p : A → Bool) (xs ys : List A) → keep p (reverse xs ++ ys) ≡ reverse (keep p xs) ++ keep p ys
  keep-reverse p [] ys = refl
  keep-reverse p (x ∷ xs) ys = ground (
    arith,
    reverse_onto x xs ys,
    keep-reverse p xs (x ∷ ys),
    reverse_onto x (keep p xs) (keep p ys),
  )
