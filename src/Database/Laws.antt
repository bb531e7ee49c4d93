-- ===== src/Database/Laws.antt =====
-- How a call of `run_once` can end, and what follows whatever the transaction is.
use dpg_business_app_starter.Base.{
  ◌≡◌, refl, ◌⊎◌, inl, inr, Option, arith, some, none, sym, subst, Bool-cases,
}
use dpg_business_app_starter.Database.Errors.{Constraint, Error, Result, ok, err, violates}
use dpg_business_app_starter.Database.Transaction.{Db, Tx, run_once}

pub Result-cases {ℓ} :
    {A : Type ℓ} (r : Result A) → ((a : A) × (r ≡ ok a)) ⊎ ((e : Error) × (r ≡ err e))
Result-cases (ok a) = inl (a, refl)
Result-cases (err e) = inr (e, refl)

module _ {A : Type 0} (replayed : Db → Result (Option A)) where
  -- The call wrote nothing onto `db`, and a result of it is a stored one.
  abbrev Unchanged : Db → Result A × Db → Type 0
  Unchanged db out = (out.1 ≡ db) × ((a : A) → out.0 ≡ ok a → replayed db ≡ ok (some a))

  -- The transaction was committed on `db`.
  abbrev pub Committed : Tx A → Db → Result A × Db → Type 0
  Committed body db out = (a : A) × (db' : Db) × (body db ≡ ok (a, db')) × (out ≡ (ok a, db'))

  abbrev pub Outcome : (Db → Db) → Tx A → Db → Result A × Db → Type 0
  Outcome concurrent body db out =
      Unchanged db out ⊎ Unchanged (concurrent db) out ⊎ Committed body (concurrent db) out

  pub run_once-Outcome :
      (key : Constraint) (concurrent : Db → Db) (body : Tx A) (db : Db)
      → Outcome concurrent body db (run_once replayed key concurrent body db)
  unfolding run_once
  run_once-Outcome key concurrent body db = elim (Result-cases (replayed db)) [
    | inr (c, f) ↦ inl (ground arith, λ a h. ground arith)
    | inl (some r, f) ↦ inl (ground arith, λ a h. ground arith)
    | inl (none, f) ↦ elim (Result-cases (body (concurrent db))) [
      | inl ((a, db'), e) ↦ inr (inr (a, db', e, ground arith))
      | inr (c, e) ↦ inr (inl (ground arith, λ a h. ground arith))
    ]
  ]

  module _ (concurrent : Db → Db) (body : Tx A) (db : Db) where
    -- A predicate that holds before, that other clients keep and that the body keeps holds after.
    pub Outcome-keeps :
        (P : Db → Type 0)
        → P db
        → P (concurrent db)
        → ((a : A) (db' : Db) → body (concurrent db) ≡ ok (a, db') → P db')
        → (out : Result A × Db) → Outcome concurrent body db out
        → P out.1
    Outcome-keeps P h hc hb out (inl (e, _)) = subst P (sym e) h
    Outcome-keeps P h hc hb out (inr (inl (e, _))) = subst P (sym e) hc
    Outcome-keeps P h hc hb out (inr (inr (a, db', e, f))) =
        subst (λ (o : Result A × Db). P o.1) (sym f) (hb a db' e)

    -- An error leaves the database as other clients left it.
    pub Outcome-atomic :
        (out : Result A × Db) (e : Error)
        → Outcome concurrent body db out
        → out.0 ≡ err e
        → (out.1 ≡ db) ⊎ (out.1 ≡ concurrent db)
    Outcome-atomic out e o h = ground arith

    -- A result can be looked up afterwards, if the body stores what it returns.
    pub Outcome-stored :
        (mark : A → A)
        → ((d : Db) (a : A) → replayed d ≡ ok (some a) → mark a ≡ a)
        → ((a : A) (db' : Db)
            → body (concurrent db) ≡ ok (a, db')
            → replayed db' ≡ ok (some (mark a)))
        → (out : Result A × Db) → Outcome concurrent body db out
        → (a : A) → out.0 ≡ ok a
        → replayed out.1 ≡ ok (some (mark a))
    Outcome-stored mark marked stores out (inl (e, f)) a h =
        subst (λ (d : Db). replayed d ≡ ok (some (mark a))) (sym e)
          (cc (f a h, marked db a (f a h)))
    Outcome-stored mark marked stores out (inr (inl (e, f))) a h =
        subst (λ (d : Db). replayed d ≡ ok (some (mark a))) (sym e)
          (cc (f a h, marked (concurrent db) a (f a h)))
    Outcome-stored mark marked stores out (inr (inr (b, db', e, f))) a h = cc (stores b db' e, f, h)

  -- What a call raises was raised by a lookup of the key or by the transaction.
  pub run_once-raises :
      (P : Error → Type 0) (key : Constraint) (concurrent : Db → Db) (body : Tx A) (db : Db)
      (e : Error)
      → ((d : Db) (x : Error) → replayed d ≡ err x → P x)
      → ((d : Db) (x : Error) → body d ≡ err x → P x)
      → (run_once replayed key concurrent body db).0 ≡ err e
      → P e
  unfolding run_once
  run_once-raises P key concurrent body db e lookup transaction h =
      elim (Result-cases (replayed db)) [
        | inr (c, f) ↦ lookup db e (ground arith)
        | inl (some r, f) ↦ absurd (ground arith)
        | inl (none, f) ↦ elim (Result-cases (body (concurrent db))) [
          | inl ((a, db'), g) ↦ absurd (ground arith)
          | inr (c, g) ↦ elim (Bool-cases (violates key c)) [
            | inr v ↦ transaction (concurrent db) e (ground arith)
            | inl v ↦ elim (Result-cases (replayed (concurrent db))) [
              | inr (x, k) ↦ lookup (concurrent db) e (ground arith)
              | inl (some r, k) ↦ absurd (ground arith)
              | inl (none, k) ↦ transaction (concurrent db) e (ground arith)
            ]
          ]
        ]
      ]
