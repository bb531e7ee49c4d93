-- ===== src/Sales/Approval/Lockout.antt =====
-- Who approves a discount, and how failed PINs lock an approver.
use dpg_business_app_starter.Base.{
  ℕ, ◌+◌, ◌<◌, ◌≡◌, refl, String, Option, none, some, Bool, true, false, str_eq, str_eq_iff, find,
  arith, ◌⊎◌, inl, inr, Option-cases, Bool-cases, find-update_where, All, List, [], ◌∷◌, ◌++◌, ◌∙◌,
  ap, subst, sym, suc, length,
}
use dpg_business_app_starter.Database.{
  Db, Result, ok, err, Environment, Call, Membership, invalid_approval_pin, approval_pin_locked,
}
use dpg_business_app_starter.Sales.Commands.{CreateSaleCommand, SaleApproval}
use dpg_business_app_starter.Sales.Approval.{
  pin_failure_limit, pin_lock_time, Approved, granted, denied, membership_of, is_locked,
  pin_matches, failed_pin, reset_pin, update_membership, check_pin, approve,
}

module _ (env : Environment) (call : Call) (c : CreateSaleCommand) where
  -- The approver of a command: a member who is an administrator, is not locked, and whose PIN it
  -- carries.
  pub record IsApprover (db : Db) (a : SaleApproval) (m : Membership) : Type 0 where
    pub given : c.approval ≡ some a
    pub found : find (membership_of c.organization_id a.approver_user_id) db.memberships ≡ some m
    pub admin : m.role ≡ "admin"
    pub unlocked : is_locked call.now m ≡ false
    pub verified : pin_matches env a.pin m ≡ true

  -- How an approval can have been granted.
  abbrev pub GrantedTo : Bool → Db → Option ℕ → Type 0
  GrantedTo required db user =
      ((required ≡ false) × (user ≡ none))
      ⊎ ((required ≡ true) × (c.seller_role ≡ "admin") × (user ≡ some c.sold_by_id))
      ⊎ ((a : SaleApproval) × (m : Membership) × (required ≡ true)
          × IsApprover db a m
          × (user ≡ some a.approver_user_id))

  pub approve-GrantedTo :
      (required : Bool) (db : Db) (user : Option ℕ) (db' : Db)
      → approve env call c required db ≡ ok (granted user, db')
      → GrantedTo required db user
  unfolding approve
  approve-GrantedTo false db user db' h = inl (refl, ground arith)
  approve-GrantedTo true db user db' h = elim (Bool-cases (str_eq c.seller_role "admin")) [
    | inl e ↦ inr (inl (refl, (str_eq_iff c.seller_role "admin").0 e, ground arith))
    | inr e ↦ elim (Option-cases c.approval) [
      | inl none_e ↦ absurd (ground arith)
      | inr (a, a_e) ↦
          elim (Option-cases
            (find (membership_of c.organization_id a.approver_user_id) db.memberships)) [
              | inl none_e ↦ absurd (ground arith)
              | inr (m, m_e) ↦ inr (
                  inr (
                    a,
                    m,
                    refl,
                    record {
                      given = a_e;
                      found = m_e;
                      admin = ground (arith, str_eq_iff m.role "admin");
                      unlocked = ground arith;
                      verified = ground arith;
                    },
                    ground arith,
                  ))
            ]
    ]
  ]

  -- A locked approver is refused whatever the PIN, and nothing changes.
  pub locked_pin_refused :
      (db : Db) (a : SaleApproval) (m : Membership)
      → find (membership_of c.organization_id a.approver_user_id) db.memberships ≡ some m
      → is_locked call.now m ≡ true
      → check_pin env call c a db ≡ ok (denied approval_pin_locked, db)
  unfolding check_pin
  locked_pin_refused db a m f l = ground arith

  -- A wrong PIN of an administrator who is not locked counts as one more failure.
  wrong_pin_counts :
      (db : Db) (a : SaleApproval) (m : Membership)
      → find (membership_of c.organization_id a.approver_user_id) db.memberships ≡ some m
      → m.role ≡ "admin"
      → is_locked call.now m ≡ false
      → pin_matches env a.pin m ≡ false
      → check_pin env call c a db
        ≡ ok (
          denied invalid_approval_pin,
          update_membership env call c.organization_id a.approver_user_id
              (failed_pin env call.now)
              db,
        )
  unfolding check_pin
  wrong_pin_counts db a m f r l w = ground (arith, str_eq_iff m.role "admin")

  -- The right PIN of an administrator who is not locked is accepted and clears the failures.
  pub right_pin_resets :
      (db : Db) (a : SaleApproval) (m : Membership)
      → find (membership_of c.organization_id a.approver_user_id) db.memberships ≡ some m
      → m.role ≡ "admin"
      → is_locked call.now m ≡ false
      → pin_matches env a.pin m ≡ true
      → (db' : Db) × (check_pin env call c a db ≡ ok (granted (some a.approver_user_id), db'))
        × (find (membership_of c.organization_id a.approver_user_id) db'.memberships
            ≡ some (reset_pin env m))
  unfolding check_pin
  right_pin_resets db a m f r l w = (
    update_membership env call c.organization_id a.approver_user_id (reset_pin env) db,
    ground (arith, str_eq_iff m.role "admin"),
    find-update_where (membership_of c.organization_id a.approver_user_id) (reset_pin env)
        db.memberships m (λ y h. h) f,
  )

-- What the database is after one PIN and after a row of PINs, each with its call.
abbrev state_after : Result (Approved × Db) → Db → Db
state_after (ok (_, db')) db = db'
state_after (err _) db = db

abbrev pub after_pins : Environment → CreateSaleCommand → ℕ → List (Call × String) → Db → Db
after_pins env c user [] db = db
after_pins env c user ((call, pin) ∷ rest) db =
    after_pins env c user rest
      (state_after (check_pin env call c (record { approver_user_id = user; pin = pin }) db) db)

module _ (env : Environment) (c : CreateSaleCommand) (user : ℕ) where
  abbrev approver_row : Db → Option Membership
  approver_row db = find (membership_of c.organization_id user) db.memberships

  counted_once :
      (m : Membership) (n : ℕ)
      → (let m1 : Membership = record m {
        approval_pin_failures = m.approval_pin_failures + 1 + n;
        approval_pin_locked_until = none;
      } in
          m1)
        ≡ record m {
          approval_pin_failures = m.approval_pin_failures + suc n;
          approval_pin_locked_until = none;
        }
  counted_once m n = ground arith

  after_pins-append :
      (pins : List (Call × String)) (last : Call × String) (db : Db)
      → after_pins env c user (pins ++ last ∷ []) db
        ≡ after_pins env c user (last ∷ []) (after_pins env c user pins db)
  after_pins-append [] last db = refl
  after_pins-append (p ∷ pins) last db =
      after_pins-append pins last
        (state_after (check_pin env p.0 c (record { approver_user_id = user; pin = p.1 }) db) db)

  -- The database after one wrong PIN.
  abbrev failed_once : Call → Db → Db
  failed_once call db =
      update_membership env call c.organization_id user (failed_pin env call.now) db

  after_wrong_pin :
      (call : Call) (pin : String) (db : Db) (m : Membership)
      → approver_row db ≡ some m
      → m.role ≡ "admin"
      → m.approval_pin_locked_until ≡ none
      → pin_matches env pin m ≡ false
      → (state_after (check_pin env call c (record { approver_user_id = user; pin = pin }) db) db
          ≡ failed_once call db)
        × (approver_row (failed_once call db) ≡ some (failed_pin env call.now m))
  after_wrong_pin call pin db m f r l w = (
    ap (λ (s : Result (Approved × Db)). state_after s db)
        (wrong_pin_counts env call c db (record { approver_user_id = user; pin = pin }) m f r
          (ground arith) w),
    find-update_where (membership_of c.organization_id user) (failed_pin env call.now)
        db.memberships m (λ y h. h) f,
  )

  -- Fewer than five wrong PINs in a row lock nothing and are counted.
  wrong_pins_counted :
      (pins : List (Call × String)) (db : Db) (m : Membership)
      → approver_row db ≡ some m
      → m.role ≡ "admin"
      → m.approval_pin_locked_until ≡ none
      → All (λ p. pin_matches env p.1 m ≡ false) pins
      → m.approval_pin_failures + length pins < pin_failure_limit
      → approver_row (after_pins env c user pins db)
        ≡ some (record m {
          approval_pin_failures = m.approval_pin_failures + length pins;
          approval_pin_locked_until = none;
        })
  wrong_pins_counted [] db m f r l w few = ground arith
  wrong_pins_counted ((call, pin) ∷ rest) db m f r l w few =
      let (state, found) = after_wrong_pin call pin db m f r l w.0 in
      let ih =
        wrong_pins_counted rest (failed_once call db) (failed_pin env call.now m) found r
          (ground arith) w.1 (omega arith) in
      subst
        (λ (d : Db).
          approver_row (after_pins env c user rest d)
          ≡ some (record m {
            approval_pin_failures = m.approval_pin_failures + suc (length rest);
            approval_pin_locked_until = none;
          }))
        (sym state) (ih ∙ ap some (counted_once m (length rest)))

  -- Take an administrator without a lock, and wrong PINs in a row that bring the counted failures
  -- to four. The next wrong PIN locks the administrator: for fifteen minutes after it every PIN,
  -- also the right one, is refused and nothing changes.
  pub fifth_wrong_pin_locks :
      (pins : List (Call × String)) (fifth later : Call) (wrong pin : String) (db : Db)
      (m : Membership)
      → approver_row db ≡ some m
      → m.role ≡ "admin"
      → m.approval_pin_locked_until ≡ none
      → m.approval_pin_failures + length pins ≡ 4
      → All (λ p. pin_matches env p.1 m ≡ false) pins
      → pin_matches env wrong m ≡ false
      → later.now < fifth.now + pin_lock_time
      → check_pin env later c
          (record { approver_user_id = user; pin = pin })
          (after_pins env c user (pins ++ (fifth, wrong) ∷ []) db)
        ≡ ok (denied approval_pin_locked, after_pins env c user (pins ++ (fifth, wrong) ∷ []) db)
  fifth_wrong_pin_locks pins fifth later wrong pin db m f r l four w w5 soon =
      let db4 = after_pins env c user pins db in
      let m4 : Membership = record m {
        approval_pin_failures = m.approval_pin_failures + length pins;
        approval_pin_locked_until = none;
      } in
      let found4 : approver_row db4 ≡ some m4 =
        wrong_pins_counted pins db m f r l w (omega arith) in
      let (state, found) = after_wrong_pin fifth wrong db4 m4 found4 r refl w5 in
      subst
        (λ (d : Db).
          check_pin env later c (record { approver_user_id = user; pin = pin }) d
          ≡ ok (denied approval_pin_locked, d))
        (sym (after_pins-append pins (fifth, wrong) db ∙ state))
        (locked_pin_refused env later c (failed_once fifth db4)
          (record { approver_user_id = user; pin = pin }) (failed_pin env fifth.now m4) found
          (ground arith))
