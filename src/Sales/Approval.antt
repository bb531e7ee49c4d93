-- ===== src/Sales/Approval.antt =====
-- The approval of a discount by an administrator's PIN, in `create_sale` of
-- app/modules/sales/service.py. Times are in microseconds.
pub mod Lockout
use dpg_business_app_starter.Base.{
  ℕ, ◌+◌, ◌*◌, ◌^◌, String, Option, none, some, Bool, true, false, not, ◌&&◌, ◌||◌, ◌==◌, str_eq,
  ltb, leb, find, update_where, if◌then◌else◌,
}
use dpg_business_app_starter.Database.{
  Db, Tx, Result, ok, err, Error, Environment, Call, Membership, pure, raise,
  discount_approval_required, invalid_approval_pin, approval_pin_locked,
}
use dpg_business_app_starter.Sales.Commands.{CreateSaleCommand, SaleApproval}

abbrev pub pin_failure_limit : ℕ
pin_failure_limit = 5

-- `timedelta(minutes=PIN_LOCK_MINUTES)`
abbrev pub pin_lock_time : ℕ
pin_lock_time = 15 * 60 * 10 ^ 6

-- `approved_by_id`, or the error that is raised after the commit (`pin_error`).
pub data Approved : Type 0 where
  granted : Option ℕ → Approved
  denied : Error → Approved

abbrev pub membership_of : ℕ → ℕ → Membership → Bool
membership_of organization user m = m.organization_id == organization && m.user_id == user

abbrev pub is_locked : ℕ → Membership → Bool
is_locked now m = elim m.approval_pin_locked_until [ none ↦ false | some until ↦ ltb now until ]

module _ (env : Environment) where
  abbrev pub pin_matches : String → Membership → Bool
  pin_matches pin m = elim m.approval_pin_hash [
    | none ↦ false
    | some pin_hash ↦ env.verify pin pin_hash
  ]

  -- One more failure, and the lock from the fifth on.
  abbrev pub failed_pin : ℕ → Membership → Membership
  failed_pin now m =
      let failures = m.approval_pin_failures + 1 in
      record m {
        approval_pin_failures = failures;
        approval_pin_locked_until =
            if leb pin_failure_limit failures then some (now + pin_lock_time) else none;
      }

  abbrev pub reset_pin : Membership → Membership
  reset_pin m = record m { approval_pin_failures = 0; approval_pin_locked_until = none }

  module _ (call : Call) where
    -- The row of the approver is changed, and no other.
    abbrev pub update_membership : ℕ → ℕ → (Membership → Membership) → Db → Db
    update_membership organization user f db = record db {
      memberships = update_where (membership_of organization user) f db.memberships;
    }

    pub check_pin : CreateSaleCommand → SaleApproval → Tx Approved
    check_pin c a db =
        elim (find (membership_of c.organization_id a.approver_user_id) db.memberships) [
          | none ↦ ok (denied invalid_approval_pin, db)
          | some m ↦
              if is_locked call.now m
              then ok (denied approval_pin_locked, db)
              else if not (str_eq m.role "admin") || not (pin_matches a.pin m)
              then ok (
                denied invalid_approval_pin,
                if str_eq m.role "admin"
                    then update_membership c.organization_id a.approver_user_id
                        (failed_pin call.now) db
                    else db,
              )
              else ok (
                granted (some a.approver_user_id),
                update_membership c.organization_id a.approver_user_id reset_pin db,
              )
        ]

    unfoldable pub approve : CreateSaleCommand → Bool → Tx Approved
    unfolding check_pin
    approve c requires_approval =
        if requires_approval
        then if str_eq c.seller_role "admin"
          then pure (granted (some c.sold_by_id))
          else elim c.approval [ none ↦ raise discount_approval_required | some a ↦ check_pin c a ]
        else pure (granted none)
