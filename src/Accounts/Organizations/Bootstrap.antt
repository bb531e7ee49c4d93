-- ===== src/Accounts/Organizations/Bootstrap.antt =====
-- What a bootstrapped organization starts with (app/modules/organizations/use_cases.py).
use dpg_business_app_starter.Base.{
  ◌≡◌, refl, arith, String, true, false, ◌&&◌, ◌==◌, any, strip, str_eq, str_eq_iff, Bool-cases,
  inl, inr, ◌⊎◌,
}
use dpg_business_app_starter.Database.{
  Db, ok, err, Environment, Call, Permission, bootstrap_validation_error, text_data_error,
  holds_text, user_email_conflict,
}
use dpg_business_app_starter.Authorization.{
  CurrentMembership, require_permission, get_current_membership,
}
use dpg_business_app_starter.Authorization.Policy.{permission_granted_iff}
use dpg_business_app_starter.Accounts.{insert_user, insert_membership}
use dpg_business_app_starter.Accounts.Security.{authenticate_user}
use dpg_business_app_starter.Accounts.Organizations.{
  BootstrapResult, is_bootstrap_valid, bootstrap_transaction, bootstrap_organization,
}

module _ (env : Environment) (call : Call) (name email password : String) (db : Db) where
  -- After an organization was bootstrapped, its administrator logs in with the email and the password
  -- that were given, is a member of the new organization as the result says, and has every
  -- permission there, if the verification accepts what the hashing has made of the password.
  pub bootstrapped_admin_logs_in :
      (r : BootstrapResult) (p : Permission)
      → env.verify password (env.hash password) ≡ true
      → (bootstrap_organization env call name email password db).0 ≡ ok r
      → (m : CurrentMembership) × (authenticate_user env email password
            (bootstrap_organization env call name email password db).1
          ≡ ok (record { id = r.admin_user_id; email = r.admin_email }))
        × (get_current_membership r.organization_id r.admin_user_id
              (bootstrap_organization env call name email password db).1
            ≡ ok m)
        × (require_permission m p ≡ ok tt)
  unfolding bootstrap_organization bootstrap_transaction insert_user insert_membership
      authenticate_user get_current_membership
  bootstrapped_admin_logs_in r p v h =
      let m : CurrentMembership = record {
        organization_id = r.organization_id;
        user_id = r.admin_user_id;
        role = "admin";
      } in
      (
        m,
        ground (arith, str_eq_iff (env.lower (strip email)) (env.lower (strip email))),
        ground arith,
        (permission_granted_iff m p).1 (inl refl),
      )

  -- A bootstrap with a blank name, an email without an at sign or a password of less than twelve
  -- characters is refused as invalid; a valid one whose name has more than 160 characters, or whose
  -- email more than 320, or one of them a NUL character, is refused by the columns; one that they
  -- hold, but whose normalized email a user has, is refused as a conflict; none of these writes
  -- anything. With a new email and a fresh UUID for the membership every other one succeeds.
  pub bootstrap_outcomes :
      any (λ m. m.organization_id == call.uuid4 0 && m.user_id == call.uuid4 1) db.memberships
        ≡ false
      → ((is_bootstrap_valid env name email password ≡ false)
          × (bootstrap_organization env call name email password db
              ≡ (err bootstrap_validation_error, db)))
        ⊎ ((is_bootstrap_valid env name email password ≡ true)
            × ((holds_text 160 (strip name) && holds_text 320 (env.lower (strip email))) ≡ false)
            × (bootstrap_organization env call name email password db ≡ (err text_data_error, db)))
        ⊎ ((is_bootstrap_valid env name email password ≡ true)
            × ((holds_text 160 (strip name) && holds_text 320 (env.lower (strip email))) ≡ true)
            × (any (λ v. str_eq v.email (env.lower (strip email))) db.users ≡ true)
            × (bootstrap_organization env call name email password db
                ≡ (err user_email_conflict, db)))
        ⊎ ((is_bootstrap_valid env name email password ≡ true)
            × ((holds_text 160 (strip name) && holds_text 320 (env.lower (strip email))) ≡ true)
            × (any (λ v. str_eq v.email (env.lower (strip email))) db.users ≡ false)
            × (r : BootstrapResult) × ((bootstrap_organization env call name email password db).0
                ≡ ok r))
  unfolding bootstrap_organization bootstrap_transaction insert_user insert_membership
  bootstrap_outcomes fresh = elim (Bool-cases (is_bootstrap_valid env name email password)) [
    | inr e ↦ inl (e, ground arith)
    | inl e ↦
        elim (Bool-cases
          (holds_text 160 (strip name) && holds_text 320 (env.lower (strip email)))) [
            | inr w ↦ inr (inl (e, w, ground arith))
            | inl w ↦
                elim (Bool-cases (any (λ v. str_eq v.email (env.lower (strip email))) db.users)) [
                  | inl t ↦ inr (inr (inl (e, w, t, ground arith)))
                  | inr t ↦ inr (
                      inr (
                        inr (
                          e,
                          w,
                          t,
                          record {
                            organization_id = call.uuid4 0;
                            admin_user_id = call.uuid4 1;
                            admin_email = env.lower (strip email);
                          },
                          ground arith,
                        )))
                ]
          ]
  ]
