-- ===== src/Accounts/Organizations.antt =====
-- Organizations and their first administrator (app/modules/organizations/use_cases.py).
pub mod Bootstrap
use dpg_business_app_starter.Base.{
  ℕ, String, Bool, true, not, Option, none, some, ◌==◌, ◌&&◌, ◌||◌, List, [], ◌∷◌, ◌++◌, map, find,
  keep, ltb, strip, str_eq, text_length, has_char, if◌then◌else◌,
}
use dpg_business_app_starter.Database.{
  Db, Tx, Result, ok, err, Environment, Call, Organization, Membership, bootstrap_validation_error,
  user_email_conflict, integrity_error, users_email_key, text_data_error, holds_text, raise_if,
  modify, pure, ◌>>=◌, ◌>>◌, begin,
}
use dpg_business_app_starter.Database.Pages.{ordered}
use dpg_business_app_starter.Accounts.{new_user, new_membership, insert_user, insert_membership}

pub record BootstrapResult : Type 0 where
  pub organization_id : ℕ
  pub admin_user_id : ℕ
  pub admin_email : String

pub record OrganizationMembershipItem : Type 0 where
  pub id : ℕ
  pub name : String
  pub role : String
  pub active : Bool

module _ {A : Type 0} where
  -- `except IntegrityError`, for the constraint of the email.
  abbrev email_conflict : Result A × Db → Result A × Db
  email_conflict (err (integrity_error users_email_key), db) = (err user_email_conflict, db)
  email_conflict out = out

-- The three checks of the arguments.
unfoldable pub is_bootstrap_valid :
    Environment → (organization_name admin_email admin_password : String) → Bool
unfolding strip text_length has_char
is_bootstrap_valid env organization_name admin_email admin_password =
    not (str_eq (strip organization_name) "")
    && has_char 64 (env.lower (strip admin_email))
    && not (ltb (text_length admin_password) 12)

module _ (env : Environment) (call : Call) where
  abbrev new_organization : String → Organization
  new_organization name = record {
    id = call.uuid4 0;
    name = name;
    active = true;
    salesperson_max_discount_rate = 1000;
    created_at = call.now;
  }

  unfoldable pub bootstrap_transaction : (name email password_hash : String) → Tx BootstrapResult
  unfolding insert_user insert_membership
  bootstrap_transaction name email password_hash = do
    raise_if (not (holds_text 160 name)) text_data_error
    modify (λ db. record db { organizations = new_organization name ∷ db.organizations })
    raise_if (not (holds_text 320 email)) text_data_error
    insert_user (new_user (call.uuid4 1) email password_hash call.now)
    insert_membership (new_membership (call.uuid4 0) (call.uuid4 1) "admin")
    pure (record {
      organization_id = call.uuid4 0;
      admin_user_id = call.uuid4 1;
      admin_email = email;
    })

  unfoldable pub bootstrap_organization :
      (organization_name admin_email admin_password : String) → Db → Result BootstrapResult × Db
  unfolding is_bootstrap_valid strip begin
  bootstrap_organization organization_name admin_email admin_password db =
      if not (is_bootstrap_valid env organization_name admin_email admin_password)
      then (err bootstrap_validation_error, db)
      else email_conflict (
          begin
            (bootstrap_transaction (strip organization_name) (env.lower (strip admin_email))
              (env.hash admin_password))
            db)

abbrev pub organization_item : Membership → Organization → OrganizationMembershipItem
organization_item m o = record { id = o.id; name = o.name; role = m.role; active = o.active }

-- The organizations joined with the memberships of a user.
abbrev pub join_organizations :
    List Organization → List Membership → List OrganizationMembershipItem
join_organizations organizations [] = []
join_organizations organizations (m ∷ ms) =
    map (organization_item m) (keep (λ o. o.id == m.organization_id) organizations)
    ++ join_organizations organizations ms

-- `order_by(Organization.name, Organization.id)`
abbrev pub organization_before :
    Environment → OrganizationMembershipItem → OrganizationMembershipItem → Bool
organization_before env a b =
    env.collates a.name b.name || (not (env.collates b.name a.name) && ltb a.id b.id)

unfoldable pub list_user_organizations :
    Environment → (user_id : ℕ) → Db → List OrganizationMembershipItem
unfolding ordered
list_user_organizations env user_id db =
    ordered (λ i. i.id) (organization_before env)
      (join_organizations db.organizations (keep (λ m. m.user_id == user_id) db.memberships))
