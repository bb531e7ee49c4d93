-- ===== src/Accounts.antt =====
-- Users, their memberships and the ways into an organization: app/core/security.py and the packages
-- organizations, memberships and invitations of app/modules.
pub mod Security
pub mod Organizations
pub mod Members
pub mod Invitations
use dpg_business_app_starter.Base.{ℕ, String, ◌==◌, ◌&&◌, none, str_eq, any, ◌∷◌, true}
use dpg_business_app_starter.Database.{
  Db, Tx, User, Membership, raise_if, gets, modify, ◌>>=◌, ◌>>◌, integrity_error, users_email_key,
  memberships_pkey, is_member,
}

pub record CurrentUser : Type 0 where
  pub id : ℕ
  pub email : String

-- A new user and a new membership with the defaults of their tables.
abbrev pub new_user : (id : ℕ) (email password_hash : String) (now : ℕ) → User
new_user id email password_hash now = record {
  id = id;
  email = email;
  password_hash = password_hash;
  active = true;
  created_at = now;
}

abbrev pub new_membership : (organization user : ℕ) (role : String) → Membership
new_membership organization user role = record {
  organization_id = organization;
  user_id = user;
  role = role;
  approval_pin_hash = none;
  approval_pin_failures = 0;
  approval_pin_locked_until = none;
}

-- The inserts, with the constraints that they can violate.
unfoldable pub insert_user : User → Tx (Unit {0})
insert_user u = do
  taken ← gets (λ db. any (λ v. str_eq v.email u.email) db.users)
  raise_if taken (integrity_error users_email_key)
  modify (λ db. record db { users = u ∷ db.users })

unfoldable pub insert_membership : Membership → Tx (Unit {0})
insert_membership m = do
  known ← gets (is_member m.organization_id m.user_id)
  raise_if known (integrity_error memberships_pkey)
  modify (λ db. record db { memberships = m ∷ db.memberships })
