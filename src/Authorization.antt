-- ===== src/Authorization.antt =====
-- app/core/authorization.py: the roles, their permissions and the membership behind a request.
pub mod Policy
use dpg_business_app_starter.Base.{
  ℕ, String, Bool, true, false, Option, none, some, List, [], ◌∷◌, ◌==◌, ◌&&◌, any, find, str_eq,
  if◌then◌else◌,
}
use dpg_business_app_starter.Database.{
  Db, Result, ok, err, Membership, Permission, inventory_read, inventory_receive, inventory_issue,
  inventory_transfer, inventory_adjust, catalog_manage, members_manage, sales_create, sales_read,
  sales_return, permission_denied, organization_not_found,
}

pub record CurrentMembership : Type 0 where
  pub organization_id : ℕ
  pub user_id : ℕ
  pub role : String

-- `frozenset(Permission)`
abbrev all_permissions : List Permission
all_permissions =
    inventory_read ∷ inventory_receive ∷ inventory_issue ∷ inventory_transfer ∷ inventory_adjust
    ∷ catalog_manage ∷ members_manage ∷ sales_create ∷ sales_read ∷ sales_return ∷ []

abbrev same_permission : Permission → Permission → Bool
same_permission inventory_read inventory_read = true
same_permission inventory_receive inventory_receive = true
same_permission inventory_issue inventory_issue = true
same_permission inventory_transfer inventory_transfer = true
same_permission inventory_adjust inventory_adjust = true
same_permission catalog_manage catalog_manage = true
same_permission members_manage members_manage = true
same_permission sales_create sales_create = true
same_permission sales_read sales_read = true
same_permission sales_return sales_return = true
same_permission _ _ = false

-- `ROLE_PERMISSIONS.get(role, frozenset())`
unfoldable role_permissions : String → List Permission
role_permissions role =
    if str_eq role "admin"
    then all_permissions
    else if str_eq role "warehouse_manager"
    then inventory_read ∷ inventory_receive ∷ inventory_issue ∷ inventory_transfer ∷ []
    else if str_eq role "salesperson"
    then inventory_read ∷ sales_create ∷ sales_read ∷ []
    else []

unfoldable pub require_permission : CurrentMembership → Permission → Result (Unit {0})
unfolding role_permissions
require_permission membership permission =
    if any (same_permission permission) (role_permissions membership.role)
    then ok tt
    else err (permission_denied permission)

module _ {A : Type 0} where
  -- A query behind a permission.
  unfoldable pub allowed : CurrentMembership → Permission → Result A → Result A
  allowed m p result = elim (require_permission m p) [ ok _ ↦ result | err e ↦ err e ]

-- The membership of the current user in the organization of the request.
unfoldable pub get_current_membership : ℕ → ℕ → Db → Result CurrentMembership
get_current_membership organization user db =
    elim (find (λ m. m.organization_id == organization && m.user_id == user) db.memberships) [
      | none ↦ err organization_not_found
      | some m ↦ ok (record { organization_id = organization; user_id = user; role = m.role })
    ]
