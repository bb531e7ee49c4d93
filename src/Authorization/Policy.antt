-- ===== src/Authorization/Policy.antt =====
-- Who may do what.
use dpg_business_app_starter.Base.{String, ◌≡◌, ◌↔◌, ◌⊎◌, true, str_eq, str_eq_iff, arith}
use dpg_business_app_starter.Database.{
  ok, Permission, inventory_read, inventory_receive, inventory_issue, inventory_transfer,
  sales_create, sales_read,
}
use dpg_business_app_starter.Authorization.{CurrentMembership, require_permission}

-- The permissions of a warehouse manager and of a salesperson.
abbrev pub ForManager : Permission → Type 0
ForManager inventory_read = Unit
ForManager inventory_receive = Unit
ForManager inventory_issue = Unit
ForManager inventory_transfer = Unit
ForManager _ = ⊥

abbrev pub ForSales : Permission → Type 0
ForSales inventory_read = Unit
ForSales sales_create = Unit
ForSales sales_read = Unit
ForSales _ = ⊥

-- What the comparison of two texts says, which decides it where they are closed.
abbrev Compared : String → String → Type 0
Compared s t = (str_eq s t ≡ true) ↔ (s ≡ t)

-- What the comparisons of a role with the three known names say.
role_tests :
    (role : String)
    → ((str_eq role "admin" ≡ true) ↔ (role ≡ "admin"))
      × ((str_eq role "warehouse_manager" ≡ true) ↔ (role ≡ "warehouse_manager"))
      × ((str_eq role "salesperson" ≡ true) ↔ (role ≡ "salesperson"))
      × Compared "admin" "warehouse_manager"
      × Compared "admin" "salesperson"
      × Compared "warehouse_manager" "salesperson"
role_tests role = (
  str_eq_iff role "admin",
  str_eq_iff role "warehouse_manager",
  str_eq_iff role "salesperson",
  str_eq_iff "admin" "warehouse_manager",
  str_eq_iff "admin" "salesperson",
  str_eq_iff "warehouse_manager" "salesperson",
)

-- A permission is granted exactly to an admin, to a warehouse manager if it is one of reading,
-- receiving, issuing and transferring stock, and to a salesperson if it is one of reading stock,
-- creating and reading sales; any other role has none.
pub permission_granted_iff :
    (m : CurrentMembership) (p : Permission)
    → (require_permission m p ≡ ok tt) ↔ (
        (m.role ≡ "admin")
        ⊎ ((m.role ≡ "warehouse_manager") × ForManager p)
        ⊎ ((m.role ≡ "salesperson") × ForSales p))
unfolding require_permission
permission_granted_iff m inventory_read =
    (λ h. ground (arith, role_tests m.role), λ h. ground (arith, role_tests m.role))
permission_granted_iff m _ =
    (λ h. ground (arith, role_tests m.role), λ h. ground (arith, role_tests m.role))
