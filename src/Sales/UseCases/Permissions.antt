-- ===== src/Sales/UseCases/Permissions.antt =====
-- Who may sell and return, and what a new PIN is good for (app/modules/sales/use_cases.py).
use dpg_business_app_starter.Base.{
  ℕ, true, some, refl, ap, ◌∙◌, String, find, find_sound, find_update_within, str_eq_iff, ◌≡◌, ◌⊎◌,
  inl, inr, arith,
}
use dpg_business_app_starter.Database.{
  Db, Membership, ok, Environment, Call, sales_create, sales_return,
}
use dpg_business_app_starter.Database.Laws.{Result-cases}
use dpg_business_app_starter.Authorization.{CurrentMembership, require_permission}
use dpg_business_app_starter.Authorization.Policy.{permission_granted_iff}
use dpg_business_app_starter.Sales.Commands.{CreateSaleCommand, SaleResult}
use dpg_business_app_starter.Sales.Approval.{granted, membership_of, check_pin}
use dpg_business_app_starter.Sales.Approval.Lockout.{right_pin_resets}
use dpg_business_app_starter.Sales.Returns.{SaleReturnResult}
use dpg_business_app_starter.Sales.UseCases.{
  SubmitSaleCommand, SubmitSaleReturnCommand, submit_sale, submit_sale_return, own_admin_row,
  with_pin, set_approval_pin,
}

-- Returning is an admin's permission alone.
pub may_return :
    (m : CurrentMembership) → require_permission m sales_return ≡ ok tt → m.role ≡ "admin"
may_return m h = elim ((permission_granted_iff m sales_return).0 h) [
  | inl admin ↦ admin
  | inr (inl (_, refuted)) ↦ absurd refuted
  | inr (inr (_, refuted)) ↦ absurd refuted
]

pub may_sell :
    (m : CurrentMembership)
    → require_permission m sales_create ≡ ok tt
    → (m.role ≡ "admin") ⊎ (m.role ≡ "salesperson")
may_sell m h = elim ((permission_granted_iff m sales_create).0 h) [
  | inl admin ↦ inl admin
  | inr (inl (_, refuted)) ↦ absurd refuted
  | inr (inr (sales, _)) ↦ inr sales
]

module _ (env : Environment) (call : Call) (m : CurrentMembership) (db : Db) where
  -- Only an admin or a salesperson gets a result of a sale.
  submit_sale_roles :
      (c : SubmitSaleCommand) (r : SaleResult)
      → (submit_sale env call m c db).0 ≡ ok r
      → (m.role ≡ "admin") ⊎ (m.role ≡ "salesperson")
  unfolding submit_sale
  submit_sale_roles c r h = elim (Result-cases (require_permission m sales_create)) [
    | inr (e, f) ↦ absurd (ground arith)
    | inl (u, f) ↦ may_sell m f
  ]

  -- Only an admin gets a result of a return.
  submit_sale_return_roles :
      (c : SubmitSaleReturnCommand) (r : SaleReturnResult)
      → (submit_sale_return env call m c db).0 ≡ ok r
      → m.role ≡ "admin"
  unfolding submit_sale_return
  submit_sale_return_roles c r h = elim (Result-cases (require_permission m sales_return)) [
    | inr (e, f) ↦ absurd (ground arith)
    | inl (u, f) ↦ may_return m f
  ]

  -- After an administrator has set an approval PIN, the next approval in their organization under
  -- their name and with that PIN is granted, whatever failures or lock there were before, if the
  -- verification accepts what the hashing has made of the PIN.
  pub new_pin_approves :
      (c : CreateSaleCommand) (pin : String) (row : Membership)
      → env.verify pin (env.hash pin) ≡ true
      → m.role ≡ "admin"
      → find (membership_of m.organization_id m.user_id) db.memberships ≡ some row
      → row.role ≡ "admin"
      → c.organization_id ≡ m.organization_id
      → (db' : Db) × (check_pin env call c
            (record { approver_user_id = m.user_id; pin = pin })
            (set_approval_pin env call m pin db).1
          ≡ ok (granted (some m.user_id), db'))
  unfolding set_approval_pin
  new_pin_approves c pin row v admin f r same =
      let own = membership_of m.organization_id m.user_id in
      let is_own : own row ≡ true = find_sound own db.memberships row f in
      let after = (set_approval_pin env call m pin db).1 in
      let found : find own after.memberships ≡ some (with_pin env call m pin row) = ground (
        arith,
        str_eq_iff m.role "admin",
        find_update_within (own_admin_row env call m) own (with_pin env call m pin) db.memberships
            row (λ y h. ground arith) (λ y. refl) f
            (ground (arith, is_own, str_eq_iff row.role "admin")),
      ) in
      let (db', granted_e, _) =
        right_pin_resets env call c after (record { approver_user_id = m.user_id; pin = pin })
          (with_pin env call m pin row)
          (ap (λ (o : ℕ). find (membership_of o m.user_id) after.memberships) same ∙ found) r refl
          v in
      (db', granted_e)
