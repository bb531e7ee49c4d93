-- ===== src/Inventory/UseCases/Isolation.antt =====
-- Who may move stock, and that nobody moves the stock of another organization.
use dpg_business_app_starter.Base.{◌≡◌, ◌≢◌, ◌⊎◌, inl, inr, arith, Bool-cases, ◌==◌, ap}
use dpg_business_app_starter.Database.{
  Db, ok, Environment, Call, BalanceKey, inventory_read, inventory_receive, inventory_issue,
  inventory_transfer, sales_create, sales_read, same_key_iff, set_balance, Permission,
}
use dpg_business_app_starter.Database.Laws.{Result-cases}
use dpg_business_app_starter.Authorization.{CurrentMembership, require_permission}
use dpg_business_app_starter.Authorization.Policy.{ForSales, permission_granted_iff}
use dpg_business_app_starter.Inventory.Movement.{MovementResult, record_stock_movement}
use dpg_business_app_starter.Inventory.Movement.Effects.{
  movement_transaction-writes, record_stock_movement-Outcome, stock_key,
}
use dpg_business_app_starter.Inventory.UseCases.{
  RecordManualMovementCommand, movement_permission, movement_command, permitted,
  record_manual_stock_movement,
}

-- The permissions of movements and transfers are those of two roles.
may_move :
    (m : CurrentMembership) (p : Permission)
    → (p ≡ inventory_receive) ⊎ (p ≡ inventory_issue) ⊎ (p ≡ inventory_transfer)
    → require_permission m p ≡ ok tt
    → (m.role ≡ "admin") ⊎ (m.role ≡ "warehouse_manager")
may_move m p which h = elim ((permission_granted_iff m p).0 h) [
  | inl admin ↦ inl admin
  | inr (inl (manager, _)) ↦ inr manager
  | inr (inr (_, sales)) ↦ absurd (not_for_sales p which sales)
]
  where
    not_for_sales :
        (p : Permission)
        → (p ≡ inventory_receive) ⊎ (p ≡ inventory_issue) ⊎ (p ≡ inventory_transfer)
        → ForSales p
        → ⊥
    not_for_sales inventory_read which s = ground arith
    not_for_sales sales_create which s = ground arith
    not_for_sales sales_read which s = ground arith
    not_for_sales _ which s = s

module _ (env : Environment) (call : Call) (m : CurrentMembership) where
  -- Only an admin or a warehouse manager of the organization of the command gets a result of a
  -- manual movement.
  manual_movement_roles :
      (c : RecordManualMovementCommand) (db : Db) (r : MovementResult)
      → (record_manual_stock_movement env call m c db).0 ≡ ok r
      → (m.organization_id ≡ c.organization_id)
        × ((m.role ≡ "admin") ⊎ (m.role ≡ "warehouse_manager"))
  unfolding record_manual_stock_movement permitted
  manual_movement_roles c db r h =
      elim (Result-cases (require_permission m (movement_permission c.movement_type))) [
        | inr (e, f) ↦ absurd (ground arith)
        | inl (u, f) ↦
            (ground arith, may_move m (movement_permission c.movement_type) (ground arith) f)
      ]

  -- A movement leaves every row of another organization alone.
  movement-LeavesOthers :
      (c : RecordManualMovementCommand) (db : Db) (k : BalanceKey)
      → k.organization_id ≢ c.organization_id
      → ((record_stock_movement env call (movement_command m c) db).1.balances k ≡ db.balances k)
        ⊎ ((record_stock_movement env call (movement_command m c) db).1.balances k
            ≡ (call.concurrent db).balances k)
  unfolding set_balance
  movement-LeavesOthers c db k ne =
      elim (record_stock_movement-Outcome env call (movement_command m c) db) [
        | inl (e, _) ↦ inl (ap (λ (d : Db). d.balances k) e)
        | inr (inl (e, _)) ↦ inr (ap (λ (d : Db). d.balances k) e)
        | inr (inr (r, db', e, f)) ↦
            let (written, _, _) =
              movement_transaction-writes env call (movement_command m c) (call.concurrent db) r db'
                e in
            inr (
              ground
                (arith, f, written, same_key_iff (stock_key env call (movement_command m c)) k))
      ]

  -- A manual movement leaves the stock of every organization but the member's own as it was before,
  -- or as other clients left it.
  pub manual_movement_isolated :
      (c : RecordManualMovementCommand) (db : Db) (k : BalanceKey)
      → k.organization_id ≢ m.organization_id
      → ((record_manual_stock_movement env call m c db).1.balances k ≡ db.balances k)
        ⊎ ((record_manual_stock_movement env call m c db).1.balances k
            ≡ (call.concurrent db).balances k)
  unfolding record_manual_stock_movement permitted
  manual_movement_isolated c db k ne = elim (Bool-cases (m.organization_id == c.organization_id)) [
    | inr other ↦ inl (rw other)
    | inl own ↦
        rw own (elim (Result-cases (require_permission m (movement_permission c.movement_type))) [
          | inr (e, f) ↦ inl (ground arith)
          | inl (u, f) ↦ rw (f, permitted) (movement-LeavesOthers c db k (ground arith))
        ])
  ]
