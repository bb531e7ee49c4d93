-- ===== src/Accounts/Members.antt =====
-- The members of an organization (app/modules/memberships/use_cases.py).
pub mod Listing
use dpg_business_app_starter.Base.{
  ℕ, String, Bool, not, ◌==◌, ◌&&◌, ◌||◌, List, [], ◌∷◌, ◌++◌, map, keep, ltb,
}
use dpg_business_app_starter.Database.{
  Db, Result, ok, Environment, User, Membership, members_manage,
}
use dpg_business_app_starter.Database.Pages.{ordered}
use dpg_business_app_starter.Authorization.{CurrentMembership, allowed}

pub record MemberItem : Type 0 where
  pub user_id : ℕ
  pub email : String
  pub role : String
  pub active : Bool

abbrev pub member_item : Membership → User → MemberItem
member_item m u = record { user_id = u.id; email = u.email; role = m.role; active = u.active }

-- The users joined with the memberships.
abbrev pub join_members : List User → List Membership → List MemberItem
join_members users [] = []
join_members users (m ∷ ms) =
    map (member_item m) (keep (λ u. u.id == m.user_id) users) ++ join_members users ms

-- `order_by(User.email, User.id)`
abbrev pub member_before : Environment → MemberItem → MemberItem → Bool
member_before env a b =
    env.collates a.email b.email || (not (env.collates b.email a.email) && ltb a.user_id b.user_id)

unfoldable pub list_members : Environment → CurrentMembership → Db → Result (List MemberItem)
unfolding allowed ordered
list_members env m db = allowed m members_manage (
    ok (
      ordered (λ i. i.user_id) (member_before env)
        (join_members db.users
          (keep (λ r. r.organization_id == m.organization_id) db.memberships))))
