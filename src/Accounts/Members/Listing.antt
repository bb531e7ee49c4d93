-- ===== src/Accounts/Members/Listing.antt =====
-- Who is listed: the lists of members and of organizations against the memberships
-- (app/modules/memberships/use_cases.py and app/modules/organizations/use_cases.py).
use dpg_business_app_starter.Base.{
  ℕ, ◌≡◌, refl, ◌∙◌, arith, Bool, ◌&&◌, ◌||◌, ◌==◌, List, [], ◌∷◌, ◌++◌, map, keep, any, Bool-cases,
  inl, inr,
}
use dpg_business_app_starter.Database.{Db, Environment, User, Membership, Organization, is_member}
use dpg_business_app_starter.Database.Pages.Order.{any-ordered}
use dpg_business_app_starter.Accounts.Members.{MemberItem, member_item}
use dpg_business_app_starter.Accounts.Organizations.{
  organization_item, join_organizations, organization_before, list_user_organizations,
}

any-append {ℓ} :
    {A : Type ℓ} (p : A → Bool) (xs ys : List A) → any p (xs ++ ys) ≡ (any p xs || any p ys)
any-append p [] ys = refl
any-append p (x ∷ xs) ys = ground (arith, any-append p xs ys)

-- A membership of the organization with a user whose item passes the test.
abbrev pub is_joined : (MemberItem → Bool) → (organization : ℕ) → List User → Membership → Bool
is_joined p organization us r =
    r.organization_id == organization && any (λ u. u.id == r.user_id && p (member_item r u)) us

joined_organizations :
    (m : Membership) (organization : ℕ) (os : List Organization)
    → any
        (λ i. i.id == organization)
        (map (organization_item m) (keep (λ o. o.id == m.organization_id) os))
      ≡ (m.organization_id == organization && any (λ o. o.id == organization) os)
joined_organizations m organization [] = ground arith
joined_organizations m organization (o ∷ os) =
    ground (arith, joined_organizations m organization os)

join_organizations-any :
    (organization user : ℕ) (os : List Organization) (ms : List Membership)
    → any (λ i. i.id == organization) (join_organizations os (keep (λ m. m.user_id == user) ms)) ≡ (
        any (λ m. m.organization_id == organization && m.user_id == user) ms
        && any (λ o. o.id == organization) os)
join_organizations-any organization user os [] = refl
join_organizations-any organization user os (m ∷ ms) = elim (Bool-cases (m.user_id == user)) [
  | inr other ↦ ground (arith, join_organizations-any organization user os ms)
  | inl same ↦ ground (
    arith,
    join_organizations-any organization user os ms,
    joined_organizations m organization os,
    any-append (λ i. i.id == organization)
        (map (organization_item m) (keep (λ o. o.id == m.organization_id) os))
        (join_organizations os (keep (λ m. m.user_id == user) ms)),
  )
]

-- A user's list of organizations shows exactly the organizations of the table of which the user has
-- a membership, which is what admits the user to them.
listed_organizations_admit :
    (env : Environment) (user organization : ℕ) (db : Db)
    → any (λ i. i.id == organization) (list_user_organizations env user db)
      ≡ (is_member organization user db && any (λ o. o.id == organization) db.organizations)
unfolding list_user_organizations
listed_organizations_admit env user organization db =
    any-ordered (λ i. i.id) (organization_before env) (λ i. i.id == organization)
      (join_organizations db.organizations (keep (λ m. m.user_id == user) db.memberships))
    ∙ join_organizations-any organization user db.organizations db.memberships
