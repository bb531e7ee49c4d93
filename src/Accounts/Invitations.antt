-- ===== src/Accounts/Invitations.antt =====
-- Invitations into an organization (app/modules/invitations/use_cases.py).
pub mod Acceptance
pub mod Lifecycle
use dpg_business_app_starter.Base.{
  ℕ, ◌+◌, ◌*◌, ◌^◌, String, Bool, true, false, not, Option, none, some, is_some, ◌==◌, ◌&&◌, ◌||◌,
  leb, ◌∷◌, find, any, strip, str_eq, update_where, if◌then◌else◌,
}
use dpg_business_app_starter.Database.{
  Db, Tx, Result, ok, err, Environment, Call, User, OrganizationInvitation, Permission,
  members_manage, value_error, invalid_invitation, existing_user_authentication_required,
  invitation_membership_conflict, integrity_error, users_email_key, memberships_pkey,
  uq_invitations_token_hash, fk_invitations_inviter_membership, is_member, raise_if, gets, modify,
  pure, ◌>>=◌, ◌>>◌, begin,
}
use dpg_business_app_starter.Authorization.{CurrentMembership, require_permission}
use dpg_business_app_starter.Inventory.UseCases.{permitted}
use dpg_business_app_starter.Accounts.{
  CurrentUser, new_user, new_membership, insert_user, insert_membership,
}

abbrev invitation_lifetime_hours : ℕ
invitation_lifetime_hours = 24

-- `role in ALLOWED_ROLES`
unfoldable is_allowed_role : String → Bool
is_allowed_role role =
    str_eq role "admin" || str_eq role "warehouse_manager" || str_eq role "salesperson"

pub record InvitationCreated : Type 0 where
  pub id : ℕ
  pub email : String
  pub role : String
  pub expires_at : ℕ
  pub acceptance_token : String

pub record InvitationAccepted : Type 0 where
  pub organization_id : ℕ
  pub user_id : ℕ
  pub role : String

-- Neither accepted nor revoked.
abbrev pub is_open : OrganizationInvitation → Bool
is_open i = not (is_some i.accepted_at) && not (is_some i.revoked_at)

-- The insert of an invitation, with the constraints that it can violate.
unfoldable pub insert_invitation : OrganizationInvitation → Tx (Unit {0})
insert_invitation i = do
  taken ← gets (λ db. any (λ o. str_eq o.token_hash i.token_hash) db.invitations)
  raise_if taken (integrity_error uq_invitations_token_hash)
  member ← gets (is_member i.organization_id i.invited_by_user_id)
  raise_if (not member) (integrity_error fk_invitations_inviter_membership)
  modify (λ db. record db { invitations = i ∷ db.invitations })

module _ {A : Type 0} where
  -- `except IntegrityError` of the acceptance.
  abbrev acceptance_conflict : Result A × Db → Result A × Db
  acceptance_conflict (err (integrity_error memberships_pkey), db) =
      (err invitation_membership_conflict, db)
  acceptance_conflict (err (integrity_error users_email_key), db) =
      (err existing_user_authentication_required, db)
  acceptance_conflict out = out

-- Who is to be a member: a user that is there, or a new one with a password's hash.
pub data Acceptor : Type 0 where
  existing : (user : ℕ) → Acceptor
  fresh : (password_hash : String) → Acceptor

module _ (env : Environment) (call : Call) where
  module _ (m : CurrentMembership) where
    abbrev pub new_invitation : (email role : String) → OrganizationInvitation
    new_invitation email role = record {
      id = call.uuid4 0;
      organization_id = m.organization_id;
      email = email;
      role = role;
      token_hash = env.token_digest call.token_urlsafe;
      invited_by_user_id = m.user_id;
      expires_at = call.now + invitation_lifetime_hours * (3600 * 10 ^ 6);
      accepted_at = none;
      revoked_at = none;
      created_at = call.now;
    }

    -- The earlier invitations of the same address that are still open.
    abbrev pub is_superseded : String → OrganizationInvitation → Bool
    is_superseded email i =
        i.organization_id == m.organization_id && str_eq i.email email && is_open i

    abbrev pub revoke : OrganizationInvitation → OrganizationInvitation
    revoke i = record i { revoked_at = some call.now }

    unfoldable pub create_invitation : (email role : String) → Db → Result InvitationCreated × Db
    unfolding permitted begin insert_invitation is_allowed_role strip
    create_invitation email role = permitted m members_manage (λ db.
        let normalized = env.lower (strip email) in
        if not (is_allowed_role role)
        then (err value_error, db)
        else begin
            (do
              modify (λ db. record db {
                invitations = update_where (is_superseded normalized) revoke db.invitations;
              })
              insert_invitation (new_invitation normalized role)
              pure (record {
                id = call.uuid4 0;
                email = normalized;
                role = role;
                expires_at = call.now + invitation_lifetime_hours * (3600 * 10 ^ 6);
                acceptance_token = call.token_urlsafe;
              }))
            db)

  abbrev pub has_token : String → OrganizationInvitation → Bool
  has_token token i = str_eq i.token_hash (env.token_digest token)

  -- The locked row of the token, if it can be accepted now.
  unfoldable pub valid_invitation : String → Db → Result OrganizationInvitation
  valid_invitation token db = elim (find (has_token token) db.invitations) [
    | none ↦ err invalid_invitation
    | some i ↦
        if is_some i.accepted_at || is_some i.revoked_at || leb i.expires_at call.now
        then err invalid_invitation
        else ok i
  ]

  unfoldable pub acceptor_of :
      Option String → Option CurrentUser → OrganizationInvitation → Db → Result Acceptor
  acceptor_of password current_user i db = elim (find (λ u. str_eq u.email i.email) db.users) [
    | some u ↦ elim current_user [
      | none ↦ err existing_user_authentication_required
      | some c ↦
          if not u.active || not (c.id == u.id)
          then err existing_user_authentication_required
          else ok (existing u.id)
    ]
    | none ↦ elim current_user [
      | some c ↦ err invalid_invitation
      | none ↦ elim password [
        | none ↦ err invalid_invitation
        | some text ↦ ok (fresh (env.hash text))
      ]
    ]
  ]

  unfoldable pub write_user : OrganizationInvitation → Acceptor → Tx ℕ
  unfolding insert_user
  write_user i (existing user) = pure user
  write_user i (fresh password_hash) = do
    insert_user (new_user (call.uuid4 0) i.email password_hash call.now)
    pure (call.uuid4 0)

  unfoldable pub write_acceptance : OrganizationInvitation → Acceptor → Tx InvitationAccepted
  unfolding write_user insert_membership
  write_acceptance i acceptor = do
    user ← write_user i acceptor
    insert_membership (new_membership i.organization_id user i.role)
    modify (λ db. record db {
      invitations =
          update_where (λ o. o.id == i.id) (λ o. record o { accepted_at = some call.now })
            db.invitations;
    })
    pure (record { organization_id = i.organization_id; user_id = user; role = i.role })

  -- One transaction: between its reads and its writes other clients commit, but the row of the
  -- invitation is locked.
  unfoldable pub accept_invitation :
      (token : String) (password : Option String) (current_user : Option CurrentUser)
      → Db
      → Result InvitationAccepted × Db
  unfolding valid_invitation acceptor_of write_acceptance begin
  accept_invitation token password current_user db = elim (valid_invitation token db) [
    | err e ↦ (err e, db)
    | ok i ↦ elim (acceptor_of password current_user i db) [
      | err e ↦ (err e, db)
      | ok acceptor ↦ acceptance_conflict (begin (write_acceptance i acceptor) (call.concurrent db))
    ]
  ]
