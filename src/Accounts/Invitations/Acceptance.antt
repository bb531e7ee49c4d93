-- ===== src/Accounts/Invitations/Acceptance.antt =====
-- Who gets in by an invitation, and how often (app/modules/invitations/use_cases.py).
use dpg_business_app_starter.Base.{
  ◌<◌, ◌≡◌, refl, arith, String, true, ◌&&◌, ◌==◌, Option, none, some, any, find, update_where,
  Option-cases, inl, inr, ◌⊎◌, str_eq, str_eq_iff,
}
use dpg_business_app_starter.Database.{Db, ok, Environment, Call, User, OrganizationInvitation}
use dpg_business_app_starter.Database.Laws.{Result-cases}
use dpg_business_app_starter.Authorization.{get_current_membership}
use dpg_business_app_starter.Accounts.{CurrentUser, new_membership, insert_user, insert_membership}
use dpg_business_app_starter.Accounts.Invitations.{
  InvitationAccepted, Acceptor, existing, fresh, is_open, has_token, valid_invitation, acceptor_of,
  write_user, write_acceptance, accept_invitation,
}

module _ (env : Environment) (call : Call) where
  -- What a committed acceptance has read and written.
  pub record Accepted (token : String) (password : Option String)
      (current_user : Option CurrentUser) (db : Db) (r : InvitationAccepted) (db' : Db)
      : Type 0 where
    pub invitation : OrganizationInvitation
    pub found : find (has_token env call token) db.invitations ≡ some invitation
    pub pending : is_open invitation ≡ true
    pub in_time : call.now < invitation.expires_at
    pub acceptor : Acceptor
    pub accepting : acceptor_of env call password current_user invitation db ≡ ok acceptor
    pub result : (r.organization_id ≡ invitation.organization_id) × (r.role ≡ invitation.role)
    pub written : write_acceptance env call invitation acceptor (call.concurrent db) ≡ ok (r, db')

  valid_invitation-open :
      (token : String) (db : Db) (i : OrganizationInvitation)
      → valid_invitation env call token db ≡ ok i
      → (find (has_token env call token) db.invitations ≡ some i)
        × (is_open i ≡ true)
        × (call.now < i.expires_at)
  unfolding valid_invitation
  valid_invitation-open token db i h =
      elim (Option-cases (find (has_token env call token) db.invitations)) [
        | inl none_e ↦ absurd (ground arith)
        | inr (j, j_e) ↦ ground arith
      ]

  pub write_acceptance-result :
      (i : OrganizationInvitation) (a : Acceptor) (db : Db) (r : InvitationAccepted) (db' : Db)
      → write_acceptance env call i a db ≡ ok (r, db')
      → (r.organization_id ≡ i.organization_id)
        × (r.role ≡ i.role)
        × (find
              (λ m. m.organization_id == i.organization_id && m.user_id == r.user_id)
              db'.memberships
            ≡ some (new_membership i.organization_id r.user_id i.role))
        × (db'.invitations
            ≡ update_where
                (λ o. o.id == i.id)
                (λ o. record o { accepted_at = some call.now })
                db.invitations)
  unfolding write_acceptance write_user insert_user insert_membership
  write_acceptance-result i (existing user) db r db' h = ground arith
  write_acceptance-result i (fresh hash) db r db' h = ground arith

  pub accept_invitation-Accepted :
      (token : String) (password : Option String) (current_user : Option CurrentUser) (db : Db)
      (r : InvitationAccepted)
      → (accept_invitation env call token password current_user db).0 ≡ ok r
      → Accepted token password current_user db r
          (accept_invitation env call token password current_user db).1
  unfolding accept_invitation
  accept_invitation-Accepted token password current_user db r h =
      elim (Result-cases (valid_invitation env call token db)) [
        | inr (e, f) ↦ absurd (ground arith)
        | inl (i, f) ↦ elim (Result-cases (acceptor_of env call password current_user i db)) [
          | inr (e, g) ↦ absurd (ground arith)
          | inl (a, g) ↦ elim (Result-cases (write_acceptance env call i a (call.concurrent db))) [
            | inr (e, w) ↦ absurd (ground arith)
            | inl ((r', db'), w) ↦
                let o = valid_invitation-open token db i f in
                let same : r ≡ r' = ground arith in
                let result = write_acceptance-result i a (call.concurrent db) r' db' w in
                record {
                  invitation = i;
                  found = o.0;
                  pending = o.1;
                  in_time = o.2;
                  acceptor = a;
                  accepting = g;
                  result = ground (arith, result.0, result.1);
                  written = ground arith;
                }
          ]
        ]
      ]

  new_user_there :
      (password : Option String) (i : OrganizationInvitation) (a : Acceptor) (db : Db)
      (r : InvitationAccepted) (db' : Db)
      → find (λ u. str_eq u.email i.email) db.users ≡ none
      → acceptor_of env call password none i db ≡ ok a
      → write_acceptance env call i a (call.concurrent db) ≡ ok (r, db')
      → any (λ u. str_eq u.email i.email && u.id == r.user_id) db'.users ≡ true
  unfolding acceptor_of write_acceptance write_user insert_user insert_membership
  new_user_there password i (existing user) db r db' f h w = absurd (ground arith)
  new_user_there password i (fresh hash) db r db' f h w = ground (arith, str_eq_iff i.email i.email)

  -- Who the acceptor is.
  acceptor-cases :
      (password : Option String) (current_user : Option CurrentUser) (i : OrganizationInvitation)
      (a : Acceptor) (db : Db) (r : InvitationAccepted) (db' : Db)
      → acceptor_of env call password current_user i db ≡ ok a
      → write_acceptance env call i a (call.concurrent db) ≡ ok (r, db')
      → ((c : CurrentUser) × (u : User) × (current_user ≡ some c)
          × (find (λ u. str_eq u.email i.email) db.users ≡ some u)
          × (u.active ≡ true)
          × (u.id ≡ c.id)
          × (r.user_id ≡ c.id))
        ⊎ ((current_user ≡ none)
            × (find (λ u. str_eq u.email i.email) db.users ≡ none)
            × (any (λ u. str_eq u.email i.email && u.id == r.user_id) db'.users ≡ true))
  unfolding acceptor_of write_acceptance write_user insert_user insert_membership
  acceptor-cases password none i a db r db' h w =
      elim (Option-cases (find (λ u. str_eq u.email i.email) db.users)) [
        | inr (u, f) ↦ absurd (ground arith)
        | inl f ↦ inr (refl, f, new_user_there password i a db r db' f h w)
      ]
  acceptor-cases password (some c) i a db r db' h w =
      elim (Option-cases (find (λ u. str_eq u.email i.email) db.users)) [
        | inl f ↦ absurd (ground arith)
        | inr (u, f) ↦ inl (c, u, refl, f, ground arith, ground arith, ground arith)
      ]

  -- Whoever gets in by a token has the one invitation of that token, which is neither accepted nor
  -- revoked nor expired; and is then a member of its organization with its role. The user is the
  -- current user, active and with the address of the invitation, or a new one where no user has that
  -- address.
  pub accepted_invitation_grants :
      (token : String) (password : Option String) (current_user : Option CurrentUser) (db : Db)
      (r : InvitationAccepted)
      → (accept_invitation env call token password current_user db).0 ≡ ok r
      → (i : OrganizationInvitation) × (find (has_token env call token) db.invitations ≡ some i)
        × (is_open i ≡ true)
        × (call.now < i.expires_at)
        × (r.organization_id ≡ i.organization_id)
        × (get_current_membership i.organization_id r.user_id
              (accept_invitation env call token password current_user db).1
            ≡ ok (record {
              organization_id = i.organization_id;
              user_id = r.user_id;
              role = i.role;
            }))
        × (((c : CurrentUser) × (u : User) × (current_user ≡ some c)
              × (find (λ u. str_eq u.email i.email) db.users ≡ some u)
              × (u.active ≡ true)
              × (u.id ≡ c.id)
              × (r.user_id ≡ c.id))
            ⊎ ((current_user ≡ none)
                × (find (λ u. str_eq u.email i.email) db.users ≡ none)
                × (any
                      (λ u. str_eq u.email i.email && u.id == r.user_id)
                      (accept_invitation env call token password current_user db).1.users
                    ≡ true)))
  unfolding get_current_membership
  accepted_invitation_grants token password current_user db r h =
      let a = accept_invitation-Accepted token password current_user db r h in
      let after = (accept_invitation env call token password current_user db).1 in
      let w =
        write_acceptance-result a.invitation a.acceptor (call.concurrent db) r after a.written in
      (
        a.invitation,
        a.found,
        a.pending,
        a.in_time,
        a.result.0,
        ground (arith, w.2),
        acceptor-cases password current_user a.invitation a.acceptor db r after a.accepting
            a.written,
      )
