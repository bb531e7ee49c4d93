-- ===== src/Accounts/Invitations/Lifecycle.antt =====
-- From an invitation to its acceptance, and no further (app/modules/invitations/use_cases.py).
use dpg_business_app_starter.Base.{
  ◌+◌, ◌*◌, ◌^◌, ◌<◌, ◌≡◌, refl, sym, subst, ap, ◌∙◌, arith, String, true, false, ◌==◌, Option,
  none, some, is_some, List, ◌∷◌, any, find, any-find, find_absent, find-update_where_kept,
  update_where, Bool-cases, inl, inr, strip, str_eq, str_eq_iff,
}
use dpg_business_app_starter.Database.{
  Db, ok, err, Environment, Call, OrganizationInvitation, members_manage, invalid_invitation,
  is_member,
}
use dpg_business_app_starter.Database.Laws.{Result-cases}
use dpg_business_app_starter.Authorization.{
  CurrentMembership, require_permission, get_current_membership,
}
use dpg_business_app_starter.Accounts.{CurrentUser, insert_user, insert_membership}
use dpg_business_app_starter.Accounts.Invitations.{
  InvitationCreated, InvitationAccepted, fresh, is_open, insert_invitation, new_invitation,
  is_superseded, revoke, create_invitation, has_token, valid_invitation, acceptor_of, write_user,
  write_acceptance, accept_invitation,
}
use dpg_business_app_starter.Accounts.Invitations.Acceptance.{
  accept_invitation-Accepted, write_acceptance-result, accepted_invitation_grants,
}

module _ (env : Environment) (call later : Call) where
  -- A token that finds a closed invitation is refused.
  closed_invitation_refused :
      (token : String) (password : Option String) (current_user : Option CurrentUser) (db : Db)
      (i : OrganizationInvitation)
      → find (has_token env later token) db.invitations ≡ some i
      → is_open i ≡ false
      → accept_invitation env later token password current_user db ≡ (err invalid_invitation, db)
  unfolding accept_invitation valid_invitation
  closed_invitation_refused token password current_user db i f c =
      ground (arith, Bool-cases (is_some i.accepted_at), Bool-cases (is_some i.revoked_at))

  -- An invitation is accepted at most once: after an acceptance the same token is refused, whoever
  -- presents it at whatever time, and nothing is written, if the lock of the row kept other clients
  -- from changing it during the acceptance.
  pub invitation_accepted_once :
      (token : String) (password password' : Option String)
      (current_user current_user' : Option CurrentUser) (db : Db) (r : InvitationAccepted)
      → (accept_invitation env call token password current_user db).0 ≡ ok r
      → find (has_token env call token) (call.concurrent db).invitations
        ≡ find (has_token env call token) db.invitations
      → accept_invitation env later token password' current_user'
          (accept_invitation env call token password current_user db).1
        ≡ (err invalid_invitation, (accept_invitation env call token password current_user db).1)
  invitation_accepted_once token password password' current_user current_user' db r h locked =
      let a = accept_invitation-Accepted env call token password current_user db r h in
      let after = (accept_invitation env call token password current_user db).1 in
      let i = a.invitation in
      let w =
        write_acceptance-result env call i a.acceptor (call.concurrent db) r after a.written in
      let found =
        find-update_where_kept (λ o. o.id == i.id) (has_token env call token)
          (λ o. record o { accepted_at = some call.now }) (call.concurrent db).invitations i
          (λ y. refl) (locked ∙ a.found) in
      closed_invitation_refused token password' current_user' after
        (record i { accepted_at = some call.now }) (ground (arith, found, w.3)) refl

  -- What a created invitation has written.
  created_invitation :
      (m : CurrentMembership) (email role : String) (db : Db) (c : InvitationCreated)
      → (create_invitation env call m email role db).0 ≡ ok c
      → ((create_invitation env call m email role db).1.invitations
          ≡ new_invitation env call m (env.lower (strip email)) role
            ∷ update_where
                (is_superseded env call m (env.lower (strip email)))
                (revoke env call m)
                db.invitations)
        × (any
              (λ o. str_eq o.token_hash (env.token_digest call.token_urlsafe))
              (update_where
                (is_superseded env call m (env.lower (strip email)))
                (revoke env call m)
                db.invitations)
            ≡ false)
        × (c.acceptance_token ≡ call.token_urlsafe)
        × (c.expires_at ≡ (new_invitation env call m (env.lower (strip email)) role).expires_at)
  unfolding create_invitation insert_invitation
  created_invitation m email role db c h =
      elim (Result-cases (require_permission m members_manage)) [
        | inr (e, f) ↦ absurd (ground arith)
        | inl (tt, f) ↦ ground arith
      ]

  -- Of two digests one of which is taken and the other is not.
  digests_differ :
      (d e : String) (is : List OrganizationInvitation) (i : OrganizationInvitation)
      → find (λ o. str_eq o.token_hash d) is ≡ some i
      → any (λ o. str_eq o.token_hash e) is ≡ false
      → str_eq e d ≡ false
  digests_differ d e is i f a = elim (Bool-cases (str_eq e d)) [
    | inr differ ↦ differ
    | inl same ↦
        let taken = any-find (λ o. str_eq o.token_hash d) is i f in
        let equal : e ≡ d = (str_eq_iff e d).0 same in
        absurd
          (ground (arith, taken, ap (λ (x : String). any (λ o. str_eq o.token_hash x) is) equal))
  ]

  -- An invitation to the address is closed after the revocation, whether it was open or not.
  superseded_closed :
      (m : CurrentMembership) (email : String) (i : OrganizationInvitation)
      → i.organization_id ≡ m.organization_id
      → i.email ≡ email
      → is_open (elim (is_superseded env call m email i) [ true ↦ revoke env call m i | false ↦ i ])
        ≡ false
  superseded_closed m email i o e = ground (arith, str_eq_iff i.email email)

  -- A new invitation revokes the earlier ones of its organization to the same normalized address:
  -- their tokens are refused from then on, and nothing is written.
  pub new_invitation_revokes :
      (m : CurrentMembership) (email role token : String) (password : Option String)
      (current_user : Option CurrentUser) (db : Db) (c : InvitationCreated)
      (i : OrganizationInvitation)
      → (create_invitation env call m email role db).0 ≡ ok c
      → find (has_token env call token) db.invitations ≡ some i
      → i.organization_id ≡ m.organization_id
      → i.email ≡ env.lower (strip email)
      → accept_invitation env later token password current_user
          (create_invitation env call m email role db).1
        ≡ (err invalid_invitation, (create_invitation env call m email role db).1)
  new_invitation_revokes m email role token password current_user db c i h f same_organization
        same_email =
      let after = (create_invitation env call m email role db).1 in
      let normalized = env.lower (strip email) in
      let w = created_invitation m email role db c h in
      let old =
        update_where (is_superseded env call m normalized) (revoke env call m) db.invitations in
      let found =
        find-update_where_kept (is_superseded env call m normalized) (has_token env call token)
          (revoke env call m) db.invitations i (λ y. refl) f in
      let differ =
        digests_differ (env.token_digest token) (env.token_digest call.token_urlsafe) old _ found
          w.1 in
      closed_invitation_refused token password current_user after
        (elim (is_superseded env call m normalized i) [ true ↦ revoke env call m i | false ↦ i ])
        (ground (arith, w.0, found, differ))
        (superseded_closed m normalized i same_organization same_email)

  -- What a new user's acceptance answers.
  accepted_by_new_user :
      (token password : String) (db : Db) (i : OrganizationInvitation)
      → valid_invitation env later token db ≡ ok i
      → acceptor_of env later (some password) none i db ≡ ok (fresh (env.hash password))
      → any (λ u. str_eq u.email i.email) (later.concurrent db).users ≡ false
      → is_member i.organization_id (later.uuid4 0) (later.concurrent db) ≡ false
      → (accept_invitation env later token (some password) none db).0
        ≡ ok
            (record { organization_id = i.organization_id; user_id = later.uuid4 0; role = i.role })
  unfolding accept_invitation write_acceptance write_user insert_user insert_membership
  accepted_by_new_user token password db i v a u k = ground arith

  -- A round trip: the token of a new invitation, presented within its twenty-four hours by someone
  -- who is not logged in and gives a password, makes them a member of the organization with the role
  -- of the invitation, as the answer says and as the memberships read afterwards, if at that time no user has the address and the UUID that is drawn is fresh.
  pub invitation_round_trip :
      (m : CurrentMembership) (email role password : String) (db : Db) (c : InvitationCreated)
      → (create_invitation env call m email role db).0 ≡ ok c
      → later.now < call.now + 24 * (3600 * 10 ^ 6)
      → any
          (λ u. str_eq u.email (env.lower (strip email)))
          (create_invitation env call m email role db).1.users
        ≡ false
      → any
          (λ u. str_eq u.email (env.lower (strip email)))
          (later.concurrent (create_invitation env call m email role db).1).users
        ≡ false
      → is_member m.organization_id
          (later.uuid4 0)
          (later.concurrent (create_invitation env call m email role db).1)
        ≡ false
      → ((accept_invitation env later c.acceptance_token
            (some password)
            none
            (create_invitation env call m email role db).1).0
          ≡ ok (record {
            organization_id = m.organization_id;
            user_id = later.uuid4 0;
            role = role;
          }))
        × (get_current_membership m.organization_id
              (later.uuid4 0)
              (accept_invitation env later c.acceptance_token
                (some password)
                none
                (create_invitation env call m email role db).1).1
            ≡ ok (record {
              organization_id = m.organization_id;
              user_id = later.uuid4 0;
              role = role;
            }))
  unfolding accept_invitation valid_invitation acceptor_of write_acceptance write_user insert_user
      insert_membership
  invitation_round_trip m email role password db c h in_time unknown still_unknown not_member =
      let w = created_invitation m email role db c h in
      let after = (create_invitation env call m email role db).1 in
      let i = new_invitation env call m (env.lower (strip email)) role in
      let nobody =
        find_absent (λ u. str_eq u.email (env.lower (strip email))) after.users unknown in
      let valid : valid_invitation env later c.acceptance_token after ≡ ok i = ground (
        arith,
        w.0,
        w.2,
        str_eq_iff (env.token_digest call.token_urlsafe) (env.token_digest call.token_urlsafe),
      ) in
      let accepting : acceptor_of env later (some password) none i after
          ≡ ok (fresh (env.hash password)) =
        ground (arith, nobody) in
      let answered =
        accepted_by_new_user c.acceptance_token password after i valid accepting still_unknown
          not_member in
      let found : find (has_token env later c.acceptance_token) after.invitations ≡ some i =
        ground (
          arith,
          w.0,
          w.2,
          str_eq_iff (env.token_digest call.token_urlsafe) (env.token_digest call.token_urlsafe),
        ) in
      let (j, j_found, _, _, _, member, _) =
        accepted_invitation_grants env later c.acceptance_token (some password) none after _
          answered in
      let same : i ≡ j = ground (arith, found, j_found) in
      (
        answered,
        subst
            (λ (o : OrganizationInvitation).
              get_current_membership o.organization_id (later.uuid4 0)
                (accept_invitation env later c.acceptance_token (some password) none after).1
              ≡ ok (record {
                organization_id = o.organization_id;
                user_id = later.uuid4 0;
                role = o.role;
              }))
            (sym same) member,
      )
