-- ===== src/Tests/Accounts.antt =====
-- Logins, tokens, the first organization and an invitation (app/core/security.py and the packages
-- organizations, memberships and invitations of app/modules).
use dpg_business_app_starter.Base.{
  ◌+◌, ◌*◌, ◌^◌, ◌<◌, ◌≡◌, ◌⊎◌, refl, arith, String, true, false, ◌&&◌, ◌==◌, leb, ltb, Option,
  none, some, List, [], ◌∷◌, any, find, str_eq, str_eq_iff, strip, text_length, if◌then◌else◌,
}
use dpg_business_app_starter.Database.{
  Db, ok, err, Call, Jwt, IsJwt, Claims, whole_seconds, User, OrganizationInvitation, sales_return,
  invalid_credentials, invalid_invitation, user_email_conflict, bootstrap_validation_error,
}
use dpg_business_app_starter.Authorization.{
  CurrentMembership, require_permission, get_current_membership,
}
use dpg_business_app_starter.Accounts.{CurrentUser}
use dpg_business_app_starter.Accounts.Security.{
  secret_key, current_user_of, user_claims, authenticate_user, create_access_token,
  get_current_user,
}
use dpg_business_app_starter.Accounts.Security.Tokens.{token_admits_user, token_expires}
use dpg_business_app_starter.Accounts.Organizations.{
  BootstrapResult, is_bootstrap_valid, bootstrap_transaction, bootstrap_organization,
}
use dpg_business_app_starter.Accounts.Organizations.Bootstrap.{
  bootstrapped_admin_logs_in, bootstrap_outcomes,
}
use dpg_business_app_starter.Accounts.Members.{MemberItem}
use dpg_business_app_starter.Database.{text_data_error, holds_text}
use dpg_business_app_starter.Accounts.Invitations.{
  InvitationCreated, InvitationAccepted, is_open, has_token, create_invitation, accept_invitation,
}
use dpg_business_app_starter.Accounts.Invitations.Acceptance.{accepted_invitation_grants}
use dpg_business_app_starter.Accounts.Invitations.Lifecycle.{
  invitation_accepted_once, new_invitation_revokes, invitation_round_trip,
}
use dpg_business_app_starter.Tests.Fixtures.{env, call_at, shop, current}

-- Tokens that are what they say, under the key with which they were made.
abbrev test_jwt : Jwt
test_jwt = record {
  Token = Claims × String;
  encode = λ claims key. (claims, key);
  decode = λ token key issuer now.
      if str_eq token.1 key
        && str_eq token.0.iss issuer
        && leb token.0.iat now
        && ltb now (whole_seconds token.0.exp)
      then some token.0.sub
      else none;
}

test_jwt-IsJwt : IsJwt test_jwt
test_jwt-IsJwt = record {
  accepted = λ claims key now from until.
      ground (arith, str_eq_iff key key, str_eq_iff claims.iss claims.iss);
  expired = λ claims key now late. ground arith;
}

abbrev ann : User
ann = record {
  id = 1;
  email = "ann";
  password_hash = "a long password";
  active = true;
  created_at = 0;
}

abbrev staffed : Db
staffed = record shop { users = ann ∷ [] }

abbrev secret : String
secret = "0123456789abcdef0123456789abcdef"

token_admits_user_example :
    get_current_user env test_jwt secret 1000
      (some (user_claims env test_jwt secret 100 (current_user_of ann), secret))
      staffed
    ≡ ok (current_user_of ann)
unfolding create_access_token secret_key text_length
token_admits_user_example =
    token_admits_user env test_jwt test_jwt-IsJwt secret 100 1000 staffed ann
      (user_claims env test_jwt secret 100 (current_user_of ann), secret) 1800 refl refl refl
      (omega arith) (omega arith)

token_expires_example :
    get_current_user env test_jwt secret 1900000000
      (some (user_claims env test_jwt secret 100 (current_user_of ann), secret))
      staffed
    ≡ err invalid_credentials
unfolding create_access_token secret_key text_length
token_expires_example =
    token_expires env test_jwt test_jwt-IsJwt secret 100 1900000000 staffed (current_user_of ann)
      (user_claims env test_jwt secret 100 (current_user_of ann), secret) 1800 refl (omega arith)

abbrev call : Call
call = call_at 100

abbrev founded : BootstrapResult
founded = record { organization_id = 100; admin_user_id = 101; admin_email = "bob@shop" }

bootstrapped_admin_logs_in_example :
    let after =
      (bootstrap_organization env call "second" " bob@shop" "another password" staffed).1 in
    (m : CurrentMembership) × (authenticate_user env " bob@shop" "another password" after
      ≡ ok (record { id = 101; email = "bob@shop" }))
    × (get_current_membership 100 101 after ≡ ok m)
    × (require_permission m sales_return ≡ ok tt)
unfolding bootstrap_organization is_bootstrap_valid bootstrap_transaction holds_text
bootstrapped_admin_logs_in_example =
    bootstrapped_admin_logs_in env call "second" " bob@shop" "another password" staffed founded
      sales_return refl refl

bootstrap_outcomes_example :
    ((is_bootstrap_valid env "second" " ann" "another password" ≡ false)
      × (bootstrap_organization env call "second" " ann" "another password" staffed
          ≡ (err bootstrap_validation_error, staffed)))
    ⊎ ((is_bootstrap_valid env "second" " ann" "another password" ≡ true)
        × ((holds_text 160 (strip "second") && holds_text 320 (env.lower (strip " ann"))) ≡ false)
        × (bootstrap_organization env call "second" " ann" "another password" staffed
            ≡ (err text_data_error, staffed)))
    ⊎ ((is_bootstrap_valid env "second" " ann" "another password" ≡ true)
        × ((holds_text 160 (strip "second") && holds_text 320 (env.lower (strip " ann"))) ≡ true)
        × (any (λ v. str_eq v.email (env.lower (strip " ann"))) staffed.users ≡ true)
        × (bootstrap_organization env call "second" " ann" "another password" staffed
            ≡ (err user_email_conflict, staffed)))
    ⊎ ((is_bootstrap_valid env "second" " ann" "another password" ≡ true)
        × ((holds_text 160 (strip "second") && holds_text 320 (env.lower (strip " ann"))) ≡ true)
        × (any (λ v. str_eq v.email (env.lower (strip " ann"))) staffed.users ≡ false)
        × (r : BootstrapResult) × ((bootstrap_organization env call "second" " ann"
              "another password" staffed).0
            ≡ ok r))
bootstrap_outcomes_example =
    bootstrap_outcomes env call "second" " ann" "another password" staffed refl

abbrev members : List MemberItem
members = record { user_id = 1; email = "ann"; role = "admin"; active = true } ∷ []

-- The invitation of a new salesperson.
abbrev invited : InvitationCreated
invited = record {
  id = 100;
  email = "new";
  role = "salesperson";
  expires_at = 100 + 24 * (3600 * 10 ^ 6);
  acceptance_token = "token";
}

abbrev with_invitation : Db
with_invitation = (create_invitation env call (current "admin") " new " "salesperson" staffed).1

abbrev accepting : Call
accepting = call_at 200

abbrev accepted : InvitationAccepted
accepted = record { organization_id = 1; user_id = 200; role = "salesperson" }

invitation_round_trip_example :
    ((accept_invitation env accepting "token" (some "my own password") none with_invitation).0
      ≡ ok (record { organization_id = 1; user_id = 200; role = "salesperson" }))
    × (get_current_membership 1 200
          (accept_invitation env accepting "token" (some "my own password") none with_invitation).1
        ≡ ok (record { organization_id = 1; user_id = 200; role = "salesperson" }))
unfolding create_invitation require_permission
invitation_round_trip_example =
    invitation_round_trip env call accepting (current "admin") " new " "salesperson"
      "my own password" staffed invited refl (omega arith) refl refl refl

accepted_once :
    (accept_invitation env accepting "token" (some "my own password") none with_invitation).0
    ≡ ok accepted
unfolding create_invitation require_permission
accepted_once =
    (invitation_round_trip env call accepting (current "admin") " new " "salesperson"
      "my own password" staffed invited refl (omega arith) refl refl refl).0

abbrev nobody : Option CurrentUser
nobody = none

accepted_invitation_grants_example :
    let after =
      (accept_invitation env accepting "token" (some "my own password") none with_invitation).1 in
    (i : OrganizationInvitation) × (find
        (has_token env accepting "token")
        with_invitation.invitations
      ≡ some i)
    × (is_open i ≡ true)
    × (accepting.now < i.expires_at)
    × (1 ≡ i.organization_id)
    × (get_current_membership i.organization_id 200 after
        ≡ ok (record { organization_id = i.organization_id; user_id = 200; role = i.role }))
    × (((c : CurrentUser) × (u : User) × (nobody ≡ some c)
          × (find (λ u. str_eq u.email i.email) with_invitation.users ≡ some u)
          × (u.active ≡ true)
          × (u.id ≡ c.id)
          × (accepted.user_id ≡ c.id))
        ⊎ ((nobody ≡ none)
            × (find (λ u. str_eq u.email i.email) with_invitation.users ≡ none)
            × (any (λ u. str_eq u.email i.email && u.id == 200) after.users ≡ true)))
accepted_invitation_grants_example =
    accepted_invitation_grants env accepting "token" (some "my own password") none with_invitation
      accepted accepted_once

abbrev again : Call
again = call_at 300

invitation_accepted_once_example :
    accept_invitation env again "token" none
      (some (current_user_of ann))
      (accept_invitation env accepting "token" (some "my own password") none with_invitation).1
    ≡ (
      err invalid_invitation,
      (accept_invitation env accepting "token" (some "my own password") none with_invitation).1,
    )
invitation_accepted_once_example =
    invitation_accepted_once env accepting again "token" (some "my own password") none none
      (some (current_user_of ann)) with_invitation accepted accepted_once refl

-- A second invitation to the same address.
abbrev second_call : Call
second_call = record again { token_urlsafe = "second" }

abbrev invited_again : InvitationCreated
invited_again = record {
  id = 300;
  email = "new";
  role = "admin";
  expires_at = 300 + 24 * (3600 * 10 ^ 6);
  acceptance_token = "second";
}

abbrev first_invitation : OrganizationInvitation
first_invitation = record {
  id = 100;
  organization_id = 1;
  email = "new";
  role = "salesperson";
  token_hash = "token";
  invited_by_user_id = 1;
  expires_at = 100 + 24 * (3600 * 10 ^ 6);
  accepted_at = none;
  revoked_at = none;
  created_at = 100;
}

new_invitation_revokes_example :
    let after =
      (create_invitation env second_call (current "admin") "new" "admin" with_invitation).1 in
    accept_invitation env (call_at 400) "token" (some "my own password") none after
    ≡ (err invalid_invitation, after)
unfolding create_invitation require_permission
new_invitation_revokes_example =
    new_invitation_revokes env second_call (call_at 400) (current "admin") "new" "admin" "token"
      (some "my own password") none with_invitation invited_again first_invitation refl refl refl
      refl
