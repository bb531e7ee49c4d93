-- ===== src/Accounts/Security/Tokens.antt =====
-- Logging in, and what an access token is good for (app/core/security.py).
use dpg_business_app_starter.Base.{
  ℕ, ◌+◌, ◌*◌, ◌^◌, ◌≤◌, ◌<◌, ◌≡◌, ◌↔◌, arith, String, true, ◌&&◌, none, some, find, Option-cases,
  inl, inr, Bool-cases, strip, str_eq,
}
use dpg_business_app_starter.Database.{
  Db, ok, err, Environment, Jwt, IsJwt, whole_seconds, User, invalid_credentials,
}
use dpg_business_app_starter.Database.Laws.{Result-cases}
use dpg_business_app_starter.Accounts.{CurrentUser}
use dpg_business_app_starter.Accounts.Security.{
  active_user, current_user_of, secret_key, user_claims, token_expire_minutes, authenticate_user,
  create_access_token, get_optional_current_user, get_current_user,
}

-- A login succeeds for exactly the active user with the normalized email whose stored hash verifies
-- the password.
pub authenticate_user_iff :
    (env : Environment) (email password : String) (db : Db) (user : CurrentUser)
    → (authenticate_user env email password db ≡ ok user) ↔ (
        (u : User) × (find (λ u. str_eq u.email (env.lower (strip email)) && u.active) db.users
          ≡ some u)
        × (env.verify password u.password_hash ≡ true)
        × (user ≡ current_user_of u))
unfolding authenticate_user
authenticate_user_iff env email password db user = (
  λ h.
      elim (Option-cases
        (find (λ u. str_eq u.email (env.lower (strip email)) && u.active) db.users)) [
          | inl none_e ↦ absurd (ground arith)
          | inr (u, e) ↦ elim (Bool-cases (env.verify password u.password_hash)) [
            | inl v ↦ (u, e, v, ground arith)
            | inr v ↦ absurd (ground arith)
          ]
        ],
  λ h. ground (arith, h.1, h.2, h.3),
)

module _ (env : Environment) (jwt : Jwt) (laws : IsJwt jwt) (secret : String) (issued : ℕ) where
  -- An access token of a user, under the same secret and as long as the user is active, lets in that
  -- user and nobody else from its issue on until thirty minutes later, counted in whole seconds, if
  -- the text of the user's UUID is read back as that UUID.
  pub token_admits_user :
      (now : ℕ) (db : Db) (u : User) (token : jwt.Token) (lifetime : ℕ)
      → env.uuid_parse (env.uuid_str u.id) ≡ some u.id
      → create_access_token env jwt secret issued (current_user_of u) ≡ ok (token, lifetime)
      → find (active_user u.id) db.users ≡ some u
      → issued ≤ now
      → now < whole_seconds (issued + token_expire_minutes * (60 * 10 ^ 6))
      → get_current_user env jwt secret now (some token) db ≡ ok (current_user_of u)
  unfolding create_access_token get_current_user get_optional_current_user
  token_admits_user now db u token lifetime parsed made active from until =
      elim (Result-cases (secret_key secret)) [
        | inr (e, f) ↦ absurd (ground arith)
        | inl (key, f) ↦ ground (
          arith,
          laws.accepted (user_claims env jwt secret issued (current_user_of u)) key now from until,
        )
      ]

  -- From then on it lets in nobody, whatever the users are.
  pub token_expires :
      (now : ℕ) (db : Db) (user : CurrentUser) (token : jwt.Token) (lifetime : ℕ)
      → create_access_token env jwt secret issued user ≡ ok (token, lifetime)
      → whole_seconds (issued + token_expire_minutes * (60 * 10 ^ 6)) ≤ now
      → get_current_user env jwt secret now (some token) db ≡ err invalid_credentials
  unfolding create_access_token get_current_user get_optional_current_user
  token_expires now db user token lifetime made late = elim (Result-cases (secret_key secret)) [
    | inr (e, f) ↦ absurd (ground arith)
    | inl (key, f) ↦
        ground (arith, laws.expired (user_claims env jwt secret issued user) key now late)
  ]

  -- A user that is not active is not let in by any token that was made for them.
  token_of_inactive_user :
      (now : ℕ) (db : Db) (user : CurrentUser) (token : jwt.Token) (lifetime : ℕ)
      → env.uuid_parse (env.uuid_str user.id) ≡ some user.id
      → create_access_token env jwt secret issued user ≡ ok (token, lifetime)
      → find (active_user user.id) db.users ≡ none
      → issued ≤ now
      → now < whole_seconds (issued + token_expire_minutes * (60 * 10 ^ 6))
      → get_current_user env jwt secret now (some token) db ≡ err invalid_credentials
  unfolding create_access_token get_current_user get_optional_current_user
  token_of_inactive_user now db user token lifetime parsed made gone from until =
      elim (Result-cases (secret_key secret)) [
        | inr (e, f) ↦ absurd (ground arith)
        | inl (key, f) ↦
            ground
              (arith, laws.accepted (user_claims env jwt secret issued user) key now from until)
      ]
