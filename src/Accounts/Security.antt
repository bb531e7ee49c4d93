-- ===== src/Accounts/Security.antt =====
-- Passwords and access tokens (app/core/security.py).
pub mod Tokens
use dpg_business_app_starter.Base.{
  ℕ, ◌+◌, ◌*◌, ◌^◌, String, Bool, Option, none, some, not, ◌&&◌, ◌==◌, ltb, str_eq, find, strip,
  text_length, if◌then◌else◌,
}
use dpg_business_app_starter.Database.{
  Db, Result, ok, err, Environment, Jwt, Claims, User, runtime_error, invalid_credentials,
}
use dpg_business_app_starter.Accounts.{CurrentUser}

abbrev token_issuer : String
token_issuer = "dpg-business-app-starter"

abbrev pub token_expire_minutes : ℕ
token_expire_minutes = 30

-- The environment variable `JWT_SECRET_KEY`, empty where it is not set.
unfoldable pub secret_key : String → Result String
unfolding text_length
secret_key secret = if ltb (text_length secret) 32 then err runtime_error else ok secret

abbrev pub current_user_of : User → CurrentUser
current_user_of u = record { id = u.id; email = u.email }

abbrev pub active_user : ℕ → User → Bool
active_user user u = u.id == user && u.active

-- A password that finds no user is verified against a dummy hash, whose answer is not used.
unfoldable pub authenticate_user : Environment → (email password : String) → Db → Result CurrentUser
unfolding strip
authenticate_user env email password db =
    elim (find (λ u. str_eq u.email (env.lower (strip email)) && u.active) db.users) [
      | none ↦ err invalid_credentials
      | some u ↦
          if not (env.verify password u.password_hash)
          then err invalid_credentials
          else ok (current_user_of u)
    ]

module _ (env : Environment) (jwt : Jwt) (secret : String) (now : ℕ) where
  abbrev pub user_claims : CurrentUser → Claims
  user_claims user = record {
    sub = env.uuid_str user.id;
    iat = now;
    exp = now + token_expire_minutes * (60 * 10 ^ 6);
    iss = token_issuer;
  }

  -- The token, and the seconds until it expires.
  unfoldable pub create_access_token : CurrentUser → Result (jwt.Token × ℕ)
  unfolding secret_key
  create_access_token user = elim (secret_key secret) [
    | err e ↦ err e
    | ok key ↦ ok (jwt.encode (user_claims user) key, token_expire_minutes * 60)
  ]

  unfoldable pub get_optional_current_user : Option jwt.Token → Db → Result (Option CurrentUser)
  unfolding secret_key
  get_optional_current_user none db = ok none
  get_optional_current_user (some token) db = elim (secret_key secret) [
    | err e ↦ err e
    | ok key ↦ elim (jwt.decode token key token_issuer now) [
      | none ↦ err invalid_credentials
      | some sub ↦ elim (env.uuid_parse sub) [
        | none ↦ err invalid_credentials
        | some user ↦ elim (find (active_user user) db.users) [
          | none ↦ err invalid_credentials
          | some u ↦ ok (some (current_user_of u))
        ]
      ]
    ]
  ]

  unfoldable pub get_current_user : Option jwt.Token → Db → Result CurrentUser
  unfolding get_optional_current_user
  get_current_user token db = elim (get_optional_current_user token db) [
    | err e ↦ err e
    | ok none ↦ err invalid_credentials
    | ok (some user) ↦ ok user
  ]
