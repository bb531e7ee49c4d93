-- ===== src/Database/External.antt =====
-- What the program takes from outside the repository: hashing, password verification, the text of
-- a UUID, the rounding of a `Numeric(20, 6)` column, and for each call the clock, fresh UUIDs and
-- the commits of other clients.
use dpg_business_app_starter.Base.{
  ℕ, ◌*◌, ◌/◌, ◌^◌, ◌≤◌, ◌<◌, ◌≡◌, some, none, String, Bool, Option, List,
}
use dpg_business_app_starter.Database.Rows.{
  MovementType, ReturnDisposition, ReturnKind, RefundResolution,
}
use dpg_business_app_starter.Database.Transaction.{Db}

-- The payloads that are hashed. JSON with sorted keys is a function of the fields alone, and
-- `normalize` makes the text of a decimal a function of its value.
pub record SaleLinePayload : Type 0 where
  pub product_id : ℕ
  pub quantity : ℕ
  pub unit_price : Option ℕ

pub record ReturnLinePayload : Type 0 where
  pub product_id : ℕ
  pub quantity : ℕ
  pub disposition : ReturnDisposition

pub data Payload : Type 0 where
  movement_payload :
      (organization product warehouse performer : ℕ) (type : MovementType) (quantity : ℕ)
      (reason : String) (reference : Option String)
      → Payload
  transfer_payload :
      (organization product source destination performer quantity : ℕ) (reason : String)
      (reference : Option String)
      → Payload
  -- f"transfer:{organization_id}:{idempotency_key}"
  transfer_prefix : (organization : ℕ) (idempotency_key : String) → Payload
  sale_payload :
      (organization warehouse seller : ℕ) (lines : List SaleLinePayload)
      (discount_reason : Option String) (approver : Option ℕ)
      → Payload
  -- f"sale:{sale_id}"
  sale_prefix : (sale : ℕ) → Payload
  return_payload :
      (organization sale processor : ℕ) (kind : ReturnKind) (resolution : RefundResolution)
      (reason : String) (lines : List ReturnLinePayload)
      → Payload
  -- f"sale-return:{sale_return_id}"
  return_prefix : (sale_return : ℕ) → Payload

pub record Environment : Type 0 where
  -- `hashlib.sha256(...).hexdigest()`
  pub sha256 : Payload → String
  -- `str` of a UUID
  pub uuid_str : ℕ → String
  -- `UUID` of a text, where it is one
  pub uuid_parse : String → Option ℕ
  -- `password_hasher.verify` and `password_hasher.hash`
  pub verify : String → String → Bool
  pub hash : String → String
  -- `str.upper`
  pub upper : String → String
  -- `str.lower`
  pub lower : String → String
  -- `hashlib.sha256(token.encode()).hexdigest()`
  pub token_digest : String → String
  -- The order of the database on texts: whether one sorts before another
  pub collates : String → String → Bool
      -- SQL's `ilike` of a text with a pattern, whose escape is the backslash
  pub ilike : String → String → Bool
  -- A product of two amounts, in units of 10^-12, as the column stores it in millionths.
  pub stored : ℕ → ℕ

-- The payload of an access token. The times are those of the clock, before they are encoded.
pub record Claims : Type 0 where
  pub sub : String
  pub iat : ℕ
  pub exp : ℕ
  pub iss : String

-- The package `jwt`, with the one algorithm of the program: `jwt.encode(payload, key)`, and the
-- subject of the payload that `jwt.decode(token, key, issuer)` returns at a time, if it accepts the
-- token.
pub record Jwt : Type 1 where
  pub Token : Type 0
  pub encode : Claims → String → Token
  pub decode : Token → (key issuer : String) → (now : ℕ) → Option String

-- A time as a token holds it, in whole seconds.
abbrev pub whole_seconds : ℕ → ℕ
whole_seconds t = t / 10 ^ 6 * 10 ^ 6

-- What the documentation of the package says: a token is accepted under its key and issuer from its
-- issue on until it expires, and not from then on.
pub record IsJwt (jwt : Jwt) : Type 0 where
  pub accepted :
      (claims : Claims) (key : String) (now : ℕ)
      → claims.iat ≤ now
      → now < whole_seconds claims.exp
      → jwt.decode (jwt.encode claims key) key claims.iss now ≡ some claims.sub
  pub expired :
      (claims : Claims) (key : String) (now : ℕ)
      → whole_seconds claims.exp ≤ now
      → jwt.decode (jwt.encode claims key) key claims.iss now ≡ none

-- What one call meets: the clock, the UUIDs that are drawn, the commits of other clients.
pub record Call : Type 0 where
  pub now : ℕ
  pub uuid4 : ℕ → ℕ
  -- `secrets.token_urlsafe(32)`
  pub token_urlsafe : String
  pub concurrent : Db → Db
