-- ===== src/Http.antt =====
-- What a client is answered: the handlers of app/main.py, and the routes that move stock.
pub mod Inventory
pub mod Sales
pub mod Strangers
use dpg_business_app_starter.Base.{
  ℕ, String, Bool, true, false, Option, none, some, leb, text_length,
}
use dpg_business_app_starter.Database.{
  Error, permission_denied, organization_not_found, invalid_credentials,
}

-- A response with a status and a body, an error response with a status and a code, or an exception
-- that no handler catches, which the server answers with the status 500.
pub data Response (A : Type 0) : Type 0 where
  reply : (status : ℕ) → A → Response A
  failure : (status : ℕ) (code : String) → Response A
  unhandled : Error → Response A

module _ {A : Type 0} where
  abbrev pub is_reply : Response A → Bool
  is_reply (reply status a) = true
  is_reply e = false

  -- The exception handlers of the application.
  unfoldable pub application_handler : Error → Response A
  application_handler invalid_credentials = failure 401 "INVALID_CREDENTIALS"
  application_handler organization_not_found = failure 404 "ORGANIZATION_NOT_FOUND"
  application_handler (permission_denied permission) = failure 403 "PERMISSION_DENIED"
  application_handler e = unhandled e

  abbrev pub validation_error : Response A
  validation_error = failure 422 "VALIDATION_ERROR"

-- `Field(max_length=...)` of a text that may be missing.
unfoldable pub fits : ℕ → Option String → Bool
unfolding text_length
fits limit none = true
fits limit (some text) = leb (text_length text) limit
