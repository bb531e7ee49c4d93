-- ===== src/Http/Inventory/Unhandled.antt =====
-- Which errors of a movement or a transfer the routes of app/modules/inventory/router.py leave to the
-- server.
use dpg_business_app_starter.Base.{ℕ, ◌≡◌, ◌⊎◌, arith, String, true, false, not, ◌&&◌, is_blank}
use dpg_business_app_starter.Database.{Error, numeric_overflow}
use dpg_business_app_starter.Inventory.Movement.Failures.{movement_can_raise}
use dpg_business_app_starter.Base.{text_length, has_char, Option, Bool, some, none, leb}
use dpg_business_app_starter.Database.{text_data_error, value_error, holds_texts}
use dpg_business_app_starter.Http.{fits, unhandled, application_handler}
use dpg_business_app_starter.Http.Inventory.{is_stock_request, movement_error, transfer_error}

-- A key of at most 128 characters, with a reason and a reference without a NUL character.
abbrev pub is_clean : (idempotency_key reason : String) (reference : Option String) → Bool
is_clean key reason none = leb (text_length key) 128 && not (has_char 0 reason)
is_clean key reason (some text) =
    leb (text_length key) 128 && not (has_char 0 reason) && not (has_char 0 text)

-- Of the texts that the schemas let through the columns hold the clean ones.
pub held_texts :
    (quantity : ℕ) (reason : String) (reference : Option String) (key : String)
    → is_stock_request quantity reason reference key ≡ true
    → holds_texts key reason reference ≡ false
    → is_clean key reason reference ≡ false
unfolding is_stock_request fits holds_texts
held_texts quantity reason none key v h = ground arith
held_texts quantity reason (some text) key v h = ground arith

-- The errors of a movement that its route leaves to the server: the overflow of a balance, a text
-- that its column does not hold, or the ValueError of a key of white space.
abbrev pub Unanswered :
    (idempotency_key reason : String) (reference : Option String) → Error → Type 0
Unanswered key reason reference x =
    (x ≡ numeric_overflow)
    ⊎ ((x ≡ text_data_error) × (is_clean key reason reference ≡ false))
    ⊎ ((x ≡ value_error) × (is_blank key ≡ true))

-- Of the errors that a movement can raise the route leaves two, both errors of the data.
pub raised_is_answered :
    (e x : Error)
    → movement_can_raise e ≡ true
    → movement_error e ≡ unhandled x
    → (x ≡ e) × ((x ≡ numeric_overflow) ⊎ (x ≡ text_data_error))
unfolding movement_can_raise movement_error application_handler
raised_is_answered e x h u = (ground arith, ground arith)

pub transfer_raised_is_answered :
    (e x : Error)
    → movement_can_raise e ≡ true
    → transfer_error e ≡ unhandled x
    → (x ≡ e) × ((x ≡ numeric_overflow) ⊎ (x ≡ text_data_error))
unfolding movement_can_raise transfer_error application_handler
transfer_raised_is_answered e x h u = (ground arith, ground arith)
