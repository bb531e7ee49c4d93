-- ===== src/Database/Texts.antt =====
-- What the text columns of app/modules/*/models.py hold. A text that is longer than its column, or
-- that has a NUL character, is refused with a DataError of the driver.
use dpg_business_app_starter.Base.{
  ℕ, String, Bool, true, not, ◌&&◌, Option, none, some, leb, text_length, has_char,
}

unfoldable pub holds_text : (width : ℕ) → String → Bool
unfolding text_length has_char
holds_text width text = leb (text_length text) width && not (has_char 0 text)

unfoldable pub holds_optional : (width : ℕ) → Option String → Bool
unfolding holds_text
holds_optional width none = true
holds_optional width (some text) = holds_text width text

-- A key comes in a header, which has no NUL character.
unfoldable pub holds_key : String → Bool
unfolding text_length
holds_key key = leb (text_length key) 128

-- The texts of a movement and of a transfer.
unfoldable pub holds_texts : (idempotency_key reason : String) (reference : Option String) → Bool
unfolding holds_key holds_text holds_optional
holds_texts key reason reference =
    holds_key key && holds_text 240 reason && holds_optional 120 reference
