-- ===== src/Phone/Codes.antt =====
-- The text helpers of app/services/phone_operations.py: `_sms_text`, `_otp_code` and `_sanitize_error`.
use Prim.Native.Char.{Char}
use Prim.Native.String.{[] as no_text, ◌∷◌ as char_then, count}
use auto_bot_lbc_pj.Prelude.{
  String, Bool, true, ◌&&◌, List, [], ◌∷◌, Option, none, some, leb, if◌then◌else◌, first_chars,
  find,
}

-- Python's text functions: `re`'s `\d` and `\w`, `s.strip()`, `s.upper()` and the substitution that
-- replaces each bearer token by "Bearer [redacted]".
pub record Texts : Type 0 where
  pub is_digit : Char → Bool
  pub is_word : Char → Bool
  pub strip : String → String
  pub upper : String → String
  pub redact : String → String

-- `payload["sms"]`: a list of dictionaries and other values, a dictionary, a text or anything else.
-- A dictionary is its "text" entry, `none` where that is absent or falsy.
pub data SmsItem : Type 0 where
  item_dict : Option String → SmsItem
  item_other : String → SmsItem

pub data SmsField : Type 0 where
  sms_list : List SmsItem → SmsField
  sms_dict : Option String → SmsField
  sms_str : String → SmsField
  sms_other : SmsField

-- What the provider answers about an order.
pub record Payload : Type 0 where
  pub status : Option String
  pub sms : SmsField

abbrev or_empty : Option String → String
or_empty none = ""
or_empty (some s) = s

-- `s or None`.
abbrev or_none : String → Option String
or_none no_text = none
or_none (char_then c s) = some (char_then c s)

abbrev item_text : SmsItem → String
item_text (item_dict text) = or_empty text
item_text (item_other s) = s

unfoldable pub sms_text : Texts → Payload → Option String
sms_text texts payload = elim payload.sms [
  | sms_list [] ↦ none
  | sms_list (first ∷ _) ↦ or_none (texts.strip (item_text first))
  | sms_dict text ↦ or_none (texts.strip (or_empty text))
  | sms_str s ↦ or_none (texts.strip s)
  | sms_other ↦ none
]

abbrev pub provider_status : Texts → Payload → String
provider_status texts payload = texts.upper (or_empty payload.status)

abbrev pub all_chars : (Char → Bool) → String → Bool
all_chars p no_text = true
all_chars p (char_then c s) = p c && all_chars p s

abbrev extend : Char → List String → List String
extend c [] = char_then c no_text ∷ []
extend c (w ∷ ws) = char_then c w ∷ ws

-- The text between its characters that are not `\w`: `\b` stands at the ends of these.
abbrev words : Texts → String → List String
words texts no_text = no_text ∷ []
words texts (char_then c s) =
    let rest = words texts s in if texts.is_word c then extend c rest else no_text ∷ rest

abbrev pub is_code : Texts → String → Bool
is_code texts w = all_chars texts.is_digit w && (leb 4 (count w) && leb (count w) 8)

-- The first match of `\b\d{4,8}\b`.
unfoldable pub otp_code : Texts → String → Option String
otp_code texts text = find (is_code texts) (words texts text)

abbrev pub sanitize_error : Texts → String → String
sanitize_error texts message = first_chars 500 (texts.redact message)
