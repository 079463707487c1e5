-- ===== src/Inbox/Phones.antt =====
-- Numbers in international form: app/services/phone_extractor.py and `normalize_inbound_phone`.
use Prim.Native.String.{◌++◌ as text_append, count}
use auto_bot_lbc_pj.Prelude.{
  ℕ, String, Bool, ◌&&◌, Option, none, some, ◌==◌, if◌then◌else◌, starts_with,
}

-- The package `phonenumbers` (a parsed number is a handle) for France, the search for the first match of
-- `_PHONE_RE`, and `re.sub(r"\D", "", s)`.
pub record PhoneLibrary : Type 0 where
  pub parse : String → Option ℕ
  pub is_valid_number : ℕ → Bool
  pub format_e164 : ℕ → String
  pub search : String → Option String
  pub digits : String → String

-- A number that is not valid counts if its digits have the French shape.
abbrev pub legacy : PhoneLibrary → String → Option String
legacy lib raw =
    let digits = lib.digits raw in
    if starts_with digits "33" && count digits == 11 then some (text_append "+" digits) else none

-- The empty text of the source is `none`.
unfoldable pub normalize : PhoneLibrary → String → Option String
normalize lib raw = elim (lib.parse raw) [
  | none ↦ none
  | some number ↦
      if lib.is_valid_number number then some (lib.format_e164 number) else legacy lib raw
]

unfoldable pub extract_phone : PhoneLibrary → String → Option String
extract_phone lib text = elim (lib.search text) [ none ↦ none | some found ↦ normalize lib found ]

unfoldable pub normalize_inbound_phone : PhoneLibrary → String → Option String
normalize_inbound_phone lib raw = elim (lib.parse raw) [
  | none ↦ none
  | some number ↦ if lib.is_valid_number number then some (lib.format_e164 number) else none
]
