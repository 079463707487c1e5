-- ===== src/Phone/Activations.antt =====
-- app/services/phone_operations.py: a phone number that is rented for one code: its row, and what asking the
-- provider, cancelling and linking make of it. A time that a session reads twice is the same.
use auto_bot_lbc_pj.Prelude.{
  ℕ, ◌+◌, String, Bool, ◌||◌, [], ◌∷◌, ◌++◌, Option, none, some, ltb, leb, if◌then◌else◌, get,
  modify, find, Result, ok, err, str_eq,
}
use auto_bot_lbc_pj.Models.{
  PhoneActivationStatus, PhoneActivationOrigin, ActivationOrder, activation_is_terminal,
  activation_is_received,
}
use auto_bot_lbc_pj.Tables.{PhoneActivation, Db}
use auto_bot_lbc_pj.Phone.Codes.{
  Texts, Payload, sms_text, provider_status, otp_code, sanitize_error,
}

-- `LookupError("phone_activation_not_found")`, and what buying a number raises.
pub data Error : Type 0 where
  not_found : Error
  purchase_failed : String → Error

-- Outside the repository: the clock, uuid4 and the provider of numbers behind boundaries.py, whose calls
-- return or raise an exception with a message.
pub record Outside : Type 0 where
  pub now : ℕ
  pub new_id : ℕ
  pub get_sms_activation : String → Result String Payload
  pub cancel_number : String → Result String Bool
  pub buy_number : String → String → Result String ActivationOrder
  pub buy_number_with_fallback : String → Result String ActivationOrder

abbrev pub order_is : String → PhoneActivation → Bool
order_is order a = str_eq a.provider_order_id order

-- `select(PhoneActivation).where(provider_order_id == order)`, `scalar_one_or_none()`; the column is unique.
abbrev pub by_order : String → Db → Option PhoneActivation
by_order order db = find (order_is order) db.activations

abbrev pub change : ℕ → (PhoneActivation → PhoneActivation) → Db → Db
change id f db = record db { activations = modify (λ a. a.id) id f db.activations }

abbrev pub expiry : ℕ → ActivationOrder → ℕ
expiry now order = if ltb 0 order.expires then order.expires else now + 120

abbrev pub or_else : Option ℕ → Option ℕ → Option ℕ
or_else none old = old
or_else (some new) old = some new

abbrev pub or_else_text : Option String → Option String → Option String
or_else_text none old = old
or_else_text (some new) old = some new

abbrev pub relink : Option String → Option ℕ → PhoneActivation → PhoneActivation
relink workflow_id account_id a = record a {
  platform_account_id = or_else account_id a.platform_account_id;
  workflow_id = or_else_text workflow_id a.workflow_id;
}

abbrev pub new_activation :
    Outside → ActivationOrder → PhoneActivationOrigin → Option String → Option ℕ → PhoneActivation
new_activation out order origin workflow_id account_id = record {
  id = out.new_id;
  provider_order_id = order.id;
  phone_e164 = order.phone;
  country = order.country;
  service = order.service;
  cost = order.cost;
  status = PhoneActivationStatus.waiting;
  origin = origin;
  platform_account_id = account_id;
  workflow_id = workflow_id;
  expires_at = expiry out.now order;
  received_at = none;
  used_at = none;
  received_sms = none;
  received_code = none;
  last_error = none;
  created_at = out.now;
  updated_at = out.now;
}

unfoldable pub record_phone_activation :
    Outside
    → ActivationOrder
    → PhoneActivationOrigin
    → Option String
    → Option ℕ
    → Db
    → PhoneActivation × Db
record_phone_activation out order origin workflow_id account_id db = elim (by_order order.id db) [
  | some existing ↦ (
    relink workflow_id account_id existing,
    change existing.id (relink workflow_id account_id) db,
  )
  | none ↦
      let activation = new_activation out order origin workflow_id account_id in
      (activation, record db { activations = db.activations ++ activation ∷ [] })
]

abbrev pub bought : Outside → Option String → String → Result String ActivationOrder
bought out none service = out.buy_number_with_fallback service
bought out (some country) service = out.buy_number country service

unfoldable pub reserve_phone_activation :
    Outside
    → Option String
    → String
    → PhoneActivationOrigin
    → Option String
    → Db
    → Result Error PhoneActivation × Db
reserve_phone_activation out country service origin workflow_id db =
    elim (bought out country service) [
      | err e ↦ (err (purchase_failed e), db)
      | ok order ↦
          let recorded = record_phone_activation out order origin workflow_id none db in
          (ok recorded.0, recorded.1)
    ]

abbrev pub failed_call : Outside → Texts → String → PhoneActivation → PhoneActivation
failed_call out texts e a = record a {
  last_error = some (sanitize_error texts e);
  updated_at = out.now;
}

abbrev pub set_status : PhoneActivationStatus → PhoneActivation → PhoneActivation
set_status status a = record a { status = status }

abbrev pub in_two : String → String → String → Bool
in_two s a b = str_eq s a || str_eq s b

-- The text of a message that the provider says it has received.
abbrev pub arrived : Texts → Payload → Option String
arrived texts payload =
    if str_eq (provider_status texts payload) "RECEIVED" then sms_text texts payload else none

abbrev pub answered : Outside → Texts → Payload → PhoneActivation → PhoneActivation
answered out texts payload a = elim (arrived texts payload) [
  | some text ↦ record a {
    status = PhoneActivationStatus.received;
    received_sms = some text;
    received_code = otp_code texts text;
    received_at = some out.now;
    last_error = none;
  }
  | none ↦
      let status = provider_status texts payload in
      if in_two status "CANCELLED" "CANCELED"
      then set_status PhoneActivationStatus.cancelled a
      else if in_two status "EXPIRED" "TIMEOUT"
      then set_status PhoneActivationStatus.expired a
      else if str_eq status "REFUNDED"
      then set_status PhoneActivationStatus.refunded a
      else a
]

abbrev pub touch : Outside → PhoneActivation → PhoneActivation
touch out a = record a { updated_at = out.now }

abbrev pub ask_provider : Outside → Texts → PhoneActivation → PhoneActivation
ask_provider out texts a = elim (out.get_sms_activation a.provider_order_id) [
  | err e ↦ failed_call out texts e a
  | ok payload ↦ touch out (answered out texts payload a)
]

unfoldable pub refresh_row : Outside → Texts → PhoneActivation → PhoneActivation
refresh_row out texts a =
    if activation_is_terminal a.status || activation_is_received a.status
    then a
    else if leb a.expires_at out.now
    then touch out (set_status PhoneActivationStatus.expired a)
    else ask_provider out texts a

-- `db.get(PhoneActivation, id)`, then what the session does with the row.
abbrev pub on_row : (PhoneActivation → PhoneActivation) → ℕ → Db → Result Error PhoneActivation × Db
on_row f id db = elim (get (λ a. a.id) id db.activations) [
  | none ↦ (err not_found, db)
  | some a ↦ (ok (f a), change id f db)
]

unfoldable pub refresh_phone_activation :
    Outside → Texts → ℕ → Db → Result Error PhoneActivation × Db
refresh_phone_activation out texts id db = on_row (refresh_row out texts) id db

unfoldable pub cancel_row : Outside → Texts → PhoneActivation → PhoneActivation
cancel_row out texts a =
    if activation_is_terminal a.status then a else elim (out.cancel_number a.provider_order_id) [
      | err e ↦ failed_call out texts e a
      | ok cancelled ↦ touch out (
          if cancelled
          then record a { status = PhoneActivationStatus.cancelled; last_error = none }
          else record a { last_error = some "provider_cancellation_rejected" })
    ]

unfoldable pub cancel_phone_activation :
    Outside → Texts → ℕ → Db → Result Error PhoneActivation × Db
cancel_phone_activation out texts id db = on_row (cancel_row out texts) id db

unfoldable pub link_phone_activation : String → ℕ → Db → Result Error PhoneActivation × Db
link_phone_activation order account_id db = elim (by_order order db) [
  | none ↦ (err not_found, db)
  | some a ↦ (ok (relink none (some account_id) a), change a.id (relink none (some account_id)) db)
]
