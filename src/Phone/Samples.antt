-- ===== src/Phone/Samples.antt =====
-- Runs on one activation, and the theorems at them.
use Prim.Native.Char.{code}
use auto_bot_lbc_pj.Prelude.{
  ltb, true, ◌&&◌, [], ◌∷◌, List, none, some, ◌≡◌, refl, ok, err, arith, leb,
}
use auto_bot_lbc_pj.Models.{PhoneActivationStatus, PhoneActivationOrigin, ActivationOrder}
use auto_bot_lbc_pj.Tables.{PhoneActivation, Db}
use auto_bot_lbc_pj.Samples.{empty_db}
use auto_bot_lbc_pj.Phone.Activations.{
  Outside, new_activation, set_status, refresh_phone_activation, refresh_row,
}
use auto_bot_lbc_pj.Phone.Operations.{reconcile_phone_activations, Counts, expire_due, refresh_all}
use auto_bot_lbc_pj.Phone.Codes.{Texts, sms_str, sms_text, otp_code}
use auto_bot_lbc_pj.Phone.Requests.{
  Request, record_order, refresh, cancel, link, mark_used, Meeting, respond_all,
}
use auto_bot_lbc_pj.Phone.Orders.{UniqueOrders, respond_all-UniqueOrders}

abbrev texts : Texts
texts = record {
  is_digit = λ c. leb 48 (code c) && ltb (code c) 58;
  is_word = λ c. leb 48 (code c);
  strip = λ s. s;
  upper = λ s. s;
  redact = λ s. s;
}

abbrev order : ActivationOrder
order = record {
  id = "o1";
  phone = "+33600000001";
  country = "fr";
  service = "leboncoin";
  cost = 1;
  expires = 500;
}

abbrev outside : Outside
outside = record {
  now = 100;
  new_id = 9;
  get_sms_activation = λ o. ok (record { status = some "RECEIVED"; sms = sms_str "code 4821 ok" });
  cancel_number = λ o. ok true;
  buy_number = λ c s. ok order;
  buy_number_with_fallback = λ s. err "none left";
}

abbrev meeting : Meeting
meeting = record { out = outside; later = λ i. outside }

abbrev row : PhoneActivation
row = new_activation outside order PhoneActivationOrigin.automatic none none

abbrev db : PhoneActivationStatus → Db
db status = record empty_db { activations = set_status status row ∷ [] }

abbrev history : List (Meeting × Request)
history =
    (meeting, refresh 9) ∷ (meeting, cancel 9) ∷ (meeting, refresh 9) ∷ (meeting, link "o1" 4) ∷ []

otp_code_runs : otp_code texts "code 4821 ok 77777" ≡ some "4821"
unfolding otp_code
otp_code_runs = refl

abbrev recordings : List (Meeting × Request)
recordings =
    (meeting, record_order order PhoneActivationOrigin.automatic none none)
    ∷ (meeting, record_order order PhoneActivationOrigin.automatic none (some 4))
    ∷ (meeting, mark_used "o1")
    ∷ []

none_twice : UniqueOrders empty_db
none_twice o = omega arith

respond_all-UniqueOrders_example : UniqueOrders (respond_all texts recordings empty_db)
respond_all-UniqueOrders_example = respond_all-UniqueOrders texts recordings empty_db none_twice

abbrev reconciled : Counts
reconciled = record { checked = 1; expired = 0; received = 1 }

reconcile_answers :
    (reconcile_phone_activations 100 (λ i. outside) texts 100 (db PhoneActivationStatus.waiting)).0
    ≡ ok reconciled
unfolding reconcile_phone_activations expire_due refresh_all refresh_phone_activation refresh_row
    sms_text otp_code
reconcile_answers = refl
