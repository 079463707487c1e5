-- ===== src/Inbox/Samples.antt =====
-- Answers, deliveries and histories on small tables, and the theorems at them.
use auto_bot_lbc_pj.Prelude.{String, true, false, List, [], ◌∷◌, none, some, ◌≡◌, ◌≢◌, refl}
use auto_bot_lbc_pj.Models.{ContactStatus, SmsClassification, CampaignStatus, SmsStatus}
use auto_bot_lbc_pj.Tables.{Contact, Payload, fields, Db}
use auto_bot_lbc_pj.Samples.{empty_db, campaign, contact, sequence}
use auto_bot_lbc_pj.Sms.Messages.{default_settings}
use auto_bot_lbc_pj.Sms.Sequences.{World}
use auto_bot_lbc_pj.Inbox.Phones.{PhoneLibrary, extract_phone, normalize, normalize_inbound_phone}
use auto_bot_lbc_pj.Inbox.Classify.{classify_text, classify_sms, classify_text-ne-negative}
use auto_bot_lbc_pj.Inbox.Contacts.{Outside}
use auto_bot_lbc_pj.Inbox.Record.{Inbound, record_inbound_sms}
use auto_bot_lbc_pj.Inbox.Webhook.{
  Texts, extract_sms_payload, stored_message, receive_sms, safe_record_inbound_sms,
  replay_pending_sms_events,
}
use auto_bot_lbc_pj.Inbox.Delivery.{replay-background}
use auto_bot_lbc_pj.Inbox.Silence.{Silent}
use auto_bot_lbc_pj.Inbox.History.{
  Event, webhook, background, replay, start, run_due, history, history-Silent,
}

-- A package that takes every text for the number of the test contact.
abbrev library : PhoneLibrary
library = record {
  parse = λ s. some 1;
  is_valid_number = λ n. true;
  format_e164 = λ n. "+33612345678";
  search = λ s. some s;
  digits = λ s. s;
}

abbrev outside : Outside
outside = record { now = 500; new_contact = 30; new_sequence = 40; phones = library; delay = true }

abbrev texts : Texts
texts = record { squeeze = λ s. s; strip_lower = λ s. s; digest = λ s. s }

abbrev request : Payload
request = fields (("from", "0612345678") ∷ ("to", "sim-1") ∷ ("body", "stop") ∷ ("ts", "9") ∷ [])

abbrev db : Db
db = record empty_db {
  campaigns = campaign CampaignStatus.running ∷ [];
  contacts = contact ∷ [];
  sequences = sequence ∷ [];
}

abbrev paused : Contact
paused = record contact { status = ContactStatus.paused }

abbrev message : String → Inbound
message body = record { sim_id = "sim-1"; sender = "0612345678"; body = body; event_key = "e" }

program : Unit {0}
unfolding record_inbound_sms normalize_inbound_phone extract_phone normalize classify_sms
    classify_text extract_sms_payload receive_sms stored_message
program = tt

replay-background_example :
    let (received, db') = receive_sms 7 texts request db in
    (received.task ≡ some (extract_sms_payload texts request))
    × ((replay_pending_sms_events (λ _. outside) texts 1 db').1
        ≡ safe_record_inbound_sms outside texts (extract_sms_payload texts request) db')
unfolding program
replay-background_example = replay-background 7 0 outside texts request db refl refl refl

abbrev world : World
world = record {
  paris_hour = λ t. 10;
  get_sim_list = λ s. some (record { id = "sim-1"; status = some "active" } ∷ []);
  send_sms = λ s sim phone body. some (record { status = SmsStatus.sent; cost = 4 });
  digest_byte = λ s step. 0;
  texts = record {
    format = λ template url title. some title;
    contains = λ text part. false;
    lower = λ s. s;
    tidy = λ s. s;
  };
  db_now = 1_000_100;
}

abbrev events : List Event
events =
    webhook 7 texts request
    ∷ background outside texts (message "oui")
    ∷ start outside "0612345678" 1 none []
    ∷ replay (λ _. outside) texts 10
    ∷ run_due default_settings world 1_000_100 100
    ∷ []

abbrev left_alone : Contact
left_alone = record contact { status = ContactStatus.do_not_contact }

abbrev left_db : Db
left_db = record db { contacts = left_alone ∷ [] }

history-Silent_example :
    Silent 3
      (record db { contacts = paused ∷ [] })
      (history events (record db { contacts = paused ∷ [] }))
history-Silent_example =
    history-Silent 3 events (record db { contacts = paused ∷ [] }) (paused, refl, refl)

classify_text-ne-negative_example :
    classify_text "desole, pas interesse" ≢ SmsClassification.negative
classify_text-ne-negative_example = classify_text-ne-negative "desole, pas interesse" refl

-- What such a text is taken for.
taken_for : classify_text "desole, pas interesse" ≡ SmsClassification.positive
unfolding program
taken_for = refl
