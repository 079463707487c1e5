-- ===== src/Inbox/Webhook.antt =====
-- app/webhooks/sms.py, and `replay_pending_sms_events` of app/services/sms_inbox.py.
use text.Mathlib.Text.{◌==◌ as str_eq}
use Prim.Native.String.{◌++◌ as text_append}
use auto_bot_lbc_pj.Prelude.{
  ℕ, suc, String, Bool, true, false, not, ◌&&◌, List, [], ◌∷◌, ◌++◌, Option, none, some, ltb,
  if◌then◌else◌, any, map, select, update, take, lookup_text, first_chars, Result, ok, err,
}
use auto_bot_lbc_pj.Tables.{
  Payload, items, fields, SmsWebhookItem, StoredItem, StoredPayload, stored_items, stored_fields,
  WebhookEvent, Db,
}
use auto_bot_lbc_pj.Sms.Blacklist.{add_to_blacklist}
use auto_bot_lbc_pj.Inbox.Classify.{is_stop_word}
use auto_bot_lbc_pj.Inbox.Contacts.{Error, Outside}
use auto_bot_lbc_pj.Inbox.Record.{Inbound, RecordStatus, record_inbound_sms}

-- Python's text functions: the `squeeze` of `classify_sms`, `body.strip().lower()`, and the first 32
-- digits of sha256.
pub record Texts : Type 0 where
  pub squeeze : String → String
  pub strip_lower : String → String
  pub digest : String → String

abbrev text_of : Option String → String
text_of none = ""
text_of (some v) = v

-- `payload.get(a) or payload.get(b) or ""`.
abbrev first_of : String → String → List (String × String) → String
first_of a b payload = elim (lookup_text a payload) [
  | some v ↦ if str_eq v "" then text_of (lookup_text b payload) else v
  | none ↦ text_of (lookup_text b payload)
]

abbrev event_key : Texts → (sim_id from_number body timestamp : String) → String
event_key texts sim_id from_number body timestamp = texts.digest (
    text_append sim_id (
      text_append ":"
        (text_append from_number (text_append ":" (text_append body (text_append ":" timestamp))))))

abbrev from_item : SmsWebhookItem → Inbound
from_item item = record {
  sim_id = item.receiver;
  sender = item.sender;
  body = item.content;
  event_key = first_chars 32 item.webhook_id;
}

abbrev from_fields : Texts → List (String × String) → Inbound
from_fields texts payload =
    let sim_id = first_of "sim_id" "to" payload in
    let sender = first_of "from" "sender" payload in
    let body = first_of "body" "content" payload in
    record {
      sim_id = sim_id;
      sender = sender;
      body = body;
      event_key = event_key texts sim_id sender body (first_of "ts" "timestamp" payload);
    }

-- `_extract_sms_payload`.
unfoldable pub extract_sms_payload : Texts → Payload → Inbound
extract_sms_payload texts (items []) = record {
  sim_id = "";
  sender = "";
  body = "";
  event_key = "";
}
extract_sms_payload texts (items (item ∷ _)) = from_item item
extract_sms_payload texts (fields payload) = from_fields texts payload

abbrev pub event_is : String → WebhookEvent → Bool
event_is key e = str_eq e.event_key key

-- `item.model_dump(mode="json")`.
abbrev model_dump : SmsWebhookItem → StoredItem
model_dump item = record {
  texts = ("webhook_id", item.webhook_id) ∷ ("webhook_type", item.webhook_type) ∷ [];
  message =
      ("id", item.id)
      ∷ ("date_utc", item.date_utc)
      ∷ ("sender", item.sender)
      ∷ ("receiver", item.receiver)
      ∷ ("content", item.content)
      ∷ [];
}

abbrev dump_payload : Payload → StoredPayload
dump_payload (items list) = stored_items (map model_dump list)
dump_payload (fields payload) = stored_fields payload

abbrev pub new_event : ℕ → String → Payload → WebhookEvent
new_event now key payload = record {
  event_key = key;
  source = "sms";
  processed = false;
  payload = dump_payload payload;
  created_at = now;
}

abbrev pub add_event : WebhookEvent → Db → Db
add_event e db = record db { webhook_events = db.webhook_events ++ e ∷ [] }

-- What the request leaves for the background: the message to record, if the event is new.
pub record Received : Type 0 where
  pub duplicate : Bool
  pub task : Option Inbound
  pub farewell : Bool

abbrev pub accept : Texts → Inbound → Db → Received × Db
accept texts m db =
    let stop = is_stop_word (texts.strip_lower m.body) in
    (
      record { duplicate = false; task = some m; farewell = stop },
      if stop then add_to_blacklist m.sender m.sim_id "P1+P2" db else db,
    )

-- INSERT ... ON CONFLICT (event_key) DO NOTHING RETURNING id, then the two background tasks.
unfoldable pub receive_sms : ℕ → Texts → Payload → Db → Received × Db
receive_sms now texts payload db =
    let m = extract_sms_payload texts payload in
    if str_eq m.event_key ""
    then (record { duplicate = false; task = none; farewell = false }, db)
    else if any (event_is m.event_key) db.webhook_events
    then (record { duplicate = true; task = none; farewell = false }, db)
    else accept texts m (add_event (new_event now m.event_key payload) db)

abbrev pub mark_processed : String → Db → Db
mark_processed key db = record db {
  webhook_events = update (event_is key) (λ e. record e { processed = true }) db.webhook_events;
}

abbrev pub if_recorded : String → Result Error RecordStatus × Db → Bool × Db
if_recorded key (ok _, db) = (true, mark_processed key db)
if_recorded key (err _, db) = (false, db)

-- `_safe_record_inbound_sms`: the exception is logged.
unfoldable pub safe_record_inbound_sms : Outside → Texts → Inbound → Db → Db
safe_record_inbound_sms out texts m db =
    (if_recorded m.event_key (record_inbound_sms out texts.squeeze m db)).1

-- How the replay reads a stored payload: under the event's own key.
unfoldable pub stored_message : WebhookEvent → Inbound
stored_message e = elim e.payload [
  | stored_items [] ↦ record { sim_id = ""; sender = ""; body = ""; event_key = e.event_key }
  | stored_items (item ∷ _) ↦ record {
    sim_id = text_of (lookup_text "receiver" item.message);
    sender = text_of (lookup_text "sender" item.message);
    body = text_of (lookup_text "content" item.message);
    event_key = e.event_key;
  }
  | stored_fields payload ↦ record {
    sim_id = first_of "sim_id" "to" payload;
    sender = first_of "from" "sender" payload;
    body = first_of "body" "content" payload;
    event_key = e.event_key;
  }
]

abbrev insert_oldest : WebhookEvent → List WebhookEvent → List WebhookEvent
insert_oldest e [] = e ∷ []
insert_oldest e (f ∷ rest) =
    let later = insert_oldest e rest in
    if ltb f.created_at e.created_at then f ∷ later else e ∷ f ∷ rest

-- `.order_by(WebhookEvent.created_at)`.
abbrev pub oldest_first : List WebhookEvent → List WebhookEvent
oldest_first [] = []
oldest_first (e ∷ rest) = insert_oldest e (oldest_first rest)

abbrev pub is_pending : WebhookEvent → Bool
is_pending e = str_eq e.source "sms" && not e.processed

abbrev pub pending_events : ℕ → Db → List WebhookEvent
pending_events limit db = take limit (oldest_first (select is_pending db.webhook_events))

-- The loop; each event meets its own outside.
unfoldable pub replay_all : (String → Outside) → Texts → List WebhookEvent → Db → ℕ × Db
replay_all outs texts [] db = (0, db)
replay_all outs texts (e ∷ rest) db =
    let m = stored_message e in
    let one = if_recorded e.event_key (record_inbound_sms (outs e.event_key) texts.squeeze m db) in
    let later = replay_all outs texts rest one.1 in
    (if one.0 then suc later.0 else later.0, later.1)

unfoldable pub replay_pending_sms_events : (String → Outside) → Texts → ℕ → Db → ℕ × Db
replay_pending_sms_events outs texts limit db = replay_all outs texts (pending_events limit db) db
