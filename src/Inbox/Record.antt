-- ===== src/Inbox/Record.antt =====
-- app/services/sms_inbox.py: `record_inbound_sms`.
use auto_bot_lbc_pj.Prelude.{
  ℕ, String, Bool, false, List, [], ◌∷◌, ◌++◌, Option, none, some, ltb, ◌==◌, if◌then◌else◌, any,
  select, modify, first_chars, ◌≡◌, Bool-cases, inl, inr, Result, ok, err, ◌>>=◌, commit,
}
use auto_bot_lbc_pj.Models.{ContactStatus, SmsStatus, SmsDirection, SmsClassification}
use auto_bot_lbc_pj.Tables.{Contact, Listing, inbound_key, SmsLog, Db}
use auto_bot_lbc_pj.Sms.Sequences.{key_is}
use auto_bot_lbc_pj.Inbox.Phones.{normalize_inbound_phone}
use auto_bot_lbc_pj.Inbox.Classify.{classify_sms}
use auto_bot_lbc_pj.Inbox.Contacts.{
  Error, integrity_error, Outside, by_phone, new_contact, add_contact, stop_contact_sequences,
}

-- An inbound message as the webhook hands it over, under the key of its event.
pub record Inbound : Type 0 where
  pub sim_id : String
  pub sender : String
  pub body : String
  pub event_key : String

-- `db.add(SmsLog(...))` at the commit: the keys are unique.
unfoldable pub insert_log : SmsLog → String → Db → Result Error Db
insert_log row key db =
    if any (key_is (inbound_key key)) db.sms_log
    then err integrity_error
    else ok (record db { sms_log = db.sms_log ++ row ∷ [] })

-- What an insertion that succeeds did, and the key was new.
pub insert_log_inserts :
    (row : SmsLog) (key : String) (db db' : Db)
    → insert_log row key db ≡ ok db'
    → (db'.contacts ≡ db.contacts)
      × (db'.blacklist ≡ db.blacklist)
      × (db'.sms_log ≡ db.sms_log ++ row ∷ [])
      × (any (key_is (inbound_key key)) db.sms_log ≡ false)
unfolding insert_log
insert_log_inserts row key db db' done =
    elim (Bool-cases (any (key_is (inbound_key key)) db.sms_log)) [
      | inl old ↦ let no = rw old at done in cc
      | inr new ↦ let it = rw new at done in (cc, cc, cc, new)
    ]

unfoldable pub inbound_log :
    ℕ → Inbound → SmsClassification → (to_phone : String) → Option Contact → Option Listing → SmsLog
inbound_log now m classification to_phone contact listing = record {
  sim_id = m.sim_id;
  to_phone = to_phone;
  listing_id = elim listing [ none ↦ none | some l ↦ some l.id ];
  body = m.body;
  status = SmsStatus.received;
  cost_eur = none;
  campaign_id = elim listing [ none ↦ none | some l ↦ l.campaign_id ];
  contact_id = elim contact [ none ↦ none | some c ↦ some c.id ];
  direction = SmsDirection.inbound;
  sequence_step = none;
  variant_key = none;
  classification = some classification;
  idempotency_key = some (inbound_key m.event_key);
  received_at = some now;
  sent_at = now;
}

abbrev of_contact : ℕ → Listing → Bool
of_contact id l = elim l.contact_id [ none ↦ false | some c ↦ c == id ]

-- `.order_by(Listing.created_at.desc()).limit(1)`.
abbrev newest : List Listing → Option Listing
newest [] = none
newest (l ∷ rest) = elim (newest rest) [
  | none ↦ some l
  | some best ↦ if ltb l.created_at best.created_at then some best else some l
]

abbrev pub listing_of_contact : ℕ → Db → Option Listing
listing_of_contact id db = newest (select (of_contact id) db.listings)

abbrev pub status_after : SmsClassification → ContactStatus
status_after SmsClassification.stop = ContactStatus.do_not_contact
status_after SmsClassification.invalid = ContactStatus.invalid
status_after _ = ContactStatus.paused

abbrev pub answered : ℕ → SmsClassification → Contact → Contact
answered now classification c = record c {
  last_classification = some classification;
  last_inbound_at = some now;
  status = status_after classification;
}

-- The contact of a number, made if it is new.
unfoldable pub contact_for : Outside → String → Db → Contact × Db
contact_for out phone db = elim (by_phone phone db) [
  | some c ↦ (c, db)
  | none ↦ let c = new_contact out.new_contact phone in (c, add_contact c db)
]

abbrev pub write_contact : ℕ → (Contact → Contact) → Db → Db
write_contact id f db = record db { contacts = modify (λ c. c.id) id f db.contacts }

-- The first session for a number that is valid: the contact's identifier.
unfoldable pub record_session :
    Outside → Inbound → SmsClassification → String → Db → Result Error (ℕ × Db)
record_session out m classification phone db = do
  let found = contact_for out phone db
  let contact = found.0
  let row =
      inbound_log out.now m classification phone (some contact)
        (listing_of_contact contact.id found.1)
  logged ← insert_log row m.event_key found.1
  ok (contact.id, write_contact contact.id (answered out.now classification) logged)

abbrev pub stop_status : SmsClassification → ContactStatus
stop_status SmsClassification.stop = ContactStatus.do_not_contact
stop_status _ = ContactStatus.paused

pub data RecordStatus : Type 0 where
  invalid_sender recorded : RecordStatus

-- After the first session: every classification ends the contact's sequences.
abbrev pub then_stop : SmsClassification → Result Error ℕ × Db → Result Error RecordStatus × Db
then_stop classification (err e, db) = (err e, db)
then_stop classification (ok contact_id, db) =
    (ok recorded, stop_contact_sequences contact_id (stop_status classification) db)

abbrev pub answer_invalid : Result Error Db → Result Error (RecordStatus × Db)
answer_invalid (err e) = err e
answer_invalid (ok db) = ok (invalid_sender, db)

unfoldable pub record_inbound_sms :
    Outside → (squeeze : String → String) → Inbound → Db → Result Error RecordStatus × Db
record_inbound_sms out squeeze m db = elim (normalize_inbound_phone out.phones m.sender) [
  | none ↦
      let row =
        inbound_log out.now m SmsClassification.invalid (first_chars 30 m.sender) none none in
      commit db (answer_invalid (insert_log row m.event_key db))
  | some phone ↦
      let classification = classify_sms squeeze m.body in
      then_stop classification (commit db (record_session out m classification phone db))
]
