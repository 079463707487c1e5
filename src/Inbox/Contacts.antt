-- ===== src/Inbox/Contacts.antt =====
-- app/services/sms_sequence.py: who gets a sequence, and the end of a contact's sequences.
use text.Mathlib.Text.{◌==◌ as str_eq}
use auto_bot_lbc_pj.Prelude.{
  ℕ, String, Bool, true, false, ◌&&◌, List, [], ◌∷◌, ◌++◌, Option, none, some, ◌==◌, if◌then◌else◌,
  find, get, modify, update, Result, ok, err, ◌>>=◌, or_raise, commit, update_texts,
}
use auto_bot_lbc_pj.Models.{
  ContactStatus, SequenceStatus, contact_is_active, campaign_is_running, sequence_is_active,
}
use auto_bot_lbc_pj.Tables.{Contact, SmsSequence, Db}
use auto_bot_lbc_pj.Sms.Blacklist.{is_blacklisted}
use auto_bot_lbc_pj.Inbox.Phones.{PhoneLibrary, extract_phone}

-- `ValueError("invalid_phone")` and its like, a violated UNIQUE constraint, what `delay()` raises.
pub data Error : Type 0 where
  invalid_phone campaign_not_running listing_not_found campaign_required : Error
  integrity_error dispatch_failed : Error

-- Outside the repository: the clock, uuid4 for a new contact and a new sequence, the package for numbers,
-- and whether Celery takes a task.
pub record Outside : Type 0 where
  pub now : ℕ
  pub new_contact : ℕ
  pub new_sequence : ℕ
  pub phones : PhoneLibrary
  pub delay : Bool

abbrev pub phone_is : String → Contact → Bool
phone_is phone c = str_eq c.phone_e164 phone

-- `select(Contact).where(Contact.phone_e164 == phone)`; the column is unique.
abbrev pub by_phone : String → Db → Option Contact
by_phone phone db = find (phone_is phone) db.contacts

abbrev pub new_contact : ℕ → String → Contact
new_contact id phone = record {
  id = id;
  phone_e164 = phone;
  status = ContactStatus.active;
  last_classification = none;
  last_inbound_at = none;
}

abbrev pub campaign_is : ℕ → SmsSequence → Bool
campaign_is campaign_id s = elim s.campaign_id [ none ↦ false | some c ↦ c == campaign_id ]

abbrev pub pair_is : ℕ → ℕ → SmsSequence → Bool
pair_is contact_id campaign_id s = s.contact_id == contact_id && campaign_is campaign_id s

abbrev pub new_sequence : Outside → ℕ → Option ℕ → ℕ → List (String × String) → SmsSequence
new_sequence out contact_id listing_id campaign_id context = record {
  id = out.new_sequence;
  contact_id = contact_id;
  listing_id = listing_id;
  campaign_id = some campaign_id;
  next_step = 0;
  next_due_at = some out.now;
  status = SequenceStatus.active;
  context_json = context;
  created_at = out.now;
}

abbrev or_listing : Option ℕ → Option ℕ → Option ℕ
or_listing none new = new
or_listing (some old) new = some old

-- A sequence that is there takes over the context and a listing if it has none.
abbrev pub refresh_sequence : Option ℕ → List (String × String) → SmsSequence → SmsSequence
refresh_sequence listing_id context s = record s {
  context_json = update_texts s.context_json context;
  listing_id = or_listing s.listing_id listing_id;
}

pub data EnsureStatus : Type 0 where
  blacklisted scheduled : EnsureStatus
  not_active : ContactStatus → EnsureStatus

pub record Ensured : Type 0 where
  pub created : Bool
  pub status : EnsureStatus
  pub phone : String
  pub contact_id : Option ℕ
  pub sequence_id : Option ℕ

abbrev pub add_sequence : SmsSequence → Db → Db
add_sequence s db = record db { sequences = db.sequences ++ s ∷ [] }

-- The sequence of a contact that may be written to.
unfoldable pub ensure_sequence :
    Outside
    → (phone : String) (campaign_id : ℕ) (listing_id : Option ℕ) (context : List (String × String))
    → Contact
    → Db
    → Ensured × Db
ensure_sequence out phone campaign_id listing_id context contact db =
    elim (find (pair_is contact.id campaign_id) db.sequences) [
      | none ↦
          let s = new_sequence out contact.id listing_id campaign_id context in
          (
            record {
              created = true;
              status = scheduled;
              phone = phone;
              contact_id = some contact.id;
              sequence_id = some s.id;
            },
            add_sequence s db,
          )
      | some s ↦ (
        record {
          created = false;
          status = scheduled;
          phone = phone;
          contact_id = some contact.id;
          sequence_id = some s.id;
        },
        record db {
          sequences = modify (λ t. t.id) s.id (refresh_sequence listing_id context) db.sequences;
        },
      )
    ]

abbrev pub refused : EnsureStatus → String → Option ℕ → Ensured
refused status phone contact_id = record {
  created = false;
  status = status;
  phone = phone;
  contact_id = contact_id;
  sequence_id = none;
}

abbrev pub add_contact : Contact → Db → Db
add_contact c db = record db { contacts = db.contacts ++ c ∷ [] }

-- After the campaign was found running.
unfoldable pub ensure_contact :
    Outside
    → (phone : String) (campaign_id : ℕ) (listing_id : Option ℕ) (context : List (String × String))
    → Db
    → Ensured × Db
ensure_contact out phone campaign_id listing_id context db = elim (by_phone phone db) [
  | none ↦
      let contact = new_contact out.new_contact phone in
      ensure_sequence out phone campaign_id listing_id context contact (add_contact contact db)
  | some contact ↦
      if contact_is_active contact.status
      then ensure_sequence out phone campaign_id listing_id context contact db
      else (refused (not_active contact.status) phone (some contact.id), db)
]

abbrev pub campaign_runs : ℕ → Db → Bool
campaign_runs id db = elim (get (λ c. c.id) id db.campaigns) [
  | none ↦ false
  | some c ↦ campaign_is_running c.status
]

unfoldable pub ensure_contact_sequence_in_session :
    Outside
    → (phone : String) (campaign_id : ℕ) (listing_id : Option ℕ) (context : List (String × String))
    → Db
    → Result Error (Ensured × Db)
ensure_contact_sequence_in_session out phone campaign_id listing_id context db =
    elim (extract_phone out.phones phone) [
      | none ↦ err invalid_phone
      | some normalized ↦
          if is_blacklisted normalized db
          then ok (refused blacklisted normalized none, db)
          else if campaign_runs campaign_id db
          then ok (ensure_contact out normalized campaign_id listing_id context db)
          else err campaign_not_running
    ]

-- `run_sms_sequences_task.delay()` after the commit, for a sequence that is new.
abbrev pub announce : Outside → Result Error Ensured × Db → Result Error Ensured × Db
announce out (err e, db) = (err e, db)
announce out (ok a, db) =
    (if a.created && (if out.delay then false else true) then err dispatch_failed else ok a, db)

unfoldable pub ensure_contact_sequence :
    Outside
    → (phone : String) (campaign_id : ℕ) (listing_id : Option ℕ) (context : List (String × String))
    → Db
    → Result Error Ensured × Db
ensure_contact_sequence out phone campaign_id listing_id context db =
    announce out
      (commit db (ensure_contact_sequence_in_session out phone campaign_id listing_id context db))

abbrev pub title_or_default : Option String → String
title_or_default none = "votre vehicule"
title_or_default (some t) = if str_eq t "" then "votre vehicule" else t

abbrev pub link_listing : ℕ → Ensured × Db → Ensured × Db
link_listing listing_id (a, db) = elim a.contact_id [
  | none ↦ (a, db)
  | some contact ↦ (
    a,
    record db {
      listings =
          modify (λ l. l.id) listing_id
            (λ l. record l { phone = some a.phone; contact_id = some contact }) db.listings;
    },
  )
]

unfoldable pub listing_session : Outside → ℕ → String → Db → Result Error (Ensured × Db)
listing_session out listing_id phone db = do
  listing ← or_raise (get (λ l. l.id) listing_id db.listings) listing_not_found
  campaign_id ← or_raise listing.campaign_id campaign_required
  ensured ←
      ensure_contact_sequence_in_session out phone campaign_id (some listing.id)
        (("title", title_or_default listing.title) ∷ ("url", listing.url) ∷ []) db
  ok (link_listing listing.id ensured)

unfoldable pub ensure_contact_and_sequence : Outside → ℕ → String → Db → Result Error Ensured × Db
ensure_contact_and_sequence out listing_id phone db =
    announce out (commit db (listing_session out listing_id phone db))

abbrev pub cancel_sequence : SmsSequence → SmsSequence
cancel_sequence s = record s { status = SequenceStatus.cancelled; next_due_at = none }

abbrev pub runs_for : ℕ → SmsSequence → Bool
runs_for contact_id s = s.contact_id == contact_id && sequence_is_active s.status

unfoldable pub stop_contact_sequences : ℕ → ContactStatus → Db → Db
stop_contact_sequences contact_id status db = record db {
  contacts = modify (λ c. c.id) contact_id (λ c. record c { status = status }) db.contacts;
  sequences = update (runs_for contact_id) cancel_sequence db.sequences;
}
