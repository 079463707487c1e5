-- ===== src/Inbox/Stops.antt =====
-- What an answer of a seller does to the contact.
use auto_bot_lbc_pj.Prelude.{
  ℕ, String, false, List, [], ◌∷◌, some, get, modify, update, any, ◌≡◌, refl, arith, inl, inr, ok,
  Bool-cases, All, get-modify, ==_refl,
}
use auto_bot_lbc_pj.Models.{SmsClassification}
use auto_bot_lbc_pj.Tables.{Contact, SmsSequence, Db, inbound_key}
use auto_bot_lbc_pj.Sms.Sequences.{key_is}
use auto_bot_lbc_pj.Inbox.Phones.{normalize_inbound_phone}
use auto_bot_lbc_pj.Inbox.Classify.{classify_sms}
use auto_bot_lbc_pj.Inbox.Contacts.{
  Outside, by_phone, runs_for, cancel_sequence, stop_contact_sequences,
}
use auto_bot_lbc_pj.Inbox.Record.{
  Inbound, recorded, insert_log, inbound_log, contact_for, listing_of_contact, answered,
  stop_status, record_session, record_inbound_sms,
}

cancelled_ends : (id : ℕ) (s : SmsSequence) → runs_for id (cancel_sequence s) ≡ false
cancelled_ends id s = ground arith

-- No sequence of the contact runs.
pub none_runs :
    (id : ℕ) (ss : List SmsSequence)
    → All (λ s. runs_for id s ≡ false) (update (runs_for id) cancel_sequence ss)
none_runs id [] = tt
none_runs id (s ∷ ss) = elim (Bool-cases (runs_for id s)) [
  | inl runs ↦ rw runs (cancelled_ends id s, none_runs id ss)
  | inr ended ↦ rw ended (ended, none_runs id ss)
]

-- The contact after an answer: it has the number, the answer's status, and no sequence that runs.
pub record Stopped (c : Contact) (k : SmsClassification) (db : Db) : Type 0 where
  pub contact : Contact
  pub row : get (λ c. c.id) c.id db.contacts ≡ some contact
  pub same_phone : contact.phone_e164 ≡ c.phone_e164
  pub stopped : contact.status ≡ stop_status k
  pub remembered : contact.last_classification ≡ some k
  pub none_due : All (λ s. runs_for c.id s ≡ false) db.sequences

-- The answer of a known contact, at a valid number and under a key that the log does not have, is recorded: the
-- contact gets the status that the classification asks for, whatever its status was, and none of its
-- sequences runs any more.
pub record_inbound_sms-Stopped :
    (out : Outside) (squeeze : String → String) (m : Inbound) (db : Db) (phone : String)
    (c : Contact)
    → normalize_inbound_phone out.phones m.sender ≡ some phone
    → by_phone phone db ≡ some c
    → get (λ c. c.id) c.id db.contacts ≡ some c
    → any (key_is (inbound_key m.event_key)) db.sms_log ≡ false
    → let r = record_inbound_sms out squeeze m db in
      (r.0 ≡ ok recorded) × Stopped c (classify_sms squeeze m.body) r.1
unfolding record_inbound_sms record_session contact_for insert_log stop_contact_sequences
record_inbound_sms-Stopped out squeeze m db phone c valid known row new =
    let k = classify_sms squeeze m.body in
    let log = inbound_log out.now m k phone (some c) (listing_of_contact c.id db) in
    let once = get-modify (λ c. c.id) c.id c.id (answered out.now k) db.contacts (λ c. refl) in
    let first = modify (λ c. c.id) c.id (answered out.now k) db.contacts in
    let twice =
      get-modify (λ c. c.id) c.id c.id (λ c. record c { status = stop_status k }) first
        (λ c. refl) in
    rw (valid, known, new, record_inbound_sms, record_session, contact_for, insert_log)
      (
        refl,
        record {
          contact = record (answered out.now k c) { status = stop_status k };
          row = rw (twice, once, ==_refl c.id, row) refl;
          same_phone = refl;
          stopped = refl;
          remembered = refl;
          none_due = none_runs c.id db.sequences;
        },
      )
