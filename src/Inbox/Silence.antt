-- ===== src/Inbox/Silence.antt =====
-- Once a contact is not active, the sequences never write to it again.
use auto_bot_lbc_pj.Prelude.{
  ℕ, String, Bool, false, ◌&&◌, List, [], ◌∷◌, none, some, ◌==◌, get, select, length, ◌≡◌, refl,
  ◌∙◌, ap, arith, inl, inr, Result, ok, err, commit, Bool-cases, Option-cases, Result-cases,
  get-modify, get-append_old, length-select-snoc, commit_ind, str_eq, first_chars, Returns, any,
  if_both,
}
use auto_bot_lbc_pj.Models.{ContactStatus, SmsClassification, contact_is_active, is_outbound}
use auto_bot_lbc_pj.Tables.{Contact, SmsLog, Payload, WebhookEvent, Db}
use auto_bot_lbc_pj.Sms.Blacklist.{add_to_blacklist, add_to_blacklist_elsewhere}
use auto_bot_lbc_pj.Inbox.Phones.{normalize_inbound_phone}
use auto_bot_lbc_pj.Inbox.Classify.{classify_sms, is_stop_word}
use auto_bot_lbc_pj.Inbox.Contacts.{
  Error, Outside, by_phone, add_contact, new_contact, stop_contact_sequences,
}
use auto_bot_lbc_pj.Inbox.Record.{
  Inbound, RecordStatus, insert_log, insert_log_inserts, listing_of_contact, inbound_log,
  contact_for, write_contact, answered, status_after, stop_status, record_session, then_stop,
  record_inbound_sms,
}
use auto_bot_lbc_pj.Inbox.Webhook.{
  Texts, Received, extract_sms_payload, add_event, new_event, event_is, receive_sms, replay_all,
  if_recorded, stored_message,
}

-- The contact is in the table and is not active.
abbrev pub Inactive : ℕ → Db → Type 0
Inactive i db =
    (c : Contact) × (get (λ c. c.id) i db.contacts ≡ some c) × (contact_is_active c.status ≡ false)

abbrev pub goes_to : ℕ → SmsLog → Bool
goes_to i l = is_outbound l.direction && (elim l.contact_id [ none ↦ false | some c ↦ c == i ])

-- How many messages the log has to the contact.
abbrev pub sent_to : ℕ → Db → ℕ
sent_to i db = length (select (goes_to i) db.sms_log)

-- Still not active, and no message more.
pub record Silent (i : ℕ) (db db' : Db) : Type 0 where
  pub still : Inactive i db'
  pub none_more : sent_to i db' ≡ sent_to i db

module _ (i : ℕ) where
  pub Silent-trans : {a b c : Db} → Silent i a b → (Inactive i b → Silent i b c) → Silent i a c
  Silent-trans f g = record {
    still = (g f.still).still;
    none_more = (g f.still).none_more ∙ f.none_more;
  }

  pub Silent-refl : (db : Db) → Inactive i db → Silent i db db
  Silent-refl db h = record { still = h; none_more = refl }

  -- Neither contacts nor log changed.
  pub same_rows :
      (a b : Db) → b.contacts ≡ a.contacts → b.sms_log ≡ a.sms_log → Inactive i a → Silent i a b
  same_rows a b contacts log (c, there, off) = record {
    still = (c, ap (get (λ c. c.id) i) contacts ∙ there, off);
    none_more = ap (λ l. length (select (goes_to i) l)) log;
  }

  pub add_contact-Silent : (c : Contact) (db : Db) → Inactive i db → Silent i db (add_contact c db)
  add_contact-Silent c db (d, there, off) = record {
    still = (d, get-append_old (λ c. c.id) i db.contacts (c ∷ []) d there, off);
    none_more = refl;
  }

  write_contact-Silent :
      (j : ℕ) (f : Contact → Contact) (db : Db)
      → ((c : Contact) → (f c).id ≡ c.id)
      → ((c : Contact) → contact_is_active (f c).status ≡ false)
      → Inactive i db
      → Silent i db (write_contact j f db)
  write_contact-Silent j f db keep off (c, there, was) =
      let after = get-modify (λ c. c.id) j i f db.contacts keep in
      elim (Bool-cases (j == i)) [
        | inl same ↦ record { still = (f c, rw (after, same, there) refl, off c); none_more = refl }
        | inr other ↦ record { still = (c, rw (after, other) there, was); none_more = refl }
      ]

  status_after_off : (k : SmsClassification) → contact_is_active (status_after k) ≡ false
  status_after_off k = ground arith

  pub stop_status_off : (k : SmsClassification) → contact_is_active (stop_status k) ≡ false
  stop_status_off k = ground arith

  stop_contact_sequences-Silent :
      (j : ℕ) (s : ContactStatus) (db : Db)
      → contact_is_active s ≡ false
      → Inactive i db
      → Silent i db (stop_contact_sequences j s db)
  unfolding stop_contact_sequences
  stop_contact_sequences-Silent j s db off h =
      let w = write_contact-Silent j (λ c. record c { status = s }) db (λ c. refl) (λ c. off) h in
      record { still = w.still; none_more = refl }

  insert_log-Silent :
      (row : SmsLog) (key : String) (db db' : Db)
      → goes_to i row ≡ false
      → insert_log row key db ≡ ok db'
      → Inactive i db
      → Silent i db db'
  insert_log-Silent row key db db' inbound done (c, there, off) =
      let (contacts, _, log, _) = insert_log_inserts row key db db' done in
      let more = length-select-snoc (goes_to i) db.sms_log row in
      record {
        still = (c, ap (get (λ c. c.id) i) contacts ∙ there, off);
        none_more = ap (λ l. length (select (goes_to i) l)) log ∙ more ∙ (rw inbound (omega arith));
      }

  contact_for-Silent :
      (out : Outside) (phone : String) (db : Db)
      → Inactive i db
      → Silent i db (contact_for out phone db).1
  unfolding contact_for
  contact_for-Silent out phone db h = elim (Option-cases (by_phone phone db)) [
    | inl nobody ↦
        rw (nobody, contact_for) (add_contact-Silent (new_contact out.new_contact phone) db h)
    | inr (c, there) ↦ rw (there, contact_for) (Silent-refl db h)
  ]

  -- A session whose body keeps the contact silent does.
  pub commit-Silent {ℓ} :
      {A : Type ℓ} (db : Db) (m : Result Error (A × Db))
      → Inactive i db
      → Returns (λ _. Silent i db) m
      → Silent i db (commit db m).1
  commit-Silent db m h body = commit_ind (Silent i db) db m (Silent-refl db h) body

  record_session-Silent :
      (out : Outside) (m : Inbound) (k : SmsClassification) (phone : String) (db : Db)
      → Inactive i db
      → Returns (λ _. Silent i db) (record_session out m k phone db)
  unfolding record_session inbound_log
  record_session-Silent out m k phone db h =
      let found = contact_for out phone db in
      let row =
        inbound_log out.now m k phone (some found.0) (listing_of_contact found.0.id found.1) in
      elim (Result-cases (insert_log row m.event_key found.1)) [
        | inr (e, failed) ↦ rw failed tt
        | inl (logged, done) ↦ rw done (
            Silent-trans (contact_for-Silent out phone db h) λ h₁.
              Silent-trans (insert_log-Silent row m.event_key found.1 logged refl done h₁) λ h₂.
                write_contact-Silent found.0.id (answered out.now k) logged (λ c. refl)
                  (λ c. status_after_off k) h₂)
      ]

  then_stop-Silent :
      (k : SmsClassification) (db : Db) (r : Result Error ℕ × Db)
      → Silent i db r.1
      → Silent i db (then_stop k r).1
  then_stop-Silent k db (err e, db') h = h
  then_stop-Silent k db (ok j, db') h =
      Silent-trans h (stop_contact_sequences-Silent j (stop_status k) db' (stop_status_off k))

  pub record_inbound_sms-Silent :
      (out : Outside) (squeeze : String → String) (m : Inbound) (db : Db)
      → Inactive i db
      → Silent i db (record_inbound_sms out squeeze m db).1
  unfolding record_inbound_sms inbound_log
  record_inbound_sms-Silent out squeeze m db h =
      elim (Option-cases (normalize_inbound_phone out.phones m.sender)) [
        | inr (phone, valid) ↦
            rw (valid, record_inbound_sms)
              (then_stop-Silent (classify_sms squeeze m.body) db _ (
                commit-Silent db (record_session out m (classify_sms squeeze m.body) phone db) h
                  (record_session-Silent out m (classify_sms squeeze m.body) phone db h)))
        | inl invalid ↦
            let row =
              inbound_log out.now m SmsClassification.invalid (first_chars 30 m.sender) none none in
            elim (Result-cases (insert_log row m.event_key db)) [
              | inr (e, failed) ↦ rw (invalid, failed, record_inbound_sms) (Silent-refl db h)
              | inl (logged, done) ↦
                  rw (invalid, done, record_inbound_sms)
                    (insert_log-Silent row m.event_key db logged refl done h)
            ]
      ]

  add_to_blacklist-Silent :
      (phone sim project : String) (db : Db)
      → Inactive i db
      → Silent i db (add_to_blacklist phone sim project db)
  add_to_blacklist-Silent phone sim project db h =
      let (contacts, log, _, _) = add_to_blacklist_elsewhere phone sim project db in
      same_rows db (add_to_blacklist phone sim project db) contacts log h

  pub receive_sms-Silent :
      (now : ℕ) (texts : Texts) (payload : Payload) (db : Db)
      → Inactive i db
      → Silent i db (receive_sms now texts payload db).1
  unfolding receive_sms
  receive_sms-Silent now texts payload db h =
      let m = extract_sms_payload texts payload in
      let stored = add_event (new_event now m.event_key payload) db in
      if_both (λ (r : Received × Db). Silent i db r.1) (str_eq m.event_key "") _ _
        (Silent-refl db h)
        (if_both (λ (r : Received × Db). Silent i db r.1)
          (any (event_is m.event_key) db.webhook_events) _ _ (Silent-refl db h)
          (if_both (Silent i db) (is_stop_word (texts.strip_lower m.body)) _ _
            (Silent-trans (same_rows db stored refl refl h)
              (add_to_blacklist-Silent m.sender m.sim_id "P1+P2" stored))
            (same_rows db stored refl refl h)))

  pub if_recorded-Silent :
      (key : String) (db : Db) (r : Result Error RecordStatus × Db)
      → Silent i db r.1
      → Silent i db (if_recorded key r).1
  if_recorded-Silent key db (ok a, db') h = record { still = h.still; none_more = h.none_more }
  if_recorded-Silent key db (err e, db') h = h

  pub replay_all-Silent :
      (outs : String → Outside) (texts : Texts) (es : List WebhookEvent) (db : Db)
      → Inactive i db
      → Silent i db (replay_all outs texts es db).1
  unfolding replay_all
  replay_all-Silent outs texts [] db h = Silent-refl db h
  replay_all-Silent outs texts (e ∷ es) db h =
      Silent-trans
        (if_recorded-Silent e.event_key db _
          (record_inbound_sms-Silent (outs e.event_key) texts.squeeze (stored_message e) db h))
        (replay_all-Silent outs texts es _)
