-- ===== src/Inbox/Delivery.antt =====
-- What a repeated delivery and a lost background task do.
use auto_bot_lbc_pj.Prelude.{
  ℕ, zero, suc, if_both, Bool, true, false, List, [], ◌∷◌, ◌++◌, none, some, select, take, any, ◌≡◌,
  refl, ◌∙◌, ap, arith, inl, inr, Bool-cases, str_eq, str_eq_refl,
}
use auto_bot_lbc_pj.Tables.{Payload, items, fields, WebhookEvent, Db}
use auto_bot_lbc_pj.Sms.Blacklist.{add_to_blacklist_elsewhere}
use auto_bot_lbc_pj.Inbox.Classify.{is_stop_word}
use auto_bot_lbc_pj.Inbox.Contacts.{Outside}
use auto_bot_lbc_pj.Inbox.Record.{Inbound, record_inbound_sms}
use auto_bot_lbc_pj.Inbox.Webhook.{
  Texts, Received, extract_sms_payload, new_event, add_event, event_is, receive_sms, accept,
  if_recorded, oldest_first, safe_record_inbound_sms, stored_message, is_pending, pending_events,
  replay_all, replay_pending_sms_events,
}

-- The replay reads a stored request as the request was read.
stored_message-new_event :
    (now : ℕ) (texts : Texts) (payload : Payload)
    → let m = extract_sms_payload texts payload in
      stored_message (new_event now m.event_key payload) ≡ m
unfolding stored_message extract_sms_payload
stored_message-new_event now texts (items []) = refl
stored_message-new_event now texts (items (item ∷ rest)) = refl
stored_message-new_event now texts (fields payload) = refl

abbrev repeated : Received
repeated = record { duplicate = true; task = none; farewell = false }

receive_taken :
    (now : ℕ) (texts : Texts) (payload : Payload) (db : Db)
    → str_eq (extract_sms_payload texts payload).event_key "" ≡ false
    → any (event_is (extract_sms_payload texts payload).event_key) db.webhook_events ≡ true
    → receive_sms now texts payload db ≡ (repeated, db)
unfolding receive_sms
receive_taken now texts payload db filled taken = rw (filled, taken) refl

receive_new :
    (now : ℕ) (texts : Texts) (payload : Payload) (db : Db)
    → let m = extract_sms_payload texts payload in
      str_eq m.event_key "" ≡ false
      → any (event_is m.event_key) db.webhook_events ≡ false
      → receive_sms now texts payload db
        ≡ accept texts m (add_event (new_event now m.event_key payload) db)
unfolding receive_sms
receive_new now texts payload db filled new = rw (filled, new) refl

accept_events :
    (texts : Texts) (m : Inbound) (db : Db)
    → (accept texts m db).1.webhook_events ≡ db.webhook_events
accept_events texts m db =
    if_both (λ (d : Db). d.webhook_events ≡ db.webhook_events)
      (is_stop_word (texts.strip_lower m.body)) _ _
      (add_to_blacklist_elsewhere m.sender m.sim_id "P1+P2" db).2 refl

any-snoc :
    (p : WebhookEvent → Bool) (es : List WebhookEvent) (e : WebhookEvent)
    → p e ≡ true
    → any p (es ++ e ∷ []) ≡ true
any-snoc p [] e h = ground (arith, h)
any-snoc p (d ∷ es) e h = ground (arith, any-snoc p es e h)

received_events :
    (now : ℕ) (texts : Texts) (payload : Payload) (db : Db)
    → let m = extract_sms_payload texts payload in
      str_eq m.event_key "" ≡ false
      → any (event_is m.event_key) (receive_sms now texts payload db).1.webhook_events ≡ true
received_events now texts payload db filled =
    let m = extract_sms_payload texts payload in
    let event = new_event now m.event_key payload in
    elim (Bool-cases (any (event_is m.event_key) db.webhook_events)) [
      | inl old ↦
          ap (λ r. any (event_is m.event_key) r.1.webhook_events)
            (receive_taken now texts payload db filled old)
          ∙ old
      | inr new ↦
          ap (λ r. any (event_is m.event_key) r.1.webhook_events)
            (receive_new now texts payload db filled new)
          ∙ ap (any (event_is m.event_key)) (accept_events texts m (add_event event db))
          ∙ any-snoc (event_is m.event_key) db.webhook_events event (str_eq_refl m.event_key)
    ]

-- The request of a key that is taken changes nothing, and says so.
pub receive_sms-duplicate :
    (now later : ℕ) (texts : Texts) (first second : Payload) (db : Db)
    → let key = (extract_sms_payload texts first).event_key in
      str_eq key "" ≡ false
      → (extract_sms_payload texts second).event_key ≡ key
      → let db' = (receive_sms now texts first db).1 in
        let again = receive_sms later texts second db' in
        (again.0.duplicate ≡ true) × (again.1 ≡ db')
receive_sms-duplicate now later texts first second db filled same =
    let db' = (receive_sms now texts first db).1 in
    let again =
      receive_taken later texts second db' (rw same filled)
        (rw same (received_events now texts first db filled)) in
    (ap (λ r. r.0.duplicate) again, ap (λ r. r.1) again)

pending_only :
    (es : List WebhookEvent) (e : WebhookEvent)
    → is_pending e ≡ true
    → select is_pending es ≡ []
    → select is_pending (es ++ e ∷ []) ≡ e ∷ []
pending_only [] e h none_waits = rw h refl
pending_only (d ∷ es) e h none_waits = elim (Bool-cases (is_pending d)) [
  | inl waits ↦ let no = rw waits at none_waits in cc
  | inr done ↦ rw done (pending_only es e h (rw done at none_waits))
]

take_one : (limit : ℕ) (e : WebhookEvent) → take (suc limit) (e ∷ []) ≡ e ∷ []
take_one zero e = refl
take_one (suc n) e = refl

replay_one :
    (out : Outside) (texts : Texts) (e : WebhookEvent) (db : Db)
    → (replay_all (λ _. out) texts (e ∷ []) db).1
      ≡ (if_recorded e.event_key (record_inbound_sms out texts.squeeze (stored_message e) db)).1
unfolding replay_all
replay_one out texts e db = refl

-- When no event waits and a new one arrives, a replay does to the tables what the event's background task does, so
-- a task that was lost is made up for.
pub replay-background :
    (now limit : ℕ) (out : Outside) (texts : Texts) (payload : Payload) (db : Db)
    → let key = (extract_sms_payload texts payload).event_key in
      str_eq key "" ≡ false
      → any (event_is key) db.webhook_events ≡ false
      → select is_pending db.webhook_events ≡ []
      → let (received, db') = receive_sms now texts payload db in
        (received.task ≡ some (extract_sms_payload texts payload))
        × ((replay_pending_sms_events (λ _. out) texts (suc limit) db').1
            ≡ safe_record_inbound_sms out texts (extract_sms_payload texts payload) db')
unfolding replay_pending_sms_events replay_all safe_record_inbound_sms
replay-background now limit out texts payload db filled new none_waits =
    let m = extract_sms_payload texts payload in
    let event = new_event now m.event_key payload in
    let got = receive_new now texts payload db filled new in
    let accepted = accept texts m (add_event event db) in
    let one : pending_events (suc limit) accepted.1 ≡ event ∷ [] =
      ap (λ es. take (suc limit) (oldest_first (select is_pending es)))
        (accept_events texts m (add_event event db))
      ∙ ap (λ es. take (suc limit) (oldest_first es))
          (pending_only db.webhook_events event refl none_waits)
      ∙ take_one limit event in
    let read = stored_message-new_event now texts payload in
    rw got (
      refl,
      ap (λ es. (replay_all (λ _. out) texts es accepted.1).1) one
          ∙ replay_one out texts event accepted.1
          ∙ ap
              (λ n. (if_recorded m.event_key (record_inbound_sms out texts.squeeze n accepted.1)).1)
              read,
    )
