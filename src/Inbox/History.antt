-- ===== src/Inbox/History.antt =====
-- Histories of what sellers write, what is imported and what the sequences send, and the contacts that
-- they leave alone.
use auto_bot_lbc_pj.Prelude.{
  ℕ, String, true, false, List, [], ◌∷◌, Option, none, some, ◌==◌, get, select, length, ◌≡◌, refl,
  sym, ◌∙◌, ap, arith, inl, inr, Result, ok, err, Bool-cases, Option-cases, All, ==→eq,
  length-select-append, Returns, Returns->>=,
}
use auto_bot_lbc_pj.Models.{contact_is_active}
use auto_bot_lbc_pj.Tables.{Contact, SmsLog, Payload, Db}
use auto_bot_lbc_pj.Sms.Messages.{Settings}
use auto_bot_lbc_pj.Sms.Sequences.{World}
use auto_bot_lbc_pj.Sms.Run.{run_due_sms_sequences}
use auto_bot_lbc_pj.Sms.Run.Safety.{Allowed, run_due_sms_sequences-allowed}
use auto_bot_lbc_pj.Inbox.Contacts.{
  Error, Outside, Ensured, announce, listing_session, link_listing,
  ensure_contact_sequence_in_session, ensure_contact_sequence, title_or_default,
  ensure_contact_and_sequence,
}
use auto_bot_lbc_pj.Inbox.Record.{Inbound}
use auto_bot_lbc_pj.Inbox.Webhook.{
  Texts, receive_sms, pending_events, safe_record_inbound_sms, replay_pending_sms_events,
}
use auto_bot_lbc_pj.Apify.Payload.{Json}
use auto_bot_lbc_pj.Apify.Rows.{Store}
use auto_bot_lbc_pj.Apify.Items.{Env, RunContext}
use auto_bot_lbc_pj.Apify.Ingestion.{import_one_item}
use auto_bot_lbc_pj.Inbox.Ensured.{ensure_session-Silent}
use auto_bot_lbc_pj.Inbox.Imported.{import_one_item-Silent}
use auto_bot_lbc_pj.Inbox.Silence.{
  Inactive, goes_to, Silent, Silent-trans, Silent-refl, commit-Silent, record_inbound_sms-Silent,
  receive_sms-Silent, replay_all-Silent, if_recorded-Silent,
}

-- What reaches the tables: a webhook request, its background task, a replay, the two ways to start a sequence,
-- a run of the due ones, and the import of an item from Apify, over its tables as they are then.
pub data Event : Type 0 where
  webhook : ℕ → Texts → Payload → Event
  background : Outside → Texts → Inbound → Event
  replay : (String → Outside) → Texts → ℕ → Event
  start :
      Outside
      → (phone : String) (campaign : ℕ) (listing : Option ℕ) (context : List (String × String))
      → Event
  start_for_listing : Outside → ℕ → String → Event
  run_due : Settings → World → (now limit : ℕ) → Event
  import_item : Env → RunContext → (index : ℕ) → Json → Store → Event

unfoldable pub respond : Event → Db → Db
respond (webhook now texts payload) db = (receive_sms now texts payload db).1
respond (background out texts m) db = safe_record_inbound_sms out texts m db
respond (replay outs texts limit) db = (replay_pending_sms_events outs texts limit db).1
respond (start out phone campaign listing context) db =
    (ensure_contact_sequence out phone campaign listing context db).1
respond (start_for_listing out id phone) db = (ensure_contact_and_sequence out id phone db).1
respond (run_due settings world now limit) db =
    (run_due_sms_sequences settings world now limit db).1
respond (import_item env context index payload s) db =
    (import_one_item env context index payload (record s { db = db })).1.db

unfoldable pub history : List Event → Db → Db
history [] db = db
history (e ∷ es) db = history es (respond e db)

abbrev or_default : Contact → Option Contact → Contact
or_default c none = c
or_default c (some d) = d

module _ (i : ℕ) where
  announce-Silent :
      (out : Outside) (db : Db) (r : Result Error Ensured × Db)
      → Silent i db r.1
      → Silent i db (announce out r).1
  announce-Silent out db (err e, db') h = h
  announce-Silent out db (ok a, db') h = h

  link_listing-Silent :
      (id : ℕ) (db : Db) (r : Ensured × Db) → Silent i db r.1 → Silent i db (link_listing id r).1
  link_listing-Silent id db (a, db') h = elim (Option-cases a.contact_id) [
    | inl nobody ↦ rw nobody h
    | inr (c, there) ↦ rw there (record { still = h.still; none_more = h.none_more })
  ]

  listing_session-Silent :
      (out : Outside) (id : ℕ) (phone : String) (db : Db)
      → Inactive i db
      → Returns (λ _. Silent i db) (listing_session out id phone db)
  unfolding listing_session
  listing_session-Silent out id phone db h = elim (Option-cases (get (λ l. l.id) id db.listings)) [
    | inl missing ↦ rw missing tt
    | inr (l, there) ↦ elim (Option-cases l.campaign_id) [
      | inl free ↦ rw (there, free) tt
      | inr (campaign, owned) ↦
          let context = ("title", title_or_default l.title) ∷ ("url", l.url) ∷ [] in
          rw (there, owned)
            (Returns->>= (λ _. Silent i db) (λ _. Silent i db)
              (ensure_contact_sequence_in_session out phone campaign (some l.id) context db) _
              (ensure_session-Silent i out phone campaign (some l.id) context db h)
              λ a db' s. link_listing-Silent l.id db (a, db') s)
    ]
  ]

  Allowed-goes_to : (db : Db) (l : SmsLog) → Inactive i db → Allowed db l → goes_to i l ≡ false
  Allowed-goes_to db l (c, there, off) a = elim (Bool-cases (a.contact_id == i)) [
    | inl same ↦
        let eq = ==→eq a.contact_id i same in
        let row = rw (eq, there) at a.row in
        let no : true ≡ false =
          sym a.active ∙ ap (λ o. contact_is_active (or_default c o).status) (sym row) ∙ off in
        cc
    | inr other ↦ rw a.addressed (ground (arith, other))
  ]

  all_elsewhere :
      (db : Db) (ls : List SmsLog)
      → Inactive i db
      → All (Allowed db) ls
      → length (select (goes_to i) ls) ≡ 0
  all_elsewhere db [] h g = refl
  all_elsewhere db (l ∷ ls) h g = rw (Allowed-goes_to db l h g.0) (all_elsewhere db ls h g.1)

  -- A run writes to active contacts alone.
  run_due_sms_sequences-Silent :
      (settings : Settings) (world : World) (now limit : ℕ) (db : Db)
      → Inactive i db
      → Silent i db (run_due_sms_sequences settings world now limit db).1
  run_due_sms_sequences-Silent settings world now limit db (c, there, off) =
      let o = (run_due_sms_sequences-allowed settings world now limit db).0 in
      let none_new = all_elsewhere db o.new (c, there, off) o.allowed in
      record {
        still = (c, ap (get (λ c. c.id) i) o.contacts ∙ there, off);
        none_more =
            ap (λ l. length (select (goes_to i) l)) o.logged
            ∙ length-select-append (goes_to i) db.sms_log o.new
            ∙ omega (arith, none_new);
      }

  respond-Silent : (e : Event) (db : Db) → Inactive i db → Silent i db (respond e db)
  unfolding respond safe_record_inbound_sms replay_pending_sms_events ensure_contact_sequence
      ensure_contact_and_sequence
  respond-Silent (webhook now texts payload) db h = receive_sms-Silent i now texts payload db h
  respond-Silent (background out texts m) db h =
      if_recorded-Silent i m.event_key db _ (record_inbound_sms-Silent i out texts.squeeze m db h)
  respond-Silent (replay outs texts limit) db h =
      replay_all-Silent i outs texts (pending_events limit db) db h
  respond-Silent (start out phone campaign listing context) db h =
      announce-Silent out db _
        (commit-Silent i db _ h (ensure_session-Silent i out phone campaign listing context db h))
  respond-Silent (start_for_listing out id phone) db h =
      announce-Silent out db _ (commit-Silent i db _ h (listing_session-Silent out id phone db h))
  respond-Silent (run_due settings world now limit) db h =
      run_due_sms_sequences-Silent settings world now limit db h
  respond-Silent (import_item env context index payload s) db h =
      import_one_item-Silent i env context index payload (record s { db = db }) h

  -- A contact that is in the table and not active stays so in any history of webhook requests, their
  -- background tasks, replays, new sequences, imported items and runs of the due ones, and the log has no
  -- message more that was sent to it.
  pub history-Silent : (es : List Event) (db : Db) → Inactive i db → Silent i db (history es db)
  unfolding history
  history-Silent [] db h = Silent-refl i db h
  history-Silent (e ∷ es) db h =
      Silent-trans i (respond-Silent e db h) (history-Silent es (respond e db))
